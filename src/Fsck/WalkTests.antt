-- ===== src/Fsck/WalkTests.antt =====
-- Directories 2 and 3 are each other's parent; directory 4 has its parent in the root.
use computer_organization_an.Common.{ℕ, ◌≡◌, refl, true, false, List, [], ◌∷◌, replicate, set}
use computer_organization_an.Fsck.Image.{
  Image, inode, inode_from, u16, u32, words, bytes, block, pointers, dirents, entries, is_dotdot,
  bitmap_bit, this_bit,
}
use computer_organization_an.Fsck.Check.{Check, ok, read, read_as}
use computer_organization_an.Fsck.Walk.{Walk, walk_round, walk_direct, walk_entries, walk_indirect}
use computer_organization_an.Fsck.Bitmap.{this_bit-bitmap_bit}
use computer_organization_an.Fsck.Tests.{lookup_byte}

abbrev tangled : Image
tangled = lookup_byte (
    (1164, 30)
    ∷ (1228, 31)
    ∷ (1292, 32)
    ∷ (15360, 3)
    ∷ (15362, 46)
    ∷ (15363, 46)
    ∷ (15872, 2)
    ∷ (15874, 46)
    ∷ (15875, 46)
    ∷ (16384, 1)
    ∷ (16386, 46)
    ∷ (16387, 46)
    ∷ [])

-- The bits of directory 5.
abbrev bits_of_five : List ℕ
bits_of_five = set (replicate 200 0) 5 1

abbrev at_inode : ℕ → Walk
at_inode p = record { found = false; here = p }

-- A round in which everything computes.
round : ℕ → Check Walk
unfolding walk_round walk_direct walk_entries walk_indirect inode inode_from u16 u32 words bytes
    block pointers dirents entries is_dotdot read read_as
round p = walk_round tangled bits_of_five (at_inode p)

two_to_three : walk_round tangled bits_of_five (at_inode 2) ≡ ok (at_inode 3)
unfolding round
two_to_three = refl

three_to_two : walk_round tangled bits_of_five (at_inode 3) ≡ ok (at_inode 2)
unfolding round
three_to_two = refl

four_to_root : walk_round tangled bits_of_five (at_inode 4) ≡ ok (record { found = true; here = 4 })
unfolding round
four_to_root = refl

this_bit-bitmap_bit_example : this_bit tangled 600 ≡ bitmap_bit tangled 88
this_bit-bitmap_bit_example = this_bit-bitmap_bit tangled 600
