-- ===== src/Fsck/Blocks.antt =====
-- The checks of an inode's block addresses and of its size.
pub mod Claims
pub mod Scan
pub mod Inode
use computer_organization_an.Common.{
  ℕ, suc, ◌+◌, ◌*◌, ◌%◌, Bool, true, false, not, ◌&&◌, ◌||◌, List, [], ◌∷◌, ltb, leb, ◌==◌,
  if◌then◌else◌, get_or, take, sub32, word,
}
use computer_organization_an.Fsck.Image.{
  Image, Superblock, Dinode, block_size, ndirect, t_file, pointers, this_bit,
}
use computer_organization_an.Fsck.Check.{
  Check, ok, err, ◌>>=◌, err_if, claim, bad_direct, bad_indirect, marked_free, direct_twice,
  indirect_twice,
}

-- The marks of the addresses, `count_db_inode` and `badsize`.
pub record Blocks : Type 0 where
  pub direct : List ℕ
  pub indirect : List ℕ
  pub count : ℕ
  pub badsize : Bool

unfoldable pub outside : Superblock → ℕ → Bool
outside sb a = ltb a (sub32 sb.size sb.nblocks) || ltb (sub32 sb.size 1) a

-- An address below NDIRECT; the number is `used_datablock`.
unfoldable pub direct_check : Image → Superblock → ℕ → Blocks → ℕ → Check (Blocks × ℕ)
direct_check img sb a b used =
    if a == 0
    then ok (b, used)
    else err_if (outside sb a) bad_direct (
        err_if (not (this_bit img a)) marked_free (
          claim b.direct a direct_twice >>= λ marks.
          ok (record b { direct = marks; count = suc b.count }, suc used)))

unfoldable pub direct_loop : Image → Superblock → List ℕ → Blocks → ℕ → Check (Blocks × ℕ)
direct_loop img sb [] b used = ok (b, used)
direct_loop img sb (a ∷ addrs) b used =
    direct_check img sb a b used >>= λ r. direct_loop img sb addrs r.0 r.1

-- The address of the block of indirect addresses, of which the range and the bit are not looked at.
unfoldable pub indirect_block : ℕ → Blocks → Check Blocks
indirect_block a b =
    if a == 0
    then ok b
    else (claim b.indirect a indirect_twice >>= λ marks.
        ok (record b { indirect = marks; count = suc b.count }))

unfoldable pub indirect_check : Image → Superblock → ℕ → Blocks → ℕ → Check (Blocks × ℕ)
indirect_check img sb a b used =
    if a == 0
    then ok (b, used)
    else err_if (outside sb a) bad_indirect (
        err_if (not (this_bit img a)) marked_free (
          claim b.indirect a indirect_twice >>= λ marks.
          ok (record b { indirect = marks; count = suc b.count }, suc used)))

unfoldable pub indirect_loop : Image → Superblock → List ℕ → Blocks → ℕ → Check (Blocks × ℕ)
indirect_loop img sb [] b used = ok (b, used)
indirect_loop img sb (a ∷ addrs) b used =
    indirect_check img sb a b used >>= λ r. indirect_loop img sb addrs r.0 r.1

-- The comparison of a file's size with its blocks, in `unsigned` arithmetic.
unfoldable pub wrong_size : Dinode → ℕ → Bool
wrong_size ino used =
    ino.type == t_file
    && not (ino.size == 0)
    && (leb ino.size (sub32 used 1 * block_size % word) || ltb (used * block_size % word) ino.size)

unfoldable pub size_check : Dinode → Blocks → ℕ → Blocks
size_check ino b used = if wrong_size ino used then record b { badsize = true } else b

-- The thirteenth address, also where it is 0: the block that `indirectPtr` points to is then block 0.
unfoldable pub indirect_part : Image → Superblock → ℕ → Blocks → ℕ → Check (Blocks × ℕ)
indirect_part img sb a b used =
    indirect_block a b >>= λ b'. indirect_loop img sb (pointers img a) b' used

-- The addresses of an inode.
unfoldable pub inode_blocks : Image → Superblock → Dinode → Blocks → Check Blocks
inode_blocks img sb ino b =
    if ino.type == 0
    then ok b
    else (direct_loop img sb (take ndirect ino.addrs) b 0 >>= λ r.
        indirect_part img sb (get_or ino.addrs ndirect 0) r.0 r.1 >>= λ r'.
        ok (size_check ino r'.0 r'.1))
