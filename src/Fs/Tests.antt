-- ===== src/Fs/Tests.antt =====
-- A disk of 64 blocks with 8 inodes. The bitmap is block 4, and marks the blocks in front of block 5.
mod Link
mod Truncate
use computer_organization_an.Common.{
  ℕ, zero, suc, ◌+◌, ◌%◌, ◌≤◌, ◌<◌, ◌≡◌, ◌≢◌, refl, ap, inl, inr, true, false, Bool-cases, Option,
  none, some, List, [], ◌∷◌, map, arith, ltb, ◌==◌, if◌then◌else◌, take,
}
use computer_organization_an.Common.Outcome.{ok}
use computer_organization_an.Fs.{
  Block, Disk, bwrite, get32, readsb, bitmap_block, is_free, mark, free_bit, take_bit, balloc_loop,
  balloc, bfree,
}
use computer_organization_an.Fs.Bitmap.{Bytes, unmarked, BytesDisk}
use computer_organization_an.Fs.Alloc.{data_start}
use computer_organization_an.Fs.Release.{Freed, bfree-Freed}
use computer_organization_an.Fs.Valid.{DiskOk, Room, count_free}
use computer_organization_an.Fs.Inode.{Inode, inode_block, inode_offset, iupdate, get_inode}
use computer_organization_an.Fs.Content.{readi, Written, writei}
use computer_organization_an.Fs.Mapping.{entry, slot}
use computer_organization_an.Fs.Reading.{MappedTo}
use computer_organization_an.Fs.Fields.{Fits, SameFields, iupdate-get_inode}
use computer_organization_an.Fs.Files.{FileOk, WrittenOk, writei-WrittenOk, readi-writei}
use computer_organization_an.Fs.Cache.{State, iget}
use computer_organization_an.Fs.Slots.{Once, Gotten, iget-Gotten}
use computer_organization_an.Fs.Lookup.{LookedUp, dirlookup-LookedUp}
use computer_organization_an.Fs.Dir.{dirlookup, name_size}
use computer_organization_an.Fs.Elements.{elements, fields, elements-fields}

abbrev disk : Disk
disk b o =
    if b == 1
    then (if o == 0 then 64 else (if o == 8 then 8 else 0))
    else (if b == 4 then (if o == 0 then 31 else 0) else 0)

disk-BytesDisk : BytesDisk disk
disk-BytesDisk b o = ground arith

-- The blocks in front of block 5 are marked.
disk-marked : (x : ℕ) → x < 5 → unmarked disk x ≡ false
unfolding readsb get32 bitmap_block is_free
disk-marked zero l = refl
disk-marked (suc zero) l = refl
disk-marked (suc (suc zero)) l = refl
disk-marked (suc (suc (suc zero))) l = refl
disk-marked (suc (suc (suc (suc zero)))) l = refl
disk-marked (suc (suc (suc (suc (suc x))))) l = absurd (omega (arith, l))

disk-start : data_start disk ≡ 5
unfolding readsb get32
disk-start = refl

disk-zero : (x o : ℕ) → 5 ≤ x → disk x o ≡ 0
disk-zero x o l = ground (arith, l)

disk-DiskOk : DiskOk disk
unfolding readsb get32
disk-DiskOk = record {
  bytes = disk-BytesDisk;
  small = omega arith;
  free_data = λ x l f. behind x f;
  free_zero = λ x o l f. disk-zero x o (behind x f);
}
  where
    behind : (x : ℕ) → unmarked disk x ≡ true → 5 ≤ x
    behind x f = elim (Bool-cases (ltb x 5)) [
      | inl s ↦ let m = disk-marked x (ground (arith, s)) in absurd (cc (f, m))
      | inr s ↦ ground (arith, s)
    ]

abbrev empty_file : Inode
empty_file = record {
  inum = 3;
  ref = 1;
  busy = true;
  valid = true;
  type = 2;
  major = 0;
  minor = 0;
  nlink = 1;
  size = 0;
  addrs = λ i. 0;
}

no_slot : (bn : ℕ) → slot disk empty_file bn ≡ 0
unfolding slot entry
no_slot bn = elim (Bool-cases (ltb bn 12)) [ inl s ↦ rw s refl | inr s ↦ rw s refl ]

empty_file-FileOk : FileOk disk empty_file
unfolding readsb get32
empty_file-FileOk = record {
  disk = disk-DiskOk;
  inode = record {
    owned = λ bn l n. absurd (n (no_slot bn));
    indirect = λ n. absurd (n refl);
    apart = λ bn l n. absurd (n (no_slot bn));
    distinct = λ bn bm l m n. absurd (n (no_slot bn));
  };
  mapped = λ bn l. absurd (omega (arith, l));
  small = omega arith;
  number = omega arith;
  no_device = λ e. absurd (omega (arith, e));
}

abbrev bytes : Block
bytes o = o % 256

bytes-Bytes : Bytes bytes
bytes-Bytes o = omega arith

free_blocks : count_free disk 64 ≡ 59
unfolding readsb get32 bitmap_block is_free
free_blocks = refl

disk-Room : Room disk 4
unfolding readsb get32
disk-Room = let e = free_blocks in omega (arith, e)

no_read : ℕ → Option (Inode → Block → ℕ → Option ℕ × Block)
no_read major = none

no_write : ℕ → Option (Inode → Block → ℕ → Option ℕ)
no_write major = none

writei-WrittenOk_example :
    WrittenOk disk empty_file bytes 0 600 (writei no_write disk empty_file bytes 0 600)
writei-WrittenOk_example =
    writei-WrittenOk no_write disk empty_file bytes 0 600 empty_file-FileOk bytes-Bytes
      (omega arith) (omega arith) disk-Room

readi-writei_example :
    (w : Written) × (writei no_write disk empty_file bytes 0 600 ≡ ok w)
    × (w.result ≡ some 600)
    × ((dst' : Block) × (readi no_read w.disk w.inode (λ o. 0) 0 600
          ≡ ok (record { result = some 600; memory = dst'; disk = w.disk; inode = w.inode }))
        × ((i : ℕ) → i < 600 → dst' i ≡ bytes i))
readi-writei_example =
    readi-writei no_read no_write disk empty_file bytes (λ o. 0) 0 600 empty_file-FileOk bytes-Bytes
      (omega arith) (omega arith) disk-Room

first_block : (r : Disk) × (balloc disk ≡ ok (5, r))
unfolding readsb get32 bitmap_block is_free free_bit take_bit balloc_loop balloc
first_block = (bwrite disk 4 (mark (disk 4) 5), refl)

bfree-Freed_example : Freed disk 7 (bfree disk 7)
unfolding readsb get32
bfree-Freed_example = bfree-Freed disk 7 disk-BytesDisk (omega arith) (omega arith)

empty_file-Fits : Fits empty_file
empty_file-Fits = record {
  type = omega arith;
  major = omega arith;
  minor = omega arith;
  nlink = omega arith;
  size = omega arith;
  addrs = λ i l. omega arith;
}

iupdate-get_inode_example :
    SameFields empty_file
      (get_inode (iupdate disk empty_file (inode_block 3)) (inode_offset 3) empty_file)
    × ((m i : ℕ)
        → m ≢ 3
        → i < 64
        → iupdate disk empty_file (inode_block m) (inode_offset m + i)
          ≡ disk (inode_block m) (inode_offset m + i))
iupdate-get_inode_example = iupdate-get_inode disk empty_file empty_file empty_file-Fits

abbrev unused_entry : Inode
unused_entry = record empty_file { ref = 0; inum = 0 }

ref_of : Option Inode → ℕ
ref_of none = 0
ref_of (some ip) = ip.ref

one_file-Once : Once (unused_entry ∷ empty_file ∷ [])
unfolding ref_of
one_file-Once zero zero ip jp e f p q same = refl
one_file-Once zero (suc j) ip jp e f p q same =
    let z : 0 ≡ ip.ref = ap ref_of e in absurd (omega (arith, z, p))
one_file-Once (suc zero) zero ip jp e f p q same =
    let z : 0 ≡ jp.ref = ap ref_of f in absurd (omega (arith, z, q))
one_file-Once (suc zero) (suc zero) ip jp e f p q same = refl
one_file-Once (suc zero) (suc (suc j)) ip jp e f p q same = absurd (cc f)
one_file-Once (suc (suc i)) j ip jp e f p q same = absurd (cc e)

iget-Gotten_example :
    Gotten 3 (unused_entry ∷ empty_file ∷ []) (iget 3 (unused_entry ∷ empty_file ∷ []))
iget-Gotten_example = iget-Gotten 3 (unused_entry ∷ empty_file ∷ []) one_file-Once

-- "//a/bb/"
abbrev path : List ℕ
path = b'/' ∷ b'/' ∷ b'a' ∷ b'/' ∷ b'b' ∷ b'b' ∷ b'/' ∷ []

elements-fields_example : elements 8 path ≡ map (take name_size) (fields path)
elements-fields_example = elements-fields 8 path (omega arith)

-- A directory with one entry, of inode 5 with the name "a", in block 6.
abbrev dir_disk : Disk
dir_disk b o = if b == 6 then (if o == 0 then 5 else (if o == 2 then b'a' else 0)) else disk b o

abbrev one_entry_dir : Inode
one_entry_dir = record empty_file { type = 1; size = 16; addrs = λ i. if i == 0 then 6 else 0 }

abbrev dir_state : State
dir_state = record { disk = dir_disk; cache = one_entry_dir ∷ unused_entry ∷ [] }

abbrev name_a : Block
name_a i = if i == 0 then b'a' else 0

one_entry_dir-MappedTo : MappedTo dir_disk one_entry_dir 16
unfolding slot
one_entry_dir-MappedTo zero l e = absurd (omega (arith, e))
one_entry_dir-MappedTo (suc bn) l e = absurd (omega (arith, l))

dirlookup-LookedUp_example : LookedUp dir_state one_entry_dir name_a (dirlookup dir_state 0 name_a)
dirlookup-LookedUp_example =
    dirlookup-LookedUp dir_state 0 one_entry_dir name_a refl refl (omega arith)
      one_entry_dir-MappedTo
