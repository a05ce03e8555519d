-- ===== src/Fs/Tests/Truncate.antt =====
-- A file of one block on a disk of 64 blocks: block 5, behind the bitmap.
use computer_organization_an.Common.{
  ℕ, zero, suc, ◌≤◌, ◌<◌, ◌≡◌, ◌≢◌, refl, sym, ◌∙◌, inl, inr, true, false, Bool-cases, arith, ltb,
  ◌==◌, ==_iff, if◌then◌else◌,
}
use computer_organization_an.Common.Outcome.{ok}
use computer_organization_an.Fs.{Disk, get32, readsb, bitmap_block, is_free}
use computer_organization_an.Fs.Bitmap.{unmarked}
use computer_organization_an.Fs.Valid.{DiskOk, Owned}
use computer_organization_an.Fs.Inode.{Inode, itrunc}
use computer_organization_an.Fs.Mapping.{entry, slot, InodeOk}
use computer_organization_an.Fs.Truncated.{Truncated, itrunc-Truncated}

abbrev used_disk : Disk
used_disk b o =
    if b == 1
    then (if o == 0 then 64 else (if o == 8 then 8 else 0))
    else (if b == 4 then (if o == 0 then 63 else 0) else (if b == 5 then 7 else 0))

abbrev one_block_file : Inode
one_block_file = record {
  inum = 3;
  ref = 1;
  busy = true;
  valid = true;
  type = 2;
  major = 0;
  minor = 0;
  nlink = 0;
  size = 512;
  addrs = λ i. if i == 0 then 5 else 0;
}

used_disk_marked : (x : ℕ) → x < 6 → unmarked used_disk x ≡ false
unfolding readsb get32 bitmap_block is_free
used_disk_marked zero l = refl
used_disk_marked (suc zero) l = refl
used_disk_marked (suc (suc zero)) l = refl
used_disk_marked (suc (suc (suc zero))) l = refl
used_disk_marked (suc (suc (suc (suc zero)))) l = refl
used_disk_marked (suc (suc (suc (suc (suc zero))))) l = refl
used_disk_marked (suc (suc (suc (suc (suc (suc x)))))) l = absurd (omega (arith, l))

used_disk_zero : (x o : ℕ) → 6 ≤ x → used_disk x o ≡ 0
used_disk_zero x o l = ground (arith, l)

used_disk-DiskOk : DiskOk used_disk
unfolding readsb get32
used_disk-DiskOk = record {
  bytes = λ b o. ground arith;
  small = omega arith;
  free_data = λ x l f. let m = behind x f in omega (arith, m);
  free_zero = λ x o l f. used_disk_zero x o (behind x f);
}
  where
    behind : (x : ℕ) → unmarked used_disk x ≡ true → 6 ≤ x
    behind x f = elim (Bool-cases (ltb x 6)) [
      | inl s ↦ let m = used_disk_marked x (ground (arith, s)) in absurd (cc (f, m))
      | inr s ↦ ground (arith, s)
    ]

one_slot : (bn : ℕ) → slot used_disk one_block_file bn ≡ (if bn == 0 then 5 else 0)
unfolding slot entry
one_slot bn = elim (Bool-cases (ltb bn 12)) [
  | inl s ↦ rw s refl
  | inr s ↦ let n : (bn == 0) ≡ false = ground (arith, s) in rw (s, n) refl
]

first_slot : (bn : ℕ) → slot used_disk one_block_file bn ≢ 0 → bn ≡ 0
first_slot bn n = elim (Bool-cases (bn == 0)) [
  | inl s ↦ (==_iff bn 0).0 s
  | inr s ↦ absurd (n (one_slot bn ∙ rw s refl))
]

block_5-Owned : Owned used_disk 5
unfolding readsb get32
block_5-Owned = (omega arith, used_disk_marked 5 (omega arith), omega arith)

one_block_file-InodeOk : InodeOk used_disk one_block_file
one_block_file-InodeOk = record {
  owned = λ bn l n. let z = first_slot bn n in rw (one_slot bn, z) block_5-Owned;
  indirect = λ n. absurd (n refl);
  apart = λ bn l n e. n e;
  distinct = λ bn bm l m n e. first_slot bn n ∙ sym (first_slot bm (λ z. n (e ∙ z)));
}

itrunc-Truncated_example :
    (d' : Disk) × (ip' : Inode) × (itrunc used_disk one_block_file ≡ ok (d', ip'))
    × Truncated used_disk one_block_file d' ip'
unfolding readsb get32
itrunc-Truncated_example =
    itrunc-Truncated used_disk one_block_file used_disk-DiskOk one_block_file-InodeOk (omega arith)
