-- ===== src/Fsck/Sound.antt =====
-- What the verdict of the checker says about an image's addresses.
use mathlib.Core.Path.{subst}
use computer_organization_an.Common.{
  Distinct, ℕ, zero, suc, ◌+◌, ◌*◌, ◌≤◌, ◌<◌, ◌≡◌, ◌∙◌, inl, inr, ◌&&◌, Bool-cases, List, [],
  if◌then◌else◌, arith, All, length, length-replicate, replicate, ltb,
}
use computer_organization_an.Fsck.Image.{
  Image, Superblock, Dinode, block_size, superblock, inode, bitmap_bit,
}
use computer_organization_an.Fsck.Check.{
  ok, >>=-eq-ok, err_if-eq-ok, bad_inode, bad_superblock, not_in_use,
}
use computer_organization_an.Fsck.Blocks.{inode_blocks}
use computer_organization_an.Fsck.Blocks.Claims.{Fresh-Distinct, Fresh-lt}
use computer_organization_an.Fsck.Blocks.Scan.{InData, Scanned, Scanned-none, Scanned-trans}
use computer_organization_an.Fsck.Blocks.Inode.{
  direct_of, indirect_of, listed_of, inode_blocks-Scanned, direct_list, indirect_list, listed_list,
}
use computer_organization_an.Fsck.Dirs.{Links}
use computer_organization_an.Fsck.Main.{
  State, bad_type, inode_check, inode_links, inode_loop, int_rounds, bitmap_loop, in_data,
  link_loop, verdict, start, check_image,
}

inode_loop-Scanned :
    (fuel : ℕ) (img : Image) (sb : Superblock) (n i : ℕ) (s s' : State)
    → inode_loop fuel img sb n i s ≡ ok s'
    → Scanned img sb
        (direct_list img n i)
        (indirect_list img n i)
        (listed_list img n i)
        s.blocks
        s'.blocks
unfolding inode_loop inode_check
inode_loop-Scanned fuel img sb zero i s s' e =
    let s_r : s.blocks ≡ s'.blocks = cc e in
    subst (λ t. Scanned img sb [] [] [] s.blocks t) s_r (Scanned-none img sb s.blocks)
inode_loop-Scanned fuel img sb (suc n) i s s' e =
    let (m, round, rest) = >>=-eq-ok (inode_check fuel img sb i s) _ e in
    let (_, e1) = err_if-eq-ok (bad_type (inode img i)) bad_inode _ round in
    let (b, blocks, e2) = >>=-eq-ok (inode_blocks img sb (inode img i) s.blocks) _ e1 in
    let (l, links, e3) = >>=-eq-ok (inode_links fuel img i (inode img i) s.links) _ e2 in
    let b_m : b ≡ m.blocks = cc e3 in
    let ino : Dinode = inode img i in
    let here : Scanned img sb (direct_of ino) (indirect_of img ino) (listed_of img ino) s.blocks
        m.blocks =
      subst
        (λ t. Scanned img sb (direct_of ino) (indirect_of img ino) (listed_of img ino) s.blocks t)
        b_m (inode_blocks-Scanned img sb ino s.blocks b blocks) in
    Scanned-trans img sb (direct_of ino) (indirect_of img ino) (listed_of img ino)
      (direct_list img n (suc i)) (indirect_list img n (suc i)) (listed_list img n (suc i)) s.blocks
      m.blocks s'.blocks here (inode_loop-Scanned fuel img sb n (suc i) m s' rest)

-- The bits of the bitmap that are set in the range of the data blocks, among `n` from `i` on.
abbrev pub bits_set : Image → Superblock → ℕ → ℕ → ℕ
bits_set img sb zero i = 0
bits_set img sb (suc n) i =
    (if in_data sb i && bitmap_bit img i then 1 else 0) + bits_set img sb n (suc i)

bitmap_loop-bits_set :
    (img : Image) (sb : Superblock) (n i count : ℕ)
    → bitmap_loop img sb n i count ≡ count + bits_set img sb n i
unfolding bitmap_loop
bitmap_loop-bits_set img sb zero i count = omega arith
bitmap_loop-bits_set img sb (suc n) i count = elim (Bool-cases (in_data sb i && bitmap_bit img i)) [
  | inl e ↦ rw e (bitmap_loop-bits_set img sb n (suc i) (suc count) ∙ omega arith)
  | inr e ↦ rw e (bitmap_loop-bits_set img sb n (suc i) count ∙ omega arith)
]

-- What a successful end has passed.
pub record Passed (img : Image) (n : ℕ) (sb : Superblock) : Type 0 where
  pub direct_distinct : Distinct (direct_list img n 0)
  pub direct_good : All (InData img sb) (direct_list img n 0)
  pub direct_below : All (λ a. a < int_rounds sb.size) (direct_list img n 0)
  pub indirect_distinct : Distinct (indirect_list img n 0)
  pub listed_good : All (InData img sb) (listed_list img n 0)
  pub indirect_below : All (λ a. a < int_rounds sb.size) (indirect_list img n 0)
  pub size_bound : 1022 ≤ sb.size
  pub in_use :
      bits_set img sb (8 * block_size) 0
      ≤ length (direct_list img n 0) + length (indirect_list img n 0)

le_counted :
    (bits loop count total : ℕ) → loop ≤ count → loop ≡ 0 + bits → count ≡ 0 + total → bits ≤ total
le_counted bits loop count total h b c = omega (arith, h, b, c)

passed :
    (img : Image) (sb : Superblock) (n : ℕ) (heap : Links) (s : State) (code : ℕ)
    → Scanned img sb
        (direct_list img n 0)
        (indirect_list img n 0)
        (listed_list img n 0)
        (start sb heap).blocks
        s.blocks
    → verdict img sb s ≡ ok code
    → Passed img n sb
unfolding verdict start
passed img sb n heap s code scanned e =
    let (big, e1) = err_if-eq-ok (ltb sb.size 1022) bad_superblock _ e in
    let (used, e2) =
      err_if-eq-ok (ltb s.blocks.count (bitmap_loop img sb (8 * block_size) 0 0)) not_in_use _ e1 in
    let marks : List ℕ = replicate (int_rounds sb.size) 0 in
    let size : length marks ≡ int_rounds sb.size = length-replicate (int_rounds sb.size) 0 in
    let enough : bitmap_loop img sb (8 * block_size) 0 0 ≤ s.blocks.count = ground (arith, used) in
    record {
      direct_distinct = Fresh-Distinct (direct_list img n 0) marks scanned.direct_fresh;
      direct_good = scanned.direct_good;
      direct_below =
          subst (λ k. All (λ a. a < k) (direct_list img n 0)) size
            (Fresh-lt (direct_list img n 0) marks scanned.direct_fresh);
      indirect_distinct = Fresh-Distinct (indirect_list img n 0) marks scanned.indirect_fresh;
      listed_good = scanned.indirect_good;
      indirect_below =
          subst (λ k. All (λ a. a < k) (indirect_list img n 0)) size
            (Fresh-lt (indirect_list img n 0) marks scanned.indirect_fresh);
      size_bound = ground (arith, big);
      in_use =
          le_counted (bits_set img sb (8 * block_size) 0) (bitmap_loop img sb (8 * block_size) 0 0)
            s.blocks.count (length (direct_list img n 0) + length (indirect_list img n 0)) enough
            (bitmap_loop-bits_set img sb (8 * block_size) 0 0) scanned.count;
    }

-- If the checker ends without a message, whatever its exit code and whatever `malloc` returned, then
-- the direct addresses of all used inodes are pairwise different, in the range of the data blocks and
-- marked where the checker looks; so are the addresses in indirect blocks, and these and the
-- addresses of indirect blocks are pairwise different and below the image's size; the image has 1022
-- blocks or more; and no more bits of the bitmap are set in the data range than there are addresses.
pub check_image-Passed :
    (fuel : ℕ) (img : Image) (heap : Links) (code : ℕ)
    → check_image fuel img heap ≡ ok code
    → Passed img (int_rounds (superblock img).ninodes) (superblock img)
unfolding check_image
check_image-Passed fuel img heap code e =
    let sb : Superblock = superblock img in
    let n : ℕ = int_rounds sb.ninodes in
    let (s, loop, e1) = >>=-eq-ok (inode_loop fuel img sb n 0 (start sb heap)) _ e in
    let (_, links, e2) = >>=-eq-ok (link_loop img s.links n 0) _ e1 in
    passed img sb n heap s code (inode_loop-Scanned fuel img sb n 0 (start sb heap) s loop) e2
