-- ===== src/Fsck/Blocks/Inode.antt =====
-- The addresses of one inode, and those of a row of inodes.
use mathlib.Core.Path.{subst}
use mathlib.Core.List.{append-nil}
use computer_organization_an.Common.{
  ℕ, zero, suc, ◌≡◌, inl, inr, Bool-cases, List, [], ◌∷◌, ◌++◌, ◌==◌, if◌then◌else◌, get_or, take,
}
use computer_organization_an.Fsck.Image.{Image, Superblock, Dinode, inode, pointers, ndirect}
use computer_organization_an.Fsck.Check.{ok, >>=-eq-ok}
use computer_organization_an.Fsck.Blocks.{
  Blocks, direct_loop, indirect_block, indirect_part, size_check, wrong_size, inode_blocks,
}
use computer_organization_an.Fsck.Blocks.Claims.{nonzero}
use computer_organization_an.Fsck.Blocks.Scan.{
  Scanned, Scanned-none, Scanned-trans, nonzero-cons, direct_loop-Scanned, indirect_loop-Scanned,
  indirect_block-Scanned,
}

-- The direct addresses of an inode that is in use.
abbrev pub direct_of : Dinode → List ℕ
direct_of ino = if ino.type == 0 then [] else nonzero (take ndirect ino.addrs)

-- Its address of a block of addresses, and those in that block.
abbrev pub indirect_of : Image → Dinode → List ℕ
indirect_of img ino =
    if ino.type == 0
    then []
    else nonzero (get_or ino.addrs ndirect 0 ∷ pointers img (get_or ino.addrs ndirect 0))

abbrev pub listed_of : Image → Dinode → List ℕ
listed_of img ino =
    if ino.type == 0 then [] else nonzero (pointers img (get_or ino.addrs ndirect 0))

size_check-Scanned :
    (img : Image) (sb : Superblock) (dx ix gx : List ℕ) (ino : Dinode) (b b' : Blocks) (used : ℕ)
    → Scanned img sb dx ix gx b b'
    → Scanned img sb dx ix gx b (size_check ino b' used)
unfolding size_check
size_check-Scanned img sb dx ix gx ino b b' used s = elim (Bool-cases (wrong_size ino used)) [
  | inl w ↦ rw w (record {
    direct_fresh = s.direct_fresh;
    direct_marks = s.direct_marks;
    indirect_fresh = s.indirect_fresh;
    indirect_marks = s.indirect_marks;
    direct_good = s.direct_good;
    indirect_good = s.indirect_good;
    count = s.count;
  })
  | inr w ↦ rw w s
]

indirect_part-Scanned :
    (img : Image) (sb : Superblock) (a : ℕ) (b : Blocks) (used : ℕ) (r : Blocks × ℕ)
    → indirect_part img sb a b used ≡ ok r
    → Scanned img sb [] (nonzero (a ∷ pointers img a)) (nonzero (pointers img a)) b r.0
unfolding indirect_part
indirect_part-Scanned img sb a b used r e =
    let (m, first, rest) = >>=-eq-ok (indirect_block a b) _ e in
    rw (nonzero-cons a (pointers img a)) (
      Scanned-trans img sb [] _ [] [] _ _ b m r.0 (indirect_block-Scanned img sb a b m first)
        (indirect_loop-Scanned img sb (pointers img a) m used r rest))

pub inode_blocks-Scanned :
    (img : Image) (sb : Superblock) (ino : Dinode) (b b' : Blocks)
    → inode_blocks img sb ino b ≡ ok b'
    → Scanned img sb (direct_of ino) (indirect_of img ino) (listed_of img ino) b b'
unfolding inode_blocks
inode_blocks-Scanned img sb ino b b' e = elim (Bool-cases (ino.type == 0)) [
  | inl z ↦
      let same : ok b ≡ ok b' = rw z at e in
      let b_r : b ≡ b' = cc same in
      rw z (subst (λ t. Scanned img sb [] [] [] b t) b_r (Scanned-none img sb b))
  | inr z ↦
      let (m, first, e1) =
        >>=-eq-ok (direct_loop img sb (take ndirect ino.addrs) b 0) _ (rw z at e) in
      let (r, second, e2) =
        >>=-eq-ok (indirect_part img sb (get_or ino.addrs ndirect 0) m.0 m.1) _ e1 in
      let b_r : size_check ino r.0 r.1 ≡ b' = cc e2 in
      let dx : List ℕ = nonzero (take ndirect ino.addrs) in
      let ix : List ℕ =
        nonzero (get_or ino.addrs ndirect 0 ∷ pointers img (get_or ino.addrs ndirect 0)) in
      let gx : List ℕ = nonzero (pointers img (get_or ino.addrs ndirect 0)) in
      let scanned : Scanned img sb (dx ++ []) ix gx b r.0 =
        Scanned-trans img sb dx [] [] [] ix gx b m.0 r.0
          (direct_loop-Scanned img sb (take ndirect ino.addrs) b 0 m first)
          (indirect_part-Scanned img sb (get_or ino.addrs ndirect 0) m.0 m.1 r second) in
      rw z (
        subst (λ t. Scanned img sb dx ix gx b t) b_r
          (size_check-Scanned img sb dx ix gx ino b r.0 r.1
            (subst (λ t. Scanned img sb t ix gx b r.0) (append-nil dx) scanned)))
]

-- The addresses of `n` inodes from `i` on.
abbrev pub direct_list : Image → ℕ → ℕ → List ℕ
direct_list img zero i = []
direct_list img (suc n) i = direct_of (inode img i) ++ direct_list img n (suc i)

abbrev pub indirect_list : Image → ℕ → ℕ → List ℕ
indirect_list img zero i = []
indirect_list img (suc n) i = indirect_of img (inode img i) ++ indirect_list img n (suc i)

abbrev pub listed_list : Image → ℕ → ℕ → List ℕ
listed_list img zero i = []
listed_list img (suc n) i = listed_of img (inode img i) ++ listed_list img n (suc i)
