-- ===== src/Fsck/Dirs/Counts.antt =====
-- The counts of references after all the directories.
use computer_organization_an.Common.{
  ℕ, ◌+◌, ◌%◌, word, ◌≡◌, refl, sym, ap, ◌∙◌, true, false, not, ◌&&◌, inl, inr, Bool-cases, List,
  [], ◌∷◌, arith, ◌==◌, if◌then◌else◌, get_or, take,
}
use computer_organization_an.Fsck.Image.{
  Image, Dinode, Dirent, ndirect, t_dir, t_file, inode, pointers, entries, is_dot,
}
use computer_organization_an.Fsck.Check.{
  Check, ok, fault, >>=-eq-ok, err_if-eq-ok, then-eq, else-eq, bad_format, referred_free,
}
use computer_organization_an.Fsck.Dirs.{
  Links, is_dots, pointed, file_entry, dir_entry, reference, dots, entry_check,
  entry_check_indirect, entry_loop, entry_loop_indirect,
}
use computer_organization_an.Fsck.Dirs.Files.{
  Adds, Same, weight, dir_entry-Same, pointed-Same, indexed-Same, typed-Adds, Same-Adds,
}

pub Adds-Same : (i w : ℕ) (l l' l'' : Links) → Adds i w l l' → Same l' l'' → Adds i w l l''
Adds-Same i w l l' l'' a s = ap (λ t. get_or t i 0 % word) s ∙ a

pub Adds-add :
    (i v w : ℕ) (l l' l'' : Links) → Adds i v l l' → Adds i w l' l'' → Adds i (v + w) l l''
Adds-add i v w l l' l'' a b = omega (arith, a, b)

reference-Adds :
    (i fuel : ℕ) (img : Image) (me : ℕ) (e : Dirent) (ptr : Dinode) (l l' : Links)
    → (e.inum == 0) ≡ false
    → reference fuel img me e ptr l ≡ ok l'
    → Adds i (weight i e ptr) l l'
unfolding reference
reference-Adds i fuel img me e ptr l l' used h =
    let (m, first, h1) =
      >>=-eq-ok
        (if ptr.type == t_file
          then file_entry e.inum l
          else (if ptr.type == t_dir then dir_entry fuel img me e ptr l else ok l))
        _ h in
    let (_, h2) = err_if-eq-ok (ptr.type == 0) referred_free _ h1 in
    let (p, h3, h4) = >>=-eq-ok (pointed e m) _ h2 in
    Adds-Same i (weight i e ptr) l p l'
      (Adds-Same i (weight i e ptr) l m p
        (typed-Adds i e ptr (dir_entry fuel img me e ptr l) l m used
          (λ k d. dir_entry-Same fuel img me e ptr l k d) first)
        (pointed-Same e m p h3))
      (indexed-Same e p l' h4)

dots-Same : (me : ℕ) (e : Dirent) (l : Links) (n : ℕ) → Same l (dots me e l n).0
unfolding dots
dots-Same me e l n = elim (Bool-cases (is_dots e)) [
  | inr d ↦ rw d refl
  | inl d ↦ elim (Bool-cases (is_dot e.name && not (e.inum == me))) [
    | inl w ↦ rw (d, w) refl
    | inr w ↦ rw (d, w) refl
  ]
]

zero_weight : (i : ℕ) (e : Dirent) (ptr : Dinode) → (e.inum == 0) ≡ true → weight i e ptr ≡ 0
zero_weight i e ptr h = rw h

-- An entry that names no inode adds nothing.
entry-Adds :
    (i : ℕ) (e : Dirent) (ptr : Dinode) (ref : Check Links) (l l' : Links)
    → ((l'' : Links) → (e.inum == 0) ≡ false → ref ≡ ok l'' → Adds i (weight i e ptr) l l'')
    → (if e.inum == 0 then ok l else ref) ≡ ok l'
    → Adds i (weight i e ptr) l l'
entry-Adds i e ptr ref l l' adds h = elim (Bool-cases (e.inum == 0)) [
  | inl z ↦
      let l_l : l ≡ l' = cc (then-eq (e.inum == 0) (ok l) ref z h) in
      rw (zero_weight i e ptr z) (Same-Adds i l l' (sym (ap (λ t. t.file_block_arr) l_l)))
  | inr z ↦ adds l' z (else-eq (e.inum == 0) (ok l) ref z h)
]

entry_check-Adds :
    (i fuel : ℕ) (img : Image) (me : ℕ) (e : Dirent) (l : Links) (n : ℕ) (r : Links × ℕ)
    → entry_check fuel img me e l n ≡ ok r
    → Adds i (weight i e (inode img e.inum)) l r.0
unfolding entry_check
entry_check-Adds i fuel img me e l n r h =
    let ptr : Dinode = inode img e.inum in
    let (m, first, h1) =
      >>=-eq-ok (if e.inum == 0 then ok l else reference fuel img me e ptr l) _ h in
    let r_r : dots me e m n ≡ r = cc h1 in
    Adds-Same i (weight i e ptr) l m r.0
      (entry-Adds i e ptr (reference fuel img me e ptr l) l m
        (λ k z h2. reference-Adds i fuel img me e ptr l k z h2) first)
      (sym (ap (λ t. (t.0).file_block_arr) r_r) ∙ dots-Same me e m n)

-- An entry in an indirect block that the checker passes is not in use.
entry_check_indirect-Adds :
    (i : ℕ) (img : Image) (me : ℕ) (e : Dirent) (l : Links) (n : ℕ) (r : Links × ℕ)
    → entry_check_indirect me e l n ≡ ok r
    → Adds i (weight i e (inode img e.inum)) l r.0
unfolding entry_check_indirect
entry_check_indirect-Adds i img me e l n r h =
    let (_, h0) = err_if-eq-ok (is_dot e.name && not (e.inum == me)) bad_format _ h in
    let (m, first, h1) = >>=-eq-ok (if e.inum == 0 then ok l else fault) _ h0 in
    let r_m : m ≡ r.0 = cc h1 in
    Adds-Same i (weight i e (inode img e.inum)) l m r.0
      (entry-Adds i e (inode img e.inum) fault l m (λ k z h2. absurd (cc h2)) first)
      (sym (ap (λ t. t.file_block_arr) r_m))

-- The references to file `i` from a row of entries.
abbrev pub refs : Image → ℕ → List Dirent → ℕ
refs img i [] = 0
refs img i (e ∷ es) = weight i e (inode img e.inum) + refs img i es

-- From the blocks at nonzero addresses.
abbrev pub block_refs : Image → ℕ → List ℕ → ℕ
block_refs img i [] = 0
block_refs img i (a ∷ addrs) =
    (if a == 0 then 0 else refs img i (entries img a)) + block_refs img i addrs

-- From the blocks of an indirect block.
abbrev pub indirect_refs : Image → ℕ → List ℕ → ℕ
indirect_refs img i [] = 0
indirect_refs img i (a ∷ addrs) = refs img i (entries img a) + indirect_refs img i addrs

abbrev pub dir_refs : Image → ℕ → Dinode → ℕ
dir_refs img i ino =
    block_refs img i (take ndirect ino.addrs)
    + (if get_or ino.addrs ndirect 0 == 0
        then 0
        else indirect_refs img i (pointers img (get_or ino.addrs ndirect 0)))

pub entry_loop-Adds :
    (i fuel : ℕ) (img : Image) (me : ℕ) (es : List Dirent) (l : Links) (n : ℕ) (r : Links × ℕ)
    → entry_loop fuel img me es l n ≡ ok r
    → Adds i (refs img i es) l r.0
unfolding entry_loop
entry_loop-Adds i fuel img me [] l n r h =
    let l_r : l ≡ r.0 = cc h in Same-Adds i l r.0 (sym (ap (λ t. t.file_block_arr) l_r))
entry_loop-Adds i fuel img me (e ∷ es) l n r h =
    let (m, first, rest) = >>=-eq-ok (entry_check fuel img me e l n) _ h in
    Adds-add i (weight i e (inode img e.inum)) (refs img i es) l m.0 r.0
      (entry_check-Adds i fuel img me e l n m first)
      (entry_loop-Adds i fuel img me es m.0 m.1 r rest)

pub entry_loop_indirect-Adds :
    (i : ℕ) (img : Image) (me : ℕ) (es : List Dirent) (l : Links) (n : ℕ) (r : Links × ℕ)
    → entry_loop_indirect me es l n ≡ ok r
    → Adds i (refs img i es) l r.0
unfolding entry_loop_indirect
entry_loop_indirect-Adds i img me [] l n r h =
    let l_r : l ≡ r.0 = cc h in Same-Adds i l r.0 (sym (ap (λ t. t.file_block_arr) l_r))
entry_loop_indirect-Adds i img me (e ∷ es) l n r h =
    let (m, first, rest) = >>=-eq-ok (entry_check_indirect me e l n) _ h in
    Adds-add i (weight i e (inode img e.inum)) (refs img i es) l m.0 r.0
      (entry_check_indirect-Adds i img me e l n m first)
      (entry_loop_indirect-Adds i img me es m.0 m.1 r rest)
