-- ===== src/Fsck/Dirs/Files.antt =====
-- What one entry adds to the references of a file.
use computer_organization_an.Common.{
  ℕ, zero, suc, ◌+◌, ◌%◌, ◌^◌, word, add32, ltb, ◌≡◌, sym, ap, ◌∙◌, false, not, ◌&&◌, inl, inr,
  Bool-cases, List, [], ◌∷◌, arith, leb, ◌==◌, if◌then◌else◌, ==_iff, get_or, get_elem?, set,
  get_or-set_self, get_or-set_ne, get_elem?_bound, some,
}
use computer_organization_an.Fsck.Image.{Image, Dinode, Dirent, t_dir, t_file, is_dot}
use computer_organization_an.Fsck.Check.{
  Check, ok, >>=-eq-ok, err_if-eq-ok, then-eq, else-eq, read, bump, increment, fault, write,
  bad_format, dir_twice,
}
use computer_organization_an.Fsck.Blocks.Claims.{read-eq-ok}
use computer_organization_an.Fsck.Dirs.{
  Links, is_dots, file_entry, root_path, parent_names, once_named, dir_entry, pointed, indexed,
}

-- From `l` to `l'` the count of file `i` grows by `w`, as a number of 32 bits.
abbrev pub Adds : ℕ → ℕ → Links → Links → Type 0
Adds i w l l' = get_or l'.file_block_arr i 0 % word ≡ (get_or l.file_block_arr i 0 + w) % word

abbrev pub Same : Links → Links → Type 0
Same l l' = l'.file_block_arr ≡ l.file_block_arr

pub get_or-bound : (arr : List ℕ) (j v : ℕ) → get_elem? arr j ≡ some v → get_or arr j 0 ≡ v
get_or-bound [] j v e = absurd (cc e)
get_or-bound (x ∷ xs) zero v e = cc e
get_or-bound (x ∷ xs) (suc j) v e = get_or-bound xs j v e

increment-eq-ok : (v w : ℕ) → increment v ≡ ok w → w ≡ add32 v 1
unfolding increment
increment-eq-ok v w h = elim (Bool-cases (v == 2147483647)) [
  | inl m ↦ let no : fault ≡ ok w = rw m at h in absurd (cc no)
  | inr m ↦ let yes : ok (add32 v 1) ≡ ok w = rw m at h in sym (cc yes)
]

bump-Adds :
    (arr arr' : List ℕ) (i j : ℕ)
    → bump arr j ≡ ok arr'
    → get_or arr' i 0 % word ≡ (get_or arr i 0 + (if j == i then 1 else 0)) % word
unfolding bump
bump-Adds arr arr' i j e =
    let (v, found, e1) = >>=-eq-ok (read arr j) _ e in
    let (w, counted, stored) = >>=-eq-ok (increment v) _ e1 in
    let next : w ≡ add32 v 1 = increment-eq-ok v w counted in
    let at : get_elem? arr j ≡ some v = read-eq-ok arr j v found in
    let a : set arr j w ≡ arr' = cc stored in
    elim (Bool-cases (j == i)) [
      | inl here ↦
          let j_i : j ≡ i = (==_iff j i).0 here in
          let new : get_or arr' i 0 ≡ w =
            ap (λ t. get_or t i 0) (sym a)
            ∙ ap (λ t. get_or (set arr j w) t 0) (sym j_i)
            ∙ get_or-set_self arr j w 0 (get_elem?_bound arr j v at) in
          let old : v ≡ get_or arr i 0 =
            sym (get_or-bound arr j v at) ∙ ap (λ t. get_or arr t 0) j_i in
          rw here (omega (arith, new, old, next))
      | inr away ↦
          let kept : get_or arr' i 0 ≡ get_or arr i 0 =
            ap (λ t. get_or t i 0) (sym a)
            ∙ get_or-set_ne arr w 0 (λ j_i. ground (arith, away, j_i)) in
          rw away (omega (arith, kept))
    ]

-- What an entry adds to the count of file `i`, with the inode that it refers to.
abbrev pub weight : ℕ → Dirent → Dinode → ℕ
weight i e ptr =
    if e.inum == 0 then 0 else (if ptr.type == t_file then (if e.inum == i then 1 else 0) else 0)

once_named-Same : (e : Dirent) (l l' : Links) → once_named e l ≡ ok l' → Same l l'
unfolding once_named
once_named-Same e l l' h =
    let (n, found, h1) = >>=-eq-ok (read l.dir_block_arr e.inum) _ h in
    let (_, h2) = err_if-eq-ok (leb 1 n && ltb n (2 ^ 31) && not (is_dots e)) dir_twice _ h1 in
    elim (Bool-cases (is_dots e)) [
      | inl d ↦ let same : ok l ≡ ok l' = then-eq (is_dots e) (ok l) _ d h2 in cc same
      | inr d ↦
          let (v, _, h3) = >>=-eq-ok (increment n) _ (else-eq (is_dots e) (ok l) _ d h2) in
          let l_l : record l { dir_block_arr = set l.dir_block_arr e.inum v } ≡ l' = cc h3 in
          sym (ap (λ t. t.file_block_arr) l_l)
    ]

pub dir_entry-Same :
    (fuel : ℕ) (img : Image) (me : ℕ) (e : Dirent) (ptr : Dinode) (l l' : Links)
    → dir_entry fuel img me e ptr l ≡ ok l'
    → Same l l'
unfolding dir_entry
dir_entry-Same fuel img me e ptr l l' h =
    let (_, h1) = err_if-eq-ok (is_dot e.name && not (e.inum == me)) bad_format _ h in
    let (_, _, h2) = >>=-eq-ok (root_path fuel img me e) _ h1 in
    let (_, _, h3) = >>=-eq-ok (parent_names img me e ptr) _ h2 in once_named-Same e l l' h3

pub pointed-Same : (e : Dirent) (l l' : Links) → pointed e l ≡ ok l' → Same l l'
unfolding pointed
pointed-Same e l l' h = elim (Bool-cases (is_dots e)) [
  | inl d ↦ let same : ok l ≡ ok l' = rw d at h in cc same
  | inr d ↦
      let (arr, _, h1) = >>=-eq-ok (bump l.dir_pointed_inodes e.inum) _ (rw d at h) in
      let l_l : record l { dir_pointed_inodes = arr } ≡ l' = cc h1 in
      sym (ap (λ t. t.file_block_arr) l_l)
]

pub indexed-Same : (e : Dirent) (l l' : Links) → indexed e l ≡ ok l' → Same l l'
unfolding indexed
indexed-Same e l l' h =
    let (arr, _, h1) = >>=-eq-ok (write l.index_of_directory e.inum l.num_of_directory) _ h in
    let l_l : record l { index_of_directory = arr; num_of_directory = suc l.num_of_directory }
        ≡ l' =
      cc h1 in
    sym (ap (λ t. t.file_block_arr) l_l)

file_entry-Adds :
    (i j : ℕ) (l l' : Links) → file_entry j l ≡ ok l' → Adds i (if j == i then 1 else 0) l l'
unfolding file_entry
file_entry-Adds i j l l' h =
    let (arr, b, h1) = >>=-eq-ok (bump l.file_block_arr j) _ h in
    let l_l : record l { file_block_arr = arr } ≡ l' = cc h1 in
    ap (λ t. get_or t.file_block_arr i 0 % word) (sym l_l) ∙ bump-Adds l.file_block_arr arr i j b

pub Same-Adds : (i : ℕ) (l l' : Links) → Same l l' → Adds i 0 l l'
Same-Adds i l l' s = let e = ap (λ t. get_or t i 0) s in omega (arith, e)

-- The type of the entry's inode decides what is counted.
pub typed-Adds :
    (i : ℕ) (e : Dirent) (ptr : Dinode) (dir : Check Links) (l l' : Links)
    → (e.inum == 0) ≡ false
    → ((l'' : Links) → dir ≡ ok l'' → Same l l'')
    → (if ptr.type == t_file
        then file_entry e.inum l
        else (if ptr.type == t_dir then dir else ok l))
      ≡ ok l'
    → Adds i (weight i e ptr) l l'
typed-Adds i e ptr dir l l' used same h = elim (Bool-cases (ptr.type == t_file)) [
  | inl f ↦ rw (used, f) (file_entry-Adds i e.inum l l' (then-eq (ptr.type == t_file) _ _ f h))
  | inr f ↦
      let h1 = else-eq (ptr.type == t_file) (file_entry e.inum l) _ f h in
      elim (Bool-cases (ptr.type == t_dir)) [
        | inl d ↦
            rw (used, f) (Same-Adds i l l' (same l' (then-eq (ptr.type == t_dir) dir (ok l) d h1)))
        | inr d ↦
            let l_l : l ≡ l' = cc (else-eq (ptr.type == t_dir) dir (ok l) d h1) in
            rw (used, f) (Same-Adds i l l' (sym (ap (λ t. t.file_block_arr) l_l)))
      ]
]
