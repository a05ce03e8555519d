-- ===== src/Fsck/Dirs/Totals.antt =====
-- What a whole directory adds to the count of a file.
use computer_organization_an.Common.{
  ℕ, ◌%◌, word, ◌≡◌, sym, ap, ◌∙◌, Bool, true, false, not, List, [], ◌∷◌, ◌==◌, if◌then◌else◌,
  get_or, take,
}
use computer_organization_an.Fsck.Image.{Image, Dinode, ndirect, pointers, entries}
use computer_organization_an.Fsck.Check.{Check, ok, >>=-eq-ok, err_if-eq-ok, bad_format}
use computer_organization_an.Fsck.Dirs.{
  Links, entry_loop, entry_loop_indirect, dir_blocks, dir_blocks_indirect, directory,
}
use computer_organization_an.Fsck.Dirs.Files.{Adds, Same-Adds}
use computer_organization_an.Fsck.Dirs.Counts.{
  Adds-add, refs, block_refs, indirect_refs, dir_refs, entry_loop-Adds, entry_loop_indirect-Adds,
}

-- A branch of a loop that does nothing adds nothing.
branch-Adds :
    (i w : ℕ) (b : Bool) (m : Check (Links × ℕ)) (l : Links) (n : ℕ) (r : Links × ℕ)
    → ((r' : Links × ℕ) → m ≡ ok r' → Adds i w l r'.0)
    → (if b then ok (l, n) else m) ≡ ok r
    → Adds i (if b then 0 else w) l r.0
branch-Adds i w true m l n r adds h =
    let l_r : l ≡ r.0 = cc h in Same-Adds i l r.0 (sym (ap (λ t. t.file_block_arr) l_r))
branch-Adds i w false m l n r adds h = adds r h

dir_blocks-Adds :
    (i fuel : ℕ) (img : Image) (me : ℕ) (addrs : List ℕ) (l : Links) (n : ℕ) (r : Links × ℕ)
    → dir_blocks fuel img me addrs l n ≡ ok r
    → Adds i (block_refs img i addrs) l r.0
unfolding dir_blocks
dir_blocks-Adds i fuel img me [] l n r h =
    let l_r : l ≡ r.0 = cc h in Same-Adds i l r.0 (sym (ap (λ t. t.file_block_arr) l_r))
dir_blocks-Adds i fuel img me (a ∷ addrs) l n r h =
    let here : Check (Links × ℕ) = entry_loop fuel img me (entries img a) l n in
    let w : ℕ = refs img i (entries img a) in
    let (m, first, rest) = >>=-eq-ok (if a == 0 then ok (l, n) else here) _ h in
    Adds-add i (if a == 0 then 0 else w) (block_refs img i addrs) l m.0 r.0
      (branch-Adds i w (a == 0) here l n m
        (λ r' e. entry_loop-Adds i fuel img me (entries img a) l n r' e) first)
      (dir_blocks-Adds i fuel img me addrs m.0 m.1 r rest)

dir_blocks_indirect-Adds :
    (i : ℕ) (img : Image) (me : ℕ) (addrs : List ℕ) (l : Links) (n : ℕ) (r : Links × ℕ)
    → dir_blocks_indirect img me addrs l n ≡ ok r
    → Adds i (indirect_refs img i addrs) l r.0
unfolding dir_blocks_indirect
dir_blocks_indirect-Adds i img me [] l n r h =
    let l_r : l ≡ r.0 = cc h in Same-Adds i l r.0 (sym (ap (λ t. t.file_block_arr) l_r))
dir_blocks_indirect-Adds i img me (a ∷ addrs) l n r h =
    let (m, first, rest) = >>=-eq-ok (entry_loop_indirect me (entries img a) l n) _ h in
    Adds-add i (refs img i (entries img a)) (indirect_refs img i addrs) l m.0 r.0
      (entry_loop_indirect-Adds i img me (entries img a) l n m first)
      (dir_blocks_indirect-Adds i img me addrs m.0 m.1 r rest)

pub directory-Adds :
    (i fuel : ℕ) (img : Image) (me : ℕ) (ino : Dinode) (l l' : Links)
    → directory fuel img me ino l ≡ ok l'
    → Adds i (dir_refs img i ino) l l'
unfolding directory
directory-Adds i fuel img me ino l l' h =
    let a : ℕ = get_or ino.addrs ndirect 0 in
    let (m, first, h1) = >>=-eq-ok (dir_blocks fuel img me (take ndirect ino.addrs) l 0) _ h in
    let behind : Check (Links × ℕ) = dir_blocks_indirect img me (pointers img a) m.0 m.1 in
    let (r, second, h2) = >>=-eq-ok (if a == 0 then ok m else behind) _ h1 in
    let (_, h3) = err_if-eq-ok (not (r.1 == 2)) bad_format _ h2 in
    let w : ℕ = indirect_refs img i (pointers img a) in
    let r_l : r.0 ≡ l' = cc h3 in
    Adds-add i (block_refs img i (take ndirect ino.addrs)) (if a == 0 then 0 else w) l m.0 l'
      (dir_blocks-Adds i fuel img me (take ndirect ino.addrs) l 0 m first)
      (ap (λ t. get_or t.file_block_arr i 0 % word) (sym r_l)
        ∙ branch-Adds i w (a == 0) behind m.0 m.1 r
            (λ r' e. dir_blocks_indirect-Adds i img me (pointers img a) m.0 m.1 r' e) second)
