-- ===== src/Proc/Death/Orphans.antt =====
-- What `exit` leaves in the process table.
use computer_organization_an.Common.{
  ℕ, zero, suc, ◌≡◌, refl, sym, ap, ◌∙◌, inl, inr, false, Option, none, some, List, [], ◌∷◌, map,
  arith, if◌then◌else◌, Bool-cases, get_elem?, set, length,
}
use computer_organization_an.Proc.{zombie, Chan, Proc, is, points_to, chan_of}
use computer_organization_an.Proc.Life.{wake, wakeup1}
use computer_organization_an.Proc.Death.{adopt_at, adopt, adopt_all, mark_zombie, exit_table}

-- The parent fields of the table.
abbrev pub parents : List Proc → List (Option ℕ)
parents [] = []
parents (p ∷ ps) = p.parent ∷ parents ps

parents-wakeup1 : (c : Chan) (ps : List Proc) → parents (wakeup1 c ps) ≡ parents ps
unfolding wakeup1 wake
parents-wakeup1 c [] = refl
parents-wakeup1 c (p ∷ ps) = ground (arith, parents-wakeup1 c ps)

parents-set :
    (ps : List Proc) (i : ℕ) (p : Proc) → parents (set ps i p) ≡ set (parents ps) i p.parent
parents-set [] i p = refl
parents-set (q ∷ ps) zero p = refl
parents-set (q ∷ ps) (suc i) p = ap (λ t. q.parent ∷ t) (parents-set ps i p)

-- The parent that a process has once `cur` has exited.
abbrev pub passed_on : ℕ → Option ℕ → Option ℕ → Option ℕ
passed_on cur init parent = if points_to parent cur then init else parent

abbrev pass_at : ℕ → Option ℕ → ℕ → List (Option ℕ) → List (Option ℕ)
pass_at cur init i [] = []
pass_at cur init zero (q ∷ qs) = passed_on cur init q ∷ qs
pass_at cur init (suc i) (q ∷ qs) = q ∷ pass_at cur init i qs

abbrev pass_all : ℕ → Option ℕ → ℕ → ℕ → List (Option ℕ) → List (Option ℕ)
pass_all cur init zero i qs = qs
pass_all cur init (suc n) i qs = pass_all cur init n (suc i) (pass_at cur init i qs)

set_same :
    (ps : List Proc) (i : ℕ) {p : Proc} (cur : ℕ) (init : Option ℕ)
    → get_elem? ps i ≡ some p
    → set (parents ps) i (passed_on cur init p.parent) ≡ pass_at cur init i (parents ps)
set_same [] i cur init e = refl
set_same (q ∷ ps) zero {p} cur init e = let e' : q.parent ≡ p.parent = cc in rw e'
set_same (q ∷ ps) (suc i) cur init e = ap (λ t. q.parent ∷ t) (set_same ps i cur init e)

pass_at-none :
    (ps : List Proc) (i cur : ℕ) (init : Option ℕ)
    → get_elem? ps i ≡ none
    → pass_at cur init i (parents ps) ≡ parents ps
pass_at-none [] i cur init e = refl
pass_at-none (q ∷ ps) zero cur init e = absurd (cc)
pass_at-none (q ∷ ps) (suc i) cur init e = ap (λ t. q.parent ∷ t) (pass_at-none ps i cur init e)

pass_at-other :
    (ps : List Proc) (i cur : ℕ) (init : Option ℕ) {p : Proc}
    → get_elem? ps i ≡ some p
    → points_to p.parent cur ≡ false
    → pass_at cur init i (parents ps) ≡ parents ps
pass_at-other [] i cur init e h = refl
pass_at-other (q ∷ ps) zero cur init {p} e h = let e' : q ≡ p = cc in rw (e', h)
pass_at-other (q ∷ ps) (suc i) cur init e h =
    ap (λ t. q.parent ∷ t) (pass_at-other ps i cur init e h)

parents-adopt_at :
    (cur : ℕ) (init : Option ℕ) (i : ℕ) (ps : List Proc) (p : Proc)
    → get_elem? ps i ≡ some p
    → parents (adopt_at cur init i ps (some p)) ≡ pass_at cur init i (parents ps)
unfolding adopt_at
parents-adopt_at cur init i ps p e = elim (Bool-cases (points_to p.parent cur)) [
  | inr h ↦ rw h (sym (pass_at-other ps i cur init e h))
  | inl h ↦
      let ps' : List Proc = set ps i (record p { parent = init }) in
      let moved : parents ps' ≡ pass_at cur init i (parents ps) =
        parents-set ps i (record p { parent = init })
        ∙ (let back : init ≡ passed_on cur init p.parent = rw h refl in
            ap (set (parents ps) i) back)
        ∙ set_same ps i cur init e in
      rw h (elim (Bool-cases (is p.state zombie)) [
        | inl z ↦ rw z (parents-wakeup1 (chan_of init) ps' ∙ moved)
        | inr z ↦ rw z moved
      ])
]

parents-adopt :
    (cur : ℕ) (init : Option ℕ) (i : ℕ) (ps : List Proc)
    → parents (adopt cur init i ps) ≡ pass_at cur init i (parents ps)
unfolding adopt adopt_at
parents-adopt cur init i ps = go (get_elem? ps i) refl
  where
    go :
        (o : Option Proc)
        → get_elem? ps i ≡ o
        → parents (adopt_at cur init i ps o) ≡ pass_at cur init i (parents ps)
    go none e = sym (pass_at-none ps i cur init e)
    go (some p) e = parents-adopt_at cur init i ps p e

parents-adopt_all :
    (cur : ℕ) (init : Option ℕ) (n i : ℕ) (ps : List Proc)
    → parents (adopt_all cur init n i ps) ≡ pass_all cur init n i (parents ps)
unfolding adopt_all
parents-adopt_all cur init zero i ps = refl
parents-adopt_all cur init (suc n) i ps =
    parents-adopt_all cur init n (suc i) (adopt cur init i ps)
    ∙ ap (pass_all cur init n (suc i)) (parents-adopt cur init i ps)

pass_all-suc :
    (cur : ℕ) (init : Option ℕ) (n i : ℕ) (q : Option ℕ) (qs : List (Option ℕ))
    → pass_all cur init n (suc i) (q ∷ qs) ≡ q ∷ pass_all cur init n i qs
pass_all-suc cur init zero i q qs = refl
pass_all-suc cur init (suc n) i q qs = pass_all-suc cur init n (suc i) q (pass_at cur init i qs)

pass_all-map :
    (cur : ℕ) (init : Option ℕ) (ps : List Proc)
    → pass_all cur init (length ps) 0 (parents ps) ≡ map (passed_on cur init) (parents ps)
pass_all-map cur init [] = refl
pass_all-map cur init (p ∷ ps) =
    pass_all-suc cur init (length ps) 0 (passed_on cur init p.parent) (parents ps)
    ∙ ap (λ t. passed_on cur init p.parent ∷ t) (pass_all-map cur init ps)

parents-mark_zombie : (cur : ℕ) (ps : List Proc) → parents (mark_zombie cur ps) ≡ parents ps
unfolding mark_zombie
parents-mark_zombie cur [] = refl
parents-mark_zombie zero (p ∷ ps) = refl
parents-mark_zombie (suc cur) (p ∷ ps) = ap (λ t. p.parent ∷ t) (parents-mark_zombie cur ps)

length-parents : (ps : List Proc) → length (parents ps) ≡ length ps
length-parents [] = refl
length-parents (p ∷ ps) = ap suc (length-parents ps)

-- `exit` passes every child of the exiting process on to `initproc`, and changes no other parent.
pub parents-exit_table :
    (cur : ℕ) (init : Option ℕ) (p : Proc) (ps : List Proc)
    → parents (exit_table cur (length ps) init p ps) ≡ map (passed_on cur init) (parents ps)
unfolding exit_table
parents-exit_table cur init p ps =
    let ps' : List Proc = wakeup1 (chan_of p.parent) ps in
    let e : parents ps' ≡ parents ps = parents-wakeup1 (chan_of p.parent) ps in
    let same : length ps' ≡ length ps =
      sym (length-parents ps') ∙ ap length e ∙ length-parents ps in
    parents-mark_zombie cur (adopt_all cur init (length ps) 0 ps')
    ∙ parents-adopt_all cur init (length ps) 0 ps'
    ∙ ap (λ n. pass_all cur init n 0 (parents ps')) (sym same)
    ∙ pass_all-map cur init ps'
    ∙ ap (map (passed_on cur init)) e
