-- ===== src/Proc/Death/Reap.antt =====
-- What a pass of `wait` finds and does.
use mathlib.Core.Bool.{or_assoc}
use computer_organization_an.Common.{
  ℕ, suc, ◌+◌, ◌≡◌, ◌⊎◌, refl, ◌∙◌, inl, inr, Bool, true, false, not, ◌&&◌, ◌||◌, Option, none,
  some, List, [], ◌∷◌, arith, Bool-cases, get_elem?, set, All,
}
use computer_organization_an.Proc.{unused, zombie, slot, Proc, is, points_to}
use computer_organization_an.Proc.Life.{Services, Kernel, sleep}
use computer_organization_an.Proc.Death.{
  Waited, reaped, childless, asleep, scan, cleared, wait_at, wait_pass,
}

-- The caller has a child among these processes.
abbrev pub has_child : ℕ → List Proc → Bool
has_child cur [] = false
has_child cur (p ∷ ps) = points_to p.parent cur || has_child cur ps

-- What the scan finds from slot `i` on.
abbrev pub Scanned : ℕ → ℕ → Bool → List Proc → Bool × Option (ℕ × Proc) → Type 0
Scanned cur i havekids ps (b, none) =
    (b ≡ (havekids || has_child cur ps))
    × All (λ p. (points_to p.parent cur && is p.state zombie) ≡ false) ps
Scanned cur i havekids ps (b, some (j, child)) =
    (k : ℕ) × (j ≡ i + k)
    × (get_elem? ps k ≡ some child)
    × (points_to child.parent cur ≡ true)
    × (is child.state zombie ≡ true)

Scanned-cons :
    (cur i : ℕ) (h : Bool) (p : Proc) (ps : List Proc) (r : Bool × Option (ℕ × Proc))
    → (points_to p.parent cur && is p.state zombie) ≡ false
    → Scanned cur (suc i) (h || points_to p.parent cur) ps r
    → Scanned cur i h (p ∷ ps) r
Scanned-cons cur i h p ps (b, none) e s =
    (s.0 ∙ or_assoc h (points_to p.parent cur) (has_child cur ps), (e, s.1))
Scanned-cons cur i h p ps (b, some (j, child)) e (k, at, there, mine, dead) =
    (suc k, omega arith, there, mine, dead)

scan-Scanned : (cur i : ℕ) (h : Bool) (ps : List Proc) → Scanned cur i h ps (scan cur i h ps)
unfolding scan
scan-Scanned cur i h [] = (ground arith, tt)
scan-Scanned cur i h (p ∷ ps) = elim (Bool-cases (points_to p.parent cur && is p.state zombie)) [
  | inl e ↦ rw e (0, omega arith, refl, ground arith, ground arith)
  | inr e ↦ rw e (
      Scanned-cons cur i h p ps (scan cur (suc i) (h || points_to p.parent cur) ps) e
        (scan-Scanned cur (suc i) (h || points_to p.parent cur) ps))
]

module _ (s : Services) (cur : ℕ) (p : Proc) (st : Kernel s) where
  -- What each outcome of a pass means.
  abbrev pub Outcomes : Waited (Kernel s) → Type 0
  Outcomes (reaped pid st') =
      (i : ℕ) × (child : Proc) × (get_elem? st.procs i ≡ some child)
      × (points_to child.parent cur ≡ true)
      × (is child.state zombie ≡ true)
      × (pid ≡ child.pid)
      × (st'.procs
          ≡ set st.procs i (record child {
            kstack = 0;
            state = unused;
            pid = 0;
            parent = none;
            name = set child.name 0 0;
            killed = false;
          }))
      × (st'.rest ≡ s.freevm child.pgdir (s.kfree child.kstack st.rest))
  Outcomes childless =
      ((has_child cur st.procs ≡ false) ⊎ (p.killed ≡ true))
      × All (λ q. (points_to q.parent cur && is q.state zombie) ≡ false) st.procs
  Outcomes (asleep st') =
      (has_child cur st.procs ≡ true)
      × (p.killed ≡ false)
      × All (λ q. (points_to q.parent cur && is q.state zombie) ≡ false) st.procs
      × (st'.procs ≡ set st.procs cur (sleep (slot cur) p))

  wait_at-Outcomes :
      (r : Bool × Option (ℕ × Proc))
      → Scanned cur 0 false st.procs r
      → Outcomes (wait_at s cur p st r)
  unfolding wait_at cleared
  wait_at-Outcomes (b, some (i, child)) (k, at, there, mine, dead) =
      let e : i ≡ k = omega arith in (i, child, rw e there, mine, dead, refl, refl, refl)
  wait_at-Outcomes (b, none) (e, quiet) = elim (Bool-cases (not b || p.killed)) [
    | inl t ↦ rw t (ground arith, quiet)
    | inr t ↦ rw t (ground arith, ground arith, quiet, refl)
  ]

  -- A pass of `wait` reaps a zombie child of the caller, whose pid it returns and whose slot it makes
  -- an unused one without a pid, a parent, a name or a kernel stack, leaving the other slots, and whose
  -- pages it frees, whenever there is one; it gives up with -1 only if the caller has no child or was killed;
  -- and it goes to sleep on its own slot only with a child left, none of them a zombie.
  pub wait_pass-Outcomes : Outcomes (wait_pass s cur p st)
  unfolding wait_pass
  wait_pass-Outcomes =
      wait_at-Outcomes (scan cur 0 false st.procs) (scan-Scanned cur 0 false st.procs)
