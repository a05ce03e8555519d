-- ===== src/Proc/Sched/Choice.antt =====
-- Which process the scheduler chooses.
use computer_organization_an.Common.{
  ℕ, suc, ◌≤◌, ◌≡◌, ◌⊎◌, refl, inl, inr, Bool, true, false, ◌&&◌, ◌||◌, some, List, [], ◌∷◌, arith,
  ltb, ◌==◌, if◌then◌else◌, Bool-cases, get_elem?, All, All-get, All-mono,
}
use computer_organization_an.Common.Outcome.{ok}
use computer_organization_an.Proc.{Proc, runnable, is}
use computer_organization_an.Proc.Sched.{height_from, getheight, dispatch, visit}

height_from-le : (m : ℕ) (ps : List Proc) → m ≤ height_from m ps
unfolding height_from
height_from-le m [] = omega arith
height_from-le m (p ∷ ps) =
    ground
      (arith, height_from-le (if is p.state runnable && ltb m p.priority then p.priority else m) ps)

height_from-bounds :
    (m : ℕ) (ps : List Proc)
    → All (λ q. is q.state runnable ≡ true → q.priority ≤ height_from m ps) ps
unfolding height_from
height_from-bounds m [] = tt
height_from-bounds m (p ∷ ps) =
    let m' : ℕ = if is p.state runnable && ltb m p.priority then p.priority else m in
    (λ r. ground (arith, height_from-le m' ps), height_from-bounds m' ps)

-- `getheight` is the highest priority of a runnable process: none is above it.
pub getheight-bounds :
    (ps : List Proc) → All (λ q. is q.state runnable ≡ true → q.priority ≤ getheight ps) ps
unfolding getheight
getheight-bounds ps = height_from-bounds 0 ps

height_from_least :
    (b m : ℕ) (ps : List Proc)
    → m ≤ b
    → All (λ q. is q.state runnable ≡ true → q.priority ≤ b) ps
    → height_from m ps ≤ b
unfolding height_from
height_from_least b m [] h a = h
height_from_least b m (p ∷ ps) h a =
    height_from_least b (if is p.state runnable && ltb m p.priority then p.priority else m) ps
      (ground (arith, a.0)) a.1

-- `p` may run: it is runnable, and no runnable process has a higher priority.
abbrev pub IsTop : Proc → List Proc → Type 0
IsTop p ps =
    (is p.state runnable ≡ true)
    × All (λ q. is q.state runnable ≡ true → q.priority ≤ p.priority) ps

IsTop-getheight :
    (i : ℕ) (ps : List Proc) {p : Proc}
    → get_elem? ps i ≡ some p
    → IsTop p ps
    → p.priority ≡ getheight ps
unfolding getheight
IsTop-getheight i ps {p} e top =
    let above : p.priority ≤ getheight ps =
      All-get (λ q. is q.state runnable ≡ true → q.priority ≤ getheight ps) ps i e
        (getheight-bounds ps) top.0 in
    omega (arith, height_from_least p.priority 0 ps (omega arith) top.1)

module _ (run : List Proc → List Proc) (i : ℕ) (ps : List Proc) {p : Proc}
    (there : get_elem? ps i ≡ some p) where
  chosen-IsTop : is p.state runnable ≡ true → p.priority ≡ getheight ps → IsTop p ps
  chosen-IsTop r e = (r, rw e (getheight-bounds ps))

  -- A round of the scheduler at a slot gives the processor to its process exactly when that process
  -- is runnable and no runnable process has a higher priority; otherwise it changes nothing and goes
  -- on to the next slot.
  pub visit_chooses :
      (IsTop p ps × (visit run i ps ≡ dispatch run i p ps))
      ⊎ ((¬ (IsTop p ps)) × (visit run i ps ≡ ok (suc i, ps)))
  unfolding visit
  visit_chooses = elim (Bool-cases (is p.state runnable && p.priority == getheight ps)) [
    | inl e ↦ inl (chosen-IsTop (ground arith) (ground arith), rw (there, e))
    | inr e ↦ inr (λ top. ground (arith, IsTop-getheight i ps there top), rw (there, e))
  ]

abbrev pub runs : List Proc → Bool
runs [] = false
runs (p ∷ ps) = is p.state runnable || runs ps

none_runs :
    (b : ℕ) (ps : List Proc)
    → runs ps ≡ false
    → All (λ q. is q.state runnable ≡ true → q.priority ≤ b) ps
none_runs b [] h = tt
none_runs b (p ∷ ps) h = (λ r. ground arith, none_runs b ps (ground arith))

-- The higher of a runnable process and the top of the others is the top of all.
IsTop-cons :
    (p : Proc) (i : ℕ) (ps : List Proc) {q : Proc}
    → get_elem? ps i ≡ some q
    → IsTop q ps
    → (j : ℕ) × (r : Proc) × (get_elem? (p ∷ ps) j ≡ some r) × IsTop r (p ∷ ps)
IsTop-cons p i ps {q} e top = elim (Bool-cases (is p.state runnable && ltb q.priority p.priority)) [
  | inl h ↦ (
    0,
    p,
    refl,
    (ground arith, (λ r. omega arith, All-mono _ _ ps (λ a le r. ground (arith, le r)) top.1)),
  )
  | inr h ↦ (suc i, q, e, (top.0, (λ r. ground arith, top.1)))
]

runs-IsTop :
    (ps : List Proc)
    → runs ps ≡ true
    → (i : ℕ) × (p : Proc) × (get_elem? ps i ≡ some p) × IsTop p ps
runs-IsTop [] h = absurd (cc)
runs-IsTop (p ∷ ps) h = elim (Bool-cases (runs ps)) [
  | inl more ↦ let (i, q, e, top) = runs-IsTop ps more in IsTop-cons p i ps e top
  | inr alone ↦ (0, p, refl, (ground arith, (λ r. omega arith, none_runs p.priority ps alone)))
]

-- If any process is runnable, some slot holds one that no runnable process is above, and a round of
-- the scheduler at that slot gives it the processor, whatever it then does.
pub visit-busy :
    (ps : List Proc)
    → runs ps ≡ true
    → (i : ℕ) × (p : Proc) × (get_elem? ps i ≡ some p)
      × IsTop p ps
      × ((run : List Proc → List Proc) → visit run i ps ≡ dispatch run i p ps)
visit-busy ps h =
    let (i, p, e, top) = runs-IsTop ps h in
    (
      i,
      p,
      e,
      top,
      λ run. elim (visit_chooses run i ps e) [ inl (t, v) ↦ v | inr (n, v) ↦ absurd (n top) ],
    )
