-- ===== src/Pipe/Read.antt =====
-- What `piperead` takes from the queue, also while writers add to it; and a read after a write.
use mathlib.Core.List.{append-nil, append_assoc}
use computer_organization_an.Common.{
  ℕ, zero, suc, ◌≤◌, ◌<◌, ◌≡◌, ◌⊎◌, refl, sym, ap, ◌∙◌, inl, inr, Bool, true, false, ◌&&◌, List, [],
  ◌∷◌, ◌++◌, arith, Bool-cases, All, length,
}
use computer_organization_an.Pipe.{
  Pipe, Round, Call, returns, fails, blocked, empty, get, pipewrite, wait_bytes, take_bytes,
  piperead_loop, piperead, pipe_size,
}
use computer_organization_an.Pipe.Queue.{IsValid, contents, get-cons, contents-empty, size-empty}
use computer_organization_an.Pipe.Calls.{pipewrite-Appended}

-- While the reader sleeps, others add bytes at the end of the queue.
abbrev pub Fills : Round → Type 0
Fills round =
    (p : Pipe)
    → IsValid p
    → IsValid (round p).0 × ((more : List ℕ) × (contents (round p).0 ≡ contents p ++ more))

-- The bytes and the pipe that the copy loop leaves of the queue `before`.
abbrev pub Copied : List ℕ → ℕ → List ℕ → Pipe → Type 0
Copied before n cs p =
    IsValid p
    × (before ≡ cs ++ contents p)
    × ((length cs ≡ n) ⊎ ((length cs < n) × (contents p ≡ [])))

Copied-cons :
    (before : List ℕ) (n c : ℕ) (cs : List ℕ) (p : Pipe) (rest : List ℕ)
    → before ≡ c ∷ rest
    → Copied rest n cs p
    → Copied before (suc n) (c ∷ cs) p
Copied-cons before n c cs p rest e (v, e', inl k) = (v, e ∙ ap (λ t. c ∷ t) e', inl (ap suc k))
Copied-cons before n c cs p rest e (v, e', inr (k, none)) =
    (v, e ∙ ap (λ t. c ∷ t) e', inr (omega (arith, k), none))

pub piperead_loop-Copied :
    (n : ℕ) (p : Pipe)
    → IsValid p
    → Copied (contents p) n (piperead_loop n p).0 (piperead_loop n p).1
unfolding piperead_loop
piperead_loop-Copied zero p v = (v, refl, inl refl)
piperead_loop-Copied (suc n) p v = elim (Bool-cases (empty p)) [
  | inl e ↦ rw e (v, refl, inr (omega arith, contents-empty v e))
  | inr e ↦
      let (v', first) = get-cons v e in
      rw e (
        Copied-cons (contents p) n (get p).0 (piperead_loop n (get p).1).0
          (piperead_loop n (get p).1).1 (contents (get p).1) first
          (piperead_loop-Copied n (get p).1 v'))
]

-- The outcomes of waiting for bytes from the queue `before` on.
abbrev Ready : List ℕ → Call (Unit {0}) → Type 0
Ready before (returns _ p) =
    IsValid p
    × ((empty p && p.writeopen) ≡ false)
    × ((more : List ℕ) × (contents p ≡ before ++ more))
Ready before (fails p) = (empty p && p.writeopen) ≡ true
Ready before (blocked p) = (empty p && p.writeopen) ≡ true

Ready-filled :
    (before more : List ℕ) (after : List ℕ) (r : Call (Unit {0}))
    → after ≡ before ++ more
    → Ready after r
    → Ready before r
Ready-filled before more after (returns _ p) e (v, some_byte, (more', e')) =
    (v, some_byte, (more ++ more', e' ∙ ap (λ t. t ++ more') e ∙ append_assoc before more more'))
Ready-filled before more after (fails p) e r = r
Ready-filled before more after (blocked p) e r = r

wait_bytes-Ready :
    (rounds : List Round) (p : Pipe) (killed : Bool)
    → All Fills rounds
    → IsValid p
    → Ready (contents p) (wait_bytes rounds p killed)
unfolding wait_bytes
wait_bytes-Ready [] p killed d v = elim (Bool-cases (empty p && p.writeopen)) [
  | inr e ↦ rw e (v, e, ([], sym (append-nil (contents p))))
  | inl e ↦ elim (Bool-cases killed) [ inl e' ↦ rw (e, e') e | inr e' ↦ rw (e, e') e ]
]
wait_bytes-Ready (round ∷ rounds) p killed d v = elim (Bool-cases (empty p && p.writeopen)) [
  | inr e ↦ rw e (v, e, ([], sym (append-nil (contents p))))
  | inl e ↦ elim (Bool-cases killed) [
    | inl e' ↦ rw (e, e') e
    | inr e' ↦
        let (v', (more, added)) = d.0 p v in
        rw (e, e')
          (Ready-filled (contents p) more (contents (round p).0)
            (wait_bytes rounds (round p).0 (round p).1) added
            (wait_bytes-Ready rounds (round p).0 (round p).1 d.1 v'))
  ]
]

-- The outcomes of a read of at most `n` bytes from the queue `before`.
abbrev pub Took : List ℕ → ℕ → Call (List ℕ) → Type 0
Took before n (returns cs p) =
    IsValid p
    × ((more : List ℕ) × (before ++ more ≡ cs ++ contents p))
    × ((length cs ≡ n) ⊎ ((length cs < n) × (contents p ≡ [])))
Took before n (fails p) = (empty p && p.writeopen) ≡ true
Took before n (blocked p) = (empty p && p.writeopen) ≡ true

take_bytes-Took :
    (before : List ℕ) (n : ℕ) (r : Call (Unit {0}))
    → Ready before r
    → Took before n (take_bytes n r)
unfolding take_bytes
take_bytes-Took before n (returns _ p) (v, some_byte, (more, e)) =
    let (v', e', count) = piperead_loop-Copied n p v in (v', (more, sym e ∙ e'), count)
take_bytes-Took before n (fails p) r = r
take_bytes-Took before n (blocked p) r = r

-- While the caller is the pipe's only reader, a read that returns has taken the oldest bytes of the
-- queue in their order, `n` of them or all that there were; a read that fails or blocks met an
-- empty pipe whose writing end was open.
pub piperead-Took :
    (n : ℕ) (rounds : List Round) (p : Pipe) (killed : Bool)
    → All Fills rounds
    → IsValid p
    → Took (contents p) n (piperead n rounds p killed)
unfolding piperead
piperead-Took n rounds p killed d v =
    take_bytes-Took (contents p) n (wait_bytes rounds p killed)
      (wait_bytes-Ready rounds p killed d v)

append-full :
    (out rest all : List ℕ)
    → all ≡ out ++ rest
    → (length out ≡ length all) ⊎ ((length out < length all) × (rest ≡ []))
    → out ≡ all
append-full out rest all e (inr (_, none)) = sym (e ∙ ap (λ t. out ++ t) none ∙ append-nil out)
append-full [] [] all e (inl k) = sym e
append-full [] (x ∷ rest) all e (inl k) =
    let k' : length all ≡ suc (length rest) = ap length e in absurd (omega (arith, k, k'))
append-full (x ∷ out) rest [] e (inl k) = absurd (omega (arith, k))
append-full (x ∷ out) rest (y ∷ all) e (inl k) =
    let heads : y ≡ x = cc e in
    let tails : all ≡ out ++ rest = cc e in
    let ends : out ≡ all = append-full out rest all tails (inl (omega (arith, k))) in
    cc (heads, ends)

empty-cons : (c : ℕ) (cs : List ℕ) (p : Pipe) → IsValid p → contents p ≡ c ∷ cs → empty p ≡ false
empty-cons c cs p v e = elim (Bool-cases (empty p)) [
  | inr h ↦ h
  | inl h ↦ absurd (cc (e, contents-empty v h))
]

wait_bytes-returns :
    (rounds : List Round) (p : Pipe) (killed : Bool)
    → empty p ≡ false
    → wait_bytes rounds p killed ≡ returns tt p
unfolding wait_bytes
wait_bytes-returns [] p killed h = rw h
wait_bytes-returns (round ∷ rounds) p killed h = rw h

piperead-all :
    (c : ℕ) (cs : List ℕ) (rounds : List Round) (p : Pipe) (killed : Bool)
    → IsValid p
    → contents p ≡ c ∷ cs
    → (p' : Pipe) × (piperead (suc (length cs)) rounds p killed ≡ returns (c ∷ cs) p')
unfolding piperead take_bytes
piperead-all c cs rounds p killed v e =
    let n : ℕ = suc (length cs) in
    let (_, taken, count) = piperead_loop-Copied n p v in
    let all : (piperead_loop n p).0 ≡ c ∷ cs =
      append-full (piperead_loop n p).0 (contents (piperead_loop n p).1) (c ∷ cs) (sym e ∙ taken)
        count in
    rw (wait_bytes-returns rounds p killed (empty-cons c cs p v e))
      ((piperead_loop n p).1, ap (λ t. returns t (piperead_loop n p).1) all)

-- Bytes written to a pipe that holds none, at least one and no more than its size, are what the
-- next read of their number returns, in the same order; neither call sleeps or fails.
pub piperead-pipewrite :
    (c : ℕ) (cs : List ℕ) (writing reading : List Round) (p : Pipe) (killed killed' : Bool)
    → IsValid p
    → empty p ≡ true
    → suc (length cs) ≤ pipe_size
    → (p' : Pipe) × (pipewrite (c ∷ cs) writing p killed ≡ returns (suc (length cs)) p')
      × ((p'' : Pipe) × (piperead (suc (length cs)) reading p' killed' ≡ returns (c ∷ cs) p''))
piperead-pipewrite c cs writing reading p killed killed' v h fits =
    let (p', e, v', all) =
      pipewrite-Appended (c ∷ cs) writing p killed v (omega (arith, size-empty v h, fits)) in
    (
      p',
      e,
      piperead-all c cs reading p' killed' v' (all ∙ ap (λ t. t ++ c ∷ cs) (contents-empty v h)),
    )
