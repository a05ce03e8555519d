-- ===== src/Pipe/Calls.antt =====
-- What `pipewrite` and `piperead` do to the queue, also while other callers use the pipe.
use mathlib.Core.List.{append-nil, append_assoc}
use computer_organization_an.Common.{
  ℕ, suc, ◌+◌, ◌≤◌, ◌<◌, ◌≡◌, refl, sym, ap, ◌∙◌, inl, inr, Bool, true, false, not, ◌||◌, List, [],
  ◌∷◌, ◌++◌, arith, Bool-cases, All, length, ne→==, add32,
}
use computer_organization_an.Pipe.{
  Pipe, Round, Call, returns, fails, blocked, full, put, pipeclose, wait_room, put_then,
  pipewrite_loop, pipewrite, pipe_size,
}
use computer_organization_an.Pipe.Queue.{IsValid, contents, size, put-append, size-put}

-- While the writer sleeps, others take bytes from the front of the queue, in order.
abbrev pub Drains : Round → Type 0
Drains round =
    (p : Pipe)
    → IsValid p
    → IsValid (round p).0 × ((out : List ℕ) × (contents p ≡ out ++ contents (round p).0))

-- The outcomes of waiting for room from the queue `before` on.
abbrev Roomy : List ℕ → Call (List Round × Bool) → Type 0
Roomy before (returns (rounds, killed) p) =
    IsValid p
    × (full p ≡ false)
    × All Drains rounds
    × ((out : List ℕ) × (before ≡ out ++ contents p))
Roomy before (fails p) = full p ≡ true
Roomy before (blocked p) = full p ≡ true

Roomy-drained :
    (before out rest : List ℕ) (r : Call (List Round × Bool))
    → before ≡ out ++ rest
    → Roomy rest r
    → Roomy before r
Roomy-drained before out rest (returns (rounds, killed) p) e (v, room, d, (out', e')) = (
  v,
  room,
  d,
  (out ++ out', e ∙ ap (λ t. out ++ t) e' ∙ sym (append_assoc out out' (contents p))),
)
Roomy-drained before out rest (fails p) e r = r
Roomy-drained before out rest (blocked p) e r = r

wait_room-Roomy :
    (rounds : List Round) (p : Pipe) (killed : Bool)
    → All Drains rounds
    → IsValid p
    → Roomy (contents p) (wait_room rounds p killed)
unfolding wait_room
wait_room-Roomy [] p killed d v = elim (Bool-cases (full p)) [
  | inr e ↦ rw e (v, e, tt, ([], refl))
  | inl e ↦ elim (Bool-cases (not p.readopen || killed)) [
    | inl e' ↦ rw (e, e') e
    | inr e' ↦ rw (e, e') e
  ]
]
wait_room-Roomy (round ∷ rounds) p killed d v = elim (Bool-cases (full p)) [
  | inr e ↦ rw e (v, e, d, ([], refl))
  | inl e ↦ elim (Bool-cases (not p.readopen || killed)) [
    | inl e' ↦ rw (e, e') e
    | inr e' ↦
        let (v', (out, taken)) = d.0 p v in
        rw (e, e')
          (Roomy-drained (contents p) out (contents (round p).0)
            (wait_room rounds (round p).0 (round p).1) taken
            (wait_room-Roomy rounds (round p).0 (round p).1 d.1 v'))
  ]
]

-- The outcomes of a write of `cs` to the queue `before`: on return the queue is what was there and
-- what was written, in order, less what the readers have taken from its front.
abbrev pub Wrote : List ℕ → List ℕ → ℕ → Call ℕ → Type 0
Wrote before cs n (returns k p) =
    (k ≡ n) × IsValid p × ((out : List ℕ) × (before ++ cs ≡ out ++ contents p))
Wrote before cs n (fails p) = full p ≡ true
Wrote before cs n (blocked p) = full p ≡ true

Wrote-cons :
    (before out rest : List ℕ) (c : ℕ) (cs : List ℕ) (n : ℕ) (r : Call ℕ)
    → before ≡ out ++ rest
    → Wrote (rest ++ c ∷ []) cs n r
    → Wrote before (c ∷ cs) n r
Wrote-cons before out rest c cs n (returns k p) e (kn, v, (out', e')) = (kn, v, (out ++ out', all))
  where
    all : before ++ c ∷ cs ≡ (out ++ out') ++ contents p
    all =
        ap (λ t. t ++ c ∷ cs) e
        ∙ append_assoc out rest (c ∷ cs)
        ∙ ap (λ t. out ++ t) (sym (append_assoc rest (c ∷ []) cs) ∙ e')
        ∙ sym (append_assoc out out' (contents p))
Wrote-cons before out rest c cs n (fails p) e w = w
Wrote-cons before out rest c cs n (blocked p) e w = w

pipewrite_loop-Wrote :
    (n : ℕ) (cs : List ℕ) (rounds : List Round) (p : Pipe) (killed : Bool)
    → All Drains rounds
    → IsValid p
    → Wrote (contents p) cs n (pipewrite_loop n cs rounds p killed)
unfolding pipewrite_loop put_then
pipewrite_loop-Wrote n [] rounds p killed d v = (refl, v, ([], append-nil (contents p)))
pipewrite_loop-Wrote n (c ∷ cs) rounds p killed d v =
    go (pipewrite_loop-Wrote n cs) (wait_room rounds p killed) (wait_room-Roomy rounds p killed d v)
  where
    go :
        ((rounds' : List Round) (p' : Pipe) (killed' : Bool)
          → All Drains rounds'
          → IsValid p'
          → Wrote (contents p') cs n (pipewrite_loop n cs rounds' p' killed'))
        → (r : Call (List Round × Bool)) → Roomy (contents p) r
        → Wrote (contents p) (c ∷ cs) n (put_then (pipewrite_loop n cs) c r)
    go next (returns (rounds', killed') p') (v', room, d', (out, taken)) =
        let (v'', more) = put-append c v' room in
        Wrote-cons (contents p) out (contents p') c cs n
          (pipewrite_loop n cs rounds' (put p' c) killed') taken
          (rw more at (next rounds' (put p' c) killed' d' v''))
    go next (fails p') r = r
    go next (blocked p') r = r

-- While the caller is the pipe's only writer, a write that returns has put all its bytes on the
-- queue, in order and behind what was there, whatever the readers took from the front while it
-- slept; a write that fails or blocks met a full pipe.
pub pipewrite-Wrote :
    (cs : List ℕ) (rounds : List Round) (p : Pipe) (killed : Bool)
    → All Drains rounds
    → IsValid p
    → Wrote (contents p) cs (length cs) (pipewrite cs rounds p killed)
unfolding pipewrite
pipewrite-Wrote cs rounds p killed d v = pipewrite_loop-Wrote (length cs) cs rounds p killed d v

full-has_room : (p : Pipe) → IsValid p → size p < pipe_size → full p ≡ false
unfolding full
full-has_room p v h = ne→== p.nwrite (add32 p.nread pipe_size) (omega (arith, v, h))

wait_room-has_room :
    (rounds : List Round) (p : Pipe) (killed : Bool)
    → full p ≡ false
    → wait_room rounds p killed ≡ returns (rounds, killed) p
unfolding wait_room
wait_room-has_room [] p killed h = rw h
wait_room-has_room (round ∷ rounds) p killed h = rw h

-- The outcomes of a write of `cs` that finds room: the queue is what was there and what was written.
abbrev pub Appended : List ℕ → List ℕ → ℕ → Call ℕ → Type 0
Appended before cs n r = (p : Pipe) × (r ≡ returns n p) × IsValid p × (contents p ≡ before ++ cs)

pipewrite_loop-Appended :
    (n : ℕ) (cs : List ℕ) (rounds : List Round) (p : Pipe) (killed : Bool)
    → IsValid p
    → size p + length cs ≤ pipe_size
    → Appended (contents p) cs n (pipewrite_loop n cs rounds p killed)
unfolding pipewrite_loop put_then
pipewrite_loop-Appended n [] rounds p killed v h = (p, refl, v, sym (append-nil (contents p)))
pipewrite_loop-Appended n (c ∷ cs) rounds p killed v h =
    let room : full p ≡ false = full-has_room p v (omega (arith, h)) in
    let (v', more) = put-append c v room in
    let grown : size (put p c) ≡ suc (size p) = size-put c v room in
    let (p', e, v'', all) =
      pipewrite_loop-Appended n cs rounds (put p c) killed v' (omega (arith, grown, h)) in
    rw (wait_room-has_room rounds p killed room)
      (p', e, v'', all ∙ ap (λ t. t ++ cs) more ∙ append_assoc (contents p) (c ∷ []) cs)

-- A write of bytes that all fit into the pipe never sleeps or fails: it returns their number, and
-- appends them to the queue, also when the caller has been killed or the reading end is closed.
pub pipewrite-Appended :
    (cs : List ℕ) (rounds : List Round) (p : Pipe) (killed : Bool)
    → IsValid p
    → size p + length cs ≤ pipe_size
    → Appended (contents p) cs (length cs) (pipewrite cs rounds p killed)
unfolding pipewrite
pipewrite-Appended cs rounds p killed v h =
    pipewrite_loop-Appended (length cs) cs rounds p killed v h

-- Of a pipe with both ends open, closing one end frees nothing and closing the other then frees the
-- page, in either order; what is in the buffer stays readable.
pub pipeclose-frees :
    (p : Pipe) (writable : Bool)
    → p.readopen ≡ true
    → p.writeopen ≡ true
    → ((pipeclose writable p).1 ≡ false)
      × ((pipeclose (not writable) (pipeclose writable p).0).1 ≡ true)
      × (contents (pipeclose writable p).0 ≡ contents p)
unfolding pipeclose
pipeclose-frees p true r w = (rw r, refl, refl)
pipeclose-frees p false r w = (rw w, refl, refl)
