-- ===== src/Kalloc/Track.antt =====
-- The bookkeeping loops of kalloc.c: `kfree` takes a frame off the table of allocated frames, and
-- `dump_allocated` copies that table out.
use mathlib.Core.List.{reverse, append-nil, append_assoc, reverse-append}
use mathlib.Core.Option
use computer_organization_an.Common.{
  ℕ, zero, suc, ◌-◌, ◌≤◌, ◌<◌, ◌≡◌, refl, sym, ap, ◌∙◌, ◌⊎◌, inl, inr, Option, none, some, List, [],
  ◌∷◌, ◌++◌, arith, ◌==◌, Bool-cases, length, get_or, set, take, length-set, lt→ltb, le→ltb,
}
use computer_organization_an.Common.Int.{pos, negsuc}
use computer_organization_an.Kalloc.{
  Kmem, find, shift_down, untrack_at, untrack, dump_loop, dump_allocated, allocated, remove_first,
}

find-suc : (n i r x : ℕ) (a : List ℕ) → find n (suc i) r (x ∷ a) ≡ Option.map suc (find n i r a)
unfolding find
find-suc zero i r x a = refl
find-suc (suc n) i r x a = ground (arith, find-suc n (suc i) r x a)

shift_down-suc : (n i x : ℕ) (a : List ℕ) → shift_down n (suc i) (x ∷ a) ≡ x ∷ shift_down n i a
unfolding shift_down
shift_down-suc zero i x a = refl
shift_down-suc (suc n) i x a = shift_down-suc n (suc i) x _

take-shift_down : (n x : ℕ) (a : List ℕ) → n ≤ length a → take n (shift_down n 0 (x ∷ a)) ≡ take n a
unfolding shift_down
take-shift_down zero x a h = refl
take-shift_down (suc n) x [] h = elim h [ ]
take-shift_down (suc n) x (y ∷ a) h =
    rw shift_down-suc (ap (λ t. y ∷ t) (take-shift_down n y a (omega arith)))

length-shift_down : (n i : ℕ) (a : List ℕ) → length (shift_down n i a) ≡ length a
unfolding shift_down
length-shift_down zero i a = refl
length-shift_down (suc n) i a =
    length-shift_down n (suc i) (set a i (get_or a (suc i) 0)) ∙ length-set a i (get_or a (suc i) 0)

-- The entries that stay when the frame found at `o`, if any, is shifted out of the first `n`.
abbrev kept : ℕ → List ℕ → Option ℕ → List ℕ
kept n a none = take n a
kept n a (some i) = take (n - 1) (shift_down (n - suc i) i a)

kept-suc :
    (n x : ℕ) (a : List ℕ) (o : Option ℕ)
    → (o ≡ none) ⊎ (1 ≤ n)
    → kept (suc n) (x ∷ a) (Option.map suc o) ≡ x ∷ kept n a o
kept-suc n x a none h = refl
kept-suc zero x a (some i) h = elim h [ inl e ↦ absurd (cc) | inr e ↦ elim e [ ] ]
kept-suc (suc n) x a (some i) h =
    let e : suc (suc n) - suc (suc i) ≡ suc n - suc i = omega arith in
    let e' : suc (suc n) - 1 ≡ suc (suc n - 1) = omega arith in rw (e, e', shift_down-suc)

-- Nothing is found in no rounds.
find-some-pos : (n r : ℕ) (a : List ℕ) → (find n 0 r a ≡ none) ⊎ (1 ≤ n)
unfolding find
find-some-pos zero r a = inl refl
find-some-pos (suc n) r a = inr (omega arith)

kept-find :
    (n r : ℕ) (a : List ℕ) → n ≤ length a → kept n a (find n 0 r a) ≡ remove_first r (take n a)
unfolding find
kept-find zero r a h = refl
kept-find (suc n) r [] h = elim h [ ]
kept-find (suc n) r (x ∷ a) h = elim (Bool-cases (x == r)) [
  | inl e ↦ let e' : suc n - 1 ≡ n = omega arith in rw (e, e') (take-shift_down n x a (omega arith))
  | inr e ↦
      rw (e, find-suc, kept-suc n x a (find n 0 r a) (find-some-pos n r a))
        (ap (λ t. x ∷ t) (kept-find n r a (omega arith)))
]

module _ (k : Kmem) where
  untrack_at_fields :
      (o : Option ℕ)
      → ((untrack_at k o).freelist ≡ k.freelist)
        × ((untrack_at k o).next ≡ k.next)
        × (length (untrack_at k o).alloc_list ≡ length k.alloc_list)
        × ((untrack_at k o).alloc_size ≤ k.alloc_size)
  unfolding untrack_at
  untrack_at_fields none = (refl, refl, refl, omega arith)
  untrack_at_fields (some i) =
      (refl, refl, length-shift_down (k.alloc_size - suc i) i k.alloc_list, omega arith)

  allocated-untrack_at :
      (o : Option ℕ) → allocated (untrack_at k o) ≡ kept k.alloc_size k.alloc_list o
  unfolding untrack_at
  allocated-untrack_at none = refl
  allocated-untrack_at (some i) = refl

-- The bookkeeping leaves the free list and the length of the table alone.
pub untrack_fields :
    (r : ℕ) (k : Kmem)
    → ((untrack r k).freelist ≡ k.freelist)
      × ((untrack r k).next ≡ k.next)
      × (length (untrack r k).alloc_list ≡ length k.alloc_list)
      × ((untrack r k).alloc_size ≤ k.alloc_size)
unfolding untrack
untrack_fields r k = untrack_at_fields k (find k.alloc_size 0 r k.alloc_list)

-- The loops of `kfree` drop the first entry for the frame from the table and keep the others in
-- their order.
pub allocated-untrack :
    (r : ℕ) (k : Kmem)
    → k.alloc_size ≤ length k.alloc_list
    → allocated (untrack r k) ≡ remove_first r (allocated k)
unfolding untrack
allocated-untrack r k h =
    allocated-untrack_at k (find k.alloc_size 0 r k.alloc_list)
    ∙ kept-find k.alloc_size r k.alloc_list h

dump_loop-append :
    (n i : ℕ) (a frames : List ℕ) → dump_loop n i a frames ≡ frames ++ dump_loop n i a []
unfolding dump_loop
dump_loop-append zero i a frames = sym (append-nil frames)
dump_loop-append (suc n) i a frames =
    let x : List ℕ = get_or a (i - 1) 0 ∷ [] in
    dump_loop-append n (i - 1) a (frames ++ x)
    ∙ append_assoc frames x (dump_loop n (i - 1) a [])
    ∙ ap (λ t. frames ++ t) (sym (dump_loop-append n (i - 1) a x))

take-suc : (s : ℕ) (a : List ℕ) → s < length a → take (suc s) a ≡ take s a ++ get_or a s 0 ∷ []
take-suc s [] h = elim h [ ]
take-suc zero (x ∷ a) h = refl
take-suc (suc s) (x ∷ a) h = ap (λ t. x ∷ t) (take-suc s a (omega arith))

reverse-take-suc :
    (s : ℕ) (a : List ℕ)
    → s < length a
    → reverse (take (suc s) a) ≡ get_or a s 0 ∷ reverse (take s a)
reverse-take-suc s a h = rw (take-suc s a h) (reverse-append (take s a) (get_or a s 0 ∷ []))

dump_loop-take :
    (n s : ℕ) (a : List ℕ) → n ≤ s → s ≤ length a → dump_loop n s a [] ≡ take n (reverse (take s a))
unfolding dump_loop
dump_loop-take zero s a h h' = refl
dump_loop-take (suc n) zero a h h' = elim h [ ]
dump_loop-take (suc n) (suc s) a h h' =
    let e : suc s - 1 ≡ s = omega arith in
    let x : ℕ = get_or a s 0 in
    rw (reverse-take-suc s a h', e)
      (dump_loop-append n s a (x ∷ [])
        ∙ ap (λ t. x ∷ t) (dump_loop-take n s a (omega arith) (omega arith)))

-- `dump_allocated` reports -1 for a negative count and for one above the number of frames handed
-- out, and otherwise fills `frames` with that many frames, the latest allocation first.
pub dump_allocated_lem :
    (k : Kmem)
    → k.alloc_size ≤ length k.alloc_list
    → ((n : ℕ) → dump_allocated k (negsuc n) ≡ none)
      × ((n : ℕ) → k.alloc_size < n → dump_allocated k (pos n) ≡ none)
      × ((n : ℕ)
          → n ≤ k.alloc_size
          → dump_allocated k (pos n) ≡ some (take n (reverse (allocated k))))
unfolding dump_allocated
dump_allocated_lem k h = (
  λ n. refl,
  λ n l. rw (lt→ltb _ _ l),
  λ n l. rw (le→ltb _ _ l) (ap some (dump_loop-take n k.alloc_size k.alloc_list l h)),
)
