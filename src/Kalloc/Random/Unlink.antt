-- ===== src/Kalloc/Random/Unlink.antt =====
-- What the loops of `kalloc` in part_b do on a well-formed free list.
use computer_organization_an.Common.{
  ℕ, zero, suc, ◌+◌, ◌≡◌, ◌≢◌, ◌<◌, refl, true, false, List, [], ◌∷◌, ◌++◌, arith, length, eq→==,
  ne→==,
}
use computer_organization_an.Common.Outcome.{ok}
use computer_organization_an.Kalloc.{Kmem, update, Chain, elem}
use computer_organization_an.Kalloc.Pages.{Distinct, Chain-update, elem-append}
use computer_organization_an.Kalloc.Random.{count_free, walk, find_prev, unlink}

pub count_free-length :
    (fuel : ℕ) (next : ℕ → ℕ) (r n : ℕ) (free : List ℕ)
    → Chain next r free
    → length free < fuel
    → count_free fuel next r n ≡ ok (length free + n)
unfolding count_free
count_free-length zero next r n free c h = elim h [ ]
count_free-length (suc fuel) next r n [] c h = ground arith
count_free-length (suc fuel) next r n (x ∷ free) c h =
    ground (arith, count_free-length fuel next (next x) (suc n) free)

pub walk-Chain :
    (next : ℕ → ℕ) (r p : ℕ) (front back : List ℕ)
    → Chain next r (front ++ p ∷ back)
    → walk (length front) next r ≡ ok p
unfolding walk
walk-Chain next r p [] back c = ground arith
walk-Chain next r p (x ∷ front) back c = ground (arith, walk-Chain next (next x) p front back)

abbrev last : ℕ → List ℕ → ℕ
last q [] = q
last q (x ∷ xs) = last x xs

elem-last : (q : ℕ) (xs : List ℕ) → elem (last q xs) (q ∷ xs) ≡ true
elem-last q [] = ground arith
elem-last q (x ∷ xs) = ground (arith, elem-last x xs)

last-ne : (a q : ℕ) (xs : List ℕ) → elem a (q ∷ xs) ≡ false → a ≢ last q xs
last-ne a q [] h = ground arith
last-ne a q (x ∷ xs) h = last-ne a x xs (ground arith)

-- The word before `p` in the chain.
find_prev-last :
    (fuel : ℕ) (next : ℕ → ℕ) (p q : ℕ) (front back : List ℕ)
    → Chain next q (q ∷ front ++ p ∷ back)
    → Distinct (q ∷ front ++ p ∷ back)
    → length front < fuel
    → find_prev fuel next q p ≡ ok (last q front)
unfolding find_prev
find_prev-last zero next p q front back c d h = elim h [ ]
find_prev-last (suc fuel) next p q [] back c d h = ground arith
find_prev-last (suc fuel) next p q (x ∷ front) back c d h =
    let c' : Chain next x (x ∷ front ++ p ∷ back) = (refl, c.2.1, c.2.2) in
    let rec = find_prev-last fuel next p x front back c' d.1 (omega arith) in
    let far : x ≢ p = ground (arith, elem-append x front (p ∷ back)) in
    rw (ne→== q 0 c.1, c.2.0, ne→== x p far) rec

-- Writing past `p` in the word before it takes `p` off the chain.
Chain-unlink :
    (next : ℕ → ℕ) (p q : ℕ) (front back : List ℕ)
    → Chain next q (q ∷ front ++ p ∷ back)
    → Distinct (q ∷ front ++ p ∷ back)
    → Chain (update next (last q front) (next p)) q (q ∷ front ++ back)
unfolding update
Chain-unlink next p q [] back c d =
    rw (eq→== q q refl) (refl, c.1, Chain-update next (next p) q (next p) back (ground arith) c.2.2)
Chain-unlink next p q (x ∷ front) back c d =
    let c' : Chain next x (x ∷ front ++ p ∷ back) = (refl, c.2.1, c.2.2) in
    let rec = Chain-unlink next p x front back c' d.1 in
    let far : q ≢ last x front =
      last-ne q x front (ground (arith, elem-append q (x ∷ front) (p ∷ back))) in
    rw (ne→== q _ far) (refl, c.1, (c.2.0, rec.1, rec.2))

last-ne_zero :
    (next : ℕ → ℕ) (p q : ℕ) (front back : List ℕ)
    → Chain next q (q ∷ front ++ p ∷ back)
    → last q front ≢ 0
last-ne_zero next p q [] back c = c.1
last-ne_zero next p q (x ∷ front) back c = last-ne_zero next p x front back (refl, c.2.1, c.2.2)

-- The list that `unlink` leaves: its head and its words.
pub unlinked : (k : Kmem) (p : ℕ) (front : List ℕ) → Kmem
unlinked k p [] = record k { freelist = k.next p }
unlinked k p (q ∷ front) = record k { next = update k.next (last q front) (k.next p) }

pub unlink-unlinked :
    (fuel : ℕ) (k : Kmem) (p : ℕ) (front back : List ℕ)
    → Chain k.next k.freelist (front ++ p ∷ back)
    → Distinct (front ++ p ∷ back)
    → length front < fuel
    → unlink fuel p k ≡ ok (unlinked k p front)
unfolding unlink unlinked
unlink-unlinked fuel k p [] back c d h = ground arith
unlink-unlinked fuel k p (q ∷ front) back c d h =
    let c' : Chain k.next q (q ∷ front ++ p ∷ back) = (refl, c.1, c.2) in
    let prev : find_prev fuel k.next k.freelist p ≡ ok (last q front) =
      rw c.0 (find_prev-last fuel k.next p q front back c' d (omega arith)) in
    let there : last q front ≢ 0 = last-ne_zero k.next p q front back c' in
    let far : q ≢ p = ground (arith, elem-append q front (p ∷ back)) in
    rw (ne→== k.freelist p (rw c.0 far), prev, ne→== (last q front) 0 there)

pub Chain-unlinked :
    (k : Kmem) (p : ℕ) (front back : List ℕ)
    → Chain k.next k.freelist (front ++ p ∷ back)
    → Distinct (front ++ p ∷ back)
    → Chain (unlinked k p front).next (unlinked k p front).freelist (front ++ back)
unfolding unlinked
Chain-unlinked k p [] back c d = c.2
Chain-unlinked k p (q ∷ front) back c d =
    let done = Chain-unlink k.next p q front back (refl, c.1, c.2) d in (c.0, done.1, done.2)

-- The table of frames stays as it was.
pub unlinked_fields :
    (k : Kmem) (p : ℕ) (front : List ℕ)
    → unlinked k p front
      ≡ record k { freelist = (unlinked k p front).freelist; next = (unlinked k p front).next }
unfolding unlinked
unlinked_fields k p [] = refl
unlinked_fields k p (q ∷ front) = refl
