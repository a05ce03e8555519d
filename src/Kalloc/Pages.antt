-- ===== src/Kalloc/Pages.antt =====
-- Free lists and tables of frames as lists of pages: repetitions, removal, and the chain of `next`
-- words that holds a list.
use mathlib.Core.List.{append_assoc}
use computer_organization_an.Common.{
  ℕ, ◌+◌, ◌≤◌, ◌≡◌, ◌≢◌, refl, inl, inr, true, false, ◌||◌, List, [], ◌∷◌, ◌++◌, arith, ◌==◌,
  Bool-cases, eq→==, ne→==, length, length-take, All,
}
use computer_organization_an.Kalloc.{Kmem, update, link, Chain, allocated, elem, remove_first}

abbrev pub Distinct : List ℕ → Type 0
Distinct [] = Unit
Distinct (x ∷ xs) = (elem x xs ≡ false) × Distinct xs

pub elem-append : (a : ℕ) (xs ys : List ℕ) → elem a (xs ++ ys) ≡ (elem a xs || elem a ys)
elem-append a [] ys = refl
elem-append a (x ∷ xs) ys = ground (arith, elem-append a xs ys)

-- A write outside a chain leaves it as it is.
pub Chain-update :
    (next : ℕ → ℕ) (p v q : ℕ) (xs : List ℕ)
    → elem v xs ≡ false
    → Chain next p xs
    → Chain (update next v q) p xs
unfolding update
Chain-update next p v q [] out c = c
Chain-update next p v q (x ∷ xs) out c =
    let apart : x ≢ v = ground arith in
    rw (ne→== x v apart) (c.0, c.1, Chain-update next (next x) v q xs (ground arith) c.2)

pub elem-remove_first :
    (a r : ℕ) (xs : List ℕ) → elem a xs ≡ false → elem a (remove_first r xs) ≡ false
elem-remove_first a r [] h = refl
elem-remove_first a r (x ∷ xs) h = ground (arith, elem-remove_first a r xs)

pub All-remove_first : (P : ℕ → Type 0) (r : ℕ) (xs : List ℕ) → All P xs → All P (remove_first r xs)
All-remove_first P r [] h = h
All-remove_first P r (x ∷ xs) h = elim (Bool-cases (x == r)) [
  | inl e ↦ rw e h.1
  | inr e ↦ rw e (h.0, All-remove_first P r xs h.1)
]

pub Distinct-remove_first : (r : ℕ) (xs : List ℕ) → Distinct xs → Distinct (remove_first r xs)
Distinct-remove_first r [] d = d
Distinct-remove_first r (x ∷ xs) d =
    ground (arith, elem-remove_first x r xs, Distinct-remove_first r xs)

pub elem-remove_first_self :
    (r : ℕ) (xs : List ℕ) → Distinct xs → elem r (remove_first r xs) ≡ false
elem-remove_first_self r [] d = refl
elem-remove_first_self r (x ∷ xs) d = ground (arith, elem-remove_first_self r xs)

pub remove_first-append :
    (r : ℕ) (xs ys : List ℕ)
    → elem r xs ≡ false
    → remove_first r (xs ++ ys) ≡ xs ++ remove_first r ys
remove_first-append r [] ys h = refl
remove_first-append r (x ∷ xs) ys h = ground (arith, remove_first-append r xs ys)

pub length-remove_first :
    (r : ℕ) (xs : List ℕ) → elem r xs ≡ true → length (remove_first r xs) + 1 ≡ length xs
length-remove_first r [] h = absurd (cc)
length-remove_first r (x ∷ xs) h = ground (arith, length-remove_first r xs)

pub length-remove_first-le : (r : ℕ) (xs : List ℕ) → length (remove_first r xs) ≤ length xs
length-remove_first-le r [] = omega arith
length-remove_first-le r (x ∷ xs) = ground (arith, length-remove_first-le r xs)

pub length-allocated :
    (k : Kmem) → k.alloc_size ≤ length k.alloc_list → length (allocated k) ≡ k.alloc_size
length-allocated k h = omega (arith, length-take k.alloc_size k.alloc_list)

pub Chain-link :
    (k : Kmem) (v : ℕ) (free : List ℕ)
    → v ≢ 0
    → elem v free ≡ false
    → Chain k.next k.freelist free
    → Chain (link v k).next (link v k).freelist (v ∷ free)
unfolding link update
Chain-link k v free nz out c =
    (refl, nz, rw (eq→== v v refl) (Chain-update k.next k.freelist v k.freelist free out c))

pub Distinct-snoc :
    (p : ℕ) (xs : List ℕ) → elem p xs ≡ false → Distinct xs → Distinct (xs ++ p ∷ [])
Distinct-snoc p [] out d = (refl, tt)
Distinct-snoc p (x ∷ xs) out d =
    (ground (arith, elem-append x xs (p ∷ [])), Distinct-snoc p xs (ground arith) d.1)

-- A page that leaves the free list for the end of the table.
pub Distinct-moved :
    (front : List ℕ) (p : ℕ) (back al : List ℕ)
    → Distinct ((front ++ p ∷ back) ++ al)
    → Distinct ((front ++ back) ++ (al ++ p ∷ []))
Distinct-moved [] p back al d =
    rw (← append_assoc back al (p ∷ [])) (Distinct-snoc p (back ++ al) d.0 d.1)
Distinct-moved (x ∷ front) p back al d = (
  ground (
    arith,
    elem-append x (front ++ p ∷ back) al,
    elem-append x front (p ∷ back),
    elem-append x (front ++ back) (al ++ p ∷ []),
    elem-append x front back,
    elem-append x al (p ∷ []),
  ),
  Distinct-moved front p back al d.1,
)

pub All_without :
    (P : ℕ → Type 0) (front : List ℕ) (p : ℕ) (back : List ℕ)
    → All P (front ++ p ∷ back)
    → P p × All P (front ++ back)
All_without P [] p back h = h
All_without P (x ∷ front) p back h =
    let rest : P p × All P (front ++ back) = All_without P front p back h.1 in
    (rest.0, (h.0, rest.1))

pub Distinct-front : (xs ys : List ℕ) → Distinct (xs ++ ys) → Distinct xs
Distinct-front [] ys d = tt
Distinct-front (x ∷ xs) ys d = (ground (arith, elem-append x xs ys), Distinct-front xs ys d.1)
