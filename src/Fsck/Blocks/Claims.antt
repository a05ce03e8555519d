-- ===== src/Fsck/Blocks/Claims.antt =====
-- Claiming addresses one after the other: on success they are pairwise different.
use computer_organization_an.Common.{
  Distinct, ℕ, ◌<◌, ◌≡◌, ◌≢◌, refl, sym, ap, ◌∙◌, inl, inr, Bool-cases, Option, none, some, List,
  [], ◌∷◌, ◌++◌, arith, ◌==◌, if◌then◌else◌, ==_iff, All, length, get_elem?, set,
  get_elem?-set_self, get_elem?-set_ne, get_elem?_bound, length-set,
}
use computer_organization_an.Fsck.Check.{Message, ok, err, >>=-eq-ok, read, read_as, claim}

abbrev pub nonzero : List ℕ → List ℕ
nonzero [] = []
nonzero (a ∷ rest) = if a == 0 then nonzero rest else a ∷ nonzero rest

-- The array with the addresses marked.
abbrev pub mark : List ℕ → List ℕ → List ℕ
mark [] arr = arr
mark (x ∷ xs) arr = mark xs (set arr x 1)

-- None of the addresses is marked in the array, and none comes twice.
abbrev pub Fresh : List ℕ → List ℕ → Type 0
Fresh arr [] = Unit
Fresh arr (x ∷ xs) = (get_elem? arr x ≡ some 0) × Fresh (set arr x 1) xs

pub mark-append : (xs ys arr : List ℕ) → mark (xs ++ ys) arr ≡ mark ys (mark xs arr)
mark-append [] ys arr = refl
mark-append (x ∷ xs) ys arr = mark-append xs ys (set arr x 1)

pub Fresh-append :
    (xs ys arr : List ℕ) → Fresh arr xs → Fresh (mark xs arr) ys → Fresh arr (xs ++ ys)
Fresh-append [] ys arr f g = g
Fresh-append (x ∷ xs) ys arr f g = (f.0, Fresh-append xs ys (set arr x 1) f.1 g)

pub read-eq-ok : (arr : List ℕ) (i v : ℕ) → read arr i ≡ ok v → get_elem? arr i ≡ some v
unfolding read
read-eq-ok arr i v e = go (get_elem? arr i) e
  where
    go : (o : Option ℕ) → read_as o ≡ ok v → o ≡ some v
    go none e' = unfold read_as in absurd (cc e')
    go (some w) e' = unfold read_as in cc e'

pub claim-eq-ok :
    (arr : List ℕ) (i : ℕ) (m : Message) (marks : List ℕ)
    → claim arr i m ≡ ok marks
    → (get_elem? arr i ≡ some 0) × (marks ≡ set arr i 1)
unfolding claim
claim-eq-ok arr i m marks e =
    let (v, r, rest) = >>=-eq-ok (read arr i) (λ v. if v == 0 then ok (set arr i 1) else err m) e in
    elim (Bool-cases (v == 0)) [
      | inl z ↦
          let v0 : v ≡ 0 = (==_iff v 0).0 z in
          let done : ok (set arr i 1) ≡ ok marks = rw z at rest in
          (read-eq-ok arr i v r ∙ ap some v0, cc done)
      | inr z ↦ let failed : err m ≡ ok marks = rw z at rest in absurd (cc failed)
    ]

get_elem?-set_one :
    (arr : List ℕ) (x i : ℕ) → get_elem? arr i ≡ some 1 → get_elem? (set arr x 1) i ≡ some 1
get_elem?-set_one arr x i h = elim (Bool-cases (x == i)) [
  | inl e ↦
      let x_i : x ≡ i = (==_iff x i).0 e in
      rw x_i (get_elem?-set_self arr i 1 (get_elem?_bound arr i 1 h))
  | inr e ↦ get_elem?-set_ne arr 1 (λ x_i. absurd (ground (arith, e, x_i))) ∙ h
]

Fresh-ne : (xs arr : List ℕ) (i : ℕ) → Fresh arr xs → get_elem? arr i ≡ some 1 → All (λ y. i ≢ y) xs
Fresh-ne [] arr i f h = tt
Fresh-ne (x ∷ xs) arr i f h =
    (λ e. marked e, Fresh-ne xs (set arr x 1) i f.1 (get_elem?-set_one arr x i h))
  where
    marked : i ≡ x → ⊥
    marked e = cc (sym h, e, f.0)

pub Fresh-Distinct : (xs arr : List ℕ) → Fresh arr xs → Distinct xs
Fresh-Distinct [] arr f = tt
Fresh-Distinct (x ∷ xs) arr f = (
  Fresh-ne xs (set arr x 1) x f.1 (get_elem?-set_self arr x 1 (get_elem?_bound arr x 0 f.0)),
  Fresh-Distinct xs (set arr x 1) f.1,
)

-- In an array of zeros every claimed address is an index.
pub Fresh-lt : (xs arr : List ℕ) → Fresh arr xs → All (λ x. x < length arr) xs
Fresh-lt [] arr f = tt
Fresh-lt (x ∷ xs) arr f =
    (get_elem?_bound arr x 0 f.0, rw (length-set arr x 1) at (Fresh-lt xs (set arr x 1) f.1))
