-- ===== src/Fs/Elements.antt =====
-- The elements of a path.
use computer_organization_an.Common.{
  ℕ, zero, suc, ◌≤◌, ◌<◌, ◌≡◌, refl, sym, ap, ◌∙◌, inl, inr, true, false, Bool-cases, Option, none,
  some, List, [], ◌∷◌, map, arith, ◌==◌, take, length,
}
use computer_organization_an.Shell.{begin_field, strsep, nonempty}
use computer_organization_an.Fs.Dir.{name_size}
use computer_organization_an.Fs.Path.{skip_slashes, element, skip_from, skipelem}

unfoldable pub add_element : (List ℕ → List (List ℕ)) → Option (List ℕ × List ℕ) → List (List ℕ)
add_element rest none = []
add_element rest (some (elem, path)) = elem ∷ rest path

-- What the calls of `skipelem` return one after the other, up to the null pointer.
unfoldable pub elements : ℕ → List ℕ → List (List ℕ)
elements zero path = []
elements (suc fuel) path = add_element (elements fuel) (skipelem path)

-- The fields between slashes that are not empty.
abbrev pub fields : List ℕ → List (List ℕ)
fields path = nonempty (strsep b'/' path)

skip_none : (c : ℕ) (path : List ℕ) → (c == b'/') ≡ false → skip_slashes (c ∷ path) ≡ c ∷ path
unfolding skip_slashes
skip_none c path s = rw s refl

fields_slash : (c : ℕ) (path : List ℕ) → (c == b'/') ≡ true → fields (c ∷ path) ≡ fields path
unfolding strsep nonempty
fields_slash c path s = rw s refl

skip_slash :
    (c : ℕ) (path : List ℕ) → (c == b'/') ≡ true → skip_slashes (c ∷ path) ≡ skip_slashes path
unfolding skip_slashes
skip_slash c path s = rw s refl

fields-skip_slashes : (path : List ℕ) → fields (skip_slashes path) ≡ fields path
unfolding skip_slashes
fields-skip_slashes [] = refl
fields-skip_slashes (c ∷ path) = elim (Bool-cases (c == b'/')) [
  | inl s ↦ ap fields (skip_slash c path s) ∙ fields-skip_slashes path ∙ sym (fields_slash c path s)
  | inr s ↦ ap fields (skip_none c path s)
]

length-skip_slashes : (path : List ℕ) → length (skip_slashes path) ≤ length path
unfolding skip_slashes
length-skip_slashes [] = omega arith
length-skip_slashes (c ∷ path) = elim (Bool-cases (c == b'/')) [
  | inl s ↦ rw s (omega (arith, length-skip_slashes path))
  | inr s ↦ rw s (omega arith)
]

-- What is behind an element is empty or begins with a slash.
abbrev Behind : List ℕ → List (List ℕ) → Type 0
Behind [] tail = tail ≡ []
Behind (c ∷ rest) tail = ((c == b'/') ≡ true) × (tail ≡ strsep b'/' rest)

strsep-element :
    (path : List ℕ)
    → (tail : List (List ℕ)) × (strsep b'/' path ≡ (element path).0 ∷ tail)
      × Behind (element path).1 tail
unfolding strsep element begin_field
strsep-element [] = ([], refl, refl)
strsep-element (c ∷ path) =
    let (tail, e, b) = strsep-element path in
    elim (Bool-cases (c == b'/')) [
      | inl s ↦ rw s (strsep b'/' path, refl, (s, refl))
      | inr s ↦ rw s (tail, ap (begin_field c) e, b)
    ]

nonempty-Behind :
    (rest : List ℕ) (tail : List (List ℕ)) → Behind rest tail → nonempty tail ≡ fields rest
unfolding strsep nonempty
nonempty-Behind [] tail e = rw e refl
nonempty-Behind (c ∷ rest) tail (s, e) = rw (s, e) refl

length-element : (path : List ℕ) → length (element path).1 ≤ length path
unfolding element
length-element [] = omega arith
length-element (c ∷ path) = elim (Bool-cases (c == b'/')) [
  | inl s ↦ rw s (omega arith)
  | inr s ↦ rw s (omega (arith, length-element path))
]

-- An element that does not begin with a slash.
fields-cons :
    (c : ℕ) (path : List ℕ)
    → (c == b'/') ≡ false
    → (fields (c ∷ path) ≡ (element (c ∷ path)).0 ∷ fields (element (c ∷ path)).1)
      × (length (element (c ∷ path)).1 ≤ length path)
unfolding strsep element begin_field nonempty
fields-cons c path s =
    let (tail, e, b) = strsep-element path in
    rw s (
      ap (λ t. nonempty (begin_field c t)) e
          ∙ ap (λ t. (c ∷ (element path).0) ∷ t) (nonempty-Behind (element path).1 tail b),
      length-element path,
    )

skipped : (path : List ℕ) → (skip_slashes path ≡ []) → fields path ≡ []
unfolding strsep nonempty
skipped path e = sym (fields-skip_slashes path) ∙ ap fields e

-- A slash does not stay in front.
no_slash :
    (path : List ℕ) {c : ℕ} {rest : List ℕ} → skip_slashes path ≡ c ∷ rest → (c == b'/') ≡ false
unfolding skip_slashes
no_slash [] e = absurd (cc e)
no_slash (d ∷ path) {c} {rest} e = elim (Bool-cases (d == b'/')) [
  | inl s ↦ no_slash path (rw s at e)
  | inr s ↦
      let e' : d ∷ path ≡ c ∷ rest = rw s at e in
      let same : d ≡ c = cc e' in ap (λ t. t == b'/') (sym same) ∙ s
]

-- `skipelem`, called until it returns the null pointer, gives the fields of the path between slashes
-- that are not empty, in their order, each cut to the length of a name; one call more than the path
-- has bytes is enough.
pub elements-fields :
    (fuel : ℕ) (path : List ℕ)
    → length path < fuel
    → elements fuel path ≡ map (take name_size) (fields path)
unfolding elements skipelem skip_from add_element
elements-fields zero path l = absurd (omega (arith, l))
elements-fields (suc fuel) path l = go (skip_slashes path) (λ q. elements-fields fuel q) refl
  where
    go :
        (q : List ℕ)
        → ((r : List ℕ) → length r < fuel → elements fuel r ≡ map (take name_size) (fields r))
        → skip_slashes path ≡ q
        → add_element (elements fuel) (skip_from (skip_slashes path))
          ≡ map (take name_size) (fields path)
    go [] later e =
        ap (λ t. add_element (elements fuel) (skip_from t)) e
        ∙ ap (map (take name_size)) (sym (skipped path e))
    go (c ∷ rest) later e =
        let (split, r_l) = fields-cons c rest (no_slash path e) in
        let r : List ℕ = (element (c ∷ rest)).1 in
        let same : length (skip_slashes path) ≡ suc (length rest) = ap length e in
        ap (λ t. add_element (elements fuel) (skip_from t)) e
        ∙ ap (λ t. take name_size (element (c ∷ rest)).0 ∷ t)
            (later (skip_slashes r)
                (omega (arith, length-skip_slashes r, r_l, same, length-skip_slashes path, l))
              ∙ ap (map (take name_size)) (fields-skip_slashes r))
        ∙ ap (map (take name_size)) (sym split ∙ ap fields (sym e) ∙ fields-skip_slashes path)
