-- ===== src/Shell/Fields.antt =====
-- The fields of a string.
use computer_organization_an.Common.{
  ℕ, ◌≡◌, ◌≢◌, refl, sym, ap, ◌∙◌, inl, inr, false, Bool-cases, List, [], ◌∷◌, ◌++◌, ◌==◌, ==_iff,
  All,
}
use computer_organization_an.Shell.{Str, begin_field, strsep}
use computer_organization_an.Shell.Syntax.{has}

-- The fields with the separator between them.
abbrev pub join : ℕ → List Str → Str
join separator [] = []
join separator (field ∷ []) = field
join separator (field ∷ next ∷ fields) = field ++ separator ∷ join separator (next ∷ fields)

join-begin_field :
    (separator c : ℕ) (fields : List Str)
    → fields ≢ []
    → join separator (begin_field c fields) ≡ c ∷ join separator fields
unfolding begin_field
join-begin_field separator c [] n = absurd (n refl)
join-begin_field separator c (field ∷ []) n = refl
join-begin_field separator c (field ∷ next ∷ fields) n = refl

begin_field-ne : (c : ℕ) (fields : List Str) → begin_field c fields ≢ []
unfolding begin_field
begin_field-ne c [] e = cc e
begin_field-ne c (field ∷ fields) e = cc e

strsep-ne : (separator : ℕ) (str : Str) → strsep separator str ≢ []
unfolding strsep
strsep-ne separator [] e = cc e
strsep-ne separator (c ∷ str) e = elim (Bool-cases (c == separator)) [
  | inl s ↦ let e' : [] ∷ strsep separator str ≡ [] = rw s at e in cc e'
  | inr s ↦ begin_field-ne c (strsep separator str) (rw s at e)
]

join-cons :
    (separator : ℕ) (fields : List Str)
    → fields ≢ []
    → join separator ([] ∷ fields) ≡ separator ∷ join separator fields
join-cons separator [] n = absurd (n refl)
join-cons separator (field ∷ fields) n = refl

begin_field-has :
    (separator c : ℕ) (fields : List Str)
    → (c == separator) ≡ false
    → All (λ field. has separator field ≡ false) fields
    → All (λ field. has separator field ≡ false) (begin_field c fields)
unfolding begin_field has
begin_field-has separator c [] e a = (rw e, tt)
begin_field-has separator c (field ∷ fields) e a = (rw e a.0, a.1)

-- The fields that `strsep` returns have no separator, and with separators between them they are the
-- string.
pub join-strsep :
    (separator : ℕ) (str : Str)
    → (join separator (strsep separator str) ≡ str)
      × All (λ field. has separator field ≡ false) (strsep separator str)
unfolding strsep has
join-strsep separator [] = (refl, (refl, tt))
join-strsep separator (c ∷ str) =
    let (whole, clean) = join-strsep separator str in
    elim (Bool-cases (c == separator)) [
      | inl s ↦ rw s (
        join-cons separator (strsep separator str) (strsep-ne separator str)
            ∙ ap (λ t. separator ∷ t) whole
            ∙ ap (λ t. t ∷ str) (sym ((==_iff c separator).0 s)),
        (refl, clean),
      )
      | inr s ↦ rw s (
        join-begin_field separator c (strsep separator str) (strsep-ne separator str)
            ∙ ap (λ t. c ∷ t) whole,
        begin_field-has separator c (strsep separator str) s clean,
      )
    ]
