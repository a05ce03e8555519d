-- ===== src/Common/Outcome.antt =====
-- What a kernel function ends in: a value, `panic`, or a trap of the machine (a division by zero,
-- an access through a null pointer or outside an array).
use mathlib.Core.Path.{◌≡◌, refl}

pub data Outcome {ℓ} (A : Type ℓ) : Type ℓ where
  ok : A → Outcome A
  panic : Outcome A
  fault : Outcome A

-- A chain stops at the first step that panics or faults.
infixl 5 ◌>>=◌
module _ {ℓ κ} {A : Type ℓ} {B : Type κ} where
  abbrev pub ◌>>=◌ : Outcome A → (A → Outcome B) → Outcome B
  ◌>>=◌ fault next = fault
  ◌>>=◌ panic next = panic
  ◌>>=◌ (ok x) next = next x

  -- A chain that ends well has a first step that does.
  pub >>=-eq-ok :
      (first : Outcome A) (next : A → Outcome B) {end : B}
      → ◌>>=◌ first next ≡ ok end
      → (x : A) × (first ≡ ok x) × (next x ≡ ok end)
  >>=-eq-ok fault next e = absurd (cc)
  >>=-eq-ok panic next e = absurd (cc)
  >>=-eq-ok (ok x) next e = (x, refl, e)
