-- ===== src/Fsck/Check.antt =====
-- How the checker ends: with a message and exit code 1, by an access outside an array, or not at
-- all; and the counters that it keeps in arrays.
use computer_organization_an.Common.{
  ℕ, ◌≡◌, refl, Bool, true, false, Option, none, some, List, ◌==◌, if◌then◌else◌, get_elem?, set,
  add32,
}

pub data Message : Type 0 where
  bad_inode bad_direct bad_indirect marked_free direct_twice indirect_twice : Message
  bad_format inaccessible parent_mismatch dir_twice referred_free : Message
  not_found bad_count bad_superblock not_in_use bad_size : Message

pub data Check {ℓ} (A : Type ℓ) : Type ℓ where
  ok : A → Check A
  err : Message → Check A
  fault hangs : Check A

infixl 5 ◌>>=◌
module _ {ℓ κ} {A : Type ℓ} {B : Type κ} where
  abbrev pub ◌>>=◌ : Check A → (A → Check B) → Check B
  ◌>>=◌ (ok a) next = next a
  ◌>>=◌ (err m) next = err m
  ◌>>=◌ fault next = fault
  ◌>>=◌ hangs next = hangs

  pub >>=-eq-ok :
      (first : Check A) (next : A → Check B) {end : B}
      → ◌>>=◌ first next ≡ ok end
      → (a : A) × (first ≡ ok a) × (next a ≡ ok end)
  >>=-eq-ok (ok a) next e = (a, refl, e)
  >>=-eq-ok (err m) next e = absurd (cc e)
  >>=-eq-ok fault next e = absurd (cc e)
  >>=-eq-ok hangs next e = absurd (cc e)

-- A message if the test holds.
abbrev pub err_if {ℓ} : {A : Type ℓ} → Bool → Message → Check A → Check A
err_if true m rest = err m
err_if false m rest = rest

-- A test that a successful run has passed.
pub err_if-eq-ok {ℓ} :
    {A : Type ℓ} (b : Bool) (m : Message) (rest : Check A) {end : A}
    → err_if b m rest ≡ ok end
    → (b ≡ false) × (rest ≡ ok end)
err_if-eq-ok true m rest e = absurd (cc e)
err_if-eq-ok false m rest e = (refl, e)

-- An equation about a conditional, on either branch.
module _ {ℓ} {A : Type ℓ} where
  pub then-eq : (b : Bool) (x y : A) {z : A} → b ≡ true → (if b then x else y) ≡ z → x ≡ z
  then-eq true x y e h = h
  then-eq false x y e h = absurd (cc e)

  pub else-eq : (b : Bool) (x y : A) {z : A} → b ≡ false → (if b then x else y) ≡ z → y ≡ z
  else-eq true x y e h = absurd (cc e)
  else-eq false x y e h = h

unfoldable pub read_as : Option ℕ → Check ℕ
read_as none = fault
read_as (some v) = ok v

-- An element of an array.
unfoldable pub read : List ℕ → ℕ → Check ℕ
read arr i = read_as (get_elem? arr i)

-- v++ for an `int`, which stands as the 32 bits that it has; behind the largest value it is undefined.
unfoldable pub increment : ℕ → Check ℕ
increment v = if v == 2147483647 then fault else ok (add32 v 1)

-- arr[i]++
unfoldable pub bump : List ℕ → ℕ → Check (List ℕ)
bump arr i = read arr i >>= λ v. increment v >>= λ w. ok (set arr i w)

-- arr[i] = v
unfoldable pub write : List ℕ → ℕ → ℕ → Check (List ℕ)
write arr i v = read arr i >>= λ _. ok (set arr i v)

-- Marks an entry that is still 0.
unfoldable pub claim : List ℕ → ℕ → Message → Check (List ℕ)
claim arr i m = read arr i >>= λ v. if v == 0 then ok (set arr i 1) else err m
