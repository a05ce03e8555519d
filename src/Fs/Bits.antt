-- ===== src/Fs/Bits.antt =====
-- A bit of a byte, set and cleared; the tables are checked by evaluation.
use Prim.Native.Nat.{bit_and, bit_or}
use computer_organization_an.Common.{
  ℕ, zero, suc, ◌-◌, ◌^◌, ◌<◌, ◌≡◌, refl, Bool, true, false, ◌&&◌, arith, ltb, ltb→lt, ◌==◌,
  if◌then◌else◌,
}

all_below : ℕ → (ℕ → Bool) → Bool
all_below zero p = true
all_below (suc n) p = p n && all_below n p

all_below-true : (n : ℕ) (p : ℕ → Bool) (x : ℕ) → all_below n p ≡ true → x < n → p x ≡ true
unfolding all_below
all_below-true zero p x h l = absurd (omega (arith, l))
all_below-true (suc n) p x h l = ground (arith, all_below-true n p x, l, h)

abbrev same : Bool → Bool → Bool
same true b = b
same false true = false
same false false = true

same-eq : (a b : Bool) → same a b ≡ true → a ≡ b
same-eq true true h = refl
same-eq true false h = absurd (cc h)
same-eq false true h = absurd (cc h)
same-eq false false h = refl

-- The tests of a byte `y` in place of `x`: bit `k` is `v`, the other bits are those of `x`.
abbrev agrees : (ℕ → ℕ → ℕ) → Bool → ℕ → ℕ → ℕ → Bool
agrees f v k j x =
    same (bit_and (f x k) (2 ^ j) == 0) (if j == k then v else bit_and x (2 ^ j) == 0)
    && ltb (f x k) 256

abbrev pub with_bit : ℕ → ℕ → ℕ
with_bit x k = bit_or x (2 ^ k)

abbrev pub without_bit : ℕ → ℕ → ℕ
without_bit x k = bit_and x (255 - 2 ^ k)

abbrev table : (ℕ → ℕ → ℕ) → Bool → Bool
table f v = all_below 8 (λ k. all_below 8 (λ j. all_below 256 (agrees f v k j)))

with_bit_table : table with_bit false ≡ true
unfolding all_below
with_bit_table = refl

without_bit_table : table without_bit true ≡ true
unfolding all_below
without_bit_table = refl

both : (a b : Bool) → a && b ≡ true → (a ≡ true) × (b ≡ true)
both true true h = (refl, refl)
both true false h = absurd (cc h)
both false b h = absurd (cc h)

table_entry :
    (f : ℕ → ℕ → ℕ) (v : Bool) (x j k : ℕ)
    → table f v ≡ true
    → x < 256
    → j < 8
    → k < 8
    → ((bit_and (f x k) (2 ^ j) == 0) ≡ (if j == k then v else bit_and x (2 ^ j) == 0))
      × (f x k < 256)
table_entry f v x j k t x_l j_l k_l =
    let at_k = all_below-true 8 (λ k. all_below 8 (λ j. all_below 256 (agrees f v k j))) k t k_l in
    let at_j = all_below-true 8 (λ j. all_below 256 (agrees f v k j)) j at_k j_l in
    let at_x = all_below-true 256 (agrees f v k j) x at_j x_l in
    let (eq, below) =
      both (same (bit_and (f x k) (2 ^ j) == 0) (if j == k then v else bit_and x (2 ^ j) == 0))
        (ltb (f x k) 256) at_x in
    (
      same-eq (bit_and (f x k) (2 ^ j) == 0) (if j == k then v else bit_and x (2 ^ j) == 0) eq,
      ltb→lt (f x k) 256 below,
    )

pub with_bit_entry :
    (x j k : ℕ)
    → x < 256
    → j < 8
    → k < 8
    → ((bit_and (with_bit x k) (2 ^ j) == 0) ≡ (if j == k then false else bit_and x (2 ^ j) == 0))
      × (with_bit x k < 256)
with_bit_entry x j k = table_entry with_bit false x j k with_bit_table

pub without_bit_entry :
    (x j k : ℕ)
    → x < 256
    → j < 8
    → k < 8
    → ((bit_and (without_bit x k) (2 ^ j) == 0) ≡ (if j == k then true else bit_and x (2 ^ j) == 0))
      × (without_bit x k < 256)
without_bit_entry x j k = table_entry without_bit true x j k without_bit_table
