-- ===== src/Rand.antt =====
-- The pseudo-random numbers of the kernel, xv6 Memory sub-system/part_a/kernel/rand.c.
use Prim.Native.Nat.{bit_xor}
use computer_organization_an.Common.{ℕ, ◌+◌, ◌*◌, ◌/◌, ◌%◌, ◌^◌, ◌≤◌, arith, word}

-- XV6_RAND_MAX
abbrev pub rand_max : ℕ
rand_max = 2147483647

-- Shifts and exclusive or on `unsigned int`.
unfoldable pub xorshift : ℕ → ℕ
xorshift a =
    let x = bit_xor a (a * 2 ^ 13 % word) in
    let y = bit_xor x (x / 2 ^ 17) in bit_xor y (y * 2 ^ 5 % word)

-- The new `state.a`, which is also the result.
unfoldable pub xv6_rand : ℕ → ℕ
unfolding xorshift
xv6_rand a = xorshift a % (rand_max + 1)

-- Every number drawn lies in the documented range, so that it is a non-negative `int`.
pub xv6_rand-le : (a : ℕ) → xv6_rand a ≤ rand_max
unfolding xv6_rand
xv6_rand-le a = omega arith
