-- ===== src/Kstring/Compare.antt =====
-- `memcmp`, `strncmp` and `strlen`.
use computer_organization_an.Common.{
  ℕ, zero, suc, ◌<◌, ◌≡◌, ◌≢◌, ◌↔◌, refl, inl, inr, not, ◌&&◌, some, arith, ◌==◌, Bool-cases, ne→==,
  eq→==,
}
use computer_organization_an.Common.Int.{pos}
use computer_organization_an.Kstring.{Memory, diff, memcmp, strncmp, strlen}

diff-zero : (a b : ℕ) → diff a b ≡ pos 0 → a ≡ b
unfolding diff
diff-zero a b h = ground arith

diff_self : (a b : ℕ) → a ≡ b → diff a b ≡ pos 0
unfolding diff
diff_self a b h = ground arith

-- The `n` bytes at `p` and those at `q` are the same.
abbrev pub SameBytes : ℕ → ℕ → ℕ → Memory → Type 0
SameBytes p q zero mem = Unit
SameBytes p q (suc n) mem = (mem p ≡ mem q) × SameBytes (suc p) (suc q) n mem

-- `memcmp` returns 0 exactly for two objects with the same bytes.
pub memcmp-SameBytes : (p q n : ℕ) (mem : Memory) → (memcmp p q n mem ≡ pos 0) ↔ SameBytes p q n mem
unfolding memcmp
memcmp-SameBytes p q zero mem = (λ e. tt, λ e. refl)
memcmp-SameBytes p q (suc n) mem =
    let rec = memcmp-SameBytes (suc p) (suc q) n mem in
    elim (Bool-cases (mem p == mem q)) [
      | inl e ↦ rw e (λ z. (ground arith, rec.0 z), λ s. rec.1 s.1)
      | inr e ↦ rw e (
        λ z. absurd (ground (arith, diff-zero (mem p) (mem q) z)),
        λ s. absurd (ground (arith, s.0)),
      )
    ]

-- The strings at `p` and `q` agree in their first `n` bytes, or up to the end of both.
abbrev pub SamePrefix : ℕ → ℕ → ℕ → Memory → Type 0
SamePrefix p q zero mem = Unit
SamePrefix p q (suc n) mem = (mem p ≡ mem q) × (mem p ≢ 0 → SamePrefix (suc p) (suc q) n mem)

-- `strncmp` returns 0 exactly for two strings that agree in their first `n` bytes or up to their
-- common end.
pub strncmp-SamePrefix :
    (p q n : ℕ) (mem : Memory) → (strncmp p q n mem ≡ pos 0) ↔ SamePrefix p q n mem
unfolding strncmp
strncmp-SamePrefix p q zero mem = (λ e. tt, λ e. refl)
strncmp-SamePrefix p q (suc n) mem =
    let rec = strncmp-SamePrefix (suc p) (suc q) n mem in
    elim (Bool-cases (not (mem p == 0) && mem p == mem q)) [
      | inl e ↦ rw e (λ z. (ground arith, λ nz. rec.0 z), λ s. rec.1 (s.1 (ground arith)))
      | inr e ↦ rw e (
        λ z. let same = diff-zero (mem p) (mem q) z in (same, λ nz. absurd (ground arith)),
        λ s. diff_self (mem p) (mem q) s.0,
      )
    ]

-- The first zero byte from `s` on stands at distance `n`.
abbrev pub EndsAt : ℕ → ℕ → Memory → Type 0
EndsAt s zero mem = mem s ≡ 0
EndsAt s (suc n) mem = (mem s ≢ 0) × EndsAt (suc s) n mem

-- `strlen` returns the distance of the first zero byte, given fuel for that many bytes and one more.
pub strlen-EndsAt :
    (fuel s n : ℕ) (mem : Memory) → EndsAt s n mem → n < fuel → strlen fuel s mem ≡ some n
unfolding strlen
strlen-EndsAt zero s n mem e h = elim h [ ]
strlen-EndsAt (suc fuel) s zero mem e h = rw (eq→== (mem s) 0 e)
strlen-EndsAt (suc fuel) s (suc n) mem e h =
    rw (ne→== (mem s) 0 e.0, strlen-EndsAt fuel (suc s) n mem e.1 (omega arith))
