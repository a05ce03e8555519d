-- ===== src/Kstring/Move.antt =====
-- `memset` and `memmove`.
use computer_organization_an.Common.{
  ℕ, zero, suc, ◌+◌, ◌-◌, ◌≤◌, ◌<◌, ◌≡◌, ◌⊎◌, inl, inr, Bool, ◌&&◌, arith, ltb, leb, if◌then◌else◌,
  Bool-cases,
}
use computer_organization_an.Kstring.{Memory, store, move_down, move_up, memmove}

-- The address lies in the object of `n` bytes at `d`.
abbrev pub within : ℕ → ℕ → ℕ → Bool
within d n a = leb d a && ltb a (d + n)

move_down-copy :
    (d s n : ℕ) (mem : Memory) (a : ℕ)
    → s < d
    → move_down d s n mem a ≡ (if within d n a then mem (s + (a - d)) else mem a)
unfolding move_down store
move_down-copy d s zero mem a h = ground arith
move_down-copy d s (suc n) mem a h =
    ground (arith, move_down-copy d s n (store mem (d + n) (mem (s + n))) a h)

move_up-copy :
    (d s n : ℕ) (mem : Memory) (a : ℕ)
    → (d ≤ s) ⊎ (s + n ≤ d)
    → move_up d s n mem a ≡ (if within d n a then mem (s + (a - d)) else mem a)
unfolding move_up store
move_up-copy d s zero mem a h = ground arith
move_up-copy d s (suc n) mem a h =
    ground (arith, move_up-copy (suc d) (suc s) n (store mem d (mem s)) a)

-- `memmove` copies the bytes that the source held before the call, also where the two objects
-- overlap in either direction, and changes nothing outside the destination.
pub memmove-copy :
    (d s n : ℕ) (mem : Memory) (a : ℕ)
    → memmove d s n mem a ≡ (if within d n a then mem (s + (a - d)) else mem a)
unfolding memmove
memmove-copy d s n mem a = elim (Bool-cases (ltb s d && ltb d (s + n))) [
  | inl e ↦ rw e (move_down-copy d s n mem a (ground arith))
  | inr e ↦ rw e (move_up-copy d s n mem a (ground arith))
]
