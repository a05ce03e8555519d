-- ===== src/Kstring/Copy.antt =====
-- `safestrcpy` and `strncpy`.
use computer_organization_an.Common.{
  ℕ, zero, suc, ◌+◌, ◌≤◌, ◌<◌, ◌≡◌, ◌≢◌, ◌⊎◌, refl, ap, ◌∙◌, inl, inr, false, arith, ◌==◌,
  Bool-cases,
}
use computer_organization_an.Common.Int.{pos}
use computer_organization_an.Kstring.{Memory, store, safe_loop, safestrcpy}
use computer_organization_an.Kstring.Move.{within}

safe_loop-outside :
    (s t n : ℕ) (mem : Memory) (a : ℕ) → within s (suc n) a ≡ false → safe_loop s t n mem a ≡ mem a
unfolding safe_loop store
safe_loop-outside s t zero mem a h = ground arith
safe_loop-outside s t (suc n) mem a h =
    ground (arith, safe_loop-outside (suc s) (suc t) n (store mem s (mem t)) a)

-- Two objects of `n` bytes have no byte in common.
abbrev pub Apart : ℕ → ℕ → ℕ → Type 0
Apart s t n = (s + n ≤ t) ⊎ (t + n ≤ s)

-- The copy ends after `k` bytes, all of them copied and none of them zero, with a zero byte behind
-- them; it ends before the last byte of room only at the end of the source.
pub record Copied (s t n : ℕ) (mem mem' : Memory) (k : ℕ) : Type 0 where
  pub short : k ≤ n
  pub ends : mem' (s + k) ≡ 0
  pub same : (j : ℕ) → j < k → (mem' (s + j) ≡ mem (t + j)) × (mem (t + j) ≢ 0)
  pub whole : (k ≡ n) ⊎ (mem (t + k) ≡ 0)

add-next : (s j : ℕ) → s + suc j ≡ suc s + j
add-next s j = omega arith

add-none : (s : ℕ) → s + 0 ≡ s
add-none s = omega arith

Copied-empty :
    (s t n : ℕ) (mem mem' : Memory) → mem' s ≡ 0 → (0 ≡ n) ⊎ (mem t ≡ 0) → Copied s t n mem mem' 0
Copied-empty s t n mem mem' e w = record {
  short = omega arith;
  ends = rw (add-none s) e;
  same = λ j h. elim h [ ];
  whole = rw (add-none t) w;
}

-- One byte is copied in front of the others.
Copied-cons :
    (s t n k : ℕ) (mem mem' : Memory)
    → Apart s t (suc (suc n))
    → mem t ≢ 0
    → mem' s ≡ mem t
    → Copied (suc s) (suc t) n (store mem s (mem t)) mem' k
    → Copied s t (suc n) mem mem' (suc k)
unfolding store
Copied-cons s t n k mem mem' apart nz first c = record {
  short = omega (arith, c.short);
  ends = rw (add-next s k) c.ends;
  same = same;
  whole =
      rw (add-next t k)
        (elim c.whole [ inl e ↦ inl (ap suc e) | inr e ↦ inr (ground (arith, c.short)) ]);
}
  where
    same : (j : ℕ) → j < suc k → (mem' (s + j) ≡ mem (t + j)) × (mem (t + j) ≢ 0)
    same zero h = rw (add-none s, add-none t) (first, nz)
    same (suc j) h = rw (add-next s j, add-next t j) (ground (arith, c.same j, c.short))

safe_loop-Copied :
    (s t n : ℕ) (mem : Memory)
    → Apart s t (suc n)
    → (k : ℕ) × Copied s t n mem (safe_loop s t n mem) k
unfolding safe_loop store
safe_loop-Copied s t zero mem apart = (0, Copied-empty s t 0 mem _ (ground arith) (inl refl))
safe_loop-Copied s t (suc n) mem apart = elim (Bool-cases (mem t == 0)) [
  | inl e ↦ rw e (0, Copied-empty s t (suc n) mem _ (ground arith) (inr (ground arith)))
  | inr e ↦
      let mem1 : Memory = store mem s (mem t) in
      let (k, c) = safe_loop-Copied (suc s) (suc t) n mem1 (ground arith) in
      let first : safe_loop (suc s) (suc t) n mem1 s ≡ mem t =
        safe_loop-outside (suc s) (suc t) n mem1 s (ground arith) ∙ ground arith in
      rw e (suc k, Copied-cons s t n k mem _ apart (ground arith) first c)
]

-- `safestrcpy` with room for `n + 1` bytes and a source that does not meet the destination copies
-- the source up to its end or to the room's last byte, puts a zero byte behind what it has copied,
-- and writes nothing outside the room.
pub safestrcpy-Copied :
    (s t n : ℕ) (mem : Memory)
    → Apart s t (suc n)
    → ((k : ℕ) × Copied s t n mem (safestrcpy s t (pos (suc n)) mem) k)
      × ((a : ℕ) → within s (suc n) a ≡ false → safestrcpy s t (pos (suc n)) mem a ≡ mem a)
unfolding safestrcpy
safestrcpy-Copied s t n mem apart =
    (safe_loop-Copied s t n mem apart, λ a out. safe_loop-outside s t n mem a out)
