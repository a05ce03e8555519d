-- ===== src/Spinlock/Nesting.antt =====
-- Matched calls of `pushcli` and `popcli` leave the interrupt flag as it was.
use mathlib.Core.Path.{subst}
use computer_organization_an.Common.{
  ℕ, ◌≡◌, ◌⊎◌, refl, sym, ◌∙◌, inl, inr, Bool, true, false, ◌==◌, if◌then◌else◌, Bool-cases, arith,
  some, none, eq→==,
}
use computer_organization_an.Common.Outcome.{ok}
use computer_organization_an.Spinlock.{
  Cpu, Spinlock, pushcli, popcli, lowered, enable, acquire, release, holding, taken,
}

-- Interrupts are off while a `pushcli` is open.
abbrev pub IsValid : Cpu → Type 0
IsValid c = (c.ncli ≡ 0) ⊎ (c.interrupts ≡ false)

-- What a matched sequence of calls keeps.
pub record Restored (c c' : Cpu) : Type 0 where
  pub interrupts : c'.interrupts ≡ c.interrupts
  pub ncli : c'.ncli ≡ c.ncli
  pub intena : (c.ncli ≡ 0) ⊎ (c'.intena ≡ c.intena)

-- Sequences of calls in which every `pushcli` has its `popcli`.
pub data Matched : Cpu → Cpu → Type 0 where
  nothing : {c : Cpu} → Matched c c
  pair : {c d e f : Cpu} → Matched (pushcli c) d → popcli d ≡ ok e → Matched e f → Matched c f

intena-kept :
    (c d : Cpu)
    → Restored (pushcli c) d
    → d.intena ≡ (if c.ncli == 0 then c.interrupts else c.intena)
unfolding pushcli
intena-kept c d r = elim r.intena [ inl e ↦ absurd (omega (arith, e)) | inr e ↦ e ]

popcli-enable : (c d : Cpu) → Restored (pushcli c) d → popcli d ≡ ok (enable d c.ncli)
unfolding popcli pushcli lowered
popcli-enable c d r = rw (r.interrupts, r.ncli)

off-interrupts : (c : Cpu) → IsValid c → (c.ncli == 0) ≡ false → c.interrupts ≡ false
off-interrupts c (inl z) e = absurd (ground (arith, z, e))
off-interrupts c (inr off) e = off

enable-Restored : (c d : Cpu) → IsValid c → Restored (pushcli c) d → Restored c (enable d c.ncli)
unfolding enable pushcli
enable-Restored c d v r = elim (Bool-cases (c.ncli == 0)) [
  | inl e ↦
      let kept : d.intena ≡ c.interrupts = intena-kept c d r ∙ rw e in
      record {
        interrupts = rw (e, kept) (on c.interrupts);
        ncli = refl;
        intena = inl (ground (arith, e));
      }
  | inr e ↦ record {
    interrupts = rw e (r.interrupts ∙ sym (off-interrupts c v e));
    ncli = refl;
    intena = inr (intena-kept c d r ∙ rw e);
  }
]
  where
    on : (b : Bool) → (if b then true else d.interrupts) ≡ b
    on true = refl
    on false = r.interrupts

Restored-trans : (c d e : Cpu) → Restored c d → Restored d e → Restored c e
Restored-trans c d e r s = record {
  interrupts = s.interrupts ∙ r.interrupts;
  ncli = s.ncli ∙ r.ncli;
  intena = elim r.intena [
    | inl z ↦ inl z
    | inr k ↦ elim s.intena [ inl z ↦ inl (sym r.ncli ∙ z) | inr l ↦ inr (l ∙ k) ]
  ];
}

Restored-IsValid : (c d : Cpu) → IsValid c → Restored c d → IsValid d
Restored-IsValid c d (inl z) r = inl (r.ncli ∙ z)
Restored-IsValid c d (inr off) r = inr (r.interrupts ∙ off)

pushcli-off : (c : Cpu) → (pushcli c).interrupts ≡ false
unfolding pushcli
pushcli-off c = refl

Matched-Restored : (c d : Cpu) → IsValid c → Matched c d → Restored c d
Matched-Restored c d v nothing = record { interrupts = refl; ncli = refl; intena = inr refl }
Matched-Restored c d v (pair {d = x} {e = e} inside pop after) =
    let r = Matched-Restored (pushcli c) x (inr (pushcli-off c)) inside in
    let end : enable x c.ncli ≡ e = cc (popcli-enable c x r, pop) in
    let s : Restored c e = subst (λ t. Restored c t) end (enable-Restored c x v r) in
    Restored-trans c e d s (Matched-Restored e d (Restored-IsValid c e v s) after)

-- Behind a `pushcli` and any matched sequence of calls, `popcli` does not panic, and the interrupt
-- flag and the depth are what they were before the `pushcli`.
pub popcli-Matched :
    (c d : Cpu)
    → IsValid c
    → Matched (pushcli c) d
    → (e : Cpu) × (popcli d ≡ ok e) × (e.interrupts ≡ c.interrupts) × (e.ncli ≡ c.ncli)
popcli-Matched c d v inside =
    let r : Restored (pushcli c) d = Matched-Restored (pushcli c) d (inr (pushcli-off c)) inside in
    let s = enable-Restored c d v r in (enable d c.ncli, popcli-enable c d r, s.interrupts, s.ncli)

-- A free lock is taken by `acquire`; the holder's `release`, behind any matched sequence of calls,
-- does not panic, frees the lock, and restores the interrupt flag and the depth.
pub release-acquire :
    (me : ℕ) (c d : Cpu) (lk : Spinlock)
    → IsValid c
    → lk.locked ≡ false
    → Matched (pushcli c) d
    → (lk' : Spinlock) × (acquire me c lk ≡ ok (taken (pushcli c) lk'))
      × ((e : Cpu) × (lk'' : Spinlock) × (release me d lk' ≡ ok (e, lk''))
          × (lk''.locked ≡ false)
          × (e.interrupts ≡ c.interrupts)
          × (e.ncli ≡ c.ncli))
unfolding acquire release holding
release-acquire me c d lk v free inside =
    let (e, pop, flag, depth) = popcli-Matched c d v inside in
    let own : (me == me) ≡ true = eq→== me me refl in
    (
      record { locked = true; cpu = some me },
      rw free refl,
      (e, record { locked = false; cpu = none }, rw (own, pop) refl, refl, flag, depth),
    )
