-- ===== src/Proc/Sched/Aging.antt =====
-- How waiting processes rise in the feedback queue, and which do not.
use computer_organization_an.Common.{
  ℕ, zero, suc, ◌+◌, ◌*◌, ◌≤◌, ◌<◌, ◌≡◌, ◌⊎◌, ◌↔◌, refl, sym, ap, ◌∙◌, inl, inr, true, List, [],
  ◌∷◌, arith, eq→==, ne→==, lt→ltb, get_elem?, All, length, add32,
}
use computer_organization_an.Common.Outcome.{Outcome, ok, ◌>>=◌, >>=-eq-ok}
use computer_organization_an.Proc.{Proc, runnable, is, time_slice, slices, at_level}
use computer_organization_an.Proc.Sched.{promote, age, escalate}
use computer_organization_an.Proc.Sched.Quota.{level_quotas}

-- A round of aging ends at the chosen slot: it leaves the processes in that slot and behind it as
-- they are, however long they have waited.
pub escalate-behind :
    (level n : ℕ) (ps ps' : List Proc) (j : ℕ)
    → escalate level n ps ≡ ok ps'
    → n ≤ j
    → get_elem? ps' j ≡ get_elem? ps j
unfolding escalate
escalate-behind level zero ps ps' j e h = let e' : ps' ≡ ps = cc in rw e'
escalate-behind level (suc n) [] ps' j e h = let e' : ps' ≡ [] = cc in rw e'
escalate-behind level (suc n) (p ∷ ps) ps' zero e h = absurd (omega arith)
escalate-behind level (suc n) (p ∷ ps) ps' (suc j) e h =
    let (p', e1, r1) = >>=-eq-ok (age level p) _ e in
    let (qs, e2, r2) = >>=-eq-ok (escalate level n ps) _ r1 in
    let e' : ps' ≡ p' ∷ qs = cc in rw e' (escalate-behind level n ps qs j e2 (omega arith))

slice_cases :
    (l : ℕ) {s : ℕ}
    → at_level slices l ≡ ok s
    → ((l ≡ 0) × (s ≡ 8000000)) ⊎ ((l ≡ 1) × (s ≡ 32)) ⊎ ((l ≡ 2) × (s ≡ 16)) ⊎ ((l ≡ 3) × (s ≡ 8))
unfolding at_level
slice_cases zero e = inl (refl, cc)
slice_cases (suc zero) e = inr (inl (refl, cc))
slice_cases (suc (suc zero)) e = inr (inr (inl (refl, cc)))
slice_cases (suc (suc (suc zero))) e = inr (inr (inr (refl, cc)))
slice_cases (suc (suc (suc (suc l)))) e = absurd (cc)

slices_injective : (a b : ℕ) {s : ℕ} → at_level slices a ≡ ok s → at_level slices b ≡ ok s → a ≡ b
slices_injective a b e e' = ground (arith, slice_cases a e, slice_cases b e')

-- What a promotion with an allotment `s` and a quantum `t` makes of a process.
abbrev raised : Proc → ℕ → ℕ → Proc
raised pp s t = record pp {
  priority = pp.priority + 1;
  wait_ticks = 0;
  slice_remain = s;
  tick_remain = t;
}

-- A promoted process gets the quotas of the chosen process's level, not those of its own new level:
-- its rest of the allotment is right only if the two levels agree.
pub promote-quota_of_level :
    (level : ℕ) (pp pp' : Proc)
    → pp.priority < 3
    → promote level pp ≡ ok pp'
    → (pp'.priority ≡ pp.priority + 1)
      × (at_level slices level ≡ ok pp'.slice_remain)
      × (at_level time_slice level ≡ ok pp'.tick_remain)
      × ((at_level slices pp'.priority ≡ ok pp'.slice_remain) ↔ (level ≡ pp'.priority))
unfolding promote
promote-quota_of_level level pp pp' l e =
    let (s, e1, r1) = >>=-eq-ok (at_level slices level) _ e in
    let (t, e2, r2) = >>=-eq-ok (at_level time_slice level) _ r1 in
    let e' : pp' ≡ raised pp s t = cc in
    rw e' (
      refl,
      e1,
      e2,
      (
        (λ r. slices_injective level (pp.priority + 1) e1 r),
        (λ r. ap (at_level slices) (sym r) ∙ e1),
      ),
    )

-- The rounds of aging that a waiting process sees, each with the level of the process chosen then.
pub ages : List ℕ → Proc → Outcome Proc
ages [] pp = ok pp
ages (level ∷ levels) pp = age level pp >>= ages levels

quantum-le : (l : ℕ) {t : ℕ} → l < 3 → at_level time_slice l ≡ ok t → t ≤ 64
quantum-le l h e =
    let (t', s', et, es, t1, t2, s1, s2) = level_quotas l (omega arith) in ground (arith, t2)

module _ (level : ℕ) (pp : Proc) {quantum : ℕ} (ready : is pp.state runnable ≡ true)
    (low : pp.priority < 3) (q : at_level time_slice pp.priority ≡ ok quantum) where
  age-waits :
      pp.wait_ticks + 1 < 10 * quantum
      → age level pp ≡ ok (record pp { wait_ticks = pp.wait_ticks + 1 })
  unfolding age
  age-waits h =
      let b = quantum-le pp.priority low q in
      let e : add32 pp.wait_ticks 1 ≡ pp.wait_ticks + 1 = omega arith in
      rw (ready, q, e, ne→== (pp.wait_ticks + 1) (10 * quantum) (omega arith))

  age-rises :
      level ≤ 3 → pp.wait_ticks + 1 ≡ 10 * quantum → (s t : ℕ) × (age level pp ≡ ok (raised pp s t))
  unfolding age promote
  age-rises lv h =
      let b = quantum-le pp.priority low q in
      let e : add32 pp.wait_ticks 1 ≡ pp.wait_ticks + 1 = omega arith in
      let (t, s, et, es, t1, t2, s1, s2) = level_quotas level lv in
      (s, t, rw (ready, q, e, eq→== (pp.wait_ticks + 1) (10 * quantum) h, lt→ltb _ _ low, es, et))

-- A runnable process below level 3 that is in front of the chosen slot in ten quanta's worth of
-- rounds, counted from when it last ran, has risen by one level at their end and starts to wait
-- afresh.
pub ages-rises :
    (levels : List ℕ) (pp : Proc) (quantum : ℕ)
    → All (λ level. level ≤ 3) levels
    → is pp.state runnable ≡ true
    → pp.priority < 3
    → at_level time_slice pp.priority ≡ ok quantum
    → pp.wait_ticks < 10 * quantum
    → pp.wait_ticks + length levels ≡ 10 * quantum
    → (pp' : Proc) × (ages levels pp ≡ ok pp')
      × (pp'.priority ≡ pp.priority + 1)
      × (pp'.wait_ticks ≡ 0)
      × (is pp'.state runnable ≡ true)
unfolding ages
ages-rises [] pp quantum lv r l q w n = absurd (omega arith)
ages-rises (level ∷ []) pp quantum lv r l q w n =
    let (s, t, e) = age-rises level pp r l q lv.0 (omega arith) in
    (raised pp s t, rw e, refl, refl, r)
ages-rises (level ∷ (level' ∷ levels)) pp quantum lv r l q w n =
    let pp' : Proc = record pp { wait_ticks = pp.wait_ticks + 1 } in
    let rec = ages-rises (level' ∷ levels) pp' quantum lv.1 r l q (omega arith) (omega arith) in
    (rec.0, rw (age-waits level pp r l q (omega arith)) rec.1, rec.2, rec.3, rec.4)
