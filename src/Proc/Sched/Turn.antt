-- ===== src/Proc/Sched/Turn.antt =====
-- A whole turn of the scheduler and the quotas.
use computer_organization_an.Common.{
  ℕ, zero, suc, ◌≡◌, ◌≢◌, ◌⊎◌, refl, inl, inr, Bool, true, false, some, List, [], ◌∷◌, arith, ◌==◌,
  if◌then◌else◌, Bool-cases, get_elem?, set, All, All-get,
}
use computer_organization_an.Common.Outcome.{ok, fault}
use computer_organization_an.Proc.{
  Proc, unused, runnable, running, is, time_slice, slices, at_level,
}
use computer_organization_an.Proc.Sched.{charge, escalate, relegate, settle, entry, dispatch}
use computer_organization_an.Proc.Sched.Quota.{
  QuotaOk, MidTurn, level_quotas, runnable_in_use, escalate-quota, HasQuota, Spent,
}

charge-Spent : (p : Proc) → is p.state unused ≡ false → HasQuota p → Spent (charge p)
unfolding charge
charge-Spent p u has = record {
  in_use = u;
  level = has.level;
  tick_most = omega (arith, has);
  slice_most = omega (arith, has);
}

MidTurn-set :
    (i : ℕ) (ps : List Proc) {p : Proc} (p' : Proc)
    → get_elem? ps i ≡ some p
    → All QuotaOk ps
    → Spent p'
    → MidTurn i (set ps i p')
MidTurn-set i [] p' e a s = absurd (cc)
MidTurn-set zero (p ∷ ps) p' e a s = (s, a.1)
MidTurn-set (suc i) (p ∷ ps) p' e a s = (a.0, MidTurn-set i ps p' e a.1 s)

pub MidTurn-running :
    (i : ℕ) (ps : List Proc) (p' : Proc) → MidTurn i ps → Spent p' → MidTurn i (set ps i p')
MidTurn-running i [] p' m s = m
MidTurn-running zero (p ∷ ps) p' m s = (s, m.1)
MidTurn-running (suc i) (p ∷ ps) p' m s = (m.0, MidTurn-running i ps p' m.1 s)

MidTurn-entry : (i : ℕ) (ps : List Proc) → MidTurn i ps → (q : Proc) × (entry ps i ≡ ok q) × Spent q
unfolding entry
MidTurn-entry i [] m = elim m [ ]
MidTurn-entry zero (p ∷ ps) m = (p, refl, m.0)
MidTurn-entry (suc i) (p ∷ ps) m = MidTurn-entry i ps m.1

MidTurn-end :
    (i : ℕ) (ps : List Proc) (p' : Proc) → MidTurn i ps → QuotaOk p' → All QuotaOk (set ps i p')
MidTurn-end i [] p' m q = elim m [ ]
MidTurn-end zero (p ∷ ps) p' m q = (q, m.1)
MidTurn-end (suc i) (p ∷ ps) p' m q = (m.0, MidTurn-end i ps p' m.1 q)

relegated :
    (q : Proc) (l t sl : ℕ) {m : ℕ}
    → m ≡ suc l
    → at_level time_slice l ≡ ok t
    → at_level slices l ≡ ok sl
    → relegate q m ≡ ok (record q { priority = l; tick_remain = t; slice_remain = sl })
unfolding relegate
relegated q l t sl e et es = rw (e, et, es)

relegate-zero : (q : Proc) (l : ℕ) → l ≡ 0 → relegate q l ≡ fault
unfolding relegate
relegate-zero q zero e = refl
relegate-zero q (suc l) e = absurd (omega arith)

-- A process comes back in one of four ways. Its quantum lasts: it keeps its turn, unchanged. Its
-- quantum is used up: it gets a quantum of its level, and the turn passes on. Its allotment is used
-- up: it falls by one level, with the quantum and the allotment of that level, and the turn passes on.
-- Its allotment at level 0 is used up: the tables of quotas are read out of bounds.
abbrev pub Settled : Proc → Type 0
Settled q =
    ((q.slice_remain ≢ 0) × (q.tick_remain ≢ 0) × (settle q ≡ ok (true, q)))
    ⊎ ((tick : ℕ) × (q.slice_remain ≢ 0)
        × (q.tick_remain ≡ 0)
        × (at_level time_slice q.priority ≡ ok tick)
        × (settle q ≡ ok (false, record q { tick_remain = tick })))
    ⊎ ((lower tick slice : ℕ) × (q.slice_remain ≡ 0)
        × (q.priority ≡ suc lower)
        × (at_level time_slice lower ≡ ok tick)
        × (at_level slices lower ≡ ok slice)
        × (settle q
            ≡ ok (false, record q { priority = lower; tick_remain = tick; slice_remain = slice })))
    ⊎ ((q.slice_remain ≡ 0) × (q.priority ≡ 0) × (settle q ≡ fault))

settle_relegate :
    (q : Proc) → Spent q → (q.slice_remain == 0) ≡ true → (l : ℕ) → q.priority ≡ l → Settled q
unfolding settle
settle_relegate q s e zero l =
    inr (inr (inr (ground arith, l, rw (e, relegate-zero q q.priority l))))
settle_relegate q s e (suc l) e' =
    let level = s.level in
    let (tick, slice, et, es, t1, t2, s1, s2) = level_quotas l (omega (arith, level, e')) in
    inr (
      inr (
        inl (
          l,
          tick,
          slice,
          ground (arith, e),
          e',
          et,
          es,
          rw (e, relegated q l tick slice e' et es) refl,
        )))

-- A process that comes back keeps its turn unchanged while its quantum and its allotment last; with
-- its quantum used up it gets a quantum of its level; with its allotment used up it falls by one level
-- and gets the quantum and the allotment of that level; and from level 0 it cannot fall: the tables of
-- quotas are read out of bounds.
pub settle_cases : (q : Proc) → Spent q → Settled q
unfolding settle
settle_cases q s = elim (Bool-cases (q.slice_remain == 0)) [
  | inl e ↦ settle_relegate q s e q.priority refl
  | inr e ↦ elim (Bool-cases (q.tick_remain == 0)) [
    | inr e' ↦ inl (ground arith, ground arith, rw (e, e'))
    | inl e' ↦
        let (tick, slice, et, es, t1, t2, s1, s2) = level_quotas q.priority s.level in
        inr (inl (tick, ground (arith, e), ground (arith, e'), et, rw (e, e', et) refl))
  ]
]

-- A level has one quantum and one allotment.
same_level :
    (quotas : List ℕ) (l a b : ℕ) → at_level quotas l ≡ ok a → at_level quotas l ≡ ok b → a ≡ b
same_level quotas l a b e f = cc (e, f)

settle-quota :
    (q : Proc)
    → Spent q
    → (q.slice_remain ≢ 0) ⊎ (q.priority ≢ 0)
    → (stay : Bool) × (q' : Proc) × (settle q ≡ ok (stay, q')) × QuotaOk q'
settle-quota q s h = elim (settle_cases q s) [
  | inl (a, b, e) ↦ (true, q, e, λ u. omega (arith, a, b, s))
  | inr (inl (tick, n, z, et, e)) ↦
      let (t, sl, et', es, t1, t2, s1, s2) = level_quotas q.priority s.level in
      let same = same_level time_slice q.priority tick t et et' in
      (false, record q { tick_remain = tick }, e, λ _. omega (arith, n, same, t1, t2, s))
  | inr (inr (inl (lower, tick, slice, z, p, et, es, e))) ↦
      let level = s.level in
      let (t, sl, et', es', t1, t2, s1, s2) = level_quotas lower (omega (arith, level, p)) in
      let same = same_level time_slice lower tick t et et' in
      let same' = same_level slices lower slice sl es es' in
      (
        false,
        record q { priority = lower; tick_remain = tick; slice_remain = slice },
        e,
        λ _. omega (arith, same, same', t1, t2, s1, s2, level, p),
      )
  | inr (inr (inr (a, b, e))) ↦ absurd (elim h [ inl n ↦ n a | inr n ↦ n b ])
]

-- The table when the process `p` of slot `i` gets the processor, from the table `aged` behind the
-- aging of the slots in front.
abbrev pub started : ℕ → Proc → List Proc → List Proc
started i p aged = set aged i (record (charge p) { state = running })

-- What is asked of this turn, of the running process and the kernel calls it makes: they leave quotas
-- to the other processes and the slot in use, and the process does not come back with the allotment
-- of level 0 used up.
pub record KeepsQuotas (run : List Proc → List Proc) (i : ℕ) (p : Proc) (ps : List Proc)
    : Type 0 where
  pub mid :
      (aged : List Proc)
      → escalate p.priority i (set ps i (charge p)) ≡ ok aged
      → MidTurn i (started i p aged)
      → MidTurn i (run (started i p aged))
  pub bottom :
      (aged : List Proc) (q : Proc)
      → escalate p.priority i (set ps i (charge p)) ≡ ok aged
      → MidTurn i (started i p aged)
      → entry (run (started i p aged)) i ≡ ok q
      → (q.slice_remain ≢ 0) ⊎ (q.priority ≢ 0)

-- A turn of the scheduler keeps the quotas: if in this turn the chosen process keeps those of the
-- others and does not exhaust level 0, the turn ends, and every process in use is at a level from 0 to
-- 3 with something left of its quantum and of its allotment.
pub dispatch-quota :
    (run : List Proc → List Proc) (i : ℕ) (p : Proc) (ps : List Proc)
    → KeepsQuotas run i p ps
    → get_elem? ps i ≡ some p
    → is p.state runnable ≡ true
    → All QuotaOk ps
    → (j : ℕ) × (ps' : List Proc) × (dispatch run i p ps ≡ ok (j, ps')) × All QuotaOk ps'
unfolding dispatch
dispatch-quota run i p ps keep there r all =
    let used : is p.state unused ≡ false = runnable_in_use p.state r in
    let has : HasQuota p = All-get QuotaOk ps i there all used in
    let spent : Spent (charge p) = charge-Spent p used has in
    let (aged, e, mid) =
      escalate-quota p.priority i (set ps i (charge p)) has.level
        (MidTurn-set i ps (charge p) there all spent) in
    let on : List Proc = set aged i (record (charge p) { state = running }) in
    let mid' : MidTurn i on =
      MidTurn-running i aged (record (charge p) { state = running }) mid
        (record {
          in_use = refl;
          level = spent.level;
          tick_most = spent.tick_most;
          slice_most = spent.slice_most;
        }) in
    let (q, e', s) = MidTurn-entry i (run on) (keep.mid aged e mid') in
    let end = settle-quota q s (keep.bottom aged q e mid' e') in
    rw (e, e', end.2)
      (
        if end.0 then i else suc i,
        set (run on) i end.1,
        refl,
        MidTurn-end i (run on) end.1 (keep.mid aged e mid') end.3,
      )
