-- ===== src/Proc/Sched/Quota.antt =====
-- The quotas of the feedback queue: every process in use has a level, a rest of its quantum and a
-- rest of its allotment at that level, and the scheduler keeps them so.
use computer_organization_an.Common.{
  ℕ, zero, suc, ◌+◌, ◌*◌, ◌≤◌, ◌<◌, ◌≡◌, refl, inl, inr, true, false, ◌&&◌, List, [], ◌∷◌, arith,
  ltb, ◌==◌, Bool-cases, All, add32,
}
use computer_organization_an.Common.Outcome.{ok}
use computer_organization_an.Proc.{
  Proc, ProcState, embryo, sleeping, zombie, unused, runnable, running, is, time_slice, slices,
  at_level,
}
use computer_organization_an.Proc.Sched.{promote, age, escalate}

pub record HasQuota (p : Proc) : Type 0 where
  pub level : p.priority ≤ 3
  pub tick : 1 ≤ p.tick_remain
  pub tick_most : p.tick_remain ≤ 64
  pub slice : 1 ≤ p.slice_remain
  pub slice_most : p.slice_remain ≤ 8000000

-- What is asked of every slot of the table.
abbrev pub QuotaOk : Proc → Type 0
QuotaOk p = is p.state unused ≡ false → HasQuota p

-- The process that has the processor may have used up its quotas.
pub record Spent (p : Proc) : Type 0 where
  pub in_use : is p.state unused ≡ false
  pub level : p.priority ≤ 3
  pub tick_most : p.tick_remain ≤ 64
  pub slice_most : p.slice_remain ≤ 8000000

-- A table while the process in slot `i` has the processor.
abbrev pub MidTurn : ℕ → List Proc → Type 0
MidTurn i [] = ⊥
MidTurn zero (p ∷ ps) = Spent p × All QuotaOk ps
MidTurn (suc i) (p ∷ ps) = QuotaOk p × MidTurn i ps

-- Both tables of quotas have an entry for each level.
pub level_quotas :
    (l : ℕ)
    → l ≤ 3
    → (t s : ℕ) × (at_level time_slice l ≡ ok t)
      × (at_level slices l ≡ ok s)
      × (1 ≤ t)
      × (t ≤ 64)
      × (1 ≤ s)
      × (s ≤ 8000000)
unfolding at_level
level_quotas zero h = (64, 8000000, refl, refl, omega arith, omega arith, omega arith, omega arith)
level_quotas (suc zero) h = (4, 32, refl, refl, omega arith, omega arith, omega arith, omega arith)
level_quotas (suc (suc zero)) h =
    (2, 16, refl, refl, omega arith, omega arith, omega arith, omega arith)
level_quotas (suc (suc (suc zero))) h =
    (1, 8, refl, refl, omega arith, omega arith, omega arith, omega arith)
level_quotas (suc (suc (suc (suc l)))) h = absurd (omega arith)

pub runnable_in_use : (s : ProcState) → is s runnable ≡ true → is s unused ≡ false
runnable_in_use unused h = absurd (cc)
runnable_in_use runnable h = refl
runnable_in_use embryo h = refl
runnable_in_use sleeping h = refl
runnable_in_use running h = refl
runnable_in_use zombie h = refl

promote-quota :
    (level : ℕ) (pp : Proc)
    → level ≤ 3
    → pp.priority < 3
    → (pp' : Proc) × (promote level pp ≡ ok pp') × HasQuota pp'
unfolding promote
promote-quota level pp h l =
    let (t, s, et, es, t1, t2, s1, s2) = level_quotas level h in
    (
      record pp { priority = pp.priority + 1; wait_ticks = 0; slice_remain = s; tick_remain = t },
      rw (es, et),
      omega arith,
    )

age-quota :
    (level : ℕ) (pp : Proc)
    → level ≤ 3
    → QuotaOk pp
    → (pp' : Proc) × (age level pp ≡ ok pp') × QuotaOk pp'
unfolding age
age-quota level pp h q = elim (Bool-cases (is pp.state runnable)) [
  | inr e ↦ (pp, rw e, q)
  | inl e ↦
      let has : HasQuota pp = q (runnable_in_use pp.state e) in
      let (t, s, et, es, t1, t2, s1, s2) = level_quotas pp.priority has.level in
      elim (Bool-cases (add32 pp.wait_ticks 1 == 10 * t && ltb pp.priority 3)) [
        | inl up ↦
            let (pp', ok', has') = promote-quota level pp h (ground arith) in
            (pp', rw (e, et, up) ok', λ _. has')
        | inr stay ↦ (
          record pp { wait_ticks = add32 pp.wait_ticks 1 },
          rw (e, et, stay),
          λ _. omega (arith, has),
        )
      ]
]

pub escalate-quota :
    (level i : ℕ) (ps : List Proc)
    → level ≤ 3
    → MidTurn i ps
    → (ps' : List Proc) × (escalate level i ps ≡ ok ps') × MidTurn i ps'
unfolding escalate
escalate-quota level i [] h m = elim m [ ]
escalate-quota level zero (p ∷ ps) h m = (p ∷ ps, refl, m)
escalate-quota level (suc i) (p ∷ ps) h m =
    let (p', e, q) = age-quota level p h m.0 in
    let (ps', e', m') = escalate-quota level i ps h m.1 in (p' ∷ ps', rw (e, e'), (q, m'))
