-- ===== src/Proc/Sched/Tests.antt =====
-- The scheduler's theorems at a small table.
use computer_organization_an.Common.{
  ℕ, ◌≡◌, ◌≢◌, ◌⊎◌, refl, inr, true, false, none, List, [], ◌∷◌, arith, All, replicate,
}
use computer_organization_an.Common.Outcome.{ok}
use computer_organization_an.Proc.{unused, runnable, nowhere, Proc, is, at_level}
use computer_organization_an.Proc.Sched.{charge, age, promote, entry, dispatch, visit}
use computer_organization_an.Proc.Sched.Choice.{IsTop, visit_chooses}
use computer_organization_an.Proc.Sched.Quota.{Spent, QuotaOk, MidTurn}
use computer_organization_an.Proc.Sched.Turn.{
  Settled, started, KeepsQuotas, settle_cases, dispatch-quota,
}
use computer_organization_an.Proc.Sched.Aging.{ages, ages-rises}

abbrev blank : Proc
blank = record {
  sz = 0;
  pgdir = 0;
  kstack = 0;
  state = unused;
  pid = 0;
  parent = none;
  eax = 0;
  chan = nowhere;
  killed = false;
  ofile = replicate 16 0;
  cwd = 0;
  name = [];
  wait_ticks = 0;
  ticks = 0 ∷ 0 ∷ 0 ∷ 0 ∷ [];
  priority = 0;
  tick_remain = 0;
  slice_remain = 0;
}

-- A process at level 2 that has waited 19 ticks, in front of one at level 3.
abbrev patient : Proc
patient = record blank {
  state = runnable;
  pid = 1;
  priority = 2;
  tick_remain = 2;
  slice_remain = 16;
  wait_ticks = 19;
}

abbrev urgent : Proc
urgent = record blank { state = runnable; pid = 2; priority = 3; tick_remain = 1; slice_remain = 8 }

abbrev table : List Proc
table = patient ∷ urgent ∷ blank ∷ []

-- Its process gives the processor back at once.
abbrev yields : List Proc → List Proc
yields ps = ps

promotion_run :
    age 3 patient
    ≡ ok (record patient { priority = 3; wait_ticks = 0; slice_remain = 8; tick_remain = 1 })
unfolding age promote at_level
promotion_run = refl

visit_chooses_example :
    (IsTop urgent table × (visit yields 1 table ≡ dispatch yields 1 urgent table))
    ⊎ ((¬ (IsTop urgent table)) × (visit yields 1 table ≡ ok (2, table)))
visit_chooses_example = visit_chooses yields 1 table refl

urgent-Spent : Spent (charge urgent)
unfolding charge
urgent-Spent = record {
  in_use = refl;
  level = omega arith;
  tick_most = omega arith;
  slice_most = omega arith;
}

settle_cases_example : Settled (charge urgent)
settle_cases_example = settle_cases (charge urgent) urgent-Spent

-- The process at level 3 gives the processor back with most of its allotment left.
yields-bottom :
    (aged : List Proc) (q : Proc)
    → MidTurn 1 (started 1 urgent aged)
    → entry (started 1 urgent aged) 1 ≡ ok q
    → (q.slice_remain ≢ 0) ⊎ (q.priority ≢ 0)
unfolding entry charge
yields-bottom [] q m e = elim m [ ]
yields-bottom (a ∷ []) q m e = elim m.1 [ ]
yields-bottom (a ∷ (b ∷ qs)) q m e = let e' : q.priority ≡ 3 = ground arith in inr (omega arith)

yields-KeepsQuotas : KeepsQuotas yields 1 urgent table
yields-KeepsQuotas = record {
  mid = λ aged e m. m;
  bottom = λ aged q e m r. yields-bottom aged q m r;
}

table-QuotaOk : All QuotaOk table
table-QuotaOk = ground arith

dispatch-quota_example :
    (j : ℕ) × (ps' : List Proc) × (dispatch yields 1 urgent table ≡ ok (j, ps')) × All QuotaOk ps'
dispatch-quota_example =
    dispatch-quota yields 1 urgent table yields-KeepsQuotas refl refl table-QuotaOk

-- The table once the first slot has aged.
abbrev aged : List Proc
aged =
    record patient { priority = 3; wait_ticks = 0; slice_remain = 8; tick_remain = 1 }
    ∷ urgent
    ∷ blank
    ∷ []

ages-rises_example :
    (pp' : Proc) × (ages (3 ∷ []) patient ≡ ok pp')
    × (pp'.priority ≡ 3)
    × (pp'.wait_ticks ≡ 0)
    × (is pp'.state runnable ≡ true)
unfolding at_level
ages-rises_example =
    ages-rises (3 ∷ []) patient 2 (omega arith, tt) refl (omega arith) refl (omega arith)
      (omega arith)
