-- ===== src/Proc/Sched.antt =====
-- `getheight`, `scheduler` and `boostproc` of proc.c.
pub mod Choice
pub mod Quota
pub mod Turn
pub mod Aging
mod Tests
use computer_organization_an.Common.{
  ℕ, zero, suc, ◌+◌, ◌*◌, ◌≡◌, Bool, true, false, not, ◌&&◌, Option, none, some, List, [], ◌∷◌, ltb,
  ◌==◌, if◌then◌else◌, add32, sub32, get_elem?, get_or, set,
}
use computer_organization_an.Common.Outcome.{Outcome, ok, panic, fault, ◌>>=◌}
use computer_organization_an.Proc.{Proc, runnable, running, is, time_slice, slices, at_level}

-- The loop of `getheight`, with `max` so far.
pub height_from : ℕ → List Proc → ℕ
height_from max [] = max
height_from max (p ∷ ps) =
    height_from (if is p.state runnable && ltb max p.priority then p.priority else max) ps

pub getheight : List Proc → ℕ
unfolding height_from
getheight ps = height_from 0 ps

-- What the chosen process pays for its turn.
pub charge : Proc → Proc
charge p = record p {
  tick_remain = sub32 p.tick_remain 1;
  wait_ticks = 0;
  ticks = set p.ticks p.priority (add32 (get_or p.ticks p.priority 0) 1);
  slice_remain = sub32 p.slice_remain 1;
}

-- The new quotas of a process promoted while a process at `level` is chosen.
pub promote : ℕ → Proc → Outcome Proc
promote level pp = do
  slice ← at_level slices level
  tick ← at_level time_slice level
  ok (record pp {
    priority = pp.priority + 1;
    wait_ticks = 0;
    slice_remain = slice;
    tick_remain = tick;
  })

-- The body of the loop over `pp`; `level` is the priority of the chosen process `p`, from which
-- the code takes the quotas of a promoted process.
pub age : ℕ → Proc → Outcome Proc
age level pp = if not (is pp.state runnable) then ok pp else do
  limit ← at_level time_slice pp.priority
  let waited = add32 pp.wait_ticks 1
  if waited == 10 * limit && ltb pp.priority 3
      then promote level pp
      else ok (record pp { wait_ticks = waited })

-- for (pp = ptable.proc; pp != p && ...; pp++): the `n` slots in front of the chosen one.
pub escalate : ℕ → ℕ → List Proc → Outcome (List Proc)
escalate level zero ps = ok ps
escalate level (suc n) [] = ok []
escalate level (suc n) (pp ∷ ps) = do pp' ← age level pp; ps' ← escalate level n ps; ok (pp' ∷ ps')

-- `p->priority--` at the given priority: from level 0 the tables are read at -1.
pub relegate : Proc → ℕ → Outcome Proc
relegate p zero = fault
relegate p (suc lower) = do
  tick ← at_level time_slice lower
  slice ← at_level slices lower
  ok (record p { priority = lower; tick_remain = tick; slice_remain = slice })

-- The update of the chosen process when it comes back, and whether the loop stays at its slot.
pub settle : Proc → Outcome (Bool × Proc)
settle p =
    if p.slice_remain == 0
    then relegate p p.priority >>= (λ p'. ok (false, p'))
    else if not (p.tick_remain == 0)
    then ok (true, p)
    else do tick ← at_level time_slice p.priority; ok (false, record p { tick_remain = tick })

-- A slot inside the table.
unfoldable pub entry : List Proc → ℕ → Outcome Proc
entry ps i = elim (get_elem? ps i) [ none ↦ fault | some p ↦ ok p ]

-- The chosen process `p` at slot `i` runs: `run` is what happens to the table until it switches
-- back to the scheduler.
pub dispatch : (List Proc → List Proc) → ℕ → Proc → List Proc → Outcome (ℕ × List Proc)
dispatch run i p ps = do
  aged ← escalate p.priority i (set ps i (charge p))
  let back = run (set aged i (record (charge p) { state = running }))
  q ← entry back i
  (stay, q') ← settle q
  ok (if stay then i else suc i, set back i q')

-- The body of the loop over the table, at the process of slot `i`.
pub visit_at : (List Proc → List Proc) → ℕ → List Proc → Option Proc → Outcome (ℕ × List Proc)
visit_at run i ps none = ok (0, ps)
visit_at run i ps (some p) =
    if is p.state runnable && p.priority == getheight ps
    then dispatch run i p ps
    else ok (suc i, ps)

-- One round of the loop over the table, at slot `i`: the slot to visit next, and the table. Past
-- the last slot the loop starts again.
pub visit : (List Proc → List Proc) → ℕ → List Proc → Outcome (ℕ × List Proc)
unfolding visit_at
visit run i ps = visit_at run i ps (get_elem? ps i)

pub boostproc : Proc → Outcome Proc
boostproc p = if p.priority == 3 then ok p else do
  slice ← at_level slices (p.priority + 1)
  tick ← at_level time_slice (p.priority + 1)
  ok (record p {
    priority = p.priority + 1;
    wait_ticks = 0;
    slice_remain = slice;
    tick_remain = tick;
  })
