-- ===== src/Proc/Death.antt =====
-- `exit` and `wait` of proc.c.
pub mod Orphans
pub mod Reap
mod Tests
use computer_organization_an.Common.{
  ℕ, zero, suc, ◌+◌, ◌≡◌, Bool, true, false, not, ◌&&◌, ◌||◌, Option, none, some, List, [], ◌∷◌,
  ◌++◌, map, ◌==◌, if◌then◌else◌, get_elem?, set, replicate,
}
use computer_organization_an.Common.Outcome.{Outcome, ok, panic, fault, ◌>>=◌}
use computer_organization_an.Proc.{
  unused, sleeping, zombie, Chan, slot, Proc, is, points_to, chan_of,
}
use computer_organization_an.Proc.Life.{Services, Kernel, wakeup1, sleep}

-- The round of the loop that passes abandoned children on, for the process in slot `i`.
pub adopt_at : (parent : ℕ) (init : Option ℕ) → ℕ → List Proc → Option Proc → List Proc
adopt_at parent init i ps none = ps
adopt_at parent init i ps (some p) =
    let ps' = set ps i (record p { parent = init }) in
    if points_to p.parent parent
    then (if is p.state zombie then wakeup1 (chan_of init) ps' else ps')
    else ps

pub adopt : (parent : ℕ) (init : Option ℕ) → ℕ → List Proc → List Proc
adopt parent init i ps = adopt_at parent init i ps (get_elem? ps i)

-- for (p = ptable.proc; ...; p++) over `n` slots from slot `i` on.
pub adopt_all : (parent : ℕ) (init : Option ℕ) → ℕ → ℕ → List Proc → List Proc
adopt_all parent init zero i ps = ps
adopt_all parent init (suc n) i ps = adopt_all parent init n (suc i) (adopt parent init i ps)

-- proc->state = ZOMBIE
pub mark_zombie : ℕ → List Proc → List Proc
mark_zombie cur [] = []
mark_zombie zero (p ∷ ps) = record p { state = zombie } ∷ ps
mark_zombie (suc cur) (p ∷ ps) = p ∷ mark_zombie cur ps

-- What `exit` does to the table under `ptable.lock`, up to `sched`.
pub exit_table : (cur : ℕ) (nproc : ℕ) (init : Option ℕ) → Proc → List Proc → List Proc
exit_table cur nproc init p ps =
    mark_zombie cur (adopt_all cur init nproc 0 (wakeup1 (chan_of p.parent) ps))

-- The outcomes of one pass of `wait` over the table: a child is reaped, there is nothing to wait for
-- (the result -1), or the caller goes to sleep and will pass over the table again.
pub data Waited (S : Type 0) : Type 0 where
  reaped : ℕ → S → Waited S
  childless : Waited S
  asleep : S → Waited S

-- The scan for a zombie child: its slot, and whether a child was seen before it.
pub scan : ℕ → ℕ → Bool → List Proc → Bool × Option (ℕ × Proc)
scan cur i havekids [] = (havekids, none)
scan cur i havekids (p ∷ ps) =
    let next = scan cur (suc i) (havekids || points_to p.parent cur) ps in
    if points_to p.parent cur && is p.state zombie then (true, some (i, p)) else next

-- The slot of a reaped child.
pub cleared : Proc → Proc
cleared p = record p {
  kstack = 0;
  state = unused;
  pid = 0;
  parent = none;
  name = set p.name 0 0;
  killed = false;
}

module _ (s : Services) where
  open s use {K, kfree, freevm, fileclose, iput}

  -- for (fd = 0; fd < NOFILE; fd++) if (proc->ofile[fd]) fileclose(...); the channels woken meanwhile.
  pub close_files : List ℕ → K → List Chan × K
  close_files [] k = ([], k)
  close_files (f ∷ fs) k =
      let (cs, k') = if f == 0 then ([], k) else fileclose f k in
      let (cs', k'') = close_files fs k' in (cs ++ cs', k'')

  pub wake_all : List Chan → List Proc → List Proc
  wake_all [] ps = ps
  wake_all (c ∷ cs) ps = wake_all cs (wakeup1 c ps)

  -- `exit` by the process `p` in slot `cur`.
  pub exit : ℕ → Proc → Kernel s → Outcome (Kernel s)
  exit cur p st =
      if points_to st.initproc cur
      then panic
      else let (woken, k) = close_files p.ofile st.rest in
        let closed = set st.procs cur (record p { ofile = map (λ _. 0) p.ofile; cwd = 0 }) in
        ok (record st {
          procs = exit_table cur 64 st.initproc p (wake_all woken closed);
          rest = iput p.cwd k;
        })

  pub wait_at : ℕ → Proc → Kernel s → Bool × Option (ℕ × Proc) → Waited (Kernel s)
  wait_at cur p st (havekids, some (i, child)) = reaped child.pid (record st {
    procs = set st.procs i (cleared child);
    rest = freevm child.pgdir (kfree child.kstack st.rest);
  })
  wait_at cur p st (havekids, none) =
      if not havekids || p.killed
      then childless
      else asleep (record st { procs = set st.procs cur (sleep (slot cur) p) })

  -- One pass of `wait` by the process `p` in slot `cur`.
  pub wait_pass : ℕ → Proc → Kernel s → Waited (Kernel s)
  wait_pass cur p st = wait_at cur p st (scan cur 0 false st.procs)
