-- ===== src/Proc/Life.antt =====
-- Creation, sleep, wakeup and death of processes in proc.c. What other parts of the kernel do on the
-- way (page and file bookkeeping) comes through `Services`: pages, page tables, files and inodes are
-- addresses, 0 the null pointer.
pub mod Slots
mod Tests
use computer_organization_an.Common.{
  ℕ, zero, suc, ◌+◌, ◌≡◌, Bool, true, false, not, ◌&&◌, ◌||◌, Option, none, some, List, [], ◌∷◌,
  map, ◌==◌, if◌then◌else◌, add32, get_elem?, set, replicate, length,
}
use computer_organization_an.Common.Outcome.{Outcome, ok, panic, fault, ◌>>=◌}
use computer_organization_an.Proc.{
  ProcState, unused, embryo, sleeping, runnable, running, zombie, Chan, nowhere, slot, Proc, is,
  chan_eq, points_to, chan_of,
}

-- The kernel services that proc.c calls, over a state of their own. `fileclose` also tells the
-- channels that closing a pipe wakes.
pub record Services : Type 1 where
  pub K : Type 0
  pub kalloc : K → ℕ × K
  pub kfree : ℕ → K → K
  pub copyuvm : ℕ → ℕ → K → ℕ × K
  pub freevm : ℕ → K → K
  pub filedup : ℕ → K → K
  pub fileclose : ℕ → K → List Chan × K
  pub idup : ℕ → K → K
  pub iput : ℕ → K → K

-- for (p = ptable.proc; ...; p++) if (p->state == UNUSED) goto found
unfoldable pub find_unused : ℕ → List Proc → Option ℕ
find_unused i [] = none
find_unused i (p ∷ ps) = if is p.state unused then some i else find_unused (suc i) ps

-- The fields that `allocproc` sets under the lock.
unfoldable pub new_proc : ℕ → Proc → Proc
new_proc pid p = record p {
  state = embryo;
  pid = pid;
  priority = 3;
  tick_remain = 1;
  wait_ticks = 0;
  ticks = 0 ∷ 0 ∷ 0 ∷ 0 ∷ [];
  slice_remain = 8;
}

unfoldable pub wake : Chan → Proc → Proc
wake c p = if is p.state sleeping && chan_eq p.chan c then record p { state = runnable } else p

-- for (p = ptable.proc; ...; p++) if (p->state == SLEEPING && p->chan == chan) p->state = RUNNABLE
unfoldable pub wakeup1 : Chan → List Proc → List Proc
wakeup1 c ps = map (wake c) ps

-- `proc` sleeps on `chan`: what `sleep` writes before it calls `sched`.
unfoldable pub sleep : Chan → Proc → Proc
sleep c p = record p { chan = c; state = sleeping }

-- What it writes when it runs again.
pub resume : Proc → Proc
resume p = record p { chan = nowhere }

-- p->killed = 1; if(p->state == SLEEPING) p->state = RUNNABLE
unfoldable pub struck : Proc → Proc
struck p = record p { killed = true; state = if is p.state sleeping then runnable else p.state }

-- `none` is the result -1.
unfoldable pub kill : ℕ → List Proc → Option (List Proc)
kill pid [] = none
kill pid (p ∷ ps) =
    if p.pid == pid
    then some (struck p ∷ ps)
    else (elim (kill pid ps) [ none ↦ none | some ps' ↦ some (p ∷ ps') ])

module _ (s : Services) where
  open s use {K, kalloc, kfree, copyuvm, freevm, filedup, fileclose, idup, iput}

  -- `ptable.proc`, `nextpid`, `initproc` and the state of the services.
  pub record Kernel : Type 0 where
    pub procs : List Proc
    pub nextpid : ℕ
    pub initproc : Option ℕ
    pub rest : K

  pub give_stack : ℕ → ℕ × K → Kernel → Option ℕ × Kernel
  give_stack i (stack, k) st = elim (get_elem? st.procs i) [
    | none ↦ (none, record st { rest = k })
    | some p ↦
        if stack == 0
        then (
          none,
          record st { procs = set st.procs i (record p { kstack = 0; state = unused }); rest = k },
        )
        else (some i, record st { procs = set st.procs i (record p { kstack = stack }); rest = k })
  ]

  pub allocproc_at : Kernel → Option ℕ → Option ℕ × Kernel
  allocproc_at st none = (none, st)
  allocproc_at st (some i) = elim (get_elem? st.procs i) [
    | none ↦ (none, st)
    | some p ↦
        give_stack i (kalloc st.rest) (record st {
          procs = set st.procs i (new_proc st.nextpid p);
          nextpid = add32 st.nextpid 1;
        })
  ]

  pub allocproc : Kernel → Option ℕ × Kernel
  allocproc st = allocproc_at st (find_unused 0 st.procs)

  -- for (i = 0; i < NOFILE; i++) if (proc->ofile[i]) np->ofile[i] = filedup(proc->ofile[i])
  pub dup_files : List ℕ → List ℕ → K → List ℕ × K
  dup_files [] mine k = (mine, k)
  dup_files (f ∷ fs) [] k = ([], k)
  dup_files (f ∷ fs) (m ∷ ms) k =
      let (ms', k') = dup_files fs ms (if f == 0 then k else filedup f k) in
      ((if f == 0 then m else f) ∷ ms', k')

  -- `safestrcpy` of a name, with room for `n` bytes and the zero byte.
  pub safe_name : ℕ → List ℕ → List ℕ → List ℕ
  safe_name n t [] = []
  safe_name zero t (d ∷ s) = 0 ∷ s
  safe_name (suc n) [] (d ∷ s) = d ∷ s
  safe_name (suc n) (c ∷ t) (d ∷ s) = if c == 0 then 0 ∷ s else c ∷ safe_name n t s

  -- `fork` by the process `p` in slot `cur`, once slot `i` is allocated. `none` is the result -1.
  pub fork_into : ℕ → Proc → ℕ → Proc → Kernel → Option ℕ × Kernel
  fork_into cur p i np st =
      let (dir, k) = copyuvm p.pgdir p.sz st.rest in
      if dir == 0
      then (
        none,
        record st {
          procs = set st.procs i (record np { pgdir = 0; kstack = 0; state = unused });
          rest = kfree np.kstack k;
        },
      )
      else let (files, k') = dup_files p.ofile np.ofile k in
        (
          some np.pid,
          record st {
            procs = set st.procs i (record np {
              pgdir = dir;
              sz = p.sz;
              parent = some cur;
              eax = 0;
              ofile = files;
              cwd = p.cwd;
              state = runnable;
              name = safe_name 15 p.name np.name;
            });
            rest = idup p.cwd k';
          },
        )

  pub fork_at : ℕ → Option ℕ × Kernel → Option ℕ × Kernel
  fork_at cur (none, st) = (none, st)
  fork_at cur (some i, st) = elim (get_elem? st.procs cur) [
    | none ↦ (none, st)
    | some p ↦ elim (get_elem? st.procs i) [ none ↦ (none, st) | some np ↦ fork_into cur p i np st ]
  ]

  pub fork : ℕ → Kernel → Option ℕ × Kernel
  fork cur st = fork_at cur (allocproc st)
