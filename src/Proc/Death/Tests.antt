-- ===== src/Proc/Death/Tests.antt =====
-- `exit` and `wait` at a table with a parent and a child.
use computer_organization_an.Common.{ℕ, suc, ◌≡◌, false, none, some, [], ◌∷◌, replicate, map}
use computer_organization_an.Proc.{running, zombie, nowhere, Proc}
use computer_organization_an.Proc.Life.{Services, Kernel}
use computer_organization_an.Proc.Death.{exit_table, wait_pass}
use computer_organization_an.Proc.Death.Orphans.{parents, passed_on, parents-exit_table}
use computer_organization_an.Proc.Death.Reap.{Outcomes, wait_pass-Outcomes}

-- Services that only count the calls that release something.
abbrev counting : Services
counting = record {
  K = ℕ;
  kalloc = λ k. (4096, k);
  kfree = λ a k. suc k;
  copyuvm = λ dir sz k. (4096, k);
  freevm = λ dir k. suc k;
  filedup = λ f k. k;
  fileclose = λ f k. ([], suc k);
  idup = λ i k. k;
  iput = λ i k. suc k;
}

abbrev parent : Proc
parent = record {
  sz = 0;
  pgdir = 0;
  kstack = 0;
  state = running;
  pid = 1;
  parent = none;
  eax = 0;
  chan = nowhere;
  killed = false;
  ofile = replicate 16 0;
  cwd = 0;
  name = [];
  wait_ticks = 0;
  ticks = 0 ∷ 0 ∷ 0 ∷ 0 ∷ [];
  priority = 3;
  tick_remain = 1;
  slice_remain = 8;
}

abbrev child : Proc
child = record parent { state = zombie; pid = 2; parent = some 0 }

abbrev kernel : Kernel counting
kernel = record { procs = parent ∷ child ∷ []; nextpid = 3; initproc = some 0; rest = 0 }

parents-exit_table_example :
    parents (exit_table 0 2 (some 5) parent (parent ∷ child ∷ []))
    ≡ map (passed_on 0 (some 5)) (none ∷ some 0 ∷ [])
parents-exit_table_example = parents-exit_table 0 (some 5) parent (parent ∷ child ∷ [])

wait_pass-Outcomes_example : Outcomes counting 0 parent kernel (wait_pass counting 0 parent kernel)
wait_pass-Outcomes_example = wait_pass-Outcomes counting 0 parent kernel
