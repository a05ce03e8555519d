-- ===== src/Proc.antt =====
-- The process table of the multi-level feedback queue kernel, xv6 Scheduler/kernel/proc.h and
-- proc.c. A pointer into the table is a slot's index, `none` the null pointer. A function that runs
-- with `ptable.lock` held throughout is one atomic step. The layout of the kernel stack and the
-- saved registers other than the result register are not modelled.
pub mod Sched
pub mod Life
pub mod Death
use computer_organization_an.Common.{
  ℕ, zero, suc, ◌+◌, ◌≡◌, Bool, true, false, ◌&&◌, Option, none, some, List, [], ◌∷◌, ◌==◌,
  if◌then◌else◌, get_elem?, set,
}
use computer_organization_an.Common.Outcome.{Outcome, ok, fault}

-- `enum procstate`
pub data ProcState : Type 0 where
  unused embryo sleeping runnable running zombie : ProcState

-- `void *chan`: the null pointer, the address of a slot of the table, or another address.
pub data Chan : Type 0 where
  nowhere : Chan
  slot : ℕ → Chan
  address : ℕ → Chan

-- `struct proc`. `ticks` has four entries; `ofile` holds pointers, 0 for a free descriptor.
pub record Proc : Type 0 where
  pub sz : ℕ
  pub pgdir : ℕ
  pub kstack : ℕ
  pub state : ProcState
  pub pid : ℕ
  pub parent : Option ℕ
  pub eax : ℕ
  pub chan : Chan
  pub killed : Bool
  pub ofile : List ℕ
  pub cwd : ℕ
  pub name : List ℕ
  pub wait_ticks : ℕ
  pub ticks : List ℕ
  pub priority : ℕ
  pub tick_remain : ℕ
  pub slice_remain : ℕ

abbrev pub is : ProcState → ProcState → Bool
is unused unused = true
is embryo embryo = true
is sleeping sleeping = true
is runnable runnable = true
is running running = true
is zombie zombie = true
is _ _ = false

abbrev pub chan_eq : Chan → Chan → Bool
chan_eq nowhere nowhere = true
chan_eq (slot i) (slot j) = i == j
chan_eq (address a) (address b) = a == b
chan_eq _ _ = false

-- p->parent == q
abbrev pub points_to : Option ℕ → ℕ → Bool
points_to none i = false
points_to (some j) i = j == i

-- A pointer to a process as a sleep channel.
abbrev pub chan_of : Option ℕ → Chan
chan_of none = nowhere
chan_of (some i) = slot i

-- `time_slice` and `slices`, by priority; an access outside them is undefined.
abbrev pub time_slice : List ℕ
time_slice = 64 ∷ 4 ∷ 2 ∷ 1 ∷ []

abbrev pub slices : List ℕ
slices = 8000000 ∷ 32 ∷ 16 ∷ 8 ∷ []

unfoldable pub at_level : List ℕ → ℕ → Outcome ℕ
at_level quotas level = elim (get_elem? quotas level) [ none ↦ fault | some n ↦ ok n ]
