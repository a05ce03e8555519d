-- ===== src/Spinlock.antt =====
-- The nesting of disabled interrupts and the spin locks of xv6 Scheduler/kernel/spinlock.c. The
-- record of callers (`pcs`) is for debugging and is left out.
pub mod Nesting
mod Tests
use computer_organization_an.Common.{
  ℕ, zero, suc, ◌==◌, Bool, true, false, ◌&&◌, Option, none, some, if◌then◌else◌,
}
use computer_organization_an.Common.Outcome.{Outcome, ok, panic, ◌>>=◌}

-- A processor: its interrupt flag, and the two fields that `pushcli` and `popcli` use.
pub record Cpu : Type 0 where
  pub interrupts : Bool
  pub ncli : ℕ
  pub intena : Bool

-- `struct spinlock`, with the number of the processor that holds it.
pub record Spinlock : Type 0 where
  pub locked : Bool
  pub cpu : Option ℕ

unfoldable pub pushcli : Cpu → Cpu
pushcli c = record {
  interrupts = false;
  ncli = suc c.ncli;
  intena = if c.ncli == 0 then c.interrupts else c.intena;
}

-- The end of `popcli`, from the new count on.
unfoldable pub enable : Cpu → ℕ → Cpu
enable c n = record c { ncli = n; interrupts = if n == 0 && c.intena then true else c.interrupts }

unfoldable pub lowered : Cpu → ℕ → Outcome Cpu
lowered c zero = panic
lowered c (suc n) = ok (enable c n)

unfoldable pub popcli : Cpu → Outcome Cpu
popcli c = if c.interrupts then panic else lowered c c.ncli

abbrev is_cpu : Option ℕ → ℕ → Bool
is_cpu none me = false
is_cpu (some other) me = other == me

-- `holding`, on processor `me`.
unfoldable pub holding : ℕ → Spinlock → Bool
holding me lk = lk.locked && is_cpu lk.cpu me

-- The result of `acquire`: the lock is taken, or the processor spins with interrupts disabled.
pub data Acquired : Type 0 where
  taken : Cpu → Spinlock → Acquired
  spins : Cpu → Acquired

-- `acquire`, up to the first exchange that succeeds.
unfoldable pub acquire : ℕ → Cpu → Spinlock → Outcome Acquired
acquire me c lk =
    if holding me lk
    then panic
    else (if lk.locked
        then ok (spins (pushcli c))
        else ok (taken (pushcli c) (record { locked = true; cpu = some me })))

unfoldable pub release : ℕ → Cpu → Spinlock → Outcome (Cpu × Spinlock)
release me c lk =
    if holding me lk
    then (popcli c >>= λ c'. ok (c', record { locked = false; cpu = none }))
    else panic
