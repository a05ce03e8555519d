-- ===== src/Spinlock/Tests.antt =====
-- One processor with interrupts enabled, and a free lock.
use computer_organization_an.Common.{◌≡◌, refl, inl, true, false, none}
use computer_organization_an.Common.Outcome.{ok}
use computer_organization_an.Spinlock.{
  Cpu, Spinlock, pushcli, popcli, lowered, enable, acquire, release, taken,
}
use computer_organization_an.Spinlock.Nesting.{Matched, nothing, pair, release-acquire}

abbrev idle : Cpu
idle = record { interrupts = true; ncli = 0; intena = false }

abbrev free : Spinlock
free = record { locked = false; cpu = none }

-- One more pair of calls inside.
inside : Matched (pushcli idle) (pushcli idle)
unfolding pushcli popcli lowered enable
inside = pair nothing refl nothing

release-acquire_example :
    (lk' : Spinlock) × (acquire 0 idle free ≡ ok (taken (pushcli idle) lk'))
    × ((e : Cpu) × (lk'' : Spinlock) × (release 0 (pushcli idle) lk' ≡ ok (e, lk''))
        × (lk''.locked ≡ false)
        × (e.interrupts ≡ true)
        × (e.ncli ≡ 0))
release-acquire_example = release-acquire 0 idle (pushcli idle) free (inl refl) refl inside
