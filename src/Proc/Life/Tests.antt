-- ===== src/Proc/Life/Tests.antt =====
-- The slots' theorems at concrete processes.
use computer_organization_an.Common.{false, none, [], ◌∷◌, replicate}
use computer_organization_an.Proc.{unused, sleeping, slot, nowhere, Proc}

abbrev blank : Proc
blank = record {
  sz = 0;
  pgdir = 0;
  kstack = 0;
  state = unused;
  pid = 0;
  parent = none;
  eax = 0;
  chan = nowhere;
  killed = false;
  ofile = replicate 16 0;
  cwd = 0;
  name = [];
  wait_ticks = 0;
  ticks = 0 ∷ 0 ∷ 0 ∷ 0 ∷ [];
  priority = 0;
  tick_remain = 0;
  slice_remain = 0;
}

abbrev waiting : Proc
waiting = record blank { state = sleeping; pid = 1; chan = slot 0 }
