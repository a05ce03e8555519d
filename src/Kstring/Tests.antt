-- ===== src/Kstring/Tests.antt =====
-- The string routines on a small memory.
use computer_organization_an.Common.{◌+◌, ◌-◌, ◌≡◌, refl, arith, ◌==◌, if◌then◌else◌}
use computer_organization_an.Kstring.{Memory, store, memmove, move_down}
use computer_organization_an.Kstring.Move.{within, memmove-copy}
use computer_organization_an.Kstring.Compare.{EndsAt}

-- "ab" at 10, with its zero byte, and zeros elsewhere.
abbrev text : Memory
text a = if a == 10 then 97 else if a == 11 then 98 else 0

overlap_run : memmove 11 10 2 text 12 ≡ 98
unfolding memmove move_down store
overlap_run = refl

memmove-copy_example :
    memmove 11 10 2 text 12 ≡ (if within 11 2 12 then text (10 + (12 - 11)) else text 12)
memmove-copy_example = memmove-copy 11 10 2 text 12

text-EndsAt : EndsAt 10 2 text
text-EndsAt = omega arith
