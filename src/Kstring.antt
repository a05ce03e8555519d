-- ===== src/Kstring.antt =====
-- The memory and string routines of xv6 Scheduler/kernel/string.c, over a memory of bytes under
-- addresses. The objects that they are given do not wrap around the end of the address space.
pub mod Move
pub mod Copy
pub mod Compare
mod Tests
use computer_organization_an.Common.{
  ℕ, zero, suc, ◌+◌, ◌-◌, Bool, not, ◌&&◌, ◌||◌, Option, none, some, ltb, leb, ◌==◌, if◌then◌else◌,
}
use computer_organization_an.Common.Int.{ℤ, pos, negsuc}

abbrev pub Memory : Type 0
Memory = ℕ → ℕ

unfoldable pub store : Memory → ℕ → ℕ → Memory
store mem a v b = if b == a then v else mem b

-- `stosb`, of which `memset` consists.
pub memset : ℕ → ℕ → ℕ → Memory → Memory
memset dst c zero mem = mem
memset dst c (suc n) mem = memset (suc dst) c n (store mem dst c)

-- a - b as an `int`.
unfoldable pub diff : ℕ → ℕ → ℤ
diff a b = if leb b a then pos (a - b) else negsuc (b - a - 1)

pub memcmp : ℕ → ℕ → ℕ → Memory → ℤ
memcmp s1 s2 zero mem = pos 0
memcmp s1 s2 (suc n) mem =
    let rest = memcmp (suc s1) (suc s2) n mem in
    if mem s1 == mem s2 then rest else diff (mem s1) (mem s2)

-- while(n-- > 0) *--d = *--s, from the ends of the objects at `d` and `s`.
pub move_down : ℕ → ℕ → ℕ → Memory → Memory
move_down d s zero mem = mem
move_down d s (suc n) mem = move_down d s n (store mem (d + n) (mem (s + n)))

-- while(n-- > 0) *d++ = *s++
pub move_up : ℕ → ℕ → ℕ → Memory → Memory
move_up d s zero mem = mem
move_up d s (suc n) mem = move_up (suc d) (suc s) n (store mem d (mem s))

pub memmove : ℕ → ℕ → ℕ → Memory → Memory
memmove d s n mem = if ltb s d && ltb d (s + n) then move_down d s n mem else move_up d s n mem

pub strncmp : ℕ → ℕ → ℕ → Memory → ℤ
strncmp p q zero mem = pos 0
strncmp p q (suc n) mem =
    let rest = strncmp (suc p) (suc q) n mem in
    if not (mem p == 0) && mem p == mem q then rest else diff (mem p) (mem q)

-- while(n-- > 0) *s++ = 0
pub pad : ℕ → ℕ → Memory → Memory
pad s zero mem = mem
pad s (suc n) mem = pad (suc s) n (store mem s 0)

-- while(n-- > 0 && (*s++ = *t++) != 0), then the padding. The loop that stops at a zero byte has
-- counted it.
pub strncpy : ℕ → ℕ → ℕ → Memory → Memory
strncpy s t zero mem = mem
strncpy s t (suc n) mem =
    let mem' = store mem s (mem t) in
    let rest = strncpy (suc s) (suc t) n mem' in if mem t == 0 then pad (suc s) n mem' else rest

-- while(--n > 0 && (*s++ = *t++) != 0), then *s = 0; the count is `n - 1`.
pub safe_loop : ℕ → ℕ → ℕ → Memory → Memory
safe_loop s t zero mem = store mem s 0
safe_loop s t (suc n) mem =
    let mem' = store mem s (mem t) in
    let rest = safe_loop (suc s) (suc t) n mem' in if mem t == 0 then store mem' (suc s) 0 else rest

pub safestrcpy : ℕ → ℕ → ℤ → Memory → Memory
safestrcpy s t (negsuc n) mem = mem
safestrcpy s t (pos zero) mem = mem
safestrcpy s t (pos (suc n)) mem = safe_loop s t n mem

-- for(n = 0; s[n]; n++), on fuel.
pub strlen : ℕ → ℕ → Memory → Option ℕ
strlen zero s mem = none
strlen (suc fuel) s mem =
    let rest = strlen fuel (suc s) mem in
    if mem s == 0 then some 0 else (elim rest [ none ↦ none | some n ↦ some (suc n) ])
