-- ===== src/Pipe.antt =====
-- The pipes of xv6 Scheduler/kernel/pipe.c: a buffer of 512 bytes with two 32-bit counters that wrap
-- around. `p->lock` is held but for the time that a caller sleeps. What happens to the pipe and to
-- the caller while it sleeps comes as a list of rounds, one for each time that it goes to sleep; a
-- call that sleeps after the last of them is still blocked.
pub mod Queue
pub mod Calls
pub mod Read
mod Tests
use computer_organization_an.Common.{
  ℕ, zero, suc, ◌+◌, ◌-◌, ◌%◌, Bool, true, false, not, ◌&&◌, ◌||◌, Option, none, some, List, [],
  ◌∷◌, ◌++◌, ltb, ◌==◌, if◌then◌else◌, add32, get_or, set, length,
}

abbrev pub pipe_size : ℕ
pipe_size = 512

-- `struct pipe`
pub record Pipe : Type 0 where
  pub buf : List ℕ
  pub nread : ℕ
  pub nwrite : ℕ
  pub readopen : Bool
  pub writeopen : Bool

-- The pipe as the sleeper finds it, and whether it has been killed.
abbrev pub Round : Type 0
Round = Pipe → Pipe × Bool

-- A call returns a result, `none` for -1, or is blocked.
pub data Call (A : Type 0) : Type 0 where
  returns : A → Pipe → Call A
  fails : Pipe → Call A
  blocked : Pipe → Call A

unfoldable pub full : Pipe → Bool
full p = p.nwrite == add32 p.nread pipe_size

unfoldable pub empty : Pipe → Bool
empty p = p.nread == p.nwrite

-- p->data[p->nwrite++ % PIPESIZE] = c
unfoldable pub put : Pipe → ℕ → Pipe
put p c = record p { buf = set p.buf (p.nwrite % pipe_size) c; nwrite = add32 p.nwrite 1 }

-- c = p->data[p->nread++ % PIPESIZE]
unfoldable pub get : Pipe → ℕ × Pipe
get p = (get_or p.buf (p.nread % pipe_size) 0, record p { nread = add32 p.nread 1 })

-- `while` of pipewrite: wait for room. The caller is given with its mark `killed`.
unfoldable pub wait_room : List Round → Pipe → Bool → Call (List Round × Bool)
wait_room [] p killed =
    if full p
    then (if not p.readopen || killed then fails p else blocked p)
    else returns ([], killed) p
wait_room (round ∷ rounds) p killed =
    let after = wait_room rounds (round p).0 (round p).1 in
    if full p
    then (if not p.readopen || killed then fails p else after)
    else returns (round ∷ rounds, killed) p

-- A byte is put once there is room; the rest of the loop goes on with it.
unfoldable pub put_then :
    (List Round → Pipe → Bool → Call ℕ) → ℕ → Call (List Round × Bool) → Call ℕ
put_then rest c (returns (rounds, killed) p) = rest rounds (put p c) killed
put_then rest c (fails p) = fails p
put_then rest c (blocked p) = blocked p

-- The loop of `pipewrite` over the bytes that are left; the result is the count `n`.
unfoldable pub pipewrite_loop : ℕ → List ℕ → List Round → Pipe → Bool → Call ℕ
pipewrite_loop n [] rounds p killed = returns n p
pipewrite_loop n (c ∷ cs) rounds p killed =
    put_then (pipewrite_loop n cs) c (wait_room rounds p killed)

unfoldable pub pipewrite : List ℕ → List Round → Pipe → Bool → Call ℕ
pipewrite cs rounds p killed = pipewrite_loop (length cs) cs rounds p killed

-- The first loop of `piperead`: wait for a byte, or for the writer to close.
unfoldable pub wait_bytes : List Round → Pipe → Bool → Call (Unit {0})
wait_bytes [] p killed =
    if empty p && p.writeopen then (if killed then fails p else blocked p) else returns tt p
wait_bytes (round ∷ rounds) p killed =
    let after = wait_bytes rounds (round p).0 (round p).1 in
    if empty p && p.writeopen then (if killed then fails p else after) else returns tt p

-- The second loop: at most `n` bytes.
unfoldable pub piperead_loop : ℕ → Pipe → List ℕ × Pipe
piperead_loop zero p = ([], p)
piperead_loop (suc n) p =
    let (cs, p') = piperead_loop n (get p).1 in if empty p then ([], p) else ((get p).0 ∷ cs, p')

unfoldable pub take_bytes : ℕ → Call (Unit {0}) → Call (List ℕ)
take_bytes n (returns _ p) = (let (cs, p') = piperead_loop n p in returns cs p')
take_bytes n (fails p) = fails p
take_bytes n (blocked p) = blocked p

unfoldable pub piperead : ℕ → List Round → Pipe → Bool → Call (List ℕ)
piperead n rounds p killed = take_bytes n (wait_bytes rounds p killed)

-- `pipeclose`: the pipe, and whether its page is freed.
unfoldable pub pipeclose : Bool → Pipe → Pipe × Bool
pipeclose writable p =
    let p' : Pipe =
      if writable then record p { writeopen = false } else record p { readopen = false } in
    (p', not p'.readopen && not p'.writeopen)
