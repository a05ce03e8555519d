-- ===== src/Bcache.antt =====
-- The cache of disk blocks of xv6 Scheduler/kernel/bio.c. The address of `bcache.head` is 0, that of
-- `bcache.buf[i]` is i + 1. `bcache.lock` is held but for the time that a caller sleeps; the contents
-- of the blocks, and the wakeup of those that wait for one, are left out.
pub mod Ring
pub mod Release
pub mod Get
pub mod Unique
pub mod Kept
pub mod Runs
mod Tests
use computer_organization_an.Common.{
  ℕ, zero, suc, Bool, true, false, ◌&&◌, Option, none, some, List, [], ◌∷◌, ◌==◌, if◌then◌else◌,
}
use computer_organization_an.Common.Outcome.{Outcome, ok, panic, fault, ◌>>=◌}

-- A store into a map from addresses.
unfoldable pub store_at {ℓ} : {A : Type ℓ} → (ℕ → A) → ℕ → A → ℕ → A
store_at f p v a = if a == p then v else f a

abbrev pub nbuf : ℕ
nbuf = 10

-- The flags, device and sector of `struct buf`; its links are in the maps below.
pub record Buf : Type 0 where
  pub busy : Bool
  pub valid : Bool
  pub dirty : Bool
  pub dev : ℕ
  pub sector : ℕ

pub record Bcache : Type 0 where
  pub buf : ℕ → Buf
  pub prev : ℕ → ℕ
  pub next : ℕ → ℕ

-- b->next = head.next; b->prev = &head; head.next->prev = b; head.next = b
unfoldable pub link_first : Bcache → ℕ → Bcache
link_first c b =
    let next : ℕ → ℕ = store_at c.next b (c.next 0) in
    let prev : ℕ → ℕ = store_at c.prev b 0 in
    record c { prev = store_at prev (next 0) b; next = store_at next 0 b }

-- A round of `binit`; the device -1 is unsigned.
unfoldable pub add_buf : Bcache → ℕ → Bcache
add_buf c b =
    link_first (record c { buf = store_at c.buf b (record (c.buf b) { dev = 4294967295 }) }) b

-- The buffers from `b` on, of which `n` are left.
unfoldable pub binit_loop : ℕ → ℕ → Bcache → Bcache
binit_loop zero b c = c
binit_loop (suc n) b c = binit_loop n (suc b) (add_buf c b)

unfoldable pub binit : Bcache → Bcache
binit c = binit_loop nbuf 1 (record c { prev = store_at c.prev 0 0; next = store_at c.next 0 0 })

-- b->next->prev = b->prev; b->prev->next = b->next
unfoldable pub unlink_buf : Bcache → ℕ → Bcache
unlink_buf c b =
    let prev : ℕ → ℕ = store_at c.prev (c.next b) (c.prev b) in
    record c { prev = prev; next = store_at c.next (prev b) (c.next b) }

unfoldable pub brelse : Bcache → ℕ → Outcome Bcache
brelse c b =
    if (c.buf b).busy
    then ok (
        let c' : Bcache = link_first (unlink_buf c b) b in
        record c' { buf = store_at c'.buf b (record (c'.buf b) { busy = false }) })
    else panic

unfoldable pub holds : Bcache → ℕ → ℕ → ℕ → Bool
holds c dev sector b = (c.buf b).dev == dev && (c.buf b).sector == sector

-- A loop over the buffers from `b` on by one of their links, to the first that passes the test; it
-- has fuel for `n` of them.
unfoldable pub search_from : ℕ → (ℕ → ℕ) → (ℕ → Bool) → ℕ → Outcome (Option ℕ)
search_from zero link test b = fault
search_from (suc n) link test b =
    let rest = search_from n link test (link b) in
    if b == 0 then ok none else (if test b then ok (some b) else rest)

-- The buffer is the caller's, or the caller sleeps.
pub data Got : Type 0 where
  got : ℕ → Bcache → Got
  asleep : Bcache → Got

unfoldable pub is_idle : Bcache → ℕ → Bool
is_idle c b = if (c.buf b).busy then false else true

-- "Allocate fresh_block block", from the end of the list.
unfoldable pub recycled : Bcache → ℕ → ℕ → Option ℕ → Outcome Got
recycled c dev sector none = panic
recycled c dev sector (some b) = ok (
    got b (record c {
      buf =
          store_at c.buf b
            (record { busy = true; valid = false; dirty = false; dev = dev; sector = sector });
    }))

unfoldable pub fresh_block : Bcache → ℕ → ℕ → Outcome Got
fresh_block c dev sector =
    search_from (suc nbuf) c.prev (is_idle c) (c.prev 0) >>= recycled c dev sector

unfoldable pub mark_busy : Bcache → ℕ → Bcache
mark_busy c b = record c { buf = store_at c.buf b (record (c.buf b) { busy = true }) }

-- A cached buffer is taken, unless it is busy: then the caller sleeps and `after` follows.
unfoldable pub cached : Bcache → ℕ → ℕ → Outcome Got → Option ℕ → Outcome Got
cached c dev sector after none = fresh_block c dev sector
cached c dev sector after (some b) = if (c.buf b).busy then after else ok (got b (mark_busy c b))

-- `bget`; what happens to the cache while the caller sleeps comes as a list of rounds, and after the
-- last of them it is still asleep.
unfoldable pub bget : List (Bcache → Bcache) → Bcache → ℕ → ℕ → Outcome Got
bget [] c dev sector =
    search_from (suc nbuf) c.next (holds c dev sector) (c.next 0)
    >>= cached c dev sector (ok (asleep c))
bget (round ∷ rounds) c dev sector =
    search_from (suc nbuf) c.next (holds c dev sector) (c.next 0)
    >>= cached c dev sector (bget rounds (round c) dev sector)
