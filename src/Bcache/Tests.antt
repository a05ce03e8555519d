-- ===== src/Bcache/Tests.antt =====
-- Runs of the cache, from memory that is zero.
use computer_organization_an.Common.{ℕ, ◌≡◌, refl, true, false, Option, [], ◌∷◌, arith}
use computer_organization_an.Common.Outcome.{Outcome, ok}
use computer_organization_an.Bcache.{
  store_at, Bcache, link_first, add_buf, binit_loop, binit, unlink_buf, brelse, holds, search_from,
  Got, got, asleep, is_idle, recycled, fresh_block, mark_busy, cached, bget,
}
use computer_organization_an.Bcache.Release.{Released, brelse-Released, all_bufs, binit-Ring}
use computer_organization_an.Bcache.Get.{First, Chosen, bget-Chosen}
use computer_organization_an.Bcache.Unique.{Sound}
use computer_organization_an.Bcache.Runs.{initialized, acquired, released, Reached-Sound}

abbrev zeros : Bcache
zeros = record {
  buf = λ b. record { busy = false; valid = false; dirty = false; dev = 0; sector = 0 };
  prev = λ b. 0;
  next = λ b. 0;
}

-- The buffers that are busy.
abbrev all_busy : Bcache → Bcache
all_busy c = record c { buf = λ b. record (c.buf b) { busy = true } }

-- The cache that a call leaves.
abbrev left : Outcome Got → Bcache
left (ok (got b c)) = c
left (ok (asleep c)) = c
left _ = zeros

abbrev given : Outcome Bcache → Bcache
given (ok c) = c
given _ = zeros

brelse-Released_example :
    Released
      (all_busy (binit zeros))
      (10 ∷ 9 ∷ 8 ∷ 7 ∷ [])
      6
      (5 ∷ 4 ∷ 3 ∷ 2 ∷ 1 ∷ [])
      (brelse (all_busy (binit zeros)) 6)
brelse-Released_example =
    brelse-Released (all_busy (binit zeros)) (10 ∷ 9 ∷ 8 ∷ 7 ∷ []) 6 (5 ∷ 4 ∷ 3 ∷ 2 ∷ 1 ∷ [])
      (binit-Ring zeros).0 refl

bget-Chosen_example :
    (o : Option ℕ) × First (holds (binit zeros) 1 5) all_bufs o
    × Chosen (binit zeros) all_bufs 1 5 (ok (asleep (binit zeros))) o (bget [] (binit zeros) 1 5)
bget-Chosen_example = bget-Chosen (binit zeros) all_bufs 1 5 (binit-Ring zeros).0 (omega arith)

abbrev first_got : Bcache
first_got = left (bget [] (binit zeros) 1 5)

-- The last buffer of the ring is the first of the array.
gets_first : bget [] (binit zeros) 1 5 ≡ ok (got 1 first_got)
unfolding store_at link_first add_buf binit_loop binit unlink_buf holds search_from is_idle recycled
    fresh_block mark_busy cached bget
gets_first = refl

-- Sector 5 again: the buffer is busy.
sleeps : bget [] first_got 1 5 ≡ ok (asleep first_got)
unfolding store_at link_first add_buf binit_loop binit unlink_buf holds search_from is_idle recycled
    fresh_block mark_busy cached bget
sleeps = refl

abbrev first_released : Bcache
first_released = given (brelse first_got 1)

releases_first : brelse first_got 1 ≡ ok first_released
unfolding store_at link_first add_buf binit_loop binit unlink_buf brelse holds search_from is_idle
    recycled fresh_block mark_busy cached bget
releases_first = refl

-- The released buffer is the first of the ring, and the next one to give away is the second of the
-- array.
released_links :
    (first_released.next 0 ≡ 1) × (first_released.prev 0 ≡ 2) × (first_released.next 1 ≡ 10)
unfolding store_at link_first add_buf binit_loop binit unlink_buf brelse holds search_from is_idle
    recycled fresh_block mark_busy cached bget
released_links = (refl, refl, refl)

Reached-Sound_example : Sound first_released
Reached-Sound_example = Reached-Sound first_released (
    released (acquired (initialized zeros) 1 5 1 gets_first) 1 (omega arith) (omega arith)
      releases_first)
