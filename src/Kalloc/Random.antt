-- ===== src/Kalloc/Random.antt =====
-- The allocator that draws its frames at random, xv6 Memory sub-system/part_b/kernel/kalloc.c. Its
-- state, `kfree` and `dump_allocated` are those of part_a.
mod Unlink
pub mod Draw
use computer_organization_an.Common.{
  ℕ, zero, suc, ◌+◌, ◌%◌, ◌≡◌, ◌≢◌, refl, List, [], ◌∷◌, ◌++◌, arith, ◌==◌, if◌then◌else◌, length,
}
use computer_organization_an.Common.Outcome.{Outcome, ok, panic, fault, ◌>>=◌}
use computer_organization_an.Kalloc.{Kmem, update, track}
use computer_organization_an.Rand.{xv6_rand}

-- while (r) { r = r->next; freesize++; }, on fuel.
pub count_free : ℕ → (ℕ → ℕ) → ℕ → ℕ → Outcome ℕ
count_free zero next r freesize = fault
count_free (suc fuel) next r freesize =
    let rest = count_free fuel next (next r) (suc freesize) in if r == 0 then ok freesize else rest

-- for (i = 0; i < y; i++) r = r->next
pub walk : ℕ → (ℕ → ℕ) → ℕ → Outcome ℕ
walk zero next r = ok r
walk (suc y) next r = let rest = walk y next (next r) in if r == 0 then fault else rest

-- while (rr != NULL) { if (rr->next == r) break; rr = rr->next; }, on fuel.
pub find_prev : ℕ → (ℕ → ℕ) → ℕ → ℕ → Outcome ℕ
find_prev zero next rr r = fault
find_prev (suc fuel) next rr r =
    let rest = find_prev fuel next (next rr) r in
    if rr == 0 then ok 0 else if next rr == r then ok rr else rest

-- rr->next = r->next for the `rr` before `r`, or a new head of the list.
pub unlink : ℕ → ℕ → Kmem → Outcome Kmem
unfolding find_prev update
unlink fuel r k = if k.freelist == r then ok (record k { freelist = k.next r }) else do
  rr ← find_prev fuel k.next k.freelist r
  if rr == 0 then fault else ok (record k { next = update k.next rr (k.next r) })

-- x % freesize: the processor traps on a division by zero.
pub choose : ℕ → ℕ → Outcome ℕ
choose x freesize = if freesize == 0 then fault else ok (x % freesize)

-- `a` is the generator's state. The loops over the free list have fuel for a list that the table
-- of frames has room for.
pub kalloc_random : ℕ → Kmem → Outcome (ℕ × ℕ × Kmem)
kalloc_random a k = do
  let fuel = suc (length k.alloc_list)
  let x = xv6_rand a
  freesize ← count_free fuel k.next k.freelist 0
  y ← choose x freesize
  r ← walk y k.next k.freelist
  if r == 0 then ok (0, x, k) else do k' ← track r k; k'' ← unlink fuel r k'; ok (r, x, k'')
