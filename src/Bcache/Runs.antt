-- ===== src/Bcache/Runs.antt =====
-- The states that the cache comes to, whatever the order of the calls. A call that sleeps leaves the
-- cache as it is and is made again later.
use mathlib.Core.Path.{subst}
use computer_organization_an.Common.{
  ℕ, zero, suc, ◌≤◌, ◌<◌, ◌≡◌, ◌≢◌, refl, sym, inl, inr, Bool, true, false, Bool-cases, List, [],
  ◌∷◌, arith, ◌==◌, ==_iff, All,
}
use computer_organization_an.Common.Outcome.{ok, panic}
use computer_organization_an.Bcache.{store_at, nbuf, Buf, Bcache, holds, got, binit, brelse, bget}
use computer_organization_an.Bcache.Release.{Unused, all_bufs, binit-Ring}
use computer_organization_an.Bcache.Unique.{
  count-none, In, Complete, Sound, Unique-same, store_at_field, GotSound,
}
use computer_organization_an.Bcache.Kept.{bget-Sound, brelse-Sound}

-- The cache after `binit`, and after a call that returns. `iderw` and `bwrite` set and clear the flags
-- `valid` and `dirty`; `brelse` has one of the buffers.
pub data Reached : Bcache → Type 0 where
  initialized : (c : Bcache) → Reached (binit c)
  acquired :
      {c c' : Bcache}
      → Reached c
      → (dev sector b : ℕ) → bget [] c dev sector ≡ ok (got b c')
      → Reached c'
  released :
      {c c' : Bcache} → Reached c → (b : ℕ) → 0 < b → b ≤ nbuf → brelse c b ≡ ok c' → Reached c'
  flagged :
      {c : Bcache}
      → Reached c
      → (b : ℕ) (valid dirty : Bool)
      → Reached
          (record c { buf = store_at c.buf b (record (c.buf b) { valid = valid; dirty = dirty }) })

abbrev down : ℕ → List ℕ
down zero = []
down (suc n) = suc n ∷ down n

down-In : (n b : ℕ) → 0 < b → b ≤ n → In b (down n)
down-In zero b p l = absurd (omega (arith, p, l))
down-In (suc n) b p l = elim (Bool-cases (b == suc n)) [
  | inl e ↦ inl ((==_iff b (suc n)).0 e)
  | inr e ↦ inr (down-In n b p (ground (arith, e, l)))
]

all_bufs-Complete : Complete all_bufs
all_bufs-Complete b p l = down-In 10 b p l

Unused-absent :
    (c : Bcache) (dev sector : ℕ) (bs : List ℕ)
    → dev ≢ 4294967295
    → All (Unused c) bs
    → All (λ b. holds c dev sector b ≡ false) bs
unfolding holds
Unused-absent c dev sector [] n all = tt
Unused-absent c dev sector (b ∷ bs) n (e, all) =
    (ground (arith, e, n), Unused-absent c dev sector bs n all)

binit-Sound : (c : Bcache) → Sound (binit c)
binit-Sound c =
    let (ring, all) = binit-Ring c in
    (
      all_bufs,
      ring,
      omega arith,
      all_bufs-Complete,
      λ dev sector n.
          let e =
            count-none (holds (binit c) dev sector) all_bufs
              (Unused-absent (binit c) dev sector all_bufs n all) in
          omega (arith, e),
    )

brelse-busy : (c c' : Bcache) (b : ℕ) → brelse c b ≡ ok c' → (c.buf b).busy ≡ true
unfolding brelse
brelse-busy c c' b e = elim (Bool-cases (c.buf b).busy) [
  | inl t ↦ t
  | inr f ↦ let stopped : panic ≡ ok c' = rw f at e in absurd (cc stopped)
]

-- In every state that the cache comes to, by any calls in any order, the links in both directions go
-- through all the buffers, each of them once, and no two buffers hold the same sector of a device
-- other than -1.
pub Reached-Sound : (c : Bcache) → Reached c → Sound c
Reached-Sound _ (initialized c) = binit-Sound c
Reached-Sound _ (acquired {c} {c'} r dev sector b e) =
    (subst (GotSound dev sector) e (bget-Sound [] c dev sector tt (Reached-Sound c r))).0
Reached-Sound _ (released {c} {c'} r b p l e) =
    let (d, e', s) = brelse-Sound c b p l (brelse-busy c c' b e) (Reached-Sound c r) in
    let same : d ≡ c' = cc (sym e', e) in subst Sound same s
Reached-Sound _ (flagged {c} r b valid dirty) =
    let (bs, ring, l, complete, u) = Reached-Sound c r in
    (
      bs,
      ring,
      l,
      complete,
      Unique-same c
          (record c { buf = store_at c.buf b (record (c.buf b) { valid = valid; dirty = dirty }) })
          bs
          (λ a. (
            store_at_field (λ (x : Buf). x.dev) c.buf b
                (record (c.buf b) { valid = valid; dirty = dirty }) a refl,
            store_at_field (λ (x : Buf). x.sector) c.buf b
                (record (c.buf b) { valid = valid; dirty = dirty }) a refl,
          ))
          u,
    )
