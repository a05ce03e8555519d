-- ===== src/Bcache/Kept.antt =====
-- What `bget` and `brelse` make of a sound cache.
use mathlib.Core.Path.{subst}
use computer_organization_an.Common.{
  ℕ, suc, ◌≤◌, ◌<◌, ◌≡◌, ◌≢◌, sym, ap, ◌∙◌, inl, inr, true, false, Bool-cases, Option, none, some,
  List, [], ◌∷◌, ◌++◌, arith, ◌==◌, eq→==, ==_iff, All, length, length-append,
}
use computer_organization_an.Common.Outcome.{Outcome, ok}
use computer_organization_an.Bcache.{
  store_at, nbuf, Buf, Bcache, holds, Got, got, asleep, fresh_block, mark_busy, cached, brelse,
  bget,
}
use computer_organization_an.Bcache.Ring.{store_at_self, Ring}
use computer_organization_an.Bcache.Release.{brelse-Released}
use computer_organization_an.Bcache.Get.{First, fresh_block-First, search_from-First}
use computer_organization_an.Bcache.Unique.{
  count-front, holds-same, Unique, In, Complete, Sound, Unique-same, mark_busy-Sound, GotSound,
  recycled-Sound,
}

-- The marked buffer.
marked :
    (c : Bcache) (b dev sector : ℕ)
    → (((mark_busy c b).buf b).busy ≡ true)
      × (holds (mark_busy c b) dev sector b ≡ holds c dev sector b)
unfolding mark_busy
marked c b dev sector =
    let e = store_at_self c.buf b (record (c.buf b) { busy = true }) in
    (
      ap (λ (x : Buf). x.busy) e,
      holds-same c (record c { buf = store_at c.buf b (record (c.buf b) { busy = true }) }) dev
          sector b (ap (λ (x : Buf). x.dev) e) (ap (λ (x : Buf). x.sector) e),
    )

cached-Sound :
    (c : Bcache) (bs : List ℕ) (dev sector : ℕ) (after : Outcome Got) (o : Option ℕ)
    → Ring c bs
    → length bs ≤ nbuf
    → Complete bs
    → Unique c bs
    → First (holds c dev sector) bs o
    → GotSound dev sector after
    → GotSound dev sector (cached c dev sector after o)
unfolding cached fresh_block
cached-Sound c bs dev sector after none ring l complete u absent later =
    let (o, f, e) = fresh_block-First c bs dev sector ring l in
    rw e (recycled-Sound c bs dev sector o ring l complete u absent)
cached-Sound c bs dev sector after (some b) ring l complete u found later =
    elim (Bool-cases (c.buf b).busy) [ inl busy ↦ rw busy later | inr free ↦ rw free (taken found) ]
  where
    taken :
        First (holds c dev sector) bs (some b) → GotSound dev sector (ok (got b (mark_busy c b)))
    taken (front, back, split, all, t) = (
      mark_busy-Sound c b (bs, ring, l, complete, u),
      (marked c b dev sector).0,
      (marked c b dev sector).1 ∙ t,
    )

-- Whatever happens to the cache while a caller of `bget` sleeps, if it leaves every sound cache sound,
-- then the call does not fault, and the cache that it ends or sleeps in is sound; a buffer that it
-- returns is busy and holds the sector.
pub bget-Sound :
    (rounds : List (Bcache → Bcache)) (c : Bcache) (dev sector : ℕ)
    → All (λ round. (d : Bcache) → Sound d → Sound (round d)) rounds
    → Sound c
    → GotSound dev sector (bget rounds c dev sector)
unfolding bget
bget-Sound [] c dev sector keep (bs, ring, l, complete, u) =
    let (links, distinct, others) = ring in
    let (o, e, f) =
      search_from-First (suc nbuf) c.next c.prev (holds c dev sector) 0 bs (omega (arith, l)) others
        links in
    rw e (
      cached-Sound c bs dev sector (ok (asleep c)) o ring l complete u f (bs, ring, l, complete, u))
bget-Sound (round ∷ rounds) c dev sector (k, keep) (bs, ring, l, complete, u) =
    let (links, distinct, others) = ring in
    let (o, e, f) =
      search_from-First (suc nbuf) c.next c.prev (holds c dev sector) 0 bs (omega (arith, l)) others
        links in
    rw e (
      cached-Sound c bs dev sector (bget rounds (round c) dev sector) o ring l complete u f
        (bget-Sound rounds (round c) dev sector keep (k c (bs, ring, l, complete, u))))

In-split : (b : ℕ) (bs : List ℕ) → In b bs → (front back : List ℕ) × (bs ≡ front ++ b ∷ back)
In-split b [] i = absurd i
In-split b (x ∷ bs) (inl e) = ([], bs, ap (λ y. y ∷ bs) (sym e))
In-split b (x ∷ bs) (inr i) =
    let (front, back, e) = In-split b bs i in (x ∷ front, back, ap (λ l. x ∷ l) e)

In-front :
    (x : ℕ) (front : List ℕ) (b : ℕ) (back : List ℕ)
    → In x (front ++ b ∷ back)
    → In x (b ∷ front ++ back)
In-front x [] b back i = i
In-front x (d ∷ front) b back (inl e) = inr (inl e)
In-front x (d ∷ front) b back (inr i) = elim (In-front x front b back i) [
  | inl e ↦ inl e
  | inr j ↦ inr (inr j)
]

Unique-front :
    (c : Bcache) (front : List ℕ) (b : ℕ) (back : List ℕ)
    → Unique c (front ++ b ∷ back)
    → Unique c (b ∷ front ++ back)
Unique-front c front b back u dev sector n =
    omega (arith, u dev sector n, count-front (holds c dev sector) front b back)

-- `brelse` of a busy buffer keeps a sound cache sound.
pub brelse-Sound :
    (c : Bcache) (b : ℕ)
    → 0 < b
    → b ≤ nbuf
    → (c.buf b).busy ≡ true
    → Sound c
    → (c' : Bcache) × (brelse c b ≡ ok c') × Sound c'
brelse-Sound c b p l busy (bs, ring, len, complete, u) =
    let (front, back, split) = In-split b bs (complete b p l) in
    go front back (subst (λ bs. Ring c bs) split ring) (subst (λ bs. length bs ≤ nbuf) split len)
      (subst Complete split complete) (subst (λ bs. Unique c bs) split u)
  where
    go :
        (front back : List ℕ)
        → Ring c (front ++ b ∷ back)
        → length (front ++ b ∷ back) ≤ nbuf
        → Complete (front ++ b ∷ back)
        → Unique c (front ++ b ∷ back)
        → (c' : Bcache) × (brelse c b ≡ ok c') × Sound c'
    go front back ring len complete u =
        let (c', e, ring', self, others) = brelse-Released c front b back ring busy in
        (
          c',
          e,
          (
            b ∷ front ++ back,
            ring',
            omega (arith, len, length-append front (b ∷ back), length-append front back),
            λ x q r. In-front x front b back (complete x q r),
            Unique-same c c' (b ∷ front ++ back) (same c' self others)
                (Unique-front c front b back u),
          ),
        )
      where
        same :
            (c' : Bcache)
            → c'.buf b ≡ record (c.buf b) { busy = false }
            → ((a : ℕ) → b ≢ a → c'.buf a ≡ c.buf a)
            → (a : ℕ) → ((c'.buf a).dev ≡ (c.buf a).dev) × ((c'.buf a).sector ≡ (c.buf a).sector)
        same c' self others a = elim (Bool-cases (b == a)) [
          | inl s ↦
              subst (λ x. ((c'.buf x).dev ≡ (c.buf x).dev) × ((c'.buf x).sector ≡ (c.buf x).sector))
                ((==_iff b a).0 s) (ap (λ (x : Buf). x.dev) self, ap (λ (x : Buf). x.sector) self)
          | inr s ↦
              let e = others a (λ b_a. absurd (cc (eq→== b a b_a, s))) in
              (ap (λ (x : Buf). x.dev) e, ap (λ (x : Buf). x.sector) e)
        ]
