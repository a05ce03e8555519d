-- ===== src/Bcache/Unique.antt =====
-- No sector is in the cache twice.
use mathlib.Core.Path.{subst}
use computer_organization_an.Common.{
  ℕ, ◌+◌, ◌≤◌, ◌<◌, ◌≡◌, ◌≢◌, ◌⊎◌, refl, sym, ap, ◌∙◌, inl, inr, Bool, true, false, ◌&&◌,
  Bool-cases, Option, none, some, List, [], ◌∷◌, ◌++◌, arith, ◌==◌, eq→==, ==_iff, if◌then◌else◌,
  All, All-mono, Distinct, length,
}
use computer_organization_an.Common.Outcome.{Outcome, ok, panic, fault}
use computer_organization_an.Bcache.{
  store_at, nbuf, Buf, Bcache, holds, Got, got, asleep, recycled, mark_busy,
}
use computer_organization_an.Bcache.Ring.{store_at_self, store_at_ne, Ring}

abbrev pub count : (ℕ → Bool) → List ℕ → ℕ
count test [] = 0
count test (b ∷ bs) = (if test b then 1 else 0) + count test bs

pub count-ext : (t u : ℕ → Bool) (bs : List ℕ) → All (λ b. t b ≡ u b) bs → count t bs ≡ count u bs
count-ext t u [] all = refl
count-ext t u (b ∷ bs) (e, all) = let rest = count-ext t u bs all in rw e (omega (arith, rest))

pub count-none : (t : ℕ → Bool) (bs : List ℕ) → All (λ b. t b ≡ false) bs → count t bs ≡ 0
count-none t [] all = refl
count-none t (b ∷ bs) (e, all) = rw e (omega (arith, count-none t bs all))

pub count-front :
    (t : ℕ → Bool) (front : List ℕ) (b : ℕ) (back : List ℕ)
    → count t (b ∷ front ++ back) ≡ count t (front ++ b ∷ back)
count-front t [] b back = refl
count-front t (d ∷ front) b back = omega (arith, count-front t front b back)

-- No two buffers hold the same sector of a device other than -1.
abbrev pub Unique : Bcache → List ℕ → Type 0
Unique c bs = (dev sector : ℕ) → dev ≢ 4294967295 → count (holds c dev sector) bs ≤ 1

abbrev pub In : ℕ → List ℕ → Type 0
In b [] = ⊥
In b (x ∷ xs) = (b ≡ x) ⊎ In b xs

-- All the buffers are there.
abbrev pub Complete : List ℕ → Type 0
Complete bs = (b : ℕ) → 0 < b → b ≤ nbuf → In b bs

-- A ring of the buffers in which no sector is twice.
abbrev pub Sound : Bcache → Type 0
Sound c = (bs : List ℕ) × Ring c bs × (length bs ≤ nbuf) × Complete bs × Unique c bs

-- Buffers with the same device and sector hold the same sectors.
pub holds-same :
    (c c' : Bcache) (dev sector b : ℕ)
    → (c'.buf b).dev ≡ (c.buf b).dev
    → (c'.buf b).sector ≡ (c.buf b).sector
    → holds c' dev sector b ≡ holds c dev sector b
unfolding holds
holds-same c c' dev sector b d s = rw (d, s) refl

pub Unique-same :
    (c c' : Bcache) (bs : List ℕ)
    → ((b : ℕ) → ((c'.buf b).dev ≡ (c.buf b).dev) × ((c'.buf b).sector ≡ (c.buf b).sector))
    → Unique c bs
    → Unique c' bs
Unique-same c c' bs same u dev sector n =
    let e = count-ext (holds c' dev sector) (holds c dev sector) bs (every bs) in
    omega (arith, e, u dev sector n)
  where
    every : (bs : List ℕ) → All (λ b. holds c' dev sector b ≡ holds c dev sector b) bs
    every [] = tt
    every (b ∷ bs) = (holds-same c c' dev sector b (same b).0 (same b).1, every bs)

-- A field that a store leaves as it is.
pub store_at_field :
    {A : Type 0} (g : Buf → A) (f : ℕ → Buf) (p : ℕ) (v : Buf) (a : ℕ)
    → g v ≡ g (f p)
    → g (store_at f p v a) ≡ g (f a)
unfolding store_at
store_at_field g f p v a e = elim (Bool-cases (a == p)) [
  | inl s ↦ let a_p : a ≡ p = (==_iff a p).0 s in rw s (e ∙ ap (λ x. g (f x)) (sym a_p))
  | inr s ↦ rw s refl
]

pub mark_busy-Sound : (c : Bcache) (b : ℕ) → Sound c → Sound (mark_busy c b)
unfolding mark_busy
mark_busy-Sound c b (bs, ring, l, complete, u) = (
  bs,
  ring,
  l,
  complete,
  Unique-same c (record c { buf = store_at c.buf b (record (c.buf b) { busy = true }) }) bs
      (λ a. (
        store_at_field (λ (x : Buf). x.dev) c.buf b (record (c.buf b) { busy = true }) a refl,
        store_at_field (λ (x : Buf). x.sector) c.buf b (record (c.buf b) { busy = true }) a refl,
      ))
      u,
)

-- The sector that a buffer is given to was in no other one.
holds_self :
    (c : Bcache) (b : ℕ) (v : Buf) (dev sector : ℕ)
    → holds (record c { buf = store_at c.buf b v }) dev sector b
      ≡ (v.dev == dev && v.sector == sector)
unfolding holds
holds_self c b v dev sector =
    let e = store_at_self c.buf b v in
    rw (ap (λ (x : Buf). x.dev) e, ap (λ (x : Buf). x.sector) e) refl

holds-ne :
    (c : Bcache) (b : ℕ) (v : Buf) (dev sector : ℕ) (bs : List ℕ)
    → All (λ x. b ≢ x) bs
    → All
        (λ x. holds (record c { buf = store_at c.buf b v }) dev sector x ≡ holds c dev sector x)
        bs
holds-ne c b v dev sector bs away =
    All-mono (λ x. b ≢ x)
      (λ x. holds (record c { buf = store_at c.buf b v }) dev sector x ≡ holds c dev sector x) bs
      (λ x. λ n.
        let e = store_at_ne c.buf b v x n in
        holds-same c (record c { buf = store_at c.buf b v }) dev sector x
          (ap (λ (y : Buf). y.dev) e) (ap (λ (y : Buf). y.sector) e))
      away

-- Behind a store to the first buffer.
count-store_first :
    (c : Bcache) (b : ℕ) (v : Buf) (dev sector : ℕ) (bs : List ℕ)
    → All (λ x. b ≢ x) bs
    → count (holds (record c { buf = store_at c.buf b v }) dev sector) (b ∷ bs)
      ≤ (if v.dev == dev && v.sector == sector then 1 else 0) + count (holds c dev sector) (b ∷ bs)
count-store_first c b v dev sector bs away =
    let rest =
      count-ext (holds (record c { buf = store_at c.buf b v }) dev sector) (holds c dev sector) bs
        (holds-ne c b v dev sector bs away) in
    rw (holds_self c b v dev sector) (omega (arith, rest))

count-store :
    (c : Bcache) (b : ℕ) (v : Buf) (dev sector : ℕ) (bs : List ℕ)
    → Distinct bs
    → count (holds (record c { buf = store_at c.buf b v }) dev sector) bs
      ≤ (if v.dev == dev && v.sector == sector then 1 else 0) + count (holds c dev sector) bs
count-store c b v dev sector [] distinct = omega arith
count-store c b v dev sector (x ∷ bs) (x_bs, distinct) = elim (Bool-cases (b == x)) [
  | inl s ↦
      let b_x : b ≡ x = (==_iff b x).0 s in
      subst
        (λ y.
          count (holds (record c { buf = store_at c.buf b v }) dev sector) (y ∷ bs)
          ≤ (if v.dev == dev && v.sector == sector then 1 else 0)
            + count (holds c dev sector) (y ∷ bs))
        b_x
        (count-store_first c b v dev sector bs (subst (λ y. All (λ z. y ≢ z) bs) (sym b_x) x_bs))
  | inr s ↦
      let b_x : b ≢ x = λ e. absurd (cc (eq→== b x e, s)) in
      let (same, _) = holds-ne c b v dev sector (x ∷ []) (b_x, tt) in
      let rest = count-store c b v dev sector bs distinct in rw same (omega (arith, rest))
]

-- The buffer that a search finds is given to a sector that no buffer of the ring holds.
recycled-Unique :
    (c : Bcache) (bs : List ℕ) (b : ℕ) (v : Buf)
    → Distinct bs
    → All (λ x. holds c v.dev v.sector x ≡ false) bs
    → Unique c bs
    → Unique (record c { buf = store_at c.buf b v }) bs
recycled-Unique c bs b v distinct absent u dev sector n =
    elim (Bool-cases (v.dev == dev && v.sector == sector)) [
      | inl s ↦
          let d : v.dev ≡ dev = ground (arith, s) in
          let e : v.sector ≡ sector = ground (arith, s) in
          let zero_before : count (holds c dev sector) bs ≡ 0 =
            rw (d, e) at (count-none (holds c v.dev v.sector) bs absent) in
          let more : count (holds (record c { buf = store_at c.buf b v }) dev sector) bs
              ≤ 1 + count (holds c dev sector) bs =
            rw s at (count-store c b v dev sector bs distinct) in
          omega (arith, more, zero_before)
      | inr s ↦
          let more : count (holds (record c { buf = store_at c.buf b v }) dev sector) bs
              ≤ 0 + count (holds c dev sector) bs =
            rw s at (count-store c b v dev sector bs distinct) in
          omega (arith, more, u dev sector n)
    ]

-- How a call of `bget` may end.
abbrev pub GotSound : ℕ → ℕ → Outcome Got → Type 0
GotSound dev sector fault = ⊥
GotSound dev sector panic = Unit
GotSound dev sector (ok (asleep c)) = Sound c
GotSound dev sector (ok (got b c)) =
    Sound c × ((c.buf b).busy ≡ true) × (holds c dev sector b ≡ true)

pub recycled-Sound :
    (c : Bcache) (bs : List ℕ) (dev sector : ℕ) (o : Option ℕ)
    → Ring c bs
    → length bs ≤ nbuf
    → Complete bs
    → Unique c bs
    → All (λ b. holds c dev sector b ≡ false) bs
    → GotSound dev sector (recycled c dev sector o)
unfolding recycled
recycled-Sound c bs dev sector none ring l complete u absent = tt
recycled-Sound c bs dev sector (some b) ring l complete u absent =
    let (links, distinct, others) = ring in
    let v : Buf = record {
      busy = true;
      valid = false;
      dirty = false;
      dev = dev;
      sector = sector;
    } in
    let whole : (dev == dev && sector == sector) ≡ true =
      rw (eq→== dev dev refl, eq→== sector sector refl) refl in
    (
      (bs, ring, l, complete, recycled-Unique c bs b v distinct absent u),
      ap (λ (x : Buf). x.busy) (store_at_self c.buf b v),
      holds_self c b v dev sector ∙ whole,
    )
