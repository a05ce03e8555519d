-- ===== src/Bcache/Release.antt =====
-- The ring under `binit` and `brelse`.
use computer_organization_an.Common.{
  ℕ, zero, suc, ◌<◌, ◌≡◌, ◌≢◌, refl, sym, ap, ◌∙◌, true, false, List, [], ◌∷◌, ◌++◌, arith, All,
  All-append, All-mono, Distinct,
}
use computer_organization_an.Common.Outcome.{Outcome, ok}
use computer_organization_an.Bcache.{
  store_at, nbuf, Buf, Bcache, link_first, add_buf, binit_loop, binit, unlink_buf, brelse,
}
use computer_organization_an.Bcache.Ring.{
  store_at_self, store_at_ne, All-split, Ring, unlink_buf-Ring, Linked-link_first,
}

Distinct-remove :
    (front : List ℕ) (b : ℕ) (back : List ℕ)
    → Distinct (front ++ b ∷ back)
    → Distinct (b ∷ front ++ back)
Distinct-remove [] b back distinct = distinct
Distinct-remove (d ∷ front) b back (d_rest, distinct) =
    let (d_front, (d_b, d_back)) = All-split (λ x. d ≢ x) front b back d_rest in
    let (b_rest, rest) = Distinct-remove front b back distinct in
    (((λ e. d_b (sym e)), b_rest), (All-append (λ x. d ≢ x) front back d_front d_back, rest))

link_first-Ring :
    (c : Bcache) (b : ℕ) (bs : List ℕ)
    → 0 ≢ b
    → All (λ x. b ≢ x) bs
    → Ring c bs
    → Ring (link_first c b) (b ∷ bs)
link_first-Ring c b bs n away (links, distinct, others) =
    (Linked-link_first c b bs n away distinct others links, (away, distinct), (n, others))

-- What `brelse` does to the list of buffers and to their flags.
abbrev pub Released : Bcache → List ℕ → ℕ → List ℕ → Outcome Bcache → Type 0
Released c front b back r =
    (c' : Bcache) × (r ≡ ok c')
    × Ring c' (b ∷ front ++ back)
    × (c'.buf b ≡ record (c.buf b) { busy = false })
    × ((a : ℕ) → b ≢ a → c'.buf a ≡ c.buf a)

link_first-buf : (c : Bcache) (b : ℕ) → (link_first c b).buf ≡ c.buf
unfolding link_first
link_first-buf c b = refl

unlink_buf-buf : (c : Bcache) (b : ℕ) → (unlink_buf c b).buf ≡ c.buf
unfolding unlink_buf
unlink_buf-buf c b = refl

-- `brelse` of a busy buffer that stands anywhere in the ring moves it to the front of the ring, keeps
-- the order of the others, and clears its busy flag; the other buffers stay as they are.
pub brelse-Released :
    (c : Bcache) (front : List ℕ) (b : ℕ) (back : List ℕ)
    → Ring c (front ++ b ∷ back)
    → (c.buf b).busy ≡ true
    → Released c front b back (brelse c b)
unfolding brelse
brelse-Released c front b back ring busy =
    let (links, distinct, others) = ring in
    let (away, rest) = Distinct-remove front b back distinct in
    let (o_front, (o_b, o_back)) = All-split (λ x. 0 ≢ x) front b back others in
    let o_rest = All-append (λ x. 0 ≢ x) front back o_front o_back in
    let ring' : Ring (link_first (unlink_buf c b) b) (b ∷ front ++ back) =
      link_first-Ring (unlink_buf c b) b (front ++ back) o_b away
        (unlink_buf-Ring c front b back ring, rest, o_rest) in
    let same : (link_first (unlink_buf c b) b).buf ≡ c.buf =
      link_first-buf (unlink_buf c b) b ∙ unlink_buf-buf c b in
    let c' : Bcache = link_first (unlink_buf c b) b in
    (
      record c' { buf = store_at c'.buf b (record (c'.buf b) { busy = false }) },
      rw busy refl,
      ring',
      store_at_self c'.buf b (record (c'.buf b) { busy = false })
          ∙ ap (λ (f : ℕ → Buf). record (f b) { busy = false }) same,
      λ a n.
          store_at_ne c'.buf b (record (c'.buf b) { busy = false }) a n
          ∙ ap (λ (f : ℕ → Buf). f a) same,
    )

-- The list behind `n` rounds from `b` on.
abbrev added : ℕ → ℕ → List ℕ → List ℕ
added zero b bs = bs
added (suc n) b bs = added n (suc b) (b ∷ bs)

add_buf-Ring :
    (c : Bcache) (b : ℕ) (bs : List ℕ)
    → 0 ≢ b
    → All (λ x. b ≢ x) bs
    → Ring c bs
    → Ring (add_buf c b) (b ∷ bs)
unfolding add_buf
add_buf-Ring c b bs n away ring =
    link_first-Ring (record c { buf = store_at c.buf b (record (c.buf b) { dev = 4294967295 }) }) b
      bs n away ring

-- `dev` is -1.
abbrev pub Unused : Bcache → ℕ → Type 0
Unused c b = (c.buf b).dev ≡ 4294967295

add_buf-Unused :
    (c : Bcache) (b : ℕ) (bs : List ℕ)
    → All (λ x. b ≢ x) bs
    → All (Unused c) bs
    → All (Unused (add_buf c b)) (b ∷ bs)
unfolding add_buf link_first
add_buf-Unused c b bs away all = (
  ap (λ (x : Buf). x.dev) (store_at_self c.buf b (record (c.buf b) { dev = 4294967295 })),
  kept bs away all,
)
  where
    kept :
        (bs : List ℕ)
        → All (λ x. b ≢ x) bs
        → All (Unused c) bs
        → All
            (Unused (record c { buf = store_at c.buf b (record (c.buf b) { dev = 4294967295 }) }))
            bs
    kept [] away all = tt
    kept (x ∷ bs) (b_x, away) (u, all) = (
      ap (λ (y : Buf). y.dev) (store_at_ne c.buf b (record (c.buf b) { dev = 4294967295 }) x b_x)
          ∙ u,
      kept bs away all,
    )

binit_loop-Ring :
    (n b : ℕ) (c : Bcache) (bs : List ℕ)
    → 0 < b
    → All (λ x. x < b) bs
    → Ring c bs
    → All (Unused c) bs
    → Ring (binit_loop n b c) (added n b bs) × All (Unused (binit_loop n b c)) (added n b bs)
unfolding binit_loop
binit_loop-Ring zero b c bs p below ring all = (ring, all)
binit_loop-Ring (suc n) b c bs p below ring all =
    let away =
      All-mono (λ x. x < b) (λ x. b ≢ x) bs (λ x. λ h e. absurd (omega (arith, h, e))) below in
    binit_loop-Ring n (suc b) (add_buf c b) (b ∷ bs) (omega arith)
      (omega arith, All-mono (λ x. x < b) (λ x. x < suc b) bs (λ x. λ h. omega (arith, h)) below)
      (add_buf-Ring c b bs (λ e. absurd (omega (arith, p, e))) away ring)
      (add_buf-Unused c b bs away all)

-- The buffers, the last of the array first.
abbrev pub all_bufs : List ℕ
all_bufs = 10 ∷ 9 ∷ 8 ∷ 7 ∷ 6 ∷ 5 ∷ 4 ∷ 3 ∷ 2 ∷ 1 ∷ []

-- Whatever the memory held, after `binit` the ring has all the buffers, the last of the array first,
-- and none of them belongs to a device.
pub binit-Ring : (c : Bcache) → Ring (binit c) all_bufs × All (Unused (binit c)) all_bufs
unfolding binit
binit-Ring c =
    binit_loop-Ring nbuf 1 (record c { prev = store_at c.prev 0 0; next = store_at c.next 0 0 }) []
      (omega arith) tt ((store_at_self c.next 0 0, store_at_self c.prev 0 0), tt, tt) tt
