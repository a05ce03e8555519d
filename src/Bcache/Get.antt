-- ===== src/Bcache/Get.antt =====
-- The two searches of `bget`, and which buffer it returns.
use computer_organization_an.Common.{
  ℕ, zero, suc, ◌≤◌, ◌<◌, ◌≡◌, ◌≢◌, ◌⊎◌, refl, sym, ap, inl, inr, Bool, true, false, Bool-cases,
  Option, none, some, List, [], ◌∷◌, ◌++◌, arith, ◌==◌, eq→==, ne→==, All, All-append, length,
  length-append,
}
use computer_organization_an.Common.Outcome.{Outcome, ok, panic}
use computer_organization_an.Bcache.{
  store_at, nbuf, Buf, Bcache, holds, search_from, Got, got, asleep, is_idle, recycled, fresh_block,
  mark_busy, cached, bget,
}
use computer_organization_an.Bcache.Ring.{Linked, Ring}

-- What a search of a list for the first number that passes a test finds.
abbrev pub First : (ℕ → Bool) → List ℕ → Option ℕ → Type 0
First test bs none = All (λ b. test b ≡ false) bs
First test bs (some b) =
    (front back : List ℕ) × (bs ≡ front ++ b ∷ back)
    × All (λ x. test x ≡ false) front
    × (test b ≡ true)

First-cons :
    (test : ℕ → Bool) (b : ℕ) (bs : List ℕ) (o : Option ℕ)
    → test b ≡ false
    → First test bs o
    → First test (b ∷ bs) o
First-cons test b bs none e all = (e, all)
First-cons test b bs (some x) e (front, back, split, all, t) =
    (b ∷ front, back, ap (λ l. b ∷ l) split, (e, all), t)

pub search_from-First :
    (n : ℕ) (next prev : ℕ → ℕ) (test : ℕ → Bool) (a : ℕ) (bs : List ℕ)
    → length bs < n
    → All (λ b. 0 ≢ b) bs
    → Linked next prev a bs 0
    → (o : Option ℕ) × (search_from n next test (next a) ≡ ok o) × First test bs o
unfolding search_from
search_from-First zero next prev test a bs l others links = absurd (omega (arith, l))
search_from-First (suc n) next prev test a [] l others (h, k) = (none, rw h refl, tt)
search_from-First (suc n) next prev test a (b ∷ bs) l (o_b, others) (h, k, links) =
    let (o, e, f) = search_from-First n next prev test b bs (omega (arith, l)) others links in
    let some_b : (b == 0) ≡ false = ne→== b 0 (λ z. o_b (sym z)) in
    elim (Bool-cases (test b)) [
      | inl t ↦ (some b, rw (h, some_b, t) refl, ([], bs, refl, tt, t))
      | inr t ↦ (o, rw (h, some_b, t, e) refl, First-cons test b bs o t f)
    ]

abbrev pub reversed : List ℕ → List ℕ
reversed [] = []
reversed (b ∷ bs) = reversed bs ++ b ∷ []

Linked-snoc :
    (next prev : ℕ → ℕ) (a : ℕ) (bs : List ℕ) (b q : ℕ)
    → Linked next prev a bs b
    → next b ≡ q
    → prev q ≡ b
    → Linked next prev a (bs ++ b ∷ []) q
Linked-snoc next prev a [] b q (h, k) n p = (h, k, (n, p))
Linked-snoc next prev a (d ∷ bs) b q (h, k, l) n p = (h, k, Linked-snoc next prev d bs b q l n p)

-- The other links lead through the list in its reverse order.
Linked-reversed :
    (next prev : ℕ → ℕ) (a : ℕ) (bs : List ℕ) (q : ℕ)
    → Linked next prev a bs q
    → Linked prev next q (reversed bs) a
Linked-reversed next prev a [] q (h, k) = (k, h)
Linked-reversed next prev a (b ∷ bs) q (h, k, l) =
    Linked-snoc prev next q (reversed bs) b a (Linked-reversed next prev b bs q l) k h

All-reversed : (P : ℕ → Type 0) (bs : List ℕ) → All P bs → All P (reversed bs)
All-reversed P [] all = tt
All-reversed P (b ∷ bs) (p, all) =
    All-append P (reversed bs) (b ∷ []) (All-reversed P bs all) (p, tt)

length-reversed : (bs : List ℕ) → length (reversed bs) ≡ length bs
length-reversed [] = refl
length-reversed (b ∷ bs) = omega (arith, length-append (reversed bs) (b ∷ []), length-reversed bs)

-- How `bget` ends by what the searches found; a search by `prev` goes through the reversed list.
-- Buffer `b` becomes `buf`; the other buffers and the links stay.
abbrev pub Changed : Bcache → ℕ → Buf → Bcache → Type 0
Changed c b buf c' =
    (c'.buf b ≡ buf)
    × ((x : ℕ) → x ≢ b → c'.buf x ≡ c.buf x)
    × (c'.next ≡ c.next)
    × (c'.prev ≡ c.prev)

-- The idle buffer that was found, if one was, is busy with the sector, which is still to be read.
abbrev pub Given : Bcache → ℕ → ℕ → Option ℕ → Outcome Got → Type 0
Given c dev sector none r = r ≡ panic
Given c dev sector (some b) r =
    (c' : Bcache) × (r ≡ ok (got b c'))
    × Changed c b (record { busy = true; valid = false; dirty = false; dev = dev; sector = sector })
        c'

abbrev pub Fresh : Bcache → List ℕ → ℕ → ℕ → Option ℕ → Outcome Got → Type 0
Fresh c bs dev sector o r = First (is_idle c) (reversed bs) o × Given c dev sector o r

store_at-Changed :
    (c : Bcache) (b : ℕ) (buf : Buf) → Changed c b buf (record c { buf = store_at c.buf b buf })
unfolding store_at
store_at-Changed c b buf = (rw (eq→== b b refl) refl, λ x n. rw (ne→== x b n) refl, refl, refl)

recycled-Given :
    (c : Bcache) (dev sector : ℕ) (o : Option ℕ) → Given c dev sector o (recycled c dev sector o)
unfolding recycled
recycled-Given c dev sector none = refl
recycled-Given c dev sector (some b) =
    let buf : Buf = record {
      busy = true;
      valid = false;
      dirty = false;
      dev = dev;
      sector = sector;
    } in
    (record c { buf = store_at c.buf b buf }, refl, store_at-Changed c b buf)

abbrev pub Chosen : Bcache → List ℕ → ℕ → ℕ → Outcome Got → Option ℕ → Outcome Got → Type 0
Chosen c bs dev sector after none r = (o : Option ℕ) × Fresh c bs dev sector o r
Chosen c bs dev sector after (some b) r =
    ((c.buf b).busy ≡ true) × (r ≡ after)
    ⊎ ((c.buf b).busy ≡ false)
      × ((c' : Bcache) × (r ≡ ok (got b c')) × Changed c b (record (c.buf b) { busy = true }) c')

pub fresh_block-First :
    (c : Bcache) (bs : List ℕ) (dev sector : ℕ)
    → Ring c bs
    → length bs ≤ nbuf
    → (o : Option ℕ) × First (is_idle c) (reversed bs) o
      × (fresh_block c dev sector ≡ recycled c dev sector o)
unfolding fresh_block
fresh_block-First c bs dev sector (links, distinct, others) l =
    let (o, e, f) =
      search_from-First (suc nbuf) c.prev c.next (is_idle c) 0 (reversed bs)
        (omega (arith, l, length-reversed bs)) (All-reversed (λ b. 0 ≢ b) bs others)
        (Linked-reversed c.next c.prev 0 bs 0 links) in
    (o, f, rw e refl)

cached-Chosen :
    (c : Bcache) (bs : List ℕ) (dev sector : ℕ) (after : Outcome Got) (o : Option ℕ)
    → Ring c bs
    → length bs ≤ nbuf
    → Chosen c bs dev sector after o (cached c dev sector after o)
unfolding cached mark_busy
cached-Chosen c bs dev sector after none ring l =
    let (o, f, e) = fresh_block-First c bs dev sector ring l in
    (o, (f, rw e (recycled-Given c dev sector o)))
cached-Chosen c bs dev sector after (some b) ring l = elim (Bool-cases (c.buf b).busy) [
  | inl busy ↦ inl (busy, rw busy refl)
  | inr free ↦
      inr (
        free,
        (mark_busy c b, rw free refl, store_at-Changed c b (record (c.buf b) { busy = true })),
      )
]

-- In a ring of at most as many buffers as there are, `bget` takes the first buffer that holds the
-- sector, if there is one: busy, the caller sleeps, and else it becomes busy and is returned. With
-- none, the last buffer of the ring that is not busy is returned: busy, with the sector and neither
-- valid nor dirty; if all are busy, `bget` panics. The other buffers and the links stay.
pub bget-Chosen :
    (c : Bcache) (bs : List ℕ) (dev sector : ℕ)
    → Ring c bs
    → length bs ≤ nbuf
    → (o : Option ℕ) × First (holds c dev sector) bs o
      × Chosen c bs dev sector (ok (asleep c)) o (bget [] c dev sector)
unfolding bget
bget-Chosen c bs dev sector ring l =
    let (links, distinct, others) = ring in
    let (o, e, f) =
      search_from-First (suc nbuf) c.next c.prev (holds c dev sector) 0 bs (omega (arith, l)) others
        links in
    (o, f, rw e (cached-Chosen c bs dev sector (ok (asleep c)) o ring l))
