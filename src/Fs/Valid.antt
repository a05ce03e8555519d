-- ===== src/Fs/Valid.antt =====
-- What makes a disk sound: the bitmap marks everything that is not a free block of data, and free
-- blocks are zero.
use mathlib.Core.Path.{subst}
use computer_organization_an.Common.{
  ℕ, zero, suc, ◌+◌, ◌*◌, ◌/◌, ◌^◌, ◌≤◌, ◌<◌, ◌≡◌, ◌≢◌, refl, sym, ap, ◌∙◌, inl, inr, Bool, true,
  false, Bool-cases, arith, ltb, ◌==◌, eq→==, ne→==, if◌then◌else◌,
}
use computer_organization_an.Common.Outcome.{Outcome, ok, panic, fault}
use computer_organization_an.Fs.{Block, Disk, bwrite, Superblock, readsb, balloc}
use computer_organization_an.Fs.Bitmap.{
  bwrite_ne, Bytes, unmarked, BytesDisk, bwrite-BytesDisk, readsb-bwrite,
}
use computer_organization_an.Fs.Alloc.{
  Flipped, InBitmap, data_start, bit_block_lt, Allocated, balloc-Allocated,
}
use computer_organization_an.Fs.Release.{unmarked-bwrite}

pub record DiskOk (d : Disk) : Type 0 where
  pub bytes : BytesDisk d
  pub small : (readsb d).size ≤ 2 ^ 31
  pub free_data : (x : ℕ) → InBitmap d x → unmarked d x ≡ true → data_start d ≤ x
  pub free_zero : (x o : ℕ) → InBitmap d x → unmarked d x ≡ true → d x o ≡ 0

-- A block of data that is in use.
abbrev pub Owned : Disk → ℕ → Type 0
Owned d a = InBitmap d a × (unmarked d a ≡ false) × (data_start d ≤ a)

-- The free blocks below `n`.
abbrev pub count_free : Disk → ℕ → ℕ
count_free d zero = 0
count_free d (suc n) = (if unmarked d n then 1 else 0) + count_free d n

-- At least `k` blocks of the device are free.
abbrev pub Room : Disk → ℕ → Type 0
Room d k = k ≤ count_free d (readsb d).size

-- The same superblock, and blocks in use stay in use.
abbrev pub Keeps : Disk → Disk → Type 0
Keeps d d' = (readsb d' ≡ readsb d) × ((a : ℕ) → Owned d a → Owned d' a)

below_bits : (d : Disk) (x : ℕ) → x < (readsb d).size → InBitmap d x
below_bits d x l = omega (arith, l)

count_free-full : (d : Disk) (n : ℕ) → ((x : ℕ) → x < n → unmarked d x ≡ false) → count_free d n ≡ 0
count_free-full d zero h = refl
count_free-full d (suc n) h =
    rw (h n (omega arith)) (omega (arith, count_free-full d n (λ x l. h x (omega (arith, l)))))

count_free-flip :
    (d d' : Disk) (b n : ℕ)
    → ((x : ℕ) → unmarked d' x ≡ (if x == b then false else unmarked d x))
    → count_free d n ≤ count_free d' n + (if ltb b n then 1 else 0)
count_free-flip d d' b zero h = omega arith
count_free-flip d d' b (suc n) h =
    let rest = count_free-flip d d' b n h in
    elim (Bool-cases (n == b)) [
      | inl s ↦
          let now : unmarked d' n ≡ false = h n ∙ rw s refl in
          let before : ltb b n ≡ false = ground (arith, s) in
          let after : ltb b (suc n) ≡ true = ground (arith, s) in
          let rest' : count_free d n ≤ count_free d' n + 0 = rw before at rest in
          rw (now, after) (omega (arith, rest', if_le (unmarked d n)))
      | inr s ↦
          let now : unmarked d' n ≡ unmarked d n = h n ∙ rw s refl in
          let after : ltb b (suc n) ≡ ltb b n = ground (arith, s) in
          rw (now, after) (omega (arith, rest))
    ]
  where
    if_le : (t : Bool) → (if t then 1 else 0) ≤ 1
    if_le true = omega arith
    if_le false = omega arith

count_free-ext :
    (d d' : Disk) (n : ℕ)
    → ((x : ℕ) → x < n → unmarked d' x ≡ unmarked d x)
    → count_free d' n ≡ count_free d n
count_free-ext d d' zero h = refl
count_free-ext d d' (suc n) h =
    rw (h n (omega arith)) (omega (arith, count_free-ext d d' n (λ x l. h x (omega (arith, l)))))

-- What `balloc` gives on a sound disk with a free block.
pub record Fresh (d : Disk) (b : ℕ) (d' : Disk) : Type 0 where
  pub sound : DiskOk d'
  pub keeps : Keeps d d'
  pub same : (a : ℕ) → Owned d a → d' a ≡ d a
  pub owned : Owned d' b
  pub new : (a : ℕ) → Owned d a → a ≢ b
  pub zeros : (o : ℕ) → d' b o ≡ 0
  pub nonzero : b ≢ 0
  pub word_size : b < 2 ^ 32

pub sb-start : (d d' : Disk) → readsb d' ≡ readsb d → data_start d' ≡ data_start d
sb-start d d' e = ap (λ (s : Superblock). s.ninodes / 8 + s.size / 4096 + 4) e

pub InBitmap-sb : (d d' : Disk) (x : ℕ) → readsb d' ≡ readsb d → InBitmap d x → InBitmap d' x
InBitmap-sb d d' x e l = subst (λ (s : Superblock). 4096 * (x / 4096) < s.size) (sym e) l

Fresh-flip :
    (d : Disk) (b : ℕ) (d' : Disk)
    → DiskOk d
    → InBitmap d b
    → unmarked d b ≡ true
    → Flipped d b false d'
    → Fresh d b d'
Fresh-flip d b d' v in_b free (flip, sb, same, bytes) =
    let start : data_start d' ≡ data_start d = sb-start d d' sb in
    let bit_l = bit_block_lt d b in_b in
    let away : (a : ℕ) → data_start d ≤ a → d' a ≡ d a =
      λ a l. same a (λ e. absurd (omega (arith, e, l, bit_l))) in
    let before : (x : ℕ) → unmarked d' x ≡ true → unmarked d x ≡ true = λ x f. still x f (flip x) in
    let b_start = v.free_data b in_b free in
    record {
      sound = record {
        bytes = bytes;
        small = subst (λ (s : Superblock). s.size ≤ 2 ^ 31) (sym sb) v.small;
        free_data = λ x l f.
            let p = v.free_data x (InBitmap-sb d' d x (sym sb) l) (before x f) in
            omega (arith, p, start);
        free_zero = λ x o l f.
            let l' = InBitmap-sb d' d x (sym sb) l in
            ap (λ (t : Block). t o) (away x (v.free_data x l' (before x f)))
            ∙ v.free_zero x o l' (before x f);
      };
      keeps = (
        sb,
        λ a. λ (l, f, p). (
          InBitmap-sb d d' a sb l,
          flip a ∙ rw (ne→== a b (λ e. absurd (cc (f, free, e)))) f,
          omega (arith, p, start),
        ),
      );
      same = λ a. λ (l, f, p). away a p;
      owned = (
        InBitmap-sb d d' b sb in_b,
        flip b ∙ rw (eq→== b b refl) refl,
        omega (arith, b_start, start),
      );
      new = λ a. λ (l, f, p) e. absurd (cc (f, free, e));
      zeros = λ o. ap (λ (t : Block). t o) (away b b_start) ∙ v.free_zero b o in_b free;
      nonzero = λ e. absurd (omega (arith, b_start, e));
      word_size = omega (arith, in_b, v.small);
    }
  where
    still :
        (x : ℕ)
        → unmarked d' x ≡ true
        → unmarked d' x ≡ (if x == b then false else unmarked d x)
        → unmarked d x ≡ true
    still x f e = elim (Bool-cases (x == b)) [
      | inl s ↦ let no : unmarked d' x ≡ false = rw s at e in absurd (cc (f, no))
      | inr s ↦ let yes : unmarked d' x ≡ unmarked d x = rw s at e in sym yes ∙ f
    ]

-- With a free block on the device `balloc` does not panic.
pub balloc-Fresh :
    (d : Disk) (k : ℕ)
    → DiskOk d
    → Room d (suc k)
    → (b : ℕ) × (d' : Disk) × (balloc d ≡ ok (b, d')) × Fresh d b d' × Room d' k
balloc-Fresh d k v room = go (balloc d) refl (balloc-Allocated d v.bytes)
  where
    go :
        (r : Outcome (ℕ × Disk))
        → balloc d ≡ r
        → Allocated d r
        → (b : ℕ) × (d' : Disk) × (balloc d ≡ ok (b, d')) × Fresh d b d' × Room d' k
    go fault e h = absurd h
    go panic e h =
        let none_left = count_free-full d (readsb d).size h in
        absurd (omega (arith, room, none_left))
    go (ok (b, d')) e (in_b, free, first, flipped) =
        let fewer = count_free-flip d d' b (readsb d).size flipped.0 in
        let size : (readsb d').size ≡ (readsb d).size = ap (λ (s : Superblock). s.size) flipped.1 in
        (
          b,
          d',
          e,
          Fresh-flip d b d' v in_b free flipped,
          subst (λ n. k ≤ count_free d' n) (sym size) (at_most (ltb b (readsb d).size) fewer),
        )
      where
        at_most :
            (t : Bool)
            → count_free d (readsb d).size ≤ count_free d' (readsb d).size + (if t then 1 else 0)
            → k ≤ count_free d' (readsb d).size
        at_most true f = omega (arith, f, room)
        at_most false f = omega (arith, f, room)

-- A store to a block of data that is in use.
pub bwrite-Keeps :
    (d : Disk) (a : ℕ) (blk : Block)
    → DiskOk d
    → Owned d a
    → Bytes blk
    → DiskOk (bwrite d a blk)
      × Keeps d (bwrite d a blk)
      × ((k : ℕ) → Room d k → Room (bwrite d a blk) k)
bwrite-Keeps d a blk v (in_a, used, p) bytes =
    let d' : Disk = bwrite d a blk in
    let sb : readsb d' ≡ readsb d = readsb-bwrite d a blk (λ e. absurd (omega (arith, p, e))) in
    let start : data_start d' ≡ data_start d = sb-start d d' sb in
    let free : (x : ℕ) → InBitmap d x → unmarked d' x ≡ unmarked d x =
      λ x l. unmarked-bwrite d a blk x p l in
    let size : (readsb d').size ≡ (readsb d).size = ap (λ (s : Superblock). s.size) sb in
    (
      record {
        bytes = bwrite-BytesDisk d a blk v.bytes bytes;
        small = subst (λ (s : Superblock). s.size ≤ 2 ^ 31) (sym sb) v.small;
        free_data = λ x l f.
            let l' = InBitmap-sb d' d x (sym sb) l in
            let q = v.free_data x l' (sym (free x l') ∙ f) in omega (arith, q, start);
        free_zero = λ x o l f.
            let l' = InBitmap-sb d' d x (sym sb) l in
            let f' : unmarked d x ≡ true = sym (free x l') ∙ f in
            ap (λ (t : Block). t o) (bwrite_ne d a blk x (λ e. absurd (cc (f', used, e))))
            ∙ v.free_zero x o l' f';
      },
      (sb, λ x. λ (l, f, q). (InBitmap-sb d d' x sb l, free x l ∙ f, omega (arith, q, start))),
      λ k room.
          let same = count_free-ext d d' (readsb d).size (λ x l. free x (below_bits d x l)) in
          subst (λ n. k ≤ count_free d' n) (sym size) (omega (arith, same, room)),
    )

-- What is kept by two steps.
pub Keeps-trans : (d d' d'' : Disk) → Keeps d d' → Keeps d' d'' → Keeps d d''
Keeps-trans d d' d'' (e, f) (e', f') = (e' ∙ e, λ a o. f' a (f a o))
