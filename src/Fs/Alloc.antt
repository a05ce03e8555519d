-- ===== src/Fs/Alloc.antt =====
-- What `balloc` does to the set of free blocks.
use mathlib.Core.Path.{subst}
use computer_organization_an.Common.{
  ℕ, zero, suc, ◌+◌, ◌*◌, ◌/◌, ◌%◌, ◌≤◌, ◌<◌, ◌≡◌, ◌≢◌, refl, sym, ap, ◌∙◌, inl, inr, Bool, true,
  false, Bool-cases, Option, none, some, arith, ltb, ltb→lt, ◌==◌, ==_iff, if◌then◌else◌,
}
use computer_organization_an.Common.Outcome.{Outcome, ok, panic, fault}
use computer_organization_an.Fs.{
  Block, Disk, bwrite, Superblock, readsb, block_bits, bitmap_block, is_free, mark, unmark,
  free_bit, take_bit, balloc_loop, balloc,
}
use computer_organization_an.Fs.Bitmap.{
  bwrite_self, bwrite_ne, put8-Bytes, is_free-mark, is_free-unmark, unmarked, BytesDisk,
  bwrite-BytesDisk, readsb-bwrite, FirstFree, free_bit-FirstFree,
}

-- The block of the bitmap that has the bit of `b`.
abbrev pub bit_block : Disk → ℕ → ℕ
bit_block d b = bitmap_block b (readsb d).ninodes

bit_block-ne : (d : Disk) (b : ℕ) → bit_block d b ≢ 1
unfolding bitmap_block
bit_block-ne d b e = absurd (omega (arith, e))

-- A store that gives the bit of `b` the value `v` and leaves the others.
flip-unmarked :
    (d : Disk) (b : ℕ) (blk : Block) (v : Bool)
    → ((j : ℕ) → is_free blk j ≡ (if j == b % block_bits then v else is_free (d (bit_block d b)) j))
    → (x : ℕ) → unmarked (bwrite d (bit_block d b) blk) x ≡ (if x == b then v else unmarked d x)
unfolding bitmap_block
flip-unmarked d b blk v h x =
    let d' : Disk = bwrite d (bit_block d b) blk in
    let same : unmarked d' x ≡ is_free (d' (bit_block d x)) (x % block_bits) =
      ap (λ (s : Superblock). is_free (d' (bitmap_block x s.ninodes)) (x % block_bits))
        (readsb-bwrite d (bit_block d b) blk (bit_block-ne d b)) in
    elim (Bool-cases (x / block_bits == b / block_bits)) [
      | inl s ↦
          let q : x / block_bits ≡ b / block_bits =
            (==_iff (x / block_bits) (b / block_bits)).0 s in
          let block : bit_block d x ≡ bit_block d b = ap (λ t. t + (readsb d).ninodes / 8 + 3) q in
          let here : (x % block_bits == b % block_bits) ≡ (x == b) = ground (arith, q) in
          same
          ∙ ap (λ t. is_free (d' t) (x % block_bits)) block
          ∙ ap (λ t. is_free t (x % block_bits)) (bwrite_self d (bit_block d b) blk)
          ∙ h (x % block_bits)
          ∙ ap (λ t. if t then v else is_free (d (bit_block d b)) (x % block_bits)) here
          ∙ ap (λ t. if x == b then v else is_free (d t) (x % block_bits)) (sym block)
      | inr s ↦
          let other : bit_block d x ≢ bit_block d b = λ e. absurd (ground (arith, s, e)) in
          let n : (x == b) ≡ false = ground (arith, s) in
          same
          ∙ ap (λ t. is_free t (x % block_bits))
              (bwrite_ne d (bit_block d b) blk (bit_block d x) other)
          ∙ rw n refl
    ]

-- The disk `d'` has the bytes of `d` outside the bitmap, and there the bit of `b` is `v`.
abbrev pub Flipped : Disk → ℕ → Bool → Disk → Type 0
Flipped d b v d' =
    ((x : ℕ) → unmarked d' x ≡ (if x == b then v else unmarked d x))
    × (readsb d' ≡ readsb d)
    × ((x : ℕ) → x ≢ bit_block d b → d' x ≡ d x)
    × BytesDisk d'

pub mark-Flipped :
    (d : Disk) (b : ℕ)
    → BytesDisk d
    → Flipped d b false (bwrite d (bit_block d b) (mark (d (bit_block d b)) (b % block_bits)))
unfolding mark
mark-Flipped d b h =
    let blk : Block = mark (d (bit_block d b)) (b % block_bits) in
    (
      flip-unmarked d b blk false
          (λ j. is_free-mark (d (bit_block d b)) (b % block_bits) j (h (bit_block d b))),
      readsb-bwrite d (bit_block d b) blk (bit_block-ne d b),
      bwrite_ne d (bit_block d b) blk,
      bwrite-BytesDisk d (bit_block d b) blk h
          (put8-Bytes (d (bit_block d b)) _ _ (h (bit_block d b))),
    )

pub unmark-Flipped :
    (d : Disk) (b : ℕ)
    → BytesDisk d
    → Flipped d b true (bwrite d (bit_block d b) (unmark (d (bit_block d b)) (b % block_bits)))
unfolding unmark
unmark-Flipped d b h =
    let blk : Block = unmark (d (bit_block d b)) (b % block_bits) in
    (
      flip-unmarked d b blk true
          (λ j. is_free-unmark (d (bit_block d b)) (b % block_bits) j (h (bit_block d b))),
      readsb-bwrite d (bit_block d b) blk (bit_block-ne d b),
      bwrite_ne d (bit_block d b) blk,
      bwrite-BytesDisk d (bit_block d b) blk h
          (put8-Bytes (d (bit_block d b)) _ _ (h (bit_block d b))),
    )

-- The bit of a block is in the blocks of the bitmap that `balloc` searches.
abbrev pub InBitmap : Disk → ℕ → Type 0
InBitmap d b = block_bits * (b / block_bits) < (readsb d).size

-- The first block behind the superblock, the inodes and the bitmap.
abbrev pub data_start : Disk → ℕ
data_start d = (readsb d).ninodes / 8 + (readsb d).size / block_bits + 4

pub bit_block_lt : (d : Disk) (b : ℕ) → InBitmap d b → bit_block d b < data_start d
unfolding bitmap_block
bit_block_lt d b l = omega (arith, l)

-- How `balloc` ends; `none` is a panic.
abbrev pub Allocated : Disk → Outcome (ℕ × Disk) → Type 0
Allocated d fault = ⊥
Allocated d panic = (x : ℕ) → x < (readsb d).size → unmarked d x ≡ false
Allocated d (ok (b, d')) =
    InBitmap d b
    × (unmarked d b ≡ true)
    × ((x : ℕ) → x < b → unmarked d x ≡ false)
    × Flipped d b false d'

-- The blocks of one block of the bitmap.
free_from :
    (d : Disk) (q x : ℕ)
    → x / block_bits ≡ q
    → unmarked d x ≡ is_free (d (bit_block d (block_bits * q))) (x % block_bits)
unfolding bitmap_block
free_from d q x e =
    ap (λ t. is_free (d (t + (readsb d).ninodes / 8 + 3)) (x % block_bits)) (omega (arith, e))

bit_block_base :
    (d : Disk) (q b : ℕ) → b / block_bits ≡ q → bit_block d b ≡ bit_block d (block_bits * q)
unfolding bitmap_block
bit_block_base d q b e = omega (arith, e)

take_bit-Allocated :
    (d : Disk) (q : ℕ) (next : Outcome (ℕ × Disk)) (o : Option ℕ)
    → BytesDisk d
    → block_bits * q < (readsb d).size
    → ((x : ℕ) → x < block_bits * q → unmarked d x ≡ false)
    → FirstFree (d (bit_block d (block_bits * q))) 0 block_bits o
    → (((x : ℕ) → x < block_bits * suc q → unmarked d x ≡ false) → Allocated d next)
    → Allocated d (take_bit d (bit_block d (block_bits * q)) (block_bits * q) next o)
unfolding take_bit
take_bit-Allocated d q next none h l before full later = later (λ x m.
    elim (Bool-cases (ltb x (block_bits * q))) [
      | inl s ↦ before x (ltb→lt x (block_bits * q) s)
      | inr s ↦
          let e : x / block_bits ≡ q = ground (arith, s, m) in
          free_from d q x e ∙ full (x % block_bits) (omega arith) (omega arith)
    ])
take_bit-Allocated d q next (some k) h l before (_, k_l, k_free, earlier) later =
    let b : ℕ = block_bits * q + k in
    let e : b / block_bits ≡ q = omega (arith, k_l) in
    let r : b % block_bits ≡ k = omega (arith, k_l) in
    (
      omega (arith, l, e),
      free_from d q b e ∙ ap (is_free (d (bit_block d (block_bits * q)))) r ∙ k_free,
      λ x m. elim (Bool-cases (ltb x (block_bits * q))) [
        | inl s ↦ before x (ltb→lt x (block_bits * q) s)
        | inr s ↦
            let e' : x / block_bits ≡ q = ground (arith, s, m, k_l) in
            free_from d q x e' ∙ earlier (x % block_bits) (omega arith) (omega (arith, m, e'))
      ],
      subst (λ t. Flipped d b false (bwrite d t (mark (d t) k))) (bit_block_base d q b e)
          (subst (λ t. Flipped d b false (bwrite d (bit_block d b) (mark (d (bit_block d b)) t))) r
            (mark-Flipped d b h)),
    )

balloc_loop-Allocated :
    (fuel : ℕ) (d : Disk) (q : ℕ)
    → BytesDisk d
    → (readsb d).size + block_bits ≤ fuel * block_bits + block_bits * q
    → block_bits * q < (readsb d).size + block_bits
    → ((x : ℕ) → x < block_bits * q → unmarked d x ≡ false)
    → Allocated d (balloc_loop fuel (readsb d) d (block_bits * q))
unfolding balloc_loop
balloc_loop-Allocated zero d q h enough l before = absurd (omega (arith, enough, l))
balloc_loop-Allocated (suc fuel) d q h enough l before =
    elim (Bool-cases (ltb (block_bits * q) (readsb d).size)) [
      | inl s ↦
          let m = ltb→lt (block_bits * q) (readsb d).size s in
          let step : block_bits * suc q ≡ block_bits * q + block_bits = omega arith in
          rw s (
            take_bit-Allocated d q (balloc_loop fuel (readsb d) d (block_bits * q + block_bits))
              (free_bit block_bits (d (bit_block d (block_bits * q))) 0) h m before
              (free_bit-FirstFree block_bits (d (bit_block d (block_bits * q))) 0)
              (λ before'.
                subst (λ t. Allocated d (balloc_loop fuel (readsb d) d t)) step
                  (balloc_loop-Allocated fuel d (suc q) h (omega (arith, enough)) (omega (arith, m))
                    before')))
      | inr s ↦ rw s (λ x x_l. before x (ground (arith, s, x_l)))
    ]

pub balloc-Allocated : (d : Disk) → BytesDisk d → Allocated d (balloc d)
unfolding balloc
balloc-Allocated d h =
    balloc_loop-Allocated ((readsb d).size / block_bits + 2) d 0 h (omega arith) (omega arith)
      (λ x l. absurd (omega (arith, l)))
