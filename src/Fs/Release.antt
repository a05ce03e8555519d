-- ===== src/Fs/Release.antt =====
-- What `bfree` does to a block.
use computer_organization_an.Common.{
  ℕ, ◌%◌, ◌≤◌, ◌≡◌, ◌≢◌, sym, ap, ◌∙◌, inl, inr, true, false, Bool-cases, arith, ◌==◌,
  if◌then◌else◌,
}
use computer_organization_an.Common.Outcome.{Outcome, ok, panic, fault}
use computer_organization_an.Fs.{
  Block, Disk, bwrite, Superblock, readsb, bzero, block_bits, bitmap_block, is_free, clear_bit,
  bfree,
}
use computer_organization_an.Fs.Bitmap.{
  bwrite_self, bwrite_ne, unmarked, BytesDisk, bwrite-BytesDisk, readsb-bwrite,
}
use computer_organization_an.Fs.Alloc.{
  bit_block, unmark-Flipped, InBitmap, data_start, bit_block_lt,
}

-- How `bfree` of a block of data ends.
abbrev pub Freed : Disk → ℕ → Outcome Disk → Type 0
Freed d b fault = ⊥
Freed d b panic = unmarked d b ≡ true
Freed d b (ok d') =
    (unmarked d b ≡ false)
    × ((x : ℕ) → InBitmap d x → unmarked d' x ≡ (if x == b then true else unmarked d x))
    × (readsb d' ≡ readsb d)
    × ((o : ℕ) → d' b o ≡ 0)
    × ((x : ℕ) → x ≢ b → x ≢ bit_block d b → d' x ≡ d x)
    × BytesDisk d'

-- A store to a block of data leaves the bitmap.
pub unmarked-bwrite :
    (d : Disk) (b : ℕ) (blk : Block) (x : ℕ)
    → data_start d ≤ b
    → InBitmap d x
    → unmarked (bwrite d b blk) x ≡ unmarked d x
unmarked-bwrite d b blk x l m =
    let n : b ≢ 1 = λ e. absurd (omega (arith, l, e)) in
    let x_l = bit_block_lt d x m in
    ap (λ (s : Superblock). is_free (bwrite d b blk (bitmap_block x s.ninodes)) (x % block_bits))
      (readsb-bwrite d b blk n)
    ∙ ap (λ t. is_free t (x % block_bits))
        (bwrite_ne d b blk (bit_block d x) (λ e. absurd (omega (arith, l, x_l, e))))

clear_bit-Freed :
    (d : Disk) (b : ℕ)
    → BytesDisk d
    → data_start d ≤ b
    → InBitmap d b
    → Freed d b (clear_bit (bzero d b) (bit_block (bzero d b) b) (b % block_bits))
unfolding clear_bit bzero
clear_bit-Freed d b h l m =
    let zeros : Block = λ o. 0 in
    let d1 : Disk = bwrite d b zeros in
    let h1 = bwrite-BytesDisk d b zeros h (λ o. omega arith) in
    let n : b ≢ 1 = λ e. absurd (omega (arith, l, e)) in
    let sb = readsb-bwrite d b zeros n in
    let kept = unmarked-bwrite d b zeros b l m in
    let b_l = bit_block_lt d b m in
    let at_bit : bit_block d1 b ≡ bit_block d b =
      ap (λ (s : Superblock). bitmap_block b s.ninodes) sb in
    elim (Bool-cases (unmarked d1 b)) [
      | inl f ↦ rw f (sym kept ∙ f)
      | inr f ↦
          let (flipped, sb', same, h2) = unmark-Flipped d1 b h1 in
          rw f (
            sym kept ∙ f,
            λ x x_m.
                flipped x
                ∙ ap (λ t. if x == b then true else t) (unmarked-bwrite d b zeros x l x_m),
            sb' ∙ sb,
            λ o.
                ap (λ (t : Block). t o)
                  (same b (λ e. absurd (omega (arith, e ∙ at_bit, l, b_l)))
                    ∙ bwrite_self d b zeros),
            λ x x_b x_bit. same x (λ e. x_bit (e ∙ at_bit)) ∙ bwrite_ne d b zeros x x_b,
            h2,
          )
    ]

-- `bfree` of a block of data panics exactly if the block is free; otherwise it clears the block's bit
-- and its bytes, and leaves the bits of the other blocks and the bytes of all blocks outside the bitmap.
pub bfree-Freed :
    (d : Disk) (b : ℕ) → BytesDisk d → data_start d ≤ b → InBitmap d b → Freed d b (bfree d b)
unfolding bfree
bfree-Freed d b h l m = clear_bit-Freed d b h l m
