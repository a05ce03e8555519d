-- ===== src/Fs/Bitmap.antt =====
-- Which blocks are free, and how `balloc` and `bfree` change that.
use Prim.Native.Nat.{bit_and}
use computer_organization_an.Common.{
  ℕ, zero, suc, ◌+◌, ◌/◌, ◌%◌, ◌^◌, ◌≤◌, ◌<◌, ◌≡◌, ◌≢◌, refl, sym, ap, ◌∙◌, inl, inr, Bool, true,
  false, Bool-cases, Option, none, some, arith, ◌==◌, eq→==, ne→==, ==_iff, if◌then◌else◌,
}
use computer_organization_an.Fs.{
  Block, Disk, bwrite, put8, readsb, block_bits, bitmap_block, is_free, mark, unmark, free_bit,
}
use computer_organization_an.Fs.Bits.{with_bit, without_bit, with_bit_entry, without_bit_entry}

pub bwrite_self : (d : Disk) (b : ℕ) (blk : Block) → bwrite d b blk b ≡ blk
unfolding bwrite
bwrite_self d b blk = rw (eq→== b b refl) refl

pub bwrite_ne : (d : Disk) (b : ℕ) (blk : Block) (x : ℕ) → x ≢ b → bwrite d b blk x ≡ d x
unfolding bwrite
bwrite_ne d b blk x n = rw (ne→== x b n) refl

-- Every byte is one.
abbrev pub Bytes : Block → Type 0
Bytes blk = (o : ℕ) → blk o < 256

pub put8-Bytes : (blk : Block) (o v : ℕ) → Bytes blk → Bytes (put8 blk o v)
unfolding put8
put8-Bytes blk o v h i = elim (Bool-cases (i == o)) [
  | inl e ↦ rw e (omega arith)
  | inr e ↦ rw e (h i)
]

-- A store of one byte in which bit `k` becomes `v` and the others stay.
is_free-put8 :
    (blk : Block) (bi bj y : ℕ) (v : Bool)
    → y < 256
    → ((bit_and y (2 ^ (bj % 8)) == 0)
        ≡ (if bj % 8 == bi % 8 then v else bit_and (blk (bi / 8)) (2 ^ (bj % 8)) == 0))
    → is_free (put8 blk (bi / 8) y) bj ≡ (if bj == bi then v else is_free blk bj)
unfolding is_free put8
is_free-put8 blk bi bj y v l e = elim (Bool-cases (bj / 8 == bi / 8)) [
  | inl s ↦
      let byte : put8 blk (bi / 8) y (bj / 8) ≡ y = rw s (omega (arith, l)) in
      let index : bj / 8 ≡ bi / 8 = (==_iff (bj / 8) (bi / 8)).0 s in
      let here : (bj % 8 == bi % 8) ≡ (bj == bi) = ground (arith, index) in
      ap (λ t. bit_and t (2 ^ (bj % 8)) == 0) byte
      ∙ e
      ∙ ap (λ t. if t then v else bit_and (blk (bi / 8)) (2 ^ (bj % 8)) == 0) here
      ∙ ap (λ t. if bj == bi then v else bit_and (blk t) (2 ^ (bj % 8)) == 0) (sym index)
  | inr s ↦ let n : (bj == bi) ≡ false = ground (arith, s) in rw (s, n) refl
]

pub is_free-mark :
    (blk : Block) (bi bj : ℕ)
    → Bytes blk
    → is_free (mark blk bi) bj ≡ (if bj == bi then false else is_free blk bj)
unfolding mark
is_free-mark blk bi bj h =
    let (e, l) =
      with_bit_entry (blk (bi / 8)) (bj % 8) (bi % 8) (h (bi / 8)) (omega arith) (omega arith) in
    is_free-put8 blk bi bj (with_bit (blk (bi / 8)) (bi % 8)) false l e

pub is_free-unmark :
    (blk : Block) (bi bj : ℕ)
    → Bytes blk
    → is_free (unmark blk bi) bj ≡ (if bj == bi then true else is_free blk bj)
unfolding unmark
is_free-unmark blk bi bj h =
    let (e, l) =
      without_bit_entry (blk (bi / 8)) (bj % 8) (bi % 8) (h (bi / 8)) (omega arith) (omega arith) in
    is_free-put8 blk bi bj (without_bit (blk (bi / 8)) (bi % 8)) true l e

-- Block `x` is free on the disk.
abbrev pub unmarked : Disk → ℕ → Bool
unmarked d x = is_free (d (bitmap_block x (readsb d).ninodes)) (x % block_bits)

-- A disk of bytes.
abbrev pub BytesDisk : Disk → Type 0
BytesDisk d = (b : ℕ) → Bytes (d b)

pub bwrite-BytesDisk :
    (d : Disk) (b : ℕ) (blk : Block) → BytesDisk d → Bytes blk → BytesDisk (bwrite d b blk)
unfolding bwrite
bwrite-BytesDisk d b blk h k x = elim (Bool-cases (x == b)) [ inl e ↦ rw e k | inr e ↦ rw e (h x) ]

-- A store outside the superblock and the bitmap.
pub readsb-bwrite : (d : Disk) (b : ℕ) (blk : Block) → b ≢ 1 → readsb (bwrite d b blk) ≡ readsb d
unfolding readsb
readsb-bwrite d b blk n = rw (bwrite_ne d b blk 1 (λ e. n (sym e))) refl

-- The search for a bit that is clear.
abbrev pub FirstFree : Block → ℕ → ℕ → Option ℕ → Type 0
FirstFree blk bi n none = (j : ℕ) → bi ≤ j → j < bi + n → is_free blk j ≡ false
FirstFree blk bi n (some k) =
    (bi ≤ k)
    × (k < bi + n)
    × (is_free blk k ≡ true)
    × ((j : ℕ) → bi ≤ j → j < k → is_free blk j ≡ false)

FirstFree-suc :
    (blk : Block) (bi n : ℕ) (o : Option ℕ)
    → is_free blk bi ≡ false
    → FirstFree blk (suc bi) n o
    → FirstFree blk bi (suc n) o
FirstFree-suc blk bi n none e h = λ j l m. elim (Bool-cases (j == bi)) [
  | inl s ↦ ap (is_free blk) ((==_iff j bi).0 s) ∙ e
  | inr s ↦ h j (ground (arith, l, s)) (omega (arith, m))
]
FirstFree-suc blk bi n (some k) e (l, m, f, h) = (
  omega (arith, l),
  omega (arith, m),
  f,
  λ j p q. elim (Bool-cases (j == bi)) [
    | inl s ↦ ap (is_free blk) ((==_iff j bi).0 s) ∙ e
    | inr s ↦ h j (ground (arith, p, s)) q
  ],
)

pub free_bit-FirstFree : (n : ℕ) (blk : Block) (bi : ℕ) → FirstFree blk bi n (free_bit n blk bi)
unfolding free_bit
free_bit-FirstFree zero blk bi = λ j l m. absurd (omega (arith, l, m))
free_bit-FirstFree (suc n) blk bi = elim (Bool-cases (is_free blk bi)) [
  | inl f ↦ rw f (omega arith, omega arith, f, λ j l m. absurd (omega (arith, l, m)))
  | inr f ↦
      rw f (FirstFree-suc blk bi n (free_bit n blk (suc bi)) f (free_bit-FirstFree n blk (suc bi)))
]
