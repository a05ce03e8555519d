-- ===== src/Fs/Words.antt =====
-- Words and bytes of a block.
use computer_organization_an.Common.{
  ℕ, ◌+◌, ◌*◌, ◌/◌, ◌%◌, ◌^◌, ◌≤◌, ◌<◌, ◌≡◌, ◌≢◌, ◌⊎◌, refl, ◌∙◌, inl, inr, arith, eq→==, ne→==,
}
use computer_organization_an.Fs.{Block, put8, get32, put32}
use computer_organization_an.Fs.Bitmap.{Bytes, put8-Bytes}

pub put8_self : (blk : Block) (o v : ℕ) → put8 blk o v o ≡ v % 256
unfolding put8
put8_self blk o v = rw (eq→== o o refl) refl

pub put8_ne : (blk : Block) (o v i : ℕ) → i ≢ o → put8 blk o v i ≡ blk i
unfolding put8
put8_ne blk o v i n = rw (ne→== i o n) refl

pub put32-Bytes : (blk : Block) (o v : ℕ) → Bytes blk → Bytes (put32 blk o v)
unfolding put32
put32-Bytes blk o v h =
    put8-Bytes _ _ _ (put8-Bytes _ _ _ (put8-Bytes _ _ _ (put8-Bytes blk o v h)))

-- Outside of the word.
pub put32_ne : (blk : Block) (o v i : ℕ) → (i < o) ⊎ (o + 3 < i) → put32 blk o v i ≡ blk i
unfolding put32
put32_ne blk o v i away =
    put8_ne _ (o + 3) _ i (λ e. absurd (ground (arith, away, e)))
    ∙ put8_ne _ (o + 2) _ i (λ e. absurd (ground (arith, away, e)))
    ∙ put8_ne _ (o + 1) _ i (λ e. absurd (ground (arith, away, e)))
    ∙ put8_ne blk o v i (λ e. absurd (ground (arith, away, e)))

pub get32-put32 : (blk : Block) (o v : ℕ) → v < 2 ^ 32 → get32 (put32 blk o v) o ≡ v
unfolding get32 put32
get32-put32 blk o v l =
    let b0 : Block = put8 blk o v in
    let b1 : Block = put8 b0 (o + 1) (v / 256) in
    let b2 : Block = put8 b1 (o + 2) (v / 65536) in
    let b3 : Block = put8 b2 (o + 3) (v / 16777216) in
    let e3 : b3 (o + 3) ≡ v / 16777216 % 256 = put8_self b2 (o + 3) (v / 16777216) in
    let e2 : b3 (o + 2) ≡ v / 65536 % 256 =
      put8_ne b2 (o + 3) (v / 16777216) (o + 2) (λ e. absurd (omega (arith, e)))
      ∙ put8_self b1 (o + 2) (v / 65536) in
    let e1 : b3 (o + 1) ≡ v / 256 % 256 =
      put8_ne b2 (o + 3) (v / 16777216) (o + 1) (λ e. absurd (omega (arith, e)))
      ∙ put8_ne b1 (o + 2) (v / 65536) (o + 1) (λ e. absurd (omega (arith, e)))
      ∙ put8_self b0 (o + 1) (v / 256) in
    let e0 : b3 o ≡ v % 256 =
      put8_ne b2 (o + 3) (v / 16777216) o (λ e. absurd (omega (arith, e)))
      ∙ put8_ne b1 (o + 2) (v / 65536) o (λ e. absurd (omega (arith, e)))
      ∙ put8_ne b0 (o + 1) (v / 256) o (λ e. absurd (omega (arith, e)))
      ∙ put8_self blk o v in
    four_bytes (b3 o) (b3 (o + 1)) (b3 (o + 2)) (b3 (o + 3)) v l e0 e1 e2 e3
  where
    four_bytes :
        (a b c d v : ℕ)
        → v < 2 ^ 32
        → a ≡ v % 256
        → b ≡ v / 256 % 256
        → c ≡ v / 65536 % 256
        → d ≡ v / 16777216 % 256
        → a + 256 * b + 65536 * c + 16777216 * d ≡ v
    four_bytes a b c d v l e0 e1 e2 e3 = omega (arith, l, e0, e1, e2, e3)

pub get32-ext :
    (blk blk' : Block) (o : ℕ)
    → ((i : ℕ) → o ≤ i → i ≤ o + 3 → blk' i ≡ blk i)
    → get32 blk' o ≡ get32 blk o
unfolding get32
get32-ext blk blk' o h = omega (
  arith,
  h o (omega arith) (omega arith),
  h (o + 1) (omega arith) (omega arith),
  h (o + 2) (omega arith) (omega arith),
  h (o + 3) (omega arith) (omega arith),
)

-- Another word.
pub get32-put32_ne :
    (blk : Block) (o v p : ℕ) → (p + 3 < o) ⊎ (o + 3 < p) → get32 (put32 blk o v) p ≡ get32 blk p
get32-put32_ne blk o v p away =
    get32-ext blk (put32 blk o v) p (λ i l m. put32_ne blk o v i (apart i l m away))
  where
    apart : (i : ℕ) → p ≤ i → i ≤ p + 3 → (p + 3 < o) ⊎ (o + 3 < p) → (i < o) ⊎ (o + 3 < i)
    apart i l m (inl a) = inl (omega (arith, m, a))
    apart i l m (inr a) = inr (omega (arith, l, a))

pub get32_lt : (blk : Block) (o : ℕ) → Bytes blk → get32 blk o < 2 ^ 32
unfolding get32
get32_lt blk o h = omega (arith, h o, h (o + 1), h (o + 2), h (o + 3))

pub get32_zero : (blk : Block) (o : ℕ) → ((i : ℕ) → blk i ≡ 0) → get32 blk o ≡ 0
unfolding get32
get32_zero blk o h = omega (arith, h o, h (o + 1), h (o + 2), h (o + 3))
