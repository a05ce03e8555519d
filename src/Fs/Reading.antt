-- ===== src/Fs/Reading.antt =====
-- The bytes of a file, and what the loop of `readi` copies of them.
use computer_organization_an.Common.{
  ℕ, zero, suc, ◌+◌, ◌-◌, ◌*◌, ◌/◌, ◌%◌, ◌≤◌, ◌<◌, ◌≡◌, ◌≢◌, ◌⊎◌, refl, ap, ◌∙◌, inl, inr, true,
  false, Bool-cases, some, arith, ltb, leb, lt→ltb, ltb→lt, le→ltb,
}
use computer_organization_an.Common.Outcome.{ok}
use computer_organization_an.Fs.{Block, Disk, block_size}
use computer_organization_an.Fs.Inode.{Inode}
use computer_organization_an.Fs.Content.{copy, max_size, round_size, readi_loop}
use computer_organization_an.Fs.Mapping.{slot}
use computer_organization_an.Fs.Indirect.{bmap_found}

-- The byte of a file at offset `o`.
abbrev pub content : Disk → Inode → ℕ → ℕ
content d ip o = d (slot d ip (o / block_size)) (o % block_size)

-- Every block below offset `n` has an address.
abbrev pub MappedTo : Disk → Inode → ℕ → Type 0
MappedTo d ip n = (bn : ℕ) → block_size * bn < n → slot d ip bn ≢ 0

pub copy_inside :
    (dst : Block) (to : ℕ) (src : Block) (from n i : ℕ)
    → to ≤ i
    → i < to + n
    → copy dst to src from n i ≡ src (from + (i - to))
unfolding copy
copy_inside dst to src from n i l m =
    let above : leb to i ≡ true = ground (arith, l) in rw (above, lt→ltb i (to + n) m) refl

pub copy_outside :
    (dst : Block) (to : ℕ) (src : Block) (from n i : ℕ)
    → (i < to) ⊎ (to + n ≤ i)
    → copy dst to src from n i ≡ dst i
unfolding copy
copy_outside dst to src from n i (inl l) =
    let no : leb to i ≡ false = ground (arith, l) in rw no refl
copy_outside dst to src from n i (inr l) = elim (Bool-cases (leb to i)) [
  | inl s ↦ rw (s, le→ltb i (to + n) l) refl
  | inr s ↦ rw s refl
]

-- The bytes of a round are in one block.
pub round_size_lem :
    (n tot off : ℕ)
    → tot < n
    → (0 < round_size n tot off)
      × (tot + round_size n tot off ≤ n)
      × (off % block_size + round_size n tot off ≤ block_size)
unfolding round_size
round_size_lem n tot off l = (omega (arith, l), omega (arith, l), omega (arith, l))

-- A round ends with the bytes or with the block.
pub round_size_cases :
    (n tot off : ℕ)
    → tot < n
    → (round_size n tot off ≡ n - tot) ⊎ (off % block_size + round_size n tot off ≡ block_size)
unfolding round_size
round_size_cases n tot off l = elim (Bool-cases (leb (n - tot) (512 - off % 512))) [
  | inl s ↦ inl (ground (arith, s))
  | inr s ↦ inr (ground (arith, s))
]

-- Bytes from `tot` to `n` are copied from the file's from `off` on.
pub record Copied (d : Disk) (ip : Inode) (n tot off : ℕ) (dst dst' : Block) : Type 0 where
  pub inside : (i : ℕ) → tot ≤ i → i < n → dst' i ≡ content d ip (off + (i - tot))
  pub outside : (i : ℕ) → (i < tot) ⊎ (n ≤ i) → dst' i ≡ dst i

Copied-round :
    (d : Disk) (ip : Inode) (n tot off m : ℕ) (dst dst' : Block)
    → tot + m ≤ n
    → off % block_size + m ≤ block_size
    → Copied d ip n
        (tot + m)
        (off + m)
        (copy dst tot (d (slot d ip (off / block_size))) (off % block_size) m)
        dst'
    → Copied d ip n tot off dst dst'
Copied-round d ip n tot off m dst dst' l b rest =
    let src : Block = d (slot d ip (off / block_size)) in
    record {
      inside = λ i p q. elim (Bool-cases (ltb i (tot + m))) [
        | inl s ↦
            let s' = ltb→lt i (tot + m) s in
            let block : off / 512 ≡ (off + (i - tot)) / 512 = omega (arith, b, s', p) in
            let place : off % 512 + (i - tot) ≡ (off + (i - tot)) % 512 = omega (arith, b, s', p) in
            rest.outside i (inl s')
            ∙ copy_inside dst tot src (off % block_size) m i p s'
            ∙ ap (λ t. d (slot d ip t) (off % 512 + (i - tot))) block
            ∙ ap (λ t. d (slot d ip ((off + (i - tot)) / 512)) t) place
        | inr s ↦
            let s' : tot + m ≤ i = ground (arith, s) in
            let place : off + m + (i - (tot + m)) ≡ off + (i - tot) = omega (arith, s') in
            rest.inside i s' q ∙ ap (content d ip) place
      ];
      outside = λ i o.
          rest.outside i (wider i o)
          ∙ copy_outside dst tot src (off % block_size) m i (narrower i o);
    }
  where
    wider : (i : ℕ) → (i < tot) ⊎ (n ≤ i) → (i < tot + m) ⊎ (n ≤ i)
    wider i (inl p) = inl (omega (arith, p))
    wider i (inr p) = inr p

    narrower : (i : ℕ) → (i < tot) ⊎ (n ≤ i) → (i < tot) ⊎ (tot + m ≤ i)
    narrower i (inl p) = inl p
    narrower i (inr p) = inr (omega (arith, p, l))

-- The loop of `readi` over blocks that have addresses.
pub readi_loop-Copied :
    (fuel n tot off : ℕ) (dst : Block) (d : Disk) (ip : Inode)
    → n < fuel + tot
    → tot ≤ n
    → off + (n - tot) ≤ max_size
    → MappedTo d ip (off + (n - tot))
    → (dst' : Block) × (readi_loop fuel n tot off dst d ip
        ≡ ok (record { result = some n; memory = dst'; disk = d; inode = ip }))
      × Copied d ip n tot off dst dst'
unfolding readi_loop
readi_loop-Copied zero n tot off dst d ip fuel l most mapped = absurd (omega (arith, fuel, l))
readi_loop-Copied (suc f) n tot off dst d ip fuel l most mapped = elim (Bool-cases (ltb tot n)) [
  | inl s ↦
      let m : ℕ = round_size n tot off in
      let (m_pos, m_l, m_b) = round_size_lem n tot off (ltb→lt tot n s) in
      let found =
        bmap_found d ip (off / block_size) (omega (arith, most, m_l, m_pos))
          (mapped (off / block_size) (omega (arith, m_l, m_pos))) in
      let (dst', e, c) =
        readi_loop-Copied f n (tot + m) (off + m)
          (copy dst tot (d (slot d ip (off / block_size))) (off % block_size) m) d ip
          (omega (arith, fuel, m_pos)) m_l (omega (arith, most, m_l))
          (λ bn k. mapped bn (omega (arith, k, m_l))) in
      (dst', rw (s, found) e, Copied-round d ip n tot off m dst dst' m_l m_b c)
  | inr s ↦
      let full : tot ≡ n = ground (arith, s, l) in
      (
        dst,
        rw s refl,
        record { inside = λ i p q. absurd (omega (arith, p, q, full)); outside = λ i o. refl },
      )
]
