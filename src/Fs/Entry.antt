-- ===== src/Fs/Entry.antt =====
-- The entries of a directory, as its bytes.
use computer_organization_an.Common.{
  ℕ, zero, suc, ◌+◌, ◌*◌, ◌/◌, ◌%◌, ◌<◌, ◌≡◌, ◌≢◌, refl, sym, ap, ◌∙◌, inl, inr, true, false,
  Bool-cases, arith, ◌==◌, eq→==, ne→==, ==_iff,
}
use computer_organization_an.Fs.{Block, Disk}
use computer_organization_an.Fs.Inode.{Inode, get16}
use computer_organization_an.Fs.Mapping.{slot}
use computer_organization_an.Fs.Reading.{content}
use computer_organization_an.Fs.Dir.{same_name, namecmp, matches}

-- The number in entry `k`, 0 for one that is not in use.
abbrev pub number_at : Disk → Inode → ℕ → ℕ
number_at d ip k = content d ip (16 * k) + 256 * content d ip (16 * k + 1)

-- Entry `k` is in use, and its 14 bytes of name are those of `name`, up to the zero byte that ends it.
abbrev pub IsEntry : Disk → Inode → Block → ℕ → Type 0
IsEntry d ip name k =
    (number_at d ip k ≢ 0)
    × ((i : ℕ) → i < 14 → ((j : ℕ) → j < i → name j ≢ 0) → content d ip (16 * k + 2 + i) ≡ name i)

-- Strings of `n` bytes at most, from `i` and `j` on.
abbrev SameText : ℕ → Block → ℕ → Block → ℕ → Type 0
SameText n s i t j = (k : ℕ) → k < n → ((m : ℕ) → m < k → s (i + m) ≢ 0) → t (j + k) ≡ s (i + k)

SameText-suc :
    (n : ℕ) (s : Block) (i : ℕ) (t : Block) (j : ℕ)
    → s i ≡ t j
    → SameText n s (suc i) t (suc j)
    → SameText (suc n) s i t j
SameText-suc n s i t j e h zero l before =
    let here : j + 0 ≡ j = omega arith in
    let there : i ≡ i + 0 = omega arith in ap t here ∙ sym e ∙ ap s there
SameText-suc n s i t j e h (suc k) l before =
    let here : j + suc k ≡ suc j + k = omega arith in
    let there : suc i + k ≡ i + suc k = omega arith in
    ap t here
    ∙ h k (omega (arith, l)) (λ m p z.
      let at : i + suc m ≡ suc i + m = omega arith in
      before (suc m) (omega (arith, p)) (ap s at ∙ z))
    ∙ ap s there

SameText-tail :
    (n : ℕ) (s : Block) (i : ℕ) (t : Block) (j : ℕ)
    → s i ≢ 0
    → SameText (suc n) s i t j
    → SameText n s (suc i) t (suc j)
SameText-tail n s i t j e h k l before =
    let here : suc j + k ≡ j + suc k = omega arith in
    let there : i + suc k ≡ suc i + k = omega arith in
    ap t here ∙ h (suc k) (omega (arith, l)) nonzero ∙ ap s there
  where
    nonzero : (m : ℕ) → m < suc k → s (i + m) ≢ 0
    nonzero zero p z = let at : i ≡ i + 0 = omega arith in e (ap s at ∙ z)
    nonzero (suc m) p z =
        let at : suc i + m ≡ i + suc m = omega arith in before m (omega (arith, p)) (ap s at ∙ z)

same_name-SameText :
    (n : ℕ) (s : Block) (i : ℕ) (t : Block) (j : ℕ)
    → same_name n s i t j ≡ true
    → SameText n s i t j
unfolding same_name
same_name-SameText zero s i t j e = λ k l. absurd (omega (arith, l))
same_name-SameText (suc n) s i t j e = elim (Bool-cases (s i == t j)) [
  | inr f ↦ let no : false ≡ true = rw f at e in absurd (cc (no))
  | inl f ↦
      let first = (==_iff (s i) (t j)).0 f in
      elim (Bool-cases (s i == 0)) [
        | inl z ↦ ended first ((==_iff (s i) 0).0 z)
        | inr z ↦
            let rest : same_name n s (suc i) t (suc j) ≡ true = rw (f, z) at e in
            SameText-suc n s i t j first (same_name-SameText n s (suc i) t (suc j) rest)
      ]
]
  where
    ended : s i ≡ t j → s i ≡ 0 → SameText (suc n) s i t j
    ended e z zero l before =
        let here : j + 0 ≡ j = omega arith in
        let there : i ≡ i + 0 = omega arith in ap t here ∙ sym e ∙ ap s there
    ended e z (suc k) l before =
        let at : i + 0 ≡ i = omega arith in absurd (before 0 (omega arith) (ap s at ∙ z))

SameText-same_name :
    (n : ℕ) (s : Block) (i : ℕ) (t : Block) (j : ℕ)
    → SameText n s i t j
    → same_name n s i t j ≡ true
unfolding same_name
SameText-same_name zero s i t j h = refl
SameText-same_name (suc n) s i t j h =
    let here : j ≡ j + 0 = omega arith in
    let there : i + 0 ≡ i = omega arith in
    let first : s i ≡ t j =
      sym (ap t here ∙ h 0 (omega arith) (λ m p. absurd (omega (arith, p))) ∙ ap s there) in
    elim (Bool-cases (s i == 0)) [
      | inl z ↦ rw (eq→== (s i) (t j) first, z) refl
      | inr z ↦
          let n0 : s i ≢ 0 = λ e. absurd (cc (eq→== (s i) 0 e, z)) in
          rw (eq→== (s i) (t j) first, z)
            (SameText-same_name n s (suc i) t (suc j) (SameText-tail n s i t j n0 h))
    ]

-- An entry is in one block.
entry_byte :
    (d : Disk) (ip : Inode) (k o : ℕ)
    → o < 16
    → content d ip (16 * k + o) ≡ d (slot d ip (k / 32)) (16 * (k % 32) + o)
entry_byte d ip k o l =
    let block : (16 * k + o) / 512 ≡ k / 32 = omega (arith, l) in
    let place : (16 * k + o) % 512 ≡ 16 * (k % 32) + o = omega (arith, l) in
    ap (λ t. d (slot d ip t) ((16 * k + o) % 512)) block ∙ ap (d (slot d ip (k / 32))) place

pub number_at-get16 :
    (d : Disk) (ip : Inode) (k : ℕ)
    → number_at d ip k ≡ get16 (d (slot d ip (k / 32))) (16 * (k % 32))
unfolding get16
number_at-get16 d ip k =
    let blk : Block = d (slot d ip (k / 32)) in
    let first : 16 * k ≡ 16 * k + 0 = omega arith in
    let here : 16 * (k % 32) + 0 ≡ 16 * (k % 32) = omega arith in
    ap (λ t. content d ip t + 256 * content d ip (16 * k + 1)) first
    ∙ ap (λ t. t + 256 * content d ip (16 * k + 1)) (entry_byte d ip k 0 (omega arith))
    ∙ ap (λ t. blk t + 256 * content d ip (16 * k + 1)) here
    ∙ ap (λ t. blk (16 * (k % 32)) + 256 * t) (entry_byte d ip k 1 (omega arith))

name_byte :
    (d : Disk) (ip : Inode) (k i : ℕ)
    → i < 14
    → content d ip (16 * k + 2 + i) ≡ d (slot d ip (k / 32)) (16 * (k % 32) + 2 + i)
name_byte d ip k i l =
    let from : 16 * k + 2 + i ≡ 16 * k + (2 + i) = omega arith in
    let to : 16 * (k % 32) + (2 + i) ≡ 16 * (k % 32) + 2 + i = omega arith in
    ap (content d ip) from
    ∙ entry_byte d ip k (2 + i) (omega (arith, l))
    ∙ ap (d (slot d ip (k / 32))) to

-- What `matches` tells of entry `k`.
pub matches-IsEntry :
    (d : Disk) (ip : Inode) (name : Block) (k : ℕ)
    → matches name (d (slot d ip (k / 32))) (16 * (k % 32)) ≡ true
    → IsEntry d ip name k
unfolding matches namecmp
matches-IsEntry d ip name k e =
    let blk : Block = d (slot d ip (k / 32)) in
    let o : ℕ = 16 * (k % 32) in
    let number = number_at-get16 d ip k in
    let used : (get16 blk o == 0) ≡ false = ground (arith, e) in
    let same : same_name 14 name 0 blk (o + 2) ≡ true = ground (arith, e) in
    let text = same_name-SameText 14 name 0 blk (o + 2) same in
    (
      λ z. absurd (cc (eq→== (get16 blk o) 0 (sym number ∙ z), used)),
      λ i l before.
          let at : 0 + i ≡ i = omega arith in
          name_byte d ip k i l
          ∙ text i l (λ m p z. let at' : m ≡ 0 + m = omega arith in before m p (ap name at' ∙ z))
          ∙ ap name at,
    )

pub IsEntry-matches :
    (d : Disk) (ip : Inode) (name : Block) (k : ℕ)
    → IsEntry d ip name k
    → matches name (d (slot d ip (k / 32))) (16 * (k % 32)) ≡ true
unfolding matches namecmp
IsEntry-matches d ip name k (used, text) =
    let blk : Block = d (slot d ip (k / 32)) in
    let o : ℕ = 16 * (k % 32) in
    let number = number_at-get16 d ip k in
    let no : (get16 blk o == 0) ≡ false = ne→== (get16 blk o) 0 (λ z. used (number ∙ z)) in
    let same : same_name 14 name 0 blk (o + 2) ≡ true =
      SameText-same_name 14 name 0 blk (o + 2) (λ i l before.
        let at : i ≡ 0 + i = omega arith in
        sym (name_byte d ip k i l)
        ∙ text i l (λ m p z. let at' : 0 + m ≡ m = omega arith in before m p (ap name at' ∙ z))
        ∙ ap name at) in
    rw (no, same) refl
