-- ===== src/Fs/Fields.antt =====
-- The fields of an inode on the disk, written and read back.
use mathlib.Core.Path.{subst}
use computer_organization_an.Common.{
  ℕ, zero, suc, ◌+◌, ◌*◌, ◌/◌, ◌%◌, ◌^◌, ◌≤◌, ◌<◌, ◌≡◌, ◌≢◌, ◌⊎◌, refl, sym, ap, ◌∙◌, inl, inr,
  Bool-cases, arith, ltb, ◌==◌, ==_iff, eq→==,
}
use computer_organization_an.Fs.{Block, Disk, bwrite, put8, get32, put32}
use computer_organization_an.Fs.Bitmap.{bwrite_self, bwrite_ne}
use computer_organization_an.Fs.Words.{
  put8_self, put8_ne, put32_ne, get32-put32, get32-put32_ne, get32-ext,
}
use computer_organization_an.Fs.Inode.{
  Inode, get16, put16, inode_block, inode_offset, put_addrs, store_inode, iupdate, get_inode,
}

put16_ne : (blk : Block) (o v i : ℕ) → i ≢ o → i ≢ o + 1 → put16 blk o v i ≡ blk i
unfolding put16
put16_ne blk o v i n m = put8_ne (put8 blk o v) (o + 1) (v / 256) i m ∙ put8_ne blk o v i n

get16-put16 : (blk : Block) (o v : ℕ) → v < 65536 → get16 (put16 blk o v) o ≡ v
unfolding get16 put16
get16-put16 blk o v l =
    let e0 : put8 (put8 blk o v) (o + 1) (v / 256) o ≡ v % 256 =
      put8_ne (put8 blk o v) (o + 1) (v / 256) o (λ e. absurd (omega (arith, e)))
      ∙ put8_self blk o v in
    omega (arith, l, e0, put8_self (put8 blk o v) (o + 1) (v / 256))

get16-ext :
    (blk blk' : Block) (o : ℕ)
    → blk' o ≡ blk o
    → blk' (o + 1) ≡ blk (o + 1)
    → get16 blk' o ≡ get16 blk o
unfolding get16
get16-ext blk blk' o e f = omega (arith, e, f)

get16-put16_ne :
    (blk : Block) (o v p : ℕ) → (p + 1 < o) ⊎ (o + 1 < p) → get16 (put16 blk o v) p ≡ get16 blk p
get16-put16_ne blk o v p away =
    get16-ext blk (put16 blk o v) p
      (put16_ne blk o v p (λ e. ground (arith, away, e)) (λ e. ground (arith, away, e)))
      (put16_ne blk o v (p + 1) (λ e. ground (arith, away, e)) (λ e. ground (arith, away, e)))

put_addrs_ne :
    (n : ℕ) (blk : Block) (o : ℕ) (addrs : ℕ → ℕ) (i : ℕ)
    → (i < o) ⊎ (o + 4 * n ≤ i)
    → put_addrs n blk o addrs i ≡ blk i
unfolding put_addrs
put_addrs_ne zero blk o addrs i away = refl
put_addrs_ne (suc n) blk o addrs i away =
    put32_ne (put_addrs n blk o addrs) (o + 4 * n) (addrs n) i (apart away)
    ∙ put_addrs_ne n blk o addrs i (narrower away)
  where
    apart : (i < o) ⊎ (o + 4 * suc n ≤ i) → (i < o + 4 * n) ⊎ (o + 4 * n + 3 < i)
    apart (inl l) = inl (omega (arith, l))
    apart (inr l) = inr (omega (arith, l))

    narrower : (i < o) ⊎ (o + 4 * suc n ≤ i) → (i < o) ⊎ (o + 4 * n ≤ i)
    narrower (inl l) = inl l
    narrower (inr l) = inr (omega (arith, l))

get32-put_addrs :
    (n : ℕ) (blk : Block) (o : ℕ) (addrs : ℕ → ℕ) (j : ℕ)
    → j < n
    → addrs j < 2 ^ 32
    → get32 (put_addrs n blk o addrs) (o + 4 * j) ≡ addrs j
unfolding put_addrs
get32-put_addrs zero blk o addrs j l b = absurd (omega (arith, l))
get32-put_addrs (suc n) blk o addrs j l b = elim (Bool-cases (j == n)) [
  | inl s ↦
      let e : j ≡ n = (==_iff j n).0 s in
      ap (λ t. get32 (put32 (put_addrs n blk o addrs) (o + 4 * n) (addrs n)) (o + 4 * t)) e
      ∙ get32-put32 (put_addrs n blk o addrs) (o + 4 * n) (addrs n) (rw e at b)
      ∙ ap addrs (sym e)
  | inr s ↦
      let m : j < n = ground (arith, s, l) in
      get32-put32_ne (put_addrs n blk o addrs) (o + 4 * n) (addrs n) (o + 4 * j)
        (inl (omega (arith, m)))
      ∙ get32-put_addrs n blk o addrs j m b
]

-- The fields have the widths that they have on the disk.
pub record Fits (ip : Inode) : Type 0 where
  pub type : ip.type < 65536
  pub major : ip.major < 65536
  pub minor : ip.minor < 65536
  pub nlink : ip.nlink < 65536
  pub size : ip.size < 2 ^ 32
  pub addrs : (i : ℕ) → i < 13 → ip.addrs i < 2 ^ 32

-- Two inodes with the same fields on the disk.
pub record SameFields (ip jp : Inode) : Type 0 where
  pub type : jp.type ≡ ip.type
  pub major : jp.major ≡ ip.major
  pub minor : jp.minor ≡ ip.minor
  pub nlink : jp.nlink ≡ ip.nlink
  pub size : jp.size ≡ ip.size
  pub addrs : (i : ℕ) → i < 13 → jp.addrs i ≡ ip.addrs i

get_inode-store_inode :
    (blk : Block) (o : ℕ) (ip jp : Inode)
    → Fits ip
    → SameFields ip (get_inode (store_inode blk o ip) o jp)
unfolding get_inode store_inode
get_inode-store_inode blk o ip jp f =
    let b0 : Block = put16 blk o ip.type in
    let b1 : Block = put16 b0 (o + 2) ip.major in
    let b2 : Block = put16 b1 (o + 4) ip.minor in
    let b3 : Block = put16 b2 (o + 6) ip.nlink in
    let b4 : Block = put32 b3 (o + 8) ip.size in
    let b5 : Block = put_addrs 13 b4 (o + 12) ip.addrs in
    let low : (i : ℕ) → i < o + 8 → b5 i ≡ b3 i = λ i l.
      put_addrs_ne 13 b4 (o + 12) ip.addrs i (inl (omega (arith, l)))
      ∙ put32_ne b3 (o + 8) ip.size i (inl l) in
    record {
      type =
          get16-ext b3 b5 o (low o (omega arith)) (low (o + 1) (omega arith))
          ∙ get16-put16_ne b2 (o + 6) ip.nlink o (inl (omega arith))
          ∙ get16-put16_ne b1 (o + 4) ip.minor o (inl (omega arith))
          ∙ get16-put16_ne b0 (o + 2) ip.major o (inl (omega arith))
          ∙ get16-put16 blk o ip.type f.type;
      major =
          get16-ext b3 b5 (o + 2) (low (o + 2) (omega arith)) (low (o + 2 + 1) (omega arith))
          ∙ get16-put16_ne b2 (o + 6) ip.nlink (o + 2) (inl (omega arith))
          ∙ get16-put16_ne b1 (o + 4) ip.minor (o + 2) (inl (omega arith))
          ∙ get16-put16 b0 (o + 2) ip.major f.major;
      minor =
          get16-ext b3 b5 (o + 4) (low (o + 4) (omega arith)) (low (o + 4 + 1) (omega arith))
          ∙ get16-put16_ne b2 (o + 6) ip.nlink (o + 4) (inl (omega arith))
          ∙ get16-put16 b1 (o + 4) ip.minor f.minor;
      nlink =
          get16-ext b3 b5 (o + 6) (low (o + 6) (omega arith)) (low (o + 6 + 1) (omega arith))
          ∙ get16-put16 b2 (o + 6) ip.nlink f.nlink;
      size =
          get32-ext b4 b5 (o + 8)
            (λ i l m. put_addrs_ne 13 b4 (o + 12) ip.addrs i (inl (omega (arith, m))))
          ∙ get32-put32 b3 (o + 8) ip.size f.size;
      addrs = λ i l. get32-put_addrs 13 b4 (o + 12) ip.addrs i l (f.addrs i l);
    }

-- The bytes of another inode in the block.
store_inode_ne :
    (blk : Block) (o : ℕ) (ip : Inode) (i : ℕ)
    → (i < o) ⊎ (o + 64 ≤ i)
    → store_inode blk o ip i ≡ blk i
unfolding store_inode
store_inode_ne blk o ip i away =
    put_addrs_ne 13 _ (o + 12) ip.addrs i (beside away)
    ∙ put32_ne _ (o + 8) ip.size i (around away)
    ∙ put16_ne _ (o + 6) ip.nlink i (λ e. absurd (ground (arith, away, e)))
        (λ e. absurd (ground (arith, away, e)))
    ∙ put16_ne _ (o + 4) ip.minor i (λ e. absurd (ground (arith, away, e)))
        (λ e. absurd (ground (arith, away, e)))
    ∙ put16_ne _ (o + 2) ip.major i (λ e. absurd (ground (arith, away, e)))
        (λ e. absurd (ground (arith, away, e)))
    ∙ put16_ne blk o ip.type i (λ e. absurd (ground (arith, away, e)))
        (λ e. absurd (ground (arith, away, e)))
  where
    beside : (i < o) ⊎ (o + 64 ≤ i) → (i < o + 12) ⊎ (o + 12 + 4 * 13 ≤ i)
    beside (inl l) = inl (omega (arith, l))
    beside (inr l) = inr (omega (arith, l))

    around : (i < o) ⊎ (o + 64 ≤ i) → (i < o + 8) ⊎ (o + 8 + 3 < i)
    around (inl l) = inl (omega (arith, l))
    around (inr l) = inr (omega (arith, l))

other_inode :
    (m n i : ℕ)
    → m ≢ n
    → i < 64
    → inode_block m ≡ inode_block n
    → (inode_offset m + i < inode_offset n) ⊎ (inode_offset n + 64 ≤ inode_offset m + i)
unfolding inode_block inode_offset
other_inode m n i ne l e = elim (Bool-cases (ltb m n)) [
  | inl s ↦ inl (ground (arith, s, l, e))
  | inr s ↦ inr (ground (arith, s, ne, e))
]

-- Behind `iupdate` of an inode whose fields have the widths that they have on the disk, reading the
-- inode as `ilock` does gives all of its fields back, and the bytes of every other inode are as they
-- were.
pub iupdate-get_inode :
    (d : Disk) (ip jp : Inode)
    → Fits ip
    → SameFields ip (get_inode (iupdate d ip (inode_block ip.inum)) (inode_offset ip.inum) jp)
      × ((m i : ℕ)
          → m ≢ ip.inum
          → i < 64
          → iupdate d ip (inode_block m) (inode_offset m + i)
            ≡ d (inode_block m) (inode_offset m + i))
unfolding iupdate
iupdate-get_inode d ip jp f =
    let b : ℕ = inode_block ip.inum in
    let o : ℕ = inode_offset ip.inum in
    let blk : Block = store_inode (d b) o ip in
    (
      subst (λ t. SameFields ip (get_inode t o jp)) (sym (bwrite_self d b blk))
          (get_inode-store_inode (d b) o ip jp f),
      λ m i n l. elim (Bool-cases (inode_block m == b)) [
        | inl s ↦
            let e : inode_block m ≡ b = (==_iff (inode_block m) b).0 s in
            ap (λ t. bwrite d b blk t (inode_offset m + i)) e
            ∙ ap (λ (t : Block). t (inode_offset m + i)) (bwrite_self d b blk)
            ∙ store_inode_ne (d b) o ip (inode_offset m + i) (other_inode m ip.inum i n l e)
            ∙ ap (λ t. d t (inode_offset m + i)) (sym e)
        | inr s ↦
            ap (λ (t : Block). t (inode_offset m + i))
              (bwrite_ne d b blk (inode_block m) (λ e. absurd (cc (eq→== (inode_block m) b e, s))))
      ],
    )
