-- ===== src/Fs/Writing.antt =====
-- What a round of `writei` makes of the bytes of a file.
use mathlib.Core.Path.{subst}
use computer_organization_an.Common.{
  ℕ, ◌+◌, ◌-◌, ◌*◌, ◌/◌, ◌%◌, ◌≤◌, ◌<◌, ◌≡◌, ◌≢◌, ◌⊎◌, refl, sym, ap, ◌∙◌, inl, inr, ◌&&◌,
  Bool-cases, arith, ltb, leb, ltb→lt, ◌==◌, ==_iff, eq→==,
}
use computer_organization_an.Fs.{Block, Disk, block_size, bwrite}
use computer_organization_an.Fs.Bitmap.{bwrite_self, bwrite_ne, Bytes}
use computer_organization_an.Fs.Valid.{DiskOk, Owned, Room, Keeps, bwrite-Keeps, Keeps-trans}
use computer_organization_an.Fs.Inode.{Inode, ndirect, Mapped}
use computer_organization_an.Fs.Content.{copy, max_size}
use computer_organization_an.Fs.Mapping.{max_blocks, slot, InodeOk, SameFile, BmapOk, InodeOk-keep}
use computer_organization_an.Fs.Bmap.{slot-same}
use computer_organization_an.Fs.Reading.{content, copy_inside, copy_outside}

-- `len` bytes of `src` from `tot` on are written to the file from `off` on.
pub record Wrote (src : Block) (d : Disk) (ip : Inode) (off tot len : ℕ) (d' : Disk) (ip' : Inode)
    : Type 0 where
  pub sound : DiskOk d'
  pub inode : InodeOk d' ip'
  pub keeps : Keeps d d'
  pub file : SameFile ip ip'
  pub mapped : (bn : ℕ) → bn < max_blocks → slot d ip bn ≢ 0 → slot d' ip' bn ≢ 0
  pub reached :
      (bn : ℕ)
      → bn < max_blocks
      → 0 < len
      → block_size * bn < off + len
      → off < block_size * bn + block_size
      → slot d' ip' bn ≢ 0
  pub inside : (o : ℕ) → off ≤ o → o < off + len → content d' ip' o ≡ src (tot + (o - off))
  pub outside :
      (o : ℕ)
      → o / block_size < max_blocks
      → slot d ip (o / block_size) ≢ 0
      → (o < off) ⊎ (off + len ≤ o)
      → content d' ip' o ≡ content d ip o

pub Wrote-none :
    (src : Block) (d : Disk) (ip : Inode) (off tot : ℕ)
    → DiskOk d
    → InodeOk d ip
    → Wrote src d ip off tot 0 d ip
Wrote-none src d ip off tot v w = record {
  sound = v;
  inode = w;
  keeps = (refl, λ a o. o);
  file = (refl, refl, refl);
  mapped = λ bn l n. n;
  reached = λ bn l z p q. absurd (omega (arith, z));
  inside = λ o p q. absurd (omega (arith, p, q));
  outside = λ o l n p. refl;
}

pub Wrote-trans :
    (src : Block) (d : Disk) (ip : Inode) (off tot m k : ℕ) (d1 : Disk) (ip1 : Inode) (d2 : Disk)
    (ip2 : Inode)
    → off + m + k ≤ max_size
    → 0 < m
    → Wrote src d ip off tot m d1 ip1
    → Wrote src d1 ip1 (off + m) (tot + m) k d2 ip2
    → Wrote src d ip off tot (m + k) d2 ip2
Wrote-trans src d ip off tot m k d1 ip1 d2 ip2 most m_pos a b = record {
  sound = b.sound;
  inode = b.inode;
  keeps = Keeps-trans d d1 d2 a.keeps b.keeps;
  file = (b.file.0 ∙ a.file.0, b.file.1 ∙ a.file.1, b.file.2 ∙ a.file.2);
  mapped = λ bn l n. b.mapped bn l (a.mapped bn l n);
  reached = λ bn l z p q. elim (Bool-cases (ltb (512 * bn) (off + m))) [
    | inl s ↦ b.mapped bn l (a.reached bn l m_pos (ltb→lt (512 * bn) (off + m) s) q)
    | inr s ↦ b.reached bn l (ground (arith, s, p)) (omega (arith, p)) (ground (arith, s))
  ];
  inside = λ o p q. elim (Bool-cases (ltb o (off + m))) [
    | inl s ↦
        let o_l = ltb→lt o (off + m) s in
        b.outside o (omega (arith, o_l, most))
          (a.reached (o / 512) (omega (arith, o_l, most)) m_pos (omega (arith, o_l))
            (omega (arith, p)))
          (inl o_l)
        ∙ a.inside o p o_l
    | inr s ↦
        let o_l : off + m ≤ o = ground (arith, s) in
        let place : tot + m + (o - (off + m)) ≡ tot + (o - off) = omega (arith, o_l) in
        b.inside o o_l (omega (arith, q)) ∙ ap src place
  ];
  outside =
      λ o l n p. b.outside o l (a.mapped (o / 512) l n) (second o p) ∙ a.outside o l n (first o p);
}
  where
    first : (o : ℕ) → (o < off) ⊎ (off + (m + k) ≤ o) → (o < off) ⊎ (off + m ≤ o)
    first o (inl p) = inl p
    first o (inr p) = inr (omega (arith, p))

    second : (o : ℕ) → (o < off) ⊎ (off + (m + k) ≤ o) → (o < off + m) ⊎ (off + m + k ≤ o)
    second o (inl p) = inl (omega (arith, p))
    second o (inr p) = inr (omega (arith, p))

copy-Bytes :
    (dst : Block) (to : ℕ) (src : Block) (from n : ℕ)
    → Bytes dst
    → Bytes src
    → Bytes (copy dst to src from n)
unfolding copy
copy-Bytes dst to src from n h k i = elim (Bool-cases (leb to i && ltb i (to + n))) [
  | inl s ↦ rw s (k (from + (i - to)))
  | inr s ↦ rw s (h i)
]

-- A round: the bytes go into the block that `bmap` has found.
pub Wrote-round :
    (src : Block) (d : Disk) (ip : Inode) (off tot m : ℕ) (r : Mapped)
    → Bytes src
    → InodeOk d ip
    → off / block_size < max_blocks
    → off % block_size + m ≤ block_size
    → BmapOk d ip (off / block_size) r
    → Wrote src d ip off tot m
        (bwrite r.disk r.addr (copy (r.disk r.addr) (off % block_size) src tot m))
        r.inode
      × ((k : ℕ)
          → Room r.disk k
          → Room (bwrite r.disk r.addr (copy (r.disk r.addr) (off % block_size) src tot m)) k)
Wrote-round src d ip off tot m r bytes w bn_l fit b =
    let bn : ℕ = off / block_size in
    let d1 : Disk = r.disk in
    let a : ℕ = r.addr in
    let blk : Block = copy (d1 a) (off % block_size) src tot m in
    let d2 : Disk = bwrite d1 a blk in
    let here_n : slot d1 r.inode bn ≢ 0 = λ z. b.nonzero (sym b.found ∙ z) in
    let own : Owned d1 a = subst (Owned d1) b.found (b.inode.owned bn bn_l here_n) in
    let (sound, keeps, rooms) =
      bwrite-Keeps d1 a blk b.sound own
        (copy-Bytes (d1 a) (off % block_size) src tot m (b.sound.bytes a) bytes) in
    let slots : (bm : ℕ) → slot d2 r.inode bm ≡ slot d1 r.inode bm = λ bm.
      slot-same d1 d2 r.inode r.inode bm (λ l. refl) refl
        (λ n.
          bwrite_ne d1 a blk (r.inode.addrs ndirect)
            (λ e. b.inode.apart bn bn_l here_n (b.found ∙ sym e))) in
    let here : slot d2 r.inode bn ≡ a = slots bn ∙ b.found in
    (
      record {
        sound = sound;
        inode = InodeOk-keep d1 r.inode d2 r.inode b.inode keeps refl (λ bm l. slots bm);
        keeps = Keeps-trans d d1 d2 b.keeps keeps;
        file = b.file;
        mapped = λ bm l n z. n (sym (b.mapped bm l n) ∙ sym (slots bm) ∙ z);
        reached = λ bm l z p q.
            let e : bm ≡ bn = omega (arith, p, q, fit) in
            λ k. b.nonzero (sym here ∙ ap (slot d2 r.inode) (sym e) ∙ k);
        inside = λ o p q.
            let block : o / 512 ≡ bn = omega (arith, p, q, fit) in
            let place : o % 512 ≡ off % 512 + (o - off) = omega (arith, p, q, fit) in
            ap (λ t. d2 t (o % 512)) (ap (slot d2 r.inode) block ∙ here)
            ∙ ap (λ (t : Block). t (o % 512)) (bwrite_self d1 a blk)
            ∙ copy_inside (d1 a) (off % 512) src tot m (o % 512) (omega (arith, place))
                (omega (arith, place, p, q))
            ∙ ap (λ t. src (tot + t)) (omega (arith, place));
        outside = λ o l n p. elim (Bool-cases (o / 512 == bn)) [
          | inl s ↦
              let e : o / 512 ≡ bn = (==_iff (o / 512) bn).0 s in
              let at : slot d ip (o / 512) ≡ a =
                sym (b.mapped (o / 512) l n) ∙ ap (slot d1 r.inode) e ∙ b.found in
              ap (λ t. d2 t (o % 512)) (ap (slot d2 r.inode) e ∙ here)
              ∙ ap (λ (t : Block). t (o % 512)) (bwrite_self d1 a blk)
              ∙ copy_outside (d1 a) (off % 512) src tot m (o % 512) (beside o e p)
              ∙ ap (λ t. d1 t (o % 512)) (sym at)
              ∙ ap (λ (t : Block). t (o % 512)) (b.same (o / 512) l n)
          | inr s ↦
              let e = b.mapped (o / 512) l n in
              let other : slot d ip (o / 512) ≢ a = λ z. absurd (
                cc (
                  eq→== (o / 512) bn (
                      b.inode.distinct (o / 512) bn l bn_l (λ k. n (sym e ∙ k))
                        (e ∙ z ∙ sym b.found)),
                  s,
                )) in
              ap (λ t. d2 t (o % 512)) (slots (o / 512) ∙ e)
              ∙ ap (λ (t : Block). t (o % 512))
                  (bwrite_ne d1 a blk (slot d ip (o / 512)) other ∙ b.same (o / 512) l n)
        ];
      },
      rooms,
    )
  where
    beside :
        (o : ℕ)
        → o / 512 ≡ off / 512
        → (o < off) ⊎ (off + m ≤ o)
        → (o % 512 < off % 512) ⊎ (off % 512 + m ≤ o % 512)
    beside o e (inl p) = inl (omega (arith, e, p))
    beside o e (inr p) = inr (omega (arith, e, p))
