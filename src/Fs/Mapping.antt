-- ===== src/Fs/Mapping.antt =====
-- The blocks of an inode, and what `bmap` adds to them.
use mathlib.Core.Path.{subst}
use computer_organization_an.Common.{
  ℕ, ◌-◌, ◌*◌, ◌<◌, ◌≡◌, ◌≢◌, ◌⊎◌, refl, sym, ◌∙◌, inl, inr, Bool-cases, ltb, ◌==◌, eq→==, ==_iff,
  if◌then◌else◌,
}
use computer_organization_an.Fs.{Disk, get32}
use computer_organization_an.Fs.Valid.{DiskOk, Owned, Keeps}
use computer_organization_an.Fs.Inode.{Inode, ndirect, Mapped}

-- MAXFILE
abbrev pub max_blocks : ℕ
max_blocks = 140

-- An entry of the indirect block, if there is one.
unfoldable pub entry : Disk → ℕ → ℕ → ℕ
entry d a i = if a == 0 then 0 else get32 (d a) (4 * i)

-- The address of block `bn` of the file, 0 if it has none.
unfoldable pub slot : Disk → Inode → ℕ → ℕ
slot d ip bn = if ltb bn ndirect then ip.addrs bn else entry d (ip.addrs ndirect) (bn - ndirect)

-- The blocks of an inode are in use, and none of them serves twice.
pub record InodeOk (d : Disk) (ip : Inode) : Type 0 where
  pub owned : (bn : ℕ) → bn < max_blocks → slot d ip bn ≢ 0 → Owned d (slot d ip bn)
  pub indirect : ip.addrs ndirect ≢ 0 → Owned d (ip.addrs ndirect)
  pub apart : (bn : ℕ) → bn < max_blocks → slot d ip bn ≢ 0 → slot d ip bn ≢ ip.addrs ndirect
  pub distinct :
      (bn bm : ℕ)
      → bn < max_blocks
      → bm < max_blocks
      → slot d ip bn ≢ 0
      → slot d ip bn ≡ slot d ip bm
      → bn ≡ bm

-- Everything of the inode but its addresses.
abbrev pub SameFile : Inode → Inode → Type 0
SameFile ip ip' = (ip'.size ≡ ip.size) × (ip'.inum ≡ ip.inum) × (ip'.type ≡ ip.type)

-- The state behind `bmap` for block `bn`.
pub record BmapOk (d : Disk) (ip : Inode) (bn : ℕ) (r : Mapped) : Type 0 where
  pub sound : DiskOk r.disk
  pub inode : InodeOk r.disk r.inode
  pub keeps : Keeps d r.disk
  pub found : slot r.disk r.inode bn ≡ r.addr
  pub nonzero : r.addr ≢ 0
  pub mapped : (bm : ℕ) → bm < max_blocks → slot d ip bm ≢ 0 → slot r.disk r.inode bm ≡ slot d ip bm
  pub same :
      (bm : ℕ) → bm < max_blocks → slot d ip bm ≢ 0 → r.disk (slot d ip bm) ≡ d (slot d ip bm)
  pub file : SameFile ip r.inode

-- One more block, at address `b`, for block `bn` of the file.
pub InodeOk-add :
    (d : Disk) (ip : Inode) (d' : Disk) (ip' : Inode) (bn b : ℕ)
    → InodeOk d ip
    → Keeps d d'
    → Owned d' b
    → ((a : ℕ) → Owned d a → a ≢ b)
    → ip'.addrs ndirect ≡ ip.addrs ndirect
    → slot d ip bn ≡ 0
    → bn < max_blocks
    → b ≢ 0
    → ((bm : ℕ) → bm < max_blocks → slot d' ip' bm ≡ (if bm == bn then b else slot d ip bm))
    → InodeOk d' ip'
InodeOk-add d ip d' ip' bn b v (sb, keep) own new ind empty bn_l b_n slots = record {
  owned = λ bm l n. elim (view bm l) [
    | inl (_, e) ↦ subst (Owned d') (sym e) own
    | inr (_, e) ↦ subst (Owned d') (sym e) (keep (slot d ip bm) (v.owned bm l (λ z. n (e ∙ z))))
  ];
  indirect =
      λ n. subst (Owned d') (sym ind) (keep (ip.addrs ndirect) (v.indirect (λ z. n (ind ∙ z))));
  apart = λ bm l n same. elim (view bm l) [
    | inl (_, e) ↦ not_indirect (sym e ∙ same ∙ ind)
    | inr (_, e) ↦ v.apart bm l (λ z. n (e ∙ z)) (sym e ∙ same ∙ ind)
  ];
  distinct = λ bm bk l m n same. elim (view bm l) [
    | inl (x, e) ↦ elim (view bk m) [
      | inl (y, _) ↦ x ∙ sym y
      | inr (_, f) ↦
          let z : slot d ip bk ≡ b = sym f ∙ sym same ∙ e in
          absurd (new (slot d ip bk) (v.owned bk m (λ k. b_n (sym z ∙ k))) z)
    ]
    | inr (_, e) ↦
        let n' : slot d ip bm ≢ 0 = λ z. n (e ∙ z) in
        elim (view bk m) [
          | inl (_, f) ↦ absurd (new (slot d ip bm) (v.owned bm l n') (sym e ∙ same ∙ f))
          | inr (_, f) ↦ v.distinct bm bk l m n' (sym e ∙ same ∙ f)
        ]
  ];
}
  where
    view :
        (bm : ℕ)
        → bm < max_blocks
        → ((bm ≡ bn) × (slot d' ip' bm ≡ b)) ⊎ ((bm ≢ bn) × (slot d' ip' bm ≡ slot d ip bm))
    view bm l = elim (Bool-cases (bm == bn)) [
      | inl s ↦ inl ((==_iff bm bn).0 s, slots bm l ∙ rw s refl)
      | inr s ↦ inr (λ e. absurd (cc (eq→== bm bn e, s)), slots bm l ∙ rw s refl)
    ]

    not_indirect : b ≢ ip.addrs ndirect
    not_indirect e = elim (Bool-cases (ip.addrs ndirect == 0)) [
      | inl z ↦ b_n (e ∙ (==_iff (ip.addrs ndirect) 0).0 z)
      | inr z ↦
          new (ip.addrs ndirect) (v.indirect (λ k. absurd (cc (eq→== (ip.addrs ndirect) 0 k, z))))
            (sym e)
    ]

-- An inode whose blocks are as they were.
pub InodeOk-keep :
    (d : Disk) (ip : Inode) (d' : Disk) (ip' : Inode)
    → InodeOk d ip
    → Keeps d d'
    → ip'.addrs ndirect ≡ ip.addrs ndirect
    → ((bm : ℕ) → bm < max_blocks → slot d' ip' bm ≡ slot d ip bm)
    → InodeOk d' ip'
InodeOk-keep d ip d' ip' v (sb, keep) ind slots = record {
  owned = λ bm l n.
      let e = slots bm l in
      subst (Owned d') (sym e) (keep (slot d ip bm) (v.owned bm l (λ z. n (e ∙ z))));
  indirect =
      λ n. subst (Owned d') (sym ind) (keep (ip.addrs ndirect) (v.indirect (λ z. n (ind ∙ z))));
  apart = λ bm l n same. let e = slots bm l in v.apart bm l (λ z. n (e ∙ z)) (sym e ∙ same ∙ ind);
  distinct = λ bm bk l m n same.
      let e = slots bm l in v.distinct bm bk l m (λ z. n (e ∙ z)) (sym e ∙ same ∙ slots bk m);
}
