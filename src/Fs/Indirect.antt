-- ===== src/Fs/Indirect.antt =====
-- `bmap` on a sound disk with room: the blocks behind the direct ones.
use mathlib.Core.Path.{subst}
use computer_organization_an.Common.{
  ℕ, suc, ◌+◌, ◌-◌, ◌*◌, ◌^◌, ◌≤◌, ◌<◌, ◌≡◌, ◌≢◌, ◌⊎◌, refl, sym, ap, ◌∙◌, inl, inr, true, false,
  Bool-cases, arith, ltb, lt→ltb, ltb→lt, ◌==◌, eq→==, ne→==, ==_iff, if◌then◌else◌,
}
use computer_organization_an.Common.Outcome.{Outcome, ok}
use computer_organization_an.Fs.{Block, Disk, bwrite, put32, get32}
use computer_organization_an.Fs.Bitmap.{bwrite_self, bwrite_ne}
use computer_organization_an.Fs.Words.{put32-Bytes, get32-put32, get32-put32_ne, get32_zero}
use computer_organization_an.Fs.Valid.{
  DiskOk, Owned, Room, Fresh, balloc-Fresh, bwrite-Keeps, Keeps-trans,
}
use computer_organization_an.Fs.Inode.{
  Inode, ndirect, nindirect, set_addr, Mapped, bmap_direct, bmap_entry, bmap_indirect, bmap,
}
use computer_organization_an.Fs.Mapping.{max_blocks, entry, slot, InodeOk, InodeOk-add}
use computer_organization_an.Fs.Bmap.{
  slot_direct, slot-entry, entry_word, entry_zero, BmapOk-here, Bmapped, bmap_direct-Bmapped,
}

-- The indirect block with one more word.
entry-put32 :
    (d : Disk) (a i j b : ℕ)
    → a ≢ 0
    → b < 2 ^ 32
    → (blk : Block)
    → entry (bwrite d a (put32 blk (4 * i) b)) a j ≡ (if j == i then b else get32 blk (4 * j))
entry-put32 d a i j b n l blk =
    let word =
      entry_word (bwrite d a (put32 blk (4 * i) b)) a j n
      ∙ ap (λ t. get32 t (4 * j)) (bwrite_self d a (put32 blk (4 * i) b)) in
    elim (Bool-cases (j == i)) [
      | inl s ↦
          let e : j ≡ i = (==_iff j i).0 s in
          word
          ∙ ap (λ t. get32 (put32 blk (4 * i) b) (4 * t)) e
          ∙ get32-put32 blk (4 * i) b l
          ∙ rw s refl
      | inr s ↦ word ∙ get32-put32_ne blk (4 * i) b (4 * j) (away s) ∙ rw s refl
    ]
  where
    away : (j == i) ≡ false → (4 * j + 3 < 4 * i) ⊎ (4 * i + 3 < 4 * j)
    away s = elim (Bool-cases (ltb j i)) [
      | inl t ↦ inl (ground (arith, t))
      | inr t ↦ inr (ground (arith, s, t))
    ]

bmap_entry-Bmapped :
    (d : Disk) (ip : Inode) (i k : ℕ)
    → DiskOk d
    → InodeOk d ip
    → i < nindirect
    → ip.addrs ndirect ≢ 0
    → Room d (suc k)
    → Bmapped d ip (ndirect + i) k (bmap_entry d ip (ip.addrs ndirect) i)
unfolding bmap_entry
bmap_entry-Bmapped d ip i k v w l a_n room =
    let a : ℕ = ip.addrs ndirect in
    let bn : ℕ = ndirect + i in
    let behind : bn - ndirect ≡ i = omega arith in
    let at : slot d ip bn ≡ get32 (d a) (4 * i) =
      slot-entry d ip bn (omega arith) ∙ ap (entry d a) behind ∙ entry_word d a i a_n in
    elim (Bool-cases (get32 (d a) (4 * i) == 0)) [
      | inr n ↦ (
        record { addr = get32 (d a) (4 * i); disk = d; inode = ip },
        rw n refl,
        BmapOk-here d ip bn (get32 (d a) (4 * i)) v w at
            (λ e. absurd (cc (eq→== (get32 (d a) (4 * i)) 0 e, n))),
        omega (arith, room),
      )
      | inl z ↦
          let (b, d', e, f, room') = balloc-Fresh d k v room in
          let own_a : Owned d a = w.indirect a_n in
          let blk : Block = put32 (d a) (4 * i) b in
          let (sound, keeps, rooms) =
            bwrite-Keeps d' a blk f.sound (f.keeps.1 a own_a)
              (put32-Bytes (d a) (4 * i) b (v.bytes a)) in
          let d2 : Disk = bwrite d' a blk in
          let keeps2 = Keeps-trans d d' d2 f.keeps keeps in
          let empty : slot d ip bn ≡ 0 = at ∙ (==_iff (get32 (d a) (4 * i)) 0).0 z in
          let slots : (bm : ℕ) → slot d2 ip bm ≡ (if bm == bn then b else slot d ip bm) =
            entry_slots d d' ip i b a_n f.word_size in
          (
            record { addr = b; disk = d2; inode = ip },
            rw (z, e) refl,
            record {
              sound = sound;
              inode =
                  InodeOk-add d ip d2 ip bn b w keeps2 (keeps.1 b f.owned) f.new refl empty
                    (omega (arith, l)) f.nonzero (λ bm m. slots bm);
              keeps = keeps2;
              found = slots bn ∙ rw (eq→== bn bn refl) refl;
              nonzero = f.nonzero;
              mapped =
                  λ bm m n. slots bm ∙ rw (ne→== bm bn (λ x. n (ap (slot d ip) x ∙ empty))) refl;
              same = λ bm m n.
                  bwrite_ne d' a blk (slot d ip bm) (w.apart bm m n)
                  ∙ f.same (slot d ip bm) (w.owned bm m n);
              file = (refl, refl, refl);
            },
            rooms k room',
          )
    ]
  where
    entry_slots :
        (d d' : Disk) (ip : Inode) (i b : ℕ)
        → ip.addrs ndirect ≢ 0
        → b < 2 ^ 32
        → (bm : ℕ)
        → slot (bwrite d' (ip.addrs ndirect) (put32 (d (ip.addrs ndirect)) (4 * i) b)) ip bm
          ≡ (if bm == ndirect + i then b else slot d ip bm)
    entry_slots d d' ip i b a_n b_l bm = elim (Bool-cases (ltb bm 12)) [
      | inl s ↦
          let m = ltb→lt bm 12 s in
          let no : (bm == ndirect + i) ≡ false = ground (arith, m) in
          slot_direct _ ip bm m ∙ sym (slot_direct d ip bm m) ∙ rw no refl
      | inr s ↦
          let m : ndirect ≤ bm = ground (arith, s) in
          let same : (bm - ndirect == i) ≡ (bm == ndirect + i) = ground (arith, m) in
          slot-entry _ ip bm m
          ∙ entry-put32 d' (ip.addrs ndirect) i (bm - ndirect) b a_n b_l (d (ip.addrs ndirect))
          ∙ ap (λ t. if t then b else get32 (d (ip.addrs ndirect)) (4 * (bm - ndirect))) same
          ∙ ap (λ t. if bm == ndirect + i then b else t)
              (sym (slot-entry d ip bm m ∙ entry_word d (ip.addrs ndirect) (bm - ndirect) a_n))
    ]

-- A new indirect block, which is zero.
Bmapped-indirect :
    (d : Disk) (ip : Inode) (b : ℕ) (d' : Disk) (bn k : ℕ) (r : Outcome Mapped)
    → InodeOk d ip
    → ip.addrs ndirect ≡ 0
    → Fresh d b d'
    → (InodeOk d' (set_addr ip ndirect b) → Bmapped d' (set_addr ip ndirect b) bn k r)
    → Bmapped d ip bn k r
unfolding set_addr
Bmapped-indirect d ip b d' bn k r w z f ends =
    let (s, e, m, room) = ends (record {
      owned = λ bm l n.
          subst (Owned d') (sym (same bm))
            (f.keeps.1 (slot d ip bm) (w.owned bm l (λ x. n (same bm ∙ x))));
      indirect = λ n. f.owned;
      apart = λ bm l n e.
          f.new (slot d ip bm) (w.owned bm l (λ x. n (same bm ∙ x))) (sym (same bm) ∙ e);
      distinct = λ bm bk l l' n e.
          w.distinct bm bk l l' (λ x. n (same bm ∙ x)) (sym (same bm) ∙ e ∙ same bk);
    }) in
    (
      s,
      e,
      record {
        sound = m.sound;
        inode = m.inode;
        keeps = Keeps-trans d d' s.disk f.keeps m.keeps;
        found = m.found;
        nonzero = m.nonzero;
        mapped = λ bm l n. m.mapped bm l (λ x. n (sym (same bm) ∙ x)) ∙ same bm;
        same = λ bm l n.
            subst (λ t. s.disk t ≡ d' t) (same bm) (m.same bm l (λ x. n (sym (same bm) ∙ x)))
            ∙ f.same (slot d ip bm) (w.owned bm l n);
        file = m.file;
      },
      room,
    )
  where
    same : (bm : ℕ) → slot d' (set_addr ip ndirect b) bm ≡ slot d ip bm
    same bm = elim (Bool-cases (ltb bm 12)) [
      | inl s ↦
          let m = ltb→lt bm 12 s in
          let no : (bm == 12) ≡ false = ground (arith, m) in
          slot_direct d' (set_addr ip ndirect b) bm m ∙ rw no refl ∙ sym (slot_direct d ip bm m)
      | inr s ↦
          let m : ndirect ≤ bm = ground (arith, s) in
          slot-entry d' (set_addr ip ndirect b) bm m
          ∙ entry_word d' b (bm - ndirect) f.nonzero
          ∙ get32_zero (d' b) (4 * (bm - ndirect)) f.zeros
          ∙ sym (
              slot-entry d ip bm m
              ∙ ap (λ t. entry d t (bm - ndirect)) z
              ∙ entry_zero d (bm - ndirect))
    ]

bmap_indirect-Bmapped :
    (d : Disk) (ip : Inode) (i k : ℕ)
    → DiskOk d
    → InodeOk d ip
    → i < nindirect
    → Room d (2 + k)
    → Bmapped d ip (ndirect + i) k (bmap_indirect d ip i)
unfolding bmap_indirect set_addr
bmap_indirect-Bmapped d ip i k v w l room = elim (Bool-cases (ip.addrs ndirect == 0)) [
  | inr n ↦ rw n (
      bmap_entry-Bmapped d ip i k v w l (λ e. absurd (cc (eq→== (ip.addrs ndirect) 0 e, n)))
        (omega (arith, room)))
  | inl z ↦
      let (b, d', e, f, room') = balloc-Fresh d (suc k) v (omega (arith, room)) in
      let e0 : ip.addrs ndirect ≡ 0 = (==_iff (ip.addrs ndirect) 0).0 z in
      rw (z, e)
        (Bmapped-indirect d ip b d' (ndirect + i) k (bmap_entry d' (set_addr ip ndirect b) b i) w e0
          f (after b d' f room'))
]
  where
    after :
        (b : ℕ) (d' : Disk)
        → Fresh d b d'
        → Room d' (suc k)
        → InodeOk d' (set_addr ip ndirect b)
        → Bmapped d'
            (set_addr ip ndirect b)
            (ndirect + i)
            k
            (bmap_entry d' (set_addr ip ndirect b) b i)
    after b d' f room' w' =
        bmap_entry-Bmapped d' (set_addr ip ndirect b) i k f.sound w' l f.nonzero room'

-- On a sound disk with two free blocks `bmap` of a block below the largest file's end does not panic:
-- it returns the address of the block, which is not 0, keeps the addresses and the bytes of the
-- file's other blocks, and keeps the disk sound and the blocks of the file apart.
pub bmap-Bmapped :
    (d : Disk) (ip : Inode) (bn k : ℕ)
    → DiskOk d
    → InodeOk d ip
    → bn < max_blocks
    → Room d (2 + k)
    → Bmapped d ip bn k (bmap d ip bn)
unfolding bmap
bmap-Bmapped d ip bn k v w l room = elim (Bool-cases (ltb bn 12)) [
  | inl s ↦ rw s (bmap_direct-Bmapped d ip bn k v w (ltb→lt bn 12 s) (omega (arith, room)))
  | inr s ↦
      let m : ndirect ≤ bn = ground (arith, s) in
      let back : ndirect + (bn - ndirect) ≡ bn = omega (arith, m) in
      let in_block : ltb (bn - ndirect) 128 ≡ true =
        lt→ltb (bn - ndirect) 128 (omega (arith, l, m)) in
      rw (s, in_block)
        (subst (λ t. Bmapped d ip t k (bmap_indirect d ip (bn - ndirect))) back
          (bmap_indirect-Bmapped d ip (bn - ndirect) k v w (omega (arith, l, m)) room))
]

-- A block that the file has is found, and nothing changes.
pub bmap_found :
    (d : Disk) (ip : Inode) (bn : ℕ)
    → bn < max_blocks
    → slot d ip bn ≢ 0
    → bmap d ip bn ≡ ok (record { addr = slot d ip bn; disk = d; inode = ip })
unfolding bmap bmap_direct bmap_indirect bmap_entry
bmap_found d ip bn l n = elim (Bool-cases (ltb bn 12)) [
  | inl s ↦
      let e = slot_direct d ip bn (ltb→lt bn 12 s) in
      let some_addr : (ip.addrs bn == 0) ≡ false = ne→== (ip.addrs bn) 0 (λ z. n (e ∙ z)) in
      rw (s, some_addr, e) refl
  | inr s ↦
      let m : ndirect ≤ bn = ground (arith, s) in
      let in_block : ltb (bn - ndirect) 128 ≡ true =
        lt→ltb (bn - ndirect) 128 (omega (arith, l, m)) in
      let e = slot-entry d ip bn m in
      let a_n : ip.addrs ndirect ≢ 0 =
        λ z. n (e ∙ ap (λ t. entry d t (bn - ndirect)) z ∙ entry_zero d (bn - ndirect)) in
      let e' = e ∙ entry_word d (ip.addrs ndirect) (bn - ndirect) a_n in
      let some_word : (get32 (d (ip.addrs ndirect)) (4 * (bn - ndirect)) == 0) ≡ false =
        ne→== (get32 (d (ip.addrs ndirect)) (4 * (bn - ndirect))) 0 (λ z. n (e' ∙ z)) in
      rw (s, in_block, ne→== (ip.addrs ndirect) 0 a_n, some_word, e') refl
]
