-- ===== src/Fs/Bmap.antt =====
-- `bmap` on a sound disk with room: the direct blocks.
use computer_organization_an.Common.{
  ℕ, suc, ◌-◌, ◌*◌, ◌≤◌, ◌<◌, ◌≡◌, ◌≢◌, refl, sym, ap, ◌∙◌, inl, inr, false, Bool-cases, arith, ltb,
  lt→ltb, ltb→lt, le→ltb, ◌==◌, eq→==, ne→==, ==_iff, if◌then◌else◌,
}
use computer_organization_an.Common.Outcome.{Outcome, ok}
use computer_organization_an.Fs.{Disk, get32}
use computer_organization_an.Fs.Valid.{DiskOk, Room, balloc-Fresh}
use computer_organization_an.Fs.Inode.{Inode, ndirect, set_addr, Mapped, bmap_direct}
use computer_organization_an.Fs.Mapping.{entry, slot, InodeOk, BmapOk, InodeOk-add}

pub slot_direct : (d : Disk) (ip : Inode) (bn : ℕ) → bn < ndirect → slot d ip bn ≡ ip.addrs bn
unfolding slot
slot_direct d ip bn l = rw (lt→ltb bn 12 l) refl

pub slot-entry :
    (d : Disk) (ip : Inode) (bn : ℕ)
    → ndirect ≤ bn
    → slot d ip bn ≡ entry d (ip.addrs ndirect) (bn - ndirect)
unfolding slot
slot-entry d ip bn l = rw (le→ltb bn 12 l) refl

pub entry_word : (d : Disk) (a i : ℕ) → a ≢ 0 → entry d a i ≡ get32 (d a) (4 * i)
unfolding entry
entry_word d a i n = rw (ne→== a 0 n) refl

pub entry_zero : (d : Disk) (i : ℕ) → entry d 0 i ≡ 0
unfolding entry
entry_zero d i = refl

entry-same : (d d' : Disk) (a i : ℕ) → (a ≢ 0 → d' a ≡ d a) → entry d' a i ≡ entry d a i
unfolding entry
entry-same d d' a i h = elim (Bool-cases (a == 0)) [
  | inl z ↦ rw z refl
  | inr z ↦ rw z (ap (λ t. get32 t (4 * i)) (h (λ e. absurd (cc (eq→== a 0 e, z)))))
]

-- The slots behind a step that leaves the direct addresses and the indirect block.
pub slot-same :
    (d d' : Disk) (ip ip' : Inode) (bm : ℕ)
    → (bm < ndirect → ip'.addrs bm ≡ ip.addrs bm)
    → ip'.addrs ndirect ≡ ip.addrs ndirect
    → (ip.addrs ndirect ≢ 0 → d' (ip.addrs ndirect) ≡ d (ip.addrs ndirect))
    → slot d' ip' bm ≡ slot d ip bm
slot-same d d' ip ip' bm direct ind same = elim (Bool-cases (ltb bm 12)) [
  | inl s ↦
      let l = ltb→lt bm 12 s in slot_direct d' ip' bm l ∙ direct l ∙ sym (slot_direct d ip bm l)
  | inr s ↦
      let l : ndirect ≤ bm = ground (arith, s) in
      slot-entry d' ip' bm l
      ∙ ap (λ t. entry d' t (bm - ndirect)) ind
      ∙ entry-same d d' (ip.addrs ndirect) (bm - ndirect) same
      ∙ sym (slot-entry d ip bm l)
]

-- Nothing to add.
pub BmapOk-here :
    (d : Disk) (ip : Inode) (bn a : ℕ)
    → DiskOk d
    → InodeOk d ip
    → slot d ip bn ≡ a
    → a ≢ 0
    → BmapOk d ip bn (record { addr = a; disk = d; inode = ip })
BmapOk-here d ip bn a v w e n = record {
  sound = v;
  inode = w;
  keeps = (refl, λ x o. o);
  found = e;
  nonzero = n;
  mapped = λ bm l m. refl;
  same = λ bm l m. refl;
  file = (refl, refl, refl);
}

-- What `bmap` comes to.
abbrev pub Bmapped : Disk → Inode → ℕ → ℕ → Outcome Mapped → Type 0
Bmapped d ip bn k r = (s : Mapped) × (r ≡ ok s) × BmapOk d ip bn s × Room s.disk k

pub bmap_direct-Bmapped :
    (d : Disk) (ip : Inode) (bn k : ℕ)
    → DiskOk d
    → InodeOk d ip
    → bn < ndirect
    → Room d (suc k)
    → Bmapped d ip bn k (bmap_direct d ip bn)
unfolding bmap_direct set_addr
bmap_direct-Bmapped d ip bn k v w l room = elim (Bool-cases (ip.addrs bn == 0)) [
  | inr n ↦ (
    record { addr = ip.addrs bn; disk = d; inode = ip },
    rw n refl,
    BmapOk-here d ip bn (ip.addrs bn) v w (slot_direct d ip bn l)
        (λ e. absurd (cc (eq→== (ip.addrs bn) 0 e, n))),
    omega (arith, room),
  )
  | inl z ↦
      let (b, d', e, f, room') = balloc-Fresh d k v room in
      let ip' : Inode = record ip { addrs = λ j. if j == bn then b else ip.addrs j } in
      let empty : slot d ip bn ≡ 0 = slot_direct d ip bn l ∙ (==_iff (ip.addrs bn) 0).0 z in
      let not_ind : (12 == bn) ≡ false = ground (arith, l) in
      let ind : ip'.addrs ndirect ≡ ip.addrs ndirect = rw not_ind refl in
      let others : (bm : ℕ) → (bm == bn) ≡ false → slot d' ip' bm ≡ slot d ip bm = λ bm s.
        slot-same d d' ip ip' bm (λ m. rw s refl) ind
          (λ a_n. f.same (ip.addrs ndirect) (w.indirect a_n)) in
      let here : slot d' ip' bn ≡ b = slot_direct d' ip' bn l ∙ rw (eq→== bn bn refl) refl in
      (
        record { addr = b; disk = d'; inode = ip' },
        rw (z, e) refl,
        record {
          sound = f.sound;
          inode =
              InodeOk-add d ip d' ip' bn b w f.keeps f.owned f.new ind empty (omega (arith, l))
                f.nonzero
                (λ bm m. elim (Bool-cases (bm == bn)) [
                  | inl s ↦ rw s (ap (slot d' ip') ((==_iff bm bn).0 s) ∙ here)
                  | inr s ↦ rw s (others bm s)
                ]);
          keeps = f.keeps;
          found = here;
          nonzero = f.nonzero;
          mapped = λ bm m n. others bm (ne→== bm bn (λ x. n (ap (slot d ip) x ∙ empty)));
          same = λ bm m n. f.same (slot d ip bm) (w.owned bm m n);
          file = (refl, refl, refl);
        },
        room',
      )
]
