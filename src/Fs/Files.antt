-- ===== src/Fs/Files.antt =====
-- `readi` and `writei` of a file that is not a device.
use mathlib.Core.Path.{subst}
use computer_organization_an.Common.{
  ℕ, suc, ◌+◌, ◌-◌, ◌*◌, ◌/◌, ◌%◌, ◌≤◌, ◌<◌, ◌≡◌, ◌≢◌, ◌⊎◌, refl, sym, ap, ◌∙◌, inl, inr, Bool,
  true, false, ◌&&◌, Bool-cases, Option, some, arith, ltb, ltb→lt, le→ltb, ne→==, if◌then◌else◌,
  add32,
}
use computer_organization_an.Common.Outcome.{Outcome, ok}
use computer_organization_an.Fs.{Block, Disk, Superblock, block_size, readsb}
use computer_organization_an.Fs.Bitmap.{Bytes}
use computer_organization_an.Fs.Valid.{DiskOk, Room}
use computer_organization_an.Fs.Inode.{Inode, ndirect, t_dev, iupdate}
use computer_organization_an.Fs.Content.{max_size, in_range, readi, Written, grown, writei}
use computer_organization_an.Fs.Mapping.{max_blocks, slot, InodeOk, InodeOk-keep}
use computer_organization_an.Fs.Bmap.{slot-same}
use computer_organization_an.Fs.Reading.{content, MappedTo, Copied, readi_loop-Copied}
use computer_organization_an.Fs.Writing.{Wrote}
use computer_organization_an.Fs.WriteLoop.{rounds, writei_loop_all}
use computer_organization_an.Fs.Update.{Unmoved, iupdate-Unmoved}

-- A sound file on a sound disk.
pub record FileOk (d : Disk) (ip : Inode) : Type 0 where
  pub disk : DiskOk d
  pub inode : InodeOk d ip
  pub mapped : MappedTo d ip ip.size
  pub small : ip.size ≤ max_size
  pub number : ip.inum < (readsb d).ninodes
  pub no_device : ip.type ≢ t_dev

-- The result of a transfer from `off` on of a whole file that stays.
abbrev pub WrittenOk : Disk → Inode → Block → ℕ → ℕ → Outcome Written → Type 0
WrittenOk d ip src off n r =
    (d' : Disk) × (ip' : Inode) × (r ≡ ok (record { result = some n; disk = d'; inode = ip' }))
    × FileOk d' ip'
    × (ip'.size ≡ (if ltb ip.size (off + n) then off + n else ip.size))
    × ((o : ℕ) → off ≤ o → o < off + n → content d' ip' o ≡ src (o - off))
    × ((o : ℕ) → o < ip.size → (o < off) ⊎ (off + n ≤ o) → content d' ip' o ≡ content d ip o)

-- The bytes that stay or are new, before the size is set.
module _ (d : Disk) (ip : Inode) (src : Block) (off n : ℕ) (d' : Disk) (ip' : Inode)
    (f : FileOk d ip) (l : off ≤ ip.size) (most : off + n ≤ max_size)
    (a : Wrote src d ip off 0 n d' ip') where
  below_size : (bn : ℕ) → block_size * bn < ip.size → slot d' ip' bn ≢ 0
  below_size bn m = a.mapped bn (omega (arith, m, f.small)) (f.mapped bn m)

  below_end : (bn : ℕ) → 0 < n → block_size * bn < off + n → slot d' ip' bn ≢ 0
  below_end bn p m = elim (Bool-cases (ltb (512 * bn) ip.size)) [
    | inl s ↦ below_size bn (ltb→lt (512 * bn) ip.size s)
    | inr s ↦ a.reached bn (omega (arith, m, most)) p m (ground (arith, s, l))
  ]

  kept : (o : ℕ) → o < ip.size → (o < off) ⊎ (off + n ≤ o) → content d' ip' o ≡ content d ip o
  kept o m p = a.outside o (omega (arith, m, f.small)) (f.mapped (o / 512) (omega (arith, m))) p

  placed : (o : ℕ) → off ≤ o → o < off + n → content d' ip' o ≡ src (o - off)
  placed o m q = let same : 0 + (o - off) ≡ o - off = omega arith in a.inside o m q ∙ ap src same

  same_number : ip'.inum < (readsb d').ninodes
  same_number =
      let e = a.file.1 in
      let e' = ap (λ (s : Superblock). s.ninodes) a.keeps.0 in omega (arith, e, e', f.number)

  inside_size :
      (ltb 0 n && ltb ip'.size (off + n)) ≡ false
      → WrittenOk d ip src off n (ok (record { result = some n; disk = d'; inode = ip' }))
  inside_size s =
      let e = a.file.0 in
      let no : ltb ip.size (off + n) ≡ false = ground (arith, s, e, l) in
      (
        d',
        ip',
        refl,
        record {
          disk = a.sound;
          inode = a.inode;
          mapped = λ bn m. below_size bn (omega (arith, m, e));
          small = omega (arith, e, f.small);
          number = same_number;
          no_device = λ z. f.no_device (sym a.file.2 ∙ z);
        },
        e ∙ rw no refl,
        placed,
        kept,
      )

  past_size :
      (ltb 0 n && ltb ip'.size (off + n)) ≡ true
      → WrittenOk d ip src off n (
          ok (record {
            result = some n;
            disk = iupdate d' (record ip' { size = off + n });
            inode = record ip' { size = off + n };
          }))
  past_size s =
      let e = a.file.0 in
      let yes : ltb ip.size (off + n) ≡ true = ground (arith, s, e) in
      let p : 0 < n = ground (arith, s) in
      let ip2 : Inode = record ip' { size = off + n } in
      let d2 : Disk = iupdate d' ip2 in
      let u : Unmoved d' d2 = iupdate-Unmoved d' ip2 a.sound same_number in
      let slots : (bn : ℕ) → slot d2 ip2 bn ≡ slot d' ip' bn = λ bn.
        slot-same d' d2 ip' ip2 bn (λ m. refl) refl
          (λ m. u.same (ip'.addrs ndirect) (a.inode.indirect m)) in
      let bytes : (o : ℕ)
          → o / 512 < max_blocks
          → slot d' ip' (o / 512) ≢ 0
          → content d2 ip2 o ≡ content d' ip' o =
        λ o m z.
          ap (λ t. d2 t (o % 512)) (slots (o / 512))
          ∙ ap (λ (t : Block). t (o % 512))
              (u.same (slot d' ip' (o / 512)) (a.inode.owned (o / 512) m z)) in
      (
        d2,
        ip2,
        refl,
        record {
          disk = u.sound;
          inode = InodeOk-keep d' ip' d2 ip2 a.inode u.keeps refl (λ bn m. slots bn);
          mapped = λ bn m z. below_end bn p m (sym (slots bn) ∙ z);
          small = most;
          number =
              let e' = ap (λ (s : Superblock). s.ninodes) u.keeps.0 in
              let r = same_number in omega (arith, r, e');
          no_device = λ z. f.no_device (sym a.file.2 ∙ z);
        },
        rw yes refl,
        λ o m q.
            bytes o (omega (arith, q, most)) (below_end (o / 512) p (omega (arith, q)))
            ∙ placed o m q,
        λ o m q.
            bytes o (omega (arith, m, f.small)) (below_size (o / 512) (omega (arith, m)))
            ∙ kept o m q,
      )

  grown-WrittenOk : WrittenOk d ip src off n (ok (grown n (off + n) d' ip'))
  unfolding grown
  grown-WrittenOk = elim (Bool-cases (ltb 0 n && ltb ip'.size (off + n))) [
    | inl s ↦ rw s (past_size s)
    | inr s ↦ rw s (inside_size s)
  ]

-- The tests at the begin of `readi` and `writei`.
in_range-true :
    (ip : Inode) (off n : ℕ) → off ≤ ip.size → off + n ≤ max_size → in_range ip off n ≡ true
unfolding in_range
in_range-true ip off n l most =
    let e : add32 off n ≡ off + n = omega (arith, most) in
    let no : ltb (add32 off n) off ≡ false = ground (arith, e) in rw (le→ltb ip.size off l, no) refl

-- `writei` of bytes to a sound file, from an offset in it or at its end on and up to the largest size,
-- on a disk with two free blocks for every block that the bytes touch: it returns their number; they
-- are the file's bytes from the offset on, the file's other bytes are as they were, its size has grown
-- to their end if that lies behind it, and the file and the disk are sound.
pub writei-WrittenOk :
    (devwrite : ℕ → Option (Inode → Block → ℕ → Option ℕ)) (d : Disk) (ip : Inode) (src : Block)
    (off n : ℕ)
    → FileOk d ip
    → Bytes src
    → off ≤ ip.size
    → off + n ≤ max_size
    → Room d (2 * rounds off n)
    → WrittenOk d ip src off n (writei devwrite d ip src off n)
unfolding writei
writei-WrittenOk devwrite d ip src off n f bytes l most room =
    let (d', ip', e, a) = writei_loop_all n off src d ip bytes most f.disk f.inode room in
    rw
      (
        ne→== ip.type 3 f.no_device,
        in_range-true ip off n l most,
        le→ltb max_size (off + n) most,
        e,
      )
      (grown-WrittenOk d ip src off n d' ip' f l most a)

-- `readi` of bytes of a sound file.
pub readi-Copied :
    (devread : ℕ → Option (Inode → Block → ℕ → Option ℕ × Block)) (d : Disk) (ip : Inode)
    (dst : Block) (off n : ℕ)
    → FileOk d ip
    → off + n ≤ ip.size
    → (dst' : Block) × (readi devread d ip dst off n
        ≡ ok (record { result = some n; memory = dst'; disk = d; inode = ip }))
      × Copied d ip n 0 off dst dst'
unfolding readi
readi-Copied devread d ip dst off n f l =
    let most : off + n ≤ max_size = omega (arith, l, f.small) in
    let (dst', e, c) =
      readi_loop-Copied (suc n) n 0 off dst d ip (omega arith) (omega arith) (omega (arith, most))
        (λ bn m. f.mapped bn (omega (arith, m, l))) in
    (
      dst',
      rw
          (
            ne→== ip.type 3 f.no_device,
            in_range-true ip off n (omega (arith, l)) most,
            le→ltb ip.size (off + n) l,
            e,
          )
          refl,
      c,
    )

-- `readi` behind such a `writei`, from the same offset and for as many bytes, returns the bytes that
-- were written, and changes nothing.
pub readi-writei :
    (devread : ℕ → Option (Inode → Block → ℕ → Option ℕ × Block))
    (devwrite : ℕ → Option (Inode → Block → ℕ → Option ℕ)) (d : Disk) (ip : Inode) (src dst : Block)
    (off n : ℕ)
    → FileOk d ip
    → Bytes src
    → off ≤ ip.size
    → off + n ≤ max_size
    → Room d (2 * rounds off n)
    → (w : Written) × (writei devwrite d ip src off n ≡ ok w)
      × (w.result ≡ some n)
      × ((dst' : Block) × (readi devread w.disk w.inode dst off n
            ≡ ok (record { result = some n; memory = dst'; disk = w.disk; inode = w.inode }))
          × ((i : ℕ) → i < n → dst' i ≡ src i))
readi-writei devread devwrite d ip src dst off n f bytes l most room =
    let (d', ip', e, f', size, inside, kept) =
      writei-WrittenOk devwrite d ip src off n f bytes l most room in
    let long : off + n ≤ ip'.size =
      subst (λ t. off + n ≤ t) (sym size) (at_most (ltb ip.size (off + n)) refl) in
    let (dst', e', c) = readi-Copied devread d' ip' dst off n f' long in
    (
      record { result = some n; disk = d'; inode = ip' },
      e,
      refl,
      (
        dst',
        e',
        λ i i_l.
            let there : off + (i - 0) ≡ off + i = omega arith in
            let back : off + i - off ≡ i = omega arith in
            c.inside i (omega arith) i_l
            ∙ ap (content d' ip') there
            ∙ inside (off + i) (omega arith) (omega (arith, i_l))
            ∙ ap src back,
      ),
    )
  where
    at_most : (t : Bool) → ltb ip.size (off + n) ≡ t → off + n ≤ (if t then off + n else ip.size)
    at_most true e = omega arith
    at_most false e = ground (arith, e)
