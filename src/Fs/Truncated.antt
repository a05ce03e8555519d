-- ===== src/Fs/Truncated.antt =====
-- What `itrunc` gives: a file without blocks, and its blocks to the free ones.
use computer_organization_an.Common.{
  ℕ, suc, ◌+◌, ◌*◌, ◌/◌, ◌≤◌, ◌<◌, ◌≡◌, ◌≢◌, refl, sym, ap, ◌∙◌, inl, inr, true, false, Bool-cases,
  arith, ◌==◌, eq→==, ==_iff, if◌then◌else◌,
}
use computer_organization_an.Common.Outcome.{Outcome, ok}
use computer_organization_an.Fs.{Block, Disk, Superblock, readsb, get32, bfree}
use computer_organization_an.Fs.Bitmap.{bwrite_self, bwrite_ne, unmarked}
use computer_organization_an.Fs.Alloc.{InBitmap, data_start}
use computer_organization_an.Fs.Valid.{DiskOk}
use computer_organization_an.Fs.Inode.{
  Inode, ndirect, nindirect, inode_block, inode_offset, store_inode, iupdate, free_entry,
  trunc_indirect, itrunc,
}
use computer_organization_an.Fs.Mapping.{entry, InodeOk}
use computer_organization_an.Fs.Bmap.{entry_word}
use computer_organization_an.Fs.Update.{iupdate-Unmoved, unmarked-bwrite_inodes}
use computer_organization_an.Fs.Freeing.{
  FreedTo, FreedTo-ext, FreedTo-start, with_addrs, free_entry-FreedTo, trunc_entries-all,
}
use computer_organization_an.Fs.Truncate.{
  Cleared, nothing, without_addr, without_addr-Cleared, trunc_direct-FreedTo, in_file, in_file-none,
  direct_own, direct_apart, entry_own, entry_apart, indirect_apart,
}

abbrev Indirect : Disk → Inode → Outcome (Disk × Inode) → Type 0
Indirect d ip r =
    (d' : Disk) × (ip' : Inode) × (r ≡ ok (d', ip'))
    × FreedTo d d' (in_file d ip)
    × Cleared (suc ndirect) ip ip'

-- The indirect block, behind the blocks that it names.
trunc_indirect-Indirect :
    (d d' : Disk) (ip ip' : Inode)
    → InodeOk d ip
    → FreedTo d d' (with_addrs ndirect ip.addrs nothing)
    → Cleared ndirect ip ip'
    → Indirect d ip (trunc_indirect d' ip')
unfolding trunc_indirect in_file free_entry without_addr
trunc_indirect-Indirect d d' ip ip' w v c =
    let at : ip'.addrs ndirect ≡ ip.addrs ndirect = c.2 12 (omega arith) in
    elim (Bool-cases (ip.addrs ndirect == 0)) [
      | inl z ↦
          let none = (==_iff (ip.addrs ndirect) 0).0 z in
          (
            d',
            without_addr ip' ndirect,
            rw (at, z) refl,
            FreedTo-ext d d' (with_addrs ndirect ip.addrs nothing) (in_file d ip) v
                (λ x. in_file-none d ip x none),
            without_addr-Cleared ip ip' ndirect c,
          )
      | inr z ↦
          let n : ip.addrs ndirect ≢ 0 = λ e. absurd (cc (eq→== (ip.addrs ndirect) 0 e, z)) in
          let own = w.indirect n in
          let (apart, apart') = indirect_apart d ip w n in
          let (d1, e1, v1) =
            trunc_entries-all nindirect (d' (ip.addrs ndirect)) (entry d (ip.addrs ndirect)) d d'
              (with_addrs ndirect ip.addrs nothing)
              (λ k l.
                ap (λ (t : Block). get32 t (4 * k)) (v.same (ip.addrs ndirect) own.2 apart)
                ∙ sym (entry_word d (ip.addrs ndirect) k n))
              (entry_own d ip w) (entry_apart d ip w) v in
          let (d2, e2, v2) =
            free_entry-FreedTo d d1
              (with_addrs nindirect (entry d (ip.addrs ndirect))
                (with_addrs ndirect ip.addrs nothing))
              (ip.addrs ndirect) v1 (λ _. (own, apart')) in
          let e2' : bfree d1 (ip.addrs ndirect) ≡ ok d2 = rw z at e2 in
          (
            d2,
            without_addr ip' ndirect,
            rw (at, z, e1, e2') refl,
            v2,
            without_addr-Cleared ip ip' ndirect c,
          )
    ]

-- The state behind `itrunc` of the file `ip`.
pub record Truncated (d : Disk) (ip : Inode) (d' : Disk) (ip' : Inode) : Type 0 where
  pub sound : DiskOk d'
  pub same_superblock : readsb d' ≡ readsb d
  pub freed :
      (x : ℕ) → InBitmap d x → unmarked d' x ≡ (if in_file d ip x then true else unmarked d x)
  pub same : (x : ℕ) → data_start d ≤ x → in_file d ip x ≡ false → d' x ≡ d x
  pub inodes : (x : ℕ) → x < (readsb d).ninodes / 8 + 3 → x ≢ inode_block ip.inum → d' x ≡ d x
  pub stored :
      d' (inode_block ip.inum) ≡ store_inode (d (inode_block ip.inum)) (inode_offset ip.inum) ip'
  pub file : ip' ≡ record ip { size = 0; addrs = ip'.addrs }
  pub no_blocks : (i : ℕ) → i ≤ ndirect → ip'.addrs i ≡ 0

iupdate-Truncated :
    (d d' : Disk) (ip ip' : Inode)
    → FreedTo d d' (in_file d ip)
    → ip.inum < (readsb d).ninodes
    → ip' ≡ record ip { size = 0; addrs = ip'.addrs }
    → ((i : ℕ) → i ≤ ndirect → ip'.addrs i ≡ 0)
    → Truncated d ip (iupdate d' ip') ip'
unfolding iupdate inode_block
iupdate-Truncated d d' ip ip' v l e zeros =
    let number : ip'.inum ≡ ip.inum = ap (λ (t : Inode). t.inum) e in
    let ninodes : (readsb d').ninodes ≡ (readsb d).ninodes =
      ap (λ (s : Superblock). s.ninodes) v.same_superblock in
    let l' : ip'.inum < (readsb d').ninodes = omega (arith, l, number, ninodes) in
    let u = iupdate-Unmoved d' ip' v.sound l' in
    let blk : Block = store_inode (d' (ip'.inum / 8 + 2)) (inode_offset ip'.inum) ip' in
    let away : (x : ℕ) → x ≢ ip.inum / 8 + 2 → iupdate d' ip' x ≡ d' x = λ x n.
      bwrite_ne d' (ip'.inum / 8 + 2) blk x (λ s. absurd (n (s ∙ ap (λ t. t / 8 + 2) number))) in
    record {
      sound = u.sound;
      same_superblock = u.keeps.0 ∙ v.same_superblock;
      freed = λ x m.
          unmarked-bwrite_inodes d' (ip'.inum / 8 + 2) blk (omega arith) (omega (arith, l')) x
          ∙ v.bits x m;
      same = λ x m f. away x (λ s. absurd (omega (arith, s, m, l))) ∙ v.same x m f;
      inodes = λ x m n. away x n ∙ v.inodes x m;
      stored =
          ap (iupdate d' ip') (ap (λ t. t / 8 + 2) (sym number))
          ∙ bwrite_self d' (ip'.inum / 8 + 2) blk
          ∙ ap (λ t. store_inode (d' (t / 8 + 2)) (inode_offset t) ip') number
          ∙ ap (λ (t : Block). store_inode t (inode_offset ip.inum) ip')
              (v.inodes (ip.inum / 8 + 2) (omega (arith, l)));
      file = e;
      no_blocks = zeros;
    }

-- `itrunc` of a sound file on a sound disk does not panic: it makes the blocks of the file and its
-- indirect block free, and no others; blocks of data outside the file and the blocks of other inodes
-- are as they were; the inode keeps its fields but has the size 0 and no addresses, and is stored on
-- the disk so; the disk stays sound.
pub itrunc-Truncated :
    (d : Disk) (ip : Inode)
    → DiskOk d
    → InodeOk d ip
    → ip.inum < (readsb d).ninodes
    → (d' : Disk) × (ip' : Inode) × (itrunc d ip ≡ ok (d', ip')) × Truncated d ip d' ip'
unfolding itrunc with_addrs
itrunc-Truncated d ip v w l =
    let (d1, ip1, e1, v1, c1) =
      trunc_direct-FreedTo ndirect 0 ndirect d d ip ip (omega arith) (direct_own d ip w)
        (direct_apart d ip w) (FreedTo-start d v)
        (refl, λ j m. absurd (omega (arith, m)), λ j m. refl) in
    let (d2, ip2, e2, v2, (e, zeros, _)) = trunc_indirect-Indirect d d1 ip ip1 w v1 c1 in
    let ip' : Inode = record ip2 { size = 0 } in
    (
      iupdate d2 ip',
      ip',
      rw (e1, e2) refl,
      iupdate-Truncated d d2 ip ip' v2 l (ap (λ (t : Inode). record t { size = 0 }) e)
          (λ i m. zeros i (omega (arith, m))),
    )
