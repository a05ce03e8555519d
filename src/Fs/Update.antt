-- ===== src/Fs/Update.antt =====
-- What `iupdate` leaves as it is, and what `ilock` reads behind it.
use mathlib.Core.Path.{subst}
use computer_organization_an.Common.{
  ℕ, zero, suc, ◌+◌, ◌/◌, ◌%◌, ◌^◌, ◌≤◌, ◌<◌, ◌≡◌, sym, ap, ◌∙◌, true, arith,
}
use computer_organization_an.Fs.{Block, Disk, Superblock, bwrite, readsb, bitmap_block, is_free}
use computer_organization_an.Fs.Bitmap.{
  bwrite_ne, Bytes, put8-Bytes, unmarked, bwrite-BytesDisk, readsb-bwrite,
}
use computer_organization_an.Fs.Alloc.{bit_block, data_start}
use computer_organization_an.Fs.Words.{put32-Bytes}
use computer_organization_an.Fs.Valid.{DiskOk, Owned, Keeps, sb-start, InBitmap-sb}
use computer_organization_an.Fs.Inode.{
  Inode, put16, inode_block, inode_offset, put_addrs, store_inode, iupdate,
}

put16-Bytes : (blk : Block) (o v : ℕ) → Bytes blk → Bytes (put16 blk o v)
unfolding put16
put16-Bytes blk o v h = put8-Bytes _ _ _ (put8-Bytes blk o v h)

put_addrs-Bytes :
    (n : ℕ) (blk : Block) (o : ℕ) (addrs : ℕ → ℕ) → Bytes blk → Bytes (put_addrs n blk o addrs)
unfolding put_addrs
put_addrs-Bytes zero blk o addrs h = h
put_addrs-Bytes (suc n) blk o addrs h = put32-Bytes _ _ _ (put_addrs-Bytes n blk o addrs h)

store_inode-Bytes : (blk : Block) (o : ℕ) (ip : Inode) → Bytes blk → Bytes (store_inode blk o ip)
unfolding store_inode
store_inode-Bytes blk o ip h = put_addrs-Bytes 13 _ (o + 12) ip.addrs (
    put32-Bytes _ _ _
      (put16-Bytes _ _ _ (put16-Bytes _ _ _ (put16-Bytes _ _ _ (put16-Bytes blk o ip.type h)))))

-- What a store among the blocks of inodes leaves.
pub record Unmoved (d d' : Disk) : Type 0 where
  pub sound : DiskOk d'
  pub keeps : Keeps d d'
  pub same : (a : ℕ) → Owned d a → d' a ≡ d a

pub unmarked-bwrite_inodes :
    (d : Disk) (b : ℕ) (blk : Block)
    → 1 < b
    → b < (readsb d).ninodes / 8 + 3
    → (x : ℕ) → unmarked (bwrite d b blk) x ≡ unmarked d x
unfolding bitmap_block
unmarked-bwrite_inodes d b blk p q x =
    let sb = readsb-bwrite d b blk (λ e. absurd (omega (arith, p, e))) in
    ap (λ (s : Superblock). is_free (bwrite d b blk (bitmap_block x s.ninodes)) (x % 4096)) sb
    ∙ ap (λ t. is_free t (x % 4096))
        (bwrite_ne d b blk (bit_block d x) (λ e. absurd (omega (arith, q, e))))

bwrite-Unmoved :
    (d : Disk) (b : ℕ) (blk : Block)
    → DiskOk d
    → 1 < b
    → b < (readsb d).ninodes / 8 + 3
    → Bytes blk
    → Unmoved d (bwrite d b blk)
unfolding bitmap_block
bwrite-Unmoved d b blk v p q bytes =
    let d' : Disk = bwrite d b blk in
    let sb : readsb d' ≡ readsb d = readsb-bwrite d b blk (λ e. absurd (omega (arith, p, e))) in
    let start : data_start d' ≡ data_start d = sb-start d d' sb in
    let free : (x : ℕ) → unmarked d' x ≡ unmarked d x = unmarked-bwrite_inodes d b blk p q in
    let away : (a : ℕ) → data_start d ≤ a → d' a ≡ d a =
      λ a l. bwrite_ne d b blk a (λ e. absurd (omega (arith, l, q, e))) in
    record {
      sound = record {
        bytes = bwrite-BytesDisk d b blk v.bytes bytes;
        small = subst (λ (s : Superblock). s.size ≤ 2 ^ 31) (sym sb) v.small;
        free_data = λ x l f.
            let r = v.free_data x (InBitmap-sb d' d x (sym sb) l) (sym (free x) ∙ f) in
            omega (arith, r, start);
        free_zero = λ x o l f.
            let l' = InBitmap-sb d' d x (sym sb) l in
            let f' : unmarked d x ≡ true = sym (free x) ∙ f in
            ap (λ (t : Block). t o) (away x (v.free_data x l' f')) ∙ v.free_zero x o l' f';
      };
      keeps =
          (sb, λ x. λ (l, f, r). (InBitmap-sb d d' x sb l, free x ∙ f, omega (arith, r, start)));
      same = λ a. λ (l, f, r). away a r;
    }

pub iupdate-Unmoved :
    (d : Disk) (ip : Inode) → DiskOk d → ip.inum < (readsb d).ninodes → Unmoved d (iupdate d ip)
unfolding iupdate inode_block
iupdate-Unmoved d ip v l =
    bwrite-Unmoved d (ip.inum / 8 + 2) (store_inode (d (ip.inum / 8 + 2)) (inode_offset ip.inum) ip)
      v (omega arith) (omega (arith, l))
      (store_inode-Bytes (d (ip.inum / 8 + 2)) (inode_offset ip.inum) ip
        (v.bytes (ip.inum / 8 + 2)))
