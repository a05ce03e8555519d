-- ===== src/Fs/Inode.antt =====
-- Inodes and their contents. An inode of the cache has its copy of the one on the disk; `dev` is the
-- one device. `devread` and `devwrite` are the functions in `devsw`, of which there may be none.
use computer_organization_an.Common.{
  ℕ, zero, suc, ◌+◌, ◌-◌, ◌*◌, ◌/◌, ◌%◌, Bool, true, ltb, ◌==◌, if◌then◌else◌,
}
use computer_organization_an.Common.Outcome.{Outcome, ok, panic, ◌>>=◌}
use computer_organization_an.Fs.{
  Block, Disk, block_inodes, bwrite, put8, get32, put32, balloc, bfree,
}

abbrev pub ndirect : ℕ
ndirect = 12

abbrev pub nindirect : ℕ
nindirect = 128

abbrev pub t_dir : ℕ
t_dir = 1

abbrev pub t_dev : ℕ
t_dev = 3

-- NDEV
abbrev pub ndev : ℕ
ndev = 10

-- `struct inode`; `addrs` has 13 words.
pub record Inode : Type 0 where
  pub inum : ℕ
  pub ref : ℕ
  pub busy : Bool
  pub valid : Bool
  pub type : ℕ
  pub major : ℕ
  pub minor : ℕ
  pub nlink : ℕ
  pub size : ℕ
  pub addrs : ℕ → ℕ

unfoldable pub get16 : Block → ℕ → ℕ
get16 blk o = blk o + 256 * blk (o + 1)

unfoldable pub put16 : Block → ℕ → ℕ → Block
put16 blk o v = put8 (put8 blk o v) (o + 1) (v / 256)

-- IBLOCK(i)
unfoldable pub inode_block : ℕ → ℕ
inode_block i = i / block_inodes + 2

-- The offset of `struct dinode` in its block.
unfoldable pub inode_offset : ℕ → ℕ
inode_offset i = 64 * (i % block_inodes)

-- memmove of `n` words of `addrs`.
unfoldable pub put_addrs : ℕ → Block → ℕ → (ℕ → ℕ) → Block
put_addrs zero blk o addrs = blk
put_addrs (suc n) blk o addrs = put32 (put_addrs n blk o addrs) (o + 4 * n) (addrs n)

unfoldable pub store_inode : Block → ℕ → Inode → Block
store_inode blk o ip =
    let fields : Block =
      put16 (put16 (put16 (put16 blk o ip.type) (o + 2) ip.major) (o + 4) ip.minor) (o + 6)
        ip.nlink in
    put_addrs 13 (put32 fields (o + 8) ip.size) (o + 12) ip.addrs

unfoldable pub iupdate : Disk → Inode → Disk
iupdate d ip =
    let block = inode_block ip.inum in
    bwrite d block (store_inode (d block) (inode_offset ip.inum) ip)

-- The part of `ilock` that reads the inode.
unfoldable pub get_inode : Block → ℕ → Inode → Inode
get_inode blk o ip = record ip {
  type = get16 blk o;
  major = get16 blk (o + 2);
  minor = get16 blk (o + 4);
  nlink = get16 blk (o + 6);
  size = get32 blk (o + 8);
  addrs = λ i. get32 blk (o + 12 + 4 * i);
  valid = true;
}

unfoldable pub set_addr : Inode → ℕ → ℕ → Inode
set_addr ip i a = record ip { addrs = λ j. if j == i then a else ip.addrs j }

-- What `bmap` returns, and the state behind it.
pub record Mapped : Type 0 where
  pub addr : ℕ
  pub disk : Disk
  pub inode : Inode

unfoldable pub bmap_direct : Disk → Inode → ℕ → Outcome Mapped
bmap_direct d ip bn =
    if ip.addrs bn == 0
    then (balloc d >>= λ r. ok (record { addr = r.0; disk = r.1; inode = set_addr ip bn r.0 }))
    else ok (record { addr = ip.addrs bn; disk = d; inode = ip })

-- Entry `i` of the indirect block at `a`; `blk` is read before `balloc` is called.
unfoldable pub bmap_entry : Disk → Inode → ℕ → ℕ → Outcome Mapped
bmap_entry d ip a i =
    let blk : Block = d a in
    if get32 blk (4 * i) == 0
    then (balloc d >>= λ r.
        ok (record { addr = r.0; disk = bwrite r.1 a (put32 blk (4 * i) r.0); inode = ip }))
    else ok (record { addr = get32 blk (4 * i); disk = d; inode = ip })

unfoldable pub bmap_indirect : Disk → Inode → ℕ → Outcome Mapped
bmap_indirect d ip i =
    if ip.addrs ndirect == 0
    then (balloc d >>= λ r. bmap_entry r.1 (set_addr ip ndirect r.0) r.0 i)
    else bmap_entry d ip (ip.addrs ndirect) i

unfoldable pub bmap : Disk → Inode → ℕ → Outcome Mapped
bmap d ip bn =
    if ltb bn ndirect
    then bmap_direct d ip bn
    else (if ltb (bn - ndirect) nindirect then bmap_indirect d ip (bn - ndirect) else panic)

unfoldable pub free_slot : Disk → Inode → ℕ → Outcome (Disk × Inode)
free_slot d ip i =
    if ip.addrs i == 0
    then ok (d, ip)
    else (bfree d (ip.addrs i) >>= λ d'. ok (d', set_addr ip i 0))

-- The loop over `i`, of which `n` are left.
unfoldable pub trunc_direct : ℕ → ℕ → Disk → Inode → Outcome (Disk × Inode)
trunc_direct zero i d ip = ok (d, ip)
trunc_direct (suc n) i d ip = free_slot d ip i >>= λ s. trunc_direct n (suc i) s.0 s.1

unfoldable pub free_entry : ℕ → Disk → Outcome Disk
free_entry a d = if a == 0 then ok d else bfree d a

-- The loop over `j`, of which `n` are left, on the indirect block as it was read.
unfoldable pub trunc_entries : ℕ → ℕ → Block → Disk → Outcome Disk
trunc_entries zero j blk d = ok d
trunc_entries (suc n) j blk d = free_entry (get32 blk (4 * j)) d >>= trunc_entries n (suc j) blk

unfoldable pub trunc_indirect : Disk → Inode → Outcome (Disk × Inode)
trunc_indirect d ip =
    if ip.addrs ndirect == 0
    then ok (d, ip)
    else (trunc_entries nindirect 0 (d (ip.addrs ndirect)) d >>= λ d'.
        bfree d' (ip.addrs ndirect) >>= λ d''. ok (d'', set_addr ip ndirect 0))

unfoldable pub itrunc : Disk → Inode → Outcome (Disk × Inode)
itrunc d ip = trunc_direct ndirect 0 d ip >>= λ s. trunc_indirect s.0 s.1 >>= λ t.
    let ip' : Inode = record t.1 { size = 0 } in ok (iupdate t.0 ip', ip')
