-- ===== src/Fs/Cache.antt =====
-- The cache of inodes, on one device: `iget`, `idup`, `ilock`, `iunlock`, `iput`, and `ialloc`. A
-- pointer to an inode is its index in `icache.inode`; `icache.lock` is held but for the time that a
-- caller sleeps.
use computer_organization_an.Common.{
  ℕ, zero, suc, ◌-◌, Bool, true, false, not, ◌&&◌, ◌||◌, Option, none, some, List, [], ◌∷◌, ltb,
  ◌==◌, if◌then◌else◌, get_elem?, set,
}
use computer_organization_an.Common.Outcome.{Outcome, ok, panic, fault, ◌>>=◌}
use computer_organization_an.Fs.{Block, Disk, bwrite, readsb}
use computer_organization_an.Fs.Inode.{
  Inode, get16, put16, inode_block, inode_offset, get_inode, iupdate, itrunc,
}
use computer_organization_an.Fs.Content.{copy}

-- The cache and the disk.
pub record State : Type 0 where
  pub disk : Disk
  pub cache : List Inode

unfoldable pub later : Option ℕ → Option ℕ
later none = none
later (some i) = some (suc i)

unfoldable pub first_with : (Inode → Bool) → List Inode → Option ℕ
first_with test [] = none
first_with test (ip ∷ cache) =
    let rest = first_with test cache in if test ip then some 0 else later rest

-- ip->ref > 0 && ip->inum == inum
unfoldable pub is_cached : ℕ → Inode → Bool
is_cached inum ip = ltb 0 ip.ref && ip.inum == inum

unfoldable pub is_empty : Inode → Bool
is_empty ip = ip.ref == 0

-- A step with an inode of the cache; a pointer outside it is a fault.
unfoldable pub at_inode {ℓ} : {A : Type ℓ} → Option Inode → (Inode → Outcome A) → Outcome A
at_inode none step = fault
at_inode (some ip) step = step ip

unfoldable pub use_empty : ℕ → List Inode → Option ℕ → Outcome (ℕ × List Inode)
use_empty inum cache none = panic
use_empty inum cache (some i) =
    at_inode (get_elem? cache i)
      (λ ip. ok (i, set cache i (record ip { inum = inum; ref = 1; busy = false; valid = false })))

unfoldable pub use_cached : ℕ → List Inode → Option ℕ → Outcome (ℕ × List Inode)
use_cached inum cache none = use_empty inum cache (first_with is_empty cache)
use_cached inum cache (some i) =
    at_inode (get_elem? cache i) (λ ip. ok (i, set cache i (record ip { ref = suc ip.ref })))

-- The index of the inode and the cache behind `iget`.
unfoldable pub iget : ℕ → List Inode → Outcome (ℕ × List Inode)
iget inum cache = use_cached inum cache (first_with (is_cached inum) cache)

unfoldable pub idup : ℕ → List Inode → Outcome (List Inode)
idup i cache =
    at_inode (get_elem? cache i) (λ ip. ok (set cache i (record ip { ref = suc ip.ref })))

-- A caller of `ilock` has the inode, or sleeps.
pub data Locked : Type 0 where
  locked : Inode → Locked
  asleep : Inode → Locked

-- The inode is read from the disk if it was not yet.
unfoldable pub fill : Disk → Inode → Outcome Inode
fill d ip =
    let ip' : Inode = get_inode (d (inode_block ip.inum)) (inode_offset ip.inum) ip in
    if ip.valid then ok ip else (if ip'.type == 0 then panic else ok ip')

-- `ilock`; what happens to the inode while the caller sleeps comes as a list of rounds.
unfoldable pub ilock : List (Inode → Inode) → Disk → Inode → Outcome Locked
ilock [] d ip =
    if ltb ip.ref 1
    then panic
    else (if ip.busy
        then ok (asleep ip)
        else (fill d (record ip { busy = true }) >>= λ ip'. ok (locked ip')))
ilock (round ∷ rounds) d ip =
    let after = ilock rounds d (round ip) in
    if ltb ip.ref 1
    then panic
    else (if ip.busy
        then after
        else (fill d (record ip { busy = true }) >>= λ ip'. ok (locked ip')))

unfoldable pub iunlock : Inode → Outcome Inode
iunlock ip = if not ip.busy || ltb ip.ref 1 then panic else ok (record ip { busy = false })

-- The last reference to a file without links: it is truncated and its inode freed.
unfoldable pub discard : Disk → Inode → Outcome (Disk × Inode)
discard d ip =
    if ip.busy
    then panic
    else (itrunc d (record ip { busy = true }) >>= λ s.
        let ip' : Inode = record s.1 { type = 0 } in
        ok (iupdate s.0 ip', record ip' { busy = false; valid = false }))

unfoldable pub iput : Disk → Inode → Outcome (Disk × Inode)
iput d ip = (if ip.ref == 1 && ip.valid && ip.nlink == 0 then discard d ip else ok (d, ip)) >>= λ s.
    ok (s.0, record s.1 { ref = s.1.ref - 1 })

unfoldable pub iunlockput : Disk → Inode → Outcome (Disk × Inode)
iunlockput d ip = iunlock ip >>= iput d

-- memset(dip, 0, sizeof(*dip)); dip->type = type
unfoldable pub new_inode : Block → ℕ → ℕ → Block
new_inode blk o type = put16 (copy blk o (λ i. 0) 0 64) o type

-- The loop of `ialloc`, with `n` numbers left.
unfoldable pub ialloc_loop : ℕ → ℕ → ℕ → State → Outcome (ℕ × State)
ialloc_loop zero inum type s = panic
ialloc_loop (suc n) inum type s =
    let next = ialloc_loop n (suc inum) type s in
    let b = inode_block inum in
    let blk : Block = s.disk b in
    let o = inode_offset inum in
    if get16 blk o == 0
    then (iget inum s.cache >>= λ r.
        ok (r.0, record { disk = bwrite s.disk b (new_inode blk o type); cache = r.1 }))
    else next

unfoldable pub ialloc : ℕ → State → Outcome (ℕ × State)
ialloc type s = ialloc_loop ((readsb s.disk).ninodes - 1) 1 type s
