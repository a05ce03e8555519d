-- ===== src/Fs/Dir.antt =====
-- Directories: `dirlookup` and `dirlink`. The directory is given by its index in the cache, since the
-- inode that is looked up may be the directory itself. A name is the bytes of its buffer.
use computer_organization_an.Common.{
  ℕ, zero, suc, ◌+◌, ◌-◌, ◌/◌, ◌%◌, Bool, true, false, not, ◌&&◌, ◌||◌, Option, none, some, ltb,
  ◌==◌, if◌then◌else◌, get_elem?, set,
}
use computer_organization_an.Common.Outcome.{Outcome, ok, panic, fault, ◌>>=◌}
use computer_organization_an.Fs.{Block, block_size}
use computer_organization_an.Fs.Inode.{Inode, t_dir, get16, bmap}
use computer_organization_an.Fs.Content.{readi, writei}
use computer_organization_an.Fs.Cache.{State, at_inode, iget, iput}

-- The functions of the devices.
pub record Devices : Type 0 where
  pub devread : ℕ → Option (Inode → Block → ℕ → Option ℕ × Block)
  pub devwrite : ℕ → Option (Inode → Block → ℕ → Option ℕ)

abbrev pub name_size : ℕ
name_size = 14

-- sizeof(struct dirent)
abbrev pub entry_size : ℕ
entry_size = 16

-- strncmp of `n` bytes comes to 0.
unfoldable pub same_name : ℕ → Block → ℕ → Block → ℕ → Bool
same_name zero s i t j = true
same_name (suc n) s i t j =
    let rest = same_name n s (suc i) t (suc j) in
    if s i == t j then (if s i == 0 then true else rest) else false

unfoldable pub namecmp : Block → Block → ℕ → Bool
namecmp name blk o = same_name name_size name 0 blk o

-- The entry at offset `o` is in use and has the name.
unfoldable pub matches : Block → Block → ℕ → Bool
matches name blk o = not (get16 blk o == 0) && namecmp name blk (o + 2)

-- The loop over the entries of a block, of which `n` are left.
unfoldable pub search_block : ℕ → Block → Block → ℕ → Option ℕ
search_block zero name blk o = none
search_block (suc n) name blk o =
    let rest = search_block n name blk (o + entry_size) in
    if matches name blk o then some o else rest

-- `bmap` of an inode of the cache.
unfoldable pub bmap_at : State → ℕ → ℕ → Outcome (ℕ × State)
bmap_at s i bn = at_inode (get_elem? s.cache i) (λ ip.
    bmap s.disk ip bn >>= λ r. ok (r.addr, record { disk = r.disk; cache = set s.cache i r.inode }))

-- What `dirlookup` finds: the inode's index in the cache, and the offset of the entry.
abbrev pub Lookup : Type 0
Lookup = Option (ℕ × ℕ) × State

-- iget of the entry's number.
unfoldable pub get_entry : State → Block → ℕ → ℕ → Outcome Lookup
get_entry s blk off o =
    iget (get16 blk o) s.cache >>= λ r. ok (some (r.0, off + o), record s { cache = r.1 })

unfoldable pub in_block : State → Block → ℕ → Outcome Lookup → Option ℕ → Outcome Lookup
in_block s blk off next none = next
in_block s blk off next (some o) = get_entry s blk off o

-- The loop over the blocks; the size is that of the directory, which `bmap` leaves.
unfoldable pub lookup_loop : ℕ → ℕ → ℕ → Block → State → ℕ → Outcome Lookup
lookup_loop zero size dp name s off = fault
lookup_loop (suc fuel) size dp name s off =
    let rest = bmap_at s dp (off / block_size) >>= λ r.
    let blk : Block = r.1.disk r.0 in
    in_block r.1 blk off (lookup_loop fuel size dp name r.1 (off + block_size))
      (search_block 32 name blk 0) in
    if ltb off size then rest else ok (none, s)

unfoldable pub dirlookup : State → ℕ → Block → Outcome Lookup
dirlookup s dp name = at_inode (get_elem? s.cache dp) (λ ip.
    if ip.type == t_dir then lookup_loop (ip.size / block_size + 2) ip.size dp name s 0 else panic)

-- A zero byte stands before byte `k`.
unfoldable pub ended : ℕ → Block → Bool
ended zero name = false
ended (suc k) name = name k == 0 || ended k name

-- `struct dirent` with the name as `strncpy` leaves it.
unfoldable pub new_entry : Block → ℕ → Block
new_entry name inum o =
    if o == 0
    then inum % 256
    else (if o == 1 then inum / 256 % 256 else (if ended (o - 2) name then 0 else name (o - 2)))

-- `readi` and `writei` of an inode of the cache.
unfoldable pub readi_at : Devices → State → ℕ → ℕ → ℕ → Outcome (Option ℕ × Block × State)
readi_at v s i off n = at_inode (get_elem? s.cache i) (λ ip.
    readi v.devread s.disk ip (λ o. 0) off n >>= λ r.
    ok (r.result, r.memory, record { disk = r.disk; cache = set s.cache i r.inode }))

unfoldable pub writei_at : Devices → State → ℕ → Block → ℕ → ℕ → Outcome (Option ℕ × State)
writei_at v s i src off n = at_inode (get_elem? s.cache i) (λ ip.
    writei v.devwrite s.disk ip src off n >>= λ r.
    ok (r.result, record { disk = r.disk; cache = set s.cache i r.inode }))

unfoldable pub iput_at : State → ℕ → Outcome State
iput_at s i =
    at_inode (get_elem? s.cache i)
      (λ ip. iput s.disk ip >>= λ r. ok (record { disk = r.0; cache = set s.cache i r.1 }))

unfoldable pub whole_entry : Option ℕ → Bool
whole_entry none = false
whole_entry (some n) = n == entry_size

-- The loop of `dirlink` that looks for an entry that is not in use: its offset.
unfoldable pub empty_loop : ℕ → Devices → ℕ → ℕ → State → ℕ → Outcome (ℕ × State)
empty_loop zero v size dp s off = fault
empty_loop (suc fuel) v size dp s off =
    let rest = readi_at v s dp off entry_size >>= λ r.
    let next = empty_loop fuel v size dp r.2 (off + entry_size) in
    if whole_entry r.0 then (if get16 r.1 0 == 0 then ok (off, r.2) else next) else panic in
    if ltb off size then rest else ok (off, s)

-- The entry is written; `true` stands for the result 0.
unfoldable pub put_entry : Devices → State → ℕ → Block → ℕ → ℕ → Outcome (Bool × State)
put_entry v s dp name inum off = writei_at v s dp (new_entry name inum) off entry_size >>= λ r.
    if whole_entry r.0 then ok (true, r.1) else panic

unfoldable pub link_new : Devices → State → ℕ → Block → ℕ → Inode → Outcome (Bool × State)
link_new v s dp name inum ip =
    empty_loop (ip.size / entry_size + 2) v ip.size dp s 0 >>= λ r. put_entry v r.1 dp name inum r.0

unfoldable pub link_unless : Devices → ℕ → Block → ℕ → Lookup → Outcome (Bool × State)
link_unless v dp name inum (some (i, off), s) = iput_at s i >>= λ s'. ok (false, s')
link_unless v dp name inum (none, s) = at_inode (get_elem? s.cache dp) (link_new v s dp name inum)

unfoldable pub dirlink : Devices → State → ℕ → Block → ℕ → Outcome (Bool × State)
dirlink v s dp name inum = dirlookup s dp name >>= link_unless v dp name inum
