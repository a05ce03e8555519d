-- ===== src/Fs/Content.antt =====
-- `readi` and `writei`.
use Prim.Native.Nat.{min}
use computer_organization_an.Common.{
  ℕ, zero, suc, ◌+◌, ◌-◌, ◌/◌, ◌%◌, Bool, not, ◌&&◌, ◌||◌, Option, none, some, ltb, leb, ◌==◌,
  if◌then◌else◌, add32, sub32,
}
use computer_organization_an.Common.Outcome.{Outcome, ok, fault, ◌>>=◌}
use computer_organization_an.Fs.{Block, Disk, block_size, bwrite}
use computer_organization_an.Fs.Inode.{Inode, t_dev, ndev, iupdate, bmap}

-- memmove of `n` bytes from offset `from` of one object to offset `to` of another.
unfoldable pub copy : Block → ℕ → Block → ℕ → ℕ → Block
copy dst to src from n i = if leb to i && ltb i (to + n) then src (from + (i - to)) else dst i

-- MAXFILE * BSIZE
abbrev pub max_size : ℕ
max_size = 71680

-- What `readi` has read to `dst`, and its result, `none` for -1.
pub record Read : Type 0 where
  pub result : Option ℕ
  pub memory : Block
  pub disk : Disk
  pub inode : Inode

-- The bytes of a round.
unfoldable pub round_size : ℕ → ℕ → ℕ → ℕ
round_size n tot off = min (n - tot) (block_size - off % block_size)

-- The loop of `readi`; `dst` is the memory from the destination's begin on, and `n` its bytes.
unfoldable pub readi_loop : ℕ → ℕ → ℕ → ℕ → Block → Disk → Inode → Outcome Read
readi_loop zero n tot off dst d ip = fault
readi_loop (suc fuel) n tot off dst d ip =
    let m = round_size n tot off in
    let rest = bmap d ip (off / block_size) >>= λ r.
    readi_loop fuel n (tot + m) (off + m) (copy dst tot (r.disk r.addr) (off % block_size) m) r.disk
      r.inode in
    if ltb tot n then rest else ok (record { result = some n; memory = dst; disk = d; inode = ip })

-- The offset is in the file, and off + n does not wrap around.
unfoldable pub in_range : Inode → ℕ → ℕ → Bool
in_range ip off n = not (ltb ip.size off || ltb (add32 off n) off)

-- The function of the device, if it is one that has one.
unfoldable pub device {ℓ} : {A : Type ℓ} → (ℕ → Option A) → Inode → Option A
device table ip = if leb 32768 ip.major || leb ndev ip.major then none else table ip.major

unfoldable pub read_device :
    Option (Inode → Block → ℕ → Option ℕ × Block) → Block → Disk → Inode → ℕ → Read
read_device none dst d ip n = record { result = none; memory = dst; disk = d; inode = ip }
read_device (some read) dst d ip n = record {
  result = (read ip dst n).0;
  memory = (read ip dst n).1;
  disk = d;
  inode = ip;
}

unfoldable pub readi :
    (ℕ → Option (Inode → Block → ℕ → Option ℕ × Block))
    → Disk
    → Inode
    → Block
    → ℕ
    → ℕ
    → Outcome Read
readi devread d ip dst off n =
    if ip.type == t_dev
    then ok (read_device (device devread ip) dst d ip n)
    else (if in_range ip off n
        then (let m = if ltb ip.size (off + n) then ip.size - off else n in
            readi_loop (suc m) m 0 off dst d ip)
        else ok (record { result = none; memory = dst; disk = d; inode = ip }))

-- What `writei` leaves, and its result.
pub record Written : Type 0 where
  pub result : Option ℕ
  pub disk : Disk
  pub inode : Inode

-- The end of `writei`, behind the last byte.
unfoldable pub grown : ℕ → ℕ → Disk → Inode → Written
grown n off d ip =
    let ip' : Inode = record ip { size = off } in
    if ltb 0 n && ltb ip.size off
    then record { result = some n; disk = iupdate d ip'; inode = ip' }
    else record { result = some n; disk = d; inode = ip }

-- The loop of `writei`.
unfoldable pub writei_loop : ℕ → ℕ → ℕ → ℕ → Block → Disk → Inode → Outcome Written
writei_loop zero n tot off src d ip = fault
writei_loop (suc fuel) n tot off src d ip =
    let m = round_size n tot off in
    let rest = bmap d ip (off / block_size) >>= λ r.
    writei_loop fuel n (tot + m) (off + m) src
      (bwrite r.disk r.addr (copy (r.disk r.addr) (off % block_size) src tot m)) r.inode in
    if ltb tot n then rest else ok (grown n off d ip)

unfoldable pub write_device :
    Option (Inode → Block → ℕ → Option ℕ) → Block → Disk → Inode → ℕ → Written
write_device none src d ip n = record { result = none; disk = d; inode = ip }
write_device (some write) src d ip n = record { result = write ip src n; disk = d; inode = ip }

unfoldable pub writei :
    (ℕ → Option (Inode → Block → ℕ → Option ℕ)) → Disk → Inode → Block → ℕ → ℕ → Outcome Written
writei devwrite d ip src off n =
    if ip.type == t_dev
    then ok (write_device (device devwrite ip) src d ip n)
    else (if in_range ip off n
        then (let m = if ltb max_size (off + n) then sub32 max_size off else n in
            writei_loop (suc m) m 0 off src d ip)
        else ok (record { result = none; disk = d; inode = ip }))
