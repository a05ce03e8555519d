-- ===== src/Fs.antt =====
-- The file system of xv6 Scheduler/kernel/fs.c, on one device: its blocks and their bitmap. A block is
-- a map from offsets to bytes. `bread` gives the block that `bwrite` wrote last; that the buffer cache
-- hands out one buffer for a block is the subject of Bcache. Nothing else runs during a call.
mod Bits
pub mod Bitmap
pub mod Alloc
pub mod Release
pub mod Inode
pub mod Content
pub mod Words
pub mod Valid
pub mod Mapping
pub mod Bmap
pub mod Indirect
pub mod Reading
pub mod Writing
pub mod WriteLoop
pub mod Update
pub mod Fields
pub mod Files
pub mod Cache
pub mod Dir
pub mod Path
pub mod Elements
pub mod Slots
pub mod Entry
pub mod Lookup
pub mod EmptyEntry
pub mod Link
pub mod Freeing
pub mod Truncate
pub mod Truncated
mod Tests
use Prim.Native.Nat.{bit_and, bit_or}
use computer_organization_an.Common.{
  ℕ, zero, suc, ◌+◌, ◌-◌, ◌*◌, ◌/◌, ◌%◌, ◌^◌, Bool, true, false, not, Option, none, some, ltb, ◌==◌,
  if◌then◌else◌,
}
use computer_organization_an.Common.Outcome.{Outcome, ok, panic, fault, ◌>>=◌}

abbrev pub Block : Type 0
Block = ℕ → ℕ

abbrev pub Disk : Type 0
Disk = ℕ → Block

abbrev pub block_size : ℕ
block_size = 512

-- Bits of the bitmap in a block.
abbrev pub block_bits : ℕ
block_bits = 4096

-- Inodes in a block.
abbrev pub block_inodes : ℕ
block_inodes = 8

unfoldable pub bwrite : Disk → ℕ → Block → Disk
bwrite d b blk x = if x == b then blk else d x

-- A byte, and a word with its lowest byte first.
unfoldable pub put8 : Block → ℕ → ℕ → Block
put8 blk o v i = if i == o then v % 256 else blk i

unfoldable pub get32 : Block → ℕ → ℕ
get32 blk o = blk o + 256 * blk (o + 1) + 65536 * blk (o + 2) + 16777216 * blk (o + 3)

unfoldable pub put32 : Block → ℕ → ℕ → Block
put32 blk o v =
    put8 (put8 (put8 (put8 blk o v) (o + 1) (v / 256)) (o + 2) (v / 65536)) (o + 3) (v / 16777216)

pub record Superblock : Type 0 where
  pub size : ℕ
  pub nblocks : ℕ
  pub ninodes : ℕ

unfoldable pub readsb : Disk → Superblock
readsb d = record { size = get32 (d 1) 0; nblocks = get32 (d 1) 4; ninodes = get32 (d 1) 8 }

unfoldable pub bzero : Disk → ℕ → Disk
bzero d bno = bwrite d bno (λ o. 0)

-- BBLOCK(b, ninodes)
unfoldable pub bitmap_block : ℕ → ℕ → ℕ
bitmap_block b ninodes = b / block_bits + ninodes / block_inodes + 3

-- (blk[bi/8] & m) == 0
unfoldable pub is_free : Block → ℕ → Bool
is_free blk bi = bit_and (blk (bi / 8)) (2 ^ (bi % 8)) == 0

-- blk[bi/8] |= m
unfoldable pub mark : Block → ℕ → Block
mark blk bi = put8 blk (bi / 8) (bit_or (blk (bi / 8)) (2 ^ (bi % 8)))

-- blk[bi/8] &= ~m
unfoldable pub unmark : Block → ℕ → Block
unmark blk bi = put8 blk (bi / 8) (bit_and (blk (bi / 8)) (255 - 2 ^ (bi % 8)))

-- The loop over `bi`, of which `n` are left: the first free one.
unfoldable pub free_bit : ℕ → Block → ℕ → Option ℕ
free_bit zero blk bi = none
free_bit (suc n) blk bi =
    let rest = free_bit n blk (suc bi) in if is_free blk bi then some bi else rest

unfoldable pub take_bit : Disk → ℕ → ℕ → Outcome (ℕ × Disk) → Option ℕ → Outcome (ℕ × Disk)
take_bit d block b next none = next
take_bit d block b next (some bi) = ok (b + bi, bwrite d block (mark (d block) bi))

-- The loop over `b`, by the blocks of the bitmap.
unfoldable pub balloc_loop : ℕ → Superblock → Disk → ℕ → Outcome (ℕ × Disk)
balloc_loop zero sb d b = fault
balloc_loop (suc fuel) sb d b =
    let next = balloc_loop fuel sb d (b + block_bits) in
    let block = bitmap_block b sb.ninodes in
    if ltb b sb.size then take_bit d block b next (free_bit block_bits (d block) 0) else panic

-- There are no more rounds than blocks of the bitmap, and the one that ends the loop.
unfoldable pub balloc : Disk → Outcome (ℕ × Disk)
balloc d = let sb = readsb d in balloc_loop (sb.size / block_bits + 2) sb d 0

unfoldable pub clear_bit : Disk → ℕ → ℕ → Outcome Disk
clear_bit d block bi =
    if is_free (d block) bi then panic else ok (bwrite d block (unmark (d block) bi))

unfoldable pub bfree : Disk → ℕ → Outcome Disk
bfree d b =
    let d' : Disk = bzero d b in clear_bit d' (bitmap_block b (readsb d').ninodes) (b % block_bits)
