-- ===== src/Fsck/Image.antt =====
-- The structures of an image, decoded from its bytes, the lowest first.
use computer_organization_an.Common.{
  ℕ, zero, suc, ◌+◌, ◌*◌, ◌/◌, ◌%◌, ◌^◌, Bool, ◌&&◌, List, [], ◌∷◌, ◌==◌, get_or, word,
}

abbrev pub Image : Type 0
Image = ℕ → ℕ

-- BSIZE, NDIRECT, NINDIRECT, BIT, BITMAPBLOCK
abbrev pub block_size : ℕ
block_size = 512

abbrev pub ndirect : ℕ
ndirect = 12

abbrev pub nindirect : ℕ
nindirect = 128

abbrev pub word_bits : ℕ
word_bits = 32

abbrev pub bitmap_block : ℕ
bitmap_block = 28

-- T_DIR, T_FILE, T_DEV
abbrev pub t_dir : ℕ
t_dir = 1

abbrev pub t_file : ℕ
t_file = 2

abbrev pub t_dev : ℕ
t_dev = 3

unfoldable pub u16 : Image → ℕ → ℕ
u16 img a = img a + 256 * img (a + 1)

unfoldable pub u32 : Image → ℕ → ℕ
u32 img a = u16 img a + 65536 * u16 img (a + 2)

unfoldable pub words : Image → ℕ → ℕ → List ℕ
words img a zero = []
words img a (suc n) = u32 img a ∷ words img (a + 4) n

unfoldable pub bytes : Image → ℕ → ℕ → List ℕ
bytes img a zero = []
bytes img a (suc n) = img a ∷ bytes img (a + 1) n

pub record Superblock : Type 0 where
  pub size : ℕ
  pub nblocks : ℕ
  pub ninodes : ℕ

unfoldable pub superblock : Image → Superblock
superblock img = record {
  size = u32 img block_size;
  nblocks = u32 img (block_size + 4);
  ninodes = u32 img (block_size + 8);
}

pub record Dinode : Type 0 where
  pub type : ℕ
  pub major : ℕ
  pub minor : ℕ
  pub nlink : ℕ
  pub size : ℕ
  pub addrs : List ℕ

unfoldable pub inode_from : Image → ℕ → Dinode
inode_from img o = record {
  type = u16 img o;
  major = u16 img (o + 2);
  minor = u16 img (o + 4);
  nlink = u16 img (o + 6);
  size = u32 img (o + 8);
  addrs = words img (o + 12) 13;
}

-- dip + i
unfoldable pub inode : Image → ℕ → Dinode
inode img i = inode_from img (2 * block_size + 64 * i)

-- BSIZE * b, an `unsigned` product.
unfoldable pub block : ℕ → ℕ
block b = block_size * b % word

-- The block of addresses that `indirectPtr` points to.
unfoldable pub pointers : Image → ℕ → List ℕ
pointers img b = words img (block b) nindirect

pub record Dirent : Type 0 where
  pub inum : ℕ
  pub name : List ℕ

unfoldable pub dirents : Image → ℕ → ℕ → List Dirent
dirents img a zero = []
dirents img a (suc n) =
    record { inum = u16 img a; name = bytes img (a + 2) 14 } ∷ dirents img (a + 16) n

-- The directory entries of a block.
unfoldable pub entries : Image → ℕ → List Dirent
entries img b = dirents img (block b) 32

-- strcmp(name, ".") == 0
unfoldable pub is_dot : List ℕ → Bool
is_dot name = get_or name 0 0 == 46 && get_or name 1 0 == 0

-- strcmp(name, "..") == 0
unfoldable pub is_dotdot : List ℕ → Bool
is_dotdot name = get_or name 0 0 == 46 && get_or name 1 0 == 46 && get_or name 2 0 == 0

-- Bit `i` of the block of the bitmap, read through its `i / BIT`-th word.
unfoldable pub bitmap_bit : Image → ℕ → Bool
bitmap_bit img i =
    u32 img (block_size * bitmap_block + 4 * (i / word_bits)) / 2 ^ (i % word_bits) % 2 == 1

-- The test of an address: its word is taken modulo BSIZE / BIT.
unfoldable pub this_bit : Image → ℕ → Bool
this_bit img b =
    u32 img (block_size * bitmap_block + 4 * (b / word_bits % (block_size / word_bits)))
      / 2 ^ (b % word_bits)
      % 2
    == 1
