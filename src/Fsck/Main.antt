-- ===== src/Fsck/Main.antt =====
-- The loop over the inodes, the checks behind it, and the arguments of the program.
use computer_organization_an.Common.{
  ℕ, zero, suc, ◌+◌, ◌-◌, ◌*◌, ◌^◌, Bool, true, false, not, ◌&&◌, ◌||◌, Option, none, some, List,
  [], ◌∷◌, ltb, leb, ◌==◌, if◌then◌else◌, replicate, word,
}
use computer_organization_an.Fsck.Image.{
  Image, Superblock, Dinode, block_size, t_dir, t_file, t_dev, superblock, inode, bitmap_bit,
}
use computer_organization_an.Fsck.Check.{
  Check, ok, ◌>>=◌, err_if, read, bad_inode, not_found, bad_count, dir_twice, bad_superblock,
  not_in_use, bad_size,
}
use computer_organization_an.Fsck.Blocks.{Blocks, inode_blocks}
use computer_organization_an.Fsck.Dirs.{Links, directory}

pub record State : Type 0 where
  pub blocks : Blocks
  pub links : Links

unfoldable pub bad_type : Dinode → Bool
bad_type ino =
    not (ino.type == 0)
    && not (ino.type == t_file)
    && not (ino.type == t_dir)
    && not (ino.type == t_dev)

unfoldable pub inode_links : ℕ → Image → ℕ → Dinode → Links → Check Links
inode_links fuel img i ino l = if ino.type == t_dir then directory fuel img i ino l else ok l

-- One round of the loop.
unfoldable pub inode_check : ℕ → Image → Superblock → ℕ → State → Check State
inode_check fuel img sb i s = err_if (bad_type (inode img i)) bad_inode (
    inode_blocks img sb (inode img i) s.blocks >>= λ b.
    inode_links fuel img i (inode img i) s.links >>= λ l. ok (record { blocks = b; links = l }))

-- `n` rounds, from inode `i` on.
unfoldable pub inode_loop : ℕ → Image → Superblock → ℕ → ℕ → State → Check State
inode_loop fuel img sb zero i s = ok s
inode_loop fuel img sb (suc n) i s =
    inode_check fuel img sb i s >>= inode_loop fuel img sb n (suc i)

-- The rounds of `i < (int)n` from 0 on.
unfoldable pub int_rounds : ℕ → ℕ
int_rounds n = if ltb n (2 ^ 31) then n else 0

-- (int)sb->size - (int)sb->nblocks <= i && i < (int)sb->size
unfoldable pub in_data : Superblock → ℕ → Bool
in_data sb i =
    leb (if ltb sb.nblocks (2 ^ 31) then sb.size - sb.nblocks else sb.size + (word - sb.nblocks)) i
    && ltb i (int_rounds sb.size)

-- The loop that computes `coun_db_bitmap`, over `n` bits from `i` on.
unfoldable pub bitmap_loop : Image → Superblock → ℕ → ℕ → ℕ → ℕ
bitmap_loop img sb zero i count = count
bitmap_loop img sb (suc n) i count =
    bitmap_loop img sb n (suc i) (if in_data sb i && bitmap_bit img i then suc count else count)

-- A `short` as an `int`, both as the bits that they have.
unfoldable pub int_of_short : ℕ → ℕ
int_of_short s = if ltb s (2 ^ 15) then s else s + 4294901760

-- An `int` differs from a `short`.
unfoldable pub differs : ℕ → ℕ → Bool
differs n s = not (n == int_of_short s)

-- A used inode other than 0 and 1 is named by a directory.
unfoldable pub named_check : Image → Links → ℕ → Check (Unit {0})
named_check img l i =
    if i == 0 || i == 1
    then ok tt
    else (read l.dir_pointed_inodes i >>= λ n.
        err_if (n == 0 && not ((inode img i).type == 0)) not_found (ok tt))

unfoldable pub file_check : Image → Links → ℕ → Check (Unit {0})
file_check img l i =
    if (inode img i).type == t_file
    then (read l.file_block_arr i >>= λ n. err_if (differs n (inode img i).nlink) bad_count (ok tt))
    else ok tt

unfoldable pub dir_check : Image → ℕ → Check (Unit {0})
dir_check img i =
    err_if ((inode img i).type == t_dir && not ((inode img i).nlink == 1)) dir_twice (ok tt)

unfoldable pub link_check : Image → Links → ℕ → Check (Unit {0})
link_check img l i = named_check img l i >>= λ _. file_check img l i >>= λ _. dir_check img i

-- The second loop over the inodes, `n` of them from `i` on.
unfoldable pub link_loop : Image → Links → ℕ → ℕ → Check (Unit {0})
link_loop img l zero i = ok tt
link_loop img l (suc n) i = link_check img l i >>= λ _. link_loop img l n (suc i)

-- What follows the loops: the exit code.
unfoldable pub verdict : Image → Superblock → State → Check ℕ
verdict img sb s = err_if (ltb sb.size 1022) bad_superblock (
    err_if (ltb s.blocks.count (bitmap_loop img sb (8 * block_size) 0 0)) not_in_use
      (err_if s.blocks.badsize bad_size (ok s.links.exit_code)))

-- The state before the loop. The arrays of `Links` come from `malloc` and hold what `heap` holds.
unfoldable pub start : Superblock → Links → State
start sb heap = record {
  blocks = record {
    direct = replicate (int_rounds sb.size) 0;
    indirect = replicate (int_rounds sb.size) 0;
    count = 0;
    badsize = false;
  };
  links = record heap { num_of_directory = 0; exit_code = 0 };
}

-- `main` from `mmap` on.
unfoldable pub check_image : ℕ → Image → Links → Check ℕ
check_image fuel img heap =
    inode_loop fuel img (superblock img) (int_rounds (superblock img).ninodes) 0
      (start (superblock img) heap)
    >>= λ s. link_loop img s.links (int_rounds (superblock img).ninodes) 0 >>= λ _.
        verdict img (superblock img) s

-- The image file that the arguments behind the program's name select, and whether for writing;
-- `is_r` is strcmp(argv[1], "-r") == 0.
unfoldable pub image_file {ℓ} : {A : Type ℓ} → (A → Bool) → List A → Option (A × Bool)
image_file is_r [] = none
image_file is_r (path ∷ []) = some (path, false)
image_file is_r (flag ∷ path ∷ []) = if is_r flag then some (path, true) else none
image_file is_r (_ ∷ _ ∷ _ ∷ _) = none
