-- ===== src/Fsck/Tests.antt =====
-- A small image: the root directory in block 29, with its two entries.
use computer_organization_an.Common.{ℕ, ◌≡◌, refl, List, [], ◌∷◌, ◌==◌, if◌then◌else◌, replicate}
use computer_organization_an.Fsck.Image.{
  Image, superblock, inode, inode_from, u16, u32, words, bytes, block, pointers, dirents, entries,
  is_dot, is_dotdot, bitmap_bit, this_bit,
}
use computer_organization_an.Fsck.Check.{Check, ok, read, read_as, increment, bump, write, claim}
use computer_organization_an.Fsck.Blocks.{
  outside, direct_check, direct_loop, indirect_block, indirect_check, indirect_loop, wrong_size,
  size_check, indirect_part, inode_blocks,
}
use computer_organization_an.Fsck.Walk.{names, any_names, back_pointer, find_root}
use computer_organization_an.Fsck.Dirs.{
  Links, is_dots, file_entry, root_path, parent_names, once_named, dir_entry, pointed, indexed,
  reference, dots, entry_check, entry_loop, dir_blocks, directory,
}
use computer_organization_an.Fsck.Main.{
  bad_type, inode_links, inode_check, inode_loop, int_rounds, in_data, bitmap_loop, named_check,
  file_check, int_of_short, differs, dir_check, link_check, link_loop, verdict, start, check_image,
}
use computer_organization_an.Fsck.Sound.{Passed, check_image-Passed}

abbrev pub lookup_byte : List (ℕ × ℕ) → Image
lookup_byte [] a = 0
lookup_byte ((b, v) ∷ rest) a = if a == b then v else lookup_byte rest a

abbrev small : Image
small = lookup_byte (
    (513, 4)
    ∷ (516, 227)
    ∷ (517, 3)
    ∷ (520, 2)
    ∷ (1088, 1)
    ∷ (1094, 1)
    ∷ (1100, 29)
    ∷ (14339, 32)
    ∷ (14848, 1)
    ∷ (14850, 46)
    ∷ (14864, 1)
    ∷ (14866, 46)
    ∷ (14867, 46)
    ∷ [])

abbrev zeros : Links
zeros = record {
  file_block_arr = 0 ∷ 0 ∷ [];
  dir_block_arr = 0 ∷ 0 ∷ [];
  dir_pointed_inodes = 0 ∷ 0 ∷ [];
  index_of_directory = 0 ∷ 0 ∷ [];
  num_of_directory = 0;
  exit_code = 0;
}

-- A run in which everything computes.
run : Image → Links → Check ℕ
unfolding check_image superblock inode inode_from u16 u32 words bytes block pointers dirents entries
    is_dot is_dotdot bitmap_bit this_bit read read_as increment bump write claim outside
    direct_check direct_loop indirect_block indirect_check indirect_loop wrong_size size_check
    indirect_part inode_blocks names any_names back_pointer find_root is_dots file_entry root_path
    parent_names once_named dir_entry pointed indexed reference dots entry_check entry_loop
    dir_blocks directory bad_type inode_links inode_check inode_loop int_rounds in_data bitmap_loop
    named_check file_check int_of_short differs dir_check link_check link_loop verdict start
run img heap = check_image 0 img heap

small_passes : run small zeros ≡ ok 0
unfolding run
small_passes = refl

check_image-Passed_example : Passed small 2 (superblock small)
unfolding superblock u32 u16 int_rounds run
check_image-Passed_example = check_image-Passed 0 small zeros 0 small_passes

-- A file with two links, in inode 2, that the root names twice.
abbrev linked : Image
linked = lookup_byte (
    (513, 4)
    ∷ (516, 227)
    ∷ (517, 3)
    ∷ (520, 3)
    ∷ (1088, 1)
    ∷ (1094, 1)
    ∷ (1100, 29)
    ∷ (1152, 2)
    ∷ (1158, 2)
    ∷ (14339, 32)
    ∷ (14848, 1)
    ∷ (14850, 46)
    ∷ (14864, 1)
    ∷ (14866, 46)
    ∷ (14867, 46)
    ∷ (14880, 2)
    ∷ (14882, 97)
    ∷ (14896, 2)
    ∷ (14898, 98)
    ∷ [])

zeros_of : ℕ → Links
zeros_of n = record {
  file_block_arr = replicate n 0;
  dir_block_arr = replicate n 0;
  dir_pointed_inodes = replicate n 0;
  index_of_directory = replicate n 0;
  num_of_directory = 0;
  exit_code = 0;
}
