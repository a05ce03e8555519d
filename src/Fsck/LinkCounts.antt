-- ===== src/Fsck/LinkCounts.antt =====
-- What the verdict of the checker says about link counts.
use computer_organization_an.Common.{
  ℕ, zero, suc, ◌+◌, ◌%◌, word, ◌≡◌, ◌⊎◌, false, ◌==◌, if◌then◌else◌, get_or,
}
use computer_organization_an.Fsck.Image.{Image, inode, t_dir, t_file}
use computer_organization_an.Fsck.Dirs.{Links}
use computer_organization_an.Fsck.Dirs.Counts.{dir_refs}
use computer_organization_an.Fsck.Main.{bad_type, int_of_short}

-- The references to file `i` from the directories among `n` inodes from `j` on.
abbrev pub references : Image → ℕ → ℕ → ℕ → ℕ
references img i zero j = 0
references img i (suc n) j =
    (if (inode img j).type == t_dir then dir_refs img i (inode img j) else 0)
    + references img i n (suc j)

-- Inode `i` is of a known type, and its link count is right.
pub record Linked (img : Image) (heap : Links) (n i : ℕ) : Type 0 where
  pub known : bad_type (inode img i) ≡ false
  pub file_links :
      (((inode img i).type == t_file) ≡ false)
      ⊎ ((get_or heap.file_block_arr i 0 + references img i n 0) % word
          ≡ int_of_short (inode img i).nlink % word)
  pub dir_links : (((inode img i).type == t_dir) ≡ false) ⊎ ((inode img i).nlink ≡ 1)
