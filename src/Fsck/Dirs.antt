-- ===== src/Fsck/Dirs.antt =====
-- The checks of a directory's entries. `fuel` is for the walk to the root. In the part for indirect
-- blocks the pointer to an entry's inode is initialised with itself, and what follows for an entry in
-- use reads through it: a fault.
pub mod Files
pub mod Counts
pub mod Totals
use computer_organization_an.Common.{
  ℕ, suc, ◌+◌, ◌^◌, Bool, true, false, not, ◌&&◌, ◌||◌, List, [], ◌∷◌, leb, ltb, ◌==◌,
  if◌then◌else◌, get_or, take, set,
}
use computer_organization_an.Fsck.Image.{
  Image, Dinode, Dirent, ndirect, t_dir, t_file, inode, pointers, entries, is_dot, is_dotdot,
}
use computer_organization_an.Fsck.Check.{
  Check, ok, err, fault, increment, ◌>>=◌, err_if, read, write, bump, bad_format, parent_mismatch,
  dir_twice, referred_free,
}
use computer_organization_an.Fsck.Walk.{find_root, back_pointer}

-- The arrays that count references, and `exit_code`. Each is of `int`, as the 32 bits that it has.
pub record Links : Type 0 where
  pub file_block_arr : List ℕ
  pub dir_block_arr : List ℕ
  pub dir_pointed_inodes : List ℕ
  pub index_of_directory : List ℕ
  pub num_of_directory : ℕ
  pub exit_code : ℕ

-- An entry's name is "." or "..".
unfoldable pub is_dots : Dirent → Bool
is_dots e = is_dot e.name || is_dotdot e.name

-- A file that an entry refers to.
unfoldable pub file_entry : ℕ → Links → Check Links
file_entry i l = bump l.file_block_arr i >>= λ arr. ok (record l { file_block_arr = arr })

-- The path from a parent other than the root.
unfoldable pub root_path : ℕ → Image → ℕ → Dirent → Check (Unit {0})
root_path fuel img me e =
    if is_dotdot e.name && not (e.inum == 1) then find_root fuel img me e.inum else ok tt

-- The parent has an entry for directory `me`.
unfoldable pub parent_names : Image → ℕ → Dirent → Dinode → Check (Unit {0})
parent_names img me e parent =
    err_if (is_dotdot e.name && not (back_pointer img me parent)) parent_mismatch (ok tt)

-- A directory is entered once under a name of its own.
unfoldable pub once_named : Dirent → Links → Check Links
once_named e l = read l.dir_block_arr e.inum >>= λ n.
    err_if (leb 1 n && ltb n (2 ^ 31) && not (is_dots e)) dir_twice (
      if is_dots e
      then ok l
      else increment n >>= λ v. ok (record l { dir_block_arr = set l.dir_block_arr e.inum v }))

-- An entry for a directory, in a direct block.
unfoldable pub dir_entry : ℕ → Image → ℕ → Dirent → Dinode → Links → Check Links
dir_entry fuel img me e ptr l =
    err_if (is_dot e.name && not (e.inum == me)) bad_format
      (root_path fuel img me e >>= λ _. parent_names img me e ptr >>= λ _. once_named e l)

unfoldable pub pointed : Dirent → Links → Check Links
pointed e l =
    if is_dots e
    then ok l
    else (bump l.dir_pointed_inodes e.inum >>= λ arr. ok (record l { dir_pointed_inodes = arr }))

unfoldable pub indexed : Dirent → Links → Check Links
indexed e l = write l.index_of_directory e.inum l.num_of_directory >>= λ arr.
    ok (record l { index_of_directory = arr; num_of_directory = suc l.num_of_directory })

-- What an entry in a direct block refers to.
unfoldable pub reference : ℕ → Image → ℕ → Dirent → Dinode → Links → Check Links
reference fuel img me e ptr l =
    (if ptr.type == t_file
      then file_entry e.inum l
      else (if ptr.type == t_dir then dir_entry fuel img me e ptr l else ok l))
    >>= λ l'. err_if (ptr.type == 0) referred_free (pointed e l' >>= indexed e)

-- A wrong "." in a direct block costs the exit code only.
unfoldable pub dots : ℕ → Dirent → Links → ℕ → Links × ℕ
dots me e l n =
    if is_dots e
    then (if is_dot e.name && not (e.inum == me) then record l { exit_code = 1 } else l, suc n)
    else (l, n)

-- An entry in a direct block; the number is `curAndpre_dir`.
unfoldable pub entry_check : ℕ → Image → ℕ → Dirent → Links → ℕ → Check (Links × ℕ)
entry_check fuel img me e l n =
    (if e.inum == 0 then ok l else reference fuel img me e (inode img e.inum) l) >>= λ l'.
    ok (dots me e l' n)

-- An entry in an indirect block.
unfoldable pub entry_check_indirect : ℕ → Dirent → Links → ℕ → Check (Links × ℕ)
entry_check_indirect me e l n =
    err_if (is_dot e.name && not (e.inum == me)) bad_format
      ((if e.inum == 0 then ok l else fault) >>= λ l'. ok (l', if is_dots e then suc n else n))

unfoldable pub entry_loop : ℕ → Image → ℕ → List Dirent → Links → ℕ → Check (Links × ℕ)
entry_loop fuel img me [] l n = ok (l, n)
entry_loop fuel img me (e ∷ es) l n =
    entry_check fuel img me e l n >>= λ r. entry_loop fuel img me es r.0 r.1

unfoldable pub entry_loop_indirect : ℕ → List Dirent → Links → ℕ → Check (Links × ℕ)
entry_loop_indirect me [] l n = ok (l, n)
entry_loop_indirect me (e ∷ es) l n =
    entry_check_indirect me e l n >>= λ r. entry_loop_indirect me es r.0 r.1

-- The direct blocks of a directory.
unfoldable pub dir_blocks : ℕ → Image → ℕ → List ℕ → Links → ℕ → Check (Links × ℕ)
dir_blocks fuel img me [] l n = ok (l, n)
dir_blocks fuel img me (a ∷ addrs) l n =
    (if a == 0 then ok (l, n) else entry_loop fuel img me (entries img a) l n) >>= λ r.
    dir_blocks fuel img me addrs r.0 r.1

-- The blocks behind the thirteenth address, also those of address 0.
unfoldable pub dir_blocks_indirect : Image → ℕ → List ℕ → Links → ℕ → Check (Links × ℕ)
dir_blocks_indirect img me [] l n = ok (l, n)
dir_blocks_indirect img me (a ∷ addrs) l n =
    entry_loop_indirect me (entries img a) l n >>= λ r. dir_blocks_indirect img me addrs r.0 r.1

-- A directory has exactly two entries with the names "." and "..".
unfoldable pub directory : ℕ → Image → ℕ → Dinode → Links → Check Links
directory fuel img me ino l = dir_blocks fuel img me (take ndirect ino.addrs) l 0 >>= λ r.
    (if get_or ino.addrs ndirect 0 == 0
      then ok r
      else dir_blocks_indirect img me (pointers img (get_or ino.addrs ndirect 0)) r.0 r.1)
    >>= λ r'. err_if (not (r'.1 == 2)) bad_format (ok r'.0)
