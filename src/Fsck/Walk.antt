-- ===== src/Fsck/Walk.antt =====
-- The walk along the `..` entries to the root, and the search of a parent for its child.
use computer_organization_an.Common.{
  ℕ, zero, suc, Bool, true, false, ◌||◌, List, [], ◌∷◌, ◌==◌, if◌then◌else◌, get_or, take,
  replicate,
}
use computer_organization_an.Fsck.Image.{
  Image, Dinode, Dirent, ndirect, inode, pointers, entries, is_dotdot,
}
use computer_organization_an.Fsck.Check.{Check, ok, hangs, ◌>>=◌, err_if, read, write, inaccessible}

-- `find_root`, and the number of the inode that `copied_ptr` points to.
pub record Walk : Type 0 where
  pub found : Bool
  pub here : ℕ

-- The entries of one block; the loop is left at an entry for the root.
unfoldable pub walk_entries : List ℕ → List Dirent → Walk → Check Walk
walk_entries bits [] s = ok s
walk_entries bits (e ∷ es) s =
    let same_dir = walk_entries bits es s in
    let parent_dir = walk_entries bits es (record s { here = e.inum }) in
    if is_dotdot e.name
    then (if e.inum == 1
        then ok (record s { found = true })
        else (read bits e.inum >>= λ bit. err_if (bit == 1) inaccessible parent_dir))
    else same_dir

-- Addresses `n` and on of the inode, `k` of them: the inode may change on the way.
unfoldable pub walk_direct : Image → List ℕ → ℕ → ℕ → Walk → Check Walk
walk_direct img bits zero n s = ok s
walk_direct img bits (suc k) n s =
    walk_entries bits (entries img (get_or (inode img s.here).addrs n 0)) s
    >>= walk_direct img bits k (suc n)

unfoldable pub walk_indirect : Image → List ℕ → List ℕ → Walk → Check Walk
walk_indirect img bits [] s = ok s
walk_indirect img bits (b ∷ blocks) s =
    walk_entries bits (entries img b) s >>= walk_indirect img bits blocks

-- One round of `while (find_root == 0)`.
unfoldable pub walk_round : Image → List ℕ → Walk → Check Walk
walk_round img bits s = walk_direct img bits ndirect 0 s >>= λ s'.
    walk_indirect img bits (pointers img (get_or (inode img s'.here).addrs ndirect 0)) s'

-- The loop, with at most `fuel` rounds.
unfoldable pub walk : ℕ → Image → List ℕ → Walk → Check (Unit {0})
walk zero img bits s = hangs
walk (suc fuel) img bits s =
    let rest = walk_round img bits s >>= walk fuel img bits in if s.found then ok tt else rest

-- From inode `inum`, the parent of directory `me`, which has the only bit of `inode_bits`.
unfoldable pub find_root : ℕ → Image → ℕ → ℕ → Check (Unit {0})
find_root fuel img me inum = write (replicate 200 0) me 1 >>= λ bits.
    walk fuel img bits (record { found = false; here = inum })

unfoldable pub names : ℕ → List Dirent → Bool
names me [] = false
names me (e ∷ es) = e.inum == me || names me es

unfoldable pub any_names : Image → ℕ → List ℕ → Bool
any_names img me [] = false
any_names img me (b ∷ blocks) = names me (entries img b) || any_names img me blocks

-- `find_back_ptr`, in all the blocks of the parent, also those of address 0.
unfoldable pub back_pointer : Image → ℕ → Dinode → Bool
back_pointer img me parent =
    any_names img me (take ndirect parent.addrs)
    || any_names img me (pointers img (get_or parent.addrs ndirect 0))
