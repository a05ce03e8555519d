-- ===== src/Fs/Path.antt =====
-- Paths: `skipelem` and `namex`. A path is the bytes before its zero byte; an element is cut to the
-- 14 bytes of a name.
use computer_organization_an.Common.{
  ℕ, zero, suc, Bool, true, false, ◌&&◌, Option, none, some, List, [], ◌∷◌, ◌==◌, if◌then◌else◌,
  get_or, get_elem?, set, take, length,
}
use computer_organization_an.Common.Outcome.{Outcome, ok, fault, ◌>>=◌}
use computer_organization_an.Fs.{Block}
use computer_organization_an.Fs.Inode.{Inode, t_dir}
use computer_organization_an.Fs.Cache.{
  State, at_inode, iget, idup, Locked, locked, asleep, ilock, iunlock, iunlockput,
}
use computer_organization_an.Fs.Dir.{name_size, Lookup, dirlookup, iput_at}

-- while(*path == '/') path++
unfoldable pub skip_slashes : List ℕ → List ℕ
skip_slashes [] = []
skip_slashes (c ∷ path) = let rest = skip_slashes path in if c == b'/' then rest else c ∷ path

-- while(*path != '/' && *path != 0) path++: what is passed, and what is left.
unfoldable pub element : List ℕ → List ℕ × List ℕ
element [] = ([], [])
element (c ∷ path) =
    let (elem, rest) = element path in if c == b'/' then ([], c ∷ path) else (c ∷ elem, rest)

unfoldable pub skip_from : List ℕ → Option (List ℕ × List ℕ)
skip_from [] = none
skip_from (c ∷ path) =
    let (elem, rest) = element (c ∷ path) in some (take name_size elem, skip_slashes rest)

-- The element and the rest of the path; `none` is the null pointer.
unfoldable pub skipelem : List ℕ → Option (List ℕ × List ℕ)
skipelem path = skip_from (skip_slashes path)

-- The bytes of an element in the buffer; there are zero bytes behind it.
unfoldable pub name_of : List ℕ → Block
name_of elem i = get_or elem i 0

-- How `namex` ends: with an inode, with that of the parent and the last element, without one, or
-- asleep.
pub data Named : Type 0 where
  named : ℕ → State → Named
  parent_of : ℕ → List ℕ → State → Named
  unnamed : State → Named
  waits : State → Named

-- iunlock or iunlockput of an inode of the cache.
unfoldable pub unlock_at : State → ℕ → Outcome State
unlock_at s i =
    at_inode (get_elem? s.cache i)
      (λ ip. iunlock ip >>= λ ip'. ok (record s { cache = set s.cache i ip' }))

unfoldable pub unlock_put_at : State → ℕ → Outcome State
unlock_put_at s i =
    at_inode (get_elem? s.cache i)
      (λ ip. iunlockput s.disk ip >>= λ r. ok (record { disk = r.0; cache = set s.cache i r.1 }))

unfoldable pub next_dir : State → ℕ → (State → ℕ → Outcome Named) → Lookup → Outcome Named
next_dir s i rest (none, s') = unlock_put_at s' i >>= λ s''. ok (unnamed s'')
next_dir s i rest (some (next, off), s') = unlock_put_at s' i >>= λ s''. rest s'' next

-- A round with the directory locked: the path behind the element is `path`.
unfoldable pub in_dir :
    Bool → List ℕ → List ℕ → State → ℕ → (State → ℕ → Outcome Named) → Inode → Outcome Named
in_dir parent elem path s i rest ip =
    if ip.type == t_dir
    then (if parent && length path == 0
        then (unlock_at s i >>= λ s'. ok (parent_of i elem s'))
        else (dirlookup s i (name_of elem) >>= next_dir s i rest))
    else (unlock_put_at s i >>= λ s'. ok (unnamed s'))

unfoldable pub with_lock : State → ℕ → (State → Inode → Outcome Named) → Locked → Outcome Named
with_lock s i step (asleep ip) = ok (waits s)
with_lock s i step (locked ip) = step (record s { cache = set s.cache i ip }) ip

-- The loop over the elements, with fuel for `fuel` of them.
unfoldable pub namex_loop : ℕ → Bool → State → ℕ → Option (List ℕ × List ℕ) → Outcome Named
namex_loop zero parent s i next = fault
namex_loop (suc fuel) parent s i none =
    if parent then (iput_at s i >>= λ s'. ok (unnamed s')) else ok (named i s)
namex_loop (suc fuel) parent s i (some (elem, path)) = at_inode (get_elem? s.cache i) (λ ip.
    ilock [] s.disk ip
    >>= with_lock s i (λ s' ip'.
      in_dir parent elem path s' i (λ s'' next. namex_loop fuel parent s'' next (skipelem path))
        ip'))

-- iget of the root, or idup of the current directory, which has the index `cwd`.
unfoldable pub begin_at : State → ℕ → List ℕ → Outcome (ℕ × State)
begin_at s cwd [] = idup cwd s.cache >>= λ cache. ok (cwd, record s { cache = cache })
begin_at s cwd (c ∷ path) =
    if c == b'/'
    then (iget 1 s.cache >>= λ r. ok (r.0, record s { cache = r.1 }))
    else (idup cwd s.cache >>= λ cache. ok (cwd, record s { cache = cache }))

unfoldable pub namex : Bool → State → ℕ → List ℕ → Outcome Named
namex parent s cwd path =
    begin_at s cwd path >>= λ r. namex_loop (suc (length path)) parent r.1 r.0 (skipelem path)

unfoldable pub namei : State → ℕ → List ℕ → Outcome Named
namei s cwd path = namex false s cwd path

unfoldable pub nameiparent : State → ℕ → List ℕ → Outcome Named
nameiparent s cwd path = namex true s cwd path
