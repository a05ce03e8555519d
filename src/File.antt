-- ===== src/File.antt =====
-- The table of open files of xv6 Scheduler/kernel/file.c: who refers to a file, and what the last
-- `fileclose` gives back. `ftable.lock` is held throughout each of the calls.
pub mod Refs
mod Tests
use computer_organization_an.Common.{
  ℕ, zero, suc, ◌+◌, ◌-◌, Bool, true, false, Option, none, some, List, [], ◌∷◌, ltb, ◌==◌,
  if◌then◌else◌, get_elem?, set,
}
use computer_organization_an.Common.Outcome.{Outcome, ok, panic, fault}

pub data FdType : Type 0 where
  fd_none fd_pipe fd_inode : FdType

-- `struct file`
pub record File : Type 0 where
  pub type : FdType
  pub ref : ℕ
  pub readable : Bool
  pub writable : Bool
  pub pipe : ℕ
  pub ip : ℕ
  pub off : ℕ

abbrev pub int_max : ℕ
int_max = 2147483647

-- The file that is found in the rest of the table.
unfoldable pub after_file : File → Option (ℕ × List File) → Option (ℕ × List File)
after_file f none = none
after_file f (some (i, files)) = some (suc i, f ∷ files)

-- A step with the file at an index, which a pointer stands for.
unfoldable pub at_file : {A : Type 0} → Option File → (File → Outcome A) → Outcome A
at_file none step = fault
at_file (some f) step = step f

-- The index of the file, and the table; `none` is the null pointer.
unfoldable pub filealloc : List File → Option (ℕ × List File)
filealloc [] = none
filealloc (f ∷ files) =
    let rest = filealloc files in
    if f.ref == 0 then some (0, record f { ref = 1 } ∷ files) else after_file f rest

unfoldable pub dup_of : List File → ℕ → File → Outcome (List File)
dup_of files i f =
    if ltb f.ref 1
    then panic
    else (if f.ref == int_max then fault else ok (set files i (record f { ref = suc f.ref })))

unfoldable pub filedup : List File → ℕ → Outcome (List File)
filedup files i = at_file (get_elem? files i) (dup_of files i)

-- What `fileclose` calls behind the lock.
pub data Closed : Type 0 where
  still_open nothing : Closed
  close_pipe : ℕ → Bool → Closed
  put_inode : ℕ → Closed

unfoldable pub closed : File → Closed
closed f = elim f.type [
  | fd_none ↦ nothing
  | fd_pipe ↦ close_pipe f.pipe f.writable
  | fd_inode ↦ put_inode f.ip
]

unfoldable pub close_of : List File → ℕ → File → Outcome (List File × Closed)
close_of files i f =
    if ltb f.ref 1
    then panic
    else (if ltb 0 (f.ref - 1)
        then ok (set files i (record f { ref = f.ref - 1 }), still_open)
        else ok (set files i (record f { ref = 0; type = fd_none }), closed f))

unfoldable pub fileclose : List File → ℕ → Outcome (List File × Closed)
fileclose files i = at_file (get_elem? files i) (close_of files i)
