-- ===== src/Shell.antt =====
-- The shell of Unix shell/smash.c: its list of directories and its strings. A string is the bytes
-- before its zero byte. malloc always succeeds, and nothing is given back.
pub mod Syntax
pub mod Run
pub mod Path
pub mod Fields
pub mod Safe
pub mod Total
pub mod Lines
mod Tests
use computer_organization_an.Common.{
  ℕ, zero, suc, ◌+◌, ◌-◌, Bool, true, false, ◌&&◌, ◌||◌, Option, none, some, List, [], ◌∷◌, ◌++◌,
  leb, ◌==◌, if◌then◌else◌, length,
}
use computer_organization_an.Common.Outcome.{Outcome, ok, fault}

abbrev pub Str : Type 0
Str = List ℕ

-- strcmp(a, b) == 0
unfoldable pub equals : Str → Str → Bool
equals [] [] = true
equals [] (y ∷ ys) = false
equals (x ∷ xs) [] = false
equals (x ∷ xs) (y ∷ ys) = x == y && equals xs ys

-- `path_ptr` and `path_length`
pub record Shell : Type 0 where
  pub path_ptr : List Str
  pub path_length : ℕ

unfoldable pub push : List Str → Str → List Str
push header new_data = new_data ∷ header

unfoldable pub delete_node : List Str → Str → List Str × Bool
delete_node [] key = ([], false)
delete_node (str ∷ rest) key =
    let (rest', deleted) = delete_node rest key in
    if equals str key then (rest, true) else (str ∷ rest', deleted)

unfoldable pub isspace : ℕ → Bool
isspace c = c == 32 || (leb 9 c && leb c 13)

unfoldable pub trim_left : Str → Str
trim_left [] = []
trim_left (c ∷ str) = let rest = trim_left str in if isspace c then rest else c ∷ str

unfoldable pub before_space : ℕ → Str → Str
before_space c [] = if isspace c then [] else c ∷ []
before_space c (d ∷ str) = c ∷ d ∷ str

unfoldable pub trim_right : Str → Str
trim_right [] = []
trim_right (c ∷ str) = before_space c (trim_right str)

-- `trim` of a string behind a byte that is no space, like the zero byte that `strsep` has left.
unfoldable pub trim : Str → Str
trim user_input = trim_right (trim_left user_input)

-- `trim` of a string at the begin of its memory: a blank one is read in front of it.
unfoldable pub trim_first : Str → Outcome Str
trim_first user_input = elim (trim_left user_input) [
  | [] ↦ fault
  | c ∷ str ↦ ok (trim_right (c ∷ str))
]

unfoldable pub begin_field : ℕ → List Str → List Str
begin_field c [] = (c ∷ []) ∷ []
begin_field c (field ∷ fields) = (c ∷ field) ∷ fields

-- What the calls of `strsep` with one separator return, up to the null pointer.
unfoldable pub strsep : ℕ → Str → List Str
strsep separator [] = [] ∷ []
strsep separator (c ∷ str) =
    let fields = strsep separator str in
    if c == separator then [] ∷ fields else begin_field c fields

-- The fields that are not empty.
unfoldable pub nonempty : List Str → List Str
nonempty [] = []
nonempty ([] ∷ fields) = nonempty fields
nonempty ((c ∷ field) ∷ fields) = (c ∷ field) ∷ nonempty fields

-- The path of a command in a directory.
unfoldable pub in_dir : Str → Str → Str
in_dir dir command = dir ++ b'/' ∷ command

-- `checkpath`, over `n` nodes; `none` is the empty string, and a missing node a null pointer. A path
-- goes into 1,024 bytes, its zero byte with it.
unfoldable pub checkpath : (Str → Bool) → ℕ → List Str → Str → Outcome (Option Str)
checkpath access zero cur str = ok none
checkpath access (suc n) [] str = fault
checkpath access (suc n) (dir ∷ cur) str =
    let next = checkpath access n cur str in
    if leb 1024 (length (in_dir dir str))
    then fault
    else (if access (in_dir dir str) then ok (some (in_dir dir str)) else next)
