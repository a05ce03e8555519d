-- ===== src/Shell/Syntax.antt =====
-- `checksyntax` of Unix shell/smash.c; `true` stands for its result 0.
use computer_organization_an.Common.{
  ℕ, Bool, true, false, not, ◌&&◌, ◌||◌, Option, none, some, List, [], ◌∷◌, leb, ◌==◌,
  if◌then◌else◌, length,
}
use computer_organization_an.Common.Outcome.{Outcome, ok, ◌>>=◌}
use computer_organization_an.Shell.{
  Str, Shell, equals, trim, trim_first, strsep, nonempty, checkpath,
}

abbrev pub exit_word : Str
exit_word = b'e' ∷ b'x' ∷ b'i' ∷ b't' ∷ []

abbrev pub cd_word : Str
cd_word = b'c' ∷ b'd' ∷ []

abbrev pub path_word : Str
path_word = b'p' ∷ b'a' ∷ b't' ∷ b'h' ∷ []

abbrev pub add_word : Str
add_word = b'a' ∷ b'd' ∷ b'd' ∷ []

abbrev pub remove_word : Str
remove_word = b'r' ∷ b'e' ∷ b'm' ∷ b'o' ∷ b'v' ∷ b'e' ∷ []

abbrev pub clear_word : Str
clear_word = b'c' ∷ b'l' ∷ b'e' ∷ b'a' ∷ b'r' ∷ []

-- The nonempty words behind "path".
unfoldable pub check_path_words : List Str → Bool
check_path_words [] = false
check_path_words (word ∷ words) =
    if equals word add_word
    then length words == 1
    else (if equals word remove_word
        then length words == 1
        else (equals word clear_word && length words == 0))

-- A command is on the path.
unfoldable pub on_path : Option Str → Bool
on_path none = false
on_path (some path) = true

unfoldable pub check_program : (Str → Bool) → Shell → Str → Outcome Bool
check_program access sh str =
    checkpath access sh.path_length sh.path_ptr str >>= λ command. ok (on_path command)

-- A command without redirection, by its fields between spaces.
unfoldable pub check_fields : (Str → Bool) → Shell → List Str → Outcome Bool
check_fields access sh [] = ok true
check_fields access sh (field ∷ fields) =
    if equals field exit_word
    then ok (length (nonempty fields) == 0)
    else (if equals field cd_word
        then ok (length (nonempty fields) == 1)
        else (if equals field path_word
            then ok (check_path_words (nonempty fields))
            else check_program access sh field))

abbrev pub first_field : List Str → Str
first_field [] = []
first_field (field ∷ fields) = field

abbrev pub other_fields : List Str → List Str
other_fields [] = []
other_fields (field ∷ fields) = fields

unfoldable pub is_empty : Str → Bool
is_empty [] = true
is_empty (c ∷ str) = false

unfoldable pub has : ℕ → Str → Bool
has c [] = false
has c (d ∷ str) = d == c || has c str

-- A command with redirection, by its parts between '>': the program is on the path, the file has a
-- name, and there is one '>'.
unfoldable pub check_redirection : (Str → Bool) → Shell → List Str → Outcome Bool
check_redirection access sh parts =
    trim_first (first_field (strsep 32 (first_field parts))) >>= λ str.
    check_program access sh str >>= λ found.
    ok (found && not (is_empty (trim (first_field (other_fields parts)))) && leb (length parts) 2)

unfoldable pub check_command : (Str → Bool) → Shell → Str → Outcome Bool
check_command access sh str =
    if has b'>' str
    then check_redirection access sh (strsep b'>' str)
    else check_fields access sh (strsep 32 str)

-- A check of a trimmed string that is not empty, and of the `rest`.
unfoldable pub check_one : (Str → Outcome Bool) → Str → Outcome Bool → Outcome Bool
check_one check str rest =
    if is_empty str then rest else (check str >>= λ good. if good then rest else ok false)

unfoldable pub check_rest : (Str → Outcome Bool) → List Str → Outcome Bool
check_rest check [] = ok true
check_rest check (str ∷ strs) = let rest = check_rest check strs in check_one check (trim str) rest

-- The fields of a copied string up to the first that fails; the first one is at the copy's begin.
unfoldable pub check_all : (Str → Outcome Bool) → List Str → Outcome Bool
check_all check [] = ok true
check_all check (str ∷ strs) =
    trim_first str >>= λ first. check_one check first (check_rest check strs)

unfoldable pub check_segment : (Str → Bool) → Shell → Str → Outcome Bool
check_segment access sh str = check_all (check_command access sh) (strsep b'&' str)

unfoldable pub checksyntax : (Str → Bool) → Shell → Str → Outcome Bool
checksyntax access sh str =
    trim_first str >>= λ line. check_all (check_segment access sh) (strsep b';' line)
