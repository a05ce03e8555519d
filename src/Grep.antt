-- ===== src/Grep.antt =====
-- The line search of UnixFunctions/wis-grep.c. A stream is its bytes, a string the bytes before its
-- zero byte; opening a file is the surroundings' answer. What is printed is the output's bytes; the
-- messages of the program itself are left out.
pub mod Search
mod Tests
use computer_organization_an.Common.{
  ℕ, zero, suc, ◌+◌, ◌-◌, Bool, true, false, ◌&&◌, Option, none, some, List, [], ◌∷◌, ◌++◌, leb,
  ◌==◌, if◌then◌else◌, get_or, length, ◌^◌,
}
use computer_organization_an.Common.Outcome.{Outcome, ok, fault, ◌>>=◌}

abbrev pub Bytes : Type 0
Bytes = List ℕ

-- The loop over `j`: whether the term stands in the line from index `i` on.
unfoldable pub match_loop : Bytes → Bytes → ℕ → Bool
match_loop [] line i = true
match_loop (c ∷ search_term) line i = c == get_or line i 0 && match_loop search_term line (suc i)

-- The loop over `i`, with `n` rounds left; `j` counts to `i` and the term's length, and both are an
-- `int`.
unfoldable pub search_loop : ℕ → ℕ → Bytes → Bytes → Outcome Bool
search_loop zero i search_term line = ok false
search_loop (suc n) i search_term line =
    let further = search_loop n (suc i) search_term line in
    if leb (2 ^ 31) (i + length search_term)
    then fault
    else (if match_loop search_term line i then ok true else further)

-- Whether the line is printed.
unfoldable pub found : Bytes → Bytes → Outcome Bool
found search_term line =
    if leb (length search_term) (length line)
    then search_loop (suc (length line - length search_term)) 0 search_term line
    else ok false

unfoldable pub begin_line : ℕ → List Bytes → List Bytes
begin_line c [] = (c ∷ []) ∷ []
begin_line c (line ∷ lines) = (c ∷ line) ∷ lines

-- The lines that `getline` returns, each with its newline.
unfoldable pub get_lines : Bytes → List Bytes
get_lines [] = []
get_lines (c ∷ stream) =
    let lines = get_lines stream in if c == 10 then (c ∷ []) ∷ lines else begin_line c lines

-- printf("%s", line)
unfoldable pub print : Bytes → Bytes
print [] = []
print (c ∷ line) = if c == 0 then [] else c ∷ print line

unfoldable pub grep_lines : Bytes → List Bytes → Outcome Bytes
grep_lines search_term [] = ok []
grep_lines search_term (line ∷ lines) = found search_term line >>= λ printed.
    grep_lines search_term lines >>= λ rest. ok ((if printed then print line else []) ++ rest)

unfoldable pub then_rest : Outcome Bytes → Outcome (Bytes × ℕ) → Outcome (Bytes × ℕ)
then_rest printed rest = printed >>= λ out. rest >>= λ r. ok (out ++ r.0, r.1)

-- The loop over the files: the output and the exit code.
unfoldable pub grep_files : (Bytes → Option Bytes) → Bytes → List Bytes → Outcome (Bytes × ℕ)
grep_files open_file search_term [] = ok ([], 0)
grep_files open_file search_term (filename ∷ files) =
    let rest = grep_files open_file search_term files in
    elim (open_file filename) [
      | none ↦ ok ([], 1)
      | some stream ↦ then_rest (grep_lines search_term (get_lines stream)) rest
    ]

-- `main`, from the arguments behind the program's name.
unfoldable pub grep : (Bytes → Option Bytes) → Bytes → List Bytes → Outcome (Bytes × ℕ)
grep open_file stdin [] = ok ([], 1)
grep open_file stdin (search_term ∷ []) =
    then_rest (grep_lines search_term (get_lines stdin)) (ok ([], 0))
grep open_file stdin (search_term ∷ filename ∷ files) =
    grep_files open_file search_term (filename ∷ files)
