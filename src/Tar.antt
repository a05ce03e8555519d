-- ===== src/Tar.antt =====
-- The archiver of UnixFunctions/wis-tar.c and wis-untar.c. A file is its bytes, a string the bytes
-- before its zero byte; opening a file is the surroundings' answer. Messages are left out.
pub mod Field
pub mod Trip
mod Tests
use computer_organization_an.Common.{
  ℕ, zero, suc, ◌+◌, ◌-◌, ◌*◌, ◌/◌, ◌%◌, ◌^◌, Bool, true, false, Option, none, some, List, [], ◌∷◌,
  ◌++◌, ltb, leb, ◌==◌, if◌then◌else◌, length, take, drop, replicate,
}

abbrev pub Bytes : Type 0
Bytes = List ℕ

-- The 100 bytes of a file's name.
unfoldable pub name_field : Bytes → Bytes
name_field filename =
    if leb 100 (length filename)
    then take 100 filename
    else filename ++ replicate (100 - length filename) 0

-- The bytes of a number, the lowest first.
unfoldable pub le_bytes : ℕ → ℕ → Bytes
le_bytes zero n = []
le_bytes (suc k) n = n % 256 ∷ le_bytes k (n / 256)

-- while ((ch = fgetc(f)) != EOF) fputc(ch, f_tar): the byte 255 in a `char` equals EOF.
unfoldable pub copied : Bytes → Bytes
copied [] = []
copied (ch ∷ rest) = if ch == 255 then [] else ch ∷ copied rest

-- What a file adds to the archive; `st_size` is its length.
unfoldable pub entry : Bytes → Bytes → Bytes
entry filename content = name_field filename ++ (le_bytes 8 (length content) ++ copied content)

-- The loop over the input files: the archive and the exit code.
unfoldable pub tar_loop : (Bytes → Option Bytes) → List Bytes → Bytes × ℕ
tar_loop open_file [] = ([], 0)
tar_loop open_file (filename ∷ files) =
    let (archive, code) = tar_loop open_file files in
    elim (open_file filename) [
      | none ↦ ([], 1)
      | some content ↦ (entry filename content ++ archive, code)
    ]

-- `main` of wis-tar.c, from the arguments behind the program's name: the archive, if one was opened
-- for writing, and the exit code.
unfoldable pub tar : (Bytes → Bool) → (Bytes → Option Bytes) → List Bytes → Option Bytes × ℕ
tar can_write open_file [] = (none, 1)
tar can_write open_file (tarname ∷ []) = (none, 1)
tar can_write open_file (tarname ∷ filename ∷ files) =
    let (archive, code) = tar_loop open_file (filename ∷ files) in
    if can_write tarname then (some archive, code) else (none, 1)

-- How the extraction ends: with an exit code, with a name that has no zero byte, with an index that
-- leaves the range of an `int`, or without fuel.
pub data Status : Type 0 where
  exits : ℕ → Status
  unterminated overflow out_of_fuel : Status

-- The files that have been written, in order, and the end.
abbrev pub Extract : Type 0
Extract = List (Bytes × Bytes) × Status

-- The string in a buffer; `none` if it has no zero byte.
unfoldable pub string_in : Bytes → Option Bytes
string_in [] = none
string_in (c ∷ rest) =
    let more = string_in rest in
    if c == 0 then some [] else (elim more [ none ↦ none | some s ↦ some (c ∷ s) ])

-- What `fread` leaves in a buffer of which `old` are the bytes before.
unfoldable pub fread : ℕ → Bytes → Bytes → Bytes
fread n old archive = take n archive ++ drop (length (take n archive)) old

unfoldable pub le_value : Bytes → ℕ
le_value [] = 0
le_value (b ∷ rest) = b + 256 * le_value rest

-- The rounds that `i < size_buffer` allows: the size is a `long`, and none if it is negative.
unfoldable pub size_rounds : ℕ → ℕ
size_rounds n = if ltb n (2 ^ 63) then n else 0

-- `n` times fgetc and fputc: EOF, in a `char`, is the byte 255.
unfoldable pub content_loop : ℕ → Bytes → Bytes
content_loop zero archive = []
content_loop (suc n) [] = 255 ∷ content_loop n []
content_loop (suc n) (ch ∷ rest) = ch ∷ content_loop n rest

abbrev pub put_first : Bytes × Bytes → Extract → Extract
put_first file (files, status) = (file ∷ files, status)

-- One round, once the name has been looked for in its buffer: `n` bytes go into the file, unless the
-- `int` that counts them overflows.
unfoldable pub extract_one : (Bytes → Bool) → ℕ → Bytes → Extract → Option Bytes → Extract
extract_one can_open n behind_size rest none = ([], unterminated)
extract_one can_open n behind_size rest (some filename) =
    if can_open filename
    then (if leb (2 ^ 31) n
        then ([], overflow)
        else put_first (filename, content_loop n behind_size) rest)
    else ([], exits 1)

-- One round, from the name's buffer and what follows it in the archive; `next` is the loop.
unfoldable pub extract_behind :
    (Bytes → Bytes → Bytes → Extract) → (Bytes → Bool) → Bytes → Bytes → Bytes → Extract
extract_behind next can_open size_buffer name_buffer behind_name =
    let size_buffer' = fread 8 size_buffer behind_name in
    let n = size_rounds (le_value size_buffer') in
    let behind_size = drop 8 behind_name in
    extract_one can_open n behind_size (next size_buffer' name_buffer (drop n behind_size))
      (string_in name_buffer)

-- The loop of wis-untar.c. `name_buffer` and `size_buffer` hold what they held before.
unfoldable pub untar_loop : ℕ → (Bytes → Bool) → Bytes → Bytes → Bytes → Extract
untar_loop zero can_open size_buffer name_buffer archive = ([], out_of_fuel)
untar_loop (suc fuel) can_open size_buffer name_buffer [] = ([], exits 0)
untar_loop (suc fuel) can_open size_buffer name_buffer (c ∷ archive) =
    extract_behind (untar_loop fuel can_open) can_open size_buffer
      (fread 100 name_buffer (c ∷ archive)) (drop 100 (c ∷ archive))

unfoldable pub untar_archive : ℕ → (Bytes → Bool) → Bytes → Bytes → Option Bytes → Extract
untar_archive fuel can_open size_buffer name_buffer none = ([], exits 1)
untar_archive fuel can_open size_buffer name_buffer (some archive) =
    untar_loop fuel can_open size_buffer name_buffer archive

-- `main` of wis-untar.c, from the arguments behind the program's name.
unfoldable pub untar :
    ℕ → (Bytes → Option Bytes) → (Bytes → Bool) → Bytes → Bytes → List Bytes → Extract
untar fuel open_file can_open size_buffer name_buffer [] = ([], exits 1)
untar fuel open_file can_open size_buffer name_buffer (tarname ∷ rest) =
    untar_archive fuel can_open size_buffer name_buffer (open_file tarname)
