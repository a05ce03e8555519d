-- ===== src/Tar/Tests.antt =====
-- Two small files, "a" and "bc".
use computer_organization_an.Common.{
  ◌≡◌, refl, Bool, true, Option, some, [], ◌∷◌, arith, ◌==◌, if◌then◌else◌, length,
}
use computer_organization_an.Tar.{
  Bytes, tar, untar, exits, entry, name_field, le_bytes, copied, untar_loop, extract_one,
  extract_behind, string_in, fread, le_value, size_rounds, content_loop,
}
use computer_organization_an.Tar.Trip.{Fits, names, untar-tar}

abbrev first : Bytes × Bytes
first = (97 ∷ [], 1 ∷ 2 ∷ 3 ∷ [])

abbrev second : Bytes × Bytes
second = (98 ∷ 99 ∷ [], [])

-- Files by the length of their names.
abbrev files_of : Bytes → Option Bytes
files_of name = if length name == 1 then some first.1 else some second.1

anything : Bytes → Bool
anything name = true

first-Fits : Fits first
first-Fits = record {
  short_name = omega arith;
  terminated = omega arith;
  no_eof = omega arith;
  small = omega arith;
}

second-Fits : Fits second
second-Fits = record {
  short_name = omega arith;
  terminated = omega arith;
  no_eof = tt;
  small = omega arith;
}

-- The archive stands in the only file that there is.
archives : Bytes → Option Bytes
archives name = (tar anything files_of (name ∷ names (first ∷ second ∷ []))).0

untar-tar_example :
    ((tar anything files_of ((116 ∷ []) ∷ names (first ∷ second ∷ []))).1 ≡ 0)
    × (untar 3 archives anything [] [] ((116 ∷ []) ∷ []) ≡ (first ∷ second ∷ [], exits 0))
unfolding anything archives
untar-tar_example =
    untar-tar 3 files_of archives anything anything [] [] (116 ∷ []) first (second ∷ [])
      (first-Fits, (second-Fits, tt)) (refl, (refl, tt)) (refl, (refl, tt)) refl (omega arith)
      (omega arith) (omega arith) refl

-- The missing bytes are read as 255 again.
eof_run :
    (untar_loop 2 anything [] [] (entry (97 ∷ []) (1 ∷ 255 ∷ 2 ∷ []))).0
    ≡ (97 ∷ [], 1 ∷ 255 ∷ 255 ∷ []) ∷ []
unfolding untar_loop entry name_field le_bytes copied extract_one extract_behind string_in fread
    le_value size_rounds content_loop anything
eof_run = refl
