-- ===== src/Tar/Trip.antt =====
-- Files that are archived and extracted come back.
use mathlib.Core.List.{append_assoc}
use computer_organization_an.Common.{
  ℕ, zero, suc, ◌+◌, ◌^◌, ◌≤◌, ◌<◌, ◌≡◌, ◌≢◌, refl, sym, ap, ◌∙◌, Bool, true, Option, some, List,
  [], ◌∷◌, ◌++◌, arith, false, leb, ne→==, All, length, length-append, drop,
}
use computer_organization_an.Tar.{
  Bytes, name_field, le_bytes, copied, entry, tar_loop, tar, Extract, exits, string_in, fread,
  put_first, extract_one, extract_behind, untar_loop, untar_archive, untar,
}
use computer_organization_an.Tar.Field.{
  drop-append, fread_all, length-name_field, string_in-name_field, length-le_bytes,
  le_value-le_bytes, copied_all, content_loop-append,
}

-- A file that both programs can handle: a name of less than 100 bytes, less than 2^31 bytes, and no
-- byte 255 among them.
pub record Fits (file : Bytes × Bytes) : Type 0 where
  pub short_name : length file.0 < 100
  pub terminated : All (λ c. c ≢ 0) file.0
  pub no_eof : All (λ c. c ≢ 255) file.1
  pub small : length file.1 < 2 ^ 31

abbrev pub names : List (Bytes × Bytes) → List Bytes
names [] = []
names (file ∷ files) = file.0 ∷ names files

-- The archive of the files.
abbrev archive_of : List (Bytes × Bytes) → Bytes
archive_of [] = []
archive_of (file ∷ files) = entry file.0 file.1 ++ archive_of files

tar_loop-archive_of :
    (open_file : Bytes → Option Bytes) (files : List (Bytes × Bytes))
    → All (λ file. open_file file.0 ≡ some file.1) files
    → tar_loop open_file (names files) ≡ (archive_of files, 0)
unfolding tar_loop
tar_loop-archive_of open_file [] h = refl
tar_loop-archive_of open_file (file ∷ files) h =
    rw (h.0, tar_loop-archive_of open_file files h.1) refl

drop_front : (n : ℕ) (xs ys : Bytes) → length xs ≡ n → drop n (xs ++ ys) ≡ ys
drop_front n xs ys e = ap (λ t. drop t (xs ++ ys)) (sym e) ∙ drop-append xs ys

-- A round on a whole entry.
extract_behind-entry :
    (next : Bytes → Bytes → Bytes → Extract) (can_open : Bytes → Bool)
    (size_buffer name_buffer filename content rest : Bytes)
    → length size_buffer ≤ 8
    → length content < 2 ^ 31
    → string_in name_buffer ≡ some filename
    → can_open filename ≡ true
    → extract_behind next can_open size_buffer name_buffer
        (le_bytes 8 (length content) ++ (content ++ rest))
      ≡ put_first (filename, content) (next (le_bytes 8 (length content)) name_buffer rest)
unfolding extract_behind extract_one
extract_behind-entry next can_open size_buffer name_buffer filename content rest hs small named
      opens =
    let size : Bytes = le_bytes 8 (length content) in
    let whole : length size ≡ 8 = length-le_bytes 8 (length content) in
    let read_size : fread 8 size_buffer (size ++ (content ++ rest)) ≡ size =
      fread_all 8 size_buffer size (content ++ rest) whole hs in
    let fits : leb (2 ^ 31) (length content) ≡ false = ground (arith, small) in
    let behind : drop 8 (size ++ (content ++ rest)) ≡ content ++ rest =
      drop_front 8 size (content ++ rest) whole in
    rw
      (
        named,
        opens,
        read_size,
        behind,
        le_value-le_bytes (length content) (omega (arith, small)),
        fits,
        content_loop-append content rest,
        drop-append content rest,
      )
      refl

untar_loop_front :
    (fuel : ℕ) (can_open : Bytes → Bool) (size_buffer name_buffer front tail : Bytes)
    → length front ≡ 100
    → length name_buffer ≤ 100
    → untar_loop (suc fuel) can_open size_buffer name_buffer (front ++ tail)
      ≡ extract_behind (untar_loop fuel can_open) can_open size_buffer front tail
unfolding untar_loop
untar_loop_front fuel can_open size_buffer name_buffer [] tail e h = absurd (omega (arith, e))
untar_loop_front fuel can_open size_buffer name_buffer (c ∷ front) tail e h =
    ap
      (λ t.
        extract_behind (untar_loop fuel can_open) can_open size_buffer t
          (drop 100 ((c ∷ front) ++ tail)))
      (fread_all 100 name_buffer (c ∷ front) tail e h)
    ∙ ap (extract_behind (untar_loop fuel can_open) can_open size_buffer (c ∷ front))
        (drop_front 100 (c ∷ front) tail e)

entry-append :
    (file : Bytes × Bytes) (rest : Bytes)
    → Fits file
    → entry file.0 file.1 ++ rest
      ≡ name_field file.0 ++ (le_bytes 8 (length file.1) ++ (file.1 ++ rest))
unfolding entry
entry-append file rest fits =
    let size : Bytes = le_bytes 8 (length file.1) in
    ap (λ t. (name_field file.0 ++ (size ++ t)) ++ rest) (copied_all file.1 fits.no_eof)
    ∙ append_assoc (name_field file.0) (size ++ file.1) rest
    ∙ ap (λ t. name_field file.0 ++ t) (append_assoc size file.1 rest)

untar_loop-entry :
    (fuel : ℕ) (can_open : Bytes → Bool) (size_buffer name_buffer : Bytes) (file : Bytes × Bytes)
    (rest : Bytes)
    → Fits file
    → can_open file.0 ≡ true
    → length size_buffer ≤ 8
    → length name_buffer ≤ 100
    → untar_loop (suc fuel) can_open size_buffer name_buffer (entry file.0 file.1 ++ rest)
      ≡ put_first file
          (untar_loop fuel can_open (le_bytes 8 (length file.1)) (name_field file.0) rest)
untar_loop-entry fuel can_open size_buffer name_buffer file rest fits opens hs hn =
    let size : Bytes = le_bytes 8 (length file.1) in
    ap (untar_loop (suc fuel) can_open size_buffer name_buffer) (entry-append file rest fits)
    ∙ untar_loop_front fuel can_open size_buffer name_buffer (name_field file.0)
        (size ++ (file.1 ++ rest)) (length-name_field file.0 fits.short_name) hn
    ∙ extract_behind-entry (untar_loop fuel can_open) can_open size_buffer (name_field file.0)
        file.0 file.1 rest hs fits.small
        (string_in-name_field file.0 fits.short_name fits.terminated) opens

untar_loop-archive_of :
    (fuel : ℕ) (can_open : Bytes → Bool) (size_buffer name_buffer : Bytes)
    (files : List (Bytes × Bytes))
    → All Fits files
    → All (λ file. can_open file.0 ≡ true) files
    → length size_buffer ≤ 8
    → length name_buffer ≤ 100
    → length files < fuel
    → untar_loop fuel can_open size_buffer name_buffer (archive_of files) ≡ (files, exits 0)
unfolding untar_loop
untar_loop-archive_of zero can_open size_buffer name_buffer files fits opens hs hn enough =
    absurd (omega (arith, enough))
untar_loop-archive_of (suc fuel) can_open size_buffer name_buffer [] fits opens hs hn enough = refl
untar_loop-archive_of (suc fuel) can_open size_buffer name_buffer (file ∷ files) fits opens hs hn
      enough =
    untar_loop-entry fuel can_open size_buffer name_buffer file (archive_of files) fits.0 opens.0 hs
      hn
    ∙ ap (put_first file) (
        untar_loop-archive_of fuel can_open (le_bytes 8 (length file.1)) (name_field file.0) files
          fits.1 opens.1 (omega (arith, length-le_bytes 8 (length file.1)))
          (omega (arith, length-name_field file.0 (fits.0).short_name)) (omega (arith, enough)))

-- The archive that wis-tar makes of files that it can open, with names of less than 100 bytes, less
-- than 2^31 bytes each, and no byte 255 among them, is extracted by wis-untar to the same files in the same order, if they
-- can be written, whatever its buffers held before; a round of fuel for each file and one more is
-- enough.
pub untar-tar :
    (fuel : ℕ) (open_file archives : Bytes → Option Bytes) (can_write can_open : Bytes → Bool)
    (size_buffer name_buffer tarname : Bytes) (file : Bytes × Bytes) (files : List (Bytes × Bytes))
    → All Fits (file ∷ files)
    → All (λ f. open_file f.0 ≡ some f.1) (file ∷ files)
    → All (λ f. can_open f.0 ≡ true) (file ∷ files)
    → can_write tarname ≡ true
    → length size_buffer ≤ 8
    → length name_buffer ≤ 100
    → suc (length files) < fuel
    → archives tarname ≡ (tar can_write open_file (tarname ∷ names (file ∷ files))).0
    → ((tar can_write open_file (tarname ∷ names (file ∷ files))).1 ≡ 0)
      × (untar fuel archives can_open size_buffer name_buffer (tarname ∷ [])
          ≡ (file ∷ files, exits 0))
unfolding tar untar untar_archive
untar-tar fuel open_file archives can_write can_open size_buffer name_buffer tarname file files fits
      open_all open_out writes hs hn enough stored =
    let made = tar_loop-archive_of open_file (file ∷ files) open_all in
    let kept : archives tarname ≡ some (archive_of (file ∷ files)) =
      stored ∙ rw (made, writes) refl in
    (
      rw (made, writes) refl,
      rw kept (
          untar_loop-archive_of fuel can_open size_buffer name_buffer (file ∷ files) fits open_out
            hs hn enough),
    )

copied_stops :
    (before behind : Bytes) → All (λ c. c ≢ 255) before → copied (before ++ 255 ∷ behind) ≡ before
unfolding copied
copied_stops [] behind h = refl
copied_stops (c ∷ before) behind h =
    rw (ne→== c 255 h.0) (ap (λ t. c ∷ t) (copied_stops before behind h.1))

-- Of a file with a byte 255, the archive gets the bytes before the first one only, under a size that
-- counts all of its bytes.
pub entry_eof :
    (filename before behind : Bytes)
    → All (λ c. c ≢ 255) before
    → entry filename (before ++ 255 ∷ behind)
      ≡ name_field filename ++ (le_bytes 8 (length before + suc (length behind)) ++ before)
unfolding entry
entry_eof filename before behind h =
    let size : length (before ++ 255 ∷ behind) ≡ length before + suc (length behind) =
      length-append before (255 ∷ behind) in
    rw (copied_stops before behind h, size) refl
