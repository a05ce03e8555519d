-- ===== src/File/Tests.antt =====
-- A table with one file, the writing end of the pipe at 4096, and a free one.
use computer_organization_an.Common.{zero, suc, ◌≡◌, refl, true, false, List, [], ◌∷◌, ap, sym}
use computer_organization_an.Common.Outcome.{ok}
use computer_organization_an.File.{
  fd_none, fd_pipe, File, Closed, close_pipe, at_file, filealloc, closed, close_of, fileclose,
}
use computer_organization_an.File.Refs.{Counted, Last, Alloc, fileclose-Last, filealloc-Alloc}

abbrev writer : File
writer = record {
  type = fd_pipe;
  ref = 2;
  readable = false;
  writable = true;
  pipe = 4096;
  ip = 0;
  off = 0;
}

abbrev free_file : File
free_file = record {
  type = fd_none;
  ref = 0;
  readable = false;
  writable = false;
  pipe = 0;
  ip = 0;
  off = 0;
}

abbrev table : List File
table = writer ∷ free_file ∷ []

table-Counted : Counted table (0 ∷ 0 ∷ [])
table-Counted zero f e = let same : writer ≡ f = cc e in ap (λ (x : File). x.ref) (sym same)
table-Counted (suc zero) f e =
    let same : free_file ≡ f = cc e in ap (λ (x : File). x.ref) (sym same)
table-Counted (suc (suc i)) f e = absurd (cc e)

fileclose-Last_example :
    (files' : List File) × (r : Closed) × (fileclose table 0 ≡ ok (files', r))
    × Counted files' (0 ∷ [])
    × Last table 0 writer 1 files' r
fileclose-Last_example = fileclose-Last table (0 ∷ []) 0 writer table-Counted refl

filealloc-Alloc_example : Alloc table (0 ∷ 0 ∷ []) (filealloc table)
filealloc-Alloc_example = filealloc-Alloc table (0 ∷ 0 ∷ []) table-Counted

-- The second of two calls closes the pipe's end.
closes_pipe :
    fileclose (record writer { ref = 1 } ∷ free_file ∷ []) 0
    ≡ ok (record writer { type = fd_none; ref = 0 } ∷ free_file ∷ [], close_pipe 4096 true)
unfolding fileclose at_file close_of closed
closes_pipe = refl
