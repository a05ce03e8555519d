-- ===== src/File/Refs.antt =====
-- The count of a file is the number of references to it.
use mathlib.Core.Path.{subst}
use computer_organization_an.Common.{
  ℕ, zero, suc, ◌+◌, ◌-◌, ◌<◌, ◌≡◌, ◌≢◌, refl, sym, ap, ◌∙◌, inl, inr, true, false, Bool-cases,
  Option, none, some, List, [], ◌∷◌, arith, ltb, ◌==◌, eq→==, ne→==, ==_iff, lt→ltb, le→ltb,
  if◌then◌else◌, length, length-set, get_elem?, set, get_elem?-set_self, get_elem?-set_ne,
  get_elem?_bound,
}
use computer_organization_an.Common.Outcome.{ok}
use computer_organization_an.File.{
  FdType, fd_none, fd_pipe, fd_inode, File, int_max, at_file, after_file, filealloc, dup_of,
  filedup, Closed, still_open, nothing, close_pipe, put_inode, closed, close_of, fileclose,
}

-- How many of the references are to file `i`.
abbrev pub refs_to : ℕ → List ℕ → ℕ
refs_to i [] = 0
refs_to i (h ∷ hs) = (if h == i then 1 else 0) + refs_to i hs

-- Every count in the table is the number of references.
abbrev pub Counted : List File → List ℕ → Type 0
Counted files hs = (i : ℕ) (f : File) → get_elem? files i ≡ some f → f.ref ≡ refs_to i hs

some_inj : (f g : File) → some f ≡ some g → f ≡ g
some_inj f g e = cc e

-- A store that changes the count of one file.
Counted-set :
    (files : List File) (hs hs' : List ℕ) (i : ℕ) (f' : File)
    → i < length files
    → f'.ref ≡ refs_to i hs'
    → ((j : ℕ) → i ≢ j → refs_to j hs' ≡ refs_to j hs)
    → Counted files hs
    → Counted (set files i f') hs'
Counted-set files hs hs' i f' l here others counted j f e = elim (Bool-cases (i == j)) [
  | inl s ↦
      let i_j : i ≡ j = (==_iff i j).0 s in
      let at_i : get_elem? (set files i f') i ≡ some f =
        subst (λ k. get_elem? (set files i f') k ≡ some f) (sym i_j) e in
      let same : f' ≡ f = some_inj f' f (sym (get_elem?-set_self files i f' l) ∙ at_i) in
      ap (λ (x : File). x.ref) (sym same) ∙ here ∙ ap (λ k. refs_to k hs') i_j
  | inr s ↦
      let ne : i ≢ j = λ i_j. absurd (cc (eq→== i j i_j, s)) in
      counted j f (sym (get_elem?-set_ne files f' ne) ∙ e) ∙ sym (others j ne)
]

refs_to_self : (i : ℕ) (hs : List ℕ) → refs_to i (i ∷ hs) ≡ suc (refs_to i hs)
refs_to_self i hs = rw (eq→== i i refl) (omega arith)

refs_to-ne : (i j : ℕ) (hs : List ℕ) → i ≢ j → refs_to j (i ∷ hs) ≡ refs_to j hs
refs_to-ne i j hs n = rw (ne→== i j n) (omega arith)

-- `filedup` of a file that is referred to adds a reference.
filedup-Counted :
    (files : List File) (hs : List ℕ) (i : ℕ) (f : File)
    → Counted files hs
    → get_elem? files i ≡ some f
    → 0 < refs_to i hs
    → refs_to i hs < int_max
    → (files' : List File) × (filedup files i ≡ ok files')
      × Counted files' (i ∷ hs)
      × (length files' ≡ length files)
unfolding filedup at_file dup_of
filedup-Counted files hs i f counted e p l =
    let r : f.ref ≡ refs_to i hs = counted i f e in
    let some_ref : ltb f.ref 1 ≡ false = le→ltb f.ref 1 (omega (arith, r, p)) in
    let no_max : (f.ref == int_max) ≡ false =
      ne→== f.ref int_max (λ m. absurd (omega (arith, m, r, l))) in
    (
      set files i (record f { ref = suc f.ref }),
      ap (λ o. at_file o (dup_of files i)) e ∙ rw (some_ref, no_max) refl,
      Counted-set files hs (i ∷ hs) i (record f { ref = suc f.ref }) (get_elem?_bound files i f e)
          (ap suc r ∙ sym (refs_to_self i hs)) (λ j n. refs_to-ne i j hs n) counted,
      length-set files i (record f { ref = suc f.ref }),
    )

-- What a file of a type stands for: an end of a pipe, an inode, or nothing.
abbrev pub GivesBack : FdType → File → Closed → Type 0
GivesBack fd_none f r = r ≡ nothing
GivesBack fd_pipe f r = r ≡ close_pipe f.pipe f.writable
GivesBack fd_inode f r = r ≡ put_inode f.ip

GivesBack-closed : (t : FdType) (f : File) → f.type ≡ t → GivesBack t f (closed f)
unfolding closed
GivesBack-closed fd_none f e = rw e refl
GivesBack-closed fd_pipe f e = rw e refl
GivesBack-closed fd_inode f e = rw e refl

-- The table and the result of a `fileclose` with `n` references left.
abbrev pub Last : List File → ℕ → File → ℕ → List File → Closed → Type 0
Last files i f zero files' r =
    (files' ≡ set files i (record f { ref = 0; type = fd_none })) × GivesBack f.type f r
Last files i f (suc n) files' r =
    (files' ≡ set files i (record f { ref = suc n })) × (r ≡ still_open)

-- Where every count is the number of references, `fileclose` of a file that is referred to takes one
-- reference off and keeps the counts right: with other references left it gives back nothing, and
-- with none it gives back what the file stood for, the pipe's end or the inode, and makes the file free.
-- The other files stay as they are.
pub fileclose-Last :
    (files : List File) (hs : List ℕ) (i : ℕ) (f : File)
    → Counted files (i ∷ hs)
    → get_elem? files i ≡ some f
    → (files' : List File) × (r : Closed) × (fileclose files i ≡ ok (files', r))
      × Counted files' hs
      × Last files i f (refs_to i hs) files' r
unfolding fileclose at_file close_of
fileclose-Last files hs i f counted e = go (refs_to i hs) refl
  where
    r : f.ref ≡ suc (refs_to i hs)
    r = counted i f e ∙ refs_to_self i hs

    go :
        (n : ℕ)
        → n ≡ refs_to i hs
        → (files' : List File) × (r : Closed) × (fileclose files i ≡ ok (files', r))
          × Counted files' hs
          × Last files i f n files' r
    go zero z =
        let held : ltb f.ref 1 ≡ false = le→ltb f.ref 1 (omega (arith, r)) in
        let last : ltb 0 (f.ref - 1) ≡ false = le→ltb 0 (f.ref - 1) (omega (arith, r, z)) in
        (
          set files i (record f { ref = 0; type = fd_none }),
          closed f,
          ap (λ o. at_file o (close_of files i)) e ∙ rw (held, last) refl,
          Counted-set files (i ∷ hs) hs i (record f { ref = 0; type = fd_none })
              (get_elem?_bound files i f e) z (λ j n. sym (refs_to-ne i j hs n)) counted,
          (refl, GivesBack-closed f.type f refl),
        )
    go (suc n) s =
        let held : ltb f.ref 1 ≡ false = le→ltb f.ref 1 (omega (arith, r)) in
        let more : ltb 0 (f.ref - 1) ≡ true = lt→ltb 0 (f.ref - 1) (omega (arith, r, s)) in
        (
          set files i (record f { ref = f.ref - 1 }),
          still_open,
          ap (λ o. at_file o (close_of files i)) e ∙ rw (held, more) refl,
          Counted-set files (i ∷ hs) hs i (record f { ref = f.ref - 1 })
              (get_elem?_bound files i f e) (omega (arith, r)) (λ j n. sym (refs_to-ne i j hs n))
              counted,
          (ap (λ t. set files i (record f { ref = t })) (omega (arith, r, s)), refl),
        )

-- What `filealloc` does.
abbrev pub Alloc : List File → List ℕ → Option (ℕ × List File) → Type 0
Alloc files hs none = (i : ℕ) (f : File) → get_elem? files i ≡ some f → 0 < refs_to i hs
Alloc files hs (some (i, files')) =
    (i < length files)
    × (refs_to i hs ≡ 0)
    × Counted files' (i ∷ hs)
    × (length files' ≡ length files)

-- `filealloc` stores to the first file with the count 0.
abbrev Taken : List File → Option (ℕ × List File) → Type 0
Taken files none = (i : ℕ) (f : File) → get_elem? files i ≡ some f → f.ref ≢ 0
Taken files (some (i, files')) =
    (f : File) × (get_elem? files i ≡ some f)
    × (f.ref ≡ 0)
    × (files' ≡ set files i (record f { ref = 1 }))

Taken-after_file :
    (f : File) (files : List File) (o : Option (ℕ × List File))
    → f.ref ≢ 0
    → Taken files o
    → Taken (f ∷ files) (after_file f o)
unfolding after_file
Taken-after_file f files none n all = go
  where
    go : (i : ℕ) (g : File) → get_elem? (f ∷ files) i ≡ some g → g.ref ≢ 0
    go zero g e z = n (ap (λ (x : File). x.ref) (some_inj f g e) ∙ z)
    go (suc i) g e z = all i g e z
Taken-after_file f files (some (i, files')) n (g, e, z, s) = (g, e, z, ap (λ l. f ∷ l) s)

filealloc-Taken : (files : List File) → Taken files (filealloc files)
unfolding filealloc
filealloc-Taken [] = λ i f e. absurd (cc e)
filealloc-Taken (f ∷ files) = elim (Bool-cases (f.ref == 0)) [
  | inl z ↦ rw z (f, refl, (==_iff f.ref 0).0 z, refl)
  | inr n ↦ rw n (
      Taken-after_file f files (filealloc files) (λ z. absurd (cc (eq→== f.ref 0 z, n)))
        (filealloc-Taken files))
]

-- Where every count is the number of references, `filealloc` returns a file that nothing refers to and
-- keeps the counts right with the new reference; it returns the null pointer only if every file of the
-- table is referred to.
pub filealloc-Alloc :
    (files : List File) (hs : List ℕ) → Counted files hs → Alloc files hs (filealloc files)
filealloc-Alloc files hs counted = go (filealloc files) (filealloc-Taken files)
  where
    go : (o : Option (ℕ × List File)) → Taken files o → Alloc files hs o
    go none taken = λ i f e. let n = taken i f e in let r = counted i f e in ground (arith, n, r)
    go (some (i, files')) (f, e, z, s) =
        let unreferred : refs_to i hs ≡ 0 = sym (counted i f e) ∙ z in
        rw s (
          get_elem?_bound files i f e,
          unreferred,
          Counted-set files hs (i ∷ hs) i (record f { ref = 1 }) (get_elem?_bound files i f e)
              (sym (refs_to_self i hs ∙ ap suc unreferred)) (λ j n. refs_to-ne i j hs n) counted,
          length-set files i (record f { ref = 1 }),
        )
