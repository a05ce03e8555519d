-- ===== src/Shell/Total.antt =====
-- A line whose "path" commands have the right words runs to its end.
use computer_organization_an.Common.{
  ℕ, zero, suc, ◌+◌, ◌≡◌, refl, ap, inl, inr, Bool, true, false, ◌||◌, Bool-cases, Option, List, [],
  ◌∷◌, arith, ◌==◌, if◌then◌else◌, length,
}
use computer_organization_an.Common.Outcome.{Outcome, ok}
use computer_organization_an.Shell.{Str, Shell, equals, in_dir, push, delete_node}
use computer_organization_an.Shell.Syntax.{add_word, remove_word, clear_word, check_path_words}
use computer_organization_an.Shell.Run.{
  exec, Step, next_command, removed, path_cleared, run_path, run_along,
}
use computer_organization_an.Shell.Path.{length-delete_node}
use computer_organization_an.Shell.Safe.{WellFormed, Ends}

-- The run ends, and the path's length is right.
abbrev pub Good : Outcome Step → Type 0
Good r = (s : Step) × (r ≡ ok s) × WellFormed s.shell

removed-WellFormed :
    (sh : Shell) (dir : Str)
    → WellFormed sh
    → WellFormed (removed sh (delete_node sh.path_ptr dir)).shell
unfolding removed
removed-WellFormed sh dir w = go (delete_node sh.path_ptr dir) (length-delete_node sh.path_ptr dir)
  where
    go :
        (r : List Str × Bool)
        → length sh.path_ptr ≡ length r.0 + (if r.1 then 1 else 0)
        → WellFormed (removed sh r).shell
    go (nodes, true) e = omega (arith, w, e)
    go (nodes, false) e = omega (arith, w, e)

-- The words behind "path" that the syntax check accepts fill the array's slots that are read, and no
-- other.
pub run_path-Good :
    (sh : Shell) (path : Str) (words : List Str)
    → WellFormed sh
    → check_path_words words ≡ true
    → Good (run_path sh (path ∷ words))
unfolding run_path check_path_words push path_cleared
run_path-Good sh path [] w h = absurd (cc h)
run_path-Good sh path (action ∷ []) w h = elim (Bool-cases (equals action add_word)) [
  | inl a ↦ let none : false ≡ true = rw a at h in absurd (cc none)
  | inr a ↦ elim (Bool-cases (equals action remove_word)) [
    | inl r ↦ let none : false ≡ true = rw (a, r) at h in absurd (cc none)
    | inr r ↦ elim (Bool-cases (equals action clear_word)) [
      | inl c ↦ (path_cleared, rw (a, r, c) refl, refl)
      | inr c ↦ let none : false ≡ true = rw (a, r, c) at h in absurd (cc none)
    ]
  ]
]
run_path-Good sh path (action ∷ dir ∷ []) w h = elim (Bool-cases (equals action add_word)) [
  | inl a ↦ (
    record {
      shell = record { path_ptr = dir ∷ sh.path_ptr; path_length = suc sh.path_length };
      events = [];
      next = next_command;
    },
    rw a refl,
    ap suc w,
  )
  | inr a ↦ elim (Bool-cases (equals action remove_word)) [
    | inl r ↦
        (removed sh (delete_node sh.path_ptr dir), rw (a, r) refl, removed-WellFormed sh dir w)
    | inr r ↦ elim (Bool-cases (equals action clear_word)) [
      | inl c ↦ let none : false ≡ true = rw (a, r, c) at h in absurd (cc none)
      | inr c ↦ let none : false ≡ true = rw (a, r, c) at h in absurd (cc none)
    ]
  ]
]
run_path-Good sh path (action ∷ dir ∷ more ∷ words) w h =
    elim (Bool-cases (equals action add_word)) [
      | inl a ↦
          let two : (length (dir ∷ more ∷ words) == 1) ≡ true = rw a at h in absurd (two_words two)
      | inr a ↦ elim (Bool-cases (equals action remove_word)) [
        | inl r ↦
            let two : (length (dir ∷ more ∷ words) == 1) ≡ true = rw (a, r) at h in
            absurd (two_words two)
        | inr r ↦ elim (Bool-cases (equals action clear_word)) [
          | inl c ↦
              let none : (length (dir ∷ more ∷ words) == 0) ≡ true = rw (a, r, c) at h in
              absurd (no_words none)
          | inr c ↦ let none : false ≡ true = rw (a, r, c) at h in absurd (cc none)
        ]
      ]
    ]
  where
    two_words : (length (dir ∷ more ∷ words) == 1) ≡ true → ⊥
    two_words two = ground (arith, two)

    no_words : (length (dir ∷ more ∷ words) == 0) ≡ true → ⊥
    no_words zero_words = ground (arith, zero_words)

pub run_along-Ends :
    (access : Str → Bool) (n : ℕ) (nodes : List Str) (cmd : Str) (args : List Str)
    (target : Option Str) (success : Bool)
    → n ≡ length nodes
    → Ends (run_along access n nodes cmd args target success)
unfolding run_along
run_along-Ends access zero nodes cmd args target success e = (([], success), refl)
run_along-Ends access (suc n) [] cmd args target success e = absurd (omega (arith, e))
run_along-Ends access (suc n) (dir ∷ nodes) cmd args target success e =
    let found : Bool = access (in_dir dir cmd) in
    let (r, h) =
      run_along-Ends access n nodes cmd args target (found || success) (omega (arith, e)) in
    (((if found then exec (in_dir dir cmd) cmd args target ∷ r.0 else r.0), r.1), rw h refl)
