-- ===== src/Shell/Lines.antt =====
-- A line whose "path" commands have the right words, and whose programs short names, runs to its end.
use computer_organization_an.Common.{
  ◌≡◌, ◌⊎◌, refl, inl, inr, Bool, true, false, ◌&&◌, Bool-cases, Option, List, [], ◌∷◌, ◌++◌, leb,
  if◌then◌else◌, All, length,
}
use computer_organization_an.Common.Outcome.{Outcome, ok}
use computer_organization_an.Shell.{Str, Shell, equals, strsep, nonempty, trim_right}
use computer_organization_an.Shell.Syntax.{
  exit_word, cd_word, path_word, check_path_words, first_field, other_fields, is_empty, checksyntax,
}
use computer_organization_an.Shell.Run.{
  Event, report, Step, next_command, next_line, leave, run_cd, run_words, target_of, run_program,
  run_programs, run_external, run_command, Next, after_step, run_commands, run_checked, run_line,
}
use computer_organization_an.Shell.Safe.{WellFormed, Ends}
use computer_organization_an.Shell.Total.{Good, run_path-Good, run_along-Ends}

-- A program's words: its name fits into 8 bytes with its zero byte, and its arguments into the array.
unfoldable pub Fitting : List Str → Type 0
Fitting [] = Unit
Fitting (cmd ∷ args) = (leb (length cmd) 7 && leb (length args) 1024) ≡ true

abbrev pub FittingProgram : Str → Type 0
FittingProgram cmd = Fitting (nonempty (strsep 32 (first_field (strsep b'>' cmd))))

-- A command's words: behind "path" stand those that the syntax check accepts; the programs of a
-- command that is not built in have short names and few enough arguments.
unfoldable pub ProperWords : Str → List Str → Type 0
ProperWords cmd [] = Unit
ProperWords cmd (word ∷ words) =
    ((equals word path_word ≡ true) × (check_path_words words ≡ true))
    ⊎ ((equals word path_word ≡ false) × All FittingProgram (strsep b'&' cmd))

abbrev pub ProperCommand : Str → Type 0
ProperCommand cmd = ProperWords cmd (nonempty (strsep 32 cmd))

run_cd-Good :
    (chdir : Str → Bool) (sh : Shell) (words : List Str)
    → WellFormed sh
    → WellFormed (run_cd chdir sh words).shell
unfolding run_cd
run_cd-Good chdir sh [] w = w
run_cd-Good chdir sh (cd ∷ []) w = w
run_cd-Good chdir sh (cd ∷ dir ∷ []) w = elim (Bool-cases (chdir dir)) [
  | inl e ↦ rw e w
  | inr e ↦ rw e w
]
run_cd-Good chdir sh (cd ∷ dir ∷ _ ∷ _) w = w

module _ (access : Str → Bool) (sh : Shell) (w : WellFormed sh) where
  run_words-Ends :
      (words : List Str) (target : Option Str) (success : Bool)
      → Fitting words
      → Ends (run_words access sh words target success)
  unfolding run_words Fitting
  run_words-Ends [] target success short = (([], success), refl)
  run_words-Ends (cmd ∷ args) target success short =
      let (r, h) = run_along-Ends access sh.path_length sh.path_ptr cmd args target success w in
      (((if r.1 then r.0 else r.0 ++ report ∷ []), r.1), rw (short, h) refl)

  run_programs-Ends :
      (cmds : List Str) (success : Bool)
      → All FittingProgram cmds
      → Ends (run_programs access sh cmds success)
  unfolding run_programs run_program
  run_programs-Ends [] success short = ([], refl)
  run_programs-Ends (cmd ∷ cmds) success (short, more) = elim (Bool-cases (is_empty cmd)) [
    | inl empty ↦
        let (events, h) = run_programs-Ends cmds success more in ([] ++ events, rw (empty, h) refl)
    | inr filled ↦
        let parts : List Str = strsep b'>' cmd in
        let (r, h) =
          run_words-Ends (nonempty (strsep 32 (first_field parts))) (target_of (other_fields parts))
            success short in
        let (events, h') = run_programs-Ends cmds r.1 more in
        (r.0 ++ events, rw (filled, h, h') refl)
  ]

  run_external-Good :
      (cmd : Str) → All FittingProgram (strsep b'&' cmd) → Good (run_external access sh cmd)
  unfolding run_external
  run_external-Good cmd short =
      let (events, h) = run_programs-Ends (strsep b'&' cmd) false short in
      (record { shell = sh; events = events; next = next_command }, rw h refl, w)

  run_command-Good :
      (chdir : Str → Bool) (cmd : Str) (words : List Str)
      → ProperWords cmd words
      → Good (run_command access chdir sh cmd words)
  unfolding run_command ProperWords
  run_command-Good chdir cmd [] proper =
      (record { shell = sh; events = []; next = next_command }, refl, w)
  run_command-Good chdir cmd (word ∷ words) proper = elim (Bool-cases (equals word exit_word)) [
    | inl e ↦ (record { shell = sh; events = []; next = leave }, rw e refl, w)
    | inr e ↦ elim (Bool-cases (equals word cd_word)) [
      | inl c ↦
          (run_cd chdir sh (word ∷ words), rw (e, c) refl, run_cd-Good chdir sh (word ∷ words) w)
      | inr c ↦ elim proper [
        | inl (p, h) ↦ rw (e, c, p) (run_path-Good sh word words w h)
        | inr (p, short) ↦ rw (e, c, p) (run_external-Good cmd short)
      ]
    ]
  ]

module _ (access chdir : Str → Bool) where
  after_step-Good :
      (sh : Shell) (events : List Event) (next : Next) (rest : Shell → Outcome Step)
      → WellFormed sh
      → ((sh' : Shell) → WellFormed sh' → Good (rest sh'))
      → Good (after_step (record { shell = sh; events = events; next = next }) rest)
  unfolding after_step
  after_step-Good sh events next_command rest w good =
      let (t, e, w') = good sh w in (record t { events = events ++ t.events }, rw e refl, w')
  after_step-Good sh events next_line rest w good =
      (record { shell = sh; events = events; next = next_line }, refl, w)
  after_step-Good sh events leave rest w good =
      (record { shell = sh; events = events; next = leave }, refl, w)

  run_commands-Good :
      (cmds : List Str) (sh : Shell)
      → WellFormed sh
      → All ProperCommand cmds
      → Good (run_commands access chdir cmds sh)
  unfolding run_commands
  run_commands-Good [] sh w proper = (record { shell = sh; events = []; next = next_line }, refl, w)
  run_commands-Good (cmd ∷ cmds) sh w (proper, more) =
      let (s, e, w') = run_command-Good access sh w chdir cmd (nonempty (strsep 32 cmd)) proper in
      rw e (
        after_step-Good s.shell s.events s.next (run_commands access chdir cmds) w'
          (λ sh' v. run_commands-Good cmds sh' v more))

  -- In a shell whose `path_length` is right, a line on which the syntax check ends, whose "path"
  -- commands have one action with the words it takes, and whose other programs have names of at most
  -- 7 bytes and at most 1,024 arguments, is run without a touch of memory outside the shell's arrays
  -- or its list: whether the check passes or not, the run ends, and `path_length` is right again.
  pub run_line-Good :
      (sh : Shell) (line : Str) (passed : Bool)
      → WellFormed sh
      → checksyntax access sh line ≡ ok passed
      → All ProperCommand (strsep b';' (trim_right line))
      → Good (run_line access chdir sh line)
  unfolding run_line run_checked
  run_line-Good sh line passed w e proper = rw e (go passed)
    where
      go : (passed : Bool) → Good (run_checked access chdir sh line passed)
      go true = run_commands-Good (strsep b';' (trim_right line)) sh w proper
      go false = (record { shell = sh; events = report ∷ []; next = next_line }, refl, w)
