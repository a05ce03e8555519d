-- ===== src/Shell/Tests.antt =====
-- Runs of the shell in which every file can be executed and every directory entered.
use computer_organization_an.Common.{◌≡◌, refl, Bool, true, inl, inr, [], ◌∷◌, ◌++◌, All, some}
use computer_organization_an.Common.Outcome.{Outcome, ok, fault}
use computer_organization_an.Shell.{
  Str, Shell, equals, push, isspace, trim_left, before_space, trim_right, trim, trim_first,
  begin_field, strsep, nonempty, checkpath, in_dir,
}
use computer_organization_an.Shell.Syntax.{
  path_word, add_word, check_path_words, on_path, check_program, check_fields, is_empty, has,
  check_redirection, check_command, check_one, check_rest, check_all, check_segment, checksyntax,
}
use computer_organization_an.Shell.Run.{
  Step, exec, next_line, run_path, run_cd, run_along, head_word, target_of, run_words, run_program,
  run_programs, run_external, run_command, after_step, run_commands, run_checked, run_line, initial,
}
use computer_organization_an.Shell.Total.{Good}
use computer_organization_an.Shell.Lines.{Fitting, ProperWords, ProperCommand, run_line-Good}

abbrev every : Str → Bool
every name = true

-- "ls"
abbrev ls_word : Str
ls_word = b'l' ∷ b's' ∷ []

-- "path add d"
abbrev path_add : Str
path_add = path_word ++ 32 ∷ add_word ++ 32 ∷ b'd' ∷ []

-- "path add d; ls > f" and a newline
abbrev two_commands : Str
two_commands = path_add ++ b';' ∷ 32 ∷ ls_word ++ 32 ∷ b'>' ∷ 32 ∷ b'f' ∷ 10 ∷ []

-- "path add d & ls" and a newline
abbrev beside : Str
beside = path_add ++ 32 ∷ b'&' ∷ 32 ∷ ls_word ++ 10 ∷ []

check : Str → Outcome Bool
unfolding equals isspace trim_left before_space trim_right trim trim_first begin_field strsep
    nonempty checkpath in_dir check_path_words on_path check_program check_fields is_empty has
    check_redirection check_command check_one check_rest check_all check_segment checksyntax initial
    push
check str = checksyntax every initial str

run : Str → Outcome Step
unfolding equals isspace trim_left before_space trim_right trim trim_first begin_field strsep
    nonempty checkpath in_dir check_path_words on_path check_program check_fields is_empty has
    check_redirection check_command check_one check_rest check_all check_segment checksyntax initial
    push run_path run_cd run_along head_word target_of run_words run_program run_programs
    run_external run_command after_step run_commands run_checked run_line
run str = run_line every every initial str

-- The new directory is searched first, and the program is run from both.
run-two_commands :
    run two_commands
    ≡ ok (record {
      shell = record { path_ptr = (b'd' ∷ []) ∷ initial.path_ptr; path_length = 2 };
      events =
          exec (b'd' ∷ b'/' ∷ ls_word) ls_word [] (some (b'f' ∷ []))
          ∷ exec (b'/' ∷ b'b' ∷ b'i' ∷ b'n' ∷ b'/' ∷ ls_word) ls_word [] (some (b'f' ∷ []))
          ∷ [];
      next = next_line;
    })
unfolding run initial push
run-two_commands = refl

-- The syntax check splits at '&', the run of "path" does not.
check-beside : check beside ≡ ok true
unfolding check
check-beside = refl

run-beside : run beside ≡ fault
unfolding run
run-beside = refl

two_commands-Proper : All ProperCommand (strsep b';' (trim_right two_commands))
unfolding equals isspace before_space trim_right begin_field strsep nonempty check_path_words
    Fitting ProperWords
two_commands-Proper = (inl (refl, refl), (inr (refl, (refl, tt)), tt))

-- The shell at its start, as a value.
abbrev bin_shell : Shell
bin_shell = record { path_ptr = (b'/' ∷ b'b' ∷ b'i' ∷ b'n' ∷ []) ∷ []; path_length = 1 }

two_commands_checked : checksyntax every bin_shell two_commands ≡ ok true
unfolding equals isspace trim_left before_space trim_right trim trim_first begin_field strsep
    nonempty checkpath in_dir check_path_words on_path check_program check_fields is_empty has
    check_redirection check_command check_one check_rest check_all check_segment checksyntax
two_commands_checked = refl

run_line-Good_example : Good (run_line every every bin_shell two_commands)
run_line-Good_example =
    run_line-Good every every bin_shell two_commands true refl two_commands_checked
      two_commands-Proper

-- A blank line is read in front of its memory.
check_blank : check (32 ∷ 10 ∷ []) ≡ fault
unfolding check
check_blank = refl
