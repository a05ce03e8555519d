-- ===== src/Shell/Run.antt =====
-- The main loop of Unix shell/smash.c. What the shell does to its surroundings comes as a list of
-- events; whether a directory can be entered or a file executed is their answer, the same all
-- through a line. A forked child always starts, and runs its program; waiting for it is left out.
use computer_organization_an.Common.{
  ℕ, zero, suc, ◌-◌, Bool, true, false, ◌&&◌, ◌||◌, Option, none, some, List, [], ◌∷◌, ◌++◌, leb,
  if◌then◌else◌, length,
}
use computer_organization_an.Common.Outcome.{Outcome, ok, fault, ◌>>=◌}
use computer_organization_an.Shell.{
  Str, Shell, equals, push, delete_node, strsep, nonempty, in_dir, trim_right,
}
use computer_organization_an.Shell.Syntax.{
  exit_word, cd_word, path_word, add_word, remove_word, clear_word, first_field, other_fields,
  is_empty, checksyntax,
}

pub data Event : Type 0 where
  -- The message "An error has occurred".
  report : Event
  -- chdir of a directory.
  enter : Str → Event
  -- A program's path, its name, its arguments, and the file that its output goes to.
  exec : Str → Str → List Str → Option Str → Event

-- What follows a command: the next one, the next line, or the end of the shell.
pub data Next : Type 0 where
  next_command next_line leave : Next

pub record Step : Type 0 where
  pub shell : Shell
  pub events : List Event
  pub next : Next

-- "cd", by its nonempty words. A third word costs two messages.
unfoldable pub run_cd : (Str → Bool) → Shell → List Str → Step
run_cd chdir sh (cd ∷ dir ∷ []) =
    if chdir dir
    then record { shell = sh; events = enter dir ∷ []; next = next_command }
    else record { shell = sh; events = report ∷ []; next = next_line }
run_cd chdir sh (cd ∷ dir ∷ _ ∷ _) = record {
  shell = sh;
  events = report ∷ report ∷ [];
  next = next_line;
}
run_cd chdir sh (cd ∷ []) = record { shell = sh; events = report ∷ []; next = next_line }
run_cd chdir sh [] = record { shell = sh; events = report ∷ []; next = next_line }

unfoldable pub removed : Shell → List Str × Bool → Step
removed sh (nodes, true) = record {
  shell = record { path_ptr = nodes; path_length = sh.path_length - 1 };
  events = [];
  next = next_command;
}
removed sh (nodes, false) = record {
  shell = record sh { path_ptr = nodes };
  events = report ∷ [];
  next = next_command;
}

unfoldable pub path_cleared : Step
path_cleared = record {
  shell = record { path_ptr = []; path_length = 0 };
  events = [];
  next = next_command;
}

unfoldable pub path_unknown : Shell → Step
path_unknown sh = record { shell = sh; events = report ∷ []; next = next_command }

-- "path", by its nonempty words, which go into an array of three. A fourth word is written behind
-- its end, and a missing one is read from it all the same.
unfoldable pub run_path : Shell → List Str → Outcome Step
run_path sh (path ∷ action ∷ dir ∷ []) =
    if equals action add_word
    then ok (record {
      shell = record { path_ptr = push sh.path_ptr dir; path_length = suc sh.path_length };
      events = [];
      next = next_command;
    })
    else (if equals action remove_word
        then ok (removed sh (delete_node sh.path_ptr dir))
        else (if equals action clear_word then ok path_cleared else ok (path_unknown sh)))
run_path sh (path ∷ action ∷ []) =
    if equals action add_word || equals action remove_word
    then fault
    else (if equals action clear_word then ok path_cleared else ok (path_unknown sh))
run_path sh (path ∷ action ∷ dir ∷ _ ∷ _) = fault
run_path sh (path ∷ []) = fault
run_path sh [] = fault

-- The search along the path, over `n` nodes: the program is run from every directory that has it.
unfoldable pub run_along :
    (Str → Bool) → ℕ → List Str → Str → List Str → Option Str → Bool → Outcome (List Event × Bool)
run_along access zero nodes cmd args target success = ok ([], success)
run_along access (suc n) [] cmd args target success = fault
run_along access (suc n) (dir ∷ nodes) cmd args target success =
    let found = access (in_dir dir cmd) in
    run_along access n nodes cmd args target (found || success) >>= λ r.
    ok ((if found then exec (in_dir dir cmd) cmd args target ∷ r.0 else r.0), r.1)

-- The first of the words.
unfoldable pub head_word : List Str → Option Str
head_word [] = none
head_word (word ∷ words) = some word

-- The file behind the first '>'.
unfoldable pub target_of : List Str → Option Str
target_of [] = none
target_of (part ∷ parts) = head_word (nonempty (strsep 32 part))

-- A program with its arguments; `success` is shared by the programs of a command. The name is copied
-- into as many bytes as a pointer has, 8, and the arguments go into an array of 1,024.
unfoldable pub run_words :
    (Str → Bool) → Shell → List Str → Option Str → Bool → Outcome (List Event × Bool)
run_words access sh [] target success = ok ([], success)
run_words access sh (cmd ∷ args) target success =
    if leb (length cmd) 7 && leb (length args) 1024
    then (run_along access sh.path_length sh.path_ptr cmd args target success >>= λ r.
        ok ((if r.1 then r.0 else r.0 ++ report ∷ []), r.1))
    else fault

-- One program, by its parts between '>'.
unfoldable pub run_program : (Str → Bool) → Shell → List Str → Bool → Outcome (List Event × Bool)
run_program access sh parts success =
    run_words access sh (nonempty (strsep 32 (first_field parts))) (target_of (other_fields parts))
      success

-- The programs between '&'.
unfoldable pub run_programs : (Str → Bool) → Shell → List Str → Bool → Outcome (List Event)
run_programs access sh [] success = ok []
run_programs access sh (cmd ∷ cmds) success =
    (if is_empty cmd then ok ([], success) else run_program access sh (strsep b'>' cmd) success)
    >>= λ r. run_programs access sh cmds r.1 >>= λ events. ok (r.0 ++ events)

unfoldable pub run_external : (Str → Bool) → Shell → Str → Outcome Step
run_external access sh cur_cmds = run_programs access sh (strsep b'&' cur_cmds) false >>= λ events.
    ok (record { shell = sh; events = events; next = next_command })

-- A command, by its nonempty words.
unfoldable pub run_command : (Str → Bool) → (Str → Bool) → Shell → Str → List Str → Outcome Step
run_command access chdir sh cur_cmds [] =
    ok (record { shell = sh; events = []; next = next_command })
run_command access chdir sh cur_cmds (word ∷ words) =
    if equals word exit_word
    then ok (record { shell = sh; events = []; next = leave })
    else (if equals word cd_word
        then ok (run_cd chdir sh (word ∷ words))
        else (if equals word path_word
            then run_path sh (word ∷ words)
            else run_external access sh cur_cmds))

-- What the rest of a line adds to a step.
unfoldable pub after_step : Step → (Shell → Outcome Step) → Outcome Step
after_step s rest = elim s.next [
  | next_command ↦ rest s.shell >>= λ t. ok (record t { events = s.events ++ t.events })
  | next_line ↦ ok s
  | leave ↦ ok s
]

-- The commands between ';'.
unfoldable pub run_commands : (Str → Bool) → (Str → Bool) → List Str → Shell → Outcome Step
run_commands access chdir [] sh = ok (record { shell = sh; events = []; next = next_line })
run_commands access chdir (cmd ∷ cmds) sh =
    run_command access chdir sh cmd (nonempty (strsep 32 cmd)) >>= λ s.
    after_step s (run_commands access chdir cmds)

-- The syntax check has trimmed the end of the line in place, a newline with it.
unfoldable pub run_checked : (Str → Bool) → (Str → Bool) → Shell → Str → Bool → Outcome Step
run_checked access chdir sh line false =
    ok (record { shell = sh; events = report ∷ []; next = next_line })
run_checked access chdir sh line true = run_commands access chdir (strsep b';' (trim_right line)) sh

-- One line: its syntax, then its commands.
unfoldable pub run_line : (Str → Bool) → (Str → Bool) → Shell → Str → Outcome Step
run_line access chdir sh line = checksyntax access sh line >>= run_checked access chdir sh line

-- `main`, before the first line.
unfoldable pub initial : Shell
initial = record { path_ptr = push [] (b'/' ∷ b'b' ∷ b'i' ∷ b'n' ∷ []); path_length = 1 }
