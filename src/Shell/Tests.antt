-- ===== src/Shell/Tests.antt =====
-- The theorems on the shell at concrete inputs, and runs of its parts.
use netprog_assignments.Base.{
  ℕ, ◌≡◌, refl, true, false, none, some, List, [], ◌∷◌, ◌++◌, ℤ, pos, negsuc, CString, codes,
  str_eq, arith, lookup, erase, text_key, int_key,
}
use netprog_assignments.Shell.{done, exits, faults, ◌>>=◌, Ends}
use netprog_assignments.Shell.HashMap.{init_map, insert_into_map, delete_from_map, delete_map}
use netprog_assignments.Shell.HashMap.Histories.{
  Call, find, insert, delete, answers, promised, init_map-refines,
}
use netprog_assignments.Shell.Command.{
  Command, PipeCount, single_pipe, double_pipe, init_cmd, parse_cmd,
}
use netprog_assignments.Shell.Command.Words.{
  words, take_words, begun, counted, positioned, parse_cmd-words,
}
use netprog_assignments.Shell.Command.Spelling.{Item, argument, into, text, spelled, with_items}
use netprog_assignments.Shell.Command.Items.{parse_cmd-text}
use netprog_assignments.Shell.Pipe.{CommandPipe, init_cmd_pipe, create_plain, background}
use netprog_assignments.Shell.Pipe.Shape.{
  Stage, single, double, staged, IsStaged, create_plain-IsStaged,
}
use netprog_assignments.Shell.Session.{Session, is_shortcut, create_cmd_pipe, main_turn}
use netprog_assignments.Shell.Session.Shortcuts.{Returns, create_cmd_pipe-Returns}
use netprog_assignments.Shell.Session.Recall.{store_line, stored-recalled}
use netprog_assignments.Shell.HashMap.Refinement.{IsTable}
use netprog_assignments.Shell.HashMap.Histories.{init_map-IsTable}
use netprog_assignments.Shell.Descriptors.{read_pipe, child_ends, parent_at}
use netprog_assignments.Shell.Execute.{World, execute_cmd_pipe, hands_on, write_fd}

abbrev calls : List (Call CString)
calls =
    insert (pos 3) (codes "ls")
    ∷ find (pos 22)
    ∷ insert (pos 22) (codes "wc")
    ∷ delete (pos 3)
    ∷ insert (negsuc 18) (codes "ps")
    ∷ find (negsuc 18)
    ∷ find (pos 22)
    ∷ []

init_map-refines_example : answers calls (init_map 19) ≡ promised 19 calls (λ _. none)
init_map-refines_example = init_map-refines 19 calls (omega arith)

parse_cmd-words_example : parse_cmd init_cmd (codes " ls  -l > out\n") (pos 0) single_pipe ≡ (
    take_words (begun (positioned init_cmd (pos 0) single_pipe)) (words (codes " ls  -l > out\n"))
    >>= (λ p. done (counted p.cmd, p.overrun)))
parse_cmd-words_example = parse_cmd-words init_cmd (codes " ls  -l > out\n") (pos 0) single_pipe

abbrev items : List Item
items = argument (codes "ls") ∷ into (codes "out") ∷ argument (codes "-l") ∷ []

parse_cmd-text_example :
    parse_cmd init_cmd (text (spelled items)) (negsuc 0) double_pipe
    ≡ done (counted (with_items (positioned init_cmd (negsuc 0) double_pipe) items), 4)
unfolding str_eq
parse_cmd-text_example =
    parse_cmd-text items (negsuc 0) double_pipe (refl, (refl, (refl, tt))) (omega arith)

create_plain-IsStaged_example :
    Ends IsStaged (create_plain (codes "ls || wc , sort\n") init_cmd_pipe)
create_plain-IsStaged_example = create_plain-IsStaged (codes "ls || wc , sort\n")

abbrev program : List CString → CString → CString
program [] s = []
program (name ∷ args) s = name ++ s

abbrev command : CString → ℤ → PipeCount → Command
command name o n = record (positioned init_cmd o n) { argv = name ∷ [] }

abbrev first_one : Command
first_one = command (codes "a") (pos 0) single_pipe

abbrev group : List Stage
group =
    double (command (codes "b") (negsuc 0) double_pipe) (command (codes "c") (negsuc 1) double_pipe)
    ∷ []

abbrev in_group : Command
in_group = command (codes "b") (negsuc 0) double_pipe

-- The first command after `||` hands its input on and writes to the pipe after the next.
group_run :
    (read_pipe 4 1 in_group ≡ none)
    × ((child_ends 4 1 in_group (parent_at 4 1)).writes ≡ false ∷ false ∷ true ∷ [])
unfolding read_pipe child_ends parent_at write_fd hands_on
group_run = (refl, refl)

abbrev pipe_abc : CommandPipe
pipe_abc = record { commands = staged (single first_one ∷ group); count = 3; is_background = false }

abbrev world : World
world = record { pipes = λ _. []; terminal = []; files = [] }

abbrev answer : ℕ → CString
answer n = codes "yes"

abbrev session : Session
session = record { sc_map = init_map 19; launched = []; asked = 0; overrun = 0 }

-- A shortcut in a shortcut.
create_cmd_pipe-Returns_example :
    Returns (create_cmd_pipe answer 20 (codes "sc -i 1 sc -i 2 ls\n") init_cmd_pipe session)
create_cmd_pipe-Returns_example =
    create_cmd_pipe-Returns answer 20 (codes "sc -i 1 sc -i 2 ls\n") init_cmd_pipe session
      (omega arith)

abbrev ls_pipe : CommandPipe
ls_pipe = record {
  commands =
      record (positioned init_cmd (pos 0) single_pipe) { argc = 1; argv = codes "ls" ∷ [] } ∷ [];
  count = 1;
  is_background = false;
}

ls_line : create_plain (codes "ls\n") init_cmd_pipe ≡ done (ls_pipe, 2)
unfolding create_plain init_cmd_pipe str_eq parse_cmd init_cmd
ls_line = refl

stored-recalled_example :
    (w : Session) × (main_turn answer false (store_line (codes "12") (codes "ls\n")) session
      ≡ some (done (some w)))
    × IsTable w.sc_map
    × (main_turn answer true (codes "12\n") w
        ≡ some (done (some (record w { launched = ls_pipe ∷ [] }))))
unfolding init_map is_shortcut lookup
stored-recalled_example =
    stored-recalled answer b'1' (codes "2") (codes "ls\n") session (ls_pipe, 2) (refl, (refl, tt))
      (omega arith) refl ls_line (init_map-IsTable 19 (omega arith)) refl

-- A map that held something and is empty again is freed through a null pointer.
emptied_run :
    (insert_into_map (init_map 2) (pos 5) (codes "ls")
      >>= (λ t. delete_from_map t (pos 5) >>= (λ r. delete_map (r.1))))
    ≡ faults
unfolding init_map insert_into_map delete_from_map delete_map lookup erase
emptied_run = refl

-- A command whose name begins with `sc` is taken for a shortcut command.
scp_run : create_cmd_pipe answer 20 (codes "scp a b\n") init_cmd_pipe session ≡ some exits
unfolding create_cmd_pipe
scp_run = refl

-- The input file of `<` is not opened, but the output file, which is not there.
input_run :
    execute_cmd_pipe program
      (λ _. true)
      (codes "x")
      (record {
        commands = record first_one { in_redirect = true; in_file = codes "f" } ∷ [];
        count = 1;
        is_background = false;
      })
      (record world { files = (codes "f", codes "data") ∷ [] })
    ≡ done (record world { files = (codes "f", codes "data") ∷ [] })
unfolding execute_cmd_pipe init_cmd lookup str_eq hands_on
input_run = refl

-- A pipe that begins with `||` reads a pipe that does not exist.
leading_run :
    execute_cmd_pipe program
      (λ _. true)
      (codes "x")
      (record { commands = staged group; count = 2; is_background = false })
      world
    ≡ faults
unfolding execute_cmd_pipe init_cmd hands_on
leading_run = refl

-- `&` is kept when nothing stands behind it.
ampersand_run : background (codes "ls&") ≡ (true, codes "ls&")
unfolding background
ampersand_run = refl
