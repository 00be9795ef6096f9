-- ===== src/Shell/Command.antt =====
-- assignment-1/q1/shell.c and utils.c: a command's fields, parseCmd and stringToNum.
pub mod Words
pub mod Items
pub mod Spelling
pub mod Bounds
use netprog_assignments.Base.{
  ℕ, zero, suc, ◌+◌, ◌*◌, ◌-◌, Bool, true, false, not, Option, none, some, List, [], ◌∷◌, ◌++◌,
  ◌==◌, ltb, leb, ◌||◌, if◌then◌else◌, length, replicate, ℤ, pos, negsuc, CString, codes, str_eq,
  isdigit, isspace,
}
use netprog_assignments.Shell.{Run, done, exits, faults, ◌>>=◌, assert}

abbrev pub max_num_args : ℕ
max_num_args = 20

abbrev pub max_arg_len : ℕ
max_arg_len = 30

pub data PipeCount : Type 0 where
  single_pipe : PipeCount
  double_pipe : PipeCount
  triple_pipe : PipeCount

-- `argv` without the null pointer that `argv[argc]` holds, and the list that `next` makes is
-- the list of the pipe.
pub record Command : Type 0 where
  pub argc : ℕ
  pub argv : List CString
  pub par_offset : ℤ
  pub prev_pipe_count : Option PipeCount
  pub in_redirect : Bool
  pub in_file : CString
  pub out_redirect : Bool
  pub out_append : Bool
  pub out_file : CString

unfoldable pub init_cmd : Command
init_cmd = record {
  argc = 0;
  argv = [];
  par_offset = negsuc 0;
  prev_pipe_count = none;
  in_redirect = false;
  in_file = [];
  out_redirect = false;
  out_append = false;
  out_file = [];
}

-- The state of the loop of parseCmd: the command, `curr_arg` up to `curr_len`, and `prev_arg`.
-- Every argument is copied to a block of one byte, since `curr_len` is 0 when it is allocated:
-- `overrun` counts the bytes written past these blocks.
pub record Parsing : Type 0 where
  pub cmd : Command
  pub curr_arg : CString
  pub prev_arg : CString
  pub overrun : ℕ

abbrev pub is_out : CString → Bool
is_out s = str_eq s (codes ">") || str_eq s (codes ">>")

abbrev pub add_arg : Parsing → CString → Run Parsing
add_arg p w = do
  _ ← assert (ltb (length p.cmd.argv) max_num_args)
  done (record {
    cmd = record (p.cmd) { argv = p.cmd.argv ++ (w ∷ []) };
    curr_arg = [];
    prev_arg = w;
    overrun = p.overrun + length w;
  })

abbrev keep : Parsing → CString → Command → Run Parsing
keep p w c = done (record p { cmd = c; curr_arg = []; prev_arg = w })

abbrev not_file : Parsing → CString → Run Parsing
not_file p w =
    if str_eq w (codes ">")
    then keep p w (record (p.cmd) { out_redirect = true; out_append = false })
    else if str_eq w (codes ">>")
    then keep p w (record (p.cmd) { out_redirect = true; out_append = true })
    else if str_eq w (codes "<")
    then keep p w (record (p.cmd) { in_redirect = true })
    else add_arg p w

-- The body of the loop from `curr_arg[curr_len] = '\0'`, for the word `w`.
unfoldable pub take_word : Parsing → CString → Run Parsing
unfolding str_eq
take_word p w =
    if is_out p.prev_arg
    then keep p w (record (p.cmd) { out_file = w })
    else if str_eq p.prev_arg (codes "<")
    then keep p w (record (p.cmd) { in_file = w })
    else not_file p w

abbrev pub blank_next : CString → Bool
blank_next [] = false
blank_next (c ∷ s) = isspace c

abbrev is_empty : CString → Bool
is_empty [] = true
is_empty (c ∷ s) = false

abbrev pub end_word : Parsing → Bool → Run Parsing
end_word p blank =
    if is_empty p.curr_arg then done p else if blank then done p else take_word p p.curr_arg

-- The loop over the rest of the input; it runs once more for the null at the end.
unfoldable pub parse_from : Parsing → CString → Run Parsing
unfolding take_word
parse_from p [] = end_word p false
parse_from p (c ∷ s) = do
  q ← if isspace c then end_word p (blank_next s) else do
    _ ← assert (ltb (length p.curr_arg) max_arg_len)
    done (record p { curr_arg = p.curr_arg ++ (c ∷ []) })
  parse_from q s

-- The command and the bytes written past the blocks of its arguments.
unfoldable pub parse_cmd : Command → CString → ℤ → PipeCount → Run (Command × ℕ)
unfolding parse_from
parse_cmd cmd cmd_input par_offset prev_pipe_count = do
  p ←
      parse_from
        (record {
          cmd = record cmd { par_offset = par_offset; prev_pipe_count = some prev_pipe_count };
          curr_arg = [];
          prev_arg = [];
          overrun = 0;
        })
        cmd_input
  done (record (p.cmd) { argc = length p.cmd.argv }, p.overrun)

-- The digits, without those that the type `int` cannot hold.
-- `int` holds the numbers below this; an overflow is undefined.
abbrev pub int_limit : ℕ
int_limit = 2147483648

abbrev pub in_int : ℕ → Run (Unit {0})
in_int n = if ltb n int_limit then done tt else faults

unfoldable pub string_to_num : ℕ → CString → Run ℕ
string_to_num num [] = done num
string_to_num num (c ∷ s) =
    if c == 10
    then string_to_num num s
    else do _ ← assert (isdigit c); _ ← in_int (num * 10 + c); string_to_num (num * 10 + c - b'0') s
