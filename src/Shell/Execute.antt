-- ===== src/Shell/Execute.antt =====
-- assignment-1/q1/shell.c: executeCmdPipe, where the commands read and write.
pub mod Sinks
pub mod Worlds
pub mod Stages
pub mod Passing
pub mod Composition
use netprog_assignments.Base.{
  ℕ, zero, suc, ◌+◌, Bool, true, false, Option, none, some, List, [], ◌∷◌, ◌++◌, ◌==◌, ltb, leb,
  length, ◌&&◌, ◌||◌, if◌then◌else◌, get_or, ℤ, negsuc, eq_ℤ, CString, lookup, erase, text_key,
}
use netprog_assignments.Shell.{Run, done, exits, faults, ◌>>=◌}
use netprog_assignments.Shell.Command.{Command, PipeCount, single_pipe, double_pipe, triple_pipe}
use netprog_assignments.Shell.Pipe.{CommandPipe}

-- What is in the pipes and has not been read, what was written to the terminal, and the files.
-- Pipe `i` is `pipe_fd[i]`, from command `i`; a command ends before the next one starts, since
-- `wait` stands in the loop.
pub record World : Type 0 where
  pub pipes : ℕ → CString
  pub terminal : CString
  pub files : List (CString × CString)

pub data Sink : Type 0 where
  standard_output : Sink
  pipe : ℕ → Sink

-- A command after `||` or `|||` is first, second or third in its group by its offset.
abbrev pub is_first : Command → Bool
is_first c = eq_ℤ c.par_offset (negsuc 0)

abbrev pub is_second : Command → Bool
is_second c = eq_ℤ c.par_offset (negsuc 1)

abbrev pub first_sink : ℕ → ℕ → Option PipeCount → Sink
first_sink count i (some double_pipe) = if i + 2 == count then standard_output else pipe (i + 1)
first_sink count i (some triple_pipe) = if i + 3 == count then standard_output else pipe (i + 2)
first_sink count i (some single_pipe) = pipe i
first_sink count i none = pipe i

abbrev pub second_sink : ℕ → ℕ → Option PipeCount → Sink
second_sink count i (some triple_pipe) = if i + 2 == count then standard_output else pipe (i + 1)
second_sink count i (some double_pipe) = pipe i
second_sink count i (some single_pipe) = pipe i
second_sink count i none = pipe i

-- `write_fd` of the command at place `i`
unfoldable pub write_fd : ℕ → ℕ → Command → Sink
write_fd count i c =
    if i + 1 == count
    then standard_output
    else if is_first c
    then first_sink count i c.prev_pipe_count
    else if is_second c
    then second_sink count i c.prev_pipe_count
    else pipe i

abbrev is_triple : Option PipeCount → Bool
is_triple (some triple_pipe) = true
is_triple (some double_pipe) = false
is_triple (some single_pipe) = false
is_triple none = false

-- Whether the command hands its input on to the command after it.
unfoldable pub hands_on : ℕ → ℕ → Command → Bool
hands_on count i c =
    if i + 1 == count then false else is_first c || (is_second c && is_triple c.prev_pipe_count)

abbrev pub set_pipe : World → ℕ → CString → World
set_pipe w j s = record w { pipes = λ k. if k == j then s else w.pipes k }

abbrev pub stdout_buf_size : ℕ
stdout_buf_size = 500

-- What a pipe of Linux holds.
abbrev pub pipe_capacity : ℕ
pipe_capacity = 65536

-- A write to `pipe_fd[j][1]`, of which there are `count - 1`. A write of more than the pipe holds
-- waits for good, since the reader is not started before the writer has ended; this is `faults`.
unfoldable pub write_to : ℕ → Sink → CString → World → Run World
write_to count standard_output s w = done (record w { terminal = w.terminal ++ s })
write_to count (pipe j) s w =
    let held = w.pipes j ++ s in
    if ltb (j + 1) count && leb (length held) pipe_capacity
    then done (set_pipe w j held)
    else faults

-- Whether `strcpy` copies what was read and stays in `buff` and in `pipe_data`: `read` sets no
-- null behind what it read, so one has to stand there by chance (`stale_null`); 500 bytes leave
-- no room for it.
abbrev pub is_copied : Bool → CString → Bool
is_copied stale_null [] = true
is_copied stale_null (c ∷ s) = stale_null && ltb (length (c ∷ s)) stdout_buf_size

-- What the command reads, and the world after it was read. The first command reads the terminal;
-- one that hands its input on reads the pipe before it, and `pipe_fd[-1]` does not exist.
-- `stale i` is whether there is a null in `buff` of the process at place `i` behind what was read.
unfoldable pub input_of : (ℕ → Bool) → CString → ℕ → ℕ → Command → World → Run (CString × World)
unfolding write_to
input_of stale stdin count zero c w = if hands_on count 0 c then faults else done (stdin, w)
input_of stale stdin count (suc i) c w =
    let s = w.pipes i in
    let v = set_pipe w i [] in
    if hands_on count (suc i) c
    then (if is_copied (stale (suc i)) s
        then (write_to count (pipe (suc i)) s v >>= (λ u. done (s, u)))
        else faults)
    else done (s, v)

abbrev contents : CString → List (CString × CString) → CString
contents name fs = elim (lookup name fs) [ none ↦ [] | some s ↦ s ]

-- `open` of the output file: emptied unless it is appended to.
abbrev open_out : Command → List (CString × CString) → List (CString × CString)
open_out c fs =
    let name = c.out_file in
    let old = contents name fs in (name, if c.out_append then old else []) ∷ erase name fs

abbrev write_out : Command → CString → List (CString × CString) → List (CString × CString)
write_out c s fs =
    let name = c.out_file in let old = contents name fs in (name, old ++ s) ∷ erase name fs

module _ (program : List CString → CString → CString) (stale : ℕ → Bool) (stdin : CString) where
  -- The output of the program, to the file or to the sink.
  abbrev pub write_output : ℕ → ℕ → Command → CString → World → Run World
  write_output count i c s w =
      if c.out_redirect
      then done (record w { files = write_out c s w.files })
      else write_to count (write_fd count i c) s w

  -- With `<` the code opens `out_file`, not `in_file`; when there is none, the process of the
  -- command exits.
  abbrev pub redirected : Command → CString → World → Option CString
  redirected c s w = if c.in_redirect then lookup c.out_file w.files else some s

  abbrev pub after_input : ℕ → ℕ → Command → CString → World → Run World
  after_input count i c s w =
      let v = if c.out_redirect then record w { files = open_out c w.files } else w in
      elim (redirected c s v) [
        | none ↦ done v
        | some t ↦ write_output count i c (program c.argv t) v
      ]

  -- The process of the command at place `i`, from its start to its end. Opening a file for
  -- writing succeeds.
  unfoldable pub run_command : ℕ → ℕ → Command → World → Run World
  unfolding input_of write_to write_fd
  run_command count i c w = do (s, v) ← input_of stale stdin count i c w; after_input count i c s v

  unfoldable pub run_from : ℕ → ℕ → List Command → World → Run World
  unfolding run_command
  run_from count i [] w = done w
  run_from count i (c ∷ cs) w = do v ← run_command count i c w; run_from count (suc i) cs v

  -- The group of processes that executes the pipe.
  unfoldable pub execute_cmd_pipe : CommandPipe → World → Run World
  unfolding run_from
  execute_cmd_pipe p w = run_from p.count 0 p.commands (record w { pipes = λ _. [] })
