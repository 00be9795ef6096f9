-- ===== src/Shell/Pipe.antt =====
-- assignment-1/q1/shell.c: command pipes, and createCmdPipe on what is not a shortcut command.
pub mod Shape
use netprog_assignments.Base.{
  ℕ, zero, suc, ◌+◌, ◌-◌, Bool, true, false, Option, none, some, List, [], ◌∷◌, ◌++◌, ◌==◌, ◌||◌,
  if◌then◌else◌, length, get_or, take, ℤ, pos, negsuc, CString,
}
use netprog_assignments.Shell.{Run, done, exits, faults, ◌>>=◌}
use netprog_assignments.Shell.Command.{
  Command, PipeCount, single_pipe, double_pipe, triple_pipe, init_cmd, parse_cmd,
}

-- `commands` is the list from `head` to `tail`.
pub record CommandPipe : Type 0 where
  pub commands : List Command
  pub count : ℕ
  pub is_background : Bool

unfoldable pub init_cmd_pipe : CommandPipe
init_cmd_pipe = record { commands = []; count = 0; is_background = false }

unfoldable pub insert_cmd_in_pipe : CommandPipe → Command → CommandPipe
insert_cmd_in_pipe p c = record p {
  commands = if p.count == 0 then c ∷ [] else p.commands ++ (c ∷ []);
  count = p.count + 1;
}

-- `count` rounds of freeing the head; a null head has no `next`.
abbrev pub free_commands : ℕ → List Command → Run {0} Unit
free_commands zero cs = done tt
free_commands (suc n) [] = faults
free_commands (suc n) (c ∷ cs) = free_commands n cs

unfoldable pub reset_cmd_pipe : Option CommandPipe → Run {0} Unit
reset_cmd_pipe none = done tt
reset_cmd_pipe (some p) = free_commands p.count p.commands

abbrev first_field : ℕ → CString → List CString → List CString
first_field c w [] = (c ∷ w) ∷ []
first_field c w (v ∷ vs) = (c ∷ v) ∷ vs

-- What strsep gives in turn until it gives NULL.
unfoldable pub strsep_all : ℕ → CString → List CString
strsep_all d [] = [] ∷ []
strsep_all d (c ∷ s) =
    let rest = strsep_all d s in if c == d then [] ∷ rest else first_field c [] rest

-- `last_char` and `k + 1` after the loop that passes over spaces and newlines at the end.
abbrev back_up : CString → ℕ → ℕ → ℕ × ℕ
back_up temp zero last_char = (last_char, 0)
back_up temp (suc k) last_char =
    if (last_char == 32) || (last_char == 10)
    then back_up temp k (get_or temp k 0)
    else (last_char, suc k)

-- Whether the command is to be run in the background, and its text then.
unfoldable pub background : CString → Bool × CString
background temp =
    let r = back_up temp (length temp) (get_or temp (length temp - 1) 0) in
    if r.0 == b'&' then (true, take r.1 temp) else (false, temp)

-- A pipe, and the bytes written past the blocks of arguments so far.
abbrev pub Made : Type 0
Made = CommandPipe × ℕ

abbrev pub parsed : Made → CString → ℤ → PipeCount → Run (Command × ℕ)
parsed m s o n = do (c, k) ← parse_cmd init_cmd s o n; done (c, m.1 + k)

unfoldable pub add_single : Made → CString → Run Made
unfolding insert_cmd_in_pipe
add_single m temp = do
  (c, k) ← parsed m temp (pos 0) single_pipe
  done (insert_cmd_in_pipe (m.0) c, k)

-- The commands are parsed first and put into the pipe after.
unfoldable pub add_double : Made → List CString → Run Made
unfolding insert_cmd_in_pipe
add_double m [] = exits
add_double m (s ∷ []) = exits
add_double m (s ∷ t ∷ rest) = do
  (c, k) ← parsed m s (negsuc 0) double_pipe
  (d, l) ← parsed (m.0, k) t (negsuc 1) double_pipe
  done (insert_cmd_in_pipe (insert_cmd_in_pipe (m.0) c) d, l)

unfoldable pub add_triple : Made → List CString → Run Made
unfolding insert_cmd_in_pipe
add_triple m [] = exits
add_triple m (s ∷ []) = exits
add_triple m (s ∷ t ∷ []) = exits
add_triple m (s ∷ t ∷ u ∷ rest) = do
  (c, k) ← parsed m s (negsuc 0) triple_pipe
  (d, l) ← parsed (m.0, k) t (negsuc 1) triple_pipe
  (e, n) ← parsed (m.0, l) u (negsuc 2) triple_pipe
  done (insert_cmd_in_pipe (insert_cmd_in_pipe (insert_cmd_in_pipe (m.0) c) d) e, n)

abbrev pub mark : Made → Bool → Made
mark m b = (record (m.0) { is_background = if b then true else m.0.is_background }, m.1)

-- The body of the loop for a text that is not empty.
unfoldable pub add_commands : Made → ℕ → CString → Run Made
unfolding background add_single add_double add_triple strsep_all
add_commands m pipe_count temp =
    let b = background temp in
    let n = mark m b.0 in
    if pipe_count == 1
    then add_single n b.1
    else if pipe_count == 2
    then add_double n (strsep_all b',' b.1)
    else if pipe_count == 3
    then add_triple n (strsep_all b',' b.1)
    else exits

unfoldable pub create_from : Made → ℕ → List CString → Run Made
unfolding add_commands
create_from m pipe_count [] = done m
create_from m pipe_count ([] ∷ fs) = create_from m (pipe_count + 1) fs
create_from m pipe_count ((c ∷ w) ∷ fs) = do
  n ← add_commands m pipe_count (c ∷ w)
  create_from n 1 fs

-- createCmdPipe when the input does not begin with `sc`; it returns true.
unfoldable pub create_plain : CString → CommandPipe → Run Made
unfolding create_from strsep_all
create_plain cmd_input cmd_pipe = create_from (cmd_pipe, 0) 1 (strsep_all b'|' cmd_input)
