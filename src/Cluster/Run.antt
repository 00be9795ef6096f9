-- ===== src/Cluster/Run.antt =====
-- connectionHandler of assignment-1/q2/clustershell_server.c on one command line.
use netprog_assignments.Base.{
  ℕ, zero, suc, ◌+◌, Bool, false, Option, none, some, List, [], ◌∷◌, ◌++◌, if◌then◌else◌, leb,
  length, get_or, pos, negsuc, CString, codes, str_eq,
}
use netprog_assignments.Cluster.{max_output_size}
use netprog_assignments.Cluster.Command.{
  Command, Parsed, parsed, thread_exits, overflows, create_command_pipe,
}

-- What a machine answers to a command and its input: the write to it or the read from it may
-- fail.
pub data Reply : Type 0 where
  no_write : Reply
  no_read : Reply
  output : CString → Reply

-- The output so far; the output with an error, which ends the line; or a write or a read outside
-- an array.
pub data Step : Type 0 where
  goes_on : CString → Step
  error : CString → Step
  faults : Step

-- The output array holds 1024 characters.
abbrev pub message : CString → Step
message s = if leb (length s) max_output_size then error s else faults

-- A line was answered, or the thread ended, with its connection still active, or an access was
-- outside an array.
pub data Served : Type 0 where
  replied : CString → Served
  thread_ended : Served
  stray : Served

abbrev bounded : CString → Served
bounded s = if leb (length s) max_output_size then replied s else stray

abbrev served : Option CString → Served
served none = stray
served (some s) = replied s

module _ (decimal : ℕ → CString) (machine_reply : ℕ → CString → CString → Reply) where
  abbrev write_error : CString → ℕ → CString
  write_error cmd i =
      codes "Error in writing command "
      ++ (cmd ++ (codes " to machine n" ++ (decimal (i + 1) ++ codes ".\n")))

  abbrev read_error : CString → ℕ → CString
  read_error cmd i =
      codes "Error in reading output of command "
      ++ (cmd ++ (codes " from machine n" ++ (decimal (i + 1) ++ codes ".\n")))

  abbrev of_reply : CString → ℕ → Reply → (CString → Step) → Step
  of_reply cmd i no_write f = message (write_error cmd i)
  of_reply cmd i no_read f = message (read_error cmd i)
  of_reply cmd i (output s) f = f s

  -- The loop over the machines from place `i`; `res` has what those before it answered.
  unfoldable pub broadcast : CString → CString → ℕ → List CString → List Bool → CString → Step
  broadcast cmd input i [] active res = goes_on res
  broadcast cmd input i (d ∷ config) active res =
      let skipped = broadcast cmd input (suc i) config active res in
      let next : CString → Step = λ temp.
        if leb (length (res ++ temp)) max_output_size
        then broadcast cmd input (suc i) config active (res ++ temp)
        else faults in
      if get_or active i false then of_reply cmd i (machine_reply i cmd input) next else skipped

  abbrev not_connected : ℕ → CString
  not_connected i = codes "Machine n" ++ (decimal (i + 1) ++ codes " is not connected.")

  abbrev invalid_machine : ℕ → CString
  invalid_machine i =
      codes "Invalid machine name found: n"
      ++ (decimal (i + 1) ++ codes ". Please verify that it exists in config in correct order.\n")

  -- The command on the machine of place `i`.
  abbrev pub run_on : CString → CString → ℕ → List CString → List Bool → Step
  run_on cmd input i config active =
      if leb (length config) i
      then message (invalid_machine i)
      else if get_or active i false
      then of_reply cmd i (machine_reply i cmd input) goes_on
      else message (not_connected i)

  -- One command of the line, from the machine of place `idx`. A number below -1 is an index
  -- below 0.
  unfoldable pub run_command : ℕ → Command → CString → List CString → List Bool → Step
  unfolding broadcast
  run_command idx c input config active = elim c.machine [
    | pos zero ↦ broadcast c.cmd input 0 config active []
    | pos (suc i) ↦ run_on c.cmd input i config active
    | negsuc zero ↦ run_on c.cmd input idx config active
    | negsuc (suc n) ↦ faults
  ]

  -- The output written to the client in the end; `none` outside an array.
  abbrev pub then_run : Step → (CString → Option CString) → Option CString
  then_run (goes_on s) f = f s
  then_run (error s) f = some s
  then_run faults f = none

  unfoldable pub run_commands :
      ℕ → List Command → CString → List CString → List Bool → Option CString
  unfolding run_command
  run_commands idx [] input config active = some input
  run_commands idx (c ∷ cs) input config active =
      then_run (run_command idx c input config active) (λ s. run_commands idx cs s config active)

  -- The lines that "nodes" lists.
  unfoldable pub nodes_from : ℕ → List CString → List Bool → CString
  nodes_from i [] active = []
  nodes_from i (d ∷ config) active =
      let rest = nodes_from (suc i) config active in
      if get_or active i false then b'n' ∷ (decimal (i + 1) ++ (32 ∷ (d ++ (10 ∷ rest)))) else rest

  abbrev run_parsed : ℕ → Parsed (List Command) → List CString → List Bool → Served
  run_parsed idx thread_exits config active = thread_ended
  run_parsed idx overflows config active = stray
  run_parsed idx (parsed cs) config active = served (run_commands idx cs [] config active)

  -- The body of the loop that reads commands, on one line.
  unfoldable pub serve : ℕ → CString → List CString → List Bool → Served
  unfolding run_commands nodes_from create_command_pipe
  serve idx buff config active =
      if str_eq buff (codes "nodes")
      then bounded (nodes_from 0 config active)
      else run_parsed idx (create_command_pipe buff) config active
