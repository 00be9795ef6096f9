-- ===== src/Cluster/Tests.antt =====
-- The theorems on the cluster shell at concrete inputs, and runs of its parts.
use netprog_assignments.Base.{
  ℕ, zero, suc, ◌+◌, ◌≤◌, ◌≡◌, refl, Bool, true, false, some, List, [], ◌∷◌, pos, negsuc, CString,
  codes, str_eq, arith, length, take,
}
use netprog_assignments.Group.Strtok.{atoi}
use netprog_assignments.Cluster.{overflow, parse_config_file, register_client_connection}
use netprog_assignments.Cluster.Command.{Command, parsed, thread_exits, create_command_pipe}
use netprog_assignments.Cluster.Registering.{Registers, register_client_connection-Registers}
use netprog_assignments.Cluster.Run.{output, run_commands}
use netprog_assignments.Cluster.Connection.{failed, ended, connection_handler}
use netprog_assignments.Cluster.Composition.{run_commands-line_output}

abbrev config : List CString
config = codes "10.0.0.1" ∷ codes "10.0.0.2" ∷ codes "10.0.0.1" ∷ []

abbrev active : List Bool
active = true ∷ false ∷ true ∷ []

register_client_connection-Registers_example :
    Registers
      (codes "10.0.0.1")
      config
      active
      (register_client_connection (codes "10.0.0.1") config active)
register_client_connection-Registers_example =
    register_client_connection-Registers (codes "10.0.0.1") config active

abbrev program : ℕ → CString → CString → CString
program i cmd input = take 3 cmd

length-take_le : (n : ℕ) (s : CString) → length (take n s) ≤ n
length-take_le zero s = omega arith
length-take_le (suc n) [] = omega arith
length-take_le (suc n) (c ∷ s) = omega (arith, length-take_le n s)

short : (i : ℕ) (c s : CString) → length (program i c s) ≤ 3
short i c s = length-take_le 3 c

abbrev decimal : ℕ → CString
decimal n = (b'0' + n) ∷ []

abbrev line : List Command
line =
    record { cmd = codes "ls"; machine = pos 0 }
    ∷ record { cmd = codes "wc"; machine = pos 3 }
    ∷ record { cmd = codes "sort"; machine = negsuc 0 }
    ∷ []

run_commands-line_output_example :
    run_commands decimal (λ i c s. output (program i c s)) 0 line [] config active
    ≡ some (codes "sor")
run_commands-line_output_example =
    run_commands-line_output decimal program 3 short 0 line [] config active (omega arith)
      (tt, ((omega arith, refl), ((omega arith, refl), tt)))

-- `n2.ls`, `n*.wc` and a local command.
create_command_pipe_run :
    create_command_pipe (codes "n2.ls|n*.wc|sort\n")
    ≡ parsed (
        record { cmd = codes "ls"; machine = pos 2 }
        ∷ record { cmd = codes "wc"; machine = pos 0 }
        ∷ record { cmd = codes "sort\n"; machine = negsuc 0 }
        ∷ [])
unfolding create_command_pipe atoi
create_command_pipe_run = refl

-- A local command with a file of the name `f1.txt` ends the thread of the connection.
dotted_run : create_command_pipe (codes "wc f1.txt") ≡ thread_exits
unfolding create_command_pipe
dotted_run = refl

-- When the port cannot be read, the machine stays taken.
leaked_run :
    connection_handler decimal (λ i c s. output []) (codes "10.0.0.2") failed [] config active []
    ≡ ended [] (true ∷ true ∷ true ∷ []) []
unfolding connection_handler str_eq
leaked_run = refl

-- The longest address does not fit with its null.
address_run : parse_config_file 0 ((codes "n1", codes "192.168.100.100") ∷ []) ≡ overflow
unfolding parse_config_file
address_run = refl
