-- ===== src/Cluster/Prompt/Tests.antt =====
-- The theorems on the prompt at concrete inputs, and runs that leave the lines out of step.
use netprog_assignments.Base.{
  ℕ, ◌+◌, ◌≡◌, ◌⊎◌, refl, Bool, true, false, none, some, List, [], ◌∷◌, ◌++◌, replicate, CString,
  codes, arith, str_eq,
}
use netprog_assignments.Cluster.{max_output_size}
use netprog_assignments.Cluster.Command.{create_command_pipe}
use netprog_assignments.Cluster.Run.{Reply, output, serve}
use netprog_assignments.Cluster.Prompt.{
  Line, line, end_of_file, enter, prompt, waiting, failed, crashed, Link, connected, client_turn,
  server_turn, Reach, here, by_client,
}
use netprog_assignments.Cluster.Prompt.InStep.{IsAsked, IsPrinted, answers, Reach-IsPrinted}
use netprog_assignments.Cluster.Prompt.Completing.{Reached, at, said, Reach-ends}

abbrev config : List CString
config = codes "10.0.0.1" ∷ codes "10.0.0.2" ∷ []

abbrev active : List Bool
active = true ∷ false ∷ []

abbrev decimal : ℕ → CString
decimal n = (b'0' + n) ∷ []

abbrev replies : ℕ → CString → CString → Reply
replies i cmd input = output cmd

abbrev nodes : CString
nodes = codes "nodes"

abbrev lines : List Line
lines = line (codes "\n") ∷ line (codes "nodes\n") ∷ []

abbrev waits : Link
waits = record (connected []) { phase = waiting; to_server = nodes }

nodes-IsAsked : IsAsked decimal replies 0 config active (line (codes "nodes\n"))
unfolding enter serve str_eq
nodes-IsAsked = (ground arith, ground arith, omega arith, (_, refl, ground arith, omega arith))

empty-IsAsked : IsAsked decimal replies 0 config active (line (codes "\n"))
unfolding enter str_eq
empty-IsAsked = tt

entered_run : Reach decimal replies 0 config active (connected lines) waits
unfolding client_turn str_eq
entered_run = by_client (by_client here refl) refl

Reach-IsPrinted_example :
    IsPrinted decimal replies 0 config active (answers decimal replies 0 config active lines) waits
Reach-IsPrinted_example =
    Reach-IsPrinted decimal replies 0 config active lines waits (empty-IsAsked, (nodes-IsAsked, tt))
      entered_run

Reach-ends_example :
    (waits.phase ≡ failed)
    ⊎ Reached decimal replies 0 config active waits
        (at decimal replies 0 config active [] (said decimal replies 0 config active lines))
Reach-ends_example =
    Reach-ends decimal replies 0 config active lines waits (empty-IsAsked, (nodes-IsAsked, tt))
      entered_run

answers_run : answers decimal replies 0 config active lines ≡ codes "n1 10.0.0.1\n" ∷ []
unfolding enter serve str_eq
answers_run = refl

-- An answer that fills the array leaves its null behind, which is the next answer.
late_run :
    client_turn (record waits { to_client = replicate max_output_size b'a' ++ 0 ∷ [] })
    ≡ some (record waits {
      phase = prompt;
      to_client = 0 ∷ [];
      printed = replicate max_output_size b'a' ∷ [];
    })
unfolding client_turn
late_run = refl

abbrev asks_file : Link
asks_file = record (connected []) { phase = waiting; to_server = codes "wc f1.txt" }

abbrev hangs : Link
hangs = record (connected []) { phase = waiting; listening = false }

-- The thread of the connection ends on the name of the file, and the client waits for good.
ends_run : server_turn decimal replies 0 config active asks_file ≡ some hangs
unfolding server_turn str_eq create_command_pipe
ends_run = refl

hangs_run : (client_turn hangs ≡ none) × (server_turn decimal replies 0 config active hangs ≡ none)
unfolding client_turn server_turn
hangs_run = (refl, refl)

-- At the end of the input the client writes before its array.
end_run :
    client_turn (connected (end_of_file ∷ [])) ≡ some (record (connected []) { phase = crashed })
unfolding client_turn
end_run = refl
