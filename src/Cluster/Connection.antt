-- ===== src/Cluster/Connection.antt =====
-- connectionHandler of assignment-1/q2/clustershell_server.c, from the connection of a client to
-- its end. The connections of other clients stay as they are meanwhile.
use netprog_assignments.Base.{
  ℕ, Bool, false, Option, none, some, List, [], ◌∷◌, ltb, if◌then◌else◌, length, set, ℤ, CString,
}
use netprog_assignments.Group.Strtok.{atoi}
use netprog_assignments.Cluster.{register_client_connection}
use netprog_assignments.Cluster.Run.{Reply, Served, replied, thread_ended, stray, serve}

-- What the first read gave.
pub data PortRead : Type 0 where
  closed : PortRead
  failed : PortRead
  port : CString → PortRead

-- What was written to the client, and the connections and ports after its thread ended.
pub data Ended : Type 0 where
  ended : List CString → List Bool → List ℤ → Ended
  crashed : Ended

abbrev pub reply_first : CString → Ended → Ended
reply_first s crashed = crashed
reply_first s (ended ss active ports) = ended (s ∷ ss) active ports

module _ (decimal : ℕ → CString) (machine_reply : ℕ → CString → CString → Reply) where
  abbrev answer : Served → List Bool → List ℤ → Ended → Ended
  answer (replied s) active ports next = reply_first s next
  answer thread_ended active ports next = ended [] active ports
  answer stray active ports next = crashed

  -- The lines that are read until the connection is closed.
  unfoldable pub read_commands : ℕ → List CString → List CString → List Bool → List ℤ → Ended
  unfolding serve
  read_commands idx [] config active ports = ended [] (set active idx false) ports
  read_commands idx (buff ∷ lines) config active ports =
      let next = read_commands idx lines config active ports in
      answer (serve decimal machine_reply idx buff config active) active ports next

  -- The port is read into an array of 10 bytes.
  abbrev with_port : ℕ → PortRead → List CString → List CString → List Bool → List ℤ → Ended
  with_port idx closed lines config active ports = ended [] (set active idx false) ports
  with_port idx failed lines config active ports = ended [] active ports
  with_port idx (port s) lines config active ports =
      if ltb (length s) 10
      then read_commands idx lines config active (set ports idx (atoi s))
      else crashed

  abbrev with_machine :
      Option ℕ × List Bool → PortRead → List CString → List CString → List ℤ → Ended
  with_machine (none, active) read lines config ports = ended [] active ports
  with_machine (some idx, active) read lines config ports =
      with_port idx read lines config active ports

  unfoldable pub connection_handler :
      CString → PortRead → List CString → List CString → List Bool → List ℤ → Ended
  unfolding read_commands register_client_connection
  connection_handler client_ip read lines config active ports =
      with_machine (register_client_connection client_ip config active) read lines config ports
