-- ===== src/Cluster.antt =====
-- assignment-1/q2: a shell that runs commands on the machines of a cluster. The machines of the
-- configuration file are numbered from 0; `active` says which are connected.
pub mod Command
pub mod Registering
pub mod Run
pub mod Connection
pub mod Composition
pub mod Client
pub mod Prompt
mod Tests
use netprog_assignments.Base.{
  ℕ, zero, suc, ◌+◌, Bool, true, false, not, Option, none, some, List, [], ◌∷◌, ◌++◌, ◌&&◌,
  if◌then◌else◌, ltb, length, get_or, set, replicate, ℤ, pos, CString, str_eq,
}

abbrev pub max_clients_allowed : ℕ
max_clients_allowed = 100

-- The sizes of the arrays of a command and of an output, without the null.
abbrev pub max_output_size : ℕ
max_output_size = 1024

pub data Configured : Type 0 where
  configured : List CString → Configured
  too_many : Configured  -- the process ends
  overflow : Configured  -- a word longer than its array

abbrev pub with_ip : CString → Configured → Configured
with_ip ip (configured ips) = configured (ip ∷ ips)
with_ip ip too_many = too_many
with_ip ip overflow = overflow

-- The pairs of words of the configuration file, in arrays of 10 and of 15 bytes; the first of
-- each pair is not kept.
unfoldable pub parse_config_file : ℕ → List (CString × CString) → Configured
parse_config_file i [] = configured []
parse_config_file i ((id, ip) ∷ rest) =
    let next = parse_config_file (suc i) rest in
    if ltb (length id) 10 && ltb (length ip) 15
    then if ltb i max_clients_allowed then with_ip ip next else too_many
    else overflow

-- `active_connections` of main.
unfoldable pub init_connections : List Bool
init_connections = replicate max_clients_allowed false

-- The loop of registerClientConnection from place `i` on.
unfoldable pub register_from : CString → ℕ → List CString → List Bool → Option ℕ
register_from ip i [] active = none
register_from ip i (d ∷ config) active =
    let rest = register_from ip (suc i) config active in
    if ltb i max_clients_allowed
    then if str_eq d ip && not (get_or active i false) then some i else rest
    else none

-- The machine and the connections after it; `none` is -1.
unfoldable pub register_client_connection :
    CString → List CString → List Bool → Option ℕ × List Bool
unfolding register_from
register_client_connection ip config active = elim (register_from ip 0 config active) [
  | none ↦ (none, active)
  | some i ↦ (some i, set active i true)
]
