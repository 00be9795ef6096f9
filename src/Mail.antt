-- ===== src/Mail.antt =====
-- assignment-1/q3/server.c: a server of messages to clients and groups. A `Client *` is the
-- client's cid, a `Group *` its place in `groups`. What malloc leaves in the number of a new
-- group's clients is an argument.
pub mod Membership
pub mod Identifiers
pub mod Registering
pub mod Control
pub mod Handling
pub mod Queries
pub mod Messages
pub mod Program
pub mod Calls
mod Tests
use netprog_assignments.Base.{
  ℕ, zero, suc, ◌+◌, ◌≡◌, Bool, true, false, Option, none, some, List, [], ◌∷◌, ◌++◌, ◌==◌, ◌&&◌,
  ltb, if◌then◌else◌, ℤ, pos, negsuc, eq_ℤ, CString, str_eq, length, get_elem?, set,
}

pub record Client : Type 0 where
  pub cid : ℤ
  pub name : CString
  pub num_groups : ℕ

pub record Group : Type 0 where
  pub gid : ℕ
  pub name : CString
  pub num_clients : ℕ
  pub clients : ℕ → Option ℤ  -- `none` is what no one wrote

pub record Server : Type 0 where
  pub clients : List Client
  pub groups : List Group
  pub next_group_id : ℕ

abbrev pub max : ℕ
max = 1024

unfoldable pub find_client_by_id : ℤ → List Client → Option Client
find_client_by_id id [] = none
find_client_by_id id (c ∷ cs) = if eq_ℤ c.cid id then some c else find_client_by_id id cs

unfoldable pub find_client_by_name : CString → List Client → Option Client
find_client_by_name name [] = none
find_client_by_name name (c ∷ cs) =
    if str_eq c.name name then some c else find_client_by_name name cs

-- The loop of find_group_by_id, from place `i` on.
unfoldable pub scan : ℕ → ℕ → List Group → Option ℕ
scan id i [] = none
scan id i (g ∷ gs) = if g.gid == id then some i else scan id (suc i) gs

abbrev pub has_gid : ℕ → Option Group → Bool
has_gid id none = false
has_gid id (some g) = g.gid == id

-- A negative id, for which `groups[id]` is read, is not in the domain.
unfoldable pub find_group_by_id : ℕ → List Group → Option ℕ
unfolding scan
find_group_by_id id groups =
    if ltb id (length groups) && has_gid id (get_elem? groups id) then some id else scan id 0 groups

unfoldable pub find_group_by_name : CString → List Group → Option Group
find_group_by_name name [] = none
find_group_by_name name (g ∷ gs) = if str_eq g.name name then some g else find_group_by_name name gs

-- register_client: `queue` says whether get_queue succeeds. A full table is written past.
pub data Registered : Type 0 where
  registered : Client → Server → Registered
  no_queue : Registered  -- NULL
  overflow : Registered

abbrev pub add_client : Client → Server → Registered
add_client c s =
    if ltb (length s.clients) max
    then registered c (record s { clients = s.clients ++ c ∷ [] })
    else overflow

abbrev pub new_client : Bool → ℤ → CString → Server → Registered
new_client false uid name s = no_queue
new_client true uid name s = add_client (record { cid = uid; name = name; num_groups = 0 }) s

unfoldable pub register_client : Bool → ℤ → CString → Server → Registered
unfolding find_client_by_id
register_client queue uid name s = elim (find_client_by_id uid s.clients) [
  | some c ↦ registered c s
  | none ↦ new_client queue uid name s
]

-- join_group, on the client.
pub count_group : ℤ → List Client → List Client
count_group cid [] = []
count_group cid (c ∷ cs) =
    if eq_ℤ c.cid cid
    then record c { num_groups = c.num_groups + 1 } ∷ cs
    else c ∷ count_group cid cs

-- join_group, on the group.
unfoldable pub join_group : Group → ℤ → Option Group
join_group grp cid =
    if ltb grp.num_clients max
    then some (record grp {
      clients = λ i. if i == grp.num_clients then some cid else grp.clients i;
      num_clients = grp.num_clients + 1;
    })
    else none

unfoldable pub new_group : ℕ → ℕ → CString → Group
new_group garbage gid name = record {
  gid = gid;
  name = name;
  num_clients = garbage;
  clients = λ i. none;
}

-- create_group; `none` is a write outside an array.
abbrev pub add_group : ℤ → Server → Option Group → Option Server
add_group creator s none = none
add_group creator s (some g) =
    if ltb (length s.groups) max
    then some (record {
      clients = count_group creator s.clients;
      groups = s.groups ++ g ∷ [];
      next_group_id = s.next_group_id + 1;
    })
    else none

unfoldable pub create_group : ℕ → CString → ℤ → Server → Option Server
unfolding new_group join_group
create_group garbage name creator s =
    add_group creator s (join_group (new_group garbage s.next_group_id name) creator)

-- send_group_message: to whom the messages go, in order, or a pointer that no one wrote.
abbrev pub then_sent : Option ℤ → Option (List ℤ) → Option (List ℤ)
then_sent none rest = none
then_sent (some c) none = none
then_sent (some c) (some cs) = some (c ∷ cs)

-- After each message the name of the i-th of all the server's clients is read, and printed.
unfoldable pub send_from : ℕ → ℕ → ℕ → (ℕ → Option ℤ) → Option (List ℤ)
send_from total zero i clients = some []
send_from total (suc n) i clients =
    let rest = send_from total n (suc i) clients in
    if ltb i total then then_sent (clients i) rest else none

unfoldable pub send_group_message : ℕ → Group → Option (List ℤ)
unfolding send_from
send_group_message total_clients grp = send_from total_clients grp.num_clients 0 grp.clients
