-- ===== src/Mail/Calls.antt =====
-- assignment-1/q3/client.c: join_group and create_group, with the server's answers to them.
use netprog_assignments.Base.{
  ℕ, ◌+◌, Bool, Option, none, some, [], ◌∷◌, ◌++◌, ◌==◌, ltb, if◌then◌else◌, length, ℤ, pos, negsuc,
  CString,
}
use netprog_assignments.Mail.{Group, Server, count_group}
use netprog_assignments.Mail.Control.{
  join, create, ControlResponse, Handled, answered, crashed, handle_control_message,
}
use netprog_assignments.Mail.Queries.{get_gid}

-- What the call returns, and the server after it; `none` when a program crashed.
abbrev pub Called : Type 0
Called = Option (ℤ × Server)

-- The status of the answer to JOIN_GROUP is not looked at.
abbrev after_join : ℤ → Handled → Called
after_join gid crashed = none
after_join gid (answered dst t r) = some (gid, t)

-- The array of the name is not filled in, and the server does not read it.
abbrev join_number : Bool → ℕ → Server → ℤ → Option ℤ → Called
join_number queue garbage s uid none = none
join_number queue garbage s uid (some (negsuc n)) = some (negsuc 0, s)
join_number queue garbage s uid (some (pos gid)) = after_join (pos gid) (
    handle_control_message queue garbage (record { action = join; src = uid; name = []; gid = gid })
      s)

-- join_group of client.c
unfoldable pub join_by_name : (ℤ → CString) → Bool → ℕ → Server → ℤ → CString → Called
join_by_name decimal queue garbage s uid group_name =
    join_number queue garbage s uid (get_gid decimal s uid group_name)

abbrev created_gid : Server → ControlResponse → Called
created_gid t r =
    if r.status == 200
    then elim r.gid [ none ↦ none | some gid ↦ some (pos gid, t) ]
    else some (negsuc 0, t)

abbrev after_create : Handled → Called
after_create crashed = none
after_create (answered dst t r) = created_gid t r

-- create_group of client.c; the name is copied to an array of 128 bytes.
unfoldable pub create_by_name : Bool → ℕ → Server → ℤ → CString → Called
create_by_name queue garbage s uid group_name =
    if ltb (length group_name) 128
    then after_create (
        handle_control_message queue garbage
          (record { action = create; src = uid; name = group_name; gid = 0 }) s)
    else none

abbrev created_group : ℤ → CString → Server → Group
created_group uid name s = record {
  gid = s.next_group_id;
  name = name;
  num_clients = 0 + 1;
  clients = λ i. if i == 0 then some uid else none;
}

abbrev with_created : ℤ → CString → Server → Server
with_created uid name s = record {
  clients = count_group uid s.clients;
  groups = s.groups ++ (created_group uid name s ∷ []);
  next_group_id = s.next_group_id + 1;
}
