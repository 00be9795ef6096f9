-- ===== src/Mail/Control.antt =====
-- handle_control_msgs of assignment-1/q3/server.c: one message and its response.
use netprog_assignments.Base.{ℕ, Bool, Option, none, some, ℤ, CString, get_elem?, set}
use netprog_assignments.Mail.{
  Client, Group, Server, find_client_by_id, find_group_by_id, Registered, registered, no_queue,
  overflow, register_client, count_group, join_group, create_group,
}

-- LEAVE_GROUP has no case of its own: it is one of the others.
pub data Action : Type 0 where
  register : Action
  join : Action
  create : Action
  other : Action

pub record ControlMessage : Type 0 where
  pub action : Action
  pub src : ℤ
  pub name : CString
  pub gid : ℕ

-- `gid` is set by CREATE_GROUP only.
pub record ControlResponse : Type 0 where
  pub status : ℕ
  pub gid : Option ℕ

abbrev pub status_ok : ControlResponse
status_ok = record { status = 200; gid = none }

pub data Handled : Type 0 where
  answered : (dst : ℤ) → Server → ControlResponse → Handled
  crashed : Handled

-- `src_clt` is looked up, and its name printed, before the response is sent.
abbrev pub respond_to : Option Client → Server → ControlResponse → Handled
respond_to none s r = crashed
respond_to (some c) s r = answered c.cid s r

unfoldable pub respond : ℤ → Server → ControlResponse → Handled
unfolding find_client_by_id
respond src s r = respond_to (find_client_by_id src s.clients) s r

-- The status is that of success even without a client.
unfoldable pub handle_registered : ℤ → Server → Registered → Handled
unfolding respond
handle_registered src s (registered c t) = respond src t status_ok
handle_registered src s no_queue = respond src s status_ok
handle_registered src s overflow = crashed

unfoldable pub handle_joined : ℤ → Server → ℕ → Option Group → Handled
unfolding respond count_group
handle_joined src s place none = crashed
handle_joined src s place (some h) =
    respond src (record s { clients = count_group src s.clients; groups = set s.groups place h })
      status_ok

abbrev pub joined_at : ℤ → Server → ℕ → Option Group → Handled
joined_at src s place none = crashed
joined_at src s place (some g) = handle_joined src s place (join_group g src)

abbrev pub join_place : ℤ → Server → Option Client → Option ℕ → Handled
join_place src s none place = crashed
join_place src s (some c) none = crashed
join_place src s (some c) (some place) = joined_at src s place (get_elem? s.groups place)

abbrev pub handle_created : ℤ → ℕ → Option Server → Handled
handle_created src gid none = crashed
handle_created src gid (some t) = respond src t (record { status = 200; gid = some gid })

abbrev pub create_by : ℕ → CString → ℤ → Server → Option Client → Handled
create_by garbage name src s none = crashed
create_by garbage name src s (some c) =
    handle_created src s.next_group_id (create_group garbage name src s)

unfoldable pub handle_action : Action → Bool → ℕ → ControlMessage → Server → Handled
unfolding handle_registered handle_joined
handle_action register queue garbage m s =
    handle_registered m.src s (register_client queue m.src m.name s)
handle_action join queue garbage m s =
    join_place m.src s (find_client_by_id m.src s.clients) (find_group_by_id m.gid s.groups)
handle_action create queue garbage m s =
    create_by garbage m.name m.src s (find_client_by_id m.src s.clients)
handle_action other queue garbage m s = respond m.src s (record { status = 500; gid = none })

unfoldable pub handle_control_message : Bool → ℕ → ControlMessage → Server → Handled
unfolding handle_action
handle_control_message queue garbage m s = handle_action m.action queue garbage m s
