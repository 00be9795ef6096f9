-- ===== src/Mail/Handling.antt =====
-- The tables of assignment-1/q3/server.c through handle_control_msgs.
use netprog_assignments.Base.{
  ℕ, zero, suc, ◌+◌, ◌≡◌, ◌∙◌, refl, sym, Bool, true, false, Option, none, some, List, [], ◌∷◌,
  ◌++◌, ltb, ℤ, CString, length, get_elem?, set, arith, Option-cases, inl, inr, subst,
  length-append, length-set, if_either,
}
use netprog_assignments.Mail.{
  Client, Group, Server, max, find_client_by_id, find_group_by_id, Registered, registered, no_queue,
  overflow, new_client, register_client, count_group, join_group, new_group, add_group,
  create_group,
}
use netprog_assignments.Mail.Identifiers.{IsNumbered}
use netprog_assignments.Mail.Control.{
  Action, register, join, create, other, ControlMessage, ControlResponse, Handled, answered,
  crashed, status_ok, respond, handle_registered, handle_joined, joined_at, join_place,
  handle_created, create_by, handle_action, handle_control_message,
}

-- Identifiers are places, and the next one is that of the next place.
abbrev pub IsServer : Server → Type 0
IsServer s = IsNumbered 0 s.groups × (s.next_group_id ≡ length s.groups)

abbrev pub HandledWell : Handled → Type 0
HandledWell (answered dst t r) = IsServer t
HandledWell crashed = Unit

IsNumbered-append :
    (i : ℕ) (gs : List Group) (g : Group)
    → g.gid ≡ i + length gs
    → IsNumbered i gs
    → IsNumbered i (gs ++ g ∷ [])
IsNumbered-append i [] g e h = (omega arith, tt)
IsNumbered-append i (x ∷ gs) g e (h, hs) = (h, IsNumbered-append (suc i) gs g (omega arith) hs)

IsNumbered-set :
    (i k : ℕ) (gs : List Group) (g h : Group)
    → get_elem? gs k ≡ some g
    → h.gid ≡ g.gid
    → IsNumbered i gs
    → IsNumbered i (set gs k h)
IsNumbered-set i k [] g h e f n = tt
IsNumbered-set i zero (x ∷ gs) g h e f (n, ns) = (ground arith, ns)
IsNumbered-set i (suc k) (x ∷ gs) g h e f (n, ns) = (n, IsNumbered-set (suc i) k gs g h e f ns)

respond-HandledWell :
    (src : ℤ) (s : Server) (r : ControlResponse) → IsServer s → HandledWell (respond src s r)
unfolding respond
respond-HandledWell src s r v = elim (Option-cases (find_client_by_id src s.clients)) [
  | inl e ↦ rw e tt
  | inr (c, e) ↦ rw e v
]

abbrev RegisteredWell : Registered → Type 0
RegisteredWell (registered c t) = IsServer t
RegisteredWell no_queue = Unit
RegisteredWell overflow = Unit

new_client-RegisteredWell :
    (queue : Bool) (uid : ℤ) (name : CString) (s : Server)
    → IsServer s
    → RegisteredWell (new_client queue uid name s)
new_client-RegisteredWell false uid name s v = tt
new_client-RegisteredWell true uid name s v =
    if_either RegisteredWell (ltb (length s.clients) max) v tt

register_client-RegisteredWell :
    (queue : Bool) (uid : ℤ) (name : CString) (s : Server)
    → IsServer s
    → RegisteredWell (register_client queue uid name s)
unfolding register_client
register_client-RegisteredWell queue uid name s v =
    elim (Option-cases (find_client_by_id uid s.clients)) [
      | inl e ↦
          let run : new_client queue uid name s ≡ register_client queue uid name s =
            rw (e, register_client) in
          subst RegisteredWell run (new_client-RegisteredWell queue uid name s v)
      | inr (c, e) ↦
          let run : registered c s ≡ register_client queue uid name s = rw (e, register_client) in
          subst RegisteredWell run v
    ]

registered-HandledWell :
    (src : ℤ) (s : Server) (r : Registered)
    → IsServer s
    → RegisteredWell r
    → HandledWell (handle_registered src s r)
unfolding handle_registered
registered-HandledWell src s (registered c t) v w = respond-HandledWell src t status_ok w
registered-HandledWell src s no_queue v w = respond-HandledWell src s status_ok v
registered-HandledWell src s overflow v w = tt

abbrev KeepsGid : Group → Option Group → Type 0
KeepsGid g none = Unit
KeepsGid g (some h) = h.gid ≡ g.gid

join_group-KeepsGid : (g : Group) (cid : ℤ) → KeepsGid g (join_group g cid)
unfolding join_group
join_group-KeepsGid g cid = if_either (KeepsGid g) (ltb g.num_clients max) refl tt

joined-HandledWell :
    (src : ℤ) (s : Server) (place : ℕ) (g : Group) (o : Option Group)
    → IsServer s
    → get_elem? s.groups place ≡ some g
    → KeepsGid g o
    → HandledWell (handle_joined src s place o)
unfolding handle_joined
joined-HandledWell src s place g none v e k = tt
joined-HandledWell src s place g (some h) (n, l) e k =
    respond-HandledWell src
      (record s { clients = count_group src s.clients; groups = set s.groups place h }) status_ok
      (IsNumbered-set 0 place s.groups g h e k n, l ∙ sym (length-set s.groups place h))

joined_at-HandledWell :
    (src : ℤ) (s : Server) (place : ℕ)
    → IsServer s
    → HandledWell (joined_at src s place (get_elem? s.groups place))
joined_at-HandledWell src s place v = elim (Option-cases (get_elem? s.groups place)) [
  | inl e ↦ rw e tt
  | inr (g, e) ↦
      rw e (joined-HandledWell src s place g (join_group g src) v e (join_group-KeepsGid g src))
]

join_place-HandledWell :
    (src : ℤ) (s : Server) (c : Option Client) (place : Option ℕ)
    → IsServer s
    → HandledWell (join_place src s c place)
join_place-HandledWell src s none place v = tt
join_place-HandledWell src s (some c) none v = tt
join_place-HandledWell src s (some c) (some place) v = joined_at-HandledWell src s place v

abbrev CreatedWell : Option Server → Type 0
CreatedWell none = Unit
CreatedWell (some t) = IsServer t

add_group-CreatedWell :
    (creator : ℤ) (s : Server) (g : Group) (o : Option Group)
    → IsServer s
    → g.gid ≡ s.next_group_id
    → KeepsGid g o
    → CreatedWell (add_group creator s o)
add_group-CreatedWell creator s g none v e k = tt
add_group-CreatedWell creator s g (some h) (n, l) e k =
    if_either CreatedWell (ltb (length s.groups) max)
      (
        IsNumbered-append 0 s.groups h (omega (arith, k, e, l)) n,
        omega (arith, l, length-append s.groups (h ∷ [])),
      )
      tt

created-HandledWell :
    (src : ℤ) (gid : ℕ) (o : Option Server) → CreatedWell o → HandledWell (handle_created src gid o)
created-HandledWell src gid none w = tt
created-HandledWell src gid (some t) w =
    respond-HandledWell src t (record { status = 200; gid = some gid }) w

create_by-HandledWell :
    (garbage : ℕ) (name : CString) (src : ℤ) (s : Server) (c : Option Client)
    → IsServer s
    → HandledWell (create_by garbage name src s c)
unfolding create_group new_group
create_by-HandledWell garbage name src s none v = tt
create_by-HandledWell garbage name src s (some c) v =
    let g = new_group garbage s.next_group_id name in
    created-HandledWell src s.next_group_id (create_group garbage name src s)
      (add_group-CreatedWell src s g (join_group g src) v refl (join_group-KeepsGid g src))

action-HandledWell :
    (action : Action) (queue : Bool) (garbage : ℕ) (m : ControlMessage) (s : Server)
    → IsServer s
    → HandledWell (handle_action action queue garbage m s)
unfolding handle_action
action-HandledWell register queue garbage m s v =
    registered-HandledWell m.src s (register_client queue m.src m.name s) v
      (register_client-RegisteredWell queue m.src m.name s v)
action-HandledWell join queue garbage m s v =
    join_place-HandledWell m.src s (find_client_by_id m.src s.clients)
      (find_group_by_id m.gid s.groups) v
action-HandledWell create queue garbage m s v =
    create_by-HandledWell garbage m.name m.src s (find_client_by_id m.src s.clients) v
action-HandledWell other queue garbage m s v =
    respond-HandledWell m.src s (record { status = 500; gid = none }) v

-- Every control message that is answered, whatever it asks for and whatever memory holds, leaves
-- the identifiers of the groups equal to their places and the next identifier that of the next
-- place.
pub handle_control_message-IsServer :
    (queue : Bool) (garbage : ℕ) (m : ControlMessage) (s : Server)
    → IsServer s
    → HandledWell (handle_control_message queue garbage m s)
unfolding handle_control_message
handle_control_message-IsServer queue garbage m s v =
    action-HandledWell m.action queue garbage m s v
