-- ===== src/Mail/Messages.antt =====
-- assignment-1/q3: messages from a sender's client.c through server.c to the queues of readers.
-- A queue is the list of the messages in it; `msgrcv` takes the first of a type.
pub mod Delivery
pub mod Reading
use netprog_assignments.Base.{
  ℕ, zero, suc, Bool, true, false, Option, none, some, List, [], ◌∷◌, ◌++◌, ◌==◌, ◌&&◌,
  if◌then◌else◌, ℤ, pos, negsuc, ◌+ℤ◌, ◌-ℤ◌, ltb_ℤ, eq_ℤ, CString, codes, str_eq, get_elem?, length,
  map,
}
use netprog_assignments.Mail.{
  Client, Group, Server, find_client_by_id, find_group_by_id, send_group_message,
}

pub data Protocol : Type 0 where
  client_message : Protocol
  group_message : Protocol

pub record Message : Type 0 where
  pub mtype : ℤ
  pub protocol : Protocol
  pub src : ℤ
  pub dst : ℤ
  pub auto_delete : ℤ
  pub timestamp : ℤ
  pub src_name : CString
  pub content : CString

-- The type under which the server receives messages.
abbrev pub protocol_type : Protocol → ℤ
protocol_type client_message = pos 1
protocol_type group_message = pos 2

-- One round of start_message_send_loop: the copy for the sender's own queue, and the message to
-- the server.
unfoldable pub compose : Protocol → ℤ → ℤ → ℤ → ℤ → CString → CString → Option Message × Message
compose p uid dst autodelete now name content =
    let m : Message = record {
      mtype = protocol_type p;
      protocol = p;
      src = uid;
      dst = dst;
      auto_delete = autodelete;
      timestamp = now;
      src_name = name;
      content = content;
    } in
    elim p [
      | client_message ↦ (some (record m { mtype = dst +ℤ pos 10000 }), m)
      | group_message ↦ (none, m)
    ]

unfoldable pub send_client_message : Client → Message → Message
send_client_message clt m = record m { protocol = client_message; mtype = clt.cid +ℤ pos 5000 }

-- The messages of send_group_message, to the members in order.
unfoldable pub group_copies : Message → List ℤ → List Message
group_copies m [] = []
group_copies m (c ∷ cs) =
    record m { protocol = group_message; mtype = c +ℤ pos 5000 } ∷ group_copies m cs

abbrev copies_to : Message → Option (List ℤ) → Option (List Message)
copies_to m none = none
copies_to m (some cs) = some (group_copies m cs)

abbrev to_group : Server → Message → Option Group → Option (List Message)
to_group s m none = none
to_group s m (some g) = copies_to m (send_group_message (length s.clients) g)

-- handle_group_send_msgs on one message to the group `gid`; `none` is a null dereference, as for
-- a group that does not exist.
unfoldable pub forward_to_group : Server → ℕ → Message → Option (List Message)
unfolding group_copies
forward_to_group s gid m = elim (find_group_by_id gid s.groups) [
  | none ↦ none
  | some place ↦ to_group s m (get_elem? s.groups place)
]

-- handle_client_send_msgs on one message.
unfoldable pub forward_to_client : Server → Message → Option Message
unfolding send_client_message
forward_to_client s m = elim (find_client_by_id m.dst s.clients) [
  | none ↦ none
  | some clt ↦ some (send_client_message clt m)
]

abbrev pub is_expired : ℤ → Message → Bool
is_expired now m = ltb_ℤ (pos 0) m.auto_delete && ltb_ℤ m.auto_delete (now -ℤ m.timestamp)

-- handle_messages on one message: what goes to the reader's own queue.
unfoldable pub handle_message : ℤ → Message → Option Message
handle_message now m = if is_expired now m then none else elim m.protocol [
  | group_message ↦ some (record m { mtype = pos 5000 +ℤ m.dst })
  | client_message ↦ some (record m { mtype = pos 10000 +ℤ m.src })
]

-- The type that start_message_rcv_loop waits for, with the number of the name it was given.
unfoldable pub reader_type : Protocol → ℤ → ℤ
reader_type client_message cid = cid +ℤ pos 10000
reader_type group_message gid = gid +ℤ pos 5000

-- `msgrcv` of a type greater than 0: the first message of the type, and the others.
abbrev pub pass : Message → Option (Message × List Message) → Option (Message × List Message)
pass m none = none
pass m (some r) = some (r.0, m ∷ r.1)

unfoldable pub msgrcv : ℤ → List Message → Option (Message × List Message)
msgrcv type [] = none
msgrcv type (m ∷ q) =
    let rest = msgrcv type q in if eq_ℤ m.mtype type then some (m, q) else pass m rest

abbrev printed_first :
    Message → Option (List Message × List Message) → Option (List Message × List Message)
printed_first m none = none
printed_first m (some r) = some (m ∷ r.0, r.1)

abbrev pub print_read :
    Option (Message × List Message)
    → List Message
    → (List Message → Option (List Message × List Message))
    → Option (List Message × List Message)
print_read none q next = some ([], q)
print_read (some r) q next = printed_first (r.0) (next (r.1))

-- The loop of start_message_rcv_loop on a queue until it waits: what it prints, and what is left;
-- `none` is out of fuel.
unfoldable pub message_rcv_loop : ℕ → ℤ → List Message → Option (List Message × List Message)
unfolding msgrcv
message_rcv_loop zero type q = none
message_rcv_loop (suc fuel) type q =
    print_read (msgrcv type q) q (λ rest. message_rcv_loop fuel type rest)
