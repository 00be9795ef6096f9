-- ===== src/Mail/Tests.antt =====
-- Runs of the model of assignment-1/q3/server.c, and its properties at concrete inputs.
use netprog_assignments.Base.{
  ◌≡◌, refl, true, none, some, [], ◌∷◌, if◌then◌else◌, ◌==◌, pos, codes, arith, str_eq,
}
use netprog_assignments.Mail.{
  Client, Group, Server, find_client_by_name, find_group_by_id, find_group_by_name, join_group,
  send_group_message,
}
use netprog_assignments.Mail.Membership.{IsGroupOf, join-send}
use netprog_assignments.Mail.Control.{
  ControlMessage, join, other, handle_control_message, crashed, answered,
}
use netprog_assignments.Mail.Handling.{HandledWell, handle_control_message-IsServer}
use netprog_assignments.Base.{◌+◌, ℤ, negsuc, pos_part, CString, List, ◌+ℤ◌}
use netprog_assignments.Group.Strtok.{atoi, strtok}
use netprog_assignments.Mail.{find_client_by_id}
use netprog_assignments.Mail.Queries.{
  QueryResponse, query_group, query_client, responses, client_line, get_gid, list_query,
}
use netprog_assignments.Mail.Queries.Answers.{list_query-prints}
use netprog_assignments.Mail.Messages.{
  Message, client_message, group_message, compose, forward_to_group, forward_to_client, reader_type,
  message_rcv_loop,
}
use netprog_assignments.Mail.Messages.Reading.{of_type, others, message_rcv_loop-of_type}
use netprog_assignments.Mail.Messages.Delivery.{
  SameText, Reads, Delivers, compose-group_Delivers, compose-client_Reads,
}
use netprog_assignments.Mail.Program.{invoke, send_to, null_argument}

abbrev ann : Client
ann = record { cid = pos 11; name = codes "ann"; num_groups = 1 }

abbrev bob : Client
bob = record { cid = pos 22; name = codes "bob"; num_groups = 0 }

abbrev team : Group
team = record {
  gid = 0;
  name = codes "team";
  num_clients = 1;
  clients = λ i. if i == 0 then some (pos 11) else none;
}

abbrev server : Server
server = record { clients = ann ∷ bob ∷ []; groups = team ∷ []; next_group_id = 1 }

by_name_run : find_client_by_name (codes "bob") server.clients ≡ some bob
unfolding find_client_by_name str_eq
by_name_run = refl

group_by_name_run : find_group_by_name (codes "crew") server.groups ≡ none
unfolding find_group_by_name str_eq
group_by_name_run = refl

-- A client that joins twice counts twice, and with one client in all a message stops at the name
-- of the second.
twice_run :
    send_group_message 1 (record team { num_clients = 2; clients = λ i. some (pos 11) }) ≡ none
unfolding send_group_message
twice_run = refl

join-send_example :
    (h : Group) × (join_group team (pos 22) ≡ some h)
    × (h.gid ≡ 0)
    × IsGroupOf (pos 11 ∷ pos 22 ∷ []) h
    × (send_group_message 2 h ≡ some (pos 11 ∷ pos 22 ∷ []))
join-send_example =
    join-send 2 (pos 11 ∷ []) team (pos 22) (refl, (refl, tt)) (omega arith) (omega arith)

abbrev request : ControlMessage
request = record { action = join; src = pos 22; name = []; gid = 0 }

handle_control_message-IsServer_example : HandledWell (handle_control_message true 0 request server)
handle_control_message-IsServer_example =
    handle_control_message-IsServer true 0 request server ((refl, tt), refl)

-- To leave a group is one of the other actions.
leave_run :
    handle_control_message true 0 (record request { action = other }) server
    ≡ answered (pos 22) server (record { status = 500; gid = none })
unfolding handle_control_message
leave_run = refl

-- A request of a client that is not known.
unknown_run : handle_control_message true 0 (record request { src = pos 99 }) server ≡ crashed
unfolding handle_control_message
unknown_run = refl

-- What sprintf writes for a number of one digit.
abbrev decimal : ℤ → CString
decimal n = (b'0' + pos_part n) ∷ []

-- The answer to a query for all comes as many messages, of which get_gid reads the first.
all_run : get_gid decimal server (pos 11) (codes "_ALL_") ≡ some (pos 0)
unfolding get_gid find_client_by_id str_eq atoi
all_run = refl

-- With no group there is no status to send with the end of the list.
no_status_run :
    responses decimal
      (record server { groups = [] })
      (record { src = pos 11; query_type = query_group; content = codes "_ALL_" })
    ≡ record { status = none; content = some (codes "_END_") } ∷ []
unfolding responses str_eq
no_status_run = refl

-- A response that no one has read.
abbrev left_over : List QueryResponse
left_over = record { status = some 200; content = some (codes "4") } ∷ []

list_query-prints_example :
    (list_query decimal query_group server (pos 11) left_over
      ≡ some (codes "4" ∷ codes "name = team | gid = 0" ∷ []))
    × (list_query decimal query_client server (pos 11) left_over
        ≡ some (codes "4" ∷ client_line decimal ann ∷ client_line decimal bob ∷ []))
unfolding find_client_by_id str_eq
list_query-prints_example =
    list_query-prints decimal server (pos 11) ann left_over (codes "4" ∷ []) refl (refl, refl, tt)

compose-group_Delivers_example :
    (copies : List Message) × (forward_to_group server 0
        (compose group_message (pos 22) (pos 0) (negsuc 0) (pos 9) (codes "bob") (codes "hi")).1
      ≡ some copies)
    × Delivers
        (pos 10)
        (reader_type group_message (pos 0))
        (compose group_message (pos 22) (pos 0) (negsuc 0) (pos 9) (codes "bob") (codes "hi")).1
        (pos 11 ∷ [])
        copies
unfolding find_group_by_id send_group_message
compose-group_Delivers_example =
    compose-group_Delivers server 0 0 team (pos 11 ∷ []) (pos 22) (negsuc 0) (pos 9) (pos 10)
      (codes "bob") (codes "hi") refl refl (refl, (refl, tt)) (omega arith)

compose-client_Reads_example :
    (own copy : Message) × ((compose client_message
        (pos 11)
        (pos 22)
        (pos 5)
        (pos 9)
        (codes "ann")
        (codes "hi")).0
      ≡ some own)
    × (own.mtype ≡ reader_type client_message (pos 22))
    × SameText own
        (compose client_message (pos 11) (pos 22) (pos 5) (pos 9) (codes "ann") (codes "hi")).1
    × (forward_to_client server
          (compose client_message (pos 11) (pos 22) (pos 5) (pos 9) (codes "ann") (codes "hi")).1
        ≡ some copy)
    × (copy.mtype ≡ pos 22 +ℤ pos 5000)
    × Reads
        (pos 10)
        (reader_type client_message (pos 11))
        (compose client_message (pos 11) (pos 22) (pos 5) (pos 9) (codes "ann") (codes "hi")).1
        copy
unfolding find_client_by_id
compose-client_Reads_example =
    compose-client_Reads server bob (pos 11) (pos 22) (pos 5) (pos 9) (pos 10) (codes "ann")
      (codes "hi") refl

-- The arguments of the client program.
send_run :
    invoke (codes "send-to" ∷ codes "group" ∷ codes "team" ∷ codes "autodelete=30" ∷ [])
    ≡ send_to group_message (codes "team") (pos 30)
unfolding invoke str_eq strtok atoi
send_run = refl

bare_run : invoke [] ≡ null_argument
unfolding invoke
bare_run = refl

-- Two messages of the type, and one of another between them.
abbrev note : ℤ → Message
note type = record {
  mtype = type;
  protocol = group_message;
  src = pos 11;
  dst = pos 0;
  auto_delete = negsuc 0;
  timestamp = pos 5;
  src_name = codes "ann";
  content = codes "hi";
}

abbrev queue : List Message
queue = note (pos 5000) ∷ note (pos 10011) ∷ note (pos 5000) ∷ []

message_rcv_loop-of_type_example :
    message_rcv_loop 4 (pos 5000) queue ≡ some (of_type (pos 5000) queue, others (pos 5000) queue)
message_rcv_loop-of_type_example = message_rcv_loop-of_type 4 (pos 5000) queue (omega arith)

of_type_run : of_type (pos 5000) queue ≡ note (pos 5000) ∷ note (pos 5000) ∷ []
of_type_run = refl
