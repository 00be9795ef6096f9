-- ===== src/Group/Program/Turns.antt =====
-- A round of the loop of main in assignment-2/q3/group_comm.c: a broadcast, a line of the
-- terminal, and the messages of the joined groups, as far as `select` says that they are there;
-- requestFileReqHandler of utils.c; cleanup.
use netprog_assignments.Base.{
  ℕ, ◌+◌, ◌/◌, ◌&&◌, leb, pos, ltb_ℤ, Bool, true, not, Option, none, some, List, [], ◌∷◌, ltb,
  if◌then◌else◌, ℤ, CString, length,
}
use netprog_assignments.Group.Command.{num_options}
use netprog_assignments.Group.Groups.{
  MulticastGroup, GroupList, changed, refused, fault, leave_multicast_group,
}
use netprog_assignments.Group.Parse.{Parsed, parsed, rejected, overflow, parse_command}
use netprog_assignments.Group.Poll.{Reply, read_vote}
use netprog_assignments.Group.Find.{FindReply, handle_find_group_req}
use netprog_assignments.Group.Files.{
  max_groups, max_file_allowed, FileListMulticast, Sent, is_among, handle_file_list,
}
use netprog_assignments.Group.Transfer.{FileReply, Transfer, send_chunks, file_chunk_len}
use netprog_assignments.Group.Program.{
  PollReq, System, Program, Report, could_not_parse, Fault, in_parser, Turn, goes_on, exits,
  crashes, run_command,
}

-- struct message, on the descriptor of a group.
pub data Incoming : Type 0 where
  simple_msg : CString → Incoming
  poll_req : PollReq → Incoming
  file_req : CString → Incoming
  file_list_multicast : FileListMulticast → Incoming
  other_msg : Incoming

pub data Broadcast : Type 0 where
  find_group_req : CString → Broadcast
  other_broadcast : Broadcast

-- What recvfrom gives on a descriptor that is ready.
pub data Received {ℓ} (A : Type ℓ) : Type ℓ where
  quiet : Received A  -- not ready
  failed : Received A
  message : A → Received A

-- What a round meets outside the program. Descriptors stand for the groups.
pub record Outside : Type 0 where
  pub system : System
  pub broadcast : Received Broadcast
  pub line : Option CString
  pub incoming : ℕ → Received Incoming
  pub vote_lines : ℕ → List CString
  pub socket : Bool  -- for the answer to a poll or to a request for a file
  pub connects : Bool
  pub leaves : ℕ → Bool  -- setsockopt, for leaving the groups in the clean-up
  pub content : CString → Option (List ℕ)  -- of a file, when it opens
  pub stack : FileReply  -- what the message of requestFileReqHandler holds at first
  pub sockets : CString → Bool  -- for the request for a file of a list
  pub child : CString → Bool

-- requestFileReqHandler: nothing is sent and 0 or -1 is returned, or the messages are sent.
pub data FileAnswered : Type 0 where
  not_held : FileAnswered
  not_opened : FileAnswered
  no_socket : FileAnswered
  not_connected : FileAnswered
  sending : Transfer → FileAnswered

-- One message for each chunk of 500 bytes and a last one.
unfoldable pub send_content : Outside → Option (List ℕ) → FileAnswered
unfolding send_chunks
send_content o none = not_opened
send_content o (some file) =
    if not o.socket
    then no_socket
    else if o.connects
    then sending (send_chunks (length file / file_chunk_len + 2) file o.stack)
    else not_connected

unfoldable pub request_file_req : Outside → CString → List CString → FileAnswered
unfolding send_content is_among
request_file_req o file_name my_files =
    if is_among file_name my_files then send_content o (o.content file_name) else not_held

-- What came of a message.
pub data Handled : Type 0 where
  shown : CString → Handled
  vote_sent : Reply → Handled
  vote_not_sent : Handled
  file_answered : FileAnswered → Handled
  list_passed : List Sent → Handled
  nothing : Handled

-- The groups are walked to the end, with the names of the files then; or the process ends, waits
-- for the terminal, or writes outside an array.
pub data Walked : Type 0 where
  walked : List Handled → List CString → Walked
  walk_exits : Walked
  walk_waits : Walked
  walk_crashes : Walked

abbrev pub also_handled : Handled → Walked → Walked
also_handled h (walked hs files) = walked (h ∷ hs) files
also_handled h walk_exits = walk_exits
also_handled h walk_waits = walk_waits
also_handled h walk_crashes = walk_crashes

-- The answer of a member to a poll; `option` counts from 0.
abbrev pub reply_of : PollReq → ℤ → Reply
reply_of p option = record { is_poll_reply = true; id = p.id; option = option }

abbrev pub vote : Outside → PollReq → Option ℤ → Walked → Walked
vote o p none rest = walk_waits
vote o p (some option) rest =
    also_handled (if o.socket then vote_sent (reply_of p option) else vote_not_sent) rest

abbrev pub answered : FileAnswered → Walked → Walked
answered (sending Transfer.overflow) rest = walk_crashes
answered (sending Transfer.out_of_fuel) rest = walk_waits
answered (sending (Transfer.messages ms)) rest =
    also_handled (file_answered (sending (Transfer.messages ms))) rest
answered not_held rest = also_handled (file_answered not_held) rest
answered not_opened rest = also_handled (file_answered not_opened) rest
answered no_socket rest = also_handled (file_answered no_socket) rest
answered not_connected rest = also_handled (file_answered not_connected) rest

-- The options of a poll are printed, and the names of a list are read, by the counts that stand
-- in the message: more than the arrays hold is read outside them.
-- The message of one group, then the rest of the walk with the names of the files.
unfoldable pub handle_message :
    Outside
    → List MulticastGroup
    → ℕ
    → List CString
    → Received Incoming
    → (List CString → Walked)
    → Walked
unfolding read_vote request_file_req handle_file_list
handle_message o groups fd files quiet next = next files
handle_message o groups fd files failed next = walk_exits
handle_message o groups fd files (message (simple_msg s)) next = also_handled (shown s) (next files)
handle_message o groups fd files (message (poll_req p)) next =
    if ltb_ℤ (pos num_options) p.option_cnt
    then walk_crashes
    else vote o p (read_vote p.option_cnt (o.vote_lines fd)) (next files)
handle_message o groups fd files (message (file_req name)) next =
    answered (request_file_req o name files) (next files)
handle_message o groups fd files (message (file_list_multicast l)) next =
    let node = handle_file_list o.sockets o.child l groups files in
    let passed = also_handled (list_passed node.sent) (next node.file_names) in
    if leb l.grp_count max_groups && leb (length l.file_list) max_file_allowed
    then passed
    else walk_crashes
handle_message o groups fd files (message other_msg) next = also_handled nothing (next files)

unfoldable pub handle_groups :
    Outside → List MulticastGroup → List MulticastGroup → List CString → Walked
unfolding handle_message
handle_groups o groups [] files = walked [] files
handle_groups o groups (curr ∷ rest) files =
    handle_message o groups curr.recv_fd files (o.incoming curr.recv_fd)
      (λ more. handle_groups o groups rest more)

-- cleanup: `none` is the read of `next` of a group that leaveMulticastGroup has freed. A group
-- that cannot be left stays.
unfoldable pub cleanup : (ℕ → Bool) → List MulticastGroup → GroupList → Option GroupList
unfolding leave_multicast_group
cleanup member [] list = some list
cleanup member (curr ∷ rest) list =
    let more = cleanup member rest list in
    elim (leave_multicast_group (member curr.recv_fd) curr list) [
      | changed after ↦ none
      | refused ↦ more
      | fault ↦ none
    ]

-- The program after the round, with what it answered, printed and handled; or its end.
pub data Round : Type 0 where
  next : Option FindReply → Option Report → List Handled → Program → Round
  ends : Round
  waits : Round
  stray : Option Fault → Round
  stray_end : Round  -- in the clean-up

-- The process ends, after its clean-up.
abbrev pub cleaned : Option GroupList → Round
cleaned none = stray_end
cleaned (some list) = ends

abbrev pub ended : Outside → Program → Round
ended o p = cleaned (cleanup o.leaves p.mc_list.head p.mc_list)

abbrev pub of_walked : Outside → Option FindReply → Option Report → Program → Walked → Round
of_walked o a r p (walked hs files) = next a r hs (record p { file_names = files })
of_walked o a r p walk_exits = ended o p
of_walked o a r p walk_waits = waits
of_walked o a r p walk_crashes = stray none

unfoldable pub round_groups : Outside → Option FindReply → Option Report → Program → Round
unfolding handle_groups
round_groups o a r p =
    if ltb 0 p.mc_list.count
    then of_walked o a r p (handle_groups o p.mc_list.head p.mc_list.head p.file_names)
    else next a r [] p

abbrev pub after_turn : Outside → Option FindReply → Program → Turn → Round
after_turn o a p (goes_on r q) = round_groups o a (some r) q
after_turn o a p exits = ended o p
after_turn o a p (crashes f) = stray (some f)

-- A line that is not parsed ends the round: the groups wait for the next one.
unfoldable pub round_line : Outside → Option FindReply → Program → Option Parsed → Round
unfolding round_groups run_command cleanup
round_line o a p none = round_groups o a none p
round_line o a p (some (parsed c)) = after_turn o a p (run_command o.system p c)
round_line o a p (some rejected) = next a (some could_not_parse) [] p
round_line o a p (some overflow) = stray (some in_parser)
round_line o a p (some Parsed.null_dereference) = stray (some in_parser)

abbrev pub parsed_line : Option CString → Option Parsed
parsed_line none = none
parsed_line (some cmd_buf) = some (parse_command cmd_buf)

unfoldable pub round : Outside → Program → Round
unfolding round_line handle_find_group_req
round o p = elim o.broadcast [
  | quiet ↦ round_line o none p (parsed_line o.line)
  | failed ↦ ended o p
  | message (find_group_req q) ↦
      round_line o (handle_find_group_req q p.mc_list.head) p (parsed_line o.line)
  | message other_broadcast ↦ round_line o none p (parsed_line o.line)
]
