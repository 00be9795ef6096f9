-- ===== src/Group/Program.antt =====
-- main of assignment-2/q3/group_comm.c: a round of the loop around select, with the commands of
-- the terminal and the messages of the groups, and the clean-up at the end.
mod Tests
pub mod Turns
pub mod Rounds
pub mod Kept
pub mod Sending
pub mod Listed
pub mod Voting
use netprog_assignments.Base.{
  ℕ, zero, suc, ◌-◌, Bool, true, false, not, Option, none, some, List, [], ◌∷◌, ◌++◌, ltb,
  if◌then◌else◌, ℤ, CString, length,
}
use netprog_assignments.Group.Command.{Command}
use netprog_assignments.Group.Groups.{
  MulticastGroup, GroupList, Sockets, find_group_by_name, Changed, changed, refused, fault, Created,
  joined, already_joined, not_created, not_joined, crashed, create_group_command,
  leave_multicast_group,
}
use netprog_assignments.Group.Find.{
  FindReply, Found, found, timed_out, null_dereference, FindCommand, received,
  handle_find_group_cmd,
}
use netprog_assignments.Group.Files.{Requested, success, request_file_cmd, files_after}
use netprog_assignments.Group.Parse.{Parsed, parsed, rejected, overflow, parse_command}

-- struct poll_req
pub record PollReq : Type 0 where
  pub id : ℤ
  pub option_cnt : ℤ
  pub que : CString
  pub options : List CString
  pub reply_port : ℤ

-- What the system calls of one command give.
pub record System : Type 0 where
  pub sockets : Sockets  -- of a new group
  pub member : Bool  -- setsockopt, for joining and leaving
  pub reply_socket : Bool  -- socket, bind and getsockname, for answers
  pub reply_port : ℤ
  pub sends : Bool
  pub replies : List FindReply
  pub child : Bool  -- whether the child that receives a file succeeds
  pub pid : ℤ

pub record Program : Type 0 where
  pub mc_list : GroupList
  pub file_names : List CString

-- What is printed, or sent.
pub data Report : Type 0 where
  could_not_parse : Report
  group_joined : MulticastGroup → Report  -- also by create-group
  group_known : Report
  group_not_created : Report
  group_not_joined : Report
  no_group_found : Report
  unknown_group : Report  -- no group of the name is joined
  group_left : Report
  group_not_left : Report
  listed_groups : List MulticastGroup → Report
  group_found : FindReply → Report
  message_sent : MulticastGroup → CString → Report
  message_not_sent : Report
  poll_sent : MulticastGroup → PollReq → Report
  poll_not_sent : Report
  poll_not_received : Report
  listed_files : List CString → Report
  file_requested : Requested → Report
  commands : Report

-- Where an access outside the memory happens.
pub data Fault : Type 0 where
  in_parser : Fault
  in_list : Fault
  in_search : Fault

pub data Turn : Type 0 where
  goes_on : Report → Program → Turn
  exits : Turn
  crashes : Fault → Turn

abbrev pub of_created : Program → Created → Turn
of_created p (joined grp list) = goes_on (group_joined grp) (record p { mc_list = list })
of_created p already_joined = goes_on group_known p
of_created p not_created = goes_on group_not_created p
of_created p not_joined = goes_on group_not_joined p
of_created p crashed = crashes in_list

-- join-group, after the search.
abbrev pub join_found : System → Program → FindCommand → Turn
join_found s p (received (found m)) =
    of_created p (create_group_command s.member s.sockets m.grp_name m.ip m.port p.mc_list)
join_found s p (received timed_out) = goes_on no_group_found p
join_found s p (received null_dereference) = crashes in_search
join_found s p FindCommand.joined = goes_on no_group_found p
join_found s p FindCommand.not_sent = goes_on no_group_found p
join_found s p FindCommand.no_socket = goes_on no_group_found p

-- find-group, after the search.
abbrev pub show_found : Program → FindCommand → Turn
show_found p (received (found m)) = goes_on (group_found m) p
show_found p (received timed_out) = goes_on no_group_found p
show_found p (received null_dereference) = crashes in_search
show_found p FindCommand.joined = goes_on no_group_found p
show_found p FindCommand.not_sent = goes_on no_group_found p
show_found p FindCommand.no_socket = goes_on no_group_found p

abbrev pub of_left : Program → Changed → Turn
of_left p (changed list) = goes_on group_left (record p { mc_list = list })
of_left p refused = goes_on group_not_left p
of_left p fault = crashes in_list

abbrev pub leave_found : System → Program → Option MulticastGroup → Turn
leave_found s p none = goes_on unknown_group p
leave_found s p (some grp) = of_left p (leave_multicast_group s.member grp p.mc_list)

-- listGroups goes on for `count` nodes; `none` is a read through the null at the end.
unfoldable pub list_groups : ℕ → List MulticastGroup → Option (List MulticastGroup)
list_groups zero curr = some []
list_groups (suc count) [] = none
list_groups (suc count) (grp ∷ rest) = elim (list_groups count rest) [
  | none ↦ none
  | some more ↦ some (grp ∷ more)
]

abbrev pub of_listed : Program → Option (List MulticastGroup) → Turn
of_listed p none = crashes in_list
of_listed p (some groups) = goes_on (listed_groups groups) p

abbrev pub send_simple_message : System → CString → Option MulticastGroup → Report
send_simple_message s msg none = unknown_group
send_simple_message s msg (some grp) = if s.sends then message_sent grp msg else message_not_sent

-- handlePollCommand up to the fork; the child counts the replies.
unfoldable pub handle_poll_command : System → MulticastGroup → PollReq → Report
handle_poll_command s grp poll_req =
    if not s.reply_socket
    then poll_not_received
    else if s.sends
    then poll_sent grp (record poll_req { reply_port = s.reply_port })
    else poll_not_sent

abbrev pub init_poll_in : System → CString → ℤ → List CString → Option MulticastGroup → Report
init_poll_in s que option_cnt options none = unknown_group
init_poll_in s que option_cnt options (some grp) = handle_poll_command s grp (record {
  id = s.pid;
  option_cnt = option_cnt;
  que = que;
  options = options;
  reply_port = s.reply_port;
})

abbrev pub of_requested : Program → Requested → Turn
of_requested p r = goes_on (file_requested r) (record p { file_names = files_after p.file_names r })

-- The switch of main.
unfoldable pub run_command : System → Program → Command → Turn
unfolding create_group_command leave_multicast_group find_group_by_name list_groups
    handle_find_group_cmd handle_poll_command request_file_cmd
run_command s p (Command.create_group grp_name ip port) =
    of_created p (create_group_command s.member s.sockets grp_name ip port p.mc_list)
run_command s p (Command.join_group grp_name) =
    join_found s p (handle_find_group_cmd s.reply_socket s.sends grp_name p.mc_list.head s.replies)
run_command s p (Command.leave_group grp_name) =
    leave_found s p (find_group_by_name grp_name p.mc_list.head)
run_command s p (Command.find_group query) =
    show_found p (handle_find_group_cmd s.reply_socket s.sends query p.mc_list.head s.replies)
run_command s p (Command.send_message grp_name msg) =
    goes_on (send_simple_message s msg (find_group_by_name grp_name p.mc_list.head)) p
run_command s p (Command.init_poll grp_name que option_cnt options) =
    goes_on (init_poll_in s que option_cnt options (find_group_by_name grp_name p.mc_list.head)) p
run_command s p Command.list_groups = of_listed p (list_groups p.mc_list.count p.mc_list.head)
run_command s p Command.list_files = goes_on (listed_files p.file_names) p
run_command s p (Command.request_file file_name) =
    of_requested p (request_file_cmd s.reply_socket s.child file_name p.file_names)
run_command s p Command.help = goes_on commands p
run_command s p Command.exit = exits

abbrev pub run_parsed : System → Program → Parsed → Turn
run_parsed s p (parsed c) = run_command s p c
run_parsed s p rejected = goes_on could_not_parse p
run_parsed s p overflow = crashes in_parser
run_parsed s p Parsed.null_dereference = crashes in_parser

-- A line from the terminal.
unfoldable pub run_line : System → Program → CString → Turn
unfolding run_command parse_command
run_line s p cmd_buf = run_parsed s p (parse_command cmd_buf)
