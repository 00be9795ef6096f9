-- ===== src/Group/Files.antt =====
-- Files: requests, and the lists that nodes pass on; assignment-2/q3/utils.c and
-- assignment-2/q3/group_comm.c.
use netprog_assignments.Base.{
  ℕ, ◌+◌, Bool, true, false, not, List, [], ◌∷◌, ◌++◌, ◌==◌, ltb, leb, if◌then◌else◌, CString,
  str_eq, length, set, take, drop, map,
}
use netprog_assignments.Group.Groups.{MulticastGroup}

abbrev pub max_groups : ℕ
max_groups = 20

abbrev pub max_file_allowed : ℕ
max_file_allowed = 30

unfoldable pub is_among : CString → List CString → Bool
is_among name [] = false
is_among name (x ∷ xs) = if str_eq x name then true else is_among name xs

-- requestFileCmdHandler: its return value, and the names of the files afterwards.
pub data Requested : Type 0 where
  success : List CString → Requested  -- 0
  exists_already : Requested  -- -1
  receive_error : Requested  -- -2
  max_reached : Requested  -- -4

-- The parent's end: how the child exited decides.
abbrev pub request_result : Bool → CString → List CString → Requested
request_result true file_name my_files = success (my_files ++ file_name ∷ [])
request_result false file_name my_files = receive_error

-- `sockets` says whether the socket calls succeed, `child` whether the child process that
-- receives the file exits with success.
unfoldable pub request_file_cmd : Bool → Bool → CString → List CString → Requested
unfolding is_among
request_file_cmd sockets child file_name my_files =
    if is_among file_name my_files
    then exists_already
    else if length my_files == max_file_allowed
    then max_reached
    else if not sockets
    then receive_error
    else if child
    then success (my_files ++ file_name ∷ [])
    else receive_error

-- struct file_list_multicast; `groups` is the array, `grp_count` how much of it counts.
pub record FileListMulticast : Type 0 where
  pub file_list : List CString
  pub groups : List CString
  pub grp_count : ℕ

-- A message on the send descriptor of a group.
pub record Sent : Type 0 where
  pub send_fd : ℕ
  pub message : FileListMulticast

pub record Forwarded : Type 0 where
  pub parsed_msg : FileListMulticast
  pub sent : List Sent

abbrev pub also_sent : Sent → Forwarded → Forwarded
also_sent s f = record f { sent = s ∷ f.sent }

-- The inner loop of main over the groups, for one file: `list` is the copy of the message that
-- the tests read, `msg` the message that is changed and sent.
-- A list of more than 20 names, whose test reads past the array, does not come here: `handle_message`
-- makes it an outcome of its own.
unfoldable pub forward : FileListMulticast → FileListMulticast → List MulticastGroup → Forwarded
unfolding is_among
forward list msg [] = record { parsed_msg = msg; sent = [] }
forward list msg (mc_group ∷ rest) =
    let next = record msg {
      groups = set msg.groups list.grp_count mc_group.name;
      grp_count = msg.grp_count + 1;
    } in
    let passed_over = forward list msg rest in
    let passed_on = forward list next rest in
    if is_among mc_group.name (take list.grp_count list.groups)
    then passed_over
    else if leb max_groups list.grp_count
    then record { parsed_msg = msg; sent = [] }
    else also_sent (record { send_fd = mc_group.send_fd; message = next }) passed_on

-- The loop over the files of the list: each file that is missing is requested, with the answers
-- of the socket calls and of the child given per file; then the message is passed on.
pub record Node : Type 0 where
  pub file_names : List CString
  pub msg : FileListMulticast
  pub sent : List Sent

abbrev pub files_after : List CString → Requested → List CString
files_after files (success more) = more
files_after files exists_already = files
files_after files receive_error = files
files_after files max_reached = files

unfoldable pub get_file : Bool → Bool → CString → List CString → List CString
unfolding request_file_cmd
get_file sockets child file files =
    if is_among file files
    then files
    else files_after files (request_file_cmd sockets child file files)

unfoldable pub handle_files :
    (CString → Bool)
    → (CString → Bool)
    → FileListMulticast
    → List MulticastGroup
    → List CString
    → Node
    → Node
unfolding get_file forward
handle_files sockets child list groups [] node = node
handle_files sockets child list groups (file ∷ files) node =
    let f = forward list node.msg groups in
    handle_files sockets child list groups files (record {
      file_names = get_file (sockets file) (child file) file node.file_names;
      msg = f.parsed_msg;
      sent = node.sent ++ f.sent;
    })

-- main, FILE_LIST_MULTICAST.
unfoldable pub handle_file_list :
    (CString → Bool)
    → (CString → Bool)
    → FileListMulticast
    → List MulticastGroup
    → List CString
    → Node
unfolding handle_files
handle_file_list sockets child list groups file_names =
    handle_files sockets child list groups list.file_list
      (record { file_names = file_names; msg = list; sent = [] })

pub data Alarm : Type 0 where
  idle : Alarm
  multicast : List Sent → Alarm
  exits : Alarm  -- "max groups exceeded"

abbrev pub name_of : MulticastGroup → CString
name_of g = g.name

abbrev pub fd_of : MulticastGroup → ℕ
fd_of g = g.send_fd

-- sigAlrmHandler. `stack` is what the array holds before it is written.
unfoldable pub sig_alrm_handler : List CString → List CString → List MulticastGroup → Alarm
sig_alrm_handler stack file_names groups =
    let msg : FileListMulticast = record {
      file_list = file_names;
      groups = map name_of groups ++ drop (length groups) stack;
      grp_count = length groups;
    } in
    if length file_names == 0
    then idle
    else if ltb max_groups (length groups)
    then exits
    else multicast (map (λ g. record { send_fd = fd_of g; message = msg }) groups)
