-- ===== src/Group/Command.antt =====
-- The commands of assignment-2/q3/utils.h, and the sizes of their buffers.
use netprog_assignments.Base.{ℕ, ◌≤◌, ◌<◌, ◌≡◌, List, length, CString, ℤ, All, pos_part}

pub data Command : Type 0 where
  create_group : (grp_name ip : CString) (port : ℤ) → Command
  join_group : (grp_name : CString) → Command
  leave_group : (grp_name : CString) → Command
  find_group : (query : CString) → Command
  send_message : (grp_name msg : CString) → Command
  init_poll : (grp_name que : CString) (option_cnt : ℤ) (options : List CString) → Command
  list_groups : Command
  list_files : Command
  request_file : (file_name : CString) → Command
  help : Command
  exit : Command

abbrev pub group_name_len : ℕ
group_name_len = 20

abbrev pub ip_len : ℕ
ip_len = 20

abbrev pub message_len : ℕ
message_len = 100

abbrev pub num_options : ℕ
num_options = 5

abbrev pub command_len : ℕ
command_len = 1024

abbrev pub file_name_len : ℕ
file_name_len = 20

-- The text and its terminating null fit an array of `cap` bytes.
abbrev pub Within : ℕ → CString → Type 0
Within cap s = length s < cap

abbrev pub Fits : Command → Type 0
Fits (create_group grp_name ip port) = Within group_name_len grp_name × Within ip_len ip
Fits (join_group grp_name) = Within group_name_len grp_name
Fits (leave_group grp_name) = Within group_name_len grp_name
Fits (find_group query) = Within group_name_len query
Fits (send_message grp_name msg) = Within group_name_len grp_name × Within message_len msg
Fits (init_poll grp_name que option_cnt options) =
    Within group_name_len grp_name
    × Within message_len que
    × All (Within message_len) options
    × (length options ≤ num_options)
    × (length options ≡ pos_part option_cnt)
Fits list_groups = Unit
Fits list_files = Unit
Fits (request_file file_name) = Within file_name_len file_name
Fits help = Unit
Fits exit = Unit
