-- ===== src/Group/Print.antt =====
-- printCommand of assignment-2/q3/utils.c. `decimal` is what printf writes for `%d`.
use netprog_assignments.Base.{◌≡◌, List, [], ◌∷◌, ◌++◌, CString, codes, ℤ, All}
use netprog_assignments.Group.Strtok.{IsWord, atoi}
use netprog_assignments.Group.Command.{
  Command, create_group, join_group, leave_group, find_group, send_message, init_poll, list_groups,
  list_files, request_file, help, exit,
}

abbrev pub print_options : List CString → CString
print_options [] = []
print_options (o ∷ os) = b' ' ∷ b'"' ∷ (o ++ b'"' ∷ print_options os)

-- The line without its newline.
unfoldable pub print_body : (ℤ → CString) → Command → CString
print_body decimal (create_group grp_name ip port) =
    codes "create-group" ++ b' ' ∷ (grp_name ++ b' ' ∷ (ip ++ b' ' ∷ decimal port))
print_body decimal (join_group grp_name) = codes "join-group" ++ b' ' ∷ grp_name
print_body decimal (leave_group grp_name) = codes "leave-group" ++ b' ' ∷ grp_name
print_body decimal (find_group query) = codes "find-groups" ++ b' ' ∷ query
print_body decimal (send_message grp_name msg) =
    codes "sned-message" ++ b' ' ∷ (grp_name ++ b' ' ∷ msg)
print_body decimal (init_poll grp_name que option_cnt options) =
    codes "init-poll"
    ++ b' '
      ∷ (grp_name
          ++ b' ' ∷ b'"' ∷ (que ++ b'"' ∷ b' ' ∷ (decimal option_cnt ++ print_options options)))
print_body decimal list_groups = codes "list-groups"
print_body decimal list_files = codes "list-files"
print_body decimal (request_file file_name) = codes "request-file" ++ b' ' ∷ file_name
print_body decimal help = codes "help"
print_body decimal exit = codes "exit"

unfoldable pub print_command : (ℤ → CString) → Command → CString
unfolding print_body
print_command decimal c = print_body decimal c ++ codes "\n"

-- What the printing must be for the line to be read: names without blanks, texts without
-- quotes, numbers that `atoi` reads back.
abbrev pub IsReadable : (ℤ → CString) → Command → Type 0
IsReadable decimal (create_group grp_name ip port) =
    IsWord b' ' grp_name
    × IsWord b' ' ip
    × IsWord b' ' (decimal port)
    × (atoi (decimal port) ≡ port)
IsReadable decimal (join_group grp_name) = IsWord b' ' grp_name
IsReadable decimal (leave_group grp_name) = IsWord b' ' grp_name
IsReadable decimal (find_group query) = Unit
IsReadable decimal (send_message grp_name msg) = Unit
IsReadable decimal (init_poll grp_name que option_cnt options) =
    IsWord b' ' grp_name
    × IsWord b'"' que
    × All (IsWord b'"') options
    × IsWord b' ' (decimal option_cnt)
    × (atoi (decimal option_cnt) ≡ option_cnt)
IsReadable decimal list_groups = Unit
IsReadable decimal list_files = Unit
IsReadable decimal (request_file file_name) = IsWord b' ' file_name
IsReadable decimal help = Unit
IsReadable decimal exit = Unit
