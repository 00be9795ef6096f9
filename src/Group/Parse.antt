-- ===== src/Group/Parse.antt =====
-- parseCommand of assignment-2/q3/utils.c. A null token where one is required rejects the line.
use netprog_assignments.Base.{
  ℕ, zero, suc, Option, none, some, List, [], ◌∷◌, ◌==◌, ltb, leb, if◌then◌else◌, pos_part, length,
  CString, codes, str_eq,
}
use netprog_assignments.Group.Strtok.{strtok, atoi}
use netprog_assignments.Group.Command.{
  Command, create_group, join_group, leave_group, find_group, send_message, init_poll, list_groups,
  list_files, request_file, help, exit, group_name_len, ip_len, message_len, num_options,
  command_len, file_name_len,
}

pub data Parsed : Type 0 where
  parsed : Command → Parsed
  rejected : Parsed  -- returns NULL
  overflow : Parsed  -- an access outside an array
  null_dereference : Parsed

-- A null pointer where a token is required.
abbrev pub required : (CString → CString → Parsed) → Option CString × CString → Parsed
required k (none, rest) = rejected
required k (some w, rest) = k w rest

-- `strcpy` into an array of `cap` bytes, then the rest.
abbrev pub copied : ℕ → CString → Parsed → Parsed
copied cap s r = if ltb (length s) cap then r else overflow

unfoldable pub parse_create_group : CString → Parsed
parse_create_group args =
    required
      (λ grp_name a.
        required
          (λ ip b.
            required
              (λ port c.
                copied group_name_len grp_name
                  (copied ip_len ip (parsed (create_group grp_name ip (atoi port)))))
              (strtok b' ' b))
          (strtok b' ' a))
      (strtok b' ' args)

-- The three commands with the name of a group only.
unfoldable pub parse_name : (CString → Command) → CString → Parsed
parse_name command args =
    required (λ w rest. copied group_name_len w (parsed (command w))) (strtok b' ' args)

unfoldable pub parse_send_message : CString → Parsed
parse_send_message args =
    required
      (λ grp_name a.
        required
          (λ msg b.
            copied group_name_len grp_name
              (copied message_len msg (parsed (send_message grp_name msg))))
          (strtok b'"' a))
      (strtok b' ' args)

-- The options from the i-th on; `strtok` is called a second time for what stands between two.
unfoldable pub read_options : ℕ → ℕ → CString → (List CString → Parsed) → Parsed
read_options zero i args k = k []
read_options (suc n) i args k =
    required
      (λ opt a.
        let rest = read_options n (suc i) (strtok b'"' a).1 (λ os. k (opt ∷ os)) in
        if ltb i num_options then copied message_len opt rest else overflow)
      (strtok b'"' args)

unfoldable pub parse_init_poll : CString → Parsed
unfolding read_options
parse_init_poll args =
    required
      (λ grp_name a.
        required
          (λ que b.
            required
              (λ option_cnt c. copied group_name_len grp_name (
                copied message_len que (
                  read_options (pos_part (atoi option_cnt)) 0 c
                    (λ options. parsed (init_poll grp_name que (atoi option_cnt) options)))))
              (strtok b' ' b))
          (strtok b'"' a))
      (strtok b' ' args)

-- The length is compared by `>`, so that a name of FILE_NAME_LEN bytes comes through.
unfoldable pub parse_request_file : CString → Parsed
parse_request_file args =
    required
      (λ file_name a.
        if ltb file_name_len (length file_name)
        then rejected
        else copied file_name_len file_name (parsed (request_file file_name)))
      (strtok b' ' args)

unfoldable pub parse_named : CString → CString → Parsed
unfolding parse_create_group parse_name parse_send_message parse_init_poll parse_request_file
parse_named cmd_name args =
    if str_eq cmd_name (codes "create-group")
    then parse_create_group args
    else if str_eq cmd_name (codes "join-group")
    then parse_name join_group args
    else if str_eq cmd_name (codes "leave-group")
    then parse_name leave_group args
    else if str_eq cmd_name (codes "find-group")
    then parse_name find_group args
    else if str_eq cmd_name (codes "send-message")
    then parse_send_message args
    else if str_eq cmd_name (codes "init-poll")
    then parse_init_poll args
    else if str_eq cmd_name (codes "list-groups")
    then parsed list_groups
    else if str_eq cmd_name (codes "help")
    then parsed help
    else if str_eq cmd_name (codes "exit")
    then parsed exit
    else if str_eq cmd_name (codes "list-files")
    then parsed list_files
    else if str_eq cmd_name (codes "request-file")
    then parse_request_file args
    else rejected

-- `strcmp` reads through the name, null or not.
abbrev pub named : Option CString × CString → Parsed
named (none, args) = null_dereference
named (some cmd_name, args) = parse_named cmd_name args

abbrev pub drop_newline : CString → CString
drop_newline [] = []
drop_newline (c ∷ []) = if c == 10 then [] else c ∷ []
drop_newline (c ∷ d ∷ s) = c ∷ drop_newline (d ∷ s)

abbrev pub drop_first : CString → CString
drop_first [] = []
drop_first (c ∷ s) = if c == 10 then s else c ∷ s

-- An array that the copy fills is not terminated.
unfoldable pub parse_line : CString → Parsed
unfolding strtok parse_named
parse_line [] = rejected
parse_line (c ∷ s) =
    if leb command_len (length (drop_first (c ∷ s)))
    then overflow
    else named (strtok b' ' (drop_first (c ∷ s)))

unfoldable pub parse_command : CString → Parsed
unfolding parse_line
parse_command [] = overflow
parse_command (c ∷ s) = parse_line (drop_newline (c ∷ s))
