-- ===== src/Group/Roundtrip.antt =====
-- parseCommand reads what printCommand writes.
use netprog_assignments.Base.{
  ℕ, ◌<◌, ◌≡◌, ◌≢◌, ◌∙◌, refl, ap, Bool, true, false, [], ◌∷◌, ◌++◌, ◌==◌, if◌then◌else◌, ℤ, length,
  CString, codes, str_eq, arith,
}
use netprog_assignments.Group.Strtok.{strtok, strtok_word, strtok_last, is_free, is_free-IsWord}
use netprog_assignments.Group.Command.{
  Command, create_group, join_group, leave_group, find_group, send_message, init_poll, list_groups,
  list_files, request_file, help, exit, command_len, Fits,
}
use netprog_assignments.Group.Parse.{
  Parsed, parsed, rejected, parse_named, named, drop_newline, parse_line, parse_command,
}
use netprog_assignments.Group.Print.{print_options, print_body, print_command, IsReadable}
use netprog_assignments.Group.Arguments.{
  create_group_args, name_args, request_file_args, init_poll_args,
}

drop_newline_append : (s : CString) → drop_newline (s ++ 10 ∷ []) ≡ s
drop_newline_append [] = refl
drop_newline_append (c ∷ []) = refl
drop_newline_append (c ∷ d ∷ s) = ap (λ r. c ∷ r) (drop_newline_append (d ∷ s))

-- A line with its newline that does not begin with one.
parse_command_line :
    (c : ℕ) (s : CString)
    → c ≢ 10
    → length (c ∷ s) < command_len
    → parse_command ((c ∷ s) ++ 10 ∷ []) ≡ named (strtok b' ' (c ∷ s))
unfolding parse_command parse_line
parse_command_line c s h l = rw (drop_newline_append (c ∷ s)) (ground arith)

-- A name of a command: no blank, and no newline in front.
abbrev is_name : CString → Bool
is_name [] = false
is_name (c ∷ s) = if c == 10 then false else is_free b' ' (c ∷ s)

-- The line of a name and its arguments.
parse_with :
    (name args : CString)
    → is_name name ≡ true
    → length (name ++ b' ' ∷ args) < command_len
    → parse_command ((name ++ b' ' ∷ args) ++ 10 ∷ []) ≡ parse_named name args
parse_with [] args h l = ground arith
parse_with (c ∷ s) args h l =
    let first : c ≢ 10 = ground arith in
    let free : is_free b' ' (c ∷ s) ≡ true = ground arith in
    parse_command_line c (s ++ b' ' ∷ args) first l
    ∙ ap named (strtok_word b' ' (c ∷ s) args (is_free-IsWord b' ' c s free))

-- The line of a name alone.
parse_bare :
    (name : CString)
    → is_name name ≡ true
    → length name < command_len
    → parse_command (name ++ 10 ∷ []) ≡ parse_named name []
parse_bare [] h l = ground arith
parse_bare (c ∷ s) h l =
    let first : c ≢ 10 = ground arith in
    let free : is_free b' ' (c ∷ s) ≡ true = ground arith in
    parse_command_line c s first l
    ∙ ap named (strtok_last b' ' (c ∷ s) (is_free-IsWord b' ' c s free))

-- What parseCommand answers to printCommand's line for the command. Its names for
-- find-group and send-message are not those that it reads.
abbrev pub reread : Command → Parsed
reread (find_group query) = rejected
reread (send_message grp_name msg) = rejected
reread (create_group grp_name ip port) = parsed (create_group grp_name ip port)
reread (join_group grp_name) = parsed (join_group grp_name)
reread (leave_group grp_name) = parsed (leave_group grp_name)
reread (init_poll grp_name que option_cnt options) =
    parsed (init_poll grp_name que option_cnt options)
reread list_groups = parsed list_groups
reread list_files = parsed list_files
reread (request_file file_name) = parsed (request_file file_name)
reread help = parsed help
reread exit = parsed exit

-- A command that fits its buffers and is printed readably in less than 1024 bytes is read back
-- as it was, but for find-group and send-message, which are rejected.
pub parse-print :
    (decimal : ℤ → CString) (c : Command)
    → Fits c
    → IsReadable decimal c
    → length (print_body decimal c) < command_len
    → parse_command (print_command decimal c) ≡ reread c
unfolding print_command parse_named str_eq
parse-print decimal (create_group grp_name ip port) (k, l) (g, i, p, e) h =
    parse_with (codes "create-group") (grp_name ++ b' ' ∷ (ip ++ b' ' ∷ decimal port)) refl h
    ∙ create_group_args grp_name ip (decimal port) port g i p e k l
parse-print decimal (join_group grp_name) k g h =
    parse_with (codes "join-group") grp_name refl h ∙ name_args join_group grp_name g k
parse-print decimal (leave_group grp_name) k g h =
    parse_with (codes "leave-group") grp_name refl h ∙ name_args leave_group grp_name g k
parse-print decimal (find_group query) k g h = parse_with (codes "find-groups") query refl h
parse-print decimal (send_message grp_name msg) k g h =
    parse_with (codes "sned-message") (grp_name ++ b' ' ∷ msg) refl h
parse-print decimal (init_poll grp_name que option_cnt options) k (g, q, o, c, e) h =
    parse_with (codes "init-poll")
      (grp_name
        ++ b' ' ∷ b'"' ∷ (que ++ b'"' ∷ b' ' ∷ (decimal option_cnt ++ print_options options)))
      refl h
    ∙ init_poll_args grp_name que (decimal option_cnt) option_cnt options g q o c e k
parse-print decimal list_groups k g h = parse_bare (codes "list-groups") refl h
parse-print decimal list_files k g h = parse_bare (codes "list-files") refl h
parse-print decimal (request_file file_name) k g h =
    parse_with (codes "request-file") file_name refl h ∙ request_file_args file_name g k
parse-print decimal help k g h = parse_bare (codes "help") refl h
parse-print decimal exit k g h = parse_bare (codes "exit") refl h
