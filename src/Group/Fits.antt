-- ===== src/Group/Fits.antt =====
-- What parseCommand returns fits the buffers of the command.
use netprog_assignments.Base.{
  ℕ, zero, suc, ◌+◌, ◌≤◌, ◌<◌, ◌≡◌, refl, Option, none, some, List, [], ◌∷◌, ltb, leb, pos_part,
  length, CString, codes, str_eq, arith, All, if_either, Bool-cases, inl, inr, ltb→lt,
}
use netprog_assignments.Group.Strtok.{strtok, atoi}
use netprog_assignments.Group.Command.{
  Command, join_group, leave_group, find_group, group_name_len, ip_len, message_len, num_options,
  command_len, file_name_len, Fits, Within,
}
use netprog_assignments.Group.Parse.{
  Parsed, parsed, rejected, overflow, null_dereference, required, copied, parse_create_group,
  parse_name, parse_send_message, read_options, parse_init_poll, parse_request_file, parse_named,
  named, drop_first, drop_newline, parse_line, parse_command,
}

abbrev pub ParsedFits : Parsed → Type 0
ParsedFits (parsed c) = Fits c
ParsedFits rejected = Unit
ParsedFits overflow = Unit
ParsedFits null_dereference = Unit

required-Fits :
    (k : CString → CString → Parsed) (t : Option CString × CString)
    → ((w rest : CString) → ParsedFits (k w rest))
    → ParsedFits (required k t)
required-Fits k (none, rest) h = tt
required-Fits k (some w, rest) h = h w rest

copied-Fits :
    (cap : ℕ) (s : CString) (r : Parsed)
    → (Within cap s → ParsedFits r)
    → ParsedFits (copied cap s r)
copied-Fits cap s r h = elim (Bool-cases (ltb (length s) cap)) [
  | inl e ↦ rw e (h (ltb→lt (length s) cap e))
  | inr e ↦ rw e tt
]

create_group-Fits : (args : CString) → ParsedFits (parse_create_group args)
unfolding parse_create_group
create_group-Fits args = required-Fits _ (strtok b' ' args) (λ grp_name a.
    required-Fits _ (strtok b' ' a) (λ ip b. required-Fits _ (strtok b' ' b) (λ port c.
      copied-Fits group_name_len grp_name _ (λ h. copied-Fits ip_len ip _ (λ k. (h, k))))))

name-Fits :
    (command : CString → Command) (args : CString)
    → ((w : CString) → Within group_name_len w → Fits (command w))
    → ParsedFits (parse_name command args)
unfolding parse_name
name-Fits command args f =
    required-Fits _ (strtok b' ' args) (λ w rest. copied-Fits group_name_len w _ (f w))

send_message-Fits : (args : CString) → ParsedFits (parse_send_message args)
unfolding parse_send_message
send_message-Fits args = required-Fits _ (strtok b' ' args) (λ grp_name a.
    required-Fits _ (strtok b'"' a) (λ msg b.
      copied-Fits group_name_len grp_name _ (λ h. copied-Fits message_len msg _ (λ k. (h, k)))))

read_options-Fits :
    (n i : ℕ) (args : CString) (k : List CString → Parsed)
    → i ≤ num_options
    → ((os : List CString)
        → All (Within message_len) os
        → i + length os ≤ num_options
        → length os ≡ n
        → ParsedFits (k os))
    → ParsedFits (read_options n i args k)
unfolding read_options
read_options-Fits zero i args k le h = h [] tt (omega arith) refl
read_options-Fits (suc n) i args k le h = required-Fits _ (strtok b'"' args) (λ opt a.
    elim (Bool-cases (ltb i num_options)) [
      | inl e ↦
          let lt : i < num_options = ltb→lt i num_options e in
          rw e (
            copied-Fits message_len opt _ (λ w.
              read_options-Fits n (suc i) (strtok b'"' a).1 (λ os. k (opt ∷ os)) lt
                (λ os all m l. h (opt ∷ os) (w, all) (omega arith) (omega arith))))
      | inr e ↦ rw e tt
    ])

init_poll-Fits : (args : CString) → ParsedFits (parse_init_poll args)
unfolding parse_init_poll
init_poll-Fits args = required-Fits _ (strtok b' ' args) (λ grp_name a.
    required-Fits _ (strtok b'"' a) (λ que b. required-Fits _ (strtok b' ' b) (λ option_cnt c.
      copied-Fits group_name_len grp_name _ (λ h. copied-Fits message_len que _ (λ k.
        read_options-Fits (pos_part (atoi option_cnt)) 0 c _ (omega arith)
          (λ os all m l. (h, k, all, omega arith, l)))))))

request_file-Fits : (args : CString) → ParsedFits (parse_request_file args)
unfolding parse_request_file
request_file-Fits args = required-Fits _ (strtok b' ' args) (λ file_name a.
    if_either ParsedFits (ltb file_name_len (length file_name)) tt
      (copied-Fits file_name_len file_name _ (λ h. h)))

parse_named-Fits : (cmd_name args : CString) → ParsedFits (parse_named cmd_name args)
unfolding parse_named
parse_named-Fits w args =
    let P = ParsedFits in
    if_either P (str_eq w (codes "create-group")) (create_group-Fits args) (
      if_either P (str_eq w (codes "join-group")) (name-Fits join_group args (λ n h. h)) (
        if_either P (str_eq w (codes "leave-group")) (name-Fits leave_group args (λ n h. h)) (
          if_either P (str_eq w (codes "find-group")) (name-Fits find_group args (λ n h. h)) (
            if_either P (str_eq w (codes "send-message")) (send_message-Fits args) (
              if_either P (str_eq w (codes "init-poll")) (init_poll-Fits args) (
                if_either P (str_eq w (codes "list-groups")) tt (
                  if_either P (str_eq w (codes "help")) tt (
                    if_either P (str_eq w (codes "exit")) tt (
                      if_either P (str_eq w (codes "list-files")) tt (
                        if_either P (str_eq w (codes "request-file")) (request_file-Fits args)
                          tt))))))))))

named-Fits : (t : Option CString × CString) → ParsedFits (named t)
named-Fits (none, args) = tt
named-Fits (some w, args) = parse_named-Fits w args

parse_line-Fits : (s : CString) → ParsedFits (parse_line s)
unfolding parse_line
parse_line-Fits [] = tt
parse_line-Fits (c ∷ s) =
    if_either ParsedFits (leb command_len (length (drop_first (c ∷ s)))) tt
      (named-Fits (strtok b' ' (drop_first (c ∷ s))))

-- Whatever the line, each text of the command that comes back fits its array with its null, and
-- a poll comes back with as many options as it counts, at most five.
pub parse_command-Fits : (raw : CString) → ParsedFits (parse_command raw)
unfolding parse_command
parse_command-Fits [] = tt
parse_command-Fits (c ∷ s) = parse_line-Fits (drop_newline (c ∷ s))
