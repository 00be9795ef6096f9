-- ===== src/Mail/Program.antt =====
-- assignment-1/q3/client.c: what main does with its arguments. `argv[1]` and, for the groups,
-- `argv[2]` are read without a test that they are there.
use netprog_assignments.Base.{
  Option, none, some, List, [], ◌∷◌, ◌||◌, if◌then◌else◌, ℤ, negsuc, CString, codes, str_eq,
}
use netprog_assignments.Group.Strtok.{strtok, atoi}
use netprog_assignments.Mail.Queries.{QueryType, query_client, query_group}
use netprog_assignments.Mail.Messages.{Protocol, client_message, group_message}

pub data Invocation : Type 0 where
  join_group : CString → Invocation
  create_group : CString → Invocation
  read : Protocol → CString → Invocation
  send_to : Protocol → CString → ℤ → Invocation
  list : QueryType → Invocation
  usage : Invocation
  nothing : Invocation
  null_argument : Invocation  -- strcmp, strcpy or atoi of a null pointer

-- `none` when there is no second token: atoi of a null pointer.
unfoldable pub get_autodelete_val : CString → Option ℤ
get_autodelete_val pair = elim ((strtok b'=' (strtok b'=' pair).1).0) [
  | none ↦ none
  | some val ↦ some (atoi val)
]

abbrev is_group : CString → Protocol
is_group s = if str_eq s (codes "group") then group_message else client_message

abbrev named_group : (CString → Invocation) → List CString → Invocation
named_group f [] = null_argument
named_group f (name ∷ rest) = f name

abbrev reading : List CString → Invocation
reading [] = usage
reading (kind ∷ []) = usage
reading (kind ∷ name ∷ rest) = read (is_group kind) name

abbrev send_with : CString → CString → Option ℤ → Invocation
send_with kind name none = null_argument
send_with kind name (some n) = send_to (is_group kind) name n

-- The fifth argument is read when it is the last one.
abbrev sending : List CString → Invocation
sending [] = usage
sending (kind ∷ []) = usage
sending (kind ∷ name ∷ []) = send_to (is_group kind) name (negsuc 0)
sending (kind ∷ name ∷ pair ∷ []) = send_with kind name (get_autodelete_val pair)
sending (kind ∷ name ∷ pair ∷ more ∷ rest) = send_to (is_group kind) name (negsuc 0)

abbrev listing : List CString → Invocation
listing [] = usage
listing (kind ∷ rest) =
    if str_eq kind (codes "groups") || str_eq kind (codes "group")
    then list query_group
    else list query_client

-- The arguments from `argv[1]` on.
unfoldable pub invoke : List CString → Invocation
unfolding get_autodelete_val
invoke [] = null_argument
invoke (command ∷ args) =
    if str_eq command (codes "join-group")
    then named_group join_group args
    else if str_eq command (codes "create-group")
    then named_group create_group args
    else if str_eq command (codes "read")
    then reading args
    else if str_eq command (codes "send-to")
    then sending args
    else if str_eq command (codes "list")
    then listing args
    else nothing
