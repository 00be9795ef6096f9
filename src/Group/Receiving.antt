-- ===== src/Group/Receiving.antt =====
-- Files on the disk of a node: getFileList, and the child of requestFileCmdHandler that receives
-- a file, assignment-2/q3/utils.c.
pub mod Rounds
use netprog_assignments.Base.{
  ℕ, Bool, true, false, Option, none, some, List, [], ◌∷◌, ◌++◌, ◌&&◌, if◌then◌else◌, ltb, length,
  take, drop, CString,
}
use netprog_assignments.Group.Command.{file_name_len}
use netprog_assignments.Group.Files.{max_file_allowed}
use netprog_assignments.Group.Transfer.{FileReply}

-- getFileList on the entries of the directory: whether each is a regular file, and its name.
-- `none` writes outside the array of names, from place `length files` on.
unfoldable pub get_file_list : List (Bool × CString) → List CString → Option (List CString)
get_file_list [] files = some files
get_file_list ((is_regular, name) ∷ entries) files =
    let skipped = get_file_list entries files in
    let added = get_file_list entries (files ++ (name ∷ [])) in
    if is_regular
    then if ltb (length files) max_file_allowed && ltb (length name) file_name_len
      then added
      else none
    else skipped

-- What a `read` gives: -1, 0, a message that is no file reply, or a file reply.
pub data FileRead : Type 0 where
  failed : FileRead
  closed : FileRead
  unexpected : FileRead
  reply : FileReply → FileRead

-- A round of the child: its read, and whether its write succeeds.
pub record FileRound : Type 0 where
  pub read : FileRead
  pub is_written : Bool

-- `res`, which has no value before the first read.
pub data Res : Type 0 where
  no_value : Res
  other_type : Res
  file_reply : FileReply → Res

-- The file is whole; it is removed and the child fails; the child fails without it; the child
-- goes on with what is written so far; or it reads what has no value.
pub data Receiving : Type 0 where
  received : List ℕ → Receiving
  removed : Receiving
  exit_failure : Receiving
  goes_on : List ℕ → Receiving
  no_meaning : Receiving

-- A read of 0 bytes leaves `res` as it was.
abbrev pub read_into : Res → FileRead → Option Res
read_into res failed = none
read_into res closed = some res
read_into res unexpected = some other_type
read_into res (reply r) = some (file_reply r)

abbrev pub write_data : Option Res → Bool → List ℕ → (List ℕ → Receiving) → Receiving
write_data none is_written file next = removed
write_data (some no_value) is_written file next = no_meaning
write_data (some other_type) is_written file next = removed
write_data (some (file_reply r)) is_written file next =
    let more = file ++ take r.len r.bytes in
    let after = next more in
    if is_written then if r.is_last then received more else after else removed

-- The loop, with what has been written.
unfoldable pub receive_rounds : List FileRound → Res → List ℕ → Receiving
receive_rounds [] res file = goes_on file
receive_rounds (t ∷ rounds) res file =
    let now = read_into res t.read in
    let kept : Res = elim now [ none ↦ res | some r ↦ r ] in
    write_data now t.is_written file (λ more. receive_rounds rounds kept more)

pub data Selected : Type 0 where
  select_error : Selected
  timeout : Selected
  connection : Selected

-- The file is opened without O_TRUNC: what it had behind the bytes that are written stays.
abbrev pub over : List ℕ → Receiving → Receiving
over old (received file) = received (file ++ drop (length file) old)
over old removed = removed
over old exit_failure = exit_failure
over old (goes_on file) = goes_on (file ++ drop (length file) old)
over old no_meaning = no_meaning

-- The child, with what the file had before.
unfoldable pub receive_child : Selected → Bool → List ℕ → List FileRound → Receiving
unfolding receive_rounds
receive_child select_error is_open old rounds = exit_failure
receive_child timeout is_open old rounds = exit_failure
receive_child connection is_open old rounds =
    if is_open then over old (receive_rounds rounds no_value []) else exit_failure
