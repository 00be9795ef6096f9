-- ===== src/Group/Tests.antt =====
-- Runs of the models of assignment-2/q3, and their properties at concrete inputs.
use netprog_assignments.Base.{
  none, NoNull, ℕ, zero, suc, ◌≡◌, refl, true, false, some, List, [], ◌∷◌, ◌<◌, length,
  if◌then◌else◌, ℤ, pos, CString, codes, arith, str_eq, replicate, eq_ℤ, take,
}
use netprog_assignments.Group.Strtok.{strtok, atoi, is_free-IsWord}
use netprog_assignments.Group.Command.{Command, init_poll, send_message}
use netprog_assignments.Group.Parse.{parsed, overflow, parse_command}
use netprog_assignments.Group.Print.{print_command, print_body}
use netprog_assignments.Group.Roundtrip.{reread, parse-print}
use netprog_assignments.Group.Groups.{
  MulticastGroup, GroupList, ready, changed, fault, insert_multicast_group, remove_multicast_group,
  create_group_command,
}
use netprog_assignments.Group.Members.{IsLinked}
use netprog_assignments.Group.Leaving.{remove_last-fault}
use netprog_assignments.Group.Creation.{Creates, create_group_command-Creates}
use netprog_assignments.Group.Poll.{read_vote, Reply}
use netprog_assignments.Group.Find.{FindReply, is_answer}
use netprog_assignments.Group.Files.{is_among, FileListMulticast, forward}
use netprog_assignments.Group.Receiving.{connection, received, receive_child, get_file_list}
use netprog_assignments.Group.Receiving.Rounds.{whole}
use netprog_assignments.Group.Transfer.{FileReply}

-- The names and numbers of the runs.
abbrev two_or_80 : ℤ → CString
two_or_80 n = if eq_ℤ n (pos 2) then codes "2" else codes "80"

abbrev lunch : Command
lunch = init_poll (codes "net") (codes "lunch at?") (pos 2) (codes "12" ∷ codes "1 pm" ∷ [])

parse_run : parse_command (codes "init-poll net \"lunch at?\" 2 \"12\" \"1 pm\"\n") ≡ parsed lunch
unfolding parse_command strtok str_eq atoi
parse_run = refl

send_run :
    parse_command (codes "send-message net \"hello all\"\n")
    ≡ parsed (send_message (codes "net") (codes "hello all"))
unfolding parse_command strtok str_eq
send_run = refl

-- A file name of 20 bytes passes the test on its length and is copied into 20 bytes.
long_name_run : parse_command (codes "request-file abcdefghijklmnopqrst\n") ≡ overflow
unfolding parse_command strtok str_eq
long_name_run = refl

two_reads : atoi (two_or_80 (pos 2)) ≡ pos 2
unfolding atoi
two_reads = refl

lunch_short : length (print_body two_or_80 lunch) < 1024
unfolding print_body
lunch_short = omega arith

parse-print_example : parse_command (print_command two_or_80 lunch) ≡ reread lunch
parse-print_example =
    parse-print two_or_80 lunch
      (omega arith, omega arith, (omega arith, (omega arith, tt)), omega arith, refl)
      (
        is_free-IsWord b' ' b'n' (codes "et") refl,
        is_free-IsWord b'"' b'l' (codes "unch at?") refl,
        (
          is_free-IsWord b'"' b'1' (codes "2") refl,
          (is_free-IsWord b'"' b'1' (codes " pm") refl, tt),
        ),
        is_free-IsWord b' ' b'2' (codes "") refl,
        two_reads,
      )
      lunch_short

abbrev net : MulticastGroup
net = record {
  address = 100;
  name = codes "net";
  ip = codes "239.0.0.1";
  port = pos 80;
  send_fd = 5;
  recv_fd = 4;
}

abbrev db : MulticastGroup
db = record {
  address = 200;
  name = codes "db";
  ip = codes "239.0.0.2";
  port = pos 80;
  send_fd = 7;
  recv_fd = 6;
}

abbrev ai : MulticastGroup
ai = record {
  address = 300;
  name = codes "ai";
  ip = codes "239.0.0.3";
  port = pos 80;
  send_fd = 9;
  recv_fd = 8;
}

abbrev both : GroupList
both = record { head = net ∷ db ∷ []; tail = some 200; count = 2 }

both-IsLinked : IsLinked both
both-IsLinked = (refl, ((ground arith, tt), (tt, tt)), refl)

remove_last-fault_example :
    (after : GroupList) × (remove_multicast_group both db ≡ changed after)
    × (insert_multicast_group after ai ≡ fault)
remove_last-fault_example = remove_last-fault both net [] db ai both-IsLinked refl

create_group_command-Creates_example :
    Creates true
      (ready 300 9 8)
      (codes "ai")
      (codes "239.0.0.3")
      (pos 80)
      both
      (create_group_command true (ready 300 9 8) (codes "ai") (codes "239.0.0.3") (pos 80) both)
create_group_command-Creates_example =
    create_group_command-Creates true (ready 300 9 8) (codes "ai") (codes "239.0.0.3") (pos 80) both
      both-IsLinked (ground arith, (ground arith, tt))

second_vote : read_vote (pos 3) (codes "7" ∷ codes "2" ∷ []) ≡ some (pos 1)
unfolding read_vote atoi
second_vote = refl

abbrev replies : List Reply
replies =
    record { is_poll_reply = true; id = pos 77; option = pos 1 }
    ∷ record { is_poll_reply = true; id = pos 12; option = pos 9 }
    ∷ record { is_poll_reply = true; id = pos 77; option = pos 1 }
    ∷ []

abbrev other_reply : FindReply
other_reply = record {
  is_find_reply = true;
  grp_name = codes "db";
  ip = codes "239.0.0.2";
  port = pos 80;
}

other_no_answer : is_answer (codes "net") other_reply ≡ false
unfolding str_eq
other_no_answer = refl

abbrev passed_list : FileListMulticast
passed_list = record {
  file_list = codes "a.txt" ∷ [];
  groups = replicate 20 (codes "net");
  grp_count = 1;
}

-- One name was added, and the count says that there are two.
overcount_run : (forward passed_list passed_list (net ∷ db ∷ ai ∷ [])).parsed_msg.grp_count ≡ 3
unfolding forward is_among str_eq
overcount_run = refl

abbrev stale : FileReply
stale = record { is_last = false; bytes = replicate 500 9; len = 0 }

replicate-NoNull : (m n : ℕ) → NoNull (take m (replicate n 7))
replicate-NoNull zero n = tt
replicate-NoNull (suc m) zero = tt
replicate-NoNull (suc m) (suc n) = (ground arith, replicate-NoNull m n)

-- A file that was longer keeps its end, since it is opened without O_TRUNC.
abbrev two_bytes : FileReply
two_bytes = record { is_last = true; bytes = codes "ab"; len = 2 }

longer_run :
    receive_child connection true (codes "old text") (whole two_bytes ∷ [])
    ≡ received (codes "abd text")
unfolding receive_child
longer_run = refl

-- A name of 20 bytes in the directory does not fit with its null.
long_entry_run :
    get_file_list ((false, codes "sub") ∷ (true, codes "12345678901234567890") ∷ []) [] ≡ none
unfolding get_file_list
long_entry_run = refl
