-- ===== src/Group/Program/Tests.antt =====
-- Runs of main of assignment-2/q3/group_comm.c, and its properties at concrete inputs.
use netprog_assignments.Base.{
  ℕ, ◌+◌, ◌≡◌, refl, true, false, none, some, List, [], ◌∷◌, ◌++◌, pos, CString, codes, arith,
  replicate, length, get_or, str_eq, ◌≤◌, ◌<◌,
}
use netprog_assignments.Group.Command.{Command, num_options}
use netprog_assignments.Group.Groups.{MulticastGroup, ready, find_group_by_name}
use netprog_assignments.Group.Strtok.{atoi}
use netprog_assignments.Group.Parse.{parse_command}
use netprog_assignments.Group.Poll.{poll_result, read_vote}
use netprog_assignments.Group.Files.{max_file_allowed}
use netprog_assignments.Group.Program.{
  System, Program, PollReq, goes_on, group_joined, poll_sent, list_groups, run_command,
}
use netprog_assignments.Group.Program.Turns.{Outside, quiet, next, round}
use netprog_assignments.Group.Program.Rounds.{Rounds, here, later, start, Reach-start}
use netprog_assignments.Group.Program.Voting.{replies, voters, init_poll-counts}

abbrev calls : System
calls = record {
  sockets = ready 700 5 6;
  member = true;
  reply_socket = true;
  reply_port = pos 4000;
  sends = true;
  replies = [];
  child = true;
  pid = pos 99;
}

-- A line of the terminal; nothing else is ready.
abbrev typed : CString → Outside
typed s = record {
  system = calls;
  broadcast = quiet;
  line = some s;
  incoming = λ fd. quiet;
  vote_lines = λ fd. [];
  socket = true;
  connects = true;
  leaves = λ _. true;
  content = λ name. none;
  stack = record { is_last = false; bytes = replicate 500 9; len = 0 };
  sockets = λ name. true;
  child = λ name. true;
}

abbrev create : CString
create = codes "create-group net 224.0.0.1 5000\n"

abbrev net : MulticastGroup
net = record {
  address = 700;
  name = codes "net";
  ip = codes "224.0.0.1";
  port = pos 5000;
  send_fd = 5;
  recv_fd = 6;
}

abbrev in_net : Program
in_net = record {
  mc_list = record { head = net ∷ []; tail = some 700; count = 1 };
  file_names = codes "a.txt" ∷ [];
}

create_run :
    round (typed create) (start (codes "a.txt" ∷ []))
    ≡ next none (some (group_joined net)) [] in_net
unfolding round parse_command str_eq atoi
create_run = refl

Reach-start_example :
    (length in_net.file_names ≤ max_file_allowed)
    × (list_groups in_net.mc_list.count in_net.mc_list.head ≡ some in_net.mc_list.head)
    × ((xs : List MulticastGroup) (g : MulticastGroup) (ys : List MulticastGroup)
        → in_net.mc_list.head ≡ xs ++ g ∷ ys
        → find_group_by_name g.name in_net.mc_list.head ≡ some g)
Reach-start_example =
    Reach-start (codes "a.txt" ∷ []) (omega arith)
      (later (typed create) none (some (group_joined net)) [] here tt create_run)

abbrev poll : PollReq
poll = record {
  id = pos 99;
  option_cnt = pos 2;
  que = codes "why";
  options = codes "a" ∷ codes "b" ∷ [];
  reply_port = pos 4000;
}

poll_run :
    run_command calls in_net
      (Command.init_poll (codes "net") (codes "why") (pos 2) (codes "a" ∷ codes "b" ∷ []))
    ≡ goes_on (poll_sent net poll) in_net
unfolding run_command str_eq
poll_run = refl

-- Three members: one votes for the second option, one for the first on the second try, and one
-- enters nothing.
abbrev members : List (List CString)
members = (codes "2\n" ∷ []) ∷ (codes "7\n" ∷ codes "1\n" ∷ []) ∷ [] ∷ []

init_poll-counts_example :
    (after : List ℕ) × (poll_result (pos 99) (replies poll members) ≡ some after)
    × (length after ≡ num_options)
    × ((i : ℕ) → i < num_options → get_or after i 0 ≡ voters (pos 2) i members)
init_poll-counts_example =
    init_poll-counts calls in_net in_net (codes "net") (codes "why") (pos 2)
      (codes "a" ∷ codes "b" ∷ []) net poll members (omega arith) poll_run

voters_run : voters (pos 2) 0 members + voters (pos 2) 1 members ≡ 2
unfolding voters read_vote atoi
voters_run = refl
