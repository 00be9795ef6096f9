-- ===== src/Group/Program/Rounds.antt =====
-- Whole sessions: what every round of main keeps, and why it ends.
use netprog_assignments.Base.{
  ℕ, suc, ◌<◌, ◌≤◌, ◌≤ℤ◌, ◌&&◌, leb, ltb_ℤ, pos, ap, Bool, true, Bool-cases, ◌≡◌, refl, Option,
  none, some, List, [], ◌∷◌, ◌++◌, length, CString, ℤ, arith, subst, ◌⊎◌, inl, inr, if_either, ltb,
}
use netprog_assignments.Group.Command.{num_options}
use netprog_assignments.Group.Groups.{
  MulticastGroup, GroupList, leave_multicast_group, find_group_by_name,
}
use netprog_assignments.Group.Creation.{IsFresh}
use netprog_assignments.Group.Parse.{Parsed, parsed, rejected, overflow, parse_command}
use netprog_assignments.Group.Poll.{read_vote}
use netprog_assignments.Group.Find.{FindReply}
use netprog_assignments.Group.Files.{
  max_groups, FileListMulticast, max_file_allowed, handle_file_list,
}
use netprog_assignments.Group.Requests.{handle_files-Keeps}
use netprog_assignments.Group.Transfer.{Transfer, file_chunk_len}
use netprog_assignments.Group.Program.{
  PollReq, Program, Report, in_parser, in_list, in_search, Turn, goes_on, exits, crashes,
  list_groups,
}
use netprog_assignments.Group.Program.Turns.{
  Outside, Incoming, simple_msg, poll_req, file_req, file_list_multicast, other_msg, Broadcast,
  find_group_req, other_broadcast, Received, quiet, failed, message, FileAnswered, not_held,
  not_opened, no_socket, not_connected, sending, Handled, Walked, walked, walk_exits, walk_waits,
  walk_crashes, also_handled, vote, answered, handle_message, handle_groups, Round, next, ends,
  waits, stray, of_walked, round_groups, after_turn, stray_end, cleaned, ended, cleanup, round_line,
  parsed_line, round,
}
use netprog_assignments.Group.Program.Sending.{Answers, request_file_req-Answers}
use netprog_assignments.Group.Program.Listed.{IsNamed, found_by_name}
use netprog_assignments.Group.Program.Kept.{
  IsProgram, Faults, Keeps, run_command-Keeps, list_groups-all,
}

-- A poll that no valid vote was entered for.
abbrev pub Waits : Outside → Type 0
Waits o =
    (fd : ℕ) × (p : PollReq) × (o.incoming fd ≡ message (poll_req p))
    × (read_vote p.option_cnt (o.vote_lines fd) ≡ none)

-- A request for a file of 500 bytes or more.
abbrev pub Overflows : Outside → Type 0
Overflows o =
    (fd : ℕ) × (name : CString) × (file : List ℕ) × (o.incoming fd ≡ message (file_req name))
    × (o.content name ≡ some file)
    × (file_chunk_len ≤ length file)

-- A poll of more options, or a list of more groups or files, than the message holds.
abbrev pub Overreads : Outside → Type 0
Overreads o =
    ((fd : ℕ) × (p : PollReq) × (o.incoming fd ≡ message (poll_req p))
      × (pos (suc num_options) ≤ℤ p.option_cnt))
    ⊎ ((fd : ℕ) × (l : FileListMulticast) × (o.incoming fd ≡ message (file_list_multicast l))
        × ((max_groups < l.grp_count) ⊎ (max_file_allowed < length l.file_list)))

-- One of the groups can be left.
abbrev pub CanLeave : (ℕ → Bool) → List MulticastGroup → Type 0
CanLeave member groups =
    (xs : List MulticastGroup) × (g : MulticastGroup) × (ys : List MulticastGroup) × (groups
      ≡ xs ++ g ∷ ys)
    × (member g.recv_fd ≡ true)

cleanup-CanLeave :
    (member : ℕ → Bool) (groups : List MulticastGroup) (list : GroupList)
    → cleanup member groups list ≡ none
    → CanLeave member groups
unfolding cleanup leave_multicast_group
cleanup-CanLeave member [] list e = ground arith
cleanup-CanLeave member (g ∷ groups) list e = elim (Bool-cases (member g.recv_fd)) [
  | inl m ↦ ([], g, groups, refl, m)
  | inr m ↦
      let (xs, h, ys, f, n) = cleanup-CanLeave member groups list (ground (arith, e, m)) in
      (g ∷ xs, h, ys, ap (λ r. g ∷ r) f, n)
]

abbrev Walks : Outside → Walked → Type 0
Walks o (walked hs files) = length files ≤ max_file_allowed
Walks o walk_exits = Unit
Walks o walk_waits = Waits o
Walks o walk_crashes = Overflows o ⊎ Overreads o

Walks-also : (o : Outside) (h : Handled) (w : Walked) → Walks o w → Walks o (also_handled h w)
Walks-also o h (walked hs files) k = k
Walks-also o h walk_exits k = k
Walks-also o h walk_waits k = k
Walks-also o h walk_crashes k = k

Walks-vote :
    (o : Outside) (fd : ℕ) (p : PollReq) (v : Option ℤ) (w : Walked)
    → o.incoming fd ≡ message (poll_req p)
    → read_vote p.option_cnt (o.vote_lines fd) ≡ v
    → Walks o w
    → Walks o (vote o p v w)
Walks-vote o fd p none w m e k = (fd, p, m, e)
Walks-vote o fd p (some option) w m e k = Walks-also o _ w k

Walks-answered :
    (o : Outside) (fd : ℕ) (name : CString) (a : FileAnswered) (w : Walked)
    → o.incoming fd ≡ message (file_req name)
    → Answers o name a
    → Walks o w
    → Walks o (answered a w)
Walks-answered o fd name not_held w m e k = Walks-also o _ w k
Walks-answered o fd name not_opened w m e k = Walks-also o _ w k
Walks-answered o fd name no_socket w m e k = Walks-also o _ w k
Walks-answered o fd name not_connected w m e k = Walks-also o _ w k
Walks-answered o fd name (sending (Transfer.messages ms)) w m e k = Walks-also o _ w k
Walks-answered o fd name (sending Transfer.overflow) w m (file, e, h) k =
    inl (fd, name, file, m, e, h)
Walks-answered o fd name (sending Transfer.out_of_fuel) w m (file, e, h) k = absurd h

handle_message-Walks :
    (o : Outside) (groups : List MulticastGroup) (fd : ℕ) (files : List CString)
    (r : Received Incoming) (rest : List CString → Walked)
    → o.incoming fd ≡ r
    → length files ≤ max_file_allowed
    → ((more : List CString) → length more ≤ max_file_allowed → Walks o (rest more))
    → Walks o (handle_message o groups fd files r rest)
unfolding handle_message handle_file_list
handle_message-Walks o groups fd files quiet rest m h k = k files h
handle_message-Walks o groups fd files failed rest m h k = tt
handle_message-Walks o groups fd files (message (simple_msg s)) rest m h k =
    Walks-also o _ _ (k files h)
handle_message-Walks o groups fd files (message (poll_req p)) rest m h k =
    elim (Bool-cases (ltb_ℤ (pos num_options) p.option_cnt)) [
      | inl e ↦ rw e (inr (inl (fd, p, m, ground (arith, e))))
      | inr e ↦ rw e (Walks-vote o fd p _ _ m refl (k files h))
    ]
handle_message-Walks o groups fd files (message (file_req name)) rest m h k =
    Walks-answered o fd name _ _ m (request_file_req-Answers o name files) (k files h)
handle_message-Walks o groups fd files (message (file_list_multicast l)) rest m h k =
    let within : Walks o _ = Walks-also o _ _ (
      k _
        (handle_files-Keeps o.sockets o.child l groups l.file_list
          (record { file_names = files; msg = l; sent = [] }) h).0) in
    elim (Bool-cases (leb l.grp_count max_groups && leb (length l.file_list) max_file_allowed)) [
      | inl e ↦ rw e within
      | inr e ↦ rw e (inr (inr (fd, l, m, ground (arith, e))))
    ]
handle_message-Walks o groups fd files (message other_msg) rest m h k = Walks-also o _ _ (k files h)

handle_groups-Walks :
    (o : Outside) (groups rest : List MulticastGroup) (files : List CString)
    → length files ≤ max_file_allowed
    → Walks o (handle_groups o groups rest files)
unfolding handle_groups
handle_groups-Walks o groups [] files h = h
handle_groups-Walks o groups (g ∷ rest) files h =
    handle_message-Walks o groups g.recv_fd files (o.incoming g.recv_fd) _ refl h
      (λ more k. handle_groups-Walks o groups rest more k)

-- What a round came to.
abbrev pub Rounds : Outside → Program → Round → Type 0
Rounds o p (next a r hs q) = IsProgram q
Rounds o p ends = Unit
Rounds o p waits = Waits o
Rounds o p (stray none) = Overflows o ⊎ Overreads o
Rounds o p stray_end = (q : Program) × IsProgram q × CanLeave o.leaves q.mc_list.head
Rounds o p (stray (some in_parser)) =
    (s : CString) × (o.line ≡ some s)
    × ((parse_command s ≡ overflow) ⊎ (parse_command s ≡ Parsed.null_dereference))
Rounds o p (stray (some in_list)) = Faults o.system p in_list
Rounds o p (stray (some in_search)) = Faults o.system p in_search

ended-Rounds : (o : Outside) (p q : Program) → IsProgram q → Rounds o p (ended o q)
ended-Rounds o p q v = cleaned-Rounds (cleanup o.leaves q.mc_list.head q.mc_list) refl
  where
    cleaned-Rounds :
        (c : Option GroupList)
        → cleanup o.leaves q.mc_list.head q.mc_list ≡ c
        → Rounds o p (cleaned c)
    cleaned-Rounds none e = (q, v, cleanup-CanLeave o.leaves q.mc_list.head q.mc_list e)
    cleaned-Rounds (some list) e = tt

walked-Rounds :
    (o : Outside) (a : Option FindReply) (r : Option Report) (p q : Program) (w : Walked)
    → IsProgram q
    → Walks o w
    → Rounds o p (of_walked o a r q w)
walked-Rounds o a r p q (walked hs files) v h = record { listed = v.listed; within = h }
walked-Rounds o a r p q walk_exits v h = ended-Rounds o p q v
walked-Rounds o a r p q walk_waits v h = h
walked-Rounds o a r p q walk_crashes v h = h

groups-Rounds :
    (o : Outside) (a : Option FindReply) (r : Option Report) (p q : Program)
    → IsProgram q
    → Rounds o p (round_groups o a r q)
unfolding round_groups
groups-Rounds o a r p q v =
    if_either (Rounds o p) (ltb 0 q.mc_list.count)
      (walked-Rounds o a r p q _ v
        (handle_groups-Walks o q.mc_list.head q.mc_list.head q.file_names v.within))
      v

turn-Rounds :
    (o : Outside) (a : Option FindReply) (p : Program) (t : Turn)
    → IsProgram p
    → Keeps o.system p t
    → Rounds o p (after_turn o a p t)
turn-Rounds o a p (goes_on r q) v k = groups-Rounds o a (some r) p q k
turn-Rounds o a p exits v k = ended-Rounds o p p v
turn-Rounds o a p (crashes in_parser) v k = absurd k
turn-Rounds o a p (crashes in_list) v k = k
turn-Rounds o a p (crashes in_search) v k = k

line-Rounds :
    (o : Outside) (a : Option FindReply) (p : Program) (line : Option CString) (c : Option Parsed)
    → o.line ≡ line
    → parsed_line line ≡ c
    → IsProgram p
    → IsFresh o.system.sockets p.mc_list
    → Rounds o p (round_line o a p c)
unfolding round_line
line-Rounds o a p line none e f v h = groups-Rounds o a none p p v
line-Rounds o a p line (some (parsed c)) e f v h =
    turn-Rounds o a p _ v (run_command-Keeps o.system p c v h)
line-Rounds o a p line (some rejected) e f v h = v
line-Rounds o a p none (some overflow) e f v h = ground arith
line-Rounds o a p (some s) (some overflow) e f v h = (s, e, inl (ground arith))
line-Rounds o a p none (some Parsed.null_dereference) e f v h = ground arith
line-Rounds o a p (some s) (some Parsed.null_dereference) e f v h = (s, e, inr (ground arith))

round_at :
    (o : Outside) (p : Program) (b : Received Broadcast)
    → o.broadcast ≡ b
    → IsProgram p
    → IsFresh o.system.sockets p.mc_list
    → Rounds o p (round o p)
unfolding round
round_at o p quiet e v h = rw (e, round) (line-Rounds o _ p o.line _ refl refl v h)
round_at o p failed e v h = rw (e, round) (ended-Rounds o p p v)
round_at o p (message (find_group_req q)) e v h =
    rw (e, round) (line-Rounds o _ p o.line _ refl refl v h)
round_at o p (message other_broadcast) e v h =
    rw (e, round) (line-Rounds o _ p o.line _ refl refl v h)

pub round-Rounds :
    (o : Outside) (p : Program)
    → IsProgram p
    → IsFresh o.system.sockets p.mc_list
    → Rounds o p (round o p)
round-Rounds o p v h = round_at o p o.broadcast refl v h

-- Sessions: rounds one after the other.
pub data Reach (p : Program) : Program → Type 0 where
  here : Reach p p
  later :
      {q q' : Program} (o : Outside) (a : Option FindReply) (r : Option Report) (hs : List Handled)
      → Reach p q
      → IsFresh o.system.sockets q.mc_list
      → round o q ≡ next a r hs q'
      → Reach p q'

Reach-IsProgram : {p q : Program} → IsProgram p → Reach p q → IsProgram q
Reach-IsProgram v here = v
Reach-IsProgram v (later {q} o a r hs s f e) =
    subst (Rounds o q) e (round-Rounds o q (Reach-IsProgram v s) f)

-- main before its first round, with the files of getFileList.
abbrev pub start : List CString → Program
start file_names = record {
  mc_list = record { head = []; tail = none; count = 0 };
  file_names = file_names;
}

pub start-IsProgram :
    (files : List CString) → length files ≤ max_file_allowed → IsProgram (start files)
start-IsProgram files h = record {
  listed = record { counted = refl; apart = tt; ended = inl tt; named = tt };
  within = h;
}

-- In every state that a session of rounds reaches from the start with at most 30 files: the files
-- are within 30, listing the groups shows all of them, and every joined group is found by its name.
pub Reach-start :
    (files : List CString) {q : Program}
    → length files ≤ max_file_allowed
    → Reach (start files) q
    → (length q.file_names ≤ max_file_allowed)
      × (list_groups q.mc_list.count q.mc_list.head ≡ some q.mc_list.head)
      × ((xs : List MulticastGroup) (g : MulticastGroup) (ys : List MulticastGroup)
          → q.mc_list.head ≡ xs ++ g ∷ ys
          → find_group_by_name g.name q.mc_list.head ≡ some g)
Reach-start files {q} h r =
    let v = Reach-IsProgram (start-IsProgram files h) r in
    (
      v.within,
      list_groups-all q.mc_list.count q.mc_list.head v.listed.counted,
      λ xs g ys e. rw e (found_by_name xs g ys (subst IsNamed e v.listed.named)),
    )
