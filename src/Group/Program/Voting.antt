-- ===== src/Group/Program/Voting.antt =====
-- A poll from its command over the members' terminals to the counted options.
use netprog_assignments.Base.{
  ℕ, zero, suc, ◌&&◌, ◌||◌, not, ltb_ℤ, dec, negsuc, ◌≤◌, ◌<◌, ◌≡◌, refl, ap, Bool, false, Option,
  none, some, List, [], ◌∷◌, length, get_or, CString, ℤ, pos, pos_part, eq_ℤ, eq_ℤ_refl, arith, ◌∙◌,
  All, if◌then◌else◌,
}
use netprog_assignments.Group.Strtok.{atoi}
use netprog_assignments.Group.Command.{Command, Fits, num_options}
use netprog_assignments.Group.Groups.{MulticastGroup, find_group_by_name}
use netprog_assignments.Group.Poll.{
  Reply, read_vote, poll_result, votes, IsVote, read_vote-range, poll_result_counts,
}
use netprog_assignments.Group.Program.{
  PollReq, System, Program, poll_sent, goes_on, init_poll_in, handle_poll_command, run_command,
}
use netprog_assignments.Group.Program.Turns.{reply_of}

-- The replies of the members, given the lines of their terminals; one who enters no valid vote
-- does not reply.
abbrev pub also_reply : PollReq → Option ℤ → List Reply → List Reply
also_reply poll none rs = rs
also_reply poll (some option) rs = reply_of poll option ∷ rs

unfoldable pub replies : PollReq → List (List CString) → List Reply
replies poll [] = []
replies poll (lines ∷ members) =
    also_reply poll (read_vote poll.option_cnt lines) (replies poll members)

abbrev is_vote_for : ℕ → Option ℤ → Bool
is_vote_for i none = false
is_vote_for i (some option) = eq_ℤ option (pos i)

-- Whether the first of the lines that is a number from 1 to the number of options is option `i`,
-- counted from 0.
unfoldable pub names_option : ℤ → ℕ → List CString → Bool
names_option option_cnt i [] = false
names_option option_cnt i (line ∷ lines) =
    let later = names_option option_cnt i lines in
    if ltb_ℤ (pos 0) (atoi line) && not (ltb_ℤ option_cnt (atoi line))
    then eq_ℤ (atoi line) (pos (suc i))
    else later

-- How many members name option `i` so.
unfoldable pub voters : ℤ → ℕ → List (List CString) → ℕ
unfolding names_option
voters option_cnt i [] = 0
voters option_cnt i (lines ∷ members) =
    let more = voters option_cnt i members in
    if names_option option_cnt i lines then suc more else more

named_vote :
    (option_cnt n : ℤ) (i : ℕ) (rest : Option ℤ) (later : Bool)
    → is_vote_for i rest ≡ later
    → is_vote_for i (if ltb_ℤ n (pos 1) || ltb_ℤ option_cnt n then rest else some (dec n))
      ≡ (if ltb_ℤ (pos 0) n && not (ltb_ℤ option_cnt n) then eq_ℤ n (pos (suc i)) else later)
named_vote option_cnt (pos zero) i rest later h = ground (arith, h)
named_vote option_cnt (pos (suc n)) i rest later h = ground (arith, h)
named_vote option_cnt (negsuc n) i rest later h = ground (arith, h)

read_vote-names_option :
    (option_cnt : ℤ) (i : ℕ) (lines : List CString)
    → is_vote_for i (read_vote option_cnt lines) ≡ names_option option_cnt i lines
unfolding read_vote names_option
read_vote-names_option option_cnt i [] = refl
read_vote-names_option option_cnt i (line ∷ lines) =
    named_vote option_cnt (atoi line) i _ _ (read_vote-names_option option_cnt i lines)

reply-IsVote :
    (poll : PollReq) (lines : List CString) (v : Option ℤ) (rs : List Reply)
    → read_vote poll.option_cnt lines ≡ v
    → All (IsVote poll.id poll.option_cnt) rs
    → All (IsVote poll.id poll.option_cnt) (also_reply poll v rs)
reply-IsVote poll lines none rs e h = h
reply-IsVote poll lines (some option) rs e h =
    (rw (eq_ℤ_refl poll.id) (read_vote-range poll.option_cnt lines option e), h)

replies-IsVote :
    (poll : PollReq) (members : List (List CString))
    → All (IsVote poll.id poll.option_cnt) (replies poll members)
unfolding replies
replies-IsVote poll [] = tt
replies-IsVote poll (lines ∷ members) =
    reply-IsVote poll lines (read_vote poll.option_cnt lines) (replies poll members) refl
      (replies-IsVote poll members)

votes-also :
    (poll : PollReq) (i : ℕ) (v : Option ℤ) (rs : List Reply)
    → votes poll.id i (also_reply poll v rs)
      ≡ (if is_vote_for i v then suc (votes poll.id i rs) else votes poll.id i rs)
unfolding votes
votes-also poll i none rs = refl
votes-also poll i (some option) rs = rw (eq_ℤ_refl poll.id) refl

votes-replies :
    (poll : PollReq) (i : ℕ) (members : List (List CString))
    → votes poll.id i (replies poll members) ≡ voters poll.option_cnt i members
unfolding replies voters votes
votes-replies poll i [] = refl
votes-replies poll i (lines ∷ members) =
    votes-also poll i (read_vote poll.option_cnt lines) (replies poll members)
    ∙ rw (votes-replies poll i members, read_vote-names_option poll.option_cnt i lines) refl

sent_count :
    (s : System) (que : CString) (option_cnt : ℤ) (options : List CString)
    (o : Option MulticastGroup) (grp : MulticastGroup) (poll : PollReq)
    → init_poll_in s que option_cnt options o ≡ poll_sent grp poll
    → poll.option_cnt ≡ option_cnt
unfolding handle_poll_command
sent_count s que option_cnt options none grp poll h = ground arith
sent_count s que option_cnt options (some g) grp poll h = ground (arith, h)

-- When init-poll, with a command that fits its buffers, sends a poll, the counting of the
-- members' replies to that poll stays in its array and gives for every option the number of the
-- members whose first line with a number from 1 to the number of options has the option's own.
pub init_poll-counts :
    (s : System) (p q : Program) (grp_name que : CString) (option_cnt : ℤ) (options : List CString)
    (grp : MulticastGroup) (poll : PollReq) (members : List (List CString))
    → Fits (Command.init_poll grp_name que option_cnt options)
    → run_command s p (Command.init_poll grp_name que option_cnt options)
      ≡ goes_on (poll_sent grp poll) q
    → (after : List ℕ) × (poll_result poll.id (replies poll members) ≡ some after)
      × (length after ≡ num_options)
      × ((i : ℕ) → i < num_options → get_or after i 0 ≡ voters option_cnt i members)
unfolding run_command
init_poll-counts s p q grp_name que option_cnt options grp poll members f h =
    let same : poll.option_cnt ≡ option_cnt =
      sent_count s que option_cnt options (find_group_by_name grp_name p.mc_list.head) grp poll
        (ground (arith, h)) in
    let (n, w, ws, few, all) = f in
    let small : pos_part poll.option_cnt ≤ num_options = rw same (omega arith) in
    let (after, run, l, c) =
      poll_result_counts poll.id poll.option_cnt (replies poll members) small
        (replies-IsVote poll members) in
    (after, run, l, λ i k. c i k ∙ votes-replies poll i members ∙ ap (λ n. voters n i members) same)
