-- ===== src/Rtt/Turn.antt =====
-- One turn of sendHelper in assignment-2/q1/rtt.c, under the mutex. A `struct proto *` is an
-- index in the list of hosts.
use netprog_assignments.Base.{
  ℕ, ◌+◌, Bool, true, false, Option, none, some, List, ◌==◌, ltb, if◌then◌else◌, ℤ, negsuc, inc,
  get_elem?, set,
}
use netprog_assignments.Rtt.Queue.{Queue, Read, returns, fault, q_front, q_pop}
use netprog_assignments.Rtt.Proto.{Proto}
use netprog_assignments.Rtt.Send.{Sendto, fsend, failed}

pub record Sender : Type 0 where
  pub sockets : List Proto
  pub send_queue : Queue ℕ
  pub tot_send_cnt : ℕ
  pub ipv4_fail : ℤ
  pub ipv6_fail : ℤ

pub data Turned : Type 0 where
  running : Sender → Turned
  null_dereference : Turned

abbrev pub popped : (Queue ℕ → Sender) → Read (Queue ℕ) → Turned
popped next (returns q) = running (next q)
popped next fault = null_dereference

-- The host at the front is popped when it was sent to, or when its count has come to 3.
unfoldable pub sent : ℕ → Proto → Sender → Turned
unfolding q_pop
sent i p s =
    popped
      (λ q. record s {
        sockets = set s.sockets i p;
        send_queue = q;
        tot_send_cnt = s.tot_send_cnt + 1;
      })
      (q_pop s.send_queue)

unfoldable pub give_up : ℕ → Proto → Sender → Turned
unfolding q_pop
give_up i p s =
    popped
      (λ q. record {
        sockets = set s.sockets i (record p { nsent = p.nsent + 1 });
        send_queue = q;
        tot_send_cnt = s.tot_send_cnt + 1;
        ipv4_fail = if p.is_v4 then inc s.ipv4_fail else s.ipv4_fail;
        ipv6_fail = if p.is_v4 then s.ipv6_fail else inc s.ipv6_fail;
      })
      (q_pop s.send_queue)

-- `p` has been counted by `fsend` already.
unfoldable pub not_sent : ℕ → Proto → Sender → Turned
unfolding give_up
not_sent i p s =
    let counted = record s { sockets = set s.sockets i p; tot_send_cnt = s.tot_send_cnt + 1 } in
    let retried = record p { rtt = set p.rtt p.nsent (negsuc 0); nsent = p.nsent + 1 } in
    if p.nsent == 3
    then give_up i p s
    else if ltb p.nsent 3
    then running (record counted { sockets = set s.sockets i retried })
    else running counted

-- The outcome of the send, where the loop came to an end.
unfoldable pub after_send : ℕ → Sender → Proto × Option (Bool × ℕ) → Option Turned
unfolding sent not_sent
after_send i s (p, none) = none
after_send i s (p, some (true, n)) = some (sent i p s)
after_send i s (p, some (false, n)) = some (not_sent i p s)

unfoldable pub send_to : ℕ → (ℕ → ℕ → ℕ → Sendto) → Sender → ℕ → Option Proto → Option Turned
unfolding after_send fsend
send_to fuel sendto s i none = some null_dereference
send_to fuel sendto s i (some p) = after_send i s (fsend fuel sendto p)

unfoldable pub send_front : ℕ → (ℕ → ℕ → ℕ → Sendto) → Sender → Read (Option ℕ) → Option Turned
unfolding send_to
send_front fuel sendto s fault = some null_dereference
send_front fuel sendto s (returns none) = some null_dereference
send_front fuel sendto s (returns (some i)) = send_to fuel sendto s i (get_elem? s.sockets i)

-- The turn; a queue that is empty leaves everything as it is.
unfoldable pub send_turn : ℕ → (ℕ → ℕ → ℕ → Sendto) → Sender → Option Turned
unfolding send_front q_front
send_turn fuel sendto s =
    if ltb 0 s.send_queue.count
    then send_front fuel sendto s (q_front (some s.send_queue))
    else some (running s)

-- Every call of `sendto` fails.
abbrev pub no_network : ℕ → ℕ → ℕ → Sendto
no_network i len offset = failed
