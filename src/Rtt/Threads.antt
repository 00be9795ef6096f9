-- ===== src/Rtt/Threads.antt =====
-- The sender and the two receivers of assignment-2/q1/rtt.c over what they share. The sender's
-- turn is a step; the round of a receiver is two: the answer is stored, and then the count of
-- requests is looked at. A receiver holds the mutex for qPush only, so in the code these may also
-- fall within a turn of the sender: such runs are not modelled.
mod Tests
pub mod Counting
pub mod Waiting
pub mod Started
pub mod Rejoining
use netprog_assignments.Base.{
  ℕ, ◌+◌, ◌*◌, ◌≡◌, Bool, true, false, Option, none, some, List, [], ◌∷◌, ◌==◌, leb, if◌then◌else◌,
  ℤ, pos, length, get_elem?, set, CString,
}
use netprog_assignments.Rtt.HashMap.{HashMap, find_in_map}
use netprog_assignments.Rtt.Queue.{Queue}
use netprog_assignments.Rtt.Proto.{
  Proto, Packet, Processed, success, ignored, error, out_of_bounds, fproc, after_reply,
}
use netprog_assignments.Rtt.Time.{Timeval}
use netprog_assignments.Rtt.Send.{Sendto}
use netprog_assignments.Rtt.Turn.{Sender, Turned, running, send_turn}
use netprog_assignments.Rtt.Receive.{Receiver, Received, settle, receive, goes_on}
use netprog_assignments.Rtt.Setup.{Hosts}

-- The globals, and what is local to the threads: the number of sends, and the host that each
-- receiver is about to look at.
pub record Threads : Type 0 where
  pub sockets : List Proto
  pub ip_proto_map : HashMap ℕ
  pub send_queue : Queue ℕ
  pub tot_send_cnt : ℕ
  pub ipv4_count : ℤ
  pub ipv6_count : ℤ
  pub ipv4_fail : ℤ
  pub ipv6_fail : ℤ
  pub pending_v4 : Option ℕ
  pub pending_v6 : Option ℕ

unfoldable pub sender_of : Threads → Sender
sender_of t = record {
  sockets = t.sockets;
  send_queue = t.send_queue;
  tot_send_cnt = t.tot_send_cnt;
  ipv4_fail = t.ipv4_fail;
  ipv6_fail = t.ipv6_fail;
}

unfoldable pub with_sender : Threads → Sender → Threads
with_sender t s = record t {
  sockets = s.sockets;
  send_queue = s.send_queue;
  tot_send_cnt = s.tot_send_cnt;
  ipv4_fail = s.ipv4_fail;
  ipv6_fail = s.ipv6_fail;
}

-- ip4RecvHelper for `true`, ip6RecvHelper for `false`.
unfoldable pub receiver_of : Bool → Threads → Receiver
receiver_of v4 t = record {
  sockets = t.sockets;
  ip_proto_map = t.ip_proto_map;
  send_queue = t.send_queue;
  count = if v4 then t.ipv4_count else t.ipv6_count;
  fail = if v4 then t.ipv4_fail else t.ipv6_fail;
}

unfoldable pub with_receiver : Bool → Threads → Receiver → Threads
with_receiver v4 t r = record t {
  sockets = r.sockets;
  send_queue = r.send_queue;
  ipv4_count = if v4 then r.count else t.ipv4_count;
  ipv6_count = if v4 then t.ipv6_count else r.count;
}

abbrev pub pending : Bool → Threads → Option ℕ
pending true t = t.pending_v4
pending false t = t.pending_v6

abbrev pub with_pending : Bool → Threads → Option ℕ → Threads
with_pending true t i = record t { pending_v4 = i }
with_pending false t i = record t { pending_v6 = i }

-- The host after fproc; `none` ends the process or writes outside the array.
abbrev pub stored : Processed → Option Proto
stored (success p) = some p
stored (ignored p) = some p
stored error = none
stored out_of_bounds = none

-- A receiver has stored an answer in its host, and has still to look at it.
abbrev pub held : Bool → ℕ → Proto → Threads → Threads
held v4 i q t = with_pending v4 (record t { sockets = set t.sockets i q }) (some i)

-- It has looked: the host is queued again, or finished, or left alone.
abbrev pub looked : Bool → Bool → ℕ → Proto → Threads → Threads
looked v4 memory i p t =
    with_pending v4 (with_receiver v4 t (settle memory i (receiver_of v4 t) (after_reply p))) none

-- Both in one go.
unfoldable pub receive_round : Bool → ℕ → Bool → CString → Packet → Timeval → Threads → Received
unfolding receiver_of receive
receive_round v4 pid memory ip pk tv t = receive pid memory ip pk tv (receiver_of v4 t)

-- sendHelper goes on after a turn unless the sends are three for each host; a first turn without
-- hosts changes nothing.
unfoldable pub sends_on : Threads → Bool
sends_on t = if t.tot_send_cnt == 3 * length t.sockets then false else true

-- The steps that the process survives, in runs in which a receiver stores an answer, or looks at a
-- host and at the counts, only between two turns of the sender. The code does not see to that, as
-- the receivers do not hold the mutex there. The text of an address is one of its own family, so that
-- a receiver finds hosts of its own kind.
pub data Step : Threads → Threads → Type 0 where
  send :
      {t : Threads} (fuel : ℕ) (sendto : ℕ → ℕ → ℕ → Sendto) (s : Sender)
      → sends_on t ≡ true
      → send_turn fuel sendto (sender_of t) ≡ some (running s)
      → Step t (with_sender t s)
  store :
      {t : Threads} (v4 : Bool) (pid : ℕ) (ip : CString) (pk : Packet) (tv : Timeval) (i : ℕ)
      (p q : Proto)
      → pending v4 t ≡ none
      → goes_on (receiver_of v4 t) ≡ true
      → find_in_map t.ip_proto_map ip ≡ some i
      → get_elem? t.sockets i ≡ some p
      → p.is_v4 ≡ v4
      → stored (fproc pid pk p tv) ≡ some q
      → Step t (held v4 i q t)
  look :
      {t : Threads} (v4 memory : Bool) (i : ℕ) (p : Proto)
      → pending v4 t ≡ some i
      → get_elem? t.sockets i ≡ some p
      → Step t (looked v4 memory i p t)

pub data Reach (t : Threads) : Threads → Type 0 where
  here : Reach t t
  later : {u w : Threads} → Reach t u → Step u w → Reach t w

-- What the threads start with, once main has queued the hosts.
unfoldable pub started : Hosts → Queue ℕ → Threads
started h q = record {
  sockets = h.sockets;
  ip_proto_map = h.ip_proto_map;
  send_queue = q;
  tot_send_cnt = 0;
  ipv4_count = pos h.ipv4_count;
  ipv6_count = pos h.ipv6_count;
  ipv4_fail = pos 0;
  ipv6_fail = pos 0;
  pending_v4 = none;
  pending_v6 = none;
}
