-- ===== src/Rtt/Receive.antt =====
-- A round of ip4RecvHelper and of ip6RecvHelper in assignment-2/q1/rtt.c, and printRtts.
pub mod Rounds
use netprog_assignments.Base.{
  ℕ, zero, suc, ◌+◌, ◌*◌, ◌≡◌, ◌≢◌, ◌⊎◌, ◌<◌, ◌≤◌, sym, get_elem?-set_self, get_elem?-set_ne,
  Bool-cases, refl, Bool, true, false, not, Option, none, some, List, [], ◌∷◌, ◌==◌, if◌then◌else◌,
  ltb, leb, length, get_elem?, get_or, set, ℤ, negsuc, pos, eq_ℤ, dec, ◌-ℤ◌, ltb_ℤ, CString, arith,
  All, Option-cases, inl, inr, length-set, subst, if_either,
}
use netprog_assignments.Rtt.HashMap.{HashMap, find_in_map}
use netprog_assignments.Rtt.Queue.{Queue, q_push}
use netprog_assignments.Rtt.Proto.{
  Proto, Packet, Processed, success, error, ignored, out_of_bounds, fproc, After, push, finished,
  nothing, after_reply, UpToLast, Answered, fproc-Answered,
}
use netprog_assignments.Rtt.Time.{Timeval}

-- What the thread reads and writes. `count` and `fail` are those of its kind, IPv4 or IPv6.
pub record Receiver : Type 0 where
  pub sockets : List Proto
  pub ip_proto_map : HashMap ℕ
  pub send_queue : Queue ℕ
  pub count : ℤ
  pub fail : ℤ

pub data Received : Type 0 where
  received : Receiver → Received
  process_exits : Received
  stray_write : Received

abbrev pub with_queue : Receiver → Option (Queue ℕ) → Receiver
with_queue r none = r
with_queue r (some q) = record r { send_queue = q }

-- The result of qPush is not looked at.
unfoldable pub settle : Bool → ℕ → Receiver → After → Receiver
unfolding q_push
settle memory i r (push p) =
    with_queue (record r { sockets = set r.sockets i p }) (q_push memory i r.send_queue)
settle memory i r (finished p) = record r { sockets = set r.sockets i p; count = dec r.count }
settle memory i r (nothing p) = record r { sockets = set r.sockets i p }

-- fproc returns -1 also for an answer to another process: the program ends.
unfoldable pub processed : Bool → ℕ → Receiver → Processed → Received
unfolding settle after_reply
processed memory i r (success p) = received (settle memory i r (after_reply p))
processed memory i r (ignored p) = received (settle memory i r (after_reply p))
processed memory i r error = process_exits
processed memory i r out_of_bounds = stray_write

-- The host of an address; `none` where the map leads to no host.
unfoldable pub receive_host : ℕ → Bool → Packet → Timeval → ℕ → Receiver → Option Proto → Received
unfolding processed fproc
receive_host pid memory pk tv i r none = stray_write
receive_host pid memory pk tv i r (some p) = processed memory i r (fproc pid pk p tv)

-- The round when recvfrom gave a packet, from the address `ip`.
unfoldable pub receive : ℕ → Bool → CString → Packet → Timeval → Receiver → Received
unfolding receive_host
receive pid memory ip pk tv r = elim (find_in_map r.ip_proto_map ip) [
  | none ↦ received r
  | some i ↦ receive_host pid memory pk tv i r (get_elem? r.sockets i)
]

-- Whether the thread goes on to another round.
abbrev pub goes_on : Receiver → Bool
goes_on r = ltb_ℤ (pos 0) (r.count -ℤ r.fail)

-- The losses that printRtts counts for one host, over its three slots.
unfoldable host_losses : Proto → ℕ
host_losses p =
    (if eq_ℤ (get_or p.rtt 0 (pos 0)) (negsuc 0) then 1 else 0)
    + (if eq_ℤ (get_or p.rtt 1 (pos 0)) (negsuc 0) then 1 else 0)
    + (if eq_ℤ (get_or p.rtt 2 (pos 0)) (negsuc 0) then 1 else 0)

unfoldable count_losses : List Proto → ℕ
unfolding host_losses
count_losses [] = 0
count_losses (p ∷ ps) = host_losses p + count_losses ps

slot_bound : (b : Bool) → (if b then 1 else 0) ≤ 1
slot_bound true = omega arith
slot_bound false = omega arith

host_losses_bound : (p : Proto) → host_losses p ≤ 3
unfolding host_losses
host_losses_bound p = omega (
  arith,
  slot_bound (eq_ℤ (get_or p.rtt 0 (pos 0)) (negsuc 0)),
  slot_bound (eq_ℤ (get_or p.rtt 1 (pos 0)) (negsuc 0)),
  slot_bound (eq_ℤ (get_or p.rtt 2 (pos 0)) (negsuc 0)),
)

-- The number of successes in the statistics, `3 * unique_count - loss_count`, is not negative.
count_losses_bound : (ps : List Proto) → count_losses ps ≤ 3 * length ps
unfolding count_losses
count_losses_bound [] = omega arith
count_losses_bound (p ∷ ps) = omega (arith, host_losses_bound p, count_losses_bound ps)
