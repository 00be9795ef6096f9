-- ===== src/Rtt/Setup.antt =====
-- The list of addresses of assignment-2/q1: parseIpList of utils.c, and main of rtt.c up to the
-- start of the threads. A `struct proto *` is an index in `sockets`.
pub mod Adding
use netprog_assignments.Base.{
  ℕ, zero, suc, ◌+◌, Bool, true, false, Option, none, some, List, [], ◌∷◌, ◌++◌, ◌==◌,
  if◌then◌else◌, ltb, leb, length, drop, CString,
}
use netprog_assignments.Rtt.HashMap.{
  HashMap, init_map, find_in_map, insert_into_map, Inserted, success, error, duplicate,
}
use netprog_assignments.Rtt.Proto.{Proto, init_ip}
use netprog_assignments.Rtt.Queue.{Queue, init_queue, q_push}

pub record IpStruct : Type 0 where
  pub is_v4 : Bool
  pub ip : CString

-- The first dot or colon in the buffer's first ten places; a new `ip_struct` is not of IPv4.
abbrev dot_first : ℕ → CString → Bool
dot_first zero s = false
dot_first (suc n) [] = false
dot_first (suc n) (c ∷ s) = if c == b'.' then true else if c == b':' then false else dot_first n s

-- The buffer once fscanf has put a word and its 0 into it: what was there stays behind them.
abbrev scanned : CString → CString → CString
scanned s buffer = s ++ 0 ∷ drop (length s + 1) buffer

abbrev with_ip : IpStruct → Option (List IpStruct) → Option (List IpStruct)
with_ip a none = none
with_ip a (some ips) = some (a ∷ ips)

-- `none` is a write past the buffer: a word may have 99 characters.
abbrev read_list : CString → List CString → Option (List IpStruct)
read_list buffer [] = some []
read_list buffer (s ∷ ss) =
    let rest = read_list (scanned s buffer) ss in
    if ltb (length s) 100
    then with_ip (record { is_v4 = dot_first 10 (scanned s buffer); ip = s }) rest
    else none

-- The words of the file. `none` is a write past the buffer or the list: at 1000 addresses the
-- list is given 2000 bytes. The buffer is not initialised.
unfoldable pub parse_ip_list : CString → List CString → Option (List IpStruct)
parse_ip_list buffer ss = if leb (length ss) 1000 then read_list buffer ss else none

pub record Hosts : Type 0 where
  pub sockets : List Proto
  pub ip_proto_map : HashMap ℕ
  pub ipv4_count : ℕ
  pub ipv6_count : ℕ

-- initIp gives the kind of the socket and getIpAddrFromProto the text of its address; `none` is
-- a failure of either.
module _ (resolve : IpStruct → Option (Bool × CString)) (memory : Bool) where
  unfoldable pub new_host : Hosts → Bool → HashMap ℕ → Hosts
  new_host h is_v4 t = record {
    sockets = h.sockets ++ init_ip is_v4 ∷ [];
    ip_proto_map = t;
    ipv4_count = if is_v4 then h.ipv4_count + 1 else h.ipv4_count;
    ipv6_count = if is_v4 then h.ipv6_count else h.ipv6_count + 1;
  }

  -- `none` ends the process. A text that is there already leaves everything as it is.
  unfoldable pub inserted_host : Hosts → Bool → Inserted (HashMap ℕ) → Option Hosts
  unfolding new_host
  inserted_host h is_v4 (success t) = some (new_host h is_v4 t)
  inserted_host h is_v4 error = none
  inserted_host h is_v4 duplicate = some h

  unfoldable pub resolved_host : Hosts → Option (Bool × CString) → Option Hosts
  unfolding inserted_host insert_into_map
  resolved_host h none = none
  resolved_host h (some r) =
      inserted_host h (r.0) (insert_into_map memory h.ip_proto_map (r.1) (length h.sockets))

  -- The body of the loop over the list.
  unfoldable pub add_host : IpStruct → Hosts → Option Hosts
  unfolding resolved_host
  add_host a h = elim (find_in_map h.ip_proto_map a.ip) [
    | some i ↦ some h
    | none ↦ resolved_host h (resolve a)
  ]

  unfoldable pub add_hosts : List IpStruct → Hosts → Option Hosts
  unfolding add_host
  add_hosts [] h = some h
  add_hosts (a ∷ ips) h = elim (add_host a h) [ none ↦ none | some g ↦ add_hosts ips g ]

  -- The loop that queues the hosts from place `i` on.
  unfoldable queue_from : ℕ → ℕ → Queue ℕ → Option (Queue ℕ)
  queue_from zero i q = some q
  queue_from (suc n) i q = elim (q_push memory i q) [
    | none ↦ none
    | some r ↦ queue_from n (suc i) r
  ]
