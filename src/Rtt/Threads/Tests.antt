-- ===== src/Rtt/Threads/Tests.antt =====
-- A run of the threads of assignment-2/q1/rtt.c over one host that cannot be sent to.
use netprog_assignments.Base.{
  ℕ, ◌≡◌, ◌<◌, refl, Bool, true, false, Option, some, List, [], ◌∷◌, pos, negsuc, ◌-ℤ◌, CString,
  codes, get_elem?, lookup, str_eq,
}
use netprog_assignments.Rtt.Queue.{Queue}
use netprog_assignments.Rtt.HashMap.{HashMap, djb2_hash, find_in_map, empty_bucket}
use netprog_assignments.Rtt.Proto.{init_ip}
use netprog_assignments.Rtt.Setup.{IpStruct, Hosts, add_hosts}
use netprog_assignments.Rtt.Receive.{goes_on}
use netprog_assignments.Rtt.Turn.{no_network, send_turn}
use netprog_assignments.Rtt.Threads.{
  Threads, started, sends_on, sender_of, with_sender, receiver_of, Step, send, here, later,
}
use netprog_assignments.Rtt.Threads.Started.{no_hosts, stopped-finished}

abbrev plain : IpStruct → Option (Bool × CString)
plain a = some (a.is_v4, a.ip)

abbrev tries : ℕ
tries = 4

abbrev one_host : HashMap ℕ
one_host = record {
  buckets = record { head = (codes "10.0.0.1", 0) ∷ []; capacity = 1 } ∷ [];
  map_size = 1;
}

abbrev one_address : List IpStruct
one_address = record { is_v4 = true; ip = codes "10.0.0.1" } ∷ []

abbrev one_bucket : HashMap ℕ
one_bucket = record { buckets = empty_bucket ∷ []; map_size = 1 }

abbrev lone : Hosts
lone = record {
  sockets = init_ip true ∷ [];
  ip_proto_map = one_host;
  ipv4_count = 1;
  ipv6_count = 0;
}

lone_run : add_hosts plain true one_address (no_hosts one_bucket) ≡ some lone
unfolding add_hosts find_in_map djb2_hash lookup str_eq
lone_run = refl

abbrev queued : Queue ℕ
queued = record { front = 0 ∷ []; count = 1 }

abbrev tried : Threads
tried = record (started lone queued) {
  sockets = record { is_v4 = true; nsent = 2; rtt = negsuc 0 ∷ negsuc 0 ∷ negsuc 0 ∷ [] } ∷ [];
  tot_send_cnt = 1;
}

abbrev given_up : Threads
given_up = record (started lone queued) {
  sockets = record { is_v4 = true; nsent = 4; rtt = negsuc 0 ∷ negsuc 0 ∷ negsuc 0 ∷ [] } ∷ [];
  send_queue = record { front = []; count = 0 };
  tot_send_cnt = 2;
  ipv4_fail = pos 1;
}

first_try : Step (started lone queued) tried
unfolding started sender_of with_sender send_turn init_ip sends_on
first_try = send 65 no_network (sender_of tried) refl refl

second_try : Step tried given_up
unfolding started sender_of with_sender send_turn init_ip sends_on
second_try = send 65 no_network (sender_of given_up) refl refl

stopped_run : goes_on (receiver_of true given_up) ≡ false
unfolding receiver_of ◌-ℤ◌ started
stopped_run = refl

given_up_run :
    get_elem? given_up.sockets 0
    ≡ some (record { is_v4 = true; nsent = 4; rtt = negsuc 0 ∷ negsuc 0 ∷ negsuc 0 ∷ [] })
given_up_run = refl

stopped-finished_example : 3 < tries
stopped-finished_example =
    stopped-finished plain true one_bucket one_address lone queued lone_run
      (later (later here first_try) second_try) true stopped_run 0
      (record { is_v4 = true; nsent = 4; rtt = negsuc 0 ∷ negsuc 0 ∷ negsuc 0 ∷ [] }) given_up_run
      refl
