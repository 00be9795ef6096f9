-- ===== src/Rtt/Tests.antt =====
-- Runs of the models of assignment-2/q1, and their properties at concrete inputs.
use netprog_assignments.Base.{
  ℕ, ◌%◌, ◌/◌, ◌≡◌, refl, Bool, true, false, Option, none, some, CString, List, [], ◌∷◌, pos,
  negsuc, ◌+ℤ◌, ◌-ℤ◌, codes, arith, lookup, str_eq, replicate, get_or-replicate, min,
}
use netprog_assignments.Rtt.Queue.{Queue}
use netprog_assignments.Rtt.HashMap.{
  HashMap, djb2_hash, find_in_map, insert_into_map, Bucket, empty_bucket,
}
use netprog_assignments.Rtt.HashMap.Laws.{IsTable, Inserts, insert_into_map-Inserts}
use netprog_assignments.Rtt.Checksum.{in_cksum, sum_words, fold_carry, in_cksum-verifies}
use netprog_assignments.Rtt.Time.{Timeval, tv_sub}
use netprog_assignments.Rtt.Proto.{
  Proto, Packet, Answered, fproc, fproc-Answered, after_reply, finished,
}
use netprog_assignments.Rtt.Setup.{IpStruct, Hosts, parse_ip_list, add_hosts}
use netprog_assignments.Rtt.Setup.Adding.{AreHosts, Added, add_hosts-Added}
use netprog_assignments.Rtt.Receive.{Receiver, receive}
use netprog_assignments.Rtt.Receive.Rounds.{Round, receive-Round}
use netprog_assignments.Rtt.Send.{Sendto, took, IsSendto, IsSent, send_loop, send_loop-IsSent}

abbrev two : Queue ℕ
two = record { front = 5 ∷ 6 ∷ []; count = 2 }

abbrev four_buckets : HashMap ℕ
four_buckets = record { buckets = replicate 4 empty_bucket; map_size = 4 }

abbrev one_host : HashMap ℕ
one_host = record {
  buckets = record { head = (codes "::1", 0) ∷ []; capacity = 1 } ∷ [];
  map_size = 1;
}

four_buckets-IsTable : IsTable four_buckets
four_buckets-IsTable = record {
  width = refl;
  some_bucket = omega arith;
  counted = λ i. rw (get_or-replicate {A = Bucket ℕ} 4 i empty_bucket) refl;
}

insert_into_map-Inserts_example :
    Inserts true four_buckets
      (codes "10.0.0.1")
      7
      (insert_into_map true four_buckets (codes "10.0.0.1") 7)
insert_into_map-Inserts_example =
    insert_into_map-Inserts true four_buckets (codes "10.0.0.1") 7 four_buckets-IsTable

in_cksum-verifies_example :
    let sum = in_cksum (8 ∷ 0 ∷ 0 ∷ 0 ∷ 17 ∷ 34 ∷ []) in
    in_cksum (8 ∷ 0 ∷ sum % 256 ∷ sum / 256 ∷ 17 ∷ 34 ∷ []) ≡ 0
in_cksum-verifies_example =
    in_cksum-verifies 8 0 (17 ∷ 34 ∷ [])
      (omega arith, (omega arith, (omega arith, (omega arith, tt)))) (omega arith)

in_cksum_run : in_cksum (8 ∷ 0 ∷ 0 ∷ 0 ∷ 17 ∷ 34 ∷ []) ≡ 56806
unfolding in_cksum sum_words fold_carry
in_cksum_run = refl

abbrev later : Timeval
later = record { tv_sec = pos 12; tv_usec = pos 100 }

abbrev earlier : Timeval
earlier = record { tv_sec = pos 11; tv_usec = pos 999900 }

tv_sub_run : tv_sub later earlier ≡ record { tv_sec = pos 0; tv_usec = pos 200 }
unfolding tv_sub ◌+ℤ◌ ◌-ℤ◌
tv_sub_run = refl

abbrev answered_thrice : Proto
answered_thrice = record { is_v4 = false; nsent = 3; rtt = pos 10 ∷ pos 20 ∷ pos 30 ∷ [] }

abbrev reply : Packet
reply = record { ip_p = 58; ip_hl = 0; len = 64; kind = 129; id = 77; tvsend = earlier }

fproc-Answered_example :
    Answered 77 later reply answered_thrice (fproc 77 reply answered_thrice later)
fproc-Answered_example = fproc-Answered 77 reply answered_thrice later

thrice_finished : after_reply answered_thrice ≡ finished (record answered_thrice { nsent = 4 })
unfolding after_reply
thrice_finished = refl

abbrev thirty_at_most : ℕ → ℕ → ℕ → Sendto
thirty_at_most i len offset = took (min 30 len)

thirty-IsSendto : IsSendto thirty_at_most
thirty-IsSendto i len offset n h e = ground arith

send_loop-IsSent_example : IsSent 64 0 (send_loop 65 thirty_at_most 0 64 0)
send_loop-IsSent_example = send_loop-IsSent 65 thirty_at_most 0 64 0 thirty-IsSendto (omega arith)

abbrev once : Proto
once = record { is_v4 = true; nsent = 1; rtt = pos 10 ∷ negsuc 0 ∷ negsuc 0 ∷ [] }

parse_ip_list_run :
    parse_ip_list [] (codes "10.0.0.1" ∷ codes "::1" ∷ codes "10.0.0.1" ∷ [])
    ≡ some (
        record { is_v4 = true; ip = codes "10.0.0.1" }
        ∷ record { is_v4 = false; ip = codes "::1" }
        ∷ record { is_v4 = true; ip = codes "10.0.0.1" }
        ∷ [])
unfolding parse_ip_list
parse_ip_list_run = refl

abbrev plain : IpStruct → Option (Bool × CString)
plain a = some (a.is_v4, a.ip)

abbrev addresses : List IpStruct
addresses =
    record { is_v4 = true; ip = codes "10.0.0.1" }
    ∷ record { is_v4 = false; ip = codes "::1" }
    ∷ record { is_v4 = true; ip = codes "10.0.0.1" }
    ∷ []

abbrev no_hosts : Hosts
no_hosts = record { sockets = []; ip_proto_map = four_buckets; ipv4_count = 0; ipv6_count = 0 }

abbrev kinds : Option Hosts → Option (ℕ × ℕ)
kinds none = none
kinds (some h) = some (h.ipv4_count, h.ipv6_count)

add_hosts_run : kinds (add_hosts plain true addresses no_hosts) ≡ some (1, 1)
unfolding add_hosts find_in_map djb2_hash lookup str_eq
add_hosts_run = refl

none_found : (k : CString) → find_in_map four_buckets k ≡ none
unfolding find_in_map
none_found k = rw (get_or-replicate {A = Bucket ℕ} 4 (djb2_hash k 4) empty_bucket) refl

no_hosts-AreHosts : AreHosts no_hosts
unfolding find_in_map
no_hosts-AreHosts = record {
  table = four_buckets-IsTable;
  leads = λ k i e. ground (arith, none_found k, e);
  counted = refl;
}

add_hosts-Added_example :
    Added plain true addresses no_hosts (add_hosts plain true addresses no_hosts)
add_hosts-Added_example = add_hosts-Added plain true addresses no_hosts no_hosts-AreHosts

abbrev answered_twice : Receiver
answered_twice = record {
  sockets = answered_thrice ∷ [];
  ip_proto_map = one_host;
  send_queue = two;
  count = pos 1;
  fail = pos 0;
}

receive-Round_example :
    Round (codes "::1") answered_twice (receive 77 true (codes "::1") reply later answered_twice)
receive-Round_example = receive-Round 77 true (codes "::1") reply later answered_twice
