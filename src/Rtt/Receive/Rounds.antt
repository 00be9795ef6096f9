-- ===== src/Rtt/Receive/Rounds.antt =====
-- What a round of ip4RecvHelper or ip6RecvHelper leaves as it was.
use netprog_assignments.Base.{
  ℕ, ◌+◌, ◌≡◌, ◌≢◌, ◌⊎◌, ◌<◌, get_elem?-set_self, get_elem?-set_ne, Bool-cases, refl, Bool, Option,
  none, some, ◌==◌, ltb, length, get_elem?, set, dec, CString, arith, Option-cases, inl, inr,
  length-set,
}
use netprog_assignments.Rtt.HashMap.{find_in_map}
use netprog_assignments.Rtt.Queue.{q_push}
use netprog_assignments.Rtt.Proto.{
  Proto, Packet, Processed, success, error, ignored, out_of_bounds, fproc, after_reply, Answered,
  fproc-Answered,
}
use netprog_assignments.Rtt.Time.{Timeval}
use netprog_assignments.Rtt.Receive.{
  Receiver, Received, received, process_exits, stray_write, settle, processed, receive_host,
  receive,
}

-- The round leaves the map, the failures and all hosts but number `i` as they were; one host
-- less is waited for only when the third answer of the host, `p`, came, which it then has as
-- finished.
abbrev OnlyHost : ℕ → Receiver → Proto → Receiver → Type 0
OnlyHost i r p g =
    (g.ip_proto_map ≡ r.ip_proto_map)
    × (g.fail ≡ r.fail)
    × (length g.sockets ≡ length r.sockets)
    × ((j : ℕ) → i ≢ j → get_elem? g.sockets j ≡ get_elem? r.sockets j)
    × ((g.count ≡ r.count)
        ⊎ ((g.count ≡ dec r.count)
            × (p.nsent ≡ 3)
            × ((q : Proto) × (get_elem? g.sockets i ≡ some q) × (q.nsent ≡ 4))))

abbrev IsRound : ℕ → Receiver → Option Proto → Received → Type 0
IsRound i r none stray_write = Unit
IsRound i r none (received g) = ⊥
IsRound i r none process_exits = ⊥
IsRound i r (some p) (received g) = OnlyHost i r p g
IsRound i r (some p) process_exits = Unit
IsRound i r (some p) stray_write = (p.nsent ≡ 0) ⊎ (length p.rtt < p.nsent)

third_answer :
    (i : ℕ) (r : Receiver) (p q : Proto)
    → get_elem? r.sockets i ≡ some p
    → p.nsent ≡ 3
    → q.nsent ≡ 3
    → OnlyHost i r p (record r {
      sockets = set r.sockets i (record q { nsent = q.nsent + 1 });
      count = dec r.count;
    })
third_answer i r p q at e f =
    let done : Proto = record q { nsent = q.nsent + 1 } in
    (
      refl,
      refl,
      length-set r.sockets i done,
      λ j k. get_elem?-set_ne r.sockets i j done k,
      inr (refl, e, (done, get_elem?-set_self r.sockets i p done at, omega (arith, f))),
    )

settle-OnlyHost :
    (memory : Bool) (i : ℕ) (r : Receiver) (p q : Proto)
    → get_elem? r.sockets i ≡ some p
    → q.nsent ≡ p.nsent
    → OnlyHost i r p (settle memory i r (after_reply q))
unfolding settle after_reply
settle-OnlyHost memory i r p q at n =
    let size = length-set r.sockets i q in
    let others : (j : ℕ) → i ≢ j → get_elem? (set r.sockets i q) j ≡ get_elem? r.sockets j =
      λ j k. get_elem?-set_ne r.sockets i j q k in
    elim (Bool-cases (ltb q.nsent 3)) [
      | inl e ↦ rw e (elim (Option-cases (q_push memory i r.send_queue)) [
        | inl f ↦ rw f (refl, refl, size, others, inl refl)
        | inr (w, f) ↦ rw f (refl, refl, size, others, inl refl)
      ])
      | inr e ↦ rw e (elim (Bool-cases (q.nsent == 3)) [
        | inl f ↦ rw f (third_answer i r p q at (ground (arith, f, n)) (ground (arith, f)))
        | inr f ↦ rw f (refl, refl, size, others, inl refl)
      ])
    ]

processed-IsRound :
    (pid : ℕ) (memory : Bool) (i : ℕ) (r : Receiver) (p : Proto) (tv : Timeval) (pk : Packet)
    (o : Processed)
    → get_elem? r.sockets i ≡ some p
    → Answered pid tv pk p o
    → IsRound i r (some p) (processed memory i r o)
unfolding processed
processed-IsRound pid memory i r p tv pk (success q) at (w, e, f, (n, b, m, o), v) =
    settle-OnlyHost memory i r p q at n
processed-IsRound pid memory i r p tv pk (ignored q) at (w, e, (n, b, m, o), v) =
    settle-OnlyHost memory i r p q at n
processed-IsRound pid memory i r p tv pk error at a = tt
processed-IsRound pid memory i r p tv pk out_of_bounds at (w, e, a) = a

-- What a round does at an address: nothing where it is unknown.
abbrev pub Round : CString → Receiver → Received → Type 0
Round ip r out =
    ((find_in_map r.ip_proto_map ip ≡ none) × (out ≡ received r))
    ⊎ ((i : ℕ) × (find_in_map r.ip_proto_map ip ≡ some i) × IsRound i r (get_elem? r.sockets i) out)

host-IsRound :
    (pid : ℕ) (memory : Bool) (pk : Packet) (tv : Timeval) (r : Receiver) (i : ℕ) (o : Option Proto)
    → get_elem? r.sockets i ≡ o
    → IsRound i r o (receive_host pid memory pk tv i r o)
unfolding receive_host
host-IsRound pid memory pk tv r i none at = tt
host-IsRound pid memory pk tv r i (some p) at =
    processed-IsRound pid memory i r p tv pk (fproc pid pk p tv) at (fproc-Answered pid pk p tv)

-- A packet from an address that the map does not know changes nothing. From a known one, it
-- ends the process or, of the hosts, the map and the failures, changes the host of the address
-- alone; one host less is waited for only when that host had three requests counted, and it has
-- four from there on. A write out of bounds needs a map that leads to no host, or a host with no
-- request, or more than it has slots, counted.
pub receive-Round :
    (pid : ℕ) (memory : Bool) (ip : CString) (pk : Packet) (tv : Timeval) (r : Receiver)
    → Round ip r (receive pid memory ip pk tv r)
unfolding receive
receive-Round pid memory ip pk tv r = elim (Option-cases (find_in_map r.ip_proto_map ip)) [
  | inl e ↦ inl (e, rw (e, receive) refl)
  | inr (i, e) ↦
      inr (i, e, rw (e, receive) (host-IsRound pid memory pk tv r i (get_elem? r.sockets i) refl))
]
