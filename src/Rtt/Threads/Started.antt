-- ===== src/Rtt/Threads/Started.antt =====
-- The threads from the set-up of main on: the hosts are counted by their kinds, and no receiver
-- stops by its counts before all its hosts are finished.
use netprog_assignments.Base.{
  ℕ, zero, suc, ◌+◌, ◌<◌, ◌≡◌, refl, Bool, true, false, Option, none, some, List, [], ◌∷◌, ◌++◌,
  ◌-ℤ◌, get_elem?, CString, arith, subst, inl, inr, Option-cases,
}
use netprog_assignments.Rtt.HashMap.{HashMap, find_in_map, Inserted, success, error, duplicate}
use netprog_assignments.Rtt.Queue.{Queue}
use netprog_assignments.Rtt.Proto.{Proto, init_ip}
use netprog_assignments.Rtt.Receive.{goes_on}
use netprog_assignments.Rtt.Setup.{
  IpStruct, Hosts, new_host, inserted_host, resolved_host, add_host, add_hosts,
}
use netprog_assignments.Rtt.Threads.{Threads, receiver_of, started, Reach}
use netprog_assignments.Rtt.Threads.Counting.{live, weight}
use netprog_assignments.Rtt.Threads.Waiting.{Covers, Reach-Covers}

-- Each count is that of the hosts of its kind, none of which is finished.
abbrev AreCounted : Hosts → Type 0
AreCounted h = (live true h.sockets ≡ h.ipv4_count) × (live false h.sockets ≡ h.ipv6_count)

abbrev OnHosts : Option Hosts → Type 0
OnHosts none = Unit
OnHosts (some h) = AreCounted h

live-append :
    (v4 : Bool) (ps : List Proto) (p : Proto) → live v4 (ps ++ p ∷ []) ≡ live v4 ps + weight v4 p
unfolding live
live-append v4 [] p = omega arith
live-append v4 (x ∷ ps) p = omega (arith, live-append v4 ps p)

module _ (resolve : IpStruct → Option (Bool × CString)) (memory : Bool) where
  new-AreCounted :
      (h : Hosts) (is_v4 : Bool) (t : HashMap ℕ)
      → AreCounted h
      → AreCounted (new_host resolve memory h is_v4 t)
  unfolding new_host init_ip
  new-AreCounted h true t (a, b) = (
    omega (arith, live-append true h.sockets (init_ip true), a),
    omega (arith, live-append false h.sockets (init_ip true), b),
  )
  new-AreCounted h false t (a, b) = (
    omega (arith, live-append true h.sockets (init_ip false), a),
    omega (arith, live-append false h.sockets (init_ip false), b),
  )

  inserted-OnHosts :
      (h : Hosts) (is_v4 : Bool) (o : Inserted (HashMap ℕ))
      → AreCounted h
      → OnHosts (inserted_host resolve memory h is_v4 o)
  unfolding inserted_host
  inserted-OnHosts h is_v4 (success t) c = new-AreCounted h is_v4 t c
  inserted-OnHosts h is_v4 error c = tt
  inserted-OnHosts h is_v4 duplicate c = c

  resolved-OnHosts :
      (h : Hosts) (o : Option (Bool × CString))
      → AreCounted h
      → OnHosts (resolved_host resolve memory h o)
  unfolding resolved_host
  resolved-OnHosts h none c = tt
  resolved-OnHosts h (some (v4, k)) c = inserted-OnHosts h v4 _ c

  add_host-OnHosts :
      (a : IpStruct) (h : Hosts) → AreCounted h → OnHosts (add_host resolve memory a h)
  unfolding add_host
  add_host-OnHosts a h c = elim (Option-cases (find_in_map h.ip_proto_map a.ip)) [
    | inl e ↦ rw (e, add_host) (resolved-OnHosts h (resolve a) c)
    | inr (i, e) ↦ rw (e, add_host) c
  ]

  add_hosts-OnHosts :
      (ips : List IpStruct) (h : Hosts) → AreCounted h → OnHosts (add_hosts resolve memory ips h)
  unfolding add_hosts
  add_hosts-OnHosts [] h c = c
  add_hosts-OnHosts (a ∷ ips) h c = elim (Option-cases (add_host resolve memory a h)) [
    | inl e ↦ rw (e, add_hosts) tt
    | inr (g, e) ↦
        rw (e, add_hosts) (add_hosts-OnHosts ips g (subst OnHosts e (add_host-OnHosts a h c)))
  ]

started-Covers : (h : Hosts) (q : Queue ℕ) → AreCounted h → (v4 : Bool) → Covers v4 (started h q)
unfolding started
started-Covers h q (a, b) true = (omega arith, λ i e. ground (arith, e))
started-Covers h q (a, b) false = (omega arith, λ i e. ground (arith, e))

stopped-none :
    (v4 : Bool) (t : Threads)
    → Covers v4 t
    → goes_on (receiver_of v4 t) ≡ false
    → live v4 t.sockets ≡ 0
unfolding receiver_of ◌-ℤ◌
stopped-none true t (c, k) h = ground (arith, c, h)
stopped-none false t (c, k) h = ground (arith, c, h)

none-live :
    (v4 : Bool) (ps : List Proto) (i : ℕ) (p : Proto)
    → live v4 ps ≡ 0
    → get_elem? ps i ≡ some p
    → weight v4 p ≡ 0
unfolding live
none-live v4 [] i p z h = ground arith
none-live v4 (x ∷ ps) zero p z h =
    let e : x ≡ p = ground (arith, h) in subst (λ y. weight v4 y ≡ 0) e (omega arith)
none-live v4 (x ∷ ps) (suc i) p z h = none-live v4 ps i p (omega arith) h

weight-zero : (v4 : Bool) (p : Proto) → p.is_v4 ≡ v4 → weight v4 p ≡ 0 → 3 < p.nsent
weight-zero true p k z = ground (arith, z)
weight-zero false p k z = ground (arith, z)

-- main before it reads the list.
abbrev pub no_hosts : HashMap ℕ → Hosts
no_hosts t = record { sockets = []; ip_proto_map = t; ipv4_count = 0; ipv6_count = 0 }

-- From the hosts that main sets up on, in any order of steps in which no receiver stores an answer
-- or looks at a count within a turn of the sender: when the count of a receiver less the failures
-- has come to 0, four requests or more are counted for each of its hosts.
pub stopped-finished :
    (resolve : IpStruct → Option (Bool × CString)) (memory : Bool) (m : HashMap ℕ)
    (ips : List IpStruct) (h : Hosts) (q : Queue ℕ) {t : Threads}
    → add_hosts resolve memory ips (no_hosts m) ≡ some h
    → Reach (started h q) t
    → (v4 : Bool) → goes_on (receiver_of v4 t) ≡ false
    → (i : ℕ) (p : Proto) → get_elem? t.sockets i ≡ some p
    → p.is_v4 ≡ v4
    → 3 < p.nsent
unfolding live
stopped-finished resolve memory m ips h q {t} e r v4 s i p f k =
    let c : AreCounted h =
      subst OnHosts e (add_hosts-OnHosts resolve memory ips (no_hosts m) (refl, refl)) in
    let z = stopped-none v4 t (Reach-Covers r (started-Covers h q c) v4) s in
    weight-zero v4 p k (none-live v4 t.sockets i p z f)
