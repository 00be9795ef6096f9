-- ===== src/Rtt/Threads/Counting.antt =====
-- What a turn of the sender does to the hosts that are not finished and to the failures.
use netprog_assignments.Base.{
  ℕ, zero, suc, ◌+◌, ◌≤◌, ◌≡◌, refl, ap, Bool, true, false, not, Option, none, some, List, [], ◌∷◌,
  ◌==◌, ltb, leb, if◌then◌else◌, ℤ, pos, negsuc, inc, pos_part, neg_part, ◌&&◌, get_elem?, set,
  arith, inl, inr, Bool-cases, if_either,
}
use netprog_assignments.Rtt.Queue.{Queue, Read, returns, fault, q_front, q_pop}
use netprog_assignments.Rtt.Proto.{Proto}
use netprog_assignments.Rtt.Send.{Sendto, fsend, send_loop, packet_len}
use netprog_assignments.Rtt.Turn.{
  Sender, Turned, running, null_dereference, popped, sent, give_up, not_sent, after_send, send_to,
  send_front, send_turn,
}

abbrev pub same_kind : Bool → Bool → Bool
same_kind true b = b
same_kind false b = not b

-- A host of the kind that is not finished.
abbrev pub weight : Bool → Proto → ℕ
weight v4 p = if same_kind v4 p.is_v4 && leb p.nsent 3 then 1 else 0

unfoldable pub live : Bool → List Proto → ℕ
live v4 [] = 0
live v4 (p ∷ ps) = weight v4 p + live v4 ps

pub live-set :
    (v4 : Bool) (ps : List Proto) (i : ℕ) (p q : Proto)
    → get_elem? ps i ≡ some p
    → live v4 (set ps i q) + weight v4 p ≡ live v4 ps + weight v4 q
unfolding live
live-set v4 [] i p q h = ground arith
live-set v4 (x ∷ ps) zero p q h = let e : x ≡ p = ground (arith, h) in rw e (omega arith)
live-set v4 (x ∷ ps) (suc i) p q h = omega (arith, live-set v4 ps i p q h)

weight-le :
    (v4 : Bool) (p q : Proto) → q.is_v4 ≡ p.is_v4 → p.nsent ≤ q.nsent → weight v4 q ≤ weight v4 p
weight-le true p q k n = ground arith
weight-le false p q k n = ground arith

pub live-set-le :
    (v4 : Bool) (ps : List Proto) (i : ℕ) (p q : Proto)
    → get_elem? ps i ≡ some p
    → q.is_v4 ≡ p.is_v4
    → p.nsent ≤ q.nsent
    → live v4 (set ps i q) ≤ live v4 ps
live-set-le v4 ps i p q h k n = omega (arith, live-set v4 ps i p q h, weight-le v4 p q k n)

-- The kinds of the hosts, which no step changes.
unfoldable pub kinds : List Proto → List Bool
kinds [] = []
kinds (p ∷ ps) = p.is_v4 ∷ kinds ps

pub kinds-set :
    (ps : List Proto) (i : ℕ) (p q : Proto)
    → get_elem? ps i ≡ some p
    → q.is_v4 ≡ p.is_v4
    → kinds (set ps i q) ≡ kinds ps
unfolding kinds
kinds-set [] i p q h k = refl
kinds-set (x ∷ ps) zero p q h k = ap (λ b. b ∷ kinds ps) (ground (arith, h, k))
kinds-set (x ∷ ps) (suc i) p q h k = ap (λ bs. x.is_v4 ∷ bs) (kinds-set ps i p q h k)

pub get_elem?-kinds :
    (ps : List Proto) (i : ℕ) (p : Proto)
    → get_elem? ps i ≡ some p
    → get_elem? (kinds ps) i ≡ some p.is_v4
unfolding kinds
get_elem?-kinds [] i p h = ground arith
get_elem?-kinds (x ∷ ps) zero p h = ground (arith, h)
get_elem?-kinds (x ∷ ps) (suc i) p h = get_elem?-kinds ps i p h

abbrev pub fail_of : Bool → Sender → ℤ
fail_of true s = s.ipv4_fail
fail_of false s = s.ipv6_fail

-- What is not finished and what failed, together, do not grow, and kinds stay.
abbrev pub Less : Bool → Sender → Turned → Type 0
Less v4 s null_dereference = Unit
Less v4 s (running u) =
    (live v4 u.sockets + pos_part (fail_of v4 u) + neg_part (fail_of v4 s)
      ≤ live v4 s.sockets + pos_part (fail_of v4 s) + neg_part (fail_of v4 u))
    × (kinds u.sockets ≡ kinds s.sockets)

popped-Less :
    (v4 : Bool) (s : Sender) (f : Queue ℕ → Sender) (r : Read (Queue ℕ))
    → ((q : Queue ℕ) → Less v4 s (running (f q)))
    → Less v4 s (popped f r)
popped-Less v4 s f (returns q) h = h q
popped-Less v4 s f fault h = tt

sent-Less :
    (v4 : Bool) (s : Sender) (i : ℕ) (p q : Proto)
    → get_elem? s.sockets i ≡ some p
    → q.is_v4 ≡ p.is_v4
    → p.nsent ≤ q.nsent
    → Less v4 s (sent i q s)
unfolding sent
sent-Less true s i p q h k n =
    popped-Less true s _ (q_pop s.send_queue)
      (λ r. (omega (arith, live-set-le true s.sockets i p q h k n), kinds-set s.sockets i p q h k))
sent-Less false s i p q h k n =
    popped-Less false s _ (q_pop s.send_queue)
      (λ r. (omega (arith, live-set-le false s.sockets i p q h k n), kinds-set s.sockets i p q h k))

inc_parts : (a : ℤ) → pos_part (inc a) + neg_part a ≡ suc (pos_part a) + neg_part (inc a)
inc_parts (pos n) = omega arith
inc_parts (negsuc zero) = omega arith
inc_parts (negsuc (suc n)) = omega arith

abbrev pub Passes : Bool → Sender → Option Turned → Type 0
Passes v4 s none = Unit
Passes v4 s (some t) = Less v4 s t

same-Less : (v4 : Bool) (s : Sender) → Less v4 s (running s)
same-Less v4 s = (omega arith, refl)

-- The host is put back, with no fewer requests, and the sends are counted.
kept-Less :
    (v4 : Bool) (s : Sender) (i : ℕ) (p q : Proto) (n : ℕ)
    → get_elem? s.sockets i ≡ some p
    → q.is_v4 ≡ p.is_v4
    → p.nsent ≤ q.nsent
    → Less v4 s (running (record s { sockets = set s.sockets i q; tot_send_cnt = n }))
kept-Less true s i p q n h k m =
    (omega (arith, live-set-le true s.sockets i p q h k m), kinds-set s.sockets i p q h k)
kept-Less false s i p q n h k m =
    (omega (arith, live-set-le false s.sockets i p q h k m), kinds-set s.sockets i p q h k)

give_up-Less :
    (v4 : Bool) (s : Sender) (i : ℕ) (p q : Proto)
    → get_elem? s.sockets i ≡ some p
    → q.is_v4 ≡ p.is_v4
    → p.nsent ≤ 3
    → q.nsent ≡ 3
    → Less v4 s (give_up i q s)
unfolding give_up
give_up-Less true s i p q h k n m =
    let done = record q { nsent = q.nsent + 1 } in
    popped-Less true s _ (q_pop s.send_queue) (λ r. (
      ground (arith, live-set true s.sockets i p done h, inc_parts s.ipv4_fail),
      kinds-set s.sockets i p done h k,
    ))
give_up-Less false s i p q h k n m =
    let done = record q { nsent = q.nsent + 1 } in
    popped-Less false s _ (q_pop s.send_queue) (λ r. (
      ground (arith, live-set false s.sockets i p done h, inc_parts s.ipv6_fail),
      kinds-set s.sockets i p done h k,
    ))

not_sent-Less :
    (v4 : Bool) (s : Sender) (i : ℕ) (p q : Proto)
    → get_elem? s.sockets i ≡ some p
    → q.is_v4 ≡ p.is_v4
    → q.nsent ≡ p.nsent + 1
    → Less v4 s (not_sent i q s)
unfolding not_sent
not_sent-Less v4 s i p q h k n = elim (Bool-cases (q.nsent == 3)) [
  | inl e ↦ rw e (give_up-Less v4 s i p q h k (ground (arith, e)) (ground (arith, e)))
  | inr e ↦ rw e (
      if_either (Less v4 s) (ltb q.nsent 3) (kept-Less v4 s i p _ _ h k (omega arith))
        (kept-Less v4 s i p _ _ h k (omega arith)))
]

after_send-Less :
    (v4 : Bool) (s : Sender) (i : ℕ) (p q : Proto) (r : Option (Bool × ℕ))
    → get_elem? s.sockets i ≡ some p
    → q.is_v4 ≡ p.is_v4
    → q.nsent ≡ p.nsent + 1
    → Passes v4 s (after_send i s (q, r))
unfolding after_send
after_send-Less v4 s i p q none h k n = tt
after_send-Less v4 s i p q (some (true, m)) h k n = sent-Less v4 s i p q h k (omega arith)
after_send-Less v4 s i p q (some (false, m)) h k n = not_sent-Less v4 s i p q h k n

send_to-Less :
    (v4 : Bool) (fuel : ℕ) (sendto : ℕ → ℕ → ℕ → Sendto) (s : Sender) (i : ℕ) (o : Option Proto)
    → get_elem? s.sockets i ≡ o
    → Passes v4 s (send_to fuel sendto s i o)
unfolding send_to fsend
send_to-Less v4 fuel sendto s i none h = tt
send_to-Less v4 fuel sendto s i (some p) h =
    after_send-Less v4 s i p (record p { nsent = p.nsent + 1 })
      (send_loop fuel sendto 0 packet_len 0) h refl refl

send_front-Less :
    (v4 : Bool) (fuel : ℕ) (sendto : ℕ → ℕ → ℕ → Sendto) (s : Sender) (r : Read (Option ℕ))
    → Passes v4 s (send_front fuel sendto s r)
unfolding send_front
send_front-Less v4 fuel sendto s fault = tt
send_front-Less v4 fuel sendto s (returns none) = tt
send_front-Less v4 fuel sendto s (returns (some i)) =
    send_to-Less v4 fuel sendto s i (get_elem? s.sockets i) refl

-- A turn of the sender does not raise what is not finished and what failed, together.
pub send_turn-Less :
    (v4 : Bool) (fuel : ℕ) (sendto : ℕ → ℕ → ℕ → Sendto) (s : Sender)
    → Passes v4 s (send_turn fuel sendto s)
unfolding send_turn
send_turn-Less v4 fuel sendto s =
    if_either (Passes v4 s) (ltb 0 s.send_queue.count)
      (send_front-Less v4 fuel sendto s (q_front (some s.send_queue))) (same-Less v4 s)
