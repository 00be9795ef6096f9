-- ===== src/Rtt/Threads/Waiting.antt =====
-- A receiver waits for every host that is not finished, whatever the threads' steps.
use netprog_assignments.Base.{
  ℕ, zero, suc, ◌+◌, ◌≤◌, ◌<◌, ◌≡◌, ◌∙◌, refl, ap, Bool, true, false, not, Option, none, some, List,
  ◌==◌, ltb, ℤ, pos, negsuc, dec, pos_part, neg_part, get_elem?, set, arith, subst, inl, inr,
  Bool-cases,
}
use netprog_assignments.Rtt.Queue.{Queue, q_push}
use netprog_assignments.Rtt.Proto.{
  Proto, Packet, Processed, success, error, ignored, out_of_bounds, fproc, Answered, fproc-Answered,
  after_reply,
}
use netprog_assignments.Rtt.Time.{Timeval}
use netprog_assignments.Rtt.Turn.{Sender, running}
use netprog_assignments.Rtt.Receive.{Receiver, settle, with_queue}
use netprog_assignments.Rtt.Threads.{
  Threads, sender_of, with_sender, receiver_of, with_receiver, pending, with_pending, stored, Step,
  send, store, look, Reach, here, later,
}
use netprog_assignments.Rtt.Threads.Counting.{
  live, live-set, live-set-le, weight, kinds, kinds-set, get_elem?-kinds, Less, Passes,
  send_turn-Less,
}

abbrev pub count : Bool → Threads → ℤ
count true t = t.ipv4_count
count false t = t.ipv6_count

abbrev pub fail : Bool → Threads → ℤ
fail true t = t.ipv4_fail
fail false t = t.ipv6_fail

-- A receiver's count covers its failures and its hosts that are not finished, and the host that
-- it is about to look at is of its kind.
abbrev pub Covers : Bool → Threads → Type 0
Covers v4 t =
    (live v4 t.sockets + pos_part (fail v4 t) + neg_part (count v4 t)
      ≤ pos_part (count v4 t) + neg_part (fail v4 t))
    × ((i : ℕ) → pending v4 t ≡ some i → get_elem? (kinds t.sockets) i ≡ some v4)

send-Covers :
    (v4 : Bool) (t : Threads) (s : Sender)
    → Less v4 (sender_of t) (running s)
    → Covers v4 t
    → Covers v4 (with_sender t s)
unfolding sender_of with_sender
send-Covers true t s (l, k) (c, h) = (omega arith, λ i e. rw k (h i e))
send-Covers false t s (l, k) (c, h) = (omega arith, λ i e. rw k (h i e))

stored-same :
    (pid : ℕ) (tv : Timeval) (pk : Packet) (p q : Proto) (r : Processed)
    → Answered pid tv pk p r
    → stored r ≡ some q
    → (q.is_v4 ≡ p.is_v4) × (q.nsent ≡ p.nsent)
stored-same pid tv pk p q (success r) (w, x, o, (n, k, l, m), v) e = ground (arith, n, k, e)
stored-same pid tv pk p q (ignored r) (w, x, (n, k, l, m), v) e = ground (arith, n, k, e)
stored-same pid tv pk p q error a e = ground arith
stored-same pid tv pk p q out_of_bounds a e = ground arith

-- A host is put back with its kind and no fewer requests.
abbrev Puts : Threads → List Proto → Type 0
Puts t ps = ((v4 : Bool) → live v4 ps ≤ live v4 t.sockets) × (kinds ps ≡ kinds t.sockets)

store-Covers :
    (v4 v : Bool) (t : Threads) (i : ℕ) (ps : List Proto)
    → Puts t ps
    → get_elem? (kinds t.sockets) i ≡ some v
    → Covers v4 t
    → Covers v4 (with_pending v (record t { sockets = ps }) (some i))
store-Covers true true t i ps (l, k) g (c, h) =
    (omega (arith, l true), λ j e. rw k (ground (arith, g, e)))
store-Covers true false t i ps (l, k) g (c, h) = (omega (arith, l true), λ j e. rw k (h j e))
store-Covers false true t i ps (l, k) g (c, h) = (omega (arith, l false), λ j e. rw k (h j e))
store-Covers false false t i ps (l, k) g (c, h) =
    (omega (arith, l false), λ j e. rw k (ground (arith, g, e)))

dec_parts : (a : ℤ) → suc (pos_part (dec a)) + neg_part a ≡ pos_part a + neg_part (dec a)
dec_parts (pos zero) = omega arith
dec_parts (pos (suc n)) = omega arith
dec_parts (negsuc n) = omega arith

-- A receiver of the kind, after it has looked at a host of its kind.
abbrev Settles : Bool → Receiver → Receiver → Type 0
Settles v r g =
    (live v g.sockets + neg_part g.count + pos_part r.count
      ≤ live v r.sockets + pos_part g.count + neg_part r.count)
    × (live (not v) g.sockets ≤ live (not v) r.sockets)
    × (kinds g.sockets ≡ kinds r.sockets)

kept-Settles :
    (v : Bool) (r : Receiver) (i : ℕ) (p : Proto)
    → get_elem? r.sockets i ≡ some p
    → Settles v r (record r { sockets = set r.sockets i p })
kept-Settles v r i p h = (
  omega (arith, live-set-le v r.sockets i p p h refl (omega arith)),
  live-set-le (not v) r.sockets i p p h refl (omega arith),
  kinds-set r.sockets i p p h refl,
)

queued-Settles :
    (v : Bool) (r g : Receiver) (q : Option (Queue ℕ))
    → Settles v r g
    → Settles v r (with_queue g q)
queued-Settles v r g none h = h
queued-Settles v r g (some q) h = h

weight_third : (v : Bool) (p : Proto) → p.is_v4 ≡ v → p.nsent ≡ 3 → weight v p ≡ 1
weight_third true p k n = ground arith
weight_third false p k n = ground arith

weight_finished : (v : Bool) (p : Proto) → 3 < p.nsent → weight v p ≡ 0
weight_finished true p n = ground arith
weight_finished false p n = ground arith

finished-Settles :
    (v : Bool) (r : Receiver) (i : ℕ) (p : Proto)
    → get_elem? r.sockets i ≡ some p
    → p.is_v4 ≡ v
    → p.nsent ≡ 3
    → Settles v r (record r {
      sockets = set r.sockets i (record p { nsent = p.nsent + 1 });
      count = dec r.count;
    })
finished-Settles v r i p h k n =
    let q : Proto = record p { nsent = p.nsent + 1 } in
    (
      let a : live v (set r.sockets i q) + weight v p ≡ live v r.sockets + weight v q =
            live-set v r.sockets i p q h in
          let b : weight v p ≡ 1 = weight_third v p k n in
          let c : weight v q ≡ 0 = weight_finished v q (omega arith) in
          omega (arith, dec_parts r.count),
      live-set-le (not v) r.sockets i p q h refl (omega arith),
      kinds-set r.sockets i p q h refl,
    )

look-Settles :
    (v memory : Bool) (r : Receiver) (i : ℕ) (p : Proto)
    → get_elem? r.sockets i ≡ some p
    → p.is_v4 ≡ v
    → Settles v r (settle memory i r (after_reply p))
unfolding settle after_reply
look-Settles v memory r i p h k = elim (Bool-cases (ltb p.nsent 3)) [
  | inl e ↦ rw e (queued-Settles v r _ (q_push memory i r.send_queue) (kept-Settles v r i p h))
  | inr e ↦ rw e (elim (Bool-cases (p.nsent == 3)) [
    | inl f ↦ rw f (finished-Settles v r i p h k (ground (arith, f)))
    | inr f ↦ rw f (kept-Settles v r i p h)
  ])
]

look-Covers :
    (v4 v : Bool) (t : Threads) (g : Receiver)
    → Settles v (receiver_of v t) g
    → Covers v4 t
    → Covers v4 (with_pending v (with_receiver v t g) none)
unfolding receiver_of with_receiver
look-Covers true true t g (l, m, k) (c, h) = (omega arith, λ j e. ground (arith, e))
look-Covers true false t g (l, m, k) (c, h) = (omega arith, λ j e. rw k (h j e))
look-Covers false true t g (l, m, k) (c, h) = (omega arith, λ j e. rw k (h j e))
look-Covers false false t g (l, m, k) (c, h) = (omega arith, λ j e. ground (arith, e))

fits-Covers :
    (v4 v : Bool) (t : Threads) (i : ℕ) (p q : Proto)
    → get_elem? t.sockets i ≡ some p
    → p.is_v4 ≡ v
    → (q.is_v4 ≡ p.is_v4) × (q.nsent ≡ p.nsent)
    → Covers v4 t
    → Covers v4 (with_pending v (record t { sockets = set t.sockets i q }) (some i))
fits-Covers v4 v t i p q h k (a, b) c =
    store-Covers v4 v t i (set t.sockets i q)
      (λ w. live-set-le w t.sockets i p q h a (omega arith), kinds-set t.sockets i p q h a)
      (get_elem?-kinds t.sockets i p h ∙ ap some k) c

own_kind :
    (v : Bool) (t : Threads) (i : ℕ) (p : Proto)
    → Covers v t
    → pending v t ≡ some i
    → get_elem? t.sockets i ≡ some p
    → p.is_v4 ≡ v
own_kind v t i p (c, h) e f = ground (arith, h i e, get_elem?-kinds t.sockets i p f)

look-at :
    (v : Bool) (t : Threads) (i : ℕ) (p : Proto)
    → get_elem? t.sockets i ≡ some p
    → get_elem? (receiver_of v t).sockets i ≡ some p
unfolding receiver_of
look-at v t i p e = e

-- Every step keeps the counts of both receivers over their hosts that are not finished.
Step-Covers : {t u : Threads} → Step t u → ((v : Bool) → Covers v t) → (v4 : Bool) → Covers v4 u
Step-Covers {t} (send fuel sendto s o e) c v4 =
    send-Covers v4 t s
      (subst (Passes v4 (sender_of t)) e (send_turn-Less v4 fuel sendto (sender_of t))) (c v4)
Step-Covers {t} (store v pid ip pk tv i p q n g f h k e) c v4 =
    fits-Covers v4 v t i p q h k
      (stored-same pid tv pk p q (fproc pid pk p tv) (fproc-Answered pid pk p tv) e) (c v4)
Step-Covers {t} (look v memory i p e f) c v4 =
    look-Covers v4 v t _
      (look-Settles v memory (receiver_of v t) i p (look-at v t i p f) (own_kind v t i p (c v) e f))
      (c v4)

pub Reach-Covers :
    {t u : Threads} → Reach t u → ((v : Bool) → Covers v t) → (v4 : Bool) → Covers v4 u
Reach-Covers here c v4 = c v4
Reach-Covers (later r s) c v4 = Step-Covers s (Reach-Covers r c) v4
