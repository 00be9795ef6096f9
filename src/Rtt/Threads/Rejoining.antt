-- ===== src/Rtt/Threads/Rejoining.antt =====
-- The two steps of a receiver, with nothing between them, are its round.
use netprog_assignments.Base.{
  ℕ, zero, suc, ◌≡◌, ◌∙◌, refl, sym, ap, Bool, true, false, Option, none, some, List, [], ◌∷◌, set,
  get_elem?, get_elem?-set_self, CString, arith, subst,
}
use netprog_assignments.Rtt.HashMap.{find_in_map}
use netprog_assignments.Rtt.Proto.{
  Proto, Packet, Processed, success, error, ignored, out_of_bounds, fproc, After, push, finished,
  nothing, after_reply,
}
use netprog_assignments.Rtt.Time.{Timeval}
use netprog_assignments.Rtt.Receive.{
  Receiver, received, settle, processed, receive_host, receive, goes_on,
}
use netprog_assignments.Rtt.Threads.{
  Threads, receiver_of, with_receiver, pending, with_pending, held, looked, receive_round, stored,
  Step, store, look, Reach, here, later,
}

set-set {ℓ} : {A : Type ℓ} (xs : List A) (i : ℕ) (x y : A) → set (set xs i x) i y ≡ set xs i y
set-set [] i x y = refl
set-set (z ∷ xs) zero x y = refl
set-set (z ∷ xs) (suc i) x y = ap (λ r. z ∷ r) (set-set xs i x y)

settle_again :
    (memory : Bool) (i : ℕ) (r : Receiver) (q : Proto) (a : After)
    → settle memory i (record r { sockets = set r.sockets i q }) a ≡ settle memory i r a
unfolding settle
settle_again memory i r q (push p) = rw (set-set r.sockets i q p) refl
settle_again memory i r q (finished p) = rw (set-set r.sockets i q p) refl
settle_again memory i r q (nothing p) = rw (set-set r.sockets i q p) refl

looked-held :
    (v4 memory : Bool) (i : ℕ) (q : Proto) (t : Threads)
    → pending v4 t ≡ none
    → looked v4 memory i q (held v4 i q t)
      ≡ with_receiver v4 t (settle memory i (receiver_of v4 t) (after_reply q))
unfolding with_receiver receiver_of
looked-held true memory i q t e =
    let g = settle memory i (receiver_of true t) (after_reply q) in
    ap (λ (r : Receiver). with_pending true (with_receiver true t r) none)
      (settle_again memory i (receiver_of true t) q (after_reply q))
    ∙ ap (λ (o : Option ℕ). with_pending true (with_receiver true t g) o) (sym e)
looked-held false memory i q t e =
    let g = settle memory i (receiver_of false t) (after_reply q) in
    ap (λ (r : Receiver). with_pending false (with_receiver false t r) none)
      (settle_again memory i (receiver_of false t) q (after_reply q))
    ∙ ap (λ (o : Option ℕ). with_pending false (with_receiver false t g) o) (sym e)

-- What the round comes to, given what fproc made of the host.
abbrev Rejoins : Bool → Bool → ℕ → Threads → Processed → Receiver → Type 0
Rejoins v4 memory i t o g =
    (q : Proto) × (stored o ≡ some q) × (settle memory i (receiver_of v4 t) (after_reply q) ≡ g)

processed-Rejoins :
    (v4 memory : Bool) (i : ℕ) (t : Threads) (o : Processed) (g : Receiver)
    → processed memory i (receiver_of v4 t) o ≡ received g
    → Rejoins v4 memory i t o g
unfolding processed
processed-Rejoins v4 memory i t (success q) g e = (q, refl, ground (arith, e))
processed-Rejoins v4 memory i t (ignored q) g e = (q, refl, ground (arith, e))
processed-Rejoins v4 memory i t error g e = ground (arith, e)
processed-Rejoins v4 memory i t out_of_bounds g e = ground (arith, e)

round_at_host :
    (v4 : Bool) (pid : ℕ) (memory : Bool) (ip : CString) (pk : Packet) (tv : Timeval) (t : Threads)
    (i : ℕ) (p : Proto)
    → find_in_map t.ip_proto_map ip ≡ some i
    → get_elem? t.sockets i ≡ some p
    → receive_round v4 pid memory ip pk tv t
      ≡ processed memory i (receiver_of v4 t) (fproc pid pk p tv)
unfolding receive_round receive receive_host receiver_of
round_at_host v4 pid memory ip pk tv t i p f h = rw (f, receive, h) refl

pending-held : (v4 : Bool) (i : ℕ) (q : Proto) (t : Threads) → pending v4 (held v4 i q t) ≡ some i
pending-held true i q t = refl
pending-held false i q t = refl

host-held :
    (v4 : Bool) (i : ℕ) (p q : Proto) (t : Threads)
    → get_elem? t.sockets i ≡ some p
    → get_elem? (held v4 i q t).sockets i ≡ some q
host-held true i p q t h = get_elem?-set_self t.sockets i p q h
host-held false i p q t h = get_elem?-set_self t.sockets i p q h

-- When a receiver is about to take a packet, and its round on the packet, from the address of a
-- host of its kind, leaves the state `g`, its two steps lead there too.
pub receive_round-Reach :
    (v4 : Bool) (pid : ℕ) (memory : Bool) (ip : CString) (pk : Packet) (tv : Timeval) (t : Threads)
    (i : ℕ) (p : Proto) (g : Receiver)
    → pending v4 t ≡ none
    → goes_on (receiver_of v4 t) ≡ true
    → find_in_map t.ip_proto_map ip ≡ some i
    → get_elem? t.sockets i ≡ some p
    → p.is_v4 ≡ v4
    → receive_round v4 pid memory ip pk tv t ≡ received g
    → Reach t (with_receiver v4 t g)
receive_round-Reach v4 pid memory ip pk tv t i p g n w f h k e =
    let run = sym (round_at_host v4 pid memory ip pk tv t i p f h) ∙ e in
    let (q, s, u) = processed-Rejoins v4 memory i t (fproc pid pk p tv) g run in
    let first : Step t (held v4 i q t) = store v4 pid ip pk tv i p q n w f h k s in
    let second : Step (held v4 i q t) (looked v4 memory i q (held v4 i q t)) =
      look v4 memory i q (pending-held v4 i q t) (host-held v4 i p q t h) in
    subst (λ x. Reach t x) (looked-held v4 memory i q t n ∙ ap (λ r. with_receiver v4 t r) u)
      (later (later here first) second)
