-- ===== src/Prefork/Effects.antt =====
-- What handle_control_msg of prefork_server.c does to the bounds on spare servers, and whom it
-- kills and acknowledges.
use netprog_assignments.Base.{
  ℕ, suc, ◌≡◌, refl, ◌⊎◌, ◌↔◌, inl, inr, Bool, true, false, ◌||◌, none, some, [], ◌∷◌, arith, ℤ,
  inc, dec, ltb_ℤ, ◌≤ℤ◌, eq_ℤ-true, eq_ℤ_refl, Bool-cases,
}
use netprog_assignments.Prefork.{
  Worker, ControlMsg, Server, running, fault, got_request, completed_request, find, remove_worker,
  add_worker, create_new_worker, handle_control_msg,
}
use netprog_assignments.Prefork.Table.{IsDistinct, find-pid, find-unlink_self, store-IsDistinct}
use netprog_assignments.Prefork.Counters.{
  removed, remove_worker_cases, mark_done, set_busy, set_done,
}
use netprog_assignments.Prefork.Control.{
  over_max, spent, got_request_lem, completed_over, completed_spent, completed_again, done_found,
}

abbrev pub InBounds : Server → Type 0
InBounds u =
    (u.min_spare_servers ≤ℤ u.num_idle_workers) × (u.num_idle_workers ≤ℤ u.max_spare_servers)

dec-inc : (a : ℤ) → dec (inc a) ≡ a
dec-inc a = ground arith

inc-dec : (a : ℤ) → inc (dec a) ≡ a
inc-dec a = ground arith

module _ (fork : ℕ → ℤ) (sent : Bool) (m : ControlMsg) (s : Server) (w : Worker)
    (h : find m.pid s.workers ≡ some w) where
  -- After a GOT_REQUEST the parent runs, nobody was killed or acknowledged, and the number of
  -- idle workers stays within the configured bounds if it was: a worker is spawned exactly when
  -- the number would fall below the lower bound.
  pub got_request-InBounds :
      m.type ≡ got_request
      → InBounds s
      → (t : Server) × (handle_control_msg fork sent m s ≡ running t)
        × InBounds t
        × (t.killed ≡ s.killed)
        × (t.acks ≡ s.acks)
        × ((t.forks ≡ suc s.forks) ↔ (s.num_idle_workers ≡ s.min_spare_servers))
  unfolding create_new_worker add_worker
  got_request-InBounds t b =
      elim (Bool-cases (ltb_ℤ (dec s.num_idle_workers) s.min_spare_servers)) [
        | inl e ↦ (
          create_new_worker fork (set_busy m s),
          rw (got_request_lem fork sent m s w h t, e),
          ground arith,
          refl,
          refl,
          ground arith,
        )
        | inr e ↦ (
          set_busy m s,
          rw (got_request_lem fork sent m s w h t, e),
          ground arith,
          refl,
          refl,
          ground arith,
        )
      ]

  -- What a COMPLETED_REQUEST led to: the worker was killed and is gone, or it was acknowledged
  -- and stands in the table with the count that it reported. Never both.
  abbrev pub Settles : Bool → Server → Type 0
  Settles true t = (t.killed ≡ w.pid ∷ s.killed) × (t.acks ≡ s.acks) × (find w.pid t.workers ≡ none)
  Settles false t =
      (t.killed ≡ s.killed)
      × (t.acks ≡ w.pid ∷ s.acks)
      × (find w.pid t.workers ≡ some (mark_done m.reqs_handled w))

  abbrev pub gone : Server
  gone = removed w.pid (set_done m s)

  gone_absent : IsDistinct s.workers → find w.pid gone.workers ≡ none
  gone_absent d =
      find-unlink_self w.pid (set_done m s).workers
        (store-IsDistinct m.pid (mark_done m.reqs_handled) (λ x. refl) s.workers d)

  pub gone_cases :
      (remove_worker (some (mark_done m.reqs_handled w)) (set_done m s) ≡ fault)
      ⊎ (remove_worker (some (mark_done m.reqs_handled w)) (set_done m s) ≡ running gone)
  gone_cases =
      let wk = mark_done m.reqs_handled w in
      elim (remove_worker_cases (set_done m s) wk wk (done_found fork sent m s w h)) [
        | inl (one, e) ↦ inl e
        | inr (two, e) ↦ inr e
      ]

  spawned_absent :
      IsDistinct s.workers
      → find (fork s.forks) s.workers ≡ none
      → find w.pid (create_new_worker fork gone).workers ≡ none
  unfolding create_new_worker add_worker find
  spawned_absent d fresh =
      ground (arith, gone_absent d, eq_ℤ-true (fork s.forks) w.pid, find-pid m.pid s.workers w h)

  -- A parent that is still running after a COMPLETED_REQUEST has killed the worker exactly when
  -- there were too many idle ones or its requests were used up, has acknowledged it otherwise,
  -- and has kept the upper bound on idle workers. The pids are distinct and a spawned one is new.
  pub completed_request-Settles :
      (t : Server)
      → IsDistinct s.workers
      → find (fork s.forks) s.workers ≡ none
      → m.type ≡ completed_request
      → handle_control_msg fork sent m s ≡ running t
      → s.num_idle_workers ≤ℤ s.max_spare_servers
      → Settles (over_max s || spent m s) t × (t.num_idle_workers ≤ℤ t.max_spare_servers)
  unfolding create_new_worker add_worker
  completed_request-Settles t d fresh c run b = elim (Bool-cases (over_max s)) [
    | inl o ↦ elim gone_cases [
      | inl e ↦ cc (completed_over fork sent m s w h c o, e)
      | inr e ↦
          let same : t ≡ gone = ground (arith, completed_over fork sent m s w h c o, e) in
          rw (o, same) ((refl, refl, gone_absent d), rw (dec-inc s.num_idle_workers) b)
    ]
    | inr o ↦ elim (Bool-cases (spent m s)) [
      | inl p ↦ elim gone_cases [
        | inl e ↦ absurd (ground (arith, completed_spent fork sent m s w h c o p, e))
        | inr e ↦
            let same : t ≡ create_new_worker fork gone =
              ground (arith, completed_spent fork sent m s w h c o p, e) in
            rw (o, p, same) ((refl, refl, spawned_absent d fresh), ground arith)
      ]
      | inr p ↦ elim (Bool-cases sent) [
        | inl ok ↦
            let same : t ≡ record (set_done m s) { acks = w.pid ∷ s.acks } =
              ground (arith, completed_again fork sent m s w h c o p) in
            rw (o, p, same) ((refl, refl, done_found fork sent m s w h), ground arith)
        | inr ko ↦ absurd (ground (arith, completed_again fork sent m s w h c o p))
      ]
    ]
  ]

-- Whatever else the state holds, the parent dereferences a null `head` when the only worker of
-- the list has completed its last request, or is one more than the idle workers allowed.
pub sole_worker-fault :
    (fork : ℕ → ℤ) (sent : Bool) (m : ControlMsg) (s : Server) (w : Worker)
    → s.workers ≡ w ∷ []
    → w.pid ≡ m.pid
    → m.type ≡ completed_request
    → (over_max s || spent m s) ≡ true
    → handle_control_msg fork sent m s ≡ fault
unfolding handle_control_msg find
sole_worker-fault fork sent m s w one same t o = ground (arith, eq_ℤ_refl m.pid, eq_ℤ_refl w.pid)
