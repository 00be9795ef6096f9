-- ===== src/Prefork/Control.antt =====
-- handle_control_msg of prefork_server.c, on every kind of message.
use netprog_assignments.Base.{
  ℕ, ◌≡◌, refl, ◌⊎◌, inl, inr, Bool, true, false, some, ◌∷◌, arith, length, ℤ, inc, dec, eq_ℤ,
  ltb_ℤ, if◌then◌else◌, Bool-cases,
}
use netprog_assignments.Prefork.{
  Worker, ControlMsg, Server, Outcome, running, exited, fault, and_then, got_request,
  completed_request, find, remove_worker, create_new_worker, handle_control_msg,
}
use netprog_assignments.Prefork.Table.{
  find-pid, find-store-none, find-store_self, find-unlink-none, length-store,
}
use netprog_assignments.Prefork.Counters.{
  IsValid, IsFresh, create_new_worker-IsValid, removed, remove_worker_cases, removed-IsValid,
  mark_busy, mark_done, set_busy, set_done, set_busy-IsValid, set_done-IsValid,
}

-- Whether the parent removes the worker whose request is done.
abbrev pub over_max : Server → Bool
over_max s = ltb_ℤ s.max_spare_servers (inc s.num_idle_workers)

abbrev pub spent : ControlMsg → Server → Bool
spent m s = eq_ℤ m.reqs_handled s.max_requests_per_child

module _ (fork : ℕ → ℤ) (sent : Bool) (m : ControlMsg) (s : Server) where
  -- A message that the protocol allows: an idle worker got a request, a busy one completed it.
  abbrev pub IsExpected : Type 0
  IsExpected =
      ((m.type ≡ got_request)
        × ((w : Worker) × (find m.pid s.workers ≡ some w) × (w.is_idle ≡ true)))
      ⊎ ((m.type ≡ completed_request)
          × ((w : Worker) × (find m.pid s.workers ≡ some w) × (w.is_idle ≡ false)))

  module _ (w : Worker) (h : find m.pid s.workers ≡ some w) where
    pub got_request_lem :
        m.type ≡ got_request
        → handle_control_msg fork sent m s
          ≡ running (
              if ltb_ℤ (dec s.num_idle_workers) s.min_spare_servers
              then create_new_worker fork (set_busy m s)
              else set_busy m s)
    unfolding handle_control_msg
    got_request_lem t = ground arith

    pub completed_over :
        m.type ≡ completed_request
        → over_max s ≡ true
        → handle_control_msg fork sent m s
          ≡ remove_worker (some (mark_done m.reqs_handled w)) (set_done m s)
    unfolding handle_control_msg
    completed_over t o = ground arith

    pub completed_spent :
        m.type ≡ completed_request
        → over_max s ≡ false
        → spent m s ≡ true
        → handle_control_msg fork sent m s
          ≡ and_then
              (remove_worker (some (mark_done m.reqs_handled w)) (set_done m s))
              (λ u. running (create_new_worker fork u))
    unfolding handle_control_msg
    completed_spent t o e = ground arith

    pub completed_again :
        m.type ≡ completed_request
        → over_max s ≡ false
        → spent m s ≡ false
        → handle_control_msg fork sent m s
          ≡ (if sent then running (record (set_done m s) { acks = w.pid ∷ s.acks }) else exited)
    unfolding handle_control_msg
    completed_again t o e = ground arith

    pub done_found : find w.pid (set_done m s).workers ≡ some (mark_done m.reqs_handled w)
    done_found = cc (
      find-pid m.pid s.workers w h,
      find-store_self m.pid (mark_done m.reqs_handled) (λ x. refl) s.workers w h,
    )

    pub length_done : length (set_done m s).workers ≡ length s.workers
    length_done = length-store m.pid (mark_done m.reqs_handled) (λ x. refl) s.workers

-- A running parent has a valid table, and it faults only over a table of one worker.
abbrev pub Keeps : Server → Outcome → Type 0
Keeps s (running t) = IsValid t
Keeps s exited = Unit {0}
Keeps s fault = length s.workers ≡ 1

module _ (fork : ℕ → ℤ) (sent : Bool) (m : ControlMsg) (s : Server) where
  got_request-Keeps :
      (w : Worker)
      → find m.pid s.workers ≡ some w
      → w.is_idle ≡ true
      → m.type ≡ got_request
      → IsFresh fork s
      → IsValid s
      → Keeps s (handle_control_msg fork sent m s)
  got_request-Keeps w h idle t fresh v =
      let busy = set_busy-IsValid m s w h idle v in
      let fresh' = find-store-none m.pid mark_busy (λ x. refl) (fork s.forks) s.workers fresh in
      let more = create_new_worker-IsValid fork (set_busy m s) fresh' busy in
      rw (got_request_lem fork sent m s w h t)
        (elim (Bool-cases (ltb_ℤ (dec s.num_idle_workers) s.min_spare_servers)) [
          | inl e ↦ rw e more
          | inr e ↦ rw e busy
        ])

  module _ (w : Worker) (h : find m.pid s.workers ≡ some w) (v : IsValid s) where
    removed_done-IsValid : w.is_idle ≡ false → IsValid (removed w.pid (set_done m s))
    removed_done-IsValid busy =
        removed-IsValid (set_done m s) w.pid (mark_done m.reqs_handled w)
          (done_found fork sent m s w h) refl (set_done-IsValid m s w h busy v)

    removed_done-IsFresh : IsFresh fork s → IsFresh fork (removed w.pid (set_done m s))
    removed_done-IsFresh fresh = find-unlink-none w.pid (fork s.forks) (set_done m s).workers (
        find-store-none m.pid (mark_done m.reqs_handled) (λ x. refl) (fork s.forks) s.workers fresh)

    completed-Keeps :
        w.is_idle ≡ false
        → m.type ≡ completed_request
        → IsFresh fork s
        → Keeps s (handle_control_msg fork sent m s)
    completed-Keeps busy t fresh =
        let wk = mark_done m.reqs_handled w in
        let done = set_done-IsValid m s w h busy v in
        let cases = remove_worker_cases (set_done m s) wk wk (done_found fork sent m s w h) in
        let gone = removed_done-IsValid busy in
        let more =
          create_new_worker-IsValid fork (removed w.pid (set_done m s)) (removed_done-IsFresh fresh)
            gone in
        let same = length_done fork sent m s w h in
        elim (Bool-cases (over_max s)) [
          | inl o ↦
              rw (completed_over fork sent m s w h t o)
                (elim cases [ inl (one, e) ↦ rw e (omega arith) | inr (two, e) ↦ rw e gone ])
          | inr o ↦ elim (Bool-cases (spent m s)) [
            | inl e ↦
                rw (completed_spent fork sent m s w h t o e)
                  (elim cases [ inl (one, e') ↦ rw e' (omega arith) | inr (two, e') ↦ rw e' more ])
            | inr e ↦ rw (completed_again fork sent m s w h t o e) (elim (Bool-cases sent) [
              | inl ok ↦ rw ok (record {
                num_workers = done.num_workers;
                num_idle = done.num_idle;
                distinct = done.distinct;
              })
              | inr ko ↦ rw ko tt
            ])
          ]
        ]

  -- Every message that the protocol allows keeps both counters equal to what the list holds and
  -- the pids distinct, if the pid of a worker that it spawns is new. The parent faults only over
  -- a list of one worker, and exits only on a failed `sendto`.
  pub handle_control_msg-IsValid :
      IsExpected fork sent m s
      → IsFresh fork s
      → IsValid s
      → Keeps s (handle_control_msg fork sent m s)
  handle_control_msg-IsValid (inl (t, (w, h, idle))) fresh v = got_request-Keeps w h idle t fresh v
  handle_control_msg-IsValid (inr (t, (w, h, busy))) fresh v = completed-Keeps w h v busy t fresh
