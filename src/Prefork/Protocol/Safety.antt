-- ===== src/Prefork/Protocol/Safety.antt =====
-- Every state that the parent and its workers reach: what prefork_server.c relies on holds there.
use netprog_assignments.Base.{
  ℕ, ◌≡◌, refl, sym, ap, ◌∙◌, inl, inr, true, false, Option, none, some, List, [], ◌∷◌, ◌++◌, arith,
  ltb_ℤ, ℤ, pos, inc, dec, eq_ℤ, eq_ℤ-true, Bool-cases, subst,
}
use netprog_assignments.Prefork.{
  ControlMsg, Server, Worker, running, handle_control_msg, find, create_new_worker,
}
use netprog_assignments.Prefork.Counters.{
  IsValid, mark_busy, mark_done, set_busy, set_done, removed,
}
use netprog_assignments.Prefork.Control.{
  IsExpected, got_request_lem, completed_over, completed_spent, completed_again, over_max, spent,
  Keeps, handle_control_msg-IsValid,
}
use netprog_assignments.Prefork.Effects.{gone_cases}
use netprog_assignments.Prefork.Protocol.{
  waiting, Process, System, deliver, of_pid, InStep, unknown, acked, Synced, IsGot, IsDone, Step,
  Reach, here, next, accept, complete, resume, receive, update,
}
use netprog_assignments.Prefork.Protocol.Sync.{
  of_pid-snoc, accept-InStep, complete-InStep, resume-InStep,
}
use netprog_assignments.Prefork.Protocol.Receive.{
  told, got, completed, Turn-Synced, InStep-congr, fork-IsFresh, received-IsExpected,
}
use netprog_assignments.Prefork.Protocol.Turns.{busy-Turn, spawn-Turn, gone-Turn, acked-Turn}

module _ (fork : ℕ → ℤ) (y : System) (child : ltb_ℤ (pos 0) (fork y.server.forks) ≡ true)
    (new : y.processes (fork y.server.forks) ≡ none) (m : ControlMsg) (rest : List ControlMsg)
    (mail : y.mail ≡ m ∷ rest) (sync : Synced y) (v : IsValid y.server) (t : Server)
    (run : handle_control_msg fork true m y.server ≡ running t) where
  abbrev After : Server → Type 0
  After u =
      Synced (record { server = u; processes = deliver fork y.server u y.processes; mail = rest })

  got-Synced :
      IsGot m
      → (w : Worker) → find m.pid y.server.workers ≡ some w
      → (pr : Process) → y.processes m.pid ≡ some pr
      → ((b : Option Worker) (x : Worker)
          → b ≡ some x
          → x.is_idle ≡ false
          → InStep b (y.processes m.pid) (of_pid m.pid rest))
      → After t
  got-Synced g w listed pr alive k =
      let turn = busy-Turn fork y child new m rest mail sync pr alive w listed in
      let self =
        InStep-congr refl (sym alive) refl (k (some (mark_busy w)) (mark_busy w) refl refl) in
      let e = got_request_lem fork true m y.server w listed g in
      elim (Bool-cases (ltb_ℤ (dec y.server.num_idle_workers) y.server.min_spare_servers)) [
        | inl c ↦
            let same : create_new_worker fork (set_busy m y.server) ≡ t =
              ground (arith, e, c, run) in
            subst After same (
              Turn-Synced fork y new m rest mail sync _ _ _
                (spawn-Turn fork y child new m rest mail sync pr alive w listed _ _ _ refl turn)
                self)
        | inr c ↦
            let same : set_busy m y.server ≡ t = ground (arith, e, c, run) in
            subst After same (Turn-Synced fork y new m rest mail sync _ _ _ turn self)
      ]

  completed-Synced :
      IsDone m
      → (w : Worker) → find m.pid y.server.workers ≡ some w
      → (pr : Process) → y.processes m.pid ≡ some pr
      → pr.phase ≡ waiting
      → of_pid m.pid rest ≡ []
      → After t
  completed-Synced d w listed pr alive ph empty =
      let s = y.server in
      let gone = gone-Turn fork y child new m rest mail sync pr alive w listed v.distinct in
      let self = unknown refl refl empty in
      elim (Bool-cases (over_max s)) [
        | inl o ↦ elim (gone_cases fork true m s w listed) [
          | inl e ↦ absurd (ground (arith, completed_over fork true m s w listed d o, e, run))
          | inr e ↦
              let same : removed w.pid (set_done m s) ≡ t =
                ground (arith, completed_over fork true m s w listed d o, e, run) in
              subst After same (Turn-Synced fork y new m rest mail sync _ _ _ gone self)
        ]
        | inr o ↦ elim (Bool-cases (spent m s)) [
          | inl p ↦ elim (gone_cases fork true m s w listed) [
            | inl e ↦ absurd (ground (arith, completed_spent fork true m s w listed d o p, e, run))
            | inr e ↦
                let same : create_new_worker fork (removed w.pid (set_done m s)) ≡ t =
                  ground (arith, completed_spent fork true m s w listed d o p, e, run) in
                subst After same (
                  Turn-Synced fork y new m rest mail sync _ _ _
                    (spawn-Turn fork y child new m rest mail sync pr alive w listed _ _ _ refl gone)
                    self)
          ]
          | inr p ↦
              let same : record (set_done m s) { acks = w.pid ∷ s.acks } ≡ t =
                ground (arith, completed_again fork true m s w listed d o p, run) in
              subst After same (
                Turn-Synced fork y new m rest mail sync _ _ _
                  (acked-Turn fork y child new m rest mail sync pr alive w listed)
                  (acked (mark_done m.reqs_handled w, refl, refl)
                    (record pr { ack = true }, refl, ph, refl) empty))
        ]
      ]

-- The counters are right, and table, processes and mail agree on every pid.
abbrev pub IsSound : System → Type 0
IsSound y = IsValid y.server × Synced y

module _ (fork : ℕ → ℤ) where
  sent-Synced :
      (y : System) (p : ℤ) (x : Option Process) (m : ControlMsg)
      → m.pid ≡ p
      → InStep (find p y.server.workers) x (of_pid p y.mail ++ m ∷ [])
      → Synced y
      → Synced (record y { processes = update y.processes p x; mail = y.mail ++ m ∷ [] })
  sent-Synced y p x m e self sync q = elim (Bool-cases (eq_ℤ q p)) [
    | inl h ↦
        let same = eq_ℤ-true q p h in
        InStep-congr (ap (λ r. find r y.server.workers) same) (rw h)
          (of_pid-snoc q y.mail m ∙ ground (arith, e, h, same)) self
    | inr h ↦ InStep-congr refl (rw h) (of_pid-snoc q y.mail m ∙ ground (arith, e, h)) (sync q)
  ]

  Step-IsSound : {y z : System} → Step fork y z → IsSound y → IsSound z
  Step-IsSound {y} (accept p n a h) (v, sync) =
      (v, sent-Synced y p _ _ refl (accept-InStep _ n a (sync p) h refl) sync)
  Step-IsSound {y} (complete p n a h) (v, sync) =
      (v, sent-Synced y p _ _ refl (complete-InStep _ n (inc n) a (sync p) h refl) sync)
  Step-IsSound {y} (resume p n h) (v, sync) = (
    v,
    λ q. elim (Bool-cases (eq_ℤ q p)) [
      | inl e ↦
          let same = eq_ℤ-true q p e in
          InStep-congr (ap (λ r. find r y.server.workers) same) (rw e)
            (ap (λ r. of_pid r y.mail) same) (resume-InStep n (sync p) h)
      | inr e ↦ InStep-congr refl (rw e) refl (sync q)
    ],
  )
  Step-IsSound {y} (receive m rest t mail child new run) (v, sync) = (
    subst (Keeps y.server) run (
        handle_control_msg-IsValid fork true m y.server
          (received-IsExpected y m rest mail sync fork true)
          (fork-IsFresh fork y new m rest mail sync) v),
    elim (told y m rest mail sync) [
      | got g w e i pr f k ↦ got-Synced fork y child new m rest mail sync v t run g w e pr f k
      | completed d w e i pr f ph l ↦
          completed-Synced fork y child new m rest mail sync v t run d w e pr f ph l
    ],
  )

  Reach-IsSound : {y z : System} → IsSound y → Reach fork y z → IsSound z
  Reach-IsSound h here = h
  Reach-IsSound h (next r st) = Step-IsSound st (Reach-IsSound h r)

  -- In every state that the parent and its workers reach from a sound one, by any interleaving in
  -- which each call of `fork` succeeds with a pid that no running process has, both counters equal
  -- what the worker list holds and its pids are distinct.
  pub Reach-IsValid : {y z : System} → IsSound y → Reach fork y z → IsValid z.server
  Reach-IsValid h r = (Reach-IsSound h r).0

  -- Whatever message is the oldest in such a state, its sender is in the list: idle for a
  -- GOT_REQUEST, busy for a COMPLETED_REQUEST. So `get_worker_by_id` does not return NULL.
  pub Reach-expected :
      {y z : System}
      → IsSound y
      → Reach fork y z
      → (m : ControlMsg) (rest : List ControlMsg) → z.mail ≡ m ∷ rest
      → IsExpected fork true m z.server
  Reach-expected {y} {z} h r m rest e =
      received-IsExpected z m rest e (Reach-IsSound h r).1 fork true
