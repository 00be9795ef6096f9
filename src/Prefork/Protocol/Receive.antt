-- ===== src/Prefork/Protocol/Receive.antt =====
-- The parent's turn: it receives the oldest message while table, processes and mail are in step.
use netprog_assignments.Base.{
  ℕ, ◌≡◌, refl, sym, ap, ◌∙◌, ◌≢◌, inl, inr, ◌⊎◌, Bool, true, false, Option, none, some, List, [],
  ◌∷◌, arith, ℤ, eq_ℤ, eq_ℤ-true, eq_ℤ_refl, if◌then◌else◌, Bool-cases,
}
use netprog_assignments.Prefork.{ControlMsg, Server, Worker, find, fresh_worker}
use netprog_assignments.Prefork.Counters.{IsFresh}
use netprog_assignments.Prefork.Control.{IsExpected}
use netprog_assignments.Prefork.Protocol.{
  waiting, Process, started, System, added, deliver, of_pid, InStep, unknown, ready, taken, busy,
  done_early, done, acked, Synced, IsGot, IsDone,
}

pub InStep-congr :
    {o o' : Option Worker} {x x' : Option Process} {ms ms' : List ControlMsg}
    → o ≡ o'
    → x ≡ x'
    → ms ≡ ms'
    → InStep o' x' ms'
    → InStep o x ms
InStep-congr p q r s = rw (p, q, r) s

pub added_self : (xs : List ℤ) (q : ℤ) → added xs xs q ≡ false
added_self [] q = refl
added_self (x ∷ xs) q = ground arith

pub added_cons : (xs : List ℤ) (p q : ℤ) → added xs (p ∷ xs) q ≡ eq_ℤ q p
added_cons xs p q = ground arith

-- What the oldest message of a worker tells, and what is left for that worker.
pub data Next (o : Option Worker) (x : Option Process) (m : ControlMsg) (left : List ControlMsg)
    : Type 0 where
  got :
      IsGot m
      → (w : Worker) → o ≡ some w
      → w.is_idle ≡ true
      → (pr : Process) → x ≡ some pr
      → ((b : Option Worker) (v : Worker) → b ≡ some v → v.is_idle ≡ false → InStep b x left)
      → Next o x m left
  completed :
      IsDone m
      → (w : Worker) → o ≡ some w
      → w.is_idle ≡ false
      → (pr : Process) → x ≡ some pr
      → pr.phase ≡ waiting
      → left ≡ []
      → Next o x m left

module _ {o : Option Worker} {x : Option Process} {ms : List ControlMsg} (m : ControlMsg)
    (left : List ControlMsg) where
  InStep-Next : InStep o x ms → ms ≡ m ∷ left → Next o x m left
  InStep-Next (unknown e f g) h = ground arith
  InStep-Next (ready e f g) h = ground arith
  InStep-Next (taken n (w, e, i) (pr, f, ph, a) t g) h =
      got (ground arith) w e i pr f (λ b v p q. busy (v, p, q) (pr, f, ph, a) (ground arith))
  InStep-Next (busy e f g) h = ground arith
  InStep-Next (done_early n k (w, e, i) (pr, f, ph, a) t u g) h =
      got (ground arith) w e i pr f (λ b v p q. done k (v, p, q) (pr, f, ph, a) u (ground arith))
  InStep-Next (done n (w, e, i) (pr, f, ph, a) t g) h =
      completed (ground arith) w e i pr f ph (ground arith)
  InStep-Next (acked e f g) h = ground arith

module _ (y : System) (m : ControlMsg) (rest : List ControlMsg) (mail : y.mail ≡ m ∷ rest) where
  of_pid_mail :
      (q : ℤ) → of_pid q y.mail ≡ (if eq_ℤ q m.pid then m ∷ of_pid q rest else of_pid q rest)
  unfolding of_pid
  of_pid_mail q = rw mail

  self_mail : of_pid m.pid y.mail ≡ m ∷ of_pid m.pid rest
  self_mail = rw (of_pid_mail, eq_ℤ_refl m.pid)

  other_mail : (q : ℤ) → eq_ℤ q m.pid ≡ false → of_pid q y.mail ≡ of_pid q rest
  other_mail q e = rw (of_pid_mail, e)

  module _ (sync : Synced y) where
    pub told : Next (find m.pid y.server.workers) (y.processes m.pid) m (of_pid m.pid rest)
    told = InStep-Next m (of_pid m.pid rest) (sync m.pid) self_mail

    pub received-IsExpected : (fork : ℕ → ℤ) (sent : Bool) → IsExpected fork sent m y.server
    received-IsExpected fork sent = elim told [
      | got t w e i pr f k ↦ inl (t, (w, e, i))
      | completed t w e i pr f ph l ↦ inr (t, (w, e, i))
    ]

module _ (fork : ℕ → ℤ) (y : System) (new : y.processes (fork y.server.forks) ≡ none) where
  fork_unknown :
      {o : Option Worker} {x : Option Process} {ms : List ControlMsg}
      → InStep o x ms
      → x ≡ none
      → (o ≡ none) × (ms ≡ [])
  fork_unknown (unknown e f g) h = (e, g)
  fork_unknown (ready e f g) h = ground arith
  fork_unknown (taken _ e f _ g) h = ground arith
  fork_unknown (busy e f g) h = ground arith
  fork_unknown (done_early _ _ e f _ _ g) h = ground arith
  fork_unknown (done _ e f _ g) h = ground arith
  fork_unknown (acked e f g) h = ground arith

  module _ (m : ControlMsg) (rest : List ControlMsg) (mail : y.mail ≡ m ∷ rest)
      (sync : Synced y) where
    pub fork-IsFresh : IsFresh fork y.server
    fork-IsFresh = (fork_unknown (sync (fork y.server.forks)) new).0

    -- What the turn did: to the sender, to a new worker, and to nobody else.
    pub record Turn (t : Server) (o : Option Worker) (x : Option Process) : Type 0 where
      pub self_worker : find m.pid t.workers ≡ o
      pub self_process : deliver fork y.server t y.processes m.pid ≡ x
      pub others :
          (q : ℤ)
          → q ≢ m.pid
          → ((find q t.workers ≡ find q y.server.workers)
              × (deliver fork y.server t y.processes q ≡ y.processes q))
            ⊎ ((find q t.workers ≡ some (fresh_worker q))
                × (deliver fork y.server t y.processes q ≡ some started)
                × (q ≡ fork y.server.forks))

    pub Turn-Synced :
        (t : Server) (o : Option Worker) (x : Option Process)
        → Turn t o x
        → InStep o x (of_pid m.pid rest)
        → Synced
            (record { server = t; processes = deliver fork y.server t y.processes; mail = rest })
    Turn-Synced t o x turn self q = elim (Bool-cases (eq_ℤ q m.pid)) [
      | inl e ↦
          let same = eq_ℤ-true q m.pid e in
          InStep-congr (ap (λ p. find p t.workers) same ∙ turn.self_worker)
            (ap (deliver fork y.server t y.processes) same ∙ turn.self_process)
            (ap (λ p. of_pid p rest) same) self
      | inr e ↦
          let apart : q ≢ m.pid = λ p. ground (arith, eq_ℤ_refl m.pid) in
          elim (turn.others q apart) [
            | inl (f, d) ↦ InStep-congr f d (sym (other_mail y m rest mail q e)) (sync q)
            | inr (f, d, p) ↦
                let (absent, empty) = fork_unknown (sync (fork y.server.forks)) new in
                InStep-congr f d
                  (sym (other_mail y m rest mail q e) ∙ ap (λ r. of_pid r y.mail) p ∙ empty)
                  (ready (fresh_worker q, refl, refl) (started, refl, refl, refl) refl)
          ]
    ]
