-- ===== src/Prefork/Protocol/Turns.antt =====
-- The five ways in which the parent's turn ends while it keeps running.
use netprog_assignments.Base.{
  ℕ, ◌≡◌, refl, ◌∙◌, ◌≢◌, inl, inr, true, false, Option, none, some, List, ◌∷◌, arith, ℤ, pos,
  ltb_ℤ, eq_ℤ, eq_ℤ-true, eq_ℤ_refl, Bool-cases,
}
use netprog_assignments.Prefork.{ControlMsg, Server, Worker, find, create_new_worker, add_worker}
use netprog_assignments.Prefork.Table.{
  IsDistinct, find-pid, find-store_ne, find-unlink_ne, find-store_self, find-unlink_self,
  store-IsDistinct,
}
use netprog_assignments.Prefork.Counters.{mark_busy, mark_done, set_busy, set_done, removed}
use netprog_assignments.Prefork.Protocol.{Process, System, Synced}
use netprog_assignments.Prefork.Protocol.Receive.{added_self, added_cons, Turn}

module _ (fork : ℕ → ℤ) (y : System) (child : ltb_ℤ (pos 0) (fork y.server.forks) ≡ true)
    (new : y.processes (fork y.server.forks) ≡ none) (m : ControlMsg) (rest : List ControlMsg)
    (mail : y.mail ≡ m ∷ rest) (sync : Synced y) (pr : Process)
    (alive : y.processes m.pid ≡ some pr) (w : Worker)
    (listed : find m.pid y.server.workers ≡ some w) where
  not_new : eq_ℤ m.pid (fork y.server.forks) ≡ false
  not_new = ground (arith, eq_ℤ-true m.pid (fork y.server.forks))

  pub busy-Turn :
      Turn fork y new m rest mail sync (set_busy m y.server) (some (mark_busy w)) (some pr)
  busy-Turn = record {
    self_worker = find-store_self m.pid mark_busy (λ x. refl) y.server.workers w listed;
    self_process = ground (arith, added_self y.server.killed m.pid, added_self y.server.acks m.pid);
    others = λ q apart. inl (
      find-store_ne m.pid q apart mark_busy (λ x. refl) y.server.workers,
      ground (arith, added_self y.server.killed q, added_self y.server.acks q),
    );
  }

  pub spawn-Turn :
      (t : Server) (o : Option Worker) (x : Option Process)
      → t.forks ≡ y.server.forks
      → Turn fork y new m rest mail sync t o x
      → Turn fork y new m rest mail sync (create_new_worker fork t) o x
  unfolding create_new_worker add_worker find
  spawn-Turn t o x same turn = record {
    self_worker =
        ground
          (arith, same, turn.self_worker, not_new, eq_ℤ-true (fork t.forks) m.pid, eq_ℤ_refl m.pid);
    self_process = ground (arith, same, turn.self_process, not_new);
    others = λ q apart. elim (Bool-cases (eq_ℤ q (fork y.server.forks))) [
      | inl e ↦
          let p = eq_ℤ-true q (fork y.server.forks) e in
          inr (ground (arith, p, same, eq_ℤ_refl q), ground (arith, e, same, child), p)
      | inr e ↦
          let no_fork : q ≢ fork y.server.forks = λ p. ground (arith, eq_ℤ_refl q) in
          elim (turn.others q apart) [
            | inl (f, d) ↦
                inl (
                  ground (arith, f, same, e, eq_ℤ-true (fork t.forks) q),
                  ground (arith, d, same, e),
                )
            | inr (f, d, p) ↦ absurd (no_fork p)
          ]
    ];
  }

  pub gone-Turn :
      IsDistinct y.server.workers
      → Turn fork y new m rest mail sync (removed w.pid (set_done m y.server)) none none
  gone-Turn distinct =
      let same = find-pid m.pid y.server.workers w listed in
      rw same (record {
        self_worker = find-unlink_self m.pid (set_done m y.server).workers (
            store-IsDistinct m.pid (mark_done m.reqs_handled) (λ x. refl) y.server.workers
              distinct);
        self_process = ground (arith, added_cons y.server.killed m.pid m.pid, eq_ℤ_refl m.pid);
        others = λ q apart. inl (
          find-unlink_ne m.pid q apart (set_done m y.server).workers
              ∙ find-store_ne m.pid q apart (mark_done m.reqs_handled) (λ x. refl) y.server.workers,
          ground (
            arith,
            added_cons y.server.killed m.pid q,
            added_self y.server.acks q,
            eq_ℤ-true q m.pid,
          ),
        );
      })

  pub acked-Turn :
      Turn fork y new m rest mail sync
        (record (set_done m y.server) { acks = w.pid ∷ y.server.acks })
        (some (mark_done m.reqs_handled w))
        (some (record pr { ack = true }))
  acked-Turn =
      let same = find-pid m.pid y.server.workers w listed in
      record {
        self_worker =
            find-store_self m.pid (mark_done m.reqs_handled) (λ x. refl) y.server.workers w listed;
        self_process = ground (
          arith,
          added_self y.server.killed m.pid,
          added_cons y.server.acks w.pid m.pid,
          eq_ℤ_refl m.pid,
          alive,
        );
        others = λ q apart. inl (
          find-store_ne m.pid q apart (mark_done m.reqs_handled) (λ x. refl) y.server.workers,
          ground (
            arith,
            added_self y.server.killed q,
            added_cons y.server.acks w.pid q,
            eq_ℤ-true q m.pid,
          ),
        );
      }
