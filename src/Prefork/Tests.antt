-- ===== src/Prefork/Tests.antt =====
-- Runs of the parent on small tables.
use netprog_assignments.Base.{
  ℕ, ◌+◌, ◌≡◌, refl, inl, inr, Bool, true, false, none, some, [], ◌∷◌, arith, ℤ, pos, ◌≤ℤ◌, eq_ℤ,
  eq_ℤ-true, if◌then◌else◌, Bool-cases, ◌↔◌, ◌<◌, ◌≤◌,
}
use netprog_assignments.Prefork.{
  Server, Worker, ControlMsg, running, find, got_request, completed_request, handle_control_msg,
  exponential_spawn, create_new_worker,
}
use netprog_assignments.Prefork.Table.{idle_count}
use netprog_assignments.Prefork.Counters.{IsValid}
use netprog_assignments.Prefork.Control.{IsExpected}
use netprog_assignments.Prefork.Effects.{
  InBounds, Settles, got_request-InBounds, completed_request-Settles,
}
use netprog_assignments.Prefork.Spawn.{Grown, exponential_spawn_fills}
use netprog_assignments.Prefork.Protocol.{
  System, started, of_pid, ready, unknown, Reach, here, next, accept, update, serving,
}
use netprog_assignments.Prefork.Protocol.Safety.{IsSound, Reach-IsValid, Reach-expected}

-- Pids 100, 101, ...
abbrev counting : ℕ → ℤ
counting i = pos (100 + i)

abbrev nobody : Server
nobody = record {
  workers = [];
  num_idle_workers = pos 0;
  num_workers = pos 0;
  min_spare_servers = pos 2;
  max_spare_servers = pos 3;
  max_requests_per_child = pos 10;
  forks = 0;
  killed = [];
  acks = [];
}

abbrev worker : ℕ → Bool → Worker
worker p idle = record { pid = pos p; reqs_handled = pos 0; is_idle = idle; to_harvest = false }

abbrev three : Server
three = record nobody {
  workers = worker 102 true ∷ worker 101 false ∷ worker 100 true ∷ [];
  num_idle_workers = pos 2;
  num_workers = pos 3;
  forks = 3;
}

abbrev got_100 : ControlMsg
got_100 = record { type = got_request; pid = pos 100; reqs_handled = pos 0 }

abbrev done_101 : ControlMsg
done_101 = record { type = completed_request; pid = pos 101; reqs_handled = pos 10 }

three-IsValid : IsValid three
unfolding idle_count find
three-IsValid = record {
  num_workers = refl;
  num_idle = refl;
  distinct = (refl, (refl, (refl, tt)));
}

abbrev low : Server
low = record three { num_idle_workers = pos 2 }

got_request-InBounds_example :
    (t : Server) × (handle_control_msg counting true got_100 three ≡ running t)
    × InBounds t
    × (t.killed ≡ [])
    × (t.acks ≡ [])
    × ((t.forks ≡ 4) ↔ (pos 2 ≡ pos 2))
unfolding find
got_request-InBounds_example =
    got_request-InBounds counting true got_100 three (worker 100 true) refl refl (omega arith)

run_101 : (t : Server) × (handle_control_msg counting true done_101 three ≡ running t)
unfolding handle_control_msg create_new_worker
run_101 = (_, refl)

completed_request-Settles_example :
    Settles counting true done_101 three (worker 101 false) (unfold find in refl) true run_101.0
    × (run_101.0.num_idle_workers ≤ℤ run_101.0.max_spare_servers)
unfolding find
completed_request-Settles_example =
    completed_request-Settles counting true done_101 three (worker 101 false) refl run_101.0
      three-IsValid.distinct refl refl run_101.1 (omega arith)

abbrev alone : Server
alone = record nobody {
  workers = worker 101 false ∷ [];
  num_workers = pos 1;
  min_spare_servers = pos 0;
}

exponential_spawn_fills_example :
    (t : Server) × (more : ℕ) × (exponential_spawn counting 3 1 nobody ≡ some t)
    × Grown nobody more t
    × (pos 2 ≤ℤ t.num_idle_workers)
    × (0 < more)
    × (0 + more ≤ 34)
exponential_spawn_fills_example =
    exponential_spawn_fills counting 3 1 0 nobody (omega arith) refl (omega arith) (omega arith)

nobody-IsValid : IsValid nobody
unfolding idle_count
nobody-IsValid = record { num_workers = refl; num_idle = refl; distinct = tt }

-- One worker, in `accept`.
abbrev one_up : System
one_up = record {
  server = record nobody {
    workers = worker 100 true ∷ [];
    num_idle_workers = pos 1;
    num_workers = pos 1;
    forks = 1;
  };
  processes = λ q. if eq_ℤ q (pos 100) then some started else none;
  mail = [];
}

one_up-IsSound : IsSound one_up
unfolding idle_count find of_pid
one_up-IsSound = (
  record { num_workers = refl; num_idle = refl; distinct = (refl, tt) },
  λ q. elim (Bool-cases (eq_ℤ q (pos 100))) [
    | inl e ↦
        ready (worker 100 true, ground (arith, eq_ℤ-true q (pos 100)), refl)
          (started, rw e, refl, refl) refl
    | inr e ↦ unknown (ground (arith, eq_ℤ-true (pos 100) q)) (rw e) refl
  ],
)

abbrev busy_one : System
busy_one = record one_up {
  processes =
      update one_up.processes (pos 100)
        (some (record { phase = serving; reqs_handled = pos 0; ack = false }));
  mail = got_100 ∷ [];
}

accepted : Reach counting one_up busy_one
accepted = next here (accept (pos 100) (pos 0) false refl)

Reach-IsValid_example : IsValid one_up.server
Reach-IsValid_example = Reach-IsValid counting one_up-IsSound accepted

Reach-expected_example : IsExpected counting true got_100 one_up.server
Reach-expected_example = Reach-expected counting one_up-IsSound accepted got_100 [] refl
