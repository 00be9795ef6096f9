-- ===== src/Prefork/Counters.antt =====
-- The two counters of prefork_server.c against the worker list, through every control message.
use netprog_assignments.Base.{
  ℕ, ◌≤◌, ◌≡◌, refl, ◌⊎◌, true, false, none, some, List, [], ◌∷◌, arith, length, ℤ, pos, inc, dec,
  eq_ℤ-true, eq_ℤ_refl,
}
use netprog_assignments.Prefork.{
  Worker, ControlMsg, Server, running, fault, find, store, unlink, remove_worker, add_worker,
  create_new_worker,
}
use netprog_assignments.Prefork.Table.{
  idle_count, IsDistinct, length-store, store-IsDistinct, idle_count-store, unlink-IsDistinct,
  length-unlink, idle_count-unlink,
}

pub record IsValid (s : Server) : Type 0 where
  pub num_workers : s.num_workers ≡ pos (length s.workers)
  pub num_idle : s.num_idle_workers ≡ pos (idle_count s.workers)
  pub distinct : IsDistinct s.workers

abbrev pub IsFresh : (ℕ → ℤ) → Server → Type 0
IsFresh fork s = find (fork s.forks) s.workers ≡ none

pub create_new_worker-IsValid :
    (fork : ℕ → ℤ) (s : Server) → IsFresh fork s → IsValid s → IsValid (create_new_worker fork s)
unfolding create_new_worker add_worker idle_count
create_new_worker-IsValid fork s fresh v = ground arith

abbrev pub removed : ℤ → Server → Server
removed pid s = record s {
  workers = unlink pid s.workers;
  num_workers = dec s.num_workers;
  num_idle_workers = dec s.num_idle_workers;
  killed = pid ∷ s.killed;
}

-- Removing a worker unlinks it, unless it is the only one, where the code faults.
unlink_cases :
    (s : Server) (wk w : Worker) (ws : List Worker)
    → s.workers ≡ ws
    → find wk.pid ws ≡ some w
    → ((length ws ≡ 1) × (remove_worker (some wk) s ≡ fault))
      ⊎ ((2 ≤ length ws) × (remove_worker (some wk) s ≡ running (removed wk.pid s)))
unfolding remove_worker find
unlink_cases s wk w [] e h = ground arith
unlink_cases s wk w (x ∷ []) e h = ground (arith, eq_ℤ-true x.pid wk.pid, eq_ℤ_refl wk.pid)
unlink_cases s wk w (x ∷ y ∷ ws) e h =
    ground (arith, eq_ℤ-true x.pid wk.pid, eq_ℤ-true wk.pid x.pid, eq_ℤ_refl wk.pid)

pub remove_worker_cases :
    (s : Server) (wk w : Worker)
    → find wk.pid s.workers ≡ some w
    → ((length s.workers ≡ 1) × (remove_worker (some wk) s ≡ fault))
      ⊎ ((2 ≤ length s.workers) × (remove_worker (some wk) s ≡ running (removed wk.pid s)))
remove_worker_cases s wk w h = unlink_cases s wk w s.workers refl h

pub removed-IsValid :
    (s : Server) (pid : ℤ) (w : Worker)
    → find pid s.workers ≡ some w
    → w.is_idle ≡ true
    → IsValid s
    → IsValid (removed pid s)
removed-IsValid s pid w h idle v = ground (
  arith,
  length-unlink pid s.workers w h,
  idle_count-unlink pid s.workers w h,
  unlink-IsDistinct pid s.workers v.distinct,
)

abbrev pub mark_busy : Worker → Worker
mark_busy w = record w { is_idle = false }

abbrev pub mark_done : ℤ → Worker → Worker
mark_done n w = record w { is_idle = true; reqs_handled = n }

abbrev pub set_busy : ControlMsg → Server → Server
set_busy m s = record s {
  workers = store m.pid mark_busy s.workers;
  num_idle_workers = dec s.num_idle_workers;
}

abbrev pub set_done : ControlMsg → Server → Server
set_done m s = record s {
  workers = store m.pid (mark_done m.reqs_handled) s.workers;
  num_idle_workers = inc s.num_idle_workers;
}

module _ (m : ControlMsg) (s : Server) (w : Worker) (h : find m.pid s.workers ≡ some w) where
  pub set_busy-IsValid : w.is_idle ≡ true → IsValid s → IsValid (set_busy m s)
  set_busy-IsValid idle v = ground (
    arith,
    length-store m.pid mark_busy (λ x. refl) s.workers,
    store-IsDistinct m.pid mark_busy (λ x. refl) s.workers v.distinct,
    idle_count-store m.pid mark_busy (λ x. refl) s.workers w h,
  )

  pub set_done-IsValid : w.is_idle ≡ false → IsValid s → IsValid (set_done m s)
  set_done-IsValid busy v = ground (
    arith,
    length-store m.pid (mark_done m.reqs_handled) (λ x. refl) s.workers,
    store-IsDistinct m.pid (mark_done m.reqs_handled) (λ x. refl) s.workers v.distinct,
    idle_count-store m.pid (mark_done m.reqs_handled) (λ x. refl) s.workers w h,
  )
