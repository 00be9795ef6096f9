-- ===== src/Prefork.antt =====
-- assignment-2/q2/prefork_server.c: the parent's worker table and its control messages.
-- A pointer to a worker is the first entry of the list with its pid; `head` is the list's head.
pub mod Table
pub mod Counters
pub mod Control
pub mod Effects
pub mod Spawn
mod Tests
pub mod Protocol
use netprog_assignments.Base.{
  ℕ, zero, suc, ◌*◌, Bool, true, false, Option, none, some, List, [], ◌∷◌, ltb, ◌==◌, if◌then◌else◌,
  ℤ, pos, ltb_ℤ, eq_ℤ, inc, dec,
}

abbrev pub got_request : ℕ
got_request = 1

abbrev pub completed_request : ℕ
completed_request = 2

abbrev pub read_allowed : ℕ
read_allowed = 3

pub record ControlMsg : Type 0 where
  pub type : ℕ
  pub pid : ℤ
  pub reqs_handled : ℤ

pub record Worker : Type 0 where
  pub pid : ℤ
  pub reqs_handled : ℤ
  pub is_idle : Bool
  pub to_harvest : Bool

-- The globals, with the calls that other processes see: how many times `fork` was called, the
-- pids that were killed and the pids that were sent READ_ALLOWED, newest first.
pub record Server : Type 0 where
  pub workers : List Worker
  pub num_idle_workers : ℤ
  pub num_workers : ℤ
  pub min_spare_servers : ℤ
  pub max_spare_servers : ℤ
  pub max_requests_per_child : ℤ
  pub forks : ℕ
  pub killed : List ℤ
  pub acks : List ℤ

-- `fault` is a read or write through a null pointer, `exited` is `exit(-1)`.
pub data Outcome : Type 0 where
  running : Server → Outcome
  exited : Outcome
  fault : Outcome

abbrev pub and_then : Outcome → (Server → Outcome) → Outcome
and_then (running s) f = f s
and_then exited f = exited
and_then fault f = fault

unfoldable pub find : ℤ → List Worker → Option Worker
find pid [] = none
find pid (w ∷ ws) = if eq_ℤ w.pid pid then some w else find pid ws

unfoldable pub get_worker_by_id : ℤ → Server → Option Worker
unfolding find
get_worker_by_id pid s = find pid s.workers

-- A write through the pointer to the worker with this pid.
unfoldable pub store : ℤ → (Worker → Worker) → List Worker → List Worker
store pid f [] = []
store pid f (w ∷ ws) = if eq_ℤ w.pid pid then f w ∷ ws else w ∷ store pid f ws

-- `wk->prev->next = wk->next`, and the write to `prev` behind it.
unfoldable pub unlink : ℤ → List Worker → List Worker
unlink pid [] = []
unlink pid (w ∷ ws) = if eq_ℤ w.pid pid then ws else w ∷ unlink pid ws

-- `head = wk->next; head->prev = NULL;` faults on the last node.
unlink_head : Server → List Worker → Outcome
unlink_head s [] = fault
unlink_head s (w ∷ ws) = running (record s { workers = w ∷ ws })

unlink_worker : ℤ → Server → List Worker → Outcome
unlink_worker pid s [] = fault
unlink_worker pid s (w ∷ ws) =
    if eq_ℤ pid w.pid then unlink_head s ws else running (record s { workers = w ∷ unlink pid ws })

unfoldable pub remove_worker : Option Worker → Server → Outcome
unfolding unlink unlink_head unlink_worker
remove_worker none s = running s
remove_worker (some wk) s =
    let t = record s {
      num_workers = dec s.num_workers;
      num_idle_workers = dec s.num_idle_workers;
      killed = wk.pid ∷ s.killed;
    } in
    unlink_worker wk.pid t s.workers

abbrev pub fresh_worker : ℤ → Worker
fresh_worker pid = record { pid = pid; reqs_handled = pos 0; is_idle = true; to_harvest = false }

unfoldable pub add_worker : ℤ → Server → Server
add_worker pid s = record s {
  workers = fresh_worker pid ∷ s.workers;
  num_idle_workers = inc s.num_idle_workers;
  num_workers = inc s.num_workers;
}

-- What `fork` returns in the parent at each call.
module _ (fork : ℕ → ℤ) where
  unfoldable pub create_new_worker : Server → Server
  unfolding add_worker
  create_new_worker s = add_worker (fork s.forks) (record s { forks = suc s.forks })

  unfoldable pub create_workers : ℕ → Server → Server
  create_workers zero s = s
  create_workers (suc n) s = create_workers n (create_new_worker s)

  -- `none` means that the fuel ran out before the recursion ended.
  unfoldable pub exponential_spawn : ℕ → ℕ → Server → Option Server
  exponential_spawn zero n s = none
  exponential_spawn (suc fuel) n s =
      let m = if ltb 32 n then 32 else n in
      let t = create_workers m s in
      let rest = exponential_spawn fuel (m * 2) t in
      if ltb_ℤ t.num_idle_workers t.min_spare_servers then rest else some t

  handle_got_request : ControlMsg → Server → Option Worker → Outcome
  unfolding create_new_worker store
  handle_got_request m s none = fault
  handle_got_request m s (some wk) =
      let t = record s {
        workers = store m.pid (λ w. record w { is_idle = false }) s.workers;
        num_idle_workers = dec s.num_idle_workers;
      } in
      if ltb_ℤ t.num_idle_workers t.min_spare_servers
      then running (create_new_worker t)
      else running t

  -- `sent` says whether `sendto` of the acknowledgement succeeds.
  handle_completed_request : Bool → ControlMsg → Server → Option Worker → Outcome
  unfolding create_new_worker store remove_worker
  handle_completed_request sent m s none = fault
  handle_completed_request sent m s (some old) =
      let wk = record old { is_idle = true; reqs_handled = m.reqs_handled } in
      let t = record s {
        workers =
            store m.pid (λ w. record w { is_idle = true; reqs_handled = m.reqs_handled }) s.workers;
        num_idle_workers = inc s.num_idle_workers;
      } in
      if ltb_ℤ t.max_spare_servers t.num_idle_workers
      then remove_worker (some wk) t
      else if eq_ℤ m.reqs_handled t.max_requests_per_child
      then and_then (remove_worker (some wk) t) (λ u. running (create_new_worker u))
      else if sent
      then running (record t { acks = wk.pid ∷ t.acks })
      else exited

  unfoldable pub handle_control_msg : Bool → ControlMsg → Server → Outcome
  unfolding get_worker_by_id handle_got_request handle_completed_request
  handle_control_msg sent m s =
      if m.type == got_request
      then handle_got_request m s (get_worker_by_id m.pid s)
      else if m.type == completed_request
      then handle_completed_request sent m s (get_worker_by_id m.pid s)
      else running s
