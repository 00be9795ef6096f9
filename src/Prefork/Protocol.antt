-- ===== src/Prefork/Protocol.antt =====
-- The parent and its workers of prefork_server.c running together: start_worker in each child,
-- the parent's receive loop, the parent's socket (oldest message first) and the pending
-- acknowledgement on each child's socket.
pub mod Sync
pub mod Receive
pub mod Turns
pub mod Safety
use netprog_assignments.Base.{
  ℕ, zero, suc, ◌+◌, ◌≡◌, refl, ◌≢◌, inl, inr, ◌⊎◌, Bool, true, false, ◌&&◌, Option, none, some,
  List, [], ◌∷◌, ◌++◌, arith, length, ltb, ltb_ℤ, ℤ, pos, inc, eq_ℤ, if◌then◌else◌,
}
use netprog_assignments.Prefork.{
  ControlMsg, Server, Worker, running, got_request, completed_request, handle_control_msg, find,
  fresh_worker,
}

-- Where a worker's loop stands: in `accept`, between its two messages, or waiting for the
-- acknowledgement.
pub data Phase : Type 0 where
  accepting serving waiting : Phase

pub record Process : Type 0 where
  pub phase : Phase
  pub reqs_handled : ℤ
  pub ack : Bool

abbrev pub started : Process
started = record { phase = accepting; reqs_handled = pos 0; ack = false }

pub record System : Type 0 where
  pub server : Server
  pub processes : ℤ → Option Process
  pub mail : List ControlMsg

abbrev pub update : (ℤ → Option Process) → ℤ → Option Process → ℤ → Option Process
update f p v q = if eq_ℤ q p then v else f q

-- Whether `ys` is `xs` with `q` added in front.
abbrev pub added : List ℤ → List ℤ → ℤ → Bool
added xs [] q = false
added xs (y ∷ ys) q = ltb (length xs) (suc (length ys)) && eq_ℤ q y

abbrev pub with_ack : Option Process → Option Process
with_ack none = none
with_ack (some p) = some (record p { ack = true })

module _ (fork : ℕ → ℤ) where
  -- What the parent's calls between two of its states do to the processes; a failed fork starts none.
  abbrev pub deliver : Server → Server → (ℤ → Option Process) → ℤ → Option Process
  deliver s t f q =
      if ltb s.forks t.forks && ltb_ℤ (pos 0) (fork s.forks) && eq_ℤ q (fork s.forks)
      then some started
      else if added s.killed t.killed q
      then none
      else if added s.acks t.acks q
      then with_ack (f q)
      else f q

  -- The steps of a run in which each call of `fork` succeeds with a pid that no running process has.
  -- A failed one, after which the code puts a worker with pid -1 into the list, is not a step here.
  pub data Step (y : System) : System → Type 0 where
    accept :
        (p : ℤ) (n : ℤ) (a : Bool)
        → y.processes p ≡ some (record { phase = accepting; reqs_handled = n; ack = a })
        → Step y (record y {
          processes =
              update y.processes p (some (record { phase = serving; reqs_handled = n; ack = a }));
          mail = y.mail ++ record { type = got_request; pid = p; reqs_handled = n } ∷ [];
        })
    complete :
        (p : ℤ) (n : ℤ) (a : Bool)
        → y.processes p ≡ some (record { phase = serving; reqs_handled = n; ack = a })
        → Step y (record y {
          processes =
              update y.processes p
                (some (record { phase = waiting; reqs_handled = inc n; ack = a }));
          mail = y.mail ++ record { type = completed_request; pid = p; reqs_handled = inc n } ∷ [];
        })
    resume :
        (p : ℤ) (n : ℤ)
        → y.processes p ≡ some (record { phase = waiting; reqs_handled = n; ack = true })
        → Step y (record y {
          processes =
              update y.processes p
                (some (record { phase = accepting; reqs_handled = n; ack = false }));
        })
    receive :
        (m : ControlMsg) (rest : List ControlMsg) (t : Server)
        → y.mail ≡ m ∷ rest
        → ltb_ℤ (pos 0) (fork y.server.forks) ≡ true
        → y.processes (fork y.server.forks) ≡ none
        → handle_control_msg fork true m y.server ≡ running t
        → Step y (record { server = t; processes = deliver y.server t y.processes; mail = rest })

  pub data Reach (y : System) : System → Type 0 where
    here : Reach y y
    next : {z u : System} → Reach y z → Step z u → Reach y u

-- The messages of one worker.
unfoldable pub of_pid : ℤ → List ControlMsg → List ControlMsg
of_pid p [] = []
of_pid p (m ∷ ms) = if eq_ℤ p m.pid then m ∷ of_pid p ms else of_pid p ms

abbrev pub IdleIs : Option Worker → Bool → Type 0
IdleIs o b = (w : Worker) × (o ≡ some w) × (w.is_idle ≡ b)

abbrev pub ProcIs : Option Process → Phase → Bool → Type 0
ProcIs o f a = (pr : Process) × (o ≡ some pr) × (pr.phase ≡ f) × (pr.ack ≡ a)

abbrev pub IsGot : ControlMsg → Type 0
IsGot m = m.type ≡ got_request

abbrev pub IsDone : ControlMsg → Type 0
IsDone m = m.type ≡ completed_request

-- What the table, the process and the mail agree on for one pid.
pub data InStep (o : Option Worker) (x : Option Process) (ms : List ControlMsg) : Type 0 where
  unknown : o ≡ none → x ≡ none → ms ≡ [] → InStep o x ms
  ready : IdleIs o true → ProcIs x accepting false → ms ≡ [] → InStep o x ms
  taken :
      (m : ControlMsg)
      → IdleIs o true
      → ProcIs x serving false
      → IsGot m
      → ms ≡ m ∷ []
      → InStep o x ms
  busy : IdleIs o false → ProcIs x serving false → ms ≡ [] → InStep o x ms
  done_early :
      (m n : ControlMsg)
      → IdleIs o true
      → ProcIs x waiting false
      → IsGot m
      → IsDone n
      → ms ≡ m ∷ n ∷ []
      → InStep o x ms
  done :
      (m : ControlMsg)
      → IdleIs o false
      → ProcIs x waiting false
      → IsDone m
      → ms ≡ m ∷ []
      → InStep o x ms
  acked : IdleIs o true → ProcIs x waiting true → ms ≡ [] → InStep o x ms

abbrev pub Synced : System → Type 0
Synced y = (q : ℤ) → InStep (find q y.server.workers) (y.processes q) (of_pid q y.mail)
