-- ===== src/Prefork/Protocol/Sync.antt =====
-- One step of the parent and its workers keeps the table, the processes and the mail in step.
use netprog_assignments.Base.{
  ◌≡◌, refl, Bool, true, false, Option, some, List, [], ◌∷◌, ◌++◌, arith, ℤ, eq_ℤ, if◌then◌else◌,
}
use netprog_assignments.Prefork.{ControlMsg, Worker}
use netprog_assignments.Prefork.Protocol.{
  accepting, serving, waiting, Process, of_pid, InStep, unknown, ready, taken, busy, done_early,
  done, acked, IsGot, IsDone,
}

pub of_pid-snoc :
    (q : ℤ) (ms : List ControlMsg) (m : ControlMsg)
    → of_pid q (ms ++ m ∷ []) ≡ (if eq_ℤ q m.pid then of_pid q ms ++ m ∷ [] else of_pid q ms)
unfolding of_pid
of_pid-snoc q [] m = ground arith
of_pid-snoc q (n ∷ ms) m = ground (arith, of_pid-snoc q ms m)

module _ {o : Option Worker} {x : Option Process} {ms : List ControlMsg} (m : ControlMsg) where
  pub accept-InStep :
      (n : ℤ) (a : Bool)
      → InStep o x ms
      → x ≡ some (record { phase = accepting; reqs_handled = n; ack = a })
      → IsGot m
      → InStep o (some (record { phase = serving; reqs_handled = n; ack = a })) (ms ++ m ∷ [])
  accept-InStep n a (unknown e f g) h t = ground arith
  accept-InStep n a (ready e f g) h t =
      taken m e (record { phase = serving; reqs_handled = n; ack = a }, refl, refl, ground arith) t
        (ground arith)
  accept-InStep n a (taken _ e f _ g) h t = ground arith
  accept-InStep n a (busy e f g) h t = ground arith
  accept-InStep n a (done_early _ _ e f _ _ g) h t = ground arith
  accept-InStep n a (done _ e f _ g) h t = ground arith
  accept-InStep n a (acked e f g) h t = ground arith

  pub complete-InStep :
      (n k : ℤ) (a : Bool)
      → InStep o x ms
      → x ≡ some (record { phase = serving; reqs_handled = n; ack = a })
      → IsDone m
      → InStep o (some (record { phase = waiting; reqs_handled = k; ack = a })) (ms ++ m ∷ [])
  complete-InStep n k a (unknown e f g) h t = ground arith
  complete-InStep n k a (ready e f g) h t = ground arith
  complete-InStep n k a (taken m' e f b g) h t =
      done_early m' m e
        (record { phase = waiting; reqs_handled = k; ack = a }, refl, refl, ground arith) b t
        (ground arith)
  complete-InStep n k a (busy e f g) h t =
      done m e (record { phase = waiting; reqs_handled = k; ack = a }, refl, refl, ground arith) t
        (ground arith)
  complete-InStep n k a (done_early _ _ e f _ _ g) h t = ground arith
  complete-InStep n k a (done _ e f _ g) h t = ground arith
  complete-InStep n k a (acked e f g) h t = ground arith

pub resume-InStep :
    {o : Option Worker} {x : Option Process} {ms : List ControlMsg} (n : ℤ)
    → InStep o x ms
    → x ≡ some (record { phase = waiting; reqs_handled = n; ack = true })
    → InStep o (some (record { phase = accepting; reqs_handled = n; ack = false })) ms
resume-InStep n (unknown e f g) h = ground arith
resume-InStep n (ready e f g) h = ground arith
resume-InStep n (taken _ e f _ g) h = ground arith
resume-InStep n (busy e f g) h = ground arith
resume-InStep n (done_early _ _ e f _ _ g) h = ground arith
resume-InStep n (done _ e f _ g) h = ground arith
resume-InStep n (acked e f g) h =
    ready e (record { phase = accepting; reqs_handled = n; ack = false }, refl, refl, refl) g
