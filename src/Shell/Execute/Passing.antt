-- ===== src/Shell/Execute/Passing.antt =====
-- What one stage of a pipe leaves: in the next pipe, or on the terminal when it is the last.
use mathlib.Core.List.{append_assoc}
use netprog_assignments.Base.{
  ℕ, suc, ◌+◌, ◌≡◌, List, [], ◌∷◌, ◌++◌, ◌<◌, length, CString, arith, ap, ◌∙◌, Bool, ◌≤◌,
  length-append,
}
use netprog_assignments.Shell.{done}
use netprog_assignments.Shell.Command.{Command}
use netprog_assignments.Shell.Pipe.Shape.{
  Stage, single, double, triple, IsStage, stage_commands, staged,
}
use netprog_assignments.Shell.Execute.Sinks.{
  single_sink, first_of_two, second_of_two, first_of_three, second_of_three, third_sink, last_sink,
  last_first_of_two, last_first_of_three, last_second_of_three, first_hands, second_hands,
  single_keeps, second_keeps, third_keeps,
}
use netprog_assignments.Shell.Execute.Stages.{
  IsCopied, IsPlainStage, stage_output, hand_to_pipe, keep_to_pipe, hand_to_terminal,
  keep_to_terminal, run_one,
}
use netprog_assignments.Shell.Execute.Worlds.{Ready, Ready-Filled}
use netprog_assignments.Shell.Execute.{World, pipe_capacity, run_from}

-- The place of the last command of a stage whose first is at `i + 1`.
abbrev pub last_place : ℕ → Stage → ℕ
last_place i (single c) = suc i
last_place i (double c d) = suc (suc i)
last_place i (triple c d e) = suc (suc (suc i))

-- The commands of the stage that hand their input on take it through their buffers.
abbrev pub IsHanded : (ℕ → Bool) → ℕ → Stage → CString → Type 0
IsHanded stale i (single c) s = Unit
IsHanded stale i (double c d) s = IsCopied (stale (suc i)) s
IsHanded stale i (triple c d e) s = IsCopied (stale (suc i)) s × IsCopied (stale (suc (suc i))) s

front_fits : (a b : CString) → length (a ++ b) ≤ pipe_capacity → length a ≤ pipe_capacity
front_fits a b h = omega (arith, length-append a b)

regroup : (t a b c : CString) → t ++ a ++ b ++ c ≡ t ++ (a ++ b ++ c)
regroup t a b c = ap (λ u. u ++ c) (append_assoc t a b) ∙ append_assoc t (a ++ b) c

pub last_at :
    (i : ℕ) {n : ℕ} (x : Stage)
    → suc i + length (stage_commands x ++ []) ≡ n
    → last_place i x + 1 ≡ n
last_at i (single c) h = omega arith
last_at i (double c d) h = omega arith
last_at i (triple c d e) h = omega arith

pub next_at :
    (i : ℕ) {n : ℕ} (x : Stage) (cs : List Command)
    → suc i + length (stage_commands x ++ cs) ≡ n
    → suc (last_place i x) + length cs ≡ n
next_at i (single c) cs h = omega arith
next_at i (double c d) cs h = omega arith
next_at i (triple c d e) cs h = omega arith

pub before_last :
    (i : ℕ) {n : ℕ} (x y : Stage) (ys : List Stage)
    → suc i + length (stage_commands x ++ staged (y ∷ ys)) ≡ n
    → last_place i x + 1 < n
before_last i x (single c) ys h = omega (arith, next_at i x (staged (single c ∷ ys)) h)
before_last i x (double c d) ys h = omega (arith, next_at i x (staged (double c d ∷ ys)) h)
before_last i x (triple c d e) ys h = omega (arith, next_at i x (staged (triple c d e ∷ ys)) h)

pub some_stage : (x : Stage) (xs : List Stage) → 0 + 1 < suc (length (staged (x ∷ xs)))
some_stage (single c) xs = omega arith
some_stage (double c d) xs = omega arith
some_stage (triple c d e) xs = omega arith

module _ (program : List CString → CString → CString) (stale : ℕ → Bool) (stdin : CString)
    (count : ℕ) where
  -- A stage before the last reads pipe `i` and leaves its output in the pipe after it.
  pub stage_passes :
      (x : Stage) (rest : List Command) {i : ℕ} {s t : CString} {fs : List (CString × CString)}
      (w : World)
      → IsStage x
      → IsPlainStage x
      → IsHanded stale i x s
      → length (stage_output program x s) ≤ pipe_capacity
      → last_place i x + 1 < count
      → Ready i s t fs w
      → (v : World) × (run_from program stale stdin count (suc i) (stage_commands x ++ rest) w
          ≡ run_from program stale stdin count (suc (last_place i x)) rest v)
        × Ready (last_place i x) (stage_output program x s) t fs v
  stage_passes (single c) rest {i = i} w q p b room m r =
      let (v, e, f) =
        keep_to_pipe program stale stdin count i c w p room (single_keeps count (suc i) c q)
          (single_sink count (suc i) c q m) m (Ready-Filled (suc i) (omega arith) r) in
      (v, run_one program stale stdin count (suc i) c rest w v e, f)
  stage_passes (double c d) rest {i = i} {s = s} w (q, q2) (p, p2) b room m r =
      let j = suc (suc i) in
      let (v, e, f) =
        hand_to_pipe program stale stdin count i c w p j b (front_fits _ _ room)
          (first_hands count (suc i) c q (omega arith))
          (first_of_two count (suc i) c q (omega arith)) (omega arith) m
          (Ready-Filled j (omega arith) r) in
      let (u, g, h) =
        keep_to_pipe program stale stdin count (suc i) d v p2 room (second_keeps count j d q2)
          (second_of_two count j d q2 m) m f in
      (
        u,
        run_one program stale stdin count (suc i) c (d ∷ rest) w v e
            ∙ run_one program stale stdin count j d rest v u g,
        h,
      )
  stage_passes (triple c d e) rest {i = i} {s = s} w (q, q2, q3) (p, p2, p3) (b, b2) room m r =
      let both_fit = front_fits (program c.argv s ++ program d.argv s) (program e.argv s) room in
      let one_fits = front_fits (program c.argv s) (program d.argv s) both_fit in
      let j = suc (suc i) in
      let k = suc (suc (suc i)) in
      let (v, o, f) =
        hand_to_pipe program stale stdin count i c w p k b one_fits
          (first_hands count (suc i) c q (omega arith))
          (first_of_three count (suc i) c q (omega arith)) (omega arith) m
          (Ready-Filled k (omega arith) r) in
      let (u, g, h) =
        hand_to_pipe program stale stdin count (suc i) d v p2 k b2 both_fit
          (second_hands count j d q2 (omega arith)) (second_of_three count j d q2 (omega arith))
          (omega arith) m f in
      let (z, a, b) =
        keep_to_pipe program stale stdin count j e u p3 room (third_keeps count k e q3)
          (third_sink count k e q3 m) m h in
      (
        z,
        run_one program stale stdin count (suc i) c (d ∷ e ∷ rest) w v o
            ∙ run_one program stale stdin count j d (e ∷ rest) v u g
            ∙ run_one program stale stdin count k e rest u z a,
        b,
      )

  -- The last stage writes to the terminal.
  pub stage_prints :
      (x : Stage) {i : ℕ} {s t : CString} {fs : List (CString × CString)} (w : World)
      → IsStage x
      → IsPlainStage x
      → IsHanded stale i x s
      → last_place i x + 1 ≡ count
      → Ready i s t fs w
      → (v : World) × (run_from program stale stdin count (suc i) (stage_commands x ++ []) w
          ≡ done v)
        × (v.terminal ≡ t ++ stage_output program x s)
        × (v.files ≡ fs)
  unfolding run_from
  stage_prints (single c) {i = i} w q p b m r =
      let (v, e, f, g) =
        keep_to_terminal program stale stdin count i c w p (single_keeps count (suc i) c q)
          (last_sink count (suc i) c m) r in
      (v, run_one program stale stdin count (suc i) c [] w v e, f, g)
  stage_prints (double c d) {i = i} {s = s} {t = t} w (q, q2) (p, p2) b m r =
      let j = suc (suc i) in
      let (v, e, f) =
        hand_to_terminal program stale stdin count i c w p b
          (first_hands count (suc i) c q (omega arith))
          (last_first_of_two count (suc i) c q (omega arith)) (omega arith) r in
      let (u, g, h, l) =
        keep_to_terminal program stale stdin count (suc i) d v p2 (second_keeps count j d q2)
          (last_sink count j d m) f in
      (
        u,
        run_one program stale stdin count (suc i) c (d ∷ []) w v e
            ∙ run_one program stale stdin count j d [] v u g,
        h ∙ append_assoc t (program c.argv s) (program d.argv s),
        l,
      )
  stage_prints (triple c d e) {i = i} {s = s} {t = t} w (q, q2, q3) (p, p2, p3) (b, b2) m r =
      let j = suc (suc i) in
      let k = suc (suc (suc i)) in
      let (v, o, f) =
        hand_to_terminal program stale stdin count i c w p b
          (first_hands count (suc i) c q (omega arith))
          (last_first_of_three count (suc i) c q (omega arith)) (omega arith) r in
      let (u, g, h) =
        hand_to_terminal program stale stdin count (suc i) d v p2 b2
          (second_hands count j d q2 (omega arith))
          (last_second_of_three count j d q2 (omega arith)) (omega arith) f in
      let (z, a, b, l) =
        keep_to_terminal program stale stdin count j e u p3 (third_keeps count k e q3)
          (last_sink count k e m) h in
      (
        z,
        run_one program stale stdin count (suc i) c (d ∷ e ∷ []) w v o
            ∙ run_one program stale stdin count j d (e ∷ []) v u g
            ∙ run_one program stale stdin count k e [] u z a,
        b ∙ regroup t (program c.argv s) (program d.argv s) (program e.argv s),
        l,
      )
