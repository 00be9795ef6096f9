-- ===== src/Shell/Execute/Stages.antt =====
-- A pipe of stages runs as the composition of its stages.
use netprog_assignments.Base.{
  ℕ, suc, ◌+◌, ◌≡◌, refl, sym, Bool, length, ◌≤◌, true, false, List, [], ◌∷◌, ◌++◌, ◌<◌, CString,
  arith, ◌∙◌, lt→ltb,
}
use netprog_assignments.Shell.{done}
use netprog_assignments.Shell.Command.{Command}
use netprog_assignments.Shell.Pipe.Shape.{Stage, single, double, triple}
use netprog_assignments.Shell.Execute.Worlds.{
  Filled, Ready, at_other, handed_other, written, printed, write-pipe, after_handing, hand_written,
  keep_written, hand_printed,
}
use netprog_assignments.Shell.Execute.{
  World, standard_output, pipe, stdout_buf_size, pipe_capacity, is_copied, set_pipe, write_fd,
  hands_on, write_to, input_of, run_command, run_from,
}

-- Data that the process of a command takes through its buffer: `buff` has a null behind it.
abbrev pub IsCopied : Bool → CString → Type 0
IsCopied stale_null s = (stale_null ≡ true) × (length s < stdout_buf_size)

is_copied_lem : {b : Bool} (s : CString) → IsCopied b s → is_copied b s ≡ true
is_copied_lem [] h = refl
is_copied_lem (c ∷ s) (e, h) = rw (e, lt→ltb (length (c ∷ s)) stdout_buf_size h)

room_for :
    {b : Bool} {held : CString} (s : CString)
    → held ≡ []
    → IsCopied b s
    → length (held ++ s) ≤ pipe_capacity
room_for s e (_, h) = rw e (lt_le h)
  where
    lt_le : length s < stdout_buf_size → length s ≤ pipe_capacity
    lt_le l = omega arith

-- A command without redirections.
abbrev pub IsPlain : Command → Type 0
IsPlain c = (c.in_redirect ≡ false) × (c.out_redirect ≡ false)

abbrev pub IsPlainStage : Stage → Type 0
IsPlainStage (single c) = IsPlain c
IsPlainStage (double c d) = IsPlain c × IsPlain d
IsPlainStage (triple c d e) = IsPlain c × IsPlain d × IsPlain e

module _ (program : List CString → CString → CString) where
  -- Each command of a stage reads the whole input; the stage writes what they write, in order.
  abbrev pub stage_output : Stage → CString → CString
  stage_output (single c) s = program c.argv s
  stage_output (double c d) s = program c.argv s ++ program d.argv s
  stage_output (triple c d e) s = program c.argv s ++ program d.argv s ++ program e.argv s

  abbrev pub stages_output : List Stage → CString → CString
  stages_output [] s = s
  stages_output (x ∷ xs) s = stages_output xs (stage_output x s)

module _ (program : List CString → CString → CString) (stale : ℕ → Bool) (stdin : CString)
    (count i : ℕ) where
  keeps_input :
      (c : Command) (w : World)
      → hands_on count (suc i) c ≡ false
      → IsPlain c
      → run_command program stale stdin count (suc i) c w
        ≡ write_to count (write_fd count (suc i) c) (program c.argv (w.pipes i)) (set_pipe w i [])
  unfolding run_command input_of
  keeps_input c w h (k, l) = rw (h, l, k)

  hands_input :
      (c : Command) (w : World)
      → hands_on count (suc i) c ≡ true
      → suc i + 1 < count
      → IsCopied (stale (suc i)) (w.pipes i)
      → (set_pipe w i []).pipes (suc i) ≡ []
      → IsPlain c
      → run_command program stale stdin count (suc i) c w
        ≡ write_to count (write_fd count (suc i) c) (program c.argv (w.pipes i)) (after_handing i w)
  unfolding run_command input_of write_to
  hands_input c w h m small e (k, l) = rw (
    h,
    is_copied_lem (w.pipes i) small,
    write-pipe count (suc i) (w.pipes i) (set_pipe w i []) m (room_for (w.pipes i) e small),
    l,
    k,
  )

  -- The four ways in which a command without redirections runs.
  module _ {s t : CString} {fs : List (CString × CString)} (c : Command) (w : World)
      (p : IsPlain c) where
    pub hand_to_pipe :
        {out : CString} (j : ℕ)
        → IsCopied (stale (suc i)) s
        → length (out ++ program c.argv s) ≤ pipe_capacity
        → hands_on count (suc i) c ≡ true
        → write_fd count (suc i) c ≡ pipe j
        → suc i < j
        → j + 1 < count
        → Filled i s j out t fs w
        → (v : World) × (run_command program stale stdin count (suc i) c w ≡ done v)
          × Filled (suc i) s j (out ++ program c.argv s) t fs v
    hand_to_pipe {out = out} j small room h k m n f =
        let x = program c.argv (w.pipes i) in
        let next_empty =
          at_other w i (suc i) [] (omega arith) ∙ f.clear (suc i) (omega arith) (omega arith) in
        let fits : length ((after_handing i w).pipes j ++ x) ≤ pipe_capacity =
          rw (handed_other i w j m, f.output, f.input) room in
        (
          written (after_handing i w) j x,
          hands_input c w h (omega arith) (rw f.input small) next_empty p
              ∙ rw k (write-pipe count j x (after_handing i w) n fits),
          rw (sym f.input) (hand_written i w j out x m (rw f.input f)),
        )

    pub keep_to_pipe :
        {out : CString}
        → length (out ++ program c.argv s) ≤ pipe_capacity
        → hands_on count (suc i) c ≡ false
        → write_fd count (suc i) c ≡ pipe (suc i)
        → suc i + 1 < count
        → Filled i s (suc i) out t fs w
        → (v : World) × (run_command program stale stdin count (suc i) c w ≡ done v)
          × Ready (suc i) (out ++ program c.argv s) t fs v
    keep_to_pipe {out = out} room h k m f =
        let x = program c.argv (w.pipes i) in
        let fits : length ((set_pipe w i []).pipes (suc i) ++ x) ≤ pipe_capacity =
          rw (at_other w i (suc i) [] (omega arith), f.output, f.input) room in
        (
          written (set_pipe w i []) (suc i) x,
          keeps_input c w h p ∙ rw k (write-pipe count (suc i) x (set_pipe w i []) m fits),
          rw (sym f.input) (keep_written i w out x f),
        )

    pub hand_to_terminal :
        IsCopied (stale (suc i)) s
        → hands_on count (suc i) c ≡ true
        → write_fd count (suc i) c ≡ standard_output
        → suc i + 1 < count
        → Ready i s t fs w
        → (v : World) × (run_command program stale stdin count (suc i) c w ≡ done v)
          × Ready (suc i) s (t ++ program c.argv s) fs v
    unfolding write_to
    hand_to_terminal small h k m f =
        let x = program c.argv (w.pipes i) in
        let next_empty = at_other w i (suc i) [] (omega arith) ∙ f.clear (suc i) (omega arith) in
        (
          printed (after_handing i w) x,
          hands_input c w h m (rw f.input small) next_empty p ∙ rw k,
          rw (sym f.input) (hand_printed i w x (rw f.input f)),
        )

    pub keep_to_terminal :
        hands_on count (suc i) c ≡ false
        → write_fd count (suc i) c ≡ standard_output
        → Ready i s t fs w
        → (v : World) × (run_command program stale stdin count (suc i) c w ≡ done v)
          × (v.terminal ≡ t ++ program c.argv s)
          × (v.files ≡ fs)
    unfolding write_to
    keep_to_terminal h k f =
        let x = program c.argv (w.pipes i) in
        (
          printed (set_pipe w i []) x,
          keeps_input c w h p ∙ rw k,
          rw (f.input, f.shown),
          f.kept_files,
        )

pub run_one :
    (program : List CString → CString → CString) (stale : ℕ → Bool) (stdin : CString) (count i : ℕ)
    (c : Command) (cs : List Command) (w v : World)
    → run_command program stale stdin count i c w ≡ done v
    → run_from program stale stdin count i (c ∷ cs) w
      ≡ run_from program stale stdin count (suc i) cs v
unfolding run_from
run_one program stale stdin count i c cs w v h = rw h
