-- ===== src/Shell/Execute/Worlds.antt =====
-- The pipes while the commands of a stage run.
use netprog_assignments.Base.{
  ℕ, suc, ◌+◌, ◌≡◌, false, List, [], ◌++◌, ◌==◌, ◌<◌, CString, arith, ap, ◌∙◌, lt→ltb, ==_refl, ◌≢◌,
  true, leb, length, ◌≤◌,
}
use netprog_assignments.Shell.{done}
use netprog_assignments.Shell.Execute.{World, pipe, pipe_capacity, set_pipe, write_to}

-- Pipe `i` holds the input of a stage, pipe `j` after it what the stage has written, and the
-- other pipes after `i` are empty.
pub record Filled (i : ℕ) (s : CString) (j : ℕ) (out t : CString) (fs : List (CString × CString))
    (w : World) : Type 0 where
  pub input : w.pipes i ≡ s
  pub output : w.pipes j ≡ out
  pub clear : (k : ℕ) → i < k → k ≢ j → w.pipes k ≡ []
  pub shown : w.terminal ≡ t
  pub kept_files : w.files ≡ fs

-- Pipe `i` holds the input of the next stage, and the pipes after it are empty.
pub record Ready (i : ℕ) (s t : CString) (fs : List (CString × CString)) (w : World) : Type 0 where
  pub input : w.pipes i ≡ s
  pub clear : (k : ℕ) → i < k → w.pipes k ≡ []
  pub shown : w.terminal ≡ t
  pub kept_files : w.files ≡ fs

pub Ready-Filled :
    {i : ℕ} {s t : CString} {fs : List (CString × CString)} {w : World} (j : ℕ)
    → i < j
    → Ready i s t fs w
    → Filled i s j [] t fs w
Ready-Filled j h r = record {
  input = r.input;
  output = r.clear j h;
  clear = λ k m _. r.clear k m;
  shown = r.shown;
  kept_files = r.kept_files;
}

abbrev pub written : World → ℕ → CString → World
written w j s = set_pipe w j (w.pipes j ++ s)

pub write-pipe :
    (count j : ℕ) (s : CString) (w : World)
    → j + 1 < count
    → length (w.pipes j ++ s) ≤ pipe_capacity
    → write_to count (pipe j) s w ≡ done (written w j s)
unfolding write_to
write-pipe count j s w h m =
    let room : leb (length (w.pipes j ++ s)) pipe_capacity ≡ true = ground arith in
    rw (lt→ltb (j + 1) count h, room)

abbrev pub printed : World → CString → World
printed w s = record w { terminal = w.terminal ++ s }

pub at_self : (w : World) (j : ℕ) (s : CString) → (set_pipe w j s).pipes j ≡ s
at_self w j s = rw (==_refl j)

pub at_other : (w : World) (j k : ℕ) (s : CString) → k ≢ j → (set_pipe w j s).pipes k ≡ w.pipes k
at_other w j k s h = let apart : (k == j) ≡ false = ground arith in rw apart

module _ (i : ℕ) (w : World) where
  abbrev pub after_handing : World
  after_handing = set_pipe (set_pipe w i []) (suc i) ((set_pipe w i []).pipes (suc i) ++ w.pipes i)

  pub handed_pipe :
      {s : CString} → w.pipes i ≡ s → w.pipes (suc i) ≡ [] → after_handing.pipes (suc i) ≡ s
  handed_pipe h e =
      at_self (set_pipe w i []) (suc i) ((set_pipe w i []).pipes (suc i) ++ w.pipes i)
      ∙ rw (at_other w i (suc i) [] (omega arith), e) h

  pub handed_other : (k : ℕ) → suc i < k → after_handing.pipes k ≡ w.pipes k
  handed_other k h =
      at_other (set_pipe w i []) (suc i) k ((set_pipe w i []).pipes (suc i) ++ w.pipes i)
        (omega arith)
      ∙ at_other w i k [] (omega arith)

  pub hand_written :
      {s t : CString} {fs : List (CString × CString)} (j : ℕ) (out x : CString)
      → suc i < j
      → Filled i s j out t fs w
      → Filled (suc i) s j (out ++ x) t fs (written after_handing j x)
  hand_written j out x h f = record {
    input =
        at_other after_handing j (suc i) (after_handing.pipes j ++ x) (omega arith)
        ∙ handed_pipe f.input (f.clear (suc i) (omega arith) (omega arith));
    output = at_self after_handing j (after_handing.pipes j ++ x) ∙ rw (handed_other j h, f.output);
    clear = λ k m n.
        at_other after_handing j k (after_handing.pipes j ++ x) n
        ∙ handed_other k m
        ∙ f.clear k (omega arith) n;
    shown = f.shown;
    kept_files = f.kept_files;
  }

  pub keep_written :
      {s t : CString} {fs : List (CString × CString)} (out x : CString)
      → Filled i s (suc i) out t fs w
      → Ready (suc i) (out ++ x) t fs (written (set_pipe w i []) (suc i) x)
  keep_written out x f =
      let v = set_pipe w i [] in
      record {
        input =
            at_self v (suc i) (v.pipes (suc i) ++ x)
            ∙ rw (at_other w i (suc i) [] (omega arith), f.output);
        clear = λ k m.
            at_other v (suc i) k (v.pipes (suc i) ++ x) (omega arith)
            ∙ at_other w i k [] (omega arith)
            ∙ f.clear k (omega arith) (omega arith);
        shown = f.shown;
        kept_files = f.kept_files;
      }

  pub hand_printed :
      {s t : CString} {fs : List (CString × CString)} (x : CString)
      → Ready i s t fs w
      → Ready (suc i) s (t ++ x) fs (printed after_handing x)
  hand_printed x r = record {
    input = handed_pipe r.input (r.clear (suc i) (omega arith));
    clear = λ k m. handed_other k m ∙ r.clear k (omega arith);
    shown = ap (λ u. u ++ x) r.shown;
    kept_files = r.kept_files;
  }
