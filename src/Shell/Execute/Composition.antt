-- ===== src/Shell/Execute/Composition.antt =====
-- A pipe of stages runs as the composition of its stages.
use netprog_assignments.Base.{ℕ, List, [], ◌∷◌, length, CString, Bool, ◌≤◌}
use netprog_assignments.Shell.Command.{Command}
use netprog_assignments.Shell.Pipe.Shape.{Stage}
use netprog_assignments.Shell.Execute.Stages.{stage_output}
use netprog_assignments.Shell.Execute.{pipe_capacity}
use netprog_assignments.Shell.Execute.Passing.{IsHanded, last_place}

-- The stages from the one that reads pipe `i`, with the input `s`: every process that hands its
-- input on copies it, and a pipe holds what a stage writes.
abbrev FitsFrom :
    (List CString → CString → CString) → (ℕ → Bool) → ℕ → Stage → List Stage → CString → Type 0
FitsFrom program stale i x [] s = IsHanded stale i x s
FitsFrom program stale i x (y ∷ ys) s =
    let out = stage_output program x s in
    IsHanded stale i x s
    × (length out ≤ pipe_capacity)
    × FitsFrom program stale (last_place i x) y ys out

-- The whole group: the pipes hold the outputs, and no more than 499 bytes are handed on.
abbrev pub Fits :
    (List CString → CString → CString) → (ℕ → Bool) → Command → List Stage → CString → Type 0
Fits program stale c [] s = Unit
Fits program stale c (x ∷ xs) s =
    let out = program c.argv s in (length out ≤ pipe_capacity) × FitsFrom program stale 0 x xs out
