-- ===== src/Shell/Descriptors.antt =====
-- Which ends of the pipes executeCmdPipe of assignment-1/q1/shell.c leaves open, in the process
-- that forks the commands and in the process of each command.
pub mod Closing
use netprog_assignments.Base.{
  ℕ, zero, suc, ◌+◌, ◌-◌, Bool, true, false, Option, none, some, List, [], ◌∷◌, ◌==◌, if◌then◌else◌,
  set, replicate,
}
use netprog_assignments.Shell.Command.{Command}
use netprog_assignments.Shell.Execute.{Sink, standard_output, pipe, write_fd, hands_on}

-- For each pipe, whether `pipe_fd[i][0]`, `pipe_fd[i][1]` are open in a process.
pub record Ends : Type 0 where
  pub reads : List Bool
  pub writes : List Bool

abbrev pub init_pipes : ℕ → Ends
init_pipes count = record {
  reads = replicate (count - 1) true;
  writes = replicate (count - 1) true;
}

abbrev pub is_except : Option ℕ → ℕ → Bool
is_except none i = false
is_except (some k) i = i == k

-- The loop of closeAllFdExcept from place `i` on; `none` is -1.
unfoldable pub close_all_fd_except : Option ℕ → ℕ → List Bool → List Bool
close_all_fd_except except_fd i [] = []
close_all_fd_except except_fd i (b ∷ fds) =
    (if is_except except_fd i then b else false) ∷ close_all_fd_except except_fd (suc i) fds

unfoldable pub close_all_pipe_fd : Ends → Ends
unfolding close_all_fd_except
close_all_pipe_fd e = record {
  reads = close_all_fd_except none 0 e.reads;
  writes = close_all_fd_except none 0 e.writes;
}

-- `read_pipe` of the command at place `i`
unfoldable pub read_pipe : ℕ → ℕ → Command → Option ℕ
read_pipe count zero c = none
read_pipe count (suc i) c = if hands_on count (suc i) c then none else some i

abbrev pub to_pipe : Sink → Option ℕ
to_pipe standard_output = none
to_pipe (pipe j) = some j

-- The process of the command at place `i`, from what it has of its parent to `execvp`.
unfoldable pub child_ends : ℕ → ℕ → Command → Ends → Ends
unfolding close_all_fd_except read_pipe
child_ends count i c e = record {
  reads = close_all_fd_except (read_pipe count i c) 0 e.reads;
  writes = close_all_fd_except (to_pipe (write_fd count i c)) 0 e.writes;
}

abbrev pub close_read : ℕ → List Bool → List Bool
close_read zero fds = fds
close_read (suc i) fds = set fds i false

-- The parent after the fork of the command at place `i`, before it waits.
abbrev pub parent_after : ℕ → ℕ → Ends → Ends
parent_after count i e = record {
  reads = close_read i e.reads;
  writes = if i + 1 == count then e.writes else set e.writes i false;
}

-- The parent when it forks the command at place `i`.
unfoldable pub parent_at : ℕ → ℕ → Ends
parent_at count zero = init_pipes count
parent_at count (suc i) = parent_after count i (parent_at count i)
