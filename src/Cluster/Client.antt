-- ===== src/Cluster/Client.antt =====
-- The child of assignment-1/q2/clustershell_client.c: the machine that runs what the server sends.
mod Tests
pub mod Requests
use netprog_assignments.Base.{
  ℕ, ◌+◌, Bool, true, false, Option, none, some, List, [], ◌∷◌, ◌++◌, ◌==◌, ◌&&◌, if◌then◌else◌,
  ltb, leb, length, get_or, take, drop, CString, codes, before_null,
}
use netprog_assignments.Cluster.{max_output_size}
use netprog_assignments.Cluster.Command.{skip_spaces}

abbrev pub max_command_size : ℕ
max_command_size = 1024

-- The array of a request.
abbrev pub request_size : ℕ
request_size = max_command_size + 1 + max_output_size + 1

-- What the server writes: the command, a null, the input and a null.
abbrev pub request : CString → CString → List ℕ
request cmd input = cmd ++ 0 ∷ (input ++ 0 ∷ [])

-- What is behind the first null; `none` is outside of what was read.
unfoldable pub after_null : List ℕ → Option (List ℕ)
after_null [] = none
after_null (c ∷ s) = if c == 0 then some s else after_null s

abbrev pub is_change_dir : List ℕ → Bool
is_change_dir cmd = (get_or cmd 0 0 == b'c') && ((get_or cmd 1 0 == b'd') && (get_or cmd 2 0 == 32))

-- What comes of a command: the machine afterwards with the output, or with NULL; an assert that
-- ends the child; or an access outside an array.
pub data Executed {ℓ} (W : Type ℓ) : Type ℓ where
  output : W → CString → Executed W
  null : W → Executed W
  exits : Executed W
  stray : Executed W

-- `popen` and the first `read` of what the command prints; or one of the calls fails.
pub data Ran {ℓ} (W : Type ℓ) : Type ℓ where
  ran : W → List ℕ → Ran W
  failed : Ran W

-- One connection of the server to the child.
pub data Request : Type 0 where
  no_accept : Request
  no_read : Request
  received : List ℕ → Request

-- The answers written, and whether the child waits for the next, has ended, or has crashed.
pub data Served {ℓ} (W : Type ℓ) : Type ℓ where
  waits : W → List CString → Served W
  ended : List CString → Served W
  crashed : List CString → Served W

-- The machine is `W`; `chdir` and the shell are the system's.
module _ {ℓ} {W : Type ℓ} (chdir : W → CString → Option W)
    (popen : W → CString → CString → Ran W) where
  abbrev pub change_dir_error : CString → CString
  change_dir_error path = codes "Error occurred while changing path to " ++ path

  abbrev pub changed : W → CString → Option W → Executed W
  changed w path (some v) = null v
  changed w path none =
      let buff = change_dir_error path in
      if leb (length buff) max_output_size then output w buff else stray

  abbrev pub printed : Ran W → Executed W
  printed (ran w out) = output w (take max_output_size out)
  printed failed = exits

  abbrev pub run_shell : W → CString → Option (List ℕ) → Executed W
  run_shell w cmd none = stray
  run_shell w cmd (some input) = printed (popen w cmd (before_null input))

  -- `bytes` is what was read, with a null behind it.
  unfoldable pub execute_cmd : W → List ℕ → Executed W
  unfolding after_null
  execute_cmd w bytes =
      let cmd = skip_spaces bytes in
      let path = before_null (drop 3 cmd) in
      if is_change_dir cmd
      then changed w path (chdir w path)
      else run_shell w (before_null cmd) (after_null cmd)

  abbrev pub also_answered : CString → Served W → Served W
  also_answered s (waits w ss) = waits w (s ∷ ss)
  also_answered s (ended ss) = ended (s ∷ ss)
  also_answered s (crashed ss) = crashed (s ∷ ss)

  -- What is written to the server: nothing for NULL.
  abbrev pub write_output : Executed W → (W → Served W) → Served W
  write_output (output w out) rest = also_answered (before_null out) (rest w)
  write_output (null w) rest = also_answered [] (rest w)
  write_output exits rest = ended []
  write_output stray rest = crashed []

  -- The loop of the child over the connections that come.
  unfoldable pub serve_requests : W → List Request → Served W
  unfolding execute_cmd
  serve_requests w [] = waits w []
  serve_requests w (no_accept ∷ rs) = ended []
  serve_requests w (no_read ∷ rs) = ended []
  serve_requests w (received bytes ∷ rs) =
      if ltb (length bytes) request_size
      then write_output (execute_cmd w bytes) (λ v. serve_requests v rs)
      else crashed []
