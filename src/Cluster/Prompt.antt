-- ===== src/Cluster/Prompt.antt =====
-- The parent of assignment-1/q2/clustershell_client.c, which asks the server, and its connection
-- with connectionHandler of clustershell_server.c as two streams of bytes.
mod Tests
pub mod InStep
pub mod Completing
use netprog_assignments.Base.{
  ℕ, ◌-◌, ◌≡◌, Bool, true, false, Option, none, some, List, [], ◌∷◌, ◌++◌, if◌then◌else◌, length,
  take, drop, CString, codes, str_eq, before_null,
}
use netprog_assignments.Cluster.{max_output_size}
use netprog_assignments.Cluster.Run.{Reply, Served, replied, thread_ended, stray, serve}
use netprog_assignments.Cluster.Client.{max_command_size}

-- What `getline` reads: a line with its newline, or nothing more.
pub data Line : Type 0 where
  line : CString → Line
  end_of_file : Line

pub data Entered : Type 0 where
  empty : Entered
  exit : Entered
  command : CString → Entered
  underflow : Entered  -- a write before the array, at `count - 1`

-- The last character of the line is taken for its newline.
abbrev pub without_newline : CString → Entered
without_newline cmd = if str_eq (before_null cmd) (codes "exit") then exit else command cmd

unfoldable pub enter : Line → Entered
enter end_of_file = underflow
enter (line s) =
    if str_eq (before_null s) (10 ∷ []) then empty else without_newline (take (length s - 1) s)

-- At the prompt, in the read of an answer, left by "exit", ended by an error, or crashed.
pub data Phase : Type 0 where
  prompt : Phase
  waiting : Phase
  left : Phase
  failed : Phase
  crashed : Phase

-- `listening`: the server's thread still reads.
pub record Link : Type 0 where
  pub lines : List Line
  pub phase : Phase
  pub to_server : List ℕ
  pub to_client : List ℕ
  pub listening : Bool
  pub printed : List CString

abbrev pub connected : List Line → Link
connected lines = record {
  lines = lines;
  phase = prompt;
  to_server = [];
  to_client = [];
  listening = true;
  printed = [];
}

abbrev pub entered : Entered → Link → Link
entered empty k = k
entered exit k = record k { phase = left }
entered (command cmd) k = record k { phase = waiting; to_server = k.to_server ++ cmd }
entered underflow k = record k { phase = crashed }

abbrev at_prompt : List Line → Link → Option Link
at_prompt [] k = none
at_prompt (l ∷ ls) k = some (entered (enter l) (record k { lines = ls }))

-- `read` gives what has come, up to the size of the array, and `printf` prints it to a null.
abbrev pub answered : List ℕ → Link → Option Link
answered [] k = none
answered (c ∷ s) k = some (record k {
  phase = prompt;
  to_client = drop max_output_size (c ∷ s);
  printed = k.printed ++ (before_null (take max_output_size (c ∷ s)) ∷ []);
})

-- A turn of the client: a line that is entered, or an answer that is read; `none` waits.
unfoldable pub client_turn : Link → Option Link
unfolding enter
client_turn k = elim k.phase [
  | prompt ↦ at_prompt k.lines k
  | waiting ↦ answered k.to_client k
  | left ↦ none
  | failed ↦ none
  | crashed ↦ none
]

module _ (decimal : ℕ → CString) (machine_reply : ℕ → CString → CString → Reply) (idx : ℕ)
    (config : List CString) (active : List Bool) where
  -- The answer is written with its null. A thread that ends leaves the connection open.
  abbrev pub replied_to : Served → Link → Option Link
  replied_to (replied s) k = some (record k { to_client = k.to_client ++ (s ++ 0 ∷ []) })
  replied_to thread_ended k = some (record k { listening = false })
  replied_to stray k = none

  abbrev pub handled : List ℕ → Link → Option Link
  handled [] k = none
  handled (c ∷ s) k =
      let buff = before_null (take max_command_size (c ∷ s)) in
      replied_to (serve decimal machine_reply idx buff config active)
        (record k { to_server = drop max_command_size (c ∷ s) })

  -- A turn of the server: what has come is read as one line of commands.
  unfoldable pub server_turn : Link → Option Link
  unfolding serve
  server_turn k = if k.listening then handled k.to_server k else none

  pub data Reach (k : Link) : Link → Type 0 where
    here : Reach k k
    by_client : {u v : Link} → Reach k u → client_turn u ≡ some v → Reach k v
    by_server : {u v : Link} → Reach k u → server_turn u ≡ some v → Reach k v
    -- The write of the command or the read of the answer fails: a part of the command came.
    by_failure :
        {u : Link} (s : List ℕ)
        → Reach k u
        → u.phase ≡ waiting
        → Reach k (record u { phase = failed; to_server = s })
