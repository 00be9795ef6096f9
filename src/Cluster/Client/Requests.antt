-- ===== src/Cluster/Client/Requests.antt =====
-- The requests of the server reach the shell of the machine as they were meant.
use netprog_assignments.Base.{
  ◌+◌, ◌<◌, Option, none, some, List, [], ◌∷◌, ◌++◌, if◌then◌else◌, length, drop, CString,
  before_null, NoNull, codes, leb, take,
}
use netprog_assignments.Cluster.{max_output_size}
use netprog_assignments.Cluster.Command.{skip_spaces}
use netprog_assignments.Cluster.Client.{
  Ran, ran, failed, Served, waits, ended, crashed, is_change_dir, max_command_size,
}

-- A command and its input as the server sends them, which fit the array of the child.
abbrev pub IsSent : CString × CString → Type 0
IsSent (cmd, input) =
    NoNull cmd × (NoNull input × (length cmd + length input < max_command_size + max_output_size))

module _ {ℓ} {W : Type ℓ} (chdir : W → CString → Option W)
    (popen : W → CString → CString → Ran W) where
  -- One more answer, before those that follow.
  first_answer : CString → Served W → Served W
  first_answer s (waits w ss) = waits w (s ∷ ss)
  first_answer s (ended ss) = ended (s ∷ ss)
  first_answer s (crashed ss) = crashed (s ∷ ss)

  -- After `cd path`: the machine is where `chdir` went and the answer is empty; or the machine is
  -- as it was and the answer says that the path is wrong, when it fits its array.
  abbrev moved : CString → W → Option W → (W → Served W) → Served W
  moved path w (some v) next = first_answer [] (next v)
  moved path w none next =
      let told = codes "Error occurred while changing path to " ++ path in
      let rest = next w in if leb (length told) 1024 then first_answer told rest else crashed []

  -- After a command of the shell: the machine is what the command made of it, and the answer is
  -- what it printed, up to 1024 bytes and to a null.
  abbrev shown : Ran W → (W → Served W) → Served W
  shown (ran v out) next = first_answer (before_null (take 1024 out)) (next v)
  shown failed next = ended []

  -- The machine on commands in turn, without the bytes between it and the server.
  unfoldable pub obeyed : W → List (CString × CString) → Served W
  unfolding first_answer
  obeyed w [] = waits w []
  obeyed w ((cmd, input) ∷ cs) =
      let c = skip_spaces cmd in
      let next : W → Served W = λ v. obeyed v cs in
      if is_change_dir c
      then moved (drop 3 c) w (chdir w (drop 3 c)) next
      else shown (popen w c input) next

  -- The child's answer to one request, and those to the rest.
  abbrev one_request : W → CString → CString → (W → Served W) → Served W
  one_request w cmd input next =
      let c = skip_spaces cmd in
      if is_change_dir c
      then moved (drop 3 c) w (chdir w (drop 3 c)) next
      else shown (popen w c input) next
