-- ===== src/Cluster/Composition.antt =====
-- A line of commands on connected machines that all answer.
use netprog_assignments.Base.{
  ℕ, zero, suc, ◌+◌, ◌*◌, ◌<◌, ◌≤◌, ◌≡◌, refl, Bool, true, false, some, List, [], ◌∷◌, ◌++◌,
  if◌then◌else◌, leb, length, get_or, ℤ, pos, negsuc, CString, arith, Bool-cases, inl, inr, All,
  length-append,
}
use netprog_assignments.Cluster.{max_output_size}
use netprog_assignments.Cluster.Command.{Command}
use netprog_assignments.Cluster.Run.{
  Reply, output, goes_on, broadcast, run_on, run_command, run_commands,
}

module _ (program : ℕ → CString → CString → CString) where
  -- The outputs of the connected machines from place `i` on, in order.
  abbrev pub outputs : CString → CString → ℕ → List CString → List Bool → CString → CString
  outputs cmd input i [] active res = res
  outputs cmd input i (d ∷ config) active res =
      outputs cmd input (suc i) config active
        (if get_or active i false then res ++ program i cmd input else res)

  abbrev pub command_output : ℕ → Command → List CString → List Bool → CString → CString
  command_output idx c config active input = elim c.machine [
    | pos zero ↦ outputs c.cmd input 0 config active []
    | pos (suc i) ↦ program i c.cmd input
    | negsuc n ↦ program idx c.cmd input
  ]

  abbrev pub line_output : ℕ → List Command → List CString → List Bool → CString → CString
  line_output idx [] config active input = input
  line_output idx (c ∷ cs) config active input =
      line_output idx cs config active (command_output idx c config active input)

abbrev pub IsConnected : ℕ → List CString → List Bool → Type 0
IsConnected i config active = (i < length config) × (get_or active i false ≡ true)

-- The command is for all, or for a machine of the configuration that is connected.
abbrev pub IsRoutable : ℕ → List CString → List Bool → Command → Type 0
IsRoutable idx config active c = elim c.machine [
  | pos zero ↦ Unit
  | pos (suc i) ↦ IsConnected i config active
  | negsuc zero ↦ IsConnected idx config active
  | negsuc (suc n) ↦ ⊥
]

module _ (decimal : ℕ → CString) (program : ℕ → CString → CString → CString) (n : ℕ)
    (short : (i : ℕ) (c s : CString) → length (program i c s) ≤ n) where
  abbrev replies : ℕ → CString → CString → Reply
  replies i c s = output (program i c s)

  one_more : (k : ℕ) → suc k * n ≡ k * n + n
  one_more k = omega arith

  broadcast-outputs :
      (cmd input : CString) (i : ℕ) (config : List CString) (active : List Bool) (res : CString)
      → length res + length config * n ≤ max_output_size
      → broadcast decimal replies cmd input i config active res
        ≡ goes_on (outputs program cmd input i config active res)
  unfolding broadcast
  broadcast-outputs cmd input i [] active res h = refl
  broadcast-outputs cmd input i (d ∷ config) active res h =
      elim (Bool-cases (get_or active i false)) [
        | inl e ↦
            let more = length-append res (program i cmd input) in
            let size : length (res ++ program i cmd input) + length config * n ≤ max_output_size =
              omega (arith, more, short i cmd input, one_more (length config)) in
            let fits : leb (length (res ++ program i cmd input)) max_output_size ≡ true =
              ground (arith, size) in
            rw (e, fits)
              (broadcast-outputs cmd input (suc i) config active (res ++ program i cmd input) size)
        | inr e ↦ rw e (
            broadcast-outputs cmd input (suc i) config active res
              (omega (arith, one_more (length config))))
      ]

  run_on-output :
      (cmd input : CString) (i : ℕ) (config : List CString) (active : List Bool)
      → IsConnected i config active
      → run_on decimal replies cmd input i config active ≡ goes_on (program i cmd input)
  run_on-output cmd input i config active (h, k) =
      let inside : leb (length config) i ≡ false = ground arith in rw (inside, k)

  routed-output :
      (idx : ℕ) (cmd : CString) (m : ℤ) (input : CString) (config : List CString)
      (active : List Bool)
      → length config * n ≤ max_output_size
      → IsRoutable idx config active (record { cmd = cmd; machine = m })
      → run_command decimal replies idx (record { cmd = cmd; machine = m }) input config active
        ≡ goes_on
            (command_output program idx (record { cmd = cmd; machine = m }) config active input)
  unfolding run_command
  routed-output idx cmd (pos zero) input config active l h =
      broadcast-outputs cmd input 0 config active [] (omega (arith, l))
  routed-output idx cmd (pos (suc i)) input config active l h =
      run_on-output cmd input i config active h
  routed-output idx cmd (negsuc zero) input config active l h =
      run_on-output cmd input idx config active h
  routed-output idx cmd (negsuc (suc k)) input config active l h = elim h [ ]

  -- When no output is longer than `n`, and the outputs of all machines fit the array, a line of
  -- commands for all or for connected machines gives what its commands give in turn, each on the
  -- output of the one before; a command for all gives the outputs of the connected machines in
  -- the order of the configuration.
  pub run_commands-line_output :
      (idx : ℕ) (cs : List Command) (input : CString) (config : List CString) (active : List Bool)
      → length config * n ≤ max_output_size
      → All (IsRoutable idx config active) cs
      → run_commands decimal replies idx cs input config active
        ≡ some (line_output program idx cs config active input)
  unfolding run_commands
  run_commands-line_output idx [] input config active l h = refl
  run_commands-line_output idx (c ∷ cs) input config active l (h, hs) =
      rw (routed-output idx c.cmd c.machine input config active l h) (
        run_commands-line_output idx cs (command_output program idx c config active input) config
          active l hs)
