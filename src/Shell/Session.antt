-- ===== src/Shell/Session.antt =====
-- assignment-1/q1/shell.c and driver.c: shortcut commands and the loop of the shell.
pub mod Shortcuts
pub mod Recall
use netprog_assignments.Base.{
  ℕ, zero, suc, ◌+◌, ◌*◌, ◌-◌, Bool, true, false, Option, none, some, List, [], ◌∷◌, ◌++◌, ◌==◌,
  ltb, ◌&&◌, ◌||◌, if◌then◌else◌, length, ℤ, pos, CString, codes, str_eq, isdigit,
}
use netprog_assignments.Shell.{Run, done, exits, faults, ◌>>=◌}
use netprog_assignments.Shell.HashMap.{HashMap, find_in_map, insert_into_map, delete_from_map}
use netprog_assignments.Shell.Command.{int_limit, string_to_num}
use netprog_assignments.Shell.Pipe.{CommandPipe, init_cmd_pipe, reset_cmd_pipe, create_plain}

-- The map of shortcuts, the pipes that were executed, the answers that were read, and the bytes
-- written past the blocks of arguments.
pub record Session : Type 0 where
  pub sc_map : HashMap CommandPipe
  pub launched : List CommandPipe
  pub asked : ℕ
  pub overrun : ℕ

-- What stands in a shortcut command: no flag, or another; nothing up to where the index would
-- be, beyond the end of the text, or an index beyond `int`; no index; or the flag, the index and the text after it.
pub data Shortcut : Type 0 where
  no_flag : Shortcut
  beyond : Shortcut
  no_index : Shortcut
  store : ℕ → CString → Shortcut
  discard : ℕ → Shortcut

unfoldable pub is_shortcut : CString → Bool
is_shortcut [] = false
is_shortcut (a ∷ []) = false
is_shortcut (a ∷ b ∷ []) = false
is_shortcut (a ∷ b ∷ c ∷ s) = (a == b's') && (b == b'c')

-- The index and the text after it; no number; or an overflow of `int`.
pub data Index : Type 0 where
  index : ℕ → CString → Index
  no_number : Index
  int_overflow : Index

unfoldable pub read_index : ℕ → CString → Index
read_index n [] = no_number
read_index n (c ∷ s) =
    let rest = read_index (n * 10 + c - b'0') s in
    let next = if ltb (n * 10 + c) int_limit then rest else int_overflow in
    if (c == 32) || (c == 10) then index n s else if isdigit c then next else no_number

-- The first character of the index is a digit.
abbrev pub first_digit : CString → Bool
first_digit [] = false
first_digit (c ∷ s) = isdigit c

abbrev pub index_at : CString → Index
index_at s = if first_digit s then read_index 0 s else no_number

abbrev pub with_index : (ℕ → CString → Shortcut) → Index → Shortcut
with_index f no_number = no_index
with_index f int_overflow = beyond
with_index f (index n s) = f n s

abbrev pub flagged : ℕ → CString → Shortcut
flagged c [] = if (c == b'i') || (c == b'd') then beyond else no_flag
flagged c (d ∷ s) =
    if c == b'i'
    then with_index store (index_at s)
    else if c == b'd'
    then with_index (λ n _. discard n) (index_at s)
    else no_flag

unfoldable pub parse_shortcut : CString → Shortcut
unfolding read_index
parse_shortcut [] = no_flag
parse_shortcut (c ∷ []) = no_flag
parse_shortcut (c ∷ d ∷ s) = if c == b'-' then flagged d s else parse_shortcut (d ∷ s)

abbrev pub Created : Type 0
Created = Bool × CommandPipe × Session

-- `none` when the fuel runs out.
abbrev pub Creation : Type 0
Creation = Option (Run Created)

abbrev pub run_then {ℓ} : {A : Type ℓ} → Run A → (A → Creation) → Creation
run_then (done a) f = f a
run_then exits f = some exits
run_then faults f = some faults

abbrev pub create_then : Creation → (Created → Run Created) → Creation
create_then none f = none
create_then (some r) f = some (r >>= f)

-- `scanf("%s", choice)` into an array of 10 reads the next answer.
module _ (answer : ℕ → CString) where
  -- Whether a shortcut that is there is to be replaced, and the session after it was asked.
  unfoldable pub replace : ℕ → CommandPipe → Session → Run (Bool × Session)
  replace k old v =
      let choice = answer v.asked in
      let w = record v { asked = v.asked + 1 } in
      if ltb (length choice) 10
      then if str_eq choice (codes "yes")
        then (delete_from_map v.sc_map (pos k) >>= (λ r. done (true, record w { sc_map = r.1 })))
        else done (false, w)
      else faults

  -- The lookup before the insertion.
  unfoldable pub make_room : ℕ → Session → Run (Bool × Session)
  unfolding replace
  make_room k v = do
    found ← find_in_map v.sc_map (pos k)
    elim found [ none ↦ done (true, v) | some old ↦ replace k old v ]

  -- `again` is createCmdPipe on the text after the index, into a pipe of its own.
  unfoldable pub store_shortcut :
      (CString → Session → Creation) → ℕ → CString → CommandPipe → Session → Creation
  unfolding make_room
  store_shortcut again k s p v = run_then (make_room k v) (λ r.
      if r.0
      then create_then (again s (r.1)) (λ c. do
        t ← insert_into_map c.2.sc_map (pos k) (c.1)
        done (false, p, record (c.2) { sc_map = t }))
      else some (done (false, p, r.1)))

  unfoldable pub discard_shortcut : ℕ → CommandPipe → Session → Run Created
  discard_shortcut k p v = do
    temp_pipe ← find_in_map v.sc_map (pos k)
    _ ← reset_cmd_pipe temp_pipe
    (old, t) ← delete_from_map v.sc_map (pos k)
    done (false, p, record v { sc_map = t })

  unfoldable pub act : (CString → Session → Creation) → Shortcut → CommandPipe → Session → Creation
  unfolding store_shortcut discard_shortcut
  act again no_flag p v = some exits
  act again beyond p v = some faults
  act again no_index p v = some (done (false, p, v))
  act again (store k s) p v = store_shortcut again k s p v
  act again (discard k) p v = some (discard_shortcut k p v)

  unfoldable pub create_cmd_pipe : ℕ → CString → CommandPipe → Session → Creation
  unfolding act is_shortcut parse_shortcut
  create_cmd_pipe zero s p v = none
  create_cmd_pipe (suc n) s p v =
      let again : CString → Session → Creation = λ t w. create_cmd_pipe n t init_cmd_pipe w in
      if is_shortcut s
      then act again (parse_shortcut s) p v
      else some
          (create_plain s p >>= (λ m. done (true, m.0, record v { overrun = v.overrun + m.1 })))

  -- What is left of a pipe when it was executed: it is freed unless it is in the background.
  unfoldable pub execute_created : Created → Run Session
  execute_created (b, p, v) =
      if b
      then ((if p.is_background then done tt else reset_cmd_pipe (some p))
          >>= (λ _. done (record v { launched = v.launched ++ (p ∷ []) })))
      else done v

  unfoldable pub recall : CString → Session → Run Session
  recall cmd_input v = do
    key ← string_to_num 0 cmd_input
    _ ← reset_cmd_pipe (some init_cmd_pipe)
    found ← find_in_map v.sc_map (pos key)
    elim found [ none ↦ done v | some p ↦ done (record v { launched = v.launched ++ (p ∷ []) }) ]

  abbrev option_run : Option (Run Session) → Option (Run (Option Session))
  option_run none = none
  option_run (some r) = some (r >>= (λ v. done (some v)))

  abbrev after_creation : Creation → Option (Run Session)
  after_creation none = none
  after_creation (some r) = some (r >>= execute_created)

  -- One round of `main` on a line that getline read, after SIGINT or not; it returns `none` when
  -- the shell ends.
  unfoldable pub main_turn : Bool → CString → Session → Option (Run (Option Session))
  unfolding create_cmd_pipe execute_created recall
  main_turn received_sig_int cmd_input v =
      if str_eq cmd_input (10 ∷ [])
      then some (done (some v))
      else if received_sig_int
      then some (recall cmd_input v >>= (λ w. done (some w)))
      else if str_eq cmd_input (codes "exit" ++ (10 ∷ []))
      then some (done none)
      else option_run
          (after_creation (create_cmd_pipe (suc (length cmd_input)) cmd_input init_cmd_pipe v))
