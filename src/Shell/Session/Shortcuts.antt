-- ===== src/Shell/Session/Shortcuts.antt =====
-- createCmdPipe on shortcut commands ends, and a stored shortcut is what is executed later.
use netprog_assignments.Base.{
  ℕ, zero, suc, ◌+◌, ◌*◌, ◌-◌, ◌<◌, none, some, [], ◌∷◌, ◌==◌, ◌||◌, if_either, ltb, length,
  CString, isdigit, arith,
}
use netprog_assignments.Shell.{Run, done, exits, faults}
use netprog_assignments.Shell.Command.{int_limit}
use netprog_assignments.Shell.Pipe.{CommandPipe, init_cmd_pipe}
use netprog_assignments.Shell.Session.{
  Session, Index, index, no_number, int_overflow, Shortcut, no_flag, beyond, no_index, store,
  discard, is_shortcut, read_index, index_at, first_digit, with_index, flagged, parse_shortcut,
  Created, Creation, run_then, create_then, make_room, store_shortcut, act, create_cmd_pipe,
}

abbrev ShorterText : ℕ → Index → Type 0
ShorterText n no_number = Unit
ShorterText n int_overflow = Unit
ShorterText n (index k s) = length s < n

abbrev Shorter : ℕ → Shortcut → Type 0
Shorter n no_flag = Unit
Shorter n beyond = Unit
Shorter n no_index = Unit
Shorter n (store k s) = length s < n
Shorter n (discard k) = Unit

read_index-Shorter : (s : CString) (k n : ℕ) → length s < suc n → ShorterText n (read_index k s)
unfolding read_index
read_index-Shorter [] k n h = tt
read_index-Shorter (c ∷ s) k n h =
    if_either (ShorterText n) ((c == 32) || (c == 10)) (omega arith) (
      if_either (ShorterText n) (isdigit c)
        (if_either (ShorterText n) (ltb (k * 10 + c) int_limit)
          (read_index-Shorter s (k * 10 + c - b'0') n (omega arith)) tt)
        tt)

index_at-Shorter : (s : CString) (n : ℕ) → length s < suc n → ShorterText n (index_at s)
index_at-Shorter s n h = if_either (ShorterText n) (first_digit s) (read_index-Shorter s 0 n h) tt

store_index-Shorter : (n : ℕ) (o : Index) → ShorterText n o → Shorter n (with_index store o)
store_index-Shorter n no_number h = tt
store_index-Shorter n int_overflow h = tt
store_index-Shorter n (index k s) h = h

discard_index-Shorter : (n : ℕ) (o : Index) → Shorter n (with_index (λ k _. discard k) o)
discard_index-Shorter n no_number = tt
discard_index-Shorter n int_overflow = tt
discard_index-Shorter n (index k s) = tt

flagged-Shorter : (n c : ℕ) (s : CString) → length s < n → Shorter n (flagged c s)
flagged-Shorter n c [] h = if_either (Shorter n) ((c == b'i') || (c == b'd')) tt tt
flagged-Shorter n c (d ∷ s) h =
    if_either (Shorter n) (c == b'i')
      (store_index-Shorter n (index_at s) (index_at-Shorter s n (omega arith)))
      (if_either (Shorter n) (c == b'd') (discard_index-Shorter n (index_at s)) tt)

parse_shortcut-Shorter : (n : ℕ) (s : CString) → length s < suc n → Shorter n (parse_shortcut s)
unfolding parse_shortcut
parse_shortcut-Shorter n [] h = tt
parse_shortcut-Shorter n (c ∷ []) h = tt
parse_shortcut-Shorter n (c ∷ d ∷ s) h =
    if_either (Shorter n) (c == b'-') (flagged-Shorter n d s (omega arith))
      (parse_shortcut-Shorter n (d ∷ s) (omega arith))

abbrev pub Returns : Creation → Type 0
Returns none = ⊥
Returns (some r) = Unit

run_then-Returns :
    {A : Type 0} (r : Run A) (f : A → Creation) → ((a : A) → Returns (f a)) → Returns (run_then r f)
run_then-Returns (done a) f h = h a
run_then-Returns exits f h = tt
run_then-Returns faults f h = tt

create_then-Returns :
    (r : Creation) (f : Created → Run Created) → Returns r → Returns (create_then r f)
create_then-Returns none f h = h
create_then-Returns (some r) f h = tt

module _ (answer : ℕ → CString) where
  act-Returns :
      (again : CString → Session → Creation) (n : ℕ) (a : Shortcut) (p : CommandPipe) (v : Session)
      → Shorter n a
      → ((s : CString) (w : Session) → length s < n → Returns (again s w))
      → Returns (act answer again a p v)
  unfolding act store_shortcut
  act-Returns again n no_flag p v h k = tt
  act-Returns again n beyond p v h k = tt
  act-Returns again n no_index p v h k = tt
  act-Returns again n (store i s) p v h k =
      run_then-Returns (make_room answer i v) _
        (λ r. if_either Returns (r.0) (create_then-Returns (again s (r.1)) _ (k s (r.1) h)) tt)
  act-Returns again n (discard i) p v h k = tt

  -- Fuel above the length of the text is enough for the shortcut commands nested in it.
  pub create_cmd_pipe-Returns :
      (n : ℕ) (s : CString) (p : CommandPipe) (v : Session)
      → length s < n
      → Returns (create_cmd_pipe answer n s p v)
  unfolding create_cmd_pipe
  create_cmd_pipe-Returns zero s p v h = ground arith
  create_cmd_pipe-Returns (suc n) s p v h =
      if_either Returns (is_shortcut s)
        (act-Returns (λ t w. create_cmd_pipe answer n t init_cmd_pipe w) n (parse_shortcut s) p v
          (parse_shortcut-Shorter n s h) (λ t w m. create_cmd_pipe-Returns n t init_cmd_pipe w m))
        tt
