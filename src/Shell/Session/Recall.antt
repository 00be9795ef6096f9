-- ===== src/Shell/Session/Recall.antt =====
-- A stored shortcut is what is executed later.
use netprog_assignments.Base.{
  ℕ, suc, ◌<◌, ◌≤◌, ltb, ◌+◌, ◌*◌, ◌-◌, ◌≡◌, refl, true, false, none, some, [], ◌∷◌, ◌++◌, ◌==◌,
  ◌||◌, length, pos, CString, codes, str_eq, isdigit, arith, ap, ◌∙◌, All,
}
use netprog_assignments.Shell.{done}
use netprog_assignments.Shell.HashMap.{HashMap, find_in_map, insert_into_map}
use netprog_assignments.Shell.HashMap.Refinement.{IsTable, view, find-view}
use netprog_assignments.Shell.HashMap.Histories.{insert-find}
use netprog_assignments.Shell.Command.{int_limit, string_to_num}
use netprog_assignments.Shell.Pipe.{CommandPipe, Made, init_cmd_pipe, reset_cmd_pipe, create_plain}
use netprog_assignments.Shell.Session.{
  Session, index, store, is_shortcut, read_index, index_at, with_index, parse_shortcut, Creation,
  index_at, make_room, store_shortcut, act, create_cmd_pipe, execute_created, recall, main_turn,
}

-- The number that digits in decimal stand for.
abbrev value : ℕ → CString → ℕ
value n [] = n
value n (c ∷ s) = value (n * 10 + c - b'0') s

abbrev AreDigits : CString → Type 0
AreDigits = All (λ c. isdigit c ≡ true)

value_grows : (ds : CString) (n : ℕ) → AreDigits ds → n ≤ value n ds
value_grows [] n h = omega arith
value_grows (c ∷ ds) n (h, hs) = ground (arith, value_grows ds (n * 10 + c - b'0') hs, h)

-- The sums on the way to a number are in `int` when the last one is.
fits_int :
    (c : ℕ) (ds : CString) (n : ℕ)
    → isdigit c ≡ true
    → AreDigits ds
    → value n (c ∷ ds) + b'0' < int_limit
    → ltb (n * 10 + c) int_limit ≡ true
fits_int c ds n h hs l = ground (arith, value_grows ds (n * 10 + c - b'0') hs, h, l)

read_index-digits :
    (ds s : CString) (n : ℕ)
    → AreDigits ds
    → value n ds + b'0' < int_limit
    → read_index n (ds ++ 32 ∷ s) ≡ index (value n ds) s
unfolding read_index
read_index-digits [] s n h l = refl
read_index-digits (c ∷ ds) s n (h, hs) l =
    let shown : ((c == 32) || (c == 10)) ≡ false = ground arith in
    rw (shown, h, fits_int c ds n h hs l) (read_index-digits ds s (n * 10 + c - b'0') hs l)

string_to_num-digits :
    (ds : CString) (n : ℕ)
    → AreDigits ds
    → value n ds + b'0' < int_limit
    → string_to_num n (ds ++ (10 ∷ [])) ≡ done (value n ds)
unfolding string_to_num
string_to_num-digits [] n h l = refl
string_to_num-digits (c ∷ ds) n (h, hs) l =
    let shown : (c == 10) ≡ false = ground arith in
    rw (shown, h, fits_int c ds n h hs l) (string_to_num-digits ds (n * 10 + c - b'0') hs l)

-- `sc -i 12 ls`, for the digits of 12 and the text `ls`
abbrev pub store_line : CString → CString → CString
store_line ds s = codes "sc -i " ++ ds ++ 32 ∷ s

index_at-digits :
    (d : ℕ) (ds s : CString)
    → AreDigits (d ∷ ds)
    → value 0 (d ∷ ds) + b'0' < int_limit
    → index_at (d ∷ ds ++ 32 ∷ s) ≡ index (value 0 (d ∷ ds)) s
index_at-digits d ds s (h, hs) l = rw h (read_index-digits (d ∷ ds) s 0 (h, hs) l)

parse_shortcut-line :
    (d : ℕ) (ds s : CString)
    → AreDigits (d ∷ ds)
    → value 0 (d ∷ ds) + b'0' < int_limit
    → parse_shortcut (store_line (d ∷ ds) s) ≡ store (value 0 (d ∷ ds)) s
unfolding parse_shortcut
parse_shortcut-line d ds s h l = ap (with_index store) (index_at-digits d ds s h l)

module _ (answer : ℕ → CString) where
  create-store :
      (n k : ℕ) (line s : CString) (p : CommandPipe) (v : Session)
      → is_shortcut line ≡ true
      → parse_shortcut line ≡ store k s
      → create_cmd_pipe answer (suc n) line p v
        ≡ store_shortcut answer (λ t w. create_cmd_pipe answer n t init_cmd_pipe w) k s p v
  unfolding create_cmd_pipe act
  create-store n k line s p v h e = rw (h, e)

  create-plain :
      (n : ℕ) (s : CString) (p : CommandPipe) (v : Session) (m : Made)
      → is_shortcut s ≡ false
      → create_plain s p ≡ done m
      → create_cmd_pipe answer (suc n) s p v
        ≡ some (done (true, m.0, record v { overrun = v.overrun + m.1 }))
  unfolding create_cmd_pipe
  create-plain n s p v m h e = rw (h, e)

  store-absent :
      (again : CString → Session → Creation) (k : ℕ) (s : CString) (p : CommandPipe) (v : Session)
      (m : Made) (t : HashMap CommandPipe)
      → find_in_map v.sc_map (pos k) ≡ done none
      → again s v ≡ some (done (true, m.0, record v { overrun = v.overrun + m.1 }))
      → insert_into_map v.sc_map (pos k) (m.0) ≡ done t
      → store_shortcut answer again k s p v
        ≡ some (done (false, p, record v { sc_map = t; overrun = v.overrun + m.1 }))
  unfolding store_shortcut make_room
  store-absent again k s p v m t h e f = rw (h, e, f)

  turn_created :
      (d : ℕ) (line : CString) (v w : Session) (p : CommandPipe)
      → str_eq line (10 ∷ []) ≡ false
      → str_eq line (codes "exit" ++ (10 ∷ [])) ≡ false
      → create_cmd_pipe answer (suc (length line)) line init_cmd_pipe v ≡ some (done (false, p, w))
      → main_turn answer false line v ≡ some (done (some w))
  unfolding main_turn execute_created
  turn_created d line v w p h k e = rw (h, k, e)

  turn_recalled :
      (ds : CString) (v : Session) (p : CommandPipe)
      → str_eq (ds ++ (10 ∷ [])) (10 ∷ []) ≡ false
      → AreDigits ds
      → value 0 ds + b'0' < int_limit
      → find_in_map v.sc_map (pos (value 0 ds)) ≡ done (some p)
      → main_turn answer true (ds ++ (10 ∷ [])) v
        ≡ some (done (some (record v { launched = v.launched ++ (p ∷ []) })))
  unfolding main_turn recall reset_cmd_pipe init_cmd_pipe
  turn_recalled ds v p h k l e = rw (h, string_to_num-digits ds 0 k l, e)

  -- A line `sc -i`, an index that is not taken and is below 2147483600, so that reading it stays in
  -- `int`, and a command, then SIGINT and the index: the second round executes the pipe that
  -- createCmdPipe makes of the command, and the map of shortcuts is well formed.
  pub stored-recalled :
      (d : ℕ) (ds s : CString) (v : Session) (m : Made)
      → AreDigits (d ∷ ds)
      → value 0 (d ∷ ds) + b'0' < int_limit
      → is_shortcut s ≡ false
      → create_plain s init_cmd_pipe ≡ done m
      → IsTable v.sc_map
      → view v.sc_map (pos (value 0 (d ∷ ds))) ≡ none
      → (w : Session) × (main_turn answer false (store_line (d ∷ ds) s) v ≡ some (done (some w)))
        × IsTable w.sc_map
        × (main_turn answer true (d ∷ ds ++ (10 ∷ [])) w
            ≡ some (done (some (record w { launched = v.launched ++ (m.0 ∷ []) }))))
  unfolding is_shortcut str_eq
  stored-recalled d ds s v m h l n c w e =
      let k = value 0 (d ∷ ds) in
      let (t, f, u, g) = insert-find v.sc_map (pos k) (m.0) refl w e in
      let line = store_line (d ∷ ds) s in
      let (i, is) = h in
      let digit : (d == 10) ≡ false = ground arith in
      let z : Session = record v { sc_map = t; overrun = v.overrun + m.1 } in
      let again : CString → Session → Creation =
        λ x y. create_cmd_pipe answer (length line) x init_cmd_pipe y in
      let absent : find_in_map v.sc_map (pos k) ≡ done none =
        find-view v.sc_map (pos k) refl w ∙ ap done e in
      (
        z,
        turn_created d line v z init_cmd_pipe refl refl (
            create-store (length line) k line s init_cmd_pipe v refl
              (parse_shortcut-line d ds s h l)
            ∙ store-absent again k s init_cmd_pipe v m t absent
                (create-plain (length (codes "c -i " ++ d ∷ ds ++ 32 ∷ s)) s init_cmd_pipe v m n c)
                f),
        u,
        turn_recalled (d ∷ ds) z (m.0) (rw digit) h l g,
      )
