-- ===== src/Shell/Command/Items.antt =====
-- parseCmd on the text of a command: its arguments and redirections in any order.
use netprog_assignments.Base.{
  ℕ, ◌+◌, ◌≤◌, ◌≡◌, refl, true, false, List, [], ◌∷◌, ltb, length, CString, codes, str_eq, arith,
  ap, ◌∙◌, length-append, All, ℤ, ◌<◌, lt→ltb,
}
use netprog_assignments.Shell.{done}
use netprog_assignments.Shell.Command.{
  init_cmd, max_arg_len, max_num_args, Command, Parsing, PipeCount, is_out, take_word, parse_cmd,
}
use netprog_assignments.Shell.Command.Words.{
  counted, positioned, begun, parse_cmd-words, words, take_words, take_fit,
}
use netprog_assignments.Shell.Command.Spelling.{
  Item, spelled, text, with_item, with_items, arguments, characters, is_plain, is_redirection,
  named, AreNames, words-text, Name, is_name-Name, argument, into, append_to, from,
}

-- The last word read is not a redirection.
abbrev Quiet : Parsing → Type 0
Quiet p = is_redirection p.prev_arg ≡ false

abbrev state : Command → CString → ℕ → Parsing
state c w n = record { cmd = c; curr_arg = []; prev_arg = w; overrun = n }

Quiet-is_out : (p : Parsing) → Quiet p → is_out p.prev_arg ≡ false
Quiet-is_out p q = ground arith

Quiet-str_eq : (p : Parsing) → Quiet p → str_eq p.prev_arg (codes "<") ≡ false
Quiet-str_eq p q = ground arith

take_argument :
    (p : Parsing) (w : CString)
    → Quiet p
    → Name w
    → length p.cmd.argv < max_num_args
    → take_word p w ≡ done (state (with_item p.cmd (argument w)) w (p.overrun + length w))
unfolding take_word
take_argument p w q n h =
    let room : ltb (length p.cmd.argv) max_num_args ≡ true =
      lt→ltb (length p.cmd.argv) max_num_args h in
    rw (Quiet-is_out p q, Quiet-str_eq p q, n.not_into, n.not_append, n.not_from, room)

take_one :
    (p q : Parsing) (w : CString) (ws : List CString)
    → length w ≤ max_arg_len
    → take_word p w ≡ done q
    → take_words p (w ∷ ws) ≡ take_words q ws
take_one p q w ws h e = take_fit p w ws h ∙ rw e

-- A redirection and the name of its file.
take_into :
    (p : Parsing) (w : CString) (ws : List CString)
    → Quiet p
    → Name w
    → take_words p (codes ">" ∷ w ∷ ws)
      ≡ take_words (state (with_item p.cmd (into w)) w p.overrun) ws
unfolding take_word
take_into p w ws q m =
    let c = record (p.cmd) { out_redirect = true; out_append = false } in
    take_one p (state c (codes ">") p.overrun) (codes ">") (w ∷ ws) (omega arith)
      (rw (Quiet-is_out p q, Quiet-str_eq p q))
    ∙ take_one (state c (codes ">") p.overrun) (state (with_item p.cmd (into w)) w p.overrun) w ws
        m.fits refl

take_append :
    (p : Parsing) (w : CString) (ws : List CString)
    → Quiet p
    → Name w
    → take_words p (codes ">>" ∷ w ∷ ws)
      ≡ take_words (state (with_item p.cmd (append_to w)) w p.overrun) ws
unfolding take_word
take_append p w ws q m =
    let c = record (p.cmd) { out_redirect = true; out_append = true } in
    take_one p (state c (codes ">>") p.overrun) (codes ">>") (w ∷ ws) (omega arith)
      (rw (Quiet-is_out p q, Quiet-str_eq p q))
    ∙ take_one (state c (codes ">>") p.overrun) (state (with_item p.cmd (append_to w)) w p.overrun)
        w ws m.fits refl

take_from :
    (p : Parsing) (w : CString) (ws : List CString)
    → Quiet p
    → Name w
    → take_words p (codes "<" ∷ w ∷ ws)
      ≡ take_words (state (with_item p.cmd (from w)) w p.overrun) ws
unfolding take_word
take_from p w ws q m =
    let c = record (p.cmd) { in_redirect = true } in
    take_one p (state c (codes "<") p.overrun) (codes "<") (w ∷ ws) (omega arith)
      (rw (Quiet-is_out p q, Quiet-str_eq p q))
    ∙ take_one (state c (codes "<") p.overrun) (state (with_item p.cmd (from w)) w p.overrun) w ws
        m.fits refl

abbrev last_word : CString → List Item → CString
last_word w [] = w
last_word w (i ∷ is) = last_word (named i) is

Name-Quiet : (c : Command) (w : CString) (n : ℕ) → Name w → Quiet (state c w n)
Name-Quiet c w n h = rw (h.not_into, h.not_append, h.not_from)

-- The words of the items do what the items say.
take_items :
    (is : List Item) (c : Command) (a : CString) (n : ℕ)
    → Quiet (state c a n)
    → AreNames is
    → length c.argv + arguments is ≤ max_num_args
    → take_words (state c a n) (spelled is)
      ≡ done (state (with_items c is) (last_word a is) (characters n is))
unfolding take_words
take_items [] c a n q h k = refl
take_items (argument w ∷ is) c a n q (h, hs) k =
    let m = is_name-Name w h in
    let d = with_item c (argument w) in
    take_one (state c a n) (state d w (n + length w)) w (spelled is) m.fits
      (take_argument (state c a n) w q m (omega arith))
    ∙ take_items is d w (n + length w) (Name-Quiet d w (n + length w) m) hs
        (omega (arith, length-append c.argv (w ∷ [])))
take_items (into w ∷ is) c a n q (h, hs) k =
    let m = is_name-Name w h in
    let d = with_item c (into w) in
    take_into (state c a n) w (spelled is) q m ∙ take_items is d w n (Name-Quiet d w n m) hs k
take_items (append_to w ∷ is) c a n q (h, hs) k =
    let m = is_name-Name w h in
    let d = with_item c (append_to w) in
    take_append (state c a n) w (spelled is) q m ∙ take_items is d w n (Name-Quiet d w n m) hs k
take_items (from w ∷ is) c a n q (h, hs) k =
    let m = is_name-Name w h in
    let d = with_item c (from w) in
    take_from (state c a n) w (spelled is) q m ∙ take_items is d w n (Name-Quiet d w n m) hs k

spelled-plain : (is : List Item) → AreNames is → All (λ w. is_plain w ≡ true) (spelled is)
spelled-plain [] h = tt
spelled-plain (argument w ∷ is) (h, hs) = ((is_name-Name w h).plain, spelled-plain is hs)
spelled-plain (into w ∷ is) (h, hs) = (refl, ((is_name-Name w h).plain, spelled-plain is hs))
spelled-plain (append_to w ∷ is) (h, hs) = (refl, ((is_name-Name w h).plain, spelled-plain is hs))
spelled-plain (from w ∷ is) (h, hs) = (refl, ((is_name-Name w h).plain, spelled-plain is hs))

-- parseCmd on the text of up to 20 arguments and any redirections, in any order: the command
-- has the arguments in order and the last file of each kind, and every character of an argument
-- is written past the block that was allocated for it.
pub parse_cmd-text :
    (is : List Item) (o : ℤ) (n : PipeCount)
    → AreNames is
    → arguments is ≤ max_num_args
    → parse_cmd init_cmd (text (spelled is)) o n
      ≡ done (counted (with_items (positioned init_cmd o n) is), characters 0 is)
unfolding init_cmd str_eq
parse_cmd-text is o n h k =
    let c = positioned init_cmd o n in
    let read : take_words (begun c) (words (text (spelled is)))
        ≡ done (state (with_items c is) (last_word [] is) (characters 0 is)) =
      ap (take_words (begun c)) (words-text (spelled is) (spelled-plain is h))
      ∙ take_items is c [] 0 refl h (omega arith) in
    parse_cmd-words init_cmd (text (spelled is)) o n ∙ rw read
