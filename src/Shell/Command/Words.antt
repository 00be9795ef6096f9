-- ===== src/Shell/Command/Words.antt =====
-- parseCmd as a fold over the words of its input.
use netprog_assignments.Base.{
  ℕ, ◌≤◌, ◌≡◌, refl, sym, true, false, List, [], ◌∷◌, ◌++◌, ltb, leb, if◌then◌else◌, length,
  CString, isspace, arith, inl, inr, Bool-cases, ap, ◌∙◌, length-append, ℤ, some, subst, ltb→lt,
  codes, if_either, str_eq, ◌<◌,
}
use netprog_assignments.Shell.{Run, done, exits, faults, ◌>>=◌, assert}
use netprog_assignments.Shell.Command.{
  parse_cmd, PipeCount, Command, add_arg, max_num_args, is_out, max_arg_len, Parsing, take_word,
  end_word, blank_next, parse_from,
}

abbrev close_word : CString → List CString → List CString
close_word [] ws = ws
close_word (c ∷ w) ws = (c ∷ w) ∷ ws

-- The maximal runs of characters that are not blank, when `w` has been read.
abbrev pub words_from : CString → CString → List CString
words_from w [] = close_word w []
words_from w (c ∷ s) =
    if isspace c then close_word w (words_from [] s) else words_from (w ++ (c ∷ [])) s

abbrev pub words : CString → List CString
words s = words_from [] s

-- The words taken in order; one of more than 30 characters ends the process.
unfoldable pub take_words : Parsing → List CString → Run Parsing
take_words p [] = done p
take_words p (w ∷ ws) = do
  _ ← assert (leb (length w) max_arg_len)
  q ← take_word p w
  take_words q ws

abbrev pub at_word : Parsing → CString → Parsing
at_word p w = record p { curr_arg = w }

-- A call that comes back with no word begun, or exits.
abbrev Clears : Run Parsing → Type 0
Clears (done p) = p.curr_arg ≡ []
Clears exits = Unit
Clears faults = ⊥

add_arg-Clears : (p : Parsing) (w : CString) → Clears (add_arg p w)
add_arg-Clears p w = elim (Bool-cases (ltb (length p.cmd.argv) max_num_args)) [
  | inl e ↦ rw e refl
  | inr e ↦ rw e tt
]

take_word-Clears : (p : Parsing) (w : CString) → Clears (take_word p w)
unfolding take_word
take_word-Clears p w = if_either Clears (is_out p.prev_arg) refl (
    if_either Clears (str_eq p.prev_arg (codes "<")) refl (
      if_either Clears (str_eq w (codes ">")) refl (
        if_either Clears (str_eq w (codes ">>")) refl
          (if_either Clears (str_eq w (codes "<")) refl (add_arg-Clears p w)))))

bind_clear :
    (r : Run Parsing) (f g : Parsing → Run Parsing)
    → Clears r
    → ((q : Parsing) → f (at_word q []) ≡ g (at_word q []))
    → (r >>= f) ≡ (r >>= g)
bind_clear (done q) f g h e =
    let same : at_word q [] ≡ q = ap (at_word q) (sym h) in subst (λ p. f p ≡ g p) same (e q)
bind_clear exits f g h e = refl
bind_clear faults f g h e = elim h [ ]

bind_done {ℓ} : {A : Type ℓ} (r : Run A) → (r >>= done) ≡ r
bind_done (done a) = refl
bind_done exits = refl
bind_done faults = refl

take_long :
    (p : Parsing) (w : CString) (ws : List CString)
    → max_arg_len < length w
    → take_words p (w ∷ ws) ≡ exits
unfolding take_words
take_long p w ws h = let long : leb (length w) max_arg_len ≡ false = ground arith in rw long

long_word :
    (p : Parsing) (w s : CString) → max_arg_len < length w → take_words p (words_from w s) ≡ exits
long_word p [] s h = ground arith
long_word p (d ∷ w) [] h = take_long p (d ∷ w) [] h
long_word p (d ∷ w) (c ∷ s) h = elim (Bool-cases (isspace c)) [
  | inl e ↦ rw e (take_long p (d ∷ w) (words_from [] s) h)
  | inr e ↦ rw e (long_word p (d ∷ w ++ (c ∷ [])) s (omega (arith, length-append w (c ∷ []))))
]

pub take_fit :
    (p : Parsing) (w : CString) (ws : List CString)
    → length w ≤ max_arg_len
    → take_words p (w ∷ ws) ≡ (take_word p w >>= (λ q. take_words q ws))
unfolding take_words
take_fit p w ws h = let fits : leb (length w) max_arg_len ≡ true = ground arith in rw fits

-- A blank before a blank changes nothing.
blank_twice :
    (w s : CString) → blank_next s ≡ true → words_from w s ≡ close_word w (words_from [] s)
blank_twice w [] h = ground arith
blank_twice w (c ∷ s) h = rw h

abbrev pub Agrees : CString → Type 0
Agrees s =
    (p : Parsing) (w : CString)
    → length w ≤ max_arg_len
    → parse_from (at_word p w) s ≡ take_words (at_word p []) (words_from w s)

after_char :
    (p : Parsing) (w : CString) (c : ℕ) (s : CString)
    → length w ≤ max_arg_len
    → Agrees s
    → (assert (ltb (length w) max_arg_len)
        >>= (λ _. done (at_word p (w ++ (c ∷ []))))
        >>= (λ q. parse_from q s))
      ≡ take_words (at_word p []) (words_from (w ++ (c ∷ [])) s)
after_char p w c s h next =
    let more = length-append w (c ∷ []) in
    elim (Bool-cases (ltb (length w) max_arg_len)) [
      | inl f ↦ rw f (next p (w ++ (c ∷ [])) (omega (arith, more, ltb→lt (length w) max_arg_len f)))
      | inr f ↦ rw f (sym (long_word (at_word p []) (w ++ (c ∷ [])) s (ground (arith, more))))
    ]

after_word :
    (p : Parsing) (d : ℕ) (w s : CString)
    → length (d ∷ w) ≤ max_arg_len
    → Agrees s
    → (end_word (at_word p (d ∷ w)) (blank_next s) >>= (λ q. parse_from q s))
      ≡ take_words (at_word p []) ((d ∷ w) ∷ words_from [] s)
unfolding take_word
after_word p d w s h next = elim (Bool-cases (blank_next s)) [
  | inl e ↦ rw e (next p (d ∷ w) h ∙ ap (take_words (at_word p [])) (blank_twice (d ∷ w) s e))
  | inr e ↦
      rw (e, take_fit (at_word p []) (d ∷ w) (words_from [] s) h)
        (bind_clear (take_word (at_word p []) (d ∷ w)) (λ q. parse_from q s)
          (λ q. take_words q (words_from [] s)) (take_word-Clears (at_word p []) (d ∷ w))
          (λ q. next q [] (omega arith)))
]

after_blank :
    (p : Parsing) (w s : CString)
    → length w ≤ max_arg_len
    → Agrees s
    → (end_word (at_word p w) (blank_next s) >>= (λ q. parse_from q s))
      ≡ take_words (at_word p []) (close_word w (words_from [] s))
after_blank p [] s h next = next p [] h
after_blank p (d ∷ w) s h next = after_word p d w s h next

-- The loop of parseCmd takes the words that the input has from here on, in order.
pub parse_from-words : (s : CString) → Agrees s
unfolding parse_from take_words take_word
parse_from-words [] p [] h = refl
parse_from-words [] p (d ∷ w) h =
    sym (take_fit (at_word p []) (d ∷ w) [] h ∙ bind_done (take_word (at_word p []) (d ∷ w)))
parse_from-words (c ∷ s) p w h = elim (Bool-cases (isspace c)) [
  | inl e ↦ rw e (after_blank p w s h (parse_from-words s))
  | inr e ↦ rw e (after_char p w c s h (parse_from-words s))
]

abbrev pub begun : Command → Parsing
begun c = record { cmd = c; curr_arg = []; prev_arg = []; overrun = 0 }

abbrev pub counted : Command → Command
counted c = record c { argc = length c.argv }

abbrev pub positioned : Command → ℤ → PipeCount → Command
positioned c o n = record c { par_offset = o; prev_pipe_count = some n }

-- On any input parseCmd does what taking its words does: the maximal runs of characters that are
-- not blank, in order, where a run of more than 30 characters ends the process.
pub parse_cmd-words :
    (c : Command) (s : CString) (o : ℤ) (n : PipeCount)
    → parse_cmd c s o n
      ≡ (take_words (begun (positioned c o n)) (words s) >>= (λ p. done (counted p.cmd, p.overrun)))
unfolding parse_cmd
parse_cmd-words c s o n = rw (parse_from-words s (begun (positioned c o n)) [] (omega arith))
