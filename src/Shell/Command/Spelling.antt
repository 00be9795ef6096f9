-- ===== src/Shell/Command/Spelling.antt =====
-- The spelling of a command as text: its items, and when they read back as its words.
use mathlib.Core.List.{append_assoc, append-nil}
use netprog_assignments.Base.{
  ℕ, suc, ◌+◌, ◌≤◌, ◌≡◌, refl, sym, Bool, true, false, not, List, [], ◌∷◌, ◌++◌, ◌&&◌, leb,
  if◌then◌else◌, length, CString, codes, str_eq, isspace, arith, ap, ◌∙◌, All,
}
use netprog_assignments.Shell.Command.{max_arg_len, Command, is_out}
use netprog_assignments.Shell.Command.Words.{words_from, words}

-- An argument, or a redirection with the name of its file: `>`, `>>`, `<`.
pub data Item : Type 0 where
  argument : CString → Item
  into : CString → Item
  append_to : CString → Item
  from : CString → Item

abbrev pub spelled : List Item → List CString
spelled [] = []
spelled (argument w ∷ is) = w ∷ spelled is
spelled (into w ∷ is) = codes ">" ∷ w ∷ spelled is
spelled (append_to w ∷ is) = codes ">>" ∷ w ∷ spelled is
spelled (from w ∷ is) = codes "<" ∷ w ∷ spelled is

-- Each word with a space after it.
abbrev pub text : List CString → CString
text [] = []
text (w ∷ ws) = w ++ 32 ∷ text ws

-- What the items say, in order.
abbrev pub with_item : Command → Item → Command
with_item c (argument w) = record c { argv = c.argv ++ (w ∷ []) }
with_item c (into w) = record c { out_redirect = true; out_append = false; out_file = w }
with_item c (append_to w) = record c { out_redirect = true; out_append = true; out_file = w }
with_item c (from w) = record c { in_redirect = true; in_file = w }

abbrev pub with_items : Command → List Item → Command
with_items c [] = c
with_items c (i ∷ is) = with_items (with_item c i) is

abbrev pub arguments : List Item → ℕ
arguments [] = 0
arguments (argument w ∷ is) = suc (arguments is)
arguments (into w ∷ is) = arguments is
arguments (append_to w ∷ is) = arguments is
arguments (from w ∷ is) = arguments is

-- The characters of the arguments, added to a number.
abbrev pub characters : ℕ → List Item → ℕ
characters n [] = n
characters n (argument w ∷ is) = characters (n + length w) is
characters n (into w ∷ is) = characters n is
characters n (append_to w ∷ is) = characters n is
characters n (from w ∷ is) = characters n is

abbrev no_blank : CString → Bool
no_blank [] = true
no_blank (c ∷ s) = not (isspace c) && no_blank s

abbrev pub is_plain : CString → Bool
is_plain [] = false
is_plain (c ∷ s) = no_blank (c ∷ s)

abbrev pub is_redirection : CString → Bool
is_redirection w = if is_out w then true else str_eq w (codes "<")

-- A word that is not a redirection and that fits the array of an argument.
abbrev is_name : CString → Bool
is_name w =
    if is_plain w
    then if leb (length w) max_arg_len then not (is_redirection w) else false
    else false

abbrev pub named : Item → CString
named (argument w) = w
named (into w) = w
named (append_to w) = w
named (from w) = w

abbrev pub AreNames : List Item → Type 0
AreNames = All (λ i. is_name (named i) ≡ true)

no_blank-head : (c : ℕ) (s : CString) → no_blank (c ∷ s) ≡ true → isspace c ≡ false
no_blank-head c s h = ground arith

no_blank-tail : (c : ℕ) (s : CString) → no_blank (c ∷ s) ≡ true → no_blank s ≡ true
no_blank-tail c s h = ground arith

words_from-plain :
    (v w s : CString) (c : ℕ)
    → no_blank w ≡ true
    → words_from (c ∷ v) (w ++ 32 ∷ s) ≡ (c ∷ v ++ w) ∷ words s
words_from-plain v [] s c h = ap (λ u. (c ∷ u) ∷ words s) (sym (append-nil v))
words_from-plain v (d ∷ w) s c h = rw (no_blank-head d w h) (
    words_from-plain (v ++ (d ∷ [])) w s c (no_blank-tail d w h)
    ∙ ap (λ u. (c ∷ u) ∷ words s) (append_assoc v (d ∷ []) w))

pub words-text : (ws : List CString) → All (λ w. is_plain w ≡ true) ws → words (text ws) ≡ ws
words-text [] h = refl
words-text ([] ∷ ws) (h, k) = ground arith
words-text ((c ∷ w) ∷ ws) (h, k) = rw (no_blank-head c w h) (
    words_from-plain [] w (text ws) c (no_blank-tail c w h)
    ∙ ap (λ u. (c ∷ w) ∷ u) (words-text ws k))

pub record Name (w : CString) : Type 0 where
  pub plain : is_plain w ≡ true
  pub fits : length w ≤ max_arg_len
  pub not_into : str_eq w (codes ">") ≡ false
  pub not_append : str_eq w (codes ">>") ≡ false
  pub not_from : str_eq w (codes "<") ≡ false

pub is_name-Name : (w : CString) → is_name w ≡ true → Name w
is_name-Name w h = record {
  plain = ground arith;
  fits = ground arith;
  not_into = ground arith;
  not_append = ground arith;
  not_from = ground arith;
}
