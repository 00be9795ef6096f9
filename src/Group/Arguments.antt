-- ===== src/Group/Arguments.antt =====
-- The arguments of each command, as printCommand writes and parseCommand reads them.
use netprog_assignments.Base.{
  ℕ, zero, suc, ◌+◌, ◌≤◌, ◌≡◌, ◌∙◌, refl, ap, sym, some, List, [], ◌∷◌, ◌++◌, ℤ, pos_part, length,
  CString, arith, All, lt→ltb,
}
use netprog_assignments.Group.Strtok.{strtok, atoi, IsWord, strtok_word, strtok_last, strtok_skip}
use netprog_assignments.Group.Command.{
  Command, create_group, init_poll, request_file, group_name_len, ip_len, message_len, num_options,
  file_name_len, Fits, Within,
}
use netprog_assignments.Group.Parse.{
  Parsed, parsed, required, copied, parse_create_group, parse_name, read_options, parse_init_poll,
  parse_request_file,
}
use netprog_assignments.Group.Print.{print_options}

copied-Within : (cap : ℕ) (s : CString) (r : Parsed) → Within cap s → copied cap s r ≡ r
copied-Within cap s r h = rw (lt→ltb (length s) cap h) refl

required_word :
    (d : ℕ) (k : CString → CString → Parsed) (w s : CString)
    → IsWord d w
    → required k (strtok d (w ++ d ∷ s)) ≡ k w s
required_word d k w s h = ap (required k) (strtok_word d w s h)

required_last :
    (d : ℕ) (k : CString → CString → Parsed) (w : CString)
    → IsWord d w
    → required k (strtok d w) ≡ k w []
required_last d k w h = ap (required k) (strtok_last d w h)

pub create_group_args :
    (grp_name ip port : CString) (n : ℤ)
    → IsWord b' ' grp_name
    → IsWord b' ' ip
    → IsWord b' ' port
    → atoi port ≡ n
    → Within group_name_len grp_name
    → Within ip_len ip
    → parse_create_group (grp_name ++ b' ' ∷ (ip ++ b' ' ∷ port))
      ≡ parsed (create_group grp_name ip n)
unfolding parse_create_group
create_group_args grp_name ip port n g i p e k l =
    required_word b' ' _ grp_name (ip ++ b' ' ∷ port) g
    ∙ required_word b' ' _ ip port i
    ∙ required_last b' ' _ port p
    ∙ copied-Within group_name_len grp_name _ k
    ∙ copied-Within ip_len ip _ l
    ∙ ap (λ m. parsed (create_group grp_name ip m)) e

pub name_args :
    (command : CString → Command) (w : CString)
    → IsWord b' ' w
    → Within group_name_len w
    → parse_name command w ≡ parsed (command w)
unfolding parse_name
name_args command w h k =
    required_last b' ' _ w h ∙ copied-Within group_name_len w (parsed (command w)) k

pub request_file_args :
    (w : CString)
    → IsWord b' ' w
    → Within file_name_len w
    → parse_request_file w ≡ parsed (request_file w)
unfolding parse_request_file
request_file_args w h k = rw (strtok_last b' ' w h) (ground arith)

-- What stands after an option's closing quote, once `strtok` has passed the space.
options_after : List CString → CString
options_after [] = []
options_after (o ∷ os) = o ++ b'"' ∷ print_options os

strtok_between : (os : List CString) → (strtok b'"' (print_options os)).1 ≡ options_after os
unfolding options_after strtok
strtok_between [] = refl
strtok_between (o ∷ os) = refl

read_printed :
    (os : List CString) (i : ℕ) (k : List CString → Parsed)
    → All (IsWord b'"') os
    → All (Within message_len) os
    → i + length os ≤ num_options
    → read_options (length os) i (options_after os) k ≡ k os
unfolding options_after read_options
read_printed [] i k w f l = refl
read_printed (o ∷ os) i k (w, ws) (f, fs) l =
    required_word b'"' _ o (print_options os) w
    ∙ rw (strtok_between os, lt→ltb i num_options (omega arith))
        (copied-Within message_len o
            (read_options (length os) (suc i) (options_after os) (λ r. k (o ∷ r))) f
          ∙ read_printed os (suc i) (λ r. k (o ∷ r)) ws fs (omega arith))

-- What stands after the count, once `strtok` has passed the space.
options_text : List CString → CString
options_text [] = []
options_text (o ∷ os) = b'"' ∷ options_after (o ∷ os)

append_nil : (s : CString) → s ++ [] ≡ s
append_nil [] = refl
append_nil (c ∷ s) = ap (λ r. c ∷ r) (append_nil s)

strtok_count :
    (cnt : CString) (options : List CString)
    → IsWord b' ' cnt
    → strtok b' ' (cnt ++ print_options options) ≡ (some cnt, options_text options)
unfolding options_text options_after
strtok_count cnt [] h = ap (strtok b' ') (append_nil cnt) ∙ strtok_last b' ' cnt h
strtok_count cnt (o ∷ os) h = strtok_word b' ' cnt (options_text (o ∷ os)) h

read_text :
    (n : ℕ) (os : List CString) (k : List CString → Parsed)
    → read_options n 0 (options_text os) k ≡ read_options n 0 (options_after os) k
unfolding read_options options_text options_after
read_text zero os k = refl
read_text (suc n) [] k = refl
read_text (suc n) (o ∷ os) k = ap (required _) (strtok_skip b'"' (options_after (o ∷ os)))

pub init_poll_args :
    (grp_name que cnt : CString) (n : ℤ) (options : List CString)
    → IsWord b' ' grp_name
    → IsWord b'"' que
    → All (IsWord b'"') options
    → IsWord b' ' cnt
    → atoi cnt ≡ n
    → Fits (init_poll grp_name que n options)
    → parse_init_poll
        (grp_name ++ b' ' ∷ b'"' ∷ (que ++ b'"' ∷ b' ' ∷ (cnt ++ print_options options)))
      ≡ parsed (init_poll grp_name que n options)
unfolding parse_init_poll
init_poll_args grp_name que cnt n options g q o c e (f0, f1, f2, f3, f4) =
    required_word b' ' _ grp_name (b'"' ∷ (que ++ b'"' ∷ b' ' ∷ (cnt ++ print_options options))) g
    ∙ ap (required _) (strtok_skip b'"' (que ++ b'"' ∷ b' ' ∷ (cnt ++ print_options options)))
    ∙ required_word b'"' _ que (b' ' ∷ (cnt ++ print_options options)) q
    ∙ ap (required _) (strtok_skip b' ' (cnt ++ print_options options))
    ∙ ap (required _) (strtok_count cnt options c)
    ∙ copied-Within group_name_len grp_name _ f0
    ∙ copied-Within message_len que _ f1
    ∙ ap
        (λ m.
          read_options (pos_part m) 0 (options_text options)
            (λ os. parsed (init_poll grp_name que m os)))
        e
    ∙ ap (λ m. read_options m 0 (options_text options) (λ os. parsed (init_poll grp_name que n os)))
        (sym f4)
    ∙ read_text (length options) options _
    ∙ read_printed options 0 _ o f2 (omega arith)
