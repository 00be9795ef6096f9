-- ===== src/Cluster/Command.antt =====
-- createCommandPipe of assignment-1/q2/utils.c.
use netprog_assignments.Base.{
  ℕ, ◌-◌, Bool, Option, none, some, List, [], ◌∷◌, ◌++◌, ◌==◌, ◌&&◌, ◌||◌, if◌then◌else◌, ltb, leb,
  length, get_or, take, ℤ, pos, negsuc, eq_ℤ, CString, isdigit,
}
use netprog_assignments.Group.Strtok.{atoi}

-- Machine -1 is the one that the command came from, 0 is all that are connected.
pub record Command : Type 0 where
  pub cmd : CString
  pub machine : ℤ

-- pthread_exit ends the thread of the connection; or a name is written past its array.
pub data Parsed {ℓ} (A : Type ℓ) : Type ℓ where
  parsed : A → Parsed A
  thread_exits : Parsed A
  overflows : Parsed A

abbrev close_token : CString → List CString → List CString
close_token [] ts = ts
close_token (c ∷ w) ts = (c ∷ w) ∷ ts

-- What strtok gives in turn until it gives NULL, when `w` has been read.
unfoldable pub tokens_from : ℕ → CString → CString → List CString
tokens_from d w [] = close_token w []
tokens_from d w (c ∷ s) =
    if c == d then close_token w (tokens_from d [] s) else tokens_from d (w ++ (c ∷ [])) s

abbrev pub tokens : ℕ → CString → List CString
tokens d s = tokens_from d [] s

-- `strchr(tok, '.')`: the text before the dot and the text after it.
unfoldable pub split_dot : CString → Option (CString × CString)
split_dot [] = none
split_dot (c ∷ s) =
    if c == b'.'
    then some ([], s)
    else elim (split_dot s) [ none ↦ none | some r ↦ some (c ∷ r.0, r.1) ]

abbrev pub skip_spaces : CString → CString
skip_spaces [] = []
skip_spaces (c ∷ s) = if c == 32 then skip_spaces s else c ∷ s

-- The last character after the dot is dropped when it is a space or a newline; when nothing is
-- after the dot, it is the dot.
abbrev trim_end : CString → CString
trim_end s =
    let last = get_or s (length s - 1) b'.' in
    if (last == 32) || (last == 10) then take (length s - 1) s else s

abbrev pub numbered : CString → ℤ → Parsed Command
numbered s n =
    if eq_ℤ n (pos 0) then thread_exits else parsed (record { cmd = trim_end s; machine = n })

abbrev pub on_machine : CString → CString → Parsed Command
on_machine [] s = thread_exits
on_machine (c ∷ name) s =
    if c == b'n'
    then if get_or name 0 0 == b'*'
      then parsed (record { cmd = trim_end s; machine = pos 0 })
      else numbered s (atoi name)
    else thread_exits

abbrev is_name : CString → Bool
is_name name =
    let last = get_or name (length name - 1) 0 in
    (isdigit last || (last == b'*')) && leb 2 (length name)

-- One command; the name of a machine is copied to an array of 10 bytes.
unfoldable pub parse_token : CString → Parsed Command
unfolding split_dot
parse_token tok = elim (split_dot tok) [
  | none ↦ parsed (record { cmd = tok; machine = negsuc 0 })
  | some r ↦
      if is_name (r.0)
      then if ltb (length (r.0)) 10 then on_machine (skip_spaces (r.0)) (r.1) else overflows
      else parsed (record { cmd = tok; machine = negsuc 0 })
]

abbrev pub put_first : Parsed Command → Parsed (List Command) → Parsed (List Command)
put_first thread_exits rest = thread_exits
put_first overflows rest = overflows
put_first (parsed c) thread_exits = thread_exits
put_first (parsed c) overflows = overflows
put_first (parsed c) (parsed cs) = parsed (c ∷ cs)

unfoldable pub parse_tokens : List CString → Parsed (List Command)
unfolding parse_token
parse_tokens [] = parsed []
parse_tokens (t ∷ ts) = put_first (parse_token t) (parse_tokens ts)

unfoldable pub create_command_pipe : CString → Parsed (List Command)
unfolding parse_tokens tokens_from
create_command_pipe cmd_input = parse_tokens (tokens b'|' cmd_input)
