-- ===== src/Shell/Command/Bounds.antt =====
-- What parseCmd makes of a command on any input.
use netprog_assignments.Base.{
  ◌≤◌, ◌≡◌, refl, sym, some, List, [], ◌∷◌, ltb, leb, length, CString, codes, str_eq, ℤ, arith, inl,
  inr, Bool-cases, subst, length-append, if_either, ltb→lt,
}
use netprog_assignments.Shell.{Run, done, Ends, bind-Ends}
use netprog_assignments.Shell.Command.{
  max_arg_len, max_num_args, init_cmd, Command, Parsing, PipeCount, is_out, add_arg, take_word,
  parse_cmd,
}
use netprog_assignments.Shell.Command.Words.{
  begun, counted, positioned, parse_cmd-words, words, take_words,
}

-- The command has its place, and its arguments fit `argv`.
abbrev pub IsParsed : ℤ → PipeCount → Command → Type 0
IsParsed o n c = (c.par_offset ≡ o) × (c.prev_pipe_count ≡ some n) × (length c.argv ≤ max_num_args)

module _ (o : ℤ) (n : PipeCount) where
  abbrev InPlace : Parsing → Type 0
  InPlace p = IsParsed o n p.cmd

  abbrev Keeps : Run Parsing → Type 0
  Keeps = Ends InPlace

  add_arg-Keeps : (p : Parsing) (w : CString) → IsParsed o n p.cmd → Keeps (add_arg p w)
  add_arg-Keeps p w h = elim (Bool-cases (ltb (length p.cmd.argv) max_num_args)) [
    | inl e ↦ rw e (
      h.0,
      h.1,
      omega (arith, length-append p.cmd.argv (w ∷ []), ltb→lt (length p.cmd.argv) max_num_args e),
    )
    | inr e ↦ rw e tt
  ]

  take_word-Keeps : (p : Parsing) (w : CString) → IsParsed o n p.cmd → Keeps (take_word p w)
  unfolding take_word
  take_word-Keeps p w h = if_either Keeps (is_out p.prev_arg) h (
      if_either Keeps (str_eq p.prev_arg (codes "<")) h (
        if_either Keeps (str_eq w (codes ">")) h (
          if_either Keeps (str_eq w (codes ">>")) h
            (if_either Keeps (str_eq w (codes "<")) h (add_arg-Keeps p w h)))))

  take_words-Keeps :
      (ws : List CString) (p : Parsing) → IsParsed o n p.cmd → Keeps (take_words p ws)
  unfolding take_words
  take_words-Keeps [] p h = h
  take_words-Keeps (w ∷ ws) p h = elim (Bool-cases (leb (length w) max_arg_len)) [
    | inl e ↦ rw e (
        bind-Ends InPlace InPlace (take_word p w) (λ q. take_words q ws) (take_word-Keeps p w h)
          (take_words-Keeps ws))
    | inr e ↦ rw e tt
  ]

  -- On any input parseCmd comes back or exits; a command that comes back has its place in the
  -- pipe, as many arguments as it counts, and at most 20 of them.
  pub parse_cmd-IsParsed :
      (s : CString)
      → Ends (λ r. IsParsed o n (r.0) × (r.0.argc ≡ length r.0.argv)) (parse_cmd init_cmd s o n)
  unfolding init_cmd
  parse_cmd-IsParsed s =
      let c = positioned init_cmd o n in
      subst (Ends (λ r. IsParsed o n (r.0) × (r.0.argc ≡ length r.0.argv)))
        (sym (parse_cmd-words init_cmd s o n))
        (bind-Ends InPlace (λ r. IsParsed o n (r.0) × (r.0.argc ≡ length r.0.argv))
          (take_words (begun c) (words s)) (λ p. done (counted p.cmd, p.overrun))
          (take_words-Keeps (words s) (begun c) (refl, refl, omega arith)) (λ p h. (h, refl)))
