-- ===== src/Cluster/Prompt/Completing.antt =====
-- The client and the server can always go on to the end of the lines.
use netprog_assignments.Base.{
  ℕ, ◌≡◌, ◌∙◌, refl, sym, ap, subst, Bool, List, [], ◌∷◌, ◌++◌, All, CString, append_nil, ◌⊎◌, inl,
  inr,
}
use netprog_assignments.Cluster.Run.{Reply}
use netprog_assignments.Cluster.Prompt.{
  Line, Entered, empty, exit, command, underflow, enter, failed, Link, connected, entered,
  client_turn, server_turn, Reach, here, by_client, by_server,
}
use netprog_assignments.Cluster.Prompt.InStep.{
  IsAsked, IsEntered, text_of, answers, answers_of, append_one, answered_lem, handled_lem, InStep,
  idle, asked, told, gone, Reach-InStep,
}

module _ (decimal : ℕ → CString) (machine_reply : ℕ → CString → CString → Reply) (idx : ℕ)
    (config : List CString) (active : List Bool) where
  abbrev pub Reached : Link → Link → Type 0
  Reached k l = Reach decimal machine_reply idx config active k l

  abbrev pub at : List Line → List CString → Link
  at lines printed = record (connected lines) { printed = printed }

  abbrev pub said : List Line → List CString
  said lines = answers decimal machine_reply idx config active lines

  abbrev said_for : Entered → List CString → List CString
  said_for e rest = answers_of decimal machine_reply idx config active e rest

  goes_on :
      (k : Link) (lines : List Line) (printed : List CString) (e : Entered)
      → IsEntered decimal machine_reply idx config active e
      → ((ss : List CString) → Reached k (at lines ss) → Reached k (at [] (ss ++ said lines)))
      → Reached k (entered e (at lines printed))
      → Reached k (at [] (printed ++ said_for e (said lines)))
  unfolding client_turn server_turn
  goes_on k lines printed empty a next r = next printed r
  goes_on k lines printed exit a next r = elim a [ ]
  goes_on k lines printed underflow a next r = elim a [ ]
  goes_on k lines printed (command cmd) (ne, n, l, (t, e, m, lt)) next r =
      let served =
        by_server r
          (handled_lem decimal machine_reply idx config active _ cmd (ne, n, l, (t, e, m, lt))) in
      let read = by_client served (answered_lem decimal machine_reply idx config active _ t m lt) in
      subst (λ ss. Reached k (at [] ss))
        (append_one decimal machine_reply idx config active printed t (said lines)
          ∙ ap (λ o. printed ++ text_of decimal machine_reply idx config active o ∷ said lines)
              (sym e))
        (next (printed ++ (t ∷ [])) read)

  finishes :
      (k : Link) (lines : List Line) (printed : List CString)
      → All (IsAsked decimal machine_reply idx config active) lines
      → Reached k (at lines printed)
      → Reached k (at [] (printed ++ said lines))
  unfolding client_turn
  finishes k [] printed h r = subst (λ ss. Reached k (at [] ss)) (sym (append_nil printed)) r
  finishes k (l ∷ lines) printed (a, h) r =
      goes_on k lines printed (enter l) a (λ ss. finishes k lines ss h) (by_client r refl)

  InStep-ends :
      (expected : List CString) (k : Link)
      → InStep decimal machine_reply idx config active expected k
      → (k.phase ≡ failed) ⊎ Reached k (at [] expected)
  unfolding client_turn
  InStep-ends expected k (idle {lines = lines} {printed = printed} h p) =
      inr (subst (λ ss. Reached k (at [] ss)) p (finishes k lines printed h here))
  InStep-ends expected k (asked {lines = lines} {printed = printed} cmd h a p) = inr (
      subst (λ ss. Reached k (at [] ss)) p
        (goes_on k lines printed (command cmd) a (λ ss. finishes k lines ss h) here))
  InStep-ends expected k (told {lines = lines} {printed = printed} s h n l p) = inr (
      subst (λ ss. Reached k (at [] ss))
        (append_one decimal machine_reply idx config active printed s (said lines) ∙ p)
        (finishes k lines (printed ++ (s ∷ [])) h
          (by_client here (answered_lem decimal machine_reply idx config active _ s n l))))
  InStep-ends expected k (gone rest f p) = inl f

  -- When each line is empty or a line of commands of at most 1024 bytes that the server answers
  -- with less than 1024 bytes, none with a null, no state that client and server reach is stuck:
  -- the client has failed, or turns of the two lead to the prompt after the last line, with the
  -- answers to all lines printed.
  pub Reach-ends :
      (lines : List Line) (k : Link)
      → All (IsAsked decimal machine_reply idx config active) lines
      → Reached (connected lines) k
      → (k.phase ≡ failed) ⊎ Reached k (at [] (said lines))
  Reach-ends lines k h r =
      InStep-ends (said lines) k (Reach-InStep decimal machine_reply idx config active lines k h r)
