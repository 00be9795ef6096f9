-- ===== src/Cluster/Prompt/InStep.antt =====
-- The client and the server in step: each answer that is printed is that of its own line.
use netprog_assignments.Base.{
  ℕ, ◌<◌, ◌≤◌, ◌≡◌, ◌≢◌, ◌∙◌, refl, sym, ap, subst, Bool, true, Option, none, some, List, [], ◌∷◌,
  ◌++◌, length, take, drop, All, CString, arith, before_null, NoNull, before_null_whole,
  before_null-append, take_whole, drop_whole, length-append, if_either,
}
use netprog_assignments.Cluster.{max_output_size}
use netprog_assignments.Cluster.Client.{max_command_size}
use netprog_assignments.Cluster.Run.{Reply, Served, replied, thread_ended, stray, serve}
use netprog_assignments.Cluster.Prompt.{
  Line, Entered, empty, exit, command, underflow, enter, prompt, waiting, left, failed, crashed,
  Link, connected, client_turn, server_turn, Reach, here, by_client, by_server, by_failure,
  replied_to, handled, answered, entered,
}

module _ (decimal : ℕ → CString) (machine_reply : ℕ → CString → CString → Reply) (idx : ℕ)
    (config : List CString) (active : List Bool) where
  -- The line of commands fits one read of the server, which answers less than an array.
  abbrev pub IsAnswered : CString → Type 0
  IsAnswered cmd =
      (cmd ≢ [])
      × NoNull cmd
      × (length cmd ≤ max_command_size)
      × ((s : CString) × (serve decimal machine_reply idx cmd config active ≡ replied s)
          × NoNull s
          × (length s < max_output_size))

  abbrev pub IsEntered : Entered → Type 0
  IsEntered empty = Unit
  IsEntered exit = ⊥
  IsEntered (command cmd) = IsAnswered cmd
  IsEntered underflow = ⊥

  -- An empty line, or a line of commands that is answered.
  abbrev pub IsAsked : Line → Type 0
  IsAsked l = IsEntered (enter l)

  abbrev pub text_of : Served → CString
  text_of (replied s) = s
  text_of thread_ended = []
  text_of stray = []

  abbrev pub answers_of : Entered → List CString → List CString
  answers_of empty rest = rest
  answers_of exit rest = []
  answers_of (command cmd) rest = text_of (serve decimal machine_reply idx cmd config active) ∷ rest
  answers_of underflow rest = []

  -- What the server answers to the lines, each by itself.
  abbrev pub answers : List Line → List CString
  answers [] = []
  answers (l ∷ ls) = answers_of (enter l) (answers ls)

  -- The states that are reached.
  pub data InStep (expected : List CString) : Link → Type 0 where
    idle :
        {lines : List Line} {printed : List CString}
        → All IsAsked lines
        → printed ++ answers lines ≡ expected
        → InStep expected (record {
          lines = lines;
          phase = prompt;
          to_server = [];
          to_client = [];
          listening = true;
          printed = printed;
        })
    asked :
        {lines : List Line} {printed : List CString} (cmd : CString)
        → All IsAsked lines
        → IsAnswered cmd
        → printed ++ answers_of (command cmd) (answers lines) ≡ expected
        → InStep expected (record {
          lines = lines;
          phase = waiting;
          to_server = cmd;
          to_client = [];
          listening = true;
          printed = printed;
        })
    told :
        {lines : List Line} {printed : List CString} (s : CString)
        → All IsAsked lines
        → NoNull s
        → length s < max_output_size
        → printed ++ s ∷ answers lines ≡ expected
        → InStep expected (record {
          lines = lines;
          phase = waiting;
          to_server = [];
          to_client = s ++ 0 ∷ [];
          listening = true;
          printed = printed;
        })
    gone :
        {k : Link} (rest : List CString)
        → k.phase ≡ failed
        → k.printed ++ rest ≡ expected
        → InStep expected k

  abbrev OptionInStep : (expected : List CString) → Option Link → Type 0
  OptionInStep e none = Unit
  OptionInStep e (some k) = InStep e k

  pub append_one :
      (xs : List CString) (y : CString) (zs : List CString) → (xs ++ (y ∷ [])) ++ zs ≡ xs ++ y ∷ zs
  append_one [] y zs = refl
  append_one (x ∷ xs) y zs = ap (λ r. x ∷ r) (append_one xs y zs)

  enters-InStep :
      (expected : List CString) (lines : List Line) (printed : List CString) (e : Entered)
      → All IsAsked lines
      → IsEntered e
      → printed ++ answers_of e (answers lines) ≡ expected
      → InStep expected (entered e (record (connected lines) { printed = printed }))
  enters-InStep expected lines printed empty h a p = idle h p
  enters-InStep expected lines printed exit h a p = elim a [ ]
  enters-InStep expected lines printed (command cmd) h a p = asked cmd h a p
  enters-InStep expected lines printed underflow h a p = elim a [ ]

  pub answered_lem :
      (k : Link) (s : CString)
      → NoNull s
      → length s < max_output_size
      → answered (s ++ 0 ∷ []) k
        ≡ some (record k { phase = prompt; to_client = []; printed = k.printed ++ (s ∷ []) })
  answered_lem k s n l =
      let whole = s ++ 0 ∷ [] in
      let fits : length whole ≤ max_output_size = omega (arith, length-append s (0 ∷ []), l) in
      not_empty s
      ∙ rw
          (
            take_whole max_output_size whole fits,
            drop_whole max_output_size whole fits,
            before_null-append s [] n,
          )
          refl
    where
      not_empty :
          (s : CString)
          → answered (s ++ 0 ∷ []) k
            ≡ some (record k {
              phase = prompt;
              to_client = drop max_output_size (s ++ 0 ∷ []);
              printed = k.printed ++ (before_null (take max_output_size (s ++ 0 ∷ [])) ∷ []);
            })
      not_empty [] = refl
      not_empty (c ∷ s) = refl

  client_turn-InStep :
      (expected : List CString) (k : Link)
      → InStep expected k
      → OptionInStep expected (client_turn k)
  unfolding client_turn
  client_turn-InStep expected k (idle {lines = []} h p) = tt
  client_turn-InStep expected k (idle {lines = l ∷ lines} {printed = printed} (a, h) p) =
      enters-InStep expected lines printed (enter l) h a p
  client_turn-InStep expected k (asked cmd h a p) = tt
  client_turn-InStep expected k (told {lines = lines} {printed = printed} s h n l p) =
      rw (answered_lem _ s n l) (idle h (append_one printed s (answers lines) ∙ p))
  client_turn-InStep expected k (gone rest f p) = rw f tt

  replied_to-gone :
      (expected : List CString) (k : Link) (rest : List CString) (o : Served)
      → k.phase ≡ failed
      → k.printed ++ rest ≡ expected
      → OptionInStep expected (replied_to decimal machine_reply idx config active o k)
  replied_to-gone expected k rest (replied s) f p = gone rest f p
  replied_to-gone expected k rest thread_ended f p = gone rest f p
  replied_to-gone expected k rest stray f p = tt

  handled-gone :
      (expected : List CString) (k : Link) (rest : List CString) (s : List ℕ)
      → k.phase ≡ failed
      → k.printed ++ rest ≡ expected
      → OptionInStep expected (handled decimal machine_reply idx config active s k)
  handled-gone expected k rest [] f p = tt
  handled-gone expected k rest (c ∷ s) f p = replied_to-gone expected _ rest _ f p

  read_whole :
      (k : Link) (cmd buff rest : List ℕ) (a : IsAnswered cmd)
      → buff ≡ cmd
      → rest ≡ []
      → replied_to decimal machine_reply idx config active
          (serve decimal machine_reply idx (before_null buff) config active)
          (record k { to_server = rest })
        ≡ some (record k { to_server = []; to_client = k.to_client ++ (a.3.0 ++ 0 ∷ []) })
  read_whole k cmd buff rest (ne, n, l, (t, e, m, lt)) b r =
      rw (b, r, before_null_whole cmd n, e) refl

  pub handled_lem :
      (k : Link) (cmd : CString) (a : IsAnswered cmd)
      → handled decimal machine_reply idx config active cmd k
        ≡ some (record k { to_server = []; to_client = k.to_client ++ (a.3.0 ++ 0 ∷ []) })
  handled_lem k [] (ne, _, _, _) = absurd (ne refl)
  handled_lem k (c ∷ s) (ne, n, l, t) =
      read_whole k (c ∷ s) _ _ (ne, n, l, t) (take_whole max_command_size (c ∷ s) l)
        (drop_whole max_command_size (c ∷ s) l)

  server_turn-InStep :
      (expected : List CString) (k : Link)
      → InStep expected k
      → OptionInStep expected (server_turn decimal machine_reply idx config active k)
  unfolding server_turn
  server_turn-InStep expected k (idle h p) = tt
  server_turn-InStep expected k (asked {lines = lines} {printed = printed} cmd h a p) =
      rw (handled_lem _ cmd a) (
        told (a.3.0) h (a.3.2) (a.3.3)
          (ap (λ o. printed ++ text_of o ∷ answers lines) (sym (a.3.1)) ∙ p))
  server_turn-InStep expected k (told s h n l p) = tt
  server_turn-InStep expected k (gone rest f p) =
      if_either (OptionInStep expected) k.listening (handled-gone expected k rest k.to_server f p)
        tt

  InStep-prefix :
      (expected : List CString) (k : Link)
      → InStep expected k
      → (rest : List CString) × (k.printed ++ rest ≡ expected)
  InStep-prefix expected k (idle {lines = lines} h p) = (answers lines, p)
  InStep-prefix expected k (asked {lines = lines} cmd h a p) =
      (answers_of (command cmd) (answers lines), p)
  InStep-prefix expected k (told {lines = lines} s h n l p) = (s ∷ answers lines, p)
  InStep-prefix expected k (gone rest f p) = (rest, p)

  pub Reach-InStep :
      (lines : List Line) (k : Link)
      → All IsAsked lines
      → Reach decimal machine_reply idx config active (connected lines) k
      → InStep (answers lines) k
  Reach-InStep lines k h here = idle h refl
  Reach-InStep lines k h (by_client {u = u} r e) =
      subst (OptionInStep (answers lines)) e
        (client_turn-InStep (answers lines) u (Reach-InStep lines u h r))
  Reach-InStep lines k h (by_server {u = u} r e) =
      subst (OptionInStep (answers lines)) e
        (server_turn-InStep (answers lines) u (Reach-InStep lines u h r))
  Reach-InStep lines k h (by_failure {u = u} s r e) =
      let sofar = InStep-prefix (answers lines) u (Reach-InStep lines u h r) in
      gone (sofar.0) refl (sofar.1)

  -- At the prompt the answers to the lines so far are printed, in a wait all but one, after an
  -- error those to the first lines.
  abbrev pub IsPrinted : List CString → Link → Type 0
  IsPrinted expected k = elim k.phase [
    | prompt ↦ k.printed ++ answers k.lines ≡ expected
    | waiting ↦ (s : CString) × (k.printed ++ s ∷ answers k.lines ≡ expected)
    | left ↦ ⊥
    | failed ↦ (rest : List CString) × (k.printed ++ rest ≡ expected)
    | crashed ↦ ⊥
  ]

  InStep-IsPrinted : (expected : List CString) (k : Link) → InStep expected k → IsPrinted expected k
  InStep-IsPrinted expected k (idle h p) = p
  InStep-IsPrinted expected k (asked cmd h a p) = (_, p)
  InStep-IsPrinted expected k (told s h n l p) = (s, p)
  InStep-IsPrinted expected k (gone rest f p) = rw f (rest, p)

  -- When each line is empty or a line of commands of at most 1024 bytes that the server answers
  -- with less than 1024 bytes, none with a null, then in any order of the turns of client and
  -- server, with failures or without, the answers printed are those to the lines in their order:
  -- at the prompt all so far, in a wait all but one, after a failure a first part; the client
  -- neither leaves nor crashes.
  pub Reach-IsPrinted :
      (lines : List Line) (k : Link)
      → All IsAsked lines
      → Reach decimal machine_reply idx config active (connected lines) k
      → IsPrinted (answers lines) k
  Reach-IsPrinted lines k h r = InStep-IsPrinted (answers lines) k (Reach-InStep lines k h r)
