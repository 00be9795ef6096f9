-- ===== src/Shell/Pipe/Shape.antt =====
-- The pipes that createCmdPipe makes of any input: groups of one, two or three commands.
use mathlib.Core.List.{append_assoc, append-nil}
use netprog_assignments.Base.{
  ℕ, zero, suc, ◌+◌, ◌≡◌, refl, sym, Bool, false, some, List, [], ◌∷◌, ◌++◌, ◌==◌, length, ℤ, pos,
  negsuc, CString, arith, length-append, ap, ◌∙◌, All, if_either, if◌then◌else◌,
}
use netprog_assignments.Shell.{done, Ends, bind-Ends}
use netprog_assignments.Shell.Command.{
  Command, PipeCount, single_pipe, double_pipe, triple_pipe, init_cmd, parse_cmd,
}
use netprog_assignments.Shell.Command.Bounds.{IsParsed, parse_cmd-IsParsed}
use netprog_assignments.Shell.Pipe.{
  CommandPipe, init_cmd_pipe, insert_cmd_in_pipe, free_commands, reset_cmd_pipe, strsep_all,
  background, Made, parsed, add_single, add_double, add_triple, mark, add_commands, create_from,
  create_plain,
}

-- One command after `|`, two after `||`, three after `|||`.
pub data Stage : Type 0 where
  single : Command → Stage
  double : Command → Command → Stage
  triple : Command → Command → Command → Stage

abbrev pub stage_commands : Stage → List Command
stage_commands (single c) = c ∷ []
stage_commands (double c d) = c ∷ d ∷ []
stage_commands (triple c d e) = c ∷ d ∷ e ∷ []

abbrev pub IsStage : Stage → Type 0
IsStage (single c) = IsParsed (pos 0) single_pipe c
IsStage (double c d) = IsParsed (negsuc 0) double_pipe c × IsParsed (negsuc 1) double_pipe d
IsStage (triple c d e) =
    IsParsed (negsuc 0) triple_pipe c
    × IsParsed (negsuc 1) triple_pipe d
    × IsParsed (negsuc 2) triple_pipe e

abbrev pub staged : List Stage → List Command
staged [] = []
staged (s ∷ ss) = stage_commands s ++ staged ss

-- The pipe is made of stages, and counts its commands.
pub record IsStaged (m : Made) : Type 0 where
  pub stages : List Stage
  pub shaped : All IsStage stages
  pub listed : m.0.commands ≡ staged stages
  pub counted : m.0.count ≡ length m.0.commands

abbrev with_stage : CommandPipe → Stage → CommandPipe
with_stage p s = record p {
  commands = p.commands ++ stage_commands s;
  count = p.count + length (stage_commands s);
}

staged-append :
    (ss : List Stage) (s : Stage) → staged (ss ++ (s ∷ [])) ≡ staged ss ++ stage_commands s
staged-append [] s = append-nil (stage_commands s)
staged-append (x ∷ ss) s =
    ap (λ u. stage_commands x ++ u) (staged-append ss s)
    ∙ sym (append_assoc (stage_commands x) (staged ss) (stage_commands s))

All-append {ℓ κ} :
    {A : Type ℓ} (P : A → Type κ) (xs : List A) (x : A) → All P xs → P x → All P (xs ++ (x ∷ []))
All-append P [] x h k = (k, tt)
All-append P (y ∷ xs) x (h, hs) k = (h, All-append P xs x hs k)

front_or_end :
    (n : ℕ) (cs : List Command) (c : Command)
    → n ≡ length cs
    → (if n == 0 then c ∷ [] else cs ++ (c ∷ [])) ≡ cs ++ (c ∷ [])
front_or_end n [] c h = if_either (λ u. u ≡ c ∷ []) (n == 0) refl refl
front_or_end n (d ∷ cs) c h = let some_command : (n == 0) ≡ false = ground arith in rw some_command

-- A command is put at the end, and the pipe goes on counting its commands.
insert_cmd-end :
    (p : CommandPipe) (c : Command)
    → p.count ≡ length p.commands
    → ((insert_cmd_in_pipe p c).commands ≡ p.commands ++ (c ∷ []))
      × ((insert_cmd_in_pipe p c).count ≡ length (insert_cmd_in_pipe p c).commands)
unfolding insert_cmd_in_pipe
insert_cmd-end p c h =
    let e = front_or_end p.count p.commands c h in
    (e, rw e (omega (arith, length-append p.commands (c ∷ []), h)))

abbrev Inserts : CommandPipe → CommandPipe → Stage → Type 0
Inserts p q s = (q.commands ≡ p.commands ++ stage_commands s) × (q.count ≡ length q.commands)

inserted-IsStaged :
    (m : Made) (q : CommandPipe) (k : ℕ) (s : Stage)
    → IsStaged m
    → IsStage s
    → Inserts (m.0) q s
    → IsStaged (q, k)
inserted-IsStaged m q k s v w (e, f) = record {
  stages = v.stages ++ (s ∷ []);
  shaped = All-append IsStage v.stages s v.shaped w;
  listed = e ∙ ap (λ u. u ++ stage_commands s) v.listed ∙ sym (staged-append v.stages s);
  counted = f;
}

insert_two :
    (p : CommandPipe) (c d : Command)
    → p.count ≡ length p.commands
    → Inserts p (insert_cmd_in_pipe (insert_cmd_in_pipe p c) d) (double c d)
insert_two p c d h =
    let (e, f) = insert_cmd-end p c h in
    let (e2, f2) = insert_cmd-end (insert_cmd_in_pipe p c) d f in
    (e2 ∙ ap (λ u. u ++ (d ∷ [])) e ∙ append_assoc p.commands (c ∷ []) (d ∷ []), f2)

insert_three :
    (p : CommandPipe) (c d g : Command)
    → p.count ≡ length p.commands
    → Inserts p
        (insert_cmd_in_pipe (insert_cmd_in_pipe (insert_cmd_in_pipe p c) d) g)
        (triple c d g)
insert_three p c d g h =
    let q = insert_cmd_in_pipe (insert_cmd_in_pipe p c) d in
    let (e, f) = insert_two p c d h in
    let (e2, f2) = insert_cmd-end q g f in
    (e2 ∙ ap (λ u. u ++ (g ∷ [])) e ∙ append_assoc p.commands (c ∷ d ∷ []) (g ∷ []), f2)

parsed-IsParsed :
    (m : Made) (s : CString) (o : ℤ) (n : PipeCount)
    → Ends (λ r. IsParsed o n (r.0)) (parsed m s o n)
parsed-IsParsed m s o n =
    bind-Ends (λ r. IsParsed o n (r.0) × (r.0.argc ≡ length r.0.argv)) (λ r. IsParsed o n (r.0))
      (parse_cmd init_cmd s o n) (λ r. done (r.0, m.1 + r.1)) (parse_cmd-IsParsed o n s)
      (λ r h. h.0)

add_single-IsStaged : (m : Made) (s : CString) → IsStaged m → Ends IsStaged (add_single m s)
unfolding add_single
add_single-IsStaged m s v =
    bind-Ends (λ r. IsParsed (pos 0) single_pipe (r.0)) IsStaged (parsed m s (pos 0) single_pipe)
      (λ r. done (insert_cmd_in_pipe (m.0) (r.0), r.1)) (parsed-IsParsed m s (pos 0) single_pipe)
      (λ r h.
        inserted-IsStaged m (insert_cmd_in_pipe (m.0) (r.0)) (r.1) (single (r.0)) v h
          (insert_cmd-end (m.0) (r.0) v.counted))

add_double-IsStaged : (m : Made) (fs : List CString) → IsStaged m → Ends IsStaged (add_double m fs)
unfolding add_double
add_double-IsStaged m [] v = tt
add_double-IsStaged m (s ∷ []) v = tt
add_double-IsStaged m (s ∷ t ∷ fs) v =
    bind-Ends (λ r. IsParsed (negsuc 0) double_pipe (r.0)) IsStaged
      (parsed m s (negsuc 0) double_pipe) _ (parsed-IsParsed m s (negsuc 0) double_pipe)
      (λ a h.
        bind-Ends (λ r. IsParsed (negsuc 1) double_pipe (r.0)) IsStaged
          (parsed (m.0, a.1) t (negsuc 1) double_pipe) _
          (parsed-IsParsed (m.0, a.1) t (negsuc 1) double_pipe)
          (λ b k.
            inserted-IsStaged m (insert_cmd_in_pipe (insert_cmd_in_pipe (m.0) (a.0)) (b.0)) (b.1)
              (double (a.0) (b.0)) v (h, k) (insert_two (m.0) (a.0) (b.0) v.counted)))

add_triple-IsStaged : (m : Made) (fs : List CString) → IsStaged m → Ends IsStaged (add_triple m fs)
unfolding add_triple
add_triple-IsStaged m [] v = tt
add_triple-IsStaged m (s ∷ []) v = tt
add_triple-IsStaged m (s ∷ t ∷ []) v = tt
add_triple-IsStaged m (s ∷ t ∷ u ∷ fs) v =
    bind-Ends (λ r. IsParsed (negsuc 0) triple_pipe (r.0)) IsStaged
      (parsed m s (negsuc 0) triple_pipe) _ (parsed-IsParsed m s (negsuc 0) triple_pipe)
      (λ a h.
        bind-Ends (λ r. IsParsed (negsuc 1) triple_pipe (r.0)) IsStaged
          (parsed (m.0, a.1) t (negsuc 1) triple_pipe) _
          (parsed-IsParsed (m.0, a.1) t (negsuc 1) triple_pipe)
          (λ b k.
            bind-Ends (λ r. IsParsed (negsuc 2) triple_pipe (r.0)) IsStaged
              (parsed (m.0, b.1) u (negsuc 2) triple_pipe) _
              (parsed-IsParsed (m.0, b.1) u (negsuc 2) triple_pipe)
              (λ c l.
                inserted-IsStaged m
                  (insert_cmd_in_pipe (insert_cmd_in_pipe (insert_cmd_in_pipe (m.0) (a.0)) (b.0))
                    (c.0))
                  (c.1) (triple (a.0) (b.0) (c.0)) v (h, k, l)
                  (insert_three (m.0) (a.0) (b.0) (c.0) v.counted))))

mark-IsStaged : (m : Made) (b : Bool) → IsStaged m → IsStaged (mark m b)
mark-IsStaged m b v = record {
  stages = v.stages;
  shaped = v.shaped;
  listed = v.listed;
  counted = v.counted;
}

add_commands-IsStaged :
    (m : Made) (n : ℕ) (s : CString) → IsStaged m → Ends IsStaged (add_commands m n s)
unfolding add_commands
add_commands-IsStaged m n s v =
    let b = background s in
    let w = mark-IsStaged m (b.0) v in
    if_either (Ends IsStaged) (n == 1) (add_single-IsStaged (mark m (b.0)) (b.1) w) (
      if_either (Ends IsStaged) (n == 2)
        (add_double-IsStaged (mark m (b.0)) (strsep_all b',' (b.1)) w)
        (if_either (Ends IsStaged) (n == 3)
          (add_triple-IsStaged (mark m (b.0)) (strsep_all b',' (b.1)) w) tt))

create_from-IsStaged :
    (fs : List CString) (m : Made) (n : ℕ) → IsStaged m → Ends IsStaged (create_from m n fs)
unfolding create_from
create_from-IsStaged [] m n v = v
create_from-IsStaged ([] ∷ fs) m n v = create_from-IsStaged fs m (n + 1) v
create_from-IsStaged ((c ∷ w) ∷ fs) m n v =
    bind-Ends IsStaged IsStaged (add_commands m n (c ∷ w)) (λ q. create_from q 1 fs)
      (add_commands-IsStaged m n (c ∷ w) v) (λ q h. create_from-IsStaged fs q 1 h)

-- createCmdPipe on any input that is not a shortcut command exits or makes a pipe of stages, in
-- which every command has its place in its stage and at most 20 arguments, and which counts its
-- commands.
pub create_plain-IsStaged : (s : CString) → Ends IsStaged (create_plain s init_cmd_pipe)
unfolding create_plain init_cmd_pipe
create_plain-IsStaged s =
    create_from-IsStaged (strsep_all b'|' s) (init_cmd_pipe, 0) 1
      (record { stages = []; shaped = tt; listed = refl; counted = refl })

free_commands-counted : (n : ℕ) (cs : List Command) → n ≡ length cs → free_commands n cs ≡ done tt
free_commands-counted zero cs h = refl
free_commands-counted (suc n) [] h = ground arith
free_commands-counted (suc n) (c ∷ cs) h = free_commands-counted n cs (ground arith)

-- A pipe that counts its commands is freed without a null dereference.
pub reset_cmd_pipe-counted :
    (p : CommandPipe) → p.count ≡ length p.commands → reset_cmd_pipe (some p) ≡ done tt
unfolding reset_cmd_pipe
reset_cmd_pipe-counted p h = free_commands-counted p.count p.commands h
