-- ===== src/Group/Program/Kept.antt =====
-- What every command and every round of main keeps, and where it can go wrong.
use netprog_assignments.Base.{
  ℕ, zero, suc, ◌≤◌, ◌<◌, ◌≡◌, refl, Bool, true, false, Option, none, some, List, [], ◌∷◌, ◌++◌,
  length, CString, ℤ, arith, inl, inr, Option-cases,
}
use netprog_assignments.Group.Command.{Command}
use netprog_assignments.Group.Groups.{
  MulticastGroup, GroupList, Sockets, failed, ready, with_sockets, find_group_by_name,
  find_group_by_ip_and_port, Changed, changed, refused, fault, Created, joined, already_joined,
  not_created, not_joined, crashed, after_join, after_init, init_multicast_group,
  join_multicast_group, leave_multicast_group, create_group_command,
}
use netprog_assignments.Group.Creation.{IsFresh}
use netprog_assignments.Group.Find.{
  FindReply, found, timed_out, null_dereference, FindCommand, received, find_group_recv,
  handle_find_group_cmd,
}
use netprog_assignments.Group.Files.{
  max_file_allowed, Requested, success, exists_already, receive_error, max_reached, files_after,
}
use netprog_assignments.Group.Requests.{request_file_cmd-Requests, Requests}
use netprog_assignments.Group.Program.{
  System, Program, Fault, in_parser, in_list, in_search, Turn, goes_on, exits, crashes, of_created,
  join_found, show_found, leave_found, list_groups, run_command,
}
use netprog_assignments.Group.Program.Listed.{
  IsStale, IsListed, IsNamed, IsNamed-append, IsLinked-IsListed, Inserts,
  insert_multicast_group-Inserts, found_at, leave_found-IsListed,
}

pub record IsProgram (p : Program) : Type 0 where
  pub listed : IsListed p.mc_list
  pub within : length p.file_names ≤ max_file_allowed

-- A fault in the list needs a stale tail, one in a search a second answer.
abbrev pub Faults : System → Program → Fault → Type 0
Faults s p in_parser = ⊥
Faults s p in_list = IsStale p.mc_list.tail p.mc_list.head
Faults s p in_search = 1 < length s.replies

abbrev pub Keeps : System → Program → Turn → Type 0
Keeps s p (goes_on r q) = IsProgram q
Keeps s p exits = Unit
Keeps s p (crashes f) = Faults s p f

-- A group that was made is the one that the socket calls gave, and the list has it last.
abbrev Makes : GroupList → Created → Type 0
Makes list (joined grp after) = IsListed after
Makes list crashed = IsStale list.tail list.head
Makes list already_joined = Unit
Makes list not_created = Unit
Makes list not_joined = Unit

inserted-Makes :
    (list : GroupList) (grp : MulticastGroup) (c : Changed)
    → IsNamed (list.head ++ grp ∷ [])
    → Inserts list grp c
    → Makes list (after_join grp c)
inserted-Makes list grp (changed after) n (w, h) = IsLinked-IsListed after w (rw h n)
inserted-Makes list grp refused n h = absurd h
inserted-Makes list grp fault n (s, h) = s

with_sockets-Makes :
    (member : Bool) (sockets : Sockets) (name ip : CString) (port : ℤ) (list : GroupList)
    → IsListed list
    → IsFresh sockets list
    → find_group_by_name name list.head ≡ none
    → Makes list (after_init member list (with_sockets name ip port sockets))
unfolding join_multicast_group
with_sockets-Makes member failed name ip port list v f e = tt
with_sockets-Makes false (ready address send_fd recv_fd) name ip port list v f e = tt
with_sockets-Makes true (ready address send_fd recv_fd) name ip port list v f e =
    inserted-Makes list _ _ (IsNamed-append _ list.head e v.named)
      (insert_multicast_group-Inserts list _ v f)

create-Makes :
    (member : Bool) (sockets : Sockets) (name ip : CString) (port : ℤ) (list : GroupList)
    → IsListed list
    → IsFresh sockets list
    → Makes list (create_group_command member sockets name ip port list)
unfolding create_group_command init_multicast_group
create-Makes member sockets name ip port list v f =
    elim (Option-cases (find_group_by_name name list.head)) [
      | inr (g, e) ↦ rw (e, create_group_command, init_multicast_group) tt
      | inl e ↦ elim (Option-cases (find_group_by_ip_and_port ip port list.head)) [
        | inr (g, h) ↦ rw (e, h, create_group_command, init_multicast_group) tt
        | inl h ↦
            rw (e, h, create_group_command, init_multicast_group)
              (with_sockets-Makes member sockets name ip port list v f e)
      ]
    ]

created-Keeps :
    (s : System) (p : Program) (c : Created)
    → IsProgram p
    → Makes p.mc_list c
    → Keeps s p (of_created p c)
created-Keeps s p (joined grp after) v m = record { listed = m; within = v.within }
created-Keeps s p crashed v m = m
created-Keeps s p already_joined v m = v
created-Keeps s p not_created v m = v
created-Keeps s p not_joined v m = v

search_null :
    (name : CString) (ms : List FindReply)
    → find_group_recv name ms ≡ null_dereference
    → 1 < length ms
unfolding find_group_recv
search_null name [] h = ground arith
search_null name (m ∷ []) h = ground arith
search_null name (m ∷ n ∷ ms) h = omega arith

joined-Keeps :
    (s : System) (p : Program) (name : CString) (c : FindCommand)
    → IsProgram p
    → IsFresh s.sockets p.mc_list
    → (c ≡ received null_dereference → 1 < length s.replies)
    → Keeps s p (join_found s p c)
joined-Keeps s p name (received (found m)) v f h =
    created-Keeps s p _ v
      (create-Makes s.member s.sockets m.grp_name m.ip m.port p.mc_list v.listed f)
joined-Keeps s p name (received timed_out) v f h = v
joined-Keeps s p name (received null_dereference) v f h = h refl
joined-Keeps s p name FindCommand.joined v f h = v
joined-Keeps s p name FindCommand.not_sent v f h = v
joined-Keeps s p name FindCommand.no_socket v f h = v

shown-Keeps :
    (s : System) (p : Program) (c : FindCommand)
    → IsProgram p
    → (c ≡ received null_dereference → 1 < length s.replies)
    → Keeps s p (show_found p c)
shown-Keeps s p (received (found m)) v h = v
shown-Keeps s p (received timed_out) v h = v
shown-Keeps s p (received null_dereference) v h = h refl
shown-Keeps s p FindCommand.joined v h = v
shown-Keeps s p FindCommand.not_sent v h = v
shown-Keeps s p FindCommand.no_socket v h = v

find_null :
    (s : System) (name : CString) (gs : List MulticastGroup)
    → handle_find_group_cmd s.reply_socket s.sends name gs s.replies ≡ received null_dereference
    → 1 < length s.replies
unfolding handle_find_group_cmd
find_null s name gs h = ground (arith, search_null name s.replies)

left-Keeps :
    (s : System) (p : Program) (name : CString) (member : Bool) (o : Option MulticastGroup)
    → find_group_by_name name p.mc_list.head ≡ o
    → s.member ≡ member
    → IsProgram p
    → Keeps s p (leave_found s p o)
unfolding leave_multicast_group
left-Keeps s p name member none e m v = v
left-Keeps s p name false (some g) e m v = rw m v
left-Keeps s p name true (some g) e m v =
    let (xs, ys, h) = found_at name p.mc_list.head g e in
    let (after, run, w, i) = leave_found-IsListed p.mc_list xs g ys v.listed h in
    rw (m, run) (record { listed = w; within = v.within })

-- Listing walks to the end when the count is right.
pub list_groups-all :
    (n : ℕ) (gs : List MulticastGroup) → n ≡ length gs → list_groups n gs ≡ some gs
unfolding list_groups
list_groups-all zero [] e = refl
list_groups-all zero (g ∷ gs) e = absurd (omega arith)
list_groups-all (suc n) [] e = absurd (omega arith)
list_groups-all (suc n) (g ∷ gs) e = rw (list_groups-all n gs (omega arith)) refl

requested-within :
    (sockets child : Bool) (name : CString) (files : List CString) (r : Requested)
    → length files ≤ max_file_allowed
    → Requests sockets child name files r
    → length (files_after files r) ≤ max_file_allowed
requested-within sockets child name files (success more) h (a, b, c, d) = d
requested-within sockets child name files exists_already h k = h
requested-within sockets child name files receive_error h k = h
requested-within sockets child name files max_reached h k = h

-- Every command of the terminal, on a list as main leaves it and with a fresh address for a new
-- group, keeps the list so and the files within 30. It goes wrong in the list only over a stale
-- tail, and in a search only when a second message comes.
pub run_command-Keeps :
    (s : System) (p : Program) (c : Command)
    → IsProgram p
    → IsFresh s.sockets p.mc_list
    → Keeps s p (run_command s p c)
unfolding run_command
run_command-Keeps s p (Command.create_group grp_name ip port) v f =
    created-Keeps s p _ v (create-Makes s.member s.sockets grp_name ip port p.mc_list v.listed f)
run_command-Keeps s p (Command.join_group grp_name) v f =
    joined-Keeps s p grp_name _ v f (find_null s grp_name p.mc_list.head)
run_command-Keeps s p (Command.leave_group grp_name) v f =
    left-Keeps s p grp_name s.member _ refl refl v
run_command-Keeps s p (Command.find_group query) v f =
    shown-Keeps s p _ v (find_null s query p.mc_list.head)
run_command-Keeps s p (Command.send_message grp_name msg) v f = v
run_command-Keeps s p (Command.init_poll grp_name que option_cnt options) v f = v
run_command-Keeps s p Command.list_groups v f =
    rw (list_groups-all p.mc_list.count p.mc_list.head v.listed.counted) v
run_command-Keeps s p Command.list_files v f = v
run_command-Keeps s p (Command.request_file name) v f = record {
  listed = v.listed;
  within =
      requested-within s.reply_socket s.child name p.file_names _ v.within
        (request_file_cmd-Requests s.reply_socket s.child name p.file_names v.within);
}
run_command-Keeps s p Command.help v f = v
run_command-Keeps s p Command.exit v f = tt
