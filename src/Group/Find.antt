-- ===== src/Group/Find.antt =====
-- Finding a group over broadcast: findGroupRecv, handleFindGroupReq and handleFindGroupCmd of
-- assignment-2/q3/utils.c.
use netprog_assignments.Base.{
  ◌≡◌, refl, Bool, true, false, not, Option, none, some, List, [], ◌∷◌, ◌&&◌, if◌then◌else◌, ℤ,
  CString, str_eq, str_eq-true, str_eq_refl, arith, Option-cases, inl, inr, ◌⊎◌, Bool-cases, subst,
}
use netprog_assignments.Group.Groups.{MulticastGroup, find_group_by_name}

-- struct find_grp_reply in a message, and whether the message is of that type.
pub record FindReply : Type 0 where
  pub is_find_reply : Bool
  pub grp_name : CString
  pub ip : CString
  pub port : ℤ

pub data Found : Type 0 where
  found : FindReply → Found
  timed_out : Found
  null_dereference : Found  -- `recv_msg` was freed and set to NULL

abbrev pub is_answer : CString → FindReply → Bool
is_answer grp_name m = m.is_find_reply && str_eq m.grp_name grp_name

-- The second and later rounds receive into NULL and read through it.
abbrev pub receive_null : List FindReply → Found
receive_null [] = timed_out
receive_null (m ∷ ms) = null_dereference

-- The messages that come, each before the time-out that starts with its round.
unfoldable pub find_group_recv : CString → List FindReply → Found
find_group_recv grp_name [] = timed_out
find_group_recv grp_name (m ∷ ms) = if is_answer grp_name m then found m else receive_null ms

-- The answer to a request for a group, if it is joined, with the port it goes to.
abbrev pub reply_with : Option MulticastGroup → Option FindReply
reply_with none = none
reply_with (some grp) =
    some (record { is_find_reply = true; grp_name = grp.name; ip = grp.ip; port = grp.port })

unfoldable pub handle_find_group_req : CString → List MulticastGroup → Option FindReply
unfolding find_group_by_name
handle_find_group_req query groups = reply_with (find_group_by_name query groups)

pub data FindCommand : Type 0 where
  joined : FindCommand  -- err_no = -1
  not_sent : FindCommand  -- err_no = -2
  no_socket : FindCommand  -- err_no = -3
  received : Found → FindCommand

-- `sockets` says whether socket, bind and getsockname succeed, `sent` whether findGroupSend does.
unfoldable pub handle_find_group_cmd :
    Bool → Bool → CString → List MulticastGroup → List FindReply → FindCommand
unfolding find_group_by_name find_group_recv
handle_find_group_cmd sockets sent grp_name groups replies =
    elim (find_group_by_name grp_name groups) [
      | some g ↦ joined
      | none ↦
          if not sockets
          then no_socket
          else if not sent
          then not_sent
          else received (find_group_recv grp_name replies)
    ]

found-name :
    (name : CString) (groups : List MulticastGroup) (g : MulticastGroup)
    → find_group_by_name name groups ≡ some g
    → name ≡ g.name
unfolding find_group_by_name
found-name name [] g h = ground arith
found-name name (x ∷ xs) g h = elim (Bool-cases (str_eq name x.name)) [
  | inl e ↦
      let same : x ≡ g = ground arith in subst (λ y. name ≡ y.name) same (str_eq-true name x.name e)
  | inr e ↦ found-name name xs g (ground arith)
]

-- What a node that joined the group answers to a request is what the node that asked takes for
-- its answer, and it carries the group's address; no other node answers.
pub request-answer :
    (name : CString) (groups : List MulticastGroup) (others : List FindReply)
    → ((handle_find_group_req name groups ≡ none) × (find_group_by_name name groups ≡ none))
      ⊎ ((g : MulticastGroup) × (m : FindReply) × (find_group_by_name name groups ≡ some g)
          × (handle_find_group_req name groups ≡ some m)
          × (find_group_recv name (m ∷ others) ≡ found m)
          × (m.ip ≡ g.ip)
          × (m.port ≡ g.port))
unfolding handle_find_group_req find_group_recv
request-answer name groups others = elim (Option-cases (find_group_by_name name groups)) [
  | inl e ↦ inl (rw e refl, e)
  | inr (g, e) ↦
      let m : FindReply = record {
        is_find_reply = true;
        grp_name = g.name;
        ip = g.ip;
        port = g.port;
      } in
      let mine : str_eq g.name name ≡ true = rw (found-name name groups g e) (str_eq_refl g.name) in
      inr (g, m, e, rw e refl, rw mine refl, refl, refl)
]

-- The answer of a node, when a message that is no answer came first, is never taken: the first
-- message after such a one is received and read through NULL.
pub answer_after_other-null :
    (name : CString) (other : FindReply) (m : FindReply) (ms : List FindReply)
    → is_answer name other ≡ false
    → find_group_recv name (other ∷ m ∷ ms) ≡ null_dereference
unfolding find_group_recv
answer_after_other-null name other m ms h = rw h refl
