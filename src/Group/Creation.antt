-- ===== src/Group/Creation.antt =====
-- main's case CREATE_GROUP as an operation on the groups by name.
use netprog_assignments.Base.{
  ◌≡◌, ◌≢◌, ◌∙◌, refl, ap, Bool, true, false, Option, none, some, List, [], ◌∷◌, ◌++◌,
  if◌then◌else◌, ℤ, CString, str_eq, arith, All, Option-cases, inl, inr, subst, ◌⊎◌,
}
use netprog_assignments.Group.Groups.{
  MulticastGroup, GroupList, find_group_by_name, find_group_by_ip_and_port, Sockets, failed, ready,
  with_sockets, init_multicast_group, Created, joined, already_joined, not_created, not_joined,
  crashed, after_init, create_group_command, join_multicast_group,
}
use netprog_assignments.Group.Members.{IsLinked, insert_multicast_group-IsLinked}

-- The search once a group stands at the end.
abbrev pub or_last : CString → MulticastGroup → Option MulticastGroup → Option MulticastGroup
or_last q group (some g) = some g
or_last q group none = if str_eq q group.name then some group else none

pub find-append :
    (q : CString) (group : MulticastGroup) (gs : List MulticastGroup)
    → find_group_by_name q (gs ++ group ∷ []) ≡ or_last q group (find_group_by_name q gs)
unfolding find_group_by_name
find-append q group [] = ground arith
find-append q group (g ∷ gs) = ground (arith, find-append q group gs)

-- The address that calloc gives is no node's.
abbrev pub IsFresh : Sockets → GroupList → Type 0
IsFresh failed list = Unit
IsFresh (ready address send_fd recv_fd) list = All (λ h. h.address ≢ address) list.head

abbrev pub Creates : Bool → Sockets → CString → CString → ℤ → GroupList → Created → Type 0
Creates member sockets name ip port list (joined group after) =
    (group.name ≡ name)
    × (group.ip ≡ ip)
    × (group.port ≡ port)
    × IsLinked after
    × (find_group_by_name name list.head ≡ none)
    × (find_group_by_ip_and_port ip port list.head ≡ none)
    × ((q : CString)
        → find_group_by_name q after.head ≡ or_last q group (find_group_by_name q list.head))
Creates member sockets name ip port list already_joined =
    ((g : MulticastGroup) × (find_group_by_name name list.head ≡ some g))
    ⊎ ((g : MulticastGroup) × (find_group_by_ip_and_port ip port list.head ≡ some g))
Creates member sockets name ip port list not_created = sockets ≡ failed
Creates member sockets name ip port list not_joined = member ≡ false
Creates member sockets name ip port list crashed = ⊥

new-Creates :
    (member : Bool) (sockets : Sockets) (name ip : CString) (port : ℤ) (list : GroupList)
    → IsLinked list
    → IsFresh sockets list
    → find_group_by_name name list.head ≡ none
    → find_group_by_ip_and_port ip port list.head ≡ none
    → Creates member sockets name ip port list
        (after_init member list (with_sockets name ip port sockets))
unfolding join_multicast_group
new-Creates member failed name ip port list v f n a = refl
new-Creates false (ready address send_fd recv_fd) name ip port list v f n a = refl
new-Creates true (ready address send_fd recv_fd) name ip port list v f n a =
    let group : MulticastGroup = record {
      address = address;
      name = name;
      ip = ip;
      port = port;
      send_fd = send_fd;
      recv_fd = recv_fd;
    } in
    let (after, run, w, h) = insert_multicast_group-IsLinked list group v f in
    rw run
      (refl, refl, refl, w, n, a, λ q. ap (find_group_by_name q) h ∙ find-append q group list.head)

-- create-group on a well-formed list, with a fresh address, on each of its outcomes: a name or an
-- address that is joined is refused; a new one is found by its name afterwards, every other name
-- is found as before, and the list stays well formed; nothing crashes.
pub create_group_command-Creates :
    (member : Bool) (sockets : Sockets) (name ip : CString) (port : ℤ) (list : GroupList)
    → IsLinked list
    → IsFresh sockets list
    → Creates member sockets name ip port list
        (create_group_command member sockets name ip port list)
unfolding create_group_command init_multicast_group
create_group_command-Creates member sockets name ip port list v f =
    let P = Creates member sockets name ip port list in
    elim (Option-cases (find_group_by_name name list.head)) [
      | inr (g, e) ↦
          let run : already_joined ≡ create_group_command member sockets name ip port list =
            rw (e, create_group_command, init_multicast_group) in
          subst P run (inl (g, e))
      | inl e ↦ elim (Option-cases (find_group_by_ip_and_port ip port list.head)) [
        | inr (g, a) ↦
            let run : already_joined ≡ create_group_command member sockets name ip port list =
              rw (e, a, create_group_command, init_multicast_group) in
            subst P run (inr (g, a))
        | inl a ↦
            let run : after_init member list (with_sockets name ip port sockets)
                ≡ create_group_command member sockets name ip port list =
              rw (e, a, create_group_command, init_multicast_group) in
            subst P run (new-Creates member sockets name ip port list v f e a)
      ]
    ]
