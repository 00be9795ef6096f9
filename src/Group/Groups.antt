-- ===== src/Group/Groups.antt =====
-- The linked list of joined groups: assignment-2/q3/utils.c. A node has the address that calloc
-- gave it; the chain is what `next` leads to from `head`. memcmp over whole nodes is taken as
-- the comparison of addresses: two nodes of one chain differ in `next`.
use netprog_assignments.Base.{
  ℕ, zero, suc, ◌+◌, ◌-◌, Bool, Option, none, some, List, [], ◌∷◌, ◌==◌, ◌&&◌, ltb, if◌then◌else◌,
  ℤ, eq_ℤ, CString, str_eq,
}

pub record MulticastGroup : Type 0 where
  pub address : ℕ
  pub name : CString
  pub ip : CString
  pub port : ℤ
  pub send_fd : ℕ
  pub recv_fd : ℕ

pub record GroupList : Type 0 where
  pub head : List MulticastGroup
  pub tail : Option ℕ
  pub count : ℕ

unfoldable pub find_group_by_name : CString → List MulticastGroup → Option MulticastGroup
find_group_by_name grp_name [] = none
find_group_by_name grp_name (curr ∷ rest) =
    if str_eq grp_name curr.name then some curr else find_group_by_name grp_name rest

unfoldable pub find_group_by_ip_and_port : CString → ℤ → List MulticastGroup → Option MulticastGroup
find_group_by_ip_and_port ip port [] = none
find_group_by_ip_and_port ip port (curr ∷ rest) =
    if str_eq ip curr.ip && eq_ℤ port curr.port
    then some curr
    else find_group_by_ip_and_port ip port rest

-- What calloc and the socket calls give a new group.
pub data Sockets : Type 0 where
  failed : Sockets
  ready : (address send_fd recv_fd : ℕ) → Sockets

pub data Init : Type 0 where
  created : MulticastGroup → Init
  name_exists : Init  -- err = -1
  address_exists : Init  -- err = -2
  init_failed : Init  -- NULL, err not set

abbrev pub with_sockets : CString → CString → ℤ → Sockets → Init
with_sockets name ip port failed = init_failed
with_sockets name ip port (ready address send_fd recv_fd) = created (record {
  address = address;
  name = name;
  ip = ip;
  port = port;
  send_fd = send_fd;
  recv_fd = recv_fd;
})

unfoldable pub init_multicast_group : Sockets → CString → CString → ℤ → List MulticastGroup → Init
unfolding find_group_by_name find_group_by_ip_and_port
init_multicast_group sockets name ip port groups = elim (find_group_by_name name groups) [
  | some g ↦ name_exists
  | none ↦ elim (find_group_by_ip_and_port ip port groups) [
    | some g ↦ address_exists
    | none ↦ with_sockets name ip port sockets
  ]
]

-- The list afterwards, the return value -1, or an access through a null or a freed pointer.
pub data Changed : Type 0 where
  changed : GroupList → Changed
  refused : Changed
  fault : Changed

-- `list->tail->next = group`, on the chain; `none` when no node of the chain is at `tail`.
unfoldable pub link : ℕ → MulticastGroup → List MulticastGroup → Option (List MulticastGroup)
link tail group [] = none
link tail group (curr ∷ rest) =
    let linked = link tail group rest in
    if curr.address == tail
    then some (curr ∷ group ∷ [])
    else elim linked [ none ↦ none | some more ↦ some (curr ∷ more) ]

abbrev pub linked_list : MulticastGroup → ℕ → Option (List MulticastGroup) → Changed
linked_list group count none = fault
linked_list group count (some chain) =
    changed (record { head = chain; tail = some group.address; count = count + 1 })

abbrev pub linked_at : MulticastGroup → GroupList → Option ℕ → Option (List MulticastGroup)
linked_at group list none = none
linked_at group list (some tail) = link tail group list.head

unfoldable pub insert_multicast_group : GroupList → MulticastGroup → Changed
unfolding link
insert_multicast_group list group =
    if list.count == 0
    then changed (record { head = group ∷ []; tail = some group.address; count = 1 })
    else linked_list group list.count (linked_at group list list.tail)

-- Where the search by `count` steps stops: the chain without the node, a null node, or a null
-- node that is compared.
pub data Walk : Type 0 where
  unlinked : List MulticastGroup → Walk
  absent : Walk
  past_the_end : Walk

abbrev pub keep : MulticastGroup → Walk → Walk
keep prev (unlinked rest) = unlinked (prev ∷ rest)
keep prev absent = absent
keep prev past_the_end = past_the_end

unfoldable pub walk : ℕ → ℕ → List MulticastGroup → Walk
walk zero group [] = absent
walk zero group (curr ∷ rest) = unlinked rest
walk (suc count) group [] = past_the_end
walk (suc count) group (curr ∷ rest) =
    let further = walk count group rest in
    if curr.address == group then unlinked rest else keep curr further

-- `tail` is not written.
abbrev pub removed : GroupList → Walk → Changed
removed list (unlinked chain) = changed (record list { head = chain; count = list.count - 1 })
removed list absent = refused
removed list past_the_end = fault

unfoldable pub remove_multicast_group : GroupList → MulticastGroup → Changed
unfolding walk
remove_multicast_group list group = removed list (walk list.count group.address list.head)

-- `member` says whether setsockopt succeeds.
unfoldable pub join_multicast_group : Bool → MulticastGroup → GroupList → Changed
unfolding insert_multicast_group
join_multicast_group member grp list = if member then insert_multicast_group list grp else refused

unfoldable pub leave_multicast_group : Bool → MulticastGroup → GroupList → Changed
unfolding remove_multicast_group
leave_multicast_group member grp list = if member then remove_multicast_group list grp else refused

-- main, case CREATE_GROUP: what is printed, and the list.
pub data Created : Type 0 where
  joined : MulticastGroup → GroupList → Created
  already_joined : Created
  not_created : Created
  not_joined : Created
  crashed : Created

abbrev pub after_join : MulticastGroup → Changed → Created
after_join grp (changed list) = joined grp list
after_join grp refused = not_joined
after_join grp fault = crashed

abbrev pub after_init : Bool → GroupList → Init → Created
after_init member list (created grp) = after_join grp (join_multicast_group member grp list)
after_init member list name_exists = already_joined
after_init member list address_exists = already_joined
after_init member list init_failed = not_created

unfoldable pub create_group_command : Bool → Sockets → CString → CString → ℤ → GroupList → Created
unfolding init_multicast_group join_multicast_group
create_group_command member sockets name ip port list =
    after_init member list (init_multicast_group sockets name ip port list.head)

unfoldable pub max_recv_fd : ℕ → List MulticastGroup → ℕ
max_recv_fd max_fd [] = max_fd
max_recv_fd max_fd (curr ∷ rest) =
    max_recv_fd (if ltb max_fd curr.recv_fd then curr.recv_fd else max_fd) rest

-- STDIN_FILENO is 0; a descriptor that is not open, -1, is `none`.
abbrev pub with_broadcast : Option ℕ → ℕ
with_broadcast none = 0
with_broadcast (some fd) = if ltb 0 fd then fd else 0

unfoldable pub get_max_fd : Option ℕ → GroupList → ℕ
unfolding max_recv_fd
get_max_fd broadcast_fd list =
    if ltb 0 list.count
    then max_recv_fd (with_broadcast broadcast_fd) list.head
    else with_broadcast broadcast_fd
