-- ===== src/Group/Passing.antt =====
-- How file lists spread, and what a node keeps of them.
use netprog_assignments.Base.{
  ℕ, ◌≡◌, ◌≢◌, ap, sym, ◌+◌, ◌≤◌, ◌<◌, refl, true, List, [], ◌∷◌, ◌++◌, if◌then◌else◌, CString,
  str_eq_refl, length, get_or, take, drop, map, arith, All, All-map, subst,
}
use netprog_assignments.Group.Groups.{MulticastGroup}
use netprog_assignments.Group.Files.{
  is_among, max_groups, FileListMulticast, Sent, Forwarded, forward, multicast, name_of, fd_of,
  sig_alrm_handler,
}

-- The groups that the list does not name.
pub unnamed : FileListMulticast → List MulticastGroup → List MulticastGroup
unnamed list [] = []
unnamed list (g ∷ gs) =
    if is_among g.name (take list.grp_count list.groups)
    then unnamed list gs
    else g ∷ unnamed list gs

abbrev pub sent_fd : Sent → ℕ
sent_fd s = s.send_fd

-- The name of the last of the groups, if any.
pub last_name : CString → List MulticastGroup → CString
last_name name [] = name
last_name name (g ∷ gs) = last_name g.name gs

-- The name in the slot after those of the list, in a message that is sent.
abbrev pub last_slot : FileListMulticast → Sent → CString
last_slot list s = get_or s.message.groups list.grp_count []

abbrev pub Passes : FileListMulticast → FileListMulticast → List MulticastGroup → Forwarded → Type 0
Passes list msg gs f =
    (map sent_fd f.sent ≡ map fd_of (unnamed list gs))
    × (f.parsed_msg.grp_count ≡ msg.grp_count + length (unnamed list gs))
    × ((i : ℕ) → i ≢ list.grp_count → get_or f.parsed_msg.groups i [] ≡ get_or msg.groups i [])
    × (get_or f.parsed_msg.groups list.grp_count []
        ≡ last_name (get_or msg.groups list.grp_count []) (unnamed list gs))
    × (map (last_slot list) f.sent ≡ map name_of (unnamed list gs))

take-map :
    (gs : List MulticastGroup) (stack : List CString)
    → take (length gs) (map name_of gs ++ stack) ≡ map name_of gs
take-map [] stack = refl
take-map (g ∷ gs) stack = ap (λ r. g.name ∷ r) (take-map gs stack)

abbrev AllNamed : FileListMulticast → List MulticastGroup → Type 0
AllNamed list = All (λ g. is_among g.name (take list.grp_count list.groups) ≡ true)

forward_named :
    (list msg : FileListMulticast) (gs : List MulticastGroup)
    → AllNamed list gs
    → (forward list msg gs).sent ≡ []
unfolding forward
forward_named list msg [] h = refl
forward_named list msg (g ∷ gs) (h, hs) = rw h (forward_named list msg gs hs)

among_cons :
    (q name : CString) (xs : List CString) → is_among q xs ≡ true → is_among q (name ∷ xs) ≡ true
unfolding is_among
among_cons q name xs h = ground arith

among_first : (name : CString) (xs : List CString) → is_among name (name ∷ xs) ≡ true
unfolding is_among
among_first name xs = rw (str_eq_refl name) refl

All-among : (gs : List MulticastGroup) → All (λ g. is_among g.name (map name_of gs) ≡ true) gs
All-among [] = tt
All-among (g ∷ gs) = (
  among_first g.name (map name_of gs),
  All-map gs (λ h k. among_cons h.name g.name (map name_of gs) k) (All-among gs),
)

sent_all :
    (msg : FileListMulticast) (gs : List MulticastGroup)
    → map sent_fd (map (λ g. record { send_fd = fd_of g; message = msg }) gs) ≡ map fd_of gs
sent_all msg [] = refl
sent_all msg (g ∷ gs) = ap (λ r. g.send_fd ∷ r) (sent_all msg gs)

sent_same :
    (msg : FileListMulticast) (gs : List MulticastGroup)
    → All
        (λ (s : Sent). s.message ≡ msg)
        (map (λ g. record { send_fd = fd_of g; message = msg }) gs)
sent_same msg [] = tt
sent_same msg (g ∷ gs) = (refl, sent_same msg gs)

list_of : List CString → List CString → List MulticastGroup → FileListMulticast
list_of stack files gs = record {
  file_list = files;
  groups = map name_of gs ++ drop (length gs) stack;
  grp_count = length gs;
}

-- The alarm of a node with files and at most 20 groups sends its list to each of its groups once,
-- and a node with the same groups passes none of these messages on.
pub sig_alrm_handler_settles :
    (stack files : List CString) (groups : List MulticastGroup)
    → 0 < length files
    → length groups ≤ max_groups
    → (msg : FileListMulticast) × (msgs : List Sent) × (sig_alrm_handler stack files groups
        ≡ multicast msgs)
      × (map sent_fd msgs ≡ map fd_of groups)
      × All (λ (s : Sent). s.message ≡ msg) msgs
      × (msg.file_list ≡ files)
      × (msg.grp_count ≡ length groups)
      × ((forward msg msg groups).sent ≡ [])
unfolding sig_alrm_handler list_of
sig_alrm_handler_settles stack files groups h k =
    let msg = list_of stack files groups in
    (
      msg,
      map (λ g. record { send_fd = fd_of g; message = msg }) groups,
      ground arith,
      sent_all msg groups,
      sent_same msg groups,
      refl,
      refl,
      forward_named msg msg groups (
          subst (λ names. All (λ g. is_among g.name names ≡ true) groups)
            (sym (take-map groups (drop (length groups) stack))) (All-among groups)),
    )
