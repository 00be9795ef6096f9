-- ===== src/Mail/Membership.antt =====
-- The members of a group as a list: create_group, join_group and send_group_message of
-- assignment-1/q3/server.c.
use netprog_assignments.Base.{
  ℕ, suc, ◌+◌, ◌<◌, ◌≤◌, ◌≡◌, ◌∙◌, refl, ap, true, Option, none, some, List, [], ◌∷◌, ◌++◌, ◌==◌,
  ltb, if◌then◌else◌, ℤ, CString, length, arith, length-append,
}
use netprog_assignments.Mail.{
  Group, Server, max, join_group, new_group, add_group, count_group, create_group, send_from,
  send_group_message,
}

-- The cells from `i` on hold the members.
abbrev pub Holds : (ℕ → Option ℤ) → ℕ → List ℤ → Type 0
Holds clients i [] = Unit
Holds clients i (c ∷ cs) = (clients i ≡ some c) × Holds clients (suc i) cs

abbrev pub IsGroupOf : List ℤ → Group → Type 0
IsGroupOf members g = (g.num_clients ≡ length members) × Holds g.clients 0 members

Holds-more :
    (clients : ℕ → Option ℤ) (n i : ℕ) (c : ℤ) (cs : List ℤ)
    → i + length cs ≡ n
    → Holds clients i cs
    → Holds (λ j. if j == n then some c else clients j) i (cs ++ c ∷ [])
Holds-more clients n i c [] e h = (ground arith, tt)
Holds-more clients n i c (d ∷ cs) e (h, hs) =
    (ground arith, Holds-more clients n (suc i) c cs (omega arith) hs)

sends :
    (total : ℕ) (clients : ℕ → Option ℤ) (i : ℕ) (cs : List ℤ)
    → i + length cs ≤ total
    → Holds clients i cs
    → send_from total (length cs) i clients ≡ some cs
unfolding send_from
sends total clients i [] l h = refl
sends total clients i (c ∷ cs) l (h, hs) =
    let known : ltb i total ≡ true = ground arith in
    rw (known, h, sends total clients (suc i) cs (omega arith) hs) refl

-- A group's message goes to its members in the order in which they joined, once to each, when
-- the group has no more members than the server has clients.
pub send_group_message_reaches :
    (total : ℕ) (members : List ℤ) (g : Group)
    → IsGroupOf members g
    → length members ≤ total
    → send_group_message total g ≡ some members
unfolding send_group_message
send_group_message_reaches total members g (n, h) l =
    rw n (sends total g.clients 0 members (omega arith) h)

-- Joining a group that has room makes the client its last member, and the next message goes to
-- the members that were there, in order, and then to it.
pub join-send :
    (total : ℕ) (members : List ℤ) (g : Group) (c : ℤ)
    → IsGroupOf members g
    → length members < max
    → length members < total
    → (h : Group) × (join_group g c ≡ some h)
      × (h.gid ≡ g.gid)
      × IsGroupOf (members ++ c ∷ []) h
      × (send_group_message total h ≡ some (members ++ c ∷ []))
unfolding join_group
join-send total members g c (n, m) room known =
    let h : Group = record g {
      clients = λ i. if i == g.num_clients then some c else g.clients i;
      num_clients = g.num_clients + 1;
    } in
    let free : ltb g.num_clients max ≡ true = ground arith in
    let more = length-append members (c ∷ []) in
    let now : IsGroupOf (members ++ c ∷ []) h =
      (omega (arith, more), Holds-more g.clients g.num_clients 0 c members (omega arith) m) in
    (
      h,
      rw free refl,
      refl,
      now,
      send_group_message_reaches total (members ++ c ∷ []) h now (omega (arith, more)),
    )

-- A client of the server that creates a group is its only member, when the memory of the new group
-- happens to count none; the group gets the next identifier and stands last.
pub create-send :
    (total : ℕ) (name : CString) (creator : ℤ) (s : Server)
    → length s.groups < max
    → 0 < total
    → (g : Group) × (after : Server) × (create_group 0 name creator s ≡ some after)
      × (after.groups ≡ s.groups ++ g ∷ [])
      × (g.gid ≡ s.next_group_id)
      × (after.next_group_id ≡ s.next_group_id + 1)
      × (send_group_message total g ≡ some (creator ∷ []))
unfolding create_group new_group
create-send total name creator s room known =
    let g = new_group 0 s.next_group_id name in
    let (h, run, id, now, sent) = join-send total [] g creator (refl, tt) (omega arith) known in
    let free : ltb (length s.groups) max ≡ true = ground arith in
    (
      h,
      record {
        clients = count_group creator s.clients;
        groups = s.groups ++ h ∷ [];
        next_group_id = s.next_group_id + 1;
      },
      ap (add_group creator s) run ∙ rw free refl,
      refl,
      id,
      refl,
      sent,
    )

one_more : (k : ℕ) → suc k + 1 ≡ suc (suc k)
one_more k = omega arith

stops :
    (total n : ℕ) (clients : ℕ → Option ℤ)
    → clients 0 ≡ none
    → send_from total (suc n) 0 clients ≡ none
unfolding send_from
stops total n clients h = rw h (ground arith)

first_garbage :
    (total k : ℕ) (creator : ℤ)
    → send_from total (suc k + 1) 0 (λ i. if i == suc k then some creator else none) ≡ none
first_garbage total k creator =
    ap (λ n. send_from total n 0 (λ i. if i == suc k then some creator else none)) (one_more k)
    ∙ stops total (suc k) (λ i. if i == suc k then some creator else none) (ground arith)

-- When the memory of a new group counts clients that no one wrote, its creator stands behind them
-- and a message to the group goes through a pointer that no one wrote.
pub create_garbage-none :
    (total k : ℕ) (name : CString) (creator : ℤ) (s : Server)
    → length s.groups < max
    → suc k < max
    → (g : Group) × (after : Server) × (create_group (suc k) name creator s ≡ some after)
      × (after.groups ≡ s.groups ++ g ∷ [])
      × (send_group_message total g ≡ none)
unfolding create_group new_group join_group send_group_message send_from
create_garbage-none total k name creator s room few =
    let g : Group = record {
      gid = s.next_group_id;
      name = name;
      num_clients = suc k + 1;
      clients = λ i. if i == suc k then some creator else none;
    } in
    let slot : ltb (suc k) max ≡ true = ground arith in
    let free : ltb (length s.groups) max ≡ true = ground arith in
    (
      g,
      record {
        clients = count_group creator s.clients;
        groups = s.groups ++ g ∷ [];
        next_group_id = s.next_group_id + 1;
      },
      rw (slot, free) refl,
      refl,
      first_garbage total k creator,
    )
