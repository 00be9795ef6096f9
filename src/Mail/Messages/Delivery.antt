-- ===== src/Mail/Messages/Delivery.antt =====
-- A message that is sent to a group, or to a client, is what its readers receive.
use netprog_assignments.Base.{
  ℕ, ◌≤◌, ◌≡◌, ◌⊎◌, ◌-ℤ◌, ◌≤ℤ◌, true, false, refl, none, some, List, [], ◌∷◌, ℤ, pos, ◌+ℤ◌,
  eq_ℤ-true, CString, length, ap, ◌∙◌, arith, inl, inr, Bool-cases, get_elem?,
}
use netprog_assignments.Mail.{Client, Group, Server, find_client_by_id, find_group_by_id}
use netprog_assignments.Mail.Membership.{IsGroupOf, send_group_message_reaches}
use netprog_assignments.Mail.Messages.{
  client_message, group_message, Message, compose, send_client_message, group_copies,
  forward_to_group, forward_to_client, is_expired, handle_message, reader_type,
}

commutes : (a b : ℤ) → a +ℤ b ≡ b +ℤ a
unfolding ◌+ℤ◌
commutes a b = ground arith

-- What a reader shows of a message.
abbrev pub SameText : Message → Message → Type 0
SameText m n = (m.src_name ≡ n.src_name) × (m.timestamp ≡ n.timestamp) × (m.content ≡ n.content)

-- A positive time to live, and more than that since the message was sent.
abbrev pub IsExpired : ℤ → Message → Type 0
IsExpired now m = (pos 1 ≤ℤ m.auto_delete) × (m.auto_delete +ℤ pos 1 ≤ℤ now -ℤ m.timestamp)

-- The reader's router drops an expired message, and passes on any other with its text, under the
-- type that the reader waits for.
abbrev pub Reads : ℤ → ℤ → Message → Message → Type 0
Reads now type m n =
    (IsExpired now m × (handle_message now n ≡ none))
    ⊎ ((¬ IsExpired now m)
        × ((k : Message) × (handle_message now n ≡ some k) × (k.mtype ≡ type) × SameText k m))

is_expired-IsExpired : (now : ℤ) (m : Message) → is_expired now m ≡ true → IsExpired now m
unfolding ◌+ℤ◌ ◌-ℤ◌
is_expired-IsExpired now m e = (ground (arith, e), ground (arith, e))

IsExpired-is_expired : (now : ℤ) (m : Message) → IsExpired now m → is_expired now m ≡ true
unfolding ◌+ℤ◌ ◌-ℤ◌
IsExpired-is_expired now m (a, b) = ground (arith, a, b)

not-IsExpired : (now : ℤ) (m : Message) → is_expired now m ≡ false → ¬ IsExpired now m
not-IsExpired now m e h = ground (arith, e, IsExpired-is_expired now m h)

-- A copy for each member, under the type that the member's router waits for.
abbrev pub Delivers : ℤ → ℤ → Message → List ℤ → List Message → Type 0
Delivers now type m [] [] = Unit
Delivers now type m [] (n ∷ ns) = ⊥
Delivers now type m (c ∷ cs) [] = ⊥
Delivers now type m (c ∷ cs) (n ∷ ns) =
    (n.mtype ≡ c +ℤ pos 5000) × Reads now type m n × Delivers now type m cs ns

handle_group_copy :
    (now c gid : ℤ) (m : Message)
    → m.dst ≡ gid
    → Reads now
        (reader_type group_message gid)
        m
        (record m { protocol = group_message; mtype = c +ℤ pos 5000 })
unfolding handle_message reader_type
handle_group_copy now c gid m h = elim (Bool-cases (is_expired now m)) [
  | inl e ↦ inl (is_expired-IsExpired now m e, rw e refl)
  | inr e ↦ inr (
    not-IsExpired now m e,
    (
      record m { protocol = group_message; mtype = pos 5000 +ℤ m.dst },
      rw e refl,
      commutes (pos 5000) m.dst ∙ ap (λ d. d +ℤ pos 5000) h,
      (refl, refl, refl),
    ),
  )
]

copies-Delivers :
    (now gid : ℤ) (m : Message) (cs : List ℤ)
    → m.dst ≡ gid
    → Delivers now (reader_type group_message gid) m cs (group_copies m cs)
unfolding group_copies
copies-Delivers now gid m [] h = tt
copies-Delivers now gid m (c ∷ cs) h =
    (refl, handle_group_copy now c gid m h, copies-Delivers now gid m cs h)

-- A message that is sent to a group with no more members than the server has clients goes to each
-- of its members, in the order in which they joined, under the type that the member waits for.
-- There it is dropped when it has expired: its time to live is positive, and more than that has
-- passed since it was sent; otherwise it comes with its text to a reader of the group.
pub compose-group_Delivers :
    (s : Server) (gid place : ℕ) (g : Group) (members : List ℤ) (uid autodelete sent now : ℤ)
    (name content : CString)
    → find_group_by_id gid s.groups ≡ some place
    → get_elem? s.groups place ≡ some g
    → IsGroupOf members g
    → length members ≤ length s.clients
    → (copies : List Message) × (forward_to_group s gid
          (compose group_message uid (pos gid) autodelete sent name content).1
        ≡ some copies)
      × Delivers now
          (reader_type group_message (pos gid))
          (compose group_message uid (pos gid) autodelete sent name content).1
          members
          copies
unfolding forward_to_group compose
compose-group_Delivers s gid place g cs uid autodelete sent now name content h k l few =
    let m = (compose group_message uid (pos gid) autodelete sent name content).1 in
    let all = send_group_message_reaches (length s.clients) cs g l few in
    (group_copies m cs, rw (forward_to_group, h, k, all), copies-Delivers now (pos gid) m cs refl)

-- The client that is found has the identifier.
find_client_by_id-cid :
    (id : ℤ) (cs : List Client) (c : Client) → find_client_by_id id cs ≡ some c → c.cid ≡ id
unfolding find_client_by_id
find_client_by_id-cid id [] c h = ground arith
find_client_by_id-cid id (d ∷ cs) c h =
    ground (arith, find_client_by_id-cid id cs c, eq_ℤ-true d.cid id)

handle_client_copy :
    (now : ℤ) (clt : Client) (m : Message)
    → Reads now (reader_type client_message m.src) m (send_client_message clt m)
unfolding handle_message reader_type send_client_message
handle_client_copy now clt m = elim (Bool-cases (is_expired now m)) [
  | inl e ↦ inl (is_expired-IsExpired now m e, rw e refl)
  | inr e ↦ inr (
    not-IsExpired now m e,
    (
      record m { protocol = client_message; mtype = pos 10000 +ℤ m.src },
      rw e refl,
      commutes (pos 10000) m.src,
      (refl, refl, refl),
    ),
  )
]

-- A message that is sent to a client: the sender's copy is under the type of a reader of the
-- receiver, and the server's copy, under the type that the receiver waits for, comes to a reader
-- of the sender unless it has expired: its time to live is positive, and more than that has passed
-- since it was sent.
pub compose-client_Reads :
    (s : Server) (clt : Client) (uid dst autodelete sent now : ℤ) (name content : CString)
    → find_client_by_id dst s.clients ≡ some clt
    → (own copy : Message) × ((compose client_message uid dst autodelete sent name content).0
        ≡ some own)
      × (own.mtype ≡ reader_type client_message dst)
      × SameText own (compose client_message uid dst autodelete sent name content).1
      × (forward_to_client s (compose client_message uid dst autodelete sent name content).1
          ≡ some copy)
      × (copy.mtype ≡ dst +ℤ pos 5000)
      × Reads now
          (reader_type client_message uid)
          (compose client_message uid dst autodelete sent name content).1
          copy
unfolding forward_to_client compose reader_type
compose-client_Reads s clt uid dst autodelete sent now name content h =
    let r = compose client_message uid dst autodelete sent name content in
    let m = r.1 in
    (
      record m { mtype = dst +ℤ pos 10000 },
      send_client_message clt m,
      refl,
      refl,
      (refl, refl, refl),
      rw (forward_to_client, h),
      ap (λ c. c +ℤ pos 5000) (find_client_by_id-cid dst s.clients clt h),
      handle_client_copy now clt m,
    )
