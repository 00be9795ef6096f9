-- ===== src/Mail/Registering.antt =====
-- register_client of assignment-1/q3/server.c.
use netprog_assignments.Base.{
  ◌≤◌, ◌≡◌, ◌≢◌, refl, Bool, true, false, none, some, List, [], ◌∷◌, ◌++◌, ltb, ℤ, eq_ℤ, eq_ℤ_refl,
  eq_ℤ-true, CString, length, arith, Bool-cases, Option-cases, inl, inr, subst,
}
use netprog_assignments.Mail.{
  Client, Server, max, find_client_by_id, Registered, registered, no_queue, overflow, new_client,
  register_client,
}

abbrev pub Registers : Bool → ℤ → Server → Registered → Type 0
Registers queue uid s (registered c after) =
    (c.cid ≡ uid)
    × (find_client_by_id uid after.clients ≡ some c)
    × ((q : ℤ) → q ≢ uid → find_client_by_id q after.clients ≡ find_client_by_id q s.clients)
Registers queue uid s no_queue = (find_client_by_id uid s.clients ≡ none) × (queue ≡ false)
Registers queue uid s overflow = (find_client_by_id uid s.clients ≡ none) × (max ≤ length s.clients)

find-cid :
    (uid : ℤ) (cs : List Client) (c : Client) → find_client_by_id uid cs ≡ some c → c.cid ≡ uid
unfolding find_client_by_id
find-cid uid [] c h = ground arith
find-cid uid (x ∷ xs) c h = elim (Bool-cases (eq_ℤ x.cid uid)) [
  | inl e ↦ let same : x ≡ c = ground arith in subst (λ d. d.cid ≡ uid) same (eq_ℤ-true x.cid uid e)
  | inr e ↦ find-cid uid xs c (ground arith)
]

find-last :
    (uid : ℤ) (cs : List Client) (c : Client)
    → c.cid ≡ uid
    → find_client_by_id uid cs ≡ none
    → find_client_by_id uid (cs ++ c ∷ []) ≡ some c
unfolding find_client_by_id
find-last uid [] c e h = ground (arith, eq_ℤ_refl uid)
find-last uid (x ∷ xs) c e h = ground (arith, find-last uid xs c e)

find-before :
    (q : ℤ) (cs : List Client) (c : Client)
    → q ≢ c.cid
    → find_client_by_id q (cs ++ c ∷ []) ≡ find_client_by_id q cs
unfolding find_client_by_id
find-before q [] c n = ground (arith, eq_ℤ-true c.cid q)
find-before q (x ∷ xs) c n = ground (arith, find-before q xs c n)

new_client-Registers :
    (queue : Bool) (uid : ℤ) (name : CString) (s : Server)
    → find_client_by_id uid s.clients ≡ none
    → Registers queue uid s (new_client queue uid name s)
new_client-Registers false uid name s h = (h, refl)
new_client-Registers true uid name s h =
    let c : Client = record { cid = uid; name = name; num_groups = 0 } in
    elim (Bool-cases (ltb (length s.clients) max)) [
      | inl e ↦ rw e (refl, find-last uid s.clients c refl h, λ q n. find-before q s.clients c n)
      | inr e ↦ rw e (h, ground arith)
    ]

-- Registering: a client that is known comes back and nothing changes; a new one is found by its
-- identifier afterwards, and every other identifier as before; it is refused without a queue, and
-- written past the table when that is full.
pub register_client-Registers :
    (queue : Bool) (uid : ℤ) (name : CString) (s : Server)
    → Registers queue uid s (register_client queue uid name s)
unfolding register_client
register_client-Registers queue uid name s = elim (Option-cases (find_client_by_id uid s.clients)) [
  | inl e ↦
      let run : new_client queue uid name s ≡ register_client queue uid name s =
        rw (e, register_client) in
      subst (Registers queue uid s) run (new_client-Registers queue uid name s e)
  | inr (c, e) ↦
      let run : registered c s ≡ register_client queue uid name s = rw (e, register_client) in
      subst (Registers queue uid s) run (find-cid uid s.clients c e, e, λ q n. refl)
]
