-- ===== src/Cluster/Registering.antt =====
-- registerClientConnection of assignment-1/q2.
use netprog_assignments.Base.{
  ℕ, zero, suc, ◌+◌, ◌<◌, ◌≡◌, refl, Bool, true, false, not, Option, none, some, List, [], ◌∷◌,
  ◌&&◌, ltb, ltb→lt, length, get_or, set, get_elem?, CString, str_eq, str_eq-true, str_eq_refl,
  arith, Bool-cases, inl, inr, ap,
}
use netprog_assignments.Cluster.{max_clients_allowed, register_from, register_client_connection}

-- The machine found, counted from the first of the list: its address, and that it is free; or
-- every machine of the address is taken.
abbrev Finds : CString → ℕ → List CString → List Bool → Option ℕ → Type 0
Finds ip i config active none =
    (j : ℕ)
    → j < length config
    → i + j < max_clients_allowed
    → get_or config j [] ≡ ip
    → get_or active (i + j) false ≡ true
Finds ip i config active (some k) =
    (j : ℕ) × (k ≡ i + j)
    × (k < max_clients_allowed)
    × (get_elem? config j ≡ some ip)
    × (get_or active k false ≡ false)

here :
    (ip d : CString) (i : ℕ) (config : List CString) (active : List Bool)
    → i < max_clients_allowed
    → (str_eq d ip && not (get_or active i false)) ≡ true
    → Finds ip i (d ∷ config) active (some i)
here ip d i config active l h =
    let same : str_eq d ip ≡ true = ground arith in
    (0, omega arith, l, ap some (str_eq-true d ip same), ground arith)

later_none :
    (ip d : CString) (i : ℕ) (config : List CString) (active : List Bool)
    → (str_eq d ip && not (get_or active i false)) ≡ false
    → Finds ip (suc i) config active none
    → Finds ip i (d ∷ config) active none
later_none ip d i config active h f zero l m e =
    let same : str_eq d ip ≡ true = rw e (str_eq_refl ip) in
    let taken : get_or active i false ≡ true = ground (arith, same, h) in
    let first : i + 0 ≡ i = omega arith in rw (first, taken)
later_none ip d i config active h f (suc j) l m e =
    let next : i + suc j ≡ suc i + j = omega arith in rw next (f j (omega arith) (omega arith) e)

later :
    (ip d : CString) (i : ℕ) (config : List CString) (active : List Bool) (o : Option ℕ)
    → (str_eq d ip && not (get_or active i false)) ≡ false
    → Finds ip (suc i) config active o
    → Finds ip i (d ∷ config) active o
later ip d i config active none h f = later_none ip d i config active h f
later ip d i config active (some k) h (j, e, l, g, a) = (suc j, omega arith, l, g, a)

register_from-Finds :
    (ip : CString) (i : ℕ) (config : List CString) (active : List Bool)
    → Finds ip i config active (register_from ip i config active)
unfolding register_from
register_from-Finds ip i [] active = λ j l m e. ground arith
register_from-Finds ip i (d ∷ config) active = elim (Bool-cases (ltb i max_clients_allowed)) [
  | inl f ↦ elim (Bool-cases (str_eq d ip && not (get_or active i false))) [
    | inl e ↦ rw (f, e) (here ip d i config active (ltb→lt i max_clients_allowed f) e)
    | inr e ↦
        rw (f, e)
          (later ip d i config active (register_from ip (suc i) config active) e
            (register_from-Finds ip (suc i) config active))
  ]
  | inr f ↦ rw f (λ j l m e. ground (arith, f, m))
]

-- A free machine of the address, which alone changes; or every machine of the address, among the
-- first 100, is taken and nothing changes.
abbrev pub Registers : CString → List CString → List Bool → Option ℕ × List Bool → Type 0
Registers ip config active r = elim (r.0) [
  | none ↦
      (r.1 ≡ active)
      × ((j : ℕ)
          → j < length config
          → j < max_clients_allowed
          → get_or config j [] ≡ ip
          → get_or active j false ≡ true)
  | some i ↦
      (i < max_clients_allowed)
      × (get_elem? config i ≡ some ip)
      × (get_or active i false ≡ false)
      × (r.1 ≡ set active i true)
]

registered_at :
    (ip : CString) (config : List CString) (active : List Bool) (o : Option ℕ)
    → Finds ip 0 config active o
    → Registers ip config active
        (elim o [ none ↦ (none, active) | some i ↦ (some i, set active i true) ])
registered_at ip config active none f =
    (refl, λ j l m e. let whole : j ≡ 0 + j = omega arith in rw whole (f j l (omega arith) e))
registered_at ip config active (some i) (j, e, l, g, a) =
    let same : i ≡ j = omega arith in (l, rw same g, a, refl)

-- registerClientConnection on any configuration and connections.
pub register_client_connection-Registers :
    (ip : CString) (config : List CString) (active : List Bool)
    → Registers ip config active (register_client_connection ip config active)
unfolding register_client_connection
register_client_connection-Registers ip config active =
    registered_at ip config active (register_from ip 0 config active)
      (register_from-Finds ip 0 config active)
