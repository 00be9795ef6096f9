-- ===== src/Rtt/Setup/Adding.antt =====
-- The hosts that main of rtt.c sets up.
use netprog_assignments.Base.{
  ℕ, ◌+◌, ◌<◌, ◌≡◌, refl, Bool, Option, none, some, List, [], ◌∷◌, length, CString, All,
  str_eq-true, str_eq_refl, arith, inl, inr, Option-cases, subst, length-append,
}
use netprog_assignments.Rtt.HashMap.{
  HashMap, find_in_map, insert_into_map, Inserted, success, error, duplicate,
}
use netprog_assignments.Rtt.HashMap.Laws.{IsTable, Inserts, insert_into_map-Inserts}
use netprog_assignments.Rtt.Proto.{init_ip}
use netprog_assignments.Rtt.Setup.{
  IpStruct, Hosts, new_host, inserted_host, resolved_host, add_host, add_hosts,
}

-- The map is well formed and leads to hosts, and every host is counted as one of IPv4 or IPv6.
pub record AreHosts (h : Hosts) : Type 0 where
  pub table : IsTable h.ip_proto_map
  pub leads : (k : CString) (i : ℕ) → find_in_map h.ip_proto_map k ≡ some i → i < length h.sockets
  pub counted : h.ipv4_count + h.ipv6_count ≡ length h.sockets

-- All that was found is found, and leads to the same host.
abbrev Extends : Hosts → Hosts → Type 0
Extends h g =
    (k : CString) (i : ℕ)
    → find_in_map h.ip_proto_map k ≡ some i
    → find_in_map g.ip_proto_map k ≡ some i

abbrev Adds : Hosts → Option Hosts → Type 0
Adds h none = Unit
Adds h (some g) = AreHosts g × Extends h g

module _ (resolve : IpStruct → Option (Bool × CString)) (memory : Bool) where
  inserted_host-Adds :
      (h : Hosts) (v4 : Bool) (k : CString) (o : Inserted (HashMap ℕ))
      → AreHosts h
      → Inserts memory h.ip_proto_map k (length h.sockets) o
      → Adds h (inserted_host resolve memory h v4 o)
  unfolding inserted_host new_host
  inserted_host-Adds h v4 k (success t) a (n, m, w, f) = (
    record {
      table = w;
      leads =
          λ q i e. ground (arith, f q, a.leads q i, length-append h.sockets (init_ip v4 ∷ []), e);
      counted = ground (arith, a.counted, length-append h.sockets (init_ip v4 ∷ []));
    },
    λ q i e. ground (arith, f q, str_eq-true q k, n, e),
  )
  inserted_host-Adds h v4 k error a i = tt
  inserted_host-Adds h v4 k duplicate a i = (a, λ q j e. e)

  -- An address that is its own text is found.
  abbrev IsFound : IpStruct → Hosts → Type 0
  IsFound a g =
      (v4 : Bool)
      → resolve a ≡ some (v4, a.ip)
      → (i : ℕ) × (find_in_map g.ip_proto_map a.ip ≡ some i)

  inserted-found :
      (h : Hosts) (v4 : Bool) (k : CString) (o : Inserted (HashMap ℕ)) (g : Hosts)
      → Inserts memory h.ip_proto_map k (length h.sockets) o
      → inserted_host resolve memory h v4 o ≡ some g
      → (i : ℕ) × (find_in_map g.ip_proto_map k ≡ some i)
  unfolding inserted_host new_host
  inserted-found h v4 k (success t) g (n, m, w, f) e =
      (length h.sockets, ground (arith, f k, str_eq_refl k, e))
  inserted-found h v4 k error g i e = ground arith
  inserted-found h v4 k duplicate g (w, f) e = (w, ground arith)

  abbrev pub Added : List IpStruct → Hosts → Option Hosts → Type 0
  Added ips h none = Unit
  Added ips h (some g) = AreHosts g × Extends h g × All (λ a. IsFound a g) ips

  both :
      (a : IpStruct) (h : Hosts) (o : Option Hosts)
      → Adds h o
      → ((g : Hosts) → o ≡ some g → IsFound a g)
      → Added (a ∷ []) h o
  both a h none v f = tt
  both a h (some g) (v, e) f = (v, e, (f g refl, tt))

  resolved-Added :
      (a : IpStruct) (h : Hosts) (o : Option (Bool × CString))
      → resolve a ≡ o
      → AreHosts h
      → Added (a ∷ []) h (resolved_host resolve memory h o)
  unfolding resolved_host
  resolved-Added a h none e v = tt
  resolved-Added a h (some (v4, k)) e v =
      let o = insert_into_map memory h.ip_proto_map k (length h.sockets) in
      let i = insert_into_map-Inserts memory h.ip_proto_map k (length h.sockets) v.table in
      both a h (inserted_host resolve memory h v4 o) (inserted_host-Adds h v4 k o v i) (λ g f w r.
        let same : k ≡ a.ip = ground (arith, e, r) in
        subst (λ u. (j : ℕ) × (find_in_map g.ip_proto_map u ≡ some j)) same
          (inserted-found h v4 k o g i f))

  add_host-Added :
      (a : IpStruct) (h : Hosts) → AreHosts h → Added (a ∷ []) h (add_host resolve memory a h)
  unfolding add_host
  add_host-Added a h v = elim (Option-cases (find_in_map h.ip_proto_map a.ip)) [
    | inl e ↦
        let run : resolved_host resolve memory h (resolve a) ≡ add_host resolve memory a h =
          rw (e, add_host) in
        subst (Added (a ∷ []) h) run (resolved-Added a h (resolve a) refl v)
    | inr (i, e) ↦
        let run : some h ≡ add_host resolve memory a h = rw (e, add_host) in
        subst (Added (a ∷ []) h) run (v, λ q j f. f, (λ w r. (i, e), tt))
  ]

  All-Extends :
      (ips : List IpStruct) (h g : Hosts)
      → Extends h g
      → All (λ a. IsFound a h) ips
      → All (λ a. IsFound a g) ips
  All-Extends [] h g x k = tt
  All-Extends (a ∷ ips) h g x (f, fs) =
      (λ v4 r. let (i, e) = f v4 r in (i, x a.ip i e), All-Extends ips h g x fs)

  Added-first :
      (a : IpStruct) (ips : List IpStruct) (h g : Hosts) (o : Option Hosts)
      → Added (a ∷ []) h (some g)
      → Added ips g o
      → Added (a ∷ ips) h o
  Added-first a ips h g none v r = tt
  Added-first a ips h g (some u) (v, x, (f, fs)) (w, y, k) =
      (w, λ q i e. y q i (x q i e), ((All-Extends (a ∷ []) g u y (f, tt)).0, k))

  -- Adding addresses to hosts in order, unless it fails: the map stays well formed and leads to
  -- hosts, every host is counted as one of IPv4 or of IPv6, what was found leads where it led,
  -- and every address of the list that is its own text is found.
  pub add_hosts-Added :
      (ips : List IpStruct) (h : Hosts) → AreHosts h → Added ips h (add_hosts resolve memory ips h)
  unfolding add_hosts
  add_hosts-Added [] h v = (v, λ q i e. e, tt)
  add_hosts-Added (a ∷ ips) h v = elim (Option-cases (add_host resolve memory a h)) [
    | inl e ↦
        let run : none ≡ add_hosts resolve memory (a ∷ ips) h = rw (e, add_hosts) in
        subst (Added (a ∷ ips) h) run tt
    | inr (g, e) ↦
        let w : Added (a ∷ []) h (some g) = subst (Added (a ∷ []) h) e (add_host-Added a h v) in
        let run : add_hosts resolve memory ips g ≡ add_hosts resolve memory (a ∷ ips) h =
          rw (e, add_hosts) in
        subst (Added (a ∷ ips) h) run
          (Added-first a ips h g (add_hosts resolve memory ips g) w (add_hosts-Added ips g w.0))
  ]
