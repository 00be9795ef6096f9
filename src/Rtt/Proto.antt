-- ===== src/Rtt/Proto.antt =====
-- struct proto, procV4 and procV6 of assignment-2/q1/utils.c, and what the receivers of
-- assignment-2/q1/rtt.c do after an answer. An `int` division by 1000 truncates.
use netprog_assignments.Base.{
  ℕ, suc, ◌+◌, ◌-◌, ◌*◌, ◌/◌, ◌%◌, ◌^◌, ◌≤◌, ◌<◌, ◌≡◌, refl, Bool, true, false, not, List, [], ◌∷◌,
  ◌==◌, ltb, leb, ◌&&◌, if◌then◌else◌, ℤ, pos, negsuc, ◌+ℤ◌, length, get_or, set, arith, Bool-cases,
  inl, inr, ◌⊎◌, ◌↔◌, subst, sym, length-set, get_or-set_self, get_or-set_ne, ◌≢◌,
}
use netprog_assignments.Rtt.Time.{Timeval, tv_sub}

pub record Proto : Type 0 where
  pub is_v4 : Bool  -- icmpproto == IPPROTO_ICMP
  pub nsent : ℕ
  pub rtt : List ℤ  -- the array of three

-- initIp: the fields that do not hold addresses or descriptors.
unfoldable pub init_ip : Bool → Proto
init_ip is_v4 = record { is_v4 = is_v4; nsent = 0; rtt = negsuc 0 ∷ negsuc 0 ∷ negsuc 0 ∷ [] }

-- The fields of a received packet that the code reads. `ip_hl` and `ip_p` are of IPv4 only.
pub record Packet : Type 0 where
  pub ip_p : ℕ
  pub ip_hl : ℕ
  pub len : ℕ
  pub kind : ℕ  -- icmp_type
  pub id : ℕ
  pub tvsend : Timeval

pub data Processed : Type 0 where
  success : Proto → Processed  -- returns 0
  error : Processed  -- returns -1
  ignored : Proto → Processed  -- returns -2
  out_of_bounds : Processed  -- a write outside `rtt`

abbrev pub quot_1000 : ℤ → ℤ
quot_1000 (pos n) = pos (n / 1000)
quot_1000 (negsuc n) = if suc n / 1000 == 0 then pos 0 else negsuc (suc n / 1000 - 1)

abbrev pub times_1000 : ℤ → ℤ
times_1000 (pos n) = pos (1000 * n)
times_1000 (negsuc n) = negsuc (1000 * n + 999)

unfoldable pub millis : Timeval → ℤ
millis t = times_1000 t.tv_sec +ℤ quot_1000 t.tv_usec

-- `proto->rtt[proto->nsent - 1] = v`, then a return.
unfoldable pub store_rtt : (Proto → Processed) → ℤ → Proto → Processed
store_rtt return v p =
    if leb 1 p.nsent && leb p.nsent (length p.rtt)
    then return (record p { rtt = set p.rtt (p.nsent - 1) v })
    else out_of_bounds

abbrev pub icmp : ℕ
icmp = 1

abbrev pub echo_reply : ℕ
echo_reply = 0

abbrev pub echo_reply_v6 : ℕ
echo_reply_v6 = 129

-- The answer counts when it names this process and carries a time.
unfoldable pub answer : ℕ → ℕ → Packet → Proto → Timeval → Processed
unfolding store_rtt
answer pid icmp_len pk p tvrecv =
    if not (pk.id == pid % 2 ^ 16)
    then error
    else if ltb icmp_len 16
    then error
    else store_rtt success (millis (tv_sub tvrecv pk.tvsend)) p

unfoldable pub proc_v4 : ℕ → Packet → Proto → Timeval → Processed
unfolding answer
proc_v4 pid pk p tvrecv =
    let head_len = 4 * pk.ip_hl in
    if not (pk.ip_p == icmp)
    then error
    else if ltb pk.len (head_len + 8)
    then error
    else if pk.kind == echo_reply
    then answer pid (pk.len - head_len) pk p tvrecv
    else store_rtt ignored (negsuc 0) p

unfoldable pub proc_v6 : ℕ → Packet → Proto → Timeval → Processed
unfolding answer
proc_v6 pid pk p tvrecv =
    if ltb pk.len 8
    then error
    else if pk.kind == echo_reply_v6
    then answer pid pk.len pk p tvrecv
    else store_rtt ignored (negsuc 0) p

-- `fproc`
unfoldable pub fproc : ℕ → Packet → Proto → Timeval → Processed
unfolding proc_v4 proc_v6
fproc pid pk p tvrecv = if p.is_v4 then proc_v4 pid pk p tvrecv else proc_v6 pid pk p tvrecv

-- `p` is `q` but for the slot of the last request.
abbrev pub UpToLast : Proto → Proto → Type 0
UpToLast p q =
    (q.nsent ≡ p.nsent)
    × (q.is_v4 ≡ p.is_v4)
    × (length q.rtt ≡ length p.rtt)
    × ((i : ℕ) → i ≢ p.nsent - 1 → get_or q.rtt i (pos 0) ≡ get_or p.rtt i (pos 0))

-- What is asked of a packet of each family: a whole header; to be an echo reply; to be an answer to
-- this process that holds the time of its request.
abbrev pub IsWhole : Bool → Packet → Type 0
IsWhole true pk = (pk.ip_p ≡ icmp) × (4 * pk.ip_hl + 8 ≤ pk.len)
IsWhole false pk = 8 ≤ pk.len

abbrev pub IsEcho : Bool → Packet → Type 0
IsEcho true pk = pk.kind ≡ 0
IsEcho false pk = pk.kind ≡ 129

abbrev pub IsOurs : Bool → ℕ → Packet → Type 0
IsOurs true pid pk = (pk.id ≡ pid % 65536) × (4 * pk.ip_hl + 16 ≤ pk.len)
IsOurs false pid pk = (pk.id ≡ pid % 65536) × (16 ≤ pk.len)

-- The write that is out of bounds.
abbrev pub IsOutside : Proto → Type 0
IsOutside p = (p.nsent ≡ 0) ⊎ (length p.rtt < p.nsent)

abbrev pub Answered : ℕ → Timeval → Packet → Proto → Processed → Type 0
Answered pid tvrecv pk p (success q) =
    IsWhole p.is_v4 pk
    × IsEcho p.is_v4 pk
    × IsOurs p.is_v4 pid pk
    × UpToLast p q
    × (get_or q.rtt (p.nsent - 1) (pos 0) ≡ millis (tv_sub tvrecv pk.tvsend))
Answered pid tvrecv pk p error =
    (¬ IsWhole p.is_v4 pk) ⊎ (IsEcho p.is_v4 pk × (¬ IsOurs p.is_v4 pid pk))
Answered pid tvrecv pk p (ignored q) =
    IsWhole p.is_v4 pk
    × (¬ IsEcho p.is_v4 pk)
    × UpToLast p q
    × (get_or q.rtt (p.nsent - 1) (pos 0) ≡ negsuc 0)
Answered pid tvrecv pk p out_of_bounds =
    IsWhole p.is_v4 pk × ((¬ IsEcho p.is_v4 pk) ⊎ IsOurs p.is_v4 pid pk) × IsOutside p

stored-UpTo :
    (v : ℤ) (p : Proto)
    → (leb 1 p.nsent && leb p.nsent (length p.rtt)) ≡ true
    → UpToLast p (record p { rtt = set p.rtt (p.nsent - 1) v })
      × (get_or (set p.rtt (p.nsent - 1) v) (p.nsent - 1) (pos 0) ≡ v)
stored-UpTo v p h = (
  (
    refl,
    refl,
    length-set p.rtt (p.nsent - 1) v,
    λ i k. get_or-set_ne p.rtt (p.nsent - 1) i v (pos 0) (λ e. k (sym e)),
  ),
  get_or-set_self p.rtt (p.nsent - 1) v (pos 0) (ground arith),
)

store_success :
    (pid : ℕ) (tv : Timeval) (pk : Packet) (p : Proto)
    → IsWhole p.is_v4 pk
    → IsEcho p.is_v4 pk
    → IsOurs p.is_v4 pid pk
    → Answered pid tv pk p (store_rtt success (millis (tv_sub tv pk.tvsend)) p)
unfolding store_rtt
store_success pid tv pk p w e o = elim (Bool-cases (leb 1 p.nsent && leb p.nsent (length p.rtt))) [
  | inl f ↦ let (u, v) = stored-UpTo (millis (tv_sub tv pk.tvsend)) p f in rw f (w, e, o, u, v)
  | inr f ↦ rw f (w, inr o, ground (arith, f))
]

store_ignored :
    (pid : ℕ) (tv : Timeval) (pk : Packet) (p : Proto)
    → IsWhole p.is_v4 pk
    → ¬ IsEcho p.is_v4 pk
    → Answered pid tv pk p (store_rtt ignored (negsuc 0) p)
unfolding store_rtt
store_ignored pid tv pk p w e = elim (Bool-cases (leb 1 p.nsent && leb p.nsent (length p.rtt))) [
  | inl f ↦ let (u, v) = stored-UpTo (negsuc 0) p f in rw f (w, e, u, v)
  | inr f ↦ rw f (w, inl e, ground (arith, f))
]

-- `n` bytes of the packet are behind its header.
answer-Answered :
    (pid n : ℕ) (pk : Packet) (p : Proto) (tv : Timeval)
    → IsWhole p.is_v4 pk
    → IsEcho p.is_v4 pk
    → ((pk.id ≡ pid % 65536) × (16 ≤ n)) ↔ IsOurs p.is_v4 pid pk
    → Answered pid tv pk p (answer pid n pk p tv)
unfolding answer
answer-Answered pid n pk p tv w e o = elim (Bool-cases (pk.id == pid % 2 ^ 16)) [
  | inl i ↦ elim (Bool-cases (ltb n 16)) [
    | inl l ↦ rw (i, l) (inr (e, λ h. ground (arith, l, (o.1 h).1)))
    | inr l ↦ rw (i, l) (store_success pid tv pk p w e (o.0 (ground (arith, i), ground (arith, l))))
  ]
  | inr i ↦ rw i (inr (e, λ h. ground (arith, i, (o.1 h).0)))
]

proc_v4-Answered :
    (pid : ℕ) (pk : Packet) (p : Proto) (tv : Timeval)
    → p.is_v4 ≡ true
    → Answered pid tv pk p (proc_v4 pid pk p tv)
unfolding proc_v4
proc_v4-Answered pid pk p tv v = elim (Bool-cases (pk.ip_p == icmp)) [
  | inr c ↦ rw c (inl (subst (λ b. ¬ IsWhole b pk) (sym v) (λ w. ground (arith, c, w.0))))
  | inl c ↦ elim (Bool-cases (ltb pk.len (4 * pk.ip_hl + 8))) [
    | inl l ↦ rw (c, l) (inl (subst (λ b. ¬ IsWhole b pk) (sym v) (λ w. ground (arith, l, w.1))))
    | inr l ↦
        let whole : IsWhole true pk = (ground (arith, c), ground (arith, l)) in
        let w : IsWhole p.is_v4 pk = subst (λ b. IsWhole b pk) (sym v) whole in
        elim (Bool-cases (pk.kind == echo_reply)) [
          | inl k ↦
              let echo : IsEcho true pk = ground (arith, k) in
              rw (c, l, k)
                (answer-Answered pid (pk.len - 4 * pk.ip_hl) pk p tv w
                  (subst (λ b. IsEcho b pk) (sym v) echo)
                  (subst
                    (λ b. ((pk.id ≡ pid % 65536) × (16 ≤ pk.len - 4 * pk.ip_hl)) ↔ IsOurs b pid pk)
                    (sym v)
                    (
                      λ h. (h.0, omega (arith, h.1, whole.1)),
                      λ h. (h.0, omega (arith, h.1, whole.1)),
                    )))
          | inr k ↦
              rw (c, l, k)
                (store_ignored pid tv pk p w
                  (subst (λ b. ¬ IsEcho b pk) (sym v) (λ h. ground (arith, k, h))))
        ]
  ]
]

proc_v6-Answered :
    (pid : ℕ) (pk : Packet) (p : Proto) (tv : Timeval)
    → p.is_v4 ≡ false
    → Answered pid tv pk p (proc_v6 pid pk p tv)
unfolding proc_v6
proc_v6-Answered pid pk p tv v = elim (Bool-cases (ltb pk.len 8)) [
  | inl l ↦ rw l (inl (subst (λ b. ¬ IsWhole b pk) (sym v) (λ w. ground (arith, l, w))))
  | inr l ↦
      let whole : IsWhole false pk = ground (arith, l) in
      let w : IsWhole p.is_v4 pk = subst (λ b. IsWhole b pk) (sym v) whole in
      elim (Bool-cases (pk.kind == echo_reply_v6)) [
        | inl k ↦
            let echo : IsEcho false pk = ground (arith, k) in
            rw (l, k)
              (answer-Answered pid pk.len pk p tv w (subst (λ b. IsEcho b pk) (sym v) echo) (
                subst (λ b. ((pk.id ≡ pid % 65536) × (16 ≤ pk.len)) ↔ IsOurs b pid pk) (sym v)
                  (λ h. h, λ h. h)))
        | inr k ↦
            rw (l, k)
              (store_ignored pid tv pk p w
                (subst (λ b. ¬ IsEcho b pk) (sym v) (λ h. ground (arith, k, h))))
      ]
]

-- A packet is an error exactly when its header is not whole or is of another protocol, or it is an
-- echo reply to another process or without the time of the request. After an echo reply to this
-- process the slot of the last request holds the round trip time, after any other packet -1, and the
-- other slots and the count stand; the write is out of bounds only for a host to which no request,
-- or more than the array's length, was counted.
pub fproc-Answered :
    (pid : ℕ) (pk : Packet) (p : Proto) (tv : Timeval) → Answered pid tv pk p (fproc pid pk p tv)
unfolding fproc
fproc-Answered pid pk p tv = elim (Bool-cases p.is_v4) [
  | inl v ↦
      subst (λ b. Answered pid tv pk p (if b then proc_v4 pid pk p tv else proc_v6 pid pk p tv))
        (sym v) (proc_v4-Answered pid pk p tv v)
  | inr v ↦
      subst (λ b. Answered pid tv pk p (if b then proc_v4 pid pk p tv else proc_v6 pid pk p tv))
        (sym v) (proc_v6-Answered pid pk p tv v)
]

-- What a receiver does with the host after the packet.
pub data After : Type 0 where
  push : Proto → After  -- the next request is queued
  finished : Proto → After  -- one host less to wait for
  nothing : Proto → After

unfoldable pub after_reply : Proto → After
after_reply p =
    if ltb p.nsent 3
    then push p
    else if p.nsent == 3
    then finished (record p { nsent = p.nsent + 1 })
    else nothing p

-- A host that is finished has four counted requests: the next echo reply of its that carries
-- this process's identifier and enough data writes past the array of three.
pub finished-overflow :
    (pid : ℕ) (pk : Packet) (p q : Proto) (tv : Timeval)
    → length p.rtt ≡ 3
    → after_reply p ≡ finished q
    → q.is_v4 ≡ false
    → 16 ≤ pk.len
    → pk.kind ≡ echo_reply_v6
    → pk.id ≡ pid % 2 ^ 16
    → fproc pid pk q tv ≡ out_of_bounds
unfolding after_reply fproc proc_v6 answer store_rtt
finished-overflow pid pk p q tv w h v long k i = ground arith
