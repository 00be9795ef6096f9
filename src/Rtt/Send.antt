-- ===== src/Rtt/Send.antt =====
-- sendV4, sendV6 and one turn of sendHelper: assignment-2/q1/utils.c and assignment-2/q1/rtt.c.
use netprog_assignments.Base.{
  ℕ, zero, suc, ◌+◌, ◌-◌, ◌≤◌, ◌<◌, ◌≡◌, refl, Bool, true, false, Option, none, some, ◌==◌, leb,
  arith, Bool-cases, inl, inr, subst, ◌⊎◌,
}
use netprog_assignments.Rtt.Proto.{Proto}

-- What `sendto` may answer: -1, or how many bytes it took.
pub data Sendto : Type 0 where
  failed : Sendto
  took : ℕ → Sendto

-- The sending loop, given what the i-th call answers for `len` bytes at `offset`. The result is
-- the return value, and the offset reached; `none` means that the fuel ran out.
unfoldable pub send_loop : ℕ → (ℕ → ℕ → ℕ → Sendto) → ℕ → ℕ → ℕ → Option (Bool × ℕ)
send_loop zero sendto i len offset = none
send_loop (suc fuel) sendto i len offset = elim (len == 0) [
  | true ↦ some (true, offset)
  | false ↦ elim (sendto i len offset) [
    | failed ↦ some (false, offset)
    | took n ↦ elim (leb len n) [
      | true ↦ some (true, offset + n)
      | false ↦ send_loop fuel sendto (suc i) (len - n) (offset + n)
    ]
  ]
]

abbrev pub packet_len : ℕ
packet_len = 8 + 56

-- sendV4 and sendV6 count the request first, whether or not it can be sent.
unfoldable pub fsend : ℕ → (ℕ → ℕ → ℕ → Sendto) → Proto → Proto × Option (Bool × ℕ)
unfolding send_loop
fsend fuel sendto p = (record p { nsent = p.nsent + 1 }, send_loop fuel sendto 0 packet_len 0)

-- `sendto` takes from one byte to all that it is given, or fails.
abbrev pub IsSendto : (ℕ → ℕ → ℕ → Sendto) → Type 0
IsSendto sendto =
    (i len offset n : ℕ) → 0 < len → sendto i len offset ≡ took n → (0 < n) × (n ≤ len)

abbrev pub IsSent : ℕ → ℕ → Option (Bool × ℕ) → Type 0
IsSent len offset none = ⊥
IsSent len offset (some (true, end)) = end ≡ offset + len
IsSent len offset (some (false, end)) = end < offset + len

Sendto-cases : (s : Sendto) → (s ≡ failed) ⊎ ((n : ℕ) × (s ≡ took n))
Sendto-cases failed = inl refl
Sendto-cases (took n) = inr (n, refl)

send_more :
    (n offset len : ℕ) (r : Option (Bool × ℕ))
    → n < len
    → IsSent (len - n) (offset + n) r
    → IsSent len offset r
send_more n offset len none h k = k
send_more n offset len (some (true, end)) h k = omega arith
send_more n offset len (some (false, end)) h k = omega arith

-- The loop ends within one call per byte, and sends the whole packet unless a call fails.
pub send_loop-IsSent :
    (fuel : ℕ) (sendto : ℕ → ℕ → ℕ → Sendto) (i len offset : ℕ)
    → IsSendto sendto
    → len < fuel
    → IsSent len offset (send_loop fuel sendto i len offset)
unfolding send_loop
send_loop-IsSent zero sendto i len offset s h = elim h [ ]
send_loop-IsSent (suc fuel) sendto i len offset s h = elim (Bool-cases (len == 0)) [
  | inl e ↦
      let run : some (true, offset) ≡ send_loop (suc fuel) sendto i len offset =
        rw (e, send_loop) in
      subst (IsSent len offset) run (ground arith)
  | inr e ↦ elim (Sendto-cases (sendto i len offset)) [
    | inl f ↦
        let run : some (false, offset) ≡ send_loop (suc fuel) sendto i len offset =
          rw (e, f, send_loop) in
        subst (IsSent len offset) run (ground arith)
    | inr (n, f) ↦
        let positive : 0 < len = ground arith in
        elim (Bool-cases (leb len n)) [
          | inl g ↦
              let run : some (true, offset + n) ≡ send_loop (suc fuel) sendto i len offset =
                rw (e, f, g, send_loop) in
              subst (IsSent len offset) run (ground (arith, s i len offset n positive f))
          | inr g ↦
              let run : send_loop fuel sendto (suc i) (len - n) (offset + n)
                  ≡ send_loop (suc fuel) sendto i len offset =
                rw (e, f, g, send_loop) in
              let less : n < len = ground arith in
              let some_bytes = (s i len offset n positive f).0 in
              subst (IsSent len offset) run (
                send_more n offset len (send_loop fuel sendto (suc i) (len - n) (offset + n)) less
                  (send_loop-IsSent fuel sendto (suc i) (len - n) (offset + n) s (omega arith)))
        ]
  ]
]
