-- ===== src/Mail/Messages/Reading.antt =====
-- The reading loop of client.c takes the messages of its type, in order, and no other.
use netprog_assignments.Base.{
  ℕ, zero, suc, ◌<◌, ◌≡◌, refl, ap, sym, true, false, Option, none, some, List, [], ◌∷◌,
  if◌then◌else◌, length, ℤ, eq_ℤ, Bool-cases, inl, inr, subst, arith,
}
use netprog_assignments.Mail.Messages.{Message, pass, msgrcv, message_rcv_loop, print_read}

abbrev pub of_type : ℤ → List Message → List Message
of_type type [] = []
of_type type (m ∷ q) = let rest = of_type type q in if eq_ℤ m.mtype type then m ∷ rest else rest

abbrev pub others : ℤ → List Message → List Message
others type [] = []
others type (m ∷ q) = let rest = others type q in if eq_ℤ m.mtype type then rest else m ∷ rest

abbrev IsFirst : ℤ → List Message → Option (Message × List Message) → Type 0
IsFirst type q none = (of_type type q ≡ []) × (others type q ≡ q)
IsFirst type q (some (m, r)) =
    (of_type type q ≡ m ∷ of_type type r)
    × (others type q ≡ others type r)
    × (length q ≡ suc (length r))

pass-IsFirst :
    (type : ℤ) (m : Message) (q : List Message) (o : Option (Message × List Message))
    → eq_ℤ m.mtype type ≡ false
    → IsFirst type q o
    → IsFirst type (m ∷ q) (pass m o)
pass-IsFirst type m q none e (h, k) = rw e (h, ap (λ r. m ∷ r) k)
pass-IsFirst type m q (some (p, r)) e (h, k, l) = rw e (h, ap (λ r. m ∷ r) k, ap suc l)

taken-IsFirst :
    (type : ℤ) (m : Message) (q : List Message)
    → eq_ℤ m.mtype type ≡ true
    → IsFirst type (m ∷ q) (some (m, q))
taken-IsFirst type m q e = rw e (refl, refl, refl)

msgrcv-IsFirst : (type : ℤ) (q : List Message) → IsFirst type q (msgrcv type q)
unfolding msgrcv
msgrcv-IsFirst type [] = (refl, refl)
msgrcv-IsFirst type (m ∷ q) =
    let passed = pass m (msgrcv type q) in
    elim (Bool-cases (eq_ℤ m.mtype type)) [
      | inl e ↦
          subst (λ b. IsFirst type (m ∷ q) (if b then some (m, q) else passed)) (sym e)
            (taken-IsFirst type m q e)
      | inr e ↦
          subst (λ b. IsFirst type (m ∷ q) (if b then some (m, q) else passed)) (sym e)
            (pass-IsFirst type m q (msgrcv type q) e (msgrcv-IsFirst type q))
    ]

abbrev Parted : Type 0
Parted = List Message × List Message

abbrev parted : ℤ → List Message → Parted
parted type q = (of_type type q, others type q)

print_read-parted :
    (fuel : ℕ) (type : ℤ) (q : List Message) (o : Option (Message × List Message))
    (next : List Message → Option Parted)
    → length q < suc fuel
    → IsFirst type q o
    → ((r : List Message) → length r < fuel → next r ≡ some (parted type r))
    → print_read o q next ≡ some (parted type q)
print_read-parted fuel type q none next l (e, k) h = rw (e, k) refl
print_read-parted fuel type q (some (m, r)) next l (e, k, s) h =
    rw (e, k, h r (omega (arith, l, s))) refl

-- On fuel above the length of the queue the loop comes to its wait, having printed the messages
-- of its type in their order, and the queue has the other messages in theirs.
pub message_rcv_loop-of_type :
    (fuel : ℕ) (type : ℤ) (q : List Message)
    → length q < fuel
    → message_rcv_loop fuel type q ≡ some (of_type type q, others type q)
unfolding message_rcv_loop
message_rcv_loop-of_type zero type q h = ground arith
message_rcv_loop-of_type (suc fuel) type q h =
    print_read-parted fuel type q (msgrcv type q) (λ r. message_rcv_loop fuel type r) h
      (msgrcv-IsFirst type q) (λ r l. message_rcv_loop-of_type fuel type r l)
