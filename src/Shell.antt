-- ===== src/Shell.antt =====
-- assignment-1/q1: what the parts of the shell share.
pub mod HashMap
pub mod Command
pub mod Pipe
pub mod Execute
pub mod Descriptors
pub mod Session
mod Tests
use netprog_assignments.Base.{Bool, true, false}

-- A call comes back, or an `assert` of utils.c ends the process, or it does what C leaves
-- undefined: a null or stray pointer, an index out of bounds, a string too long for its array.
pub data Run {ℓ} (A : Type ℓ) : Type ℓ where
  done : A → Run A
  exits : Run A
  faults : Run A

infixl 5 ◌>>=◌
abbrev pub ◌>>=◌ {ℓ κ} : {A : Type ℓ} {B : Type κ} → Run A → (A → Run B) → Run B
done a >>= f = f a
exits >>= f = exits
faults >>= f = faults

-- `assert` of utils.c
abbrev pub assert : Bool → Run {0} Unit
assert true = done tt
assert false = exits

-- The call does not fault, and what it comes back with has the property.
abbrev pub Ends {ℓ} : {A : Type ℓ} → (A → Type 0) → Run A → Type 0
Ends P (done a) = P a
Ends P exits = Unit
Ends P faults = ⊥

pub bind-Ends {ℓ κ} :
    {A : Type ℓ} {B : Type κ} (P : A → Type 0) (Q : B → Type 0) (r : Run A) (f : A → Run B)
    → Ends P r
    → ((a : A) → P a → Ends Q (f a))
    → Ends Q (r >>= f)
bind-Ends P Q (done a) f h k = k a h
bind-Ends P Q exits f h k = tt
bind-Ends P Q faults f h k = elim h [ ]
