-- ===== src/Base/Bytes.antt =====
-- Arrays of bytes, read as C strings.
use Prim.Native.Nat.{ℕ, zero, suc, ◌≤◌}
use mathlib.Core.Path.{◌≡◌, refl, ap}
use mathlib.Core.Logic.{◌≢◌}
use mathlib.Core.List.{List, [], ◌∷◌, ◌++◌}
use native.Mathlib.Omega.{arith}
use netprog_assignments.Base.Tests.{◌==◌, if◌then◌else◌}
use netprog_assignments.Base.Lists.{length, take, drop, All}

-- What `strlen`, `strcpy` and `printf` see of an array with a zero behind it.
abbrev pub before_null : List ℕ → List ℕ
before_null [] = []
before_null (c ∷ s) = if c == 0 then [] else c ∷ before_null s

abbrev pub NoNull : List ℕ → Type 0
NoNull = All (λ c. c ≢ 0)

pub before_null_whole : (xs : List ℕ) → NoNull xs → before_null xs ≡ xs
before_null_whole [] h = refl
before_null_whole (x ∷ xs) (h, hs) = ground (arith, before_null_whole xs hs)

-- Up to a null.
pub before_null-append : (xs ys : List ℕ) → NoNull xs → before_null (xs ++ 0 ∷ ys) ≡ xs
before_null-append [] ys h = refl
before_null-append (x ∷ xs) ys (h, hs) = ground (arith, before_null-append xs ys hs)

module _ {ℓ} {A : Type ℓ} where
  pub take_whole : (n : ℕ) (xs : List A) → length xs ≤ n → take n xs ≡ xs
  take_whole zero [] h = refl
  take_whole zero (x ∷ xs) h = elim h [ ]
  take_whole (suc n) [] h = refl
  take_whole (suc n) (x ∷ xs) h = ap (λ r. x ∷ r) (take_whole n xs (omega arith))

  pub drop_whole : (n : ℕ) (xs : List A) → length xs ≤ n → drop n xs ≡ []
  drop_whole zero [] h = refl
  drop_whole zero (x ∷ xs) h = elim h [ ]
  drop_whole (suc n) [] h = refl
  drop_whole (suc n) (x ∷ xs) h = drop_whole n xs (omega arith)

  pub append_nil : (xs : List A) → xs ++ [] ≡ xs
  append_nil [] = refl
  append_nil (x ∷ xs) = ap (λ r. x ∷ r) (append_nil xs)
