-- ===== src/Base/Chain.antt =====
-- Chains of key and value, newest first, for the hash maps that collide by chaining.
use Prim.Native.Nat.{suc}
use mathlib.Core.Path.{◌≡◌, refl}
use mathlib.Core.Logic.{◌≢◌}
use mathlib.Core.Bool.{Bool, true}
use mathlib.Core.Option.{Option, none, some}
use mathlib.Core.List.{List, [], ◌∷◌}
use native.Mathlib.Omega.{arith}
use netprog_assignments.Base.Tests.{if◌then◌else◌}
use netprog_assignments.Base.Lists.{length}
use netprog_assignments.Base.Int.{ℤ, eq_ℤ, eq_ℤ-true, eq_ℤ_refl}
use netprog_assignments.Base.Text.{CString, str_eq, str_eq-true, str_eq_refl}

-- Keys that the code compares, by `==` or by `strcmp`.
pub record Key {ℓ} (K : Type ℓ) : Type ℓ where
  pub equal : K → K → Bool
  pub equal-true : (a b : K) → equal a b ≡ true → a ≡ b
  pub equal_refl : (a : K) → equal a a ≡ true

instance abbrev pub text_key : Key CString
text_key = record { equal = str_eq; equal-true = str_eq-true; equal_refl = str_eq_refl }

instance abbrev pub int_key : Key ℤ
int_key = record { equal = eq_ℤ; equal-true = eq_ℤ-true; equal_refl = eq_ℤ_refl }

module _ {ℓ κ} {K : Type ℓ} {V : Type κ} ⦃key : Key K⦄ where
  unfoldable pub lookup : K → List (K × V) → Option V
  lookup k [] = none
  lookup k ((j, v) ∷ c) = if key.equal k j then some v else lookup k c

  unfoldable pub erase : K → List (K × V) → List (K × V)
  erase k [] = []
  erase k ((j, v) ∷ c) = if key.equal j k then c else (j, v) ∷ erase k c

  -- No key twice.
  abbrev pub IsKeyed : List (K × V) → Type κ
  IsKeyed [] = Unit
  IsKeyed ((j, v) ∷ c) = (lookup j c ≡ none) × IsKeyed c

  pub lookup-erase_self : (k : K) (c : List (K × V)) → IsKeyed c → lookup k (erase k c) ≡ none
  unfolding lookup erase
  lookup-erase_self k [] d = refl
  lookup-erase_self k ((j, v) ∷ c) d = ground (
    arith,
    lookup-erase_self k c d.1,
    key.equal-true j k,
    key.equal-true k j,
    key.equal_refl k,
    key.equal_refl j,
    d.0,
  )

  pub lookup-erase_ne : (k q : K) (c : List (K × V)) → q ≢ k → lookup q (erase k c) ≡ lookup q c
  unfolding lookup erase
  lookup-erase_ne k q [] h = refl
  lookup-erase_ne k q ((j, v) ∷ c) h =
      ground (arith, lookup-erase_ne k q c h, key.equal-true j k, key.equal-true q j)

  pub lookup-erase-none :
      (k q : K) (c : List (K × V)) → lookup q c ≡ none → lookup q (erase k c) ≡ none
  unfolding lookup erase
  lookup-erase-none k q [] h = refl
  lookup-erase-none k q ((j, v) ∷ c) h = ground (arith, lookup-erase-none k q c)

  pub erase-IsKeyed : (k : K) (c : List (K × V)) → IsKeyed c → IsKeyed (erase k c)
  unfolding lookup erase
  erase-IsKeyed k [] d = tt
  erase-IsKeyed k ((j, v) ∷ c) d =
      ground (arith, erase-IsKeyed k c d.1, lookup-erase-none k j c d.0)

  pub length-erase :
      (k : K) (c : List (K × V)) (v : V) → lookup k c ≡ some v → suc (length (erase k c)) ≡ length c
  unfolding lookup erase
  length-erase k [] v h = ground arith
  length-erase k ((j, w) ∷ c) v h = ground (
    arith,
    length-erase k c v,
    key.equal-true j k,
    key.equal-true k j,
    key.equal_refl k,
    key.equal_refl j,
  )
