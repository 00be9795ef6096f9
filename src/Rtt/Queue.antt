-- ===== src/Rtt/Queue.antt =====
-- assignment-2/q1/queue.c. The chain of elements is followed from `front` along `prev`, and a
-- null `queue *` is `none`.
use netprog_assignments.Base.{
  ℕ, zero, suc, ◌+◌, ◌-◌, ◌≡◌, refl, Bool, true, false, Option, none, some, List, [], ◌∷◌, ◌==◌,
  if◌then◌else◌, length, arith, ◌<◌,
}

pub record Queue {ℓ} (A : Type ℓ) : Type ℓ where
  pub front : List A
  pub count : ℕ

-- A result, or a read through a null pointer.
pub data Read {ℓ} (A : Type ℓ) : Type ℓ where
  returns : A → Read A
  fault : Read A

module _ {ℓ} {A : Type ℓ} where
  unfoldable pub init_queue : Bool → Option (Queue A)
  init_queue false = none
  init_queue true = some (record { front = []; count = 0 })

  front_data : List A → Read (Option A)
  front_data [] = fault
  front_data (x ∷ xs) = returns (some x)

  unfoldable pub q_front : Option (Queue A) → Read (Option A)
  unfolding front_data
  q_front none = returns none
  q_front (some q) = if q.count == 0 then returns none else front_data q.front

  pop_front : ℕ → List A → Read (Queue A)
  pop_front n [] = fault
  pop_front n (x ∷ xs) = returns (record { front = xs; count = n - 1 })

  -- `count` is not 0 where it is decremented.
  unfoldable pub q_pop : Queue A → Read (Queue A)
  unfolding pop_front
  q_pop q = if q.count == 0 then returns q else pop_front q.count q.front

  -- `memory` says whether `calloc` succeeds; `none` is the return value -1.
  unfoldable pub q_push : Bool → A → Queue A → Option (Queue A)
  q_push false x q = none
  q_push true x q = some (record { front = x ∷ q.front; count = q.count + 1 })

  -- deleteQueue's loop pops until `count` is 0; `none` means that the fuel ran out.
  unfoldable pub delete_queue : ℕ → Queue A → Option (Read (Queue A))
  unfolding q_pop
  delete_queue zero q = none
  delete_queue (suc fuel) q = elim (q.count == 0) [
    | true ↦ some (returns q)
    | false ↦ elim (q_pop q) [ returns r ↦ delete_queue fuel r | fault ↦ some fault ]
  ]

  abbrev pub IsCounted : Queue A → Type 0
  IsCounted q = q.count ≡ length q.front

  -- On a queue whose count is right, push and pop keep it right, nothing faults, and the
  -- element that comes out first is the one that went in last: the "queue" is a stack.
  pub push-pop_lifo :
      (x : A) (q : Queue A)
      → IsCounted q
      → (r : Queue A) × (q_push true x q ≡ some r)
        × IsCounted r
        × (q_front (some r) ≡ returns (some x))
        × (q_pop r ≡ returns q)
  unfolding q_push q_front q_pop
  push-pop_lifo x q h = (
    record { front = x ∷ q.front; count = q.count + 1 },
    refl,
    omega arith,
    ground arith,
    ground arith,
  )

  delete_from :
      (fuel : ℕ) (xs : List A) (n : ℕ)
      → n ≡ length xs
      → n < fuel
      → delete_queue fuel (record { front = xs; count = n })
        ≡ some (returns (record { front = []; count = 0 }))
  unfolding delete_queue
  delete_from zero xs n e h = elim h [ ]
  delete_from (suc fuel) [] n e h = ground arith
  delete_from (suc fuel) (x ∷ xs) n e h = ground (arith, delete_from fuel xs (n - 1))

  -- deleteQueue frees every element of a queue whose count is right: the loop ends, with one
  -- round more than there are elements, and dereferences no null pointer.
  pub delete_queue_empties :
      (q : Queue A)
      → IsCounted q
      → delete_queue (suc q.count) q ≡ some (returns (record { front = []; count = 0 }))
  delete_queue_empties q h = delete_from (suc q.count) q.front q.count h (omega arith)
