-- ===== src/Rtt/HashMap.antt =====
-- assignment-2/q1/hash_map.c: a map from address texts to pointers, with chaining.
pub mod Laws
use netprog_assignments.Base.{
  ℕ, zero, suc, ◌+◌, ◌*◌, ◌%◌, ◌^◌, ◌≡◌, refl, Bool, true, false, Option, none, some, List, [], ◌∷◌,
  ◌==◌, if◌then◌else◌, length, get_or, set, replicate, CString, isalnum, lookup, text_key,
}

-- One character of djb2Hash; `hash` is an unsigned long.
abbrev pub mix : ℕ → ℕ → ℕ → ℕ
mix map_size hash c =
    (((hash * 2 ^ 5) % 2 ^ 64 % map_size + hash) % 2 ^ 64 % map_size + c) % 2 ^ 64 % map_size

pub hash_from : ℕ → ℕ → CString → ℕ
hash_from map_size hash [] = hash
hash_from map_size hash (c ∷ s) =
    hash_from map_size (if isalnum c then mix map_size hash c else hash) s

unfoldable pub djb2_hash : CString → ℕ → ℕ
unfolding hash_from
djb2_hash str map_size = hash_from map_size 5381 str % map_size

pub record Bucket {ℓ} (A : Type ℓ) : Type ℓ where
  pub head : List (CString × A)
  pub capacity : ℕ

pub record HashMap {ℓ} (A : Type ℓ) : Type ℓ where
  pub buckets : List (Bucket A)
  pub map_size : ℕ

abbrev pub empty_bucket {ℓ} : {A : Type ℓ} → Bucket A
empty_bucket = record { head = []; capacity = 0 }

pub data Inserted {ℓ} (A : Type ℓ) : Type ℓ where
  success : A → Inserted A  -- returns 0
  error : Inserted A  -- returns -1
  duplicate : Inserted A  -- returns -2

module _ {ℓ} {A : Type ℓ} where
  -- `memory` says whether every `calloc` succeeds.
  unfoldable pub init_map : Bool → ℕ → Option (HashMap A)
  init_map false n = none
  init_map true n = some (record { buckets = replicate n empty_bucket; map_size = n })

  unfoldable pub insert_into_bucket : CString → A → Bucket A → Bucket A
  insert_into_bucket ip v b = record { head = (ip, v) ∷ b.head; capacity = b.capacity + 1 }

  unfoldable pub find_in_bucket : Bucket A → CString → Option A
  find_in_bucket b to_find = if b.capacity == 0 then none else lookup to_find b.head

  unfoldable pub find_in_map : HashMap A → CString → Option A
  unfolding find_in_bucket
  find_in_map t to_find =
      find_in_bucket (get_or t.buckets (djb2_hash to_find t.map_size) empty_bucket) to_find

  insert_new : Bool → HashMap A → CString → A → Inserted (HashMap A)
  unfolding insert_into_bucket
  insert_new false t ip v = error
  insert_new true t ip v =
      let i = djb2_hash ip t.map_size in
      let b = insert_into_bucket ip v (get_or t.buckets i empty_bucket) in
      success (record t { buckets = set t.buckets i b })

  unfoldable pub insert_into_map : Bool → HashMap A → CString → A → Inserted (HashMap A)
  unfolding insert_new
  insert_into_map memory t ip v = elim (find_in_map t ip) [
    | some w ↦ duplicate
    | none ↦ insert_new memory t ip v
  ]
