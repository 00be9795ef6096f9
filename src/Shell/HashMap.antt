-- ===== src/Shell/HashMap.antt =====
-- assignment-1/q1/hash_map.c: a map from indices to pointers, with chaining.
pub mod Refinement
pub mod Histories
use netprog_assignments.Base.{
  ℕ, zero, suc, ◌+◌, ◌%◌, Bool, true, false, not, Option, none, some, List, [], ◌∷◌, ◌++◌, ◌==◌,
  if◌then◌else◌, get_elem?, set, replicate, ℤ, pos, negsuc, sub_ℕ, eq_ℤ, lookup, erase, int_key,
}
use netprog_assignments.Shell.{Run, done, exits, faults, ◌>>=◌, assert}

-- C's remainder has the sign of the key.
unfoldable pub hash : ℤ → ℕ → ℤ
hash (pos k) map_size = pos (k % map_size)
hash (negsuc k) map_size = sub_ℕ 0 (suc k % map_size)

pub record Bucket {ℓ} (A : Type ℓ) : Type ℓ where
  pub head : List (ℤ × A)
  pub capacity : ℕ

pub record HashMap {ℓ} (A : Type ℓ) : Type ℓ where
  pub buckets : List (Bucket A)
  pub map_size : ℕ

is_some {ℓ} : {A : Type ℓ} → Option A → Bool
is_some none = false
is_some (some a) = true

module _ {ℓ} {A : Type ℓ} where
  abbrev pub empty_bucket : Bucket A
  empty_bucket = record { head = []; capacity = 0 }

  -- Memory is taken to suffice, as the code does but for the array of buckets.
  unfoldable pub init_map : ℕ → HashMap A
  init_map n = record { buckets = replicate n empty_bucket; map_size = n }

  -- `map->buckets[i]`
  abbrev pub bucket_at : List (Bucket A) → ℤ → Run (Bucket A)
  bucket_at bs (pos i) = elim (get_elem? bs i) [ some b ↦ done b | none ↦ faults ]
  bucket_at bs (negsuc i) = faults

  abbrev pub set_bucket : HashMap A → ℤ → Bucket A → HashMap A
  set_bucket t (pos i) b = record t { buckets = set t.buckets i b }
  set_bucket t (negsuc i) b = t

  unfoldable pub find_in_bucket : Bucket A → ℤ → Option A
  find_in_bucket b to_find = if b.capacity == 0 then none else lookup to_find b.head

  unfoldable pub find_in_map : HashMap A → ℤ → Run (Option A)
  unfolding hash find_in_bucket
  find_in_map t to_find = do
    b ← bucket_at t.buckets (hash to_find t.map_size)
    done (find_in_bucket b to_find)

  unfoldable pub insert_into_bucket : Bucket A → ℤ → A → Bucket A
  insert_into_bucket b key v = record { head = (key, v) ∷ b.head; capacity = b.capacity + 1 }

  unfoldable pub insert_into_map : HashMap A → ℤ → A → Run (HashMap A)
  unfolding find_in_map insert_into_bucket is_some
  insert_into_map t key v = do
    found ← find_in_map t key
    _ ← assert (not (is_some found))
    b ← bucket_at t.buckets (hash key t.map_size)
    done (set_bucket t (hash key t.map_size) (insert_into_bucket b key v))

  -- The decrement of `capacity` stands after the `return`.
  unfoldable pub delete_from_bucket : Bucket A → ℤ → Run (A × Bucket A)
  delete_from_bucket b to_delete = elim (lookup to_delete b.head) [
    | none ↦ exits
    | some v ↦ done (v, record b { head = erase to_delete b.head })
  ]

  unfoldable pub delete_from_map : HashMap A → ℤ → Run (A × HashMap A)
  unfolding find_in_map delete_from_bucket is_some
  delete_from_map t to_delete = do
    found ← find_in_map t to_delete
    _ ← assert (is_some found)
    b ← bucket_at t.buckets (hash to_delete t.map_size)
    (v, c) ← delete_from_bucket b to_delete
    done (v, set_bucket t (hash to_delete t.map_size) c)

  abbrev heads : List (Bucket A) → List (ℤ × A)
  heads [] = []
  heads (b ∷ bs) = b.head ++ heads bs

  unfoldable pub get_all_map_nodes : HashMap A → List (ℤ × A)
  get_all_map_nodes t = heads t.buckets

  -- The keys of the nodes that are freed, in order.
  abbrev deallocate_map_node : List (ℤ × A) → List ℤ
  deallocate_map_node [] = []
  deallocate_map_node ((k, v) ∷ c) = deallocate_map_node c ++ (k ∷ [])

  abbrev free_head : List (ℤ × A) → Run (List ℤ)
  free_head [] = faults
  free_head (x ∷ c) = done (deallocate_map_node (x ∷ c))

  unfoldable pub deallocate_map_bucket : Bucket A → Run (List ℤ)
  deallocate_map_bucket b = if b.capacity == 0 then done [] else free_head b.head

  unfoldable pub delete_buckets : List (Bucket A) → Run (List ℤ)
  unfolding deallocate_map_bucket
  delete_buckets [] = done []
  delete_buckets (b ∷ bs) = do
    freed ← deallocate_map_bucket b
    rest ← delete_buckets bs
    done (freed ++ rest)

  unfoldable pub delete_map : HashMap A → Run (List ℤ)
  unfolding delete_buckets
  delete_map t = delete_buckets t.buckets
