-- ===== src/Shell/HashMap/Refinement.antt =====
-- hash_map.c of assignment-1/q1 as a function from indices to pointers.
use Prim.Native.Nat.{◌<◌}
use mathlib.Core.Path.{fun_ext}
use netprog_assignments.Base.{
  ℕ, zero, suc, ◌%◌, ◌-◌, Bool, true, leb, ℤ, negsuc, eq_ℤ, eq_ℤ_refl, ◌≡◌, ◌≢◌, refl, false,
  Option, none, some, List, [], ◌∷◌, ◌==◌, if◌then◌else◌, length, get_or, get_elem?, set, pos,
  lookup, erase, int_key, IsKeyed, erase-IsKeyed, lookup-erase_self, lookup-erase_ne, length-set,
  get_or-set_self, get_or-set_ne, arith, inl, inr, Bool-cases, ap, eq_ℤ-true,
}
use netprog_assignments.Shell.{Run, done, exits, faults}
use netprog_assignments.Shell.HashMap.{
  hash, Bucket, HashMap, empty_bucket, bucket_at, set_bucket, find_in_bucket, find_in_map,
  insert_into_bucket, insert_into_map, delete_from_bucket, delete_from_map,
}

-- Where C's remainder puts a key that it does not take below the table.
abbrev pub slot : ℤ → ℕ → ℕ
slot (pos k) map_size = k % map_size
slot (negsuc k) map_size = 0

-- A key below 0 leads into the table only when the size divides it.
abbrev pub is_inside : ℕ → ℤ → Bool
is_inside map_size (pos k) = true
is_inside map_size (negsuc k) = suc k % map_size == 0

slot_lem : (k : ℤ) (n : ℕ) → 0 < n → slot k n < n
slot_lem (pos k) n h = omega arith
slot_lem (negsuc k) n h = h

hash-slot : (k : ℤ) (n : ℕ) → is_inside n k ≡ true → hash k n ≡ pos (slot k n)
unfolding hash
hash-slot (pos k) n h = refl
hash-slot (negsuc k) n h = let e : suc k % n ≡ 0 = ground (arith, h) in rw e refl

hash_below : (k : ℤ) (n : ℕ) → is_inside n k ≡ false → (j : ℕ) × (hash k n ≡ negsuc j)
unfolding hash
hash_below (pos k) n h = absurd (ground (arith, h))
hash_below (negsuc k) n h =
    let e : leb (suc k % n) 0 ≡ false = ground (arith, h) in (suc k % n - 0 - 1, rw e refl)

apart_keys : (a b : ℤ) → a ≢ b → eq_ℤ a b ≡ false
apart_keys a b h = elim (Bool-cases (eq_ℤ a b)) [ inl e ↦ absurd (h (eq_ℤ-true a b e)) | inr e ↦ e ]

get_elem?-get_or {ℓ} :
    {A : Type ℓ} (xs : List A) (i : ℕ) (d : A)
    → i < length xs
    → get_elem? xs i ≡ some (get_or xs i d)
get_elem?-get_or [] i d h = ground arith
get_elem?-get_or (x ∷ xs) zero d h = refl
get_elem?-get_or (x ∷ xs) (suc i) d h = get_elem?-get_or xs i d (omega arith)

module _ {ℓ} {A : Type ℓ} where
  -- A bucket that counts no node has none, and no index is there twice.
  pub record IsBucket (b : Bucket A) : Type ℓ where
    pub empty : b.capacity ≡ 0 → b.head ≡ []
    pub keyed : IsKeyed b.head

  pub record IsTable (t : HashMap A) : Type ℓ where
    pub width : length t.buckets ≡ t.map_size
    pub some_bucket : 0 < t.map_size
    pub each : (i : ℕ) → IsBucket (get_or t.buckets i empty_bucket)

  abbrev pub bucket_of : HashMap A → ℤ → Bucket A
  bucket_of t k = get_or t.buckets (slot k t.map_size) empty_bucket

  -- The abstract map.
  abbrev pub view : HashMap A → ℤ → Option A
  view t k = lookup (k) (bucket_of t k).head

  abbrev pub update : (ℤ → Option A) → ℤ → Option A → ℤ → Option A
  update f k w q = if eq_ℤ q k then w else f q

  -- What `insert_into_map` and `delete_from_map` promise of it.
  abbrev pub inserted : (ℤ → Option A) → ℤ → A → Run (ℤ → Option A)
  inserted f k x = elim (f k) [ some w ↦ exits | none ↦ done (update f k (some x)) ]

  abbrev pub deleted : (ℤ → Option A) → ℤ → Run (A × (ℤ → Option A))
  deleted f k = elim (f k) [ some w ↦ done (w, update f k none) | none ↦ exits ]

  found :
      (b : Bucket A) (k : ℤ)
      → (b.capacity ≡ 0 → b.head ≡ [])
      → (if b.capacity == 0 then none else lookup (k) b.head) ≡ lookup (k) b.head
  unfolding lookup
  found b k h = elim (Bool-cases (b.capacity == 0)) [
    | inl e ↦ rw (e, h (ground arith))
    | inr e ↦ rw e
  ]

  -- With a key that C's remainder puts below the table, every call reads outside it.
  module _ (t : HashMap A) (k : ℤ) (below : is_inside t.map_size k ≡ false) where
    pub find_outside : find_in_map t k ≡ faults
    unfolding find_in_map
    find_outside = rw (hash_below k t.map_size below).1

    pub insert_outside : (x : A) → insert_into_map t k x ≡ faults
    unfolding insert_into_map
    insert_outside x = rw find_outside

    pub delete_outside : delete_from_map t k ≡ faults
    unfolding delete_from_map
    delete_outside = rw find_outside

  module _ (t : HashMap A) (k : ℤ) (inside : is_inside t.map_size k ≡ true) (v : IsTable t) where
    in_range : slot k t.map_size < length t.buckets
    in_range = omega (arith, slot_lem k t.map_size v.some_bucket, v.width)

    at_hash : bucket_at t.buckets (hash (k) t.map_size) ≡ done (bucket_of t k)
    at_hash = rw (
      hash-slot k t.map_size inside,
      bucket_at,
      get_elem?-get_or t.buckets (slot k t.map_size) empty_bucket in_range,
    )

    abbrev pub replaced : Bucket A → HashMap A
    replaced b = record t { buckets = set t.buckets (slot k t.map_size) b }

    at_set : (b : Bucket A) → set_bucket t (hash (k) t.map_size) b ≡ replaced b
    at_set b = rw (hash-slot k t.map_size inside) refl

    pub replaced-IsTable : (b : Bucket A) → IsBucket b → IsTable (replaced b)
    replaced-IsTable b w = record {
      width = ground (arith, length-set t.buckets (slot k t.map_size) b, v.width);
      some_bucket = v.some_bucket;
      each = λ i. elim (Bool-cases (i == slot k t.map_size)) [
        | inl e ↦
            let same : i ≡ slot k t.map_size = ground arith in
            rw (same, get_or-set_self t.buckets (slot k t.map_size) b empty_bucket in_range) w
        | inr e ↦
            rw (get_or-set_ne t.buckets (slot k t.map_size) i b empty_bucket (ground arith))
              (v.each i)
      ];
    }

    view-replaced :
        (b : Bucket A) (w : Option A)
        → lookup (k) b.head ≡ w
        → ((q : ℤ) → q ≢ k → lookup q b.head ≡ lookup q (bucket_of t k).head)
        → view (replaced b) ≡ update (view t) k w
    view-replaced b w h other = fun_ext (λ q.
        elim (Bool-cases (slot q t.map_size == slot k t.map_size)) [
          | inl e ↦
              let same : slot q t.map_size ≡ slot k t.map_size = ground arith in
              rw (same, get_or-set_self t.buckets (slot k t.map_size) b empty_bucket in_range)
                (elim (Bool-cases (eq_ℤ q k)) [
                  | inl f ↦ let here = eq_ℤ-true q k f in rw (f, here) h
                  | inr f ↦ rw f (other q (λ p. ground (arith, f, p, eq_ℤ_refl k)))
                ])
          | inr e ↦
              let apart : eq_ℤ q k ≡ false = apart_keys q k (λ p. ground (arith, e, p)) in
              rw (
                get_or-set_ne t.buckets (slot k t.map_size) (slot q t.map_size) b empty_bucket
                    (ground arith),
                apart,
              )
        ])

    pub find-view : find_in_map t (k) ≡ done (view t k)
    unfolding find_in_map find_in_bucket
    find-view = rw at_hash (ap done (found (bucket_of t k) k (v.each (slot k t.map_size)).empty))

    pub inserted-IsBucket :
        (x : A) → view t k ≡ none → IsBucket (insert_into_bucket (bucket_of t k) (k) x)
    unfolding insert_into_bucket
    inserted-IsBucket x h = record {
      empty = λ z. ground (arith, z);
      keyed = (h, (v.each (slot k t.map_size)).keyed);
    }

    pub view-inserted :
        (x : A)
        → view (replaced (insert_into_bucket (bucket_of t k) (k) x)) ≡ update (view t) k (some x)
    unfolding insert_into_bucket lookup
    view-inserted x =
        view-replaced (insert_into_bucket (bucket_of t k) (k) x) (some x) (ground arith)
          (λ q h. ground (arith, h, eq_ℤ-true q (k)))

    pub insert-absent :
        (x : A)
        → view t k ≡ none
        → insert_into_map t (k) x ≡ done (replaced (insert_into_bucket (bucket_of t k) (k) x))
    unfolding insert_into_map
    insert-absent x h =
        rw (find-view, h, at_hash) (ap done (at_set (insert_into_bucket (bucket_of t k) (k) x)))

    pub insert-present : (x w : A) → view t k ≡ some w → insert_into_map t (k) x ≡ exits
    unfolding insert_into_map
    insert-present x w h = rw (find-view, h)

    abbrev pub erased_bucket : Bucket A
    erased_bucket = let b = bucket_of t k in record b { head = erase (k) b.head }

    pub erased_bucket-IsBucket : IsBucket erased_bucket
    unfolding erase
    erased_bucket-IsBucket =
        let w = v.each (slot k t.map_size) in
        record {
          empty = λ z. ap (erase (k)) (w.empty z);
          keyed = erase-IsKeyed (k) (bucket_of t k).head w.keyed;
        }

    pub view-erased : view (replaced erased_bucket) ≡ update (view t) k none
    view-erased =
        let c = (bucket_of t k).head in
        view-replaced erased_bucket none
          (lookup-erase_self (k) c (v.each (slot k t.map_size)).keyed)
          (λ q h. lookup-erase_ne (k) q c h)

    pub delete-present :
        (w : A) → view t k ≡ some w → delete_from_map t (k) ≡ done (w, replaced erased_bucket)
    unfolding delete_from_map delete_from_bucket
    delete-present w h =
        rw (find-view, h, at_hash, delete_from_bucket, h)
          (ap (λ s. done (w, s)) (at_set erased_bucket))

    pub delete-absent : view t k ≡ none → delete_from_map t (k) ≡ exits
    unfolding delete_from_map
    delete-absent h = rw (find-view, h)
