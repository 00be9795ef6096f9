-- ===== src/Rtt/HashMap/Laws.antt =====
-- hash_map.c as a function from texts to pointers.
use netprog_assignments.Base.{
  ℕ, ◌<◌, ◌≡◌, refl, Bool, true, false, none, some, List, [], ◌∷◌, ◌==◌, if◌then◌else◌, length,
  get_or, set, replicate, CString, lookup, text_key, str_eq, str_eq-true, length-set,
  get_or-set_self, get_or-set_ne, get_or-replicate, length-replicate, arith, inl, inr, Bool-cases,
  Option-cases, subst,
}
use netprog_assignments.Rtt.HashMap.{
  djb2_hash, Bucket, HashMap, empty_bucket, init_map, insert_into_bucket, find_in_map, Inserted,
  success, error, duplicate, insert_into_map, insert_new,
}

pub djb2_hash-lt : (s : CString) (n : ℕ) → 0 < n → djb2_hash s n < n
unfolding djb2_hash
djb2_hash-lt s n h = omega arith

module _ {ℓ} {A : Type ℓ} where
  -- The table has `map_size` buckets, at least one, and each counts its nodes.
  pub record IsTable (t : HashMap A) : Type ℓ where
    pub width : length t.buckets ≡ t.map_size
    pub some_bucket : 0 < t.map_size
    pub counted :
        (i : ℕ)
        → (get_or t.buckets i empty_bucket).capacity ≡ length (get_or t.buckets i empty_bucket).head

  abbrev pub bucket_of : HashMap A → CString → Bucket A
  bucket_of t k = get_or t.buckets (djb2_hash k t.map_size) empty_bucket

  counted_lookup :
      (k : CString) (c : List (CString × A)) (n : ℕ)
      → n ≡ length c
      → (if n == 0 then none else lookup k c) ≡ lookup k c
  unfolding lookup
  counted_lookup k [] n e = ground arith
  counted_lookup k (x ∷ c) n e = ground arith

  pub find_lookup :
      (t : HashMap A) (k : CString) → IsTable t → find_in_map t k ≡ lookup k (bucket_of t k).head
  unfolding find_in_map
  find_lookup t k v =
      counted_lookup k (bucket_of t k).head (bucket_of t k).capacity
        (v.counted (djb2_hash k t.map_size))

  abbrev with_entry : HashMap A → CString → A → HashMap A
  with_entry t k v =
      let i = djb2_hash k t.map_size in
      record t { buckets = set t.buckets i (insert_into_bucket k v (bucket_of t k)) }

  module _ (t : HashMap A) (k : CString) (x : A) (v : IsTable t) where
    in_range : djb2_hash k t.map_size < length t.buckets
    in_range = omega (arith, djb2_hash-lt k t.map_size v.some_bucket, v.width)

    with_entry-IsTable : IsTable (with_entry t k x)
    unfolding insert_into_bucket
    with_entry-IsTable =
        let j = djb2_hash k t.map_size in
        let b = insert_into_bucket k x (bucket_of t k) in
        record {
          width = ground (arith, length-set t.buckets j b, v.width);
          some_bucket = v.some_bucket;
          counted = λ i. elim (Bool-cases (i == j)) [
            | inl e ↦
                let same : i ≡ j = ground arith in
                rw (same, get_or-set_self t.buckets j b empty_bucket in_range)
                  (omega (arith, v.counted j))
            | inr e ↦ rw (get_or-set_ne t.buckets j i b empty_bucket (ground arith)) (v.counted i)
          ];
        }

    find-with_entry :
        (q : CString)
        → find_in_map (with_entry t k x) q ≡ (if str_eq q k then some x else find_in_map t q)
    unfolding lookup insert_into_bucket
    find-with_entry q =
        let i = djb2_hash q t.map_size in
        let j = djb2_hash k t.map_size in
        let b = insert_into_bucket k x (bucket_of t k) in
        rw (find_lookup (with_entry t k x) q with_entry-IsTable, find_lookup t q v)
          (elim (Bool-cases (i == j)) [
            | inl e ↦
                let same : i ≡ j = ground arith in
                rw (same, get_or-set_self t.buckets j b empty_bucket in_range)
            | inr e ↦
                let apart : str_eq q k ≡ false = ground (arith, str_eq-true q k) in
                rw (get_or-set_ne t.buckets j i b empty_bucket (ground arith), apart)
          ])

  -- A fresh table is well formed and holds nothing.
  pub init_map-IsTable :
      (n : ℕ)
      → 0 < n
      → (t : HashMap A) × (init_map true n ≡ some t)
        × IsTable t
        × ((k : CString) → find_in_map t k ≡ none)
  unfolding init_map find_in_map
  init_map-IsTable n h = (
    record { buckets = replicate n empty_bucket; map_size = n },
    refl,
    record {
      width = length-replicate n empty_bucket;
      some_bucket = h;
      counted = λ i. rw (get_or-replicate n i empty_bucket);
    },
    λ k. rw (get_or-replicate n (djb2_hash k n) empty_bucket),
  )

  -- What `insert_into_map` did: a key that is there stays as it was and -2 comes back; a new
  -- key is added when memory suffices, every other key reads as before, and the table stays
  -- well formed; without memory -1 comes back.
  abbrev pub Inserts : Bool → HashMap A → CString → A → Inserted (HashMap A) → Type ℓ
  Inserts memory t k x (success u) =
      (find_in_map t k ≡ none)
      × (memory ≡ true)
      × IsTable u
      × ((q : CString) → find_in_map u q ≡ (if str_eq q k then some x else find_in_map t q))
  Inserts memory t k x error = (find_in_map t k ≡ none) × (memory ≡ false)
  Inserts memory t k x duplicate = (w : A) × (find_in_map t k ≡ some w)

  insert_new-Inserts :
      (memory : Bool) (t : HashMap A) (k : CString) (x : A)
      → find_in_map t k ≡ none
      → IsTable t
      → Inserts memory t k x (insert_new memory t k x)
  unfolding insert_new
  insert_new-Inserts false t k x h v = (h, refl)
  insert_new-Inserts true t k x h v = (h, refl, with_entry-IsTable t k x v, find-with_entry t k x v)

  -- `insert_into_map` on a well-formed table, on each of its three results.
  pub insert_into_map-Inserts :
      (memory : Bool) (t : HashMap A) (k : CString) (x : A)
      → IsTable t
      → Inserts memory t k x (insert_into_map memory t k x)
  unfolding insert_into_map
  insert_into_map-Inserts memory t k x v = elim (Option-cases (find_in_map t k)) [
    | inl e ↦
        let run : insert_new memory t k x ≡ insert_into_map memory t k x =
          rw (e, insert_into_map) in
        subst (Inserts memory t k x) run (insert_new-Inserts memory t k x e v)
    | inr (w, e) ↦
        let run : duplicate ≡ insert_into_map memory t k x = rw (e, insert_into_map) in
        subst (Inserts memory t k x) run (w, e)
  ]
