-- ===== src/Shell/HashMap/Histories.antt =====
-- Histories of calls of hash_map.c of assignment-1/q1, against an abstract map.
use Prim.Native.Nat.{◌<◌}
use mathlib.Core.Path.{fun_ext}
use netprog_assignments.Base.{
  ℕ, Bool, true, false, ℤ, eq_ℤ_refl, Bool-cases, if◌then◌else◌, ◌≡◌, refl, Option, none, some,
  List, [], ◌∷◌, lookup, int_key, get_or-replicate, length-replicate, inl, inr, Option-cases, ap,
  ◌∙◌,
}
use netprog_assignments.Shell.{Run, done, faults, ◌>>=◌}
use netprog_assignments.Shell.HashMap.{
  insert_into_bucket, HashMap, empty_bucket, init_map, find_in_map, insert_into_map,
  delete_from_map,
}
use netprog_assignments.Shell.HashMap.Refinement.{
  slot, is_inside, find_outside, insert_outside, delete_outside, IsTable, view, update, inserted,
  deleted, find-view, insert-absent, replaced, delete-present, inserted-IsBucket, insert-present,
  delete-absent, bucket_of, erased_bucket, replaced-IsTable, erased_bucket-IsBucket, view-inserted,
  view-erased,
}

-- A call, with its index.
pub data Call {ℓ} (A : Type ℓ) : Type ℓ where
  find : ℤ → Call A
  insert : ℤ → A → Call A
  delete : ℤ → Call A

module _ {ℓ} {A : Type ℓ} where
  -- What the calls give back, in order: the pointers found and deleted.
  abbrev pub answers : List (Call A) → HashMap A → Run (List (Option A))
  answers [] t = done []
  answers (find k ∷ cs) t = do w ← find_in_map t k; ws ← answers cs t; done (w ∷ ws)
  answers (insert k x ∷ cs) t = do u ← insert_into_map t k x; answers cs u
  answers (delete k ∷ cs) t = do (w, u) ← delete_from_map t k; ws ← answers cs u; done (some w ∷ ws)

  -- The same of a function from indices to pointers: the index has to lead into the table.
  abbrev guarded : Bool → Run (List (Option A)) → Run (List (Option A))
  guarded inside r = if inside then r else faults

  abbrev pub promised : ℕ → List (Call A) → (ℤ → Option A) → Run (List (Option A))
  promised n [] f = done []
  promised n (find k ∷ cs) f =
      let rest = promised n cs f in guarded (is_inside n k) (rest >>= (λ ws. done (f k ∷ ws)))
  promised n (insert k x ∷ cs) f =
      guarded (is_inside n k) (inserted f k x >>= (λ g. promised n cs g))
  promised n (delete k ∷ cs) f =
      guarded (is_inside n k)
        (deleted f k >>= (λ d. promised n cs (d.1) >>= (λ ws. done (some (d.0) ∷ ws))))

  -- An index that leads below the table ends both sides alike; the rest is proved with one inside.
  by_inside :
      (n : ℕ) (k : ℤ) {r u : Run (List (Option A))}
      → (is_inside n k ≡ false → r ≡ faults)
      → (is_inside n k ≡ true → r ≡ u)
      → r ≡ guarded (is_inside n k) u
  by_inside n k out ok = elim (Bool-cases (is_inside n k)) [
    | inl e ↦ rw e (ok e)
    | inr e ↦ rw e (out e)
  ]

  answers-promised :
      (cs : List (Call A)) (t : HashMap A)
      → IsTable t
      → answers cs t ≡ promised t.map_size cs (view t)
  answers-promised [] t v = refl
  answers-promised (find k ∷ cs) t v =
      by_inside t.map_size k (λ b. rw (find_outside t k b))
        (λ g. rw (find-view t k g v, answers-promised cs t v))
  answers-promised (insert k x ∷ cs) t v =
      by_inside t.map_size k (λ b. rw (insert_outside t k b x))
        (λ g. elim (Option-cases (view t k)) [
          | inl e ↦
              let b = insert_into_bucket (bucket_of t k) k x in
              rw (insert-absent t k g v x e, inserted, e)
                (answers-promised cs (replaced t k g v b)
                    (replaced-IsTable t k g v b (inserted-IsBucket t k g v x e))
                  ∙ ap (promised t.map_size cs) (view-inserted t k g v x))
          | inr (w, e) ↦ rw (insert-present t k g v x w e, inserted, e)
        ])
  answers-promised (delete k ∷ cs) t v =
      by_inside t.map_size k (λ b. rw (delete_outside t k b))
        (λ g. elim (Option-cases (view t k)) [
          | inl e ↦ rw (delete-absent t k g v e, deleted, e)
          | inr (w, e) ↦
              let u = replaced t k g v (erased_bucket t k g v) in
              let next : answers cs u ≡ promised t.map_size cs (update (view t) k none) =
                answers-promised cs u (
                  replaced-IsTable t k g v (erased_bucket t k g v) (erased_bucket-IsBucket t k g v))
                ∙ ap (promised t.map_size cs) (view-erased t k g v) in
              rw (delete-present t k g v w e, deleted, e, next)
        ])

  pub init_map-IsTable : (n : ℕ) → 0 < n → IsTable (init_map {A = A} n)
  unfolding init_map
  init_map-IsTable n h = record {
    width = length-replicate n empty_bucket;
    some_bucket = h;
    each = λ i.
        rw (get_or-replicate n i (empty_bucket {A = A})) (record { empty = λ _. refl; keyed = tt });
  }

  view-init_map : (n : ℕ) → view (init_map {A = A} n) ≡ (λ _. none)
  unfolding init_map lookup
  view-init_map n = fun_ext (λ k. rw (get_or-replicate n (slot k n) (empty_bucket {A = A})))

  -- Any calls on a fresh map of one bucket or more give what a function from indices to pointers
  -- gives, where an insertion of an index that is there, and a deletion of one that is not, ends the
  -- process, and a call reads outside the table exactly when its index is negative and no multiple
  -- of the number of buckets.
  pub init_map-refines :
      (n : ℕ) (cs : List (Call A)) → 0 < n → answers cs (init_map n) ≡ promised n cs (λ _. none)
  unfolding init_map
  init_map-refines n cs h =
      answers-promised cs (init_map n) (init_map-IsTable n h) ∙ ap (promised n cs) (view-init_map n)

  update_self : (f : ℤ → Option A) (k : ℤ) (w : Option A) → update f k w k ≡ w
  update_self f k w = rw (eq_ℤ_refl k)

  -- An insertion of a new index succeeds, and the index is found then.
  pub insert-find :
      (t : HashMap A) (k : ℤ) (x : A)
      → is_inside t.map_size k ≡ true
      → IsTable t
      → view t k ≡ none
      → (u : HashMap A) × (insert_into_map t k x ≡ done u)
        × IsTable u
        × (find_in_map u k ≡ done (some x))
  insert-find t k x g v h =
      let b = insert_into_bucket (bucket_of t k) k x in
      let u = replaced t k g v b in
      let w = replaced-IsTable t k g v b (inserted-IsBucket t k g v x h) in
      let e : view u k ≡ some x =
        ap (λ f. f k) (view-inserted t k g v x) ∙ update_self (view t) k (some x) in
      (u, insert-absent t k g v x h, w, find-view u k g w ∙ ap done e)
