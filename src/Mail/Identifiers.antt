-- ===== src/Mail/Identifiers.antt =====
-- find_group_by_id of assignment-1/q3/server.c against its loop.
use netprog_assignments.Base.{
  ℕ, zero, suc, ◌+◌, ◌<◌, ◌≡◌, ◌∙◌, refl, false, none, some, List, [], ◌∷◌, ◌==◌, ltb,
  if◌then◌else◌, length, get_elem?, arith, Bool-cases, inl, inr, subst,
}
use netprog_assignments.Mail.{Group, scan, has_gid, find_group_by_id}

-- The table of groups: from `i` on, each group's identifier is its place.
abbrev pub IsNumbered : ℕ → List Group → Type 0
IsNumbered i [] = Unit
IsNumbered i (g ∷ gs) = (g.gid ≡ i) × IsNumbered (suc i) gs

scan_low : (id i : ℕ) (gs : List Group) → id < i → IsNumbered i gs → scan id i gs ≡ none
unfolding scan
scan_low id i [] l h = refl
scan_low id i (g ∷ gs) l (h, hs) = ground (arith, scan_low id (suc i) gs (omega arith) hs)

shift : (i k : ℕ) → suc i + k ≡ i + suc k
shift i k = omega arith

ltb-suc : (k n : ℕ) → ltb (suc k) (suc n) ≡ ltb k n
ltb-suc k n = ground arith

scan_at :
    (k i : ℕ) (gs : List Group)
    → IsNumbered i gs
    → scan (i + k) i gs ≡ (if ltb k (length gs) then some (i + k) else none)
unfolding scan
scan_at k i [] h = ground arith
scan_at zero i (g ∷ gs) (h, hs) = ground arith
scan_at (suc k) i (g ∷ gs) (h, hs) =
    let further =
      subst (λ n. scan n (suc i) gs ≡ (if ltb k (length gs) then some n else none)) (shift i k)
        (scan_at k (suc i) gs hs) in
    let other : (g.gid == i + suc k) ≡ false = ground arith in
    rw (other, further, ltb-suc k (length gs)) refl

gid_at :
    (k i : ℕ) (gs : List Group)
    → IsNumbered i gs
    → has_gid (i + k) (get_elem? gs k) ≡ ltb k (length gs)
gid_at k i [] h = ground arith
gid_at zero i (g ∷ gs) (h, hs) = ground arith
gid_at (suc k) i (g ∷ gs) (h, hs) =
    subst (λ n. has_gid n (get_elem? gs k) ≡ ltb k (length gs)) (shift i k) (gid_at k (suc i) gs hs)
    ∙ ground arith

-- With identifiers that are places, find_group_by_id finds what its loop alone would find: the
-- place of the identifier, when there is such a group.
pub find_group_by_id-scan :
    (id : ℕ) (groups : List Group)
    → IsNumbered 0 groups
    → (find_group_by_id id groups ≡ scan id 0 groups)
      × (scan id 0 groups ≡ (if ltb id (length groups) then some id else none))
unfolding find_group_by_id
find_group_by_id-scan id groups h =
    let zero_left : 0 + id ≡ id = omega arith in
    let at =
      subst (λ n. scan n 0 groups ≡ (if ltb id (length groups) then some n else none)) zero_left
        (scan_at id 0 groups h) in
    let has =
      subst (λ n. has_gid n (get_elem? groups id) ≡ ltb id (length groups)) zero_left
        (gid_at id 0 groups h) in
    elim (Bool-cases (ltb id (length groups))) [
      | inl e ↦ rw (has, e, at, e) (refl, refl)
      | inr e ↦ rw (has, e, at, e) (refl, refl)
    ]
