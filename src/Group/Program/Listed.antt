-- ===== src/Group/Program/Listed.antt =====
-- The list of joined groups as main leaves it: its count is right and its nodes are apart, and its
-- tail is the last node's address or one that no node has any more.
use netprog_assignments.Base.{
  ℕ, ◌-◌, ◌<◌, ◌≡◌, ◌≢◌, refl, sym, ap, true, false, Option, none, some, List, [], ◌∷◌, ◌++◌, ◌==◌,
  length, length-append, CString, str_eq, str_eq_iff, str_eq_refl, arith, subst, ◌⊎◌, inl, inr,
  Bool-cases, All,
}
use netprog_assignments.Group.Groups.{
  MulticastGroup, GroupList, find_group_by_name, link, insert_multicast_group, Changed, changed,
  refused, fault, remove_multicast_group,
}
use netprog_assignments.Group.Members.{
  IsApart, EndsAt, IsLinked, IsNew, All-at, IsApart-at, ends_at, insert_multicast_group-IsLinked,
}
use netprog_assignments.Group.Creation.{find-append}
use netprog_assignments.Group.Leaving.{remove_found, ends_last}

abbrev pub IsStale : Option ℕ → List MulticastGroup → Type 0
IsStale none head = ⊥
IsStale (some t) head = All (λ h. h.address ≢ t) head

-- No two groups have the same name.
abbrev pub IsNamed : List MulticastGroup → Type 0
IsNamed [] = Unit
IsNamed (g ∷ gs) = (find_group_by_name g.name gs ≡ none) × IsNamed gs

pub record IsListed (list : GroupList) : Type 0 where
  pub counted : list.count ≡ length list.head
  pub apart : IsApart list.head
  pub ended : EndsAt list.tail list.head ⊎ IsStale list.tail list.head
  pub named : IsNamed list.head

pub IsLinked-IsListed : (list : GroupList) → IsLinked list → IsNamed list.head → IsListed list
IsLinked-IsListed list (c, d, e) n = record { counted = c; apart = d; ended = inl e; named = n }

pub IsNamed-append :
    (group : MulticastGroup) (gs : List MulticastGroup)
    → find_group_by_name group.name gs ≡ none
    → IsNamed gs
    → IsNamed (gs ++ group ∷ [])
unfolding find_group_by_name
IsNamed-append group [] f n = (refl, tt)
IsNamed-append group (g ∷ gs) f (n, ns) = (
  ground (
    arith,
    find-append g.name group gs,
    n,
    f,
    str_eq_iff g.name group.name,
    str_eq_iff group.name g.name,
  ),
  IsNamed-append group gs (ground (arith, f)) ns,
)

unfound_at :
    (q : CString) (xs : List MulticastGroup) (g : MulticastGroup) (ys : List MulticastGroup)
    → find_group_by_name q (xs ++ g ∷ ys) ≡ none
    → find_group_by_name q (xs ++ ys) ≡ none
unfolding find_group_by_name
unfound_at q [] g ys h = ground (arith, h)
unfound_at q (x ∷ xs) g ys h = ground (arith, unfound_at q xs g ys, h)

IsNamed-at :
    (xs : List MulticastGroup) (g : MulticastGroup) (ys : List MulticastGroup)
    → IsNamed (xs ++ g ∷ ys)
    → IsNamed (xs ++ ys)
IsNamed-at [] g ys (n, ns) = ns
IsNamed-at (x ∷ xs) g ys (n, ns) = (unfound_at x.name xs g ys n, IsNamed-at xs g ys ns)

unfound_name :
    (xs : List MulticastGroup) (g : MulticastGroup) (ys : List MulticastGroup) (q : CString)
    → find_group_by_name q (xs ++ g ∷ ys) ≡ none
    → str_eq q g.name ≡ false
unfolding find_group_by_name
unfound_name [] g ys q h = ground (arith, h)
unfound_name (x ∷ xs) g ys q h = unfound_name xs g ys q (ground (arith, h))

-- A joined group is found by its name.
pub found_by_name :
    (xs : List MulticastGroup) (g : MulticastGroup) (ys : List MulticastGroup)
    → IsNamed (xs ++ g ∷ ys)
    → find_group_by_name g.name (xs ++ g ∷ ys) ≡ some g
unfolding find_group_by_name
found_by_name [] g ys n = ground (arith, str_eq_refl g.name)
found_by_name (x ∷ xs) g ys (n, ns) = ground (
  arith,
  found_by_name xs g ys ns,
  unfound_name xs g ys x.name n,
  str_eq_iff x.name g.name,
  str_eq_iff g.name x.name,
)

link-absent :
    (t : ℕ) (group : MulticastGroup) (gs : List MulticastGroup)
    → All (λ h. h.address ≢ t) gs
    → link t group gs ≡ none
unfolding link
link-absent t group [] h = refl
link-absent t group (g ∷ gs) (h, hs) = ground (arith, link-absent t group gs hs)

-- A new group is linked at the end, or the tail was stale and is written through.
abbrev pub Inserts : GroupList → MulticastGroup → Changed → Type 0
Inserts list group (changed after) = IsLinked after × (after.head ≡ list.head ++ group ∷ [])
Inserts list group refused = ⊥
Inserts list group fault = IsStale list.tail list.head × (0 < list.count)

insert_stale :
    (head : List MulticastGroup) (tail : Option ℕ) (count : ℕ) (group : MulticastGroup)
    → count ≡ length head
    → IsStale tail head
    → Inserts
        (record { head = head; tail = tail; count = count })
        group
        (insert_multicast_group (record { head = head; tail = tail; count = count }) group)
unfolding insert_multicast_group
insert_stale head none count group c s = absurd s
insert_stale [] (some t) count group c s =
    let none_yet : (count == 0) ≡ true = ground arith in rw none_yet ((refl, (tt, tt), refl), refl)
insert_stale (g ∷ gs) (some t) count group c s =
    let many : (count == 0) ≡ false = ground arith in
    rw (many, link-absent t group (g ∷ gs) s) (s, omega arith)

pub insert_multicast_group-Inserts :
    (list : GroupList) (group : MulticastGroup)
    → IsListed list
    → IsNew group list
    → Inserts list group (insert_multicast_group list group)
insert_multicast_group-Inserts list group v n = elim v.ended [
  | inl e ↦
      let (after, run, w, h) =
        insert_multicast_group-IsLinked list group (v.counted, v.apart, e) n in
      rw run (w, h)
  | inr s ↦ insert_stale list.head list.tail list.count group v.counted s
]

pub found_at :
    (name : CString) (gs : List MulticastGroup) (g : MulticastGroup)
    → find_group_by_name name gs ≡ some g
    → (xs : List MulticastGroup) × (ys : List MulticastGroup) × (gs ≡ xs ++ g ∷ ys)
unfolding find_group_by_name
found_at name [] g h = ground arith
found_at name (x ∷ gs) g h = elim (Bool-cases (str_eq name x.name)) [
  | inl e ↦ ([], gs, ground arith)
  | inr e ↦ let (xs, ys, f) = found_at name gs g (ground arith) in (x ∷ xs, ys, ap (λ l. x ∷ l) f)
]

apart_last :
    (xs : List MulticastGroup) (g : MulticastGroup)
    → IsApart (xs ++ g ∷ [])
    → All (λ h. h.address ≢ g.address) (xs ++ [])
apart_last [] g d = tt
apart_last (x ∷ xs) g (d, ds) = ((All-at x.address xs g [] d).0, apart_last xs g ds)

absent_at :
    (t : ℕ) (xs : List MulticastGroup) (g : MulticastGroup) (ys : List MulticastGroup)
    → All (λ h. h.address ≢ t) (xs ++ g ∷ ys)
    → All (λ h. h.address ≢ t) (xs ++ ys)
absent_at t [] g ys (h, hs) = hs
absent_at t (x ∷ xs) g ys (h, hs) = (h, absent_at t xs g ys hs)

ended_without :
    (tail : Option ℕ) (xs : List MulticastGroup) (g : MulticastGroup) (ys : List MulticastGroup)
    → IsApart (xs ++ g ∷ ys)
    → EndsAt tail (xs ++ g ∷ ys) ⊎ IsStale tail (xs ++ g ∷ ys)
    → EndsAt tail (xs ++ ys) ⊎ IsStale tail (xs ++ ys)
ended_without tail xs g (y ∷ ys) d (inl e) = inl (ends_at tail xs g y ys e)
ended_without tail xs g [] d (inl e) =
    inr (subst (λ t. IsStale t (xs ++ [])) (sym (ends_last tail xs g e)) (apart_last xs g d))
ended_without none xs g ys d (inr s) = absurd s
ended_without (some t) xs g ys d (inr s) = inr (absent_at t xs g ys s)

-- Leaving a joined group takes out its node alone.
pub leave_found-IsListed :
    (list : GroupList) (xs : List MulticastGroup) (g : MulticastGroup) (ys : List MulticastGroup)
    → IsListed list
    → list.head ≡ xs ++ g ∷ ys
    → (after : GroupList) × (remove_multicast_group list g ≡ changed after)
      × IsListed after
      × (after.head ≡ xs ++ ys)
leave_found-IsListed list xs g ys v h = (
  record list { head = xs ++ ys; count = list.count - 1 },
  remove_found list xs g ys v.counted v.apart h,
  record {
    counted = omega (arith, v.counted, ap length h, length-append xs (g ∷ ys), length-append xs ys);
    apart = IsApart-at xs g ys (subst IsApart h v.apart);
    ended =
        ended_without list.tail xs g ys (subst IsApart h v.apart)
          (subst (λ l. EndsAt list.tail l ⊎ IsStale list.tail l) h v.ended);
    named = IsNamed-at xs g ys (subst IsNamed h v.named);
  },
  refl,
)
