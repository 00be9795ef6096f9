-- ===== src/Group/Members.antt =====
-- The list of groups keeps its shape, but for the removal of its last node.
use netprog_assignments.Base.{
  ℕ, ◌+◌, ◌≡◌, ◌≢◌, refl, false, Option, none, some, List, [], ◌∷◌, ◌++◌, ◌==◌, length,
  length-append, arith, All,
}
use netprog_assignments.Group.Groups.{
  MulticastGroup, GroupList, link, insert_multicast_group, changed,
}

abbrev pub IsApart : List MulticastGroup → Type 0
IsApart [] = Unit
IsApart (g ∷ gs) = All (λ h. g.address ≢ h.address) gs × IsApart gs

-- `tail` is the address of the last node, if there is one.
abbrev pub EndsAt : Option ℕ → List MulticastGroup → Type 0
EndsAt tail [] = Unit
EndsAt tail (g ∷ []) = tail ≡ some g.address
EndsAt tail (g ∷ h ∷ gs) = EndsAt tail (h ∷ gs)

abbrev pub IsLinked : GroupList → Type 0
IsLinked list = (list.count ≡ length list.head) × IsApart list.head × EndsAt list.tail list.head

-- The address is no node's of the list.
abbrev pub IsNew : MulticastGroup → GroupList → Type 0
IsNew group list = All (λ h. h.address ≢ group.address) list.head

ends_apart :
    (a : ℕ) (g : MulticastGroup) (gs : List MulticastGroup) (tail : ℕ)
    → All (λ h. a ≢ h.address) (g ∷ gs)
    → EndsAt (some tail) (g ∷ gs)
    → a ≢ tail
ends_apart a g [] tail (h, hs) e = ground arith
ends_apart a g (k ∷ gs) tail (h, hs) e = ends_apart a k gs tail hs e

link-append :
    (tail : ℕ) (g group : MulticastGroup) (gs : List MulticastGroup)
    → IsApart (g ∷ gs)
    → EndsAt (some tail) (g ∷ gs)
    → link tail group (g ∷ gs) ≡ some ((g ∷ gs) ++ group ∷ [])
unfolding link
link-append tail g group [] d e = ground arith
link-append tail g group (h ∷ gs) (d, ds) e =
    ground (arith, ends_apart g.address h gs tail d e, link-append tail h group gs ds e)

ends_append :
    (group : MulticastGroup) (gs : List MulticastGroup)
    → EndsAt (some group.address) (gs ++ group ∷ [])
ends_append group [] = refl
ends_append group (g ∷ []) = refl
ends_append group (g ∷ h ∷ gs) = ends_append group (h ∷ gs)

All-append :
    (a : ℕ) (group : MulticastGroup) (gs : List MulticastGroup)
    → a ≢ group.address
    → All (λ h. a ≢ h.address) gs
    → All (λ h. a ≢ h.address) (gs ++ group ∷ [])
All-append a group [] h t = (h, tt)
All-append a group (g ∷ gs) h (k, t) = (k, All-append a group gs h t)

pub All-at :
    (a : ℕ) (xs : List MulticastGroup) (group : MulticastGroup) (ys : List MulticastGroup)
    → All (λ h. a ≢ h.address) (xs ++ group ∷ ys)
    → (a ≢ group.address) × All (λ h. a ≢ h.address) (xs ++ ys)
All-at a [] group ys (h, t) = (h, t)
All-at a (x ∷ xs) group ys (h, t) = let (k, u) = All-at a xs group ys t in (k, (h, u))

pub IsApart-at :
    (xs : List MulticastGroup) (group : MulticastGroup) (ys : List MulticastGroup)
    → IsApart (xs ++ group ∷ ys)
    → IsApart (xs ++ ys)
IsApart-at [] group ys (d, ds) = ds
IsApart-at (x ∷ xs) group ys (d, ds) =
    ((All-at x.address xs group ys d).1, IsApart-at xs group ys ds)

pub ends_at :
    (tail : Option ℕ) (xs : List MulticastGroup) (group y : MulticastGroup)
    (ys : List MulticastGroup)
    → EndsAt tail (xs ++ group ∷ y ∷ ys)
    → EndsAt tail (xs ++ y ∷ ys)
ends_at tail [] group y ys e = e
ends_at tail (x ∷ []) group y ys e = e
ends_at tail (x ∷ w ∷ xs) group y ys e = ends_at tail (w ∷ xs) group y ys e

IsApart-append :
    (group : MulticastGroup) (gs : List MulticastGroup)
    → All (λ h. h.address ≢ group.address) gs
    → IsApart gs
    → IsApart (gs ++ group ∷ [])
IsApart-append group [] n d = (tt, tt)
IsApart-append group (g ∷ gs) (n, ns) (d, ds) =
    (All-append g.address group gs n d, IsApart-append group gs ns ds)

appended : GroupList → MulticastGroup → GroupList
appended list group = record {
  head = list.head ++ group ∷ [];
  tail = some group.address;
  count = list.count + 1;
}

pub ends_null : (g : MulticastGroup) (gs : List MulticastGroup) → ¬ EndsAt none (g ∷ gs)
ends_null g [] e = ground arith
ends_null g (h ∷ gs) e = ends_null h gs e

insert_run :
    (head : List MulticastGroup) (tail : Option ℕ) (count : ℕ) (group : MulticastGroup)
    → IsLinked (record { head = head; tail = tail; count = count })
    → insert_multicast_group (record { head = head; tail = tail; count = count }) group
      ≡ changed (appended (record { head = head; tail = tail; count = count }) group)
unfolding insert_multicast_group appended
insert_run [] tail count group (c, d, e) = ground arith
insert_run (g ∷ gs) none count group (c, d, e) = absurd (ends_null g gs e)
insert_run (g ∷ gs) (some t) count group (c, d, e) =
    let many : (count == 0) ≡ false = ground arith in rw (many, link-append t g group gs d e) refl

-- Joining puts a new group at the end of a well-formed list and keeps it well formed.
pub insert_multicast_group-IsLinked :
    (list : GroupList) (group : MulticastGroup)
    → IsLinked list
    → IsNew group list
    → (after : GroupList) × (insert_multicast_group list group ≡ changed after)
      × IsLinked after
      × (after.head ≡ list.head ++ group ∷ [])
unfolding appended
insert_multicast_group-IsLinked list group (c, d, e) n = (
  appended list group,
  insert_run list.head list.tail list.count group (c, d, e),
  (
    omega (arith, length-append list.head (group ∷ []), c),
    IsApart-append group list.head n d,
    ends_append group list.head,
  ),
  refl,
)
