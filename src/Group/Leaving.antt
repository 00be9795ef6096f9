-- ===== src/Group/Leaving.antt =====
-- Leaving a group takes it out of the list; leaving the last of several leaves a stale `tail`.
use netprog_assignments.Base.{
  ℕ, ◌-◌, ◌<◌, ◌≡◌, refl, ap, false, Option, none, some, List, [], ◌∷◌, ◌++◌, ◌==◌, length,
  length-append, arith, ==_refl, subst,
}
use netprog_assignments.Group.Groups.{
  MulticastGroup, GroupList, link, insert_multicast_group, changed, fault, walk, unlinked,
  remove_multicast_group,
}
use netprog_assignments.Group.Members.{IsApart, EndsAt, IsLinked, All-at, IsApart-at, ends_at}

walk_to :
    (xs : List MulticastGroup) (group : MulticastGroup) (ys : List MulticastGroup)
    → IsApart (xs ++ group ∷ ys)
    → walk (length (xs ++ group ∷ ys)) group.address (xs ++ group ∷ ys) ≡ unlinked (xs ++ ys)
unfolding walk
walk_to [] group ys d = ground (arith, ==_refl group.address)
walk_to (x ∷ xs) group ys (d, ds) =
    ground (arith, walk_to xs group ys ds, All-at x.address xs group ys d)

pub remove_found :
    (list : GroupList) (xs : List MulticastGroup) (group : MulticastGroup)
    (ys : List MulticastGroup)
    → list.count ≡ length list.head
    → IsApart list.head
    → list.head ≡ xs ++ group ∷ ys
    → remove_multicast_group list group
      ≡ changed (record list { head = xs ++ ys; count = list.count - 1 })
unfolding remove_multicast_group
remove_found list xs group ys c d h =
    let apart : IsApart (xs ++ group ∷ ys) = subst IsApart h d in
    rw (c, h, walk_to xs group ys apart) refl

remove_run :
    (list : GroupList) (xs : List MulticastGroup) (group : MulticastGroup)
    (ys : List MulticastGroup)
    → IsLinked list
    → list.head ≡ xs ++ group ∷ ys
    → remove_multicast_group list group
      ≡ changed (record list { head = xs ++ ys; count = list.count - 1 })
remove_run list xs group ys (c, d, e) h = remove_found list xs group ys c d h

-- Leaving a group that another stands behind takes it out of a well-formed list, keeps the order
-- of the others and the list well formed.
pub remove_multicast_group-IsLinked :
    (list : GroupList) (xs : List MulticastGroup) (group next : MulticastGroup)
    (ys : List MulticastGroup)
    → IsLinked list
    → list.head ≡ xs ++ group ∷ next ∷ ys
    → (after : GroupList) × (remove_multicast_group list group ≡ changed after)
      × IsLinked after
      × (after.head ≡ xs ++ next ∷ ys)
remove_multicast_group-IsLinked list xs group next ys (c, d, e) h = (
  record list { head = xs ++ next ∷ ys; count = list.count - 1 },
  remove_run list xs group (next ∷ ys) (c, d, e) h,
  (
    omega (arith, ap length h, length-append xs (group ∷ next ∷ ys), length-append xs (next ∷ ys)),
    IsApart-at xs group (next ∷ ys) (subst IsApart h d),
    ends_at list.tail xs group next ys (subst (EndsAt list.tail) h e),
  ),
  refl,
)

pub ends_last :
    (tail : Option ℕ) (xs : List MulticastGroup) (group : MulticastGroup)
    → EndsAt tail (xs ++ group ∷ [])
    → tail ≡ some group.address
ends_last tail [] group e = e
ends_last tail (x ∷ []) group e = e
ends_last tail (x ∷ w ∷ xs) group e = ends_last tail (w ∷ xs) group e

link-none :
    (xs : List MulticastGroup) (group next : MulticastGroup)
    → IsApart (xs ++ group ∷ [])
    → link group.address next (xs ++ []) ≡ none
unfolding link
link-none [] group next d = refl
link-none (x ∷ xs) group next (d, ds) =
    ground (arith, link-none xs group next ds, (All-at x.address xs group [] d).0)

stale :
    (count : ℕ) (tail : Option ℕ) (xs : List MulticastGroup) (group next : MulticastGroup)
    → IsApart (xs ++ group ∷ [])
    → tail ≡ some group.address
    → 1 < count
    → insert_multicast_group (record { head = xs ++ []; tail = tail; count = count - 1 }) next
      ≡ fault
unfolding insert_multicast_group
stale count tail xs group next d t h =
    let many : (count - 1 == 0) ≡ false = ground arith in
    rw (many, t, link-none xs group next d) refl

-- Leaving the last group of a well-formed list of two or more leaves `tail` at the freed node,
-- so that the next join, of whatever group, writes through it.
pub remove_last-fault :
    (list : GroupList) (x : MulticastGroup) (xs : List MulticastGroup) (group next : MulticastGroup)
    → IsLinked list
    → list.head ≡ (x ∷ xs) ++ group ∷ []
    → (after : GroupList) × (remove_multicast_group list group ≡ changed after)
      × (insert_multicast_group after next ≡ fault)
remove_last-fault list x xs group next (c, d, e) h =
    let tail_freed = ends_last list.tail (x ∷ xs) group (subst (EndsAt list.tail) h e) in
    (
      record list { head = (x ∷ xs) ++ []; count = list.count - 1 },
      remove_run list (x ∷ xs) group [] (c, d, e) h,
      stale list.count list.tail (x ∷ xs) group next (subst IsApart h d) tail_freed
          (omega (arith, c, ap length h, length-append xs (group ∷ []))),
    )
