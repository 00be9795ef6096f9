-- ===== src/Group/Poll.antt =====
-- Polls: the voting of main and the counting of handlePollCommand, assignment-2/q3.
use netprog_assignments.Base.{
  ℕ, zero, suc, ◌+◌, ◌≤◌, ◌<◌, ◌≡◌, refl, Bool, true, false, Option, none, some, List, [], ◌∷◌,
  ◌==◌, ◌&&◌, ◌||◌, ltb, if◌then◌else◌, ℤ, pos, negsuc, eq_ℤ, ltb_ℤ, dec, pos_part, ◌≤ℤ◌, length,
  get_or, set, replicate, CString, arith, All, length-set, get_or-set_self, get_or-set_ne,
  get_or-replicate, length-replicate, Bool-cases, inl, inr, ◌∙◌, subst, ==_refl, eq_ℤ_refl,
}
use netprog_assignments.Group.Strtok.{atoi}
use netprog_assignments.Group.Command.{num_options}

-- main, POLL_REQ: lines are read until one is a valid number; `none` waits for more lines.
unfoldable pub read_vote : ℤ → List CString → Option ℤ
read_vote option_cnt [] = none
read_vote option_cnt (buff ∷ lines) =
    let selected = atoi buff in
    let rest = read_vote option_cnt lines in
    if ltb_ℤ selected (pos 1) || ltb_ℤ option_cnt selected then rest else some (dec selected)

-- A message at the reply socket.
pub record Reply : Type 0 where
  pub is_poll_reply : Bool
  pub id : ℤ
  pub option : ℤ

-- `option_cnt[selected_opt_idx] += 1`; `none` is a write outside the array.
abbrev pub count_option : ℤ → List ℕ → Option (List ℕ)
count_option (negsuc n) counts = none
count_option (pos n) counts =
    if ltb n (length counts) then some (set counts n (get_or counts n 0 + 1)) else none

abbrev pub then_counted : Option (List ℕ) → (List ℕ → Option (List ℕ)) → Option (List ℕ)
then_counted none next = none
then_counted (some counts) next = next counts

-- The child's loop over the messages that come before the time-out.
unfoldable pub tally : ℤ → List Reply → List ℕ → Option (List ℕ)
tally id [] counts = some counts
tally id (r ∷ rs) counts =
    if r.is_poll_reply && eq_ℤ r.id id
    then then_counted (count_option r.option counts) (λ c. tally id rs c)
    else tally id rs counts

unfoldable pub poll_result : ℤ → List Reply → Option (List ℕ)
unfolding tally
poll_result id replies = tally id replies (replicate num_options 0)

-- How many of the replies to the poll choose the option.
unfoldable pub votes : ℤ → ℕ → List Reply → ℕ
votes id i [] = 0
votes id i (r ∷ rs) =
    if r.is_poll_reply && eq_ℤ r.id id
    then if eq_ℤ r.option (pos i) then suc (votes id i rs) else votes id i rs
    else votes id i rs

-- A reply to the poll that a voter could have chosen.
abbrev pub IsVote : ℤ → ℤ → Reply → Type 0
IsVote id option_cnt r =
    if r.is_poll_reply && eq_ℤ r.id id
    then (pos 0 ≤ℤ r.option) × (ltb_ℤ r.option option_cnt ≡ true)
    else Unit

valid_vote :
    (option_cnt selected : ℤ)
    → (ltb_ℤ selected (pos 1) || ltb_ℤ option_cnt selected) ≡ false
    → (pos 0 ≤ℤ dec selected) × (ltb_ℤ (dec selected) option_cnt ≡ true)
valid_vote option_cnt (pos zero) e = ground arith
valid_vote option_cnt (pos (suc n)) e = (omega arith, ground arith)
valid_vote option_cnt (negsuc n) e = ground arith

-- A vote that is read is the number of an option, counted from 0.
pub read_vote-range :
    (option_cnt : ℤ) (lines : List CString) (vote : ℤ)
    → read_vote option_cnt lines ≡ some vote
    → (pos 0 ≤ℤ vote) × (ltb_ℤ vote option_cnt ≡ true)
unfolding read_vote
read_vote-range option_cnt [] vote h = ground arith
read_vote-range option_cnt (buff ∷ lines) vote h =
    elim (Bool-cases (ltb_ℤ (atoi buff) (pos 1) || ltb_ℤ option_cnt (atoi buff))) [
      | inl e ↦ read_vote-range option_cnt lines vote (ground arith)
      | inr e ↦
          let same : dec (atoi buff) ≡ vote = ground arith in
          subst (λ v. (pos 0 ≤ℤ v) × (ltb_ℤ v option_cnt ≡ true)) same
            (valid_vote option_cnt (atoi buff) e)
    ]

set_count :
    (counts : List ℕ) (n i more : ℕ)
    → n < length counts
    → get_or (set counts n (get_or counts n 0 + 1)) i 0 + more
      ≡ get_or counts i 0 + (if n == i then suc more else more)
set_count counts n i more h =
    let v = get_or counts n 0 + 1 in
    elim (Bool-cases (n == i)) [
      | inl e ↦
          let same : n ≡ i = ground arith in
          subst
            (λ j.
              get_or (set counts n v) j 0 + more
              ≡ get_or counts j 0 + (if n == j then suc more else more))
            same (rw (==_refl n, get_or-set_self counts n v 0 h) (omega arith))
      | inr e ↦ rw (e, get_or-set_ne counts n i v 0 (ground arith)) refl
    ]

eq_pos : (n i : ℕ) → eq_ℤ (pos n) (pos i) ≡ (n == i)
eq_pos n i = ground arith

-- The counting went on to its end with all options in their places.
abbrev Counted : ℤ → List Reply → List ℕ → Option (List ℕ) → Type 0
Counted id rs counts result =
    (after : List ℕ) × (result ≡ some after)
    × (length after ≡ num_options)
    × ((i : ℕ) → i < num_options → get_or after i 0 ≡ get_or counts i 0 + votes id i rs)

Counted-vote :
    (id option_cnt o : ℤ) (rs : List Reply) (counts : List ℕ)
    → length counts ≡ num_options
    → pos_part option_cnt ≤ num_options
    → (pos 0 ≤ℤ o) × (ltb_ℤ o option_cnt ≡ true)
    → ((c : List ℕ) → length c ≡ num_options → Counted id rs c (tally id rs c))
    → (after : List ℕ) × (then_counted (count_option o counts) (λ c. tally id rs c) ≡ some after)
      × (length after ≡ num_options)
      × ((i : ℕ)
          → i < num_options
          → get_or after i 0
            ≡ get_or counts i 0 + (if eq_ℤ o (pos i) then suc (votes id i rs) else votes id i rs))
Counted-vote id option_cnt (negsuc n) rs counts l m (low, high) next = absurd (ground arith)
Counted-vote id option_cnt (pos n) rs counts l m (low, high) next =
    let inside : n < length counts = ground arith in
    let found : ltb n (length counts) ≡ true = ground arith in
    let c = set counts n (get_or counts n 0 + 1) in
    let (after, run, k, f) = next c (length-set counts n (get_or counts n 0 + 1) ∙ l) in
    rw found
      (after, run, k, λ i b. f i b ∙ rw (eq_pos n i) (set_count counts n i (votes id i rs) inside))

tally-Counted :
    (id option_cnt : ℤ) (rs : List Reply) (counts : List ℕ)
    → length counts ≡ num_options
    → pos_part option_cnt ≤ num_options
    → All (IsVote id option_cnt) rs
    → Counted id rs counts (tally id rs counts)
unfolding tally votes
tally-Counted id option_cnt [] counts l o h = (counts, refl, l, λ i k. omega arith)
tally-Counted id option_cnt (r ∷ rs) counts l o (h, hs) =
    elim (Bool-cases (r.is_poll_reply && eq_ℤ r.id id)) [
      | inl e ↦ rw e (
          Counted-vote id option_cnt r.option rs counts l o
            (subst
              (λ b. if b then (pos 0 ≤ℤ r.option) × (ltb_ℤ r.option option_cnt ≡ true) else Unit) e
              h)
            (λ c k. tally-Counted id option_cnt rs c k o hs))
      | inr e ↦ rw e (tally-Counted id option_cnt rs counts l o hs)
    ]

-- When a poll has at most five options and every reply to it is a vote among them, the counting
-- stays in the array and ends with the number of replies for each option.
pub poll_result_counts :
    (id option_cnt : ℤ) (rs : List Reply)
    → pos_part option_cnt ≤ num_options
    → All (IsVote id option_cnt) rs
    → (after : List ℕ) × (poll_result id rs ≡ some after)
      × (length after ≡ num_options)
      × ((i : ℕ) → i < num_options → get_or after i 0 ≡ votes id i rs)
unfolding poll_result
poll_result_counts id option_cnt rs o h =
    let (after, run, l, f) =
      tally-Counted id option_cnt rs (replicate num_options 0)
        (length-replicate {A = ℕ} num_options 0) o h in
    (after, run, l, λ i k. f i k ∙ omega (arith, get_or-replicate {A = ℕ} num_options i 0))

count_outside :
    (o : ℤ) (counts : List ℕ)
    → length counts ≡ num_options
    → ltb_ℤ (pos 4) o ≡ true
    → count_option o counts ≡ none
count_outside (pos n) counts l h = ground arith
count_outside (negsuc n) counts l h = refl

-- A reply to the poll that names no option of the array is counted outside it, whatever came
-- before or comes after: the number is not checked.
pub poll_result-none :
    (id : ℤ) (r : Reply) (rs : List Reply)
    → r.is_poll_reply ≡ true
    → r.id ≡ id
    → ltb_ℤ (pos 4) r.option ≡ true
    → poll_result id (r ∷ rs) ≡ none
unfolding poll_result tally
poll_result-none id r rs p i o =
    let mine : (r.is_poll_reply && eq_ℤ r.id id) ≡ true = ground (arith, eq_ℤ_refl r.id) in
    rw (mine, count_outside r.option (replicate num_options 0) refl o) refl
