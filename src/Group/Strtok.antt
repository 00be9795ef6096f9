-- ===== src/Group/Strtok.antt =====
-- strtok with one delimiter, and atoi, as assignment-2/q3 calls them. `strtok` gives the token
-- and what its next call reads.
use netprog_assignments.Base.{
  ℕ, ◌+◌, ◌-◌, ◌*◌, ◌≡◌, ◌≢◌, refl, Bool, true, false, Option, none, some, [], ◌∷◌, ◌++◌, ◌==◌,
  if◌then◌else◌, ℤ, pos, CString, isdigit, isspace, arith, All, sub_ℕ,
}

abbrev pub skip : ℕ → CString → CString
skip d [] = []
skip d (c ∷ s) = if c == d then skip d s else c ∷ s

abbrev pub word : ℕ → CString → CString
word d [] = []
word d (c ∷ s) = if c == d then [] else c ∷ word d s

abbrev pub after : ℕ → CString → CString
after d [] = []
after d (c ∷ s) = if c == d then s else after d s

abbrev pub token : ℕ → CString → Option CString × CString
token d [] = (none, [])
token d (c ∷ s) = (some (word d (c ∷ s)), after d (c ∷ s))

unfoldable pub strtok : ℕ → CString → Option CString × CString
strtok d s = token d (skip d s)

abbrev pub number : ℕ → CString → ℕ
number n [] = n
number n (c ∷ s) = if isdigit c then number (10 * n + (c - b'0')) s else n

abbrev pub signed : CString → ℤ
signed [] = pos 0
signed (c ∷ s) =
    if c == b'-'
    then sub_ℕ 0 (number 0 s)
    else if c == b'+'
    then pos (number 0 s)
    else pos (number 0 (c ∷ s))

abbrev pub blanks : CString → CString
blanks [] = []
blanks (c ∷ s) = if isspace c then blanks s else c ∷ s

-- The numbers of `atoi` that fit an `int`; on others its behaviour is undefined.
unfoldable pub atoi : CString → ℤ
atoi s = signed (blanks s)

-- A text without the delimiter.
abbrev pub IsFree : ℕ → CString → Type 0
IsFree d = All (λ c. c ≢ d)

word_free : (d : ℕ) (w s : CString) → IsFree d w → word d (w ++ d ∷ s) ≡ w
word_free d [] s h = ground arith
word_free d (c ∷ w) s (h, k) = ground (arith, word_free d w s k)

after_free : (d : ℕ) (w s : CString) → IsFree d w → after d (w ++ d ∷ s) ≡ s
after_free d [] s h = ground arith
after_free d (c ∷ w) s (h, k) = ground (arith, after_free d w s k)

word_whole : (d : ℕ) (w : CString) → IsFree d w → word d w ≡ w
word_whole d [] h = refl
word_whole d (c ∷ w) (h, k) = ground (arith, word_whole d w k)

after_whole : (d : ℕ) (w : CString) → IsFree d w → after d w ≡ []
after_whole d [] h = refl
after_whole d (c ∷ w) (h, k) = ground (arith, after_whole d w k)

abbrev pub IsWord : ℕ → CString → Type 0
IsWord d [] = ⊥
IsWord d (c ∷ w) = IsFree d (c ∷ w)

-- A text that is not empty and has no delimiter is the token that comes before one.
pub strtok_word : (d : ℕ) (w s : CString) → IsWord d w → strtok d (w ++ d ∷ s) ≡ (some w, s)
unfolding strtok
strtok_word d [] s h = elim h [ ]
strtok_word d (c ∷ w) s (h, k) = ground (arith, word_free d w s k, after_free d w s k)

pub strtok_last : (d : ℕ) (w : CString) → IsWord d w → strtok d w ≡ (some w, [])
unfolding strtok
strtok_last d [] h = elim h [ ]
strtok_last d (c ∷ w) (h, k) = ground (arith, word_whole d w k, after_whole d w k)

-- A delimiter in front is passed over.
pub strtok_skip : (d : ℕ) (s : CString) → strtok d (d ∷ s) ≡ strtok d s
unfolding strtok
strtok_skip d s = ground arith

-- The decision, for texts that are written out.
abbrev pub is_free : ℕ → CString → Bool
is_free d [] = true
is_free d (c ∷ s) = if c == d then false else is_free d s

is_free-IsFree : (d : ℕ) (s : CString) → is_free d s ≡ true → IsFree d s
is_free-IsFree d [] h = tt
is_free-IsFree d (c ∷ s) h = ground (arith, is_free-IsFree d s)

pub is_free-IsWord : (d c : ℕ) (s : CString) → is_free d (c ∷ s) ≡ true → IsWord d (c ∷ s)
is_free-IsWord d c s h = is_free-IsFree d (c ∷ s) h
