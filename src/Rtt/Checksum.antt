-- ===== src/Rtt/Checksum.antt =====
-- in_cksum of assignment-2/q1/utils.c, over the bytes of a buffer on a little-endian machine.
use netprog_assignments.Base.{
  ℕ, ◌+◌, ◌-◌, ◌*◌, ◌/◌, ◌%◌, ◌^◌, ◌≤◌, ◌<◌, ◌≡◌, refl, List, [], ◌∷◌, ◌∙◌, ap, arith, length, All,
}

-- `sum` is a u_int32_t: each addition wraps.
unfoldable pub sum_words : ℕ → List ℕ → ℕ
sum_words sum [] = sum
sum_words sum (b ∷ []) = (sum + b) % 2 ^ 32
sum_words sum (b ∷ c ∷ rest) = sum_words ((sum + (b + 256 * c)) % 2 ^ 32) rest

-- The two folds, and `~sum` cut to 16 bits.
unfoldable pub fold_carry : ℕ → ℕ
fold_carry sum =
    let first = (sum / 2 ^ 16 + sum % 2 ^ 16) % 2 ^ 32 in
    let second = (first + first / 2 ^ 16) % 2 ^ 32 in 2 ^ 16 - 1 - second % 2 ^ 16

unfoldable pub in_cksum : List ℕ → ℕ
in_cksum bytes = fold_carry (sum_words 0 bytes)

fold_carry-lt : (n : ℕ) → fold_carry n < 2 ^ 16
unfolding fold_carry
fold_carry-lt n = omega arith

-- Adding the answer to the sum makes it fold to zero.
fold_carry-verifies : (n : ℕ) → n < 2 ^ 31 → fold_carry (n + fold_carry n) ≡ 0
unfolding fold_carry
fold_carry-verifies n h = omega arith

-- The sum without wrapping.
plain_sum : List ℕ → ℕ
plain_sum [] = 0
plain_sum (b ∷ []) = b
plain_sum (b ∷ c ∷ rest) = b + 256 * c + plain_sum rest

abbrev pub AreBytes : List ℕ → Type 0
AreBytes = All (λ b. b < 256)

sum_words-plain :
    (xs : List ℕ) (n : ℕ) → n + plain_sum xs < 2 ^ 32 → sum_words n xs ≡ n + plain_sum xs
unfolding sum_words plain_sum
sum_words-plain [] n h = omega arith
sum_words-plain (b ∷ []) n h = omega arith
sum_words-plain (b ∷ c ∷ rest) n h =
    let here : (n + (b + 256 * c)) % 2 ^ 32 ≡ n + (b + 256 * c) = omega arith in
    rw (here) (omega (arith, sum_words-plain rest (n + (b + 256 * c)) (omega arith)))

plain_sum-bound : (xs : List ℕ) → AreBytes xs → plain_sum xs ≤ 65535 * length xs
unfolding plain_sum
plain_sum-bound [] h = omega arith
plain_sum-bound (b ∷ []) (h, _) = omega arith
plain_sum-bound (b ∷ c ∷ rest) (h, (k, r)) = omega (arith, plain_sum-bound rest r)

in_cksum-plain : (xs : List ℕ) → plain_sum xs < 2 ^ 32 → in_cksum xs ≡ fold_carry (plain_sum xs)
unfolding in_cksum
in_cksum-plain xs h = ap fold_carry (sum_words-plain xs 0 (omega arith) ∙ omega arith)

plain_sum_field :
    (a b x y : ℕ) (rest : List ℕ)
    → plain_sum (a ∷ b ∷ x ∷ y ∷ rest) ≡ a + 256 * b + (x + 256 * y + plain_sum rest)
unfolding plain_sum
plain_sum_field a b x y rest = refl

-- The sender's procedure: the checksum of a message whose checksum field is zero, stored in
-- that field low byte first, makes the checksum of the whole message zero, which is what a
-- receiver tests. The message is of bytes, at most 1500 of them after the field.
pub in_cksum-verifies :
    (kind code : ℕ) (rest : List ℕ)
    → AreBytes (kind ∷ code ∷ rest)
    → length rest ≤ 1500
    → let sum = in_cksum (kind ∷ code ∷ 0 ∷ 0 ∷ rest) in
      in_cksum (kind ∷ code ∷ sum % 256 ∷ sum / 256 ∷ rest) ≡ 0
in_cksum-verifies kind code rest (h, (k, bytes)) l =
    let before = kind ∷ code ∷ 0 ∷ 0 ∷ rest in
    let n = plain_sum before in
    let s = fold_carry n in
    let after = kind ∷ code ∷ s % 256 ∷ s / 256 ∷ rest in
    let small : n < 2 ^ 31 =
      omega (arith, plain_sum_field kind code 0 0 rest, plain_sum-bound rest bytes) in
    let more : plain_sum after ≡ n + s = omega (
      arith,
      plain_sum_field kind code 0 0 rest,
      plain_sum_field kind code (s % 256) (s / 256) rest,
    ) in
    rw (in_cksum-plain before (omega (arith, small))) (
      in_cksum-plain after (omega (arith, small, more, fold_carry-lt n))
      ∙ ap fold_carry more
      ∙ fold_carry-verifies n small)
