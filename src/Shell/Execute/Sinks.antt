-- ===== src/Shell/Execute/Sinks.antt =====
-- Where each command of a stage writes, and whether it hands its input on.
use netprog_assignments.Base.{
  ℕ, suc, ◌+◌, ◌≡◌, refl, true, false, ◌==◌, ◌<◌, pos, negsuc, arith, ap, if_either,
}
use netprog_assignments.Shell.Command.{Command, PipeCount, single_pipe, double_pipe, triple_pipe}
use netprog_assignments.Shell.Command.Bounds.{IsParsed}
use netprog_assignments.Shell.Execute.{standard_output, pipe, write_fd, hands_on}

-- `write_fd` of each kind of command before the last stage, and `hands_on`.
module _ (count i : ℕ) (c : Command) where
  pub single_sink : IsParsed (pos 0) single_pipe c → i + 1 < count → write_fd count i c ≡ pipe i
  unfolding write_fd
  single_sink (h, k, l) m = let more : (i + 1 == count) ≡ false = ground arith in rw (more, h)

  pub first_of_two :
      IsParsed (negsuc 0) double_pipe c → i + 2 < count → write_fd count i c ≡ pipe (suc i)
  unfolding write_fd
  first_of_two (h, k, l) m =
      let more : (i + 1 == count) ≡ false = ground arith in
      let more2 : (i + 2 == count) ≡ false = ground arith in
      rw (more, h, k, more2) (ap pipe (omega arith))

  pub second_of_two :
      IsParsed (negsuc 1) double_pipe c → i + 1 < count → write_fd count i c ≡ pipe i
  unfolding write_fd
  second_of_two (h, k, l) m = let more : (i + 1 == count) ≡ false = ground arith in rw (more, h, k)

  pub last_sink : i + 1 ≡ count → write_fd count i c ≡ standard_output
  unfolding write_fd
  last_sink m = let last : (i + 1 == count) ≡ true = ground arith in rw last

  pub last_first_of_two :
      IsParsed (negsuc 0) double_pipe c → i + 2 ≡ count → write_fd count i c ≡ standard_output
  unfolding write_fd
  last_first_of_two (h, k, l) m =
      let more : (i + 1 == count) ≡ false = ground arith in
      let more2 : (i + 2 == count) ≡ true = ground arith in rw (more, h, k, more2)

  pub first_hands :
      {n : PipeCount} → IsParsed (negsuc 0) n c → i + 1 < count → hands_on count i c ≡ true
  unfolding hands_on
  first_hands (h, k, l) m = let more : (i + 1 == count) ≡ false = ground arith in rw (more, h)

  pub single_keeps : IsParsed (pos 0) single_pipe c → hands_on count i c ≡ false
  unfolding hands_on
  single_keeps (h, k, l) = rw h (if_either (λ b. b ≡ false) (i + 1 == count) refl refl)

  pub second_keeps : IsParsed (negsuc 1) double_pipe c → hands_on count i c ≡ false
  unfolding hands_on
  second_keeps (h, k, l) = rw (h, k) (if_either (λ b. b ≡ false) (i + 1 == count) refl refl)

  pub first_of_three :
      IsParsed (negsuc 0) triple_pipe c → i + 3 < count → write_fd count i c ≡ pipe (suc (suc i))
  unfolding write_fd
  first_of_three (h, k, l) m =
      let more : (i + 1 == count) ≡ false = ground arith in
      let more3 : (i + 3 == count) ≡ false = ground arith in
      rw (more, h, k, more3) (ap pipe (omega arith))

  pub second_of_three :
      IsParsed (negsuc 1) triple_pipe c → i + 2 < count → write_fd count i c ≡ pipe (suc i)
  unfolding write_fd
  second_of_three (h, k, l) m =
      let more : (i + 1 == count) ≡ false = ground arith in
      let more2 : (i + 2 == count) ≡ false = ground arith in
      rw (more, h, k, more2) (ap pipe (omega arith))

  pub third_sink : IsParsed (negsuc 2) triple_pipe c → i + 1 < count → write_fd count i c ≡ pipe i
  unfolding write_fd
  third_sink (h, k, l) m = let more : (i + 1 == count) ≡ false = ground arith in rw (more, h)

  pub last_first_of_three :
      IsParsed (negsuc 0) triple_pipe c → i + 3 ≡ count → write_fd count i c ≡ standard_output
  unfolding write_fd
  last_first_of_three (h, k, l) m =
      let more : (i + 1 == count) ≡ false = ground arith in
      let more3 : (i + 3 == count) ≡ true = ground arith in rw (more, h, k, more3)

  pub last_second_of_three :
      IsParsed (negsuc 1) triple_pipe c → i + 2 ≡ count → write_fd count i c ≡ standard_output
  unfolding write_fd
  last_second_of_three (h, k, l) m =
      let more : (i + 1 == count) ≡ false = ground arith in
      let more2 : (i + 2 == count) ≡ true = ground arith in rw (more, h, k, more2)

  pub second_hands : IsParsed (negsuc 1) triple_pipe c → i + 1 < count → hands_on count i c ≡ true
  unfolding hands_on
  second_hands (h, k, l) m = let more : (i + 1 == count) ≡ false = ground arith in rw (more, h, k)

  pub third_keeps : IsParsed (negsuc 2) triple_pipe c → hands_on count i c ≡ false
  unfolding hands_on
  third_keeps (h, k, l) = rw h (if_either (λ b. b ≡ false) (i + 1 == count) refl refl)
