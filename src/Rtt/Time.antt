-- ===== src/Rtt/Time.antt =====
-- tv_sub of assignment-2/q1/utils.c.
use netprog_assignments.Base.{
  ℕ, zero, suc, ◌+◌, ◌*◌, ◌≤◌, ◌<◌, ◌≡◌, refl, arith, ℤ, pos, negsuc, pos_part, neg_part, ◌+ℤ◌,
  ◌-ℤ◌, ◌≤ℤ◌, sub_ℕ, eq_ℤ-true, Bool-cases, inl, inr, ltb_ℤ, dec, if◌then◌else◌,
}

pub record Timeval : Type 0 where
  pub tv_sec : ℤ
  pub tv_usec : ℤ

unfoldable pub tv_sub : Timeval → Timeval → Timeval
tv_sub out t =
    let usec = out.tv_usec -ℤ t.tv_usec in
    let borrowed =
      if ltb_ℤ usec (pos 0)
      then record { tv_sec = dec out.tv_sec; tv_usec = usec +ℤ pos 1000000 }
      else record { tv_sec = out.tv_sec; tv_usec = usec } in
    record borrowed { tv_sec = borrowed.tv_sec -ℤ t.tv_sec }

-- A second in microseconds.
abbrev pub million : ℤ → ℤ
million (pos n) = pos (1000000 * n)
million (negsuc n) = negsuc (1000000 * n + 999999)

unfoldable pub micros : Timeval → ℤ
micros t = million t.tv_sec +ℤ t.tv_usec

abbrev pub IsNormal : Timeval → Type 0
IsNormal t = (pos 0 ≤ℤ t.tv_usec) × (t.tv_usec ≤ℤ pos 999999)

pub sub_parts : (a b : ℕ) → pos_part (sub_ℕ a b) + b ≡ a + neg_part (sub_ℕ a b)
sub_parts a b = ground arith

+ℤ_parts :
    (a b : ℤ)
    → pos_part (a +ℤ b) + (neg_part a + neg_part b) ≡ pos_part a + pos_part b + neg_part (a +ℤ b)
unfolding ◌+ℤ◌
+ℤ_parts a b = sub_parts (pos_part a + pos_part b) (neg_part a + neg_part b)

-ℤ_parts :
    (a b : ℤ)
    → pos_part (a -ℤ b) + (neg_part a + pos_part b) ≡ pos_part a + neg_part b + neg_part (a -ℤ b)
unfolding ◌-ℤ◌
-ℤ_parts a b = sub_parts (pos_part a + neg_part b) (neg_part a + pos_part b)

million_parts :
    (a : ℤ)
    → pos_part (million a) + 1000000 * neg_part a ≡ 1000000 * pos_part a + neg_part (million a)
million_parts (pos n) = omega arith
million_parts (negsuc n) = omega arith

dec_parts : (a : ℤ) → pos_part (dec a) + neg_part a + 1 ≡ pos_part a + neg_part (dec a)
dec_parts (pos zero) = refl
dec_parts (pos (suc n)) = omega arith
dec_parts (negsuc n) = omega arith

eq_of_parts : (a b : ℤ) → pos_part a + neg_part b ≡ pos_part b + neg_part a → a ≡ b
eq_of_parts a b h = eq_ℤ-true a b (ground arith)

-- `tv_sub` is exact to the microsecond, and the difference of two normal times is normal.
pub tv_sub_exact :
    (out t : Timeval)
    → IsNormal out
    → IsNormal t
    → (micros (tv_sub out t) ≡ micros out -ℤ micros t) × IsNormal (tv_sub out t)
unfolding tv_sub micros
tv_sub_exact out t h k =
    let u = out.tv_usec -ℤ t.tv_usec in
    elim (Bool-cases (ltb_ℤ u (pos 0))) [
      | inl e ↦
          let low : pos_part u + 0 < 0 + neg_part u = ground arith in
          rw e (
            eq_of_parts (million ((dec out.tv_sec) -ℤ t.tv_sec) +ℤ (u +ℤ pos 1000000))
                (micros out -ℤ micros t)
                (omega (
                  arith,
                  +ℤ_parts (million ((dec out.tv_sec) -ℤ t.tv_sec)) (u +ℤ pos 1000000),
                  +ℤ_parts (million out.tv_sec) out.tv_usec,
                  +ℤ_parts (million t.tv_sec) t.tv_usec,
                  -ℤ_parts (micros out) (micros t),
                  million_parts ((dec out.tv_sec) -ℤ t.tv_sec),
                  million_parts out.tv_sec,
                  million_parts t.tv_sec,
                  -ℤ_parts (dec out.tv_sec) t.tv_sec,
                  dec_parts out.tv_sec,
                  -ℤ_parts out.tv_usec t.tv_usec,
                  +ℤ_parts u (pos 1000000),
                )),
            (
              omega (arith, +ℤ_parts u (pos 1000000), -ℤ_parts out.tv_usec t.tv_usec),
              omega (arith, +ℤ_parts u (pos 1000000), -ℤ_parts out.tv_usec t.tv_usec),
            ),
          )
      | inr e ↦
          let high : neg_part u ≤ pos_part u = ground arith in
          rw e (
            eq_of_parts (million (out.tv_sec -ℤ t.tv_sec) +ℤ u) (micros out -ℤ micros t) (
                omega (
                  arith,
                  +ℤ_parts (million (out.tv_sec -ℤ t.tv_sec)) u,
                  +ℤ_parts (million out.tv_sec) out.tv_usec,
                  +ℤ_parts (million t.tv_sec) t.tv_usec,
                  -ℤ_parts (micros out) (micros t),
                  million_parts (out.tv_sec -ℤ t.tv_sec),
                  million_parts out.tv_sec,
                  million_parts t.tv_sec,
                  -ℤ_parts out.tv_sec t.tv_sec,
                  dec_parts out.tv_sec,
                  -ℤ_parts out.tv_usec t.tv_usec,
                  +ℤ_parts u (pos 1000000),
                )),
            (
              omega (arith, -ℤ_parts out.tv_usec t.tv_usec),
              omega (arith, -ℤ_parts out.tv_usec t.tv_usec),
            ),
          )
    ]
