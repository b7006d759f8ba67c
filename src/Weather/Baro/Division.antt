-- ===== src/Weather/Baro/Division.antt =====
-- The division of crates/loa-weather/src/baro.rs against the floor division that it is meant to be.
use native.Mathlib.Decide.{dec_lt}
use native.Mathlib.Nat.{div-add-mod, div-add-mod', mul-add-div, div-eq_of_lt, div_self}
use loa.Base.{
  ℕ, zero, suc, ◌+◌, ◌-◌, ◌*◌, ◌/◌, ◌%◌, ◌<◌, ◌≡◌, refl, ap, ◌∙◌, ◌⊎◌, inl, inr, Bool, true, false,
  none, some, arith, ◌==◌, if◌then◌else◌,
}
use loa.Base.Int.{ℤ, pos, negsuc, ◌+ℤ◌, ◌*ℤ◌}
use loa.Weather.Baro.{floor_by, negate, fdiv, Cal, compensate, b5_of, ◌>>ℤ◌}

-- Python's `a // b`: the greatest integer that is at most the quotient, for b other than 0.
pub floor_div : ℤ → ℤ → ℤ
floor_div a (pos n) = floor_by a n
floor_div a (negsuc n) = floor_by (negate a) (suc n)

abbrev pub divides : ℕ → ℤ → Bool
divides n (pos a) = a % n == 0
divides n (negsuc a) = suc a % n == 0

whole : (a n : ℕ) → ¬ (a % suc n + 1 < suc n) → a % suc n + 1 ≡ suc n
whole a n ge = omega arith

-- From a to a + 1 the quotient by suc n grows exactly where the division becomes exact.
div_step :
    (a n : ℕ)
    → (((suc a % suc n == 0) ≡ true) × (suc a / suc n ≡ suc (a / suc n)))
      ⊎ (((suc a % suc n == 0) ≡ false) × (suc a / suc n ≡ a / suc n))
div_step a n =
    let split : suc a ≡ suc n * (a / suc n) + (a % suc n + 1) =
      omega (arith, div-add-mod a (suc n)) in
    let grown : suc a / suc n ≡ a / suc n + (a % suc n + 1) / suc n =
      ap (λ (t : ℕ). t / suc n) split ∙ mul-add-div (omega arith) (a / suc n) (a % suc n + 1) in
    elim (dec_lt (a % suc n + 1) (suc n)) [
      | yes lt ↦
          let same : suc a / suc n ≡ a / suc n = omega (arith, grown, div-eq_of_lt lt) in
          inr (
            ground (
              arith,
              div-add-mod' (suc a) (suc n),
              div-add-mod' a (suc n),
              ap (λ (t : ℕ). t * suc n) same,
            ),
            same,
          )
      | no ge ↦
          let one : (a % suc n + 1) / suc n ≡ 1 =
            ap (λ (t : ℕ). t / suc n) (whole a n ge) ∙ div_self (omega arith) in
          let more : suc a / suc n ≡ suc (a / suc n) = omega (arith, grown, one) in
          inl (
            ground (
              arith,
              div-add-mod' (suc a) (suc n),
              div-add-mod' a (suc n),
              ap (λ (t : ℕ). t * suc n) more,
            ),
            more,
          )
    ]

-- For a positive divisor `fdiv` is the floor; for a negative one it is the floor only if the
-- division is exact, and one more if it is not.
pub fdiv-floor_div :
    (a : ℤ) (n : ℕ)
    → (fdiv a (pos (suc n)) ≡ some (floor_div a (pos (suc n))))
      × (fdiv a (negsuc n)
          ≡ some (
              if divides (suc n) a
              then floor_div a (negsuc n)
              else floor_div a (negsuc n) +ℤ pos 1))
unfolding fdiv floor_div floor_by ◌+ℤ◌
fdiv-floor_div (pos zero) n = (refl, ground arith)
fdiv-floor_div (pos (suc a)) n = (refl, ground (arith, div_step a n))
fdiv-floor_div (negsuc a) n = (refl, ground (arith, div_step a n))

-- By a positive divisor `fdiv` gives a quotient that leaves a remainder which is not negative and is
-- smaller than the divisor.
pub fdiv-Euclid :
    (a : ℤ) (n : ℕ)
    → (q : ℤ) × (r : ℕ) × (fdiv a (pos (suc n)) ≡ some q)
      × (r < suc n)
      × (a ≡ q *ℤ pos (suc n) +ℤ pos r)
unfolding fdiv floor_by ◌+ℤ◌ ◌*ℤ◌
fdiv-Euclid (pos a) n = (pos (a / suc n), a % suc n, refl, omega arith, grind arith)
fdiv-Euclid (negsuc a) n = (negsuc (a / suc n), n - a % suc n, refl, omega arith, grind arith)

mul-pos_zero : (a : ℤ) → a *ℤ pos 0 ≡ pos 0
unfolding ◌*ℤ◌
mul-pos_zero a = ground arith

shifted_zero : (pos 0 >>ℤ 15) +ℤ pos 0 ≡ pos 0
unfolding ◌>>ℤ◌ ◌+ℤ◌
shifted_zero = refl

fdiv-pos_zero : (a : ℤ) → fdiv a (pos 0) ≡ none
unfolding fdiv
fdiv-pos_zero a = refl

zero_divisor : (c : Cal) (ut : ℤ) → c.ac5 ≡ pos 0 → c.md ≡ pos 0 → b5_of c ut ≡ none
unfolding b5_of
zero_divisor c ut e d = simp (e, d, mul-pos_zero, shifted_zero, fdiv-pos_zero)

-- Where ac5 and md of the calibration are zero, as from a chip that answers with zeros, the
-- compensation of any measurement divides by zero.
pub compensate-zero_cal :
    (c : Cal) (ut up : ℤ) → c.ac5 ≡ pos 0 → c.md ≡ pos 0 → compensate c ut up ≡ none
unfolding compensate
compensate-zero_cal c ut up e d = unfold compensate in rw (zero_divisor c ut e d)
