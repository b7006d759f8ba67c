-- ===== src/Base/Floats.antt =====
-- The f64 operations that the daemons use on times and distances. The language has no floats, so
-- the type and its operations are an argument of every definition that touches one, and a theorem
-- that needs a law of them names it. `fixed_point` is an instance to evaluate with.
use Prim.Native.Nat.{ℕ, ◌+◌, ◌*◌, ◌/◌, ◌%◌}
use mathlib.Core.Bool.{Bool, ◌&&◌}
use loa.Base.Int.{ℤ, pos, negsuc, ◌+ℤ◌, ◌*ℤ◌, ◌-ℤ◌, leb_ℤ, ltb_ℤ, abs_ℤ}

pub record Floats (F : Type 0) : Type 0 where
  pub zero : F  -- 0.0
  pub lit : ℕ → ℕ → F  -- the literal n / d, for d a power of ten
  pub sub : F → F → F  -- a - b
  pub add : F → F → F  -- a + b
  pub mul : F → F → F  -- a * b
  pub div : F → F → F  -- a / b
  pub neg : F → F  -- -a
  pub eq : F → F → Bool  -- a == b
  pub of_ℕ : ℕ → F  -- n as f64
  pub abs : F → F  -- a.abs()
  pub le : F → F → Bool  -- a <= b
  pub lt : F → F → Bool  -- a < b
  pub to_bits : F → ℕ  -- a.to_bits()

-- The rest of what the lights and the face do with a double.
pub record Maths (F : Type 0) : Type 0 where
  pub rem : F → F → F  -- a % b
  pub rem_euclid : F → F → F
  pub sin : F → F
  pub cos : F → F
  pub exp : F → F
  pub powf : F → F → F
  pub round : F → F
  pub floor : F → F
  pub pi : F
  pub as_usize : F → ℕ
  pub as_i64 : F → ℤ
  pub of_i64 : ℤ → F

abbrev bits_ℤ : ℤ → ℕ
bits_ℤ (pos n) = 2 * n
bits_ℤ (negsuc n) = 2 * n + 1

abbrev thousandth : ℤ → ℤ
thousandth (pos n) = pos (n / 1000)
thousandth (negsuc n) = negsuc (n / 1000)

-- Rounded to zero; a division by zero gives zero here.
abbrev divided : ℤ → ℤ → ℤ
divided (pos a) (pos b) = pos (a * 1000 / b)
divided (pos a) (negsuc b) = pos 0 -ℤ pos (a * 1000 / (b + 1))
divided (negsuc a) (pos b) = pos 0 -ℤ pos ((a + 1) * 1000 / b)
divided (negsuc a) (negsuc b) = pos ((a + 1) * 1000 / (b + 1))

-- Integers that count thousandths.
instance abbrev pub fixed_point : Floats ℤ
fixed_point = record {
  zero = pos 0;
  lit = λ n d. pos (n * 1000 / d);
  sub = ◌-ℤ◌;
  add = ◌+ℤ◌;
  mul = λ a b. thousandth (a *ℤ b);
  div = divided;
  neg = λ a. pos 0 -ℤ a;
  eq = λ a b. leb_ℤ a b && leb_ℤ b a;
  of_ℕ = λ n. pos (n * 1000);
  abs = abs_ℤ;
  le = leb_ℤ;
  lt = ltb_ℤ;
  to_bits = bits_ℤ;
}

-- Thousandths, with a remainder and straight waves.
abbrev left_over : ℤ → ℤ → ℤ
left_over (pos a) (pos b) = pos (a % b)
left_over a b = pos 0

abbrev whole : ℤ → ℕ
whole (pos n) = n / 1000
whole (negsuc n) = 0

instance abbrev pub straight : Maths ℤ
straight = record {
  rem = left_over;
  rem_euclid = left_over;
  sin = λ a. a;
  cos = λ a. a;
  exp = λ a. a;
  powf = λ a b. a;
  round = λ a. a;
  floor = λ a. pos (whole a * 1000);
  pi = pos 3142;
  as_usize = whole;
  as_i64 = λ a. pos (whole a);
  of_i64 = λ a. a;
}
