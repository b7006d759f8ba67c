-- ===== src/Weather/Baro.antt =====
-- crates/loa-weather/src/baro.rs: the BMP180's compensation, on unbounded integers: the
-- wrap-around of i64, which only words far from a real chip's reach, is left out. `none` is the
-- panic of a division by zero. A temperature is in tenths of a degree.
pub mod Division
use loa.Base.{
  ℕ, zero, suc, ◌+◌, ◌-◌, ◌*◌, ◌/◌, ◌%◌, ◌^◌, ◌≡◌, refl, Option, none, some, List, [], ◌∷◌,
  if◌then◌else◌,
}
use loa.Base.Int.{ℤ, pos, negsuc, ◌+ℤ◌, ◌-ℤ◌, ◌*ℤ◌, ltb_ℤ}

-- The greatest integer that is at most a / n.
unfoldable pub floor_by : ℤ → ℕ → ℤ
floor_by (pos a) n = pos (a / n)
floor_by (negsuc a) n = negsuc (a / n)

abbrev pub negate : ℤ → ℤ
negate (pos zero) = pos 0
negate (pos (suc n)) = negsuc n
negate (negsuc n) = pos (suc n)

-- a.div_euclid(b)
unfoldable pub fdiv : ℤ → ℤ → Option ℤ
unfolding floor_by
fdiv a (pos zero) = none
fdiv a (pos (suc n)) = some (floor_by a (suc n))
fdiv a (negsuc n) = some (negate (floor_by a (suc n)))

-- a >> k
infixl 60 ◌>>ℤ◌
unfoldable pub ◌>>ℤ◌ : ℤ → ℕ → ℤ
unfolding floor_by
a >>ℤ k = floor_by a (2 ^ k)

pub record Cal : Type 0 where
  pub ac1 : ℤ
  pub ac2 : ℤ
  pub ac3 : ℤ
  pub ac4 : ℤ
  pub ac5 : ℤ
  pub ac6 : ℤ
  pub b1 : ℤ
  pub b2 : ℤ
  pub mb : ℤ
  pub mc : ℤ
  pub md : ℤ

infixl 5 ◌>>=◌
abbrev pub ◌>>=◌ {ℓ κ} : {A : Type ℓ} {B : Type κ} → Option A → (A → Option B) → Option B
none >>= f = none
some a >>= f = f a

-- The true temperature's b5.
unfoldable pub b5_of : Cal → ℤ → Option ℤ
b5_of c ut = do
  let x1 = ((ut -ℤ c.ac6) *ℤ c.ac5) >>ℤ 15
  x2 ← fdiv (c.mc *ℤ pos 2048) (x1 +ℤ c.md)
  some (x1 +ℤ x2)

unfoldable pub b3_of : Cal → ℤ → ℤ
unfolding ◌>>ℤ◌ ◌+ℤ◌ ◌-ℤ◌ ◌*ℤ◌
b3_of c b6 =
    let x1 = (c.b2 *ℤ ((b6 *ℤ b6) >>ℤ 12)) >>ℤ 11 in
    let x2 = (c.ac2 *ℤ b6) >>ℤ 11 in ((c.ac1 *ℤ pos 4 +ℤ (x1 +ℤ x2)) +ℤ pos 2) >>ℤ 2

unfoldable pub b4_of : Cal → ℤ → ℤ
unfolding ◌>>ℤ◌ ◌+ℤ◌ ◌-ℤ◌ ◌*ℤ◌
b4_of c b6 =
    let x1 = (c.ac3 *ℤ b6) >>ℤ 13 in
    let x2 = (c.b1 *ℤ ((b6 *ℤ b6) >>ℤ 12)) >>ℤ 16 in
    let x3 = ((x1 +ℤ x2) +ℤ pos 2) >>ℤ 2 in (c.ac4 *ℤ (x3 +ℤ pos 32768)) >>ℤ 15

-- `if b7 < 0x8000_0000 { fdiv(b7 * 2, b4) } else { fdiv(b7, b4) * 2 }`
unfoldable pub quotient : ℤ → ℤ → Option ℤ
unfolding fdiv ◌*ℤ◌
quotient b7 b4 =
    if ltb_ℤ b7 (pos 0x8000_0000)
    then fdiv (b7 *ℤ pos 2) b4
    else (do q ← fdiv b7 b4; some (q *ℤ pos 2))

-- The last correction of the pressure.
unfoldable pub corrected : ℤ → ℤ
unfolding ◌>>ℤ◌ ◌+ℤ◌ ◌*ℤ◌
corrected p =
    let x1 = (p >>ℤ 8) *ℤ (p >>ℤ 8) in
    let x1 = (x1 *ℤ pos 3038) >>ℤ 16 in
    let x2 = (negsuc 7356 *ℤ p) >>ℤ 16 in p +ℤ ((x1 +ℤ x2 +ℤ pos 3791) >>ℤ 4)

-- (the temperature in tenths, the pressure in Pa)
unfoldable pub compensate : Cal → ℤ → ℤ → Option (ℤ × ℤ)
compensate c ut up = do
  b5 ← b5_of c ut
  let b6 = b5 -ℤ pos 4000
  let b7 = (up -ℤ b3_of c b6) *ℤ pos 50000
  p ← quotient b7 (b4_of c b6)
  some ((b5 +ℤ pos 8) >>ℤ 4, corrected p)

-- The two bytes of a calibration word, high byte first: signed, and unsigned.
unfoldable pub signed_word : ℕ → ℕ → ℤ
signed_word hi lo =
    let n = hi * 256 + lo in if ltb_ℤ (pos n) (pos 32768) then pos n else negsuc (65535 - n)

unfoldable pub unsigned_word : ℕ → ℕ → ℤ
unsigned_word hi lo = pos (hi * 256 + lo)
