-- ===== src/Base/Bits.antt =====
-- The bits of a number: a write and a read of one, and when an exclusive or, and an or, is zero.
use Prim.Native.Nat.{
  ℕ, zero, suc, ◌+◌, ◌*◌, ◌/◌, ◌%◌, ◌≤◌, max, digits, differ, bit_or, bit_or-bitwise, bit_xor,
  bit_xor-bitwise,
}
use mathlib.Core.Path.{◌≡◌, refl, ◌∙◌, sym, ap}
use mathlib.Core.Logic.{◌↔◌, ◌≢◌}
use mathlib.Core.Bool.{Bool, true, false}
use native.Mathlib.Omega.{arith}

differ_iff : (x y : ℕ) → (differ x y ≡ 0) ↔ (x ≡ y)
differ_iff zero zero = (λ _. refl, λ _. refl)
differ_iff zero (suc y) = (λ e. omega arith, λ e. omega arith)
differ_iff (suc x) zero = (λ e. omega arith, λ e. omega arith)
differ_iff (suc x) (suc y) =
    (λ e. omega (arith, (differ_iff x y).0 e), λ e. (differ_iff x y).1 (omega arith))

xor_digits_iff : (n a b : ℕ) → a ≤ n → (digits (λ t. t) differ n a b ≡ 0) ↔ (a ≡ b)
xor_digits_iff zero a b h = (λ e. omega arith, λ e. omega arith)
xor_digits_iff (suc n) zero b h = (λ e. omega arith, λ e. omega arith)
xor_digits_iff (suc n) (suc a) b h =
    let (to, from) = xor_digits_iff n (suc a / 2) (b / 2) (omega arith) in
    let (same, unlike) = differ_iff (suc a % 2) (b % 2) in
    (
      λ e. omega (arith, to (omega arith), same (omega arith)),
      λ e. omega (arith, from (omega arith), unlike (omega arith)),
    )

pub bit_xor_iff : (a b : ℕ) → (bit_xor a b ≡ 0) ↔ (a ≡ b)
bit_xor_iff a b =
    let (to, from) = xor_digits_iff a a b (omega arith) in
    (λ e. to (sym (bit_xor-bitwise a b) ∙ e), λ e. bit_xor-bitwise a b ∙ from e)

or_digits_iff : (n a b : ℕ) → a ≤ n → (digits (λ t. t) max n a b ≡ 0) ↔ ((a ≡ 0) × (b ≡ 0))
or_digits_iff zero a b h = (λ e. (omega arith, e), λ e. e.1)
or_digits_iff (suc n) zero b h = (λ e. (refl, e), λ e. e.1)
or_digits_iff (suc n) (suc a) b h =
    let (to, from) = or_digits_iff n (suc a / 2) (b / 2) (omega arith) in
    (λ e. let (x, y) = to (omega arith) in (omega arith, omega arith), λ e. omega (arith, e.0))

pub bit_or_iff : (a b : ℕ) → (bit_or a b ≡ 0) ↔ ((a ≡ 0) × (b ≡ 0))
bit_or_iff a b =
    let (to, from) = or_digits_iff a a b (omega arith) in
    (λ e. to (sym (bit_or-bitwise a b) ∙ e), λ e. bit_or-bitwise a b ∙ from e)

abbrev pub bit_of : Bool → ℕ
bit_of true = 1
bit_of false = 0

-- `b |= 1 << k`, and `b &= !(1 << k)`: bit k becomes the one given, the others stay.
unfoldable pub with_bit : ℕ → ℕ → Bool → ℕ
with_bit b zero on = b / 2 * 2 + bit_of on
with_bit b (suc k) on = with_bit (b / 2) k on * 2 + b % 2

-- Bit k of a byte.
unfoldable pub bit : ℕ → ℕ → ℕ
bit b zero = b % 2
bit b (suc k) = bit (b / 2) k

pub bit-with_bit_self : (b k : ℕ) (on : Bool) → bit (with_bit b k on) k ≡ bit_of on
unfolding bit with_bit
bit-with_bit_self b zero true = omega arith
bit-with_bit_self b zero false = omega arith
bit-with_bit_self b (suc k) on =
    let low : (with_bit (b / 2) k on * 2 + b % 2) / 2 ≡ with_bit (b / 2) k on = omega arith in
    rw low (bit-with_bit_self (b / 2) k on)

pub bit-with_bit_ne : (b k j : ℕ) (on : Bool) → k ≢ j → bit (with_bit b k on) j ≡ bit b j
unfolding bit with_bit
bit-with_bit_ne b zero zero on h = absurd (h refl)
bit-with_bit_ne b zero (suc j) true h =
    let low : (b / 2 * 2 + 1) / 2 ≡ b / 2 = omega arith in rw low refl
bit-with_bit_ne b zero (suc j) false h =
    let low : (b / 2 * 2 + 0) / 2 ≡ b / 2 = omega arith in rw low refl
bit-with_bit_ne b (suc k) zero on h = omega arith
bit-with_bit_ne b (suc k) (suc j) on h =
    let low : (with_bit (b / 2) k on * 2 + b % 2) / 2 ≡ with_bit (b / 2) k on = omega arith in
    rw low (bit-with_bit_ne (b / 2) k j on (λ e. h (ap suc e)))
