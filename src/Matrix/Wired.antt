-- ===== src/Matrix/Wired.antt =====
-- The lights of the 8x8 panel of rust/loa-matrix/src/ht16k33.rs, and what a write of a pixel lights.
use loa.Base.{
  ℕ, ◌+◌, ◌-◌, ◌*◌, ◌%◌, ◌<◌, ◌≡◌, ◌≢◌, refl, ◌∙◌, ap, inl, inr, Bool, true, false, ◌&&◌, ◌||◌,
  List, ltb, ◌==◌, length, get_or, arith, Bool-cases, ==_iff, get_or-set_self, get_or-set_ne,
  length-set,
}
use loa.Base.Bits.{bit, with_bit, bit-with_bit_self, bit-with_bit_ne}
use loa.Matrix.{Matrix, ram, rotate, rotate_by, write_at, set}

-- The light at column x from the left and row y from the top, as the panel is wired.
unfoldable pub lit : List ℕ → ℕ × ℕ → Bool
unfolding bit
lit frame (x, y) = bit (get_or frame (2 * (7 - x)) 0) ((y + 7) % 8) == 1

-- The light where the pixel (x, y) of an upright picture is, on a panel that is turned.
unfoldable pub at : Matrix → ℕ → ℕ → Bool
unfolding lit rotate
at m x y = lit m.frame (rotate m x y)

abbrev pub Inside : ℕ × ℕ → Type 0
Inside (x, y) = (x < 8) × (y < 8)

abbrev pub same : ℕ × ℕ → ℕ × ℕ → Bool
same (x, y) (a, b) = (x == a) && (y == b)

pub rotate_by-Inside : (d x y : ℕ) → x < 8 → y < 8 → Inside (rotate_by d x y)
rotate_by-Inside d x y hx hy = ground arith

-- No two pixels of a picture go to one light.
pub same-rotate_by :
    (d x y a b : ℕ)
    → x < 8
    → y < 8
    → a < 8
    → b < 8
    → same (rotate_by d x y) (rotate_by d a b) ≡ same (x, y) (a, b)
same-rotate_by d x y a b hx hy ha hb = ground arith

pub and_true : (b : Bool) → (b && true) ≡ b
and_true true = refl
and_true false = refl

pub and_false : (b : Bool) → (b && false) ≡ false
and_false true = refl
and_false false = refl

pub column_ne : (x a : ℕ) → x < 8 → a < 8 → (x == a) ≡ false → 2 * (7 - x) ≢ 2 * (7 - a)
column_ne x a hx ha e = λ m. ground (arith, e, m)

pub bit_ne : (y b : ℕ) → y < 8 → b < 8 → (y == b) ≡ false → (y + 7) % 8 ≢ (b + 7) % 8
bit_ne y b hy hb e = λ m. ground (arith, e, m)

-- One write lights one light.
pub lit-write_at :
    (m : Matrix) (x y a b : ℕ)
    → length m.frame ≡ 16
    → x < 8
    → y < 8
    → a < 8
    → b < 8
    → lit (write_at m (ram x y) true).frame (a, b) ≡ (same (x, y) (a, b) || lit m.frame (a, b))
unfolding lit write_at ram
lit-write_at m x y a b n hx hy ha hb = elim (Bool-cases (x == a)) [
  | inl e ↦
      let ex : x ≡ a = (==_iff x a).0 e in
      elim (Bool-cases (y == b)) [
        | inl e' ↦
            let ey : y ≡ b = (==_iff y b).0 e' in
            rw
              (
                e,
                e',
                ex,
                ey,
                get_or-set_self m.frame (2 * (7 - a))
                    (with_bit (get_or m.frame (2 * (7 - a)) 0) ((b + 7) % 8) true) 0 (omega arith),
                bit-with_bit_self (get_or m.frame (2 * (7 - a)) 0) ((b + 7) % 8) true,
              )
              refl
        | inr e' ↦
            rw
              (
                e,
                e',
                ex,
                get_or-set_self m.frame (2 * (7 - a))
                    (with_bit (get_or m.frame (2 * (7 - a)) 0) ((y + 7) % 8) true) 0 (omega arith),
                bit-with_bit_ne (get_or m.frame (2 * (7 - a)) 0) ((y + 7) % 8) ((b + 7) % 8) true
                    (bit_ne y b hy hb e'),
              )
              refl
      ]
  | inr e ↦
      rw
        (
          e,
          get_or-set_ne m.frame (2 * (7 - x)) (2 * (7 - a))
              (with_bit (get_or m.frame (2 * (7 - x)) 0) ((y + 7) % 8) true) 0
              (column_ne x a hx ha e),
        )
        refl
]

pub length-write_at :
    (m : Matrix) (p : ℕ × ℕ) (on : Bool) → length (write_at m p on).frame ≡ length m.frame
unfolding write_at
length-write_at m (i, k) on = length-set m.frame i _

-- A pixel of the picture lights its own light.
pub at-set :
    (m : Matrix) (x y a b : ℕ)
    → length m.frame ≡ 16
    → x < 8
    → y < 8
    → a < 8
    → b < 8
    → at (set m x y true) a b ≡ (same (x, y) (a, b) || at m a b)
unfolding at set rotate write_at
at-set m x y a b n hx hy ha hb =
    let inside : (ltb 7 x || ltb 7 y) ≡ false = ground (arith, hx, hy) in
    let d = m.rotation % 360 in
    let p = rotate_by-Inside d x y hx hy in
    let q = rotate_by-Inside d a b ha hb in
    let there = rotate_by d x y in
    let here = rotate_by d a b in
    rw inside (
      lit-write_at m there.0 there.1 here.0 here.1 n p.0 p.1 q.0 q.1
      ∙ ap (λ t. t || lit m.frame here) (same-rotate_by d x y a b hx hy ha hb))

pub length-set_frame :
    (m : Matrix) (x y : ℕ) (on : Bool) → length (set m x y on).frame ≡ length m.frame
unfolding set
length-set_frame m x y on = elim (Bool-cases (ltb 7 x || ltb 7 y)) [
  | inl e ↦ rw e refl
  | inr e ↦ rw e (length-write_at m _ on)
]
