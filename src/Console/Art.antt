-- ===== src/Console/Art.antt =====
-- The console's picture (face_art of crates/ripperdoc/src/view.rs) against the panel of the frame
-- buffer (crates/loa-oled/src/frame.rs).
use loa.Base.{
  ℕ, zero, suc, ◌+◌, ◌*◌, ◌||◌, ◌/◌, ◌%◌, ◌<◌, ◌≡◌, refl, ap, ◌∙◌, inl, inr, Bool, true, false, not,
  none, some, List, [], ◌∷◌, ◌==◌, get_elem?, get_or, map, arith, Bool-cases,
}
use loa.Base.Bits.{bit}
use loa.Oled.{index}
use loa.Oled.Pixels.{lit}
use loa.Console.{cell, range, px, art_row, face_art}

get_or-range {ℓ} :
    {A : Type ℓ} (g : ℕ → A) (s n i : ℕ) (d : A)
    → i < n
    → get_or (map g (range s n)) i d ≡ g (s + i)
get_or-range g s zero i d h = absurd (omega (arith, h))
get_or-range g s (suc n) zero d h = ap g (omega arith)
get_or-range g s (suc n) (suc i) d h =
    get_or-range g (s + 1) n i d (omega arith) ∙ ap g (omega arith)

get_or-from_zero {ℓ} :
    {A : Type ℓ} (g : ℕ → A) (n i : ℕ) (d : A) → i < n → get_or (map g (range 0 n)) i d ≡ g i
get_or-from_zero g n i d h = get_or-range g 0 n i d h ∙ ap g (omega arith)

-- The half of a cell that is lit: 0 the upper one, 1 the lower one.
abbrev pub half_lit : ℕ → ℕ → Bool
half_lit zero c = (c == 0x2588) || (c == 0x2580)
half_lit (suc n) c = (c == 0x2588) || (c == 0x2584)

half_lit-cell :
    (top bot : Bool) → (half_lit 0 (cell top bot) ≡ top) × (half_lit 1 (cell top bot) ≡ bot)
half_lit-cell true true = (refl, refl)
half_lit-cell true false = (refl, refl)
half_lit-cell false true = (refl, refl)
half_lit-cell false false = (refl, refl)

bit-lt : (b k : ℕ) → bit b k < 2
unfolding bit
bit-lt b zero = omega arith
bit-lt b (suc k) = bit-lt (b / 2) k

bit-zero : (k : ℕ) → bit 0 k ≡ 0
unfolding bit
bit-zero zero = refl
bit-zero (suc k) = bit-zero k

-- Past the buffer's end no pixel is lit.
get_bit :
    (xs : List ℕ) (i k : ℕ)
    → (elim (get_elem? xs i) [ none ↦ false | some b ↦ not (bit b k == 0) ])
      ≡ (bit (get_or xs i 0) k == 1)
get_bit [] i k = rw (bit-zero k) refl
get_bit (x ∷ xs) zero k = ground (arith, bit-lt x k)
get_bit (x ∷ xs) (suc i) k = get_bit xs i k

px-lit : (buf : List ℕ) (x y : ℕ) → px buf x y ≡ lit buf x y
unfolding px lit
px-lit buf x y = get_bit buf (index x y) (y % 8)

art_cell :
    (buf : List ℕ) (x row : ℕ)
    → x < 128
    → row < 32
    → get_or (get_or (face_art buf) row []) x 32
      ≡ cell (px buf x (row * 2)) (px buf x (row * 2 + 1))
unfolding face_art
art_cell buf x row hx hr =
    ap (λ line. get_or line x 32) (get_or-from_zero (art_row buf) 32 row [] hr)
    ∙ get_or-from_zero (λ a. cell (px buf a (row * 2)) (px buf a (row * 2 + 1))) 128 x 32 hx

-- Whatever a face frame holds, and wherever a pixel stands on the screen, the half of the
-- console's cell that stands for it is lit exactly when the panel lights it.
pub half_lit-face_art :
    (buf : List ℕ) (x y : ℕ)
    → x < 128
    → y < 64
    → half_lit (y % 2) (get_or (get_or (face_art buf) (y / 2) []) x 32) ≡ lit buf x y
half_lit-face_art buf x y hx hy =
    let here = art_cell buf x (y / 2) hx (omega arith) in
    elim (Bool-cases (y % 2 == 0)) [
      | inl e ↦
          let even : y % 2 ≡ 0 = ground (arith, e) in
          let up : y / 2 * 2 ≡ y = omega arith in
          rw (even, here)
            ((half_lit-cell (px buf x (y / 2 * 2)) (px buf x (y / 2 * 2 + 1))).0
              ∙ ap (px buf x) up
              ∙ px-lit buf x y)
      | inr e ↦
          let odd : y % 2 ≡ 1 = ground (arith, e) in
          let down : y / 2 * 2 + 1 ≡ y = omega arith in
          rw (odd, here)
            ((half_lit-cell (px buf x (y / 2 * 2)) (px buf x (y / 2 * 2 + 1))).1
              ∙ ap (px buf x) down
              ∙ px-lit buf x y)
    ]
