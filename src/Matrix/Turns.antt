-- ===== src/Matrix/Turns.antt =====
-- What the 8x8 panel of rust/loa-matrix/src/ht16k33.rs shows, whichever way up it is mounted.
use loa.Base.{
  ℕ, zero, suc, ◌+◌, ◌-◌, ◌*◌, ◌/◌, ◌%◌, ◌<◌, ◌≤◌, ◌≡◌, refl, sym, ◌∙◌, ap, ◌⊎◌, inl, inr, Bool,
  true, false, ◌&&◌, ◌||◌, List, [], ◌∷◌, ltb, leb, ◌==◌, All, any, length, get_or, replicate,
  arith, Bool-cases, ==_iff,
}
use Prim.Native.Nat.{bit_and-bitwise, ◌^◌}
use loa.Base.Bits.{bit}
use loa.Matrix.{
  Matrix, frame_len, rotate, rotate_by, write_at, set, clear, drawn, draw_pixel, draw_row,
  draw_rows, columns, glyph,
}
use loa.Matrix.Glyphs.{Glyph}
use loa.Matrix.Wired.{lit, at, same, and_true, and_false, at-set, length-set_frame}

length-draw_pixel :
    (m : Matrix) (row x y : ℕ) → length (draw_pixel m row x y).frame ≡ length m.frame
unfolding draw_pixel
length-draw_pixel m row x y = elim (Bool-cases (drawn row x)) [
  | inl e ↦ rw e (length-set_frame m x y true)
  | inr e ↦ rw e refl
]

at-draw_pixel :
    (m : Matrix) (row x y a b : ℕ)
    → length m.frame ≡ 16
    → x < 8
    → y < 8
    → a < 8
    → b < 8
    → at (draw_pixel m row x y) a b ≡ ((same (x, y) (a, b) && drawn row x) || at m a b)
unfolding draw_pixel
at-draw_pixel m row x y a b n hx hy ha hb = elim (Bool-cases (drawn row x)) [
  | inl e ↦ rw e (at-set m x y a b n hx hy ha hb ∙ ap (λ t. t || at m a b) (sym (and_true _)))
  | inr e ↦ rw e (ap (λ t. t || at m a b) (sym (and_false _)))
]

length-draw_row :
    (m : Matrix) (row y : ℕ) (xs : List ℕ) → length (draw_row m row y xs).frame ≡ length m.frame
unfolding draw_row
length-draw_row m row y [] = refl
length-draw_row m row y (x ∷ xs) =
    length-draw_row (draw_pixel m row x y) row y xs ∙ length-draw_pixel m row x y

absorbed : (later da before : Bool) → ((later && da) || (da || before)) ≡ (da || before)
absorbed true true before = refl
absorbed true false before = refl
absorbed false da before = refl

-- How a pixel of a row joins the rest of the row.
join_row :
    (in_row here later dx da before : Bool)
    → (here ≡ true → dx ≡ da)
    → ((in_row && (later && da)) || (((here && in_row) && dx) || before))
      ≡ ((in_row && ((here || later) && da)) || before)
join_row true true later dx da before h = rw (h refl) (absorbed later da before)
join_row true false later dx da before h = refl
join_row false true later dx da before h = refl
join_row false false later dx da before h = refl

-- Row y of a picture, drawn over what was there.
at-draw_row :
    (m : Matrix) (row y : ℕ) (xs : List ℕ) (a b : ℕ)
    → length m.frame ≡ 16
    → All (λ x. x < 8) xs
    → y < 8
    → a < 8
    → b < 8
    → at (draw_row m row y xs) a b
      ≡ (((y == b) && (any (λ x. x == a) xs && drawn row a)) || at m a b)
unfolding draw_row
at-draw_row m row y [] a b n h hy ha hb = ap (λ t. t || at m a b) (sym (and_false (y == b)))
at-draw_row m row y (x ∷ xs) a b n (hx, h) hy ha hb =
    at-draw_row (draw_pixel m row x y) row y xs a b (length-draw_pixel m row x y ∙ n) h hy ha hb
    ∙ ap (λ t. ((y == b) && (any (λ x. x == a) xs && drawn row a)) || t)
        (at-draw_pixel m row x y a b n hx hy ha hb)
    ∙ join_row (y == b) (x == a) (any (λ x. x == a) xs) (drawn row x) (drawn row a) (at m a b)
        (λ e. ap (drawn row) ((==_iff x a).0 e))

ℕ_cases : (y b : ℕ) → (y < b) ⊎ ((y ≡ b) ⊎ (b < y))
ℕ_cases y b = omega arith

drawn_nothing : (x : ℕ) → drawn 0 x ≡ false
unfolding drawn
drawn_nothing x = rw (bit_and-bitwise 0 (128 / 2 ^ x)) refl

every_column : (a : ℕ) → a < 8 → any (λ x. x == a) columns ≡ true
every_column a h = ground (arith, h)

columns_inside : All (λ x. x < 8) columns
columns_inside = (
  omega arith,
  (
    omega arith,
    (omega arith, (omega arith, (omega arith, (omega arith, (omega arith, (omega arith, tt)))))),
  ),
)

-- What the rows from row y on draw at (a, b).
abbrev from_row : List ℕ → ℕ → ℕ → ℕ → Bool
from_row rows y a b = leb y b && drawn (get_or rows (b - y) 0) a

from_row-suc :
    (row : ℕ) (rows : List ℕ) (y a b : ℕ) (before : Bool)
    → (from_row rows (suc y) a b || (((y == b) && (true && drawn row a)) || before))
      ≡ (from_row (row ∷ rows) y a b || before)
from_row-suc row rows y a b before = elim (ℕ_cases y b) [
  | inl e ↦
      let later : leb (suc y) b ≡ true = ground (arith, e) in
      let apart : (y == b) ≡ false = ground (arith, e) in
      let from : leb y b ≡ true = ground (arith, e) in
      let next : b - y ≡ suc (b - suc y) = omega (arith, e) in rw (later, apart, from, next) refl
  | inr (inl e) ↦
      let later : leb (suc b) b ≡ false = ground arith in
      let here : (b == b) ≡ true = ground arith in
      let from : leb b b ≡ true = ground arith in
      let first : b - b ≡ 0 = omega arith in rw (e, later, here, from, first) refl
  | inr (inr e) ↦
      let later : leb (suc y) b ≡ false = ground (arith, e) in
      let apart : (y == b) ≡ false = ground (arith, e) in
      let from : leb y b ≡ false = ground (arith, e) in rw (later, apart, from) refl
]

at-draw_rows :
    (m : Matrix) (rows : List ℕ) (y a b : ℕ)
    → length m.frame ≡ 16
    → length rows + y ≤ 8
    → a < 8
    → b < 8
    → at (draw_rows m rows y) a b ≡ (from_row rows y a b || at m a b)
unfolding draw_rows
at-draw_rows m [] y a b n h ha hb =
    ap (λ t. t || at m a b) (sym (ap (λ t. leb y b && t) (drawn_nothing a) ∙ and_false (leb y b)))
at-draw_rows m (row ∷ rows) y a b n h ha hb =
    at-draw_rows (draw_row m row y columns) rows (suc y) a b (length-draw_row m row y columns ∙ n)
      (omega arith) ha hb
    ∙ ap (λ t. from_row rows (suc y) a b || t)
        (at-draw_row m row y columns a b n columns_inside (omega arith) ha hb)
    ∙ ap (λ t. from_row rows (suc y) a b || (((y == b) && (t && drawn row a)) || at m a b))
        (every_column a ha)
    ∙ from_row-suc row rows y a b (at m a b)

rotation-set : (m : Matrix) (x y : ℕ) (on : Bool) → (set m x y on).rotation ≡ m.rotation
unfolding set write_at
rotation-set m x y on = elim (Bool-cases (ltb 7 x || ltb 7 y)) [
  | inl e ↦ rw e refl
  | inr e ↦ rw e refl
]

rotation-draw_pixel : (m : Matrix) (row x y : ℕ) → (draw_pixel m row x y).rotation ≡ m.rotation
unfolding draw_pixel
rotation-draw_pixel m row x y = elim (Bool-cases (drawn row x)) [
  | inl e ↦ rw e (rotation-set m x y true)
  | inr e ↦ rw e refl
]

rotation-draw_row :
    (m : Matrix) (row y : ℕ) (xs : List ℕ) → (draw_row m row y xs).rotation ≡ m.rotation
unfolding draw_row
rotation-draw_row m row y [] = refl
rotation-draw_row m row y (x ∷ xs) =
    rotation-draw_row (draw_pixel m row x y) row y xs ∙ rotation-draw_pixel m row x y

pub rotation-draw_rows :
    (m : Matrix) (rows : List ℕ) (y : ℕ) → (draw_rows m rows y).rotation ≡ m.rotation
unfolding draw_rows
rotation-draw_rows m [] y = refl
rotation-draw_rows m (row ∷ rows) y =
    rotation-draw_rows (draw_row m row y columns) rows (suc y) ∙ rotation-draw_row m row y columns

-- A quarter turn of the panel, clockwise, and several.
abbrev pub quarter : ℕ × ℕ → ℕ × ℕ
quarter (x, y) = (7 - y, x)

abbrev pub quarter_turns : ℕ → ℕ × ℕ → ℕ × ℕ
quarter_turns zero p = p
quarter_turns (suc k) p = quarter (quarter_turns k p)

rotate_by-quarter_turns :
    (k x y : ℕ) → 90 * k < 360 → x < 8 → y < 8 → rotate_by (90 * k) x y ≡ quarter_turns k (x, y)
rotate_by-quarter_turns zero x y h hx hy = refl
rotate_by-quarter_turns (suc zero) x y h hx hy = refl
rotate_by-quarter_turns (suc (suc zero)) x y h hx hy = refl
rotate_by-quarter_turns (suc (suc (suc zero))) x y h hx hy =
    let back : 7 - (7 - y) ≡ y = omega (arith, hy) in ap (λ t. (t, 7 - x)) (sym back)
rotate_by-quarter_turns (suc (suc (suc (suc k)))) x y h hx hy = absurd (omega (arith, h))

bit-zero : (k : ℕ) → bit 0 k ≡ 0
unfolding bit
bit-zero zero = refl
bit-zero (suc k) = bit-zero k

get_or-replicate : (n i v : ℕ) → get_or (replicate n v) i v ≡ v
get_or-replicate zero i v = refl
get_or-replicate (suc n) zero v = refl
get_or-replicate (suc n) (suc i) v = get_or-replicate n i v

lit-no_light : (p : ℕ × ℕ) → lit (replicate 16 0) p ≡ false
unfolding lit
lit-no_light (x, y) =
    ap (λ v. bit v ((y + 7) % 8) == 1) (get_or-replicate 16 (2 * (7 - x)) 0)
    ∙ ap (λ v. v == 1) (bit-zero ((y + 7) % 8))

or_false : (b : Bool) → (b || false) ≡ b
or_false true = refl
or_false false = refl

at-draw_rows_dark :
    (start : Matrix) (rows : List ℕ) (a b : ℕ)
    → start.frame ≡ replicate 16 0
    → length rows ≡ 8
    → a < 8
    → b < 8
    → at (draw_rows start rows 0) a b ≡ drawn (get_or rows b 0) a
unfolding at
at-draw_rows_dark start rows a b e n ha hb =
    let from : leb 0 b ≡ true = ground arith in
    let row : b - 0 ≡ b = omega arith in
    at-draw_rows start rows 0 a b (ap length e) (omega (arith, n)) ha hb
    ∙ ap (λ t. from_row rows 0 a b || t)
        (ap (λ f. lit f (rotate start a b)) e ∙ lit-no_light (rotate start a b))
    ∙ or_false (from_row rows 0 a b)
    ∙ ap (λ t. t && drawn (get_or rows (b - 0) 0) a) from
    ∙ ap (λ t. drawn (get_or rows t 0) a) row

rotate-draw_rows :
    (start : Matrix) (rows : List ℕ) (k x y : ℕ)
    → start.rotation % 360 ≡ 90 * k
    → x < 8
    → y < 8
    → rotate (draw_rows start rows 0) x y ≡ quarter_turns k (x, y)
unfolding rotate
rotate-draw_rows start rows k x y e hx hy =
    ap (λ d. rotate_by (d % 360) x y) (rotation-draw_rows start rows 0)
    ∙ ap (λ d. rotate_by d x y) e
    ∙ rotate_by-quarter_turns k x y (omega (arith, e)) hx hy

-- A picture of eight rows, drawn on a panel that is turned by k quarters, clockwise: the light
-- that is k quarter turns from column x and row y is on exactly when that pixel is drawn, whatever
-- the panel showed before.
pub lit-glyph :
    (m : Matrix) (g : Glyph) (k x y : ℕ)
    → m.rotation % 360 ≡ 90 * k
    → length g.rows ≡ 8
    → x < 8
    → y < 8
    → lit (glyph m g).frame (quarter_turns k (x, y)) ≡ drawn (get_or g.rows y 0) x
unfolding glyph clear at
lit-glyph m g k x y e n hx hy =
    let start : Matrix = record m { frame = replicate frame_len 0 } in
    sym (ap (λ p. lit (glyph m g).frame p) (rotate-draw_rows start g.rows k x y e hx hy))
    ∙ at-draw_rows_dark start g.rows x y refl n hx hy
