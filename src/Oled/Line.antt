-- ===== src/Oled/Line.antt =====
-- The line of crates/loa-oled/src/frame.rs. The coordinates are i32; a line whose arithmetic leaves
-- them, where a checked build panics, has no result here. The loop runs on fuel.
use loa.Base.{
  ℕ, zero, suc, ◌+◌, Bool, true, false, ◌&&◌, Option, none, some, ◌==◌, leb, if◌then◌else◌,
}
use loa.Base.Int.{ℤ, pos, negsuc, pos_part, neg_part, ◌+ℤ◌, ◌-ℤ◌, leb_ℤ, ltb_ℤ}
use loa.Oled.{Frame, px}

abbrev pub magnitude : ℤ → ℕ
magnitude (pos n) = n
magnitude (negsuc n) = suc n

abbrev pub minus : ℕ → ℤ
minus n = pos 0 -ℤ pos n

-- `if a < b { 1 } else { -1 }`
abbrev pub sign : Bool → ℤ
sign true = pos 1
sign false = negsuc 0

-- What the loop does not change: `dx` is wide, `dy` is -high, `sx` and `sy` are the signs.
pub record Aim : Type 0 where
  pub x1 : ℤ
  pub y1 : ℤ
  pub right : Bool
  pub down : Bool
  pub wide : ℕ
  pub high : ℕ

pub record Pen : Type 0 where
  pub x : ℤ
  pub y : ℤ
  pub err : ℤ

abbrev pub eqb_ℤ : ℤ → ℤ → Bool
eqb_ℤ a b = pos_part a + neg_part b == pos_part b + neg_part a

abbrev pub there : Aim → Pen → Bool
there g p = eqb_ℤ p.x g.x1 && eqb_ℤ p.y g.y1

-- `e2` is 2 * err, from before either step.
abbrev pub step_x : Aim → ℤ → Pen → Pen
step_x g e2 p =
    if leb_ℤ (minus g.high) e2
    then record p { err = p.err +ℤ minus g.high; x = p.x +ℤ sign g.right }
    else p

abbrev pub step_y : Aim → ℤ → Pen → Pen
step_y g e2 p =
    if leb_ℤ e2 (pos g.wide)
    then record p { err = p.err +ℤ pos g.wide; y = p.y +ℤ sign g.down }
    else p

unfoldable pub advance : Aim → Pen → Pen
advance g p = let e2 = p.err +ℤ p.err in step_y g e2 (step_x g e2 p)

abbrev pub in_i32 : ℤ → Bool
in_i32 a = leb (pos_part a) 2147483647 && leb (neg_part a) 2147483648

-- Is all that a turn computes an i32?
unfoldable pub turn_fits : Aim → Pen → Bool
turn_fits g p =
    let e2 = p.err +ℤ p.err in
    let q = step_x g e2 p in
    let r = step_y g e2 q in
    in_i32 e2 && (in_i32 q.err && (in_i32 q.x && (in_i32 r.err && in_i32 r.y)))

-- The loop: `none` is an overflow, or out of fuel.
unfoldable pub line_from : ℕ → Aim → Pen → Bool → Frame → Option Frame
unfolding px advance turn_fits
line_from zero g p on buf = none
line_from (suc n) g p on buf =
    let drawn = px buf p.x p.y on in
    let rest = line_from n g (advance g p) on drawn in
    if there g p then some drawn else if turn_fits g p then rest else none

abbrev pub aim : ℤ → ℤ → ℤ → ℤ → Aim
aim x0 y0 x1 y1 = record {
  x1 = x1;
  y1 = y1;
  right = ltb_ℤ x0 x1;
  down = ltb_ℤ y0 y1;
  wide = magnitude (x1 -ℤ x0);
  high = magnitude (y1 -ℤ y0);
}

abbrev pub set_out : Aim → ℤ → ℤ → Pen
set_out g x0 y0 = record { x = x0; y = y0; err = pos g.wide +ℤ minus g.high }

-- Is all that comes before the loop an i32? The two magnitudes are `abs()`, which has none for the
-- least i32.
unfoldable pub aim_fits : ℤ → ℤ → ℤ → ℤ → Bool
aim_fits x0 y0 x1 y1 =
    let g = aim x0 y0 x1 y1 in
    in_i32 (x1 -ℤ x0)
    && (in_i32 (y1 -ℤ y0)
        && (in_i32 (pos g.wide) && (in_i32 (pos g.high) && in_i32 (set_out g x0 y0).err)))

-- One step more than the width and the height together.
unfoldable pub line : Frame → ℤ → ℤ → ℤ → ℤ → Bool → Option Frame
unfolding line_from aim_fits
line buf x0 y0 x1 y1 on =
    let g = aim x0 y0 x1 y1 in
    let drawn = line_from (suc (g.wide + g.high)) g (set_out g x0 y0) on buf in
    if aim_fits x0 y0 x1 y1 then drawn else none
