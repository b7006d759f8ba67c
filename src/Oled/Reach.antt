-- ===== src/Oled/Reach.antt =====
-- The line of crates/loa-oled/src/frame.rs reaches its end.
use loa.Base.{
  both_true, ℕ, zero, suc, ◌+◌, ◌<◌, ◌≡◌, refl, sym, ap, ap₂, ◌∙◌, inl, inr, Bool, true, false,
  ◌&&◌, Option, some, ◌==◌, ltb, length, if◌then◌else◌, arith, Bool-cases, ==_iff,
}
use loa.Base.Int.{ℤ, pos, negsuc, eq_of_parts, +ℤ_parts, -ℤ_parts}
use loa.Oled.{Frame, px, width, height}
use loa.Oled.Pixels.{lit, lit-px, length-px}
use loa.Oled.Line.{minus, Aim, Pen, there, advance, line_from, aim, set_out, line}
use loa.Oled.Fits.{IsCoordinate, IsBounded, turn_fits_lem, aim_fits_lem}
use loa.Oled.Way.{Along-end, Along-start, Error, IsOnWay, advance-Nearer}

-- The pixel at (x, y), where the screen has one, and a default elsewhere.
unfoldable pub lit_or : Bool → Frame → ℤ → ℤ → Bool
lit_or d buf (negsuc x) y = d
lit_or d buf (pos x) (negsuc y) = d
lit_or d buf (pos x) (pos y) = if ltb x width && ltb y height then lit buf x y else d

lit_or-px :
    (buf : Frame) (x y : ℤ) (on : Bool) → length buf ≡ 1024 → lit_or on (px buf x y on) x y ≡ on
unfolding lit_or
lit_or-px buf (negsuc x) y on n = refl
lit_or-px buf (pos x) (negsuc y) on n = refl
lit_or-px buf (pos x) (pos y) on n = elim (Bool-cases (ltb x width && ltb y height)) [
  | inr e ↦ rw e refl
  | inl e ↦
      let here : ((x == x) && (y == y)) ≡ true = ground arith in
      rw e (
        lit-px buf (pos x) (pos y) on x y n (ground (arith, e)) (ground (arith, e))
        ∙ ap (λ t. if t then on else lit buf x y) here)
]

-- The loop ends with a frame that shows the end of the line.
Ends : Aim → Bool → Option Frame → Type 0
Ends g on result =
    (out : Frame) × (result ≡ some out) × (length out ≡ 1024) × (lit_or on out g.x1 g.y1 ≡ on)

there_iff :
    (g : Aim) (p : Pen) (i j : ℕ) → IsOnWay g p i j → there g p ≡ ((i == g.wide) && (j == g.high))
there_iff g p i j h =
    ap₂ (λ s t. s && t) (Along-end g.right p.x g.x1 g.wide i h.along_x h.inside_x)
      (Along-end g.down p.y g.y1 g.high j h.along_y h.inside_y)

short :
    (g : Aim) (p : Pen) (i j : ℕ)
    → IsOnWay g p i j
    → ((i == g.wide) && (j == g.high)) ≡ false
    → i + j < g.wide + g.high
short g p i j h e = let a = h.inside_x in let b = h.inside_y in ground (arith, a, b, e)

line_from-Ends :
    (n : ℕ) (g : Aim) (p : Pen) (on : Bool) (buf : Frame) (i j : ℕ)
    → IsOnWay g p i j
    → IsBounded g p.err
    → g.wide + g.high < n + (i + j)
    → length buf ≡ 1024
    → Ends g on (line_from n g p on buf)
unfolding line_from Ends
line_from-Ends zero g p on buf i j h b more size =
    let a = h.inside_x in let b = h.inside_y in absurd (omega (arith, a, b, more))
line_from-Ends (suc n) g p on buf i j h b more size = elim (Bool-cases (there g p)) [
  | inl e ↦
      let x : p.x ≡ g.x1 = eq_of_parts p.x g.x1 ((==_iff _ _).0 (both_true e).0) in
      let y : p.y ≡ g.y1 = eq_of_parts p.y g.y1 ((==_iff _ _).0 (both_true e).1) in
      rw e (
        px buf p.x p.y on,
        refl,
        length-px buf p.x p.y on size,
        ap₂ (λ s t. lit_or on (px buf p.x p.y on) s t) (sym x) (sym y)
            ∙ lit_or-px buf p.x p.y on size,
      )
  | inr e ↦
      let (k, l, later, nearer) =
        advance-Nearer g p i j h (short g p i j h (sym (there_iff g p i j h) ∙ e)) in
      let (fits, b') = turn_fits_lem g p i j h b in
      rw (e, fits)
        (line_from-Ends n g (advance g p) on (px buf p.x p.y on) k l later b' (omega arith)
          (length-px buf p.x p.y on size))
]

start-IsOnWay : (x0 y0 x1 y1 : ℤ) → let g = aim x0 y0 x1 y1 in IsOnWay g (set_out g x0 y0) 0 0
unfolding Error
start-IsOnWay x0 y0 x1 y1 =
    let g = aim x0 y0 x1 y1 in
    record {
      along_x = Along-start x0 x1;
      along_y = Along-start y0 y1;
      error = omega (arith, +ℤ_parts (pos g.wide) (minus g.high), -ℤ_parts (pos 0) (pos g.high));
      inside_x = omega arith;
      inside_y = omega arith;
    }

-- A line between two points whose coordinates are between -2^28 and 2^28, on the screen or off it, is
-- drawn to its end: no step of its arithmetic leaves an i32; the loop stops, on a frame of the same
-- size, within one turn more than the width and the height of the line together; and its last
-- point, where it is on the screen, is lit or dark as the line is.
pub line-ends :
    (buf : Frame) (x0 y0 x1 y1 : ℤ) (on : Bool)
    → length buf ≡ 1024
    → IsCoordinate x0
    → IsCoordinate y0
    → IsCoordinate x1
    → IsCoordinate y1
    → (out : Frame) × (line buf x0 y0 x1 y1 on ≡ some out)
      × (length out ≡ 1024)
      × (lit_or on out x1 y1 ≡ on)
unfolding line Ends
line-ends buf x0 y0 x1 y1 on size hx0 hy0 hx1 hy1 =
    let g = aim x0 y0 x1 y1 in
    let (fits, bounds) = aim_fits_lem x0 y0 x1 y1 hx0 hy0 hx1 hy1 in
    rw fits (
      line_from-Ends (suc (g.wide + g.high)) g (set_out g x0 y0) on buf 0 0
        (start-IsOnWay x0 y0 x1 y1) bounds (omega arith) size)
