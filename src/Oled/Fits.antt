-- ===== src/Oled/Fits.antt =====
-- The arithmetic of the line of crates/loa-oled/src/frame.rs stays in an i32.
use loa.Base.{ℕ, ◌*◌, ◌≤◌, ◌≡◌, inl, inr, Bool, true, false, ◌&&◌, arith, if◌then◌else◌, Bool-cases}
use loa.Base.Int.{ℤ, pos, negsuc, pos_part, neg_part, ◌+ℤ◌, ◌-ℤ◌, leb_ℤ}
use loa.Oled.Line.{
  magnitude, minus, sign, Aim, Pen, advance, in_i32, turn_fits, aim, set_out, aim_fits,
}
use loa.Oled.Way.{Along, IsOnWay}

-- A coordinate between -2^28 and 2^28.
abbrev pub IsCoordinate : ℤ → Type 0
IsCoordinate a = (pos_part a ≤ 268435456) × (neg_part a ≤ 268435456)

-- What bounds the arithmetic: the end, the size of the line, and half as much again for the error.
pub record IsBounded (g : Aim) (err : ℤ) : Type 0 where
  pub end_x : IsCoordinate g.x1
  pub end_y : IsCoordinate g.y1
  pub wide : g.wide ≤ 536870912
  pub high : g.high ≤ 536870912
  pub above : 2 * pos_part err ≤ 3 * g.wide
  pub below : 2 * neg_part err ≤ 3 * g.high

-- The error after each step of a turn.
abbrev after_x : ℕ → ℤ → ℤ
after_x high err = if leb_ℤ (minus high) (err +ℤ err) then err +ℤ minus high else err

abbrev after_y : ℕ → ℤ → ℤ → ℤ
after_y wide err now = if leb_ℤ (err +ℤ err) (pos wide) then now +ℤ pos wide else now

errors :
    (w h : ℕ) (err : ℤ)
    → 2 * pos_part err ≤ 3 * w
    → 2 * neg_part err ≤ 3 * h
    → let q = after_x h err in
      let r = after_y w err q in
      (2 * pos_part q ≤ 3 * w)
      × (2 * neg_part q ≤ 3 * h)
      × (2 * pos_part r ≤ 3 * w)
      × (2 * neg_part r ≤ 3 * h)
unfolding ◌+ℤ◌ ◌-ℤ◌
errors w h (pos n) a b = ground arith
errors w h (negsuc n) a b = ground arith

doubled : (e : ℤ) → (pos_part (e +ℤ e) ≤ 2 * pos_part e) × (neg_part (e +ℤ e) ≤ 2 * neg_part e)
unfolding ◌+ℤ◌
doubled (pos n) = ground arith
doubled (negsuc n) = ground arith

-- One step beyond the way is a small number too.
step_fits :
    (r : Bool) (x x1 : ℤ) (w i : ℕ)
    → IsCoordinate x1
    → w ≤ 536870912
    → i ≤ w
    → Along r x x1 w i
    → (in_i32 x ≡ true) × (in_i32 (x +ℤ sign r) ≡ true)
unfolding Along ◌+ℤ◌
step_fits true (pos x) x1 w i c hw hi h = ground arith
step_fits true (negsuc x) x1 w i c hw hi h = ground arith
step_fits false (pos x) x1 w i c hw hi h = ground arith
step_fits false (negsuc x) x1 w i c hw hi h = ground arith

fits :
    (e : ℤ) (k : ℕ)
    → 2 * pos_part e ≤ 3 * k
    → (m : ℕ) → 2 * neg_part e ≤ 3 * m
    → k ≤ 536870912
    → m ≤ 536870912
    → in_i32 e ≡ true
fits (pos n) k a m b hk hm = ground arith
fits (negsuc n) k a m b hk hm = ground arith

fits_double :
    (e : ℤ) (k : ℕ)
    → 2 * pos_part e ≤ 3 * k
    → (m : ℕ) → 2 * neg_part e ≤ 3 * m
    → k ≤ 536870912
    → m ≤ 536870912
    → in_i32 (e +ℤ e) ≡ true
fits_double e k a m b hk hm = let (p, q) = doubled e in ground (arith, p, q)

all_five :
    {a b c d e : Bool}
    → a ≡ true
    → b ≡ true
    → c ≡ true
    → d ≡ true
    → e ≡ true
    → (a && (b && (c && (d && e)))) ≡ true
all_five ha hb hc hd he = rw (ha, hb, hc, hd) he

-- On the way, with these bounds, a turn computes i32s, and the error keeps its bounds.
pub turn_fits_lem :
    (g : Aim) (p : Pen) (i j : ℕ)
    → IsOnWay g p i j
    → IsBounded g p.err
    → (turn_fits g p ≡ true) × IsBounded g (advance g p).err
unfolding turn_fits advance
turn_fits_lem g p i j h b =
    let (xa, xb, ya, yb) = errors g.wide g.high p.err b.above b.below in
    let twice = fits_double p.err g.wide b.above g.high b.below b.wide b.high in
    let mid = fits (after_x g.high p.err) g.wide xa g.high xb b.wide b.high in
    let last =
      fits (after_y g.wide p.err (after_x g.high p.err)) g.wide ya g.high yb b.wide b.high in
    let (x0, x1) = step_fits g.right p.x g.x1 g.wide i b.end_x b.wide h.inside_x h.along_x in
    let (y0, y1) = step_fits g.down p.y g.y1 g.high j b.end_y b.high h.inside_y h.along_y in
    elim (Bool-cases (leb_ℤ (minus g.high) (p.err +ℤ p.err))) [
      | inl ex ↦ elim (Bool-cases (leb_ℤ (p.err +ℤ p.err) (pos g.wide))) [
        | inl ey ↦
            rw (ex, ey)
              (
                all_five twice (rw ex at mid) x1 (rw (ex, ey) at last) y1,
                record {
                  end_x = b.end_x;
                  end_y = b.end_y;
                  wide = b.wide;
                  high = b.high;
                  above = rw (ex, ey) at ya;
                  below = rw (ex, ey) at yb;
                },
              )
        | inr ey ↦
            rw (ex, ey)
              (
                all_five twice (rw ex at mid) x1 (rw (ex, ey) at last) y0,
                record {
                  end_x = b.end_x;
                  end_y = b.end_y;
                  wide = b.wide;
                  high = b.high;
                  above = rw (ex, ey) at ya;
                  below = rw (ex, ey) at yb;
                },
              )
      ]
      | inr ex ↦ elim (Bool-cases (leb_ℤ (p.err +ℤ p.err) (pos g.wide))) [
        | inl ey ↦
            rw (ex, ey)
              (
                all_five twice (rw ex at mid) x0 (rw (ex, ey) at last) y1,
                record {
                  end_x = b.end_x;
                  end_y = b.end_y;
                  wide = b.wide;
                  high = b.high;
                  above = rw (ex, ey) at ya;
                  below = rw (ex, ey) at yb;
                },
              )
        | inr ey ↦
            rw (ex, ey)
              (
                all_five twice (rw ex at mid) x0 (rw (ex, ey) at last) y0,
                record {
                  end_x = b.end_x;
                  end_y = b.end_y;
                  wide = b.wide;
                  high = b.high;
                  above = rw (ex, ey) at ya;
                  below = rw (ex, ey) at yb;
                },
              )
      ]
    ]

difference :
    (a b : ℤ)
    → IsCoordinate a
    → IsCoordinate b
    → (in_i32 (a -ℤ b) ≡ true) × (magnitude (a -ℤ b) ≤ 536870912)
unfolding ◌-ℤ◌
difference (pos a) (pos b) ha hb = ground arith
difference (pos a) (negsuc b) ha hb = ground arith
difference (negsuc a) (pos b) ha hb = ground arith
difference (negsuc a) (negsuc b) ha hb = ground arith

first_error :
    (w h : ℕ)
    → w ≤ 536870912
    → h ≤ 536870912
    → (2 * pos_part (pos w +ℤ minus h) ≤ 3 * w)
      × (2 * neg_part (pos w +ℤ minus h) ≤ 3 * h)
      × (in_i32 (pos w) ≡ true)
      × (in_i32 (pos h) ≡ true)
unfolding ◌+ℤ◌ ◌-ℤ◌
first_error w h a b = ground arith

-- Between two such points the line can set out, with those bounds.
pub aim_fits_lem :
    (x0 y0 x1 y1 : ℤ)
    → IsCoordinate x0
    → IsCoordinate y0
    → IsCoordinate x1
    → IsCoordinate y1
    → let g = aim x0 y0 x1 y1 in (aim_fits x0 y0 x1 y1 ≡ true) × IsBounded g (set_out g x0 y0).err
unfolding aim_fits
aim_fits_lem x0 y0 x1 y1 hx0 hy0 hx1 hy1 =
    let g = aim x0 y0 x1 y1 in
    let (dx, wide) = difference x1 x0 hx1 hx0 in
    let (dy, high) = difference y1 y0 hy1 hy0 in
    let (above, below, w, h) = first_error g.wide g.high wide high in
    (
      all_five dx dy w h (fits (set_out g x0 y0).err g.wide above g.high below wide high),
      record { end_x = hx1; end_y = hy1; wide = wide; high = high; above = above; below = below },
    )
