-- ===== src/Oled/Way.antt =====
-- The loop of the line of crates/loa-oled/src/frame.rs comes nearer to its end with each turn.
use loa.Base.{
  ℕ, zero, suc, ◌+◌, ◌*◌, ◌≤◌, ◌<◌, ◌≡◌, sym, ◌∙◌, inl, inr, Bool, true, false, ◌==◌, arith,
  Bool-cases, ==_iff, subst, false≢true,
}
use loa.Base.Int.{ℤ, pos, negsuc, pos_part, neg_part, ◌+ℤ◌, ◌-ℤ◌, leb_ℤ, ltb_ℤ, +ℤ_parts, -ℤ_parts}
use loa.Oled.Line.{magnitude, minus, sign, Aim, Pen, eqb_ℤ, advance}

-- The coordinate x is i steps of w from its start, on the way to x1.
unfoldable pub Along : Bool → ℤ → ℤ → ℕ → ℕ → Type 0
Along true x x1 w i = pos_part x + neg_part x1 + w ≡ pos_part x1 + neg_part x + i
Along false x x1 w i = pos_part x1 + neg_part x + w ≡ pos_part x + neg_part x1 + i

pub Along-step :
    (r : Bool) (x x1 : ℤ) (w i : ℕ) → Along r x x1 w i → Along r (x +ℤ sign r) x1 w (suc i)
unfolding Along
Along-step true x x1 w i h = omega (arith, h, +ℤ_parts x (pos 1))
Along-step false x x1 w i h = omega (arith, h, +ℤ_parts x (negsuc 0))

-- It is at its end after w steps, and not before.
pub Along-end : (r : Bool) (x x1 : ℤ) (w i : ℕ) → Along r x x1 w i → i ≤ w → eqb_ℤ x x1 ≡ (i == w)
unfolding Along
Along-end true x x1 w i h le = ground (arith, h, le)
Along-end false x x1 w i h le = ground (arith, h, le)

pub Along-start : (x0 x1 : ℤ) → Along (ltb_ℤ x0 x1) x0 x1 (magnitude (x1 -ℤ x0)) 0
unfolding Along ◌-ℤ◌
Along-start x0 x1 = ground arith

-- The error after i steps to the side and j steps down.
unfoldable pub Error : Aim → ℤ → ℕ → ℕ → Type 0
Error g e i j = pos_part e + suc i * g.high ≡ neg_part e + suc j * g.wide

pub Error-x : (g : Aim) (e : ℤ) (i j : ℕ) → Error g e i j → Error g (e +ℤ minus g.high) (suc i) j
unfolding Error
Error-x g e i j h = omega (arith, h, +ℤ_parts e (minus g.high), -ℤ_parts (pos 0) (pos g.high))

pub Error-y : (g : Aim) (e : ℤ) (i j : ℕ) → Error g e i j → Error g (e +ℤ pos g.wide) i (suc j)
unfolding Error
Error-y g e i j h = omega (arith, h, +ℤ_parts e (pos g.wide))

pub mul_mono : (a b c : ℕ) → a ≤ b → a * c ≤ b * c
mul_mono zero b c h = omega arith
mul_mono (suc a) zero c h = absurd (omega (arith, h))
mul_mono (suc a) (suc b) c h = omega (arith, mul_mono a b c (omega (arith, h)))

-- No step to the side is taken past the end, and none down.
pub x_done :
    (g : Aim) (e : ℤ) (j : ℕ)
    → Error g e g.wide j
    → j < g.high
    → leb_ℤ (minus g.high) (e +ℤ e) ≡ false
unfolding Error
x_done g e j h lt =
    let most = mul_mono (suc j) g.high g.wide (omega (arith, lt)) in
    ground (arith, h, lt, most, +ℤ_parts e e, -ℤ_parts (pos 0) (pos g.high))

pub y_done :
    (g : Aim) (e : ℤ) (i : ℕ)
    → Error g e i g.high
    → i < g.wide
    → leb_ℤ (e +ℤ e) (pos g.wide) ≡ false
unfolding Error
y_done g e i h lt =
    let most = mul_mono (suc i) g.wide g.high (omega (arith, lt)) in
    ground (arith, h, lt, most, +ℤ_parts e e)

-- A step is taken.
pub some_step : (g : Aim) (e2 : ℤ) → leb_ℤ (minus g.high) e2 ≡ false → leb_ℤ e2 (pos g.wide) ≡ true
some_step g e2 h = ground (arith, h, -ℤ_parts (pos 0) (pos g.high))

pub record IsOnWay (g : Aim) (p : Pen) (i j : ℕ) : Type 0 where
  pub along_x : Along g.right p.x g.x1 g.wide i
  pub along_y : Along g.down p.y g.y1 g.high j
  pub error : Error g p.err i j
  pub inside_x : i ≤ g.wide
  pub inside_y : j ≤ g.high

-- A step to the side is taken only on this side of the end, and likewise down.
pub x_before :
    (g : Aim) (p : Pen) (i j : ℕ)
    → IsOnWay g p i j
    → i + j < g.wide + g.high
    → leb_ℤ (minus g.high) (p.err +ℤ p.err) ≡ true
    → i < g.wide
x_before g p i j h more taken = elim (Bool-cases (i == g.wide)) [
  | inr e ↦ let le = h.inside_x in ground (arith, e, le)
  | inl e ↦
      let done : i ≡ g.wide = (==_iff i g.wide).0 e in
      let error : Error g p.err g.wide j = subst (λ k. Error g p.err k j) done h.error in
      let stays = x_done g p.err j error (omega (arith, done, more)) in
      absurd (false≢true (sym stays ∙ taken))
]

pub y_before :
    (g : Aim) (p : Pen) (i j : ℕ)
    → IsOnWay g p i j
    → i + j < g.wide + g.high
    → leb_ℤ (p.err +ℤ p.err) (pos g.wide) ≡ true
    → j < g.high
y_before g p i j h more taken = elim (Bool-cases (j == g.high)) [
  | inr e ↦ let le = h.inside_y in ground (arith, e, le)
  | inl e ↦
      let done : j ≡ g.high = (==_iff j g.high).0 e in
      let error : Error g p.err i g.high = subst (λ k. Error g p.err i k) done h.error in
      let stays = y_done g p.err i error (omega (arith, done, more)) in
      absurd (false≢true (sym stays ∙ taken))
]

-- A turn of the loop comes nearer.
abbrev pub Nearer : Aim → Pen → ℕ → ℕ → Type 0
Nearer g p i j = (k : ℕ) × (l : ℕ) × IsOnWay g p k l × (i + j < k + l)

pub advance-Nearer :
    (g : Aim) (p : Pen) (i j : ℕ)
    → IsOnWay g p i j
    → i + j < g.wide + g.high
    → Nearer g (advance g p) i j
unfolding advance
advance-Nearer g p i j h more = elim (Bool-cases (leb_ℤ (minus g.high) (p.err +ℤ p.err))) [
  | inl ex ↦ elim (Bool-cases (leb_ℤ (p.err +ℤ p.err) (pos g.wide))) [
    | inl ey ↦
        rw (ex, ey)
          (
            suc i,
            suc j,
            record {
              along_x = Along-step g.right p.x g.x1 g.wide i h.along_x;
              along_y = Along-step g.down p.y g.y1 g.high j h.along_y;
              error = Error-y g (p.err +ℤ minus g.high) (suc i) j (Error-x g p.err i j h.error);
              inside_x = x_before g p i j h more ex;
              inside_y = y_before g p i j h more ey;
            },
            omega arith,
          )
    | inr ey ↦
        rw (ex, ey)
          (
            suc i,
            j,
            record {
              along_x = Along-step g.right p.x g.x1 g.wide i h.along_x;
              along_y = h.along_y;
              error = Error-x g p.err i j h.error;
              inside_x = x_before g p i j h more ex;
              inside_y = h.inside_y;
            },
            omega arith,
          )
  ]
  | inr ex ↦
      let ey = some_step g (p.err +ℤ p.err) ex in
      rw (ex, ey)
        (
          i,
          suc j,
          record {
            along_x = h.along_x;
            along_y = Along-step g.down p.y g.y1 g.high j h.along_y;
            error = Error-y g p.err i j h.error;
            inside_x = h.inside_x;
            inside_y = y_before g p i j h more ey;
          },
          omega arith,
        )
]
