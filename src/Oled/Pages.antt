-- ===== src/Oled/Pages.antt =====
-- The bench's pages of crates/loa-oled/src/face.rs (Ripperdoc). How the standard library prints a
-- number is a parameter; an i32 does not overflow here.
use loa.Base.{
  ℕ, ◌+◌, ◌-◌, Bool, true, false, not, Option, none, some, String, List, [], ◌∷◌, ◌++◌, str_eq,
  if◌then◌else◌,
}
use loa.Base.Int.{ℤ, pos, pos_part, ◌+ℤ◌, ◌-ℤ◌, ◌*ℤ◌, leb_ℤ, ltb_ℤ}
use loa.Base.Floats.{Floats, Maths}
use loa.Oled.{width}
use loa.Oled.Clock.{fmt_clock}
use loa.Oled.Draw.{Pen, ◌▷◌, dot, stroke, each, when_on, span, amiga8, amiga8_width}
use loa.Oled.View.{RenderState, Seal, truth, number, find_key}

-- The texts that the standard library makes: of a string, and of numbers by their format.
pub record Print (F : Type 0) : Type 0 where
  pub chars : String → List ℕ
  pub dec : ℕ → List ℕ  -- {n}
  pub dec_i64 : ℤ → List ℕ  -- {n}
  pub zeros : ℕ → ℤ → List ℕ  -- {n:03}, for 3
  pub fixed : ℕ → F → List ℕ  -- {v:.3}, for 3
  pub aligned : ℕ → ℕ → F → List ℕ  -- {v:>4.0}, for 4 and 0
  pub zero_filled : ℕ → ℕ → F → List ℕ  -- {v:04.1}, for 4 and 1

abbrev pub as_bool : {F : Type 0} → Option (Seal F) → Bool
as_bool (some (truth b)) = b
as_bool v = false

abbrev pub as_f64 : {F : Type 0} → Option (Seal F) → Option F
as_f64 (some (number n)) = some n
as_f64 v = none

abbrev pub is_some {ℓ} : {A : Type ℓ} → Option A → Bool
is_some none = false
is_some (some a) = true

-- The outline of a box, at x and y, w wide and h high.
unfoldable pub outline : ℤ → ℤ → ℤ → ℤ → Pen
unfolding stroke ◌▷◌
outline x y x1 y1 =
    stroke x y x1 y true ▷ stroke x y1 x1 y1 true ▷ stroke x y x y1 true ▷ stroke x1 y x1 y1 true

-- `for yy in …  { for xx in … { frame.px(xx, yy, true) } }`
unfoldable pub fill : List ℤ → List ℤ → Pen
unfolding each dot
fill xs ys = each ys (λ yy. each xs (λ xx. dot xx yy true))

unfoldable pub indicator : ℤ → ℤ → List ℕ → Bool → Pen
unfolding outline fill amiga8 amiga8_width ◌▷◌
indicator x y label level =
    let w = amiga8_width label + 8 in
    outline x y (x +ℤ pos (w - 1)) (y +ℤ pos 11)
    ▷ when_on level (fill (span (x +ℤ pos 1) (w - 2)) (span (y +ℤ pos 1) 10))
    ▷ amiga8 label (x +ℤ pos 4) (y +ℤ pos 2) (not level)

-- A point of the caret.
abbrev pub caret_points : String → List (ℕ × ℕ)
caret_points direction =
    if str_eq direction "rising"
    then (3, 0) ∷ (2, 1) ∷ (4, 1) ∷ (1, 2) ∷ (5, 2) ∷ (0, 3) ∷ (6, 3) ∷ []
    else if str_eq direction "falling"
    then (3, 3) ∷ (2, 2) ∷ (4, 2) ∷ (1, 1) ∷ (5, 1) ∷ (0, 0) ∷ (6, 0) ∷ []
    else (0, 2) ∷ (1, 2) ∷ (2, 2) ∷ (3, 2) ∷ (4, 2) ∷ (5, 2) ∷ (6, 2) ∷ []

unfoldable pub trend_caret : ℤ → ℤ → String → Pen
unfolding each dot
trend_caret x y direction =
    each (caret_points direction) (λ d. dot (x +ℤ pos d.0) (y +ℤ pos d.1) true)

abbrev pub in_disc : ℤ → ℤ → Bool
in_disc dx dy = leb_ℤ (dx *ℤ dx +ℤ dy *ℤ dy) (pos 100)

-- The bulb, of radius 10.
unfoldable pub disc : ℤ → ℤ → Pen
unfolding each dot
disc cx cy = each (span (cy -ℤ pos 10) 21) (λ yy.
    each (span (cx -ℤ pos 10) 21) (λ xx. when_on (in_disc (xx -ℤ cx) (yy -ℤ cy)) (dot xx yy true)))

-- `filled` is the length of the filled stretch.
unfoldable pub gauge : ℤ → ℤ → ℤ → Pen
unfolding disc stroke fill ◌▷◌
gauge x y filled =
    let sx = x +ℤ pos 14 in
    let sy = y +ℤ pos 5 in
    disc (x +ℤ pos 10) (y +ℤ pos 10)
    ▷ stroke sx sy (sx +ℤ pos 111) sy true
    ▷ stroke sx (sy +ℤ pos 10) (sx +ℤ pos 111) (sy +ℤ pos 10) true
    ▷ stroke (sx +ℤ pos 111) sy (sx +ℤ pos 111) (sy +ℤ pos 10) true
    ▷ when_on (ltb_ℤ (pos 0) filled) (fill (span sx (pos_part filled)) (span (sy +ℤ pos 1) 9))

unfoldable pub lock : ℤ → ℤ → Pen
unfolding stroke fill each dot ◌▷◌
lock x y =
    stroke (x +ℤ pos 2) y (x +ℤ pos 2) (y +ℤ pos 2) true
    ▷ stroke (x +ℤ pos 7) y (x +ℤ pos 7) (y +ℤ pos 2) true
    ▷ stroke (x +ℤ pos 2) y (x +ℤ pos 7) y true
    ▷ fill (span x 10) (span (y +ℤ pos 3) 6)
    ▷ each (span (x +ℤ pos 4) 3) (λ xx. dot xx (y +ℤ pos 3) false)
    ▷ dot (x +ℤ pos 5) (y +ℤ pos 4) false
    ▷ dot (x +ℤ pos 5) (y +ℤ pos 5) false
    ▷ dot (x +ℤ pos 5) (y +ℤ pos 6) true
    ▷ dot (x +ℤ pos 5) (y +ℤ pos 7) true

-- Right-aligned: the text ends `margin` pixels before the edge.
unfoldable pub flush_right : List ℕ → ℕ → ℤ → Pen
unfolding amiga8 amiga8_width
flush_right s margin y = amiga8 s (pos width -ℤ pos margin -ℤ pos (amiga8_width s)) y true

module _ {F : Type 0} ⦃f : Floats F⦄ ⦃g : Maths F⦄ (p : Print F) (offset : ℤ) where
  -- A text at x and y.
  unfoldable pub put : List ℕ → ℕ → ℕ → Pen
  unfolding amiga8
  put s x y = amiga8 s (pos x) (pos y) true

  -- `Some(v) if v != 0.0`
  abbrev pub unless_zero : Option F → Option F
  unless_zero none = none
  unless_zero (some v) = if f.eq v f.zero then none else some v

  abbrev pub or_else {ℓ} : {A : Type ℓ} → Option A → A → A
  or_else none d = d
  or_else (some a) d = a

  abbrev pub last_time : Option F → List ℕ
  last_time none = p.chars "--:--:--"
  last_time (some v) = fmt_clock offset v

  abbrev pub distance : Option F → List ℕ
  distance none = p.chars "  --CM"
  distance (some cm) = p.aligned 4 0 cm ++ p.chars "CM"

  abbrev pub counted : String → ℕ → List ℕ
  counted letter n = p.chars letter ++ p.zeros 3 (pos n)

  unfoldable pub sensors : RenderState F → Pen
  unfolding put indicator find_key ◌▷◌
  sensors st =
      put (p.chars "RIPPERDOC") 2 1
      ▷ put (p.chars "1/7") 99 1
      ▷ indicator (pos 2) (pos 12) (p.chars "PIR") st.pir_high
      ▷ indicator (pos 39) (pos 12) (p.chars "SNR") (is_some st.snr_cm)
      ▷ indicator (pos 85) (pos 12) (p.chars "TMP") (is_some st.temp_c)
      ▷ indicator (pos 2) (pos 26) (p.chars "BAR") (is_some st.pressure_hpa)
      ▷ indicator (pos 39) (pos 26) (p.chars "SEAL") (as_bool (find_key st.seal "sealed"))
      ▷ put (counted "N" st.pir_count) 2 40
      ▷ put (p.chars "G17") 44 40
      ▷ put (distance st.snr_cm) 66 40

  unfoldable pub pir_page : F → RenderState F → Pen
  unfolding put indicator fmt_clock ◌▷◌
  pir_page t st =
      let hold =
        if st.pir_high then f.sub t (or_else (unless_zero st.pir_on_ts) t) else st.pir_last_hold in
      put (p.chars "PIR") 2 1
      ▷ put (p.chars "2/7") 99 1
      ▷ indicator (pos 2) (pos 12) (p.chars "PIR") st.pir_high
      ▷ put (counted "N" st.pir_count) 2 28
      ▷ put (p.chars "T" ++ p.zero_filled 4 1 hold ++ p.chars "s") 2 37
      ▷ put (p.chars "L" ++ last_time (unless_zero st.pir_last_ts)) 2 46

  unfoldable pub snr_page : RenderState F → Pen
  unfolding put fmt_clock ◌▷◌
  snr_page st =
      put (p.chars "SNR") 2 1
      ▷ put (p.chars "3/7") 99 1
      ▷ put (distance st.snr_cm) 2 12
      ▷ put (counted "N" st.snr_count) 2 28
      ▷ put (p.chars "L" ++ last_time (unless_zero st.snr_ts)) 2 37
      ▷ put (p.chars "G22") 2 46
