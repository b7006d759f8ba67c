-- ===== src/Oled/Screen/Boards.antt =====
-- The pages of crates/loa-oled/src/face.rs keep the screen.
use loa.Base.{
  ℕ, ◌+◌, Bool, true, false, Option, none, some, String, List, [], ◌∷◌, take, if◌then◌else◌,
}
use loa.Base.Int.{ℤ}
use loa.Base.Floats.{Floats, Maths}
use loa.Oled.Draw.{Pen, ◌▷◌}
use loa.Oled.View.{FaultRow, RenderState}
use loa.Oled.Pages.{
  Print, outline, fill, indicator, trend_caret, disc, gauge, lock, flush_right, put, sensors,
  pir_page, snr_page,
}
use loa.Oled.Boards.{
  label, temperature, pressure, humidity, temp_page, frag_page, label_rows, report_lines,
  fault_page, rail, power_page, draw_ripperdoc,
}
use loa.Oled.Screen.{Keeps, pens, amiga8-Keeps, blank-Keeps}

outline-Keeps : (x y x1 y1 : ℤ) → Keeps (outline x y x1 y1)
unfolding outline ◌▷◌
outline-Keeps x y x1 y1 buf ok = search pens

fill-Keeps : (xs ys : List ℤ) → Keeps (fill xs ys)
unfolding fill
fill-Keeps xs ys = search pens

ruleset shapes = (pens, amiga8-Keeps, outline-Keeps, fill-Keeps)

indicator-Keeps : (x y : ℤ) (label : List ℕ) (level : Bool) → Keeps (indicator x y label level)
unfolding indicator ◌▷◌
indicator-Keeps x y label level buf ok = search shapes

trend_caret-Keeps : (x y : ℤ) (direction : String) → Keeps (trend_caret x y direction)
unfolding trend_caret
trend_caret-Keeps x y direction = search shapes

disc-Keeps : (cx cy : ℤ) → Keeps (disc cx cy)
unfolding disc
disc-Keeps cx cy = search shapes

gauge-Keeps : (x y filled : ℤ) → Keeps (gauge x y filled)
unfolding gauge ◌▷◌
gauge-Keeps x y filled buf ok = search (shapes, disc-Keeps) depth 8

lock-Keeps : (x y : ℤ) → Keeps (lock x y)
unfolding lock ◌▷◌
lock-Keeps x y buf ok = search shapes depth 12

flush_right-Keeps : (s : List ℕ) (margin : ℕ) (y : ℤ) → Keeps (flush_right s margin y)
unfolding flush_right
flush_right-Keeps s margin y = search shapes

module _ {F : Type 0} ⦃f : Floats F⦄ ⦃g : Maths F⦄ (p : Print F) (offset : ℤ) where
  put-Keeps : (s : List ℕ) (x y : ℕ) → Keeps (put p offset s x y)
  unfolding put
  put-Keeps s x y = search shapes

  ruleset parts = (
    shapes, put-Keeps, indicator-Keeps, trend_caret-Keeps, gauge-Keeps, lock-Keeps,
    flush_right-Keeps,
  )

  sensors-Keeps : (st : RenderState F) → Keeps (sensors p offset st)
  unfolding sensors ◌▷◌
  sensors-Keeps st buf ok = search parts depth 14

  pir_page-Keeps : (t : F) (st : RenderState F) → Keeps (pir_page p offset t st)
  unfolding pir_page ◌▷◌
  pir_page-Keeps t st buf ok = search parts depth 14

  snr_page-Keeps : (st : RenderState F) → Keeps (snr_page p offset st)
  unfolding snr_page ◌▷◌
  snr_page-Keeps st buf ok = search parts depth 14

  humidity-Keeps : (hum : Option F) → Keeps (humidity p offset hum)
  humidity-Keeps none = blank-Keeps
  humidity-Keeps (some hum) = search parts

  temperature-Keeps : (temp hum : Option F) → Keeps (temperature p offset temp hum)
  unfolding temperature ◌▷◌
  temperature-Keeps none hum buf ok = search parts
  temperature-Keeps (some tc) hum buf ok = search (parts, humidity-Keeps)

  pressure-Keeps : (hpa : Option F) (trend : String) → Keeps (pressure p offset hpa trend)
  unfolding pressure ◌▷◌
  pressure-Keeps none trend buf ok = ok
  pressure-Keeps (some hpa) trend buf ok = search parts

  temp_page-Keeps : (st : RenderState F) → Keeps (temp_page p offset st)
  unfolding temp_page ◌▷◌
  temp_page-Keeps st buf ok = search (parts, temperature-Keeps, pressure-Keeps)

  frag_page-Keeps : (st : RenderState F) → Keeps (frag_page p offset st)
  unfolding frag_page ◌▷◌
  frag_page-Keeps st buf ok = search parts depth 14

  label_rows-Keeps : (y : ℕ) (rows : List FaultRow) → Keeps (label_rows p offset y rows)
  unfolding label_rows ◌▷◌
  label_rows-Keeps y [] buf ok = ok
  label_rows-Keeps y (r ∷ rows) buf ok =
      label_rows-Keeps (y + 9) rows _ (put-Keeps (take 14 (p.chars (label r))) 2 y buf ok)

  report_lines-Keeps :
      (t : F) (view : Option (F × ℕ × ℕ × List FaultRow)) → Keeps (report_lines p offset t view)
  unfolding report_lines ◌▷◌
  report_lines-Keeps t none buf ok = search parts
  report_lines-Keeps t (some (ts, n_fault, n_warn, rows)) buf ok = search (parts, label_rows-Keeps)

  fault_page-Keeps : (t : F) (st : RenderState F) → Keeps (fault_page p offset t st)
  unfolding fault_page ◌▷◌
  fault_page-Keeps t st buf ok = search (parts, report_lines-Keeps)

  rail-Keeps :
      (y : ℕ) (name : String) (val : Option F) (unit : String)
      → Keeps (rail p offset y name val unit)
  unfolding rail ◌▷◌
  rail-Keeps y name val unit buf ok = search parts

  power_page-Keeps : (st : RenderState F) → Keeps (power_page p offset st)
  unfolding power_page ◌▷◌
  power_page-Keeps st buf ok = search (put-Keeps, indicator-Keeps, rail-Keeps) depth 14

  if-Keeps : (b : Bool) (q r : Pen) → Keeps q → Keeps r → Keeps (if b then q else r)
  if-Keeps true q r h k = h
  if-Keeps false q r h k = k

  pub draw_ripperdoc-Keeps : (t : F) (st : RenderState F) → Keeps (draw_ripperdoc p offset t st)
  unfolding draw_ripperdoc
  draw_ripperdoc-Keeps t st =
      search
        (
          if-Keeps, sensors-Keeps, pir_page-Keeps, snr_page-Keeps, temp_page-Keeps, frag_page-Keeps,
          fault_page-Keeps, power_page-Keeps,
        )
        depth 10
