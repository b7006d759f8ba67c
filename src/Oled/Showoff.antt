-- ===== src/Oled/Showoff.antt =====
-- The demo of crates/loa-oled/src/face.rs (Showoff): the sweep, the marquee, the messages and the
-- glitch.
use loa.Base.{ℕ, zero, suc, ◌+◌, ◌*◌, ◌/◌, ◌%◌, true, ◌&&◌, List, ◌==◌, ltb, get_or, if◌then◌else◌}
use loa.Base.Int.{pos, ◌-ℤ◌}
use loa.Base.Floats.{Floats, Maths}
use loa.Oled.{Frame, width, height, panel_pages}
use loa.Oled.Draw.{Pen, ◌▷◌, dot, each, when_on, numbers, topaz, topaz_strip, strip_bit, write}
use loa.Oled.Face.{Chance, as_u64, rem_euclid, whole}
use loa.Oled.Line.{magnitude}

pub record Showoff (R : Type 0) : Type 0 where
  pub rng : R
  pub strip_rows : List (List ℕ)
  pub strip_w : ℕ

unfoldable pub new_showoff : {R : Type 0} → List ℕ → R → Showoff R
unfolding topaz_strip
new_showoff s rng =
    let strip = topaz_strip s in record { rng = rng; strip_rows = strip.0; strip_w = strip.1 }

-- The border, and the two messages.
unfoldable pub message : List ℕ → List ℕ → Pen
unfolding each dot topaz ◌▷◌
message msg1 msg2 =
    each (numbers 0 1 width) (λ x. dot (pos x) (pos 0) true ▷ dot (pos x) (pos 63) true)
    ▷ each (numbers 0 1 height) (λ y. dot (pos 0) (pos y) true ▷ dot (pos 127) (pos y) true)
    ▷ topaz msg1 (pos 40) (pos 16)
    ▷ topaz msg2 (pos 28) (pos 40)

-- A page of `base`, moved along by `shift`, written into the frame.
unfoldable pub shift_band : Frame → ℕ → ℕ → Pen
unfolding each write
shift_band base band shift = each (numbers 0 1 width) (λ x.
    let from = band * width + rem_euclid (pos x -ℤ pos shift) width in
    write (band * width + x) (get_or base from 0))

module _ {F : Type 0} ⦃f : Floats F⦄ ⦃g : Maths F⦄ where
  -- Every other band of eight rows, by the clock.
  unfoldable pub sweep : F → Pen
  unfolding each write
  sweep t =
      let phase = magnitude (g.as_i64 (f.div t (f.lit 5 100))) / 2 % 2 in
      each (numbers 0 1 width) (λ x.
        each (numbers 0 1 panel_pages)
          (λ p. when_on ((x / 8 + p + phase) % 2 == 0) (write (p * width + x) 255)))

  unfoldable pub show_strip : {R : Type 0} → F → Showoff R → Pen
  unfolding each dot strip_bit
  show_strip ct s =
      let ahead = f.mul (f.of_ℕ s.strip_w) (f.sub (whole 1) (f.div ct (whole 8))) in
      let xwin = as_u64 (g.as_i64 ahead) in
      each (numbers 0 1 16) (λ r. each (numbers 0 1 width) (λ sx.
        when_on (ltb (xwin + sx) s.strip_w && strip_bit s.strip_rows r (xwin + sx))
          (dot (pos sx) (pos (24 + r)) true)))

  module _ {R : Type 0} (c : Chance F R) where
    -- The rolls of the glitch, all from the frame as it was before the first.
    unfoldable pub glitch_from : ℕ → Frame → Showoff R → Frame → Showoff R × Frame
    unfolding shift_band
    glitch_from zero base s buf = (s, buf)
    glitch_from (suc n) base s buf =
        let band = c.range 0 panel_pages s.rng in
        let shift = c.range 1 9 band.1 in
        glitch_from n base (record s { rng = shift.1 }) (shift_band base band.0 shift.0 buf)

    unfoldable pub draw_showoff : List ℕ → List ℕ → F → Showoff R → Frame → Showoff R × Frame
    unfolding sweep show_strip message glitch_from
    draw_showoff msg1 msg2 t s buf =
        let ct = g.rem t (whole 17) in
        let shown = message msg1 msg2 buf in
        if f.lt ct (whole 3)
        then (s, sweep t buf)
        else if f.lt ct (whole 11)
        then (s, show_strip (f.sub ct (whole 3)) s buf)
        else if f.lt ct (whole 13)
        then glitch_from 3 shown s shown
        else (s, shown)
