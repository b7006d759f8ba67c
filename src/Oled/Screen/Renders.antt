-- ===== src/Oled/Screen/Renders.antt =====
-- What crates/loa-oled/src/render.rs returns is a screen, whatever is held and whenever it is drawn.
use loa.Base.{
  ℕ, zero, suc, ◌+◌, ◌*◌, ◌/◌, ◌%◌, ◌<◌, ◌==◌, Bool, true, false, List, [], ◌∷◌, get_or,
  if◌then◌else◌, arith,
}
use loa.Base.Int.{ℤ, pos, ◌-ℤ◌}
use loa.Base.Floats.{Floats, Maths}
use loa.Oled.{Frame}
use loa.Oled.Draw.{◌▷◌, numbers, write, each, when_on}
use loa.Oled.Line.{magnitude}
use loa.Oled.Face.{
  Chance, Scope, grid, flicker, draw_blip, draw_scope, draw_ecg, draw_ripple, noise_cells,
  draw_noise, cells, draw_marquee, rem_euclid, whole, as_u64,
}
use loa.Oled.Showoff.{Showoff, sweep, show_strip, message, shift_band, glitch_from, draw_showoff}
use loa.Oled.Screen.{
  IsByte, IsScreen, Keeps, pens, poke-IsScreen, each_number-Keeps, get_or-All, text-Keeps,
  topaz-Keeps, blank-Keeps, when_on-Keeps, ▷-Keeps, dot-Keeps,
}

grid-Keeps : (base : ℤ) → Keeps (grid base)
unfolding grid
grid-Keeps base = search pens

message-Keeps : (a b : List ℕ) → Keeps (message a b)
unfolding message ◌▷◌
message-Keeps a b buf ok = search (pens, topaz-Keeps) depth 8

write-Keeps : (i v : ℕ) → i < 1024 → IsByte v → Keeps (write i v)
unfolding write
write-Keeps i v lt h = poke-IsScreen i v lt h

full-Keeps : (i : ℕ) → i < 1024 → Keeps (write i 255)
full-Keeps i lt = write-Keeps i 255 lt (omega arith)

copied-Keeps :
    (base : Frame) (i j : ℕ) → j < 1024 → IsScreen base → Keeps (write j (get_or base i 0))
copied-Keeps base i j lt h =
    write-Keeps j (get_or base i 0) lt (get_or-All base i 0 h.bytes (omega arith))

shift_band-Keeps :
    (base : Frame) (band shift : ℕ) → band < 8 → IsScreen base → Keeps (shift_band base band shift)
unfolding shift_band
shift_band-Keeps base band shift lt h =
    let from = λ (x : ℕ). band * 128 + rem_euclid (pos x -ℤ pos shift) 128 in
    each_number-Keeps 0 128 (λ x. write (band * 128 + x) (get_or base (from x) 0))
      (λ x hx. copied-Keeps base (from x) (band * 128 + x) (omega (arith, lt, hx)) h)

if-IsScreen :
    {S : Type 0} (b : Bool) (x y : S × Frame)
    → IsScreen x.1
    → IsScreen y.1
    → IsScreen (if b then x else y).1
if-IsScreen true x y h k = h
if-IsScreen false x y h k = k

module _ {F : Type 0} ⦃f : Floats F⦄ ⦃g : Maths F⦄ where
  flicker-Keeps : (t : F) (base : ℤ) → Keeps (flicker t base)
  unfolding flicker
  flicker-Keeps t base = search (pens, grid-Keeps)

  draw_blip-Keeps : (base : ℤ) (blip : ℤ × F) → Keeps (draw_blip base blip)
  unfolding draw_blip
  draw_blip-Keeps base (x, age) = search pens

  pub draw_scope-Keeps : {R : Type 0} (t : F) (s : Scope F R) → Keeps (draw_scope t s)
  unfolding draw_scope ◌▷◌
  draw_scope-Keeps t s buf ok = search (pens, flicker-Keeps, draw_blip-Keeps) depth 8

  pub draw_ecg-Keeps : (t : F) → Keeps (draw_ecg t)
  unfolding draw_ecg ◌▷◌
  draw_ecg-Keeps t buf ok = search (pens, flicker-Keeps) depth 8

  pub draw_ripple-Keeps : (t : F) → Keeps (draw_ripple t)
  unfolding draw_ripple
  draw_ripple-Keeps t = search pens

  noise_cells-Keeps :
      {R : Type 0} (c : Chance F R) (cells : List (ℕ × ℕ)) (r : R) → Keeps (noise_cells c cells r)
  unfolding noise_cells
  noise_cells-Keeps c [] r = blank-Keeps
  noise_cells-Keeps c ((x, y) ∷ rest) r =
      ▷-Keeps _ _ (when_on-Keeps _ _ (dot-Keeps (pos x) (pos y) true))
        (noise_cells-Keeps c rest (c.next_u32 r).1)

  pub draw_noise-Keeps : {R : Type 0} (c : Chance F R) (t : F) → Keeps (draw_noise c t)
  unfolding draw_noise
  draw_noise-Keeps c t =
      noise_cells-Keeps c (cells (numbers 0 2 32))
        (c.seed_from_u64 (as_u64 (g.as_i64 (f.mul t (whole 12)))))

  pub draw_marquee-Keeps : (s : List ℕ) (t : F) → Keeps (draw_marquee s t)
  unfolding draw_marquee
  draw_marquee-Keeps s t buf ok = text-Keeps _ (pos 29) s true buf ok

  sweep-Keeps : (t : F) → Keeps (sweep t)
  unfolding sweep
  sweep-Keeps t =
      let phase = magnitude (g.as_i64 (f.div t (f.lit 5 100))) / 2 % 2 in
      let on = λ (x p : ℕ). (x / 8 + p + phase) % 2 == 0 in
      let bands =
        λ (x : ℕ). each (numbers 0 1 8) (λ p. when_on (on x p) (write (p * 128 + x) 255)) in
      each_number-Keeps 0 128 bands (λ x hx.
        each_number-Keeps 0 8 (λ p. when_on (on x p) (write (p * 128 + x) 255))
          (λ p hp.
            when_on-Keeps (on x p) (write (p * 128 + x) 255)
              (full-Keeps (p * 128 + x) (omega (arith, hx, hp)))))

  show_strip-Keeps : {R : Type 0} (ct : F) (s : Showoff R) → Keeps (show_strip ct s)
  unfolding show_strip
  show_strip-Keeps ct s = search pens

  -- `gen_range(0..8)` is below 8.
  module _ {R : Type 0} (c : Chance F R) (bands : (r : R) → (c.range 0 8 r).0 < 8) where
    glitch_from-IsScreen :
        (n : ℕ) (base : Frame) (s : Showoff R) (buf : Frame)
        → IsScreen base
        → IsScreen buf
        → IsScreen (glitch_from c n base s buf).1
    unfolding glitch_from
    glitch_from-IsScreen zero base s buf h ok = ok
    glitch_from-IsScreen (suc n) base s buf h ok =
        let band = c.range 0 8 s.rng in
        let shift = c.range 1 9 band.1 in
        glitch_from-IsScreen n base (record s { rng = shift.1 }) _ h
          (shift_band-Keeps base band.0 shift.0 (bands s.rng) h buf ok)

    pub draw_showoff-IsScreen :
        (a b : List ℕ) (t : F) (s : Showoff R) (buf : Frame)
        → IsScreen buf
        → IsScreen (draw_showoff c a b t s buf).1
    unfolding draw_showoff
    draw_showoff-IsScreen a b t s buf ok =
        let ct = g.rem t (whole 17) in
        let shown = message-Keeps a b buf ok in
        if-IsScreen (f.lt ct (whole 3)) (s, sweep t buf) _ (sweep-Keeps t buf ok)
          (if-IsScreen (f.lt ct (whole 11)) (s, show_strip (f.sub ct (whole 3)) s buf) _
            (show_strip-Keeps (f.sub ct (whole 3)) s buf ok)
            (if-IsScreen (f.lt ct (whole 13))
              (glitch_from c 3 (message a b buf) s (message a b buf)) (s, message a b buf)
              (glitch_from-IsScreen 3 (message a b buf) s (message a b buf) shown shown) shown))
