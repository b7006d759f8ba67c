-- ===== src/Ring/Examples.antt =====
-- The ring on concrete frames and messages.
use loa.Base.{
  ℕ, String, Bool, ◌≡◌, refl, true, false, none, some, List, [], ◌∷◌, ◌++◌, str_eq, length, All,
  drop, replicate, if◌then◌else◌, arith,
}
use loa.Base.Int.{ℤ, pos}
use loa.Base.Floats.{straight, fixed_point}
use loa.Wire.Pb.{Ripperdoc, ripperdoc}
use loa.Wire.Contract.{Msg, schema_version}
use loa.Ring.Encode.{leds, latch, show, written, ws_byte}
use loa.Ring.Decode.{Pixel, rgb_of, IsColour, read_pixels, show_lem}
use loa.Ring.Tells.{RingInput, scan, alarm, muted, well, hurts, pick_tell}
use loa.Ring.Held.{new_renderer, nothing_held, hold_all, input, tell_now, tell_now-mute}
use loa.Ring.Render.{Display, new_display}
use loa.Ring.Gated.{render_all, is_gated, render_all-gated}

ws_byte_of_three : ws_byte 3 ≡ 8 ∷ 8 ∷ 8 ∷ 8 ∷ 8 ∷ 8 ∷ 14 ∷ 14 ∷ []
unfolding ws_byte
ws_byte_of_three = refl

abbrev pixels : List Pixel
pixels = replicate 23 (255, 0, 16) ++ (1, 2, 3) ∷ []

pixels-IsColour : All IsColour pixels
pixels-IsColour = ground arith

show_example :
    (buf : List ℕ) × (show (rgb_of pixels) ≡ written buf)
    × (length buf ≡ 600)
    × (read_pixels leds buf ≡ rgb_of pixels)
    × (drop 576 buf ≡ replicate latch 0)
show_example = show_lem pixels refl pixels-IsColour

-- A state that asks for `busy`, and says that all is well.
abbrev busy_state : Ripperdoc ℤ
busy_state = record {
  face = none;
  page = none;
  mood = none;
  snr_on = none;
  ring_state = some "busy";
  oled_mode = none;
  oled_text = none;
  oled_dim = none;
  ripperdoc = none;
  condition = some "well";
  oled_flip = none;
  ts = none;
}

abbrev messages : List (ℤ × Msg ℤ)
messages =
    (
      pos 10,
      record {
        topic = "state";
        env = record { schema_version = schema_version; body = some (ripperdoc busy_state) };
      },
    )
    ∷ []

tell_now-mute_example :
    let s = hold_all (nothing_held, new_renderer) messages in
    tell_now s ≡ (if str_eq (input s.0).ring_state "alarm" then alarm else muted)
tell_now-mute_example = tell_now-mute messages refl

abbrev notes : List (ℤ × String × ℤ)
notes = (pos 2, "glitch", pos 70) ∷ []

-- A scan that waits, while the state says busy and then while the body hurts.
abbrev waiting : Display ℤ
waiting = record (new_display) { memory = record { oneshot = some (scan, pos 100); seen = [] } }

abbrev steps : List (ℤ × RingInput × List Bool)
steps =
    (pos 200, record { cond = well; ring_state = "busy"; ripperdoc = false }, [])
    ∷ (pos 300, record { cond = hurts; ring_state = "home"; ripperdoc = true }, [])
    ∷ []

render_all-gated_example : (render_all waiting steps).memory.oneshot ≡ some (scan, pos 300)
unfolding is_gated pick_tell
render_all-gated_example = render_all-gated waiting scan (pos 100) steps refl refl
