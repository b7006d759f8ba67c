-- ===== src/Oled/Examples.antt =====
-- A frame with one pixel, and a face that hears the cortex.
use loa.Base.{
  ℕ, ◌+◌, ◌%◌, String, ◌≡◌, refl, true, Option, none, some, List, [], ◌∷◌, str_eq, length,
  if◌then◌else◌, arith,
}
use loa.Base.Int.{ℤ, pos, negsuc}
use loa.Oled.Line.{line}
use loa.Oled.Reach.{lit_or, line-ends}
use loa.Base.Floats.{fixed_point}
use loa.Wire.Pb.{Body, Fault, Row}
use loa.Wire.Pb
use loa.Cortex.{Cortex}
use loa.Cortex
use loa.Cortex.Build.{build_state}
use loa.Base.Floats.{straight}
use loa.Oled.Face.{Chance}
use loa.Oled.Pages.{Print}
use loa.Oled.Render.{FaceRenderer, new_renderer, render}
use loa.Oled.Screen.{IsScreen}
use loa.Oled.Screen.Whole.{render_all, render_all-IsScreen}
use loa.Oled.Kept.{Continues, render-current}
use loa.Oled.View.{RenderState, face_state, default, hold}
use loa.Oled.Takeover.{Heard, hold_all, last_report, must_warn, warned, face_state-hold_all}
use loa.Oled.Relayed.{heard, told, face_state-relayed}
use loa.Oled.{Frame, new, px}
use loa.Oled.Pixels.{lit, is_at, lit-px}

abbrev blank : Frame
blank = new

blank-length : length blank ≡ 1024
unfolding new
blank-length = refl

lit-px_example :
    lit (px blank (pos 3) (pos 9) true) 3 10
    ≡ (if is_at (pos 3) (pos 9) 3 10 then true else lit blank 3 10)
lit-px_example = lit-px blank (pos 3) (pos 9) true 3 10 blank-length (omega arith) (omega arith)

-- From off the screen, up and to the left.
line-ends_example :
    (out : Frame) × (line blank (pos 130) (negsuc 1) (pos 120) (pos 2) true ≡ some out)
    × (length out ≡ 1024)
    × (lit_or true out (pos 120) (pos 2) ≡ true)
line-ends_example =
    line-ends blank (pos 130) (negsuc 1) (pos 120) (pos 2) true blank-length (omega arith)
      (omega arith) (omega arith) (omega arith)

abbrev no_number : String → Option ℤ
no_number s = none

abbrev no_bits : ℤ → ℕ
no_bits v = 0

abbrev broken : Fault ℤ
broken = record {
  rows = record { level = "fault"; code = "SNR"; text = "loa-sonar: inactive"; face = none } ∷ [];
  condition = some "hurts";
  ts = some (pos 9000);
}

-- A reading, a report, and a report of a topic that carries none.
abbrev history : List (Heard ℤ)
history =
    (pos 1000, "sonar", some (Pb.sonar (record { cm = some (pos 5); count = none; ts = none })))
    ∷ (pos 2000, "fault", some (Pb.fault broken))
    ∷ (pos 3000, "event", some (Pb.fault (record broken { rows = [] })))
    ∷ []

face_state-hold_all_example :
    let st = hold_all no_number no_bits (default (pos 0)) history in
    face_state st ≡ (if must_warn (last_report history) st.mode st.condition then warned st else st)
face_state-hold_all_example = face_state-hold_all no_number no_bits (pos 0) history

abbrev view : RenderState ℤ
view = record (default (pos 0)) { mode = "scope"; condition = "well"; fault_seen = true }

abbrev cortex : Cortex ℤ
cortex = Cortex.new

-- A reading and a second report, with the store down.
abbrev between : List (Heard ℤ)
between =
    (pos 4100, "sonar", some (Pb.sonar (record { cm = some (pos 5); count = none; ts = none })))
    ∷ (pos 4200, "fault", some (Pb.fault broken))
    ∷ []

face_state-relayed_example :
    let after =
      hold_all no_number no_bits
        (told no_number no_bits (pos 4000) true cortex broken view)
        between in
    let body = build_state (pos 5000) (heard (pos 4000) cortex broken).st in
    let next = hold no_number no_bits (pos 5000) "state" (some body) after in
    (face_state after ≡ after)
    × (face_state next ≡ (if str_eq cortex.st.oled_mode "ripperdoc" then next else warned next))
unfolding default loa.Oled.Takeover.report_of
face_state-relayed_example =
    face_state-relayed no_number no_bits (pos 4000) (pos 5000) true cortex broken view between refl
      refl refl ((refl, refl), ((refl, refl), tt))

-- Texts without letters, and numbers without digits.
abbrev mute_print : Print ℤ
mute_print = record {
  chars = λ s. 63 ∷ [];
  dec = λ n. 63 ∷ [];
  dec_i64 = λ n. 63 ∷ [];
  zeros = λ w n. 63 ∷ [];
  fixed = λ d v. 63 ∷ [];
  aligned = λ w d v. 63 ∷ [];
  zero_filled = λ w d v. 63 ∷ [];
}

-- A generator that counts.
abbrev counting : Chance ℤ ℕ
counting = record {
  seed_from_u64 = λ n. n;
  range_f64 = λ a b r. (a, r + 1);
  range = λ a b r. (a, r + 1);
  next_u32 = λ r. (r, r + 1);
  byte = λ r. (r % 256, r + 1);
}

-- A bench page, the noise, and the wash.
abbrev frames : List (RenderState ℤ × ℤ)
frames = (view, pos 2000) ∷ (record view { mode = "noise" }, pos 3000) ∷ (view, pos 400000) ∷ []

render_all-IsScreen_example :
    IsScreen
      (render_all mute_print counting
        (pos 36000)
        frames
        (new_renderer mute_print counting (pos 36000) (pos 1000))).frame
render_all-IsScreen_example =
    render_all-IsScreen mute_print counting (pos 36000) (λ r. omega arith) (λ r. omega arith)
      (pos 1000) frames

abbrev slogan : RenderState ℤ
slogan = record view { mode = "text"; text = some "ONE" }

-- The page, two frames of the wash, and the page again.
abbrev before_wash : FaceRenderer ℤ ℕ
before_wash = new_renderer mute_print counting (pos 0) (pos 1000)

abbrev washed : List (RenderState ℤ × ℤ)
washed = (slogan, pos 5000000) ∷ (slogan, pos 5002000) ∷ []

render-current_example :
    let r1 = render mute_print counting (pos 0) slogan (pos 3000) before_wash in
    let r2 = render_all mute_print counting (pos 0) washed r1 in
    let next = render mute_print counting (pos 0) slogan (pos 5010000) r2 in
    Continues mute_print counting
      (pos 0)
      (face_state slogan)
      (face_state slogan)
      (pos 5002000)
      (pos 5010000)
      r1.anim
      r2
      next
unfolding loa.Oled.Kinds.washes default render_all render new_renderer loa.Base.Int.◌+ℤ◌
    loa.Base.Int.◌-ℤ◌
render-current_example =
    render-current mute_print counting (pos 0) (pos 1000) [] slogan (pos 3000) washed slogan
      (pos 5010000) refl (refl, (refl, tt)) refl
