-- ===== src/Cortex/Verbs.antt =====
-- crates/loa-cortex/src/verbs.rs: feel, display and ripperdoc. A verb that fails returns the error
-- and the state as it left it.
use loa.Base.{
  String, Bool, true, false, Option, none, some, List, [], ◌∷◌, str_eq, any, if◌then◌else◌,
}
use loa.Cortex.{Cortex}
use loa.Cortex.Moods.{Mood, by_name, next_from}

abbrev pub pages : List String
pages = "sensors" ∷ "pir" ∷ "snr" ∷ "temp" ∷ "frag" ∷ "power" ∷ "fault" ∷ []

abbrev pub display_modes : List String
display_modes = "scope" ∷ "ecg" ∷ "ripple" ∷ "noise" ∷ "text" ∷ "showoff" ∷ "ripperdoc" ∷ "off" ∷ []

unfoldable pub contains : List String → String → Bool
contains words w = any (λ v. str_eq v w) words

pub data Logged : Type 0 where
  mood : String → String → Option String → Logged
  display : Option String → Option String → Option Bool → Option Bool → Logged
  ripperdoc : Bool → String → Logged
  nothing : Logged

-- The text of an error is a sentence that lists the valid words; which list it quotes is kept.
pub data Error : Type 0 where
  bad_feeling bad_mode bad_page : Error

pub data Result : Type 0 where
  ok : Logged → Result
  err : Error → Result

module _ {F : Type 0} where
  -- The body of `feel`, once the mood is found.
  unfoldable pub apply_mood : Cortex F → Mood → Option String → Cortex F × Result
  apply_mood cx m remark = (
    record cx {
      st = record cx.st {
        ring_state = if m.one_shot then cx.st.ring_state else m.ring;
        mood = m.name;
        oled_mode = m.oled_mode;
        oled_text = m.oled_text;
        oled_dim = m.oled_dim;
      };
    },
    ok (mood m.name m.ring remark),
  )

  unfoldable pub chosen : Cortex F → Option String → Bool → Option Mood
  chosen cx feeling true = some (next_from cx.st.mood)
  chosen cx none false = none
  chosen cx (some word) false = by_name word

  unfoldable pub feel : Cortex F → Option String → Bool → Option String → Cortex F × Result
  unfolding apply_mood chosen
  feel cx feeling next remark = elim (chosen cx feeling next) [
    | none ↦ (cx, err bad_feeling)
    | some m ↦ apply_mood cx m remark
  ]

  abbrev pub set_dim : Cortex F → Option Bool → Cortex F
  set_dim cx none = cx
  set_dim cx (some d) = record cx { st = record cx.st { oled_dim = d } }

  abbrev pub set_flip : Cortex F → Option Bool → Cortex F
  set_flip cx none = cx
  set_flip cx (some b) = record cx { st = record cx.st { oled_flip = b } }

  abbrev pub set_mode : Cortex F → String → Option String → Cortex F
  set_mode cx m text = record cx {
    st = record cx.st { oled_mode = m; oled_text = if str_eq m "text" then text else none };
  }

  unfoldable pub display_verb :
      Cortex F → Option String → Option String → Option Bool → Option Bool → Cortex F × Result
  display_verb cx none text none none = (cx, ok nothing)
  display_verb cx none text dim flip =
      (set_flip (set_dim cx dim) flip, ok (display none text dim flip))
  display_verb cx (some m) text dim flip =
      if contains display_modes m
      then (set_flip (set_dim (set_mode cx m text) dim) flip, ok (display (some m) text dim flip))
      else (cx, err bad_mode)

  -- `match on { … }`
  abbrev pub switch_console : Cortex F → Option Bool → Cortex F × Result
  switch_console cx none = (cx, ok nothing)
  switch_console cx (some b) = (
    record cx {
      st = record cx.st { ripperdoc = b; oled_mode = if b then "ripperdoc" else "scope" };
    },
    ok (ripperdoc b cx.st.page),
  )

  unfoldable pub ripperdoc_verb : Cortex F → Option Bool → Option String → Cortex F × Result
  ripperdoc_verb cx on none = switch_console cx on
  ripperdoc_verb cx on (some p) =
      if contains pages p
      then switch_console (record cx { st = record cx.st { page = p } }) on
      else (cx, err bad_page)
