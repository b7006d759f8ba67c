-- ===== src/Cortex/Settings.antt =====
-- settings_snapshot and adopt_settings (crates/loa-cortex/src/main.rs): what survives a reboot.
use loa.Base.{String, ◌≡◌, Bool, Option, none, some, List, [], ◌∷◌, str_eq, if◌then◌else◌, arith}
use loa.Base.Floats.{Floats}
use loa.Cortex.{State, default}

-- A JSON value, as far as the settings tell them apart.
pub data Value : Type 0 where
  null : Value
  bool : Bool → Value
  string : String → Value
  other : Value  -- a number, an array or an object

abbrev pub text_value : Option String → Value
text_value none = null
text_value (some s) = string s

module _ {F : Type 0} where
  unfoldable pub settings_snapshot : State F → List (String × Value)
  settings_snapshot st =
      ("mood", string st.mood)
      ∷ ("ring_state", string st.ring_state)
      ∷ ("oled_mode", string st.oled_mode)
      ∷ ("oled_text", text_value st.oled_text)
      ∷ ("oled_dim", bool st.oled_dim)
      ∷ ("oled_flip", bool st.oled_flip)
      ∷ ("ripperdoc", bool st.ripperdoc)
      ∷ ("page", string st.page)
      ∷ ("snr_on", bool st.snr_on)
      ∷ []

  unfoldable pub adopt_string : State F → String → String → State F
  adopt_string st k s =
      if str_eq k "mood"
      then record st { mood = s }
      else if str_eq k "ring_state"
      then record st { ring_state = s }
      else if str_eq k "oled_mode"
      then record st { oled_mode = s }
      else if str_eq k "oled_text"
      then record st { oled_text = some s }
      else if str_eq k "page"
      then record st { page = s }
      else st

  unfoldable pub adopt_bool : State F → String → Bool → State F
  adopt_bool st k b =
      if str_eq k "oled_dim"
      then record st { oled_dim = b }
      else if str_eq k "oled_flip"
      then record st { oled_flip = b }
      else if str_eq k "ripperdoc"
      then record st { ripperdoc = b }
      else if str_eq k "snr_on"
      then record st { snr_on = b }
      else st

  -- A key with a value of another shape keeps its default.
  unfoldable pub adopt : State F → String × Value → State F
  unfolding adopt_string adopt_bool
  adopt st (k, null) = st
  adopt st (k, string s) = adopt_string st k s
  adopt st (k, bool b) = adopt_bool st k b
  adopt st (k, other) = st

  unfoldable pub adopt_settings : State F → List (String × Value) → State F
  unfolding adopt
  adopt_settings st [] = st
  adopt_settings st (row ∷ rows) = adopt_settings (adopt st row) rows

  -- The nine settings of one state, and all the rest of another.
  abbrev pub with_settings : State F → State F → State F
  with_settings a b = record b {
    mood = a.mood;
    page = a.page;
    ring_state = a.ring_state;
    oled_mode = a.oled_mode;
    oled_text = a.oled_text;
    oled_dim = a.oled_dim;
    oled_flip = a.oled_flip;
    ripperdoc = a.ripperdoc;
    snr_on = a.snr_on;
  }

module _ {F : Type 0} ⦃f : Floats F⦄ where
  -- A cortex that boots from a snapshot has the nine settings of the state that was saved, and
  -- otherwise the defaults: no setting is lost, and no reading survives.
  pub adopt_settings-snapshot :
      (st : State F) → adopt_settings default (settings_snapshot st) ≡ with_settings st default
  unfolding adopt_settings settings_snapshot default
  adopt_settings-snapshot st = ground arith
