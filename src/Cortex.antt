-- ===== src/Cortex.antt =====
-- The cortex's state (crates/loa-cortex/src/state.rs). Its verbs, the merge of readings, the
-- messages it builds and its settings are the modules below.
pub mod Moods
pub mod Verbs
pub mod Valid
pub mod Merge
pub mod Mirror
pub mod Build
pub mod Settings
pub mod Process
pub mod Answer
pub mod Inbox
pub mod Heard
pub mod Door
pub mod Clean
pub mod Refused
pub mod Announced
pub mod Sample
mod Examples
use loa.Base.{ℕ, String, Bool, true, false, Option, none, List, []}
use loa.Base.Floats.{Floats}

pub record FaultRow : Type 0 where
  pub level : String
  pub code : String
  pub text : String
  pub face : Option String

pub record State (F : Type 0) : Type 0 where
  -- settings
  pub mood : String
  pub page : String
  pub ring_state : String
  pub oled_mode : String
  pub oled_text : Option String
  pub oled_dim : Bool
  pub oled_flip : Bool
  pub ripperdoc : Bool
  pub snr_on : Bool
  pub mood_set_at : Option F
  pub expression : Option String
  -- readings
  pub pir_high : Bool
  pub pir_count : ℕ
  pub pir_last_ts : Option F
  pub pir_last_hold : F
  pub pir_on_ts : Option F
  pub snr_cm : Option F
  pub snr_count : ℕ
  pub snr_ts : Option F
  pub temp_c : Option F
  pub hum_pct : Option F
  pub temp_ts : Option F
  pub temp_count : ℕ
  pub pressure_hpa : Option F
  pub baro_temp_c : Option F
  pub baro_ts : Option F
  pub baro_count : ℕ
  -- faults
  pub faults : List FaultRow
  pub fault_ts : Option F
  pub condition : String

pub record Cortex (F : Type 0) : Type 0 where
  pub st : State F
  pub baro : List (F × F)  -- (ts, pressure_hpa), oldest first
  pub last_face : Option (List ℕ)
  pub last_ring : Option (List ℕ)

module _ {F : Type 0} ⦃f : Floats F⦄ where
  -- impl Default for State
  unfoldable pub default : State F
  default = record {
    mood = "calm";
    page = "sensors";
    ring_state = "home";
    oled_mode = "scope";
    oled_text = none;
    oled_dim = false;
    oled_flip = true;
    ripperdoc = false;
    snr_on = true;
    mood_set_at = none;
    expression = none;
    pir_high = false;
    pir_count = 0;
    pir_last_ts = none;
    pir_last_hold = f.zero;
    pir_on_ts = none;
    snr_cm = none;
    snr_count = 0;
    snr_ts = none;
    temp_c = none;
    hum_pct = none;
    temp_ts = none;
    temp_count = 0;
    pressure_hpa = none;
    baro_temp_c = none;
    baro_ts = none;
    baro_count = 0;
    faults = [];
    fault_ts = none;
    condition = "well";
  }

  unfoldable pub new : Cortex F
  unfolding default
  new = record { st = default; baro = []; last_face = none; last_ring = none }
