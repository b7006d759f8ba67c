-- ===== src/Oled/View.antt =====
-- crates/loa-oled/src/rstate.rs: what the face holds of the feed, and the takeover. A map is a
-- list of keys with their values.
use loa.Base.{
  ℕ, suc, String, Bool, true, false, not, ◌||◌, Option, none, some, List, [], ◌∷◌, map, any, str_eq,
  if◌then◌else◌,
}
use loa.Base.Floats.{Floats}
use loa.Wire.Pb
use loa.Wire.Pb.{Body, Envelope, Ripperdoc, Row}
use Prim.Native.String.{compare}
use Prim.Native.Nat.{Ordering}

pub record FaultRow : Type 0 where
  pub level : String
  pub code : String
  pub text : String
  pub face : String

pub record FaultMsg (F : Type 0) : Type 0 where
  pub rows : List FaultRow
  pub condition : Option String
  pub ts : F

-- A value of the seal, with the type that the page reads.
pub data Seal (F : Type 0) : Type 0 where
  truth : Bool → Seal F
  null : Seal F
  number : F → Seal F
  text : String → Seal F

pub record RenderState (F : Type 0) : Type 0 where
  -- presentation
  pub mode : String
  pub text : Option String
  pub dim : Bool
  pub flip : Bool
  pub page : String
  pub mood : String
  pub ring_state : String
  pub ripperdoc : Bool
  pub snr_on : Bool
  pub condition : String
  -- held readings
  pub pir_high : Bool
  pub pir_count : ℕ
  pub pir_last_ts : Option F
  pub pir_on_ts : Option F
  pub pir_last_hold : F
  pub snr_cm : Option F
  pub snr_count : ℕ
  pub snr_ts : Option F
  pub temp_c : Option F
  pub hum_pct : Option F
  pub pressure_hpa : Option F
  pub baro_trend : String
  -- the sweep
  pub fault : Option (FaultMsg F)
  pub fault_seen : Bool
  -- the vault and the rails
  pub seal : List (String × Seal F)
  pub rails : List (String × F)
  pub power_ts : Option F
  pub power_throttled : Option ℕ
  pub clock_now : F

abbrev pub or_else {ℓ} : {A : Type ℓ} → Option A → A → A
or_else none d = d
or_else (some a) d = a

-- The condition that takes the face over.
abbrev pub alarming : String → Bool
alarming cond = str_eq cond "hurts" || str_eq cond "mute"

abbrev pub swept_row : Row → FaultRow
swept_row r = record { level = r.level; code = r.code; text = r.text; face = or_else r.face "" }

-- `rails.remove(key)`: the value, and the map without it.
unfoldable pub find_key {ℓ} : {A : Type ℓ} → List (String × A) → String → Option A
find_key [] key = none
find_key ((k, v) ∷ rest) key = if str_eq k key then some v else find_key rest key

unfoldable pub without_key {ℓ} : {A : Type ℓ} → List (String × A) → String → List (String × A)
without_key [] key = []
without_key ((k, v) ∷ rest) key =
    let kept = without_key rest key in if str_eq k key then kept else (k, v) ∷ kept

module _ {F : Type 0} where
  unfoldable pub ring_dark : RenderState F → Bool
  ring_dark st = elim st.fault [
    | none ↦ false
    | some f ↦ any (λ r. str_eq r.code "RING DARK") f.rows
  ]

  unfoldable pub renderer_condition : RenderState F → String
  renderer_condition st =
      if not st.fault_seen then "mute" else if str_eq st.condition "" then "well" else st.condition

  unfoldable pub face_state : RenderState F → RenderState F
  unfolding renderer_condition ring_dark
  face_state st =
      let dark = ring_dark st in
      if alarming (renderer_condition st) || dark
      then (if not (str_eq st.mode "ripperdoc") || dark
          then record st { mode = "ripperdoc"; page = "fault" }
          else st)
      else st

  unfoldable pub hold_state : Ripperdoc F → RenderState F → RenderState F
  hold_state m st = record st {
    mode = or_else m.oled_mode st.mode;
    text = m.oled_text;
    dim = or_else m.oled_dim st.dim;
    flip = or_else m.oled_flip st.flip;
    page = or_else m.page st.page;
    mood = or_else m.mood st.mood;
    ring_state = or_else m.ring_state st.ring_state;
    ripperdoc = or_else m.ripperdoc st.ripperdoc;
    snr_on = or_else m.snr_on st.snr_on;
    condition = or_else m.condition st.condition;
  }

  unfoldable pub hold_weather : Pb.Weather F → RenderState F → RenderState F
  hold_weather m st = record st {
    temp_c = m.temp_c;
    hum_pct = m.hum_pct;
    pressure_hpa = m.pressure_hpa;
    baro_trend = or_else m.trend "";
  }

  -- A ping without a distance keeps the reading.
  unfoldable pub hold_sonar : Pb.Sonar F → RenderState F → RenderState F
  hold_sonar m st = elim m.cm [
    | none ↦ st
    | some cm ↦ record st { snr_cm = some cm; snr_count = or_else m.count 0; snr_ts = m.ts }
  ]

-- The parsing of a double and its cast to a u32 are the standard library's.
module _ {F : Type 0} (parse_f64 : String → Option F) (as_u32 : F → ℕ) where
  abbrev pub number_or_text : Option F → String → Seal F
  number_or_text none s = text s
  number_or_text (some n) s = number n

  unfoldable pub seal_value : String → Seal F
  seal_value s =
      if str_eq s "true"
      then truth true
      else if str_eq s "false"
      then truth false
      else if str_eq s "null"
      then null
      else number_or_text (parse_f64 s) s

  unfoldable pub hold_power : Pb.Power F → RenderState F → RenderState F
  unfolding seal_value find_key without_key
  hold_power m st = record st {
    power_ts = m.ts;
    rails = without_key m.rails "throttled";
    seal = map (λ e. (e.0, seal_value e.1)) m.frag;
    power_throttled = elim (find_key m.rails "throttled") [
      | none ↦ st.power_throttled
      | some bits ↦ some (as_u32 bits)
    ];
  }

module _ {F : Type 0} ⦃f : Floats F⦄ where
  -- RenderState::default, at the clock's reading.
  unfoldable pub default : F → RenderState F
  default now = record {
    mode = "";
    text = none;
    dim = false;
    flip = false;
    page = "sensors";
    mood = "calm";
    ring_state = "home";
    ripperdoc = false;
    snr_on = true;
    condition = "";
    pir_high = false;
    pir_count = 0;
    pir_last_ts = none;
    pir_on_ts = none;
    pir_last_hold = f.zero;
    snr_cm = none;
    snr_count = 0;
    snr_ts = none;
    temp_c = none;
    hum_pct = none;
    pressure_hpa = none;
    baro_trend = "";
    fault = none;
    fault_seen = false;
    seal = [];
    rails = [];
    power_ts = none;
    power_throttled = none;
    clock_now = now;
  }

  unfoldable pub hold_pir : Pb.Pir F → RenderState F → RenderState F
  hold_pir m st = record st {
    pir_high = or_else m.high false;
    pir_count = or_else m.count 0;
    pir_last_ts = m.last_ts;
    pir_on_ts = m.on_ts;
    pir_last_hold = or_else m.last_hold f.zero;
  }

  unfoldable pub hold_fault : Pb.Fault F → RenderState F → RenderState F
  hold_fault m st = record st {
    fault_seen = true;
    fault =
        some (record {
          rows = map swept_row m.rows;
          condition = m.condition;
          ts = or_else m.ts f.zero;
        });
  }

  module _ (parse_f64 : String → Option F) (as_u32 : F → ℕ) where
    -- The `match (topic, body)` of hold.
    unfoldable pub hold_body : String → Body F → RenderState F → RenderState F
    unfolding hold_state hold_pir hold_sonar hold_weather hold_fault hold_power
    hold_body topic (Pb.ripperdoc m) st = if str_eq topic "state" then hold_state m st else st
    hold_body topic (Pb.pir m) st = if str_eq topic "pir" then hold_pir m st else st
    hold_body topic (Pb.sonar m) st = if str_eq topic "sonar" then hold_sonar m st else st
    hold_body topic (Pb.weather m) st = if str_eq topic "weather" then hold_weather m st else st
    hold_body topic (Pb.fault m) st = if str_eq topic "fault" then hold_fault m st else st
    hold_body topic (Pb.power m) st =
        if str_eq topic "power" then hold_power parse_f64 as_u32 m st else st
    hold_body topic other st = st

    -- RenderState::hold, at the clock's reading.
    unfoldable pub hold : F → String → Option (Body F) → RenderState F → RenderState F
    unfolding hold_body
    hold now topic none st = record st { clock_now = now }
    hold now topic (some b) st = hold_body topic b (record st { clock_now = now })

-- `rows.sort_by` on the codes, which is stable.
abbrev pub code_le : FaultRow → FaultRow → Bool
code_le a b = elim (compare a.code b.code) [ Ordering.gt ↦ false | _ ↦ true ]

unfoldable pub insert_row : FaultRow → List FaultRow → List FaultRow
insert_row r [] = r ∷ []
insert_row r (s ∷ rows) =
    let rest = insert_row r rows in if code_le r s then r ∷ s ∷ rows else s ∷ rest

unfoldable pub sort_rows : List FaultRow → List FaultRow
unfolding insert_row
sort_rows [] = []
sort_rows (r ∷ rows) = insert_row r (sort_rows rows)

unfoldable pub count_level : String → List FaultRow → ℕ
count_level level [] = 0
count_level level (r ∷ rows) =
    let rest = count_level level rows in if str_eq r.level level then suc rest else rest

-- The report's time, the counts, and the rows by code.
unfoldable pub faults_view : {F : Type 0} → RenderState F → Option (F × ℕ × ℕ × List FaultRow)
unfolding sort_rows count_level
faults_view st = elim st.fault [
  | none ↦ none
  | some m ↦
      let rows = sort_rows m.rows in
      some (m.ts, count_level "fault" rows, count_level "warn" rows, rows)
]
