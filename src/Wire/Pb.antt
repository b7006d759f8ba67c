-- ===== src/Wire/Pb.antt =====
-- The protobuf messages of proto/loa.proto, with the fields that the Rust crates read and write.
-- Every field is optional: `none` is a field that the message does not carry. A double is an `F`.
use loa.Base.{ℕ, String, Bool, Option, none, List, []}

pub record Pir (F : Type 0) : Type 0 where
  pub high : Option Bool
  pub count : Option ℕ
  pub last_ts : Option F
  pub last_hold : Option F
  pub on_ts : Option F
  pub ts : Option F

pub record Sonar (F : Type 0) : Type 0 where
  pub cm : Option F
  pub count : Option ℕ
  pub ts : Option F

pub record Weather (F : Type 0) : Type 0 where
  pub temp_c : Option F
  pub hum_pct : Option F
  pub ts : Option F
  pub count : Option ℕ
  pub pressure_hpa : Option F
  pub trend : Option String
  pub series : List F

pub record Row : Type 0 where
  pub level : String
  pub code : String
  pub text : String
  pub face : Option String

pub record Fault (F : Type 0) : Type 0 where
  pub rows : List Row
  pub condition : Option String
  pub ts : Option F

pub record Ripperdoc (F : Type 0) : Type 0 where
  pub face : Option (List ℕ)
  pub page : Option String
  pub mood : Option String
  pub snr_on : Option Bool
  pub ring_state : Option String
  pub oled_mode : Option String
  pub oled_text : Option String
  pub oled_dim : Option Bool
  pub ripperdoc : Option Bool
  pub condition : Option String
  pub oled_flip : Option Bool
  pub ts : Option F

pub record Ring (F : Type 0) : Type 0 where
  pub ring : Option (List ℕ)
  pub ts : Option F

pub record Power (F : Type 0) : Type 0 where
  pub rails : List (String × F)
  pub frag : List (String × String)
  pub ts : Option F

pub record Event (F : Type 0) : Type 0 where
  pub ts : F
  pub kind : String
  pub detail : List (String × String)

pub record Init (F : Type 0) : Type 0 where
  pub source : Option String
  pub ts : Option F

-- The oneof of an Envelope.
pub data Body (F : Type 0) : Type 0 where
  ripperdoc : Ripperdoc F → Body F
  ring : Ring F → Body F
  pir : Pir F → Body F
  sonar : Sonar F → Body F
  weather : Weather F → Body F
  power : Power F → Body F
  fault : Fault F → Body F
  event : Event F → Body F
  init : Init F → Body F

pub record Envelope (F : Type 0) : Type 0 where
  pub schema_version : ℕ
  pub body : Option (Body F)

-- `..Default::default()`: a message with no field set.
module _ {F : Type 0} where
  abbrev pub no_pir : Pir F
  no_pir = record {
    high = none;
    count = none;
    last_ts = none;
    last_hold = none;
    on_ts = none;
    ts = none;
  }

  abbrev pub no_sonar : Sonar F
  no_sonar = record { cm = none; count = none; ts = none }

  abbrev pub no_weather : Weather F
  no_weather = record {
    temp_c = none;
    hum_pct = none;
    ts = none;
    count = none;
    pressure_hpa = none;
    trend = none;
    series = [];
  }
