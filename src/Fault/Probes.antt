-- ===== src/Fault/Probes.antt =====
-- What the checks of crates/loa-fault/src/lib.rs read: the probes' inputs, the rosters, and the
-- standard library's conversions of texts and numbers, which are the operations of `Formats`.
use text.Mathlib.Text.{find?}
use loa.Base.{
  ℕ, String, Bool, true, false, Option, none, some, List, [], ◌∷◌, ◌++◌, str_eq, if◌then◌else◌,
}
use loa.Fault.{Row, SvcState, format}

pub record Formats (F : Type 0) : Type 0 where
  pub second_part : String → Option String  -- s.split('-').nth(1)
  pub to_uppercase : String → String
  pub to_lowercase : String → String
  pub trim : String → String
  pub dec : ℕ → String  -- {n}
  pub hex : ℕ → String  -- {n:#x}
  pub float : F → String  -- {x}
  pub round : F → String  -- {x:.0}
  pub tenths : F → String  -- {x:.1}
  pub trunc : F → String  -- {} of x as i64
  pub div : F → F → F  -- a / b

pub record Inputs (F : Type 0) : Type 0 where
  pub services : String → Option (SvcState × Bool)
  pub bus : String → Option (Bool × List String)
  pub disk : Option (ℕ × F × F)
  pub sensors : String → Option (Option F × Option F)
  pub throttled : Option ℕ
  pub temp_val : Option F
  pub cortex_state : String
  pub api_listening : Bool
  pub api_port : String
  pub i2c_door : Bool
  pub device_tree : Bool
  pub now : F

abbrev pub units : List String
units =
    "loa-cortex" ∷ "loa-oled" ∷ "loa-ring" ∷ "loa-motion" ∷ "loa-sonar" ∷ "loa-weather"
    ∷ "loa-fault" ∷ []

abbrev pub bus_owners : List (String × String)
bus_owners = ("/dev/spidev0.0", "loa-oled") ∷ ("/dev/spidev1.0", "loa-ring") ∷ []

abbrev pub bus_labels : List (String × String)
bus_labels = ("/dev/spidev0.0", "FACE") ∷ ("/dev/spidev1.0", "RING") ∷ []

-- SENSORS: the label and the value's key. The key of its time is not read.
abbrev pub sensor_keys : List (String × String)
sensor_keys = ("TEMP", "temp_c") ∷ ("BARO", "pressure_hpa") ∷ []

abbrev pub new : String → String → String → Row
new level code text = record { level = level; code = code; text = text; face = "" }

abbrev pub or_default {ℓ} : {A : Type ℓ} → Option A → A → A
or_default none d = d
or_default (some a) d = a

abbrev pub contains : String → String → Bool
contains s t = elim (find? s t) [ none ↦ false | some i ↦ true ]

abbrev pub is_empty {ℓ} : {A : Type ℓ} → List A → Bool
is_empty [] = true
is_empty (x ∷ xs) = false

-- parts.join(sep)
unfoldable pub join : String → List String → String
unfolding format
join sep [] = ""
join sep (s ∷ []) = s
join sep (s ∷ t ∷ ss) = let rest = join sep (t ∷ ss) in format (s ∷ sep ∷ rest ∷ [])

unfoldable pub label_of : String → List (String × String) → Option String
label_of bus [] = none
label_of bus ((b, l) ∷ rest) = if str_eq b bus then some l else label_of bus rest

-- The rows of a check that runs once per item.
unfoldable pub concat_map {ℓ} : {A : Type ℓ} → (A → List Row) → List A → List Row
concat_map g [] = []
concat_map g (x ∷ xs) = g x ++ concat_map g xs
