-- ===== src/Fault/Checks.antt =====
-- evaluate (crates/loa-fault/src/lib.rs): each check is a function from what the probes read to
-- rows.
use Prim.Native.String.{len, slice}
use loa.Base.{
  ℕ, ◌-◌, String, Bool, true, false, not, ◌&&◌, ◌||◌, Option, none, some, List, [], ◌∷◌, ◌++◌, map,
  any, str_eq, ◌==◌, leb, bit_and, if◌then◌else◌,
}
use loa.Base.Floats.{Floats}
use loa.Fault.{
  Row, SvcState, active, inactive, failed, looping, unknown, word, format, sort_by_level,
  sweep_condition,
}
use loa.Fault.Probes.{
  Formats, Inputs, units, bus_owners, bus_labels, sensor_keys, new, or_default, contains, is_empty,
  join, label_of, concat_map,
}

module _ {F : Type 0} ⦃f : Floats F⦄ (s : Formats F) where
  unfoldable pub short : String → String
  short unit = s.to_uppercase (or_default (s.second_part unit) unit)

  abbrev pub down : String → SvcState → List Row
  down unit state =
      new "fault" (format (short unit ∷ " DOWN" ∷ [])) (format (unit ∷ " is " ∷ word state ∷ []))
      ∷ []

  unfoldable pub unit_rows : String → SvcState → Bool → List Row
  unit_rows unit active present = []
  unit_rows unit looping present =
      new "fault" (format (short unit ∷ " LOOP" ∷ [])) (
        format (
          unit
          ∷ " is CRASH-LOOPING ("
          ∷ word looping
          ∷ ") — running and failing. Check its log before believing anything downstream is broken."
          ∷ []))
      ∷ []
  unit_rows unit inactive present =
      if str_eq unit "loa-ring"
      then new "warn" "RING STOPPED" (
          format (
            "loa-ring not running — unit file "
            ∷ (if present then "present but stopped" else "MISSING from /etc/systemd/system")
            ∷ []))
        ∷ []
      else down unit inactive
  unit_rows unit failed present = down unit failed
  unit_rows unit unknown present = down unit unknown

  unfoldable pub units_check : Inputs F → String → List Row
  unfolding unit_rows
  units_check i unit =
      let (state, present) = or_default (i.services unit) (unknown, false) in
      unit_rows unit state present

  abbrev pub dark : String → String → String → List Row
  dark bus expected label =
      new "fault" (format (label ∷ " DARK" ∷ [])) (
        format (
          "nothing is driving "
          ∷ bus
          ∷ " — expected "
          ∷ expected
          ∷ ", so the "
          ∷ s.to_lowercase label
          ∷ " is dark"
          ∷ []))
      ∷ []

  unfoldable pub bus_rows : String → String → Bool → List String → List Row
  bus_rows bus expected false holders = []
  bus_rows bus expected true holders =
      if any (λ h. contains h expected) holders
      then []
      else if not (is_empty holders)
      then new "fault" "BUS CLASH"
          (format (bus ∷ " held by something else: " ∷ join " | " (map s.trim holders) ∷ []))
        ∷ []
      else dark bus expected (
          or_default (label_of bus bus_labels) (s.to_uppercase (slice bus (len bus - 3) (len bus))))

  unfoldable pub bus_check : Inputs F → String × String → List Row
  unfolding bus_rows
  bus_check i (bus, expected) =
      let (node, holders) = or_default (i.bus bus) (false, []) in bus_rows bus expected node holders

  abbrev pub is_hot : Option F → Bool
  is_hot none = true
  is_hot (some t) = f.le (f.lit 80 1) t

  abbrev pub heat_face : Bool → Option F → String
  heat_face true (some t) = format ("HOT " ∷ s.round t ∷ "C" ∷ [])
  heat_face true none = "HOT"
  heat_face false _ = "THROTTLED"

  abbrev pub heat_cause : Option F → String
  heat_cause none = "SoC throttling — temperature unreadable"
  heat_cause (some t) = format ("SoC at " ∷ s.float t ∷ "C — freq-capped/throttling to cope" ∷ [])

  unfoldable pub rails_check : Option ℕ → Option F → List Row
  rails_check none temp = []
  rails_check (some bits) temp =
      let thr = bit_and bits 0xE in
      if not (bit_and bits 0x1 == 0)
      then new "fault" "UNDERVOLT" (
          format (
            "5V input sagging RIGHT NOW"
            ∷ (if not (thr == 0) then " — SoC throttled to cope" else "")
            ∷ " (throttled="
            ∷ s.hex bits
            ∷ ")"
            ∷ []))
        ∷ []
      else if not (thr == 0)
      then record {
        level = "fault";
        code = if is_hot temp then "HOT" else "THROTTLED";
        text = format (heat_cause temp ∷ " (throttled=" ∷ s.hex bits ∷ ")" ∷ []);
        face = heat_face (is_hot temp) temp;
      }
        ∷ []
      else []

  unfoldable pub sensor_rows : String → String → F → Option F → Option F → List Row
  sensor_rows label key now none ts = []
  sensor_rows label key now (some v) none =
      new "warn" (format (label ∷ " NO TS" ∷ []))
        (format (key ∷ " has a value but no timestamp — nothing can say how old it is" ∷ []))
      ∷ []
  sensor_rows label key now (some v) (some ts) =
      let minutes = s.div (f.sub now ts) (f.lit 60 1) in
      if f.lt (f.lit 600 1) (f.sub now ts)
      then record {
        level = "warn";
        code = format (label ∷ " STALE" ∷ []);
        text = format (
            key
            ∷ " last read "
            ∷ s.round minutes
            ∷ " min ago — that number is a ghost, not a reading"
            ∷ []);
        face = format (label ∷ " " ∷ s.trunc minutes ∷ "M OLD" ∷ []);
      }
        ∷ []
      else []

  unfoldable pub sensor_check : Inputs F → String × String → List Row
  unfolding sensor_rows
  sensor_check i (label, key) =
      let (value, ts) = or_default (i.sensors key) (none, none) in
      sensor_rows label key i.now value ts

  unfoldable pub disk_check : Option (ℕ × F × F) → List Row
  disk_check none = []
  disk_check (some (used, free, total)) =
      if leb 85 used
      then new "warn" (format ("DISK " ∷ s.dec used ∷ "%" ∷ []))
          (format ("root filesystem " ∷ s.dec used ∷ "% used (" ∷ s.tenths free ∷ " GB free)" ∷ []))
        ∷ []
      else []

  unfoldable pub api_check : Inputs F → List Row
  api_check i =
      if not (str_eq i.cortex_state "active") || not i.api_listening
      then new "fault" "API DEAD" (
          format (
            "cortex not answering on :"
            ∷ (if str_eq i.api_port "" then "8765" else i.api_port)
            ∷ " (unit '"
            ∷ i.cortex_state
            ∷ "', port "
            ∷ (if i.api_listening then "listening" else "closed")
            ∷ ")"
            ∷ []))
        ∷ []
      else []

  unfoldable pub i2c_check : Bool → Bool → List Row
  i2c_check door tree =
      if not door && tree
      then new "warn" "I2C NO DOOR"
          "/dev/i2c-1 absent — i2c-dev not loaded (a blind bus, not a dead chip)"
        ∷ []
      else []

  -- The rows, in the order of the checks.
  unfoldable pub probed : Inputs F → List Row
  unfolding concat_map
  probed i =
      concat_map (units_check i) units
      ++ (concat_map (bus_check i) bus_owners
          ++ (rails_check i.throttled i.temp_val
              ++ (concat_map (sensor_check i) sensor_keys
                  ++ (disk_check i.disk ++ (api_check i ++ i2c_check i.i2c_door i.device_tree)))))

  unfoldable pub evaluate : Inputs F → List Row × String
  unfolding probed
  evaluate i = let rows = sort_by_level (probed i) in (rows, sweep_condition rows)
