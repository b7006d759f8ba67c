-- ===== src/Cortex/Merge.antt =====
-- Cortex::merge and push_baro (crates/loa-cortex/src/state.rs): presence is the only signal.
use loa.Base.{Option, none, some, List, [], ◌∷◌, ◌++◌, map, if◌then◌else◌}
use loa.Base.Floats.{Floats}
use loa.Wire.Pb.{Pir, Sonar, Weather, Fault, Row, pir, sonar, weather, fault, Envelope}
use loa.Cortex.{FaultRow, State, Cortex}

-- `if let Some(v) = o { field = v; }`, and the same where the field is an Option.
abbrev pub present {ℓ} : {A : Type ℓ} → Option A → A → A
present none old = old
present (some v) old = v

abbrev pub present_some {ℓ} : {A : Type ℓ} → Option A → Option A → Option A
present_some none old = old
present_some (some v) old = some v

abbrev pub fault_row : Row → FaultRow
fault_row r = record { level = r.level; code = r.code; text = r.text; face = r.face }

module _ {F : Type 0} where
  -- The arm of a Pir: `ts` is written after `last_ts`, to the same field.
  unfoldable pub merge_pir : State F → Pir F → State F
  merge_pir st p = record st {
    pir_high = present p.high st.pir_high;
    pir_count = present p.count st.pir_count;
    pir_last_ts = present_some p.ts (present_some p.last_ts st.pir_last_ts);
    pir_last_hold = present p.last_hold st.pir_last_hold;
    pir_on_ts = present_some p.on_ts st.pir_on_ts;
  }

  unfoldable pub merge_sonar : State F → Sonar F → State F
  merge_sonar st s = record st {
    snr_cm = present_some s.cm st.snr_cm;
    snr_count = present s.count st.snr_count;
    snr_ts = present_some s.ts st.snr_ts;
  }

  -- `now` is what the clock says, where the report has no time of its own.
  unfoldable pub merge_fault : F → State F → Fault F → State F
  merge_fault now st r = record st {
    faults = map fault_row r.rows;
    fault_ts = some (present r.ts now);
    condition = present r.condition st.condition;
  }

module _ {F : Type 0} ⦃f : Floats F⦄ where
  -- `while let Some(&(first, _)) = self.baro.front()`
  unfoldable pub prune : F → List (F × F) → List (F × F)
  prune ts [] = []
  prune ts ((first, hpa) ∷ rest) =
      let later = prune ts rest in
      if f.lt (f.lit 10800 1) (f.sub ts first) then later else (first, hpa) ∷ rest

  unfoldable pub push_baro : Cortex F → F → F → Cortex F
  unfolding prune
  push_baro cx ts hpa = record cx { baro = prune ts (cx.baro ++ (ts, hpa) ∷ []) }

  -- The part of a Weather that is there only when it carries pressure.
  unfoldable pub merge_pressure : Cortex F → Weather F → Option F → Cortex F
  merge_pressure cx w none = cx
  merge_pressure cx w (some v) =
      let pushed =
        push_baro (record cx { st = record cx.st { pressure_hpa = some v } }) (present w.ts f.zero)
          v in
      record pushed {
        st = record pushed.st {
          baro_ts = present_some w.ts pushed.st.baro_ts;
          baro_count = present w.count pushed.st.baro_count;
        };
      }

  unfoldable pub merge_weather : Cortex F → Weather F → Cortex F
  unfolding merge_pressure
  merge_weather cx w =
      merge_pressure
        (record cx {
          st = record cx.st {
            temp_c = present_some w.temp_c cx.st.temp_c;
            hum_pct = present_some w.hum_pct cx.st.hum_pct;
            temp_ts = present_some w.ts cx.st.temp_ts;
            temp_count = present w.count cx.st.temp_count;
          };
        })
        w w.pressure_hpa

  unfoldable pub merge : F → Cortex F → Envelope F → Cortex F
  unfolding merge_pir merge_sonar merge_weather merge_fault
  merge now cx env = elim env.body [
    | none ↦ cx
    | some b ↦ elim b [
      | pir p ↦ record cx { st = merge_pir cx.st p }
      | sonar s ↦ record cx { st = merge_sonar cx.st s }
      | weather w ↦ merge_weather cx w
      | fault r ↦ record cx { st = merge_fault now cx.st r }
      | _ ↦ cx
    ]
  ]
