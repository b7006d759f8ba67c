-- ===== src/Cortex/Answer.antt =====
-- What the inbox of crates/loa-cortex/src/main.rs makes of a reading, read off the reading itself.
use loa.Base.{
  String, ◌≡◌, refl, inl, inr, ap, Bool, true, false, ◌||◌, Option, none, some, List, [], ◌∷◌, map,
  any, str_eq, if◌then◌else◌, arith, Option-cases,
}
use loa.Base.Floats.{Floats}
use loa.Wire.Pb
use loa.Wire.Pb.{Body, Envelope, Row}
use loa.Wire.Contract.{envelope}
use loa.Cortex.{Cortex}
use loa.Cortex.Merge.{merge, push_baro, present, present_some, fault_row, merge_fault}
use loa.Cortex.Build.{
  build_pir, build_sonar, build_fault, fault_of, injected_faults, build_fault_lem, has_level,
  condition_from,
}
use loa.Cortex.Process.{Write, baro_write, baro_trend, build_weather, rebuilt, both, samples}

-- A field once a message came: what the message carries, or else what there was.
abbrev pub kept {ℓ} : {A : Type ℓ} → Option A → A → A
kept (some v) old = v
kept none old = old

abbrev pub kept_some {ℓ} : {A : Type ℓ} → Option A → Option A → Option A
kept_some (some v) old = some v
kept_some none old = old

present-kept {ℓ} : {A : Type ℓ} (o : Option A) (old : A) → present o old ≡ kept o old
present-kept none old = refl
present-kept (some v) old = refl

present_some-kept_some {ℓ} : {A : Type ℓ} (o old : Option A) → present_some o old ≡ kept_some o old
present_some-kept_some none old = refl
present_some-kept_some (some v) old = refl

-- The rows of a fault message: the report's, behind one row while the store is down.
abbrev pub rows_told : Bool → List Row → List Row
rows_told true rows =
    record {
      level = "fault";
      code = "DB DOWN";
      text = "settings cannot be flushed to the store";
      face = some "STORE";
    }
    ∷ rows
rows_told false rows = rows

abbrev pub word_told : Bool → List Row → String
word_told true rows = "hurts"
word_told false rows =
    if any (λ r. str_eq r.level "fault") rows
    then "hurts"
    else if any (λ r. str_eq r.level "warn") rows
    then "niggle"
    else "well"

module _ {F : Type 0} ⦃f : Floats F⦄ (now : F) (db_down : Bool) (cx : Cortex F) where
  -- What the cortex makes of a device's message: each field of its leg is what the message carries,
  -- or else what the cortex had. The trend is that of the pressures once this one is among them.
  unfoldable pub answer : Body F → Option (String × Body F)
  answer (Pb.pir p) = some (
    "pir",
    Pb.pir (record {
      high = some (kept p.high cx.st.pir_high);
      count = some (kept p.count cx.st.pir_count);
      last_ts = kept_some p.ts (kept_some p.last_ts cx.st.pir_last_ts);
      last_hold = some (kept p.last_hold cx.st.pir_last_hold);
      on_ts = kept_some p.on_ts cx.st.pir_on_ts;
      ts = some now;
    }),
  )
  answer (Pb.sonar s) = some (
    "sonar",
    Pb.sonar (record {
      cm = kept_some s.cm cx.st.snr_cm;
      count = some (kept s.count cx.st.snr_count);
      ts = some now;
    }),
  )
  answer (Pb.weather w) =
      let (trend, series) = baro_trend (merge now cx (envelope (Pb.weather w))) in
      some (
        "weather",
        Pb.weather (record {
          temp_c = kept_some w.temp_c cx.st.temp_c;
          hum_pct = kept_some w.hum_pct cx.st.hum_pct;
          ts = some now;
          count = some (kept w.count cx.st.temp_count);
          pressure_hpa = kept_some w.pressure_hpa cx.st.pressure_hpa;
          trend = some trend;
          series = series;
        }),
      )
  answer (Pb.fault r) = some (
    "fault",
    Pb.fault (record {
      rows = rows_told db_down r.rows;
      condition = some (word_told db_down r.rows);
      ts = some now;
    }),
  )
  answer other = none

-- The pressure that is stored: one that came with a time.
abbrev pub stored_pair : {F Json : Type 0} → Option F → Option F → List (Write F Json)
stored_pair (some hpa) (some ts) = baro_write ts hpa ∷ []
stored_pair hpa ts = []

unfoldable pub stored : {F Json : Type 0} → Body F → List (Write F Json)
stored (Pb.weather w) = stored_pair w.pressure_hpa w.ts
stored other = []

pair-stored_pair :
    {F Json : Type 0} (ts hpa : Option F)
    → ◌≡◌ {A = List (Write F Json)} (both baro_write ts hpa) (stored_pair hpa ts)
pair-stored_pair none none = refl
pair-stored_pair none (some hpa) = refl
pair-stored_pair (some ts) none = refl
pair-stored_pair (some ts) (some hpa) = refl

pub samples-stored :
    {F Json : Type 0} (b : Body F) → ◌≡◌ {A = List (Write F Json)} (samples (some b)) (stored b)
unfolding samples stored
samples-stored (Pb.weather w) = pair-stored_pair w.ts w.pressure_hpa
samples-stored other = refl

any-fault_row :
    (level : String) (rows : List Row)
    → has_level level (map fault_row rows) ≡ any (λ r. str_eq r.level level) rows
any-fault_row level [] = refl
any-fault_row level (r ∷ rows) = ap (λ b. str_eq r.level level || b) (any-fault_row level rows)

condition_from-told : (rows : List Row) → condition_from (map fault_row rows) ≡ word_told false rows
unfolding condition_from
condition_from-told rows = rw (any-fault_row "fault" rows, any-fault_row "warn" rows) refl

fault_of-told :
    {F : Type 0} (now : F) (db_down : Bool) (cx : Cortex F) (r : Pb.Fault F)
    → fault_of now (record cx { st = merge_fault now cx.st r }) db_down ≡ record {
      rows = rows_told db_down r.rows;
      condition = some (word_told db_down r.rows);
      ts = some now;
    }
unfolding fault_of
fault_of-told now true cx r =
    let (rows, word, _) = build_fault_lem now cx r true in
    unfold fault_of injected_faults in ground (arith, rows, word)
fault_of-told now false cx r =
    let (rows, word, _) = build_fault_lem now cx r false in
    let told = condition_from-told r.rows in
    unfold fault_of injected_faults in ground (arith, rows, word, told)

pub rebuilt-answer :
    {F : Type 0} ⦃f : Floats F⦄ (now : F) (db_down : Bool) (cx : Cortex F) (b : Body F)
    → rebuilt now db_down (merge now cx (envelope b)) (some b) ≡ answer now db_down cx b
unfolding answer rebuilt merge push_baro envelope build_pir build_sonar build_weather build_fault
rebuilt-answer now db_down cx (Pb.pir p) = simp (present-kept, present_some-kept_some)
rebuilt-answer now db_down cx (Pb.sonar s) = simp (present-kept, present_some-kept_some)
rebuilt-answer now db_down cx (Pb.weather w) = elim (Option-cases w.pressure_hpa) [
  | inl e ↦ simp (present-kept, present_some-kept_some, e)
  | inr (v, e) ↦ simp (present-kept, present_some-kept_some, e)
]
rebuilt-answer now db_down cx (Pb.fault r) =
    ap (λ m. some ("fault", Pb.fault m)) (fault_of-told now db_down cx r)
rebuilt-answer now db_down cx other = refl
