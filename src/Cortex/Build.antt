-- ===== src/Cortex/Build.antt =====
-- crates/loa-cortex/src/build.rs, and the condition rules of crates/loa-cortex/src/state.rs: what
-- each message says of the state. `now` is the clock's reading.
use loa.Base.{
  ℕ, String, ◌≡◌, ◌≢◌, refl, inl, inr, Bool, true, false, Option, none, some, List, [], ◌∷◌, ◌++◌,
  map, any, str_eq, if◌then◌else◌, ap, Bool-cases, false≢true, eq_iff,
}
use loa.Wire.Pb.{Row, Body, Fault, Ripperdoc, ripperdoc, ring, pir, sonar, fault, init}
use loa.Cortex.{FaultRow, State, Cortex}
use loa.Cortex.Merge.{fault_row, merge_fault}

abbrev pub has_level : String → List FaultRow → Bool
has_level level rows = any (λ r. str_eq r.level level) rows

-- Cortex::condition_from
unfoldable pub condition_from : List FaultRow → String
condition_from rows =
    if has_level "fault" rows then "hurts" else if has_level "warn" rows then "niggle" else "well"

-- Cortex::renderer_condition
unfoldable pub renderer_condition : {F : Type 0} → State F → String
renderer_condition st = elim st.fault_ts [ none ↦ "mute" | some t ↦ st.condition ]

abbrev pub db_down_row : FaultRow
db_down_row = record {
  level = "fault";
  code = "DB DOWN";
  text = "settings cannot be flushed to the store";
  face = some "STORE";
}

-- Cortex::injected_faults
unfoldable pub injected_faults : Bool → List FaultRow
injected_faults true = db_down_row ∷ []
injected_faults false = []

abbrev pub wire_row : FaultRow → Row
wire_row r = record { level = r.level; code = r.code; text = r.text; face = r.face }

module _ {F : Type 0} (now : F) where
  abbrev pub state_leg : State F → Ripperdoc F
  state_leg st = record {
    face = none;
    page = some st.page;
    mood = some st.mood;
    snr_on = some st.snr_on;
    ring_state = some st.ring_state;
    oled_mode = some st.oled_mode;
    oled_text = st.oled_text;
    oled_dim = some st.oled_dim;
    ripperdoc = some st.ripperdoc;
    condition = some st.condition;
    oled_flip = some st.oled_flip;
    ts = some now;
  }

  unfoldable pub build_state : State F → Body F
  build_state st = ripperdoc (state_leg st)

  unfoldable pub build_ripperdoc : State F → Option (List ℕ) → Body F
  build_ripperdoc st face = ripperdoc (record (state_leg st) { face = face })

  unfoldable pub build_ring : Option (List ℕ) → Body F
  build_ring last_ring = ring (record { ring = last_ring; ts = some now })

  unfoldable pub fault_of : Cortex F → Bool → Fault F
  fault_of cx db_down =
      let rows = injected_faults db_down ++ cx.st.faults in
      record { rows = map wire_row rows; condition = some (condition_from rows); ts = some now }

  unfoldable pub build_fault : Cortex F → Bool → Body F
  unfolding fault_of
  build_fault cx db_down = fault (fault_of cx db_down)

  unfoldable pub build_pir : State F → Body F
  build_pir st = pir (record {
    high = some st.pir_high;
    count = some st.pir_count;
    last_ts = st.pir_last_ts;
    last_hold = some st.pir_last_hold;
    on_ts = st.pir_on_ts;
    ts = some now;
  })

  unfoldable pub build_sonar : State F → Body F
  build_sonar st = sonar (record { cm = st.snr_cm; count = some st.snr_count; ts = some now })

  unfoldable pub build_init : Body F
  build_init = init (record { source = some "cortex"; ts = some now })

wire_rows-fault_rows : (rows : List Row) → map wire_row (map fault_row rows) ≡ rows
wire_rows-fault_rows [] = refl
wire_rows-fault_rows (r ∷ rs) = ap (λ l. r ∷ l) (wire_rows-fault_rows rs)

hurts≢mute : ◌≢◌ {A = String} "hurts" "mute"
hurts≢mute e = false≢true ((eq_iff "hurts" "mute").1 e)

niggle≢mute : ◌≢◌ {A = String} "niggle" "mute"
niggle≢mute e = false≢true ((eq_iff "niggle" "mute").1 e)

well≢mute : ◌≢◌ {A = String} "well" "mute"
well≢mute e = false≢true ((eq_iff "well" "mute").1 e)

condition_from-ne-mute : (rows : List FaultRow) → condition_from rows ≢ "mute"
unfolding condition_from
condition_from-ne-mute rows e = elim (Bool-cases (has_level "fault" rows)) [
  | inl t ↦ hurts≢mute (rw t at e)
  | inr t ↦ elim (Bool-cases (has_level "warn" rows)) [
    | inl u ↦ niggle≢mute (rw (t, u) at e)
    | inr u ↦ well≢mute (rw (t, u) at e)
  ]
]

-- What a fault message says of the report that the cortex heard last. Its rows are the report's, as
-- they came, behind a DB DOWN row while the store is down; its condition is read off those rows,
-- so it is "hurts" while the store is down, whatever the report said; and it never says "mute".
pub build_fault_lem :
    {F : Type 0} (now : F) (cx : Cortex F) (report : Fault F) (db_down : Bool)
    → let heard = record cx { st = merge_fault now cx.st report } in
      let sent = fault_of now heard db_down in
      (sent.rows ≡ map wire_row (injected_faults db_down) ++ report.rows)
      × (sent.condition
          ≡ some (if db_down then "hurts" else condition_from (map fault_row report.rows)))
      × (sent.condition ≢ some "mute")
unfolding fault_of merge_fault injected_faults
build_fault_lem now cx report true = (
  ap (λ l. wire_row db_down_row ∷ l) (wire_rows-fault_rows report.rows),
  unfold condition_from in refl,
  λ e. condition_from-ne-mute (db_down_row ∷ map fault_row report.rows) (cc),
)
build_fault_lem now cx report false = (
  wire_rows-fault_rows report.rows,
  refl,
  λ e. condition_from-ne-mute (map fault_row report.rows) (cc),
)
