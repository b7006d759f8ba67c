-- ===== src/Oled/Takeover.antt =====
-- When the face of crates/loa-oled/src/rstate.rs gives way to the fault page.
use loa.Base.{
  ℕ, String, ◌≡◌, refl, subst, ap, ◌∙◌, inl, inr, Bool, true, false, not, ◌&&◌, ◌||◌, Option, none,
  some, List, [], ◌∷◌, map, any, str_eq, if◌then◌else◌, Bool-cases, Option-cases, eq_iff,
}
use loa.Base.Floats.{Floats}
use loa.Wire.Pb
use loa.Wire.Pb.{Body, Fault, Row}
use loa.Oled.View.{
  RenderState, alarming, swept_row, ring_dark, renderer_condition, face_state, hold_fault,
  hold_body, hold, default, hold_state, hold_pir, hold_sonar, hold_weather, hold_power,
}

-- A message as it arrives: the clock's reading, the topic, the payload.
abbrev pub Heard : Type 0 → Type 0
Heard F = F × String × Option (Body F)

module _ {F : Type 0} ⦃f : Floats F⦄ (parse_f64 : String → Option F) (as_u32 : F → ℕ) where
  unfoldable pub hold_all : RenderState F → List (Heard F) → RenderState F
  hold_all st [] = st
  hold_all st ((now, topic, body) ∷ rest) = hold_all (hold parse_f64 as_u32 now topic body st) rest

-- The report in a message, if it is one.
unfoldable pub report_of : {F : Type 0} → String → Option (Body F) → Option (Fault F)
report_of topic (some (Pb.fault m)) = if str_eq topic "fault" then some m else none
report_of topic other = none

abbrev pub later_or {ℓ} : {A : Type ℓ} → Option A → Option A → Option A
later_or none first = first
later_or (some a) first = some a

-- The last report of a history.
unfoldable pub last_report : {F : Type 0} → List (Heard F) → Option (Fault F)
unfolding report_of
last_report [] = none
last_report ((now, topic, body) ∷ rest) = later_or (last_report rest) (report_of topic body)

-- Does the last report name a dark ring?
abbrev pub names_dark_ring : {F : Type 0} → Option (Fault F) → Bool
names_dark_ring none = false
names_dark_ring (some m) = any (λ r. str_eq r.code "RING DARK") m.rows

-- Must the face show the fault page, in this mode and with this condition word?
unfoldable pub must_warn : {F : Type 0} → Option (Fault F) → String → String → Bool
must_warn none mode condition = not (str_eq mode "ripperdoc")
must_warn (some m) mode condition =
    names_dark_ring (some m) || (alarming condition && not (str_eq mode "ripperdoc"))

abbrev pub is_some {ℓ} : {A : Type ℓ} → Option A → Bool
is_some none = false
is_some (some a) = true

-- The view has this report, or none yet.
unfoldable pub Has : {F : Type 0} → Option (Fault F) → RenderState F → Type 0
unfolding ring_dark
Has report st = (st.fault_seen ≡ is_some report) × (ring_dark st ≡ names_dark_ring report)

later_or_assoc :
    {F : Type 0} (a b c : Option (Fault F)) → later_or (later_or a b) c ≡ later_or a (later_or b c)
later_or_assoc none b c = refl
later_or_assoc (some m) b c = refl

later_or-none : {F : Type 0} (a : Option (Fault F)) → later_or a none ≡ a
later_or-none none = refl
later_or-none (some m) = refl

dark_rows :
    (rows : List Row)
    → any (λ r. str_eq r.code "RING DARK") (map swept_row rows)
      ≡ any (λ r. str_eq r.code "RING DARK") rows
dark_rows [] = refl
dark_rows (r ∷ rows) = ap (λ b. str_eq r.code "RING DARK" || b) (dark_rows rows)

abbrev word : {F : Type 0} → RenderState F → String
word st = if str_eq st.condition "" then "well" else st.condition

-- An empty word reads as "well", which alarms as little.
alarming-well : (c : String) → alarming (if str_eq c "" then "well" else c) ≡ alarming c
alarming-well c = elim (Bool-cases (str_eq c "")) [
  | inl e ↦ let empty : c ≡ "" = (eq_iff c "").0 e in rw empty refl
  | inr e ↦ rw e refl
]

abbrev pub warned : {F : Type 0} → RenderState F → RenderState F
warned st = record st { mode = "ripperdoc"; page = "fault" }

-- The takeover, given whether the condition alarms and whether the ring is dark.
abbrev taken : {F : Type 0} → Bool → Bool → RenderState F → RenderState F
taken alarm dark st =
    if alarm || dark
    then (if not (str_eq st.mode "ripperdoc") || dark then warned st else st)
    else st

branches :
    {A : Type 0} (alarm dark mode : Bool) (there here : A)
    → (if alarm || dark then (if mode || dark then there else here) else here)
      ≡ (if dark || (alarm && mode) then there else here)
branches true true true there here = refl
branches true true false there here = refl
branches true false true there here = refl
branches true false false there here = refl
branches false true true there here = refl
branches false true false there here = refl
branches false false mode there here = refl

pub face_state-must_warn :
    {F : Type 0} (st : RenderState F) (report : Option (Fault F))
    → Has report st
    → face_state st ≡ (if must_warn report st.mode st.condition then warned st else st)
unfolding face_state renderer_condition must_warn Has
face_state-must_warn st none (seen, dark) =
    ap (λ b. taken (alarming (if not b then "mute" else word st)) (ring_dark st) st) seen
    ∙ ap (λ d. taken true d st) dark
    ∙ branches true false (not (str_eq st.mode "ripperdoc")) (warned st) st
face_state-must_warn st (some m) (seen, dark) =
    ap (λ b. taken (alarming (if not b then "mute" else word st)) (ring_dark st) st) seen
    ∙ ap (λ d. taken (alarming (word st)) d st) dark
    ∙ ap (λ a. taken a (names_dark_ring (some m)) st) (alarming-well st.condition)
    ∙ branches (alarming st.condition) (names_dark_ring (some m)) (not (str_eq st.mode "ripperdoc"))
        (warned st) st

module _ {F : Type 0} ⦃f : Floats F⦄ (parse_f64 : String → Option F) (as_u32 : F → ℕ) where
  sonar-Has :
      (m : Pb.Sonar F) (st : RenderState F) (report : Option (Fault F))
      → Has report st
      → Has report (hold_sonar m st)
  unfolding hold_sonar Has
  sonar-Has m st report h = elim (Option-cases m.cm) [ inl e ↦ rw e h | inr (cm, e) ↦ rw e h ]

  pub hold-Has :
      (now : F) (topic : String) (body : Option (Body F)) (st : RenderState F)
      (report : Option (Fault F))
      → Has report st
      → Has (later_or (report_of topic body) report) (hold parse_f64 as_u32 now topic body st)
  unfolding hold hold_body report_of Has
  hold-Has now topic none st report h = h
  hold-Has now topic (some (Pb.ripperdoc m)) st report h =
      elim (Bool-cases (str_eq topic "state")) [
        | inl e ↦ rw e (unfold hold_state in h)
        | inr e ↦ rw e h
      ]
  hold-Has now topic (some (Pb.pir m)) st report h = elim (Bool-cases (str_eq topic "pir")) [
    | inl e ↦ rw e (unfold hold_pir in h)
    | inr e ↦ rw e h
  ]
  hold-Has now topic (some (Pb.sonar m)) st report h = elim (Bool-cases (str_eq topic "sonar")) [
    | inl e ↦ rw e (sonar-Has m (record st { clock_now = now }) report h)
    | inr e ↦ rw e h
  ]
  hold-Has now topic (some (Pb.weather m)) st report h =
      elim (Bool-cases (str_eq topic "weather")) [
        | inl e ↦ rw e (unfold hold_weather in h)
        | inr e ↦ rw e h
      ]
  hold-Has now topic (some (Pb.fault m)) st report h = elim (Bool-cases (str_eq topic "fault")) [
    | inl e ↦ rw e (unfold hold_fault in (refl, dark_rows m.rows))
    | inr e ↦ rw e h
  ]
  hold-Has now topic (some (Pb.power m)) st report h = elim (Bool-cases (str_eq topic "power")) [
    | inl e ↦ rw e (unfold hold_power in h)
    | inr e ↦ rw e h
  ]
  hold-Has now topic (some other) st report h = h

  pub hold_all-Has :
      (history : List (Heard F)) (st : RenderState F) (report : Option (Fault F))
      → Has report st
      → Has (later_or (last_report history) report) (hold_all parse_f64 as_u32 st history)
  unfolding hold_all last_report
  hold_all-Has [] st report h = h
  hold_all-Has ((now, topic, body) ∷ rest) st report h =
      rw (later_or_assoc (last_report rest) (report_of topic body) report) (
        hold_all-Has rest (hold parse_f64 as_u32 now topic body st)
          (later_or (report_of topic body) report) (hold-Has now topic body st report h))

  default-Has : (now : F) → Has none (default now)
  unfolding default Has
  default-Has now = (refl, refl)

  -- A report that was just heard is the last.
  pub fault-Has :
      (now : F) (m : Fault F) (st : RenderState F)
      → Has (some m) (hold parse_f64 as_u32 now "fault" (some (Pb.fault m)) st)
  unfolding hold hold_body hold_fault Has
  fault-Has now m st = (refl, dark_rows m.rows)

-- Whatever the face has heard since its start, it gives way to the fault page exactly when the
-- messages say so: while no report was heard, unless the bench drives the pages; after one, when
-- its rows name a dark ring, or when the held condition word hurts or is mute and the bench does
-- not drive. It changes the mode and the page, and nothing else of what it holds.
pub face_state-hold_all :
    {F : Type 0} ⦃f : Floats F⦄ (parse_f64 : String → Option F) (as_u32 : F → ℕ) (start : F)
    (history : List (Heard F))
    → let st = hold_all parse_f64 as_u32 (default start) history in
      face_state st
      ≡ (if must_warn (last_report history) st.mode st.condition then warned st else st)
face_state-hold_all parse_f64 as_u32 start history =
    face_state-must_warn (hold_all parse_f64 as_u32 (default start) history) (last_report history) (
      subst (λ r. Has r (hold_all parse_f64 as_u32 (default start) history))
        (later_or-none (last_report history))
        (hold_all-Has parse_f64 as_u32 history (default start) none
          (default-Has parse_f64 as_u32 start)))
