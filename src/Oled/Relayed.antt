-- ===== src/Oled/Relayed.antt =====
-- A report on its way from the sweep through the cortex (crates/loa-cortex/src/main.rs and build.rs)
-- to the face of crates/loa-oled/src/rstate.rs.
use loa.Base.{
  ℕ, String, ◌≡◌, refl, ap, ◌∙◌, Bool, true, false, not, ◌&&◌, ◌||◌, Option, none, some, List, [],
  ◌∷◌, All, inl, inr, Bool-cases, Option-cases, arith, any, str_eq, if◌then◌else◌,
}
use loa.Base.Floats.{Floats}
use loa.Wire.Pb
use loa.Wire.Pb.{Body, Fault, Row}
use loa.Cortex.{Cortex}
use loa.Cortex.Merge.{merge_fault, present}
use loa.Cortex.Build.{build_fault, build_state, fault_of, build_fault_lem, injected_faults}
use loa.Oled.View.{
  RenderState, alarming, face_state, hold_state, hold_fault, hold_body, hold, hold_sonar, hold_pir,
  hold_weather, hold_power,
}
use loa.Oled.Takeover.{
  Heard, hold_all, report_of, Has, must_warn, names_dark_ring, warned, face_state-must_warn,
  hold-Has, fault-Has,
}

-- The cortex once it merged a report.
abbrev pub heard : {F : Type 0} → F → Cortex F → Fault F → Cortex F
heard now cx report = record cx { st = merge_fault now cx.st report }

swapped : {A : Type 0} (b : Bool) (x y : A) → (if not b then x else y) ≡ (if b then y else x)
swapped true x y = refl
swapped false x y = refl

module _ {F : Type 0} where
  -- A state message, which carries the condition word.
  abbrev pub is_state : String → Option (Body F) → Bool
  is_state topic (some (Pb.ripperdoc m)) = str_eq topic "state"
  is_state topic other = false

  -- A message that is no state message, and no report that names a dark ring.
  abbrev pub IsQuiet : Heard F → Type 0
  IsQuiet (now, topic, body) =
      (is_state topic body ≡ false) × (names_dark_ring (report_of topic body) ≡ false)

module _ {F : Type 0} ⦃f : Floats F⦄ (parse_f64 : String → Option F) (as_u32 : F → ℕ) where
  -- What the face holds after the cortex's message of a report.
  abbrev pub told : F → Bool → Cortex F → Fault F → RenderState F → RenderState F
  told now db_down cx report view =
      hold parse_f64 as_u32 now "fault" (some (build_fault now (heard now cx report) db_down)) view

  -- What the cortex sends of a report names a dark ring when the report does.
  names_dark_ring-fault_of :
      (now : F) (db_down : Bool) (cx : Cortex F) (report : Fault F)
      → names_dark_ring (some (fault_of now (heard now cx report) db_down))
        ≡ names_dark_ring (some report)
  unfolding injected_faults
  names_dark_ring-fault_of now true cx report =
      ap (λ rows. any (λ r. str_eq r.code "RING DARK") rows) (build_fault_lem now cx report true).0
  names_dark_ring-fault_of now false cx report =
      ap (λ rows. any (λ r. str_eq r.code "RING DARK") rows) (build_fault_lem now cx report false).0

  sonar-condition :
      (m : Pb.Sonar F) (st : RenderState F) → (hold_sonar m st).condition ≡ st.condition
  unfolding hold_sonar
  sonar-condition m st = elim (Option-cases m.cm) [ inl e ↦ rw e refl | inr (cm, e) ↦ rw e refl ]

  -- Only a state message changes the condition word.
  hold-condition :
      (now : F) (topic : String) (body : Option (Body F)) (st : RenderState F)
      → is_state topic body ≡ false
      → (hold parse_f64 as_u32 now topic body st).condition ≡ st.condition
  unfolding hold hold_body hold_pir hold_weather hold_fault hold_power
  hold-condition now topic none st h = refl
  hold-condition now topic (some (Pb.ripperdoc m)) st h = rw h refl
  hold-condition now topic (some (Pb.pir m)) st h = ground arith
  hold-condition now topic (some (Pb.sonar m)) st h = elim (Bool-cases (str_eq topic "sonar")) [
    | inl e ↦ rw e (sonar-condition m (record st { clock_now = now }))
    | inr e ↦ rw e refl
  ]
  hold-condition now topic (some (Pb.weather m)) st h = ground arith
  hold-condition now topic (some (Pb.fault m)) st h = ground arith
  hold-condition now topic (some (Pb.power m)) st h = ground arith
  hold-condition now topic (some other) st h = refl

  -- A view whose report names no dark ring.
  abbrev HasBright : RenderState F → Type 0
  HasBright st = (m : Fault F) × Has (some m) st × (names_dark_ring (some m) ≡ false)

  hold-HasBright :
      (now : F) (topic : String) (body : Option (Body F)) (st : RenderState F)
      → names_dark_ring (report_of topic body) ≡ false
      → HasBright st
      → HasBright (hold parse_f64 as_u32 now topic body st)
  hold-HasBright now topic body st quiet (m, has, bright) =
      let later = hold-Has parse_f64 as_u32 now topic body st (some m) has in
      elim (Option-cases (report_of topic body)) [
        | inl e ↦ (m, rw e at later, bright)
        | inr (r, e) ↦ (r, rw e at later, rw e at quiet)
      ]

  hold_all-HasBright :
      (between : List (Heard F)) (st : RenderState F)
      → All IsQuiet between
      → HasBright st
      → HasBright (hold_all parse_f64 as_u32 st between)
        × ((hold_all parse_f64 as_u32 st between).condition ≡ st.condition)
  unfolding hold_all
  hold_all-HasBright [] st quiet h = (h, refl)
  hold_all-HasBright ((now, topic, body) ∷ rest) st quiet h =
      let (bright, word) =
        hold_all-HasBright rest (hold parse_f64 as_u32 now topic body st) quiet.1
          (hold-HasBright now topic body st quiet.0.1 h) in
      (bright, word ∙ hold-condition now topic body st quiet.0.0)

  -- A calm word and a bright ring leave the face its page.
  face_state-calm :
      (view : RenderState F)
      → HasBright view
      → alarming view.condition ≡ false
      → face_state view ≡ view
  unfolding must_warn
  face_state-calm view (m, has, bright) calm =
      face_state-must_warn view (some m) has
      ∙ ap
          (λ d.
            if d || (alarming view.condition && not (str_eq view.mode "ripperdoc"))
            then warned view
            else view)
          bright
      ∙ ap (λ a. if a && not (str_eq view.mode "ripperdoc") then warned view else view) calm

  -- The cortex's state message, once the face has the message m of a report.
  face_state-state :
      (now : F) (m : Fault F) (cx : Cortex F) (view : RenderState F)
      → Has (some m) view
      → names_dark_ring (some m) ≡ false
      → cx.st.condition ≡ "hurts"
      → let after = hold parse_f64 as_u32 now "state" (some (build_state now cx.st)) view in
        face_state after ≡ (if str_eq cx.st.oled_mode "ripperdoc" then after else warned after)
  unfolding must_warn build_state report_of
  face_state-state now m cx view has bright hurts =
      let after = hold parse_f64 as_u32 now "state" (some (build_state now cx.st)) view in
      let word : after.condition ≡ cx.st.condition =
        unfold hold in unfold hold_body in unfold hold_state in refl in
      let mode : after.mode ≡ cx.st.oled_mode =
        unfold hold in unfold hold_body in unfold hold_state in refl in
      face_state-must_warn after (some m)
        (hold-Has parse_f64 as_u32 now "state" (some (build_state now cx.st)) view (some m) has)
      ∙ ap
          (λ d.
            if d || (alarming after.condition && not (str_eq after.mode "ripperdoc"))
            then warned after
            else after)
          bright
      ∙ ap (λ c. if alarming c && not (str_eq after.mode "ripperdoc") then warned after else after)
          (word ∙ hurts)
      ∙ ap (λ w. if not (str_eq w "ripperdoc") then warned after else after) mode
      ∙ swapped (str_eq cx.st.oled_mode "ripperdoc") (warned after) after

-- A report that hurts reaches the face as the cortex's fault message, with or without a row for the
-- store. While the word that the face holds does not alarm, and no report names a dark ring, the
-- face shows its own page as before, and still does after any further messages but a state message
-- or a report that names a dark ring; the cortex's next state message, which carries the new word,
-- turns it to the fault page, unless the bench drives the pages.
pub face_state-relayed :
    {F : Type 0} ⦃f : Floats F⦄ (parse_f64 : String → Option F) (as_u32 : F → ℕ) (now later : F)
    (db_down : Bool) (cx : Cortex F) (report : Fault F) (view : RenderState F)
    (between : List (Heard F))
    → report.condition ≡ some "hurts"
    → names_dark_ring (some report) ≡ false
    → alarming view.condition ≡ false
    → All IsQuiet between
    → let after =
        hold_all parse_f64 as_u32 (told parse_f64 as_u32 now db_down cx report view) between in
      let body = build_state later (heard now cx report).st in
      let next = hold parse_f64 as_u32 later "state" (some body) after in
      (face_state after ≡ after)
      × (face_state next ≡ (if str_eq cx.st.oled_mode "ripperdoc" then next else warned next))
unfolding build_fault merge_fault
face_state-relayed parse_f64 as_u32 now later db_down cx report view between hurts bright calm
      quiet =
    let m = fault_of now (heard now cx report) db_down in
    let clear = names_dark_ring-fault_of parse_f64 as_u32 now db_down cx report ∙ bright in
    let first = told parse_f64 as_u32 now db_down cx report view in
    let ((m', has, dark), word) =
      hold_all-HasBright parse_f64 as_u32 between first quiet
        (m, fault-Has parse_f64 as_u32 now m view, clear) in
    let after = hold_all parse_f64 as_u32 first between in
    let same : first.condition ≡ view.condition =
      hold-condition parse_f64 as_u32 now "fault" (some (Pb.fault m)) view refl in
    (
      face_state-calm parse_f64 as_u32 after (m', has, dark) (ap alarming (word ∙ same) ∙ calm),
      face_state-state parse_f64 as_u32 later m' (heard now cx report) after has dark
          (ap (λ c. present c cx.st.condition) hurts),
    )
