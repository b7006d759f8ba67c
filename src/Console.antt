-- ===== src/Console.antt =====
-- The console (crates/ripperdoc): what view.rs holds of the feed and makes of a face frame, and of
-- main.rs the turn of the feed's thread and the keys. Its drain is Subscriber::drain of
-- crates/loa-wire/src/lib.rs.
pub mod Follows
pub mod Served
pub mod Newest
pub mod Keys
pub mod Art
mod Examples
use loa.Base.{
  ℕ, zero, suc, ◌+◌, ◌-◌, ◌*◌, ◌/◌, ◌%◌, ◌^◌, String, Bool, true, false, not, ◌&&◌, Option, none,
  some, List, [], ◌∷◌, ◌==◌, leb, length, get_elem?, get_or, map, str_eq, if◌then◌else◌,
}
use Prim.Native.String.{◌++◌ as append, compare}
use Prim.Native.Nat.{Ordering}
use loa.Base.Bits.{bit}
use loa.Wire.Pb
use loa.Wire.Pb.{Body, Envelope, Ripperdoc, Row, Event}
use loa.Wire.Contract.{Codec, Result, ok, err, Msg, decode}
use loa.Oled.View.{or_else, find_key}

pub record Model (F : Type 0) : Type 0 where
  pub face : List ℕ
  pub ring : List ℕ
  pub page : String
  pub mood : String
  pub oled_mode : String
  pub ring_state : String
  pub condition : String
  pub oled_text : String
  pub oled_flip : Bool
  pub oled_dim : Bool
  pub snr_on : Bool
  pub ripperdoc : Bool
  pub snr_cm : Option F
  pub snr_count : Option ℕ
  pub pir_high : Bool
  pub pir_count : ℕ
  pub pir_last_hold : F
  pub temp_c : Option F
  pub hum_pct : Option F
  pub pressure_hpa : Option F
  pub baro_trend : String
  pub faults : List (String × String × String)
  pub event : String
  pub v3 : Option F
  pub throttle : Option F
  pub frames : ℕ

-- `if let Some(v) = new { old = v }`
abbrev pub landed {ℓ} : {A : Type ℓ} → Option A → A → A
landed new old = or_else new old

-- `if let Some(v) = new { old = Some(v) }`
abbrev pub kept {ℓ} : {A : Type ℓ} → Option A → Option A → Option A
kept none old = old
kept (some v) old = some v

-- A frame lands only where it has its length.
abbrev pub frame_landed : ℕ → Option (List ℕ) → List ℕ → List ℕ
frame_landed n none old = old
frame_landed n (some new) old = if length new == n then new else old

-- The frames seen: a u64.
abbrev pub frames_seen : Option (List ℕ) → ℕ → ℕ
frames_seen none n = n
frames_seen (some new) n = if length new == 1024 then (n + 1) % 2 ^ 64 else n

abbrev pub fault_line : Row → String × String × String
fault_line r = (r.level, r.code, r.text)

-- A cell is one pixel over another.
abbrev pub cell : Bool → Bool → ℕ
cell true true = 0x2588
cell true false = 0x2580
cell false true = 0x2584
cell false false = 32

-- `(start..start + n)`
abbrev pub range : ℕ → ℕ → List ℕ
range start zero = []
range start (suc n) = start ∷ range (start + 1) n

unfoldable pub px : List ℕ → ℕ → ℕ → Bool
unfolding bit
px buf x y = elim (get_elem? buf (y / 8 * 128 + x)) [
  | none ↦ false
  | some b ↦ not (bit b (y % 8) == 0)
]

abbrev pub art_row : List ℕ → ℕ → List ℕ
art_row buf row = map (λ x. cell (px buf x (row * 2)) (px buf x (row * 2 + 1))) (range 0 128)

unfoldable pub face_art : List ℕ → List (List ℕ)
unfolding px
face_art buf = map (art_row buf) (range 0 32)

-- `keys.sort()`
abbrev pub insert_key : String × String → List (String × String) → List (String × String)
insert_key d [] = d ∷ []
insert_key d (e ∷ rest) =
    let later = insert_key d rest in
    elim (compare d.0 e.0) [ Ordering.gt ↦ e ∷ later | _ ↦ d ∷ e ∷ rest ]

abbrev pub sort_keys : List (String × String) → List (String × String)
sort_keys [] = []
sort_keys (d ∷ rest) = insert_key d (sort_keys rest)

-- `det.join(" ")`, each one behind a space.
abbrev pub spaced : List (String × String) → String
spaced [] = ""
spaced ((k, v) ∷ rest) = append " " (append k (append "=" (append v (spaced rest))))

unfoldable pub fmt_event : {F : Type 0} → Event F → String
fmt_event m = append m.kind (spaced (sort_keys m.detail))

module _ {F : Type 0} where
  abbrev pub with_ripperdoc : Model F → Ripperdoc F → Model F
  with_ripperdoc v m = record v {
    face = frame_landed 1024 m.face v.face;
    frames = frames_seen m.face v.frames;
    page = landed m.page v.page;
    mood = landed m.mood v.mood;
    oled_mode = landed m.oled_mode v.oled_mode;
    ring_state = landed m.ring_state v.ring_state;
    condition = landed m.condition v.condition;
    oled_text = landed m.oled_text v.oled_text;
    oled_flip = landed m.oled_flip v.oled_flip;
    oled_dim = landed m.oled_dim v.oled_dim;
    snr_on = landed m.snr_on v.snr_on;
    ripperdoc = landed m.ripperdoc v.ripperdoc;
  }

  abbrev pub apply_body : Model F → Body F → Model F
  apply_body v (Pb.ripperdoc m) = with_ripperdoc v m
  apply_body v (Pb.ring m) = record v { ring = frame_landed 72 m.ring v.ring }
  apply_body v (Pb.pir m) = record v {
    pir_high = landed m.high v.pir_high;
    pir_count = landed m.count v.pir_count;
    pir_last_hold = landed m.last_hold v.pir_last_hold;
  }
  apply_body v (Pb.sonar m) = record v { snr_cm = m.cm; snr_count = m.count }
  apply_body v (Pb.weather m) = record v {
    temp_c = m.temp_c;
    hum_pct = m.hum_pct;
    pressure_hpa = kept m.pressure_hpa v.pressure_hpa;
    baro_trend = landed m.trend v.baro_trend;
  }
  apply_body v (Pb.power m) = record v {
    v3 = find_key m.rails "3V3_SYS_V";
    throttle = find_key m.rails "throttled";
  }
  apply_body v (Pb.fault m) = record v {
    condition = landed m.condition v.condition;
    faults = map fault_line m.rows;
  }
  apply_body v (Pb.event m) = record v { event = fmt_event m }
  apply_body v (Pb.init m) = v

  -- Model::apply
  unfoldable pub apply : Model F → Envelope F → Model F
  unfolding fmt_event
  apply v env = elim env.body [ none ↦ v | some b ↦ apply_body v b ]

  module _ {Bytes : Type 0} (c : Codec F Bytes) where
    -- Subscriber::drain over what is queued: the newest message, and what is left of the queue. A
    -- message that does not decode ends it.
    unfoldable pub drain :
        Option (Msg F) → List (Bytes × Bytes) → Result (Option (Msg F)) × List (Bytes × Bytes)
    drain last [] = (ok last, [])
    drain last (parts ∷ queue) = elim (decode c parts) [
      | err e ↦ (err e, queue)
      | ok msg ↦ drain (some msg) queue
    ]

    abbrev pub drained : Model F → Result (Option (Msg F)) → Model F
    drained v (err e) = v
    drained v (ok none) = v
    drained v (ok (some msg)) = apply v msg.env

    -- One turn of the feed's thread.
    unfoldable pub turn : Model F → List (Bytes × Bytes) → Model F × List (Bytes × Bytes)
    unfolding drain apply
    turn v queue = let o = drain none queue in (drained v o.0, o.1)

pub data KeyCode : Type 0 where
  char : ℕ → KeyCode
  other_key : KeyCode

abbrev pub ripperdoc_on : Bool → String
ripperdoc_on true = "{\"cmd\":\"ripperdoc\",\"args\":{\"on\":true}}"
ripperdoc_on false = "{\"cmd\":\"ripperdoc\",\"args\":{\"on\":false}}"

abbrev pub flip_to : Bool → String
flip_to true = "{\"cmd\":\"display\",\"args\":{\"flip\":true}}"
flip_to false = "{\"cmd\":\"display\",\"args\":{\"flip\":false}}"

abbrev pub feel_next : String
feel_next = "{\"cmd\":\"feel\",\"args\":{\"next\":true}}"

-- The body that asks for a page, one for each page of PAGES.
abbrev pub page_bodies : List String
page_bodies =
    "{\"cmd\":\"ripperdoc\",\"args\":{\"page\":\"sensors\"}}"
    ∷ "{\"cmd\":\"ripperdoc\",\"args\":{\"page\":\"pir\"}}"
    ∷ "{\"cmd\":\"ripperdoc\",\"args\":{\"page\":\"snr\"}}"
    ∷ "{\"cmd\":\"ripperdoc\",\"args\":{\"page\":\"temp\"}}"
    ∷ "{\"cmd\":\"ripperdoc\",\"args\":{\"page\":\"frag\"}}"
    ∷ "{\"cmd\":\"ripperdoc\",\"args\":{\"page\":\"power\"}}"
    ∷ "{\"cmd\":\"ripperdoc\",\"args\":{\"page\":\"fault\"}}" ∷ []

-- The keys are r, 1 to 7, m and f.
unfoldable pub command : {F : Type 0} → Model F → KeyCode → Option String
command v (char k) =
    if k == 114
    then some (ripperdoc_on (not v.ripperdoc))
    else if leb 49 k && leb k 55
    then get_elem? page_bodies (k - 49)
    else if k == 109
    then some feel_next
    else if k == 102
    then some (flip_to (not v.oled_flip))
    else none
command v other_key = none
