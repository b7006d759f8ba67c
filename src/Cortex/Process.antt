-- ===== src/Cortex/Process.antt =====
-- crates/loa-cortex/src/main.rs: what the process does with a message off the inbox and with the
-- news of its door, and the weather message (build.rs, and baro_trend of state.rs).
use loa.Base.{
  ℕ, zero, suc, ◌-◌, String, Bool, Option, none, some, List, [], ◌∷◌, ◌++◌, map, any, length, drop,
  ltb, if◌then◌else◌,
}
use loa.Base.Floats.{Floats}
use loa.Wire.Pb
use loa.Wire.Pb.{Body, Envelope, weather, power, event}
use loa.Wire.Contract.{Codec, Result, ok, err, Msg, encode, decode, envelope, routes, route_parts}
use loa.Cortex.{Cortex}
use loa.Cortex.Merge.{merge}
use loa.Cortex.Build.{
  build_state, build_ripperdoc, build_ring, build_fault, build_pir, build_sonar, build_init,
}

module _ {F : Type 0} ⦃f : Floats F⦄ where
  -- The sums of the fit: of t, of p, of t * t and of t * p.
  unfoldable pub sums : F × F × F × F → List (F × F) → F × F × F × F
  sums acc [] = acc
  sums (sx, sy, sxx, sxy) ((t, p) ∷ rest) =
      sums (f.add sx t, f.add sy p, f.add sxx (f.mul t t), f.add sxy (f.mul t p)) rest

  unfoldable pub slope : List (F × F) → F
  unfolding sums
  slope baro =
      let n = f.of_ℕ (length baro) in
      let (sx, sy, sxx, sxy) = sums (f.zero, f.zero, f.zero, f.zero) baro in
      let denom = f.sub (f.mul n sxx) (f.mul sx sx) in
      if f.eq denom f.zero
      then f.zero
      else f.mul (f.div (f.sub (f.mul n sxy) (f.mul sx sy)) denom) (f.lit 3600 1)

  -- The deadband is 0.3 hPa an hour.
  unfoldable pub direction : F → String
  direction slope_h =
      if f.lt (f.lit 3 10) slope_h
      then "rising"
      else if f.lt slope_h (f.neg (f.lit 3 10))
      then "falling"
      else "steady"

  -- `.rev().take(60).rev()`
  abbrev pub last_60 : List (F × F) → List (F × F)
  last_60 xs = drop (length xs - 60) xs

  unfoldable pub baro_trend : Cortex F → String × List F
  unfolding slope direction
  baro_trend cx =
      if ltb (length cx.baro) 2
      then ("steady", [])
      else (direction (slope cx.baro), map (λ e. e.1) (last_60 cx.baro))

  unfoldable pub build_weather : F → Cortex F → Body F
  unfolding baro_trend
  build_weather now cx = weather (record {
    temp_c = cx.st.temp_c;
    hum_pct = cx.st.hum_pct;
    ts = some now;
    count = some cx.st.temp_count;
    pressure_hpa = cx.st.pressure_hpa;
    trend = some (baro_trend cx).0;
    series = (baro_trend cx).1;
  })

  -- The message that a reading makes the cortex publish again: its topic and its payload.
  unfoldable pub rebuilt : F → Bool → Cortex F → Option (Body F) → Option (String × Body F)
  unfolding build_pir build_sonar build_weather build_fault
  rebuilt now db_down cx (some (Pb.pir m)) = some ("pir", build_pir now cx.st)
  rebuilt now db_down cx (some (Pb.sonar m)) = some ("sonar", build_sonar now cx.st)
  rebuilt now db_down cx (some (Pb.weather m)) = some ("weather", build_weather now cx)
  rebuilt now db_down cx (some (Pb.fault m)) = some ("fault", build_fault now cx db_down)
  rebuilt now db_down cx other = none

-- What the store's thread is sent. The detail of an event is JSON, which is a parameter.
pub data Write (F Json : Type 0) : Type 0 where
  event_write : String → Json → F → Write F Json
  baro_write : F → F → Write F Json

abbrev pub both {ℓ} : {A B C : Type ℓ} → (A → B → C) → Option A → Option B → List C
both g (some a) (some b) = g a b ∷ []
both g a b = []

-- Pressure that has a time is a sample to keep.
unfoldable pub samples : {F Json : Type 0} → Option (Body F) → List (Write F Json)
samples (some (Pb.weather w)) = both baro_write w.ts w.pressure_hpa
samples other = []

-- What a message did: the state, the messages sent, and the writes.
pub record Effects (F Json Bytes : Type 0) : Type 0 where
  pub cortex : Cortex F
  pub sent : List (Bytes × Bytes)
  pub writes : List (Write F Json)

abbrev pub sent_of {ℓ} : {A : Type ℓ} → Result A → List A
sent_of (err e) = []
sent_of (ok a) = a ∷ []

-- News of the door.
pub data News (Json : Type 0) : Type 0 where
  event_news : String → Json → News Json
  state_changed : News Json

module _ {F Bytes : Type 0} (c : Codec F Bytes) where
  -- A message that its topic may not carry is not sent.
  unfoldable pub publish : String → Body F → List (Bytes × Bytes)
  unfolding encode envelope
  publish topic body = sent_of (encode c topic (envelope body))

  abbrev pub publish_rebuilt : Option (String × Body F) → List (Bytes × Bytes)
  publish_rebuilt none = []
  publish_rebuilt (some (topic, body)) = publish topic body

  unfoldable pub is_frame : (Bytes → Bytes → Bool) → Bytes → Bool
  is_frame same topic = any (λ r. same (c.as_bytes r.0) topic) routes

-- `same` compares bytes; `scalars` is the detail of an event with its values as text.
module _ {F Json Bytes : Type 0} ⦃f : Floats F⦄ (c : Codec F Bytes) (same : Bytes → Bytes → Bool)
    (scalars : Json → List (String × String)) where
  -- The decoded message of a device.
  unfoldable pub on_reading : F → Bool → Cortex F → Envelope F → Effects F Json Bytes
  unfolding merge rebuilt samples publish
  on_reading now db_down cx env =
      let cx' = merge now cx env in
      record {
        cortex = cx';
        sent = publish_rebuilt c (rebuilt now db_down cx' env.body);
        writes = samples env.body;
      }

  abbrev pub nothing : Cortex F → Effects F Json Bytes
  nothing cx = record { cortex = cx; sent = []; writes = [] }

  abbrev pub on_decoded : F → Bool → Cortex F → Result (Msg F) → Effects F Json Bytes
  on_decoded now db_down cx (err e) = nothing cx
  on_decoded now db_down cx (ok msg) = on_reading now db_down cx msg.env

  unfoldable pub on_inbox : F → Bool → Cortex F → Bytes × Bytes → Effects F Json Bytes
  unfolding is_frame on_reading decode route_parts
  on_inbox now db_down cx parts =
      if is_frame c same parts.0
      then record (nothing cx) { sent = sent_of (route_parts c parts) }
      else on_decoded now db_down cx (decode c parts)

  unfoldable pub republish : F → Bool → Cortex F → List (Bytes × Bytes)
  unfolding publish build_state build_ripperdoc build_ring build_fault
  republish now db_down cx =
      publish c "state" (build_state now cx.st)
      ++ publish c "ripperdoc" (build_ripperdoc now cx.st cx.last_face)
      ++ publish c "ring" (build_ring now cx.last_ring)
      ++ publish c "fault" (build_fault now cx db_down)

  unfoldable pub build_event : String → Json → F → Body F
  build_event kind detail ts = event (record { ts = ts; kind = kind; detail = scalars detail })

  unfoldable pub on_news : F → Bool → Cortex F → News Json → Effects F Json Bytes
  unfolding publish republish build_event
  on_news now db_down cx (event_news kind detail) = record {
    cortex = cx;
    sent = publish c "event" (build_event kind detail now);
    writes = event_write kind detail now ∷ [];
  }
  on_news now db_down cx state_changed = record (nothing cx) { sent = republish now db_down cx }

  -- The ask, n times, and then everything: what the cortex sends when it starts.
  abbrev pub asks : F → ℕ → List (Bytes × Bytes)
  asks now zero = []
  asks now (suc n) = publish c "init" (build_init now) ++ asks now n

  unfoldable pub greet : F → Bool → Cortex F → List (Bytes × Bytes)
  unfolding republish publish
  greet now db_down cx = asks now 6 ++ republish now db_down cx

-- The power thread sends on a change of the rails or of the seal; `texts` is the seal with its
-- values as text.
unfoldable pub build_power :
    {F Json : Type 0} → (Json → List (String × String)) → F → List (String × F) → Json → Body F
build_power texts now rails seal =
    power (record { rails = rails; frag = texts seal; ts = some now })
