-- ===== src/Motion/Process.antt =====
-- crates/loa-motion/src/main.rs: the daemon's start and its sample, over the client of Sense. The
-- pin's readings and the clock's are arguments; claiming the pin again has no other effect here.
use loa.Base.{ℕ, String, Bool, Option, none, some, List, [], ◌∷◌}
use loa.Base.Floats.{Floats}
use loa.Wire.Pb.{Body, pir}
use loa.Wire.Contract.{Codec, Result}
use loa.Motion.{Machine, News, state, fire, full, new, seed, tick, reset_pending}
use loa.Sense.{Sense, Arm, publish, send_event, run_loop}

-- One sample: the level, where the pin could be read, and the clock when the machine, and the two
-- events of a scan, ask for it.
pub record Poll (F : Type 0) : Type 0 where
  pub level : Option Bool
  pub now : F
  pub sense_ts : F
  pub ring_ts : F

-- The settings as the events print them, and a count's text.
pub record Labels : Type 0 where
  pub gpio : String
  pub cooldown : String
  pub count_text : ℕ → String

module _ {F Bytes : Type 0} ⦃f : Floats F⦄ (c : Codec F Bytes)
    (push : List (Bytes × Bytes) → Bytes × Bytes → Result (Unit {0})) (labels : Labels) where
  -- The hook of `on_full_payload`
  abbrev pub full_payload : Machine F → Option (Body F)
  full_payload m = some (pir (full m))

  unfoldable pub send_news : Poll F → News F → Sense Bytes → Sense Bytes
  unfolding publish send_event
  send_news p (state msg) s = (publish c push s (pir msg)).0
  send_news p (fire msg count) s =
      let told = (publish c push s (pir msg)).0 in
      let scanned =
        (send_event c push p.sense_ts "sense"
          (("kind", "pir")
            ∷ ("gpio", labels.gpio)
            ∷ ("action", "motion")
            ∷ ("count", labels.count_text count)
            ∷ ("cooldown", labels.cooldown)
            ∷ [])
          told).0 in
      (send_event c push p.ring_ts "ring" (("state", "scan") ∷ []) scanned).0

  unfoldable pub send_all : Poll F → List (News F) → Sense Bytes → Sense Bytes
  unfolding send_news
  send_all p [] s = s
  send_all p (n ∷ rest) s = send_all p rest (send_news p n s)

  abbrev pub sample_level : Option Bool → Poll F → Machine F → Sense Bytes → Machine F × Sense Bytes
  sample_level none p m s = (reset_pending m, s)
  sample_level (some level) p m s =
      let polled = tick m level p.now in (polled.0, send_all p polled.1 s)

  -- The closure that the loop is given.
  unfoldable pub sample : Poll F → Machine F → Sense Bytes → Machine F × Sense Bytes
  unfolding tick reset_pending send_all
  sample p m s = sample_level p.level p m s

  abbrev pub send_seed : Option Bool → F → Machine F → Sense Bytes → Machine F × Sense Bytes
  send_seed none now m s = (m, s)
  send_seed (some level) now m s =
      let seeded = seed m level now in (seeded.0, (publish c push s (pir seeded.1)).0)

  -- Before the loop: the full payload, the boot event, and the level of the pin.
  unfoldable pub boot : F → Sense Bytes → F → Option Bool → F → Machine F × Sense Bytes
  unfolding new full seed publish send_event
  boot cooldown s boot_ts level now =
      let m = new cooldown in
      let whole = (publish c push s (pir (full m))).0 in
      let told =
        (send_event c push boot_ts "boot"
          (("svc", "motion") ∷ ("gpio", labels.gpio) ∷ ("cooldown", labels.cooldown) ∷ [])
          whole).0 in
      send_seed level now m told

  -- The whole run: the start, and the turns of the loop.
  unfoldable pub main :
      (F → ℕ)
      → F
      → F
      → F
      → Option Bool
      → F
      → List (ℕ × Arm (Poll F))
      → Sense Bytes
      → Bool × Machine F × Sense Bytes
  unfolding boot sample run_loop
  main from_secs_f64 secs cooldown boot_ts level now turns s =
      let ready = boot cooldown s boot_ts level now in
      run_loop c push from_secs_f64 full_payload sample secs turns ready.0 ready.1
