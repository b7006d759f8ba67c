-- ===== src/Sense.antt =====
-- crates/loa-sense/src/lib.rs: what the sensor daemons share. The socket, the clock and the choice
-- among the arms that are ready are arguments; an error is kept as itself, not as its text.
use loa.Base.{
  ℕ, ◌+◌, ◌%◌, ◌^◌, String, Bool, true, false, ◌&&◌, Option, none, some, List, [], ◌∷◌, ◌++◌, leb,
  if◌then◌else◌,
}
use loa.Base.Floats.{Floats}
use loa.Wire.Pb
use loa.Wire.Pb.{Body}
use loa.Wire.Contract.{Codec, Result, err, ok, ◌>>=◌, ok_or, no_body, encode, envelope, body_name}

-- The counters, and the pairs of frames that the socket took, in order.
pub record Sense (Bytes : Type 0) : Type 0 where
  pub frames : ℕ  -- u32
  pub answers : ℕ  -- usize, 64 bits
  pub sent : List (Bytes × Bytes)

abbrev pub opened : {Bytes : Type 0} → Sense Bytes
opened = record { frames = 0; answers = 0; sent = [] }

-- What the loop's `select!` took: the ask, the sample tick with what the sensor reads then, or the
-- deadline.
pub data Arm (A : Type 0) : Type 0 where
  asked : Arm A
  ticked : A → Arm A
  expired : Arm A

abbrev pub is_expired : {A : Type 0} → Arm A → Bool
is_expired asked = false
is_expired (ticked a) = false
is_expired expired = true

-- `push` is `send_multipart`: its answer to a pair, after the pairs that it took so far.
module _ {F Bytes : Type 0} (c : Codec F Bytes)
    (push : List (Bytes × Bytes) → Bytes × Bytes → Result (Unit {0})) where
  -- The pair of frames that the socket took.
  unfoldable pub pushed : List (Bytes × Bytes) → Body F → Result (Bytes × Bytes)
  unfolding body_name encode envelope
  pushed sent body = do
    let env = envelope body
    topic ← ok_or (body_name env) no_body
    parts ← encode c topic env
    _ ← push sent parts
    ok parts

  abbrev pub counted : Sense Bytes → Result (Bytes × Bytes) → Sense Bytes × Result (Unit {0})
  counted s (err e) = (s, err e)
  counted s (ok parts) =
      (record s { frames = (s.frames + 1) % 2 ^ 32; sent = s.sent ++ parts ∷ [] }, ok tt)

  unfoldable pub publish : Sense Bytes → Body F → Sense Bytes × Result (Unit {0})
  unfolding pushed
  publish s body = counted s (pushed s.sent body)

  unfoldable pub send_event :
      F → String → List (String × String) → Sense Bytes → Sense Bytes × Result (Unit {0})
  unfolding publish
  send_event now kind detail s =
      publish s (Pb.event (record { ts = now; kind = kind; detail = detail }))

  abbrev pub answered : Sense Bytes × Result (Unit {0}) → Sense Bytes × ℕ
  answered (s, err e) = (s, 0)
  answered (s, ok _) = (record s { answers = (s.answers + 1) % 2 ^ 64 }, (s.answers + 1) % 2 ^ 64)

  -- The hook's payload, built from the daemon's own memory.
  unfoldable pub republish_full : Option (Body F) → Sense Bytes → Sense Bytes × ℕ
  unfolding publish
  republish_full none s = (s, 0)
  republish_full (some full) s = answered (publish s full)

  -- The loop, over the daemon's memory: `full` is the hook, `sample` the daemon's own. A turn
  -- comes with the time since the start in nanoseconds, and `from_secs_f64` is the Duration's. The
  -- answer says whether the loop has ended.
  module _ ⦃f : Floats F⦄ {D A : Type 0} (from_secs_f64 : F → ℕ) (full : D → Option (Body F))
      (sample : A → D → Sense Bytes → D × Sense Bytes) (secs : F) where
    unfoldable pub arm_turn : Arm A → D → Sense Bytes → D × Sense Bytes
    unfolding republish_full
    arm_turn asked d s = (d, (republish_full (full d) s).0)
    arm_turn (ticked a) d s = sample a d s
    arm_turn expired d s = (d, s)

    unfoldable pub run_loop : List (ℕ × Arm A) → D → Sense Bytes → Bool × D × Sense Bytes
    unfolding arm_turn
    run_loop [] d s = (false, d, s)
    run_loop ((elapsed, arm) ∷ rest) d s =
        let after = arm_turn arm d s in
        let later = run_loop rest after.0 after.1 in
        if f.lt f.zero secs && leb (from_secs_f64 secs) elapsed
        then (true, d, s)
        else if is_expired arm && f.lt f.zero secs
        then (true, after.0, after.1)
        else later
