-- ===== src/Ring/Held.antt =====
-- What the ring daemon holds of the feed (crates/loa-ring/src/main.rs), and the renderer's memory of
-- one-shot records (note_oneshot of crates/loa-ring/src/render.rs).
use loa.Base.{
  ℕ, String, ◌≡◌, Bool, true, false, ◌&&◌, ◌||◌, Option, none, some, List, [], ◌∷◌, str_eq, ◌==◌,
  any, if◌then◌else◌, arith,
}
use loa.Base.Floats.{Floats}
use loa.Wire.Pb.{Body, Event, ripperdoc, fault, event}
use loa.Wire.Contract.{Msg}
use loa.Ring.Tells.{
  Tell, RingInput, scan, glitch, muted, alarm, device_condition, pick_tell, unwrap_or,
}

pub record Held : Type 0 where
  pub ring_state : String
  pub ripperdoc : Bool
  pub state_cond : Option String
  pub fault_cond : Option String
  pub fault_seen : Bool

abbrev pub nothing_held : Held
nothing_held = record {
  ring_state = "";
  ripperdoc = false;
  state_cond = none;
  fault_cond = none;
  fault_seen = false;
}

-- Option::or
abbrev pub or_else {ℓ} : {A : Type ℓ} → Option A → Option A → Option A
or_else none b = b
or_else (some a) b = some a

unfoldable pub input : Held → RingInput
unfolding device_condition
input h = record {
  cond = device_condition h.fault_seen (or_else h.fault_cond h.state_cond);
  ring_state = if str_eq h.ring_state "" then "home" else h.ring_state;
  ripperdoc = h.ripperdoc;
}

-- The part of the Renderer that the feed moves: the record that waits, with its start on the
-- device's clock, and the (word, ts) pairs that were heard.
pub record Renderer (F : Type 0) : Type 0 where
  pub oneshot : Option (Tell × F)
  pub seen : List (String × ℕ)

abbrev pub new_renderer : {F : Type 0} → Renderer F
new_renderer = record { oneshot = none; seen = [] }

abbrev pub pending_oneshot : {F : Type 0} → Renderer F → Option Tell
pending_oneshot r = elim r.oneshot [ none ↦ none | some (kind, start) ↦ some kind ]

-- HashSet::contains
unfoldable pub was_seen : String → ℕ → List (String × ℕ) → Bool
was_seen w n [] = false
was_seen w n ((v, m) ∷ rest) = (str_eq v w && m == n) || was_seen w n rest

-- HashMap::get
unfoldable pub get : String → List (String × String) → Option String
get k [] = none
get k ((j, v) ∷ rest) = if str_eq j k then some v else get k rest

module _ {F : Type 0} ⦃f : Floats F⦄ where
  unfoldable pub note_oneshot : F → Renderer F → String → F → Renderer F
  note_oneshot t r word ts =
      if str_eq word "scan" || str_eq word "glitch"
      then (if was_seen word (f.to_bits ts) r.seen then r else record {
        oneshot = some (if str_eq word "glitch" then glitch else scan, t);
        seen = (word, f.to_bits ts) ∷ r.seen;
      })
      else r

  -- The arm of an Event.
  unfoldable pub hold_event : F → Renderer F → Event F → Renderer F
  hold_event t r e =
      if str_eq e.kind "ring"
      then elim (get "state" e.detail) [ none ↦ r | some word ↦ note_oneshot t r word e.ts ]
      else r

  -- `t` is the renderer's clock.
  unfoldable pub hold_body : F → String → Held × Renderer F → Body F → Held × Renderer F
  unfolding hold_event
  hold_body t topic (h, r) (ripperdoc m) =
      if str_eq topic "state"
      then (
        record h {
          ring_state = unwrap_or m.ring_state "";
          ripperdoc = unwrap_or m.ripperdoc false;
          state_cond = m.condition;
        },
        r,
      )
      else (h, r)
  hold_body t topic (h, r) (fault m) = (record h { fault_seen = true; fault_cond = m.condition }, r)
  hold_body t topic (h, r) (event e) = (h, hold_event t r e)
  hold_body t topic (h, r) _ = (h, r)

  unfoldable pub hold : F → Held × Renderer F → Msg F → Held × Renderer F
  unfolding hold_body
  hold t s msg = elim msg.env.body [ none ↦ s | some b ↦ hold_body t msg.topic s b ]

  -- Messages with the clock's reading at each.
  unfoldable pub hold_all : Held × Renderer F → List (F × Msg F) → Held × Renderer F
  hold_all s [] = s
  hold_all s ((t, msg) ∷ rest) = hold_all (hold t s msg) rest

  -- Tell_now: the ladder over what is held.
  unfoldable pub tell_now : Held × Renderer F → Tell
  unfolding input
  tell_now (h, r) = pick_tell (input h) (pending_oneshot r)

  abbrev pub is_fault : Msg F → Bool
  is_fault msg = elim msg.env.body [ none ↦ false | some b ↦ elim b [ fault m ↦ true | _ ↦ false ] ]

  hold-fault_seen :
      (t : F) (s : Held × Renderer F) (msg : Msg F)
      → (hold t s msg).0.fault_seen ≡ (s.0.fault_seen || is_fault msg)
  unfolding hold
  hold-fault_seen t (h, r) msg = ground arith

  -- The ring is deaf exactly until the first fault message.
  hold_all-fault_seen :
      (s : Held × Renderer F) (msgs : List (F × Msg F))
      → (hold_all s msgs).0.fault_seen ≡ (s.0.fault_seen || any (λ m. is_fault m.1) msgs)
  unfolding hold_all
  hold_all-fault_seen s [] = ground arith
  hold_all-fault_seen s ((t, msg) ∷ rest) =
      ground (arith, hold_all-fault_seen (hold t s msg) rest, hold-fault_seen t s msg)

  -- Silence is not health: from the daemon's start until a fault message is heard, whatever states
  -- and events arrive, the ring shows the mute tell, or the alarm if the state asks for it, and
  -- never a breath or a scan.
  pub tell_now-mute :
      (msgs : List (F × Msg F))
      → any (λ m. is_fault m.1) msgs ≡ false
      → let s = hold_all (nothing_held, new_renderer) msgs in
        tell_now s ≡ (if str_eq (input s.0).ring_state "alarm" then alarm else muted)
  unfolding tell_now pick_tell
  tell_now-mute msgs quiet = ground (arith, hold_all-fault_seen (nothing_held, new_renderer) msgs)

  -- What was seen stays seen.
  pub was_seen-note :
      (t : F) (r : Renderer F) (word : String) (ts : F) (w : String) (n : ℕ)
      → was_seen w n r.seen ≡ true
      → was_seen w n (note_oneshot t r word ts).seen ≡ true
  unfolding note_oneshot was_seen
  was_seen-note t r word ts w n h = ground arith
