-- ===== src/Fault/Verdict.antt =====
-- The verdicts on a report: the sweep's own (crates/loa-fault/src/lib.rs), the reader's, and what
-- reaches the ring through the cortex.
use loa.Base.{
  String, ◌≡◌, refl, ap, ◌∙◌, Bool, true, false, ◌||◌, Option, some, List, [], ◌∷◌, map, any,
  str_eq, ltb, if◌then◌else◌, arith,
}
use loa.Base.Floats.{Floats}
use loa.Wire.Pb.{Fault, fault}
use loa.Wire.Contract.{envelope}
use loa.Cortex.{Cortex}
use loa.Cortex.Merge.{merge_fault, fault_row}
use loa.Cortex.Build.{fault_of, has_level, condition_from, build_fault, build_fault_lem}
use loa.Ring.Tells.{hurts, alarm, hurting, parse, pick_tell}
use loa.Ring.Held.{Held, Renderer, hold, input, tell_now}
use loa.Fault.{
  Row, Report, is_fault, is_warn, count, sweep_condition, new_report, condition, is_stale,
}

-- publish (crates/loa-fault/src/main.rs): the report as a message. The face always rides.
abbrev pub wire_row : Row → loa.Wire.Pb.Row
wire_row r = record { level = r.level; code = r.code; text = r.text; face = some r.face }

unfoldable pub message : {F : Type 0} → Report F → Fault F
message rep = record {
  rows = map wire_row rep.rows;
  condition = some rep.condition;
  ts = some rep.ts;
}

count-any : (p : Row → Bool) (rows : List Row) → ltb 0 (count p rows) ≡ any p rows
unfolding count
count-any p [] = refl
count-any p (r ∷ rs) = ground (arith, count-any p rs)

-- A reader of a sweep's report takes the sweep's own verdict while the report is fresh, and reads
-- mute, whatever the rows say, once it is more than 300 s old.
pub condition-new_report :
    {F : Type 0} ⦃f : Floats F⦄ (ts now : F) (boot : Option String) (rows : List Row)
    → condition (some (new_report ts boot rows)) now
      ≡ (if is_stale ts now then "mute" else sweep_condition rows)
unfolding condition new_report sweep_condition
condition-new_report ts now boot rows = rw (count-any is_fault rows, count-any is_warn rows) refl

has_level-wire :
    (level : String) (rows : List Row)
    → has_level level (map fault_row (map wire_row rows)) ≡ any (λ r. str_eq r.level level) rows
has_level-wire level [] = refl
has_level-wire level (r ∷ rs) = ap (λ b. str_eq r.level level || b) (has_level-wire level rs)

-- While the store is up, the condition that the cortex reads off the rows of a sweep's message is
-- the one that the sweep gave itself.
condition_from-wire :
    (rows : List Row) → condition_from (map fault_row (map wire_row rows)) ≡ sweep_condition rows
unfolding condition_from sweep_condition
condition_from-wire rows = rw (has_level-wire "fault" rows, has_level-wire "warn" rows) refl

hurts_of_fault :
    (rows : List Row) (db_down : Bool)
    → any is_fault rows ≡ true
    → parse (if db_down then "hurts" else sweep_condition rows) ≡ hurts
unfolding parse sweep_condition
hurts_of_fault rows true e = refl
hurts_of_fault rows false e = rw e refl

module _ {F : Type 0} ⦃f : Floats F⦄ where
  -- A sweep's report, merged by the cortex, published as its fault message, and held by the ring.
  abbrev pub relayed : F → F → Cortex F → Bool → Report F → Held × Renderer F → Held × Renderer F
  relayed now t cx db_down rep s =
      let heard = record cx { st = merge_fault now cx.st (message rep) } in
      hold t s (record { topic = "fault"; env = envelope (build_fault now heard db_down) })

  held_word :
      (t : F) (s : Held × Renderer F) (m : Fault F) {w : String}
      → m.condition ≡ some w
      → (input (hold t s (record { topic = "fault"; env = envelope (fault m) })).0).cond ≡ parse w
  unfolding hold envelope input
  held_word t s m e = rw e refl

  heard_word :
      (now : F) (cx : Cortex F) (db_down : Bool) (ts : F) (boot : Option String) (rows : List Row)
      → (fault_of now
          (record cx { st = merge_fault now cx.st (message (new_report ts boot rows)) })
          db_down).condition
        ≡ some (if db_down then "hurts" else sweep_condition rows)
  unfolding message new_report
  heard_word now cx db_down ts boot rows =
      (build_fault_lem now cx (message (new_report ts boot rows)) db_down).1
      ∙ ap (λ w. some (if db_down then "hurts" else w)) (condition_from-wire rows)

  -- The condition that the ring takes from a sweep's report, after the cortex has merged it and
  -- published its own message, is the sweep's own verdict, or "hurts" while the store is down.
  pub relayed-cond :
      (now t : F) (cx : Cortex F) (db_down : Bool) (ts : F) (boot : Option String) (rows : List Row)
      → (s : Held × Renderer F)
      → (input (relayed now t cx db_down (new_report ts boot rows) s).0).cond
        ≡ parse (if db_down then "hurts" else sweep_condition rows)
  unfolding build_fault
  relayed-cond now t cx db_down ts boot rows s =
      held_word t s _ (heard_word now cx db_down ts boot rows)

  relayed-ring_state :
      (now t : F) (cx : Cortex F) (db_down : Bool) (rep : Report F) (s : Held × Renderer F)
      → (input (relayed now t cx db_down rep s).0).ring_state ≡ (input s.0).ring_state
  unfolding hold envelope input build_fault
  relayed-ring_state now t cx db_down rep s = refl

  tell_of_hurts :
      (s : Held × Renderer F)
      → (input s.0).cond ≡ hurts
      → tell_now s ≡ (if str_eq (input s.0).ring_state "alarm" then alarm else hurting)
  unfolding tell_now pick_tell
  tell_of_hurts s e = rw e refl

  -- A fault that a sweep found is on the ring once its report has gone through the cortex: the ring
  -- shows the hurting tell, or the alarm if it was asked for, whatever else it holds.
  pub relayed-hurting :
      (now t : F) (cx : Cortex F) (db_down : Bool) (ts : F) (boot : Option String) (rows : List Row)
      → (s : Held × Renderer F) → any is_fault rows ≡ true
      → tell_now (relayed now t cx db_down (new_report ts boot rows) s)
        ≡ (if str_eq (input s.0).ring_state "alarm" then alarm else hurting)
  relayed-hurting now t cx db_down ts boot rows s e =
      rw (← relayed-ring_state now t cx db_down (new_report ts boot rows) s) (
        tell_of_hurts (relayed now t cx db_down (new_report ts boot rows) s)
          (relayed-cond now t cx db_down ts boot rows s ∙ hurts_of_fault rows db_down e))
