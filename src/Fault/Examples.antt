-- ===== src/Fault/Examples.antt =====
-- Sweeps of concrete bodies.
use loa.Base.{
  ◌≡◌, refl, ◌↔◌, true, false, none, some, List, [], ◌∷◌, ◌++◌, any, str_eq, if◌then◌else◌,
}
use loa.Base.Int.{ℤ, pos, ◌-ℤ◌}
use loa.Base.Floats.{fixed_point}
use loa.Cortex.{Cortex, new}
use loa.Ring.Tells.{alarm, hurting, parse}
use loa.Ring.Held.{nothing_held, new_renderer, input, tell_now}
use loa.Fault.{Row, active, looping, is_fault, sweep_condition, new_report, sort_by_level}
use loa.Fault.Probes.{Formats, Inputs}
use loa.Fault.Checks.{
  probed, evaluate, units_check, bus_check, rails_check, sensor_check, disk_check, api_check,
  i2c_check,
}
use loa.Fault.Order.{filter, is_other, evaluate-partition}
use loa.Fault.Health.{healthy, evaluate-well}
use loa.Fault.Verdict.{relayed, relayed-cond, relayed-hurting}

-- Conversions that keep the text, and name no number.
abbrev formats : Formats ℤ
formats = record {
  second_part = λ w. if str_eq w "loa-oled" then some "oled" else none;
  to_uppercase = λ w. if str_eq w "oled" then "OLED" else w;
  to_lowercase = λ w. w;
  trim = λ w. w;
  dec = λ n. "n";
  hex = λ n. "0x";
  float = λ x. "x";
  round = λ x. "x";
  tenths = λ x. "x";
  trunc = λ x. "x";
  div = λ a b. a;
}

abbrev well_body : Inputs ℤ
well_body = record {
  services = λ u. some (active, true);
  bus = λ b. some (
    true,
    if str_eq b "/dev/spidev0.0" then "loa 412 loa-oled" ∷ [] else "loa 413 loa-ring" ∷ [],
  );
  disk = some (40, pos 9000, pos 32000);
  sensors = λ k. some (some (pos 21000), some (pos 100000));
  throttled = some 0;
  temp_val = some (pos 45000);
  cortex_state = "active";
  api_listening = true;
  api_port = "8765";
  i2c_door = true;
  device_tree = true;
  now = pos 130000;
}

-- The panel's daemon loops, the disk fills, and the weather has gone quiet.
abbrev sick_body : Inputs ℤ
sick_body = record well_body {
  services = λ u. some (if str_eq u "loa-oled" then looping else active, true);
  disk = some (91, pos 2000, pos 32000);
  now = pos 800000;
}

well_body_is_healthy : healthy well_body ≡ true
unfolding ◌-ℤ◌
well_body_is_healthy = refl

evaluate-well_example : ((evaluate formats well_body).1 ≡ "well") ↔ (healthy well_body ≡ true)
evaluate-well_example = evaluate-well formats well_body

evaluate-partition_example :
    (evaluate formats sick_body).0
    ≡ filter is_fault (probed formats sick_body) ++ filter is_other (probed formats sick_body)
evaluate-partition_example = evaluate-partition formats sick_body

abbrev found : List Row
found = (evaluate formats sick_body).0

found_a_fault : any is_fault found ≡ true
unfolding evaluate ◌-ℤ◌ sort_by_level units_check bus_check rails_check sensor_check disk_check
    api_check i2c_check
found_a_fault = refl

abbrev cortex : Cortex ℤ
cortex = new

relayed-cond_example :
    (input
      (relayed
        (pos 5)
        (pos 6)
        cortex
        true
        (new_report (pos 0) none found)
        (nothing_held, new_renderer)).0).cond
    ≡ parse (if true then "hurts" else sweep_condition found)
relayed-cond_example =
    relayed-cond (pos 5) (pos 6) cortex true (pos 0) none found (nothing_held, new_renderer)

relayed-hurting_example :
    tell_now (
      relayed
        (pos 5)
        (pos 6)
        cortex
        false
        (new_report (pos 0) none found)
        (nothing_held, new_renderer))
    ≡ (if str_eq (input nothing_held).ring_state "alarm" then alarm else hurting)
relayed-hurting_example =
    relayed-hurting (pos 5) (pos 6) cortex false (pos 0) none found (nothing_held, new_renderer)
      found_a_fault
