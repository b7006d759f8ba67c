-- ===== src/Motion/Examples.antt =====
-- Runs of the motion machine on concrete polls.
use loa.Base.{◌^◌, ◌<◌, ◌≡◌, refl, Bool, true, false, List, [], ◌∷◌, arith}
use loa.Base.Int.{ℤ, pos, ◌-ℤ◌}
use loa.Base.Floats.{fixed_point}
use loa.Motion.{Machine, new, tick, edge, debounce, confirm}
use loa.Motion.Trace.{fire_times, fired}
use loa.Motion.Fires.{IsSpaced, fire_times-IsSpaced}

-- A cooldown of five seconds.
abbrev machine : Machine ℤ
machine = new (pos 5000)

abbrev polls : List (Bool × ℤ)
polls =
    (true, pos 10000)
    ∷ (true, pos 10200)
    ∷ (true, pos 10400)
    ∷ (false, pos 10600)
    ∷ (true, pos 16000)
    ∷ (true, pos 16200)
    ∷ []

polls_fire_twice : fire_times machine polls ≡ pos 10200 ∷ pos 16200 ∷ []
unfolding fire_times tick edge debounce confirm new ◌-ℤ◌
polls_fire_twice = refl

fire_times-IsSpaced_example : IsSpaced machine.cooldown machine.last_fire (fire_times machine polls)
fire_times-IsSpaced_example = fire_times-IsSpaced machine polls

machine_counts_none : machine.remembered.count < 2 ^ 32
unfolding new
machine_counts_none = omega arith

abbrev woken : Machine ℤ
woken = (tick machine true (pos 10000)).0

woken_fires : fired (tick woken true (pos 10200)).1 ≡ true
unfolding tick edge debounce confirm new ◌-ℤ◌
woken_fires = refl
