-- ===== src/Motion/Trace.antt =====
-- Runs of the motion machine (crates/loa-motion/src/state.rs): a poll is a level and a time.
use loa.Base.{
  ◌≡◌, refl, ◌⊎◌, inr, Bool, true, false, List, [], ◌∷◌, ◌++◌, any, if◌then◌else◌, arith,
}
use loa.Base.Floats.{Floats}
use loa.Motion.{Machine, News, state, fire, tick, u32_suc, new, seed, reset_pending}

module _ {F : Type 0} where
  abbrev pub is_fire : News F → Bool
  is_fire (state p) = false
  is_fire (fire p n) = true

  abbrev pub fired : List (News F) → Bool
  fired news = any is_fire news

module _ {F : Type 0} ⦃f : Floats F⦄ where
  -- What the polls leave, and the times at which they fired, in order.
  unfoldable pub run : Machine F → List (Bool × F) → Machine F
  run m [] = m
  run m ((level, now) ∷ polls) = run (tick m level now).0 polls

  unfoldable pub fire_times : Machine F → List (Bool × F) → List F
  fire_times m [] = []
  fire_times m ((level, now) ∷ polls) =
      let rest = fire_times (tick m level now).0 polls in
      if fired (tick m level now).1 then now ∷ rest else rest

  -- All that the polls published, in order.
  unfoldable pub published : Machine F → List (Bool × F) → List (News F)
  published m [] = []
  published m ((level, now) ∷ polls) = (tick m level now).1 ++ published (tick m level now).0 polls

  -- Between two polls: a low level has no streak.
  abbrev pub IsSettled : Machine F → Type 0
  IsSettled m = (m.last ≡ true) ⊎ (m.pending ≡ 0)

  pub new-IsSettled : (c : F) → IsSettled (new c)
  unfolding new
  new-IsSettled c = inr refl

  pub seed-IsSettled :
      (m : Machine F) (level : Bool) (now : F) → IsSettled m → IsSettled (seed m level now).0
  unfolding seed
  seed-IsSettled m true now h = h
  seed-IsSettled m false now h = h

  pub reset_pending-IsSettled : (m : Machine F) → IsSettled (reset_pending m)
  unfolding reset_pending
  reset_pending-IsSettled m = inr refl

  pub tick-IsSettled : (m : Machine F) (level : Bool) (now : F) → IsSettled (tick m level now).0
  unfolding tick
  tick-IsSettled m true now = ground arith
  tick-IsSettled m false now = ground arith

  -- What a poll does to the fields of the cooldown.
  pub tick-cooldown :
      (m : Machine F) (level : Bool) (now : F) → (tick m level now).0.cooldown ≡ m.cooldown
  unfolding tick
  tick-cooldown m true now = ground arith
  tick-cooldown m false now = ground arith

  pub tick-fired :
      (m : Machine F) (level : Bool) (now : F)
      → fired (tick m level now).1 ≡ true
      → (f.le m.cooldown (f.sub now m.last_fire) ≡ true)
        × ((tick m level now).0.last_fire ≡ now)
        × ((tick m level now).0.remembered.count ≡ u32_suc m.remembered.count)
  unfolding tick
  tick-fired m true now h = ground arith
  tick-fired m false now h = ground arith

  pub tick-not_fired :
      (m : Machine F) (level : Bool) (now : F)
      → fired (tick m level now).1 ≡ false
      → ((tick m level now).0.last_fire ≡ m.last_fire)
        × ((tick m level now).0.remembered.count ≡ m.remembered.count)
  unfolding tick
  tick-not_fired m true now h = ground arith
  tick-not_fired m false now h = ground arith
