-- ===== src/Motion/Fires.antt =====
-- What a run of the motion machine (crates/loa-motion/src/state.rs) fires, and when.
use loa.Base.{
  ◌+◌, ◌%◌, ◌^◌, ◌≤◌, ◌<◌, ◌≡◌, subst₂, inl, inr, Bool, true, false, List, [], ◌∷◌, arith,
  Bool-cases, length,
}
use loa.Base.Floats.{Floats}
use loa.Motion.{Machine, tick}
use loa.Motion.Trace.{fired, run, fire_times, IsSettled, tick-cooldown, tick-fired, tick-not_fired}

module _ {F : Type 0} ⦃f : Floats F⦄ where
  -- Each time is at least `cooldown` after the one before it, the first after `prev`.
  abbrev pub IsSpaced : F → F → List F → Type 0
  IsSpaced cooldown prev [] = Unit
  IsSpaced cooldown prev (t ∷ ts) = (f.le cooldown (f.sub t prev) ≡ true) × IsSpaced cooldown t ts

  IsSpaced-along :
      {c c' p p' : F} (ts : List F) → c ≡ c' → p ≡ p' → IsSpaced c p ts → IsSpaced c' p' ts
  IsSpaced-along ts e d = subst₂ (λ c p. IsSpaced c p ts) e d

  -- Whatever the pin does and whenever it is polled, two scans that fire one after the other are at
  -- least the cooldown apart, and the first is that far from the machine's last fire.
  pub fire_times-IsSpaced :
      (m : Machine F) (polls : List (Bool × F))
      → IsSpaced m.cooldown m.last_fire (fire_times m polls)
  unfolding fire_times
  fire_times-IsSpaced m [] = tt
  fire_times-IsSpaced m ((level, now) ∷ polls) =
      let m' : Machine F = (tick m level now).0 in
      let ih = fire_times-IsSpaced m' polls in
      let keep = tick-cooldown m level now in
      elim (Bool-cases (fired (tick m level now).1)) [
        | inl e ↦ rw e (
          (tick-fired m level now e).0,
          IsSpaced-along (fire_times m' polls) keep (tick-fired m level now e).1 ih,
        )
        | inr e ↦
            rw e (IsSpaced-along (fire_times m' polls) keep (tick-not_fired m level now e).0 ih)
      ]

  -- Over any polls the count, a u32, grows by the number of scans that fired, modulo 2^32.
  pub count-run :
      (m : Machine F) (polls : List (Bool × F))
      → m.remembered.count < 2 ^ 32
      → (run m polls).remembered.count ≡ (m.remembered.count + length (fire_times m polls)) % 2 ^ 32
  unfolding run fire_times
  count-run m [] h = omega arith
  count-run m ((level, now) ∷ polls) h = elim (Bool-cases (fired (tick m level now).1)) [
    | inl e ↦ rw e (
        omega (
          arith,
          count-run (tick m level now).0 polls (omega (arith, (tick-fired m level now e).2)),
          (tick-fired m level now e).2,
        ))
    | inr e ↦ rw e (
        omega (
          arith,
          count-run (tick m level now).0 polls (omega (arith, (tick-not_fired m level now e).1)),
          (tick-not_fired m level now e).1,
        ))
  ]

  -- In a machine that holds no streak while the level is low, as every poll leaves it, a scan fires
  -- only on a second high poll in a row: the level is high now, and it was high at the poll before.
  pub fired_needs_two_highs :
      (m : Machine F) (level : Bool) (now : F)
      → IsSettled m
      → fired (tick m level now).1 ≡ true
      → (level ≡ true) × (m.last ≡ true) × (1 ≤ m.pending)
  unfolding tick
  fired_needs_two_highs m true now s h = ground arith
  fired_needs_two_highs m false now s h = ground arith
