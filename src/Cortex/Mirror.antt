-- ===== src/Cortex/Mirror.antt =====
-- The cortex hears the motion daemon: what crates/loa-motion publishes, merged by
-- crates/loa-cortex/src/state.rs.
use loa.Base.{
  ◌≡◌, refl, Bool, true, false, Option, none, some, List, [], ◌∷◌, ◌++◌, arith, not, ◌&&◌,
  if◌then◌else◌, ap₂, ◌∙◌,
}
use loa.Base.Floats.{Floats}
use loa.Wire.Pb.{Pir}
use loa.Motion.{Machine, Remembered, News, state, fire, tick, full, seed}
use loa.Motion.Trace.{run, published}
use loa.Cortex.{State, default}
use loa.Cortex.Merge.{present, present_some, merge_pir}

module _ {F : Type 0} where
  -- The payload of a piece of news.
  abbrev pub payload : News F → Pir F
  payload (state p) = p
  payload (fire p n) = p

  unfoldable pub merge_news : State F → List (News F) → State F
  merge_news st [] = st
  merge_news st (n ∷ rest) = merge_news (merge_pir st (payload n)) rest

  merge_news-append :
      (st : State F) (xs ys : List (News F))
      → merge_news st (xs ++ ys) ≡ merge_news (merge_news st xs) ys
  unfolding merge_news
  merge_news-append st [] ys = refl
  merge_news-append st (x ∷ xs) ys = merge_news-append (merge_pir st (payload x)) xs ys

module _ {F : Type 0} ⦃f : Floats F⦄ where
  -- What the daemon knows, if it knows anything, the cortex knows.
  abbrev pub IsKnown : Option F → Option F → Type 0
  IsKnown none heard = Unit
  IsKnown (some t) heard = heard ≡ some t

  IsKnown-present_some : (o : Option F) → IsKnown o (present_some o none)
  IsKnown-present_some none = tt
  IsKnown-present_some (some t) = refl

  -- The cortex's PIR fields say what the daemon remembers. An open hold that the daemon knows is
  -- known to the cortex; the cortex may also keep the start of a hold that has ended.
  pub record Mirrors (r : Remembered F) (st : State F) : Type 0 where
    pub high : st.pir_high ≡ r.high
    pub count : st.pir_count ≡ r.count
    pub last_ts : st.pir_last_ts ≡ r.last_ts
    pub last_hold : st.pir_last_hold ≡ present r.last_hold f.zero
    pub on_ts : IsKnown r.on_ts st.pir_on_ts

  pub tick-Mirrors :
      (m : Machine F) (level : Bool) (now : F) (st : State F)
      → Mirrors m.remembered st
      → Mirrors (tick m level now).0.remembered (merge_news st (tick m level now).1)
  unfolding tick merge_news merge_pir
  tick-Mirrors m true now st h = record {
    high = ground arith;
    count = ground arith;
    last_ts = ground arith;
    last_hold = ground arith;
    on_ts = ground (arith, h.on_ts);
  }
  tick-Mirrors m false now st h = record {
    high = ground arith;
    count = ground arith;
    last_ts = ground arith;
    last_hold = ground arith;
    on_ts = ground (arith, h.on_ts);
  }

  -- The time of the last rise among polls that follow a level, or what was known before them.
  unfoldable pub last_rise : Bool → List (Bool × F) → Option F → Option F
  last_rise before [] known = known
  last_rise before ((level, now) ∷ polls) known =
      last_rise level polls (if level && not before then some now else known)

  tick-rise :
      (m : Machine F) (level : Bool) (now : F) (st : State F)
      → ((merge_news st (tick m level now).1).pir_on_ts
          ≡ (if level && not m.last then some now else st.pir_on_ts))
        × ((tick m level now).0.last ≡ level)
  unfolding tick merge_news merge_pir
  tick-rise m true now st = ground arith
  tick-rise m false now st = ground arith

  run-rise :
      (m : Machine F) (polls : List (Bool × F)) (st : State F)
      → (merge_news st (published m polls)).pir_on_ts ≡ last_rise m.last polls st.pir_on_ts
  unfolding published last_rise
  run-rise m [] st = unfold merge_news in refl
  run-rise m ((level, now) ∷ polls) st =
      let (rise, last) = tick-rise m level now st in
      rw (merge_news-append st (tick m level now).1 (published (tick m level now).0 polls)) (
        run-rise (tick m level now).0 polls (merge_news st (tick m level now).1)
        ∙ ap₂ (λ b o. last_rise b polls o) last rise)

  run-mirrored :
      (m : Machine F) (polls : List (Bool × F)) (st : State F)
      → Mirrors m.remembered st
      → Mirrors (run m polls).remembered (merge_news st (published m polls))
  unfolding run published
  run-mirrored m [] st h = unfold merge_news in h
  run-mirrored m ((level, now) ∷ polls) st h =
      rw (merge_news-append st (tick m level now).1 (published (tick m level now).0 polls)) (
        run-mirrored (tick m level now).0 polls (merge_news st (tick m level now).1)
          (tick-Mirrors m level now st h))

  -- After any polls, a cortex that mirrored the daemon before, and merged what the polls
  -- published, mirrors it again; and the start of a hold that it keeps is the time of the last
  -- rise of the pin among the polls, or what it kept before them if the pin did not rise.
  pub run-Mirrors :
      (m : Machine F) (polls : List (Bool × F)) (st : State F)
      → Mirrors m.remembered st
      → Mirrors (run m polls).remembered (merge_news st (published m polls))
        × ((merge_news st (published m polls)).pir_on_ts ≡ last_rise m.last polls st.pir_on_ts)
  run-Mirrors m polls st h = (run-mirrored m polls st h, run-rise m polls st)

  -- A cortex that has just restarted knows nothing; one answer to its `init` ask, the daemon's full
  -- payload, makes it mirror the daemon, whatever the daemon has been through.
  pub full-Mirrors : (m : Machine F) → Mirrors m.remembered (merge_pir default (full m))
  unfolding merge_pir default full
  full-Mirrors m = record {
    high = ground arith;
    count = ground arith;
    last_ts = ground arith;
    last_hold = ground arith;
    on_ts = IsKnown-present_some m.remembered.on_ts;
  }

  pub seed-Mirrors :
      (m : Machine F) (level : Bool) (now : F) (st : State F)
      → Mirrors m.remembered st
      → Mirrors (seed m level now).0.remembered (merge_pir st (seed m level now).1)
  unfolding merge_pir seed
  seed-Mirrors m true now st h = record {
    high = ground arith;
    count = ground arith;
    last_ts = ground arith;
    last_hold = ground arith;
    on_ts = ground (arith, h.on_ts);
  }
  seed-Mirrors m false now st h = record {
    high = ground arith;
    count = ground arith;
    last_ts = ground arith;
    last_hold = ground arith;
    on_ts = ground (arith, h.on_ts);
  }
