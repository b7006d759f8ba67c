-- ===== src/Sonar/Shown.antt =====
-- What the cortex shows of the range: the messages of crates/loa-sonar/src/state.rs, merged by
-- crates/loa-cortex/src/state.rs.
use loa.Base.{
  ◌≡◌, refl, ◌⊎◌, inl, inr, Bool, true, false, ◌&&◌, ◌||◌, Option, none, some, List, [], ◌∷◌, arith,
  Bool-cases,
}
use loa.Base.Floats.{Floats}
use loa.Wire.Pb.{Sonar}
use loa.Cortex.{State, default}
use loa.Cortex.Merge.{merge_sonar}
use loa.Sonar.{Snr, empty, moved, is_quiet_for, measured}

module _ {F : Type 0} where
  abbrev pub merge_some : State F → Option (Sonar F) → State F
  merge_some st none = st
  merge_some st (some m) = merge_sonar st m

module _ {F : Type 0} ⦃f : Floats F⦄ (move_cm quiet_s : F) where
  -- The daemon and the cortex after measurements: (range, time).
  unfoldable pub both : Snr F × State F → List (F × F) → Snr F × State F
  both s [] = s
  both (s, st) ((cm, ts) ∷ rest) =
      both
        ((measured s cm ts move_cm quiet_s).0, merge_some st (measured s cm ts move_cm quiet_s).1)
        rest

  -- What the cortex shows is what the daemon published last.
  pub record Shows (s : Snr F) (st : State F) : Type 0 where
    pub cm : st.snr_cm ≡ s.last_pub_cm
    pub ts : st.snr_ts ≡ s.last_pub_ts

  -- A range v, measured at ts, beside the one that is shown: there is a gate and v is nearer than it,
  -- and there is no quiet time or it has not passed since the shown one was published.
  abbrev pub IsNear : F → F → Option F → Option F → Type 0
  IsNear v ts shown shown_ts =
      (old : F) × (sent_at : F) × (shown ≡ some old)
      × (shown_ts ≡ some sent_at)
      × (f.le move_cm f.zero ≡ false)
      × (f.le move_cm (f.abs (f.sub v old)) ≡ false)
      × ((f.lt f.zero quiet_s ≡ false) ⊎ (f.le quiet_s (f.sub ts sent_at) ≡ false))

  -- The range that is shown is the one measured last, or one that it is near.
  abbrev pub IsShown : Option F → Option F → Option F → Option F → Type 0
  IsShown none ts shown shown_ts = shown ≡ none
  IsShown (some v) none shown shown_ts = shown ≡ some v
  IsShown (some v) (some ts) shown shown_ts = (shown ≡ some v) ⊎ IsNear v ts shown shown_ts

  fresh : (a b : Bool) → (a && b) ≡ false → (a ≡ false) ⊎ (b ≡ false)
  fresh false b h = inl refl
  fresh true b h = inr h

  IsNear-of_unsent :
      (v ts : F) (last last_ts : Option F)
      → (moved v move_cm last || is_quiet_for ts quiet_s last_ts) ≡ false
      → IsNear v ts last last_ts
  IsNear-of_unsent v ts none last_ts h = absurd (cc)
  IsNear-of_unsent v ts (some old) none h = absurd (ground (arith, h))
  IsNear-of_unsent v ts (some old) (some sent_at) h = (
    old,
    sent_at,
    refl,
    refl,
    ground (arith, h),
    ground (arith, h),
    fresh (f.lt f.zero quiet_s) (f.le quiet_s (f.sub ts sent_at)) (ground (arith, h)),
  )

  measured-Shows :
      (s : Snr F) (st : State F) (cm ts : F)
      → Shows s st
      → Shows
          (measured s cm ts move_cm quiet_s).0
          (merge_some st (measured s cm ts move_cm quiet_s).1)
  unfolding measured merge_sonar
  measured-Shows s st cm ts h = record { cm = ground (arith, h.cm); ts = ground (arith, h.ts) }

  measured-IsShown :
      (s : Snr F) (cm ts : F)
      → let s' = (measured s cm ts move_cm quiet_s).0 in
        IsShown s'.cm s'.ts s'.last_pub_cm s'.last_pub_ts
  unfolding measured
  measured-IsShown s cm ts =
      elim (Bool-cases (moved cm move_cm s.last_pub_cm || is_quiet_for ts quiet_s s.last_pub_ts)) [
        | inl e ↦ rw e (inl refl)
        | inr e ↦ rw e (inr (IsNear-of_unsent cm ts s.last_pub_cm s.last_pub_ts e))
      ]

  both-IsShown_from :
      (s : Snr F) (st : State F) (ms : List (F × F))
      → Shows s st
      → IsShown s.cm s.ts s.last_pub_cm s.last_pub_ts
      → let (s', st') = both (s, st) ms in IsShown s'.cm s'.ts st'.snr_cm st'.snr_ts
  unfolding both
  both-IsShown_from s st [] h k = rw (h.cm, h.ts) k
  both-IsShown_from s st ((cm, ts) ∷ rest) h k =
      both-IsShown_from (measured s cm ts move_cm quiet_s).0
        (merge_some st (measured s cm ts move_cm quiet_s).1) rest (measured-Shows s st cm ts h)
        (measured-IsShown s cm ts)

  -- From a fresh daemon and a fresh cortex, after any measurements: the range that the cortex shows
  -- is the one measured last, or there is a gate and the one measured last is nearer to it than the
  -- gate, and either no quiet time is set (it is not above zero) or it had not passed, at that
  -- measurement, since the shown range was published; before any measurement none is shown.
  pub both-snr_cm :
      (ms : List (F × F))
      → let (s, st) = both (empty, default) ms in IsShown s.cm s.ts st.snr_cm st.snr_ts
  unfolding empty default
  both-snr_cm ms = both-IsShown_from empty default ms (record { cm = refl; ts = refl }) refl
