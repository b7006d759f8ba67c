-- ===== src/Sonar.antt =====
-- The sonar daemon's memory (crates/loa-sonar/src/state.rs): what it measured, and when it is news.
pub mod Shown
mod Examples
use loa.Base.{ℕ, ◌+◌, ◌%◌, ◌^◌, Bool, true, false, ◌&&◌, ◌||◌, Option, none, some, if◌then◌else◌}
use loa.Base.Floats.{Floats}
use loa.Wire.Pb.{Sonar}

pub record Snr (F : Type 0) : Type 0 where
  pub count : ℕ  -- u32
  pub cm : Option F
  pub ts : Option F
  pub last_pub_cm : Option F
  pub last_pub_ts : Option F

unfoldable pub empty : {F : Type 0} → Snr F
empty = record { count = 0; cm = none; ts = none; last_pub_cm = none; last_pub_ts = none }

unfoldable pub full : {F : Type 0} → Snr F → Sonar F
full s = record { cm = s.cm; count = some s.count; ts = s.ts }

module _ {F : Type 0} ⦃f : Floats F⦄ where
  abbrev pub moved : F → F → Option F → Bool
  moved cm move_cm none = true
  moved cm move_cm (some last) = f.le move_cm f.zero || f.le move_cm (f.abs (f.sub cm last))

  abbrev pub is_quiet_for : F → F → Option F → Bool
  is_quiet_for ts quiet_s none = true
  is_quiet_for ts quiet_s (some t) = f.lt f.zero quiet_s && f.le quiet_s (f.sub ts t)

  unfoldable pub measured : Snr F → F → F → F → F → Snr F × Option (Sonar F)
  unfolding full
  measured s cm ts move_cm quiet_s =
      let s1 = record s { count = (s.count + 1) % 2 ^ 32; cm = some cm; ts = some ts } in
      if moved cm move_cm s.last_pub_cm || is_quiet_for ts quiet_s s.last_pub_ts
      then (let s2 = record s1 { last_pub_cm = some cm; last_pub_ts = some ts } in
          (s2, some (full s2)))
      else (s1, none)
