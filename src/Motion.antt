-- ===== src/Motion.antt =====
-- crates/loa-motion/src/state.rs: the PIR's state machine, with the pin taken out of it.
pub mod Trace
pub mod Fires
pub mod Process
mod Examples
use loa.Base.{
  ℕ, suc, zero, ◌+◌, ◌%◌, ◌^◌, Bool, true, false, ◌&&◌, Option, none, some, List, [], ◌∷◌, ◌++◌,
  leb, if◌then◌else◌,
}
use loa.Base.Floats.{Floats}
use loa.Wire.Pb.{Pir, no_pir}

-- What this daemon has published so far.
pub record Remembered (F : Type 0) : Type 0 where
  pub high : Bool
  pub count : ℕ  -- u32
  pub last_ts : Option F
  pub last_hold : Option F
  pub on_ts : Option F

-- A transition, or a confirmed scan.
pub data News (F : Type 0) : Type 0 where
  state : Pir F → News F
  fire : Pir F → ℕ → News F

pub record Machine (F : Type 0) : Type 0 where
  pub cooldown : F
  pub remembered : Remembered F
  pub last : Bool
  pub pending : ℕ  -- u32
  pub last_fire : F
  pub on_ts : Option F

-- One more, in a u32. A release build wraps.
abbrev pub u32_suc : ℕ → ℕ
u32_suc n = (n + 1) % 2 ^ 32

module _ {F : Type 0} ⦃f : Floats F⦄ where
  -- Remembered::full
  unfoldable pub full_of : Remembered F → Pir F
  full_of r = record {
    high = some r.high;
    count = some r.count;
    last_ts = r.last_ts;
    last_hold = r.last_hold;
    on_ts = r.on_ts;
    ts = none;
  }

  unfoldable pub full : Machine F → Pir F
  unfolding full_of
  full m = full_of m.remembered

  unfoldable pub new : F → Machine F
  new cooldown = record {
    cooldown = cooldown;
    remembered = record { high = false; count = 0; last_ts = none; last_hold = none; on_ts = none };
    last = false;
    pending = 0;
    last_fire = f.zero;
    on_ts = none;
  }

  unfoldable pub reset_pending : Machine F → Machine F
  reset_pending m = record m { pending = 0 }

  unfoldable pub seed : Machine F → Bool → F → Machine F × Pir F
  seed m true now = (
    record m {
      remembered = record m.remembered { high = true; on_ts = some now };
      on_ts = some now;
    },
    record no_pir { high = some true; on_ts = some now },
  )
  seed m false now = (
    record m { remembered = record m.remembered { high = false } },
    record no_pir { high = some false; on_ts = none },
  )

  abbrev pub hold_of : Option F → F → F
  hold_of none now = f.zero
  hold_of (some t) now = f.sub now t

  -- `if level != self.last { … }`: the edge.
  unfoldable pub edge : Machine F → Bool → Bool → F → Machine F × List (News F)
  edge m true true now = (m, [])
  edge m false false now = (m, [])
  edge m false true now = (
    record m {
      on_ts = some now;
      remembered = record m.remembered { high = true; on_ts = some now };
    },
    state (record no_pir { high = some true; on_ts = some now }) ∷ [],
  )
  edge m true false now =
      let hold = hold_of m.on_ts now in
      (
        record m {
          on_ts = none;
          remembered = record m.remembered { high = false; last_hold = some hold; on_ts = none };
        },
        state (record no_pir { high = some false; last_hold = some hold }) ∷ [],
      )

  abbrev pub may_fire : Machine F → F → Bool
  may_fire m now = leb 2 m.pending && f.le m.cooldown (f.sub now m.last_fire)

  unfoldable pub confirm : Machine F → F → Machine F × List (News F)
  confirm m now =
      if may_fire m now
      then (
        record m {
          last_fire = now;
          remembered = record m.remembered {
            count = u32_suc m.remembered.count;
            last_ts = some now;
          };
        },
        fire (record no_pir { count = some (u32_suc m.remembered.count); last_ts = some now })
              (u32_suc m.remembered.count)
            ∷ [],
      )
      else (m, [])

  -- `if level { pending …; fire } else { pending = 0 }`
  unfoldable pub debounce : Machine F → Bool → F → Machine F × List (News F)
  unfolding confirm
  debounce m false now = (record m { pending = 0 }, [])
  debounce m true now = confirm (record m { pending = if m.last then u32_suc m.pending else 1 }) now

  -- One poll, with the level that came off the pin.
  unfoldable pub tick : Machine F → Bool → F → Machine F × List (News F)
  unfolding edge debounce
  tick m level now =
      let (m1, edge_news) = edge m m.last level now in
      let (m2, scan_news) = debounce m1 level now in
      (record m2 { last = level }, edge_news ++ scan_news)
