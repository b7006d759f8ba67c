-- ===== src/Fault.antt =====
-- The fault sweep (crates/loa-fault/src/lib.rs): its rows, its levels, and the two verdicts, the
-- sweep's on its own rows and the reader's on a report. The checks are the module Checks.
pub mod Probes
pub mod Checks
pub mod Order
pub mod Health
pub mod Verdict
mod Examples
use Prim.Native.String.{◌++◌ as append}
use loa.Base.{
  ℕ, suc, String, Bool, true, false, Option, none, some, List, [], ◌∷◌, any, str_eq, ltb,
  if◌then◌else◌,
}
use loa.Base.Floats.{Floats}

pub record Row : Type 0 where
  pub level : String
  pub code : String
  pub text : String
  pub face : String

-- What `systemctl is-active` said of a unit.
pub data SvcState : Type 0 where
  active inactive failed looping unknown : SvcState

unfoldable pub parse : String → SvcState
parse s =
    if str_eq s "active"
    then active
    else if str_eq s "inactive"
    then inactive
    else if str_eq s "failed"
    then failed
    else if any (λ w. str_eq s w) ("activating" ∷ "auto-restart" ∷ "reloading" ∷ [])
    then looping
    else unknown

unfoldable pub word : SvcState → String
word active = "active"
word inactive = "inactive"
word failed = "failed"
word looping = "activating"
word unknown = "unknown"

-- format!, over the pieces of its text.
unfoldable pub format : List String → String
format [] = ""
format (s ∷ ss) = append s (format ss)

abbrev pub is_fault : Row → Bool
is_fault r = str_eq r.level "fault"

abbrev pub is_warn : Row → Bool
is_warn r = str_eq r.level "warn"

-- rows.iter().filter(p).count()
unfoldable pub count : (Row → Bool) → List Row → ℕ
count p [] = 0
count p (r ∷ rs) = let rest = count p rs in if p r then suc rest else rest

unfoldable pub sweep_condition : List Row → String
sweep_condition rows =
    if any is_fault rows then "hurts" else if any is_warn rows then "niggle" else "well"

-- rows.sort_by_key(|r| order(&r.level)), a stable sort: a row goes in front of those that it does
-- not come after.
abbrev pub order : Row → ℕ
order r = if is_fault r then 0 else 1

unfoldable pub insert : Row → List Row → List Row
insert r [] = r ∷ []
insert r (s ∷ ss) =
    let rest = insert r ss in if ltb (order s) (order r) then s ∷ rest else r ∷ s ∷ ss

unfoldable pub sort_by_level : List Row → List Row
unfolding insert
sort_by_level [] = []
sort_by_level (r ∷ rs) = insert r (sort_by_level rs)

pub record Report (F : Type 0) : Type 0 where
  pub ts : F
  pub boot : Option String
  pub rows : List Row
  pub faults : ℕ
  pub warns : ℕ
  pub condition : String

-- Report::new
unfoldable pub new_report : {F : Type 0} → F → Option String → List Row → Report F
unfolding count sweep_condition
new_report ts boot rows = record {
  ts = ts;
  boot = boot;
  rows = rows;
  faults = count is_fault rows;
  warns = count is_warn rows;
  condition = sweep_condition rows;
}

module _ {F : Type 0} ⦃f : Floats F⦄ where
  -- FAULTS_STALE_S
  abbrev pub is_stale : F → F → Bool
  is_stale ts now = f.lt (f.lit 300 1) (f.sub now ts)

  unfoldable pub condition : Option (Report F) → F → String
  condition none now = "mute"
  condition (some rep) now =
      if is_stale rep.ts now
      then "mute"
      else if ltb 0 rep.faults
      then "hurts"
      else if ltb 0 rep.warns
      then "niggle"
      else "well"
