-- ===== src/Ring/Tells.antt =====
-- crates/loa-ring/src/tells.rs: the condition words, the mute gate and the ladder of tells.
use loa.Base.{String, Bool, true, false, Option, none, some, str_eq, if◌then◌else◌}

pub data Cond : Type 0 where
  well niggle hurts mute : Cond

pub data Tell : Type 0 where
  alarm hurting muted busy scan glitch home : Tell

unfoldable pub parse : String → Cond
parse s =
    if str_eq s "hurts"
    then hurts
    else if str_eq s "mute"
    then mute
    else if str_eq s "niggle"
    then niggle
    else well

abbrev pub unwrap_or {ℓ} : {A : Type ℓ} → Option A → A → A
unwrap_or none d = d
unwrap_or (some a) d = a

unfoldable pub device_condition : Bool → Option String → Cond
unfolding parse
device_condition false word = mute
device_condition true word = parse (unwrap_or word "well")

pub record RingInput : Type 0 where
  pub cond : Cond
  pub ring_state : String
  pub ripperdoc : Bool

abbrev is_hurts : Cond → Bool
is_hurts hurts = true
is_hurts _ = false

abbrev is_mute : Cond → Bool
is_mute mute = true
is_mute _ = false

unfoldable pub pick_tell : RingInput → Option Tell → Tell
pick_tell i pending =
    if str_eq i.ring_state "alarm"
    then alarm
    else if is_hurts i.cond
    then hurting
    else if is_mute i.cond
    then muted
    else if str_eq i.ring_state "busy"
    then busy
    else if str_eq i.ring_state "home"
    then unwrap_or pending home
    else home
