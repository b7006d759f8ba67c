-- ===== src/Matrix/Alert.antt =====
-- rust/loa-matrix/src/alert.rs: the alert light.
use loa.Base.{
  ℕ, String, ◌+◌, bit_and, Bool, true, false, not, ◌&&◌, ◌||◌, Option, none, some, List, [], ◌∷◌,
  ltb, leb, ◌==◌, str_eq, if◌then◌else◌,
}
use loa.Motion.{u32_suc}
use loa.Wire.Pb
use loa.Wire.Pb.{Envelope, Body, Row}
use loa.Matrix.{glyph, clear}
use loa.Matrix.Glyphs
use loa.Matrix.Glyphs.{Glyph}
use loa.Matrix.Panel.{Effect, Rig, Run, ◌▷◌, edit, flush, brightness, milliseconds}

pub data Sigil : Type 0 where
  dark : Sigil
  attention : Sigil
  urgent : Sigil
  fault : Sigil

abbrev pub glyph_of : Sigil → Glyph
glyph_of dark = Glyphs.dark
glyph_of attention = Glyphs.attention
glyph_of urgent = Glyphs.urgent
glyph_of fault = Glyphs.fault

-- Zero is steady.
abbrev pub half_period : Sigil → ℕ
half_period attention = milliseconds 700
half_period urgent = milliseconds 150
half_period steady = 0

abbrev pub level : Sigil → ℕ
level dark = 0
level attention = 4
level urgent = 9
level fault = 12

-- What the feed has told.
pub record Told : Type 0 where
  pub faults : ℕ  -- u32
  pub warns : ℕ  -- u32
  pub condition : String
  pub throttled : ℕ  -- u32

abbrev pub told_nothing : Told
told_nothing = record { faults = 0; warns = 0; condition = ""; throttled = 0 }

unfoldable pub count_rows : List Row → Told → Told
count_rows [] b = b
count_rows (row ∷ rows) b = count_rows rows (
    if str_eq row.level "fault"
    then record b { faults = u32_suc b.faults }
    else if str_eq row.level "warn"
    then record b { warns = u32_suc b.warns }
    else b)

abbrev pub hear_condition : Option String → Told → Told
hear_condition none b = b
hear_condition (some c) b = record b { condition = c }

-- `rails.get("throttled")`
unfoldable pub rail {ℓ} : {F : Type ℓ} → List (String × F) → String → Option F
rail [] key = none
rail ((k, v) ∷ rest) key = if str_eq k key then some v else rail rest key

abbrev pub hear_throttled {ℓ} : {F : Type ℓ} → (F → ℕ) → Option F → Told → Told
hear_throttled as_u32 none b = b
hear_throttled as_u32 (some w) b = record b { throttled = as_u32 w }

-- `as_u32` is the cast of a double.
unfoldable pub absorb : {F : Type 0} → (F → ℕ) → Told → Option (Body F) → Told
unfolding count_rows rail
absorb as_u32 b none = b
absorb as_u32 b (some (Pb.fault f)) =
    count_rows f.rows (record (hear_condition f.condition b) { faults = 0; warns = 0 })
absorb as_u32 b (some (Pb.power p)) = hear_throttled as_u32 (rail p.rails "throttled") b
absorb as_u32 b (some other) = b

-- Highest thing that is true wins.
unfoldable pub sigil : Told → Sigil
sigil b =
    if ltb 0 b.faults || str_eq b.condition "hurts"
    then fault
    else if bit_and b.throttled 1 == 1
    then urgent
    else if ltb 0 b.warns || str_eq b.condition "niggle"
    then attention
    else dark

unfoldable pub absorb_all : {F : Type 0} → (F → ℕ) → Told → List (Option (Body F)) → Told
unfolding absorb
absorb_all as_u32 b [] = b
absorb_all as_u32 b (e ∷ es) = absorb_all as_u32 (absorb as_u32 b e) es

-- `shown != Some(sigil)`, negated
abbrev pub is_shown : Option Sigil → Sigil → Bool
is_shown (some dark) dark = true
is_shown (some attention) attention = true
is_shown (some urgent) urgent = true
is_shown (some fault) fault = true
is_shown o s = false

-- The variables of the loop. Times are nanoseconds.
pub record Light : Type 0 where
  pub told : Told
  pub shown : Option Sigil
  pub lit : Bool
  pub edge : ℕ
  pub changes : ℕ  -- u32
  pub rig : Rig

-- A run on the light's panel; `?` leaves the loop.
abbrev pub on_panel : Run → Light → Bool × Light
on_panel run l = let (ok, rig) = run l.rig in (ok, record l { rig = rig })

-- A new state shows at once.
abbrev pub announce : Sigil → Light → ℕ → Light
announce s l now = record l {
  shown = some s;
  changes = u32_suc l.changes;
  lit = true;
  edge = now + half_period s;
}

-- `edge = now + half`, which a refused write skips.
abbrev pub set_edge : ℕ → Bool × Light → Bool × Light
set_edge t (ok, l) = (ok, if ok then record l { edge = t } else l)

module _ (accepts : List Effect → List ℕ → Bool) where
  abbrev pub show_sigil : Sigil → Run
  show_sigil s = brightness accepts (level s) ▷ edit (λ m. glyph m (glyph_of s)) ▷ flush accepts

  -- The other half of a blink.
  abbrev pub blink : Bool → Sigil → Run
  blink on s = edit (λ m. if on then glyph m (glyph_of s) else clear m) ▷ flush accepts

  -- One turn of the loop, at the time that its clock reads.
  unfoldable pub redraw : Light → ℕ → Bool × Light
  unfolding sigil ◌▷◌ glyph clear brightness flush
  redraw l now =
      let s = sigil l.told in
      if not (is_shown l.shown s)
      then on_panel (show_sigil s) (announce s l now)
      else if not (half_period s == 0) && leb l.edge now
      then set_edge (now + half_period s)
          (on_panel (blink (not l.lit) s) (record l { lit = not l.lit }))
      else (true, l)

  unfoldable pub turn : {F : Type 0} → (F → ℕ) → Light → List (Option (Body F)) → ℕ → Bool × Light
  unfolding absorb_all redraw
  turn as_u32 l batch now = redraw (record l { told = absorb_all as_u32 l.told batch }) now

-- The variables before the loop, at the clock's reading t.
abbrev pub start : Rig → ℕ → Light
start rig t = record {
  told = told_nothing;
  shown = none;
  lit = false;
  edge = t;
  changes = 0;
  rig = rig;
}

-- Turns of the loop, each with what the feed gave and the clock's reading. An error leaves the loop.
unfoldable pub turns :
    {F : Type 0}
    → (List Effect → List ℕ → Bool)
    → (F → ℕ)
    → Light
    → List (List (Option (Body F)) × ℕ)
    → Bool × Light
turns accepts as_u32 l [] = (true, l)
turns accepts as_u32 l ((batch, now) ∷ rest) =
    let o = turn accepts as_u32 l batch now in
    let later = turns accepts as_u32 o.1 rest in if o.0 then later else o
