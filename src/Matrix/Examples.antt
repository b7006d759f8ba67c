-- ===== src/Matrix/Examples.antt =====
-- Runs of the panel and of the alert light.
use loa.Base.{
  ℕ, ◌≡◌, refl, ◌⊎◌, Bool, true, Option, none, some, List, [], ◌∷◌, ◌++◌, arith, replicate,
}
use loa.Wire.Pb.{Body, fault, power}
use loa.Matrix.{Matrix, frame_len, glyph, drawn}
use loa.Matrix.Glyphs
use loa.Matrix.Panel.{Effect, Rig}
use loa.Matrix.Demos.{demo, perform}
use loa.Matrix.Rules.{shown, no_light}
use loa.Matrix.Dark.{perform-dark}
use loa.Matrix.Wired.{lit}
use loa.Matrix.Turns.{quarter_turns, lit-glyph}
use loa.Matrix.Alert.{start}
use loa.Matrix.Alert
use loa.Matrix.Steady.{Holds, IsRefused, feed_of, turns-Holds}
use loa.Matrix.Feed.{deserved}

abbrev takes_all : List Effect → List ℕ → Bool
takes_all log bytes = true

-- A panel mounted on its side, with dirt in its memory.
abbrev sideways : Matrix
sideways = record { frame = replicate frame_len 90; rotation = 450 }

abbrev rig : Rig
rig = record { matrix = sideways; log = [] }

-- The opened lock, upright: its shackle ends at the right of the second row.
lit-glyph_example : lit (glyph sideways Glyphs.breach).frame (quarter_turns 1 (4, 1)) ≡ true
unfolding drawn
lit-glyph_example = lit-glyph sideways Glyphs.breach 1 4 1 refl refl (omega arith) (omega arith)

perform-dark_example :
    ((perform takes_all (some 0) 2 demo rig).0 ≡ true)
    × (shown (perform takes_all (some 0) 2 demo rig).1.log ≡ some no_light)
perform-dark_example = perform-dark takes_all (some 0) 2 demo rig (λ log bytes. refl) refl

-- Under-voltage, and then a warning from the sweep.
abbrev heard : List (Option (Body ℕ))
heard = some (power (record { rails = ("throttled", 65537) ∷ []; frag = []; ts = none })) ∷ []

abbrev swept : List (Option (Body ℕ))
swept =
    some (
      fault (record {
        rows = record { level = "warn"; code = "DSK"; text = "disk"; face = none } ∷ [];
        condition = some "niggle";
        ts = none;
      }))
    ∷ []

turns-Holds_example :
    let o = Alert.turns takes_all (λ w. w) (start rig 7) ((heard, 10) ∷ (swept, 200000000) ∷ []) in
    IsRefused takes_all o.0
    ⊎ ((o.0 ≡ true) × Holds o.1 (deserved (λ w. w) (heard ++ feed_of ((swept, 200000000) ∷ []))))
turns-Holds_example = turns-Holds takes_all (λ w. w) rig 7 heard 10 ((swept, 200000000) ∷ [])
