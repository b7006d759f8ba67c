-- ===== src/Matrix/Steady.antt =====
-- What the alert light of rust/loa-matrix/src/alert.rs shows while its loop runs.
use loa.Base.{
  ℕ, ◌+◌, ◌%◌, ◌≡◌, refl, sym, ap, subst, ◌∙◌, ◌⊎◌, inl, inr, Bool, true, false, false≢true, not,
  ◌&&◌, Option, none, some, List, [], ◌∷◌, ◌++◌, append-nil, leb, ◌==◌, replicate, if◌then◌else◌,
  arith, Bool-cases,
}
use loa.Wire.Pb.{Body}
use loa.Matrix.{Matrix, clear, glyph, frame_len}
use loa.Matrix.Glyphs.{Glyph}
use loa.Matrix.Panel.{Effect, sent, slept, Rig, Run, ◌▷◌, flush, brightness, write, after}
use loa.Matrix.Rules.{shown, no_light}
use loa.Matrix.Feed.{deserved, sigil-deserved, absorb_all-append}
use loa.Matrix.Turns.{rotation-draw_rows}
use loa.Matrix.Alert.{
  Sigil, dark, attention, urgent, fault, glyph_of, half_period, level, sigil, is_shown, Light,
  on_panel, announce, set_edge, show_sigil, blink, redraw, turn, turns, start, absorb_all,
}

-- The brightness that the chip was last told.
unfoldable pub dimmed : List Effect → Option ℕ
dimmed [] = none
dimmed (slept t ∷ log) = dimmed log
dimmed (sent [] ∷ log) = dimmed log
dimmed (sent (c ∷ bytes) ∷ log) = if leb 224 c then some (c % 16) else dimmed log

-- The memory that shows a picture on a panel with this rotation.
unfoldable pub picture : ℕ → Glyph → List ℕ
unfolding glyph
picture rotation g = (glyph (record { frame = []; rotation = rotation }) g).frame

-- The panel holds this sigil: the loop knows, the chip's memory has its picture or, in the dark half
-- of a blink, no light, at the sigil's brightness, and a steady sigil is lit.
unfoldable pub Holds : Light → Sigil → Type 0
unfolding shown dimmed picture
Holds l s =
    (l.shown ≡ some s)
    × (shown l.rig.log
        ≡ some (if l.lit then picture l.rig.matrix.rotation (glyph_of s) else no_light))
    × (dimmed l.rig.log ≡ some (level s))
    × (((half_period s == 0) && not l.lit) ≡ false)

is_shown_eq : (o : Option Sigil) (s : Sigil) → is_shown o s ≡ true → o ≡ some s
is_shown_eq none s e = absurd (false≢true e)
is_shown_eq (some dark) dark e = refl
is_shown_eq (some attention) attention e = refl
is_shown_eq (some urgent) urgent e = refl
is_shown_eq (some fault) fault e = refl
is_shown_eq (some s) t e = absurd (false≢true e)

rotation-glyph : (m : Matrix) (g : Glyph) → (glyph m g).rotation ≡ m.rotation
unfolding glyph clear
rotation-glyph m g = rotation-draw_rows (record m { frame = replicate frame_len 0 }) g.rows 0

frame-glyph : (m : Matrix) (g : Glyph) → (glyph m g).frame ≡ picture (glyph m g).rotation g
unfolding picture glyph clear
frame-glyph m g = ap (λ r. picture r g) (sym (rotation-glyph m g))

dimmed-level :
    (s : Sigil) (log : List Effect)
    → dimmed (sent ((224 + level s % 16) ∷ []) ∷ log) ≡ some (level s)
unfolding dimmed
dimmed-level dark log = refl
dimmed-level attention log = refl
dimmed-level urgent log = refl
dimmed-level fault log = refl

not_dark : (b : Bool) → (b && not true) ≡ false
not_dark true = refl
not_dark false = refl

blinks : (b c : Bool) → (not b && c) ≡ true → b ≡ false
blinks false c e = refl
blinks true c e = absurd (false≢true e)

-- All that some turns were given, in order.
abbrev pub feed_of : {F : Type 0} → List (List (Option (Body F)) × ℕ) → List (Option (Body F))
feed_of [] = []
feed_of ((batch, now) ∷ rest) = batch ++ feed_of rest

-- `?` on an error.
after_failed : (o : Bool × Rig) (run : Run) → o.0 ≡ false → (after o run).0 ≡ false
after_failed (true, r) run e = absurd (false≢true (sym e))
after_failed (false, r) run e = refl

set_edge_told : (t : ℕ) (o : Bool × Light) → (set_edge t o).1.told ≡ o.1.told
set_edge_told t (true, l) = refl
set_edge_told t (false, l) = refl

-- The rig once a frame was sent.
abbrev flushed : Rig → Rig
flushed r = record r { log = sent (0 ∷ r.matrix.frame) ∷ r.log }

-- A frame that was just sent is shown, and the brightness stays.
shown-flushed : (r : Rig) → shown (flushed r).log ≡ some r.matrix.frame
unfolding shown
shown-flushed r = refl

dimmed-flushed : (r : Rig) → dimmed (flushed r).log ≡ dimmed r.log
unfolding dimmed
dimmed-flushed r = refl

-- The rig once a sigil was shown.
abbrev drawn_at : Sigil → Rig → Rig
drawn_at s r = record {
  matrix = glyph r.matrix (glyph_of s);
  log = sent ((224 + level s % 16) ∷ []) ∷ r.log;
}

abbrev showing : Sigil → Rig → Rig
showing s r = flushed (drawn_at s r)

module _ (accepts : List Effect → List ℕ → Bool) where
  -- It stopped with an error, and there is a write that the bus refuses.
  abbrev pub IsRefused : Bool → Type 0
  IsRefused going =
      (going ≡ false) × ((log : List Effect) × (bytes : List ℕ) × (accepts log bytes ≡ false))

  -- A flush ends in an error, or the memory is shown and the brightness stays.
  flush-cases : (r : Rig) → IsRefused (flush accepts r).0 ⊎ (flush accepts r ≡ (true, flushed r))
  unfolding flush write
  flush-cases r = elim (Bool-cases (accepts r.log (0 ∷ r.matrix.frame))) [
    | inl e ↦ inr (rw e refl)
    | inr e ↦ inl (rw e refl, (r.log, 0 ∷ r.matrix.frame, e))
  ]

  brightness-cases :
      (v : ℕ) (r : Rig)
      → IsRefused (brightness accepts v r).0
        ⊎ (brightness accepts v r ≡ (true, record r { log = sent ((224 + v % 16) ∷ []) ∷ r.log }))
  unfolding brightness write
  brightness-cases v r = elim (Bool-cases (accepts r.log ((224 + v % 16) ∷ []))) [
    | inl e ↦ inr (rw e refl)
    | inr e ↦ inl (rw e refl, (r.log, (224 + v % 16) ∷ [], e))
  ]

  show_sigil-cases :
      (s : Sigil) (r : Rig)
      → IsRefused (show_sigil accepts s r).0 ⊎ (show_sigil accepts s r ≡ (true, showing s r))
  unfolding ◌▷◌
  show_sigil-cases s r = elim (brightness-cases (level s) r) [
    | inl e ↦ inl (after_failed (brightness accepts (level s) r) _ e.0, e.1)
    | inr e ↦ rw e (flush-cases _)
  ]

  -- A new sigil is held, or its write was refused.
  announce-Holds :
      (s : Sigil) (l : Light) (now : ℕ)
      → let o = on_panel (show_sigil accepts s) (announce s l now) in
        IsRefused o.0 ⊎ ((o.0 ≡ true) × Holds o.1 s)
  unfolding Holds
  announce-Holds s l now = elim (show_sigil-cases s l.rig) [
    | inl e ↦ inl e
    | inr e ↦ rw e (
        inr (
          refl,
          (
            refl,
            shown-flushed (drawn_at s l.rig) ∙ ap some (frame-glyph l.rig.matrix (glyph_of s)),
            dimmed-flushed (drawn_at s l.rig) ∙ dimmed-level s l.rig.log,
            not_dark (half_period s == 0),
          ),
        ))
  ]

  -- The light of a blinking sigil is turned on or off, or the write was refused.
  blink-Holds :
      (on : Bool) (s : Sigil) (l : Light) (t : ℕ)
      → (half_period s == 0) ≡ false
      → Holds l s
      → let o = set_edge t (on_panel (blink accepts on s) (record l { lit = on })) in
        IsRefused o.0 ⊎ ((o.0 ≡ true) × Holds o.1 s)
  unfolding Holds ◌▷◌ clear
  blink-Holds true s l t h (known, frame, dim, bright) =
      elim (flush-cases (record l.rig { matrix = glyph l.rig.matrix (glyph_of s) })) [
        | inl e ↦ inl e
        | inr e ↦ rw e (
            inr (
              refl,
              (
                known,
                shown-flushed (record l.rig { matrix = glyph l.rig.matrix (glyph_of s) })
                    ∙ ap some (frame-glyph l.rig.matrix (glyph_of s)),
                dimmed-flushed (record l.rig { matrix = glyph l.rig.matrix (glyph_of s) }) ∙ dim,
                not_dark (half_period s == 0),
              ),
            ))
      ]
  blink-Holds false s l t h (known, frame, dim, bright) =
      elim (flush-cases (record l.rig { matrix = clear l.rig.matrix })) [
        | inl e ↦ inl e
        | inr e ↦ rw e (
            inr (
              refl,
              (
                known,
                shown-flushed (record l.rig { matrix = clear l.rig.matrix }),
                dimmed-flushed (record l.rig { matrix = clear l.rig.matrix }) ∙ dim,
                ap (λ b. b && true) h,
              ),
            ))
      ]

  held_sigil : (l : Light) (s : Sigil) → Holds l s → l.shown ≡ some s
  unfolding Holds
  held_sigil l s h = h.0

  -- Before the first turn nothing is known to be shown; later the panel holds what the loop knows.
  Knows : Light → Type 0
  Knows l = (l.shown ≡ none) ⊎ ((s : Sigil) × Holds l s)

  known_Holds : (l : Light) (s : Sigil) → Knows l → l.shown ≡ some s → Holds l s
  unfolding Knows
  known_Holds l s (inl e) known = absurd (ground (arith, e, known))
  known_Holds l s (inr (t, h)) known =
      let same : t ≡ s = ground (arith, known, held_sigil l t h) in subst (λ u. Holds l u) same h

  redraw-Holds :
      (l : Light) (now : ℕ)
      → Knows l
      → let o = redraw accepts l now in IsRefused o.0 ⊎ ((o.0 ≡ true) × Holds o.1 (sigil l.told))
  unfolding redraw
  redraw-Holds l now h =
      let here : is_shown l.shown (sigil l.told) ≡ true → Holds l (sigil l.told) =
        λ e. known_Holds l (sigil l.told) h (is_shown_eq l.shown (sigil l.told) e) in
      elim (Bool-cases (is_shown l.shown (sigil l.told))) [
        | inr e ↦ rw e (announce-Holds (sigil l.told) l now)
        | inl e ↦ elim (Bool-cases (not (half_period (sigil l.told) == 0) && leb l.edge now)) [
          | inl e' ↦
              rw (e, e')
                (blink-Holds (not l.lit) (sigil l.told) l (now + half_period (sigil l.told))
                  (blinks (half_period (sigil l.told) == 0) _ e') (here e))
          | inr e' ↦ rw (e, e') (inr (refl, here e))
        ]
      ]

  -- Drawing does not change what was told.
  redraw_told : (l : Light) (now : ℕ) → (redraw accepts l now).1.told ≡ l.told
  unfolding redraw
  redraw_told l now = elim (Bool-cases (is_shown l.shown (sigil l.told))) [
    | inr e ↦ rw e refl
    | inl e ↦ elim (Bool-cases (not (half_period (sigil l.told) == 0) && leb l.edge now)) [
      | inl e' ↦
          rw (e, e')
            (set_edge_told (now + half_period (sigil l.told))
              (on_panel (blink accepts (not l.lit) (sigil l.told)) (record l { lit = not l.lit })))
      | inr e' ↦ rw (e, e') refl
    ]
  ]

  turn-Holds :
      {F : Type 0} (as_u32 : F → ℕ) (l : Light) (batch : List (Option (Body F))) (now : ℕ)
      → Knows l
      → let o = turn accepts as_u32 l batch now in
        IsRefused o.0 ⊎ ((o.0 ≡ true) × Holds o.1 (sigil (absorb_all as_u32 l.told batch)))
  unfolding turn Knows Holds
  turn-Holds as_u32 l batch now h =
      redraw-Holds (record l { told = absorb_all as_u32 l.told batch }) now h

  turn_told :
      {F : Type 0} (as_u32 : F → ℕ) (l : Light) (batch : List (Option (Body F))) (now : ℕ)
      → (turn accepts as_u32 l batch now).1.told ≡ absorb_all as_u32 l.told batch
  unfolding turn
  turn_told as_u32 l batch now =
      redraw_told (record l { told = absorb_all as_u32 l.told batch }) now

  turns-Knows :
      {F : Type 0} (as_u32 : F → ℕ) (l : Light) (batch : List (Option (Body F))) (now : ℕ)
      (rest : List (List (Option (Body F)) × ℕ))
      → Knows l
      → let o = turns accepts as_u32 l ((batch, now) ∷ rest) in
        IsRefused o.0
        ⊎ ((o.0 ≡ true) × Holds o.1 (sigil (absorb_all as_u32 l.told (batch ++ feed_of rest))))
  unfolding turns Knows
  turns-Knows as_u32 l batch now [] h = elim (turn-Holds as_u32 l batch now h) [
    | inl (e, refused) ↦ rw e (inl (refl, refused))
    | inr (e, held) ↦ rw (e, append-nil batch) (inr (refl, held))
  ]
  turns-Knows as_u32 l batch now ((more, later) ∷ rest) h = elim (turn-Holds as_u32 l batch now h) [
    | inl (e, refused) ↦ rw e (inl (refl, refused))
    | inr (e, held) ↦
        let o = turn accepts as_u32 l batch now in
        let told : absorb_all as_u32 l.told (batch ++ (more ++ feed_of rest))
            ≡ absorb_all as_u32 o.1.told (more ++ feed_of rest) =
          absorb_all-append as_u32 l.told batch (more ++ feed_of rest)
          ∙ ap (λ b. absorb_all as_u32 b (more ++ feed_of rest))
              (sym (turn_told as_u32 l batch now)) in
        rw (e, told) (turns-Knows as_u32 o.1 more later rest (inr (_, held)))
  ]

-- Whatever the feed gives and whenever the clock is read, after every turn of the loop either it
-- was left with an error, and the bus refuses some write, or the panel holds the sigil that the
-- messages so far deserve, read off the last report's rows (which a u32 counts), the last condition
-- word and the last throttle flags: the chip's memory has its picture, or no light in the dark half
-- of a blink, the chip's brightness is the sigil's, and a sigil that does not blink is lit.
pub turns-Holds :
    {F : Type 0} (accepts : List Effect → List ℕ → Bool) (as_u32 : F → ℕ) (rig : Rig) (t : ℕ)
    (batch : List (Option (Body F))) (now : ℕ) (rest : List (List (Option (Body F)) × ℕ))
    → let o = turns accepts as_u32 (start rig t) ((batch, now) ∷ rest) in
      IsRefused accepts o.0 ⊎ ((o.0 ≡ true) × Holds o.1 (deserved as_u32 (batch ++ feed_of rest)))
unfolding Knows
turns-Holds accepts as_u32 rig t batch now rest =
    rw (← sigil-deserved as_u32 (batch ++ feed_of rest))
      (turns-Knows accepts as_u32 (start rig t) batch now rest (inl refl))
