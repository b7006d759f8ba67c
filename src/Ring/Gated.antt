-- ===== src/Ring/Gated.antt =====
-- A record that waits its turn in the renderer of crates/loa-ring/src/render.rs.
use loa.Base.{
  ◌≡◌, refl, ap, sym, ◌∙◌, inl, inr, Bool, true, false, false≢true, not, ◌&&◌, some, List, [], ◌∷◌,
  Bool-cases,
}
use loa.Base.Floats.{Maths, Floats}
use loa.Ring.Tells.{Tell, RingInput, alarm, hurting, muted, busy, scan, glitch, home, pick_tell}
use loa.Ring.Held.{pending_oneshot}
use loa.Ring.Render.{
  Display, is_oneshot, is_same_tell, is_niggle, schedule, home_frame, wait_at, frame_of_tell, speak,
  render,
}

-- Is the record kept from playing at every step?
unfoldable pub is_gated : {F : Type 0} → Tell → List (F × RingInput × List Bool) → Bool
unfolding pick_tell
is_gated word [] = true
is_gated word ((t, i, coins) ∷ rest) =
    not (is_oneshot (pick_tell i (some word))) && is_gated word rest

-- When the steps last were, or a start before them.
abbrev pub last_time : {F : Type 0} → F → List (F × RingInput × List Bool) → F
last_time start [] = start
last_time start ((t, i, coins) ∷ rest) = last_time t rest

gated_step : (a b : Bool) → (not a && b) ≡ true → (a ≡ false) × (b ≡ true)
gated_step false b h = (refl, h)
gated_step true b h = absurd (false≢true h)

module _ {F : Type 0} ⦃f : Floats F⦄ ⦃g : Maths F⦄ where
  schedule-memory : (t : F) (d : Display F) → (schedule t d).memory ≡ d.memory
  unfolding schedule
  schedule-memory t d = elim (Bool-cases (f.le d.niggle_next t)) [
    | inl e ↦ rw e refl
    | inr e ↦ rw e refl
  ]

  home_frame-memory :
      (t : F) (i : RingInput) (d : Display F) → (home_frame t i d).0.memory ≡ d.memory
  unfolding home_frame
  home_frame-memory t i d = elim (Bool-cases (is_niggle i.cond)) [
    | inr e ↦ rw e refl
    | inl e ↦ elim (Bool-cases (f.lt t (schedule t d).niggle_until)) [
      | inl e' ↦ rw (e, e') (schedule-memory t d)
      | inr e' ↦ rw (e, e') (schedule-memory t d)
    ]
  ]

  -- A frame of another tell than a record's leaves the record.
  frame_of_tell-memory :
      (kind : Tell) (t : F) (i : RingInput) (coins : List Bool) (d : Display F)
      → is_oneshot kind ≡ false
      → (frame_of_tell kind t i coins d).0.memory ≡ d.memory
  unfolding frame_of_tell
  frame_of_tell-memory alarm t i coins d h = refl
  frame_of_tell-memory hurting t i coins d h = refl
  frame_of_tell-memory muted t i coins d h = refl
  frame_of_tell-memory busy t i coins d h = refl
  frame_of_tell-memory scan t i coins d h = absurd (false≢true (sym h))
  frame_of_tell-memory glitch t i coins d h = absurd (false≢true (sym h))
  frame_of_tell-memory home t i coins d h = home_frame-memory t i d

  speak-memory : (spoke : Tell) (d : Display F) → (speak spoke d).memory ≡ d.memory
  unfolding speak
  speak-memory spoke d = elim (Bool-cases (is_same_tell spoke d.tell)) [
    | inl e ↦ rw e refl
    | inr e ↦ rw e refl
  ]

  wait_at-gated :
      (t : F) (kind : Tell) (d : Display F) (word : Tell) (start : F)
      → d.memory.oneshot ≡ some (word, start)
      → is_oneshot kind ≡ false
      → (wait_at t kind d).memory.oneshot ≡ some (word, t)
  unfolding wait_at
  wait_at-gated t kind d word start e h = rw (e, h) refl

  render-gated :
      (t : F) (i : RingInput) (coins : List Bool) (d : Display F) (word : Tell) (start : F)
      → d.memory.oneshot ≡ some (word, start)
      → is_oneshot (pick_tell i (some word)) ≡ false
      → (render t i coins d).0.memory.oneshot ≡ some (word, t)
  unfolding render
  render-gated t i coins d word start e h =
      let kind = pick_tell i (pending_oneshot d.memory) in
      let gated : is_oneshot kind ≡ false = rw e h in
      ap (λ m. m.oneshot)
        (speak-memory _ (frame_of_tell kind t i coins (wait_at t kind d)).0
          ∙ frame_of_tell-memory kind t i coins (wait_at t kind d) gated)
      ∙ wait_at-gated t kind d word start e gated

  -- Steps of the renderer: the clock, the input and the coins of each.
  unfoldable pub render_all : Display F → List (F × RingInput × List Bool) → Display F
  render_all d [] = d
  render_all d ((t, i, coins) ∷ rest) = render_all (render t i coins d).0 rest

  -- A record that is kept from playing does not age: through any number of steps at which another
  -- tell has the ring, the same record waits, and its start rides with the clock to the last of
  -- them.
  pub render_all-gated :
      (d : Display F) (word : Tell) (start : F) (steps : List (F × RingInput × List Bool))
      → d.memory.oneshot ≡ some (word, start)
      → is_gated word steps ≡ true
      → (render_all d steps).memory.oneshot ≡ some (word, last_time start steps)
  unfolding render_all is_gated
  render_all-gated d word start [] e h = e
  render_all-gated d word start ((t, i, coins) ∷ rest) e h =
      let (now, later) = gated_step (is_oneshot (pick_tell i (some word))) (is_gated word rest) h in
      render_all-gated (render t i coins d).0 word t rest
        (render-gated t i coins d word start e now) later
