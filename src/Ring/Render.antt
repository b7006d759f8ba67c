-- ===== src/Ring/Render.antt =====
-- crates/loa-ring/src/render.rs: one step of the renderer, with the clock's reading and the coins of
-- its random generator as arguments. The sequences that it keeps are the curves themselves.
use loa.Base.{
  ℕ, suc, ◌-◌, ◌*◌, min, Bool, true, false, not, ◌&&◌, Option, none, some, List, [], ◌∷◌, leb, ◌==◌,
  get_or, length, replicate, if◌then◌else◌,
}
use loa.Base.Int.{ℤ, pos, negsuc}
use loa.Base.Floats.{Maths, Floats}
use loa.Ring.Tells.{
  Cond, niggle, Tell, alarm, hurting, muted, busy, scan, glitch, home, RingInput, pick_tell,
}
use loa.Ring.Held.{Renderer, new_renderer, pending_oneshot}
use loa.Ring.Curves.{
  tenths, one, hsv, solid, frames_in, home_curve, busy_curve, home_hue, sample_scalar,
  sample_frames, scan_frames, scan_timings,
}

-- What persists from one step to the next.
pub record Display (F : Type 0) : Type 0 where
  pub memory : Renderer F
  pub tell : Option Tell
  pub acc : List (F × F × F)  -- the dither's remainders
  pub niggle_next : F
  pub niggle_until : F

abbrev pub rank : Tell → ℕ
rank alarm = 0
rank hurting = 1
rank muted = 2
rank busy = 3
rank scan = 4
rank glitch = 5
rank home = 6

-- Is this one of the records' tells?
abbrev pub is_oneshot : Tell → Bool
is_oneshot scan = true
is_oneshot glitch = true
is_oneshot tell = false

-- `Some(spoke) != self.tell`, negated
abbrev pub is_same_tell : Tell → Option Tell → Bool
is_same_tell spoke none = false
is_same_tell spoke (some tell) = rank spoke == rank tell

abbrev pub is_niggle : Cond → Bool
is_niggle niggle = true
is_niggle cond = false

-- `emitted.clamp(0, 255) as u8`
abbrev pub clamp_byte : ℤ → ℕ
clamp_byte (pos n) = min n 255
clamp_byte (negsuc n) = 0

module _ {F : Type 0} ⦃f : Floats F⦄ ⦃g : Maths F⦄ where
  abbrev pub fresh : List (F × F × F)
  fresh = replicate 24 (f.zero, f.zero, f.zero)

  unfoldable pub new_display : Display F
  new_display = record {
    memory = new_renderer;
    tell = none;
    acc = fresh;
    niggle_next = f.zero;
    niggle_until = f.zero;
  }

  -- One channel: the remainder that stays and the byte that goes out.
  unfoldable pub channel : F → F → F × ℕ
  channel acc v =
      let sum = f.add acc v in
      let emitted = g.as_i64 sum in (f.sub sum (g.of_i64 emitted), clamp_byte emitted)

  -- Dither::render
  unfoldable pub blit : List (F × F × F) → List (F × F × F) → List (F × F × F) × List ℕ
  unfolding channel
  blit [] frame = ([], [])
  blit (a ∷ rest) [] = (a ∷ rest, replicate (length (a ∷ rest) * 3) 0)
  blit ((r, q, b) ∷ rest) ((vr, vq, vb) ∷ frame) =
      let red = channel r vr in
      let green = channel q vq in
      let blue = channel b vb in
      let later = blit rest frame in
      ((red.0, green.0, blue.0) ∷ later.0, red.1 ∷ green.1 ∷ blue.1 ∷ later.1)

  unfoldable pub alarm_frame : F → List (F × F × F)
  unfolding solid
  alarm_frame t =
      let cycle = f.add (f.mul (f.lit 3 1) (tenths 7)) (f.lit 2 1) in
      let p = g.rem t cycle in
      if f.le (f.mul (f.lit 3 1) (tenths 7)) p
      then solid f.zero f.zero f.zero
      else if f.lt (g.rem p (tenths 7)) (tenths 4)
      then solid f.zero one one
      else solid f.zero f.zero f.zero

  abbrev pub hurts_levels : List F
  hurts_levels =
      f.lit 85 100
      ∷ f.lit 85 100
      ∷ f.lit 85 100
      ∷ f.lit 18 100
      ∷ f.lit 18 100
      ∷ f.lit 18 100
      ∷ f.lit 18 100
      ∷ []

  unfoldable pub hurts_frame : F → List (F × F × F)
  unfolding solid
  hurts_frame t =
      let step = f.lit 28 100 in
      let i = g.as_usize (f.div (g.rem t (f.mul step (f.lit 7 1))) step) in
      solid f.zero one (get_or hurts_levels (min i 6) f.zero)

  unfoldable pub mute_frame : F → List (F × F × F)
  unfolding solid
  mute_frame t =
      let blinks = f.le (f.sub (f.lit 10 1) (tenths 4)) (g.rem t (f.lit 10 1)) in
      solid f.zero f.zero (if blinks then f.lit 6 100 else f.zero)

  unfoldable pub busy_frame : F → List (F × F × F)
  unfolding solid sample_scalar busy_curve
  busy_frame t =
      let total = f.add (f.add (f.add (tenths 24) (tenths 5)) (tenths 34)) (tenths 4) in
      solid (f.lit 45 1) one (f.div (sample_scalar busy_curve t total) (f.lit 255 1))

  unfoldable pub breath : F → List (F × F × F)
  unfolding hsv sample_scalar home_curve home_hue
  breath t =
      let total = f.add (f.add (f.add (tenths 30) (tenths 8)) (tenths 42)) (tenths 5) in
      replicate 24 (hsv (home_hue t) one (f.div (sample_scalar home_curve t total) (f.lit 255 1)))

  -- A niggle's schedule: the next start and the end of this tick.
  unfoldable pub schedule : F → Display F → Display F
  schedule t d =
      if f.le d.niggle_next t
      then record d { niggle_next = f.add t (f.lit 20 1); niggle_until = f.add t (f.lit 36 100) }
      else d

  unfoldable pub home_frame : F → RingInput → Display F → Display F × List (F × F × F)
  unfolding schedule breath solid
  home_frame t i d =
      if is_niggle i.cond
      then (let s = schedule t d in
          let bright = f.lt t (f.sub s.niggle_until (f.lit 18 100)) in
          if f.lt t s.niggle_until
          then (s, solid (f.lit 38 1) one (if bright then f.lit 55 100 else tenths 1))
          else (s, breath t))
      else (d, breath t)

  abbrev pub spend : Display F → Display F
  spend d = record d { memory = record d.memory { oneshot = none } }

  unfoldable pub scan_frame : F → RingInput → F → Display F → Display F × List (F × F × F)
  unfolding scan_timings scan_frames sample_frames home_frame
  scan_frame t i start d =
      let timings = scan_timings i.ripperdoc in
      let total = f.add timings.0 timings.1 in
      let elapsed = f.sub t start in
      if f.lt total elapsed
      then home_frame t i (spend d)
      else (d, sample_frames (scan_frames timings.0 timings.1) elapsed total)

  -- Each LED red or cyan, by its coin.
  unfoldable pub noise : List Bool → List (F × F × F)
  noise [] = []
  noise (coin ∷ coins) =
      (if coin then (f.lit 255 1, f.zero, f.zero) else (f.zero, f.lit 255 1, f.lit 255 1))
      ∷ noise coins

  unfoldable pub glitch_frame :
      F → RingInput → List Bool → F → Display F → Display F × List (F × F × F)
  unfolding noise home_frame
  glitch_frame t i coins start d =
      let elapsed = f.sub t start in
      let secs : F = tenths 3 in
      let len = suc (frames_in secs) in
      let k = g.as_usize (f.mul (f.div elapsed (tenths 3)) (f.of_ℕ len)) in
      if f.lt (tenths 3) elapsed
      then home_frame t i (spend d)
      else (d, if leb (len - 1) (min k (len - 1)) then fresh else noise coins)

  -- A record that may not play yet does not age.
  unfoldable pub wait_at : F → Tell → Display F → Display F
  wait_at t kind d = elim d.memory.oneshot [
    | none ↦ d
    | some (word, start) ↦
        if is_oneshot kind
        then d
        else record d { memory = record d.memory { oneshot = some (word, t) } }
  ]

  -- The start of the record, where one plays.
  abbrev pub with_start :
      Option (Tell × F)
      → (F → Display F × List (F × F × F))
      → Display F × List (F × F × F)
      → Display F × List (F × F × F)
  with_start none play otherwise = otherwise
  with_start (some (word, start)) play otherwise = play start

  unfoldable pub frame_of_tell :
      Tell → F → RingInput → List Bool → Display F → Display F × List (F × F × F)
  unfolding alarm_frame hurts_frame mute_frame busy_frame home_frame scan_frame glitch_frame
  frame_of_tell alarm t i coins d = (d, alarm_frame t)
  frame_of_tell hurting t i coins d = (d, hurts_frame t)
  frame_of_tell muted t i coins d = (d, mute_frame t)
  frame_of_tell busy t i coins d = (d, busy_frame t)
  frame_of_tell scan t i coins d =
      with_start d.memory.oneshot (λ start. scan_frame t i start d) (home_frame t i d)
  frame_of_tell glitch t i coins d =
      with_start d.memory.oneshot (λ start. glitch_frame t i coins start d) (home_frame t i d)
  frame_of_tell home t i coins d = home_frame t i d

  abbrev pub is_waiting : Option (Tell × F) → Bool
  is_waiting none = false
  is_waiting (some o) = true

  -- A tell that changed starts with no remainders.
  unfoldable pub speak : Tell → Display F → Display F
  speak spoke d =
      if is_same_tell spoke d.tell then d else record d { tell = some spoke; acc = fresh }

  -- The tell that spoke, and its bytes.
  unfoldable pub render : F → RingInput → List Bool → Display F → Display F × Tell × List ℕ
  unfolding wait_at frame_of_tell speak blit pick_tell
  render t i coins d =
      let kind = pick_tell i (pending_oneshot d.memory) in
      let drawn = frame_of_tell kind t i coins (wait_at t kind d) in
      let spoke =
        if is_oneshot kind && not (is_waiting drawn.0.memory.oneshot) then home else kind in
      let d' = speak spoke drawn.0 in
      let out = blit d'.acc drawn.1 in (record d' { acc = out.0 }, spoke, out.1)
