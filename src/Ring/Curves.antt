-- ===== src/Ring/Curves.antt =====
-- The colours and the curves of crates/loa-ring/src/tells.rs, in operations on doubles that are
-- parameters.
use loa.Base.{
  ℕ, zero, suc, ◌-◌, min, Bool, true, false, List, [], ◌∷◌, ◌++◌, get_or, length, replicate,
  if◌then◌else◌,
}
use loa.Base.Floats.{Floats, Maths}

module _ {F : Type 0} ⦃f : Floats F⦄ ⦃g : Maths F⦄ where
  abbrev pub tenths : ℕ → F
  tenths n = f.lit n 10

  abbrev pub one : F
  one = f.lit 1 1

  -- The channels by the hue's sextant.
  abbrev pub sextant : F → F → F → F × F × F
  sextant h c x =
      if f.lt h (f.lit 60 1)
      then (c, x, f.zero)
      else if f.lt h (f.lit 120 1)
      then (x, c, f.zero)
      else if f.lt h (f.lit 180 1)
      then (f.zero, c, x)
      else if f.lt h (f.lit 240 1)
      then (f.zero, x, c)
      else if f.lt h (f.lit 300 1)
      then (x, f.zero, c)
      else (c, f.zero, x)

  abbrev pub lifted : F → F × F × F → F × F × F
  lifted m (r, q, b) = (
    f.mul (f.add r m) (f.lit 255 1),
    f.mul (f.add q m) (f.lit 255 1),
    f.mul (f.add b m) (f.lit 255 1),
  )

  unfoldable pub hsv : F → F → F → F × F × F
  hsv h s v =
      let c = f.mul v s in
      let turn = f.sub (g.rem (f.div h (f.lit 60 1)) (f.lit 2 1)) one in
      lifted (f.sub v c) (sextant h c (f.mul c (f.sub one (f.abs turn))))

  unfoldable pub solid : F → F → F → List (F × F × F)
  unfolding hsv
  solid h s v = replicate 24 (hsv h s v)

  -- `(secs * FPS).round().max(1.0) as usize`
  abbrev pub frames_in : F → ℕ
  frames_in secs =
      let n = g.round (f.mul secs (f.lit 30 1)) in g.as_usize (if f.lt n one then one else n)

  -- The curve of an inhale or an exhale, from frame t of n on: `wave` is the sine or the cosine.
  unfoldable pub eased : (F → F) → ℕ → ℕ → ℕ → F → F → List F
  eased wave zero t n peak base = []
  eased wave (suc left) t n peak base =
      let phase = f.mul (f.mul (f.div (f.of_ℕ t) (f.of_ℕ n)) g.pi) (tenths 5) in
      f.add base (f.mul (f.sub peak base) (g.powf (wave phase) (tenths 15)))
      ∷ eased wave left (suc t) n peak base

  -- Inhale, hold, exhale and rest.
  unfoldable pub breath_curve : F → F → F → F → F → List F
  unfolding eased
  breath_curve peak inhale hold exhale rest =
      let base = f.lit 3 1 in
      eased g.sin (frames_in inhale) 0 (frames_in inhale) peak base
      ++ replicate (frames_in hold) peak
      ++ eased g.cos (frames_in exhale) 0 (frames_in exhale) peak base
      ++ replicate (frames_in rest) base

  unfoldable pub home_curve : List F
  unfolding breath_curve
  home_curve = breath_curve (f.lit 35 1) (tenths 30) (tenths 8) (tenths 42) (tenths 5)

  unfoldable pub busy_curve : List F
  unfolding breath_curve
  busy_curve = breath_curve (f.lit 55 1) (tenths 24) (tenths 5) (tenths 34) (tenths 4)

  unfoldable pub home_hue : F → F
  home_hue t =
      let turn = f.div (f.mul (f.mul (f.lit 2 1) g.pi) t) (f.lit 60 1) in
      f.add (f.lit 120 1) (f.mul (f.lit 45 1) (f.sub (tenths 5) (f.mul (tenths 5) (g.cos turn))))

  -- `((t % total) / total * len) as usize`, and not past the end.
  abbrev pub sample_at : ℕ → F → F → ℕ
  sample_at len t total =
      min (g.as_usize (f.mul (f.div (g.rem t total) total) (f.of_ℕ len))) (len - 1)

  unfoldable pub sample_scalar : List F → F → F → F
  sample_scalar seq t total = get_or seq (sample_at (length seq) t total) f.zero

  unfoldable pub sample_frames : List (List (F × F × F)) → F → F → List (F × F × F)
  sample_frames seq t total = get_or seq (sample_at (length seq) t total) []

  -- LED i of a comet, for each LED from i on.
  unfoldable pub comet_from : ℕ → ℕ → F → F → List (F × F × F)
  unfolding hsv
  comet_from zero i head amp = []
  comet_from (suc left) i head amp =
      let d = g.rem_euclid (f.sub head (f.of_ℕ i)) (f.lit 24 1) in
      let b = f.mul (f.mul (f.lit 120 1) (g.exp (f.mul (f.neg d) (tenths 9)))) amp in
      (if f.lt d (f.lit 6 1)
        then hsv (f.lit 150 1) (tenths 7) (f.div b (f.lit 255 1))
        else (f.zero, f.zero, f.zero))
      ∷ comet_from left (suc i) head amp

  abbrev pub comet_frame : F → F → List (F × F × F)
  comet_frame head amp = comet_from 24 0 head amp

  unfoldable pub lap : ℕ → ℕ → F → List (List (F × F × F))
  unfolding comet_from
  lap zero s head_step = []
  lap (suc left) s head_step =
      comet_frame (f.mul (f.of_ℕ s) head_step) one ∷ lap left (suc s) head_step

  unfoldable pub fading : ℕ → ℕ → ℕ → F → List (List (F × F × F))
  unfolding comet_from
  fading zero s n head = []
  fading (suc left) s n head =
      comet_frame head (f.sub one (f.div (f.of_ℕ s) (f.of_ℕ n))) ∷ fading left (suc s) n head

  unfoldable pub scan_frames : F → F → List (List (F × F × F))
  unfolding lap fading
  scan_frames lap_s fade_s =
      let lap_n = frames_in lap_s in
      let head_step = f.div (f.of_ℕ 24) (f.of_ℕ lap_n) in
      let final_head = f.mul (f.of_ℕ (lap_n - 1)) head_step in
      lap lap_n 0 head_step ++ fading (frames_in fade_s) 0 (frames_in fade_s) final_head

  unfoldable pub scan_timings : Bool → F × F
  scan_timings true = (tenths 9, tenths 3)
  scan_timings false = (tenths 16, tenths 5)
