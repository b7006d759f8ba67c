-- ===== src/Oled/Face.antt =====
-- The animations of crates/loa-oled/src/face.rs, but for the bench's pages. The generator of random
-- numbers is a parameter; an i32 or an i64 does not overflow here.
use loa.Base.{ℕ, ◌+◌, ◌-◌, ◌%◌, ◌^◌, Bool, true, ◌&&◌, List, [], ◌∷◌, ◌==◌, if◌then◌else◌}
use loa.Base.Int.{ℤ, pos, negsuc, ◌+ℤ◌, ◌-ℤ◌, leb_ℤ, ltb_ℤ}
use loa.Base.Floats.{Floats, Maths}
use loa.Oled.{width, height}
use loa.Oled.Draw.{Pen, ◌▷◌, blank, dot, stroke, each, when_on, numbers}
use loa.Oled.Fonts.{text, text_width}
use loa.Oled.Line.{magnitude}

-- StdRng: its seeding and its draws, each with the generator that it leaves.
pub record Chance (F R : Type 0) : Type 0 where
  pub seed_from_u64 : ℕ → R
  pub range_f64 : F → F → R → F × R  -- gen_range(a..b)
  pub range : ℕ → ℕ → R → ℕ × R
  pub next_u32 : R → ℕ × R
  pub byte : R → ℕ × R

-- `v as u64` of an i64
abbrev pub as_u64 : ℤ → ℕ
as_u64 (pos n) = n
as_u64 (negsuc n) = 2 ^ 64 - 1 - n

-- The remainder by n that is not negative.
abbrev pub rem_euclid : ℤ → ℕ → ℕ
rem_euclid (pos a) n = a % n
rem_euclid (negsuc a) n = n - 1 - a % n

abbrev pub is_even : ℤ → Bool
is_even z = magnitude z % 2 == 0

-- Dotted rows above and below the baseline.
unfoldable pub grid : ℤ → Pen
unfolding each dot ◌▷◌
grid base = each (negsuc 23 ∷ negsuc 15 ∷ negsuc 7 ∷ pos 8 ∷ pos 16 ∷ pos 24 ∷ []) (λ dy.
    when_on (leb_ℤ (pos 0) (base +ℤ dy) && ltb_ℤ (base +ℤ dy) (pos height))
      (each (numbers 0 4 32) (λ x. dot (pos x) (base +ℤ dy) true)))

pub record Scope (F R : Type 0) : Type 0 where
  pub rng : R
  pub blips : List (ℤ × F)
  pub next_blip : F

abbrev pub row_cells : ℕ → List ℕ → List (ℕ × ℕ) → List (ℕ × ℕ)
row_cells y [] rest = rest
row_cells y (x ∷ xs) rest = (x, y) ∷ row_cells y xs rest

abbrev pub cells : List ℕ → List (ℕ × ℕ)
cells [] = []
cells (y ∷ ys) = row_cells y (numbers 0 2 64) (cells ys)

module _ {F : Type 0} ⦃f : Floats F⦄ ⦃g : Maths F⦄ where
  abbrev pub whole : ℕ → F
  whole n = f.lit n 1

  unfoldable pub py_round : F → ℤ
  py_round v =
      let low = g.floor v in
      let d = f.sub v low in
      if f.lt (f.lit 5 10) d
      then g.as_i64 (f.add low (whole 1))
      else if f.lt d (f.lit 5 10)
      then g.as_i64 low
      else (if is_even (g.as_i64 low) then g.as_i64 low else g.as_i64 low +ℤ pos 1)

  -- 2π
  abbrev pub turn : F
  turn = f.mul (whole 2) g.pi

  -- The grid shows in windows of three seconds.
  unfoldable pub flicker : F → ℤ → Pen
  unfolding grid
  flicker t base = when_on (f.lt (g.rem t (whole 24)) (whole 3)) (grid base)

  -- The age of a blip, and whether it is still drawn.
  abbrev pub aged : F → List (ℤ × F) → List (ℤ × F)
  aged dt [] = []
  aged dt ((x, age) ∷ rest) =
      let later = aged dt rest in
      if f.lt (f.add age dt) (f.lit 25 10) then (x, f.add age dt) ∷ later else later

  abbrev pub push_blip : List (ℤ × F) → ℤ × F → List (ℤ × F)
  push_blip [] blip = blip ∷ []
  push_blip (b ∷ rest) blip = b ∷ push_blip rest blip

  module _ {R : Type 0} (c : Chance F R) where
    unfoldable pub new_scope : F → R → Scope F R
    new_scope now rng =
        let drawn = c.range_f64 (whole 8) (whole 15) rng in
        record { rng = drawn.1; blips = []; next_blip = f.add now drawn.0 }

    unfoldable pub tick_scope : F → F → Scope F R → Scope F R
    tick_scope dt now s =
        let kept = aged dt s.blips in
        let place = c.range_f64 (whole 8) (whole 121) s.rng in
        let gap = c.range_f64 (whole 8) (whole 15) place.1 in
        if f.le s.next_blip now
        then record {
          rng = gap.1;
          blips = push_blip kept (g.as_i64 place.0, f.zero);
          next_blip = f.add now gap.0;
        }
        else record s { blips = kept }

  -- The bar of a blip at x.
  unfoldable pub draw_blip : ℤ → ℤ × F → Pen
  unfolding stroke
  draw_blip base (x, age) =
      let h = g.as_i64 (f.mul (whole 14) (f.sub (whole 1) (f.div age (f.lit 25 10)))) in
      when_on (ltb_ℤ (pos 0) h) (stroke x (base -ℤ h) x (base +ℤ h) true)

  -- The row of the line: two slow tones.
  abbrev pub drift : F → ℤ
  drift t =
      pos 32
      +ℤ py_round (
          f.mul (f.mul (whole 2) (g.sin (f.div (f.mul turn t) (whole 90))))
            (g.sin (f.div (f.mul turn t) (whole 23))))

  unfoldable pub draw_scope : {R : Type 0} → F → Scope F R → Pen
  unfolding flicker stroke each draw_blip dot ◌▷◌ py_round
  draw_scope t s =
      let base = drift t in
      let scan = g.as_i64 (g.rem (f.mul t (whole 40)) (whole width)) in
      flicker t base
      ▷ stroke (pos 0) base (pos 127) base true
      ▷ each s.blips (draw_blip base)
      ▷ stroke scan (base -ℤ pos 8) scan (base +ℤ pos 8) true
      ▷ dot scan base true

  -- A segment of the heartbeat: `scale * sin(π * (pp - start) / length)`.
  abbrev pub bump : F → F → F → F
  bump pp start len = g.sin (f.div (f.mul g.pi (f.sub pp start)) len)

  unfoldable pub wave : F → F
  wave p =
      let pp = f.div p (whole 48) in
      if f.lt pp (f.lit 12 100)
      then f.mul (whole 2) (g.sin (f.div (f.mul g.pi pp) (f.lit 12 100)))
      else if f.lt pp (f.lit 22 100)
      then f.mul (f.neg (whole 6)) (bump pp (f.lit 12 100) (f.lit 10 100))
      else if f.lt pp (f.lit 34 100)
      then f.mul (whole 22) (g.powf (bump pp (f.lit 22 100) (f.lit 12 100)) (f.lit 15 10))
      else if f.lt pp (f.lit 44 100)
      then f.mul (f.neg (whole 5)) (bump pp (f.lit 34 100) (f.lit 10 100))
      else if f.lt pp (f.lit 60 100)
      then f.mul (whole 4) (bump pp (f.lit 44 100) (f.lit 16 100))
      else f.zero

  -- `a.max(0.0)`
  abbrev pub not_below_zero : F → F
  not_below_zero v = if f.lt v f.zero then f.zero else v

  unfoldable pub draw_ecg : F → Pen
  unfolding flicker each dot ◌▷◌ wave py_round
  draw_ecg t =
      let off = g.rem (f.mul t (whole 36)) (whole 48) in
      flicker t (pos 32)
      ▷ each (numbers 0 1 width) (λ x.
        let p = not_below_zero (g.rem (f.add (f.of_ℕ x) off) (whole 48)) in
        let y = py_round (f.sub (whole 32) (wave p)) in
        dot (pos x) y true ▷ dot (pos x) (y +ℤ pos 1) true)

  unfoldable pub draw_ripple : F → Pen
  unfolding each dot py_round
  draw_ripple t =
      let phase = f.mul (f.mul turn t) (f.lit 35 100) in
      each (numbers 0 1 width) (λ x.
        let slow = g.sin (f.add (f.mul phase (f.lit 5 10)) (f.mul (f.of_ℕ x) (f.lit 5 100))) in
        let a = f.mul (whole 12) (f.add (f.lit 6 10) (f.mul (f.lit 4 10) slow)) in
        let quick =
          g.sin (f.add (f.mul (f.mul turn (f.of_ℕ x)) (f.div (whole 1) (whole 32))) phase) in
        dot (pos x) (py_round (f.add (whole 32) (f.mul a quick))) true)

  -- One cell of the static after the other, with the generator that each leaves.
  unfoldable pub noise_cells : {R : Type 0} → Chance F R → List (ℕ × ℕ) → R → Pen
  unfolding dot ◌▷◌
  noise_cells c [] r = blank
  noise_cells c ((x, y) ∷ rest) r =
      let drawn = c.next_u32 r in
      let share = f.div (f.of_ℕ drawn.0) (f.add (whole 4294967295) (whole 1)) in
      when_on (f.lt share (f.lit 14 100)) (dot (pos x) (pos y) true) ▷ noise_cells c rest drawn.1

  unfoldable pub draw_noise : {R : Type 0} → Chance F R → F → Pen
  unfolding noise_cells
  draw_noise c t =
      noise_cells c (cells (numbers 0 2 32))
        (c.seed_from_u64 (as_u64 (g.as_i64 (f.mul t (whole 12)))))

  unfoldable pub draw_marquee : List ℕ → F → Pen
  unfolding text
  draw_marquee s t buf =
      let off = rem_euclid (g.as_i64 (f.mul t (whole 28))) (text_width s + width) in
      text buf (pos width -ℤ pos off) (pos 29) s true
