-- ===== src/Matrix/Dark.antt =====
-- What the instruments of rust/loa-matrix/src/ht16k33.rs leave on the panel.
use loa.Base.{
  ℕ, ◌+◌, ◌*◌, ◌/◌, ◌^◌, ◌≤◌, ◌≡◌, refl, sym, Bool, true, false, false≢true, List, [], ◌∷◌, Option,
  none, some, ◌==◌, if◌then◌else◌, arith,
}
use loa.Matrix.{Matrix, clear, set, byte, set_all, glyph, columns}
use loa.Matrix.Panel.{
  Effect, Rig, Run, ◌▷◌, wait, for_each, repeat, show_for, milliseconds, seconds,
}
use loa.Matrix.Demos.{
  light, fill_columns, vignette_rows, row_of, corners, outline, sides, diagonal, raw, row_sweep,
  bit_sweep, flash, glyph_demo, vignette, step, walk, corner_blinks, corner_test, Command, corner,
  rows, bits, walk_line, load_step, fill, off, box, diag, bench_frames, vignette_demo, demo, named,
  raw_byte, pixel, loops_of, perform,
}
use loa.Matrix.Glyphs.{Glyph, all, breach, attention, invader}
use loa.Matrix.Rules.{
  seven, shown, no_light, Hoare, Any, Dark, ▷-Hoare, for_each-Hoare, repeat-Hoare, anywhere,
  repeat_some, quiet, wait-Any, wait-Dark, edit-Any, flush-Any, brightness-Any, blank-Dark,
  show_for-Dark,
}

module _ (accepts : List Effect → List ℕ → Bool)
    (open_bus : (log : List Effect) (bytes : List ℕ) → accepts log bytes ≡ true) where
  -- A run that darkens the panel, and a wait after it.
  then_wait : (t : ℕ) (run : Run) → Hoare Any run Dark → Hoare Any (run ▷ wait t) Dark
  then_wait t run h = ▷-Hoare Any Dark Dark run (wait t) h (wait-Dark t)

  wait_then : (t : ℕ) (run : Run) → Hoare Any run Dark → Hoare Any (wait t ▷ run) Dark
  wait_then t run h = ▷-Hoare Any Any Dark (wait t) run (wait-Any t) h

  -- The blinks of an instrument, and the rest of its line.
  blinks-Dark :
      (n t u v : ℕ) (draw : Matrix → Matrix)
      → Hoare Any (repeat (n + 1) (show_for accepts t draw ▷ wait u) ▷ wait v) Dark
  blinks-Dark n t u v draw = then_wait v _ (
      repeat_some Dark (n + 1) _ (omega arith)
        (then_wait u _ (show_for-Dark accepts open_bus t draw)))

  raw-Dark : (i v hold : ℕ) → Hoare Any (raw accepts i v hold) Dark
  unfolding raw
  raw-Dark i v hold =
      wait_then (seconds 2) _ (show_for-Dark accepts open_bus hold (λ m. byte (clear m) i v))

  first_Dark :
      {A : Type 0} (x : A) (xs : List A) (body : A → Run)
      → ((y : A) → Hoare Any (body y) Dark)
      → Hoare Any (for_each (x ∷ xs) body) Dark
  unfolding for_each
  first_Dark x xs body h =
      ▷-Hoare Any Dark Dark (body x) (for_each xs body) (h x)
        (for_each-Hoare Dark xs body (λ y. anywhere Dark Dark (body y) (h y)))

  row_sweep-Dark : (hold group : ℕ) → Hoare Any (row_sweep accepts hold group) Dark
  unfolding row_sweep
  row_sweep-Dark hold group = wait_then (seconds 2) _ (
      first_Dark 0 seven _ (λ i.
        blinks-Dark i hold (hold / 2) hold
          (λ m. byte (clear m) ((if group == 2 then 1 else 0) + i * 2) 255)))

  bit_sweep-Dark : (hold : ℕ) → Hoare Any (bit_sweep accepts hold) Dark
  unfolding bit_sweep
  bit_sweep-Dark hold = wait_then (seconds 2) _ (
      first_Dark 0 seven _
        (λ b. blinks-Dark b hold (hold / 2) hold (λ m. fill_columns columns (2 ^ b) (clear m))))

  flash-Any : (g : Glyph) (on times : ℕ) → Hoare Any (flash accepts g on times) Any
  unfolding flash
  flash-Any g on times =
      repeat-Hoare Any times _ (quiet _ (then_wait on _ (show_for-Dark accepts open_bus on _)))

  glyph_demo-Dark : (hold loops : ℕ) → Hoare Any (glyph_demo accepts hold loops) Dark
  unfolding glyph_demo
  glyph_demo-Dark hold loops = wait_then (seconds 2) _ (
      ▷-Hoare Any Any Dark _ _
        (repeat-Hoare Any loops _ (
          for_each-Hoare Any all _ (λ g.
            quiet _
              (then_wait (hold / 3) _ (show_for-Dark accepts open_bus hold (λ m. glyph m g))))))
        (▷-Hoare Any Any Dark _ _ (flash-Any breach (milliseconds 120) 8) (
          ▷-Hoare Any Any Dark _ _ (flash-Any attention (milliseconds 700) 3)
            (show_for-Dark accepts open_bus (milliseconds 1500) (λ m. glyph m invader)))))

  vignette-Dark : Hoare Any (vignette accepts) Dark
  unfolding vignette
  vignette-Dark = wait_then (seconds 2) _ (
      ▷-Hoare Any Any Dark _ _
        (for_each-Hoare Any (2 ∷ 6 ∷ 10 ∷ 15 ∷ []) _ (λ level.
          ▷-Hoare Any Any Any _ _ (brightness-Any accepts open_bus level) (
            ▷-Hoare Any Any Any _ _ (edit-Any (λ m. vignette_rows columns (clear m))) (
              ▷-Hoare Any Any Any _ _ (flush-Any accepts open_bus)
                (wait-Any (milliseconds 2500))))))
        (▷-Hoare Any Any Dark _ _ (brightness-Any accepts open_bus 2)
          (blank-Dark accepts open_bus)))

  step-Dark :
      (on off_time cycles bright : ℕ)
      → 1 ≤ cycles
      → Hoare Any (step accepts on off_time cycles bright) Dark
  unfolding step
  step-Dark on off_time cycles bright h =
      ▷-Hoare Any Any Dark _ _ (brightness-Any accepts open_bus bright) (
        wait_then (seconds 2) _ (
          repeat_some Dark cycles _ h (then_wait off_time _ (show_for-Dark accepts open_bus on _))))

  walk-Dark : (hold loops : ℕ) → 1 ≤ loops → Hoare Any (walk accepts hold loops) Dark
  unfolding walk
  walk-Dark hold loops h = wait_then (seconds 2) _ (
      repeat_some Dark loops _ h (
        ▷-Hoare Any Any Dark _ _
          (for_each-Hoare Any columns _ (λ y.
            ▷-Hoare Any Any Any _ _ (edit-Any (λ m. light (row_of columns y) (clear m)))
              (▷-Hoare Any Any Any _ _ (flush-Any accepts open_bus) (wait-Any hold))))
          (then_wait (seconds 3) _ (blank-Dark accepts open_bus))))

  corner_blinks-Any :
      (hold : ℕ) (cs : List (ℕ × ℕ)) (i : ℕ) → Hoare Any (corner_blinks accepts hold cs i) Any
  unfolding corner_blinks Hoare
  corner_blinks-Any hold [] i r p = (refl, p)
  corner_blinks-Any hold (c ∷ cs) i r p =
      ▷-Hoare Any Any Any _ _
        (repeat-Hoare Any (i + 1) _
          (quiet _ (then_wait (hold / 3) _ (show_for-Dark accepts open_bus hold _))))
        (▷-Hoare Any Any Any _ _ (wait-Any (hold / 2)) (corner_blinks-Any hold cs (i + 1))) r p

  corner_test-Dark : (hold loops : ℕ) → 1 ≤ loops → Hoare Any (corner_test accepts hold loops) Dark
  unfolding corner_test
  corner_test-Dark hold loops h = wait_then (seconds 2) _ (
      repeat_some Dark loops _ h (
        ▷-Hoare Any Any Dark _ _ (corner_blinks-Any hold corners 0)
          (then_wait (hold * 4) _ (show_for-Dark accepts open_bus (hold * 2) _))))

loops_some : (o : Option ℕ) → 1 ≤ loops_of o
unfolding loops_of
loops_some none = omega arith
loops_some (some n) = omega arith

-- bench, which measures and does not clean up.
abbrev pub is_bench : Command → Bool
is_bench bench_frames = true
is_bench c = false

-- On a bus that takes every write, each command but bench ends, with Ok, and the last frame the chip
-- was sent is dark, whatever was there and whatever number of loops and brightness were asked for.
pub perform-dark :
    (accepts : List Effect → List ℕ → Bool) (loops : Option ℕ) (bright : ℕ) (c : Command) (r : Rig)
    → ((log : List Effect) (bytes : List ℕ) → accepts log bytes ≡ true)
    → is_bench c ≡ false
    → ((perform accepts loops bright c r).0 ≡ true)
      × (shown (perform accepts loops bright c r).1.log ≡ some no_light)
unfolding perform Hoare Any Dark
perform-dark accepts loops bright corner r open_bus h =
    corner_test-Dark accepts open_bus (milliseconds 450) (loops_of loops) (loops_some loops) r tt
perform-dark accepts loops bright (rows group) r open_bus h =
    row_sweep-Dark accepts open_bus (milliseconds 350) group r tt
perform-dark accepts loops bright bits r open_bus h =
    bit_sweep-Dark accepts open_bus (milliseconds 350) r tt
perform-dark accepts loops bright walk_line r open_bus h =
    walk-Dark accepts open_bus (milliseconds 1200) (loops_of loops) (loops_some loops) r tt
perform-dark accepts loops bright load_step r open_bus h =
    step-Dark accepts open_bus (milliseconds 3000) (milliseconds 3000) 5
      (if bright == 2 then 15 else bright) (omega arith) r tt
perform-dark accepts loops bright fill r open_bus h =
    show_for-Dark accepts open_bus (seconds 5) (λ m. set_all m true) r tt
perform-dark accepts loops bright off r open_bus h = blank-Dark accepts open_bus r tt
perform-dark accepts loops bright box r open_bus h =
    show_for-Dark accepts open_bus (seconds 5)
      (λ m. light (sides columns) (light (outline columns) (clear m))) r tt
perform-dark accepts loops bright diag r open_bus h =
    show_for-Dark accepts open_bus (seconds 5) (λ m. light (diagonal columns) (clear m)) r tt
perform-dark accepts loops bright bench_frames r open_bus h = absurd (false≢true (sym h))
perform-dark accepts loops bright vignette_demo r open_bus h = vignette-Dark accepts open_bus r tt
perform-dark accepts loops bright demo r open_bus h =
    glyph_demo-Dark accepts open_bus (milliseconds 2500) (loops_of loops) r tt
perform-dark accepts loops bright (named g) r open_bus h =
    show_for-Dark accepts open_bus (seconds 6) (λ m. glyph m g) r tt
perform-dark accepts loops bright (raw_byte i v) r open_bus h =
    raw-Dark accepts open_bus i v (seconds 4) r tt
perform-dark accepts loops bright (pixel x y) r open_bus h =
    show_for-Dark accepts open_bus (seconds 5) (λ m. set (clear m) x y true) r tt
