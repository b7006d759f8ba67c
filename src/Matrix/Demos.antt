-- ===== src/Matrix/Demos.antt =====
-- The instruments of rust/loa-matrix/src/ht16k33.rs and the commands of rust/loa-matrix/src/main.rs
-- that run them. What is printed, and the clock that bench reads to print, are left out.
use loa.Base.{
  ℕ, zero, suc, ◌+◌, ◌-◌, ◌*◌, ◌/◌, ◌%◌, ◌^◌, max, Bool, true, List, [], ◌∷◌, Option, none, some,
  leb, ◌==◌, if◌then◌else◌,
}
use loa.Base.{set as store}
use loa.Matrix.{Matrix, clear, set, byte, set_all, glyph, columns}
use loa.Matrix.Glyphs.{Glyph, all, breach, attention, invader}
use loa.Matrix.Panel.{
  Effect, Run, ◌▷◌, done, edit, wait, for_each, repeat, flush, brightness, blank, show_for,
  milliseconds, seconds,
}

-- Pixels lit one after another.
unfoldable pub light : List (ℕ × ℕ) → Matrix → Matrix
unfolding set
light [] m = m
light ((x, y) ∷ rest) m = light rest (set m x y true)

-- `for col in 0..8 { self.byte(col * 2, v) }`
unfoldable pub fill_columns : List ℕ → ℕ → Matrix → Matrix
unfolding byte
fill_columns [] v m = m
fill_columns (c ∷ cs) v m = fill_columns cs v (byte m (c * 2) v)

-- Twice the distance of a column or a row from the middle of the panel.
abbrev pub off_middle : ℕ → ℕ
off_middle x = if leb 7 (2 * x) then 2 * x - 7 else 7 - 2 * x

-- The density of the vignette: solid, half, sparse.
unfoldable pub dense : ℕ → ℕ → Bool
dense x y =
    let k = max (off_middle x) (off_middle y) in
    if leb k 3 then true else if k == 5 then (x + y) % 2 == 0 else (x + y) % 4 == 0

unfoldable pub vignette_row : List ℕ → ℕ → Matrix → Matrix
unfolding set dense
vignette_row [] y m = m
vignette_row (x ∷ xs) y m = vignette_row xs y (if dense x y then set m x y true else m)

unfoldable pub vignette_rows : List ℕ → Matrix → Matrix
unfolding vignette_row
vignette_rows [] m = m
vignette_rows (y ∷ ys) m = vignette_rows ys (vignette_row columns y m)

-- The pixels (x, y) of one row.
abbrev pub row_of : List ℕ → ℕ → List (ℕ × ℕ)
row_of [] y = []
row_of (x ∷ xs) y = (x, y) ∷ row_of xs y

abbrev pub corners : List (ℕ × ℕ)
corners = (0, 0) ∷ (0, 7) ∷ (7, 0) ∷ (7, 7) ∷ []

-- What the commands `box` and `diag` light.
abbrev pub outline : List ℕ → List (ℕ × ℕ)
outline [] = []
outline (x ∷ xs) = (x, 0) ∷ (x, 7) ∷ outline xs

abbrev pub sides : List ℕ → List (ℕ × ℕ)
sides [] = []
sides (y ∷ ys) = (0, y) ∷ (7, y) ∷ sides ys

abbrev pub diagonal : List ℕ → List (ℕ × ℕ)
diagonal [] = []
diagonal (i ∷ is) = (i, i) ∷ diagonal is

module _ (accepts : List Effect → List ℕ → Bool) where
  unfoldable pub raw : ℕ → ℕ → ℕ → Run
  unfolding ◌▷◌ clear byte show_for
  raw i v hold = wait (seconds 2) ▷ show_for accepts hold (λ m. byte (clear m) i v)

  unfoldable pub row_sweep : ℕ → ℕ → Run
  unfolding ◌▷◌ for_each repeat clear byte show_for
  row_sweep hold group =
      let first = if group == 2 then 1 else 0 in
      wait (seconds 2)
      ▷ for_each columns (λ i.
        repeat (i + 1)
          (show_for accepts hold (λ m. byte (clear m) (first + i * 2) 255) ▷ wait (hold / 2))
        ▷ wait hold)

  unfoldable pub bit_sweep : ℕ → Run
  unfolding ◌▷◌ for_each repeat clear fill_columns show_for
  bit_sweep hold =
      wait (seconds 2)
      ▷ for_each columns (λ b.
        repeat (b + 1)
          (show_for accepts hold (λ m. fill_columns columns (2 ^ b) (clear m)) ▷ wait (hold / 2))
        ▷ wait hold)

  unfoldable pub flash : Glyph → ℕ → ℕ → Run
  unfolding ◌▷◌ repeat glyph show_for
  flash g on times = repeat times (show_for accepts on (λ m. glyph m g) ▷ wait on)

  unfoldable pub glyph_demo : ℕ → ℕ → Run
  unfolding ◌▷◌ for_each repeat glyph show_for flash
  glyph_demo hold loops =
      wait (seconds 2)
      ▷ repeat loops (for_each all (λ g. show_for accepts hold (λ m. glyph m g) ▷ wait (hold / 3)))
      ▷ flash breach (milliseconds 120) 8
      ▷ flash attention (milliseconds 700) 3
      ▷ show_for accepts (milliseconds 1500) (λ m. glyph m invader)

  unfoldable pub vignette : Run
  unfolding ◌▷◌ for_each brightness clear vignette_rows flush blank
  vignette =
      wait (seconds 2)
      ▷ for_each (2 ∷ 6 ∷ 10 ∷ 15 ∷ []) (λ level.
        brightness accepts level
        ▷ edit (λ m. vignette_rows columns (clear m))
        ▷ flush accepts
        ▷ wait (milliseconds 2500))
      ▷ brightness accepts 2
      ▷ blank accepts

  -- `for i in 0..frames { self.frame[0] = (i & 0xFF) as u8; self.flush()?; }`
  unfoldable pub pushes : ℕ → ℕ → Run
  unfolding ◌▷◌ flush
  pushes zero i = done
  pushes (suc n) i =
      edit (λ m. record m { frame = store m.frame 0 (i % 256) }) ▷ flush accepts ▷ pushes n (i + 1)

  unfoldable pub bench : ℕ → Run
  unfolding ◌▷◌ light pushes
  bench frames = edit (light (diagonal columns)) ▷ pushes frames 0

  unfoldable pub step : ℕ → ℕ → ℕ → ℕ → Run
  unfolding ◌▷◌ repeat brightness clear set_all show_for
  step on off cycles bright =
      brightness accepts bright
      ▷ wait (seconds 2)
      ▷ repeat cycles (show_for accepts on (λ m. set_all (clear m) true) ▷ wait off)

  unfoldable pub walk : ℕ → ℕ → Run
  unfolding ◌▷◌ for_each repeat clear light flush blank
  walk hold loops =
      wait (seconds 2)
      ▷ repeat loops (
          for_each columns
            (λ y. edit (λ m. light (row_of columns y) (clear m)) ▷ flush accepts ▷ wait hold)
          ▷ blank accepts
          ▷ wait (seconds 3))

  unfoldable pub corner_blinks : ℕ → List (ℕ × ℕ) → ℕ → Run
  unfolding ◌▷◌ repeat clear light show_for
  corner_blinks hold [] i = done
  corner_blinks hold (c ∷ cs) i =
      repeat (i + 1) (show_for accepts hold (λ m. light (c ∷ []) (clear m)) ▷ wait (hold / 3))
      ▷ wait (hold / 2)
      ▷ corner_blinks hold cs (i + 1)

  unfoldable pub corner_test : ℕ → ℕ → Run
  unfolding ◌▷◌ repeat clear light show_for corner_blinks
  corner_test hold loops =
      wait (seconds 2)
      ▷ repeat loops (
          corner_blinks hold corners 0
          ▷ show_for accepts (hold * 2) (λ m. light corners (clear m))
          ▷ wait (hold * 4))

-- The first word of the command line, with the words that the command reads after it. `alert` is a
-- loop of its own.
pub data Command : Type 0 where
  corner : Command
  rows : ℕ → Command
  bits : Command
  walk_line : Command
  load_step : Command
  fill : Command
  off : Command
  box : Command
  diag : Command
  bench_frames : Command
  vignette_demo : Command
  demo : Command
  named : Glyph → Command
  raw_byte : ℕ → ℕ → Command
  pixel : ℕ → ℕ → Command

-- `--loops`: three without it, and one at least.
unfoldable pub loops_of : Option ℕ → ℕ
loops_of none = 3
loops_of (some n) = max n 1

-- The `match cmd` of main.
unfoldable pub perform :
    (List Effect → List ℕ → Bool) → (loops : Option ℕ) → (brightness : ℕ) → Command → Run
unfolding loops_of raw row_sweep bit_sweep glyph_demo vignette bench step walk corner_test light
    glyph show_for set_all clear blank
perform accepts loops bright corner = corner_test accepts (milliseconds 450) (loops_of loops)
perform accepts loops bright (rows group) = row_sweep accepts (milliseconds 350) group
perform accepts loops bright bits = bit_sweep accepts (milliseconds 350)
perform accepts loops bright walk_line = walk accepts (milliseconds 1200) (loops_of loops)
perform accepts loops bright load_step =
    step accepts (milliseconds 3000) (milliseconds 3000) 5 (if bright == 2 then 15 else bright)
perform accepts loops bright fill = show_for accepts (seconds 5) (λ m. set_all m true)
perform accepts loops bright off = blank accepts
perform accepts loops bright box =
    show_for accepts (seconds 5) (λ m. light (sides columns) (light (outline columns) (clear m)))
perform accepts loops bright diag =
    show_for accepts (seconds 5) (λ m. light (diagonal columns) (clear m))
perform accepts loops bright bench_frames = bench accepts 500
perform accepts loops bright vignette_demo = vignette accepts
perform accepts loops bright demo = glyph_demo accepts (milliseconds 2500) (loops_of loops)
perform accepts loops bright (named g) = show_for accepts (seconds 6) (λ m. glyph m g)
perform accepts loops bright (raw_byte i v) = raw accepts i v (seconds 4)
perform accepts loops bright (pixel x y) =
    show_for accepts (seconds 5) (λ m. set (clear m) x y true)
