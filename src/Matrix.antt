-- ===== src/Matrix.antt =====
-- rust/loa-matrix/src/ht16k33.rs: the display memory of the 8x8 panel, its wiring and its rotations.
pub mod Glyphs
pub mod Panel
pub mod Demos
pub mod Rules
pub mod Dark
pub mod Wired
pub mod Turns
pub mod Alert
pub mod Feed
pub mod Steady
mod Examples
use loa.Base.{
  ℕ, zero, suc, ◌+◌, ◌-◌, ◌*◌, ◌/◌, ◌%◌, ◌^◌, Bool, true, false, not, ◌||◌, List, [], ◌∷◌, ltb,
  ◌==◌, get_or, replicate, bit_and, if◌then◌else◌,
}
use loa.Base.{set as store}
use loa.Base.Bits.{with_bit}
use Glyphs.{Glyph}

abbrev pub frame_len : ℕ
frame_len = 16

-- The byte of column x, and the number of row y's bit in it.
unfoldable pub ram : ℕ → ℕ → ℕ × ℕ
ram x y = (2 * (7 - x), (y + 7) % 8)

-- `frame` is the display memory as the host believes it to be; `rotation` is in degrees.
pub record Matrix : Type 0 where
  pub frame : List ℕ
  pub rotation : ℕ  -- u16

unfoldable pub clear : Matrix → Matrix
clear m = record m { frame = replicate frame_len 0 }

-- Clockwise, from where a picture is drawn to where it goes.
abbrev pub rotate_by : ℕ → ℕ → ℕ → ℕ × ℕ
rotate_by degrees x y =
    if degrees == 90
    then (7 - y, x)
    else if degrees == 180
    then (7 - x, 7 - y)
    else if degrees == 270
    then (y, 7 - x)
    else (x, y)

unfoldable pub rotate : Matrix → ℕ → ℕ → ℕ × ℕ
rotate m x y = rotate_by (m.rotation % 360) x y

-- `frame[byte] |= bit`, and `&= !bit`
unfoldable pub write_at : Matrix → ℕ × ℕ → Bool → Matrix
unfolding with_bit
write_at m (byte, k) on = record m {
  frame = store m.frame byte (with_bit (get_or m.frame byte 0) k on);
}

-- A pixel outside the panel is dropped.
unfoldable pub set : Matrix → ℕ → ℕ → Bool → Matrix
unfolding ram rotate write_at
set m x y on =
    if ltb 7 x || ltb 7 y then m else let (a, b) = rotate m x y in write_at m (ram a b) on

-- One byte of the memory, past the coordinates.
unfoldable pub byte : Matrix → ℕ → ℕ → Matrix
byte m i v = if ltb i frame_len then record m { frame = store m.frame i v } else m

-- `for y in 0..8 { self.frame[y * 2] = … }`
abbrev pub fill_even : ℕ → List ℕ → ℕ → List ℕ
fill_even zero frame v = frame
fill_even (suc n) frame v = store (fill_even n frame v) (n * 2) v

unfoldable pub set_all : Matrix → Bool → Matrix
set_all m on = record m { frame = fill_even 8 m.frame (if on then 255 else 0) }

-- Is column x of a row drawn? The high bit is the left column.
unfoldable pub drawn : ℕ → ℕ → Bool
drawn row x = not (bit_and row (128 / 2 ^ x) == 0)

unfoldable pub draw_pixel : Matrix → ℕ → ℕ → ℕ → Matrix
unfolding set drawn
draw_pixel m row x y = if drawn row x then set m x y true else m

unfoldable pub draw_row : Matrix → ℕ → ℕ → List ℕ → Matrix
unfolding draw_pixel
draw_row m row y [] = m
draw_row m row y (x ∷ xs) = draw_row (draw_pixel m row x y) row y xs

abbrev pub columns : List ℕ
columns = 0 ∷ 1 ∷ 2 ∷ 3 ∷ 4 ∷ 5 ∷ 6 ∷ 7 ∷ []

unfoldable pub draw_rows : Matrix → List ℕ → ℕ → Matrix
unfolding draw_row
draw_rows m [] y = m
draw_rows m (row ∷ rows) y = draw_rows (draw_row m row y columns) rows (suc y)

unfoldable pub glyph : Matrix → Glyph → Matrix
unfolding clear draw_rows
glyph m g = draw_rows (clear m) g.rows 0
