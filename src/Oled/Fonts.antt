-- ===== src/Oled/Fonts.antt =====
-- crates/loa-oled/src/fonts.rs: the lookup of a glyph, and the text of crates/loa-oled/src/frame.rs.
-- A character is its code point.
mod Small
mod Amiga
mod Topaz
use loa.Base.{
  ℕ, zero, suc, ◌+◌, ◌-◌, ◌*◌, ◌^◌, Bool, true, false, not, ◌&&◌, Option, none, some, List, [], ◌∷◌,
  ltb, leb, ◌==◌, get_or, length, bit_and, if◌then◌else◌,
}
use loa.Base.Int.{ℤ, pos, ◌+ℤ◌}
use loa.Oled.{Frame, px}
use Small.{font_5x7, font_3x5}
use Amiga.{amiga_8, amiga_10}
use Topaz.{topaz}

-- `to_ascii_uppercase`
abbrev pub to_upper : ℕ → ℕ
to_upper c = if leb 97 c && leb c 122 then c - 32 else c

unfoldable pub g5x7 : ℕ → List ℕ
g5x7 ch = let c = to_upper ch in get_or font_5x7 (if ltb c 128 then c else 32) []

unfoldable pub g3x5 : ℕ → List ℕ
g3x5 ch = let c = to_upper ch in get_or font_3x5 (if ltb c 128 then c else 32) []

unfoldable pub gamiga8 : ℕ → ℕ × List ℕ
gamiga8 i = get_or amiga_8 (if leb 32 i && ltb i 127 then i - 32 else 0) (0, [])

unfoldable pub gamiga10 : ℕ → ℕ × List ℕ
gamiga10 i = get_or amiga_10 (if leb 32 i && ltb i 127 then i - 32 else 0) (0, [])

abbrev pub find_topaz : List (ℕ × ℕ × List ℕ) → ℕ → Option (ℕ × List ℕ)
find_topaz [] c = none
find_topaz ((k, w, r) ∷ rest) c =
    let later = find_topaz rest c in if k == c then some (w, r) else later

abbrev pub or_first : Option (ℕ × List ℕ) → ℕ × ℕ × List ℕ → ℕ × List ℕ
or_first (some g) first = g
or_first none (k, w, r) = (w, r)

unfoldable pub gtopaz : ℕ → ℕ × List ℕ
gtopaz ch = or_first (find_topaz topaz (to_upper ch)) (get_or topaz 0 (32, 0, []))

-- `for cy in 0..rows { if col & (1 << cy) != 0 { self.px(x, y + cy, on) } }`, from row cy on.
unfoldable pub draw_column : Frame → ℤ → ℤ → ℕ → ℕ → ℕ → Bool → Frame
unfolding px
draw_column buf x y col zero cy on = buf
draw_column buf x y col (suc rows) cy on =
    let drawn = if not (bit_and col (2 ^ cy) == 0) then px buf x (y +ℤ pos cy) on else buf in
    draw_column drawn x y col rows (suc cy) on

unfoldable pub draw_glyph : Frame → ℤ → ℤ → List ℕ → ℕ → Bool → Frame
unfolding draw_column
draw_glyph buf x y [] rows on = buf
draw_glyph buf x y (col ∷ cols) rows on =
    draw_glyph (draw_column buf x y col rows 0 on) (x +ℤ pos 1) y cols rows on

unfoldable pub text : Frame → ℤ → ℤ → List ℕ → Bool → Frame
unfolding draw_glyph g5x7
text buf x y [] on = buf
text buf x y (ch ∷ s) on = text (draw_glyph buf x y (g5x7 ch) 7 on) (x +ℤ pos 6) y s on

unfoldable pub text3x5 : Frame → ℤ → ℤ → List ℕ → Bool → Frame
unfolding draw_glyph g3x5
text3x5 buf x y [] on = buf
text3x5 buf x y (ch ∷ s) on = text3x5 (draw_glyph buf x y (g3x5 ch) 5 on) (x +ℤ pos 4) y s on

abbrev pub text_width : List ℕ → ℕ
text_width s = length s * 6

abbrev pub text3x5_width : List ℕ → ℕ
text3x5_width s = length s * 4
