-- ===== src/Oled/Draw.antt =====
-- What the pages draw with: crates/loa-oled/src/fonts_draw.rs, the line and the loops over pixels. A
-- text is a list of code points.
use loa.Base.{
  ℕ, zero, suc, ◌+◌, ◌/◌, ◌%◌, ◌^◌, Bool, true, false, not, Option, none, some, List, [], ◌∷◌, ◌++◌,
  ◌==◌, length, get_or, set, replicate, bit_and, if◌then◌else◌,
}
use loa.Base.Int.{ℤ, pos, ◌+ℤ◌}
use loa.Base.Bits.{with_bit, bit}
use loa.Oled.{Frame, px, poke}
use loa.Oled.Line.{line}
use loa.Oled.Fonts.{gamiga8, gamiga10, gtopaz}

-- What a drawing does to the frame.
abbrev pub Pen : Type 0
Pen = Frame → Frame

infixr 20 ◌▷◌
unfoldable pub ◌▷◌ : Pen → Pen → Pen
(p ▷ q) buf = q (p buf)

abbrev pub blank : Pen
blank buf = buf

unfoldable pub dot : ℤ → ℤ → Bool → Pen
unfolding px
dot x y on buf = px buf x y on

-- `frame.buf[i] = v`
unfoldable pub write : ℕ → ℕ → Pen
unfolding poke
write i v buf = poke buf i v

abbrev pub or_same : Frame → Option Frame → Frame
or_same buf none = buf
or_same buf (some drawn) = drawn

-- `frame.line(...)`; a line whose arithmetic overflows is left out.
unfoldable pub stroke : ℤ → ℤ → ℤ → ℤ → Bool → Pen
unfolding line
stroke x0 y0 x1 y1 on buf = or_same buf (line buf x0 y0 x1 y1 on)

-- `for x in xs { … }`
unfoldable pub each {ℓ} : {A : Type ℓ} → List A → (A → Pen) → Pen
unfolding ◌▷◌
each [] body = blank
each (x ∷ xs) body = body x ▷ each xs body

abbrev pub when_on : Bool → Pen → Pen
when_on true p = p
when_on false p = blank

-- `count` numbers from `a` on, `step` apart.
abbrev pub numbers : ℕ → ℕ → ℕ → List ℕ
numbers a step zero = []
numbers a step (suc count) = a ∷ numbers (a + step) step count

abbrev pub span_from : ℤ → ℕ → ℕ → List ℤ
span_from a i zero = []
span_from a i (suc count) = (a +ℤ pos i) ∷ span_from a (suc i) count

-- `a..a + count`
abbrev pub span : ℤ → ℕ → List ℤ
span a count = span_from a 0 count

-- `for b in 0..w { if mask & (1 << b) != 0 { f.px(cx + b, y, on) } }`
unfoldable pub draw_row : ℤ → ℤ → Bool → ℕ → ℕ → Pen
unfolding dot each
draw_row cx y on mask w =
    each (numbers 0 1 w) (λ b. when_on (not (bit_and mask (2 ^ b) == 0)) (dot (cx +ℤ pos b) y on))

unfoldable pub draw_rows : ℤ → ℤ → Bool → ℕ → List ℕ → Pen
unfolding draw_row ◌▷◌
draw_rows cx y on w [] = blank
draw_rows cx y on w (mask ∷ rows) = draw_row cx y on mask w ▷ draw_rows cx (y +ℤ pos 1) on w rows

-- The glyphs of a text, one after the other, with a pixel between them.
unfoldable pub place : (ℕ → ℕ × List ℕ) → List ℕ → ℤ → ℤ → Bool → Pen
unfolding draw_rows ◌▷◌
place look [] cx y on = blank
place look (ch ∷ s) cx y on =
    let glyph = look ch in
    draw_rows cx y on glyph.0 glyph.1 ▷ place look s (cx +ℤ pos glyph.0 +ℤ pos 1) y on

unfoldable pub amiga8_width : List ℕ → ℕ
unfolding gamiga8
amiga8_width [] = 0
amiga8_width (c ∷ s) = (gamiga8 c).0 + 1 + amiga8_width s

unfoldable pub amiga8 : List ℕ → ℤ → ℤ → Bool → Pen
unfolding place gamiga8
amiga8 s x y on = place gamiga8 s x y on

unfoldable pub amiga10 : List ℕ → ℤ → ℤ → Bool → Pen
unfolding place gamiga10
amiga10 s x y on = place gamiga10 s x y on

unfoldable pub topaz : List ℕ → ℤ → ℤ → Pen
unfolding place gtopaz
topaz s x y = place gtopaz s x y true

-- The bits of a row of a glyph, and the pixel behind it.
unfoldable pub row_bits : ℕ → ℕ → List Bool
row_bits mask zero = false ∷ []
row_bits mask (suc w) = not (mask % 2 == 0) ∷ row_bits (mask / 2) w

-- Row r of a text, before it is packed.
unfoldable pub text_bits : List ℕ → ℕ → List Bool
unfolding gtopaz row_bits
text_bits [] r = []
text_bits (ch ∷ s) r =
    let glyph = gtopaz ch in row_bits (get_or glyph.1 r 0) glyph.0 ++ text_bits s r

-- The loop that packs, from bit i on.
unfoldable pub pack_from : ℕ → List Bool → List ℕ → List ℕ
unfolding with_bit
pack_from i [] bytes = bytes
pack_from i (b ∷ bits) bytes =
    let next =
      if b then set bytes (i / 8) (with_bit (get_or bytes (i / 8) 0) (i % 8) true) else bytes in
    pack_from (suc i) bits next

unfoldable pub pack : List Bool → List ℕ
unfolding pack_from
pack bits = pack_from 0 bits (replicate ((length bits + 7) / 8) 0)

abbrev pub packed_rows : List ℕ → List ℕ → List (List ℕ)
packed_rows s [] = []
packed_rows s (r ∷ rs) = pack (text_bits s r) ∷ packed_rows s rs

unfoldable pub topaz_strip : List ℕ → List (List ℕ) × ℕ
unfolding pack text_bits
topaz_strip s = (packed_rows s (numbers 0 1 16), length (text_bits s 0))

unfoldable pub strip_bit : List (List ℕ) → ℕ → ℕ → Bool
unfolding bit
strip_bit rows r sx = bit (get_or (get_or rows r []) (sx / 8) 0) (sx % 8) == 1
