-- ===== src/Oled/Screen.antt =====
-- A screen: 1024 bytes, as crates/loa-oled/src/frame.rs and the panel want them. What the pens of
-- the face do to one.
pub mod Boards
pub mod Renders
pub mod Whole
use loa.Base.{
  ℕ, zero, suc, ◌+◌, ◌*◌, ◌/◌, ◌%◌, ◌^◌, ◌<◌, ◌≡◌, refl, sym, ◌∙◌, inl, inr, Bool, true, false, not,
  ◌&&◌, ◌==◌, bit_and, if◌then◌else◌, Option, none, some, List, [], ◌∷◌, All, ltb, length, get_or,
  set, arith, Bool-cases, length-set,
}
use loa.Base.Int.{ℤ, pos, negsuc, ◌+ℤ◌}
use loa.Base.Bits.{with_bit, bit_of}
use loa.Oled.{Frame, width, height, index, px, poke}
use loa.Oled.Pixels.{poke-eq-set}
use loa.Oled.Line.{Aim, Pen, line_from, line, advance, there, aim, set_out, turn_fits, aim_fits}
use loa.Oled.Draw.{
  ◌▷◌, blank, dot, or_same, stroke, each, when_on, numbers, draw_row, draw_rows, place, amiga8,
  topaz,
}
use loa.Oled.Draw
use loa.Oled.Fonts.{draw_column, draw_glyph, text, gamiga8, gtopaz, g5x7}

abbrev pub IsByte : ℕ → Type 0
IsByte b = b < 256

pub record IsScreen (buf : Frame) : Type 0 where
  pub size : length buf ≡ 1024
  pub bytes : All IsByte buf

-- The drawing makes a screen of a screen.
abbrev pub Keeps : Draw.Pen → Type 0
Keeps p = (buf : Frame) → IsScreen buf → IsScreen (p buf)

-- 2 * half, doubled k times.
abbrev doubled : ℕ → ℕ → ℕ
doubled zero half = 2 * half
doubled (suc k) half = 2 * doubled k half

with_bit-lt : (b k half : ℕ) (on : Bool) → b < doubled k half → with_bit b k on < doubled k half
unfolding with_bit
with_bit-lt b zero half true h = omega arith
with_bit-lt b zero half false h = omega arith
with_bit-lt b (suc k) half on h = omega (arith, with_bit-lt (b / 2) k half on (omega arith))

-- A write of one of the eight bits of a byte leaves a byte.
with_bit-IsByte : (k : ℕ) → k < 8 → (b : ℕ) (on : Bool) → IsByte b → IsByte (with_bit b k on)
with_bit-IsByte zero h b on ok = with_bit-lt b 0 128 on ok
with_bit-IsByte (suc zero) h b on ok = with_bit-lt b 1 64 on ok
with_bit-IsByte (suc (suc zero)) h b on ok = with_bit-lt b 2 32 on ok
with_bit-IsByte (suc (suc (suc zero))) h b on ok = with_bit-lt b 3 16 on ok
with_bit-IsByte (suc (suc (suc (suc zero)))) h b on ok = with_bit-lt b 4 8 on ok
with_bit-IsByte (suc (suc (suc (suc (suc zero))))) h b on ok = with_bit-lt b 5 4 on ok
with_bit-IsByte (suc (suc (suc (suc (suc (suc zero)))))) h b on ok = with_bit-lt b 6 2 on ok
with_bit-IsByte (suc (suc (suc (suc (suc (suc (suc zero))))))) h b on ok = with_bit-lt b 7 1 on ok
with_bit-IsByte (suc (suc (suc (suc (suc (suc (suc (suc k)))))))) h b on ok = absurd (omega arith)

pub get_or-All : (xs : List ℕ) (i d : ℕ) → All IsByte xs → IsByte d → IsByte (get_or xs i d)
get_or-All [] i d all h = h
get_or-All (x ∷ xs) zero d all h = all.0
get_or-All (x ∷ xs) (suc i) d all h = get_or-All xs i d all.1 h

set-All : (xs : List ℕ) (i v : ℕ) → All IsByte xs → IsByte v → All IsByte (set xs i v)
set-All [] i v all h = all
set-All (x ∷ xs) zero v all h = (h, all.1)
set-All (x ∷ xs) (suc i) v all h = (all.0, set-All xs i v all.1 h)

pub poke-IsScreen : (i v : ℕ) → i < 1024 → IsByte v → Keeps (λ buf. poke buf i v)
poke-IsScreen i v lt h buf ok =
    rw (poke-eq-set buf i v ok.size lt)
      (record { size = length-set buf i v ∙ ok.size; bytes = set-All buf i v ok.bytes h })

px-IsScreen : (x y : ℤ) (on : Bool) → Keeps (λ buf. px buf x y on)
unfolding px
px-IsScreen (negsuc x) y on buf ok = ok
px-IsScreen (pos x) (negsuc y) on buf ok = ok
px-IsScreen (pos x) (pos y) on buf ok = elim (Bool-cases (ltb x width && ltb y height)) [
  | inl e ↦
      let old = get_or buf (index x y) 0 in
      let byte = get_or-All buf (index x y) 0 ok.bytes (omega arith) in
      rw e (
        poke-IsScreen (index x y) (with_bit old (y % 8) on) (ground (arith, e))
          (with_bit-IsByte (y % 8) (omega arith) old on byte) buf ok)
  | inr e ↦ rw e ok
]

-- A line that was drawn, and one that ran out of fuel.
abbrev Drawn : Option Frame → Type 0
Drawn none = Unit
Drawn (some buf) = IsScreen buf

line_from-Drawn :
    (n : ℕ) (g : Aim) (p : Pen) (on : Bool) (buf : Frame)
    → IsScreen buf
    → Drawn (line_from n g p on buf)
unfolding line_from
line_from-Drawn zero g p on buf ok = tt
line_from-Drawn (suc n) g p on buf ok =
    let drawn = px-IsScreen p.x p.y on buf ok in
    elim (Bool-cases (there g p)) [
      | inl e ↦ rw e drawn
      | inr e ↦ elim (Bool-cases (turn_fits g p)) [
        | inl k ↦ rw (e, k) (line_from-Drawn n g (advance g p) on (px buf p.x p.y on) drawn)
        | inr k ↦ rw (e, k) tt
      ]
    ]

line-Drawn :
    (x0 y0 x1 y1 : ℤ) (on : Bool) (buf : Frame) → IsScreen buf → Drawn (line buf x0 y0 x1 y1 on)
unfolding line
line-Drawn x0 y0 x1 y1 on buf ok =
    let g = aim x0 y0 x1 y1 in
    elim (Bool-cases (aim_fits x0 y0 x1 y1)) [
      | inl e ↦ rw e (line_from-Drawn (suc (g.wide + g.high)) g (set_out g x0 y0) on buf ok)
      | inr e ↦ rw e tt
    ]

or_same-IsScreen :
    (buf : Frame) (o : Option Frame) → IsScreen buf → Drawn o → IsScreen (or_same buf o)
or_same-IsScreen buf none ok drawn = ok
or_same-IsScreen buf (some out) ok drawn = drawn

pub ▷-Keeps : (p q : Draw.Pen) → Keeps p → Keeps q → Keeps (p ▷ q)
unfolding ◌▷◌
▷-Keeps p q hp hq buf ok = hq (p buf) (hp buf ok)

pub blank-Keeps : Keeps blank
blank-Keeps buf ok = ok

pub when_on-Keeps : (b : Bool) (p : Draw.Pen) → Keeps p → Keeps (when_on b p)
when_on-Keeps true p h = h
when_on-Keeps false p h = blank-Keeps

pub each-Keeps {ℓ} :
    {A : Type ℓ} (xs : List A) (body : A → Draw.Pen)
    → ((a : A) → Keeps (body a))
    → Keeps (each xs body)
unfolding each
each-Keeps [] body h = blank-Keeps
each-Keeps (x ∷ xs) body h = ▷-Keeps (body x) (each xs body) (h x) (each-Keeps xs body h)

-- A loop over numbers from a on, for a body that keeps screens at each of them.
pub each_number-Keeps :
    (a n : ℕ) (body : ℕ → Draw.Pen)
    → ((x : ℕ) → x < a + n → Keeps (body x))
    → Keeps (each (numbers a 1 n) body)
unfolding each
each_number-Keeps a zero body h = blank-Keeps
each_number-Keeps a (suc n) body h =
    ▷-Keeps (body a) (each (numbers (a + 1) 1 n) body) (h a (omega arith))
      (each_number-Keeps (a + 1) n body (λ x lt. h x (omega (arith, lt))))

pub dot-Keeps : (x y : ℤ) (on : Bool) → Keeps (dot x y on)
unfolding dot
dot-Keeps x y on = px-IsScreen x y on

pub stroke-Keeps : (x0 y0 x1 y1 : ℤ) (on : Bool) → Keeps (stroke x0 y0 x1 y1 on)
unfolding stroke
stroke-Keeps x0 y0 x1 y1 on buf ok =
    or_same-IsScreen buf (line buf x0 y0 x1 y1 on) ok (line-Drawn x0 y0 x1 y1 on buf ok)

pub ruleset pens = (when_on-Keeps, each-Keeps, dot-Keeps, stroke-Keeps)

draw_row-Keeps : (x y : ℤ) (on : Bool) (mask w : ℕ) → Keeps (draw_row x y on mask w)
unfolding draw_row
draw_row-Keeps x y on mask w buf ok = search pens

draw_rows-Keeps : (x y : ℤ) (on : Bool) (w : ℕ) (rows : List ℕ) → Keeps (draw_rows x y on w rows)
unfolding draw_rows
draw_rows-Keeps x y on w [] = blank-Keeps
draw_rows-Keeps x y on w (mask ∷ rows) =
    ▷-Keeps _ _ (draw_row-Keeps x y on mask w) (draw_rows-Keeps x (y +ℤ pos 1) on w rows)

place-Keeps :
    (look : ℕ → ℕ × List ℕ) (s : List ℕ) (x y : ℤ) (on : Bool) → Keeps (place look s x y on)
unfolding place
place-Keeps look [] x y on = blank-Keeps
place-Keeps look (ch ∷ s) x y on =
    ▷-Keeps _ _ (draw_rows-Keeps x y on (look ch).0 (look ch).1)
      (place-Keeps look s (x +ℤ pos (look ch).0 +ℤ pos 1) y on)

pub amiga8-Keeps : (s : List ℕ) (x y : ℤ) (on : Bool) → Keeps (amiga8 s x y on)
unfolding amiga8
amiga8-Keeps s x y on = place-Keeps gamiga8 s x y on

pub topaz-Keeps : (s : List ℕ) (x y : ℤ) → Keeps (topaz s x y)
unfolding topaz
topaz-Keeps s x y = place-Keeps gtopaz s x y true

if-IsScreen :
    (b : Bool) (buf other : Frame)
    → IsScreen buf
    → IsScreen other
    → IsScreen (if b then buf else other)
if-IsScreen true buf other h k = h
if-IsScreen false buf other h k = k

draw_column-Keeps :
    (x y : ℤ) (col rows cy : ℕ) (on : Bool) → Keeps (λ buf. draw_column buf x y col rows cy on)
unfolding draw_column
draw_column-Keeps x y col zero cy on buf ok = ok
draw_column-Keeps x y col (suc rows) cy on buf ok =
    draw_column-Keeps x y col rows (suc cy) on _ (
      if-IsScreen (not (bit_and col (2 ^ cy) == 0)) _ buf (px-IsScreen x (y +ℤ pos cy) on buf ok)
        ok)

draw_glyph-Keeps :
    (x y : ℤ) (cols : List ℕ) (rows : ℕ) (on : Bool)
    → Keeps (λ buf. draw_glyph buf x y cols rows on)
unfolding draw_glyph
draw_glyph-Keeps x y [] rows on buf ok = ok
draw_glyph-Keeps x y (col ∷ cols) rows on buf ok =
    draw_glyph-Keeps (x +ℤ pos 1) y cols rows on _ (draw_column-Keeps x y col rows 0 on buf ok)

pub text-Keeps : (x y : ℤ) (s : List ℕ) (on : Bool) → Keeps (λ buf. text buf x y s on)
unfolding text
text-Keeps x y [] on buf ok = ok
text-Keeps x y (ch ∷ s) on buf ok =
    text-Keeps (x +ℤ pos 6) y s on _ (draw_glyph-Keeps x y (g5x7 ch) 7 on buf ok)
