-- ===== src/Ring/Encode.antt =====
-- crates/loa-ring/src/encode.rs: the WS2812B frame as SPI bytes. A byte is a number below 256.
use loa.Base.{
  ℕ, zero, suc, ◌*◌, ◌/◌, ◌%◌, ◌^◌, List, [], ◌∷◌, ◌++◌, ◌==◌, length, replicate, if◌then◌else◌,
}

abbrev pub leds : ℕ
leds = 24

abbrev pub frame_bytes : ℕ
frame_bytes = leds * 3

abbrev pub latch : ℕ
latch = 24

abbrev pub one_code : ℕ
one_code = 0b1110

abbrev pub zero_code : ℕ
zero_code = 0b1000

-- The code of bit `bit` of a channel value: `if (v >> bit) & 1 == 1 { ONE } else { ZERO }`.
unfoldable pub ws_bit : ℕ → ℕ → ℕ
ws_bit v bit = if v / 2 ^ bit % 2 == 1 then one_code else zero_code

-- The bits below `n`, the highest first: `for bit in (0..n).rev()`.
unfoldable pub ws_bits : ℕ → ℕ → List ℕ
unfolding ws_bit
ws_bits zero v = []
ws_bits (suc n) v = ws_bit v n ∷ ws_bits n v

unfoldable pub ws_byte : ℕ → List ℕ
unfolding ws_bits
ws_byte v = ws_bits 8 v

-- `for px in rgb.chunks_exact(3)`: a rest of one or two bytes is dropped. Green goes first.
unfoldable pub encode_pixels : List ℕ → List ℕ
unfolding ws_byte
encode_pixels (r ∷ g ∷ b ∷ rest) = ws_byte g ++ (ws_byte r ++ (ws_byte b ++ encode_pixels rest))
encode_pixels _ = []

unfoldable pub encode_frame : List ℕ → List ℕ
unfolding encode_pixels
encode_frame rgb = encode_pixels rgb ++ replicate latch 0

-- What `show` does: an error that names the length, or one write to the device.
pub data Shown : Type 0 where
  wrong_length : ℕ → Shown
  written : List ℕ → Shown

unfoldable pub show : List ℕ → Shown
unfolding encode_frame
show rgb =
    if length rgb == frame_bytes then written (encode_frame rgb) else wrong_length (length rgb)

unfoldable pub off : Shown
unfolding show
off = show (replicate frame_bytes 0)
