-- ===== src/Ring/Decode.antt =====
-- What the strip reads of the SPI bytes of crates/loa-ring/src/encode.rs: an independent decoder.
use loa.Base.{
  ℕ, zero, suc, ◌+◌, ◌*◌, ◌/◌, ◌%◌, ◌^◌, ◌<◌, ◌≡◌, refl, List, [], ◌∷◌, ◌++◌, ◌==◌, length, take,
  drop, replicate, if◌then◌else◌, arith, All, drop-append_self, length-append,
}
use loa.Ring.Encode.{
  leds, latch, one_code, ws_bit, ws_bits, ws_byte, encode_pixels, encode_frame, show, written,
}

-- A byte off the wire: the codes, the highest bit first; anything but a one is a zero.
unfoldable pub read_bits : ℕ → List ℕ → ℕ
read_bits acc [] = acc
read_bits acc (c ∷ cs) = read_bits (acc * 2 + (if c == one_code then 1 else 0)) cs

unfoldable pub read_byte : List ℕ → ℕ
unfolding read_bits
read_byte cs = read_bits 0 cs

-- `n` pixels, green, red, blue, as red, green, blue.
unfoldable pub read_pixels : ℕ → List ℕ → List ℕ
unfolding read_byte
read_pixels zero cs = []
read_pixels (suc n) cs =
    read_byte (take 8 (drop 8 cs))
    ∷ read_byte (take 8 cs)
    ∷ read_byte (take 8 (drop 16 cs))
    ∷ read_pixels n (drop 24 cs)

abbrev pub IsByte : ℕ → Type 0
IsByte v = v < 256

-- The bit that a code stands for.
bit_value : (v n : ℕ) → (if ws_bit v n == one_code then 1 else 0) ≡ v / 2 ^ n % 2
unfolding ws_bit
bit_value v n = ground arith

read_byte-ws_byte : (v : ℕ) → IsByte v → read_byte (ws_byte v) ≡ v
unfolding read_byte read_bits ws_byte ws_bits
read_byte-ws_byte v h = simp bit_value (omega arith)

abbrev pub Pixel : Type 0
Pixel = ℕ × ℕ × ℕ

-- The bytes of a list of pixels, as the renderer lays them out.
abbrev pub rgb_of : List Pixel → List ℕ
rgb_of [] = []
rgb_of ((r, g, b) ∷ px) = r ∷ g ∷ b ∷ rgb_of px

abbrev pub IsColour : Pixel → Type 0
IsColour (r, g, b) = IsByte r × IsByte g × IsByte b

same_pixel :
    {a b c a' b' c' : ℕ} {t t' : List ℕ}
    → a ≡ a'
    → b ≡ b'
    → c ≡ c'
    → t ≡ t'
    → a ∷ b ∷ c ∷ t ≡ a' ∷ b' ∷ c' ∷ t'
same_pixel ea eb ec et = cc

read_pixels-encode :
    (px : List Pixel) (rest : List ℕ)
    → All IsColour px
    → read_pixels (length px) (encode_pixels (rgb_of px) ++ rest) ≡ rgb_of px
unfolding read_pixels encode_pixels
read_pixels-encode [] rest h = refl
read_pixels-encode ((r, g, b) ∷ px) rest ((hr, hg, hb), h) =
    same_pixel (read_byte-ws_byte r hr) (read_byte-ws_byte g hg) (read_byte-ws_byte b hb)
      (read_pixels-encode px rest h)

length-rgb_of : (px : List Pixel) → length (rgb_of px) ≡ length px * 3
length-rgb_of [] = refl
length-rgb_of ((r, g, b) ∷ px) = omega (arith, length-rgb_of px)

length-encode_pixels : (px : List Pixel) → length (encode_pixels (rgb_of px)) ≡ length px * 24
unfolding encode_pixels
length-encode_pixels [] = refl
length-encode_pixels ((r, g, b) ∷ px) = omega (arith, length-encode_pixels px)

-- A full frame is written as 600 bytes: 576 that the strip reads as the 24 colours that were shown,
-- red, green and blue in their places, and 24 zeros for the latch.
pub show_lem :
    (px : List Pixel)
    → length px ≡ leds
    → All IsColour px
    → (buf : List ℕ) × (show (rgb_of px) ≡ written buf)
      × (length buf ≡ 600)
      × (read_pixels leds buf ≡ rgb_of px)
      × (drop 576 buf ≡ replicate latch 0)
unfolding show encode_frame
show_lem px n h =
    let body : List ℕ = encode_pixels (rgb_of px) in
    let size : length body ≡ 576 = omega (arith, length-encode_pixels px) in
    (
      body ++ replicate latch 0,
      ground (arith, length-rgb_of px),
      omega (arith, size, length-append body (replicate latch 0)),
      rw (← n) (read_pixels-encode px (replicate latch 0) h),
      rw (← size) (drop-append_self body (replicate latch 0)),
    )
