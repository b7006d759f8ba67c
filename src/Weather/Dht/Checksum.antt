-- ===== src/Weather/Dht/Checksum.antt =====
-- The checksum of crates/loa-weather/src/dht.rs on the windows of widths.
use loa.Base.{ℕ, ◌≤◌, ◌<◌, ◌≡◌, ◌≢◌, none, some, List, arith}
use loa.Base.Int.{ℤ}
use loa.Weather.Dht.{Frame, byte_at, frame_of, checksum, hum_tenths, temp_tenths, reading}

-- Every byte of a window is a byte.
byte_at-lt : (win : List ℤ) (i : ℕ) → byte_at win i < 256
unfolding byte_at
byte_at-lt win i = omega arith

pub record IsBytes (b : Frame) : Type 0 where
  pub b0 : b.b0 < 256
  pub b1 : b.b1 < 256
  pub b2 : b.b2 < 256
  pub b3 : b.b3 < 256
  pub b4 : b.b4 < 256

frame_of-IsBytes : (win : List ℤ) → IsBytes (frame_of win)
unfolding frame_of
frame_of-IsBytes win = record {
  b0 = byte_at-lt win 0;
  b1 = byte_at-lt win 1;
  b2 = byte_at-lt win 2;
  b3 = byte_at-lt win 3;
  b4 = byte_at-lt win 4;
}

-- The two frames differ in one byte and agree in the other four.
pub data DiffersInOne (a b : Frame) : Type 0 where
  at_b0 : a.b0 ≢ b.b0 → a.b1 ≡ b.b1 → a.b2 ≡ b.b2 → a.b3 ≡ b.b3 → a.b4 ≡ b.b4 → DiffersInOne a b
  at_b1 : a.b0 ≡ b.b0 → a.b1 ≢ b.b1 → a.b2 ≡ b.b2 → a.b3 ≡ b.b3 → a.b4 ≡ b.b4 → DiffersInOne a b
  at_b2 : a.b0 ≡ b.b0 → a.b1 ≡ b.b1 → a.b2 ≢ b.b2 → a.b3 ≡ b.b3 → a.b4 ≡ b.b4 → DiffersInOne a b
  at_b3 : a.b0 ≡ b.b0 → a.b1 ≡ b.b1 → a.b2 ≡ b.b2 → a.b3 ≢ b.b3 → a.b4 ≡ b.b4 → DiffersInOne a b
  at_b4 : a.b0 ≡ b.b0 → a.b1 ≡ b.b1 → a.b2 ≡ b.b2 → a.b3 ≡ b.b3 → a.b4 ≢ b.b4 → DiffersInOne a b

checksum_differs :
    (a b : Frame) → IsBytes a → IsBytes b → DiffersInOne a b → checksum a ≡ a.b4 → checksum b ≢ b.b4
checksum_differs a b ha hb (at_b0 d e1 e2 e3 e4) s = omega arith
checksum_differs a b ha hb (at_b1 e0 d e2 e3 e4) s = omega arith
checksum_differs a b ha hb (at_b2 e0 e1 d e3 e4) s = omega arith
checksum_differs a b ha hb (at_b3 e0 e1 e2 d e4) s = omega arith
checksum_differs a b ha hb (at_b4 e0 e1 e2 e3 d) s = omega arith

pub reading-some :
    (b : Frame) {v : ℕ × ℕ}
    → reading b ≡ some v
    → (checksum b ≡ b.b4)
      × (v ≡ (temp_tenths b, hum_tenths b))
      × (temp_tenths b ≤ 800)
      × (hum_tenths b ≤ 1000)
unfolding reading
reading-some b h = ground arith

pub reading-none : (b : Frame) → checksum b ≢ b.b4 → reading b ≡ none
unfolding reading
reading-none b h = ground arith

-- If a window reads as a room, no window whose bytes differ from it in exactly one byte reads as
-- anything: damage confined to one byte, the checksum byte included, never gives a wrong reading.
pub reading-damaged :
    (win damaged : List ℤ) {v : ℕ × ℕ}
    → reading (frame_of win) ≡ some v
    → DiffersInOne (frame_of win) (frame_of damaged)
    → reading (frame_of damaged) ≡ none
reading-damaged win damaged h d = reading-none (frame_of damaged) (
    checksum_differs (frame_of win) (frame_of damaged) (frame_of-IsBytes win)
      (frame_of-IsBytes damaged) d (reading-some (frame_of win) h).0)
