-- ===== src/Weather/Dht.antt =====
-- crates/loa-weather/src/dht.rs: pairing edges, and the search for a frame with a valid checksum.
-- A temperature or a humidity is held in tenths: the f64 that the code builds, `b + c / 10.0` from
-- two bytes, lies on the same side of 80.0 and of 100.0 as the exact sum of tenths.
pub mod Checksum
pub mod Search
pub mod Reads
use loa.Base.{
  ℕ, zero, suc, ◌+◌, ◌-◌, ◌*◌, ◌%◌, ◌^◌, Bool, true, false, ◌&&◌, ◌||◌, Option, none, some, List,
  [], ◌∷◌, ◌==◌, leb, ltb, length, take, drop, if◌then◌else◌,
}
use loa.Base.Int.{ℤ, pos, ◌-ℤ◌, ltb_ℤ}

abbrev pub dht_one_ns : ℤ
dht_one_ns = pos 60000

-- Five bytes: humidity and its tenths, temperature and its tenths, and the checksum.
pub record Frame : Type 0 where
  pub b0 : ℕ
  pub b1 : ℕ
  pub b2 : ℕ
  pub b3 : ℕ
  pub b4 : ℕ

abbrev pub width_bit : ℤ → ℕ
width_bit p = if ltb_ℤ dht_one_ns p then 1 else 0

-- `v = (v << 1) | bit`, over the widths of one byte.
unfoldable pub shift_in : ℕ → List ℤ → ℕ
shift_in v [] = v
shift_in v (p ∷ ps) = shift_in (v * 2 + width_bit p) ps

-- Byte i of a window: `v as u8`.
unfoldable pub byte_at : List ℤ → ℕ → ℕ
unfolding shift_in
byte_at win i = shift_in 0 (take 8 (drop (i * 8) win)) % 256

unfoldable pub frame_of : List ℤ → Frame
unfolding byte_at
frame_of win = record {
  b0 = byte_at win 0;
  b1 = byte_at win 1;
  b2 = byte_at win 2;
  b3 = byte_at win 3;
  b4 = byte_at win 4;
}

abbrev pub checksum : Frame → ℕ
checksum b = (b.b0 + b.b1 + b.b2 + b.b3) % 256

abbrev pub hum_tenths : Frame → ℕ
hum_tenths b = b.b0 * 10 + b.b1

abbrev pub temp_tenths : Frame → ℕ
temp_tenths b = b.b2 * 10 + b.b3

-- The gate, -40.0 to 80.0 and 0.0 to 100.0: no byte is negative, so the lower ends always hold.
unfoldable pub reading : Frame → Option (ℕ × ℕ)
reading b =
    if checksum b == b.b4
    then (if leb (temp_tenths b) 800 && leb (hum_tenths b) 1000
        then some (temp_tenths b, hum_tenths b)
        else none)
    else none

-- The loop over the alignments, `n` of them left, with the widths from the current one on.
unfoldable pub decode_from : ℕ → List ℤ → Option (ℕ × ℕ)
decode_from zero ps = none
decode_from (suc n) ps =
    let rest = decode_from n (drop 1 ps) in
    elim (reading (frame_of (take 40 ps))) [ none ↦ rest | some v ↦ some v ]

unfoldable pub decode : List ℤ → Option (ℕ × ℕ)
unfolding decode_from frame_of reading
decode ps = if ltb (length ps) 40 then none else decode_from (suc (length ps - 40)) ps

-- Rising to falling, from stamps: an edge that is not rising is skipped.
unfoldable pub highs_from_edges : List (Bool × ℤ) → List ℤ
highs_from_edges ((true, rise) ∷ (_, fall) ∷ rest) = (fall -ℤ rise) ∷ highs_from_edges rest
highs_from_edges ((false, _) ∷ next ∷ rest) = highs_from_edges (next ∷ rest)
highs_from_edges _ = []

-- Dht::read, given what the collection of pulses returned. `fails` is a u32.
unfoldable pub read : ℕ → Option (List ℤ) → ℕ × Option (ℕ × ℕ)
read fails none = (fails, none)
read fails (some []) = ((fails + 1) % 2 ^ 32, none)
read fails (some (p ∷ ps)) = elim (decode (p ∷ ps)) [
  | some v ↦ (0, some v)
  | none ↦ ((fails + 1) % 2 ^ 32, none)
]

-- The end of `collect`: no edge is no train.
unfoldable pub collected : List (Bool × ℤ) → Option (List ℤ)
collected [] = none
collected (e ∷ es) = some (highs_from_edges (e ∷ es))

-- crates/loa-weather/src/main.rs: is the failed read of a tick logged?
unfoldable pub logs_failure : ℕ × Option (ℕ × ℕ) → Bool
logs_failure (fails, some v) = false
logs_failure (fails, none) = fails == 1 || fails % 10 == 0

-- The ticks over trains of edges: what `fails` ends as, and how many failures were logged.
unfoldable pub ticks : ℕ → List (List (Bool × ℤ)) → ℕ × ℕ
unfolding read collected logs_failure
ticks fails [] = (fails, 0)
ticks fails (edges ∷ rest) =
    let (fails', v) = read fails (collected edges) in
    let (last, logged) = ticks fails' rest in
    (last, logged + (if logs_failure (fails', v) then 1 else 0))
