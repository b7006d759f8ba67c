-- ===== src/Weather/Examples.antt =====
-- The weather daemon on concrete pulses, words and measurements.
use loa.Base.{
  ℕ, ◌+◌, ◌%◌, ◌-◌, ◌*◌, ◌≡◌, refl, none, some, List, [], ◌∷◌, ◌++◌, map, replicate, length,
  if◌then◌else◌, arith,
}
use loa.Base.Int.{ℤ, pos, negsuc, ◌+ℤ◌, ◌*ℤ◌, ◌-ℤ◌}
use loa.Base.Floats.{fixed_point}
use loa.Weather.Dht.{
  ticks, Frame, frame_of, decode, read, collected, reading, temp_tenths, hum_tenths,
}
use loa.Weather.Dht.Checksum.{DiffersInOne, at_b2, reading-damaged, IsBytes}
use loa.Weather.Dht.Search.{Found, decode-Found, frame_train, IsClean}
use loa.Weather.Dht.Reads.{IsRoom, Pulse, width, edges_of, strays_of, read-train, ticks-silent}
use loa.Weather.Baro.{
  Cal, fdiv, compensate, floor_by, b5_of, b3_of, b4_of, quotient, corrected, ◌>>ℤ◌,
}
use loa.Weather.Baro.Division.{floor_div, divides, fdiv-floor_div}
use loa.Weather.Air.{empty}
use loa.Weather.Air.Shown.{Measured, frame, pressure, both, IsShown, both-IsShown}
use loa.Cortex.{new}

-- A zero is 27 us wide, a one 70 us, with a jitter.
abbrev widths : ℕ → ℕ → ℤ
widths bit i = pos (27000 + bit * 43000 + i % 50 * 10)

abbrev room : Frame
room = record { b0 = 45; b1 = 3; b2 = 21; b3 = 7; b4 = 76 }

room-IsBytes : IsBytes room
room-IsBytes = record {
  b0 = omega arith;
  b1 = omega arith;
  b2 = omega arith;
  b3 = omega arith;
  b4 = omega arith;
}

room-IsRoom : IsRoom room
room-IsRoom = record { bytes = room-IsBytes; sum = refl; temp = omega arith; hum = omega arith }

widths-IsClean : IsClean widths
widths-IsClean i = (ground arith, ground arith)

abbrev train : List ℤ
train = frame_train widths room []

abbrev pulses : List Pulse
pulses = map (λ w. (pos 0, w)) train

pulses_of_train : map width pulses ≡ frame_train widths room []
unfolding ◌-ℤ◌
pulses_of_train = refl

read-train_example :
    read 3 (collected (strays_of (pos 5 ∷ []) ++ edges_of pulses))
    ≡ (0, some (temp_tenths room, hum_tenths room))
read-train_example =
    read-train widths widths-IsClean room [] (pos 5 ∷ []) pulses 3 room-IsRoom pulses_of_train

decode-Found_example : Found (length train + 1 - 40) train (decode train)
decode-Found_example = decode-Found train

-- The same train with 23 for the degrees.
abbrev hotter : List ℤ
hotter = frame_train widths (record room { b2 = 23 }) []

train_reads : reading (frame_of train) ≡ some (217, 453)
unfolding reading frame_of
train_reads = refl

hotter-DiffersInOne : DiffersInOne (frame_of train) (frame_of hotter)
unfolding frame_of
hotter-DiffersInOne = at_b2 refl refl (λ e. omega arith) refl refl

reading-damaged_example : reading (frame_of hotter) ≡ none
reading-damaged_example = reading-damaged train hotter train_reads hotter-DiffersInOne

abbrev readings : List (Measured ℤ)
readings =
    frame (pos 21000) (pos 45000) (pos 100)
    ∷ frame (pos 21030) (pos 46000) (pos 105)
    ∷ pressure (pos 22000) (pos 1013000) (pos 106)
    ∷ []

both-IsShown_example :
    let (a, cx) = both (empty, new) readings in
    IsShown a.temp_c cx.st.temp_c
    × IsShown a.hum_pct cx.st.hum_pct
    × IsShown a.pressure_hpa cx.st.pressure_hpa
both-IsShown_example = both-IsShown readings

-- The words of one real chip.
abbrev chip : Cal
chip = record {
  ac1 = pos 8687;
  ac2 = negsuc 1182;
  ac3 = negsuc 14303;
  ac4 = pos 33899;
  ac5 = pos 25081;
  ac6 = pos 20813;
  b1 = pos 6515;
  b2 = pos 47;
  mb = negsuc 32767;
  mc = negsuc 11785;
  md = pos 2771;
}

chip_at_23_degrees : compensate chip (pos 29065) (pos 43571) ≡ some (pos 229, pos 102276)
unfolding compensate b5_of b3_of b4_of quotient corrected fdiv floor_by ◌>>ℤ◌ ◌+ℤ◌ ◌-ℤ◌ ◌*ℤ◌
chip_at_23_degrees = refl

chip_below_zero : compensate chip (pos 25000) (pos 36000) ≡ some (negsuc 51, pos 73331)
unfolding compensate b5_of b3_of b4_of quotient corrected fdiv floor_by ◌>>ℤ◌ ◌+ℤ◌ ◌-ℤ◌ ◌*ℤ◌
chip_below_zero = refl

fdiv-floor_div_example :
    (fdiv (negsuc 6) (pos 2) ≡ some (floor_div (negsuc 6) (pos 2)))
    × (fdiv (negsuc 6) (negsuc 1)
        ≡ some (
            if divides 2 (negsuc 6)
            then floor_div (negsuc 6) (negsuc 1)
            else floor_div (negsuc 6) (negsuc 1) +ℤ pos 1))
fdiv-floor_div_example = fdiv-floor_div (negsuc 6) 1

abbrev dead_chip : Cal
dead_chip = record chip { ac5 = pos 0; md = pos 0 }

ticks-silent_example : ticks 0 (replicate 3 []) ≡ (0, 3)
ticks-silent_example = ticks-silent 3
