-- ===== src/Weather/Dht/Search.antt =====
-- The search over alignments of crates/loa-weather/src/dht.rs, and the train of widths that carries
-- a frame.
use loa.Base.{
  ℕ, zero, suc, ◌+◌, ◌-◌, ◌/◌, ◌%◌, ◌<◌, ◌≡◌, refl, inl, inr, false, Option, none, some, List, [],
  ◌∷◌, ltb, length, take, drop, arith, Bool-cases, Option-cases,
}
use loa.Base.Int.{ℤ}
use loa.Weather.Dht.{Frame, width_bit, shift_in, byte_at, frame_of, reading, decode_from, decode}
use loa.Weather.Dht.Checksum.{IsBytes}

-- No window that starts before `n` has a reading.
abbrev pub NoneBefore : ℕ → List ℤ → Type 0
NoneBefore zero ps = Unit
NoneBefore (suc n) ps = (reading (frame_of (take 40 ps)) ≡ none) × NoneBefore n (drop 1 ps)

drop-drop : (s : ℕ) (ps : List ℤ) → drop s (drop 1 ps) ≡ drop (suc s) ps
drop-drop zero [] = refl
drop-drop (suc s) [] = refl
drop-drop s (p ∷ ps) = refl

-- The first valid alignment among the next `n`, or that there is none.
abbrev pub Found : ℕ → List ℤ → Option (ℕ × ℕ) → Type 0
Found n ps none = NoneBefore n ps
Found n ps (some v) =
    (s : ℕ) × (s < n) × (reading (frame_of (take 40 (drop s ps))) ≡ some v) × NoneBefore s ps

Found-later :
    (n : ℕ) (ps : List ℤ) (r : Option (ℕ × ℕ))
    → reading (frame_of (take 40 ps)) ≡ none
    → Found n (drop 1 ps) r
    → Found (suc n) ps r
Found-later n ps none e h = (e, h)
Found-later n ps (some v) e (s, lt, here, before) =
    (suc s, omega arith, rw (← drop-drop s ps) here, (e, before))

decode_from-Found : (n : ℕ) (ps : List ℤ) → Found n ps (decode_from n ps)
unfolding decode_from
decode_from-Found zero ps = tt
decode_from-Found (suc n) ps = elim (Option-cases (reading (frame_of (take 40 ps)))) [
  | inl e ↦
      rw (e, decode_from)
        (Found-later n ps (decode_from n (drop 1 ps)) e (decode_from-Found n (drop 1 ps)))
  | inr (v, e) ↦ rw (e, decode_from) (0, omega arith, e, tt)
]

-- What `decode` returns is the reading of the first alignment, among all that leave forty widths,
-- that has one; it returns nothing only if none of them has.
pub decode-Found : (ps : List ℤ) → Found (length ps + 1 - 40) ps (decode ps)
unfolding decode
decode-Found ps = elim (Bool-cases (ltb (length ps) 40)) [
  | inl e ↦ let short : length ps + 1 - 40 ≡ 0 = ground (arith, e) in rw (e, decode) (rw short tt)
  | inr e ↦
      let long : length ps + 1 - 40 ≡ suc (length ps - 40) = ground (arith, e) in
      rw (e, decode) (rw long (decode_from-Found (suc (length ps - 40)) ps))
]

decode_from_here :
    (n : ℕ) (ps : List ℤ) {v : ℕ × ℕ}
    → reading (frame_of (take 40 ps)) ≡ some v
    → decode_from (suc n) ps ≡ some v
unfolding decode_from
decode_from_here n ps e = rw (e, decode_from)

-- A reading at the first alignment is the one that is returned.
pub decode_here :
    (ps : List ℤ) {v : ℕ × ℕ}
    → ltb (length ps) 40 ≡ false
    → reading (frame_of (take 40 ps)) ≡ some v
    → decode ps ≡ some v
unfolding decode
decode_here ps long e = rw (long, decode) (decode_from_here (length ps - 40) ps e)

-- A train of forty widths that carries five bytes, high bit first. `w bit i` is the width of the
-- i-th pulse when it stands for `bit`.
module _ (w : ℕ → ℕ → ℤ) where
  abbrev pub byte_train : ℕ → ℕ → List ℤ → List ℤ
  byte_train i v rest =
      w (v / 128 % 2) i
      ∷ w (v / 64 % 2) (i + 1)
      ∷ w (v / 32 % 2) (i + 2)
      ∷ w (v / 16 % 2) (i + 3)
      ∷ w (v / 8 % 2) (i + 4)
      ∷ w (v / 4 % 2) (i + 5)
      ∷ w (v / 2 % 2) (i + 6)
      ∷ w (v % 2) (i + 7)
      ∷ rest

  abbrev pub frame_train : Frame → List ℤ → List ℤ
  frame_train b rest =
      byte_train 0 b.b0
        (byte_train 8 b.b1 (byte_train 16 b.b2 (byte_train 24 b.b3 (byte_train 32 b.b4 rest))))

  -- A zero is at most 60 us wide, a one is wider, whatever the jitter.
  abbrev pub IsClean : Type 0
  IsClean = (i : ℕ) → (width_bit (w 0 i) ≡ 0) × (width_bit (w 1 i) ≡ 1)

  module _ (clean : IsClean) where
    clean_bit : (bit i : ℕ) → bit < 2 → width_bit (w bit i) ≡ bit
    clean_bit zero i h = (clean i).0
    clean_bit (suc zero) i h = (clean i).1
    clean_bit (suc (suc b)) i h = absurd (omega (arith, h))

    carries : (v k i : ℕ) → width_bit (w (v / k % 2) i) ≡ v / k % 2
    carries v k i = clean_bit (v / k % 2) i (omega arith)

    carries_last : (v i : ℕ) → width_bit (w (v % 2) i) ≡ v % 2
    carries_last v i = clean_bit (v % 2) i (omega arith)

    byte_value : (v i : ℕ) → v < 256 → shift_in 0 (byte_train i v []) % 256 ≡ v
    unfolding shift_in
    byte_value v i h = simp (carries, carries_last) (omega arith)

    pub frame_of-train :
        (b : Frame) (rest : List ℤ) → IsBytes b → frame_of (take 40 (frame_train b rest)) ≡ b
    unfolding frame_of byte_at
    frame_of-train b rest h = λ i. record {
      b0 = byte_value b.b0 0 h.b0 i;
      b1 = byte_value b.b1 8 h.b1 i;
      b2 = byte_value b.b2 16 h.b2 i;
      b3 = byte_value b.b3 24 h.b3 i;
      b4 = byte_value b.b4 32 h.b4 i;
    }
