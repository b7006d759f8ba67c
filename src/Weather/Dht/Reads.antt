-- ===== src/Weather/Dht/Reads.antt =====
-- A whole read of crates/loa-weather/src/dht.rs, from the edges to the reading and the count of
-- failures, and what crates/loa-weather/src/main.rs logs of it.
use loa.Base.{
  ℕ, zero, suc, ◌≤◌, ◌≡◌, refl, ap, Bool, true, false, some, List, [], ◌∷◌, ◌++◌, map, arith,
  replicate, ◌∙◌,
}
use loa.Base.Int.{ℤ, ◌-ℤ◌}
use loa.Weather.Dht.{
  Frame, checksum, hum_tenths, temp_tenths, reading, decode, highs_from_edges, collected, ticks,
  read,
}
use loa.Weather.Dht.Checksum.{IsBytes}
use loa.Weather.Dht.Search.{frame_train, IsClean, frame_of-train, decode_here}

-- The bytes of a room that the gate lets through.
pub record IsRoom (b : Frame) : Type 0 where
  pub bytes : IsBytes b
  pub sum : checksum b ≡ b.b4
  pub temp : temp_tenths b ≤ 800
  pub hum : hum_tenths b ≤ 1000

reading-IsRoom : (b : Frame) → IsRoom b → reading b ≡ some (temp_tenths b, hum_tenths b)
unfolding reading
reading-IsRoom b h = ground arith

-- A high from its rising to its falling stamp.
abbrev pub Pulse : Type 0
Pulse = ℤ × ℤ

abbrev pub width : Pulse → ℤ
width (rise, fall) = fall -ℤ rise

abbrev pub edges_of : List Pulse → List (Bool × ℤ)
edges_of [] = []
edges_of ((rise, fall) ∷ ps) = (true, rise) ∷ (false, fall) ∷ edges_of ps

-- Falling edges that were heard before the first rise.
abbrev pub strays_of : List ℤ → List (Bool × ℤ)
strays_of ts = map (λ t. (false, t)) ts

highs-edges_of : (ps : List Pulse) → highs_from_edges (edges_of ps) ≡ map width ps
unfolding highs_from_edges
highs-edges_of [] = refl
highs-edges_of ((rise, fall) ∷ ps) = ap (λ l. (fall -ℤ rise) ∷ l) (highs-edges_of ps)

highs-stray :
    (t : ℤ) (es : List (Bool × ℤ)) → highs_from_edges ((false, t) ∷ es) ≡ highs_from_edges es
unfolding highs_from_edges
highs-stray t [] = refl
highs-stray t (e ∷ es) = refl

highs-strays :
    (ts : List ℤ) (ps : List Pulse) → highs_from_edges (strays_of ts ++ edges_of ps) ≡ map width ps
highs-strays [] ps = highs-edges_of ps
highs-strays (t ∷ ts) ps = highs-stray t (strays_of ts ++ edges_of ps) ∙ highs-strays ts ps

collected-eq :
    (es : List (Bool × ℤ)) (p : ℤ) (ps : List ℤ)
    → highs_from_edges es ≡ p ∷ ps
    → collected es ≡ some (p ∷ ps)
unfolding collected
collected-eq [] p ps h = unfold highs_from_edges in cc h
collected-eq (e ∷ es) p ps h = ap (λ l. some l) h

read_decoded :
    (fails : ℕ) (p : ℤ) (ps : List ℤ) {v : ℕ × ℕ}
    → decode (p ∷ ps) ≡ some v
    → read fails (some (p ∷ ps)) ≡ (0, some v)
unfolding read
read_decoded fails p ps e = rw (e, read)

module _ (w : ℕ → ℕ → ℤ) (clean : IsClean w) where
  decode-train :
      (b : Frame) (rest : List ℤ)
      → IsRoom b
      → decode (frame_train w b rest) ≡ some (temp_tenths b, hum_tenths b)
  decode-train b rest h =
      decode_here (frame_train w b rest) (ground arith)
        (rw (frame_of-train w clean b rest h.bytes) (reading-IsRoom b h))

  -- The edges of a clean frame of a real room, after any number of stray falling edges and before
  -- any further widths, are read as that room, and the count of failures is cleared.
  pub read-train :
      (b : Frame) (rest : List ℤ) (strays : List ℤ) (ps : List Pulse) (fails : ℕ)
      → IsRoom b
      → map width ps ≡ frame_train w b rest
      → read fails (collected (strays_of strays ++ edges_of ps))
        ≡ (0, some (temp_tenths b, hum_tenths b))
  read-train b rest strays ps fails h e =
      rw (collected-eq (strays_of strays ++ edges_of ps) _ _ (highs-strays strays ps ∙ e))
        (read_decoded fails _ _ (decode-train b rest h))

-- A line that never moves: the failures are not counted, so every tick of it is logged.
pub ticks-silent : (n : ℕ) → ticks 0 (replicate n []) ≡ (0, n)
unfolding ticks
ticks-silent zero = refl
ticks-silent (suc n) = ground (arith, ticks-silent n)
