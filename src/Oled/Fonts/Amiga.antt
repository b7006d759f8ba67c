-- ===== src/Oled/Fonts/Amiga.antt =====
-- The amiga fonts of crates/loa-oled/src/fonts.rs, from the space on: the advance, and the rows.
use loa.Base.{ℕ, List, [], ◌∷◌}

abbrev pub amiga_8 : List (ℕ × List ℕ)
amiga_8 =
    (8, 0 ∷ 0 ∷ 0 ∷ 0 ∷ 0 ∷ 0 ∷ 0 ∷ 0 ∷ [])
    ∷ (8, 3 ∷ 3 ∷ 3 ∷ 3 ∷ 0 ∷ 0 ∷ 3 ∷ 0 ∷ [])
    ∷ (8, 27 ∷ 27 ∷ 0 ∷ 0 ∷ 0 ∷ 0 ∷ 0 ∷ 0 ∷ [])
    ∷ (8, 54 ∷ 54 ∷ 127 ∷ 54 ∷ 127 ∷ 54 ∷ 54 ∷ 0 ∷ [])
    ∷ (8, 12 ∷ 62 ∷ 3 ∷ 30 ∷ 48 ∷ 31 ∷ 12 ∷ 0 ∷ [])
    ∷ (8, 102 ∷ 53 ∷ 27 ∷ 108 ∷ 86 ∷ 51 ∷ 0 ∷ 0 ∷ [])
    ∷ (8, 28 ∷ 54 ∷ 22 ∷ 110 ∷ 59 ∷ 115 ∷ 254 ∷ 0 ∷ [])
    ∷ (8, 6 ∷ 6 ∷ 3 ∷ 0 ∷ 0 ∷ 0 ∷ 0 ∷ 0 ∷ [])
    ∷ (8, 12 ∷ 6 ∷ 3 ∷ 3 ∷ 3 ∷ 6 ∷ 12 ∷ 0 ∷ [])
    ∷ (8, 3 ∷ 6 ∷ 12 ∷ 12 ∷ 12 ∷ 6 ∷ 3 ∷ 0 ∷ [])
    ∷ (8, 102 ∷ 60 ∷ 255 ∷ 60 ∷ 102 ∷ 0 ∷ 0 ∷ 0 ∷ [])
    ∷ (8, 12 ∷ 12 ∷ 63 ∷ 12 ∷ 12 ∷ 0 ∷ 0 ∷ 0 ∷ [])
    ∷ (8, 6 ∷ 6 ∷ 3 ∷ 0 ∷ 0 ∷ 0 ∷ 0 ∷ 0 ∷ [])
    ∷ (8, 63 ∷ 0 ∷ 0 ∷ 0 ∷ 0 ∷ 0 ∷ 0 ∷ 0 ∷ [])
    ∷ (8, 0 ∷ 0 ∷ 0 ∷ 0 ∷ 0 ∷ 24 ∷ 24 ∷ 0 ∷ [])
    ∷ (8, 192 ∷ 96 ∷ 48 ∷ 24 ∷ 12 ∷ 6 ∷ 3 ∷ 0 ∷ [])
    ∷ (8, 30 ∷ 51 ∷ 59 ∷ 63 ∷ 55 ∷ 51 ∷ 30 ∷ 0 ∷ [])
    ∷ (8, 12 ∷ 14 ∷ 15 ∷ 12 ∷ 12 ∷ 12 ∷ 12 ∷ 0 ∷ [])
    ∷ (8, 30 ∷ 51 ∷ 48 ∷ 24 ∷ 12 ∷ 6 ∷ 63 ∷ 0 ∷ [])
    ∷ (8, 30 ∷ 51 ∷ 48 ∷ 28 ∷ 48 ∷ 51 ∷ 30 ∷ 0 ∷ [])
    ∷ (8, 56 ∷ 60 ∷ 54 ∷ 51 ∷ 127 ∷ 48 ∷ 48 ∷ 0 ∷ [])
    ∷ (8, 63 ∷ 3 ∷ 31 ∷ 48 ∷ 48 ∷ 51 ∷ 30 ∷ 0 ∷ [])
    ∷ (8, 28 ∷ 6 ∷ 3 ∷ 31 ∷ 51 ∷ 51 ∷ 30 ∷ 0 ∷ [])
    ∷ (8, 63 ∷ 48 ∷ 48 ∷ 24 ∷ 12 ∷ 12 ∷ 12 ∷ 0 ∷ [])
    ∷ (8, 30 ∷ 51 ∷ 51 ∷ 30 ∷ 51 ∷ 51 ∷ 30 ∷ 0 ∷ [])
    ∷ (8, 30 ∷ 51 ∷ 51 ∷ 62 ∷ 48 ∷ 24 ∷ 14 ∷ 0 ∷ [])
    ∷ (8, 3 ∷ 3 ∷ 0 ∷ 0 ∷ 3 ∷ 3 ∷ 0 ∷ 0 ∷ [])
    ∷ (8, 6 ∷ 6 ∷ 0 ∷ 0 ∷ 6 ∷ 6 ∷ 3 ∷ 0 ∷ [])
    ∷ (8, 48 ∷ 12 ∷ 3 ∷ 12 ∷ 48 ∷ 0 ∷ 0 ∷ 0 ∷ [])
    ∷ (8, 63 ∷ 0 ∷ 63 ∷ 0 ∷ 0 ∷ 0 ∷ 0 ∷ 0 ∷ [])
    ∷ (8, 3 ∷ 12 ∷ 48 ∷ 12 ∷ 3 ∷ 0 ∷ 0 ∷ 0 ∷ [])
    ∷ (8, 30 ∷ 51 ∷ 48 ∷ 24 ∷ 12 ∷ 0 ∷ 12 ∷ 0 ∷ [])
    ∷ (8, 62 ∷ 99 ∷ 123 ∷ 107 ∷ 123 ∷ 3 ∷ 30 ∷ 0 ∷ [])
    ∷ (8, 30 ∷ 51 ∷ 51 ∷ 63 ∷ 51 ∷ 51 ∷ 51 ∷ 0 ∷ [])
    ∷ (8, 31 ∷ 51 ∷ 51 ∷ 31 ∷ 51 ∷ 51 ∷ 31 ∷ 0 ∷ [])
    ∷ (8, 60 ∷ 6 ∷ 3 ∷ 3 ∷ 3 ∷ 6 ∷ 60 ∷ 0 ∷ [])
    ∷ (8, 15 ∷ 27 ∷ 51 ∷ 51 ∷ 51 ∷ 27 ∷ 15 ∷ 0 ∷ [])
    ∷ (8, 63 ∷ 3 ∷ 3 ∷ 15 ∷ 3 ∷ 3 ∷ 63 ∷ 0 ∷ [])
    ∷ (8, 63 ∷ 3 ∷ 3 ∷ 15 ∷ 3 ∷ 3 ∷ 3 ∷ 0 ∷ [])
    ∷ (8, 30 ∷ 51 ∷ 3 ∷ 59 ∷ 51 ∷ 51 ∷ 62 ∷ 0 ∷ [])
    ∷ (8, 51 ∷ 51 ∷ 51 ∷ 63 ∷ 51 ∷ 51 ∷ 51 ∷ 0 ∷ [])
    ∷ (8, 15 ∷ 6 ∷ 6 ∷ 6 ∷ 6 ∷ 6 ∷ 15 ∷ 0 ∷ [])
    ∷ (8, 48 ∷ 48 ∷ 48 ∷ 48 ∷ 48 ∷ 51 ∷ 30 ∷ 0 ∷ [])
    ∷ (8, 99 ∷ 51 ∷ 27 ∷ 15 ∷ 27 ∷ 51 ∷ 99 ∷ 0 ∷ [])
    ∷ (8, 3 ∷ 3 ∷ 3 ∷ 3 ∷ 3 ∷ 3 ∷ 63 ∷ 0 ∷ [])
    ∷ (8, 99 ∷ 119 ∷ 127 ∷ 107 ∷ 99 ∷ 99 ∷ 99 ∷ 0 ∷ [])
    ∷ (8, 99 ∷ 103 ∷ 111 ∷ 123 ∷ 115 ∷ 99 ∷ 99 ∷ 0 ∷ [])
    ∷ (8, 30 ∷ 51 ∷ 51 ∷ 51 ∷ 51 ∷ 51 ∷ 30 ∷ 0 ∷ [])
    ∷ (8, 31 ∷ 51 ∷ 51 ∷ 31 ∷ 3 ∷ 3 ∷ 3 ∷ 0 ∷ [])
    ∷ (8, 30 ∷ 51 ∷ 51 ∷ 51 ∷ 51 ∷ 59 ∷ 126 ∷ 0 ∷ [])
    ∷ (8, 31 ∷ 51 ∷ 51 ∷ 31 ∷ 27 ∷ 51 ∷ 51 ∷ 0 ∷ [])
    ∷ (8, 30 ∷ 51 ∷ 7 ∷ 30 ∷ 56 ∷ 51 ∷ 30 ∷ 0 ∷ [])
    ∷ (8, 63 ∷ 12 ∷ 12 ∷ 12 ∷ 12 ∷ 12 ∷ 12 ∷ 0 ∷ [])
    ∷ (8, 51 ∷ 51 ∷ 51 ∷ 51 ∷ 51 ∷ 51 ∷ 30 ∷ 0 ∷ [])
    ∷ (8, 51 ∷ 51 ∷ 51 ∷ 51 ∷ 30 ∷ 30 ∷ 12 ∷ 0 ∷ [])
    ∷ (8, 99 ∷ 99 ∷ 99 ∷ 107 ∷ 127 ∷ 119 ∷ 99 ∷ 0 ∷ [])
    ∷ (8, 195 ∷ 102 ∷ 60 ∷ 24 ∷ 60 ∷ 102 ∷ 195 ∷ 0 ∷ [])
    ∷ (8, 195 ∷ 102 ∷ 60 ∷ 24 ∷ 24 ∷ 24 ∷ 24 ∷ 0 ∷ [])
    ∷ (8, 127 ∷ 48 ∷ 24 ∷ 12 ∷ 6 ∷ 3 ∷ 127 ∷ 0 ∷ [])
    ∷ (8, 15 ∷ 3 ∷ 3 ∷ 3 ∷ 3 ∷ 3 ∷ 15 ∷ 0 ∷ [])
    ∷ (8, 3 ∷ 6 ∷ 12 ∷ 24 ∷ 48 ∷ 96 ∷ 192 ∷ 0 ∷ [])
    ∷ (8, 15 ∷ 12 ∷ 12 ∷ 12 ∷ 12 ∷ 12 ∷ 15 ∷ 0 ∷ [])
    ∷ (8, 8 ∷ 28 ∷ 54 ∷ 99 ∷ 0 ∷ 0 ∷ 0 ∷ 0 ∷ [])
    ∷ (8, 127 ∷ 0 ∷ 0 ∷ 0 ∷ 0 ∷ 0 ∷ 0 ∷ 0 ∷ [])
    ∷ (8, 3 ∷ 3 ∷ 6 ∷ 0 ∷ 0 ∷ 0 ∷ 0 ∷ 0 ∷ [])
    ∷ (8, 30 ∷ 48 ∷ 62 ∷ 51 ∷ 62 ∷ 0 ∷ 0 ∷ 0 ∷ [])
    ∷ (8, 3 ∷ 3 ∷ 31 ∷ 51 ∷ 51 ∷ 51 ∷ 31 ∷ 0 ∷ [])
    ∷ (8, 30 ∷ 3 ∷ 3 ∷ 3 ∷ 30 ∷ 0 ∷ 0 ∷ 0 ∷ [])
    ∷ (8, 48 ∷ 48 ∷ 62 ∷ 51 ∷ 51 ∷ 51 ∷ 62 ∷ 0 ∷ [])
    ∷ (8, 30 ∷ 51 ∷ 63 ∷ 3 ∷ 30 ∷ 0 ∷ 0 ∷ 0 ∷ [])
    ∷ (8, 28 ∷ 6 ∷ 31 ∷ 6 ∷ 6 ∷ 6 ∷ 6 ∷ 0 ∷ [])
    ∷ (8, 62 ∷ 51 ∷ 51 ∷ 62 ∷ 48 ∷ 30 ∷ 0 ∷ 0 ∷ [])
    ∷ (8, 3 ∷ 3 ∷ 31 ∷ 51 ∷ 51 ∷ 51 ∷ 51 ∷ 0 ∷ [])
    ∷ (8, 3 ∷ 0 ∷ 3 ∷ 3 ∷ 3 ∷ 3 ∷ 6 ∷ 0 ∷ [])
    ∷ (8, 24 ∷ 0 ∷ 24 ∷ 24 ∷ 24 ∷ 24 ∷ 24 ∷ 15 ∷ [])
    ∷ (8, 3 ∷ 3 ∷ 51 ∷ 27 ∷ 15 ∷ 27 ∷ 51 ∷ 0 ∷ [])
    ∷ (8, 3 ∷ 3 ∷ 3 ∷ 3 ∷ 3 ∷ 3 ∷ 6 ∷ 0 ∷ [])
    ∷ (8, 55 ∷ 127 ∷ 107 ∷ 99 ∷ 99 ∷ 0 ∷ 0 ∷ 0 ∷ [])
    ∷ (8, 31 ∷ 51 ∷ 51 ∷ 51 ∷ 51 ∷ 0 ∷ 0 ∷ 0 ∷ [])
    ∷ (8, 30 ∷ 51 ∷ 51 ∷ 51 ∷ 30 ∷ 0 ∷ 0 ∷ 0 ∷ [])
    ∷ (8, 31 ∷ 51 ∷ 51 ∷ 31 ∷ 3 ∷ 3 ∷ 0 ∷ 0 ∷ [])
    ∷ (8, 62 ∷ 51 ∷ 51 ∷ 62 ∷ 48 ∷ 48 ∷ 0 ∷ 0 ∷ [])
    ∷ (8, 31 ∷ 51 ∷ 3 ∷ 3 ∷ 3 ∷ 0 ∷ 0 ∷ 0 ∷ [])
    ∷ (8, 30 ∷ 3 ∷ 30 ∷ 48 ∷ 31 ∷ 0 ∷ 0 ∷ 0 ∷ [])
    ∷ (8, 6 ∷ 6 ∷ 31 ∷ 6 ∷ 6 ∷ 6 ∷ 28 ∷ 0 ∷ [])
    ∷ (8, 51 ∷ 51 ∷ 51 ∷ 51 ∷ 62 ∷ 0 ∷ 0 ∷ 0 ∷ [])
    ∷ (8, 51 ∷ 51 ∷ 51 ∷ 30 ∷ 12 ∷ 0 ∷ 0 ∷ 0 ∷ [])
    ∷ (8, 99 ∷ 99 ∷ 107 ∷ 127 ∷ 54 ∷ 0 ∷ 0 ∷ 0 ∷ [])
    ∷ (8, 99 ∷ 54 ∷ 28 ∷ 54 ∷ 99 ∷ 0 ∷ 0 ∷ 0 ∷ [])
    ∷ (8, 51 ∷ 51 ∷ 51 ∷ 30 ∷ 12 ∷ 6 ∷ 0 ∷ 0 ∷ [])
    ∷ (8, 63 ∷ 24 ∷ 12 ∷ 6 ∷ 63 ∷ 0 ∷ 0 ∷ 0 ∷ [])
    ∷ (8, 56 ∷ 12 ∷ 12 ∷ 7 ∷ 12 ∷ 12 ∷ 56 ∷ 0 ∷ [])
    ∷ (8, 3 ∷ 3 ∷ 3 ∷ 3 ∷ 3 ∷ 3 ∷ 3 ∷ 0 ∷ [])
    ∷ (8, 7 ∷ 12 ∷ 12 ∷ 56 ∷ 12 ∷ 12 ∷ 7 ∷ 0 ∷ [])
    ∷ (8, 142 ∷ 113 ∷ 0 ∷ 0 ∷ 0 ∷ 0 ∷ 0 ∷ 0 ∷ [])
    ∷ []

abbrev pub amiga_10 : List (ℕ × List ℕ)
amiga_10 =
    (10, 0 ∷ 0 ∷ 0 ∷ 0 ∷ 0 ∷ 0 ∷ 0 ∷ 0 ∷ 0 ∷ 0 ∷ [])
    ∷ (10, 6 ∷ 6 ∷ 6 ∷ 6 ∷ 6 ∷ 0 ∷ 0 ∷ 0 ∷ 6 ∷ 0 ∷ [])
    ∷ (10, 55 ∷ 55 ∷ 55 ∷ 0 ∷ 0 ∷ 0 ∷ 0 ∷ 0 ∷ 0 ∷ 0 ∷ [])
    ∷ (10, 14 ∷ 110 ∷ 110 ∷ 511 ∷ 110 ∷ 511 ∷ 110 ∷ 110 ∷ 96 ∷ 0 ∷ [])
    ∷ (10, 24 ∷ 24 ∷ 252 ∷ 7 ∷ 60 ∷ 224 ∷ 224 ∷ 63 ∷ 24 ∷ 0 ∷ [])
    ∷ (10, 462 ∷ 105 ∷ 51 ∷ 472 ∷ 302 ∷ 302 ∷ 99 ∷ 0 ∷ 0 ∷ 0 ∷ [])
    ∷ (10, 56 ∷ 120 ∷ 110 ∷ 46 ∷ 478 ∷ 115 ∷ 227 ∷ 483 ∷ 1022 ∷ 0 ∷ [])
    ∷ (10, 12 ∷ 12 ∷ 12 ∷ 6 ∷ 0 ∷ 0 ∷ 0 ∷ 0 ∷ 0 ∷ 0 ∷ [])
    ∷ (10, 24 ∷ 12 ∷ 6 ∷ 6 ∷ 6 ∷ 6 ∷ 6 ∷ 12 ∷ 24 ∷ 0 ∷ [])
    ∷ (10, 6 ∷ 12 ∷ 24 ∷ 24 ∷ 24 ∷ 24 ∷ 24 ∷ 12 ∷ 6 ∷ 0 ∷ [])
    ∷ (10, 462 ∷ 120 ∷ 1023 ∷ 120 ∷ 120 ∷ 462 ∷ 0 ∷ 0 ∷ 0 ∷ 0 ∷ [])
    ∷ (10, 24 ∷ 24 ∷ 24 ∷ 255 ∷ 24 ∷ 24 ∷ 24 ∷ 0 ∷ 0 ∷ 0 ∷ [])
    ∷ (10, 12 ∷ 12 ∷ 12 ∷ 6 ∷ 0 ∷ 0 ∷ 0 ∷ 0 ∷ 0 ∷ 0 ∷ [])
    ∷ (10, 255 ∷ 0 ∷ 0 ∷ 0 ∷ 0 ∷ 0 ∷ 0 ∷ 0 ∷ 0 ∷ 0 ∷ [])
    ∷ (10, 6 ∷ 6 ∷ 6 ∷ 0 ∷ 0 ∷ 0 ∷ 0 ∷ 0 ∷ 0 ∷ 0 ∷ [])
    ∷ (10, 768 ∷ 448 ∷ 224 ∷ 96 ∷ 48 ∷ 24 ∷ 28 ∷ 14 ∷ 3 ∷ 0 ∷ [])
    ∷ (10, 60 ∷ 231 ∷ 247 ∷ 247 ∷ 255 ∷ 239 ∷ 239 ∷ 231 ∷ 60 ∷ 0 ∷ [])
    ∷ (10, 24 ∷ 28 ∷ 28 ∷ 31 ∷ 24 ∷ 24 ∷ 24 ∷ 24 ∷ 24 ∷ 0 ∷ [])
    ∷ (10, 60 ∷ 231 ∷ 231 ∷ 224 ∷ 48 ∷ 24 ∷ 28 ∷ 12 ∷ 255 ∷ 0 ∷ [])
    ∷ (10, 60 ∷ 231 ∷ 231 ∷ 224 ∷ 56 ∷ 224 ∷ 224 ∷ 231 ∷ 60 ∷ 0 ∷ [])
    ∷ (10, 112 ∷ 120 ∷ 108 ∷ 110 ∷ 99 ∷ 511 ∷ 96 ∷ 96 ∷ 96 ∷ 0 ∷ [])
    ∷ (10, 255 ∷ 7 ∷ 7 ∷ 63 ∷ 224 ∷ 224 ∷ 224 ∷ 231 ∷ 60 ∷ 0 ∷ [])
    ∷ (10, 56 ∷ 12 ∷ 6 ∷ 7 ∷ 63 ∷ 231 ∷ 231 ∷ 231 ∷ 60 ∷ 0 ∷ [])
    ∷ (10, 255 ∷ 224 ∷ 224 ∷ 224 ∷ 48 ∷ 24 ∷ 24 ∷ 24 ∷ 24 ∷ 0 ∷ [])
    ∷ (10, 60 ∷ 231 ∷ 231 ∷ 231 ∷ 60 ∷ 231 ∷ 231 ∷ 231 ∷ 60 ∷ 0 ∷ [])
    ∷ (10, 60 ∷ 231 ∷ 231 ∷ 231 ∷ 252 ∷ 224 ∷ 96 ∷ 48 ∷ 28 ∷ 0 ∷ [])
    ∷ (10, 6 ∷ 6 ∷ 0 ∷ 0 ∷ 0 ∷ 0 ∷ 6 ∷ 6 ∷ 0 ∷ 0 ∷ [])
    ∷ (10, 12 ∷ 12 ∷ 0 ∷ 0 ∷ 0 ∷ 0 ∷ 12 ∷ 12 ∷ 6 ∷ 0 ∷ [])
    ∷ (10, 224 ∷ 24 ∷ 7 ∷ 24 ∷ 56 ∷ 224 ∷ 0 ∷ 0 ∷ 0 ∷ 0 ∷ [])
    ∷ (10, 255 ∷ 0 ∷ 255 ∷ 0 ∷ 0 ∷ 0 ∷ 0 ∷ 0 ∷ 0 ∷ 0 ∷ [])
    ∷ (10, 7 ∷ 24 ∷ 224 ∷ 24 ∷ 9 ∷ 7 ∷ 0 ∷ 0 ∷ 0 ∷ 0 ∷ [])
    ∷ (10, 60 ∷ 231 ∷ 231 ∷ 224 ∷ 48 ∷ 24 ∷ 0 ∷ 0 ∷ 24 ∷ 0 ∷ [])
    ∷ (10, 126 ∷ 451 ∷ 451 ∷ 499 ∷ 467 ∷ 499 ∷ 3 ∷ 3 ∷ 62 ∷ 0 ∷ [])
    ∷ (10, 60 ∷ 231 ∷ 231 ∷ 231 ∷ 255 ∷ 231 ∷ 231 ∷ 231 ∷ 231 ∷ 0 ∷ [])
    ∷ (10, 63 ∷ 231 ∷ 231 ∷ 231 ∷ 63 ∷ 231 ∷ 231 ∷ 231 ∷ 63 ∷ 0 ∷ [])
    ∷ (10, 248 ∷ 12 ∷ 6 ∷ 7 ∷ 7 ∷ 7 ∷ 6 ∷ 12 ∷ 248 ∷ 0 ∷ [])
    ∷ (10, 31 ∷ 55 ∷ 103 ∷ 231 ∷ 231 ∷ 231 ∷ 103 ∷ 55 ∷ 31 ∷ 0 ∷ [])
    ∷ (10, 255 ∷ 7 ∷ 7 ∷ 7 ∷ 31 ∷ 7 ∷ 7 ∷ 7 ∷ 255 ∷ 0 ∷ [])
    ∷ (10, 255 ∷ 7 ∷ 7 ∷ 7 ∷ 31 ∷ 7 ∷ 7 ∷ 7 ∷ 7 ∷ 0 ∷ [])
    ∷ (10, 60 ∷ 231 ∷ 7 ∷ 247 ∷ 231 ∷ 231 ∷ 231 ∷ 252 ∷ 0 ∷ 0 ∷ [])
    ∷ (10, 231 ∷ 231 ∷ 231 ∷ 231 ∷ 255 ∷ 231 ∷ 231 ∷ 231 ∷ 231 ∷ 0 ∷ [])
    ∷ (10, 30 ∷ 12 ∷ 12 ∷ 12 ∷ 12 ∷ 12 ∷ 12 ∷ 12 ∷ 30 ∷ 0 ∷ [])
    ∷ (10, 224 ∷ 224 ∷ 224 ∷ 224 ∷ 224 ∷ 224 ∷ 224 ∷ 231 ∷ 60 ∷ 0 ∷ [])
    ∷ (10, 451 ∷ 99 ∷ 99 ∷ 51 ∷ 31 ∷ 51 ∷ 99 ∷ 99 ∷ 451 ∷ 0 ∷ [])
    ∷ (10, 7 ∷ 7 ∷ 7 ∷ 7 ∷ 7 ∷ 7 ∷ 7 ∷ 7 ∷ 255 ∷ 0 ∷ [])
    ∷ (10, 451 ∷ 495 ∷ 495 ∷ 511 ∷ 467 ∷ 451 ∷ 451 ∷ 451 ∷ 451 ∷ 0 ∷ [])
    ∷ (10, 451 ∷ 463 ∷ 463 ∷ 479 ∷ 499 ∷ 483 ∷ 451 ∷ 451 ∷ 451 ∷ 0 ∷ [])
    ∷ (10, 60 ∷ 231 ∷ 231 ∷ 231 ∷ 231 ∷ 231 ∷ 231 ∷ 231 ∷ 60 ∷ 0 ∷ [])
    ∷ (10, 63 ∷ 231 ∷ 231 ∷ 231 ∷ 63 ∷ 7 ∷ 7 ∷ 7 ∷ 7 ∷ 0 ∷ [])
    ∷ (10, 62 ∷ 99 ∷ 99 ∷ 99 ∷ 99 ∷ 99 ∷ 99 ∷ 115 ∷ 510 ∷ 0 ∷ [])
    ∷ (10, 63 ∷ 231 ∷ 231 ∷ 231 ∷ 63 ∷ 55 ∷ 231 ∷ 231 ∷ 231 ∷ 0 ∷ [])
    ∷ (10, 60 ∷ 231 ∷ 15 ∷ 62 ∷ 124 ∷ 240 ∷ 231 ∷ 60 ∷ 0 ∷ 0 ∷ [])
    ∷ (10, 255 ∷ 24 ∷ 24 ∷ 24 ∷ 24 ∷ 24 ∷ 24 ∷ 24 ∷ 24 ∷ 0 ∷ [])
    ∷ (10, 7 ∷ 231 ∷ 231 ∷ 231 ∷ 231 ∷ 231 ∷ 231 ∷ 231 ∷ 60 ∷ 0 ∷ [])
    ∷ (10, 231 ∷ 231 ∷ 231 ∷ 231 ∷ 231 ∷ 126 ∷ 60 ∷ 60 ∷ 24 ∷ 0 ∷ [])
    ∷ (10, 451 ∷ 451 ∷ 451 ∷ 451 ∷ 467 ∷ 511 ∷ 495 ∷ 495 ∷ 451 ∷ 0 ∷ [])
    ∷ (10, 771 ∷ 462 ∷ 252 ∷ 120 ∷ 48 ∷ 120 ∷ 252 ∷ 462 ∷ 771 ∷ 0 ∷ [])
    ∷ (10, 771 ∷ 462 ∷ 252 ∷ 120 ∷ 48 ∷ 48 ∷ 48 ∷ 48 ∷ 48 ∷ 0 ∷ [])
    ∷ (10, 511 ∷ 96 ∷ 112 ∷ 48 ∷ 24 ∷ 14 ∷ 7 ∷ 3 ∷ 511 ∷ 0 ∷ [])
    ∷ (10, 30 ∷ 6 ∷ 6 ∷ 6 ∷ 6 ∷ 6 ∷ 6 ∷ 6 ∷ 30 ∷ 0 ∷ [])
    ∷ (10, 3 ∷ 14 ∷ 28 ∷ 24 ∷ 48 ∷ 96 ∷ 224 ∷ 448 ∷ 768 ∷ 0 ∷ [])
    ∷ (10, 30 ∷ 24 ∷ 24 ∷ 24 ∷ 24 ∷ 24 ∷ 24 ∷ 24 ∷ 30 ∷ 0 ∷ [])
    ∷ (10, 16 ∷ 56 ∷ 60 ∷ 110 ∷ 451 ∷ 0 ∷ 0 ∷ 0 ∷ 0 ∷ 0 ∷ [])
    ∷ (10, 511 ∷ 0 ∷ 0 ∷ 0 ∷ 0 ∷ 0 ∷ 0 ∷ 0 ∷ 0 ∷ 0 ∷ [])
    ∷ (10, 6 ∷ 6 ∷ 6 ∷ 12 ∷ 0 ∷ 0 ∷ 0 ∷ 0 ∷ 0 ∷ 0 ∷ [])
    ∷ (10, 60 ∷ 224 ∷ 252 ∷ 236 ∷ 231 ∷ 252 ∷ 0 ∷ 0 ∷ 0 ∷ 0 ∷ [])
    ∷ (10, 7 ∷ 7 ∷ 7 ∷ 63 ∷ 231 ∷ 231 ∷ 231 ∷ 231 ∷ 63 ∷ 0 ∷ [])
    ∷ (10, 60 ∷ 7 ∷ 7 ∷ 7 ∷ 7 ∷ 60 ∷ 0 ∷ 0 ∷ 0 ∷ 0 ∷ [])
    ∷ (10, 224 ∷ 224 ∷ 224 ∷ 252 ∷ 231 ∷ 231 ∷ 231 ∷ 231 ∷ 252 ∷ 0 ∷ [])
    ∷ (10, 60 ∷ 231 ∷ 255 ∷ 7 ∷ 7 ∷ 60 ∷ 0 ∷ 0 ∷ 0 ∷ 0 ∷ [])
    ∷ (10, 56 ∷ 12 ∷ 12 ∷ 63 ∷ 12 ∷ 12 ∷ 12 ∷ 12 ∷ 12 ∷ 0 ∷ [])
    ∷ (10, 252 ∷ 231 ∷ 231 ∷ 231 ∷ 252 ∷ 224 ∷ 60 ∷ 0 ∷ 0 ∷ 0 ∷ [])
    ∷ (10, 7 ∷ 7 ∷ 7 ∷ 63 ∷ 231 ∷ 231 ∷ 231 ∷ 231 ∷ 231 ∷ 0 ∷ [])
    ∷ (10, 6 ∷ 0 ∷ 0 ∷ 6 ∷ 6 ∷ 6 ∷ 6 ∷ 6 ∷ 12 ∷ 0 ∷ [])
    ∷ (10, 48 ∷ 0 ∷ 0 ∷ 48 ∷ 48 ∷ 48 ∷ 48 ∷ 48 ∷ 48 ∷ 31 ∷ [])
    ∷ (10, 7 ∷ 7 ∷ 7 ∷ 231 ∷ 55 ∷ 31 ∷ 55 ∷ 55 ∷ 231 ∷ 0 ∷ [])
    ∷ (10, 6 ∷ 6 ∷ 6 ∷ 6 ∷ 6 ∷ 6 ∷ 6 ∷ 6 ∷ 12 ∷ 0 ∷ [])
    ∷ (10, 111 ∷ 511 ∷ 479 ∷ 467 ∷ 451 ∷ 451 ∷ 0 ∷ 0 ∷ 0 ∷ 0 ∷ [])
    ∷ (10, 63 ∷ 231 ∷ 231 ∷ 231 ∷ 231 ∷ 231 ∷ 0 ∷ 0 ∷ 0 ∷ 0 ∷ [])
    ∷ (10, 60 ∷ 231 ∷ 231 ∷ 231 ∷ 231 ∷ 60 ∷ 0 ∷ 0 ∷ 0 ∷ 0 ∷ [])
    ∷ (10, 63 ∷ 231 ∷ 231 ∷ 231 ∷ 63 ∷ 7 ∷ 7 ∷ 0 ∷ 0 ∷ 0 ∷ [])
    ∷ (10, 252 ∷ 231 ∷ 231 ∷ 231 ∷ 252 ∷ 224 ∷ 224 ∷ 0 ∷ 0 ∷ 0 ∷ [])
    ∷ (10, 63 ∷ 231 ∷ 7 ∷ 7 ∷ 7 ∷ 7 ∷ 0 ∷ 0 ∷ 0 ∷ 0 ∷ [])
    ∷ (10, 60 ∷ 7 ∷ 60 ∷ 60 ∷ 224 ∷ 63 ∷ 0 ∷ 0 ∷ 0 ∷ 0 ∷ [])
    ∷ (10, 12 ∷ 12 ∷ 12 ∷ 63 ∷ 12 ∷ 12 ∷ 12 ∷ 12 ∷ 56 ∷ 0 ∷ [])
    ∷ (10, 231 ∷ 231 ∷ 231 ∷ 231 ∷ 231 ∷ 252 ∷ 0 ∷ 0 ∷ 0 ∷ 0 ∷ [])
    ∷ (10, 231 ∷ 231 ∷ 231 ∷ 102 ∷ 60 ∷ 24 ∷ 0 ∷ 0 ∷ 0 ∷ 0 ∷ [])
    ∷ (10, 451 ∷ 451 ∷ 467 ∷ 479 ∷ 511 ∷ 110 ∷ 0 ∷ 0 ∷ 0 ∷ 0 ∷ [])
    ∷ (10, 451 ∷ 110 ∷ 56 ∷ 110 ∷ 110 ∷ 451 ∷ 0 ∷ 0 ∷ 0 ∷ 0 ∷ [])
    ∷ (10, 231 ∷ 231 ∷ 231 ∷ 102 ∷ 60 ∷ 24 ∷ 12 ∷ 0 ∷ 0 ∷ 0 ∷ [])
    ∷ (10, 255 ∷ 48 ∷ 24 ∷ 24 ∷ 12 ∷ 255 ∷ 0 ∷ 0 ∷ 0 ∷ 0 ∷ [])
    ∷ (10, 240 ∷ 24 ∷ 24 ∷ 24 ∷ 15 ∷ 24 ∷ 24 ∷ 24 ∷ 240 ∷ 0 ∷ [])
    ∷ (10, 6 ∷ 6 ∷ 6 ∷ 6 ∷ 6 ∷ 6 ∷ 6 ∷ 6 ∷ 6 ∷ 0 ∷ [])
    ∷ (10, 15 ∷ 24 ∷ 24 ∷ 24 ∷ 240 ∷ 24 ∷ 24 ∷ 24 ∷ 15 ∷ 0 ∷ [])
    ∷ (10, 542 ∷ 481 ∷ 0 ∷ 0 ∷ 0 ∷ 0 ∷ 0 ∷ 0 ∷ 0 ∷ 0 ∷ [])
    ∷ []
