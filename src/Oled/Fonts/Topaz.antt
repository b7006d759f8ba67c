-- ===== src/Oled/Fonts/Topaz.antt =====
-- The topaz font of crates/loa-oled/src/fonts.rs: the code of the character, the advance, and the
-- rows.
use loa.Base.{ℕ, List, [], ◌∷◌}

abbrev pub topaz : List (ℕ × ℕ × List ℕ)
topaz =
    (32, 0, 0 ∷ 0 ∷ 0 ∷ 0 ∷ 0 ∷ 0 ∷ 0 ∷ 0 ∷ 0 ∷ 0 ∷ 0 ∷ 0 ∷ 0 ∷ 0 ∷ 0 ∷ 0 ∷ [])
    ∷ (33, 2, 3 ∷ 3 ∷ 3 ∷ 3 ∷ 3 ∷ 3 ∷ 3 ∷ 3 ∷ 3 ∷ 3 ∷ 0 ∷ 0 ∷ 3 ∷ 3 ∷ 0 ∷ 0 ∷ [])
    ∷ (45, 6, 0 ∷ 0 ∷ 0 ∷ 0 ∷ 0 ∷ 0 ∷ 63 ∷ 63 ∷ 0 ∷ 0 ∷ 0 ∷ 0 ∷ 0 ∷ 0 ∷ 0 ∷ 0 ∷ [])
    ∷ (46, 2, 0 ∷ 0 ∷ 0 ∷ 0 ∷ 0 ∷ 0 ∷ 0 ∷ 0 ∷ 0 ∷ 0 ∷ 3 ∷ 3 ∷ 3 ∷ 3 ∷ 0 ∷ 0 ∷ [])
    ∷ (65, 6, 30 ∷ 30 ∷ 51 ∷ 51 ∷ 51 ∷ 51 ∷ 63 ∷ 63 ∷ 51 ∷ 51 ∷ 51 ∷ 51 ∷ 51 ∷ 51 ∷ 0 ∷ 0 ∷ [])
    ∷ (66, 6, 31 ∷ 31 ∷ 51 ∷ 51 ∷ 51 ∷ 51 ∷ 31 ∷ 31 ∷ 51 ∷ 51 ∷ 51 ∷ 51 ∷ 31 ∷ 31 ∷ 0 ∷ 0 ∷ [])
    ∷ (67, 6, 60 ∷ 60 ∷ 6 ∷ 6 ∷ 3 ∷ 3 ∷ 3 ∷ 3 ∷ 3 ∷ 3 ∷ 6 ∷ 6 ∷ 60 ∷ 60 ∷ 0 ∷ 0 ∷ [])
    ∷ (68, 6, 15 ∷ 15 ∷ 27 ∷ 27 ∷ 51 ∷ 51 ∷ 51 ∷ 51 ∷ 51 ∷ 51 ∷ 27 ∷ 27 ∷ 15 ∷ 15 ∷ 0 ∷ 0 ∷ [])
    ∷ (69, 6, 63 ∷ 63 ∷ 3 ∷ 3 ∷ 3 ∷ 3 ∷ 15 ∷ 15 ∷ 3 ∷ 3 ∷ 3 ∷ 3 ∷ 63 ∷ 63 ∷ 0 ∷ 0 ∷ [])
    ∷ (70, 6, 63 ∷ 63 ∷ 3 ∷ 3 ∷ 3 ∷ 3 ∷ 15 ∷ 15 ∷ 3 ∷ 3 ∷ 3 ∷ 3 ∷ 3 ∷ 3 ∷ 0 ∷ 0 ∷ [])
    ∷ (71, 6, 30 ∷ 30 ∷ 51 ∷ 51 ∷ 3 ∷ 3 ∷ 59 ∷ 59 ∷ 51 ∷ 51 ∷ 51 ∷ 51 ∷ 62 ∷ 62 ∷ 0 ∷ 0 ∷ [])
    ∷ (72, 6, 51 ∷ 51 ∷ 51 ∷ 51 ∷ 51 ∷ 51 ∷ 63 ∷ 63 ∷ 51 ∷ 51 ∷ 51 ∷ 51 ∷ 51 ∷ 51 ∷ 0 ∷ 0 ∷ [])
    ∷ (73, 4, 15 ∷ 15 ∷ 6 ∷ 6 ∷ 6 ∷ 6 ∷ 6 ∷ 6 ∷ 6 ∷ 6 ∷ 6 ∷ 6 ∷ 15 ∷ 15 ∷ 0 ∷ 0 ∷ [])
    ∷ (74, 6, 48 ∷ 48 ∷ 48 ∷ 48 ∷ 48 ∷ 48 ∷ 48 ∷ 48 ∷ 48 ∷ 48 ∷ 51 ∷ 51 ∷ 30 ∷ 30 ∷ 0 ∷ 0 ∷ [])
    ∷ (75, 7, 99 ∷ 99 ∷ 51 ∷ 51 ∷ 27 ∷ 27 ∷ 15 ∷ 15 ∷ 27 ∷ 27 ∷ 51 ∷ 51 ∷ 99 ∷ 99 ∷ 0 ∷ 0 ∷ [])
    ∷ (76, 6, 3 ∷ 3 ∷ 3 ∷ 3 ∷ 3 ∷ 3 ∷ 3 ∷ 3 ∷ 3 ∷ 3 ∷ 3 ∷ 3 ∷ 63 ∷ 63 ∷ 0 ∷ 0 ∷ [])
    ∷ (
      77,
      7,
      99 ∷ 99 ∷ 119 ∷ 119 ∷ 127 ∷ 127 ∷ 107 ∷ 107 ∷ 99 ∷ 99 ∷ 99 ∷ 99 ∷ 99 ∷ 99 ∷ 0 ∷ 0 ∷ [],
    )
    ∷ (
      78,
      7,
      99 ∷ 99 ∷ 103 ∷ 103 ∷ 111 ∷ 111 ∷ 123 ∷ 123 ∷ 115 ∷ 115 ∷ 99 ∷ 99 ∷ 99 ∷ 99 ∷ 0 ∷ 0 ∷ [],
    )
    ∷ (79, 6, 30 ∷ 30 ∷ 51 ∷ 51 ∷ 51 ∷ 51 ∷ 51 ∷ 51 ∷ 51 ∷ 51 ∷ 51 ∷ 51 ∷ 30 ∷ 30 ∷ 0 ∷ 0 ∷ [])
    ∷ (80, 6, 31 ∷ 31 ∷ 51 ∷ 51 ∷ 51 ∷ 51 ∷ 31 ∷ 31 ∷ 3 ∷ 3 ∷ 3 ∷ 3 ∷ 3 ∷ 3 ∷ 0 ∷ 0 ∷ [])
    ∷ (81, 7, 30 ∷ 30 ∷ 51 ∷ 51 ∷ 51 ∷ 51 ∷ 51 ∷ 51 ∷ 51 ∷ 51 ∷ 59 ∷ 59 ∷ 126 ∷ 126 ∷ 0 ∷ 0 ∷ [])
    ∷ (82, 6, 31 ∷ 31 ∷ 51 ∷ 51 ∷ 51 ∷ 51 ∷ 31 ∷ 31 ∷ 27 ∷ 27 ∷ 51 ∷ 51 ∷ 51 ∷ 51 ∷ 0 ∷ 0 ∷ [])
    ∷ (83, 6, 30 ∷ 30 ∷ 51 ∷ 51 ∷ 7 ∷ 7 ∷ 30 ∷ 30 ∷ 56 ∷ 56 ∷ 51 ∷ 51 ∷ 30 ∷ 30 ∷ 0 ∷ 0 ∷ [])
    ∷ (84, 6, 63 ∷ 63 ∷ 12 ∷ 12 ∷ 12 ∷ 12 ∷ 12 ∷ 12 ∷ 12 ∷ 12 ∷ 12 ∷ 12 ∷ 12 ∷ 12 ∷ 0 ∷ 0 ∷ [])
    ∷ (85, 6, 51 ∷ 51 ∷ 51 ∷ 51 ∷ 51 ∷ 51 ∷ 51 ∷ 51 ∷ 51 ∷ 51 ∷ 51 ∷ 51 ∷ 30 ∷ 30 ∷ 0 ∷ 0 ∷ [])
    ∷ (86, 6, 51 ∷ 51 ∷ 51 ∷ 51 ∷ 51 ∷ 51 ∷ 51 ∷ 51 ∷ 30 ∷ 30 ∷ 30 ∷ 30 ∷ 12 ∷ 12 ∷ 0 ∷ 0 ∷ [])
    ∷ (
      87,
      7,
      99 ∷ 99 ∷ 99 ∷ 99 ∷ 99 ∷ 99 ∷ 107 ∷ 107 ∷ 127 ∷ 127 ∷ 119 ∷ 119 ∷ 99 ∷ 99 ∷ 0 ∷ 0 ∷ [],
    )
    ∷ (
      88,
      8,
      195 ∷ 195 ∷ 102 ∷ 102 ∷ 60 ∷ 60 ∷ 24 ∷ 24 ∷ 60 ∷ 60 ∷ 102 ∷ 102 ∷ 195 ∷ 195 ∷ 0 ∷ 0 ∷ [],
    )
    ∷ (89, 8, 195 ∷ 195 ∷ 102 ∷ 102 ∷ 60 ∷ 60 ∷ 24 ∷ 24 ∷ 24 ∷ 24 ∷ 24 ∷ 24 ∷ 24 ∷ 24 ∷ 0 ∷ 0 ∷ [])
    ∷ (90, 7, 127 ∷ 127 ∷ 48 ∷ 48 ∷ 24 ∷ 24 ∷ 12 ∷ 12 ∷ 6 ∷ 6 ∷ 3 ∷ 3 ∷ 127 ∷ 127 ∷ 0 ∷ 0 ∷ [])
    ∷ []
