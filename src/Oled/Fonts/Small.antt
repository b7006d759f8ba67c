-- ===== src/Oled/Fonts/Small.antt =====
-- The two small fonts of crates/loa-oled/src/fonts.rs, by ASCII code: columns, whose low bit is
-- the top row.
use loa.Base.{ℕ, List, [], ◌∷◌}

abbrev pub font_5x7 : List (List ℕ)
font_5x7 =
    (0 ∷ 0 ∷ 0 ∷ 0 ∷ 0 ∷ [])
    ∷ (0 ∷ 0 ∷ 0 ∷ 0 ∷ 0 ∷ [])
    ∷ (0 ∷ 0 ∷ 0 ∷ 0 ∷ 0 ∷ [])
    ∷ (0 ∷ 0 ∷ 0 ∷ 0 ∷ 0 ∷ [])
    ∷ (0 ∷ 0 ∷ 0 ∷ 0 ∷ 0 ∷ [])
    ∷ (0 ∷ 0 ∷ 0 ∷ 0 ∷ 0 ∷ [])
    ∷ (0 ∷ 0 ∷ 0 ∷ 0 ∷ 0 ∷ [])
    ∷ (0 ∷ 0 ∷ 0 ∷ 0 ∷ 0 ∷ [])
    ∷ (0 ∷ 0 ∷ 0 ∷ 0 ∷ 0 ∷ [])
    ∷ (0 ∷ 0 ∷ 0 ∷ 0 ∷ 0 ∷ [])
    ∷ (0 ∷ 0 ∷ 0 ∷ 0 ∷ 0 ∷ [])
    ∷ (0 ∷ 0 ∷ 0 ∷ 0 ∷ 0 ∷ [])
    ∷ (0 ∷ 0 ∷ 0 ∷ 0 ∷ 0 ∷ [])
    ∷ (0 ∷ 0 ∷ 0 ∷ 0 ∷ 0 ∷ [])
    ∷ (0 ∷ 0 ∷ 0 ∷ 0 ∷ 0 ∷ [])
    ∷ (0 ∷ 0 ∷ 0 ∷ 0 ∷ 0 ∷ [])
    ∷ (0 ∷ 0 ∷ 0 ∷ 0 ∷ 0 ∷ [])
    ∷ (0 ∷ 0 ∷ 0 ∷ 0 ∷ 0 ∷ [])
    ∷ (0 ∷ 0 ∷ 0 ∷ 0 ∷ 0 ∷ [])
    ∷ (0 ∷ 0 ∷ 0 ∷ 0 ∷ 0 ∷ [])
    ∷ (0 ∷ 0 ∷ 0 ∷ 0 ∷ 0 ∷ [])
    ∷ (0 ∷ 0 ∷ 0 ∷ 0 ∷ 0 ∷ [])
    ∷ (0 ∷ 0 ∷ 0 ∷ 0 ∷ 0 ∷ [])
    ∷ (0 ∷ 0 ∷ 0 ∷ 0 ∷ 0 ∷ [])
    ∷ (0 ∷ 0 ∷ 0 ∷ 0 ∷ 0 ∷ [])
    ∷ (0 ∷ 0 ∷ 0 ∷ 0 ∷ 0 ∷ [])
    ∷ (0 ∷ 0 ∷ 0 ∷ 0 ∷ 0 ∷ [])
    ∷ (0 ∷ 0 ∷ 0 ∷ 0 ∷ 0 ∷ [])
    ∷ (0 ∷ 0 ∷ 0 ∷ 0 ∷ 0 ∷ [])
    ∷ (0 ∷ 0 ∷ 0 ∷ 0 ∷ 0 ∷ [])
    ∷ (0 ∷ 0 ∷ 0 ∷ 0 ∷ 0 ∷ [])
    ∷ (0 ∷ 0 ∷ 0 ∷ 0 ∷ 0 ∷ [])
    ∷ (0 ∷ 0 ∷ 0 ∷ 0 ∷ 0 ∷ [])
    ∷ (4 ∷ 4 ∷ 4 ∷ 0 ∷ 4 ∷ [])
    ∷ (10 ∷ 10 ∷ 0 ∷ 0 ∷ 0 ∷ [])
    ∷ (10 ∷ 31 ∷ 10 ∷ 31 ∷ 10 ∷ [])
    ∷ (14 ∷ 21 ∷ 14 ∷ 21 ∷ 14 ∷ [])
    ∷ (18 ∷ 21 ∷ 10 ∷ 21 ∷ 9 ∷ [])
    ∷ (12 ∷ 18 ∷ 12 ∷ 18 ∷ 13 ∷ [])
    ∷ (4 ∷ 4 ∷ 0 ∷ 0 ∷ 0 ∷ [])
    ∷ (4 ∷ 8 ∷ 8 ∷ 8 ∷ 4 ∷ [])
    ∷ (4 ∷ 2 ∷ 2 ∷ 2 ∷ 4 ∷ [])
    ∷ (0 ∷ 10 ∷ 4 ∷ 10 ∷ 0 ∷ [])
    ∷ (0 ∷ 4 ∷ 14 ∷ 4 ∷ 0 ∷ [])
    ∷ (0 ∷ 0 ∷ 0 ∷ 6 ∷ 4 ∷ [])
    ∷ (0 ∷ 0 ∷ 14 ∷ 0 ∷ 0 ∷ [])
    ∷ (0 ∷ 0 ∷ 0 ∷ 4 ∷ 0 ∷ [])
    ∷ (16 ∷ 8 ∷ 4 ∷ 2 ∷ 1 ∷ [])
    ∷ (14 ∷ 17 ∷ 17 ∷ 17 ∷ 14 ∷ [])
    ∷ (4 ∷ 12 ∷ 4 ∷ 4 ∷ 14 ∷ [])
    ∷ (14 ∷ 17 ∷ 2 ∷ 4 ∷ 31 ∷ [])
    ∷ (14 ∷ 17 ∷ 14 ∷ 17 ∷ 14 ∷ [])
    ∷ (8 ∷ 20 ∷ 10 ∷ 31 ∷ 8 ∷ [])
    ∷ (31 ∷ 16 ∷ 30 ∷ 1 ∷ 30 ∷ [])
    ∷ (14 ∷ 16 ∷ 30 ∷ 17 ∷ 14 ∷ [])
    ∷ (31 ∷ 2 ∷ 4 ∷ 8 ∷ 8 ∷ [])
    ∷ (14 ∷ 17 ∷ 14 ∷ 17 ∷ 14 ∷ [])
    ∷ (14 ∷ 17 ∷ 15 ∷ 1 ∷ 14 ∷ [])
    ∷ (0 ∷ 4 ∷ 0 ∷ 4 ∷ 0 ∷ [])
    ∷ (0 ∷ 4 ∷ 0 ∷ 4 ∷ 4 ∷ [])
    ∷ (2 ∷ 4 ∷ 8 ∷ 4 ∷ 2 ∷ [])
    ∷ (0 ∷ 14 ∷ 0 ∷ 14 ∷ 0 ∷ [])
    ∷ (8 ∷ 4 ∷ 2 ∷ 4 ∷ 8 ∷ [])
    ∷ (14 ∷ 1 ∷ 2 ∷ 0 ∷ 2 ∷ [])
    ∷ (14 ∷ 17 ∷ 21 ∷ 17 ∷ 14 ∷ [])
    ∷ (14 ∷ 17 ∷ 31 ∷ 17 ∷ 17 ∷ [])
    ∷ (30 ∷ 17 ∷ 30 ∷ 17 ∷ 30 ∷ [])
    ∷ (14 ∷ 17 ∷ 16 ∷ 17 ∷ 14 ∷ [])
    ∷ (28 ∷ 18 ∷ 17 ∷ 18 ∷ 28 ∷ [])
    ∷ (31 ∷ 16 ∷ 30 ∷ 16 ∷ 31 ∷ [])
    ∷ (31 ∷ 16 ∷ 30 ∷ 16 ∷ 16 ∷ [])
    ∷ (14 ∷ 17 ∷ 23 ∷ 17 ∷ 15 ∷ [])
    ∷ (17 ∷ 17 ∷ 31 ∷ 17 ∷ 17 ∷ [])
    ∷ (14 ∷ 4 ∷ 4 ∷ 4 ∷ 14 ∷ [])
    ∷ (7 ∷ 2 ∷ 2 ∷ 18 ∷ 12 ∷ [])
    ∷ (17 ∷ 18 ∷ 20 ∷ 18 ∷ 17 ∷ [])
    ∷ (16 ∷ 16 ∷ 16 ∷ 16 ∷ 31 ∷ [])
    ∷ (17 ∷ 27 ∷ 21 ∷ 17 ∷ 17 ∷ [])
    ∷ (17 ∷ 25 ∷ 21 ∷ 19 ∷ 17 ∷ [])
    ∷ (14 ∷ 17 ∷ 17 ∷ 17 ∷ 14 ∷ [])
    ∷ (30 ∷ 17 ∷ 30 ∷ 16 ∷ 16 ∷ [])
    ∷ (14 ∷ 17 ∷ 21 ∷ 18 ∷ 13 ∷ [])
    ∷ (30 ∷ 17 ∷ 30 ∷ 20 ∷ 18 ∷ [])
    ∷ (15 ∷ 16 ∷ 14 ∷ 1 ∷ 30 ∷ [])
    ∷ (31 ∷ 4 ∷ 4 ∷ 4 ∷ 4 ∷ [])
    ∷ (17 ∷ 17 ∷ 17 ∷ 17 ∷ 14 ∷ [])
    ∷ (17 ∷ 17 ∷ 17 ∷ 10 ∷ 4 ∷ [])
    ∷ (17 ∷ 17 ∷ 21 ∷ 27 ∷ 17 ∷ [])
    ∷ (17 ∷ 10 ∷ 4 ∷ 10 ∷ 17 ∷ [])
    ∷ (17 ∷ 10 ∷ 4 ∷ 4 ∷ 4 ∷ [])
    ∷ (31 ∷ 2 ∷ 4 ∷ 8 ∷ 31 ∷ [])
    ∷ (14 ∷ 8 ∷ 8 ∷ 8 ∷ 14 ∷ [])
    ∷ (1 ∷ 2 ∷ 4 ∷ 8 ∷ 16 ∷ [])
    ∷ (14 ∷ 2 ∷ 2 ∷ 2 ∷ 14 ∷ [])
    ∷ (4 ∷ 10 ∷ 0 ∷ 0 ∷ 0 ∷ [])
    ∷ (0 ∷ 0 ∷ 0 ∷ 0 ∷ 31 ∷ [])
    ∷ (4 ∷ 2 ∷ 0 ∷ 0 ∷ 0 ∷ [])
    ∷ (14 ∷ 17 ∷ 31 ∷ 17 ∷ 17 ∷ [])
    ∷ (30 ∷ 17 ∷ 30 ∷ 17 ∷ 30 ∷ [])
    ∷ (14 ∷ 17 ∷ 16 ∷ 17 ∷ 14 ∷ [])
    ∷ (28 ∷ 18 ∷ 17 ∷ 18 ∷ 28 ∷ [])
    ∷ (31 ∷ 16 ∷ 30 ∷ 16 ∷ 31 ∷ [])
    ∷ (31 ∷ 16 ∷ 30 ∷ 16 ∷ 16 ∷ [])
    ∷ (14 ∷ 17 ∷ 23 ∷ 17 ∷ 15 ∷ [])
    ∷ (17 ∷ 17 ∷ 31 ∷ 17 ∷ 17 ∷ [])
    ∷ (14 ∷ 4 ∷ 4 ∷ 4 ∷ 14 ∷ [])
    ∷ (7 ∷ 2 ∷ 2 ∷ 18 ∷ 12 ∷ [])
    ∷ (17 ∷ 18 ∷ 20 ∷ 18 ∷ 17 ∷ [])
    ∷ (16 ∷ 16 ∷ 16 ∷ 16 ∷ 31 ∷ [])
    ∷ (17 ∷ 27 ∷ 21 ∷ 17 ∷ 17 ∷ [])
    ∷ (17 ∷ 25 ∷ 21 ∷ 19 ∷ 17 ∷ [])
    ∷ (14 ∷ 17 ∷ 17 ∷ 17 ∷ 14 ∷ [])
    ∷ (30 ∷ 17 ∷ 30 ∷ 16 ∷ 16 ∷ [])
    ∷ (14 ∷ 17 ∷ 21 ∷ 18 ∷ 13 ∷ [])
    ∷ (30 ∷ 17 ∷ 30 ∷ 20 ∷ 18 ∷ [])
    ∷ (15 ∷ 16 ∷ 14 ∷ 1 ∷ 30 ∷ [])
    ∷ (31 ∷ 4 ∷ 4 ∷ 4 ∷ 4 ∷ [])
    ∷ (17 ∷ 17 ∷ 17 ∷ 17 ∷ 14 ∷ [])
    ∷ (17 ∷ 17 ∷ 17 ∷ 10 ∷ 4 ∷ [])
    ∷ (17 ∷ 17 ∷ 21 ∷ 27 ∷ 17 ∷ [])
    ∷ (17 ∷ 10 ∷ 4 ∷ 10 ∷ 17 ∷ [])
    ∷ (17 ∷ 10 ∷ 4 ∷ 4 ∷ 4 ∷ [])
    ∷ (31 ∷ 2 ∷ 4 ∷ 8 ∷ 31 ∷ [])
    ∷ (0 ∷ 0 ∷ 0 ∷ 0 ∷ 0 ∷ [])
    ∷ (4 ∷ 4 ∷ 4 ∷ 4 ∷ 4 ∷ [])
    ∷ (0 ∷ 0 ∷ 0 ∷ 0 ∷ 0 ∷ [])
    ∷ (10 ∷ 21 ∷ 0 ∷ 0 ∷ 0 ∷ [])
    ∷ (0 ∷ 0 ∷ 0 ∷ 0 ∷ 0 ∷ [])
    ∷ []

abbrev pub font_3x5 : List (List ℕ)
font_3x5 =
    (0 ∷ 0 ∷ 0 ∷ [])
    ∷ (0 ∷ 0 ∷ 0 ∷ [])
    ∷ (0 ∷ 0 ∷ 0 ∷ [])
    ∷ (0 ∷ 0 ∷ 0 ∷ [])
    ∷ (0 ∷ 0 ∷ 0 ∷ [])
    ∷ (0 ∷ 0 ∷ 0 ∷ [])
    ∷ (0 ∷ 0 ∷ 0 ∷ [])
    ∷ (0 ∷ 0 ∷ 0 ∷ [])
    ∷ (0 ∷ 0 ∷ 0 ∷ [])
    ∷ (0 ∷ 0 ∷ 0 ∷ [])
    ∷ (0 ∷ 0 ∷ 0 ∷ [])
    ∷ (0 ∷ 0 ∷ 0 ∷ [])
    ∷ (0 ∷ 0 ∷ 0 ∷ [])
    ∷ (0 ∷ 0 ∷ 0 ∷ [])
    ∷ (0 ∷ 0 ∷ 0 ∷ [])
    ∷ (0 ∷ 0 ∷ 0 ∷ [])
    ∷ (0 ∷ 0 ∷ 0 ∷ [])
    ∷ (0 ∷ 0 ∷ 0 ∷ [])
    ∷ (0 ∷ 0 ∷ 0 ∷ [])
    ∷ (0 ∷ 0 ∷ 0 ∷ [])
    ∷ (0 ∷ 0 ∷ 0 ∷ [])
    ∷ (0 ∷ 0 ∷ 0 ∷ [])
    ∷ (0 ∷ 0 ∷ 0 ∷ [])
    ∷ (0 ∷ 0 ∷ 0 ∷ [])
    ∷ (0 ∷ 0 ∷ 0 ∷ [])
    ∷ (0 ∷ 0 ∷ 0 ∷ [])
    ∷ (0 ∷ 0 ∷ 0 ∷ [])
    ∷ (0 ∷ 0 ∷ 0 ∷ [])
    ∷ (0 ∷ 0 ∷ 0 ∷ [])
    ∷ (0 ∷ 0 ∷ 0 ∷ [])
    ∷ (0 ∷ 0 ∷ 0 ∷ [])
    ∷ (0 ∷ 0 ∷ 0 ∷ [])
    ∷ (0 ∷ 0 ∷ 0 ∷ [])
    ∷ (0 ∷ 23 ∷ 0 ∷ [])
    ∷ (0 ∷ 0 ∷ 0 ∷ [])
    ∷ (0 ∷ 0 ∷ 0 ∷ [])
    ∷ (0 ∷ 0 ∷ 0 ∷ [])
    ∷ (0 ∷ 0 ∷ 0 ∷ [])
    ∷ (0 ∷ 0 ∷ 0 ∷ [])
    ∷ (0 ∷ 0 ∷ 0 ∷ [])
    ∷ (0 ∷ 0 ∷ 0 ∷ [])
    ∷ (0 ∷ 0 ∷ 0 ∷ [])
    ∷ (0 ∷ 0 ∷ 0 ∷ [])
    ∷ (0 ∷ 0 ∷ 0 ∷ [])
    ∷ (16 ∷ 8 ∷ 0 ∷ [])
    ∷ (4 ∷ 4 ∷ 4 ∷ [])
    ∷ (0 ∷ 16 ∷ 0 ∷ [])
    ∷ (24 ∷ 4 ∷ 3 ∷ [])
    ∷ (30 ∷ 17 ∷ 15 ∷ [])
    ∷ (18 ∷ 31 ∷ 16 ∷ [])
    ∷ (25 ∷ 21 ∷ 18 ∷ [])
    ∷ (21 ∷ 21 ∷ 10 ∷ [])
    ∷ (7 ∷ 4 ∷ 31 ∷ [])
    ∷ (23 ∷ 21 ∷ 9 ∷ [])
    ∷ (30 ∷ 21 ∷ 9 ∷ [])
    ∷ (1 ∷ 29 ∷ 3 ∷ [])
    ∷ (31 ∷ 21 ∷ 10 ∷ [])
    ∷ (18 ∷ 21 ∷ 15 ∷ [])
    ∷ (0 ∷ 10 ∷ 0 ∷ [])
    ∷ (0 ∷ 0 ∷ 0 ∷ [])
    ∷ (0 ∷ 0 ∷ 0 ∷ [])
    ∷ (10 ∷ 10 ∷ 10 ∷ [])
    ∷ (0 ∷ 0 ∷ 0 ∷ [])
    ∷ (0 ∷ 0 ∷ 0 ∷ [])
    ∷ (0 ∷ 0 ∷ 0 ∷ [])
    ∷ (30 ∷ 5 ∷ 30 ∷ [])
    ∷ (31 ∷ 21 ∷ 10 ∷ [])
    ∷ (14 ∷ 17 ∷ 17 ∷ [])
    ∷ (31 ∷ 17 ∷ 14 ∷ [])
    ∷ (31 ∷ 21 ∷ 17 ∷ [])
    ∷ (31 ∷ 5 ∷ 1 ∷ [])
    ∷ (14 ∷ 17 ∷ 29 ∷ [])
    ∷ (31 ∷ 4 ∷ 31 ∷ [])
    ∷ (17 ∷ 31 ∷ 17 ∷ [])
    ∷ (8 ∷ 16 ∷ 15 ∷ [])
    ∷ (31 ∷ 10 ∷ 17 ∷ [])
    ∷ (31 ∷ 16 ∷ 16 ∷ [])
    ∷ (31 ∷ 6 ∷ 31 ∷ [])
    ∷ (31 ∷ 2 ∷ 31 ∷ [])
    ∷ (14 ∷ 17 ∷ 14 ∷ [])
    ∷ (31 ∷ 5 ∷ 2 ∷ [])
    ∷ (14 ∷ 1 ∷ 31 ∷ [])
    ∷ (31 ∷ 5 ∷ 26 ∷ [])
    ∷ (18 ∷ 21 ∷ 9 ∷ [])
    ∷ (1 ∷ 31 ∷ 1 ∷ [])
    ∷ (15 ∷ 16 ∷ 15 ∷ [])
    ∷ (7 ∷ 24 ∷ 7 ∷ [])
    ∷ (31 ∷ 12 ∷ 31 ∷ [])
    ∷ (17 ∷ 14 ∷ 17 ∷ [])
    ∷ (3 ∷ 28 ∷ 3 ∷ [])
    ∷ (25 ∷ 21 ∷ 19 ∷ [])
    ∷ (0 ∷ 31 ∷ 17 ∷ [])
    ∷ (0 ∷ 0 ∷ 0 ∷ [])
    ∷ (17 ∷ 31 ∷ 0 ∷ [])
    ∷ (0 ∷ 0 ∷ 0 ∷ [])
    ∷ (0 ∷ 0 ∷ 0 ∷ [])
    ∷ (0 ∷ 0 ∷ 0 ∷ [])
    ∷ (30 ∷ 5 ∷ 30 ∷ [])
    ∷ (31 ∷ 21 ∷ 10 ∷ [])
    ∷ (14 ∷ 17 ∷ 17 ∷ [])
    ∷ (31 ∷ 17 ∷ 14 ∷ [])
    ∷ (31 ∷ 21 ∷ 17 ∷ [])
    ∷ (31 ∷ 5 ∷ 1 ∷ [])
    ∷ (14 ∷ 17 ∷ 29 ∷ [])
    ∷ (31 ∷ 4 ∷ 31 ∷ [])
    ∷ (17 ∷ 31 ∷ 17 ∷ [])
    ∷ (8 ∷ 16 ∷ 15 ∷ [])
    ∷ (31 ∷ 10 ∷ 17 ∷ [])
    ∷ (31 ∷ 16 ∷ 16 ∷ [])
    ∷ (31 ∷ 6 ∷ 31 ∷ [])
    ∷ (31 ∷ 2 ∷ 31 ∷ [])
    ∷ (14 ∷ 17 ∷ 14 ∷ [])
    ∷ (31 ∷ 5 ∷ 2 ∷ [])
    ∷ (14 ∷ 1 ∷ 31 ∷ [])
    ∷ (31 ∷ 5 ∷ 26 ∷ [])
    ∷ (18 ∷ 21 ∷ 9 ∷ [])
    ∷ (1 ∷ 31 ∷ 1 ∷ [])
    ∷ (15 ∷ 16 ∷ 15 ∷ [])
    ∷ (7 ∷ 24 ∷ 7 ∷ [])
    ∷ (31 ∷ 12 ∷ 31 ∷ [])
    ∷ (17 ∷ 14 ∷ 17 ∷ [])
    ∷ (3 ∷ 28 ∷ 3 ∷ [])
    ∷ (25 ∷ 21 ∷ 19 ∷ [])
    ∷ (0 ∷ 0 ∷ 0 ∷ [])
    ∷ (0 ∷ 0 ∷ 0 ∷ [])
    ∷ (0 ∷ 0 ∷ 0 ∷ [])
    ∷ (0 ∷ 0 ∷ 0 ∷ [])
    ∷ (0 ∷ 0 ∷ 0 ∷ [])
    ∷ []
