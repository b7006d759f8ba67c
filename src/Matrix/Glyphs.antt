-- ===== src/Matrix/Glyphs.antt =====
-- rust/loa-matrix/src/glyphs.rs: the shapes. A row's high bit is its left column.
use loa.Base.{ℕ, String, Option, none, some, List, [], ◌∷◌, str_eq, if◌then◌else◌}

pub record Glyph : Type 0 where
  pub name : String
  pub rows : List ℕ  -- [u8; 8]

abbrev pub dark : Glyph
dark = record { name = "dark"; rows = 0 ∷ 0 ∷ 0 ∷ 0 ∷ 0 ∷ 0 ∷ 0 ∷ 0 ∷ [] }

abbrev pub sealed : Glyph
sealed = record { name = "sealed"; rows = 60 ∷ 36 ∷ 36 ∷ 126 ∷ 102 ∷ 102 ∷ 126 ∷ 126 ∷ [] }

abbrev pub breach : Glyph
breach = record { name = "breach"; rows = 120 ∷ 72 ∷ 64 ∷ 126 ∷ 102 ∷ 102 ∷ 126 ∷ 126 ∷ [] }

abbrev pub fault : Glyph
fault = record { name = "fault"; rows = 195 ∷ 102 ∷ 60 ∷ 24 ∷ 24 ∷ 60 ∷ 102 ∷ 195 ∷ [] }

abbrev pub attention : Glyph
attention = record { name = "attention"; rows = 24 ∷ 24 ∷ 24 ∷ 24 ∷ 24 ∷ 24 ∷ 0 ∷ 24 ∷ [] }

abbrev pub urgent : Glyph
urgent = record { name = "urgent"; rows = 102 ∷ 102 ∷ 102 ∷ 102 ∷ 102 ∷ 102 ∷ 0 ∷ 102 ∷ [] }

abbrev pub invader : Glyph
invader = record { name = "invader"; rows = 36 ∷ 24 ∷ 126 ∷ 219 ∷ 255 ∷ 189 ∷ 165 ∷ 36 ∷ [] }

abbrev pub all : List Glyph
all = dark ∷ sealed ∷ breach ∷ fault ∷ attention ∷ urgent ∷ []

abbrev pub find_glyph : List Glyph → String → Option Glyph
find_glyph [] name = none
find_glyph (g ∷ gs) name = if str_eq g.name name then some g else find_glyph gs name

abbrev or_invader : Option Glyph → String → Option Glyph
or_invader (some g) name = some g
or_invader none name = if str_eq name invader.name then some invader else none

unfoldable pub by_name : String → Option Glyph
by_name name = or_invader (find_glyph all name) name
