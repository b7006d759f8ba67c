-- ===== src/Sonar/Examples.antt =====
-- The sonar on concrete ranges.
use loa.Base.{List, [], ◌∷◌}
use loa.Base.Int.{ℤ, pos}
use loa.Base.Floats.{fixed_point}
use loa.Cortex.{default}
use loa.Sonar.{empty}
use loa.Sonar.Shown.{both, IsShown, both-snr_cm}

abbrev ranges : List (ℤ × ℤ)
ranges = (pos 80000, pos 1000) ∷ (pos 80500, pos 2000) ∷ (pos 95000, pos 3000) ∷ []

both-snr_cm_example :
    let (s, st) = both (pos 2000) (pos 30000) (empty, default) ranges in
    IsShown (pos 2000) (pos 30000) s.cm s.ts st.snr_cm st.snr_ts
both-snr_cm_example = both-snr_cm (pos 2000) (pos 30000) ranges
