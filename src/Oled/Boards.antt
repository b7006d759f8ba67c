-- ===== src/Oled/Boards.antt =====
-- The other pages of crates/loa-oled/src/face.rs: the temperature, the vault's seal, the power and
-- the faults, and the choice of a page.
use loa.Base.{
  ℕ, ◌+◌, ◌%◌, ◌/◌, Bool, false, not, Option, none, some, String, List, [], ◌∷◌, ◌++◌, ◌==◌, take,
  str_eq, ltb, if◌then◌else◌,
}
use loa.Base.Int.{ℤ, pos, ◌-ℤ◌}
use loa.Base.Floats.{Floats, Maths}
use loa.Oled.{width}
use loa.Oled.Draw.{Pen, ◌▷◌, blank, amiga8_width}
use loa.Oled.Face.{whole}
use loa.Oled.View.{FaultRow, RenderState, find_key, faults_view}
use loa.Oled.Pages.{
  Print, as_bool, as_f64, indicator, trend_caret, gauge, lock, flush_right, put, sensors, pir_page,
  snr_page,
}

-- Bit 0 and bit 2 of the throttle word.
abbrev pub throttle_uv : ℕ → Bool
throttle_uv flags = not (flags % 2 == 0)

abbrev pub throttle_thr : ℕ → Bool
throttle_thr flags = not (flags / 4 % 2 == 0)

abbrev pub is_some_and : Option ℕ → (ℕ → Bool) → Bool
is_some_and none test = false
is_some_and (some n) test = test n

abbrev pub label : FaultRow → String
label r = if str_eq r.face "" then r.code else r.face

module _ {F : Type 0} ⦃f : Floats F⦄ ⦃g : Maths F⦄ (p : Print F) (offset : ℤ) where
  -- `v.clamp(0.0, 1.0)`
  abbrev pub clamp_unit : F → F
  clamp_unit v = if f.lt v f.zero then f.zero else if f.lt (whole 1) v then whole 1 else v

  -- The length of the filled stretch of the gauge.
  abbrev pub filled : F → ℤ
  filled frac = g.as_i64 (f.mul frac (whole 111))

  abbrev pub humidity : Option F → Pen
  humidity none = blank
  humidity (some hum) = flush_right (p.fixed 0 hum ++ p.chars "%") 0 (pos 52)

  unfoldable pub temperature : Option F → Option F → Pen
  unfolding gauge put flush_right ◌▷◌
  temperature none hum =
      put p offset (p.chars "--.-C") 2 52
      ▷ flush_right (p.chars "--%") 0 (pos 52)
      ▷ gauge (pos 2) (pos 18) (filled f.zero)
  temperature (some tc) hum =
      let frac = clamp_unit (f.div (f.sub tc (whole 5)) (f.sub (whole 40) (whole 5))) in
      gauge (pos 2) (pos 18) (filled frac)
      ▷ put p offset (p.aligned 4 1 tc ++ p.chars "C") 2 52
      ▷ humidity hum

  unfoldable pub pressure : Option F → String → Pen
  unfolding flush_right trend_caret amiga8_width ◌▷◌
  pressure none trend = blank
  pressure (some hpa) trend =
      let s = p.fixed 0 hpa ++ p.chars "HPA" in
      flush_right s 0 (pos 43)
      ▷ trend_caret (pos width -ℤ pos (amiga8_width s) -ℤ pos 8) (pos 45)
          (if str_eq trend "" then "steady" else trend)

  unfoldable pub temp_page : RenderState F → Pen
  unfolding temperature pressure put ◌▷◌
  temp_page st =
      put p offset (p.chars "TMP") 2 1
      ▷ put p offset (p.chars "4/7") 99 1
      ▷ temperature st.temp_c st.hum_pct
      ▷ pressure st.pressure_hpa st.baro_trend

  abbrev pub as_count : Option F → ℤ
  as_count none = pos 0
  as_count (some v) = g.as_i64 v

  unfoldable pub frag_page : RenderState F → Pen
  unfolding lock put find_key ◌▷◌
  frag_page st =
      put p offset (p.chars "FRAG") 2 1
      ▷ put p offset (p.chars "5/7") 99 1
      ▷ lock (pos 8) (pos 16)
      ▷ put p offset (p.chars (if as_bool (find_key st.seal "sealed") then "SEALED" else "GONE")) 24
          16
      ▷ put p offset (p.chars "N" ++ p.zeros 3 (as_count (as_f64 (find_key st.seal "entries")))) 2
          32
      ▷ put p offset
          (p.chars "A" ++ p.zeros 3 (as_count (as_f64 (find_key st.seal "access_count")))) 40 32

  -- The line under the title, by the age of the report and its counts.
  unfoldable pub heads : F → ℕ → ℕ → List ℕ
  heads age n_fault n_warn =
      if f.lt (whole 300) age
      then p.chars "SENSE DEAD " ++ p.dec_i64 (g.as_i64 (f.div age (whole 60))) ++ p.chars "M"
      else if ltb 0 n_fault
      then p.dec n_fault ++ p.chars " HURTS"
      else if ltb 0 n_warn
      then p.dec n_warn ++ p.chars " NIGGLE"
      else p.chars "ALL QUIET"

  -- Against the draw clock; a report without a time is fresh.
  abbrev pub age_of : F → F → F
  age_of t report_ts = f.sub t (if f.eq report_ts f.zero then t else report_ts)

  unfoldable pub label_rows : ℕ → List FaultRow → Pen
  unfolding put ◌▷◌
  label_rows y [] = blank
  label_rows y (r ∷ rows) = put p offset (take 14 (p.chars (label r))) 2 y ▷ label_rows (y + 9) rows

  unfoldable pub report_lines : F → Option (F × ℕ × ℕ × List FaultRow) → Pen
  unfolding heads label_rows put ◌▷◌
  report_lines t none = put p offset (p.chars "NO SWEEP") 2 10
  report_lines t (some (ts, n_fault, n_warn, rows)) =
      put p offset (take 14 (heads (age_of t ts) n_fault n_warn)) 2 10 ▷ label_rows 19 (take 5 rows)

  unfoldable pub fault_page : F → RenderState F → Pen
  unfolding report_lines faults_view put ◌▷◌
  fault_page t st =
      put p offset (p.chars "PAIN") 2 1
      ▷ put p offset (p.chars "7/7") 99 1
      ▷ report_lines t (faults_view st)

  abbrev pub rail_text : Option F → String → List ℕ
  rail_text none unit = p.chars "--"
  rail_text (some v) unit = p.fixed 3 v ++ p.chars unit

  unfoldable pub rail : ℕ → String → Option F → String → Pen
  unfolding put flush_right ◌▷◌
  rail y name val unit =
      put p offset (p.chars name) 2 y ▷ flush_right (rail_text val unit) 2 (pos y)

  unfoldable pub power_page : RenderState F → Pen
  unfolding put indicator rail find_key ◌▷◌
  power_page st =
      put p offset (p.chars "PWR") 2 1
      ▷ put p offset (p.chars "6/7") 99 1
      ▷ indicator (pos 2) (pos 11) (p.chars "UV") (is_some_and st.power_throttled throttle_uv)
      ▷ indicator (pos 40) (pos 11) (p.chars "THR") (is_some_and st.power_throttled throttle_thr)
      ▷ rail 24 "5V" (find_key st.rails "EXT5V_V") "V"
      ▷ rail 32 "3V3" (find_key st.rails "3V3_SYS_V") "V"
      ▷ rail 40 "3V3I" (find_key st.rails "3V3_SYS_A") "A"
      ▷ rail 48 "CORE" (find_key st.rails "VDD_CORE_V") "V"
      ▷ rail 56 "COREI" (find_key st.rails "VDD_CORE_A") "A"

  unfoldable pub draw_ripperdoc : F → RenderState F → Pen
  unfolding sensors pir_page snr_page temp_page frag_page fault_page power_page
  draw_ripperdoc t st =
      if str_eq st.page "pir"
      then pir_page p offset t st
      else if str_eq st.page "snr"
      then snr_page p offset st
      else if str_eq st.page "temp"
      then temp_page st
      else if str_eq st.page "frag"
      then frag_page st
      else if str_eq st.page "power"
      then power_page st
      else if str_eq st.page "fault"
      then fault_page t st
      else sensors p offset st
