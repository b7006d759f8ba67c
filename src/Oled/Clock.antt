-- ===== src/Oled/Clock.antt =====
-- The clock line of crates/loa-oled/src/rstate.rs: the time of day, the fixed offsets of TZ and the
-- first standard offset of a TZif file. A text is a list of code points, a file a list of bytes; the
-- sums of an i64 do not overflow here.
use loa.Base.{
  ℕ, zero, suc, ◌+◌, ◌-◌, ◌*◌, ◌/◌, ◌%◌, Bool, not, ◌&&◌, ◌||◌, Option, none, some, List, [], ◌∷◌,
  ◌++◌, ltb, leb, ◌==◌, length, get_or, if◌then◌else◌,
}
use loa.Base.Int.{ℤ, pos, negsuc, ◌+ℤ◌, ◌-ℤ◌, ◌*ℤ◌}
use loa.Base.Floats.{Maths}

-- The remainder by n that is not negative.
abbrev pub rem_euclid : ℤ → ℕ → ℕ
rem_euclid (pos a) n = a % n
rem_euclid (negsuc a) n = n - 1 - a % n

-- `{:02}` of a number below 100
abbrev pub two_digits : ℕ → List ℕ
two_digits n = (48 + n / 10) ∷ (48 + n % 10) ∷ []

-- The text of the second of the day.
unfoldable pub day_time : ℕ → List ℕ
day_time r = two_digits (r / 3600) ++ 58 ∷ two_digits (r % 3600 / 60) ++ 58 ∷ two_digits (r % 60)

unfoldable pub fmt_clock : {F : Type 0} ⦃g : Maths F⦄ → ℤ → F → List ℕ
unfolding day_time
fmt_clock ⦃g⦄ offset ts = day_time (rem_euclid (g.as_i64 (g.floor ts) +ℤ offset) 86400)

abbrev pub to_upper : ℕ → ℕ
to_upper c = if leb 97 c && leb c 122 then c - 32 else c

-- `eq_ignore_ascii_case`
unfoldable pub same_letters : List ℕ → List ℕ → Bool
same_letters [] [] = Bool.true
same_letters [] (d ∷ t) = Bool.false
same_letters (c ∷ s) [] = Bool.false
same_letters (c ∷ s) (d ∷ t) = to_upper c == to_upper d && same_letters s t

-- The text before the first colon, and the texts behind it.
unfoldable pub split_colon : List ℕ → List ℕ × List (List ℕ)
split_colon [] = ([], [])
split_colon (c ∷ s) =
    let rest = split_colon s in if c == 58 then ([], rest.0 ∷ rest.1) else (c ∷ rest.0, rest.1)

abbrev pub signed_offset : ℤ → Option ℤ → Option ℤ → Option ℤ
signed_offset sign (some h) (some m) = some (sign *ℤ (h *ℤ pos 3600 +ℤ m *ℤ pos 60))
signed_offset sign h m = none

abbrev pub minutes_part : List (List ℕ) → List ℕ
minutes_part [] = 48 ∷ []
minutes_part (m ∷ rest) = m

-- `trim` and the parsing of an i64 are the standard library's.
module _ (trim : List ℕ → List ℕ) (parse_i64 : List ℕ → Option ℤ) where
  unfoldable pub offset_after : ℤ → List ℕ → Option ℤ
  unfolding split_colon
  offset_after sign body =
      let parts = split_colon body in
      signed_offset sign (parse_i64 parts.0) (parse_i64 (minutes_part parts.1))

  unfoldable pub signed_by : List ℕ → Option ℤ
  unfolding offset_after
  signed_by [] = none
  signed_by (c ∷ body) =
      let east = offset_after (pos 1) body in
      let west = offset_after (negsuc 0) body in
      if c == 43 then east else if c == 45 then west else none

  unfoldable pub parse_fixed_offset : List ℕ → Option ℤ
  unfolding same_letters signed_by
  parse_fixed_offset tz =
      let t = trim tz in
      if same_letters t (85 ∷ 84 ∷ 67 ∷ [])
        || same_letters t (71 ∷ 77 ∷ 84 ∷ [])
        || (length t == 1 && get_or t 0 0 == 90)
        || length t == 0
      then some (pos 0)
      else signed_by t

-- A big-endian number of four bytes at o.
unfoldable pub u32be : List ℕ → ℕ → ℕ
u32be blob o =
    ((get_or blob o 0 * 256 + get_or blob (o + 1) 0) * 256 + get_or blob (o + 2) 0) * 256
    + get_or blob (o + 3) 0

unfoldable pub i32be : List ℕ → ℕ → ℤ
unfolding u32be
i32be blob o =
    if ltb (u32be blob o) 2147483648
    then pos (u32be blob o)
    else pos (u32be blob o) -ℤ pos 4294967296

-- The loop over the types, `left` of them from o on.
unfoldable pub first_standard : List ℕ → ℕ → ℕ → Option ℤ
unfolding i32be
first_standard blob o zero = none
first_standard blob o (suc left) =
    let later = first_standard blob (o + 6) left in
    if ltb (length blob) (o + 6)
    then none
    else if get_or blob (o + 4) 0 == 0
    then some (i32be blob o)
    else later

-- /etc/localtime, where it could be read.
unfoldable pub tzif_std_offset : Option (List ℕ) → Option ℤ
unfolding first_standard u32be
tzif_std_offset none = none
tzif_std_offset (some blob) =
    if ltb (length blob) 44 || not (is_tzif blob)
    then none
    else first_standard blob (44 + u32be blob 32 * 5) (u32be blob 36)
  where
    is_tzif : List ℕ → Bool
    is_tzif blob =
        get_or blob 0 0 == 84
        && get_or blob 1 0 == 90
        && get_or blob 2 0 == 105
        && get_or blob 3 0 == 102
