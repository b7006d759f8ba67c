-- ===== src/Matrix/Feed.antt =====
-- What a feed says to the alert light of rust/loa-matrix/src/alert.rs, read off its messages.
use loa.Base.{
  ℕ, String, ◌+◌, ◌%◌, ◌^◌, ◌<◌, ◌≡◌, refl, ap, ◌∙◌, bit_and, inl, inr, false, ◌||◌, Option, none,
  some, List, [], ◌∷◌, ◌++◌, ltb, ◌==◌, str_eq, eq_iff, if◌then◌else◌, arith, Bool-cases,
  Option-cases,
}
use loa.Wire.Pb
use loa.Wire.Pb.{Body, Row}
use loa.Matrix.Alert.{
  Sigil, dark, attention, urgent, fault, Told, told_nothing, count_rows, rail, absorb, absorb_all,
  sigil,
}

abbrev later {ℓ} : {A : Type ℓ} → Option A → Option A → Option A
later none first = first
later (some a) first = some a

-- How many rows have this level.
abbrev pub count : String → List Row → ℕ
count level [] = 0
count level (r ∷ rows) = (if str_eq r.level level then 1 else 0) + count level rows

module _ {F : Type 0} where
  abbrev rows_of : Option (Body F) → Option (List Row)
  rows_of (some (Pb.fault m)) = some m.rows
  rows_of other = none

  abbrev word_of : Option (Body F) → Option String
  word_of (some (Pb.fault m)) = m.condition
  word_of other = none

  abbrev flags_of : Option (Body F) → Option F
  flags_of (some (Pb.power p)) = rail p.rails "throttled"
  flags_of other = none

  -- The last of some parts of the messages, oldest first.
  abbrev pub last_of {ℓ} :
      {A : Type ℓ} → (Option (Body F) → Option A) → List (Option (Body F)) → Option A
  last_of part [] = none
  last_of part (m ∷ rest) = later (last_of part rest) (part m)

abbrev pub or_else {ℓ} : {A : Type ℓ} → A → Option A → A
or_else old none = old
or_else old (some a) = a

-- How many rows of the last report have this level, in a u32.
abbrev pub counted : String → ℕ → Option (List Row) → ℕ
counted level old none = old
counted level old (some rows) = count level rows % 2 ^ 32

abbrev pub number_of {ℓ} : {F : Type ℓ} → (F → ℕ) → ℕ → Option F → ℕ
number_of as_u32 old none = old
number_of as_u32 old (some w) = as_u32 w

-- The sigil that a feed deserves, by its last report, the last condition word that a report had, and
-- the last throttle flags.
abbrev pub deserved : {F : Type 0} → (F → ℕ) → List (Option (Body F)) → Sigil
deserved as_u32 feed =
    let rows = last_of rows_of feed in
    let word = or_else "" (last_of word_of feed) in
    let flags = number_of as_u32 0 (last_of flags_of feed) in
    if ltb 0 (counted "fault" 0 rows) || str_eq word "hurts"
    then fault
    else if bit_and flags 1 == 1
    then urgent
    else if ltb 0 (counted "warn" 0 rows) || str_eq word "niggle"
    then attention
    else dark

-- What a feed leaves of what was told before.
abbrev told_by : {F : Type 0} → (F → ℕ) → Told → List (Option (Body F)) → Told
told_by as_u32 b feed = record {
  faults = counted "fault" b.faults (last_of rows_of feed);
  warns = counted "warn" b.warns (last_of rows_of feed);
  condition = or_else b.condition (last_of word_of feed);
  throttled = number_of as_u32 b.throttled (last_of flags_of feed);
}

count_rows_lem :
    (rows : List Row) (b : Told)
    → b.faults < 2 ^ 32
    → b.warns < 2 ^ 32
    → count_rows rows b ≡ record b {
      faults = (b.faults + count "fault" rows) % 2 ^ 32;
      warns = (b.warns + count "warn" rows) % 2 ^ 32;
    }
unfolding count_rows
count_rows_lem [] b hf hw = ground arith
count_rows_lem (r ∷ rows) b hf hw = elim (Bool-cases (str_eq r.level "fault")) [
  | inl e ↦
      let other : str_eq r.level "warn" ≡ false =
        ap (λ s. str_eq s "warn") ((eq_iff r.level "fault").0 e) in
      rw (e, other)
        (count_rows_lem rows (record b { faults = (b.faults + 1) % 2 ^ 32 }) (omega arith) hw
          ∙ ground arith)
  | inr e ↦ elim (Bool-cases (str_eq r.level "warn")) [
    | inl k ↦
        rw (e, k)
          (count_rows_lem rows (record b { warns = (b.warns + 1) % 2 ^ 32 }) hf (omega arith)
            ∙ ground arith)
    | inr k ↦ rw (e, k) (count_rows_lem rows b hf hw ∙ ground arith)
  ]
]

module _ {F : Type 0} (as_u32 : F → ℕ) where
  absorb-told_by : (b : Told) (m : Option (Body F)) → absorb as_u32 b m ≡ told_by as_u32 b (m ∷ [])
  unfolding absorb
  absorb-told_by b none = refl
  absorb-told_by b (some (Pb.fault m)) = elim (Option-cases m.condition) [
    | inl e ↦ rw e (
        count_rows_lem m.rows (record b { faults = 0; warns = 0 }) (omega arith) (omega arith)
        ∙ ground arith)
    | inr (c, e) ↦ rw e (
        count_rows_lem m.rows (record b { faults = 0; warns = 0; condition = c }) (omega arith)
          (omega arith)
        ∙ ground arith)
  ]
  absorb-told_by b (some (Pb.power p)) = elim (Option-cases (rail p.rails "throttled")) [
    | inl e ↦ rw e refl
    | inr (w, e) ↦ rw e refl
  ]
  absorb-told_by b (some other) = refl

  counted-later :
      (level : String) (old : ℕ) (a o : Option (List Row))
      → counted level (counted level old o) a ≡ counted level old (later a o)
  counted-later level old none o = refl
  counted-later level old (some rows) o = refl

  or_else-later :
      (old : String) (a o : Option String) → or_else (or_else old o) a ≡ or_else old (later a o)
  or_else-later old none o = refl
  or_else-later old (some s) o = refl

  number_of-later :
      (old : ℕ) (a o : Option F)
      → number_of as_u32 (number_of as_u32 old o) a ≡ number_of as_u32 old (later a o)
  number_of-later old none o = refl
  number_of-later old (some s) o = refl

  told_by-cons :
      (b : Told) (m : Option (Body F)) (feed : List (Option (Body F)))
      → told_by as_u32 (told_by as_u32 b (m ∷ [])) feed ≡ told_by as_u32 b (m ∷ feed)
  told_by-cons b m feed = λ i. record {
    faults = counted-later "fault" b.faults (last_of rows_of feed) (rows_of m) i;
    warns = counted-later "warn" b.warns (last_of rows_of feed) (rows_of m) i;
    condition = or_else-later b.condition (last_of word_of feed) (word_of m) i;
    throttled = number_of-later b.throttled (last_of flags_of feed) (flags_of m) i;
  }

  absorb_all-told_by :
      (b : Told) (feed : List (Option (Body F))) → absorb_all as_u32 b feed ≡ told_by as_u32 b feed
  unfolding absorb_all
  absorb_all-told_by b [] = refl
  absorb_all-told_by b (m ∷ feed) =
      absorb_all-told_by (absorb as_u32 b m) feed
      ∙ ap (λ x. told_by as_u32 x feed) (absorb-told_by b m)
      ∙ told_by-cons b m feed

  -- What the light makes of a whole feed is the sigil that the feed deserves.
  pub sigil-deserved :
      (feed : List (Option (Body F)))
      → sigil (absorb_all as_u32 told_nothing feed) ≡ deserved as_u32 feed
  unfolding sigil
  sigil-deserved feed = ap sigil (absorb_all-told_by told_nothing feed)

  pub absorb_all-append :
      (b : Told) (xs ys : List (Option (Body F)))
      → absorb_all as_u32 b (xs ++ ys) ≡ absorb_all as_u32 (absorb_all as_u32 b xs) ys
  unfolding absorb_all
  absorb_all-append b [] ys = refl
  absorb_all-append b (m ∷ xs) ys = absorb_all-append (absorb as_u32 b m) xs ys
