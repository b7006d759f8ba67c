-- ===== src/Fault/Health.antt =====
-- The body that a sweep of crates/loa-fault/src/lib.rs finds nothing wrong with, check by check.
use loa.Base.{
  ℕ, String, ◌≡◌, refl, ap, ◌∙◌, ◌↔◌, Bool, true, false, not, ◌&&◌, ◌||◌, Option, none, some, List,
  [], ◌∷◌, ◌++◌, any, str_eq, eq_iff, ◌==◌, ltb, bit_and, arith,
}
use loa.Base.Floats.{Floats}
use loa.Fault.{
  Row, SvcState, active, looping, inactive, failed, unknown, is_fault, is_warn, insert,
  sort_by_level, sweep_condition,
}
use loa.Fault.Probes.{Formats, Inputs, units, bus_owners, sensor_keys, or_default, contains}
use loa.Fault.Checks.{
  unit_rows, units_check, bus_rows, bus_check, rails_check, sensor_rows, sensor_check, disk_check,
  api_check, i2c_check, probed, evaluate,
}

-- No row is a fault or a warning.
unfoldable pub quiet : List Row → Bool
quiet [] = true
quiet (r ∷ rs) = (not (is_fault r) && not (is_warn r)) && quiet rs

quiet-append : (xs ys : List Row) → quiet (xs ++ ys) ≡ (quiet xs && quiet ys)
unfolding quiet
quiet-append [] ys = refl
quiet-append (x ∷ xs) ys = ground (arith, quiet-append xs ys)

quiet-insert : (r : Row) (rs : List Row) → quiet (insert r rs) ≡ quiet (r ∷ rs)
unfolding quiet insert
quiet-insert r [] = refl
quiet-insert r (s ∷ ss) = ground (arith, quiet-insert r ss)

quiet-cons : (r : Row) (xs ys : List Row) → quiet xs ≡ quiet ys → quiet (r ∷ xs) ≡ quiet (r ∷ ys)
unfolding quiet
quiet-cons r xs ys e = ap (λ b. (not (is_fault r) && not (is_warn r)) && b) e

quiet-sort : (rs : List Row) → quiet (sort_by_level rs) ≡ quiet rs
unfolding sort_by_level
quiet-sort [] = refl
quiet-sort (r ∷ rs) =
    quiet-insert r (sort_by_level rs) ∙ quiet-cons r (sort_by_level rs) rs (quiet-sort rs)

quiet-any : (rs : List Row) → quiet rs ≡ (not (any is_fault rs) && not (any is_warn rs))
unfolding quiet
quiet-any [] = refl
quiet-any (r ∷ rs) = ground (arith, quiet-any rs)

well_iff_quiet :
    (rows : List Row) {b : Bool} → quiet rows ≡ b → (sweep_condition rows ≡ "well") ↔ (b ≡ true)
unfolding sweep_condition
well_iff_quiet rows e =
    ground (arith, quiet-any rows, e, eq_iff "hurts" "well", eq_iff "niggle" "well")

abbrev pub is_active : SvcState → Bool
is_active active = true
is_active _ = false

abbrev pub rails_well : Option ℕ → Bool
rails_well none = true
rails_well (some bits) = (bit_and bits 0x1 == 0) && (bit_and bits 0xE == 0)

abbrev pub all {ℓ} : {A : Type ℓ} → (A → Bool) → List A → Bool
all p [] = true
all p (x ∷ xs) = p x && all p xs

module _ {F : Type 0} ⦃f : Floats F⦄ where
  abbrev pub unit_well : Inputs F → String → Bool
  unit_well i unit = is_active (or_default (i.services unit) (unknown, false)).0

  -- A bus that is there is held by the daemon that owns it.
  abbrev pub bus_well : Inputs F → String × String → Bool
  bus_well i (bus, expected) =
      let (node, holders) = or_default (i.bus bus) (false, []) in
      not node || any (λ h. contains h expected) holders

  abbrev pub reading_well : F → Option F × Option F → Bool
  reading_well now (none, ts) = true
  reading_well now (some v, none) = false
  reading_well now (some v, some ts) = not (f.lt (f.lit 600 1) (f.sub now ts))

  abbrev pub sensor_well : Inputs F → String × String → Bool
  sensor_well i (label, key) = reading_well i.now (or_default (i.sensors key) (none, none))

  abbrev pub disk_well : Option (ℕ × F × F) → Bool
  disk_well none = true
  disk_well (some (used, free, total)) = ltb used 85

  abbrev pub healthy : Inputs F → Bool
  healthy i =
      all (unit_well i) units
      && (all (bus_well i) bus_owners
          && (rails_well i.throttled
              && (all (sensor_well i) sensor_keys
                  && (disk_well i.disk
                      && ((str_eq i.cortex_state "active" && i.api_listening)
                          && (i.i2c_door || not i.device_tree))))))

  module _ (s : Formats F) where
    quiet-unit_rows :
        (unit : String) (state : SvcState) (present : Bool)
        → quiet (unit_rows s unit state present) ≡ is_active state
    unfolding quiet unit_rows
    quiet-unit_rows unit active present = refl
    quiet-unit_rows unit looping present = refl
    quiet-unit_rows unit inactive present = ground arith
    quiet-unit_rows unit failed present = refl
    quiet-unit_rows unit unknown present = refl

    quiet-bus_rows :
        (bus expected : String) (node : Bool) (holders : List String)
        → quiet (bus_rows s bus expected node holders)
          ≡ (not node || any (λ h. contains h expected) holders)
    unfolding quiet bus_rows
    quiet-bus_rows bus expected false holders = refl
    quiet-bus_rows bus expected true holders = ground arith

    quiet-rails :
        (bits : Option ℕ) (temp : Option F) → quiet (rails_check s bits temp) ≡ rails_well bits
    unfolding quiet rails_check
    quiet-rails none temp = refl
    quiet-rails (some bits) temp = ground arith

    quiet-sensor_rows :
        (label key : String) (now : F) (value ts : Option F)
        → quiet (sensor_rows s label key now value ts) ≡ reading_well now (value, ts)
    unfolding quiet sensor_rows
    quiet-sensor_rows label key now none ts = refl
    quiet-sensor_rows label key now (some v) none = refl
    quiet-sensor_rows label key now (some v) (some ts) = ground arith

    quiet-disk : (disk : Option (ℕ × F × F)) → quiet (disk_check s disk) ≡ disk_well disk
    unfolding quiet disk_check
    quiet-disk none = refl
    quiet-disk (some (used, free, total)) = ground arith

    quiet-api :
        (i : Inputs F) → quiet (api_check s i) ≡ (str_eq i.cortex_state "active" && i.api_listening)
    unfolding quiet api_check
    quiet-api i = ground arith

    quiet-i2c : (door present : Bool) → quiet (i2c_check s door present) ≡ (door || not present)
    unfolding quiet i2c_check
    quiet-i2c door present = ground arith

    quiet-units_check :
        (i : Inputs F) (unit : String) → quiet (units_check s i unit) ≡ unit_well i unit
    unfolding units_check
    quiet-units_check i unit = quiet-unit_rows unit _ _

    quiet-bus_check : (i : Inputs F) (b : String × String) → quiet (bus_check s i b) ≡ bus_well i b
    unfolding bus_check
    quiet-bus_check i (bus, expected) = quiet-bus_rows bus expected _ _

    quiet-sensor_check :
        (i : Inputs F) (k : String × String) → quiet (sensor_check s i k) ≡ sensor_well i k
    unfolding sensor_check
    quiet-sensor_check i (label, key) = quiet-sensor_rows label key i.now _ _

    quiet-probed : (i : Inputs F) → quiet (probed s i) ≡ healthy i
    unfolding probed quiet
    quiet-probed i = simp (
      quiet-append, quiet-units_check, quiet-bus_check, quiet-sensor_check, quiet-rails, quiet-disk,
      quiet-api, quiet-i2c,
    )

    -- A sweep calls the body well exactly when every unit is active, every bus that is there is held
    -- by its owner, the rails hold, no reading is old or undated, the disk is under its mark, the
    -- door answers and the I2C bus has its device.
    pub evaluate-well : (i : Inputs F) → ((evaluate s i).1 ≡ "well") ↔ (healthy i ≡ true)
    unfolding evaluate
    evaluate-well i =
        well_iff_quiet (sort_by_level (probed s i)) (quiet-sort (probed s i) ∙ quiet-probed i)
