-- ===== src/Matrix/Rules.antt =====
-- Rules for the runs of rust/loa-matrix/src/ht16k33.rs: what holds before one and after it, and that
-- it ends with Ok.
use loa.Base.{
  ℕ, zero, suc, ◌+◌, ◌%◌, ◌≤◌, ◌≡◌, refl, Bool, true, false, false≢true, List, [], ◌∷◌, Option,
  none, some, replicate, arith,
}
use loa.Matrix.{Matrix, clear, frame_len}
use loa.Matrix.Panel.{
  after, Effect, sent, slept, Rig, Run, ◌▷◌, edit, wait, for_each, repeat, write, flush, brightness,
  blank, show_for,
}

-- The chip's display memory after these effects: what the last frame wrote. A frame starts at
-- address 0; the first byte of a command is not zero.
unfoldable pub shown : List Effect → Option (List ℕ)
shown [] = none
shown (slept t ∷ log) = shown log
shown (sent [] ∷ log) = shown log
shown (sent (zero ∷ frame) ∷ log) = some frame
shown (sent (suc c ∷ bytes) ∷ log) = shown log

abbrev pub no_light : List ℕ
no_light = replicate frame_len 0

-- From a rig with P, the run ends with Ok, and with Q.
unfoldable pub Hoare : (Rig → Type 0) → Run → (Rig → Type 0) → Type 0
Hoare P run Q = (r : Rig) → P r → ((run r).0 ≡ true) × Q (run r).1

unfoldable pub Any : Rig → Type 0
Any r = Unit

unfoldable pub Dark : Rig → Type 0
Dark r = shown r.log ≡ some no_light

pub after_ok :
    (Q : Rig → Type 0) (o : Bool × Rig) (b : Run)
    → o.0 ≡ true
    → ((b o.1).0 ≡ true) × Q (b o.1).1
    → ((after o b).0 ≡ true) × Q (after o b).1
after_ok Q (true, r) b e h = h
after_ok Q (false, r) b e h = absurd (false≢true e)

pub ▷-Hoare : (P Q R : Rig → Type 0) (a b : Run) → Hoare P a Q → Hoare Q b R → Hoare P (a ▷ b) R
unfolding Hoare ◌▷◌
▷-Hoare P Q R a b ha hb r p = let (ok, q) = ha r p in after_ok R (a r) b ok (hb (a r).1 q)

pub for_each-Hoare :
    {A : Type 0} (P : Rig → Type 0) (xs : List A) (body : A → Run)
    → ((x : A) → Hoare P (body x) P)
    → Hoare P (for_each xs body) P
unfolding for_each Hoare
for_each-Hoare P [] body h r p = (refl, p)
for_each-Hoare P (x ∷ xs) body h r p =
    ▷-Hoare P P P (body x) (for_each xs body) (h x) (for_each-Hoare P xs body h) r p

pub repeat-Hoare :
    (P : Rig → Type 0) (n : ℕ) (body : Run) → Hoare P body P → Hoare P (repeat n body) P
unfolding repeat Hoare
repeat-Hoare P zero body h r p = (refl, p)
repeat-Hoare P (suc n) body h r p =
    ▷-Hoare P P P body (repeat n body) h (repeat-Hoare P n body h) r p

-- A run that needs nothing at its start starts anywhere.
pub anywhere : (P Q : Rig → Type 0) (run : Run) → Hoare Any run Q → Hoare P run Q
unfolding Hoare Any
anywhere P Q run h r p = h r tt

abbrev pub seven : List ℕ
seven = 1 ∷ 2 ∷ 3 ∷ 4 ∷ 5 ∷ 6 ∷ 7 ∷ []

-- Repeated at least once.
pub repeat_some :
    (Q : Rig → Type 0) (n : ℕ) (body : Run) → 1 ≤ n → Hoare Any body Q → Hoare Any (repeat n body) Q
unfolding repeat
repeat_some Q zero body le h = absurd (omega (arith, le))
repeat_some Q (suc n) body le h =
    ▷-Hoare Any Q Q body (repeat n body) h (repeat-Hoare Q n body (anywhere Q Q body h))

pub quiet : (run : Run) → Hoare Any run Dark → Hoare Any run Any
unfolding Hoare Any
quiet run h r p = ((h r p).0, tt)

pub wait-Any : (t : ℕ) → Hoare Any (wait t) Any
unfolding Hoare Any
wait-Any t r p = (refl, tt)

pub wait-Dark : (t : ℕ) → Hoare Dark (wait t) Dark
unfolding Hoare Dark shown
wait-Dark t r p = (refl, p)

pub edit-Any : (f : Matrix → Matrix) → Hoare Any (edit f) Any
unfolding Hoare Any
edit-Any f r p = (refl, tt)

module _ (accepts : List Effect → List ℕ → Bool)
    (open_bus : (log : List Effect) (bytes : List ℕ) → accepts log bytes ≡ true) where
  pub write-Any : (bytes : List ℕ) → Hoare Any (write accepts bytes) Any
  unfolding Hoare Any write
  write-Any bytes r p = rw (open_bus r.log bytes) (refl, tt)

  pub flush-Any : Hoare Any (flush accepts) Any
  unfolding Hoare Any flush
  flush-Any r p = write-Any (0 ∷ r.matrix.frame) r tt

  pub brightness-Any : (level : ℕ) → Hoare Any (brightness accepts level) Any
  unfolding brightness
  brightness-Any level = write-Any ((224 + level % 16) ∷ [])

  pub blank-Dark : Hoare Any (blank accepts) Dark
  unfolding Hoare Any Dark blank ◌▷◌ flush write clear shown
  blank-Dark r p = rw (open_bus r.log (0 ∷ no_light)) (refl, refl)

  pub show_for-Dark : (t : ℕ) (draw : Matrix → Matrix) → Hoare Any (show_for accepts t draw) Dark
  unfolding show_for
  show_for-Dark t draw = ▷-Hoare Any Any Dark (edit draw) _ (edit-Any draw) (
      ▷-Hoare Any Any Dark (flush accepts) _ flush-Any
        (▷-Hoare Any Any Dark (wait t) (blank accepts) (wait-Any t) blank-Dark))
