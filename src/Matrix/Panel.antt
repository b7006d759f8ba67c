-- ===== src/Matrix/Panel.antt =====
-- rust/loa-matrix/src/ht16k33.rs: what the host sends to the chip, over a bus that may refuse a
-- write. A wait is in nanoseconds; what is printed is left out.
use loa.Base.{ℕ, zero, suc, ◌+◌, ◌*◌, ◌%◌, Bool, true, false, List, [], ◌∷◌, if◌then◌else◌}
use loa.Matrix.{Matrix, clear, frame_len}
use loa.Base.{replicate}

pub data Effect : Type 0 where
  sent : List ℕ → Effect
  slept : ℕ → Effect

-- The host's side of the panel, and what happened so far, the latest first.
pub record Rig : Type 0 where
  pub matrix : Matrix
  pub log : List Effect

-- `true` is Ok(()), `false` the error of a refused write.
abbrev pub Run : Type 0
Run = Rig → Bool × Rig

abbrev pub milliseconds : ℕ → ℕ
milliseconds n = n * 1000000

abbrev pub seconds : ℕ → ℕ
seconds n = n * 1000000000

-- `run?; rest`
infixr 20 ◌▷◌
abbrev pub after : Bool × Rig → Run → Bool × Rig
after (true, r) rest = rest r
after (false, r) rest = (false, r)

unfoldable pub ◌▷◌ : Run → Run → Run
(run ▷ rest) r = after (run r) rest

abbrev pub done : Run
done r = (true, r)

-- A change of the host's memory, which sends nothing.
abbrev pub edit : (Matrix → Matrix) → Run
edit f r = (true, record r { matrix = f r.matrix })

abbrev pub wait : ℕ → Run
wait t r = (true, record r { log = slept t ∷ r.log })

-- `for x in xs { … }`
unfoldable pub for_each {ℓ} : {A : Type ℓ} → List A → (A → Run) → Run
for_each [] body = done
for_each (x ∷ xs) body = body x ▷ for_each xs body

-- `for _ in 0..n { … }`
unfoldable pub repeat : ℕ → Run → Run
repeat zero body = done
repeat (suc n) body = body ▷ repeat n body

-- `accepts` is the bus: does it take these bytes, after what happened so far?
module _ (accepts : List Effect → List ℕ → Bool) where
  unfoldable pub write : List ℕ → Run
  write bytes r =
      if accepts r.log bytes then (true, record r { log = sent bytes ∷ r.log }) else (false, r)

  -- One transaction: address 0, then the whole memory.
  unfoldable pub flush : Run
  unfolding write
  flush r = write (0 ∷ r.matrix.frame) r

  unfoldable pub brightness : ℕ → Run
  unfolding write
  brightness level = write ((224 + level % 16) ∷ [])

  unfoldable pub display : Bool → Run
  unfolding write
  display on = write ((if on then 129 else 128) ∷ [])

  -- Matrix::open, once the device file is open.
  unfoldable pub open_panel : ℕ → Run
  unfolding write brightness flush ◌▷◌
  open_panel level =
      edit (λ _. record { frame = replicate frame_len 0; rotation = 0 })
      ▷ write (33 ∷ [])
      ▷ write (160 ∷ [])
      ▷ brightness level
      ▷ flush
      ▷ write (129 ∷ [])

  -- `clear` and `flush`
  unfoldable pub blank : Run
  unfolding clear flush ◌▷◌
  blank = edit clear ▷ flush

  -- What the edit draws, shown for a time, and then a blank panel.
  unfoldable pub show_for : ℕ → (Matrix → Matrix) → Run
  unfolding flush blank ◌▷◌
  show_for t draw = edit draw ▷ flush ▷ wait t ▷ blank
