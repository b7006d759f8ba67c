-- ===== src/Console/Newest.antt =====
-- What Subscriber::drain (crates/loa-wire/src/lib.rs) hands to the console of a queue.
use loa.Base.{◌≡◌, refl, Option, none, some, List, [], ◌∷◌, ◌++◌, All}
use loa.Wire.Contract.{Codec, ok, Msg, decode}
use loa.Console.{Model, apply, drain, turn}

-- A message that the contract takes.
abbrev pub Decodes : {F Bytes : Type 0} → Codec F Bytes → Bytes × Bytes → Type 0
Decodes {F} c parts = (msg : Msg F) × (decode c parts ≡ ok msg)

module _ {F Bytes : Type 0} (c : Codec F Bytes) where
  drain-last :
      (queue : List (Bytes × Bytes)) (parts : Bytes × Bytes) (msg : Msg F) (last : Option (Msg F))
      → All (Decodes c) queue
      → decode c parts ≡ ok msg
      → drain c last (queue ++ parts ∷ []) ≡ (ok (some msg), [])
  unfolding drain
  drain-last [] parts msg last h e = rw (e, drain) refl
  drain-last (p ∷ queue) parts msg last ((m, k), h) e =
      rw (k, drain) (drain-last queue parts msg (some m) h e)

  -- When every queued message decodes, one turn of the feed's thread empties the queue and applies
  -- the newest message alone, whatever stood before it.
  pub turn-newest :
      (v : Model F) (queue : List (Bytes × Bytes)) (parts : Bytes × Bytes) (msg : Msg F)
      → All (Decodes c) queue
      → decode c parts ≡ ok msg
      → turn c v (queue ++ parts ∷ []) ≡ (apply v msg.env, [])
  unfolding turn
  turn-newest v queue parts msg h e = rw (drain-last queue parts msg none h e) refl
