-- ===== src/Ring/Replay.antt =====
-- Records on the ring: the memory of crates/loa-ring/src/render.rs and the ladder of tells.rs.
use loa.Base.{
  ℕ, String, ◌≡◌, refl, ◌⊎◌, inl, inr, true, false, ◌||◌, Option, some, List, [], ◌∷◌, str_eq,
  eq_iff, eq_refl, arith, ==_iff,
}
use loa.Base.Floats.{Floats}
use loa.Ring.Tells.{Tell, RingInput, scan, glitch, well, niggle, pick_tell}
use loa.Ring.Held.{Renderer, note_oneshot, was_seen, was_seen-note}

module _ {F : Type 0} ⦃f : Floats F⦄ where
  -- Notes with the clock's reading at each: (clock, word, ts).
  unfoldable pub note_all : Renderer F → List (F × String × F) → Renderer F
  note_all r [] = r
  note_all r ((t, word, ts) ∷ rest) = note_all (note_oneshot t r word ts) rest

  was_seen-note_all :
      (r : Renderer F) (notes : List (F × String × F)) (w : String) (n : ℕ)
      → was_seen w n r.seen ≡ true
      → was_seen w n (note_all r notes).seen ≡ true
  unfolding note_all
  was_seen-note_all r [] w n h = h
  was_seen-note_all r ((t, word, ts) ∷ rest) w n h =
      was_seen-note_all (note_oneshot t r word ts) rest w n (was_seen-note t r word ts w n h)

  -- A word that is not of a record leaves the renderer as it is; one that is, is seen.
  seen_of_note :
      (t : F) (r : Renderer F) (word : String) (ts : F)
      → ((str_eq word "scan" || str_eq word "glitch") ≡ false)
        ⊎ (was_seen word (f.to_bits ts) (note_oneshot t r word ts).seen ≡ true)
  unfolding note_oneshot was_seen
  seen_of_note t r word ts =
      ground (arith, eq_refl word, (==_iff (f.to_bits ts) (f.to_bits ts)).1 refl)

  note_seen :
      (t : F) (r : Renderer F) (word : String) (ts : F)
      → ((str_eq word "scan" || str_eq word "glitch") ≡ false)
        ⊎ (was_seen word (f.to_bits ts) r.seen ≡ true)
      → note_oneshot t r word ts ≡ r
  unfolding note_oneshot
  note_seen t r word ts h = ground arith

  seen_later :
      (r : Renderer F) (notes : List (F × String × F)) (word : String) (n : ℕ)
      → ((str_eq word "scan" || str_eq word "glitch") ≡ false) ⊎ (was_seen word n r.seen ≡ true)
      → ((str_eq word "scan" || str_eq word "glitch") ≡ false)
        ⊎ (was_seen word n (note_all r notes).seen ≡ true)
  seen_later r notes word n (inl e) = inl e
  seen_later r notes word n (inr e) = inr (was_seen-note_all r notes word n e)

  -- Once a record was noted, the same word with the same time changes nothing, at any later moment
  -- and whatever was noted in between.
  pub note_oneshot-replay :
      (t t' : F) (r : Renderer F) (word : String) (ts : F) (notes : List (F × String × F))
      → let heard = note_all (note_oneshot t r word ts) notes in
        note_oneshot t' heard word ts ≡ heard
  note_oneshot-replay t t' r word ts notes =
      note_seen t' (note_all (note_oneshot t r word ts) notes) word ts
        (seen_later (note_oneshot t r word ts) notes word (f.to_bits ts) (seen_of_note t r word ts))

-- A scan or a glitch plays only if that record waits, the state is at home, and the body is neither
-- hurt nor mute.
pub pick_tell-oneshot :
    (i : RingInput) (pending : Option Tell) (kind : Tell)
    → (kind ≡ scan) ⊎ (kind ≡ glitch)
    → pick_tell i pending ≡ kind
    → (pending ≡ some kind) × (i.ring_state ≡ "home") × ((i.cond ≡ well) ⊎ (i.cond ≡ niggle))
unfolding pick_tell
pick_tell-oneshot i pending kind k h = ground (arith, eq_iff i.ring_state "home")
