-- ===== src/Console/Served.antt =====
-- What the console (crates/ripperdoc/src/view.rs) shows after requests at the door of the cortex
-- (crates/loa-cortex/src/http.rs), when it takes the messages off its queue one at a time.
use loa.Base.{String, ◌≡◌, ap, sym, ◌∙◌, inl, inr, Bool, true, Option, List, [], ◌∷◌, subst}
use loa.Base.Floats.{Floats}
use loa.Wire.Contract.{Codec, IsLossless}
use loa.Vault.{Disk, Tools, Moment}
use loa.Cortex.{Cortex}
use loa.Cortex.Verbs.{Logged}
use loa.Cortex.Process.{republish}
use loa.Cortex.Door.{Value, Request, route}
use loa.Cortex.Announced.{on_all_news, EndsChanged, IsTold, route-IsTold, changed_last}
use loa.Console.{Model}
use loa.Console.Follows.{Shows, watch, both_parts, news-Shows, republish-Shows}

-- A request with the times that the code reads: the vault's and the message's, and the store's word.
abbrev pub Turn : Type 0 → Type 0
Turn F = Moment F × Request × F × Bool

module _ {F Entry B : Type 0} ⦃f : Floats F⦄ (t : Tools F Entry) (c : Codec F B)
    (same : B → B → Bool) (scalars : Logged → List (String × String)) (heard : B × B → Bool)
    (from_str : String → Option Value) where
  -- The door answers, the cortex publishes the news, and the console takes them.
  unfoldable pub served : Cortex F × Disk F × Model F → Turn F → Cortex F × Disk F × Model F
  unfolding route on_all_news watch
  served (cx, d, v) (w, q, now, db_down) =
      let (o, news) = route t from_str w cx d q in
      (o.cortex, o.disk, watch c heard v (on_all_news c same scalars now db_down o.cortex news))

  unfoldable pub served_all :
      Cortex F × Disk F × Model F → List (Turn F) → Cortex F × Disk F × Model F
  unfolding served
  served_all s [] = s
  served_all s (q ∷ rest) = served_all (served s q) rest

  module _ (lossless : IsLossless c)
      (hears : (payload : B) → heard (c.as_bytes "ripperdoc", payload) ≡ true) where
    served-Shows :
        (cx : Cortex F) (d : Disk F) (v : Model F) (turn : Turn F)
        → Shows v cx.st
        → (let (cx', d', v') = served (cx, d, v) turn in Shows v' cx'.st)
    unfolding served IsTold EndsChanged
    served-Shows cx d v (w, q, now, db_down) h =
        let (o, news) = route t from_str w cx d q in
        elim (route-IsTold t cx d from_str w q) [
          | inl e ↦
              news-Shows c heard lossless same scalars now db_down o.cortex hears news v
                (subst (λ x. Shows v x.st) (sym e) h)
          | inr (before, e) ↦
              subst (λ l. Shows (watch c heard v l) o.cortex.st)
                (sym (
                  ap (on_all_news c same scalars now db_down o.cortex) e
                  ∙ changed_last c same scalars now db_down o.cortex before))
                (both_parts c heard (λ m. Shows m o.cortex.st) v
                  (on_all_news c same scalars now db_down o.cortex before)
                  (republish c same scalars now db_down o.cortex)
                  (republish-Shows c heard lossless same scalars now db_down o.cortex hears _))
        ]

    -- Over a lossless codec, and with a subscription that lets the ripperdoc topic through:
    -- whatever requests come to the door, refused or not, a console that shows the cortex's words
    -- (page, mood, mode, ring state, flip, dim, sonar and console flags) before them shows the
    -- words of the state that they leave, if it takes each message by itself.
    pub served_all-Shows :
        (cx : Cortex F) (d : Disk F) (v : Model F) (turns : List (Turn F))
        → Shows v cx.st
        → (let (cx', d', v') = served_all (cx, d, v) turns in Shows v' cx'.st)
    unfolding served_all
    served_all-Shows cx d v [] h = h
    served_all-Shows cx d v (q ∷ rest) h =
        let (cx', d', v') = served (cx, d, v) q in
        served_all-Shows cx' d' v' rest (served-Shows cx d v q h)
