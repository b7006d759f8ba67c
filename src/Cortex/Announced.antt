-- ===== src/Cortex/Announced.antt =====
-- What the cortex (crates/loa-cortex/src/main.rs) publishes after a request at its door
-- (crates/loa-cortex/src/http.rs).
use loa.Base.{
  String, ◌≡◌, refl, ap, sym, ◌∙◌, ◌⊎◌, inl, inr, Bool, true, false, ◌||◌, Option, List, [], ◌∷◌,
  ◌++◌, str_eq, arith, Bool-cases, Option-cases, append_assoc, append-nil,
}
use loa.Base.Floats.{Floats}
use loa.Wire.Contract.{Codec}
use loa.Vault.{Bytes, Disk, Tools, Moment}
use loa.Cortex.{Cortex}
use loa.Cortex.Verbs.{Logged}
use loa.Cortex.Process.{News, event_news, state_changed, on_news, republish}
use loa.Cortex.Door.{Value, Request, Done, dispatch_cmd, is_state_verb, news_of, route}
use loa.Base.{by_if}
use loa.Cortex.Clean.{IsClean, dispatch_cmd-IsClean}
use loa.Cortex.Refused.{route-All}

-- `false || …`
none_of : {a b c : Bool} → (a || b || c) ≡ false → (a ≡ false) × (b ≡ false) × (c ≡ false)
none_of {a} {b} {c} h = (ground (arith, h), ground (arith, h), ground (arith, h))

module _ {F Entry : Type 0} (t : Tools F Entry) (cx : Cortex F) (d : Disk F) where
  Keeps : Done F Entry → Type 0
  Keeps o = o.cortex ≡ cx

  -- A command that is no state verb.
  quiet_command :
      (w : Moment F) (cmd : String) (args : Value) (token : Option Bytes)
      → is_state_verb t cmd ≡ false
      → Keeps (dispatch_cmd t w cx d cmd args token)
  unfolding dispatch_cmd Keeps
  quiet_command w cmd args token h =
      let (e1, e2, e3) =
        none_of {a = str_eq cmd "feel"} {b = str_eq cmd "display"} {c = str_eq cmd "ripperdoc"} h in
      rw (e1, e2, e3)
        (by_if Keeps (str_eq cmd "vault.health") _ _ refl (
          by_if Keeps (str_eq cmd "vault.append") _ _ refl
            (by_if Keeps (str_eq cmd "vault.read") _ _ refl refl)))

  unfoldable pub EndsChanged : List (News Logged) → Type 0
  EndsChanged news = (before : List (News Logged)) × (news ≡ before ++ state_changed ∷ [])

  moved_news :
      (cmd : String) (o : Done F Entry)
      → is_state_verb t cmd ≡ true
      → o.answer.status ≡ 200
      → EndsChanged (news_of t cmd o)
  unfolding news_of EndsChanged
  moved_news cmd o h s = elim (Option-cases o.event) [
    | inl e ↦ rw (e, s, h) ([], refl)
    | inr ((kind, detail), e) ↦ rw e (event_news kind detail ∷ [], refl)
  ]

  unfoldable pub IsTold : Done F Entry × List (News Logged) → Type 0
  IsTold (o, news) = (o.cortex ≡ cx) ⊎ EndsChanged news

  told :
      (w : Moment F) (cmd : String) (args : Value) (token : Option Bytes)
      → (let o = dispatch_cmd t w cx d cmd args token in IsTold (o, news_of t cmd o))
  unfolding IsTold IsClean Keeps
  told w cmd args token = elim (Bool-cases (is_state_verb t cmd)) [
    | inr e ↦ inl (quiet_command w cmd args token e)
    | inl e ↦ elim (dispatch_cmd-IsClean t cx d w cmd args token) [
      | inl s ↦ inr (moved_news cmd (dispatch_cmd t w cx d cmd args token) e s)
      | inr (h, _, _) ↦ inl h
    ]
  ]

  pub route-IsTold :
      (from_str : String → Option Value) (w : Moment F) (q : Request)
      → IsTold (route t from_str w cx d q)
  unfolding IsTold
  route-IsTold from_str w q = route-All t cx d IsTold (λ s b. inl refl) w (told w) from_str q

-- The door's news as the cortex hears them, in their order.
module _ {F B : Type 0} ⦃f : Floats F⦄ (c : Codec F B) (same : B → B → Bool)
    (scalars : Logged → List (String × String)) (now : F) (db_down : Bool) (cx : Cortex F) where
  unfoldable pub on_all_news : List (News Logged) → List (B × B)
  unfolding on_news
  on_all_news [] = []
  on_all_news (n ∷ rest) = (on_news c same scalars now db_down cx n).sent ++ on_all_news rest

  pub changed_last :
      (before : List (News Logged))
      → on_all_news (before ++ state_changed ∷ [])
        ≡ on_all_news before ++ republish c same scalars now db_down cx
  unfolding on_all_news
  changed_last [] = append-nil _
  changed_last (n ∷ before) =
      ap (λ l. (on_news c same scalars now db_down cx n).sent ++ l) (changed_last before)
      ∙ sym (append_assoc (on_news c same scalars now db_down cx n).sent _ _)

module _ {F Entry B : Type 0} ⦃f : Floats F⦄ (t : Tools F Entry) (c : Codec F B)
    (same : B → B → Bool) (scalars : Logged → List (String × String)) where
  -- Whatever a request is, either it leaves the cortex as it was, or the last messages that its news
  -- make the cortex send are the new state, console, ring and fault.
  pub route_announced :
      (from_str : String → Option Value) (w : Moment F) (cx : Cortex F) (d : Disk F) (q : Request)
      (now : F) (db_down : Bool)
      → (let (o, news) = route t from_str w cx d q in
          (o.cortex ≡ cx)
          ⊎ ((before : List (B × B)) × (on_all_news c same scalars now db_down o.cortex news
                ≡ before ++ republish c same scalars now db_down o.cortex)))
  unfolding IsTold EndsChanged
  route_announced from_str w cx d q now db_down = elim (route-IsTold t cx d from_str w q) [
    | inl h ↦ inl h
    | inr (before, e) ↦
        let (o, news) = route t from_str w cx d q in
        inr (
          on_all_news c same scalars now db_down o.cortex before,
          ap (on_all_news c same scalars now db_down o.cortex) e
              ∙ changed_last c same scalars now db_down o.cortex before,
        )
  ]
