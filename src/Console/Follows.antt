-- ===== src/Console/Follows.antt =====
-- What the console (crates/ripperdoc/src/view.rs) shows after the news of the cortex
-- (crates/loa-cortex/src/main.rs), when it takes the messages off its queue one at a time.
use loa.Base.{
  String, ◌≡◌, refl, sym, inl, inr, Bool, true, List, [], ◌∷◌, ◌++◌, if◌then◌else◌, Bool-cases,
  subst,
}
use loa.Base.Floats.{Floats}
use loa.Wire.Pb.{Body}
use loa.Wire.Contract.{Codec, IsLossless, Result, ok, err, encode, envelope, name_of}
use loa.Wire.Contract.Laws.{decode-encode}
use loa.Cortex.{Cortex, State}
use loa.Cortex.Verbs.{Logged}
use loa.Cortex.Build.{build_state, build_ripperdoc, build_ring, build_fault}
use loa.Cortex.Process.{
  News, event_news, state_changed, publish, sent_of, republish, on_news, build_event,
}
use loa.Cortex.Inbox.{encode-name_of}
use loa.Cortex.Announced.{on_all_news}
use loa.Console.{Model, apply, drain, turn}

-- The console's words are the state's.
unfoldable pub Shows : {F : Type 0} → Model F → State F → Type 0
Shows v st =
    (v.page ≡ st.page)
    × (v.mood ≡ st.mood)
    × (v.oled_mode ≡ st.oled_mode)
    × (v.ring_state ≡ st.ring_state)
    × (v.oled_flip ≡ st.oled_flip)
    × (v.oled_dim ≡ st.oled_dim)
    × (v.snr_on ≡ st.snr_on)
    × (v.ripperdoc ≡ st.ripperdoc)

-- `heard` is the subscription: which messages reach the console.
module _ {F B : Type 0} (c : Codec F B) (heard : B × B → Bool) where
  -- The console takes each message that it hears off a queue of one.
  unfoldable pub watch : Model F → List (B × B) → Model F
  unfolding turn
  watch v [] = v
  watch v (parts ∷ rest) =
      if heard parts then watch (turn c v (parts ∷ [])).0 rest else watch v rest

  watch-append : (v : Model F) (xs ys : List (B × B)) → watch v (xs ++ ys) ≡ watch (watch v xs) ys
  unfolding watch
  watch-append v [] ys = refl
  watch-append v (p ∷ xs) ys = elim (Bool-cases (heard p)) [
    | inl e ↦ rw e (watch-append (turn c v (p ∷ [])).0 xs ys)
    | inr e ↦ rw e (watch-append v xs ys)
  ]

  pub both_parts {κ} :
      (P : Model F → Type κ) (v : Model F) (xs ys : List (B × B))
      → P (watch (watch v xs) ys)
      → P (watch v (xs ++ ys))
  both_parts P v xs ys = subst P (sym (watch-append v xs ys))

  module _ (lossless : IsLossless c) where
    -- One message off the queue.
    turn-encode :
        (topic : String) (body : Body F) (v : Model F) {parts : B × B}
        → encode c topic (envelope body) ≡ ok parts
        → (turn c v (parts ∷ [])).0 ≡ apply v (envelope body)
    unfolding turn drain
    turn-encode topic body v sent =
        rw (decode-encode c lossless topic (envelope body) sent, turn, drain) refl

    -- A property that a message establishes, or keeps, whether it is heard or not.
    watch_sent {κ} :
        (P : Model F → Type κ) (topic : String) (body : Body F) (v : Model F) (r : Result (B × B))
        → encode c topic (envelope body) ≡ r
        → P v
        → P (apply v (envelope body))
        → P (watch v (sent_of r))
    unfolding watch
    watch_sent P topic body v (err e) sent h k = h
    watch_sent P topic body v (ok parts) sent h k = elim (Bool-cases (heard parts)) [
      | inl e ↦ rw (e, turn-encode topic body v sent) k
      | inr e ↦ rw e h
    ]

    watch-publish {κ} :
        (P : Model F → Type κ) (topic : String) (body : Body F) (v : Model F)
        → P v
        → P (apply v (envelope body))
        → P (watch v (publish c topic body))
    unfolding publish
    watch-publish P topic body v h k =
        watch_sent P topic body v (encode c topic (envelope body)) refl h k

    watch_taken :
        (body : Body F) (v : Model F)
        → heard (c.as_bytes (name_of body), c.encode_to_vec (envelope body)) ≡ true
        → watch v (publish c (name_of body) body) ≡ apply v (envelope body)
    unfolding publish watch
    watch_taken body v h =
        rw
          (
            encode-name_of c lossless body,
            h,
            turn-encode (name_of body) body v (encode-name_of c lossless body),
          )
          refl

    module _ ⦃f : Floats F⦄ (same : B → B → Bool) (scalars : Logged → List (String × String))
        (now : F) (db_down : Bool) (cx : Cortex F) where
      -- What leaves the words alone.
      publish-Shows :
          (topic : String) (body : Body F) (v : Model F)
          → Shows v cx.st
          → Shows (apply v (envelope body)) cx.st
          → Shows (watch v (publish c topic body)) cx.st
      publish-Shows = watch-publish (λ m. Shows m cx.st)

      publish_ring-Shows :
          (v : Model F)
          → Shows v cx.st
          → Shows (watch v (publish c "ring" (build_ring now cx.last_ring))) cx.st
      unfolding apply envelope build_ring Shows
      publish_ring-Shows v h = publish-Shows "ring" (build_ring now cx.last_ring) v h h

      publish_fault-Shows :
          (v : Model F)
          → Shows v cx.st
          → Shows (watch v (publish c "fault" (build_fault now cx db_down))) cx.st
      unfolding apply envelope build_fault Shows
      publish_fault-Shows v h = publish-Shows "fault" (build_fault now cx db_down) v h h

      publish_event-Shows :
          (kind : String) (detail : Logged) (v : Model F)
          → Shows v cx.st
          → Shows (watch v (publish c "event" (build_event c same scalars kind detail now))) cx.st
      unfolding apply envelope build_event Shows
      publish_event-Shows kind detail v h =
          publish-Shows "event" (build_event c same scalars kind detail now) v h h

      state-Shows :
          (v : Model F)
          → Shows v cx.st
          → Shows (watch v (publish c "state" (build_state now cx.st))) cx.st
      unfolding apply envelope build_state Shows
      state-Shows v h =
          publish-Shows "state" (build_state now cx.st) v h
            (refl, refl, refl, refl, refl, refl, refl, refl)

      module _ (hears : (payload : B) → heard (c.as_bytes "ripperdoc", payload) ≡ true) where
        ripperdoc-Shows :
            (v : Model F)
            → Shows (watch v (publish c "ripperdoc" (build_ripperdoc now cx.st cx.last_face))) cx.st
        unfolding apply envelope build_ripperdoc Shows name_of
        ripperdoc-Shows v =
            subst (λ m. Shows m cx.st)
              (sym (watch_taken (build_ripperdoc now cx.st cx.last_face) v (hears _)))
              (refl, refl, refl, refl, refl, refl, refl, refl)

        pub republish-Shows :
            (v : Model F) → Shows (watch v (republish c same scalars now db_down cx)) cx.st
        unfolding republish
        republish-Shows v =
            let P : Model F → Type 0 = λ m. Shows m cx.st in
            let state = publish c "state" (build_state now cx.st) in
            let console = publish c "ripperdoc" (build_ripperdoc now cx.st cx.last_face) in
            let ring = publish c "ring" (build_ring now cx.last_ring) in
            let fault = publish c "fault" (build_fault now cx db_down) in
            both_parts P v (state ++ console ++ ring) fault (
              publish_fault-Shows (watch v (state ++ console ++ ring)) (
                both_parts P v (state ++ console) ring (
                  publish_ring-Shows (watch v (state ++ console))
                    (both_parts P v state console (ripperdoc-Shows (watch v state))))))

        pub news-Shows :
            (news : List (News Logged)) (v : Model F)
            → Shows v cx.st
            → Shows (watch v (on_all_news c same scalars now db_down cx news)) cx.st
        unfolding on_all_news on_news watch
        news-Shows [] v h = h
        news-Shows (event_news kind detail ∷ rest) v h =
            both_parts (λ m. Shows m cx.st) v _ (on_all_news c same scalars now db_down cx rest)
              (news-Shows rest _ (publish_event-Shows kind detail v h))
        news-Shows (state_changed ∷ rest) v h =
            both_parts (λ m. Shows m cx.st) v _ (on_all_news c same scalars now db_down cx rest)
              (news-Shows rest _ (republish-Shows v))
