-- ===== src/Cortex/Heard.antt =====
-- The motion daemon's whole run (crates/loa-motion/src/main.rs, over crates/loa-sense/src/lib.rs) as
-- the cortex's inbox (crates/loa-cortex/src/main.rs) hears it.
use loa.Base.{
  ℕ, String, ◌≡◌, refl, sym, ◌∙◌, ap, subst, ◌↔◌, Bool, true, false, Option, none, some, List, [],
  ◌∷◌, ◌++◌, str_eq, Bool-cases, ◌&&◌, leb, inl, inr,
}
use loa.Base.Floats.{Floats}
use loa.Wire.Pb.{Body, Pir, pir, event}
use loa.Wire.Contract.{Codec, IsLossless, Result, ok, err, envelope, body_name, name_of}
use loa.Motion.{Machine, News, state, fire, full, new, seed, tick, reset_pending}
use loa.Motion.Process.{
  Poll, Labels, full_payload, send_news, send_all, sample_level, sample, send_seed, boot, main,
}
use loa.Sense.{
  Sense, opened, Arm, asked, ticked, expired, is_expired, answered, pushed, publish, send_event,
  republish_full, arm_turn, run_loop,
}
use loa.Cortex.{State, Cortex, default}
use loa.Cortex.Merge.{merge, merge_pir, present, present_some}
use loa.Cortex.Process.{on_inbox}
use loa.Cortex.Inbox.{encode-name_of, on_inbox-reading}
use loa.Cortex.Mirror.{
  Mirrors, IsKnown, payload, merge_news, tick-Mirrors, full-Mirrors, seed-Mirrors,
}

module _ {F : Type 0} ⦃f : Floats F⦄ where
  IsKnown-again : (o : Option F) (old : Option F) → IsKnown o (present_some o old)
  IsKnown-again none old = tt
  IsKnown-again (some t) old = refl

  present_some-same : (o : Option F) (old : Option F) → old ≡ o → present_some o old ≡ o
  present_some-same none old h = h
  present_some-same (some t) old h = refl

  present-same :
      (o : Option F) (old : F) → old ≡ present o f.zero → present o old ≡ present o f.zero
  present-same none old h = h
  present-same (some t) old h = refl

  -- The full payload again, to a cortex that mirrors the daemon, changes nothing that it mirrors.
  again-Mirrors :
      (m : Machine F) (st : State F)
      → Mirrors m.remembered st
      → Mirrors m.remembered (merge_pir st (full m))
  unfolding merge_pir full
  again-Mirrors m st h = record {
    high = refl;
    count = refl;
    last_ts = present_some-same m.remembered.last_ts st.pir_last_ts h.last_ts;
    last_hold = present-same m.remembered.last_hold st.pir_last_hold h.last_hold;
    on_ts = IsKnown-again m.remembered.on_ts st.pir_on_ts;
  }

module _ {F Json Bytes : Type 0} ⦃f : Floats F⦄ (c : Codec F Bytes) (same : Bytes → Bytes → Bool)
    (scalars : Json → List (String × String)) (clock : Bytes × Bytes → F) (db_down : Bool) where
  -- The cortex after it has handled these pairs, in order, each at the clock's reading then.
  unfoldable pub hear : Cortex F → List (Bytes × Bytes) → Cortex F
  unfolding on_inbox
  hear x [] = x
  hear x (p ∷ rest) = hear (on_inbox c same scalars (clock p) db_down x p).cortex rest

  hear-append :
      (x : Cortex F) (ps qs : List (Bytes × Bytes)) → hear x (ps ++ qs) ≡ hear (hear x ps) qs
  unfolding hear
  hear-append x [] qs = refl
  hear-append x (p ∷ ps) qs =
      hear-append (on_inbox c same scalars (clock p) db_down x p).cortex ps qs

  module _ (lossless : IsLossless c)
      (same_iff : (s t : String)
        → (same (c.as_bytes s) (c.as_bytes t) ≡ true) ↔ (c.as_bytes s ≡ c.as_bytes t))
      (push : List (Bytes × Bytes) → Bytes × Bytes → Result (Unit {0}))
      (open_push : (sent : List (Bytes × Bytes)) (p : Bytes × Bytes) → push sent p ≡ ok tt)
      (labels : Labels) (cx : Cortex F) where
    abbrev parts : Body F → Bytes × Bytes
    parts b = (c.as_bytes (name_of b), c.encode_to_vec (envelope b))

    -- The cortex's state when it has handled all that the daemon sent.
    abbrev told : Sense Bytes → State F
    told s = (hear cx s.sent).st

    pushed-parts : (sent : List (Bytes × Bytes)) (b : Body F) → pushed c push sent b ≡ ok (parts b)
    unfolding pushed body_name envelope
    pushed-parts sent b = rw (encode-name_of c lossless b, open_push sent (parts b)) refl

    publish-sent :
        (s : Sense Bytes) (b : Body F) → (publish c push s b).0.sent ≡ s.sent ++ parts b ∷ []
    unfolding publish
    publish-sent s b = rw (pushed-parts s.sent b) refl

    hear-publish :
        (s : Sense Bytes) (b : Body F)
        → str_eq (name_of b) "ring" ≡ false
        → hear cx (publish c push s b).0.sent
          ≡ merge (clock (parts b)) (hear cx s.sent) (envelope b)
    unfolding hear
    hear-publish s b h =
        ap (hear cx) (publish-sent s b)
        ∙ hear-append cx s.sent (parts b ∷ [])
        ∙ (on_inbox-reading c same scalars (clock (parts b)) db_down (hear cx s.sent) b lossless
            same_iff h).0

    told-pir :
        (s : Sense Bytes) (p : Pir F) → told (publish c push s (pir p)).0 ≡ merge_pir (told s) p
    unfolding name_of merge envelope
    told-pir s p = ap (λ x. x.st) (hear-publish s (pir p) refl)

    told-send_event :
        (now : F) (kind : String) (detail : List (String × String)) (s : Sense Bytes)
        → told (send_event c push now kind detail s).0 ≡ told s
    unfolding send_event name_of merge envelope
    told-send_event now kind detail s =
        ap (λ x. x.st)
          (hear-publish s (event (record { ts = now; kind = kind; detail = detail })) refl)

    told-send_news :
        (p : Poll F) (n : News F) (s : Sense Bytes)
        → told (send_news c push labels p n s) ≡ merge_pir (told s) (payload n)
    unfolding send_news
    told-send_news p (state msg) s = told-pir s msg
    told-send_news p (fire msg n) s =
        told-send_event p.ring_ts "ring" _ _
        ∙ told-send_event p.sense_ts "sense" _ _
        ∙ told-pir s msg

    told-send_all :
        (p : Poll F) (news : List (News F)) (s : Sense Bytes)
        → told (send_all c push labels p news s) ≡ merge_news (told s) news
    unfolding send_all merge_news
    told-send_all p [] s = refl
    told-send_all p (n ∷ rest) s =
        told-send_all p rest (send_news c push labels p n s)
        ∙ ap (λ st. merge_news st rest) (told-send_news p n s)

    answered-sent : (r : Sense Bytes × Result (Unit {0})) → (answered c push r).0.sent ≡ r.0.sent
    answered-sent (s, err e) = refl
    answered-sent (s, ok _) = refl

    told-republish_full :
        (m : Machine F) (s : Sense Bytes)
        → told (republish_full c push (full_payload c push labels m) s).0
          ≡ merge_pir (told s) (full m)
    unfolding republish_full
    told-republish_full m s =
        ap (λ l. (hear cx l).st) (answered-sent (publish c push s (pir (full m))))
        ∙ told-pir s (full m)

    -- The cortex mirrors the daemon.
    abbrev Told : Machine F × Sense Bytes → Type 0
    Told w = Mirrors w.0.remembered (told w.1)

    sample_level-Told :
        (level : Option Bool) (p : Poll F) (m : Machine F) (s : Sense Bytes)
        → Told (m, s)
        → Told (sample_level c push labels level p m s)
    unfolding reset_pending
    sample_level-Told none p m s h = h
    sample_level-Told (some level) p m s h =
        let polled = tick m level p.now in
        subst (Mirrors polled.0.remembered) (sym (told-send_all p polled.1 s))
          (tick-Mirrors m level p.now (told s) h)

    arm_turn-Told :
        (from_secs_f64 : F → ℕ) (secs : F) (arm : Arm (Poll F)) (m : Machine F) (s : Sense Bytes)
        → Told (m, s)
        → Told (
            arm_turn c push from_secs_f64
              (full_payload c push labels)
              (sample c push labels)
              secs
              arm
              m
              s)
    unfolding arm_turn sample
    arm_turn-Told from_secs_f64 secs asked m s h =
        subst (Mirrors m.remembered) (sym (told-republish_full m s)) (again-Mirrors m (told s) h)
    arm_turn-Told from_secs_f64 secs (ticked p) m s h = sample_level-Told p.level p m s h
    arm_turn-Told from_secs_f64 secs expired m s h = h

    -- A turn of the loop ends it before or after its arm, or goes on.
    run_loop-Told :
        (from_secs_f64 : F → ℕ) (secs : F) (turns : List (ℕ × Arm (Poll F))) (m : Machine F)
        (s : Sense Bytes)
        → Told (m, s)
        → let done =
            run_loop c push from_secs_f64
              (full_payload c push labels)
              (sample c push labels)
              secs
              turns
              m
              s in
          Told (done.1, done.2)
    unfolding run_loop
    run_loop-Told from_secs_f64 secs [] m s h = h
    run_loop-Told from_secs_f64 secs ((elapsed, arm) ∷ rest) m s h =
        let after =
          arm_turn c push from_secs_f64 (full_payload c push labels) (sample c push labels) secs arm
            m s in
        let held = arm_turn-Told from_secs_f64 secs arm m s h in
        elim (Bool-cases (f.lt f.zero secs && leb (from_secs_f64 secs) elapsed)) [
          | inl e ↦ rw e h
          | inr e ↦ elim (Bool-cases (is_expired arm && f.lt f.zero secs)) [
            | inl e' ↦ rw (e, e') held
            | inr e' ↦ rw (e, e') (run_loop-Told from_secs_f64 secs rest after.0 after.1 held)
          ]
        ]

    send_seed-Told :
        (level : Option Bool) (now : F) (m : Machine F) (s : Sense Bytes)
        → Told (m, s)
        → Told (send_seed c push labels level now m s)
    send_seed-Told none now m s h = h
    send_seed-Told (some level) now m s h =
        subst (Mirrors (seed m level now).0.remembered) (sym (told-pir s (seed m level now).1))
          (seed-Mirrors m level now (told s) h)

    boot-Told :
        (cooldown boot_ts : F) (level : Option Bool) (now : F)
        → cx.st ≡ default
        → Told (boot c push labels cooldown opened boot_ts level now)
    unfolding boot hear
    boot-Told cooldown boot_ts level now fresh =
        let m = new cooldown in
        let whole = (publish c push opened (pir (full m))).0 in
        send_seed-Told level now m _ (
          subst (Mirrors m.remembered)
            (sym (
              told-send_event boot_ts "boot" _ whole
              ∙ told-pir opened (full m)
              ∙ ap (λ st. merge_pir st (full m)) fresh))
            (full-Mirrors m))

-- Over a lossless codec, an equality of bytes that is right on topics and a socket that takes every
-- pair: when the motion daemon and the cortex start together, then whatever the pin does, whichever
-- readings fail, however often the cortex asks and whenever the loop ends, a cortex that has handled
-- all that the daemon sent mirrors what the daemon remembers.
pub main-Mirrors :
    {F Json Bytes : Type 0} ⦃f : Floats F⦄ (c : Codec F Bytes) (same : Bytes → Bytes → Bool)
    (scalars : Json → List (String × String)) (clock : Bytes × Bytes → F) (db_down : Bool)
    (push : List (Bytes × Bytes) → Bytes × Bytes → Result (Unit {0})) (labels : Labels)
    (cx : Cortex F) (from_secs_f64 : F → ℕ) (secs cooldown boot_ts : F) (level : Option Bool)
    (now : F) (turns : List (ℕ × Arm (Poll F)))
    → IsLossless c
    → ((s t : String) → (same (c.as_bytes s) (c.as_bytes t) ≡ true) ↔ (c.as_bytes s ≡ c.as_bytes t))
    → ((sent : List (Bytes × Bytes)) (p : Bytes × Bytes) → push sent p ≡ ok tt)
    → cx.st ≡ default
    → let done = main c push labels from_secs_f64 secs cooldown boot_ts level now turns opened in
      Mirrors done.1.remembered (hear c same scalars clock db_down cx done.2.sent).st
unfolding main
main-Mirrors c same scalars clock db_down push labels cx from_secs_f64 secs cooldown boot_ts level
      now turns lossless same_iff open_push fresh =
    let ready = boot c push labels cooldown opened boot_ts level now in
    run_loop-Told c same scalars clock db_down lossless same_iff push open_push labels cx
      from_secs_f64 secs turns ready.0 ready.1
      (boot-Told c same scalars clock db_down lossless same_iff push open_push labels cx cooldown
        boot_ts level now fresh)
