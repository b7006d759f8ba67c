-- ===== src/Cortex/Inbox.antt =====
-- A reading on its way through the cortex's inbox (crates/loa-cortex/src/main.rs) to the feed.
use loa.Base.{
  String, ◌≡◌, refl, ◌⊎◌, false≢true, inl, inr, ap, ap₂, sym, ◌∙◌, ◌↔◌, Bool, true, false, ◌||◌,
  Option, none, some, List, [], ◌∷◌, map, str_eq, eq_iff, eq_refl, Bool-cases,
}
use loa.Base.Floats.{Floats}
use loa.Wire.Pb
use loa.Wire.Pb.{Body, Envelope, Row}
use loa.Wire.Contract.{
  Codec, IsLossless, Result, ok, Msg, encode, decode, checked, body_name, body_allowed, envelope,
  name_of,
}
use loa.Wire.Contract.Laws.{decode-encode}
use loa.Cortex.{Cortex}
use loa.Cortex.Merge.{merge}
use loa.Cortex.Build.{build_pir, build_sonar, build_fault}
use loa.Cortex.Process.{
  build_weather, rebuilt, publish, is_frame, publish_rebuilt, on_reading, on_inbox,
}
use loa.Cortex.Answer.{answer, stored, samples-stored, rebuilt-answer}

not_routed :
    {F : Type 0} (b : Body F)
    → str_eq (name_of b) "ring" ≡ false
    → (str_eq "oled" (name_of b) || (str_eq "ring" (name_of b) || false)) ≡ false
unfolding name_of
not_routed (Pb.ring m) h = absurd (false≢true (sym h))
not_routed (Pb.ripperdoc m) h = refl
not_routed (Pb.pir m) h = refl
not_routed (Pb.sonar m) h = refl
not_routed (Pb.weather m) h = refl
not_routed (Pb.power m) h = refl
not_routed (Pb.fault m) h = refl
not_routed (Pb.event m) h = refl
not_routed (Pb.init m) h = refl

module _ {F Bytes : Type 0} (c : Codec F Bytes) (lossless : IsLossless c) where
  -- A payload may ride the topic of its own name.
  pub encode-name_of :
      (b : Body F)
      → encode c (name_of b) (envelope b)
        ≡ ok (c.as_bytes (name_of b), c.encode_to_vec (envelope b))
  unfolding encode checked body_name body_allowed envelope
  encode-name_of b = rw (eq_refl (name_of b)) refl

  decode-name_of :
      (b : Body F)
      → decode c (c.as_bytes (name_of b), c.encode_to_vec (envelope b))
        ≡ ok (record { topic = name_of b; env = envelope b })
  decode-name_of b = decode-encode c lossless (name_of b) (envelope b) (encode-name_of b)

  module _ (same : Bytes → Bytes → Bool)
      (same_iff : (s t : String)
        → (same (c.as_bytes s) (c.as_bytes t) ≡ true) ↔ (c.as_bytes s ≡ c.as_bytes t)) where
    same-as_bytes : (s t : String) → same (c.as_bytes s) (c.as_bytes t) ≡ str_eq s t
    same-as_bytes s t = elim (Bool-cases (str_eq s t)) [
      | inl e ↦ (same_iff s t).1 (ap c.as_bytes ((eq_iff s t).0 e)) ∙ sym e
      | inr e ↦ elim (Bool-cases (same (c.as_bytes s) (c.as_bytes t))) [
        | inr k ↦ k ∙ sym e
        | inl k ↦
            let text : s ≡ t =
              sym (lossless.lossy s)
              ∙ ap c.from_utf8_lossy ((same_iff s t).0 k)
              ∙ lossless.lossy t in
            absurd (false≢true (sym e ∙ (eq_iff s t).1 text))
      ]
    ]

    -- A device's topic but for the ring's is not a frame's.
    is_frame-name_of :
        (b : Body F)
        → str_eq (name_of b) "ring" ≡ false
        → is_frame c same (c.as_bytes (name_of b)) ≡ false
    unfolding is_frame
    is_frame-name_of b h =
        ap₂ (λ o r. o || (r || false)) (same-as_bytes "oled" (name_of b))
          (same-as_bytes "ring" (name_of b))
        ∙ not_routed b h

-- What the cortex publishes of a message carries the topic's own payload.
rebuilt-name :
    {F : Type 0} ⦃f : Floats F⦄ (now : F) (db_down : Bool) (cx : Cortex F) (b : Body F)
    → (rebuilt now db_down cx (some b) ≡ none)
      ⊎ ((out : Body F) × (rebuilt now db_down cx (some b) ≡ some (name_of out, out)))
unfolding rebuilt name_of build_pir build_sonar build_weather build_fault
rebuilt-name now db_down cx (Pb.pir m) = inr (build_pir now cx.st, refl)
rebuilt-name now db_down cx (Pb.sonar m) = inr (build_sonar now cx.st, refl)
rebuilt-name now db_down cx (Pb.weather m) = inr (build_weather now cx, refl)
rebuilt-name now db_down cx (Pb.fault m) = inr (build_fault now cx db_down, refl)
rebuilt-name now db_down cx other = inl refl

-- The messages that a consumer must read.
abbrev pub readable : {F : Type 0} → Option (String × Body F) → List (Result (Msg F))
readable none = []
readable (some (topic, body)) = ok (record { topic = topic; env = envelope body }) ∷ []

module _ {F Bytes : Type 0} (c : Codec F Bytes) (lossless : IsLossless c) where
  decode-publish :
      (out : Body F)
      → map (decode c) (publish c (name_of out) out) ≡ readable (some (name_of out, out))
  unfolding publish
  decode-publish out =
      rw (encode-name_of c lossless out) (ap (λ r. r ∷ []) (decode-name_of c lossless out))

  decode-publish_rebuilt :
      ⦃f : Floats F⦄ (now : F) (db_down : Bool) (cx : Cortex F) (b : Body F)
      → map (decode c) (publish_rebuilt c (rebuilt now db_down cx (some b)))
        ≡ readable (rebuilt now db_down cx (some b))
  decode-publish_rebuilt now db_down cx b = elim (rebuilt-name now db_down cx b) [
    | inl e ↦ rw e refl
    | inr (out, e) ↦ rw e (decode-publish out)
  ]

pub on_inbox-reading :
    {F Json Bytes : Type 0} ⦃f : Floats F⦄ (c : Codec F Bytes) (same : Bytes → Bytes → Bool)
    (scalars : Json → List (String × String)) (now : F) (db_down : Bool) (cx : Cortex F)
    (b : Body F)
    → IsLossless c
    → ((s t : String) → (same (c.as_bytes s) (c.as_bytes t) ≡ true) ↔ (c.as_bytes s ≡ c.as_bytes t))
    → str_eq (name_of b) "ring" ≡ false
    → let parts : Bytes × Bytes = (c.as_bytes (name_of b), c.encode_to_vec (envelope b)) in
      let done = on_inbox c same scalars now db_down cx parts in
      (done.cortex ≡ merge now cx (envelope b))
      × (map (decode c) done.sent ≡ readable (answer now db_down cx b))
      × (done.writes ≡ stored b)
unfolding on_inbox on_reading
on_inbox-reading c same scalars now db_down cx b lossless same_iff h =
    rw (is_frame-name_of c lossless same same_iff b h, decode-name_of c lossless b)
      (
        refl,
        decode-publish_rebuilt c lossless now db_down (merge now cx (envelope b)) b
            ∙ ap readable (rebuilt-answer now db_down cx b),
        samples-stored b,
      )
