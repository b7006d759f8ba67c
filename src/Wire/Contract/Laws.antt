-- ===== src/Wire/Contract/Laws.antt =====
-- The two ends of the contract of crates/loa-wire/src/lib.rs: encode and the relay against decode.
use loa.Base.{
  String, ◌≡◌, refl, if◌then◌else◌, Bool, true, false, ◌⊎◌, inl, inr, some, ◌==◌, str_eq, eq_iff,
  arith, Bool-cases, Option-cases, subst, ◌≢◌, sym, ◌∙◌, false≢true,
}
use loa.Wire.Pb.{Body, Envelope}
use loa.Wire.Contract.{
  body_allowed, Result, ok, err, name_of, Codec, IsLossless, body_name, checked, Error, topic_known,
  encode, decode, envelope, check, ◌>>=◌, schema_version, topic_mismatch, route_parts, no_route,
}

-- A `?` that went through had a value, and the rest of the function was given it.
>>=-ok-parts {ℓ κ} :
    {T : Type ℓ} {S : Type κ} (r : Result T) (next : T → Result S) {out : S}
    → r >>= next ≡ ok out
    → (t : T) × (r ≡ ok t) × (next t ≡ ok out)
>>=-ok-parts (err e) next passed = cc
>>=-ok-parts (ok t) next passed = (t, refl, passed)

check-eq-ok : (b : Bool) (e : Error) {u : Unit {0}} → check b e ≡ ok u → b ≡ true
check-eq-ok true e h = refl
check-eq-ok false e h = cc

name_of-known : {F : Type 0} (b : Body F) → topic_known (name_of b) ≡ true
unfolding name_of topic_known
name_of-known (Body.ripperdoc _) = refl
name_of-known (Body.ring _) = refl
name_of-known (Body.pir _) = refl
name_of-known (Body.sonar _) = refl
name_of-known (Body.weather _) = refl
name_of-known (Body.power _) = refl
name_of-known (Body.fault _) = refl
name_of-known (Body.event _) = refl
name_of-known (Body.init _) = refl

state_known : topic_known "state" ≡ true
unfolding topic_known
state_known = refl

-- A topic that may carry a payload is one that the feed knows.
topic_known_of_allowed :
    {F : Type 0} (topic : String) (b : Body F)
    → body_allowed topic (name_of b) ≡ true
    → topic_known topic ≡ true
unfolding body_allowed
topic_known_of_allowed topic b h = elim (Bool-cases (str_eq topic (name_of b))) [
  | inl e ↦ rw ((eq_iff topic (name_of b)).0 e) (name_of-known b)
  | inr e ↦
      let alias : topic ≡ "state" = ground (arith, h, e, eq_iff "state" topic) in
      rw alias state_known
]

-- What a passed check says of the envelope.
pub checked_ok :
    {F : Type 0} (topic : String) (env : Envelope F) {u : Unit {0}}
    → checked topic env ≡ ok u
    → (b : Body F) × (env.body ≡ some b) × (body_allowed topic (name_of b) ≡ true)
unfolding checked body_name
checked_ok topic env h =
    let (_, _, rest) = >>=-ok-parts (check (env.schema_version == schema_version) _) _ h in
    elim (Option-cases env.body) [
      | inl e ↦ cc (rw e at rest)
      | inr (b, e) ↦ (b, e, check-eq-ok _ _ (rw e at rest))
    ]

-- The relay's table: the face's frames go to the console's topic, the ring's to their own.
abbrev pub Relays : String → String → Type 0
Relays t out = ((t ≡ "oled") × (out ≡ "ripperdoc")) ⊎ ((t ≡ "ring") × (out ≡ "ring"))

module _ {F Bytes : Type 0} (c : Codec F Bytes) (lossless : IsLossless c) where
  decode_pair :
      (topic : String) (env : Envelope F)
      → topic_known topic ≡ true
      → checked topic env ≡ ok tt
      → decode c (c.as_bytes topic, c.encode_to_vec env) ≡ ok (record { topic = topic; env = env })
  unfolding decode
  decode_pair topic env known passed = simp (lossless.lossy, lossless.envelope, known, passed)

  -- Over a lossless codec, whatever a publisher's `encode` accepts, the consumer's `decode` accepts,
  -- and reads as the same topic and the same envelope.
  pub decode-encode :
      (topic : String) (env : Envelope F) {parts : Bytes × Bytes}
      → encode c topic env ≡ ok parts
      → decode c parts ≡ ok (record { topic = topic; env = env })
  unfolding encode
  decode-encode topic env h =
      let (u, passed, sent) = >>=-ok-parts (checked topic env) _ h in
      let (b, body, allowed) = checked_ok topic env passed in
      let eq : ◌≡◌ {A = Bytes × Bytes} (c.as_bytes topic, c.encode_to_vec env) _ = cc sent in
      subst (λ p. decode c p ≡ ok (record { topic = topic; env = env })) eq
        (decode_pair topic env (topic_known_of_allowed topic b allowed) passed)

  oled_known : topic_known "ripperdoc" ≡ true
  unfolding topic_known
  oled_known = refl

  ring_known : topic_known "ring" ≡ true
  unfolding topic_known
  ring_known = refl

  decode_relayed :
      (out : String) (b : Body F)
      → topic_known out ≡ true
      → decode c (c.as_bytes out, c.encode_to_vec (envelope b)) ≡ (
          if body_allowed out (name_of b)
          then ok (record { topic = out; env = envelope b })
          else err (topic_mismatch out (name_of b)))
  unfolding decode envelope body_name
  decode_relayed out b known = elim (Bool-cases (body_allowed out (name_of b))) [
    | inl e ↦ simp (lossless.lossy, lossless.envelope, known, e)
    | inr e ↦ simp (lossless.lossy, lossless.envelope, known, e)
  ]

  -- Over a lossless codec, a frame that a device pushes under its own name is relayed with its
  -- payload untouched when the name is oled, to ripperdoc, or ring, to ring, and refused under any
  -- other name; and where it is relayed the consumer accepts it exactly when the topic it went to
  -- may carry that payload, and names both halves of the disagreement if not.
  pub decode-route_parts :
      (t : String) (b : Body F)
      → ((t ≢ "oled")
          × (t ≢ "ring")
          × (route_parts c (c.as_bytes t, c.encode_to_vec (envelope b)) ≡ err (no_route t)))
        ⊎ ((out : String) × Relays t out
            × (route_parts c (c.as_bytes t, c.encode_to_vec (envelope b))
                ≡ ok (c.as_bytes out, c.encode_to_vec (envelope b)))
            × (decode c (c.as_bytes out, c.encode_to_vec (envelope b)) ≡ (
                if body_allowed out (name_of b)
                then ok (record { topic = out; env = envelope b })
                else err (topic_mismatch out (name_of b)))))
  unfolding route_parts
  decode-route_parts t b = elim (Bool-cases (str_eq "oled" t)) [
    | inl e ↦ inr (
      "ripperdoc",
      inl (sym ((eq_iff "oled" t).0 e), refl),
      simp (lossless.utf8, e),
      decode_relayed "ripperdoc" b oled_known,
    )
    | inr e ↦ elim (Bool-cases (str_eq "ring" t)) [
      | inl r ↦ inr (
        "ring",
        inr (sym ((eq_iff "ring" t).0 r), refl),
        simp (lossless.utf8, e, r),
        decode_relayed "ring" b ring_known,
      )
      | inr r ↦ inl (
        λ same. false≢true (sym e ∙ (eq_iff "oled" t).1 (sym same)),
        λ same. false≢true (sym r ∙ (eq_iff "ring" t).1 (sym same)),
        simp (lossless.utf8, e, r),
      )
    ]
  ]
