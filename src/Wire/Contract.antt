-- ===== src/Wire/Contract.antt =====
-- crates/loa-wire/src/lib.rs: which payload may ride which topic, and the relay's routes. The
-- protobuf encoder (prost) and the UTF-8 conversions are the operations of a `Codec`.
pub mod Laws
pub mod Blob
mod Examples
use loa.Base.{
  ℕ, String, ◌≡◌, Bool, true, false, ◌&&◌, ◌||◌, Option, none, some, List, [], ◌∷◌, ◌==◌, str_eq,
  any, if◌then◌else◌,
}
use loa.Wire.Pb.{Body, ripperdoc, ring, pir, sonar, weather, power, fault, event, init, Envelope}

abbrev pub schema_version : ℕ
schema_version = 11

abbrev pub topics : List String
topics =
    "state" ∷ "ripperdoc" ∷ "ring" ∷ "pir" ∷ "sonar" ∷ "weather" ∷ "power" ∷ "fault" ∷ "event"
    ∷ "init" ∷ []

abbrev pub aliases : List (String × String)
aliases = ("state", "ripperdoc") ∷ []

abbrev pub routes : List (String × String)
routes = ("oled", "ripperdoc") ∷ ("ring", "ring") ∷ []

unfoldable pub body_allowed : String → String → Bool
body_allowed topic body =
    str_eq topic body || any (λ p. str_eq p.0 topic && str_eq p.1 body) aliases

-- `TOPICS.contains(&topic)`
unfoldable pub topic_known : String → Bool
topic_known topic = any (λ t. str_eq t topic) topics

pub data Error : Type 0 where
  schema_mismatch : ℕ → Error
  topic_mismatch : String → String → Error
  unknown_topic : String → Error
  no_route : String → Error
  no_body : Error
  zmq : String → Error

-- Result<T>, with this crate's Error.
pub data Result {ℓ} (T : Type ℓ) : Type ℓ where
  err : Error → Result T
  ok : T → Result T

-- `if !holds { return Err(e); }`
abbrev pub check : Bool → Error → Result (Unit {0})
check false e = err e
check true e = ok tt

abbrev pub ok_or {ℓ} : {A : Type ℓ} → Option A → Error → Result A
ok_or none e = err e
ok_or (some a) e = ok a

-- The `?` operator.
infixl 5 ◌>>=◌
abbrev pub ◌>>=◌ {ℓ κ} : {T : Type ℓ} {S : Type κ} → Result T → (T → Result S) → Result S
err e >>= next = err e
ok t >>= next = next t

unfoldable pub name_of : {F : Type 0} → Body F → String
name_of (ripperdoc _) = "ripperdoc"
name_of (ring _) = "ring"
name_of (pir _) = "pir"
name_of (sonar _) = "sonar"
name_of (weather _) = "weather"
name_of (power _) = "power"
name_of (fault _) = "fault"
name_of (event _) = "event"
name_of (init _) = "init"

pub record Msg (F : Type 0) : Type 0 where
  pub topic : String
  pub env : Envelope F

-- prost's `encode_to_vec` and `decode`, `str::as_bytes`, `from_utf8_lossy` and `from_utf8`.
pub record Codec (F Bytes : Type 0) : Type 0 where
  pub encode_to_vec : Envelope F → Bytes
  pub decode_envelope : Bytes → Result (Envelope F)
  pub as_bytes : String → Bytes
  pub from_utf8_lossy : Bytes → String
  pub from_utf8 : Bytes → Option String

-- What the contract relies on: an encoded envelope decodes to itself, and a text's bytes are read
-- back as that text.
pub record IsLossless {F Bytes : Type 0} (c : Codec F Bytes) : Type 0 where
  pub envelope : (e : Envelope F) → c.decode_envelope (c.encode_to_vec e) ≡ ok e
  pub lossy : (s : String) → c.from_utf8_lossy (c.as_bytes s) ≡ s
  pub utf8 : (s : String) → c.from_utf8 (c.as_bytes s) ≡ some s

unfoldable pub body_name : {F : Type 0} → Envelope F → Option String
unfolding name_of
body_name env = elim env.body [ none ↦ none | some b ↦ some (name_of b) ]

unfoldable pub envelope : {F : Type 0} → Body F → Envelope F
envelope b = record { schema_version = schema_version; body = some b }

-- The pair of frames, if the version is this build's and the topic may carry the payload.
unfoldable pub checked : {F : Type 0} → String → Envelope F → Result (Unit {0})
checked topic env = do
  _ ← check (env.schema_version == schema_version) (schema_mismatch env.schema_version)
  body ← ok_or (body_name env) no_body
  check (body_allowed topic body) (topic_mismatch topic body)

module _ {F Bytes : Type 0} (c : Codec F Bytes) where
  unfoldable pub encode : String → Envelope F → Result (Bytes × Bytes)
  unfolding checked
  encode topic env = do _ ← checked topic env; ok (c.as_bytes topic, c.encode_to_vec env)

  unfoldable pub decode : Bytes × Bytes → Result (Msg F)
  unfolding checked
  decode (name, payload) = do
    let topic = c.from_utf8_lossy name
    _ ← check (topic_known topic) (unknown_topic topic)
    env ← c.decode_envelope payload
    _ ← checked topic env
    ok (record { topic = topic; env = env })

  abbrev pub route : List (String × String) → String → Option String
  route [] t = none
  route ((from, to) ∷ rest) t = if str_eq from t then some to else route rest t

  unfoldable pub route_parts : Bytes × Bytes → Result (Bytes × Bytes)
  route_parts (name, payload) = do
    inbound ← ok_or (c.from_utf8 name) (unknown_topic (c.from_utf8_lossy name))
    out ← ok_or (route routes inbound) (no_route inbound)
    ok (c.as_bytes out, payload)
