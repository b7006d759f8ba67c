-- ===== src/Wire/Contract/Examples.antt =====
-- The contract on the codec of Blob.
use loa.Base.{String, ◌≡◌, ◌≢◌, refl, ◌⊎◌, true, some, if◌then◌else◌}
use loa.Base.Int.{ℤ, pos}
use loa.Wire.Pb.{no_pir, Body, pir, Envelope}
use loa.Wire.Contract.{
  ok, err, envelope, encode, decode, checked, body_name, name_of, body_allowed, route_parts,
  no_route, topic_mismatch,
}
use loa.Wire.Contract.Blob.{text, message, codec, codec-IsLossless}
use loa.Wire.Contract.Laws.{Relays, decode-encode, decode-route_parts}

abbrev body : Body ℤ
body = pir (record no_pir { high = some true; on_ts = some (pos 5) })

abbrev env : Envelope ℤ
env = envelope body

encode_pir : encode codec "pir" env ≡ ok (text "pir", message env)
unfolding encode checked body_name body_allowed envelope name_of
encode_pir = refl

decode-encode_example :
    decode codec (text "pir", message env) ≡ ok (record { topic = "pir"; env = env })
decode-encode_example = decode-encode codec codec-IsLossless "pir" env encode_pir

decode-route_parts_example :
    ((◌≢◌ {A = String} "oled" "oled")
      × (◌≢◌ {A = String} "oled" "ring")
      × (route_parts codec (text "oled", message (envelope body)) ≡ err (no_route "oled")))
    ⊎ ((out : String) × Relays "oled" out
        × (route_parts codec (text "oled", message (envelope body))
            ≡ ok (text out, message (envelope body)))
        × (decode codec (text out, message (envelope body)) ≡ (
            if body_allowed out (name_of body)
            then ok (record { topic = out; env = envelope body })
            else err (topic_mismatch out (name_of body)))))
decode-route_parts_example = decode-route_parts codec codec-IsLossless "oled" body
