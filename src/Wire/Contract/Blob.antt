-- ===== src/Wire/Contract/Blob.antt =====
-- A codec for runs of crates/loa-wire/src/lib.rs: its bytes are the text or the envelope itself.
use loa.Base.{String, refl, Bool, false, Option, none, some, str_eq}
use loa.Base.Int.{ℤ}
use loa.Wire.Pb.{Envelope}
use loa.Wire.Contract.{Codec, IsLossless, Result, ok, err, no_body}

pub data Blob : Type 0 where
  text : String → Blob
  message : Envelope ℤ → Blob

abbrev pub read_message : Blob → Result (Envelope ℤ)
read_message (text s) = err no_body
read_message (message e) = ok e

abbrev pub read_lossy : Blob → String
read_lossy (text s) = s
read_lossy (message e) = ""

abbrev pub read_text : Blob → Option String
read_text (text s) = some s
read_text (message e) = none

abbrev pub codec : Codec ℤ Blob
codec = record {
  encode_to_vec = message;
  decode_envelope = read_message;
  as_bytes = text;
  from_utf8_lossy = read_lossy;
  from_utf8 = read_text;
}

pub codec-IsLossless : IsLossless codec
codec-IsLossless = record { envelope = λ e. refl; lossy = λ s. refl; utf8 = λ s. refl }

-- Equality, of texts.
abbrev pub same_text : Blob → Blob → Bool
same_text (text s) (text t) = str_eq s t
same_text a b = false
