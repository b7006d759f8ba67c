-- ===== src/Vault/Fernet.antt =====
-- The Fernet token of crates/loa-cortex/src/vault.rs.
use loa.Base.{
  ℕ, ◌-◌, ◌/◌, ◌%◌, ◌^◌, Bool, true, false, Option, none, some, [], ◌∷◌, ◌++◌, ◌==◌, ltb, length,
  take, drop, get_or, if◌then◌else◌,
}
use loa.Vault.{Bytes, Disk, Tools, Moment, constant_time_eq, strip_pad}

infixl 5 ◌>>=◌
abbrev pub ◌>>=◌ {ℓ κ} : {A : Type ℓ} {B : Type κ} → Option A → (A → Option B) → Option B
none >>= f = none
some a >>= f = f a

-- An error's text is not kept: `none` is an Err.
abbrev pub ensure : Bool → Option (Unit {0})
ensure false = none
ensure true = some tt

-- u64::to_be_bytes
abbrev pub to_be_bytes : ℕ → Bytes
to_be_bytes n =
    n / 2 ^ 56 % 256
    ∷ n / 2 ^ 48 % 256
    ∷ n / 2 ^ 40 % 256
    ∷ n / 2 ^ 32 % 256
    ∷ n / 2 ^ 24 % 256
    ∷ n / 2 ^ 16 % 256
    ∷ n / 2 ^ 8 % 256
    ∷ n % 256
    ∷ []

module _ {F Entry : Type 0} (t : Tools F Entry) where
  -- The signing and the encrypting half.
  unfoldable pub key_halves : Bytes → Option (Bytes × Bytes)
  key_halves raw_b64 = do
    raw ← t.decode64 (strip_pad raw_b64)
    _ ← ensure (length raw == 32)
    some (take 16 raw, drop 16 raw)

  abbrev pub body_of : Bytes → Moment F → Bytes → Bytes
  body_of enc w plain = 0x80 ∷ to_be_bytes w.secs ++ (w.iv ++ t.encrypt enc w.iv plain)

  unfoldable pub fernet_encrypt : Moment F → Disk F → Bytes → Option Bytes
  unfolding key_halves
  fernet_encrypt w d plain = do
    key ← d.key_bin
    halves ← key_halves key
    let body = body_of halves.1 w plain
    some (t.encode64 (body ++ t.hmac halves.0 body))

  -- From the split on: the tag is checked before the cipher is touched.
  unfoldable pub opened : Bytes × Bytes → Bytes → Option Bytes
  opened (sign, enc) blob = do
    let body = take (length blob - 32) blob
    let sig = drop (length blob - 32) blob
    _ ← ensure (constant_time_eq (t.hmac sign body) sig)
    t.decrypt enc (take 16 (drop 9 body)) (drop 25 body)

  unfoldable pub is_token : Bytes → Bool
  is_token blob = if ltb (length blob) 57 then false else get_or blob 0 0 == 0x80

  unfoldable pub fernet_decrypt : Disk F → Bytes → Option Bytes
  unfolding key_halves is_token opened
  fernet_decrypt d token = do
    blob ← t.decode64 (strip_pad token)
    _ ← ensure (is_token blob)
    key ← d.key_bin
    halves ← key_halves key
    opened halves blob
