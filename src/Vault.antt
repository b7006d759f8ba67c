-- ===== src/Vault.antt =====
-- The vault (crates/loa-cortex/src/vault.rs): a sealed journal on disk, which a request without
-- the token destroys. The disk holds what each file holds, or nothing; its I/O errors other than a
-- missing file are left out. A byte is a number below 256.
pub mod Fernet
pub mod Journal
pub mod Door
pub mod Compare
pub mod Kept
pub mod Gone
mod Examples
use loa.Base.{
  ℕ, String, ◌⊎◌, Bool, true, false, ◌&&◌, Option, none, List, [], ◌∷◌, ◌==◌, bit_or, bit_xor,
  length, if◌then◌else◌,
}

abbrev pub Bytes : Type 0
Bytes = List ℕ

-- A line of access.log.
pub record Access (F : Type 0) : Type 0 where
  pub ts : F
  pub event : String
  pub detail : ℕ ⊎ String

-- What status.json says.
pub record Status : Type 0 where
  pub sealed : Bool
  pub entries : ℕ
  pub access_count : ℕ
  pub hash : Option Bytes
  pub marker : Option String

pub record Disk (F : Type 0) : Type 0 where
  pub key_bin : Option Bytes
  pub token_bin : Option Bytes
  pub vault_enc : Option Bytes
  pub marker : Option String
  pub access_log : List (Access F)
  pub status : Option Status

-- The crates that the vault calls: base64, the ciphers and digests, JSON and the text conversions.
pub record Tools (F Entry : Type 0) : Type 0 where
  pub encode64 : Bytes → Bytes  -- URL_SAFE_NO_PAD.encode
  pub decode64 : Bytes → Option Bytes  -- URL_SAFE_NO_PAD.decode
  pub encrypt : Bytes → Bytes → Bytes → Bytes  -- AES-128-CBC with padding: key, IV, plain
  pub decrypt : Bytes → Bytes → Bytes → Option Bytes
  pub hmac : Bytes → Bytes → Bytes  -- HMAC-SHA256: key, message
  pub sha256 : Bytes → Bytes
  pub hex : Bytes → Bytes
  pub to_vec : List Entry → Bytes  -- serde_json
  pub from_slice : Bytes → Option (List Entry)
  pub trimmed : Bytes → Option Bytes  -- read_to_string and trim: none where it is not UTF-8
  pub entry_of : F → String → Entry  -- json!({"ts": .., "entry": ..})

-- What one call draws from outside: random bytes and the clocks.
pub record Moment (F : Type 0) : Type 0 where
  pub key : Bytes  -- 32 random bytes
  pub token : Bytes  -- 32 random bytes
  pub iv : Bytes  -- 16 random bytes
  pub secs : ℕ  -- now_f() as u64
  pub now : F
  pub stamp : String
  pub young : Bool  -- is status.json at most a second old?

-- `for (x, y) in a.iter().zip(b) { diff |= x ^ y; }`
unfoldable pub diff_of : ℕ → Bytes → Bytes → ℕ
diff_of diff (x ∷ xs) (y ∷ ys) = diff_of (bit_or diff (bit_xor x y)) xs ys
diff_of diff _ _ = diff

unfoldable pub constant_time_eq : Bytes → Bytes → Bool
constant_time_eq a b = if length a == length b then diff_of 0 a b == 0 else false

abbrev pub is_empty : Bytes → Bool
is_empty [] = true
is_empty (b ∷ bs) = false

-- The '=' off the end.
unfoldable pub strip_pad : Bytes → Bytes
strip_pad [] = []
strip_pad (b ∷ bs) = let rest = strip_pad bs in if is_empty rest && (b == 61) then [] else b ∷ rest
