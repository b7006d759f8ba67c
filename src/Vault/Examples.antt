-- ===== src/Vault/Examples.antt =====
-- A vault with transparent ciphers.
use loa.Base.{
  ℕ, ◌*◌, ◌/◌, ◌+◌, ◌≡◌, refl, ap₂, ◌↔◌, true, false, none, some, List, [], ◌∷◌, ◌++◌, map, length,
  replicate, arith,
}
use loa.Base.Int.{ℤ, pos}
use loa.Vault.{Bytes, Disk, Tools, Moment, constant_time_eq, diff_of, strip_pad}
use loa.Vault.Fernet.{fernet_decrypt, key_halves, opened, is_token}
use loa.Vault.Journal.{load, append, check_token, presented_token}
use loa.Vault.Door.{
  Command, vault_health, vault_append, vault_read, forbidden, dispatch, dispatch_all,
}
use loa.Vault.Kept.{IsSound, load-append}
use loa.Vault.Compare.{constant_time_eq_lem}
use loa.Vault.Gone.{lacks_token, load-lacks_token}

abbrev double : Bytes → Bytes
double b = map (λ c. c * 2) b

abbrev half : Bytes → Bytes
half b = map (λ c. c / 2) b

abbrev first_32 : Bytes
first_32 = replicate 32 7

-- Entries are numbers, and the codings double each byte or leave it.
abbrev tools : Tools ℤ ℕ
tools = record {
  encode64 = double;
  decode64 = λ b. some (half b);
  encrypt = λ k iv p. p;
  decrypt = λ k iv c. some c;
  hmac = λ k m. first_32;
  sha256 = λ b. b;
  hex = λ b. b;
  to_vec = λ es. es;
  from_slice = λ b. some b;
  trimmed = λ b. some b;
  entry_of = λ now text. 9;
}

half-double : (b : Bytes) → half (double b) ≡ b
half-double [] = refl
half-double (c ∷ b) = ap₂ (λ x xs. x ∷ xs) (omega arith) (half-double b)

-- An even byte is no pad.
strip_pad-double : (b : Bytes) → strip_pad (double b) ≡ double b
unfolding strip_pad
strip_pad-double [] = refl
strip_pad-double (c ∷ b) = rw (strip_pad-double b) (ground arith)

tools-IsSound : IsSound tools
tools-IsSound = record {
  decode64 = λ b i. some (half-double b i);
  unpadded = strip_pad-double;
  trimmed = λ b. refl;
  decrypt = λ k iv p. refl;
  hmac_length = λ k m. refl;
  from_slice = λ es. refl;
}

abbrev moment : Moment ℤ
moment = record {
  key = replicate 32 5;
  token = replicate 32 6;
  iv = replicate 16 3;
  secs = 1758000000;
  now = pos 1758000000;
  stamp = "2026-09-16 05:20:00 +0000";
  young = false;
}

-- A disk whose journal holds one entry.
abbrev disk : Disk ℤ
disk = record {
  key_bin = some (double (replicate 32 5));
  token_bin = some (replicate 32 6);
  vault_enc = some (double (0x80 ∷ replicate 8 0 ++ (replicate 16 3 ++ (4 ∷ [] ++ first_32))));
  marker = none;
  access_log = [];
  status = none;
}

disk_loads : load tools disk ≡ some (4 ∷ [])
unfolding load fernet_decrypt key_halves opened is_token strip_pad constant_time_eq diff_of
disk_loads = refl

load-append_example :
    (load tools (append tools moment "a word" disk).0
      ≡ some ((4 ∷ []) ++ tools.entry_of moment.now "a word" ∷ []))
    × ((append tools moment "a word" disk).1 ≡ some (length {A = ℕ} (4 ∷ []) + 1))
    × ((append tools moment "a word" disk).0.token_bin ≡ disk.token_bin)
load-append_example = load-append tools tools-IsSound moment "a word" disk (4 ∷ []) refl disk_loads

constant_time_eq_example :
    (constant_time_eq (1 ∷ 2 ∷ []) (1 ∷ 3 ∷ []) ≡ true)
    ↔ (◌≡◌ {A = Bytes} (1 ∷ 2 ∷ []) (1 ∷ 3 ∷ []))
constant_time_eq_example = constant_time_eq_lem (1 ∷ 2 ∷ []) (1 ∷ 3 ∷ [])

abbrev intruder : Command
intruder = vault_append (some "mine") (some (1 ∷ 2 ∷ []))

intruder-lacks_token : lacks_token tools disk intruder ≡ true
unfolding check_token constant_time_eq presented_token
intruder-lacks_token = refl

abbrev later : List (Moment ℤ × Command)
later = (moment, vault_health) ∷ (moment, vault_read (some first_32)) ∷ []

load-lacks_token_example :
    ((dispatch tools moment disk intruder).1 ≡ forbidden)
    × (load tools (dispatch tools moment disk intruder).0 ≡ none)
    × (load tools (dispatch_all tools (dispatch tools moment disk intruder).0 later) ≡ none)
load-lacks_token_example = load-lacks_token tools moment disk intruder later intruder-lacks_token
