-- ===== src/Cortex/Sample.antt =====
-- A vault, its disk and a request, for the runs of the door (crates/loa-cortex/src/http.rs).
use loa.Base.{ℕ, String, true, false, Option, none, some, [], ◌∷◌}
use loa.Base.Int.{ℤ, pos}
use loa.Vault.{Tools, Moment, Disk}
use loa.Cortex.Door.{Value, object, field, no_field}
use loa.Cortex.Door

abbrev pub vault_tools : Tools ℤ ℕ
vault_tools = record {
  encode64 = λ b. b;
  decode64 = λ b. some b;
  encrypt = λ k iv p. p;
  decrypt = λ k iv c. some c;
  hmac = λ k m. m;
  sha256 = λ b. b;
  hex = λ b. b;
  to_vec = λ es. es;
  from_slice = λ b. some b;
  trimmed = λ b. some b;
  entry_of = λ now text. 9;
}

abbrev pub moment : Moment ℤ
moment = record {
  key = 5 ∷ [];
  token = 6 ∷ [];
  iv = 3 ∷ [];
  secs = 1758000000;
  now = pos 1758000000;
  stamp = "2026-09-16 05:20:00 +0000";
  young = false;
}

abbrev pub vault_disk : Disk ℤ
vault_disk = record {
  key_bin = some (5 ∷ []);
  token_bin = some (6 ∷ []);
  vault_enc = none;
  marker = none;
  access_log = [];
  status = none;
}

-- A parse that takes every body for the same command.
abbrev pub parsed : String → String → Option Value
parsed word body = some (
    object (
      field "cmd" (Door.text "feel")
        (field "args" (object (field "feeling" (Door.text word) no_field)) no_field)))

abbrev pub api_post : Door.Request
api_post = record { url = "/api"; is_post = true; body = some "{}"; token = none }
