-- ===== src/Vault/Door.antt =====
-- The vault's commands at the door: dispatch (crates/loa-cortex/src/http.rs).
use loa.Base.{ℕ, String, Option, none, some, List, [], ◌∷◌, if◌then◌else◌}
use loa.Vault.{Bytes, Access, Status, Disk, Tools, Moment}
use loa.Vault.Journal.{append, read, wipe, check_token, health}

-- A command, with the entry and the token if the request has them.
pub data Command : Type 0 where
  vault_health : Command
  vault_append : Option String → Option Bytes → Command
  vault_read : Option Bytes → Command

pub data Out (F Entry : Type 0) : Type 0 where
  bad forbidden gone : Out F Entry
  healthy : Status → Out F Entry
  appended : ℕ → Out F Entry
  opened : List Entry → List (Access F) → Out F Entry

abbrev pub or_empty : Option Bytes → Bytes
or_empty none = []
or_empty (some b) = b

module _ {F Entry : Type 0} (t : Tools F Entry) where
  abbrev pub append_response : Disk F × Option ℕ → Disk F × Out F Entry
  append_response (d, none) = (d, gone)
  append_response (d, some n) = (d, appended n)

  abbrev pub read_response : Disk F × Option (List Entry × List (Access F)) → Disk F × Out F Entry
  read_response (d, none) = (d, gone)
  read_response (d, some (es, lines)) = (d, opened es lines)

  unfoldable pub dispatch : Moment F → Disk F → Command → Disk F × Out F Entry
  dispatch w d vault_health = let (d', s) = health t w d in (d', healthy s)
  dispatch w d (vault_append none token) = (d, bad)
  dispatch w d (vault_append (some entry) token) =
      if check_token t d (or_empty token)
      then append_response (append t w entry d)
      else (wipe t w "append without token" d, forbidden)
  dispatch w d (vault_read token) =
      if check_token t d (or_empty token)
      then read_response (read t w d)
      else (wipe t w "read without token" d, forbidden)

  -- The commands that come in one after the other.
  unfoldable pub dispatch_all : Disk F → List (Moment F × Command) → Disk F
  dispatch_all d [] = d
  dispatch_all d ((w, c) ∷ rest) = dispatch_all (dispatch w d c).0 rest
