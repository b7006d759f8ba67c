-- ===== src/Vault/Journal.antt =====
-- The journal of crates/loa-cortex/src/vault.rs: ensure, the token, load, append, read and wipe.
use Prim.Native.String.{◌++◌ as append_text}
use loa.Base.{
  ℕ, ◌-◌, String, ◌⊎◌, inl, inr, Bool, true, false, Option, none, some, List, [], ◌∷◌, ◌++◌, ◌==◌,
  length, take, drop, replicate, if◌then◌else◌,
}
use loa.Vault.{Bytes, Access, Status, Disk, Tools, Moment, constant_time_eq, is_empty}
use loa.Vault.Fernet.{◌>>=◌, fernet_encrypt, fernet_decrypt}

abbrev pub is_some {ℓ} : {A : Type ℓ} → Option A → Bool
is_some none = false
is_some (some a) = true

abbrev pub count_of {ℓ} : {A : Type ℓ} → Option (List A) → ℕ
count_of none = 0
count_of (some es) = length es

-- metadata(..).len(), or 1
abbrev pub size_of : Option Bytes → ℕ
size_of none = 1
size_of (some b) = length b

abbrev pub or_bytes : Option Bytes → Bytes
or_bytes none = []
or_bytes (some b) = b

-- b"fragment"
abbrev pub seal_domain : Bytes
seal_domain = 102 ∷ 114 ∷ 97 ∷ 103 ∷ 109 ∷ 101 ∷ 110 ∷ 116 ∷ []

-- marker.txt, less the newline that its readers trim.
abbrev pub marker_of : String → String → String
marker_of stamp reason =
    append_text "SEALED "
      (append_text stamp (append_text " / OPENED BY " (append_text reason " / CONTENTS DESTROYED")))

module _ {F Entry : Type 0} (t : Tools F Entry) where
  unfoldable pub load : Disk F → Option (List Entry)
  unfolding fernet_decrypt
  load d = do
    enc ← d.vault_enc
    tok ← t.trimmed enc
    plain ← fernet_decrypt t d tok
    t.from_slice plain

  unfoldable pub status_now : Disk F → Status
  unfolding load
  status_now d = record {
    sealed = is_some (load d);
    entries = count_of (load d);
    access_count = length d.access_log;
    hash =
        if is_empty (or_bytes d.vault_enc)
        then none
        else some (t.hex (take 8 (t.sha256 (or_bytes d.vault_enc))));
    marker = d.marker;
  }

  unfoldable pub write_status : Disk F → Disk F
  unfolding status_now
  write_status d = record d { status = some (status_now d) }

  -- A status file that is at most a second old is served as it is.
  unfoldable pub public_status : Moment F → Disk F → Disk F × Status
  unfolding write_status
  public_status w d =
      if w.young
      then elim d.status [ none ↦ (write_status d, status_now d) | some s ↦ (d, s) ]
      else (write_status d, status_now d)

  unfoldable pub health : Moment F → Disk F → Disk F × Status
  unfolding public_status
  health w d =
      let (d', s) = public_status w d in
      (d', record s { sealed = is_some (load d); entries = count_of (load d) })

  unfoldable pub log_access : Moment F → String → ℕ ⊎ String → Disk F → Disk F
  log_access w event detail d = record d {
    access_log = d.access_log ++ record { ts = w.now; event = event; detail = detail } ∷ [];
  }

  abbrev pub or_new : Option Bytes → Bytes → Option Bytes
  or_new none fresh = some fresh
  or_new (some old) fresh = some old

  -- The journal file, if there is none: the encryption of an empty list.
  abbrev pub ensure_enc : Moment F → Disk F → Option (Disk F)
  ensure_enc w d = elim d.vault_enc [
    | none ↦ (do e ← fernet_encrypt t w d (91 ∷ 93 ∷ []); some (record d { vault_enc = some e }))
    | some old ↦ some d
  ]

  unfoldable pub ensure : Moment F → Disk F → Option (Disk F)
  unfolding write_status
  ensure w d = do
    d' ← ensure_enc w (record d {
      key_bin = or_new d.key_bin (t.encode64 w.key);
      token_bin = or_new d.token_bin w.token;
    })
    some (write_status d')

  unfoldable pub presented_token : Disk F → Bytes
  presented_token d = elim d.token_bin [
    | none ↦ []
    | some b ↦ if length b == 32 then t.hex (t.hmac b seal_domain) else []
  ]

  unfoldable pub check_token : Disk F → Bytes → Bool
  unfolding presented_token
  check_token d presented =
      if is_empty presented then false else constant_time_eq presented (presented_token d)

  -- The disk after it, and the number of entries, or `none` for an Err.
  unfoldable pub append : Moment F → String → Disk F → Disk F × Option ℕ
  unfolding write_status log_access
  append w entry d = elim (load d) [
    | none ↦ (d, none)
    | some es ↦
        let all = es ++ t.entry_of w.now entry ∷ [] in
        elim (fernet_encrypt t w d (t.to_vec all)) [
          | none ↦ (d, none)
          | some tok ↦ (
            write_status
                (log_access w "APPEND" (inl (length all)) (record d { vault_enc = some tok })),
            some (length all),
          )
        ]
  ]

  -- The entries, and the last 30 lines of the log.
  unfoldable pub read : Moment F → Disk F → Disk F × Option (List Entry × List (Access F))
  unfolding write_status log_access
  read w d =
      let d1 = log_access w "READ" (inl (count_of (load d))) d in
      elim (load d1) [
        | none ↦ (d1, none)
        | some es ↦ (write_status d1, some (es, drop (length d1.access_log - 30) d1.access_log))
      ]

  unfoldable pub wipe : Moment F → String → Disk F → Disk F
  unfolding write_status log_access
  wipe w reason d = write_status (
      log_access w "WIPED" (inr reason) (record d {
        key_bin = none;
        token_bin = none;
        vault_enc = some (replicate (size_of d.vault_enc) 0);
        marker = some (marker_of w.stamp reason);
      }))
