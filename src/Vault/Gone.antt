-- ===== src/Vault/Gone.antt =====
-- The commands of crates/loa-cortex/src/http.rs on a vault without its keys.
use loa.Base.{◌≡◌, refl, String, Bool, true, false, not, Option, none, some, List, [], ◌∷◌, arith}
use loa.Vault.{Bytes, Disk, Tools, Moment, constant_time_eq, strip_pad}
use loa.Vault.Fernet.{◌>>=◌, ensure, is_token, fernet_decrypt}
use loa.Vault.Journal.{load, wipe, presented_token, check_token, health}
use loa.Vault.Door.{
  Command, vault_health, vault_append, vault_read, forbidden, or_empty, dispatch, dispatch_all,
}

>>=-to_none {ℓ κ} :
    {A : Type ℓ} {B : Type κ} (o : Option A) (k : A → Option B)
    → ((a : A) → k a ≡ none)
    → (o >>= k) ≡ none
>>=-to_none none k h = refl
>>=-to_none (some a) k h = h a

module _ {F Entry : Type 0} (t : Tools F Entry) where
  -- No key and no token.
  pub record IsGone (d : Disk F) : Type 0 where
    pub key : d.key_bin ≡ none
    pub token : d.token_bin ≡ none

  decrypt-IsGone : (d : Disk F) (tok : Bytes) → d.key_bin ≡ none → fernet_decrypt t d tok ≡ none
  unfolding fernet_decrypt
  decrypt-IsGone d tok e =
      >>=-to_none (t.decode64 (strip_pad tok)) _
        (λ blob. >>=-to_none (ensure (is_token t blob)) _ (λ _. rw e refl))

  load-IsGone : (d : Disk F) → IsGone d → load t d ≡ none
  unfolding load
  load-IsGone d g =
      >>=-to_none d.vault_enc _
        (λ enc. >>=-to_none (t.trimmed enc) _ (λ tok. rw (decrypt-IsGone d tok g.key) refl))

  wipe-IsGone : (w : Moment F) (reason : String) (d : Disk F) → IsGone (wipe t w reason d)
  unfolding wipe
  wipe-IsGone w reason d = record { key = refl; token = refl }

  no_token : (d : Disk F) → IsGone d → presented_token t d ≡ []
  unfolding presented_token
  no_token d g = rw (g.token, presented_token) refl

  check_token-IsGone :
      (d : Disk F) (presented : Bytes) → IsGone d → check_token t d presented ≡ false
  unfolding check_token constant_time_eq
  check_token-IsGone d [] g = refl
  check_token-IsGone d (b ∷ bs) g = rw (no_token d g) (ground arith)

  -- Once the journal is gone, each command leaves it gone.
  dispatch-IsGone :
      (w : Moment F) (d : Disk F) (c : Command) → IsGone d → IsGone (dispatch t w d c).0
  unfolding dispatch
  dispatch-IsGone w d vault_health g =
      unfold health in record { key = ground (arith, g.key); token = ground (arith, g.token) }
  dispatch-IsGone w d (vault_append none token) g = g
  dispatch-IsGone w d (vault_append (some entry) token) g =
      rw (check_token-IsGone d (or_empty token) g) (wipe-IsGone w "append without token" d)
  dispatch-IsGone w d (vault_read token) g =
      rw (check_token-IsGone d (or_empty token) g) (wipe-IsGone w "read without token" d)

  dispatch_all-IsGone :
      (d : Disk F) (cs : List (Moment F × Command)) → IsGone d → IsGone (dispatch_all t d cs)
  unfolding dispatch_all
  dispatch_all-IsGone d [] g = g
  dispatch_all-IsGone d ((w, c) ∷ cs) g =
      dispatch_all-IsGone (dispatch t w d c).0 cs (dispatch-IsGone w d c g)

  -- Does the command need the token, and come without it?
  abbrev pub lacks_token : Disk F → Command → Bool
  lacks_token d vault_health = false
  lacks_token d (vault_append none token) = false
  lacks_token d (vault_append (some entry) token) = not (check_token t d (or_empty token))
  lacks_token d (vault_read token) = not (check_token t d (or_empty token))

  dispatch-lacks_token :
      (w : Moment F) (d : Disk F) (c : Command)
      → lacks_token d c ≡ true
      → IsGone (dispatch t w d c).0 × ((dispatch t w d c).1 ≡ forbidden)
  unfolding dispatch
  dispatch-lacks_token w d vault_health h = cc
  dispatch-lacks_token w d (vault_append none token) h = cc
  dispatch-lacks_token w d (vault_append (some entry) token) h =
      let wrong : check_token t d (or_empty token) ≡ false = ground (arith, h) in
      rw wrong (wipe-IsGone w "append without token" d, refl)
  dispatch-lacks_token w d (vault_read token) h =
      let wrong : check_token t d (or_empty token) ≡ false = ground (arith, h) in
      rw wrong (wipe-IsGone w "read without token" d, refl)

  -- A single append or read that comes with no token or a wrong one is refused and destroys the
  -- journal: it does not load then, and it does not load after any further commands, whatever
  -- tokens they bring.
  pub load-lacks_token :
      (w : Moment F) (d : Disk F) (c : Command) (cs : List (Moment F × Command))
      → lacks_token d c ≡ true
      → ((dispatch t w d c).1 ≡ forbidden)
        × (load t (dispatch t w d c).0 ≡ none)
        × (load t (dispatch_all t (dispatch t w d c).0 cs) ≡ none)
  load-lacks_token w d c cs h =
      let (g, out) = dispatch-lacks_token w d c h in
      (
        out,
        load-IsGone (dispatch t w d c).0 g,
        load-IsGone (dispatch_all t (dispatch t w d c).0 cs)
            (dispatch_all-IsGone (dispatch t w d c).0 cs g),
      )
