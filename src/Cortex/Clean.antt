-- ===== src/Cortex/Clean.antt =====
-- What a command that the door (crates/loa-cortex/src/http.rs) refuses leaves.
use loa.Base.{ℕ, String, ◌≡◌, refl, ◌⊎◌, inl, inr, Bool, Option, none, some, List, str_eq, by_if}
use loa.Vault.{Access, Bytes, Disk, Tools, Moment}
use loa.Vault.Door.{
  vault_health, vault_append, vault_read, append_response, read_response, or_empty,
}
use loa.Vault.Journal.{check_token, append, wipe, read}
use loa.Cortex.{Cortex}
use loa.Cortex.Verbs.{
  Logged, nothing, Result, ok, err, feel, display_verb, ripperdoc_verb, chosen, apply_mood,
  bad_feeling,
}
use loa.Cortex.Verbs
use loa.Cortex.Moods.{Mood}
use loa.Cortex.Valid.{perform, perform_refused, display_request, ripperdoc_request}
use loa.Cortex.Door
use loa.Vault
use loa.Cortex.Door.{
  Value, Request, Done, after_feel, after_verb, after_vault, vault_status, dispatch_cmd, get,
  as_str, as_bool, is_true, args_of, quiet, oled_body, console_body, news_of, run_cmd, run_body,
  route,
}

module _ {F Entry : Type 0} (t : Tools F Entry) (cx : Cortex F) (d : Disk F) where
  -- A verb that fails leaves the state.
  abbrev Refuses : Cortex F × Result → Type 0
  Refuses (x, err e) = x ≡ cx
  Refuses (x, ok l) = Unit

  -- The command succeeds, or leaves the state, gives no event, and leaves the disk or has wiped it.
  unfoldable pub IsClean : Done F Entry → Type 0
  IsClean o =
      (o.answer.status ≡ 200)
      ⊎ ((o.cortex ≡ cx) × (o.event ≡ none) × ((o.disk ≡ d) ⊎ (o.answer.status ≡ 403)))

  -- For feel, whose "nothing" is refused at the door as well.
  abbrev Feels : Cortex F × Result → Type 0
  Feels (x, err e) = x ≡ cx
  Feels (x, ok nothing) = x ≡ cx
  Feels (x, ok l) = Unit

  found-Feels :
      (remark : Option String) (m : Option Mood)
      → Feels (elim m [ none ↦ (cx, err bad_feeling) | some m ↦ apply_mood cx m remark ])
  unfolding apply_mood
  found-Feels remark none = refl
  found-Feels remark (some m) = tt

  feel-Feels :
      (feeling : Option String) (next : Bool) (remark : Option String)
      → Feels (feel cx feeling next remark)
  unfolding feel
  feel-Feels feeling next remark = found-Feels remark (chosen cx feeling next)

  refused-Refuses :
      (o : Cortex F × Result) → ((e : Verbs.Error) → o.1 ≡ err e → o.0 ≡ cx) → Refuses o
  refused-Refuses (x, err e) k = k e refl
  refused-Refuses (x, ok l) k = tt

  display-Refuses :
      (mode text : Option String) (dim flip : Option Bool)
      → Refuses (display_verb cx mode text dim flip)
  unfolding perform
  display-Refuses mode text dim flip =
      let r = display_request mode text dim flip in
      refused-Refuses (perform cx r) (λ e. perform_refused cx r {e = e})

  ripperdoc-Refuses :
      (on : Option Bool) (page : Option String) → Refuses (ripperdoc_verb cx on page)
  unfolding perform
  ripperdoc-Refuses on page =
      let r = ripperdoc_request on page in
      refused-Refuses (perform cx r) (λ e. perform_refused cx r {e = e})

  after_feel-IsClean : (o : Cortex F × Result) → Feels o → IsClean (after_feel t d o)
  unfolding IsClean
  after_feel-IsClean (x, err e) h = inr (h, refl, inl refl)
  after_feel-IsClean (x, ok nothing) h = inr (h, refl, inl refl)
  after_feel-IsClean (x, ok (Verbs.mood a b c)) h = inl refl
  after_feel-IsClean (x, ok (Verbs.display a b c e)) h = inl refl
  after_feel-IsClean (x, ok (Verbs.ripperdoc a b)) h = inl refl

  after_verb-IsClean :
      (kind : String) (body : Cortex F → Door.Body F Entry) (o : Cortex F × Result)
      → Refuses o
      → IsClean (after_verb t kind body d o)
  unfolding IsClean
  after_verb-IsClean kind body (x, err e) h = inr (h, refl, inl refl)
  after_verb-IsClean kind body (x, ok l) h = inl refl

  -- What the vault's commands answer and leave.
  VaultIsClean : Disk F × Vault.Door.Out F Entry → Type 0
  VaultIsClean (d', o) = (vault_status t o ≡ 200) ⊎ ((d' ≡ d) ⊎ (vault_status t o ≡ 403))

  after_vault-IsClean :
      (o : Disk F × Vault.Door.Out F Entry) → VaultIsClean o → IsClean (after_vault t cx o)
  unfolding IsClean VaultIsClean
  after_vault-IsClean (d', o) (inl h) = inl h
  after_vault-IsClean (d', o) (inr h) = inr (refl, refl, h)

  append-IsClean : (o : Disk F × Option ℕ) → VaultIsClean (append_response t o)
  unfolding VaultIsClean
  append-IsClean (d', none) = inl refl
  append-IsClean (d', some n) = inl refl

  read-IsClean :
      (o : Disk F × Option (List Entry × List (Access F))) → VaultIsClean (read_response t o)
  unfolding VaultIsClean
  read-IsClean (d', none) = inl refl
  read-IsClean (d', some (es, lines)) = inl refl

  well-IsClean : (d' : Disk F) (s : Vault.Status) → VaultIsClean (d', Vault.Door.healthy s)
  unfolding VaultIsClean
  well-IsClean d' s = inl refl

  bad-IsClean : VaultIsClean (d, Vault.Door.bad)
  unfolding VaultIsClean
  bad-IsClean = inr (inl refl)

  wiped-IsClean : (d' : Disk F) → VaultIsClean (d', Vault.Door.forbidden)
  unfolding VaultIsClean
  wiped-IsClean d' = inr (inr refl)

  unknown-IsClean :
      IsClean
        (record { cortex = cx; disk = d; answer = Door.out 400 Door.unknown_cmd; event = none })
  unfolding IsClean
  unknown-IsClean = inr (refl, refl, inl refl)

  vault-IsClean :
      (w : Moment F) (cmd : Vault.Door.Command) → VaultIsClean (Vault.Door.dispatch t w d cmd)
  unfolding Vault.Door.dispatch
  vault-IsClean w vault_health = well-IsClean _ _
  vault-IsClean w (vault_append none token) = bad-IsClean
  vault-IsClean w (vault_append (some entry) token) =
      by_if VaultIsClean (check_token t d (or_empty token)) _ _
        (append-IsClean (append t w entry d)) (wiped-IsClean (wipe t w "append without token" d))
  vault-IsClean w (vault_read token) =
      by_if VaultIsClean (check_token t d (or_empty token)) _ _ (read-IsClean (read t w d))
        (wiped-IsClean (wipe t w "read without token" d))

  pub dispatch_cmd-IsClean :
      (w : Moment F) (cmd : String) (args : Value) (token : Option Bytes)
      → IsClean (dispatch_cmd t w cx d cmd args token)
  unfolding dispatch_cmd
  dispatch_cmd-IsClean w cmd args token =
      let word = as_str (get args "feeling") in
      let next = is_true t (as_bool (get args "next")) in
      let note = as_str (get args "note") in
      let mode = as_str (get args "mode") in
      let text = as_str (get args "text") in
      let dim = as_bool (get args "dim") in
      let flip = as_bool (get args "flip") in
      let on = as_bool (get args "on") in
      let page = as_str (get args "page") in
      let append = vault_append (as_str (get args "entry")) token in
      by_if IsClean (str_eq cmd "feel") _ _
        (after_feel-IsClean (feel cx word next note) (feel-Feels word next note))
        (by_if IsClean (str_eq cmd "display") _ _
          (after_verb-IsClean "display" (oled_body t) (display_verb cx mode text dim flip)
            (display-Refuses mode text dim flip))
          (by_if IsClean (str_eq cmd "ripperdoc") _ _
            (after_verb-IsClean "ripperdoc" (console_body t) (ripperdoc_verb cx on page)
              (ripperdoc-Refuses on page))
            (by_if IsClean (str_eq cmd "vault.health") _ _
              (after_vault-IsClean (Vault.Door.dispatch t w d vault_health)
                (vault-IsClean w vault_health))
              (by_if IsClean (str_eq cmd "vault.append") _ _
                (after_vault-IsClean (Vault.Door.dispatch t w d append) (vault-IsClean w append))
                (by_if IsClean (str_eq cmd "vault.read") _ _
                  (after_vault-IsClean (Vault.Door.dispatch t w d (vault_read token))
                    (vault-IsClean w (vault_read token)))
                  unknown-IsClean)))))
