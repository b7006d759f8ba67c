-- ===== src/Vault/Kept.antt =====
-- The journal of crates/loa-cortex/src/vault.rs after an append.
use loa.Base.{
  ◌+◌, ◌-◌, ◌≡◌, refl, sym, ap, ◌∙◌, String, true, Option, none, some, List, [], ◌∷◌, ◌++◌, length,
  take, drop, arith, length-append, take-append_self, drop-append_self,
}
use loa.Vault.{Bytes, Disk, Tools, Moment, strip_pad}
use loa.Vault.Compare.{constant_time_eq_lem}
use loa.Vault.Fernet.{
  ◌>>=◌, ensure, key_halves, body_of, opened, is_token, fernet_encrypt, fernet_decrypt,
}
use loa.Vault.Journal.{load, append}

-- What the vault relies on in the crates that it calls.
pub record IsSound {F Entry : Type 0} (t : Tools F Entry) : Type 0 where
  pub decode64 : (b : Bytes) → t.decode64 (t.encode64 b) ≡ some b
  pub unpadded : (b : Bytes) → strip_pad (t.encode64 b) ≡ t.encode64 b
  pub trimmed : (b : Bytes) → t.trimmed (t.encode64 b) ≡ some (t.encode64 b)
  pub decrypt : (k iv p : Bytes) → t.decrypt k iv (t.encrypt k iv p) ≡ some p
  pub hmac_length : (k m : Bytes) → length (t.hmac k m) ≡ 32
  pub from_slice : (es : List Entry) → t.from_slice (t.to_vec es) ≡ some es

>>=-some-parts {ℓ κ} :
    {A : Type ℓ} {B : Type κ} (o : Option A) (k : A → Option B) {b : B}
    → (o >>= k) ≡ some b
    → (a : A) × (o ≡ some a) × (k a ≡ some b)
>>=-some-parts none k h = cc
>>=-some-parts (some a) k h = (a, refl, h)

cut_at : (xs ys : Bytes) → length ys ≡ 32 → length (xs ++ ys) - 32 ≡ length xs
cut_at xs ys h = omega (arith, length-append xs ys)

module _ {F Entry : Type 0} (t : Tools F Entry) (sound : IsSound t) where
  opened-body :
      (sign enc body iv ct : Bytes)
      → take 16 (drop 9 body) ≡ iv
      → drop 25 body ≡ ct
      → opened t (sign, enc) (body ++ t.hmac sign body) ≡ t.decrypt enc iv ct
  unfolding opened
  opened-body sign enc body iv ct e e' =
      let cut = cut_at body (t.hmac sign body) (sound.hmac_length sign body) in
      rw
        (
          cut,
          take-append_self body (t.hmac sign body),
          drop-append_self body (t.hmac sign body),
          (constant_time_eq_lem (t.hmac sign body) (t.hmac sign body)).1 refl,
          e,
          e',
        )
        refl

  take_iv : (iv ct : Bytes) → length iv ≡ 16 → take 16 (iv ++ ct) ≡ iv
  take_iv iv ct h = ap (λ n. take n (iv ++ ct)) (sym h) ∙ take-append_self iv ct

  drop_iv : (iv ct : Bytes) → length iv ≡ 16 → drop 16 (iv ++ ct) ≡ ct
  drop_iv iv ct h = ap (λ n. drop n (iv ++ ct)) (sym h) ∙ drop-append_self iv ct

  is_token-body :
      (enc sig plain : Bytes) (w : Moment F)
      → length w.iv ≡ 16
      → length sig ≡ 32
      → is_token t (body_of t enc w plain ++ sig) ≡ true
  unfolding is_token
  is_token-body enc sig plain w h k = ground (
    arith,
    h,
    k,
    length-append (w.iv ++ t.encrypt enc w.iv plain) sig,
    length-append w.iv (t.encrypt enc w.iv plain),
  )

  -- The token of a text under the halves of a key.
  abbrev token_of : Bytes → Bytes → Moment F → Bytes → Bytes
  token_of sign enc w plain =
      t.encode64 (body_of t enc w plain ++ t.hmac sign (body_of t enc w plain))

  decrypt_token :
      (d : Disk F) (w : Moment F) (key sign enc plain : Bytes)
      → length w.iv ≡ 16
      → d.key_bin ≡ some key
      → key_halves t key ≡ some (sign, enc)
      → fernet_decrypt t d (token_of sign enc w plain) ≡ some plain
  unfolding fernet_decrypt
  decrypt_token d w key sign enc plain iv ek eh =
      let body = body_of t enc w plain in
      let sig = t.hmac sign body in
      simp (
        sound.unpadded,
        sound.decode64,
        is_token-body enc sig plain w iv (sound.hmac_length sign body),
        ek,
        eh,
        opened-body sign enc body w.iv (t.encrypt enc w.iv plain)
            (take_iv w.iv (t.encrypt enc w.iv plain) iv)
            (drop_iv w.iv (t.encrypt enc w.iv plain) iv),
        sound.decrypt,
      )

  -- What an encryption returned is the token of its text under the key of the disk.
  encrypt_parts :
      (w : Moment F) (d : Disk F) (plain : Bytes) {tok : Bytes}
      → fernet_encrypt t w d plain ≡ some tok
      → (key : Bytes) × (sign : Bytes) × (enc : Bytes) × (d.key_bin ≡ some key)
        × (key_halves t key ≡ some (sign, enc))
        × (tok ≡ token_of sign enc w plain)
  unfolding fernet_encrypt
  encrypt_parts w d plain h =
      let (key, ek, h1) = >>=-some-parts d.key_bin _ h in
      let ((sign, enc), eh, h2) = >>=-some-parts (key_halves t key) _ h1 in
      (key, sign, enc, ek, eh, cc h2)

  -- The journal that an encryption of some entries makes, on a disk with the same key, holds them.
  load-encrypt :
      (w : Moment F) (d d' : Disk F) (es : List Entry) {tok : Bytes}
      → length w.iv ≡ 16
      → d'.key_bin ≡ d.key_bin
      → d'.vault_enc ≡ some tok
      → fernet_encrypt t w d (t.to_vec es) ≡ some tok
      → load t d' ≡ some es
  unfolding load
  load-encrypt w d d' es iv same file h =
      let (key, sign, enc, ek, eh, tok) = encrypt_parts w d (t.to_vec es) h in
      let stored : d'.vault_enc ≡ some (token_of sign enc w (t.to_vec es)) =
        file ∙ ap (λ b. some b) tok in
      simp (
        stored,
        sound.trimmed,
        decrypt_token d' w key sign enc (t.to_vec es) iv (same ∙ ek) eh,
        sound.from_slice,
      )

  encrypt_under :
      (w : Moment F) (d : Disk F) (key sign enc plain : Bytes)
      → d.key_bin ≡ some key
      → key_halves t key ≡ some (sign, enc)
      → fernet_encrypt t w d plain ≡ some (token_of sign enc w plain)
  unfolding fernet_encrypt
  encrypt_under w d key sign enc plain ek eh = rw (ek, eh) refl

  -- A journal that loads has a key that is whole, so that any text can be sealed under it.
  encrypt_of_load :
      (w : Moment F) (d : Disk F) (plain : Bytes) {es : List Entry}
      → load t d ≡ some es
      → (tok : Bytes) × (fernet_encrypt t w d plain ≡ some tok)
  unfolding load fernet_decrypt
  encrypt_of_load w d plain h =
      let (enc, _, h1) = >>=-some-parts d.vault_enc _ h in
      let (tok, _, h2) = >>=-some-parts (t.trimmed enc) _ h1 in
      let (out, h3, _) = >>=-some-parts (fernet_decrypt t d tok) _ h2 in
      let (blob, _, h4) = >>=-some-parts (t.decode64 (strip_pad tok)) _ h3 in
      let (_, _, h5) = >>=-some-parts (ensure (is_token t blob)) _ h4 in
      let (key, ek, h6) = >>=-some-parts d.key_bin _ h5 in
      let (halves, eh, _) = >>=-some-parts (key_halves t key) _ h6 in
      (token_of halves.0 halves.1 w plain, encrypt_under w d key halves.0 halves.1 plain ek eh)

  append_sealed :
      (w : Moment F) (entry : String) (d : Disk F) (es : List Entry) {tok : Bytes}
      → load t d ≡ some es
      → fernet_encrypt t w d (t.to_vec (es ++ t.entry_of w.now entry ∷ [])) ≡ some tok
      → ((append t w entry d).1 ≡ some (length (es ++ t.entry_of w.now entry ∷ [])))
        × ((append t w entry d).0.key_bin ≡ d.key_bin)
        × ((append t w entry d).0.vault_enc ≡ some tok)
        × ((append t w entry d).0.token_bin ≡ d.token_bin)
  unfolding append
  append_sealed w entry d es was e = rw (was, e, append) (refl, refl, refl, refl)

  -- With crates that do what the vault relies on and an IV of 16 bytes: where the journal loads, an
  -- append succeeds; the journal then loads as the old entries and the new one behind them, the
  -- answer is their number, and the token stays what it was.
  pub load-append :
      (w : Moment F) (entry : String) (d : Disk F) (es : List Entry)
      → length w.iv ≡ 16
      → load t d ≡ some es
      → (load t (append t w entry d).0 ≡ some (es ++ t.entry_of w.now entry ∷ []))
        × ((append t w entry d).1 ≡ some (length es + 1))
        × ((append t w entry d).0.token_bin ≡ d.token_bin)
  load-append w entry d es iv was =
      let all = es ++ t.entry_of w.now entry ∷ [] in
      let (tok, e) = encrypt_of_load w d (t.to_vec all) was in
      let (n, key, enc, token) = append_sealed w entry d es was e in
      (
        load-encrypt w d (append t w entry d).0 all iv key enc e,
        n ∙ ap (λ k. some k) (length-append es (t.entry_of w.now entry ∷ [])),
        token,
      )
