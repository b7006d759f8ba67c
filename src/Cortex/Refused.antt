-- ===== src/Cortex/Refused.antt =====
-- What a request that the door (crates/loa-cortex/src/http.rs) refuses leaves.
use loa.Base.{
  ℕ, String, ◌≡◌, refl, ◌⊎◌, inl, inr, not, ◌||◌, Option, none, some, List, [], ◌==◌, str_eq, arith,
  Bool-cases, by_if,
}
use loa.Vault.{Bytes, Disk, Tools, Moment}
use loa.Cortex.{Cortex}
use loa.Cortex.Verbs.{Logged}
use loa.Cortex.Door
use loa.Cortex.Process.{News}
use loa.Cortex.Door.{
  Value, Request, Done, after_feel, after_verb, after_vault, vault_status, dispatch_cmd, get,
  as_str, as_bool, is_true, args_of, quiet, oled_body, console_body, news_of, run_cmd, run_body,
  route,
}
use loa.Cortex.Clean.{IsClean, dispatch_cmd-IsClean}

module _ {F Entry : Type 0} (t : Tools F Entry) (cx : Cortex F) (d : Disk F) where
  -- The news of a command that changes nothing, and of one that has moved the state.
  quiet_news :
      (cmd : String) (o : Done F Entry)
      → o.event ≡ none
      → (o.answer.status ≡ 200) ⊎ (news_of t cmd o ≡ [])
  unfolding news_of
  quiet_news cmd o h = rw h (elim (Bool-cases (o.answer.status == 200)) [
    | inl e ↦ inl (ground (arith, e))
    | inr e ↦ inr (rw e refl)
  ])

  -- A request that is refused: the state stays, nothing is told, and the disk stays or is wiped.
  IsSettled : Done F Entry × List (News Logged) → Type 0
  IsSettled (o, news) =
      (o.answer.status ≡ 200)
      ⊎ ((o.cortex ≡ cx) × (news ≡ []) × ((o.disk ≡ d) ⊎ (o.answer.status ≡ 403)))

  settled : (cmd : String) (o : Done F Entry) → IsClean t cx d o → IsSettled (o, news_of t cmd o)
  unfolding IsClean IsSettled
  settled cmd o (inl h) = inl h
  settled cmd o (inr (h, e, k)) = elim (quiet_news cmd o e) [
    | inl s ↦ inl s
    | inr n ↦ inr (h, n, k)
  ]

  -- A request is answered at once or is a command.
  module _ (P : Done F Entry × List (News Logged) → Type 0)
      (quick : (status : ℕ) (body : Door.Body F Entry) → P (quiet t cx d status body))
      (w : Moment F)
      (ran : (cmd : String) (args : Value) (token : Option Bytes)
        → (let o = dispatch_cmd t w cx d cmd args token in P (o, news_of t cmd o))) where
    cmd-All :
        (m : Option String) (args : Value) (token : Option Bytes)
        → P (elim m [
          | none ↦ quiet t cx d 422 Door.no_cmd
          | some cmd ↦ (
            dispatch_cmd t w cx d cmd args token,
            news_of t cmd (dispatch_cmd t w cx d cmd args token),
          )
        ])
    cmd-All none args token = quick 422 Door.no_cmd
    cmd-All (some cmd) args token = ran cmd args token

    body-All : (v : Option Value) (token : Option Bytes) → P (run_body t w cx d v token)
    unfolding run_cmd
    body-All none token = quick 422 Door.not_json
    body-All (some v) token = cmd-All (as_str (get v "cmd")) (args_of t (get v "args")) token

    read-All :
        (from_str : String → Option Value) (m : Option String) (token : Option Bytes)
        → P (elim m [
          | none ↦ quiet t cx d 400 Door.unreadable
          | some body ↦ run_body t w cx d (from_str body) token
        ])
    read-All from_str none token = quick 400 Door.unreadable
    read-All from_str (some b) token = body-All (from_str b) token

    pub route-All : (from_str : String → Option Value) (q : Request) → P (route t from_str w cx d q)
    unfolding route
    route-All from_str q =
        by_if P (not (str_eq q.url "/api") || not q.is_post) _ _ (quick 404 Door.not_found)
          (read-All from_str q.body q.token)

  -- Whatever a request is, either its status is 200, or it leaves the cortex as it was and tells
  -- nobody, and it leaves the vault's disk as it was unless the status is 403.
  pub route_refused :
      (from_str : String → Option Value) (w : Moment F) (q : Request)
      → (let (o, news) = route t from_str w cx d q in
          (o.answer.status ≡ 200)
          ⊎ ((o.cortex ≡ cx) × (news ≡ []) × ((o.disk ≡ d) ⊎ (o.answer.status ≡ 403))))
  unfolding IsSettled
  route_refused from_str w q =
      route-All IsSettled (λ s b. inr (refl, refl, inl refl)) w
        (λ cmd args token.
          let o = dispatch_cmd t w cx d cmd args token in
          settled cmd o (dispatch_cmd-IsClean t cx d w cmd args token))
        from_str q
