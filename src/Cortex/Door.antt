-- ===== src/Cortex/Door.antt =====
-- The door: crates/loa-cortex/src/http.rs. A request is what tiny_http hands over and serde_json
-- is a parameter; a response's JSON is kept as the values that it is made of, and its texts are
-- left out.
use loa.Base.{
  ℕ, String, Bool, false, not, ◌||◌, ◌&&◌, Option, none, some, List, [], ◌∷◌, ◌==◌, str_eq,
  if◌then◌else◌,
}
use loa.Vault.{Bytes, Disk, Tools, Moment}
use loa.Vault.Door.{vault_health, vault_append, vault_read}
use loa.Vault.Door
use loa.Cortex.{Cortex}
use loa.Cortex.Verbs.{Logged, nothing, Result, ok, err, feel, display_verb, ripperdoc_verb}
use loa.Cortex.Verbs
use loa.Cortex.Process.{News, event_news, state_changed}

-- A parsed JSON value; arrays, numbers and null are not looked into.
mutual
  pub data Value : Type 0 where
    text : String → Value
    truth : Bool → Value
    object : Fields → Value
    other_value : Value

  pub data Fields : Type 0 where
    no_field : Fields
    field : String → Value → Fields → Fields

abbrev pub find_field : Fields → String → Option Value
find_field no_field key = none
find_field (field k v rest) key =
    let later = find_field rest key in if str_eq k key then some v else later

unfoldable pub get : Value → String → Option Value
get (object fields) key = find_field fields key
get v key = none

abbrev pub as_str : Option Value → Option String
as_str (some (text s)) = some s
as_str v = none

abbrev pub as_bool : Option Value → Option Bool
as_bool (some (truth b)) = some b
as_bool v = none

-- The body of a response.
pub data Body (F Entry : Type 0) : Type 0 where
  not_found unreadable not_json no_cmd unknown_cmd : Body F Entry
  refused : Verbs.Error → Body F Entry
  feel_needs : Body F Entry
  felt : String → String → String → Option String → Bool → Body F Entry
  oled_state : String → Option String → Bool → Bool → Body F Entry
  console : Bool → String → String → Body F Entry
  vault_says : Door.Out F Entry → Body F Entry

pub record Out (F Entry : Type 0) : Type 0 where
  pub status : ℕ
  pub body : Body F Entry

abbrev pub out : {F Entry : Type 0} → ℕ → Body F Entry → Out F Entry
out s b = record { status = s; body = b }

-- What a command leaves: the state, the disk, the answer and the event to log.
pub record Done (F Entry : Type 0) : Type 0 where
  pub cortex : Cortex F
  pub disk : Disk F
  pub answer : Out F Entry
  pub event : Option (String × Logged)

pub record Request : Type 0 where
  pub url : String
  pub is_post : Bool
  pub body : Option String  -- none where it cannot be read
  pub token : Option Bytes  -- the header X-Vault-Token

module _ {F Entry : Type 0} (t : Tools F Entry) where
  abbrev pub felt_body : Cortex F → Logged → Body F Entry
  felt_body cx (Verbs.mood name ring remark) =
      felt name ring cx.st.oled_mode cx.st.oled_text cx.st.oled_dim
  felt_body cx other = feel_needs

  abbrev pub after_feel : Disk F → Cortex F × Result → Done F Entry
  after_feel d (cx, err e) = record {
    cortex = cx;
    disk = d;
    answer = out 400 (refused e);
    event = none;
  }
  after_feel d (cx, ok nothing) = record {
    cortex = cx;
    disk = d;
    answer = out 400 feel_needs;
    event = none;
  }
  after_feel d (cx, ok l) = record {
    cortex = cx;
    disk = d;
    answer = out 200 (felt_body cx l);
    event = some ("mood", l);
  }

  -- The event of display and of ripperdoc.
  abbrev pub logged : String → Logged → Option (String × Logged)
  logged kind nothing = none
  logged kind l = some (kind, l)

  abbrev pub after_verb :
      String → (Cortex F → Body F Entry) → Disk F → Cortex F × Result → Done F Entry
  after_verb kind body d (cx, err e) = record {
    cortex = cx;
    disk = d;
    answer = out 400 (refused e);
    event = none;
  }
  after_verb kind body d (cx, ok l) = record {
    cortex = cx;
    disk = d;
    answer = out 200 (body cx);
    event = logged kind l;
  }

  abbrev pub oled_body : Cortex F → Body F Entry
  oled_body cx = oled_state cx.st.oled_mode cx.st.oled_text cx.st.oled_dim cx.st.oled_flip

  abbrev pub console_body : Cortex F → Body F Entry
  console_body cx = console cx.st.ripperdoc cx.st.page cx.st.oled_mode

  abbrev pub vault_status : Door.Out F Entry → ℕ
  vault_status Door.bad = 400
  vault_status Door.forbidden = 403
  vault_status o = 200

  abbrev pub after_vault : Cortex F → Disk F × Door.Out F Entry → Done F Entry
  after_vault cx (d, o) = record {
    cortex = cx;
    disk = d;
    answer = out (vault_status o) (vault_says o);
    event = none;
  }

  abbrev pub is_true : Option Bool → Bool
  is_true none = false
  is_true (some b) = b

  unfoldable pub dispatch_cmd :
      Moment F → Cortex F → Disk F → String → Value → Option Bytes → Done F Entry
  unfolding feel display_verb ripperdoc_verb Door.dispatch get
  dispatch_cmd w cx d cmd args token =
      if str_eq cmd "feel"
      then after_feel d (
          feel cx (as_str (get args "feeling")) (is_true (as_bool (get args "next")))
            (as_str (get args "note")))
      else if str_eq cmd "display"
      then after_verb "display" oled_body d (
          display_verb cx (as_str (get args "mode")) (as_str (get args "text"))
            (as_bool (get args "dim")) (as_bool (get args "flip")))
      else if str_eq cmd "ripperdoc"
      then after_verb "ripperdoc" console_body d
          (ripperdoc_verb cx (as_bool (get args "on")) (as_str (get args "page")))
      else if str_eq cmd "vault.health"
      then after_vault cx (Door.dispatch t w d vault_health)
      else if str_eq cmd "vault.append"
      then after_vault cx (Door.dispatch t w d (vault_append (as_str (get args "entry")) token))
      else if str_eq cmd "vault.read"
      then after_vault cx (Door.dispatch t w d (vault_read token))
      else record { cortex = cx; disk = d; answer = out 400 unknown_cmd; event = none }

  abbrev pub is_state_verb : String → Bool
  is_state_verb cmd = str_eq cmd "feel" || str_eq cmd "display" || str_eq cmd "ripperdoc"

  -- The news of a command: the event rides ahead of the state change.
  unfoldable pub news_of : String → Done F Entry → List (News Logged)
  news_of cmd done = elim done.event [
    | some (kind, detail) ↦ event_news kind detail ∷ state_changed ∷ []
    | none ↦ if (done.answer.status == 200) && is_state_verb cmd then state_changed ∷ [] else []
  ]

  abbrev pub quiet : Cortex F → Disk F → ℕ → Body F Entry → Done F Entry × List (News Logged)
  quiet cx d status body =
      (record { cortex = cx; disk = d; answer = out status body; event = none }, [])

  abbrev pub args_of : Option Value → Value
  args_of none = object no_field
  args_of (some v) = v

  unfoldable pub run_cmd :
      Moment F → Cortex F → Disk F → Value → Option Bytes → Done F Entry × List (News Logged)
  unfolding dispatch_cmd news_of get
  run_cmd w cx d parsed token = elim (as_str (get parsed "cmd")) [
    | none ↦ quiet cx d 422 no_cmd
    | some cmd ↦
        let done = dispatch_cmd w cx d cmd (args_of (get parsed "args")) token in
        (done, news_of cmd done)
  ]

  abbrev pub run_body :
      Moment F → Cortex F → Disk F → Option Value → Option Bytes → Done F Entry × List (News Logged)
  run_body w cx d none token = quiet cx d 422 not_json
  run_body w cx d (some parsed) token = run_cmd w cx d parsed token

  -- `from_str` is serde_json's parse of a text.
  unfoldable pub route :
      (String → Option Value)
      → Moment F
      → Cortex F
      → Disk F
      → Request
      → Done F Entry × List (News Logged)
  unfolding run_cmd
  route from_str w cx d q =
      if not (str_eq q.url "/api") || not q.is_post then quiet cx d 404 not_found else elim q.body [
        | none ↦ quiet cx d 400 unreadable
        | some body ↦ run_body w cx d (from_str body) q.token
      ]
