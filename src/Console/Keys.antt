-- ===== src/Console/Keys.antt =====
-- The keys of the console (command of crates/ripperdoc/src/main.rs) at the door of the cortex
-- (crates/loa-cortex/src/http.rs).
use loa.Base.{ℕ, String, ◌≡◌, Bool, true, Option, none, some, get_elem?}
use loa.Vault.{Disk, Tools, Moment}
use loa.Cortex.{Cortex}
use loa.Cortex.Verbs.{pages}
use loa.Cortex.Door.{Value, text, truth, object, field, no_field, Request, route}
use loa.Console.{ripperdoc_on, flip_to, feel_next, page_bodies}

-- The object of a command with one argument.
abbrev pub command_of : String → String → Value → Value
command_of cmd key arg =
    object (field "cmd" (text cmd) (field "args" (object (field key arg no_field)) no_field))

-- The parse reads the bodies that the keys send.
pub record ReadsKeys (from_str : String → Option Value) : Type 0 where
  pub console :
      (on : Bool) → from_str (ripperdoc_on on) ≡ some (command_of "ripperdoc" "on" (truth on))
  pub flip : (b : Bool) → from_str (flip_to b) ≡ some (command_of "display" "flip" (truth b))
  pub next : from_str feel_next ≡ some (command_of "feel" "next" (truth true))
  pub page :
      (i : ℕ) {body name : String}
      → get_elem? page_bodies i ≡ some body
      → get_elem? pages i ≡ some name
      → from_str body ≡ some (command_of "ripperdoc" "page" (text name))

-- What post_json sends.
abbrev pub post : String → Request
post body = record { url = "/api"; is_post = true; body = some body; token = none }

pub some_inj {ℓ} : {A : Type ℓ} {a b : A} → ◌≡◌ {A = Option A} (some a) (some b) → a ≡ b
some_inj e = cc e

module _ {F Entry : Type 0} (t : Tools F Entry) (from_str : String → Option Value)
    (reads : ReadsKeys from_str) (w : Moment F) (cx : Cortex F) (d : Disk F) where
  abbrev IsAnswered : String → Type 0
  IsAnswered body = (route t from_str w cx d (post body)).0.answer.status ≡ 200
