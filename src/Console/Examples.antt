-- ===== src/Console/Examples.antt =====
-- The console on concrete messages, keys and a frame.
use loa.Base.{
  ℕ, ◌≡◌, refl, ◌/◌, ◌%◌, String, Bool, true, false, Option, none, some, List, [], ◌∷◌, ◌++◌,
  str_eq, if◌then◌else◌, get_or, replicate, arith,
}
use loa.Base.Int.{ℤ, pos}
use loa.Base.Floats.{fixed_point}
use loa.Wire.Contract.{envelope, decode, topic_known, body_name, body_allowed}
use loa.Wire.Contract.Blob.{Blob, text, message, codec, codec-IsLossless, same_text}
use loa.Cortex.{Cortex, new, default}
use loa.Cortex.Build.{build_ripperdoc, build_fault}
use loa.Cortex.Verbs.{Logged, pages}
use loa.Cortex.Door.{Value, truth}
use loa.Cortex.Door
use loa.Cortex.Sample.{vault_tools, moment, vault_disk, parsed, api_post}
use loa.Oled.Pixels.{lit}
use loa.Console.{Model, apply, turn, face_art, ripperdoc_on, flip_to, feel_next, page_bodies}
use loa.Console.Follows.{Shows}
use loa.Console.Served.{Turn, served_all, served_all-Shows}
use loa.Console.Newest.{turn-newest}
use loa.Console.Art.{half_lit, half_lit-face_art}
use loa.Console.Keys.{command_of}

abbrev cortex : Cortex ℤ
cortex = new

-- A console that has heard a cortex as it starts.
abbrev console : Model ℤ
console = record {
  face = [];
  ring = [];
  page = "sensors";
  mood = "calm";
  oled_mode = "scope";
  ring_state = "home";
  condition = "";
  oled_text = "";
  oled_flip = true;
  oled_dim = false;
  snr_on = true;
  ripperdoc = false;
  snr_cm = none;
  snr_count = none;
  pir_high = false;
  pir_count = 0;
  pir_last_hold = pos 0;
  temp_c = none;
  hum_pct = none;
  pressure_hpa = none;
  baro_trend = "";
  faults = [];
  event = "";
  v3 = none;
  throttle = none;
  frames = 0;
}

console-Shows : Shows console cortex.st
unfolding Shows new default
console-Shows = (refl, refl, refl, refl, refl, refl, refl, refl)

abbrev logged_texts : Logged → List (String × String)
logged_texts l = []

abbrev hear_all : Blob × Blob → Bool
hear_all parts = true

abbrev turns : List (Turn ℤ)
turns = (moment, api_post, pos 7, false) ∷ (moment, api_post, pos 8, true) ∷ []

served_all-Shows_example :
    (let (cx', d', v') =
        served_all vault_tools codec same_text logged_texts hear_all
          (parsed "pleased")
          (cortex, vault_disk, console)
          turns in
      Shows v' cx'.st)
served_all-Shows_example =
    served_all-Shows vault_tools codec same_text logged_texts hear_all (parsed "pleased")
      codec-IsLossless (λ payload. refl) cortex vault_disk console turns console-Shows

abbrev console_message : Blob × Blob
console_message = (text "ripperdoc", message (envelope (build_ripperdoc (pos 7) default none)))

abbrev fault_message : Blob × Blob
fault_message = (text "fault", message (envelope (build_fault (pos 7) cortex false)))

turn-newest_example :
    turn codec console (console_message ∷ [] ++ fault_message ∷ [])
    ≡ (apply console (envelope (build_fault (pos 7) cortex false)), [])
unfolding decode topic_known body_name body_allowed build_fault build_ripperdoc envelope
turn-newest_example =
    turn-newest codec console (console_message ∷ []) fault_message
      (record { topic = "fault"; env = envelope (build_fault (pos 7) cortex false) })
      (
        (
          record { topic = "ripperdoc"; env = envelope (build_ripperdoc (pos 7) default none) },
          refl,
        ),
        tt,
      )
      refl

abbrev stripes : List ℕ
stripes = replicate 1024 5

half_lit-face_art_example :
    half_lit (9 % 2) (get_or (get_or (face_art stripes) (9 / 2) []) 3 32) ≡ lit stripes 3 9
half_lit-face_art_example = half_lit-face_art stripes 3 9 (omega arith) (omega arith)

-- A parse of the bodies of the keys.
abbrev page_value : String → Option Value
page_value name = some (command_of "ripperdoc" "page" (Door.text name))

abbrev parse_page : List String → List String → String → Option Value
parse_page [] names body = none
parse_page (b ∷ bs) [] body = none
parse_page (b ∷ bs) (n ∷ names) body =
    let rest = parse_page bs names body in if str_eq body b then page_value n else rest

abbrev parse_keys : String → Option Value
parse_keys body =
    if str_eq body feel_next
    then some (command_of "feel" "next" (truth true))
    else if str_eq body (flip_to true)
    then some (command_of "display" "flip" (truth true))
    else if str_eq body (flip_to false)
    then some (command_of "display" "flip" (truth false))
    else if str_eq body (ripperdoc_on true)
    then some (command_of "ripperdoc" "on" (truth true))
    else if str_eq body (ripperdoc_on false)
    then some (command_of "ripperdoc" "on" (truth false))
    else parse_page page_bodies pages body

abbrev ReadsPage : String → String → Type 0
ReadsPage body name = parse_keys body ≡ page_value name
