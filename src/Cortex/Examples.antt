-- ===== src/Cortex/Examples.antt =====
-- The cortex on concrete requests, readings and settings.
use loa.Base.{
  String, ◌≡◌, ◌↔◌, refl, ◌⊎◌, ap, eq_iff, ℕ, Bool, true, false, Option, none, some, List, [], ◌∷◌,
  ◌++◌, if◌then◌else◌,
}
use loa.Base.Int.{ℤ, pos}
use loa.Base.Floats.{fixed_point}
use loa.Wire.Pb.{Body, weather, no_weather}
use loa.Wire.Contract.{Result, ok}
use loa.Wire.Contract.Blob.{Blob, text, read_lossy, codec, codec-IsLossless, same_text}
use loa.Cortex.Process.{republish}
use loa.Cortex.Door.{Value, object, field, no_field, route, run_cmd, dispatch_cmd}
use loa.Cortex.Door
use loa.Cortex.Sample.{vault_tools, moment, vault_disk, parsed, api_post}
use loa.Cortex.Refused.{route_refused}
use loa.Cortex.Announced.{on_all_news, route_announced}
use loa.Cortex.Moods.{by_name, find}
use loa.Cortex.Answer.{answer}
use loa.Motion.{Machine}
use loa.Motion.Process.{Poll, Labels, main}
use loa.Sense.{Arm, asked, ticked, expired, opened}
use loa.Cortex.Heard.{hear, main-Mirrors}
use loa.Motion.Trace.{run, published}
use loa.Cortex.{Cortex, State, new, default}
use loa.Cortex.Valid.{
  Request, feel_request, display_request, ripperdoc_request, perform_all, IsValid, new-IsValid,
  perform_all-IsValid,
}
use loa.Cortex.Verbs.{Logged, feel, chosen, apply_mood}
use loa.Cortex.Merge.{merge_pir}
use loa.Cortex.Mirror.{Mirrors, merge_news, last_rise, run-Mirrors, full-Mirrors}
use loa.Cortex.Settings.{adopt_settings, settings_snapshot, with_settings, adopt_settings-snapshot}

abbrev cortex : Cortex ℤ
cortex = new

abbrev requests : List Request
requests =
    feel_request (some "pleased") false none
    ∷ feel_request none true none
    ∷ display_request (some "hologram") none none none
    ∷ ripperdoc_request (some true) (some "pir")
    ∷ []

perform_all-IsValid_example : IsValid (perform_all cortex requests).st
perform_all-IsValid_example = perform_all-IsValid cortex requests new-IsValid

abbrev polls : List (Bool × ℤ)
polls = (true, pos 10000) ∷ (true, pos 10200) ∷ (false, pos 10600) ∷ []

abbrev machine : Machine ℤ
machine = loa.Motion.new (pos 5000)

run-Mirrors_example :
    Mirrors
      (run machine polls).remembered
      (merge_news (merge_pir default (loa.Motion.full machine)) (published machine polls))
    × ((merge_news
          (merge_pir default (loa.Motion.full machine))
          (published machine polls)).pir_on_ts
        ≡ last_rise machine.last polls (merge_pir default (loa.Motion.full machine)).pir_on_ts)
run-Mirrors_example =
    run-Mirrors machine polls (merge_pir default (loa.Motion.full machine)) (full-Mirrors machine)

abbrev later : Machine ℤ
later = run machine polls

abbrev saved : State ℤ
saved = (perform_all cortex requests).st

adopt_settings-snapshot_example :
    adopt_settings default (settings_snapshot saved) ≡ with_settings saved default
adopt_settings-snapshot_example = adopt_settings-snapshot saved

abbrev no_scalars : String → List (String × String)
no_scalars detail = []

text_inj : (s t : String) → ◌≡◌ {A = Blob} (text s) (text t) → s ≡ t
text_inj s t e = ap read_lossy e

same_text_iff : (s t : String) → (same_text (text s) (text t) ≡ true) ↔ (text s ≡ text t)
same_text_iff s t = (λ e. ap text ((eq_iff s t).0 e), λ e. (eq_iff s t).1 (text_inj s t e))

-- A weather message with a time, off the wire.
abbrev breeze : Body ℤ
breeze = weather (record no_weather { pressure_hpa = some (pos 1013000); ts = some (pos 7000) })

abbrev open_socket : List (Blob × Blob) → Blob × Blob → Result (Unit {0})
open_socket sent p = ok tt

abbrev labels : Labels
labels = record { gpio = "17"; cooldown = "5"; count_text = λ n. "some" }

abbrev arrival : Blob × Blob → ℤ
arrival p = pos 1

abbrev poll : Option Bool → ℕ → Poll ℤ
poll level now = record { level = level; now = pos now; sense_ts = pos now; ring_ts = pos now }

-- A scan, an ask, a reading that fails, and the deadline.
abbrev turns : List (ℕ × Arm (Poll ℤ))
turns =
    (200, ticked (poll (some true) 9000))
    ∷ (400, ticked (poll (some true) 9200))
    ∷ (500, asked)
    ∷ (600, ticked (poll none 9400))
    ∷ (700, expired)
    ∷ (800, asked)
    ∷ []

abbrev one_second : ℤ → ℕ
one_second secs = 1000

-- The start's three pairs, the edge, the fire with its two events, and one answer.
daemon_sends_eight :
    let done =
      main codec open_socket labels one_second
        (pos 1)
        (pos 5000)
        (pos 8000)
        (some false)
        (pos 8100)
        turns
        opened in
    (done.0 ≡ true) × (done.2.frames ≡ 8) × (done.2.answers ≡ 1)
unfolding main loa.Wire.Contract.body_allowed loa.Base.Int.◌-ℤ◌
daemon_sends_eight = (refl, refl, refl)

main-Mirrors_example :
    let done =
      main codec open_socket labels one_second
        (pos 1)
        (pos 5000)
        (pos 8000)
        (some false)
        (pos 8100)
        turns
        opened in
    Mirrors done.1.remembered (hear codec same_text no_scalars arrival false cortex done.2.sent).st
unfolding new
main-Mirrors_example =
    main-Mirrors codec same_text no_scalars arrival false open_socket labels cortex one_second
      (pos 1) (pos 5000) (pos 8000) (some false) (pos 8100) turns codec-IsLossless same_text_iff
      (λ sent p. refl) refl

api_post_moves :
    (route vault_tools (parsed "pleased") moment cortex vault_disk api_post).0.cortex.st.mood
    ≡ "pleased"
unfolding route run_cmd dispatch_cmd Door.get feel chosen by_name find apply_mood
api_post_moves = refl

api_post_refused :
    (route vault_tools (parsed "grim") moment cortex vault_disk api_post).0.answer.status ≡ 400
unfolding route run_cmd dispatch_cmd Door.get feel chosen by_name find
api_post_refused = refl

route_refused_example :
    (let (o, news) = route vault_tools (parsed "grim") moment cortex vault_disk api_post in
      (o.answer.status ≡ 200)
      ⊎ ((o.cortex ≡ cortex) × (news ≡ []) × ((o.disk ≡ vault_disk) ⊎ (o.answer.status ≡ 403))))
route_refused_example = route_refused vault_tools cortex vault_disk (parsed "grim") moment api_post

abbrev logged_texts : Logged → List (String × String)
logged_texts l = []

route_announced_example :
    (let (o, news) = route vault_tools (parsed "pleased") moment cortex vault_disk api_post in
      (o.cortex ≡ cortex)
      ⊎ ((before : List (Blob × Blob)) × (on_all_news codec same_text logged_texts
              (pos 7)
              false
              o.cortex
              news
            ≡ before ++ republish codec same_text logged_texts (pos 7) false o.cortex)))
route_announced_example =
    route_announced vault_tools codec same_text logged_texts (parsed "pleased") moment cortex
      vault_disk api_post (pos 7) false
