-- ===== src/Cortex/Moods.antt =====
-- crates/loa-cortex/src/moods.rs: the mood table and its walk.
use loa.Base.{
  ℕ, suc, ◌+◌, ◌%◌, String, Bool, true, false, Option, none, some, List, [], ◌∷◌, str_eq, length,
  get_or, if◌then◌else◌,
}

pub record Mood : Type 0 where
  pub name : String
  pub ring : String
  pub one_shot : Bool
  pub oled_mode : String
  pub oled_text : Option String
  pub oled_dim : Bool

abbrev pub calm : Mood
calm = record {
  name = "calm";
  ring = "home";
  one_shot = false;
  oled_mode = "scope";
  oled_text = none;
  oled_dim = false;
}

abbrev pub busy : Mood
busy = record {
  name = "busy";
  ring = "busy";
  one_shot = false;
  oled_mode = "ecg";
  oled_text = none;
  oled_dim = false;
}

abbrev pub pleased : Mood
pleased = record {
  name = "pleased";
  ring = "scan";
  one_shot = true;
  oled_mode = "ripple";
  oled_text = none;
  oled_dim = false;
}

abbrev pub annoyed : Mood
annoyed = record {
  name = "annoyed";
  ring = "glitch";
  one_shot = true;
  oled_mode = "noise";
  oled_text = none;
  oled_dim = false;
}

abbrev pub alarmed : Mood
alarmed = record {
  name = "alarmed";
  ring = "alarm";
  one_shot = false;
  oled_mode = "text";
  oled_text = some "!! FLATLINE !!";
  oled_dim = false;
}

abbrev pub asleep : Mood
asleep = record {
  name = "asleep";
  ring = "home";
  one_shot = false;
  oled_mode = "ripple";
  oled_text = none;
  oled_dim = true;
}

abbrev pub moods : List Mood
moods = calm ∷ busy ∷ pleased ∷ annoyed ∷ alarmed ∷ asleep ∷ []

unfoldable pub find : String → List Mood → Option Mood
find name [] = none
find name (m ∷ rest) = if str_eq m.name name then some m else find name rest

unfoldable pub by_name : String → Option Mood
unfolding find
by_name name = find name moods

-- MOODS.iter().position(|m| m.name == current)
unfoldable pub position : String → List Mood → Option ℕ
position name [] = none
position name (m ∷ rest) =
    if str_eq m.name name
    then some 0
    else elim (position name rest) [ none ↦ none | some i ↦ some (suc i) ]

unfoldable pub next_from : String → Mood
unfolding position
next_from current = elim (position current moods) [
  | none ↦ get_or moods 0 calm
  | some i ↦ get_or moods ((i + 1) % length moods) calm
]
