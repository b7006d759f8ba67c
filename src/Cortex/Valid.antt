-- ===== src/Cortex/Valid.antt =====
-- What the verbs of crates/loa-cortex/src/verbs.rs keep of the state, over any list of requests.
use loa.Base.{
  ℕ, zero, suc, String, ◌≡◌, refl, inl, inr, Bool, true, false, Option, none, some, List, [], ◌∷◌,
  str_eq, All, get_or, arith, Bool-cases, Option-cases, map, subst,
}
use loa.Base.Floats.{Floats}
use loa.Cortex.{Cortex, State, new}
use loa.Cortex.Moods.{Mood, calm, moods, find, by_name, next_from, position}
use loa.Cortex.Verbs.{
  pages, display_modes, contains, Error, Result, err, apply_mood, chosen, feel, display_verb,
  ripperdoc_verb,
}

pub data Request : Type 0 where
  feel_request : Option String → Bool → Option String → Request
  display_request : Option String → Option String → Option Bool → Option Bool → Request
  ripperdoc_request : Option Bool → Option String → Request

abbrev pub mood_names : List String
mood_names = map (λ m. m.name) moods

abbrev pub ring_states : List String
ring_states = "home" ∷ "busy" ∷ "alarm" ∷ []

-- The words of the state are words of the vocabulary.
pub record IsValid {F : Type 0} (st : State F) : Type 0 where
  pub mood_known : contains mood_names st.mood ≡ true
  pub page_known : contains pages st.page ≡ true
  pub mode_known : contains display_modes st.oled_mode ≡ true
  pub ring_sustained : contains ring_states st.ring_state ≡ true

record IsInTable (m : Mood) : Type 0 where
  name_known : contains mood_names m.name ≡ true
  mode_known : contains display_modes m.oled_mode ≡ true
  ring_sustained : m.one_shot ≡ false → contains ring_states m.ring ≡ true

find-All {ℓ} :
    (P : Mood → Type ℓ) (name : String) (l : List Mood) {m : Mood}
    → All P l
    → find name l ≡ some m
    → P m
unfolding find
find-All P name [] h e = cc
find-All P name (n ∷ l) h e = elim (Bool-cases (str_eq n.name name)) [
  | inl t ↦ subst P (cc (rw t at e)) h.0
  | inr t ↦ find-All P name l h.1 (rw t at e)
]

get_or-All {ℓ} :
    (P : Mood → Type ℓ) (l : List Mood) (i : ℕ) (d : Mood) → All P l → P d → P (get_or l i d)
get_or-All P [] i d h hd = hd
get_or-All P (x ∷ xs) zero d h hd = h.0
get_or-All P (x ∷ xs) (suc i) d h hd = get_or-All P xs i d h.1 hd

moods-IsInTable : All IsInTable moods
unfolding contains
moods-IsInTable = (
  record { name_known = refl; mode_known = refl; ring_sustained = λ _. refl },
  (
    record { name_known = refl; mode_known = refl; ring_sustained = λ _. refl },
    (
      record { name_known = refl; mode_known = refl; ring_sustained = λ e. cc },
      (
        record { name_known = refl; mode_known = refl; ring_sustained = λ e. cc },
        (
          record { name_known = refl; mode_known = refl; ring_sustained = λ _. refl },
          (record { name_known = refl; mode_known = refl; ring_sustained = λ _. refl }, tt),
        ),
      ),
    ),
  ),
)

next_from-IsInTable : (current : String) → IsInTable (next_from current)
unfolding next_from
next_from-IsInTable current = elim (Option-cases (position current moods)) [
  | inl e ↦ rw (e, next_from) moods-IsInTable.0
  | inr (i, e) ↦
      rw (e, next_from) (get_or-All IsInTable moods _ calm moods-IsInTable moods-IsInTable.0)
]

by_name-IsInTable : (name : String) {m : Mood} → by_name name ≡ some m → IsInTable m
unfolding by_name
by_name-IsInTable name e = find-All IsInTable name moods moods-IsInTable e

console_modes :
    (contains display_modes "ripperdoc" ≡ true) × (contains display_modes "scope" ≡ true)
unfolding contains
console_modes = (refl, refl)

module _ {F : Type 0} where
  unfoldable pub perform : Cortex F → Request → Cortex F × Result
  perform cx (feel_request feeling next remark) = feel cx feeling next remark
  perform cx (display_request mode text dim flip) = display_verb cx mode text dim flip
  perform cx (ripperdoc_request on page) = ripperdoc_verb cx on page

  unfoldable pub perform_all : Cortex F → List Request → Cortex F
  perform_all cx [] = cx
  perform_all cx (r ∷ rest) = perform_all (perform cx r).0 rest

  chosen-IsInTable :
      (cx : Cortex F) (feeling : Option String) (next : Bool) {m : Mood}
      → chosen cx feeling next ≡ some m
      → IsInTable m
  unfolding chosen
  chosen-IsInTable cx feeling true e = subst IsInTable (cc) (next_from-IsInTable cx.st.mood)
  chosen-IsInTable cx none false e = cc
  chosen-IsInTable cx (some word) false e = by_name-IsInTable word e

  apply_mood-IsValid :
      (cx : Cortex F) (m : Mood) (remark : Option String)
      → IsInTable m
      → IsValid cx.st
      → IsValid (apply_mood cx m remark).0.st
  unfolding apply_mood
  apply_mood-IsValid cx m remark t v = record {
    mood_known = t.name_known;
    page_known = v.page_known;
    mode_known = t.mode_known;
    ring_sustained = elim (Bool-cases m.one_shot) [
      | inl e ↦ rw e v.ring_sustained
      | inr e ↦ rw e (t.ring_sustained e)
    ];
  }

  feel-IsValid :
      (cx : Cortex F) (feeling : Option String) (next : Bool) (remark : Option String)
      → IsValid cx.st
      → IsValid (feel cx feeling next remark).0.st
  unfolding feel
  feel-IsValid cx feeling next remark v = elim (Option-cases (chosen cx feeling next)) [
    | inl e ↦ rw (e, feel) v
    | inr (m, e) ↦
        rw (e, feel) (apply_mood-IsValid cx m remark (chosen-IsInTable cx feeling next e) v)
  ]

  display-IsValid :
      (cx : Cortex F) (mode text : Option String) (dim flip : Option Bool)
      → IsValid cx.st
      → IsValid (display_verb cx mode text dim flip).0.st
  unfolding display_verb
  display-IsValid cx none text dim flip v = ground arith
  display-IsValid cx (some m) text dim flip v = ground arith

  ripperdoc-IsValid :
      (cx : Cortex F) (on : Option Bool) (page : Option String)
      → IsValid cx.st
      → IsValid (ripperdoc_verb cx on page).0.st
  unfolding ripperdoc_verb
  ripperdoc-IsValid cx on none v = ground (arith, console_modes)
  ripperdoc-IsValid cx on (some p) v = ground (arith, console_modes)

  perform-IsValid : (cx : Cortex F) (r : Request) → IsValid cx.st → IsValid (perform cx r).0.st
  unfolding perform
  perform-IsValid cx (feel_request feeling next remark) v = feel-IsValid cx feeling next remark v
  perform-IsValid cx (display_request m t d b) v = display-IsValid cx m t d b v
  perform-IsValid cx (ripperdoc_request on page) v = ripperdoc-IsValid cx on page v

  -- A request that is refused leaves the cortex exactly as it was.
  pub perform_refused :
      (cx : Cortex F) (r : Request) {e : Error} → (perform cx r).1 ≡ err e → (perform cx r).0 ≡ cx
  unfolding perform feel apply_mood display_verb ripperdoc_verb
  perform_refused cx (feel_request feeling next remark) h = ground arith
  perform_refused cx (display_request none t none none) h = ground arith
  perform_refused cx (display_request none t (some d) b) h = ground arith
  perform_refused cx (display_request none t none (some b)) h = ground arith
  perform_refused cx (display_request (some m) t d b) h = ground arith
  perform_refused cx (ripperdoc_request on none) h = ground arith
  perform_refused cx (ripperdoc_request on (some p)) h = ground arith

  -- Whatever requests the door takes, valid or not, the mood, the page, the face's mode and the
  -- ring's state stay words of their vocabularies if they were; a one-shot never becomes the
  -- ring's state.
  pub perform_all-IsValid :
      (cx : Cortex F) (rs : List Request) → IsValid cx.st → IsValid (perform_all cx rs).st
  unfolding perform_all
  perform_all-IsValid cx [] v = v
  perform_all-IsValid cx (r ∷ rs) v =
      perform_all-IsValid (perform cx r).0 rs (perform-IsValid cx r v)

module _ {F : Type 0} ⦃f : Floats F⦄ where
  pub new-IsValid : IsValid (new {F = F}).st
  unfolding new contains
  new-IsValid = record {
    mood_known = refl;
    page_known = refl;
    mode_known = refl;
    ring_sustained = refl;
  }
