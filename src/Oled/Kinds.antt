-- ===== src/Oled/Kinds.antt =====
-- The kind of the animation that crates/loa-oled/src/render.rs keeps, beside the one that the mode
-- table of face.rs would make now.
use loa.Base.{
  both_true, ℕ, String, ◌≡◌, refl, false≢true, ◌∙◌, ap, inl, inr, Bool, true, false, not, ◌&&◌,
  Option, none, some, List, [], ◌∷◌, ◌++◌, str_eq, eq_iff, if◌then◌else◌, Bool-cases, arith, ap₂,
}
use loa.Base.Int.{ℤ}
use loa.Base.Floats.{Floats, Maths}
use loa.Oled.{Frame, clear}
use loa.Oled.Face.{Chance}
use loa.Oled.View.{RenderState, face_state}
use loa.Oled.Pages.{Print}
use loa.Oled.Render.{
  Animation, scope, ecg, ripple, noise, marquee, showoff, ripperdoc, FaceRenderer, draw, tick, wash,
  schedule_wash, rebuild, paint, animate, render, mode_of, same_key, same_text, or_loa,
  make_renderer,
}
use loa.Oled.Screen.Whole.{render_all}

-- An animation without its memory.
pub data Kind : Type 0 where
  scope_kind ecg_kind ripple_kind noise_kind showoff_kind ripperdoc_kind : Kind
  marquee_kind : List ℕ → Kind

abbrev pub kind : {F R : Type 0} → Animation F R → Kind
kind (scope s) = scope_kind
kind ecg = ecg_kind
kind ripple = ripple_kind
kind noise = noise_kind
kind (marquee s) = marquee_kind s
kind (showoff s) = showoff_kind
kind ripperdoc = ripperdoc_kind

abbrev pub kind_shown : {F R : Type 0} → Option (Animation F R) → Option Kind
kind_shown none = none
kind_shown (some a) = some (kind a)

-- The modes and what they show; the text is what the marquee runs.
abbrev pub table : List ℕ → List (String × Kind)
table text =
    ("scope", scope_kind)
    ∷ ("ecg", ecg_kind)
    ∷ ("ripple", ripple_kind)
    ∷ ("noise", noise_kind)
    ∷ ("text", marquee_kind text)
    ∷ ("showoff", showoff_kind)
    ∷ ("ripperdoc", ripperdoc_kind)
    ∷ []

abbrev pub look_up : List (String × Kind) → String → Kind → Kind
look_up [] mode other = other
look_up ((m, k) ∷ rest) mode other = if str_eq mode m then k else look_up rest mode other

module _ {F R : Type 0} ⦃f : Floats F⦄ ⦃g : Maths F⦄ (p : Print F) (c : Chance F R)
    (offset : ℤ) where
  -- What a mode shows, with the text that is held: nothing when off, and a mode that is not in the
  -- table its own name.
  unfoldable pub kind_for : String → Option String → Option Kind
  kind_for mode text =
      if str_eq mode "off"
      then none
      else some (
          look_up (table (p.chars (or_loa text))) mode
            (marquee_kind (p.chars "?? " ++ p.chars mode)))

  make_renderer-kind :
      (mode : String) (st : RenderState F) (t : F) (rng : R)
      → kind_shown (make_renderer p c offset mode st t rng) ≡ kind_for mode st.text
  unfolding make_renderer kind_for
  make_renderer-kind mode st t rng = ground arith

  tick-kind : (dt t : F) (a : Animation F R) → kind (tick p c offset dt t a) ≡ kind a
  unfolding tick
  tick-kind dt t (scope s) = refl
  tick-kind dt t ecg = refl
  tick-kind dt t ripple = refl
  tick-kind dt t noise = refl
  tick-kind dt t (marquee s) = refl
  tick-kind dt t (showoff s) = refl
  tick-kind dt t ripperdoc = refl

  draw-kind :
      (t : F) (st : RenderState F) (a : Animation F R) (buf : Frame)
      → kind (draw p c offset t st a buf).0 ≡ kind a
  unfolding draw
  draw-kind t st (scope s) buf = refl
  draw-kind t st ecg buf = refl
  draw-kind t st ripple buf = refl
  draw-kind t st noise buf = refl
  draw-kind t st (marquee s) buf = refl
  draw-kind t st (showoff s) buf = refl
  draw-kind t st ripperdoc buf = refl

  paint-kind :
      (a : Option (Animation F R)) (dt t : F) (st : RenderState F) (buf : Frame)
      → kind_shown (paint p c offset a dt t st buf).0 ≡ kind_shown a
  unfolding paint
  paint-kind none dt t st buf = refl
  paint-kind (some a) dt t st buf =
      ap some (draw-kind t st (tick p c offset dt t a) buf ∙ tick-kind dt t a)

  -- The animation is the one of the key.
  abbrev pub IsOfKey : Option (String × Option String) → Option (Animation F R) → Type 0
  IsOfKey none a = Unit
  IsOfKey (some (mode, text)) a = kind_shown a ≡ kind_for mode text

  abbrev pub IsTrue : FaceRenderer F R → Type 0
  IsTrue r = IsOfKey r.key r.anim

  pub same_text-eq : (a b : Option String) → same_text a b ≡ true → a ≡ b
  same_text-eq none none h = refl
  same_text-eq none (some b) h = absurd (false≢true h)
  same_text-eq (some a) none h = absurd (false≢true h)
  same_text-eq (some a) (some b) h = ap some ((eq_iff a b).0 h)

  kept-kind :
      (key : Option (String × Option String)) (a : Option (Animation F R)) (mode : String)
      (text : Option String)
      → same_key key mode text ≡ true
      → IsOfKey key a
      → kind_shown a ≡ kind_for mode text
  kept-kind none a mode text h k = absurd (false≢true h)
  kept-kind (some (m, t)) a mode text h k =
      let (modes, texts) = both_true h in
      k ∙ ap₂ kind_for ((eq_iff m mode).0 modes) (same_text-eq t text texts)

  rebuild-kind :
      (mode : String) (st : RenderState F) (t : F) (r : FaceRenderer F R)
      → IsTrue r
      → let after = rebuild p c offset mode st t r in
        IsTrue after × (kind_shown after.anim ≡ kind_for mode st.text)
  unfolding rebuild
  rebuild-kind mode st t r h = elim (Bool-cases (same_key r.key mode st.text)) [
    | inl e ↦ rw e (h, kept-kind r.key r.anim mode st.text e h)
    | inr e ↦ let made = make_renderer-kind mode st t r.rng in rw e (made, made)
  ]

  IsOfKey-kind :
      (key : Option (String × Option String)) (a b : Option (Animation F R))
      → kind_shown b ≡ kind_shown a
      → IsOfKey key a
      → IsOfKey key b
  IsOfKey-kind none a b e h = tt
  IsOfKey-kind (some (mode, text)) a b e h = e ∙ h

  schedule_wash-IsTrue :
      (mode : String) (t : F) (r : FaceRenderer F R)
      → IsTrue r
      → IsTrue (schedule_wash p c offset mode t r)
  unfolding schedule_wash
  schedule_wash-IsTrue mode t r h =
      elim (Bool-cases (not (str_eq mode "off") && f.le r.next_wash t)) [
        | inl e ↦ rw e h
        | inr e ↦ rw e h
      ]

  wash-IsTrue : (t : F) (r : FaceRenderer F R) → IsTrue r → IsTrue (wash p c offset t r)
  unfolding wash
  wash-IsTrue t r h =
      elim (Bool-cases (f.lt (f.sub t (f.sub r.wash_until (f.lit 5 1))) (f.lit 2 1))) [
        | inl e ↦ rw e h
        | inr e ↦ rw e h
      ]

  animate-kind :
      (dt t : F) (st : RenderState F) (r : FaceRenderer F R)
      → kind_shown (animate p c offset dt t st r).anim ≡ kind_shown r.anim
  unfolding animate
  animate-kind dt t st r = paint-kind r.anim dt t st (clear r.frame)

  animate-IsTrue :
      (dt t : F) (st : RenderState F) (r : FaceRenderer F R)
      → IsTrue r
      → IsTrue (animate p c offset dt t st r)
  unfolding animate
  animate-IsTrue dt t st r h =
      IsOfKey-kind r.key r.anim (animate p c offset dt t st r).anim (animate-kind dt t st r) h

  -- Does a frame at t wash the panel?
  unfoldable pub washes : RenderState F → F → FaceRenderer F R → Bool
  unfolding schedule_wash face_state
  washes held t r =
      let mode = mode_of p c offset (face_state held) in
      f.lt t (schedule_wash p c offset mode t (record r { last_t = t })).wash_until

  pub render-IsTrue :
      (held : RenderState F) (t : F) (r : FaceRenderer F R)
      → IsTrue r
      → IsTrue (render p c offset held t r)
  unfolding render washes
  render-IsTrue held t r h =
      let st = face_state held in
      let mode = mode_of p c offset st in
      let due = schedule_wash p c offset mode t (record r { last_t = t }) in
      let due_ok = schedule_wash-IsTrue mode t (record r { last_t = t }) h in
      elim (Bool-cases (washes held t r)) [
        | inl e ↦ rw e (wash-IsTrue t due due_ok)
        | inr e ↦ rw e (
            animate-IsTrue (f.sub t r.last_t) t st (rebuild p c offset mode st t due)
              (rebuild-kind mode st t due due_ok).0)
      ]

  pub render-kind :
      (held : RenderState F) (t : F) (r : FaceRenderer F R)
      → IsTrue r
      → washes held t r ≡ false
      → let st = face_state held in
        kind_shown (render p c offset held t r).anim ≡ kind_for (mode_of p c offset st) st.text
  unfolding render washes
  render-kind held t r h e =
      let st = face_state held in
      let mode = mode_of p c offset st in
      let due = schedule_wash p c offset mode t (record r { last_t = t }) in
      let due_ok = schedule_wash-IsTrue mode t (record r { last_t = t }) h in
      rw e (
        animate-kind (f.sub t r.last_t) t st (rebuild p c offset mode st t due)
        ∙ (rebuild-kind mode st t due due_ok).1)

  pub render_all-IsTrue :
      (steps : List (RenderState F × F)) (r : FaceRenderer F R)
      → IsTrue r
      → IsTrue (render_all p c offset steps r)
  unfolding render_all
  render_all-IsTrue [] r h = h
  render_all-IsTrue ((held, t) ∷ rest) r h =
      render_all-IsTrue rest (render p c offset held t r) (render-IsTrue held t r h)
