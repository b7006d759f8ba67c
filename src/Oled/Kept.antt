-- ===== src/Oled/Kept.antt =====
-- The animation that crates/loa-oled/src/render.rs keeps between frames.
use loa.Base.{
  both_true, String, ◌≡◌, refl, false≢true, ◌∙◌, ap, inl, inr, Bool, true, false, ◌&&◌, Option,
  none, some, List, [], ◌∷◌, str_eq, eq_iff, if◌then◌else◌, Bool-cases, arith, ap₂,
}
use loa.Base.Int.{ℤ}
use loa.Base.Floats.{Floats, Maths}
use loa.Oled.{Frame, clear}
use loa.Oled.Face.{Chance}
use loa.Oled.View.{RenderState, face_state}
use loa.Oled.Pages.{Print}
use loa.Oled.Render.{
  Animation, FaceRenderer, new_renderer, draw, tick, wash, schedule_wash, rebuild, paint, animate,
  render, mode_of, same_key, same_text, make_renderer,
}
use loa.Oled.Screen.Whole.{render_all}
use loa.Oled.Kinds.{
  kind_shown, kind_for, washes, same_text-eq, render-IsTrue, render-kind, render_all-IsTrue,
}

module _ {F R : Type 0} ⦃f : Floats F⦄ ⦃g : Maths F⦄ (p : Print F) (c : Chance F R)
    (offset : ℤ) where
  -- Frames that all wash the panel.
  abbrev pub AllWash : List (RenderState F × F) → FaceRenderer F R → Type 0
  AllWash [] r = Unit
  AllWash ((held, t) ∷ rest) r =
      (washes p c offset held t r ≡ true) × AllWash rest (render p c offset held t r)

  -- The time of the last of some frames after one at t.
  abbrev pub last_time : F → List (RenderState F × F) → F
  last_time t [] = t
  last_time t ((held, later) ∷ rest) = last_time later rest

  -- An animation that has moved on, drawn on an empty frame; no animation leaves that empty.
  abbrev pub shown_by :
      Option (Animation F R) → F → F → RenderState F → Frame → Option (Animation F R) × Frame
  shown_by none dt t st empty = (none, empty)
  shown_by (some a) dt t st empty =
      let (moved, frame) = draw p c offset t st (tick p c offset dt t a) empty in
      (some moved, frame)

  abbrev pub agree : Option String → Option String → Bool
  agree (some a) (some b) = str_eq a b
  agree none none = true
  agree a b = false

  -- The frame `next` at t, with st' held, after r, whose last frame was at `before`: it shows the
  -- animation `a` of the frame that showed st, or a new one if the mode or the text is another.
  abbrev pub Continues :
      RenderState F
      → RenderState F
      → F
      → F
      → Option (Animation F R)
      → FaceRenderer F R
      → FaceRenderer F R
      → Type 0
  Continues st st' before t a r next =
      let mode = mode_of p c offset st in
      let mode' = mode_of p c offset st' in
      let current =
        if str_eq mode mode' && agree st.text st'.text
        then a
        else make_renderer p c offset mode' st' t r.rng in
      (◌≡◌ {A = Option (Animation F R) × Frame} (next.anim, next.frame)
        (shown_by current (f.sub t before) t st' (clear r.frame)))
      × (kind_shown next.anim ≡ kind_for p c offset mode' st'.text)

  agree-same_text : (a b : Option String) → same_text a b ≡ agree a b
  agree-same_text none none = refl
  agree-same_text none (some b) = refl
  agree-same_text (some a) none = refl
  agree-same_text (some a) (some b) = refl

  paint-shown_by :
      (a : Option (Animation F R)) (dt t : F) (st : RenderState F) (buf : Frame)
      → paint p c offset a dt t st buf ≡ shown_by a dt t st buf
  unfolding paint
  paint-shown_by none dt t st buf = refl
  paint-shown_by (some a) dt t st buf = refl

  schedule_wash-keeps :
      (mode : String) (t : F) (r : FaceRenderer F R)
      → let due = schedule_wash p c offset mode t r in
        (due.anim ≡ r.anim)
        × (due.key ≡ r.key)
        × (due.last_t ≡ r.last_t)
        × (due.rng ≡ r.rng)
        × (due.frame ≡ r.frame)
  unfolding schedule_wash
  schedule_wash-keeps mode t r = ground arith

  wash-keeps :
      (t : F) (r : FaceRenderer F R)
      → let out = wash p c offset t r in
        (out.anim ≡ r.anim) × (out.key ≡ r.key) × (out.last_t ≡ r.last_t)
  unfolding wash
  wash-keeps t r = ground arith

  -- A frame that washes.
  render-washed :
      (held : RenderState F) (t : F) (r : FaceRenderer F R)
      → washes p c offset held t r ≡ true
      → let out = render p c offset held t r in
        (out.anim ≡ r.anim) × (out.key ≡ r.key) × (out.last_t ≡ t)
  unfolding render washes
  render-washed held t r e =
      let mode = mode_of p c offset (face_state held) in
      let due = schedule_wash p c offset mode t (record r { last_t = t }) in
      let (anim, key, last, _, _) = schedule_wash-keeps mode t (record r { last_t = t }) in
      let (anim', key', last') = wash-keeps t due in rw e (anim' ∙ anim, key' ∙ key, last' ∙ last)

  render_all-washed :
      (washed : List (RenderState F × F)) (r : FaceRenderer F R)
      → AllWash washed r
      → let out = render_all p c offset washed r in
        (out.anim ≡ r.anim) × (out.key ≡ r.key) × (out.last_t ≡ last_time r.last_t washed)
  unfolding render_all
  render_all-washed [] r h = (refl, refl, refl)
  render_all-washed ((held, t) ∷ rest) r (e, h) =
      let (anim, key, last) = render-washed held t r e in
      let (anim', key', last') = render_all-washed rest (render p c offset held t r) h in
      (anim' ∙ anim, key' ∙ key, last' ∙ ap (λ u. last_time u rest) last)

  key_of_same :
      (key : Option (String × Option String)) (mode : String) (text : Option String)
      → same_key key mode text ≡ true
      → key ≡ some (mode, text)
  key_of_same none mode text h = absurd (false≢true h)
  key_of_same (some (m, x)) mode text h =
      let (modes, texts) = both_true h in
      ap₂ (λ a b. some (a, b)) ((eq_iff m mode).0 modes) (same_text-eq p c offset x text texts)

  rebuild-keeps :
      (mode : String) (st : RenderState F) (t : F) (r : FaceRenderer F R)
      → let out = rebuild p c offset mode st t r in
        (out.key ≡ some (mode, st.text)) × (out.last_t ≡ r.last_t) × (out.frame ≡ r.frame)
  unfolding rebuild
  rebuild-keeps mode st t r = elim (Bool-cases (same_key r.key mode st.text)) [
    | inl e ↦ rw e (key_of_same r.key mode st.text e, refl, refl)
    | inr e ↦ rw e (refl, refl, refl)
  ]

  rebuild-anim :
      (m : String) (x : Option String) (mode : String) (st : RenderState F) (t : F)
      (r : FaceRenderer F R)
      → r.key ≡ some (m, x)
      → (rebuild p c offset mode st t r).anim ≡ (
          if str_eq m mode && agree x st.text
          then r.anim
          else make_renderer p c offset mode st t r.rng)
  unfolding rebuild
  rebuild-anim m x mode st t r h =
      let same : same_key r.key mode st.text ≡ (str_eq m mode && agree x st.text) =
        ap (λ k. same_key k mode st.text) h
        ∙ ap (λ b. str_eq m mode && b) (agree-same_text x st.text) in
      elim (Bool-cases (str_eq m mode && agree x st.text)) [
        | inl e ↦ rw (same ∙ e, e) refl
        | inr e ↦ rw (same ∙ e, e) refl
      ]

  -- A frame that does not wash.
  render-drawn :
      (held : RenderState F) (t : F) (r : FaceRenderer F R)
      → washes p c offset held t r ≡ false
      → let st = face_state held in
        let mode = mode_of p c offset st in
        let due = schedule_wash p c offset mode t (record r { last_t = t }) in
        render p c offset held t r
        ≡ animate p c offset (f.sub t r.last_t) t st (rebuild p c offset mode st t due)
  unfolding render washes
  render-drawn held t r e = rw e refl

  -- What it leaves.
  render-key :
      (held : RenderState F) (t : F) (r : FaceRenderer F R)
      → washes p c offset held t r ≡ false
      → let st = face_state held in
        let out = render p c offset held t r in
        (out.key ≡ some (mode_of p c offset st, st.text)) × (out.last_t ≡ t)
  unfolding animate
  render-key held t r e =
      let st = face_state held in
      let mode = mode_of p c offset st in
      let due = schedule_wash p c offset mode t (record r { last_t = t }) in
      let (_, _, last, _, _) = schedule_wash-keeps mode t (record r { last_t = t }) in
      let (key, last', _) = rebuild-keeps mode st t due in
      rw (render-drawn held t r e) (key, last' ∙ last)

  -- What it shows.
  render-shown :
      (held : RenderState F) (t : F) (r : FaceRenderer F R) (m : String) (x : Option String)
      → washes p c offset held t r ≡ false
      → r.key ≡ some (m, x)
      → let st = face_state held in
        let mode = mode_of p c offset st in
        let out = render p c offset held t r in
        ◌≡◌ {A = Option (Animation F R) × Frame}
          (out.anim, out.frame)
          (shown_by
            (if str_eq m mode && agree x st.text
              then r.anim
              else make_renderer p c offset mode st t r.rng)
            (f.sub t r.last_t)
            t
            st
            (clear r.frame))
  unfolding animate
  render-shown held t r m x e h =
      let st = face_state held in
      let mode = mode_of p c offset st in
      let due = schedule_wash p c offset mode t (record r { last_t = t }) in
      let (anim, key, last, rng, frame) = schedule_wash-keeps mode t (record r { last_t = t }) in
      let (_, _, frame') = rebuild-keeps mode st t due in
      rw (render-drawn held t r e) (
        paint-shown_by (rebuild p c offset mode st t due).anim (f.sub t r.last_t) t st
          (clear (rebuild p c offset mode st t due).frame)
        ∙ ap₂ (λ a b. shown_by a (f.sub t r.last_t) t st (clear b))
            (rebuild-anim m x mode st t due (key ∙ h)
              ∙ ap₂
                  (λ a g'.
                    if str_eq m mode && agree x st.text
                    then a
                    else make_renderer p c offset mode st t g')
                  anim rng)
            (frame' ∙ frame))

  -- After any frames: a frame that does not wash the panel, any frames that do, and one that does
  -- not. The last is drawn on an empty frame by the animation of the first, moved on by the time since
  -- the frame before, where the mode (after the takeover) and the text are still the same; where one
  -- of them is another, by a new animation. Either way it is of the kind that the table has for the
  -- mode and the text held now; where the mode is off there is none and the frame is empty.
  pub render-current :
      (now : F) (steps : List (RenderState F × F)) (held : RenderState F) (t : F)
      (washed : List (RenderState F × F)) (held' : RenderState F) (t' : F)
      → let r0 = render_all p c offset steps (new_renderer p c offset now) in
        let r1 = render p c offset held t r0 in
        let r2 = render_all p c offset washed r1 in
        washes p c offset held t r0 ≡ false
        → AllWash washed r1
        → washes p c offset held' t' r2 ≡ false
        → Continues
            (face_state held)
            (face_state held')
            (last_time t washed)
            t'
            r1.anim
            r2
            (render p c offset held' t' r2)
  unfolding new_renderer
  render-current now steps held t washed held' t' drawn washing drawn' =
      let r0 = render_all p c offset steps (new_renderer p c offset now) in
      let r1 = render p c offset held t r0 in
      let r2 = render_all p c offset washed r1 in
      let st = face_state held in
      let st' = face_state held' in
      let mode = mode_of p c offset st in
      let mode' = mode_of p c offset st' in
      let r1_ok =
        render-IsTrue p c offset held t r0
          (render_all-IsTrue p c offset steps (new_renderer p c offset now) tt) in
      let (key, last) = render-key held t r0 drawn in
      let (anim2, key2, last2) = render_all-washed washed r1 washing in
      (
        render-shown held' t' r2 mode st.text drawn' (key2 ∙ key)
            ∙ ap₂
                (λ a u.
                  shown_by
                    (if str_eq mode mode' && agree st.text st'.text
                      then a
                      else make_renderer p c offset mode' st' t' r2.rng)
                    (f.sub t' u) t' st' (clear r2.frame))
                anim2 (last2 ∙ ap (λ u. last_time u washed) last),
        render-kind p c offset held' t' r2 (render_all-IsTrue p c offset washed r1 r1_ok) drawn',
      )
