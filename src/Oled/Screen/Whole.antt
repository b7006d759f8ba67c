-- ===== src/Oled/Screen/Whole.antt =====
-- Every frame of crates/loa-oled/src/render.rs is a screen.
use loa.Base.{
  ℕ, zero, suc, ◌<◌, String, ◌≡◌, refl, ◌∙◌, ap, inl, inr, Bool, true, false, Option, none, some,
  List, [], ◌∷◌, map, All, length, replicate, if◌then◌else◌, arith, Bool-cases, length-replicate,
  ◌%◌, ◌==◌, str_eq, not, ◌&&◌, subst, sym,
}
use loa.Base.Int.{ℤ}
use loa.Base.Floats.{Floats, Maths}
use loa.Oled.{Frame, new, clear}
use loa.Oled.Face.{Chance, whole}
use loa.Oled.View.{RenderState, face_state}
use loa.Oled.Pages.{Print}
use loa.Oled.Render.{
  Animation, scope, ecg, ripple, noise, marquee, showoff, ripperdoc, FaceRenderer, new_renderer,
  draw, tick, scramble, wash, schedule_wash, rebuild, paint, animate, render, mode_of, same_key,
}
use loa.Oled.Screen.{IsByte, IsScreen}
use loa.Oled.Screen.Renders.{
  draw_scope-Keeps, draw_ecg-Keeps, draw_ripple-Keeps, draw_noise-Keeps, draw_marquee-Keeps,
  draw_showoff-IsScreen,
}
use loa.Oled.Screen.Boards.{draw_ripperdoc-Keeps}

replicate-All : (n v : ℕ) → IsByte v → All IsByte (replicate n v)
replicate-All zero v h = tt
replicate-All (suc n) v h = (h, replicate-All n v h)

new-IsScreen : IsScreen new
unfolding new
new-IsScreen = record {
  size = length-replicate {A = ℕ} 1024 0;
  bytes = replicate-All 1024 0 (omega arith);
}

length-clear : (buf : Frame) → length (clear buf) ≡ length buf
unfolding clear
length-clear [] = refl
length-clear (b ∷ bs) = ap suc (length-clear bs)

clear-All : (buf : Frame) → All IsByte (clear buf)
unfolding clear
clear-All [] = tt
clear-All (b ∷ bs) = (omega arith, clear-All bs)

-- All the bytes the same.
length-flood : (v : ℕ) (buf : Frame) → length (map (λ b. v) buf) ≡ length buf
length-flood v [] = refl
length-flood v (b ∷ bs) = ap suc (length-flood v bs)

flood-All : (v : ℕ) (buf : Frame) → IsByte v → All IsByte (map (λ b. v) buf)
flood-All v [] h = tt
flood-All v (b ∷ bs) h = (h, flood-All v bs h)

blink-IsByte : (b : Bool) → IsByte (if b then 255 else 0)
blink-IsByte true = omega arith
blink-IsByte false = omega arith

module _ {F R : Type 0} ⦃f : Floats F⦄ ⦃g : Maths F⦄ (p : Print F) (c : Chance F R)
    (offset : ℤ) where
  module _ (bands : (r : R) → (c.range 0 8 r).0 < 8) where
    draw-IsScreen :
        (t : F) (st : RenderState F) (a : Animation F R) (buf : Frame)
        → IsScreen buf
        → IsScreen (draw p c offset t st a buf).1
    unfolding draw
    draw-IsScreen t st (scope s) buf ok = draw_scope-Keeps t s buf ok
    draw-IsScreen t st ecg buf ok = draw_ecg-Keeps t buf ok
    draw-IsScreen t st ripple buf ok = draw_ripple-Keeps t buf ok
    draw-IsScreen t st noise buf ok = draw_noise-Keeps c t buf ok
    draw-IsScreen t st (marquee s) buf ok = draw_marquee-Keeps s t buf ok
    draw-IsScreen t st (showoff s) buf ok =
        draw_showoff-IsScreen c bands (p.chars "CLEAN BUS") (p.chars "OLD GIRL SEES") t s buf ok
    draw-IsScreen t st ripperdoc buf ok = draw_ripperdoc-Keeps p offset t st buf ok

    paint-IsScreen :
        (a : Option (Animation F R)) (dt t : F) (st : RenderState F) (buf : Frame)
        → IsScreen buf
        → IsScreen (paint p c offset a dt t st buf).1
    unfolding paint
    paint-IsScreen none dt t st buf ok = ok
    paint-IsScreen (some a) dt t st buf ok = draw-IsScreen t st (tick p c offset dt t a) buf ok

    animate-IsScreen :
        (dt t : F) (st : RenderState F) (r : FaceRenderer F R)
        → IsScreen r.frame
        → IsScreen (animate p c offset dt t st r).frame
    unfolding animate
    animate-IsScreen dt t st r ok =
        paint-IsScreen r.anim dt t st (clear r.frame)
          (record { size = length-clear r.frame ∙ ok.size; bytes = clear-All r.frame })

  rebuild-frame :
      (mode : String) (st : RenderState F) (t : F) (r : FaceRenderer F R)
      → (rebuild p c offset mode st t r).frame ≡ r.frame
  unfolding rebuild
  rebuild-frame mode st t r = elim (Bool-cases (same_key r.key mode st.text)) [
    | inl e ↦ rw e refl
    | inr e ↦ rw e refl
  ]

  schedule_wash-frame :
      (mode : String) (t : F) (r : FaceRenderer F R)
      → (schedule_wash p c offset mode t r).frame ≡ r.frame
  unfolding schedule_wash
  schedule_wash-frame mode t r = elim (Bool-cases (not (str_eq mode "off") && f.le r.next_wash t)) [
    | inl e ↦ rw e refl
    | inr e ↦ rw e refl
  ]

  module _ (bytes : (r : R) → IsByte (c.byte r).0) (bands : (r : R) → (c.range 0 8 r).0 < 8) where
    length-scramble : (buf : Frame) (r : R) → length (scramble p c offset buf r).1 ≡ length buf
    unfolding scramble
    length-scramble [] r = refl
    length-scramble (b ∷ bs) r = ap suc (length-scramble bs (c.byte r).1)

    scramble-All : (buf : Frame) (r : R) → All IsByte (scramble p c offset buf r).1
    unfolding scramble
    scramble-All [] r = tt
    scramble-All (b ∷ bs) r = (bytes r, scramble-All bs (c.byte r).1)

    wash-IsScreen :
        (t : F) (r : FaceRenderer F R) → IsScreen r.frame → IsScreen (wash p c offset t r).frame
    unfolding wash
    wash-IsScreen t r ok =
        let v = if r.wash_blink % 2 == 0 then 255 else 0 in
        elim (Bool-cases (f.lt (f.sub t (f.sub r.wash_until (whole 5))) (whole 2))) [
          | inl e ↦ rw e (record {
            size = length-flood v r.frame ∙ ok.size;
            bytes = flood-All v r.frame (blink-IsByte (r.wash_blink % 2 == 0));
          })
          | inr e ↦ rw e (record {
            size = length-scramble r.frame r.rng ∙ ok.size;
            bytes = scramble-All r.frame r.rng;
          })
        ]

    -- One frame, of a renderer that holds one.
    render-IsScreen :
        (held : RenderState F) (t : F) (r : FaceRenderer F R)
        → IsScreen r.frame
        → IsScreen (render p c offset held t r).frame
    unfolding render
    render-IsScreen held t r ok =
        let st = face_state held in
        let mode = mode_of p c offset st in
        let due = schedule_wash p c offset mode t (record r { last_t = t }) in
        let same = schedule_wash-frame mode t (record r { last_t = t }) in
        let due_ok = subst IsScreen (sym same) ok in
        elim (Bool-cases (f.lt t due.wash_until)) [
          | inl e ↦ rw e (wash-IsScreen t due due_ok)
          | inr e ↦ rw e (
              animate-IsScreen bands (f.sub t r.last_t) t st (rebuild p c offset mode st t due)
                (subst IsScreen (sym (rebuild-frame mode st t due)) due_ok))
        ]

  -- Frames one after the other: what is held, and the clock, at each.
  unfoldable pub render_all : List (RenderState F × F) → FaceRenderer F R → FaceRenderer F R
  unfolding render
  render_all [] r = r
  render_all ((held, t) ∷ rest) r = render_all rest (render p c offset held t r)

  render_all-kept :
      (bytes : (r : R) → IsByte (c.byte r).0) (bands : (r : R) → (c.range 0 8 r).0 < 8)
      (steps : List (RenderState F × F)) (r : FaceRenderer F R)
      → IsScreen r.frame
      → IsScreen (render_all steps r).frame
  unfolding render_all
  render_all-kept bytes bands [] r ok = ok
  render_all-kept bytes bands ((held, t) ∷ rest) r ok =
      render_all-kept bytes bands rest (render p c offset held t r)
        (render-IsScreen bytes bands held t r ok)

  -- With a generator whose bytes are bytes and whose numbers below eight are below eight: whatever is
  -- held and whatever the clock says, frame after frame, through every mode, page, wash and takeover,
  -- no write goes past the frame buffer, which would be a panic and leave no frame, and the frame
  -- that goes to the glass and up to the cortex is 1024 bytes, each below 256. A line whose
  -- arithmetic overflows is left out.
  pub render_all-IsScreen :
      ((r : R) → IsByte (c.byte r).0)
      → ((r : R) → (c.range 0 8 r).0 < 8)
      → (now : F) (steps : List (RenderState F × F))
      → IsScreen (render_all steps (new_renderer p c offset now)).frame
  unfolding new_renderer
  render_all-IsScreen bytes bands now steps =
      render_all-kept bytes bands steps (new_renderer p c offset now) new-IsScreen
