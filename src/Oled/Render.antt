-- ===== src/Oled/Render.antt =====
-- crates/loa-oled/src/render.rs: a frame from the held state and the clock, and the table of modes
-- of face.rs. An Animation is one of the kinds below, with its own memory.
use loa.Base.{
  ℕ, ◌+◌, ◌%◌, ◌^◌, Bool, true, false, not, ◌&&◌, Option, none, some, String, List, [], ◌∷◌, ◌++◌,
  ◌==◌, map, str_eq, if◌then◌else◌,
}
use loa.Base.Int.{ℤ}
use loa.Base.Floats.{Floats, Maths}
use loa.Oled.{Frame, new, clear}
use loa.Oled.Face.{
  Chance, Scope, new_scope, tick_scope, draw_scope, draw_ecg, draw_ripple, draw_noise, draw_marquee,
  whole,
}
use loa.Oled.Showoff.{Showoff, new_showoff, draw_showoff}
use loa.Oled.Pages.{Print}
use loa.Oled.Boards.{draw_ripperdoc}
use loa.Oled.View.{RenderState, face_state}

pub data Animation (F R : Type 0) : Type 0 where
  scope : Scope F R → Animation F R
  ecg ripple noise : Animation F R
  marquee : List ℕ → Animation F R
  showoff : Showoff R → Animation F R
  ripperdoc : Animation F R

pub record FaceRenderer (F R : Type 0) : Type 0 where
  pub frame : Frame
  pub anim : Option (Animation F R)
  pub key : Option (String × Option String)
  pub last_t : F
  pub next_wash : F
  pub wash_until : F
  pub wash_blink : ℕ  -- u32
  pub rng : R

abbrev pub same_text : Option String → Option String → Bool
same_text none none = true
same_text (some a) (some b) = str_eq a b
same_text a b = false

-- `self.key.as_ref() == Some(&key)`
abbrev pub same_key : Option (String × Option String) → String → Option String → Bool
same_key none mode text = false
same_key (some (m, t)) mode text = str_eq m mode && same_text t text

abbrev pub or_loa : Option String → String
or_loa none = "LOA"
or_loa (some s) = if str_eq s "" then "LOA" else s

module _ {F R : Type 0} ⦃f : Floats F⦄ ⦃g : Maths F⦄ (p : Print F) (c : Chance F R)
    (offset : ℤ) where
  unfoldable pub make_renderer : String → RenderState F → F → R → Option (Animation F R)
  unfolding new_scope new_showoff
  make_renderer mode st now rng =
      if str_eq mode "off"
      then none
      else if str_eq mode "scope"
      then some (scope (new_scope c now rng))
      else if str_eq mode "ecg"
      then some ecg
      else if str_eq mode "ripple"
      then some ripple
      else if str_eq mode "noise"
      then some noise
      else if str_eq mode "text"
      then some (marquee (p.chars (or_loa st.text)))
      else if str_eq mode "showoff"
      then some (showoff (new_showoff (p.chars "CLEAN BUS - THE OLD GIRL SEES - LOA - ") rng))
      else if str_eq mode "ripperdoc"
      then some ripperdoc
      else some (marquee (p.chars "?? " ++ p.chars mode))

  -- `a.tick(dt, t)`
  unfoldable pub tick : F → F → Animation F R → Animation F R
  unfolding tick_scope
  tick dt now (scope s) = scope (tick_scope c dt now s)
  tick dt now a = a

  -- `a.draw(&mut frame, t, st)`
  unfoldable pub draw : F → RenderState F → Animation F R → Frame → Animation F R × Frame
  unfolding draw_scope draw_ecg draw_ripple draw_noise draw_marquee draw_showoff draw_ripperdoc
  draw t st (scope s) buf = (scope s, draw_scope t s buf)
  draw t st ecg buf = (ecg, draw_ecg t buf)
  draw t st ripple buf = (ripple, draw_ripple t buf)
  draw t st noise buf = (noise, draw_noise c t buf)
  draw t st (marquee s) buf = (marquee s, draw_marquee s t buf)
  draw t st (showoff s) buf =
      let shown = draw_showoff c (p.chars "CLEAN BUS") (p.chars "OLD GIRL SEES") t s buf in
      (showoff shown.0, shown.1)
  draw t st ripperdoc buf = (ripperdoc, draw_ripperdoc p offset t st buf)

  unfoldable pub new_renderer : F → FaceRenderer F R
  unfolding new
  new_renderer now = record {
    frame = new;
    anim = none;
    key = none;
    last_t = now;
    next_wash = f.add now (whole 300);
    wash_until = f.zero;
    wash_blink = 0;
    rng = c.seed_from_u64 (f.to_bits now);
  }

  -- A byte of the generator for each byte of the frame.
  unfoldable pub scramble : Frame → R → R × Frame
  scramble [] r = (r, [])
  scramble (b ∷ bs) r =
      let drawn = c.byte r in let rest = scramble bs drawn.1 in (rest.0, drawn.0 ∷ rest.1)

  unfoldable pub wash : F → FaceRenderer F R → FaceRenderer F R
  unfolding scramble
  wash t r =
      let v = if r.wash_blink % 2 == 0 then 255 else 0 in
      let noisy = scramble r.frame r.rng in
      if f.lt (f.sub t (f.sub r.wash_until (whole 5))) (whole 2)
      then record r { wash_blink = (r.wash_blink + 1) % 2 ^ 32; frame = map (λ b. v) r.frame }
      else record r { frame = noisy.1; rng = noisy.0 }

  abbrev pub mode_of : RenderState F → String
  mode_of st = if str_eq st.mode "" then "scope" else st.mode

  -- The wash's clock: it starts every five minutes, unless the face is off.
  unfoldable pub schedule_wash : String → F → FaceRenderer F R → FaceRenderer F R
  schedule_wash mode t r =
      if not (str_eq mode "off") && f.le r.next_wash t
      then record r {
        wash_until = f.add t (whole 5);
        next_wash = f.add t (whole 300);
        wash_blink = 0;
      }
      else r

  -- The animation is made again only where its key has changed.
  unfoldable pub rebuild : String → RenderState F → F → FaceRenderer F R → FaceRenderer F R
  unfolding make_renderer
  rebuild mode st t r =
      if same_key r.key mode st.text
      then r
      else record r { key = some (mode, st.text); anim = make_renderer mode st t r.rng }

  unfoldable pub paint :
      Option (Animation F R) → F → F → RenderState F → Frame → Option (Animation F R) × Frame
  unfolding tick draw
  paint none dt t st buf = (none, buf)
  paint (some a) dt t st buf = let drawn = draw t st (tick dt t a) buf in (some drawn.0, drawn.1)

  unfoldable pub animate : F → F → RenderState F → FaceRenderer F R → FaceRenderer F R
  unfolding paint clear
  animate dt t st r =
      let drawn = paint r.anim dt t st (clear r.frame) in
      record r { anim = drawn.0; frame = drawn.1 }

  -- One frame: the renderer after it, which holds the frame's bytes.
  unfoldable pub render : RenderState F → F → FaceRenderer F R → FaceRenderer F R
  unfolding face_state schedule_wash wash rebuild animate
  render held t r =
      let st = face_state held in
      let dt = f.sub t r.last_t in
      let mode = mode_of st in
      let due = schedule_wash mode t (record r { last_t = t }) in
      if f.lt t due.wash_until then wash t due else animate dt t st (rebuild mode st t due)
