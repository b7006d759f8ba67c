-- ===== src/Oled.antt =====
-- The face's frame buffer (crates/loa-oled/src/frame.rs): pixels, by page. The fonts, the
-- pages and the renderer are the modules below.
pub mod Pixels
pub mod Fonts
pub mod Line
pub mod Way
pub mod Fits
pub mod Reach
pub mod Draw
pub mod Clock
pub mod Face
pub mod Showoff
pub mod Pages
pub mod Boards
pub mod Render
pub mod Screen
pub mod Kinds
pub mod Kept
pub mod View
pub mod Takeover
pub mod Relayed
mod Examples
use loa.Base.{
  ℕ, zero, suc, ◌+◌, ◌*◌, ◌/◌, ◌%◌, Bool, true, false, ◌&&◌, List, [], ◌∷◌, ltb, length, get_or,
  set, replicate, if◌then◌else◌,
}
use loa.Base.Int.{ℤ, pos, negsuc}
use loa.Base.Bits.{with_bit}

abbrev pub width : ℕ
width = 128

abbrev pub height : ℕ
height = 64

abbrev pub panel_pages : ℕ
panel_pages = 8

abbrev pub Frame : Type 0
Frame = List ℕ

unfoldable pub new : Frame
new = replicate (panel_pages * width) 0

unfoldable pub clear : Frame → Frame
clear [] = []
clear (b ∷ bs) = 0 ∷ clear bs

abbrev pub index : ℕ → ℕ → ℕ
index x y = y / 8 * width + x

-- `buf[i] = v`. Past the end Rust panics: no frame is left then, and nothing drawn later brings one
-- back.
unfoldable pub poke : Frame → ℕ → ℕ → Frame
poke buf i v = if ltb i (length buf) then set buf i v else []

-- A write outside the screen is dropped.
unfoldable pub px : Frame → ℤ → ℤ → Bool → Frame
unfolding with_bit poke
px buf (negsuc x) y on = buf
px buf (pos x) (negsuc y) on = buf
px buf (pos x) (pos y) on =
    if ltb x width && ltb y height
    then poke buf (index x y) (with_bit (get_or buf (index x y) 0) (y % 8) on)
    else buf
