-- ===== src/Oled/Pixels.antt =====
-- The pixels that the frame buffer of crates/loa-oled/src/frame.rs lights, and a write of one.
use loa.Base.{
  ℕ, ◌%◌, ◌<◌, ◌≡◌, ◌≢◌, refl, inl, inr, Bool, true, false, ◌&&◌, ◌==◌, ltb, length, get_or, set,
  if◌then◌else◌, arith, Bool-cases, ==_iff, get_or-set_self, get_or-set_ne, length-set, ◌∙◌,
}
use loa.Base.Int.{ℤ, pos, negsuc}
use loa.Base.Bits.{with_bit, bit, bit-with_bit_self, bit-with_bit_ne}
use loa.Oled.{Frame, width, height, index, px, poke}

-- The pixel that the panel lights.
unfoldable pub lit : Frame → ℕ → ℕ → Bool
unfolding bit
lit buf x y = bit (get_or buf (index x y) 0) (y % 8) == 1

-- A write inside the buffer.
pub poke-eq-set :
    (buf : Frame) (i v : ℕ) → length buf ≡ 1024 → i < 1024 → poke buf i v ≡ set buf i v
unfolding poke
poke-eq-set buf i v n h =
    let inside : ltb i (length buf) ≡ true = ground (arith, n, h) in rw inside refl

-- A write keeps the buffer's length.
pub length-px :
    (buf : Frame) (x y : ℤ) (on : Bool) → length buf ≡ 1024 → length (px buf x y on) ≡ 1024
unfolding px
length-px buf (negsuc x) y on n = n
length-px buf (pos x) (negsuc y) on n = n
length-px buf (pos x) (pos y) on n = elim (Bool-cases (ltb x width && ltb y height)) [
  | inl e ↦
      rw (e, poke-eq-set buf (index x y) _ n (ground (arith, e))) (length-set buf (index x y) _ ∙ n)
  | inr e ↦ rw e n
]

-- Is (x, y) the pixel (a, b)?
abbrev pub is_at : ℤ → ℤ → ℕ → ℕ → Bool
is_at (negsuc x) y a b = false
is_at (pos x) (negsuc y) a b = false
is_at (pos x) (pos y) a b = (x == a) && (y == b)

lit-set_self :
    (buf : Frame) (x y : ℕ) (on : Bool)
    → index x y < length buf
    → lit (set buf (index x y) (with_bit (get_or buf (index x y) 0) (y % 8) on)) x y ≡ on
unfolding lit
lit-set_self buf x y true h =
    rw
      (
        get_or-set_self buf (index x y) (with_bit (get_or buf (index x y) 0) (y % 8) true) 0 h,
        bit-with_bit_self (get_or buf (index x y) 0) (y % 8) true,
      )
      refl
lit-set_self buf x y false h =
    rw
      (
        get_or-set_self buf (index x y) (with_bit (get_or buf (index x y) 0) (y % 8) false) 0 h,
        bit-with_bit_self (get_or buf (index x y) 0) (y % 8) false,
      )
      refl

lit-set_other :
    (buf : Frame) (x y a b v : ℕ)
    → index x y ≢ index a b
    → lit (set buf (index x y) v) a b ≡ lit buf a b
unfolding lit
lit-set_other buf x y a b v h = rw (get_or-set_ne buf (index x y) (index a b) v 0 h) refl

lit-set_neighbour :
    (buf : Frame) (x y a b : ℕ) (on : Bool)
    → index x y ≡ index a b
    → index a b < length buf
    → y % 8 ≢ b % 8
    → lit (set buf (index x y) (with_bit (get_or buf (index x y) 0) (y % 8) on)) a b ≡ lit buf a b
unfolding lit
lit-set_neighbour buf x y a b on same h ne =
    rw
      (
        same,
        get_or-set_self buf (index a b) (with_bit (get_or buf (index a b) 0) (y % 8) on) 0 h,
        bit-with_bit_ne (get_or buf (index a b) 0) (y % 8) (b % 8) on ne,
      )
      refl

lit-set :
    (buf : Frame) (x y a b : ℕ) (on : Bool)
    → length buf ≡ 1024
    → x < width
    → a < width
    → b < height
    → lit (set buf (index x y) (with_bit (get_or buf (index x y) 0) (y % 8) on)) a b
      ≡ (if (x == a) && (y == b) then on else lit buf a b)
lit-set buf x y a b on n hx ha hb = elim (Bool-cases ((x == a) && (y == b))) [
  | inl e ↦
      let ex : x ≡ a = ground (arith, e) in
      let ey : y ≡ b = ground (arith, e) in rw (e, ex, ey) (lit-set_self buf a b on (omega arith))
  | inr e ↦ elim (Bool-cases (index x y == index a b)) [
    | inl i ↦
        let same : index x y ≡ index a b = (==_iff (index x y) (index a b)).0 i in
        rw e (lit-set_neighbour buf x y a b on same (omega arith) (λ m. ground (arith, e, same, m)))
    | inr i ↦ rw e (lit-set_other buf x y a b _ (λ same. ground (arith, i, same)))
  ]
]

-- On a buffer of 1024 bytes, a write of a pixel lights or darkens that pixel and no other; one
-- outside the screen changes none.
pub lit-px :
    (buf : Frame) (x y : ℤ) (on : Bool) (a b : ℕ)
    → length buf ≡ 1024
    → a < width
    → b < height
    → lit (px buf x y on) a b ≡ (if is_at x y a b then on else lit buf a b)
unfolding px
lit-px buf (negsuc x) y on a b n ha hb = refl
lit-px buf (pos x) (negsuc y) on a b n ha hb = refl
lit-px buf (pos x) (pos y) on a b n ha hb = elim (Bool-cases (ltb x width && ltb y height)) [
  | inl e ↦
      rw (e, poke-eq-set buf (index x y) _ n (ground (arith, e)))
        (lit-set buf x y a b on n (ground (arith, e)) ha hb)
  | inr e ↦ let off : ((x == a) && (y == b)) ≡ false = ground (arith, e, ha, hb) in rw (e, off) refl
]
