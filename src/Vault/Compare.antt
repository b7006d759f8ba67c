-- ===== src/Vault/Compare.antt =====
-- constant_time_eq of crates/loa-cortex/src/vault.rs against equality.
use loa.Base.{
  ℕ, ◌≡◌, refl, ap, ap₂, ◌↔◌, inl, inr, true, [], ◌∷◌, ◌==◌, length, bit_or, bit_xor, arith,
  Bool-cases, ==_iff,
}
use loa.Base.Bits.{bit_xor_iff, bit_or_iff}
use loa.Vault.{Bytes, diff_of, constant_time_eq}

diff_of_iff :
    (d : ℕ) (a b : Bytes) → length a ≡ length b → (diff_of d a b ≡ 0) ↔ ((d ≡ 0) × (a ≡ b))
unfolding diff_of
diff_of_iff d [] [] h = (λ e. (e, refl), λ e. e.0)
diff_of_iff d [] (y ∷ ys) h = absurd (omega (arith, h))
diff_of_iff d (x ∷ xs) [] h = absurd (omega (arith, h))
diff_of_iff d (x ∷ xs) (y ∷ ys) h =
    let (to, from) = diff_of_iff (bit_or d (bit_xor x y)) xs ys (omega (arith, h)) in
    let (both, or) = bit_or_iff d (bit_xor x y) in
    let (same, xor) = bit_xor_iff x y in
    (
      λ e.
          let (z, tail) = to e in
          let (d0, x0) = both z in (d0, ap₂ (λ c cs. c ∷ cs) (same x0) tail),
      λ e. from (or (e.0, xor (cc e.1)), cc e.1),
    )

-- The comparison that never stops early says true exactly of two equal strings of bytes.
pub constant_time_eq_lem : (a b : Bytes) → (constant_time_eq a b ≡ true) ↔ (a ≡ b)
unfolding constant_time_eq
constant_time_eq_lem a b = elim (Bool-cases (length a == length b)) [
  | inl e ↦
      let (to, from) = diff_of_iff 0 a b ((==_iff (length a) (length b)).0 e) in
      rw e (
        λ h. (to ((==_iff (diff_of 0 a b) 0).0 h)).1,
        λ h. (==_iff (diff_of 0 a b) 0).1 (from (refl, h)),
      )
  | inr e ↦ rw e (λ h. cc, λ h. ground (arith, e, ap (λ l. length l) h))
]
