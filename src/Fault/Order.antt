-- ===== src/Fault/Order.antt =====
-- The order of a sweep's rows (crates/loa-fault/src/lib.rs).
use loa.Base.{
  ◌≡◌, refl, ap, ◌∙◌, Bool, true, false, not, inl, inr, List, [], ◌∷◌, ◌++◌, if◌then◌else◌, arith,
  Bool-cases,
}
use loa.Base.Floats.{Floats}
use loa.Fault.{Row, is_fault, insert, sort_by_level}
use loa.Fault.Probes.{Formats, Inputs}
use loa.Fault.Checks.{probed, evaluate}

unfoldable pub filter : (Row → Bool) → List Row → List Row
filter p [] = []
filter p (r ∷ rs) = let rest = filter p rs in if p r then r ∷ rest else rest

abbrev pub is_other : Row → Bool
is_other r = not (is_fault r)

insert_fault : (r : Row) (rs : List Row) → is_fault r ≡ true → insert r rs ≡ r ∷ rs
unfolding insert
insert_fault r [] e = refl
insert_fault r (s ∷ ss) e = ground (arith, e)

insert_past :
    (r s : Row) (ss : List Row)
    → is_fault r ≡ false
    → is_fault s ≡ true
    → insert r (s ∷ ss) ≡ s ∷ insert r ss
unfolding insert
insert_past r s ss e h = ground (arith, e, h)

insert_stop :
    (r s : Row) (ss : List Row)
    → is_fault r ≡ false
    → is_fault s ≡ false
    → insert r (s ∷ ss) ≡ r ∷ s ∷ ss
unfolding insert
insert_stop r s ss e h = ground (arith, e, h)

insert_nil : (r : Row) → insert r [] ≡ r ∷ []
unfolding insert
insert_nil r = refl

insert_other-others :
    (r : Row) (rs : List Row)
    → is_fault r ≡ false
    → insert r (filter is_other rs) ≡ r ∷ filter is_other rs
unfolding filter
insert_other-others r [] e = insert_nil r
insert_other-others r (s ∷ ss) e = elim (Bool-cases (is_fault s)) [
  | inl h ↦ rw h (insert_other-others r ss e)
  | inr h ↦ rw h (insert_stop r s (filter is_other ss) e h)
]

insert_other-faults :
    (r : Row) (rs ws : List Row)
    → is_fault r ≡ false
    → insert r (filter is_fault rs ++ ws) ≡ filter is_fault rs ++ insert r ws
unfolding filter
insert_other-faults r [] ws e = refl
insert_other-faults r (s ∷ ss) ws e = elim (Bool-cases (is_fault s)) [
  | inl h ↦ rw h (
      insert_past r s (filter is_fault ss ++ ws) e h
      ∙ ap (λ l. s ∷ l) (insert_other-faults r ss ws e))
  | inr h ↦ rw h (insert_other-faults r ss ws e)
]

sort-partition : (rs : List Row) → sort_by_level rs ≡ filter is_fault rs ++ filter is_other rs
unfolding sort_by_level filter
sort-partition [] = refl
sort-partition (r ∷ rs) = elim (Bool-cases (is_fault r)) [
  | inl h ↦ rw (h, sort-partition rs) (insert_fault r _ h)
  | inr h ↦
      rw (h, sort-partition rs)
        (insert_other-faults r rs (filter is_other rs) h
          ∙ ap (λ l. filter is_fault rs ++ l) (insert_other-others r rs h))
]

-- A sweep's rows are what the checks found, each row once: first the faults in the order in which
-- they were found, then the others in theirs.
pub evaluate-partition :
    {F : Type 0} ⦃f : Floats F⦄ (s : Formats F) (i : Inputs F)
    → (evaluate s i).0 ≡ filter is_fault (probed s i) ++ filter is_other (probed s i)
unfolding evaluate
evaluate-partition s i = sort-partition (probed s i)
