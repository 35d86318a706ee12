-- ===== src/Storage/Version/Order.antt =====
-- The order that the comparison of versions gives, and where it leaves the numbers.
use veridian_wallet.Base.{
  ℕ, ◌+◌, ◌*◌, ◌<◌, ◌≤◌, ◌≡◌, refl, ap, Bool-cases, inl, inr, false, not, List, [], ◌∷◌, Option,
  none, some, arith,
}
use veridian_wallet.Base.Text.{Text, text_eq, split}
use veridian_wallet.Storage.Version.{
  Comparison, later, earlier, same, text_gt, every_valid, compare_parts, version_compare,
}

-- Comparing the other way around.
abbrev pub opposite : Comparison → Comparison
opposite later = earlier
opposite earlier = later
opposite same = same

text_gt-flip : (a b : Text) → text_eq a b ≡ false → text_gt b a ≡ not (text_gt a b)
unfolding text_gt
text_gt-flip [] [] h = cc
text_gt-flip [] (y ∷ b) h = refl
text_gt-flip (x ∷ a) [] h = refl
text_gt-flip (x ∷ a) (y ∷ b) h = ground (arith, text_gt-flip a b)

text_eq-flip : (a b : Text) → text_eq b a ≡ text_eq a b
text_eq-flip [] [] = refl
text_eq-flip [] (y ∷ b) = refl
text_eq-flip (x ∷ a) [] = refl
text_eq-flip (x ∷ a) (y ∷ b) = ground (arith, text_eq-flip a b)

compare_parts-flip : (v w : List Text) → compare_parts w v ≡ opposite (compare_parts v w)
unfolding compare_parts
compare_parts-flip [] [] = refl
compare_parts-flip [] (y ∷ w) = refl
compare_parts-flip (x ∷ v) [] = refl
compare_parts-flip (x ∷ v) (y ∷ w) = elim (Bool-cases (text_eq x y)) [
  | inl e ↦ rw (text_eq-flip x y, e) (compare_parts-flip v w)
  | inr e ↦ elim (Bool-cases (text_gt x y)) [
    | inl g ↦ rw (text_eq-flip x y, e, text_gt-flip x y e, g) refl
    | inr g ↦ rw (text_eq-flip x y, e, text_gt-flip x y e, g) refl
  ]
]

abbrev pub opposite_of : Option Comparison → Option Comparison
opposite_of none = none
opposite_of (some c) = some (opposite c)

-- Comparing two versions the other way around gives the opposite, and throws when comparing them does.
pub version_compare-flip : (v w : Text) → version_compare w v ≡ opposite_of (version_compare v w)
unfolding version_compare
version_compare-flip v w = elim (Bool-cases (every_valid (split 46 v))) [
  | inl e ↦ elim (Bool-cases (every_valid (split 46 w))) [
    | inl f ↦ rw (e, f) (ap some (compare_parts-flip (split 46 v) (split 46 w)))
    | inr f ↦ rw (e, f) refl
  ]
  | inr e ↦ elim (Bool-cases (every_valid (split 46 w))) [
    | inl f ↦ rw (e, f) refl
    | inr f ↦ rw (e, f) refl
  ]
]

-- A component of two digits counts as earlier than a component of one digit that is greater than its
-- first digit, although as a number it is later: the components are compared as text.
pub two_digits_before_one :
    (a b c : ℕ) (v w : List Text)
    → 1 ≤ a
    → a < b
    → b ≤ 9
    → (compare_parts (((48 + a) ∷ (48 + c) ∷ []) ∷ v) (((48 + b) ∷ []) ∷ w) ≡ earlier)
      × (b < 10 * a + c)
unfolding compare_parts text_gt
two_digits_before_one a b c v w one less nine = (ground arith, omega arith)
