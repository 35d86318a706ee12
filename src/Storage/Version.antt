-- ===== src/Storage/Version.antt =====
-- `versionCompare` of src/core/storage/sqliteStorage/utils.ts.
pub mod Order
use veridian_wallet.Base.{
  ℕ, ◌≡◌, refl, sym, ap, ◌∙◌, Bool, true, false, not, ◌&&◌, ◌||◌, List, [], ◌∷◌, map, ltb, leb,
  ◌==◌, if◌then◌else◌,
}
use veridian_wallet.Base.{Option, none, some}
use veridian_wallet.Base.Text.{Text, text_eq, split}

-- What is returned: `1`, `-1` and `0`.
pub data Comparison : Type 0 where
  later earlier same : Comparison

-- The code units of `0` and `9`.
abbrev is_digit : ℕ → Bool
is_digit c = leb 48 c && leb c 57

abbrev are_digits : Text → Bool
are_digits [] = true
are_digits (c ∷ t) = is_digit c && are_digits t

-- `/^\d+$/.test(x)`.
unfoldable pub is_valid_part : Text → Bool
is_valid_part [] = false
is_valid_part (c ∷ t) = is_digit c && are_digits t

abbrev pub every_valid : List Text → Bool
every_valid [] = true
every_valid (x ∷ xs) = is_valid_part x && every_valid xs

-- JavaScript's `a > b` of two strings: by code units.
unfoldable pub text_gt : Text → Text → Bool
text_gt [] b = false
text_gt (x ∷ a) [] = true
text_gt (x ∷ a) (y ∷ b) = let rest = text_gt a b in if x == y then rest else ltb y x

unfoldable pub compare_parts : List Text → List Text → Comparison
compare_parts [] [] = same
compare_parts [] (y ∷ ys) = earlier
compare_parts (x ∷ xs) [] = later
compare_parts (x ∷ xs) (y ∷ ys) =
    let rest = compare_parts xs ys in
    if text_eq x y then rest else if text_gt x y then later else earlier

-- `none` where the source throws.
unfoldable pub version_compare : Text → Text → Option Comparison
unfolding compare_parts
version_compare v w =
    let vs = split 46 v in
    let ws = split 46 w in
    if every_valid vs && every_valid ws then some (compare_parts vs ws) else none
