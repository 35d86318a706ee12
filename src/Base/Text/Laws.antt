-- ===== src/Base/Text/Laws.antt =====
-- Comparing, trimming and searching texts.
use mathlib.Core.List.{reverse, reverse-cons, reverse-reverse}
use veridian_wallet.Base.Tests.{Bool-cases}
use veridian_wallet.Base.Lists.{All, All-append, length, take, drop}
use Prim.Native.Nat.{ℕ, suc, ◌+◌}
use mathlib.Core.Path.{◌≡◌, refl, sym, ap, ◌∙◌, subst}
use mathlib.Core.Logic.{◌≢◌, ◌↔◌, inl, inr}
use mathlib.Core.Bool.{true, false}
use mathlib.Core.Option.{some}
use mathlib.Core.List.{List, [], ◌∷◌, ◌++◌}
use native.Mathlib.Omega.{arith}
use veridian_wallet.Base.Text.{
  Text, text_eq, starts_with, is_empty, index_of, is_space, trim_start, trim,
}

pub text_eq_iff : (s t : Text) → (text_eq s t ≡ true) ↔ (s ≡ t)
text_eq_iff [] [] = (λ _. refl, λ _. refl)
text_eq_iff [] (d ∷ t) = (λ h. cc, λ h. cc)
text_eq_iff (c ∷ s) [] = (λ h. cc, λ h. cc)
text_eq_iff (c ∷ s) (d ∷ t) =
    (λ h. ground (arith, text_eq_iff s t), λ h. ground (arith, text_eq_iff s t))

pub starts_with-append : (p s : Text) → starts_with p s ≡ true → s ≡ p ++ drop (length p) s
starts_with-append [] s h = refl
starts_with-append (c ∷ p) [] h = cc
starts_with-append (c ∷ p) (d ∷ s) h = ground (arith, starts_with-append p s)

-- Every code unit is white space.
abbrev pub IsBlank : Text → Type 0
IsBlank s = All (λ c. is_space c ≡ true) s

IsBlank-reverse : (s : Text) → IsBlank s → IsBlank (reverse s)
IsBlank-reverse [] h = tt
IsBlank-reverse (c ∷ s) h =
    rw reverse-cons
      (All-append (λ d. is_space d ≡ true) (reverse s) (c ∷ []) (IsBlank-reverse s h.1) (h.0, tt))

trim_start-IsBlank : (s : Text) → IsBlank s → trim_start s ≡ []
unfolding trim_start
trim_start-IsBlank [] h = refl
trim_start-IsBlank (c ∷ s) h = rw h.0 (trim_start-IsBlank s h.1)

IsBlank-of_trim_start : (s : Text) → trim_start s ≡ [] → IsBlank s
unfolding trim_start
IsBlank-of_trim_start [] h = tt
IsBlank-of_trim_start (c ∷ s) h = ground (arith, IsBlank-of_trim_start s)

-- What is left after trimming the start is not blank, unless it is empty.
trim_start_left : (s : Text) → IsBlank (trim_start s) → trim_start s ≡ []
unfolding trim_start
trim_start_left [] h = refl
trim_start_left (c ∷ s) h = elim (Bool-cases (is_space c)) [
  | inl e ↦ rw e (trim_start_left s (rw e at h))
  | inr e ↦ absurd (ground arith)
]

-- `s.trim() === ""` exactly when `s` is white space throughout.
pub trim-eq-nil_iff : (s : Text) → (trim s ≡ []) ↔ IsBlank s
unfolding trim
trim-eq-nil_iff s = (
  λ h.
      let end = reverse (trim_start s) in
      let empty : trim_start end ≡ [] = sym (reverse-reverse (trim_start end)) ∙ ap reverse h in
      let back = IsBlank-reverse end (IsBlank-of_trim_start end empty) in
      let whole : IsBlank (trim_start s) = rw reverse-reverse at back in
      IsBlank-of_trim_start s (trim_start_left s whole),
  λ h. rw (trim_start-IsBlank s h) refl,
)

pub is_empty_iff : (s : Text) → (is_empty s ≡ true) ↔ (s ≡ [])
is_empty_iff [] = (λ _. refl, λ _. refl)
is_empty_iff (c ∷ s) = (λ h. cc, λ h. cc)

-- The first place of a code unit is behind the text that lacks it.
pub index_of-append :
    (c : ℕ) (s t : Text) → All (λ d. d ≢ c) s → index_of c (s ++ (c ∷ t)) ≡ some (length s)
unfolding index_of
index_of-append c [] t h = ground arith
index_of-append c (d ∷ s) t h = ground (arith, index_of-append c s t h.1)

module _ {ℓ} {A : Type ℓ} where
  pub take-append : (xs ys : List A) → take (length xs) (xs ++ ys) ≡ xs
  take-append [] ys = refl
  take-append (x ∷ xs) ys = ap (λ t. x ∷ t) (take-append xs ys)

  pub drop-append : (xs : List A) (y : A) (ys : List A) → drop (length xs + 1) (xs ++ (y ∷ ys)) ≡ ys
  drop-append [] y ys = refl
  drop-append (x ∷ xs) y ys =
      let e : length (x ∷ xs) + 1 ≡ suc (length xs + 1) = omega arith in rw e (drop-append xs y ys)

  pub take-append_of : (n : ℕ) (xs ys : List A) → length xs ≡ n → take n (xs ++ ys) ≡ xs
  take-append_of n xs ys h = subst (λ m. take m (xs ++ ys) ≡ xs) h (take-append xs ys)

  drop-length-append : (xs ys : List A) → drop (length xs) (xs ++ ys) ≡ ys
  drop-length-append [] ys = refl
  drop-length-append (x ∷ xs) ys = drop-length-append xs ys

  pub drop-append_of : (n : ℕ) (xs ys : List A) → length xs ≡ n → drop n (xs ++ ys) ≡ ys
  drop-append_of n xs ys h = subst (λ m. drop m (xs ++ ys) ≡ ys) h (drop-length-append xs ys)

pub is_empty-append : (n : ℕ) (s t : Text) → length s ≡ suc n → is_empty (s ++ t) ≡ false
is_empty-append n [] t h = absurd (omega arith)
is_empty-append n (c ∷ s) t h = refl
