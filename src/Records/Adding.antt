-- ===== src/Records/Adding.antt =====
-- Records that are made of the entries of a list, and added one after the other.
use veridian_wallet.Base.{
  ◌≡◌, refl, ap, ◌∙◌, inl, inr, Bool, Bool-cases, false, List, [], ◌∷◌, ◌++◌, String, All, keep,
  any, arith, ◌===◌,
}
use veridian_wallet.Records.{Class, has}
use veridian_wallet.Records.Laws.{has-put}

module _ {A : Type 0} (key : A → String) where
  -- An entry under the same key stands in the list.
  abbrev pub is_listed : List A → A → Bool
  is_listed xs x = any (λ y. key x === key y) xs

  -- No key stands twice.
  abbrev pub HaveDistinct : List A → Type 0
  HaveDistinct [] = Unit
  HaveDistinct (x ∷ xs) = (is_listed xs x ≡ false) × HaveDistinct xs

  is_listed-keep :
      (test : A → Bool) (x : A) (xs : List A)
      → is_listed xs x ≡ false
      → is_listed (keep test xs) x ≡ false
  is_listed-keep test x [] h = refl
  is_listed-keep test x (y ∷ xs) h =
      let apart : (key x === key y) ≡ false = ground arith in
      let rest = is_listed-keep test x xs (ground arith) in
      elim (Bool-cases (test y)) [ inl e ↦ rw (e, apart) rest | inr e ↦ rw e rest ]

  pub HaveDistinct-keep :
      (test : A → Bool) (xs : List A) → HaveDistinct xs → HaveDistinct (keep test xs)
  HaveDistinct-keep test [] h = tt
  HaveDistinct-keep test (x ∷ xs) (new, h) =
      let rest = HaveDistinct-keep test xs h in
      elim (Bool-cases (test x)) [
        | inl e ↦ rw e (is_listed-keep test x xs new, rest)
        | inr e ↦ rw e rest
      ]

  module _ {R : Type 0} (class : Class R) where
    open class use {id_of}

    abbrev pub IsAbsent : List R → A → Type 0
    IsAbsent rs x = has class (key x) rs ≡ false

    -- What had no record has none after that of another entry was put.
    pub still-IsAbsent :
        (r : R) (x : A) (rs : List R) (xs : List A)
        → id_of r ≡ key x
        → is_listed xs x ≡ false
        → All (IsAbsent rs) xs
        → All (IsAbsent (rs ++ (r ∷ []))) xs
    still-IsAbsent r x rs [] same h k = tt
    still-IsAbsent r x rs (y ∷ xs) same h (absent, k) =
        let apart : (id_of r === key y) ≡ false = ap (λ i. i === key y) same ∙ ground arith in
        (
          has-put class (key y) rs r ∙ rw (absent, apart) refl,
          still-IsAbsent r x rs xs same (ground arith) k,
        )
