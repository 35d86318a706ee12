-- ===== src/Records/Laws.antt =====
-- What is found after a record was put, replaced or removed.
use veridian_wallet.Base.{
  ◌≡◌, refl, sym, ◌∙◌, inl, inr, Bool, Bool-cases, true, false, ◌||◌, Option, none, some, All, List,
  [], ◌∷◌, ◌++◌, String, keep, ok, err, arith, eq_iff, ◌===◌, if◌then◌else◌,
}
use mathlib.Core.Path.{subst}
use veridian_wallet.Records.{Class, has, find_by_id, replace, remove, save, update}
use veridian_wallet.Storage.{already_exists}

pub same_string : (i j : String) → (i === j) ≡ true → i ≡ j
same_string i j h = ground (arith, eq_iff i j)

module _ {R : Type 0} (class : Class R) where
  open class use {id_of}

  abbrev pub when_absent : Option R → Option R → Option R
  when_absent (some r) o = some r
  when_absent none o = o

  pub save-ok :
      (r : R) (rs : List R)
      → has class (id_of r) rs ≡ false
      → save class r rs ≡ (ok tt, rs ++ (r ∷ []))
  unfolding save
  save-ok r rs h = rw h refl

  pub save-err :
      (r : R) (rs : List R)
      → has class (id_of r) rs ≡ true
      → save class r rs ≡ (err (already_exists (id_of r)), rs)
  unfolding save
  save-err r rs h = rw h refl

  pub update-ok :
      (r : R) (rs : List R)
      → has class (id_of r) rs ≡ true
      → update class r rs ≡ (ok tt, replace class r rs)
  unfolding update
  update-ok r rs h = rw h refl

  pub find-put :
      (k : String) (rs : List R) (r : R)
      → find_by_id class k (rs ++ (r ∷ []))
        ≡ when_absent (find_by_id class k rs) (if id_of r === k then some r else none)
  find-put k [] r = refl
  find-put k (s ∷ rs) r = elim (Bool-cases (id_of s === k)) [
    | inl e ↦ rw e refl
    | inr e ↦ rw (e, find-put k rs r) refl
  ]

  pub has-put :
      (k : String) (rs : List R) (r : R)
      → has class k (rs ++ (r ∷ [])) ≡ (has class k rs || id_of r === k)
  has-put k [] r = ground arith
  has-put k (s ∷ rs) r = ground (arith, has-put k rs r)

  pub find-has :
      (k : String) (rs : List R) (r : R)
      → find_by_id class k rs ≡ some r
      → (has class k rs ≡ true) × (id_of r ≡ k)
  find-has k [] r h = absurd (cc)
  find-has k (s ∷ rs) r h = elim (Bool-cases (id_of s === k)) [
    | inl e ↦
        let found : some s ≡ some r =
          subst (λ b. (if b then some s else find_by_id class k rs) ≡ some r) e h in
        let here : s ≡ r = some_same found in
        (rw e refl, subst (λ t. id_of t ≡ k) here (same_string (id_of s) k e))
    | inr e ↦
        let (there, same) =
          find-has k rs r
            (subst (λ b. (if b then some s else find_by_id class k rs) ≡ some r) e h) in
        (rw (e, there) refl, same)
  ]
    where
      some_same : {a b : R} → ◌≡◌ {A = Option R} (some a) (some b) → a ≡ b
      some_same e = cc

  pub has-find :
      (k : String) (rs : List R)
      → has class k rs ≡ true
      → (r : R) × (find_by_id class k rs ≡ some r)
  has-find k [] h = absurd (ground arith)
  has-find k (s ∷ rs) h = elim (Bool-cases (id_of s === k)) [
    | inl e ↦ (s, rw e refl)
    | inr e ↦ let (r, found) = has-find k rs (ground arith) in (r, rw e found)
  ]

  pub has-absent :
      (k : String) (rs : List R) → find_by_id class k rs ≡ none → has class k rs ≡ false
  has-absent k rs h = elim (Bool-cases (has class k rs)) [
    | inl e ↦
        let (r, found) = has-find k rs e in
        let nothing : ◌≡◌ {A = Option R} none (some r) = sym h ∙ found in absurd (cc)
    | inr e ↦ e
  ]

  pub has-replace :
      (k : String) (rs : List R) (r : R) → has class k (replace class r rs) ≡ has class k rs
  has-replace k [] r = refl
  has-replace k (s ∷ rs) r = elim (Bool-cases (id_of s === id_of r)) [
    | inl e ↦ rw (e, has-replace k rs r, same_string (id_of s) (id_of r) e) refl
    | inr e ↦ rw (e, has-replace k rs r) refl
  ]

  pub find-replace :
      (k : String) (rs : List R) (r : R)
      → has class (id_of r) rs ≡ true
      → find_by_id class k (replace class r rs)
        ≡ (if id_of r === k then some r else find_by_id class k rs)
  find-replace k [] r h = absurd (ground arith)
  find-replace k (s ∷ rs) r h = elim (Bool-cases (id_of s === id_of r)) [
    | inl e ↦ elim (Bool-cases (id_of r === k)) [
      | inl f ↦ rw (e, f) refl
      | inr f ↦
          let g : (id_of s === k) ≡ false = rw (same_string (id_of s) (id_of r) e) f in
          rw (e, f, g) (find-replace_other rs f)
    ]
    | inr e ↦
        let there : has class (id_of r) rs ≡ true = ground arith in
        elim (Bool-cases (id_of s === k)) [
          | inl g ↦
              let f : (id_of r === k) ≡ false =
                ground
                  (arith, eq_iff (id_of r) k, eq_iff (id_of s) k, eq_iff (id_of s) (id_of r)) in
              rw (e, g, f) refl
          | inr g ↦ rw (e, g) (find-replace k rs r there)
        ]
  ]
    where
      find-replace_other :
          (rs : List R)
          → (id_of r === k) ≡ false
          → find_by_id class k (replace class r rs) ≡ find_by_id class k rs
      find-replace_other [] f = refl
      find-replace_other (s ∷ rs) f = elim (Bool-cases (id_of s === id_of r)) [
        | inl e ↦
            let g : (id_of s === k) ≡ false = rw (same_string (id_of s) (id_of r) e) f in
            rw (e, f, g) (find-replace_other rs f)
        | inr e ↦ elim (Bool-cases (id_of s === k)) [
          | inl g ↦ rw (e, g) refl
          | inr g ↦ rw (e, g) (find-replace_other rs f)
        ]
      ]

  pub find-remove :
      (k j : String) (rs : List R)
      → find_by_id class j (remove class k rs) ≡ (if k === j then none else find_by_id class j rs)
  find-remove k j [] = ground arith
  find-remove k j (s ∷ rs) =
      ground (arith, eq_iff k j, eq_iff (id_of s) k, eq_iff (id_of s) j, find-remove k j rs)

  -- No identifier stands twice.
  abbrev pub AreDistinct : List R → Type 0
  AreDistinct [] = Unit
  AreDistinct (r ∷ rs) = (has class (id_of r) rs ≡ false) × AreDistinct rs

  pub remove_absent : (k : String) (rs : List R) → has class k rs ≡ false → remove class k rs ≡ rs
  remove_absent k [] h = refl
  remove_absent k (r ∷ rs) h =
      let apart : (id_of r === k) ≡ false = ground arith in
      let absent : has class k rs ≡ false = ground arith in
      rw (apart, remove_absent k rs absent) refl

  abbrev pub Other : R → R → Type 0
  Other r p = (id_of r === id_of p) ≡ false

  -- The records that pass a test have other identifiers than one that is not in the list.
  pub All-Other :
      (r : R) (test : R → Bool) (rs : List R)
      → has class (id_of r) rs ≡ false
      → All (Other r) (keep test rs)
  All-Other r test [] h = tt
  All-Other r test (p ∷ rs) h =
      let apart : (id_of r === id_of p) ≡ false =
        ground (arith, eq_iff (id_of r) (id_of p), eq_iff (id_of p) (id_of r)) in
      let rest = All-Other r test rs (ground arith) in
      elim (Bool-cases (test p)) [ inl e ↦ rw e (apart, rest) | inr e ↦ rw e rest ]
