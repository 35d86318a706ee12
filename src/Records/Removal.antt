-- ===== src/Records/Removal.antt =====
-- Removing the records that pass a test, one after the other.
use veridian_wallet.Base.{
  ◌≡◌, refl, sym, ap, ◌∙◌, inl, inr, Bool, Bool-cases, true, false, not, ◌&&◌, List, [], ◌∷◌,
  String, All, All-keep, keep, arith, eq_refl, ◌===◌, if◌then◌else◌,
}
use mathlib.Core.Path.{subst}
use veridian_wallet.Records.{Class, has, remove, is_under}
use veridian_wallet.Records.Laws.{AreDistinct, remove_absent, Other, All-Other}

module _ {R : Type 0} (class : Class R) where
  open class use {id_of}

  -- What is left when the records of a list are removed one after the other.
  abbrev pub without : List R → List R → List R
  without [] rs = rs
  without (p ∷ ps) rs = without ps (remove class (id_of p) rs)

  -- Each is on record when it is its turn.
  abbrev pub ArePresent : List R → List R → Type 0
  ArePresent [] rs = Unit
  ArePresent (p ∷ ps) rs =
      (has class (id_of p) rs ≡ true) × ArePresent ps (remove class (id_of p) rs)

  cons-without :
      (r : R) (ps rs : List R) → All (Other class r) ps → without ps (r ∷ rs) ≡ r ∷ without ps rs
  cons-without r [] rs h = refl
  cons-without r (p ∷ ps) rs (apart, h) = rw apart (cons-without r ps (remove class (id_of p) rs) h)

  cons-ArePresent :
      (r : R) (ps rs : List R) → All (Other class r) ps → ArePresent ps rs → ArePresent ps (r ∷ rs)
  cons-ArePresent r [] rs h k = tt
  cons-ArePresent r (p ∷ ps) rs (apart, h) (here, k) =
      rw apart (here, cons-ArePresent r ps (remove class (id_of p) rs) h k)

  module _ (test : R → Bool) where
    abbrev pub fails : R → Bool
    fails r = not (test r)

    pub without-keep :
        (rs : List R)
        → AreDistinct class rs
        → (without (keep test rs) rs ≡ keep fails rs) × ArePresent (keep test rs) rs
    without-keep [] d = (refl, tt)
    without-keep (r ∷ rs) (new, d) =
        let (left, present) = without-keep rs d in
        let others = All-Other class r test rs new in
        let here : has class (id_of r) (r ∷ rs) ≡ true = rw (eq_refl (id_of r)) refl in
        let gone : remove class (id_of r) (r ∷ rs) ≡ rs =
          rw (eq_refl (id_of r)) (remove_absent class (id_of r) rs new) in
        elim (Bool-cases (test r)) [
          | inl e ↦
              let rest : without (keep test rs) (remove class (id_of r) (r ∷ rs)) ≡ keep fails rs =
                ap (without (keep test rs)) gone ∙ left in
              rw e (rest, (here, subst (ArePresent (keep test rs)) (sym gone) present))
          | inr e ↦
              rw (e, cons-without r (keep test rs) rs others)
                (ap (λ l. r ∷ l) left, cons-ArePresent r (keep test rs) rs others present)
        ]

    -- Under the identifier of `p` are only records that pass the test.
    abbrev pub Harmless : R → R → Type 0
    Harmless p r = (id_of r === id_of p && fails r) ≡ false

    abbrev pub AreHarmless : List R → List R → Type 0
    AreHarmless rs ps = All (λ p. All (Harmless p) rs) ps

    pub keep-remove :
        (p : R) (rs : List R)
        → All (Harmless p) rs
        → keep fails (remove class (id_of p) rs) ≡ keep fails rs
    keep-remove p [] h = refl
    keep-remove p (r ∷ rs) (here, h) = elim (Bool-cases (id_of r === id_of p)) [
      | inl e ↦ let passes : fails r ≡ false = ground arith in rw (e, passes) (keep-remove p rs h)
      | inr e ↦ elim (Bool-cases (fails r)) [
        | inl f ↦ rw (e, f) (ap (λ l. r ∷ l) (keep-remove p rs h))
        | inr f ↦ rw (e, f) (keep-remove p rs h)
      ]
    ]

    pub AreHarmless-remove :
        (k : String) (rs ps : List R) → AreHarmless rs ps → AreHarmless (remove class k rs) ps
    AreHarmless-remove k rs [] h = tt
    AreHarmless-remove k rs (p ∷ ps) (here, h) = (
      All-keep (Harmless p) (λ r. not (is_under class k r)) rs here,
      AreHarmless-remove k rs ps h,
    )

    Harmless-absent : (p : R) (rs : List R) → has class (id_of p) rs ≡ false → All (Harmless p) rs
    Harmless-absent p [] h = tt
    Harmless-absent p (r ∷ rs) h = (ground arith, Harmless-absent p rs (ground arith))

    cons-AreHarmless :
        (r : R) (rs ps : List R)
        → All (Other class r) ps
        → AreHarmless rs ps
        → AreHarmless (r ∷ rs) ps
    cons-AreHarmless r rs [] h k = tt
    cons-AreHarmless r rs (p ∷ ps) (apart, h) (here, k) =
        ((rw apart refl, here), cons-AreHarmless r rs ps h k)

    pub keep-AreHarmless : (rs : List R) → AreDistinct class rs → AreHarmless rs (keep test rs)
    keep-AreHarmless [] d = tt
    keep-AreHarmless (r ∷ rs) (new, d) =
        here
          (cons-AreHarmless r rs (keep test rs) (All-Other class r test rs new)
            (keep-AreHarmless rs d))
          (test r) refl
      where
        here :
            AreHarmless (r ∷ rs) (keep test rs)
            → (b : Bool) → b ≡ test r
            → AreHarmless (r ∷ rs) (if b then r ∷ keep test rs else keep test rs)
        here rest true e =
            let passes : Harmless r r = rw (eq_refl (id_of r)) (ap not (sym e)) in
            ((passes, Harmless-absent r rs new), rest)
        here rest false e = rest
