-- ===== src/Connections/Links.antt =====
-- That the contact of each connection pair is on record.
use veridian_wallet.Base.{
  ◌≡◌, refl, sym, ap, ◌∙◌, inl, inr, Bool, Bool-cases, true, false, not, ◌&&◌, Option, some, List,
  [], ◌∷◌, ◌++◌, String, All, All-keep, keep, keep-ext, arith, eq_iff, ◌===◌, if◌then◌else◌,
}
use mathlib.Core.Path.{subst}
use veridian_wallet.Storage.Query.{check_query}
use veridian_wallet.Records.{has, find_by_id, remove, is_under}
use veridian_wallet.Records.Laws.{has-put}
use veridian_wallet.Connections.{
  ContactRecord, ConnectionPairRecord, contact_class, pair_class, find_by_contact_id, is_single,
}

-- The pair's contact is on record.
abbrev pub IsLinkedTo : List ContactRecord → ConnectionPairRecord → Type 0
IsLinkedTo cs p = has contact_class p.contact_id cs ≡ true

abbrev pub AreLinked : List ContactRecord → List ConnectionPairRecord → Type 0
AreLinked cs ps = All (IsLinkedTo cs) ps

abbrev pub is_of_contact : String → ConnectionPairRecord → Bool
is_of_contact c p = p.contact_id === c

abbrev pub IsOfOther : String → ConnectionPairRecord → Type 0
IsOfOther c p = is_of_contact c p ≡ false

and_true : (b : Bool) → (b && true) ≡ b
and_true true = refl
and_true false = refl

pub find_by_contact_id_lem :
    (c : String) (ps : List ConnectionPairRecord)
    → find_by_contact_id c ps ≡ keep (is_of_contact c) ps
unfolding find_by_contact_id check_query
find_by_contact_id_lem c ps = keep-ext _ (is_of_contact c) ps (λ p. and_true (p.contact_id === c))

pub keep-empty :
    (c : String) (ps : List ConnectionPairRecord)
    → keep (is_of_contact c) ps ≡ []
    → All (IsOfOther c) ps
keep-empty c [] h = tt
keep-empty c (p ∷ ps) h = elim (Bool-cases (is_of_contact c p)) [
  | inl e ↦
      let k : p ∷ keep (is_of_contact c) ps ≡ [] =
        subst (λ b. (if b then p ∷ keep (is_of_contact c) ps else keep (is_of_contact c) ps) ≡ []) e
          h in
      absurd (cc)
  | inr e ↦ (
    e,
    keep-empty c ps (
        subst (λ b. (if b then p ∷ keep (is_of_contact c) ps else keep (is_of_contact c) ps) ≡ []) e
          h),
  )
]

single-rest :
    (p : ConnectionPairRecord) (ps : List ConnectionPairRecord)
    → is_single (p ∷ ps) ≡ true
    → ps ≡ []
single-rest p [] h = refl
single-rest p (q ∷ ps) h = absurd (cc)

same_some :
    {a b : ConnectionPairRecord} → ◌≡◌ {A = Option ConnectionPairRecord} (some a) (some b) → a ≡ b
same_some e = cc

-- What is found satisfies what all satisfy.
pub found-All :
    (P : ConnectionPairRecord → Type 0) (k : String) (p : ConnectionPairRecord)
    (ps : List ConnectionPairRecord)
    → All P ps
    → find_by_id pair_class k ps ≡ some p
    → P p
found-All P k p [] h found = absurd (cc)
found-All P k p (q ∷ ps) (here, h) found = elim (Bool-cases (q.id === k)) [
  | inl e ↦
      subst P
        (same_some
          (subst (λ b. (if b then some q else find_by_id pair_class k ps) ≡ some p) e found))
        here
  | inr e ↦
      found-All P k p ps h
        (subst (λ b. (if b then some q else find_by_id pair_class k ps) ≡ some p) e found)
]

-- When the pair under `k` is the only one of its contact, the others are of other contacts.
pub single-others :
    (k c : String) (p : ConnectionPairRecord) (ps : List ConnectionPairRecord)
    → find_by_id pair_class k ps ≡ some p
    → is_of_contact c p ≡ true
    → is_single (keep (is_of_contact c) ps) ≡ true
    → All (IsOfOther c) (remove pair_class k ps)
single-others k c p [] h e single = absurd (cc)
single-others k c p (q ∷ ps) h e single =
    cases (q.id === k) (is_of_contact c q) refl refl h single
      (λ h single. single-others k c p ps h e single)
  where
    bool : false ≡ true → ⊥
    bool h = cc

    cases :
        (b d : Bool)
        → (q.id === k) ≡ b
        → is_of_contact c q ≡ d
        → (if b then some q else find_by_id pair_class k ps) ≡ some p
        → is_single (if d then q ∷ keep (is_of_contact c) ps else keep (is_of_contact c) ps) ≡ true
        → (find_by_id pair_class k ps ≡ some p
            → is_single (keep (is_of_contact c) ps) ≡ true
            → All (IsOfOther c) (remove pair_class k ps))
        → All (IsOfOther c) (if not b then q ∷ remove pair_class k ps else remove pair_class k ps)
    cases true true f g h single again =
        All-keep (IsOfOther c) (λ r. not (is_under pair_class k r)) ps
          (keep-empty c ps (single-rest q (keep (is_of_contact c) ps) single))
    cases true false f g h single again =
        absurd (bool (sym g ∙ (ap (is_of_contact c) (same_some h) ∙ e)))
    cases false true f g h single again = absurd (
        bool (
          sym (
            found-All (IsOfOther c) k p ps
              (keep-empty c ps (single-rest q (keep (is_of_contact c) ps) single)) h)
          ∙ e))
    cases false false f g h single again = (g, again h single)

-- Removing a contact keeps the links of the pairs of other contacts.
pub AreLinked-remove :
    (c : String) (cs : List ContactRecord) (ps : List ConnectionPairRecord)
    → AreLinked cs ps
    → All (IsOfOther c) ps
    → AreLinked (remove contact_class c cs) ps
AreLinked-remove c cs [] h k = tt
AreLinked-remove c cs (p ∷ ps) (here, h) (other, k) =
    (has-remove_other p.contact_id cs other here, AreLinked-remove c cs ps h k)
  where
    has-remove_other :
        (d : String) (cs : List ContactRecord)
        → (d === c) ≡ false
        → has contact_class d cs ≡ true
        → has contact_class d (remove contact_class c cs) ≡ true
    has-remove_other d [] f h = h
    has-remove_other d (x ∷ cs) f h =
        ground (arith, eq_iff d c, eq_iff x.id c, eq_iff x.id d, has-remove_other d cs f)

-- A further contact keeps the links.
pub AreLinked-put :
    (c : ContactRecord) (cs : List ContactRecord) (ps : List ConnectionPairRecord)
    → AreLinked cs ps
    → AreLinked (cs ++ (c ∷ [])) ps
AreLinked-put c cs [] h = tt
AreLinked-put c cs (p ∷ ps) (here, h) =
    (has-put contact_class p.contact_id cs c ∙ rw here refl, AreLinked-put c cs ps h)
