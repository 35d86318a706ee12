-- ===== src/Store/ProfilesCache/Notifications.antt =====
-- The deletion of a notification: how many of that identifier are left.
use veridian_wallet.Base.{
  ℕ, ◌+◌, ◌≡◌, refl, sym, ap, Bool-cases, inl, inr, ◌⊎◌, true, false, none, some, List, [], ◌∷◌,
  String, ◌===◌, if◌then◌else◌, arith, eq_iff,
}
use veridian_wallet.Base.Dict.{Dict, lookup, modify}
use mathlib.Core.Path.{subst}
use veridian_wallet.Store.Types.{KeriaNotification, Profile}
use veridian_wallet.Store.ProfilesCache.{
  ProfileCache, has_notification, remove_first, without_notification, delete_elsewhere, has_it,
  delete_for, delete_notification_by_id,
}

-- How many notifications have an identifier.
abbrev pub count : String → List KeriaNotification → ℕ
count id [] = 0
count id (n ∷ ns) = if n.id === id then 1 + count id ns else count id ns

abbrev pub total : String → Dict Profile → ℕ
total id [] = 0
total id ((k, p) ∷ d) = count id p.notifications + total id d

-- No two profiles stand under one key.
abbrev pub IsFunctional : Dict Profile → Type 0
IsFunctional [] = Unit
IsFunctional ((k, p) ∷ d) = (lookup k d ≡ none) × IsFunctional d

count-remove_first :
    (id : String) (ns : List KeriaNotification)
    → has_notification id ns ≡ true
    → count id ns ≡ 1 + count id (remove_first id ns)
count-remove_first id [] h = cc
count-remove_first id (n ∷ ns) h = elim (Bool-cases (n.id === id)) [
  | inl e ↦ rw e refl
  | inr e ↦ rw (e, e) (count-remove_first id ns (ground arith))
]

count_none :
    (id : String) (ns : List KeriaNotification) → has_notification id ns ≡ false → count id ns ≡ 0
count_none id [] h = refl
count_none id (n ∷ ns) h =
    let e : (n.id === id) ≡ false = ground arith in rw e (count_none id ns (ground arith))

modify-total :
    (k id : String) (d : Dict Profile)
    → has_it id (lookup k d) ≡ true
    → total id d ≡ 1 + total id (modify k (without_notification id) d)
modify-total k id [] h = cc
modify-total k id ((j, p) ∷ d) h = elim (Bool-cases (j === k)) [
  | inl e ↦
      let has : has_notification id p.notifications ≡ true =
        subst (λ b. has_it id (if b then some p else lookup k d) ≡ true) e h in
      rw e (omega (arith, count-remove_first id p.notifications has))
  | inr e ↦
      let has : has_it id (lookup k d) ≡ true =
        subst (λ b. has_it id (if b then some p else lookup k d) ≡ true) e h in
      rw e (omega (arith, modify-total k id d has))
]

-- One less, unless there is none.
pub LessOne : ℕ → ℕ → Type 0
LessOne m n = ((m ≡ 0) × (n ≡ 0)) ⊎ (m ≡ 1 + n)

LessOne-zero : (c m n : ℕ) → c ≡ 0 → LessOne m n → LessOne (c + m) (c + n)
unfolding LessOne
LessOne-zero c m n h (inl k) = inl (omega (arith, k.0), omega (arith, k.1))
LessOne-zero c m n h (inr k) = inr (omega arith)

elsewhere_step :
    (chosen id k : String) (p : Profile) (d : Dict Profile)
    → (k === chosen) ≡ false
    → LessOne (total id d) (total id (delete_elsewhere chosen id d))
    → LessOne (total id ((k, p) ∷ d)) (total id (delete_elsewhere chosen id ((k, p) ∷ d)))
unfolding LessOne
elsewhere_step chosen id k p d e rest = elim (Bool-cases (has_notification id p.notifications)) [
  | inl f ↦ rw (e, f) (inr (omega (arith, count-remove_first id p.notifications f)))
  | inr f ↦
      rw (e, f)
        (LessOne-zero (count id p.notifications) (total id d)
          (total id (delete_elsewhere chosen id d)) (count_none id p.notifications f) rest)
]

delete_elsewhere-total :
    (chosen id : String) (d : Dict Profile)
    → IsFunctional d
    → has_it id (lookup chosen d) ≡ false
    → LessOne (total id d) (total id (delete_elsewhere chosen id d))
unfolding LessOne
delete_elsewhere-total chosen id [] u h = inl (refl, refl)
delete_elsewhere-total chosen id ((k, p) ∷ d) u h = elim (Bool-cases (k === chosen)) [
  | inl e ↦
      let same : k ≡ chosen = ground (arith, eq_iff k chosen) in
      let gone : lookup chosen d ≡ none = subst (λ x. lookup x d ≡ none) same u.0 in
      let has : has_notification id p.notifications ≡ false =
        subst (λ b. has_it id (if b then some p else lookup chosen d) ≡ false) e h in
      rw e (
        LessOne-zero (count id p.notifications) (total id d)
          (total id (delete_elsewhere chosen id d)) (count_none id p.notifications has)
          (delete_elsewhere-total chosen id d u.1 (ap (has_it id) gone)))
  | inr e ↦
      let has : has_it id (lookup chosen d) ≡ false =
        subst (λ b. has_it id (if b then some p else lookup chosen d) ≡ false) e h in
      elsewhere_step chosen id k p d e (delete_elsewhere-total chosen id d u.1 has)
]

delete_for-total :
    (chosen id : String) (s : ProfileCache)
    → (chosen === "") ≡ false
    → IsFunctional s.profiles
    → LessOne (total id s.profiles) (total id (delete_for (some chosen) id s).profiles)
unfolding LessOne
delete_for-total chosen id s h u = elim (Bool-cases (has_it id (lookup chosen s.profiles))) [
  | inl e ↦ rw (h, e) (inr (modify-total chosen id s.profiles e))
  | inr e ↦ rw (h, e) (delete_elsewhere-total chosen id s.profiles u e)
]

-- When a profile is chosen and no key stands twice, deleting a notification removes exactly one of that
-- identifier over all profiles, if there is any, and otherwise there is none after it either.
pub delete_notification_by_id-total :
    (chosen id : String) (s : ProfileCache)
    → s.default_profile ≡ some chosen
    → (chosen === "") ≡ false
    → IsFunctional s.profiles
    → LessOne (total id s.profiles) (total id (delete_notification_by_id id s).profiles)
unfolding delete_notification_by_id
delete_notification_by_id-total chosen id s c h u =
    subst (λ o. LessOne (total id s.profiles) (total id (delete_for o id s).profiles)) (sym c)
      (delete_for-total chosen id s h u)
