-- ===== src/Identifiers/Pages.antt =====
-- The search over the pages of a list of identifiers.
use veridian_wallet.Base.{
  take-drop, drop-drop, length-drop, ℕ, zero, suc, ◌+◌, ◌-◌, ◌*◌, ◌≤◌, ◌<◌, ◌≡◌, refl, sym, ap, ◌∙◌,
  inl, inr, Bool, Bool-cases, Option, none, some, List, [], ◌∷◌, ◌++◌, take, drop, length, find,
  arith,
}
use veridian_wallet.Base.Text.{Text, text_eq}
use veridian_wallet.Identifiers.{Hab, page_at, after_page, search_from, search_by_name}

-- KERIA's answer for the indices from `a` to `b`, both included, of the identifiers that it keeps.
abbrev pub listing : List Hab → ℕ → ℕ → List Hab
listing habs a b = take (b + 1 - a) (drop a habs)

abbrev pub named : Text → Hab → Bool
named name h = text_eq h.name name

abbrev or_later : Option Hab → Option Hab → Option Hab
or_later (some h) o = some h
or_later none o = o

find-append :
    (name : Text) (xs ys : List Hab)
    → find (named name) (xs ++ ys) ≡ or_later (find (named name) xs) (find (named name) ys)
find-append name [] ys = refl
find-append name (x ∷ xs) ys = elim (Bool-cases (text_eq x.name name)) [
  | inl e ↦ rw e refl
  | inr e ↦ rw (e, find-append name xs ys) refl
]

page_at-listing :
    (habs : List Hab) (k : ℕ) → page_at (listing habs) k ≡ take 25 (drop (k * 25) habs)
page_at-listing habs k = let size : 24 + k * 25 + 1 - k * 25 ≡ 25 = omega arith in rw size refl

abbrev later : Text → List Hab → Option Hab
later name l = find (named name) (drop 25 l)

module _ (list : ℕ → ℕ → List Hab) (name : Text) (rest : Option (Option Hab)) where
  after_found :
      (o found : Option Hab) (n : ℕ)
      → rest ≡ some o
      → after_page list found (suc n) rest ≡ some (or_later found o)
  after_found o none n h = h
  after_found o (some y) n h = refl

  after_page_lem :
      (l : List Hab)
      → (0 < length l → rest ≡ some (later name l))
      → after_page list (find (named name) (take 25 l)) (length (take 25 l)) rest
        ≡ some (find (named name) l)
  after_page_lem [] h = refl
  after_page_lem (x ∷ l) h =
      after_found (later name (x ∷ l)) (find (named name) (take 25 (x ∷ l))) (length (take 24 l))
        (h (omega arith))
      ∙ ap some (
          sym (find-append name (take 25 (x ∷ l)) (drop 25 (x ∷ l)))
          ∙ ap (find (named name)) (sym (take-drop 25 (x ∷ l))))

search_from_lem :
    (habs : List Hab) (name : Text) (fuel k : ℕ)
    → length (drop (k * 25) habs) + 25 ≤ fuel * 25
    → search_from (listing habs) fuel k name ≡ some (find (named name) (drop (k * 25) habs))
unfolding search_from
search_from_lem habs name zero k enough = absurd (omega arith)
search_from_lem habs name (suc fuel) k enough =
    let l = drop (k * 25) habs in
    let next : drop ((k + 1) * 25) habs ≡ drop 25 l =
      (let e : (k + 1) * 25 ≡ k * 25 + 25 = omega arith in rw e (drop-drop (k * 25) 25 habs)) in
    rw (page_at-listing habs k) (
      after_page_lem (listing habs) name (search_from (listing habs) fuel (k + 1) name) l
        (λ some_left.
          search_from_lem habs name fuel (k + 1)
            (rw next (omega (arith, length-drop 25 l, enough, some_left)))
          ∙ ap (λ m. some (find (named name) m)) next))

-- On a list of identifiers that stays the same, the search ends, after one round more than the list
-- has pages, and finds the first identifier of that name, or none where there is none.
pub search_by_name_lem :
    (habs : List Hab) (name : Text) (fuel : ℕ)
    → length habs + 25 ≤ fuel * 25
    → search_by_name (listing habs) fuel name ≡ some (find (named name) habs)
search_by_name_lem habs name fuel enough = search_from_lem habs name fuel 0 enough
