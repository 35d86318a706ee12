-- ===== src/Records/Paging.antt =====
-- The loops `while (returned !== 0)` that read the lists of KERIA page by page.
use veridian_wallet.Base.{
  ℕ, zero, suc, ◌+◌, ◌*◌, ◌<◌, ◌≡◌, refl, sym, ap, ◌∙◌, Option, none, some, List, [], ◌∷◌, ◌++◌,
  Result, ok, err, take, drop, take-drop, drop-drop, length-drop, length, arith,
}

module _ {E A : Type 0} (page : ℕ → Result E (List A)) where
  abbrev pub push_page : List A → Option (Result E (List A)) → Option (Result E (List A))
  push_page xs none = none
  push_page xs (some (err e)) = some (err e)
  push_page xs (some (ok ys)) = some (ok (xs ++ ys))

  -- The end of a round, with what the rest of the loop gives.
  abbrev pub after_round :
      Result E (List A) → Option (Result E (List A)) → Option (Result E (List A))
  after_round (err e) rest = some (err e)
  after_round (ok []) rest = some (ok [])
  after_round (ok (x ∷ xs)) rest = push_page (x ∷ xs) rest

  -- `none` when the fuel is used up.
  unfoldable pub fetch_from : ℕ → ℕ → Option (Result E (List A))
  fetch_from zero iteration = none
  fetch_from (suc fuel) iteration = after_round (page iteration) (fetch_from fuel (iteration + 1))

module _ {E A : Type 0} (page : ℕ → Result E (List A)) (rest : Option (Result E (List A))) where
  after_round_lem :
      (n : ℕ) (l : List A)
      → (0 < length l → rest ≡ some (ok (drop (suc n) l)))
      → after_round page (ok (take (suc n) l)) rest ≡ some (ok l)
  after_round_lem n [] h = refl
  after_round_lem n (x ∷ l) h =
      rw (h (omega arith)) (ap (λ m. some (ok (x ∷ m))) (sym (take-drop n l)))

-- On a list that stays the same, read in pages of `n`, the loop ends, after at most one round more
-- than the list is long, and gives the list.
fetch_from-drop :
    {E A : Type 0} (page : ℕ → Result E (List A)) (xs : List A) (n : ℕ)
    → ((k : ℕ) → page k ≡ ok (take (suc n) (drop (k * suc n) xs)))
    → (fuel k : ℕ) → length (drop (k * suc n) xs) < fuel
    → fetch_from page fuel k ≡ some (ok (drop (k * suc n) xs))
unfolding fetch_from
fetch_from-drop page xs n h zero k enough = absurd (omega arith)
fetch_from-drop {A} page xs n h (suc fuel) k enough =
    let l = drop (k * suc n) xs in
    let e : (k + 1) * suc n ≡ k * suc n + suc n = omega arith in
    let next : drop ((k + 1) * suc n) xs ≡ drop (suc n) l =
      rw e (drop-drop (k * suc n) (suc n) xs) in
    rw (h k) (
      after_round_lem page (fetch_from page fuel (k + 1)) n l (λ some_left.
        fetch_from-drop page xs n h fuel (k + 1)
          (rw next (omega (arith, length-drop (suc n) l, enough, some_left)))
        ∙ ap (λ m. some (ok m)) next))

pub fetch_from_lem :
    {E A : Type 0} (page : ℕ → Result E (List A)) (xs : List A) (n fuel : ℕ)
    → ((k : ℕ) → page k ≡ ok (take (suc n) (drop (k * suc n) xs)))
    → length xs < fuel
    → fetch_from page fuel 0 ≡ some (ok xs)
fetch_from_lem page xs n fuel h enough =
    let e : 0 * suc n ≡ 0 = omega arith in
    let all : drop (0 * suc n) xs ≡ xs = rw e refl in
    fetch_from-drop page xs n h fuel 0 (rw all enough) ∙ ap (λ m. some (ok m)) all
