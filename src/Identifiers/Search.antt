-- ===== src/Identifiers/Search.antt =====
-- `searchByName`. The list of identifiers at KERIA is a parameter; `fuel` bounds the rounds of the
-- `while` loop.
use veridian_wallet.Base.{ℕ, zero, suc, ◌+◌, ◌*◌, Option, none, some, List, length, find}
use veridian_wallet.Base.Text.{Text, text_eq}

pub record Hab : Type 0 where
  pub name : Text
  pub prefix : Text

module _ (list : ℕ → ℕ → List Hab) where
  abbrev pub page_at : ℕ → List Hab
  page_at iteration = list (iteration * (24 + 1)) (24 + iteration * (24 + 1))

  -- The end of a round: what it found, how many it saw, and the rest of the loop.
  abbrev pub after_page : Option Hab → ℕ → Option (Option Hab) → Option (Option Hab)
  after_page (some h) returned rest = some (some h)
  after_page none zero rest = some none
  after_page none (suc n) rest = rest

  -- `none` when the fuel is used up, `some none` for `undefined`.
  unfoldable pub search_from : ℕ → ℕ → Text → Option (Option Hab)
  search_from zero iteration name = none
  search_from (suc fuel) iteration name =
      after_page (find (λ h. text_eq h.name name) (page_at iteration)) (length (page_at iteration))
        (search_from fuel (iteration + 1) name)

  abbrev pub search_by_name : ℕ → Text → Option (Option Hab)
  search_by_name fuel name = search_from fuel 0 name
