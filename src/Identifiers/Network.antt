-- ===== src/Identifiers/Network.antt =====
-- `isNetworkError` of src/core/agent/services/utils.ts, by the text of the error.
use veridian_wallet.Base.{
  ℕ, ◌+◌, Bool, true, false, not, ◌&&◌, ◌||◌, Option, none, some, [], ◌∷◌, String, drop, leb, ◌==◌,
  if◌then◌else◌,
}
use veridian_wallet.Base.Text.{Text, codes, starts_with}

-- The case of ASCII letters is ignored, as under the flag `i`.
abbrev pub lower_case : ℕ → ℕ
lower_case c = if leb 65 c && leb c 90 then c + 32 else c

abbrev pub ends_line : ℕ → Bool
ends_line c = c == 10 || c == 13 || c == 8232 || c == 8233

-- A dot of the pattern stands for any code unit that does not end a line.
abbrev pub unit_matches : ℕ → ℕ → Bool
unit_matches c d = if c == b'.' then not (ends_line d) else lower_case c == lower_case d

abbrev pub matches_at : Text → Text → Bool
matches_at [] s = true
matches_at (c ∷ p) [] = false
matches_at (c ∷ p) (d ∷ s) = unit_matches c d && matches_at p s

-- `/p/i.test(s)`.
abbrev pub matches : Text → Text → Bool
matches p [] = matches_at p []
matches p (c ∷ s) = matches_at p (c ∷ s) || matches p s

abbrev pub dash : Text
dash = codes " - "

abbrev pub before_dash : Text → Text
before_dash [] = []
before_dash (c ∷ s) = let rest = before_dash s in if starts_with dash (c ∷ s) then [] else c ∷ rest

-- `s.split(" - ")[1]`.
abbrev pub after_dash : Text → Option Text
after_dash [] = none
after_dash (c ∷ s) =
    let rest = after_dash s in
    if starts_with dash (c ∷ s) then some (before_dash (drop 3 (c ∷ s))) else rest

abbrev pub has_timeout : Option Text → Bool
has_timeout none = false
has_timeout (some s) = matches (codes "504") s

unfoldable pub is_network_error : String → Bool
is_network_error message =
    let s = codes message in
    matches (codes "Failed to fetch") s
    || matches (codes "network error") s
    || matches (codes "Load failed") s
    || matches (codes "NetworkError when attempting to fetch resource.") s
    || matches (codes "The Internet connection appears to be offline.") s
    || has_timeout (after_dash s)
