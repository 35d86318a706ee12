-- ===== src/Notifications/Slices.antt =====
-- The marker against the list of all notifications: what a fetch of a slice makes of it.
use veridian_wallet.Base.{
  drop-append, ℕ, ◌+◌, ◌-◌, ◌≡◌, refl, ap, ◌∙◌, ◌⊎◌, inl, inr, true, some, List, [], ◌∷◌, ◌++◌,
  length, take, drop, arith, ltb, eq_refl,
}
use mathlib.Core.List.{append_assoc}
use veridian_wallet.Store.Types.{Notification}
use veridian_wallet.Notifications.{Marker, initial_marker, advance, new_notes}

-- The marker when one has gone on over some notifications.
abbrev pub marker_after : Marker → List Notification → Marker
marker_after m [] = m
marker_after m (n ∷ ns) = marker_after (advance m n) ns

-- The answer of KERIA for the indices from `a` to `b`, both included.
abbrev pub slice : List Notification → ℕ → ℕ → List Notification
slice ns a b = take (b + 1 - a) (drop a ns)

-- How many new notifications a round fetches: the first of 25 is the last one seen, if any was.
abbrev pub batch_size : List Notification → ℕ
batch_size [] = 25
batch_size (n ∷ ns) = 24

pub marker_after-append :
    (m : Marker) (xs ys : List Notification)
    → marker_after m (xs ++ ys) ≡ marker_after (marker_after m xs) ys
marker_after-append m [] ys = refl
marker_after-append m (x ∷ xs) ys = marker_after-append (advance m x) xs ys

next_index-marker_after :
    (m : Marker) (xs : List Notification)
    → (marker_after m xs).next_index ≡ m.next_index + length xs
next_index-marker_after m [] = omega arith
next_index-marker_after m (x ∷ xs) = omega (arith, next_index-marker_after (advance m x) xs)

snoc_cases :
    (xs : List Notification)
    → (xs ≡ [])
      ⊎ ((ys : List Notification) × (y : Notification) × (xs ≡ ys ++ (y ∷ []))
          × (batch_size xs ≡ 24))
snoc_cases [] = inl refl
snoc_cases (x ∷ xs) = elim (snoc_cases xs) [
  | inl e ↦ inr ([], x, ap (λ l. x ∷ l) e, refl)
  | inr (ys, y, e, b) ↦ inr (x ∷ ys, y, ap (λ l. x ∷ l) e, refl)
]

slice-last :
    (ys rest : List Notification) (y : Notification)
    → slice ((ys ++ (y ∷ [])) ++ rest) (length ys) (length ys + 24) ≡ y ∷ take 24 rest
slice-last ys rest y =
    let count : length ys + 24 + 1 - length ys ≡ 25 = omega arith in
    rw (count, append_assoc ys (y ∷ []) rest, drop-append ys (y ∷ rest)) refl

new_notes-first :
    (rest : List Notification) → new_notes initial_marker (take 25 rest) ≡ some (take 25 rest)
unfolding new_notes
new_notes-first [] = refl
new_notes-first (x ∷ rest) = refl

new_notes-seen :
    (m : Marker) (y : Notification) (l : List Notification)
    → new_notes (advance m y) (y ∷ l) ≡ some l
unfolding new_notes
new_notes-seen m y l =
    let positive : ltb 0 (m.next_index + 1) ≡ true = ground arith in rw (positive, eq_refl y.i) refl

new_notes-last :
    (ys rest : List Notification) (y : Notification)
    → let m = marker_after initial_marker (ys ++ (y ∷ [])) in
      let start = m.next_index - 1 in
      new_notes m (slice ((ys ++ (y ∷ [])) ++ rest) start (start + 24)) ≡ some (take 24 rest)
new_notes-last ys rest y =
    let m = marker_after initial_marker ys in
    let start : m.next_index + 1 - 1 ≡ length ys =
      omega (arith, next_index-marker_after initial_marker ys) in
    rw (marker_after-append initial_marker ys (y ∷ []), start)
      (ap (new_notes (advance m y)) (slice-last ys rest y) ∙ new_notes-seen m y (take 24 rest))

-- Of the slice that is fetched, exactly the next notifications are taken for new.
pub new_notes-slice :
    (seen rest : List Notification)
    → let m = marker_after initial_marker seen in
      let start = m.next_index - 1 in
      new_notes m (slice (seen ++ rest) start (start + 24)) ≡ some (take (batch_size seen) rest)
new_notes-slice seen rest = elim (snoc_cases seen) [
  | inl e ↦ rw e (new_notes-first rest)
  | inr (ys, y, e, b) ↦ rw b (rw e (new_notes-last ys rest y))
]
