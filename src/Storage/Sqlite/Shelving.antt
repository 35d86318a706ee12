-- ===== src/Storage/Sqlite/Shelving.antt =====
-- What the changes of the list do to its items, its identifiers and its rows.
use veridian_wallet.Base.{
  ◌≡◌, refl, sym, ap, ◌∙◌, inl, inr, Bool-cases, true, false, none, some, not, ◌&&◌, ◌||◌, [], ◌∷◌,
  ◌++◌, map, String, any, keep, arith, eq_iff, eq_refl, ◌===◌, if◌then◌else◌,
}
use mathlib.Core.List.{append-nil}
use veridian_wallet.Storage.Sqlite.{Item, get_tags_insert_sql}
use veridian_wallet.Storage.Sqlite.Tables.{Written, item_of, only_one, set_where}
use veridian_wallet.Storage.Sqlite.Shelf.{
  Shelf, is_on, items_on, rows_on, IsDistinct, put_on, replace_on, take_off,
}

keep-off :
    (id : String) (s : Shelf) → is_on id s ≡ false → keep (λ i. i.id === id) (items_on s) ≡ []
keep-off id [] h = refl
keep-off id ((i, t) ∷ s) h = ground (arith, keep-off id s)

pub same_id : (i j : String) → (i === j) ≡ true → i ≡ j
same_id i j h = ground (arith, eq_iff i j)

pub only_one-off :
    (id : String) (s : Shelf)
    → is_on id s ≡ false
    → only_one (keep (λ i. i.id === id) (items_on s)) ≡ none
only_one-off id s h = rw (keep-off id s h) refl

pub only_one-on :
    (id : String) (s : Shelf)
    → IsDistinct s
    → is_on id s ≡ true
    → (i : Item) × (only_one (keep (λ i. i.id === id) (items_on s)) ≡ some i) × (i.id ≡ id)
only_one-on id [] d h = absurd (ground arith)
only_one-on id ((i, t) ∷ s) (new, d) h = elim (Bool-cases (i.id === id)) [
  | inl e ↦
      let off : is_on id s ≡ false = rw (sym (same_id i.id id e)) new in
      (i, rw (e, keep-off id s off) refl, same_id i.id id e)
  | inr e ↦ let on : is_on id s ≡ true = ground arith in rw e (only_one-on id s d on)
]

pub any-items_on : (id : String) (s : Shelf) → any (λ j. j.id === id) (items_on s) ≡ is_on id s
any-items_on id [] = refl
any-items_on id ((i, t) ∷ s) = ap (λ b. i.id === id || b) (any-items_on id s)

pub items_on-put :
    (id : String) (w : Written) (s : Shelf)
    → items_on (put_on id w s) ≡ items_on s ++ (item_of id w ∷ [])
items_on-put id w [] = refl
items_on-put id w ((i, t) ∷ s) = ap (λ l. i ∷ l) (items_on-put id w s)

pub items_on-replace :
    (id : String) (w : Written) (s : Shelf)
    → items_on (replace_on id w s) ≡ map (set_where id (item_of id w)) (items_on s)
items_on-replace id w [] = refl
items_on-replace id w ((i, t) ∷ s) = elim (Bool-cases (i.id === id)) [
  | inl e ↦ rw (e, items_on-replace id w s) refl
  | inr e ↦ rw (e, items_on-replace id w s) refl
]

pub items_on-take_off :
    (id : String) (s : Shelf)
    → items_on (take_off id s) ≡ keep (λ i. not (i.id === id)) (items_on s)
items_on-take_off id [] = refl
items_on-take_off id ((i, t) ∷ s) = elim (Bool-cases (i.id === id)) [
  | inl e ↦ rw (e, items_on-take_off id s) refl
  | inr e ↦ rw (e, items_on-take_off id s) refl
]

is_on-put :
    (j id : String) (w : Written) (s : Shelf) → is_on j (put_on id w s) ≡ (is_on j s || (id === j))
is_on-put j id w [] = ground arith
is_on-put j id w ((i, t) ∷ s) = ground (arith, is_on-put j id w s)

is_on-replace : (j id : String) (w : Written) (s : Shelf) → is_on j (replace_on id w s) ≡ is_on j s
is_on-replace j id w [] = refl
is_on-replace j id w ((i, t) ∷ s) = elim (Bool-cases (i.id === id)) [
  | inl e ↦ rw (e, is_on-replace j id w s, sym (same_id i.id id e)) refl
  | inr e ↦ rw (e, is_on-replace j id w s) refl
]

is_on-take_off :
    (j id : String) (s : Shelf) → is_on j (take_off id s) ≡ (not (id === j) && is_on j s)
is_on-take_off j id [] = ground arith
is_on-take_off j id ((i, t) ∷ s) =
    ground (arith, eq_iff i.id id, eq_iff id j, eq_iff i.id j, is_on-take_off j id s)

pub IsDistinct-put :
    (id : String) (w : Written) (s : Shelf)
    → is_on id s ≡ false
    → IsDistinct s
    → IsDistinct (put_on id w s)
IsDistinct-put id w [] h d = (refl, tt)
IsDistinct-put id w ((i, t) ∷ s) h (new, d) = (
  ground (arith, is_on-put i.id id w s, eq_iff i.id id, eq_iff id i.id),
  IsDistinct-put id w s (ground arith) d,
)

pub IsDistinct-replace :
    (id : String) (w : Written) (s : Shelf) → IsDistinct s → IsDistinct (replace_on id w s)
IsDistinct-replace id w [] d = tt
IsDistinct-replace id w ((i, t) ∷ s) (new, d) = elim (Bool-cases (i.id === id)) [
  | inl e ↦
      rw e (is_on-replace id id w s ∙ rw (sym (same_id i.id id e)) new, IsDistinct-replace id w s d)
  | inr e ↦ rw e (is_on-replace i.id id w s ∙ new, IsDistinct-replace id w s d)
]

pub IsDistinct-take_off : (id : String) (s : Shelf) → IsDistinct s → IsDistinct (take_off id s)
IsDistinct-take_off id [] d = tt
IsDistinct-take_off id ((i, t) ∷ s) (new, d) = elim (Bool-cases (i.id === id)) [
  | inl e ↦ rw e (IsDistinct-take_off id s d)
  | inr e ↦ rw e (ground (arith, is_on-take_off i.id id s), IsDistinct-take_off id s d)
]

rows_on-off : (j : String) (s : Shelf) → is_on j s ≡ false → rows_on j s ≡ []
rows_on-off j [] h = refl
rows_on-off j ((i, t) ∷ s) h = ground (arith, rows_on-off j s)

pub rows_on-put :
    (j id : String) (w : Written) (s : Shelf)
    → is_on id s ≡ false
    → rows_on j (put_on id w s)
      ≡ (rows_on j s ++ (if j === id then get_tags_insert_sql id w.tags else []))
rows_on-put j id w [] h = elim (Bool-cases (j === id)) [
  | inl e ↦ rw (sym (same_id j id e), eq_refl j) refl
  | inr e ↦ let f : (id === j) ≡ false = ground (arith, eq_iff id j, eq_iff j id) in rw (e, f) refl
]
rows_on-put j id w ((i, t) ∷ s) h = elim (Bool-cases (i.id === j)) [
  | inl e ↦
      let f : (j === id) ≡ false = ground (arith, eq_iff i.id j, eq_iff j id, eq_iff i.id id) in
      rw (e, f) (sym (append-nil (get_tags_insert_sql j t)))
  | inr e ↦ rw e (rows_on-put j id w s (ground arith))
]

pub rows_on-replace_other :
    (j id : String) (w : Written) (s : Shelf)
    → (j === id) ≡ false
    → rows_on j (replace_on id w s) ≡ rows_on j s
rows_on-replace_other j id w [] h = refl
rows_on-replace_other j id w ((i, t) ∷ s) h = elim (Bool-cases (i.id === id)) [
  | inl e ↦
      let f : (i.id === j) ≡ false = ground (arith, eq_iff i.id id, eq_iff j id, eq_iff i.id j) in
      let g : (id === j) ≡ false = ground (arith, eq_iff id j, eq_iff j id) in
      rw (e, f, g, rows_on-replace_other j id w s h) refl
  | inr e ↦ rw (e, rows_on-replace_other j id w s h) refl
]

pub rows_on-replace :
    (id : String) (w : Written) (s : Shelf)
    → is_on id s ≡ true
    → rows_on id (replace_on id w s) ≡ get_tags_insert_sql id w.tags
rows_on-replace id w [] h = absurd (ground arith)
rows_on-replace id w ((i, t) ∷ s) h = elim (Bool-cases (i.id === id)) [
  | inl e ↦ rw (e, eq_refl id) refl
  | inr e ↦ rw (e, e) (rows_on-replace id w s (ground arith))
]

pub rows_on-take_off :
    (j id : String) (s : Shelf) → rows_on j (take_off id s) ≡ (if j === id then [] else rows_on j s)
rows_on-take_off j id [] = ground arith
rows_on-take_off j id ((i, t) ∷ s) =
    ground (arith, eq_iff i.id id, eq_iff j id, eq_iff i.id j, rows_on-take_off j id s)
