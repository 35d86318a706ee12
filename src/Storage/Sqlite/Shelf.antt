-- ===== src/Storage/Sqlite/Shelf.antt =====
-- The tables as one list of records with their tags, which each operation changes as its name says.
use veridian_wallet.Base.{
  ◌≡◌, refl, ◌∙◌, inl, inr, Bool, Bool-cases, false, ◌||◌, List, [], ◌∷◌, ◌++◌, String, keep,
  Result, ok, err, arith, eq_iff, ◌===◌, if◌then◌else◌,
}
use veridian_wallet.Base.States.{Action, throw}
use veridian_wallet.Storage.Types.{
  already_exists, does_not_exist, TagValue, text, flag, texts, undefined, Tags,
}
use veridian_wallet.Storage.Sqlite.{
  TagRow, Item, rows_of, array_rows, get_tags_insert_sql, DbTags, ResolveError,
}
use veridian_wallet.Storage.Sqlite.Tables.{
  Db, Written, item_of, only_one, get_item, insert_or_ignore, set_where, delete_tags, create_item,
  update_item, delete_item, SqliteError, refused, unresolved, Method,
}
use veridian_wallet.Storage.Sqlite.Tables
use veridian_wallet.Storage.Sqlite.Resolved.{read_tags}

abbrev pub Shelf : Type 0
Shelf = List (Item × Tags)

abbrev pub is_on : String → Shelf → Bool
is_on id [] = false
is_on id ((i, t) ∷ s) = i.id === id || is_on id s

abbrev pub items_on : Shelf → List Item
items_on [] = []
items_on ((i, t) ∷ s) = i ∷ items_on s

abbrev pub rows_on : String → Shelf → List TagRow
rows_on id [] = []
rows_on id ((i, t) ∷ s) = if i.id === id then get_tags_insert_sql id t else rows_on id s

-- The tags of the record at an identifier, as they are read.
abbrev pub tags_on : String → Shelf → Result ResolveError DbTags
tags_on id [] = ok []
tags_on id ((i, t) ∷ s) = if i.id === id then read_tags id t else tags_on id s

-- No identifier stands twice.
abbrev pub IsDistinct : Shelf → Type 0
IsDistinct [] = Unit
IsDistinct ((i, t) ∷ s) = (is_on i.id s ≡ false) × IsDistinct s

-- The tables hold the records of the list, and the rows of their tags.
pub record Holds (db : Db) (s : Shelf) : Type 0 where
  pub distinct : IsDistinct s
  pub items : db.items ≡ items_on s
  pub rows : (id : String) → keep (λ t. id === t.item_id) db.rows ≡ rows_on id s

abbrev pub put_on : String → Written → Shelf → Shelf
put_on id w s = s ++ ((item_of id w, w.tags) ∷ [])

abbrev pub replace_on : String → Written → Shelf → Shelf
replace_on id w [] = []
replace_on id w ((i, t) ∷ s) =
    let rest = replace_on id w s in
    if i.id === id then (item_of id w, w.tags) ∷ rest else (i, t) ∷ rest

abbrev pub take_off : String → Shelf → Shelf
take_off id [] = []
take_off id ((i, t) ∷ s) = let rest = take_off id s in if i.id === id then rest else (i, t) ∷ rest

-- The operations on the list.
pub data Operation : Type 0 where
  save update : Written → Operation
  delete_by_id : String → Operation

-- What follows when the rows of a record are read, which its tags may not allow.
abbrev pub after_read :
    {A : Type 0}
    → Result ResolveError A
    → Action Shelf SqliteError (Unit {0})
    → Action Shelf SqliteError (Unit {0})
after_read (ok tags) found s = found s
after_read (err e) found s = (err (unresolved e), s)

abbrev pub on_shelf : Operation → Action Shelf SqliteError (Unit {0})
on_shelf (save w) s =
    if is_on w.name s
    then after_read (tags_on w.name s) (throw (refused (already_exists w.name))) s
    else (ok tt, put_on w.name w s)
on_shelf (update w) s =
    if is_on w.name s
    then after_read (tags_on w.name s) (λ t. (ok tt, replace_on w.name w t)) s
    else (err (refused (does_not_exist w.name)), s)
on_shelf (delete_by_id id) s =
    if is_on id s
    then after_read (tags_on id s) (λ t. (ok tt, take_off id t)) s
    else (err (refused (does_not_exist id)), s)

abbrev pub on_tables : Operation → Method
on_tables (save w) = Tables.save w
on_tables (update w) = Tables.update w
on_tables (delete_by_id id) = Tables.delete_by_id id

pub keep-append :
    {A : Type 0} → (p : A → Bool) (xs ys : List A) → keep p (xs ++ ys) ≡ keep p xs ++ keep p ys
keep-append p [] ys = refl
keep-append p (x ∷ xs) ys = elim (Bool-cases (p x)) [
  | inl e ↦ rw (e, keep-append p xs ys) refl
  | inr e ↦ rw (e, keep-append p xs ys) refl
]

keep-array_rows :
    (j id k : String) (vs : List String)
    → keep (λ t. j === t.item_id) (array_rows id k vs)
      ≡ (if j === id then array_rows id k vs else [])
keep-array_rows j id k [] = ground arith
keep-array_rows j id k (v ∷ vs) = elim (Bool-cases (j === id)) [
  | inl e ↦ rw (e, keep-array_rows j id k vs, e) refl
  | inr e ↦ rw (e, keep-array_rows j id k vs, e) refl
]

keep-rows_of :
    (j id k : String) (v : TagValue)
    → keep (λ t. j === t.item_id) (rows_of id k v) ≡ (if j === id then rows_of id k v else [])
unfolding rows_of
keep-rows_of j id k (text s) = refl
keep-rows_of j id k (flag b) = refl
keep-rows_of j id k (texts vs) = keep-array_rows j id k vs
keep-rows_of j id k undefined = ground arith

pub keep-get_tags_insert_sql :
    (j id : String) (tags : Tags)
    → keep (λ t. j === t.item_id) (get_tags_insert_sql id tags)
      ≡ (if j === id then get_tags_insert_sql id tags else [])
unfolding get_tags_insert_sql
keep-get_tags_insert_sql j id [] = ground arith
keep-get_tags_insert_sql j id ((k, v) ∷ tags) =
    keep-append (λ t. j === t.item_id) (rows_of id k v) (get_tags_insert_sql id tags)
    ∙ rw (keep-rows_of j id k v, keep-get_tags_insert_sql j id tags)
        (elim (Bool-cases (j === id)) [ inl e ↦ rw e refl | inr e ↦ rw e refl ])

pub keep-delete_tags :
    (j id : String) (rows : List TagRow)
    → keep (λ t. j === t.item_id) (delete_tags id rows)
      ≡ (if j === id then [] else keep (λ t. j === t.item_id) rows)
keep-delete_tags j id [] = ground arith
keep-delete_tags j id (t ∷ rows) =
    ground (arith, eq_iff j id, eq_iff id t.item_id, eq_iff j t.item_id, keep-delete_tags j id rows)
