-- ===== src/Storage/Sqlite/Refinement.antt =====
-- The operations on the tables do what those on the list do.
use veridian_wallet.Base.{
  ◌≡◌, refl, sym, ◌∙◌, inl, inr, Bool-cases, true, false, some, none, Result, ok, err, ◌>>=◌, List,
  [], ◌∷◌, ◌++◌, String, keep, ◌===◌, if◌then◌else◌,
}
use mathlib.Core.List.{append-nil}
use veridian_wallet.Base.States.{Action}
use veridian_wallet.Storage.Types.{Tags}
use veridian_wallet.Storage.Sqlite.{
  TagRow, Item, get_tags_insert_sql, DbTags, ResolveError, read_item, group_concat,
  resolve_tags_from_db, tags_from,
}
use veridian_wallet.Storage.Sqlite.Tables.{
  Db, Written, item_of, only_one, get_item, insert_or_ignore, set_where, delete_tags, create_item,
  update_item, delete_item, SqliteError, Method, on_item,
}
use veridian_wallet.Storage.Sqlite.Tables
use veridian_wallet.Storage.Sqlite.Shelf.{
  Shelf, is_on, rows_on, tags_on, Holds, put_on, replace_on, take_off, Operation, save, update,
  delete_by_id, after_read, on_shelf, on_tables, keep-append, keep-get_tags_insert_sql,
  keep-delete_tags,
}
use veridian_wallet.Storage.Sqlite.Resolved.{tags_from-get_tags_insert_sql}
use veridian_wallet.Storage.Sqlite.Shelving.{
  same_id, only_one-off, only_one-on, any-items_on, items_on-put, items_on-replace,
  items_on-take_off, IsDistinct-put, IsDistinct-replace, IsDistinct-take_off, rows_on-put,
  rows_on-replace, rows_on-replace_other, rows_on-take_off,
}

rows_after :
    (j id : String) (tags : Tags) (rows : List TagRow)
    → keep (λ t. j === t.item_id) (rows ++ get_tags_insert_sql id tags)
      ≡ keep (λ t. j === t.item_id) rows ++ (if j === id then get_tags_insert_sql id tags else [])
rows_after j id tags rows =
    keep-append (λ t. j === t.item_id) rows (get_tags_insert_sql id tags)
    ∙ rw (keep-get_tags_insert_sql j id tags) refl

create_item-Holds :
    (w : Written) (db : Db) (s : Shelf)
    → is_on w.name s ≡ false
    → Holds db s
    → Holds (create_item w.name w db) (put_on w.name w s)
unfolding create_item
create_item-Holds w db s off h = record {
  distinct = IsDistinct-put w.name w s off h.distinct;
  items = rw (h.items, any-items_on w.name s, off) (sym (items_on-put w.name w s));
  rows =
      λ j. rows_after j w.name w.tags db.rows ∙ rw (h.rows j) (sym (rows_on-put j w.name w s off));
}

update_item-Holds :
    (w : Written) (db : Db) (s : Shelf)
    → is_on w.name s ≡ true
    → Holds db s
    → Holds (update_item w.name w db) (replace_on w.name w s)
unfolding update_item
update_item-Holds w db s on h = record {
  distinct = IsDistinct-replace w.name w s h.distinct;
  items = rw h.items (sym (items_on-replace w.name w s));
  rows = λ j.
      rows_after j w.name w.tags (delete_tags w.name db.rows)
      ∙ rw (keep-delete_tags j w.name db.rows, h.rows j)
          (elim (Bool-cases (j === w.name)) [
            | inl e ↦ rw (e, same_id j w.name e) (sym (rows_on-replace w.name w s on))
            | inr e ↦ rw e (append-nil (rows_on j s) ∙ sym (rows_on-replace_other j w.name w s e))
          ]);
}

delete_item-Holds :
    (id : String) (db : Db) (s : Shelf) → Holds db s → Holds (delete_item id db) (take_off id s)
unfolding delete_item
delete_item-Holds id db s h = record {
  distinct = IsDistinct-take_off id s h.distinct;
  items = rw h.items (sym (items_on-take_off id s));
  rows = λ j. keep-delete_tags j id db.rows ∙ rw (h.rows j) (sym (rows_on-take_off j id s));
}

tags_from-rows_on : (id : String) (s : Shelf) → tags_from (rows_on id s) ≡ tags_on id s
unfolding tags_from resolve_tags_from_db group_concat
tags_from-rows_on id [] = refl
tags_from-rows_on id ((i, t) ∷ s) = elim (Bool-cases (i.id === id)) [
  | inl e ↦ rw e (tags_from-get_tags_insert_sql id t)
  | inr e ↦ rw e (tags_from-rows_on id s)
]

get_item-off :
    (id : String) (db : Db) (s : Shelf) → Holds db s → is_on id s ≡ false → get_item db id ≡ ok none
unfolding get_item
get_item-off id db s h off = rw (h.items, only_one-off id s off) refl

get_item-on :
    (id : String) (db : Db) (s : Shelf)
    → Holds db s
    → is_on id s ≡ true
    → (i : Item) × (get_item db id ≡ (read_item i (tags_on id s) >>= λ r. ok (some r)))
unfolding get_item
get_item-on id db s h on =
    let (i, one, same) = only_one-on id s h.distinct on in
    (i, rw (h.items, one, same, h.rows id, tags_from-rows_on id s) refl)

-- The one on the tables returns what the one on the list returns, and the tables hold the list after
-- it.
pub record Agree (p : Result SqliteError (Unit {0}) × Db)
    (q : Result SqliteError (Unit {0}) × Shelf) : Type 0 where
  pub result : p.0 ≡ q.0
  pub holds : Holds p.1 q.1

on_item-Agree :
    (x : Result ResolveError DbTags) (i : Item) (f m : Method)
    (g : Action Shelf SqliteError (Unit {0})) (db : Db) (s : Shelf)
    → Holds db s
    → Agree (f db) (g s)
    → Agree (on_item (read_item i x >>= λ r. ok (some r)) f m db) (after_read x g s)
on_item-Agree (ok tags) i f m g db s h a = a
on_item-Agree (err e) i f m g db s h a = record { result = refl; holds = h }

pub on_tables-Agree :
    (op : Operation) (db : Db) (s : Shelf) → Holds db s → Agree (on_tables op db) (on_shelf op s)
unfolding Tables.save Tables.update Tables.delete_by_id
on_tables-Agree (save w) db s h = elim (Bool-cases (is_on w.name s)) [
  | inl e ↦
      let (i, there) = get_item-on w.name db s h e in
      rw (there, e)
        (on_item-Agree (tags_on w.name s) i _ _ _ db s h (record { result = refl; holds = h }))
  | inr e ↦
      rw (get_item-off w.name db s h e, e)
        (record { result = refl; holds = create_item-Holds w db s e h })
]
on_tables-Agree (update w) db s h = elim (Bool-cases (is_on w.name s)) [
  | inl e ↦
      let (i, there) = get_item-on w.name db s h e in
      rw (there, e)
        (on_item-Agree (tags_on w.name s) i _ _ _ db s h
          (record { result = refl; holds = update_item-Holds w db s e h }))
  | inr e ↦ rw (get_item-off w.name db s h e, e) (record { result = refl; holds = h })
]
on_tables-Agree (delete_by_id id) db s h = elim (Bool-cases (is_on id s)) [
  | inl e ↦
      let (i, there) = get_item-on id db s h e in
      rw (there, e)
        (on_item-Agree (tags_on id s) i _ _ _ db s h
          (record { result = refl; holds = delete_item-Holds id db s h }))
  | inr e ↦ rw (get_item-off id db s h e, e) (record { result = refl; holds = h })
]
