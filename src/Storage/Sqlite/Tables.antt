-- ===== src/Storage/Sqlite/Tables.antt =====
-- The operations of the class that write, as what their statements make of the two tables. A record
-- is given as it is written: its class, its identifier (`name`), its JSON text and its tags.
use veridian_wallet.Base.{
  not, Option, none, some, List, [], ◌∷◌, ◌++◌, map, String, any, keep, Result, ok, err, ◌>>=◌,
  ◌===◌, if◌then◌else◌,
}
use veridian_wallet.Base.States.{Action, throw}
use veridian_wallet.Storage.Types.{StorageError, already_exists, does_not_exist}
use veridian_wallet.Storage.Ionic.{StorageRecord}
use veridian_wallet.Storage.Sqlite.Rows.{TagRow, Item, get_tags_insert_sql}
use veridian_wallet.Storage.Sqlite.Resolve.{ResolveError, Read, with_tags}

pub record Db : Type 0 where
  pub items : List Item
  pub rows : List TagRow

abbrev pub Written : Type 0
Written = StorageRecord String

abbrev pub item_of : String → Written → Item
item_of id w = record { id = id; category = w.category; name = w.name; value = w.value }

-- `values.length === 1`.
abbrev pub only_one : List Item → Option Item
only_one (i ∷ []) = some i
only_one _ = none

abbrev pub read_found : List TagRow → Option Item → Result ResolveError (Option Read)
read_found rows none = ok none
read_found rows (some i) = with_tags rows i >>= λ r. ok (some r)

-- GET_ITEM_SQL, and the tags resolved.
unfoldable pub get_item : Db → String → Result ResolveError (Option Read)
get_item db id = read_found db.rows (only_one (keep (λ i. i.id === id) db.items))

-- INSERT_ITEMS_SQL: `id` is the primary key, and a row that is there stays.
abbrev pub insert_or_ignore : Item → List Item → List Item
insert_or_ignore i items = if any (λ j. j.id === i.id) items then items else items ++ (i ∷ [])

-- UPDATE_ITEMS_SQL.
abbrev pub set_where : String → Item → Item → Item
set_where id i j = if j.id === id then i else j

-- DELETE_ITEM_TAGS_SQL.
abbrev pub delete_tags : String → List TagRow → List TagRow
delete_tags id rows = keep (λ t. not (id === t.item_id)) rows

unfoldable pub create_item : String → Written → Db → Db
create_item id w db = record {
  items = insert_or_ignore (item_of id w) db.items;
  rows = db.rows ++ get_tags_insert_sql id w.tags;
}

unfoldable pub update_item : String → Written → Db → Db
update_item id w db = record {
  items = map (set_where id (item_of id w)) db.items;
  rows = delete_tags id db.rows ++ get_tags_insert_sql id w.tags;
}

unfoldable pub delete_item : String → Db → Db
delete_item id db = record {
  items = keep (λ i. not (i.id === id)) db.items;
  rows = delete_tags id db.rows;
}

pub data SqliteError : Type 0 where
  refused : StorageError → SqliteError
  unresolved : ResolveError → SqliteError

abbrev pub Method : Type 0
Method = Action Db SqliteError (Unit {0})

-- What follows `getItem`, given what it returns: what is done with a record, or without one.
abbrev pub on_item : Result ResolveError (Option Read) → Method → Method → Method
on_item (err e) found missing db = (err (unresolved e), db)
on_item (ok none) found missing db = missing db
on_item (ok (some r)) found missing db = found db

abbrev pub write : (Db → Db) → Method
write f db = (ok tt, f db)

unfoldable pub save : Written → Method
save w db =
    on_item (get_item db w.name) (throw (refused (already_exists w.name)))
      (write (create_item w.name w)) db

unfoldable pub update : Written → Method
update w db =
    on_item (get_item db w.name) (write (update_item w.name w))
      (throw (refused (does_not_exist w.name))) db

unfoldable pub delete_by_id : String → Method
delete_by_id id db =
    on_item (get_item db id) (write (delete_item id)) (throw (refused (does_not_exist id))) db
