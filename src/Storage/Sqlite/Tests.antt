-- ===== src/Storage/Sqlite/Tests.antt =====
-- The tables and their queries at concrete values.
use veridian_wallet.Base.{◌≡◌, refl, true, false, some, List, [], ◌∷◌, String, keep, ok, err}
use veridian_wallet.Base.Text.{codes, split}
use veridian_wallet.Storage.{already_exists, does_not_exist, Tags, text, flag}
use veridian_wallet.Storage.Query.{Query, done, tag, or_of, not_of, end, next, check_query}
use veridian_wallet.Storage.Sqlite.{
  Item, unexpected_tag_type, flag_tag, group_concat, is_inherited, resolve_all,
  resolve_tags_from_db, tags_from, rows_of, get_tags_insert_sql, read, holds, convert_db_query,
  query_parts, get_query_condition_sql, scan_sql, scan_items,
}
use veridian_wallet.Storage.Sqlite.Tables
use veridian_wallet.Storage.Sqlite.Tables.{
  Db, Written, refused, unresolved, get_item, create_item, update_item, delete_item,
}
use veridian_wallet.Storage.Sqlite.Queries.{is_comparable}
use veridian_wallet.Storage.Sqlite.Resolved.{read_tags}
use veridian_wallet.Storage.Sqlite.Scans.{scan_sql-or}
use veridian_wallet.Storage.Sqlite.Shelf.{Shelf, Holds, Operation, save, update, delete_by_id}
use veridian_wallet.Storage.Sqlite.Shelves.{
  all_on_tables, all_on_shelf, passes, read_shelf, all_on_tables-Holds,
}

runs : Unit {0}
unfolding rows_of get_tags_insert_sql read convert_db_query query_parts get_query_condition_sql
    scan_sql scan_items split group_concat is_inherited resolve_all resolve_tags_from_db tags_from
    read_tags get_item create_item update_item delete_item Tables.save Tables.update
    Tables.delete_by_id check_query is_comparable
runs = tt

abbrev written : String → String → Tags → Written
written category id tags = record { category = category; name = id; value = "{}"; tags = tags }

abbrev operations : List Operation
operations =
    save (written "Contact" "a" (("pending", flag true) ∷ []))
    ∷ save (written "Contact" "a" [])
    ∷ save (written "Credential" "b" (("id", text "x") ∷ []))
    ∷ update (written "Contact" "a" (("pending", flag false) ∷ []))
    ∷ delete_by_id "c"
    ∷ []

abbrev no_tables : Db
no_tables = record { items = []; rows = [] }

no_tables-Holds : Holds no_tables []
no_tables-Holds = record { distinct = tt; items = refl; rows = λ id. refl }

operations_test :
    (all_on_tables operations no_tables).0
    ≡ ok tt
      ∷ err (refused (already_exists "a"))
      ∷ ok tt
      ∷ ok tt
      ∷ err (refused (does_not_exist "c"))
      ∷ []
unfolding runs
operations_test = refl

-- A tag with a comma in it: the record can be saved once, and then not be replaced, not be deleted,
-- and no contact be listed.
abbrev with_comma : List Operation
with_comma =
    save (written "Contact" "a" (("name", text "A, B") ∷ []))
    ∷ update (written "Contact" "a" [])
    ∷ delete_by_id "a"
    ∷ []

with_comma_test :
    let (rs, db) = all_on_tables with_comma no_tables in
    let thrown = unexpected_tag_type (codes " B") in
    (rs ≡ ok tt ∷ err (unresolved thrown) ∷ err (unresolved thrown) ∷ [])
    × (scan_items db.rows db.items "Contact" done ≡ some (err thrown))
unfolding runs
with_comma_test = (refl, refl)

all_on_tables-Holds_example :
    ((all_on_tables operations no_tables).0 ≡ (all_on_shelf operations []).0)
    × Holds (all_on_tables operations no_tables).1 (all_on_shelf operations []).1
all_on_tables-Holds_example = all_on_tables-Holds operations no_tables [] no_tables-Holds

abbrev db : Db
db = (all_on_tables operations no_tables).1

resolved_test :
    scan_items db.rows db.items "Contact" done
    ≡ some (
        ok (
          (
            record { id = "a"; category = "Contact"; name = "a"; value = "{}" },
            (codes "pending", flag_tag false) ∷ [],
          )
          ∷ []))
unfolding runs
resolved_test = refl

abbrev shelf : Shelf
shelf = (all_on_shelf operations []).1

abbrev not_pending : Query
not_pending = tag "pending" (flag false) (not_of (tag "group" (text "g") done) done)

not_pending_test :
    scan_items db.rows db.items "Contact" not_pending
    ≡ some (read_shelf (keep (passes "Contact" not_pending) shelf))
unfolding runs
not_pending_test = refl

abbrev credential : Item
credential = record { id = "b"; category = "Credential"; name = "b"; value = "{}" }

abbrev by_id : String → Query
by_id id = tag "id" (text id) done

-- A scan for contacts selects a credential.
scan_sql-or_example :
    holds
      (get_tags_insert_sql "b" (("id", text "x") ∷ []))
      credential
      (scan_sql "Contact" (or_of (next (by_id "y") (next (by_id "x") end)) done))
    ≡ some true
unfolding runs
scan_sql-or_example =
    scan_sql-or (get_tags_insert_sql "b" (("id", text "x") ∷ [])) credential (("id", text "x") ∷ [])
      (refl, tt) refl "Contact" (by_id "y") (by_id "x") refl refl refl refl
