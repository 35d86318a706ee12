-- ===== src/Storage/Sqlite/Shelves.antt =====
-- Any sequence of operations on the tables, and the queries after it.
use veridian_wallet.Base.{
  ◌≡◌, refl, Bool, true, ◌&&◌, List, [], ◌∷◌, String, Result, ok, ◌>>=◌, ◌===◌,
}
use veridian_wallet.Base.Dict.{IsFunctional}
use veridian_wallet.Storage.Types.{Tags}
use veridian_wallet.Storage.Query.{Query, check_query}
use veridian_wallet.Storage.Sqlite.{TagRow, Item, ResolveError, Read, read_item}
use veridian_wallet.Storage.Sqlite.Resolved.{read_tags}
use veridian_wallet.Storage.Sqlite.Tables.{Db, SqliteError}
use veridian_wallet.Storage.Sqlite.Matching.{IsTagged}
use veridian_wallet.Storage.Sqlite.Queries.{is_comparable}
use veridian_wallet.Storage.Sqlite.Shelf.{Shelf, Holds, Operation, on_shelf, on_tables}
use veridian_wallet.Storage.Sqlite.Refinement.{on_tables-Agree}

abbrev pub Results : Type 0
Results = List (Result SqliteError (Unit {0}))

abbrev pub all_on_tables : List Operation → Db → Results × Db
all_on_tables [] db = ([], db)
all_on_tables (op ∷ ops) db =
    let (r, db') = on_tables op db in let (rs, last) = all_on_tables ops db' in (r ∷ rs, last)

abbrev pub all_on_shelf : List Operation → Shelf → Results × Shelf
all_on_shelf [] s = ([], s)
all_on_shelf (op ∷ ops) s =
    let (r, s') = on_shelf op s in let (rs, last) = all_on_shelf ops s' in (r ∷ rs, last)

-- Any sequence of saves, updates and deletions, of records that are there or not, returns on the
-- tables what it returns on the list of records that they hold, errors included, and afterwards the
-- tables hold the list that comes out: no identifier twice, and for each record the rows of its tags.
-- An operation on a record that is there reads its tags first. They are read back as they were
-- written where their names and texts have neither a comma nor a bar, no key stands twice and none is
-- inherited by every object. Otherwise the text of their rows, with commas between the tags, is split
-- at its commas: the first piece that has no known type, where no array stands before it, makes the
-- operation throw and change nothing.
pub all_on_tables-Holds :
    (ops : List Operation) (db : Db) (s : Shelf)
    → Holds db s
    → ((all_on_tables ops db).0 ≡ (all_on_shelf ops s).0)
      × Holds (all_on_tables ops db).1 (all_on_shelf ops s).1
all_on_tables-Holds [] db s h = (refl, h)
all_on_tables-Holds (op ∷ ops) db s h =
    let one = on_tables-Agree op db s h in
    let (results, last) = all_on_tables-Holds ops (on_tables op db).1 (on_shelf op s).1 one.holds in
    (rw (one.result, results) refl, last)

-- A record whose tags have each key once, and that the query compares as the rows tell it apart.
pub record IsPlain (q : Query) (x : Item × Tags) : Type 0 where
  pub functional : IsFunctional x.1
  pub comparable : is_comparable x.1 q ≡ true

abbrev pub passes : String → Query → Item × Tags → Bool
passes category q (i, t) = i.category === category && check_query t q

abbrev TaggedIn : List TagRow → Item × Tags → Type 0
TaggedIn rows (i, t) = IsTagged rows i t

-- The records of the list as they are read, the first whose tags cannot be resolved throwing.
abbrev pub read_shelf : Shelf → Result ResolveError (List Read)
read_shelf [] = ok []
read_shelf ((i, t) ∷ s) = do r ← read_item i (read_tags i.id t); rest ← read_shelf s; ok (r ∷ rest)
