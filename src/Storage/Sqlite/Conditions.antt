-- ===== src/Storage/Sqlite/Conditions.antt =====
-- `getQueryConditionSql` and `scanItems`, with `convertDbQuery` of sqliteStorage/utils.ts.
use mathlib.Core.Option
use veridian_wallet.Base.{
  Bool, true, false, Option, none, some, List, [], ◌∷◌, ◌++◌, String, length, Result, ok, ◌>>=◌,
  if◌then◌else◌,
}
use veridian_wallet.Storage.Types.{TagValue, text, flag, texts, undefined}
use veridian_wallet.Storage.Query.{Query, done, tag, and_of, or_of, not_of, Queries, end, next}
use veridian_wallet.Storage.Sqlite.Rows.{TagRow, Item, flag_text}
use veridian_wallet.Storage.Sqlite.Resolve.{ResolveError, Read, with_tags}
use veridian_wallet.Storage.Sqlite.Where.{
  Piece, category_is, tag_is, tag_missing, tag_in, open_paren, close_paren, and_op, or_op, not_op,
  Sql, holds,
}

abbrev pub db_value : TagValue → TagValue
db_value (flag b) = text (flag_text b)
db_value v = v

-- `convertDbQuery`: the entries of the query itself, not those of the queries in it.
unfoldable pub convert_db_query : Query → Query
convert_db_query done = done
convert_db_query (tag k v q) = tag k (db_value v) (convert_db_query q)
convert_db_query (and_of qs q) = and_of qs (convert_db_query q)
convert_db_query (or_of qs q) = or_of qs (convert_db_query q)
convert_db_query (not_of p q) = not_of p (convert_db_query q)

-- The condition for one tag, once its value is converted.
abbrev pub tag_sql : String → TagValue → Sql
tag_sql k (texts vs) = (tag_in (length vs) ∷ [], k ∷ vs)
tag_sql k undefined = (tag_missing ∷ [], k ∷ [])
tag_sql k (text s) = (tag_is ∷ [], k ∷ s ∷ [])
tag_sql k (flag b) = (tag_is ∷ [], k ∷ flag_text b ∷ [])

-- `conditions.join(op)`.
abbrev pub joined : Piece → List (List Piece) → List Piece
joined op [] = []
joined op (c ∷ cs) = op ∷ (c ++ joined op cs)

abbrev pub join_with : Piece → List (List Piece) → List Piece
join_with op [] = []
join_with op (c ∷ cs) = c ++ joined op cs

abbrev pub in_parens : List Piece → List Piece
in_parens c = open_paren ∷ (c ++ (close_paren ∷ []))

-- `conditions` and `values` of the source.
abbrev pub Parts : Type 0
Parts = List (List Piece) × List String

-- The condition of `$or` or `$and`, pushed when there is a query in the list.
abbrev pub push_group : Piece → Parts → Parts → Parts
push_group op ([], vs) (cs, ws) = (cs, vs ++ ws)
push_group op (d ∷ ds, vs) (cs, ws) = (join_with op (d ∷ ds) ∷ cs, vs ++ ws)

abbrev pub push_one : Sql → Parts → Parts
push_one (c, vs) (cs, ws) = (c ∷ cs, vs ++ ws)

abbrev pub to_sql : Parts → Sql
to_sql (cs, vs) = (join_with and_op cs, vs)

abbrev pub not_sql : Sql → Sql
not_sql (c, vs) = (not_op ∷ in_parens c, vs)

abbrev pub paren_sql : Sql → Sql
paren_sql (c, vs) = (in_parens c, vs)

unfoldable mutual
  -- The loop over the entries.
  pub query_parts : Query → Parts
  query_parts done = ([], [])
  query_parts (tag k v q) = push_one (tag_sql k (db_value v)) (query_parts q)
  query_parts (and_of qs q) = push_group and_op (group_parts qs) (query_parts q)
  query_parts (or_of qs q) = push_group or_op (group_parts qs) (query_parts q)
  query_parts (not_of p q) = push_one (not_sql (to_sql (query_parts p))) (query_parts q)

  -- The loop over the queries of a list, each in parentheses.
  pub group_parts : Queries → Parts
  group_parts end = ([], [])
  group_parts (next q qs) = push_one (paren_sql (to_sql (query_parts q))) (group_parts qs)

unfoldable pub get_query_condition_sql : Query → Sql
get_query_condition_sql q = to_sql (query_parts q)

abbrev pub has_no_entry : Query → Bool
has_no_entry done = true
has_no_entry _ = false

abbrev pub with_condition : String → Sql → Sql
with_condition category (c, vs) = (category_is ∷ and_op ∷ c, category ∷ vs)

-- What `scanItems` asks the database for; no entry, no condition.
unfoldable pub scan_sql : String → Query → Sql
scan_sql category q =
    if has_no_entry q
    then (category_is ∷ [], category ∷ [])
    else with_condition category (get_query_condition_sql (convert_db_query q))

abbrev pub select_item : Item → Option Bool → Option (List Item) → Option (List Item)
select_item i (some true) (some is) = some (i ∷ is)
select_item i (some false) (some is) = some is
select_item i _ _ = none

-- The items that are selected, and `none` for a condition that SQL rejects.
abbrev pub select : List TagRow → Sql → List Item → Option (List Item)
select table sql [] = some []
select table sql (i ∷ is) = select_item i (holds table i sql) (select table sql is)

-- The loop over the rows that are returned.
abbrev pub read_all : List TagRow → List Item → Result ResolveError (List Read)
read_all table [] = ok []
read_all table (i ∷ is) = do r ← with_tags table i; rest ← read_all table is; ok (r ∷ rest)

-- `none` where SQL rejects the condition; otherwise the records with their tags, or what their
-- resolution throws.
unfoldable pub scan_items :
    List TagRow → List Item → String → Query → Option (Result ResolveError (List Read))
scan_items table items category q =
    Option.map (read_all table) (select table (scan_sql category q) items)
