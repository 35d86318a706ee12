-- ===== src/Storage/Sqlite/Scans.antt =====
-- What `scanItems` selects, against what Ionic storage keeps.
use veridian_wallet.Base.{
  ◌≡◌, refl, sym, ◌∙◌, Bool, true, false, ◌&&◌, ◌||◌, some, List, [], ◌∷◌, ◌++◌, String, ◌===◌,
}
use mathlib.Core.List.{append-nil}
use veridian_wallet.Base.Dict.{IsFunctional}
use veridian_wallet.Storage.Types.{TagValue, text, flag, texts, undefined, Tags}
use veridian_wallet.Storage.Query.{Query, done, tag, and_of, or_of, not_of, end, next, check_query}
use veridian_wallet.Storage.Sqlite.{
  TagRow, Item, Piece, or_op, read, an_operand, holds, db_value, in_parens, to_sql, join_with,
  and_op, query_parts, group_parts, get_query_condition_sql, convert_db_query, has_no_entry,
  scan_sql,
}
use veridian_wallet.Storage.Sqlite.Matching.{IsTagged}
use veridian_wallet.Storage.Sqlite.Queries.{
  is_comparable, IsConjunct, query-IsWhole, IsConjunct-paren, reading,
}

db_value_idem : (v : TagValue) → db_value (db_value v) ≡ db_value v
db_value_idem (text s) = refl
db_value_idem (flag b) = refl
db_value_idem (texts vs) = refl
db_value_idem undefined = refl

-- Converting twice, as the code does, changes nothing more.
query_parts-convert_db_query : (q : Query) → query_parts (convert_db_query q) ≡ query_parts q
unfolding query_parts convert_db_query
query_parts-convert_db_query done = refl
query_parts-convert_db_query (tag k v q) = rw (db_value_idem v, query_parts-convert_db_query q) refl
query_parts-convert_db_query (and_of qs q) = rw (query_parts-convert_db_query q) refl
query_parts-convert_db_query (or_of qs q) = rw (query_parts-convert_db_query q) refl
query_parts-convert_db_query (not_of p q) = rw (query_parts-convert_db_query q) refl

and_true : (a : Bool) → (a && true) ≡ a
and_true true = refl
and_true false = refl

module _ (table : List TagRow) (i : Item) (tags : Tags) (functional : IsFunctional tags)
    (tagged : IsTagged table i tags) where
  scan_sql-full :
      (category : String) (q : Query)
      → has_no_entry q ≡ false
      → is_comparable tags q ≡ true
      → holds table i (scan_sql category q) ≡ some (i.category === category && check_query tags q)
  unfolding scan_sql get_query_condition_sql read
  scan_sql-full category q e h =
      let (cs, vs) = query_parts q in
      rw
        (
          e,
          query_parts-convert_db_query q,
          sym (append-nil (join_with and_op (query_parts q).0)),
          sym (append-nil (query_parts q).1),
        )
        (query-IsWhole table i tags functional tagged q e h false (i.category === category) [] []
          [])

  -- An item is selected when it has the class that is asked for and its tags pass the query.
  pub scan_sql_lem :
      (category : String) (q : Query)
      → is_comparable tags q ≡ true
      → holds table i (scan_sql category q) ≡ some (i.category === category && check_query tags q)
  unfolding scan_sql check_query read
  scan_sql_lem category done h = rw (and_true (i.category === category)) refl
  scan_sql_lem category (tag k v q) h = scan_sql-full category (tag k v q) refl h
  scan_sql_lem category (and_of qs q) h = scan_sql-full category (and_of qs q) refl h
  scan_sql_lem category (or_of qs q) h = scan_sql-full category (or_of qs q) refl h
  scan_sql_lem category (not_of p q) h = scan_sql-full category (not_of p q) refl h

  read-or :
      (c d : List Piece) (vs ws : List String) (v w a : Bool)
      → IsConjunct table i tags functional tagged c vs v
      → IsConjunct table i tags functional tagged d ws w
      → read table i an_operand
          (reading table i tags functional tagged false a)
          []
          ((c ++ (or_op ∷ (d ++ []))) ++ [])
          ((vs ++ (ws ++ [])) ++ [])
        ≡ some ((a && v) || w)
  unfolding read
  read-or c d vs ws v w a h k =
      rw (append-nil (c ++ (or_op ∷ (d ++ []))), append-nil (vs ++ (ws ++ [])))
        (h false a [] (or_op ∷ (d ++ [])) (ws ++ []) ∙ k (a && v) true [] [] [])

  -- For an `$or` of two queries, neither of them empty and both comparable with the tags of an item
  -- by its rows, the class that is asked for is tested with the first query only: the item is selected
  -- when it has the class and its tags pass the first query, or when they pass the second one.
  pub scan_sql-or :
      (category : String) (p q : Query)
      → has_no_entry p ≡ false
      → has_no_entry q ≡ false
      → is_comparable tags p ≡ true
      → is_comparable tags q ≡ true
      → holds table i (scan_sql category (or_of (next p (next q end)) done))
        ≡ some ((i.category === category && check_query tags p) || check_query tags q)
  unfolding scan_sql get_query_condition_sql convert_db_query query_parts group_parts read
  scan_sql-or category p q full_p full_q hp hq =
      let (c, vs) = to_sql (query_parts p) in
      let (d, ws) = to_sql (query_parts q) in
      read-or (in_parens c) (in_parens d) vs ws (check_query tags p) (check_query tags q)
        (i.category === category)
        (IsConjunct-paren table i tags functional tagged c vs (check_query tags p)
          (query-IsWhole table i tags functional tagged p full_p hp))
        (IsConjunct-paren table i tags functional tagged d ws (check_query tags q)
          (query-IsWhole table i tags functional tagged q full_q hq))
