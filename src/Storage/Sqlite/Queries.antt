-- ===== src/Storage/Sqlite/Queries.antt =====
-- What SQL makes of the conditions of `getQueryConditionSql`, against `checkRecordIsValidWithQuery`.
use veridian_wallet.Base.{
  ◌≡◌, refl, sym, ap, ◌∙◌, Bool, true, false, not, ◌&&◌, ◌||◌, Option, List, [], ◌∷◌, ◌++◌, String,
  any, take-append, drop-append, arith, ◌===◌,
}
use mathlib.Core.Path.{subst}
use mathlib.Core.List.{append-nil, append_assoc}
use veridian_wallet.Base.Dict.{lookup, IsFunctional}
use veridian_wallet.Storage.Types.{TagValue, text, flag, texts, undefined, Tags}
use veridian_wallet.Storage.Query.{
  Query, done, tag, and_of, or_of, not_of, Queries, end, next, check_query, every_query,
  tag_matches,
}
use veridian_wallet.Storage.Sqlite.{
  TagRow, Item, Piece, close_paren, and_op, Reading, an_operand, an_operator, read, operand, negate,
  flip, flag_text, tag_sql, db_value, in_parens, not_sql, joined, join_with, to_sql, query_parts,
  group_parts, has_no_entry,
}
use veridian_wallet.Storage.Sqlite.Matching.{
  IsTagged, is_told, tag_test, exists_row_lem, tag_test-tag_matches,
}

unfoldable mutual
  -- The query has only values that the rows of the tags tell apart, no `$or` of two queries or more,
  -- and no empty query or list below the top.
  pub is_comparable : Tags → Query → Bool
  is_comparable tags done = true
  is_comparable tags (tag k v q) = is_told (lookup k tags) v && is_comparable tags q
  is_comparable tags (and_of end q) = false
  is_comparable tags (and_of (next p ps) q) =
      are_comparable tags (next p ps) && is_comparable tags q
  is_comparable tags (or_of (next p end) q) =
      are_comparable tags (next p end) && is_comparable tags q
  is_comparable tags (or_of _ q) = false
  is_comparable tags (not_of p q) =
      (not (has_no_entry p) && is_comparable tags p) && is_comparable tags q

  pub are_comparable : Tags → Queries → Bool
  are_comparable tags end = true
  are_comparable tags (next q qs) =
      (not (has_no_entry q) && is_comparable tags q) && are_comparable tags qs

module _ (table : List TagRow) (i : Item) (tags : Tags) (functional : IsFunctional tags)
    (tagged : IsTagged table i tags) where
  abbrev pub reading : Bool → Bool → Reading table i
  reading b a = record { before = b; conjuncts = a; negated = false }

  abbrev pub rest :
      Reading table i → List (Reading table i) → List Piece → List String → Option Bool
  rest = read table i an_operator

  -- Where an operand is due, the condition is read as one with the value `v`.
  abbrev IsOperand : List Piece → List String → Bool → Type 0
  IsOperand c vs v =
      (r : Reading table i) (rs : List (Reading table i)) (ps : List Piece) (ws : List String)
      → read table i an_operand r rs (c ++ ps) (vs ++ ws) ≡ rest (operand table i v r) rs ps ws

  -- As before, but not after a NOT.
  abbrev pub IsConjunct : List Piece → List String → Bool → Type 0
  IsConjunct c vs v =
      (b a : Bool) (rs : List (Reading table i)) (ps : List Piece) (ws : List String)
      → read table i an_operand (reading b a) rs (c ++ ps) (vs ++ ws)
        ≡ rest (reading b (a && v)) rs ps ws

  -- The conditions, each with AND before it, add their value to the conjuncts.
  abbrev pub Follows : List (List Piece) → List String → Bool → Type 0
  Follows cs vs v =
      (b a : Bool) (rs : List (Reading table i)) (ps : List Piece) (ws : List String)
      → rest (reading b a) rs (joined and_op cs ++ ps) (vs ++ ws)
        ≡ rest (reading b (a && v)) rs ps ws

  IsOperand-tag :
      (k : String) (v : TagValue)
      → let (c, vs) = tag_sql k (db_value v) in IsOperand c vs (tag_test v (lookup k tags))
  unfolding read
  IsOperand-tag k (text s) r rs ps ws =
      ap (λ b. rest (operand table i b r) rs ps ws)
        (exists_row_lem table i tags k (λ x. x === s) functional tagged)
  IsOperand-tag k (flag f) r rs ps ws =
      ap (λ b. rest (operand table i b r) rs ps ws)
        (exists_row_lem table i tags k (λ x. x === flag_text f) functional tagged)
  IsOperand-tag k (texts vs) r rs ps ws =
      rw (take-append vs ws, drop-append vs ws)
        (ap (λ b. rest (operand table i b r) rs ps ws)
          (exists_row_lem table i tags k (λ x. any (λ v. x === v) vs) functional tagged))
  IsOperand-tag k undefined r rs ps ws =
      ap (λ b. rest (operand table i (not b) r) rs ps ws)
        (exists_row_lem table i tags k (λ x. true) functional tagged)

  IsOperand-paren :
      (c : List Piece) (vs : List String) (v : Bool)
      → IsConjunct c vs v
      → IsOperand (in_parens c) vs v
  unfolding read
  IsOperand-paren c vs v h r rs ps ws =
      rw (append_assoc c (close_paren ∷ []) ps) (h false true (r ∷ rs) (close_paren ∷ ps) ws)

  flip-not : (n v : Bool) → flip table i (not n) v ≡ flip table i n (not v)
  flip-not true true = refl
  flip-not true false = refl
  flip-not false v = refl

  IsOperand-not :
      (c : List Piece) (vs : List String) (v : Bool)
      → IsConjunct c vs v
      → IsOperand (not_sql (c, vs)).0 vs (not v)
  unfolding read
  IsOperand-not c vs v h r rs ps ws =
      IsOperand-paren c vs v h (negate table i r) rs ps ws
      ∙ ap
          (λ b.
            rest (record { before = r.before; conjuncts = r.conjuncts && b; negated = false }) rs ps
              ws)
          (flip-not r.negated v)

  IsConjunct-of :
      (c : List Piece) (vs : List String) (v : Bool) → IsOperand c vs v → IsConjunct c vs v
  IsConjunct-of c vs v h b a rs ps ws = h (reading b a) rs ps ws

  and_assoc : (a v w : Bool) → ((a && v) && w) ≡ (a && (v && w))
  and_assoc true v w = refl
  and_assoc false v w = refl

  pub and_true : (a : Bool) → (a && true) ≡ a
  and_true true = refl
  and_true false = refl

  IsConjunct-join_with :
      (c : List Piece) (vs : List String) (v : Bool) (cs : List (List Piece)) (us : List String)
      (w : Bool)
      → IsConjunct c vs v
      → Follows cs us w
      → IsConjunct (join_with and_op (c ∷ cs)) (vs ++ us) (v && w)
  IsConjunct-join_with c vs v cs us w h k b a rs ps ws =
      rw (append_assoc c (joined and_op cs) ps, append_assoc vs us ws, sym (and_assoc a v w))
        (h b a rs (joined and_op cs ++ ps) (us ++ ws) ∙ k b (a && v) rs ps ws)

  Follows-joined :
      (c : List Piece) (vs : List String) (v : Bool) (cs : List (List Piece)) (us : List String)
      (w : Bool)
      → IsConjunct c vs v
      → Follows cs us w
      → Follows (c ∷ cs) (vs ++ us) (v && w)
  unfolding read
  Follows-joined c vs v cs us w h k b a rs ps ws =
      IsConjunct-join_with c vs v cs us w h k b a rs ps ws

  or_false : (a : Bool) → (a || false) ≡ a
  or_false true = refl
  or_false false = refl

  Follows-none : Follows [] [] true
  Follows-none b a rs ps ws = rw (and_true a) refl

  -- A query's condition, alone and after others, is read as the query's value on the tags.
  abbrev pub IsWhole : Query → Type 0
  IsWhole q = IsConjunct (join_with and_op (query_parts q).0) (query_parts q).1 (check_query tags q)

  abbrev IsRead : Query → Type 0
  IsRead q = Follows (query_parts q).0 (query_parts q).1 (check_query tags q)

  IsRead-IsWhole :
      (q : Query)
      → (has_no_entry q ≡ false → is_comparable tags q ≡ true → IsWhole q)
      → is_comparable tags q ≡ true
      → IsRead q
  unfolding read query_parts group_parts is_comparable check_query
  IsRead-IsWhole done f h = Follows-none
  IsRead-IsWhole (tag k v q) f h = f refl h
  IsRead-IsWhole (and_of end q) f h = absurd (ground arith)
  IsRead-IsWhole (and_of (next p ps) q) f h = f refl h
  IsRead-IsWhole (or_of end q) f h = absurd (ground arith)
  IsRead-IsWhole (or_of (next p end) q) f h = f refl h
  IsRead-IsWhole (or_of (next p (next p' ps)) q) f h = absurd (ground arith)
  IsRead-IsWhole (not_of p q) f h = f refl h

  IsConjunct-tag :
      (k : String) (v : TagValue)
      → is_told (lookup k tags) v ≡ true
      → let (c, vs) = tag_sql k (db_value v) in IsConjunct c vs (tag_matches (lookup k tags) v)
  IsConjunct-tag k v told =
      let (c, vs) = tag_sql k (db_value v) in
      subst (IsConjunct c vs) (tag_test-tag_matches (lookup k tags) v told)
        (IsConjunct-of c vs (tag_test v (lookup k tags)) (IsOperand-tag k v))

  pub IsConjunct-paren :
      (c : List Piece) (vs : List String) (v : Bool)
      → IsConjunct c vs v
      → IsConjunct (in_parens c) vs v
  IsConjunct-paren c vs v h = IsConjunct-of (in_parens c) vs v (IsOperand-paren c vs v h)

  IsConjunct-alone :
      (c : List Piece) (vs : List String) (v : Bool)
      → IsConjunct c vs v
      → IsConjunct (c ++ []) (vs ++ []) (v || false)
  IsConjunct-alone c vs v h = rw (append-nil c, append-nil vs, or_false v) h

  mutual
    unfolding query_parts group_parts is_comparable check_query

    pub query-IsWhole :
        (q : Query) → has_no_entry q ≡ false → is_comparable tags q ≡ true → IsWhole q
    query-IsWhole done e h = absurd (ground arith)
    query-IsWhole (tag k v q) e h =
        let (c, vs) = tag_sql k (db_value v) in
        let (cs, us) = query_parts q in
        let told : is_told (lookup k tags) v ≡ true = ground arith in
        let tail : is_comparable tags q ≡ true = ground arith in
        IsConjunct-join_with c vs (tag_matches (lookup k tags) v) cs us (check_query tags q)
          (IsConjunct-tag k v told) (IsRead-IsWhole q (query-IsWhole q) tail)
    query-IsWhole (and_of end q) e h = absurd (ground arith)
    query-IsWhole (and_of (next p ps) q) e h =
        let (c, vs) = to_sql (query_parts p) in
        let (ds, us) = group_parts ps in
        let full : has_no_entry p ≡ false = ground arith in
        let inner : is_comparable tags p ≡ true = ground arith in
        let others : are_comparable tags ps ≡ true = ground arith in
        let tail : is_comparable tags q ≡ true = ground arith in
        IsConjunct-join_with (join_with and_op (in_parens c ∷ ds)) (vs ++ us)
          (check_query tags p && every_query tags ps) (query_parts q).0 (query_parts q).1
          (check_query tags q)
          (IsConjunct-join_with (in_parens c) vs (check_query tags p) ds us (every_query tags ps)
            (IsConjunct-paren c vs (check_query tags p) (query-IsWhole p full inner))
            (group-IsRead ps others))
          (IsRead-IsWhole q (query-IsWhole q) tail)
    query-IsWhole (or_of end q) e h = absurd (ground arith)
    query-IsWhole (or_of (next p end) q) e h =
        let (c, vs) = to_sql (query_parts p) in
        let (cs, us) = query_parts q in
        let full : has_no_entry p ≡ false = ground arith in
        let inner : is_comparable tags p ≡ true = ground arith in
        let tail : is_comparable tags q ≡ true = ground arith in
        IsConjunct-join_with (in_parens c ++ []) (vs ++ []) (check_query tags p || false) cs us
          (check_query tags q)
          (IsConjunct-alone (in_parens c) vs (check_query tags p)
            (IsConjunct-paren c vs (check_query tags p) (query-IsWhole p full inner)))
          (IsRead-IsWhole q (query-IsWhole q) tail)
    query-IsWhole (or_of (next p (next p' ps)) q) e h = absurd (ground arith)
    query-IsWhole (not_of p q) e h =
        let (c, vs) = to_sql (query_parts p) in
        let (cs, us) = query_parts q in
        let full : has_no_entry p ≡ false = ground arith in
        let inner : is_comparable tags p ≡ true = ground arith in
        let tail : is_comparable tags q ≡ true = ground arith in
        IsConjunct-join_with (not_sql (c, vs)).0 vs (not (check_query tags p)) cs us
          (check_query tags q)
          (IsConjunct-of (not_sql (c, vs)).0 vs (not (check_query tags p))
            (IsOperand-not c vs (check_query tags p) (query-IsWhole p full inner)))
          (IsRead-IsWhole q (query-IsWhole q) tail)

    group-IsRead :
        (qs : Queries)
        → are_comparable tags qs ≡ true
        → Follows (group_parts qs).0 (group_parts qs).1 (every_query tags qs)
    group-IsRead end h = Follows-none
    group-IsRead (next q qs) h =
        let (c, vs) = to_sql (query_parts q) in
        let (cs, us) = group_parts qs in
        let full : has_no_entry q ≡ false = ground arith in
        let inner : is_comparable tags q ≡ true = ground arith in
        let others : are_comparable tags qs ≡ true = ground arith in
        Follows-joined (in_parens c) vs (check_query tags q) cs us (every_query tags qs)
          (IsConjunct-paren c vs (check_query tags q) (query-IsWhole q full inner))
          (group-IsRead qs others)
