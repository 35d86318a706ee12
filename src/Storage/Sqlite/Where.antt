-- ===== src/Storage/Sqlite/Where.antt =====
-- The conditions that the class writes after WHERE, as lists of the pieces that the text is put
-- together from, and what SQL makes of them: AND binds tighter than OR, and NOT tighter than both.
use veridian_wallet.Base.{
  ℕ, Bool, true, false, not, ◌&&◌, ◌||◌, Option, none, some, List, [], ◌∷◌, String, any, take, drop,
  ◌===◌,
}
use veridian_wallet.Storage.Sqlite.Rows.{TagRow, Item}

-- `category_is` is "category = ?" of SCAN_QUERY_SQL, `tag_is` SCAN_TAGS_SQL_EQ, `tag_missing`
-- SCAN_TAGS_SQL_NOT_EXIST, and `tag_in n` SCAN_TAGS_SQL_IN with `n` placeholders.
pub data Piece : Type 0 where
  category_is tag_is tag_missing : Piece
  tag_in : ℕ → Piece
  open_paren close_paren and_op or_op not_op : Piece

-- A condition with the values that are bound to its placeholders.
abbrev pub Sql : Type 0
Sql = List Piece × List String

module _ (table : List TagRow) (i : Item) where
  -- `EXISTS (SELECT 1 FROM items_tags it WHERE i.id = it.item_id AND it.name = ? AND p)`.
  abbrev pub exists_row : String → (String → Bool) → Bool
  exists_row k p = any (λ t. i.id === t.item_id && t.name === k && p t.value) table

  -- An expression that is read from left to right: what the disjuncts before it come to, what the
  -- conjuncts of its last disjunct do, and whether a NOT is ahead of the next operand.
  pub record Reading : Type 0 where
    pub before : Bool
    pub conjuncts : Bool
    pub negated : Bool

  abbrev pub begin : Reading
  begin = record { before = false; conjuncts = true; negated = false }

  abbrev pub value_of : Reading → Bool
  value_of r = r.before || r.conjuncts

  abbrev pub flip : Bool → Bool → Bool
  flip true b = not b
  flip false b = b

  abbrev pub operand : Bool → Reading → Reading
  operand b r = record {
    before = r.before;
    conjuncts = r.conjuncts && flip r.negated b;
    negated = false;
  }

  abbrev pub negate : Reading → Reading
  negate r = record r { negated = not r.negated }

  abbrev pub next_disjunct : Reading → Reading
  next_disjunct r = record { before = value_of r; conjuncts = true; negated = false }

  -- The value of the rest of a condition for the row `i` of `items`, with the expressions whose
  -- parentheses are open, where an operand or where an operator is due; `none` for a syntax error.
  pub data Due : Type 0 where
    an_operand an_operator : Due

  unfoldable pub read : Due → Reading → List Reading → List Piece → List String → Option Bool
  read an_operand r rs (category_is ∷ ps) (c ∷ vs) =
      read an_operator (operand (i.category === c) r) rs ps vs
  read an_operand r rs (tag_is ∷ ps) (k ∷ v ∷ vs) =
      read an_operator (operand (exists_row k (λ x. x === v)) r) rs ps vs
  read an_operand r rs (tag_missing ∷ ps) (k ∷ vs) =
      read an_operator (operand (not (exists_row k (λ x. true))) r) rs ps vs
  read an_operand r rs (tag_in n ∷ ps) (k ∷ vs) =
      read an_operator (operand (exists_row k (λ x. any (λ v. x === v) (take n vs))) r) rs ps
        (drop n vs)
  read an_operand r rs (not_op ∷ ps) vs = read an_operand (negate r) rs ps vs
  read an_operand r rs (open_paren ∷ ps) vs = read an_operand begin (r ∷ rs) ps vs
  read an_operand r rs _ _ = none
  read an_operator r rs (and_op ∷ ps) vs = read an_operand r rs ps vs
  read an_operator r rs (or_op ∷ ps) vs = read an_operand (next_disjunct r) rs ps vs
  read an_operator r [] [] vs = some (value_of r)
  read an_operator r (outer ∷ rs) (close_paren ∷ ps) vs =
      read an_operator (operand (value_of r) outer) rs ps vs
  read an_operator r rs _ _ = none

  -- `WHERE` with the condition.
  abbrev pub holds : Sql → Option Bool
  holds (ps, vs) = read an_operand begin [] ps vs
