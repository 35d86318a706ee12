-- ===== src/Storage/Sqlite/Rows.antt =====
-- The tables `items` and `items_tags`, and `getTagsInsertSql`.
use veridian_wallet.Base.{Bool, true, false, List, [], ◌∷◌, ◌++◌, String}
use veridian_wallet.Storage.Types.{TagValue, text, flag, texts, undefined, Tags}

-- `enum TagDataType`.
pub data TagDataType : Type 0 where
  string array boolean : TagDataType

-- A row of `items_tags`, less its automatic number.
pub record TagRow : Type 0 where
  pub item_id : String
  pub name : String
  pub value : String
  pub type_of : TagDataType

-- A row of `items`; `value` is the JSON text.
pub record Item : Type 0 where
  pub id : String
  pub category : String
  pub name : String
  pub value : String

-- `value ? "1" : "0"`.
abbrev pub flag_text : Bool → String
flag_text true = "1"
flag_text false = "0"

abbrev pub tag_row : String → String → TagDataType → String → TagRow
tag_row id k t v = record { item_id = id; name = k; value = v; type_of = t }

abbrev pub array_rows : String → String → List String → List TagRow
array_rows id k [] = []
array_rows id k (v ∷ vs) = tag_row id k array v ∷ array_rows id k vs

-- The rows that the statements for one tag insert.
unfoldable pub rows_of : String → String → TagValue → List TagRow
rows_of id k (text s) = tag_row id k string s ∷ []
rows_of id k (flag b) = tag_row id k boolean (flag_text b) ∷ []
rows_of id k (texts vs) = array_rows id k vs
rows_of id k undefined = []

-- The rows that the statements insert, in their order.
unfoldable pub get_tags_insert_sql : String → Tags → List TagRow
get_tags_insert_sql id [] = []
get_tags_insert_sql id ((k, v) ∷ tags) = rows_of id k v ++ get_tags_insert_sql id tags
