-- ===== src/Storage/Sqlite/Resolved.antt =====
-- The tags that a record is written with, as they are read back from its rows.
use veridian_wallet.Base.{
  ◌≡◌, refl, ◌∙◌, ◌⊎◌, inl, inr, Bool, Bool-cases, true, false, not, ◌&&◌, Option, none, some, List,
  [], ◌∷◌, ◌++◌, append_nil, append_assoc, String, map, Result, ok, err, arith, if◌then◌else◌,
}
use veridian_wallet.Base.Text.{Text, codes, text_eq, split}
use veridian_wallet.Base.Text.Laws.{text_eq_iff}
use veridian_wallet.Storage.Sqlite.Clean.{are_clean, resolve_rows, tags_from-clean}
use veridian_wallet.Storage.Sqlite.Unknown.{unknown_type, or_left, resolve_all-unknown}
use veridian_wallet.Storage.Types.{TagValue, text, flag, texts, undefined, Tags}
use veridian_wallet.Storage.Sqlite.{
  TagRow, rows_of, array_rows, get_tags_insert_sql, tag_text, comma_texts, group_concat, DbTag,
  DbTags, text_tag, flag_tag, array_tag, ResolveError, own_tag, put_tag, is_inherited, is_proto,
  resolve_tags_from_db, tags_from, unexpected_tag_type,
}

-- What a tag adds to the object that is read back.
abbrev pub some_codes : List String → List (Option Text)
some_codes vs = map (λ v. some (codes v)) vs

abbrev pub tag_entry : String → TagValue → DbTags
tag_entry k (text s) = (codes k, text_tag (some (codes s))) ∷ []
tag_entry k (flag b) = (codes k, flag_tag b) ∷ []
tag_entry k (texts []) = []
tag_entry k (texts (v ∷ vs)) = (codes k, array_tag (some_codes (v ∷ vs))) ∷ []
tag_entry k undefined = []

abbrev pub entries : Tags → DbTags
entries [] = []
entries ((k, v) ∷ tags) = tag_entry k v ++ entries tags

abbrev pub is_free : Text → DbTags → Bool
is_free k [] = true
is_free k ((j, v) ∷ tags) = not (text_eq j k) && is_free k tags

-- After the tags of the first list, each tag of the second has a key that is not there yet and that
-- no object inherits.
abbrev pub are_addable : DbTags → Tags → Bool
are_addable acc [] = true
are_addable acc ((k, v) ∷ tags) =
    not (is_inherited (codes k)) && is_free (codes k) acc && are_addable (acc ++ tag_entry k v) tags

-- What stands between the commas of the text of the rows.
abbrev pub pieces : List TagRow → List Text
pieces [] = []
pieces (t ∷ ts) = split b',' (tag_text t ++ comma_texts ts)

abbrev pub read_pieces : List TagRow → Option Text → Result ResolveError DbTags
read_pieces rows (some ty) = err (unexpected_tag_type ty)
read_pieces rows none = tags_from rows

-- What is read back: the tags themselves, with an empty array and `undefined` left out, where their
-- names and texts have neither a comma nor a bar and no key stands twice or is inherited. Otherwise
-- an error for the first piece between commas that has no known type, where no array stands before
-- it, and in all other cases what the text of the rows resolves to.
unfoldable pub read_tags : String → Tags → Result ResolveError DbTags
read_tags id tags =
    if are_clean (get_tags_insert_sql id tags) && are_addable [] tags
    then ok (entries tags)
    else read_pieces (get_tags_insert_sql id tags)
        (unknown_type (pieces (get_tags_insert_sql id tags)))

tags_from-pieces :
    (rows : List TagRow) (x : Option Text)
    → unknown_type (pieces rows) ≡ x
    → tags_from rows ≡ read_pieces rows x
unfolding tags_from resolve_tags_from_db group_concat
tags_from-pieces rows none h = refl
tags_from-pieces [] (some ty) h = absurd (cc)
tags_from-pieces (t ∷ ts) (some ty) h = resolve_all-unknown (pieces (t ∷ ts)) [] ty h

own_tag-free : (k : Text) (acc : DbTags) → is_free k acc ≡ true → own_tag k acc ≡ none
own_tag-free k [] h = refl
own_tag-free k ((j, v) ∷ acc) h = ground (arith, own_tag-free k acc)

put_tag-free :
    (k : Text) (v : DbTag) (acc : DbTags)
    → is_free k acc ≡ true
    → put_tag k v acc ≡ acc ++ ((k, v) ∷ [])
put_tag-free k v [] h = refl
put_tag-free k v ((j, w) ∷ acc) h =
    let e : text_eq j k ≡ false = ground arith in rw (e, put_tag-free k v acc (ground arith)) refl

own_tag-last :
    (k : Text) (v : DbTag) (acc : DbTags)
    → is_free k acc ≡ true
    → own_tag k (acc ++ ((k, v) ∷ [])) ≡ some v
own_tag-last k v [] h = let e : text_eq k k ≡ true = (text_eq_iff k k).1 refl in rw e refl
own_tag-last k v ((j, w) ∷ acc) h =
    let e : text_eq j k ≡ false = ground arith in rw (e, own_tag-last k v acc (ground arith)) refl

put_tag-last :
    (k : Text) (v w : DbTag) (acc : DbTags)
    → is_free k acc ≡ true
    → put_tag k w (acc ++ ((k, v) ∷ [])) ≡ acc ++ ((k, w) ∷ [])
put_tag-last k v w [] h = let e : text_eq k k ≡ true = (text_eq_iff k k).1 refl in rw e refl
put_tag-last k v w ((j, u) ∷ acc) h =
    let e : text_eq j k ≡ false = ground arith in rw (e, put_tag-last k v w acc (ground arith)) refl

resolve-array_rows :
    (id k : String) (vs : List String) (rest : List TagRow) (ws : List (Option Text)) (acc : DbTags)
    → is_free (codes k) acc ≡ true
    → resolve_rows (array_rows id k vs ++ rest) (acc ++ ((codes k, array_tag ws) ∷ []))
      ≡ resolve_rows rest (acc ++ ((codes k, array_tag (ws ++ some_codes vs)) ∷ []))
resolve-array_rows id k [] rest ws acc free = rw (append_nil ws) refl
resolve-array_rows id k (v ∷ vs) rest ws acc free =
    rw
      (
        own_tag-last (codes k) (array_tag ws) acc free,
        put_tag-last (codes k) (array_tag ws) (array_tag (ws ++ (some (codes v) ∷ []))) acc free,
      )
      (resolve-array_rows id k vs rest (ws ++ (some (codes v) ∷ [])) acc free
        ∙ rw (append_assoc ws (some (codes v) ∷ []) (some_codes vs)) refl)

is_proto-off : (k : Text) → is_inherited k ≡ false → is_proto k ≡ false
unfolding is_inherited
is_proto-off k h = or_left (is_proto k) _ h

resolve-rows_of :
    (id k : String) (v : TagValue) (rest : List TagRow) (acc : DbTags)
    → is_inherited (codes k) ≡ false
    → is_free (codes k) acc ≡ true
    → resolve_rows (rows_of id k v ++ rest) acc ≡ resolve_rows rest (acc ++ tag_entry k v)
unfolding rows_of
resolve-rows_of id k (text s) rest acc own free =
    let e = is_proto-off (codes k) own in
    rw (e, put_tag-free (codes k) (text_tag (some (codes s))) acc free) refl
resolve-rows_of id k (flag true) rest acc own free =
    let e = is_proto-off (codes k) own in
    rw (e, put_tag-free (codes k) (flag_tag true) acc free) refl
resolve-rows_of id k (flag false) rest acc own free =
    let e = is_proto-off (codes k) own in
    rw (e, put_tag-free (codes k) (flag_tag false) acc free) refl
resolve-rows_of id k (texts []) rest acc own free = rw (append_nil acc) refl
resolve-rows_of id k (texts (v ∷ vs)) rest acc own free =
    rw
      (
        own_tag-free (codes k) acc free,
        own,
        put_tag-free (codes k) (array_tag (some (codes v) ∷ [])) acc free,
      )
      (resolve-array_rows id k vs rest (some (codes v) ∷ []) acc free)
resolve-rows_of id k undefined rest acc own free = rw (append_nil acc) refl

resolve-get_tags_insert_sql :
    (id : String) (tags : Tags) (acc : DbTags)
    → are_addable acc tags ≡ true
    → resolve_rows (get_tags_insert_sql id tags) acc ≡ ok (acc ++ entries tags)
unfolding get_tags_insert_sql
resolve-get_tags_insert_sql id [] acc h = rw (append_nil acc) refl
resolve-get_tags_insert_sql id ((k, v) ∷ tags) acc h =
    let own : is_inherited (codes k) ≡ false = ground arith in
    let free : is_free (codes k) acc ≡ true = ground arith in
    let rest : are_addable (acc ++ tag_entry k v) tags ≡ true = ground arith in
    resolve-rows_of id k v (get_tags_insert_sql id tags) acc own free
    ∙ resolve-get_tags_insert_sql id tags (acc ++ tag_entry k v) rest
    ∙ rw (append_assoc acc (tag_entry k v) (entries tags)) refl

-- The rows of tags are read back as `read_tags` says.
pub tags_from-get_tags_insert_sql :
    (id : String) (tags : Tags) → tags_from (get_tags_insert_sql id tags) ≡ read_tags id tags
unfolding read_tags
tags_from-get_tags_insert_sql id tags =
    go (Bool-cases (are_clean (get_tags_insert_sql id tags) && are_addable [] tags))
  where
    go :
        (are_clean (get_tags_insert_sql id tags) && are_addable [] tags ≡ true)
          ⊎ (are_clean (get_tags_insert_sql id tags) && are_addable [] tags ≡ false)
        → tags_from (get_tags_insert_sql id tags) ≡ read_tags id tags
    go (inl e) = rw e (
        tags_from-clean (get_tags_insert_sql id tags) (ground arith)
        ∙ resolve-get_tags_insert_sql id tags [] (ground arith))
    go (inr e) = rw e (tags_from-pieces (get_tags_insert_sql id tags) _ refl)
