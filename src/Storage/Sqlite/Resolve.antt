-- ===== src/Storage/Sqlite/Resolve.antt =====
-- The tags of a record as the database returns them, one text for all its rows (`group_concat` in the
-- statements), and `resolveTagsFromDb` of src/core/storage/sqliteStorage/utils.ts, which reads it.
use veridian_wallet.Base.{
  Bool, true, false, ◌||◌, Option, none, some, List, [], ◌∷◌, ◌++◌, any, keep, ◌===◌, Result, ok,
  err, ◌>>=◌, if◌then◌else◌,
}
use veridian_wallet.Base.Text.{Text, codes, text_eq, split}
use veridian_wallet.Storage.Sqlite.Rows.{TagDataType, string, array, boolean, TagRow, Item}

abbrev pub type_text : TagDataType → Text
type_text string = codes "string"
type_text array = codes "array"
type_text boolean = codes "boolean"

-- `it.type || '|' || it.name || '|' || it.value`.
abbrev pub tag_text : TagRow → Text
tag_text t = type_text t.type_of ++ (b'|' ∷ (codes t.name ++ (b'|' ∷ codes t.value)))

abbrev pub comma_texts : List TagRow → Text
comma_texts [] = []
comma_texts (t ∷ ts) = b',' ∷ (tag_text t ++ comma_texts ts)

-- `group_concat` over the rows, in the order in which they were inserted; NULL for no rows.
unfoldable pub group_concat : List TagRow → Option Text
group_concat [] = none
group_concat (t ∷ ts) = some (tag_text t ++ comma_texts ts)

-- A value of the object that is returned; a text may be `undefined`.
pub data DbTag : Type 0 where
  text_tag : Option Text → DbTag
  flag_tag : Bool → DbTag
  array_tag : List (Option Text) → DbTag

abbrev pub DbTags : Type 0
DbTags = List (Text × DbTag)

pub data ResolveError : Type 0 where
  unexpected_tag_type : Text → ResolveError
  -- The TypeError of `push` on a value that is no array.
  not_an_array : ResolveError

abbrev pub own_tag : Text → DbTags → Option DbTag
own_tag k [] = none
own_tag k ((j, v) ∷ tags) = if text_eq j k then some v else own_tag k tags

abbrev pub put_tag : Text → DbTag → DbTags → DbTags
put_tag k v [] = (k, v) ∷ []
put_tag k v ((j, w) ∷ tags) =
    let rest = put_tag k v tags in if text_eq j k then (k, v) ∷ tags else (j, w) ∷ rest

-- What every object inherits beside `__proto__`.
abbrev pub inherited : List Text
inherited =
    codes "constructor"
    ∷ codes "__defineGetter__"
    ∷ codes "__defineSetter__"
    ∷ codes "hasOwnProperty"
    ∷ codes "__lookupGetter__"
    ∷ codes "__lookupSetter__"
    ∷ codes "isPrototypeOf"
    ∷ codes "propertyIsEnumerable"
    ∷ codes "toLocaleString"
    ∷ codes "toString"
    ∷ codes "valueOf"
    ∷ []

abbrev pub is_proto : Text → Bool
is_proto k = text_eq (codes "__proto__") k

-- Whether `tags[k]` is truthy for an object without a property `k` of its own.
unfoldable pub is_inherited : Text → Bool
is_inherited k = is_proto k || any (λ n. text_eq n k) inherited

-- The assignment of a text or a boolean, which `__proto__` ignores.
abbrev pub assign_tag : Text → DbTag → DbTags → DbTags
assign_tag k v tags = if is_proto k then tags else put_tag k v tags

-- The branch for arrays, given the tag that is there.
abbrev pub push_tag : Text → Option Text → Option DbTag → DbTags → Result ResolveError DbTags
push_tag k v none tags =
    if is_inherited k then err not_an_array else ok (put_tag k (array_tag (v ∷ [])) tags)
push_tag k v (some (array_tag vs)) tags = ok (put_tag k (array_tag (vs ++ (v ∷ []))) tags)
push_tag k v (some (text_tag (some (c ∷ s)))) tags = err not_an_array
push_tag k v (some (flag_tag true)) tags = err not_an_array
push_tag k v (some _) tags = ok (put_tag k (array_tag (v ∷ [])) tags)

abbrev pub is_one : Option Text → Bool
is_one none = false
is_one (some s) = text_eq s (codes "1")

-- A property is named by a text, `undefined` by its name.
abbrev pub tag_key : Option Text → Text
tag_key none = codes "undefined"
tag_key (some k) = k

abbrev pub resolve_tag : Text → Option Text → Option Text → DbTags → Result ResolveError DbTags
resolve_tag ty k v tags =
    if text_eq ty (codes "array")
    then push_tag (tag_key k) v (own_tag (tag_key k) tags) tags
    else if text_eq ty (codes "string")
    then ok (assign_tag (tag_key k) (text_tag v) tags)
    else if text_eq ty (codes "boolean")
    then ok (assign_tag (tag_key k) (flag_tag (is_one v)) tags)
    else err (unexpected_tag_type ty)

-- `tagParse`, of which three pieces are read; `split` gives one at least.
abbrev pub resolve_parse : List Text → DbTags → Result ResolveError DbTags
resolve_parse [] tags = resolve_tag [] none none tags
resolve_parse (ty ∷ []) tags = resolve_tag ty none none tags
resolve_parse (ty ∷ k ∷ []) tags = resolve_tag ty (some k) none tags
resolve_parse (ty ∷ k ∷ v ∷ _) tags = resolve_tag ty (some k) (some v) tags

unfoldable pub resolve_all : List Text → DbTags → Result ResolveError DbTags
resolve_all [] tags = ok tags
resolve_all (t ∷ ts) tags = resolve_parse (split b'|' t) tags >>= resolve_all ts

unfoldable pub resolve_tags_from_db : Option Text → Result ResolveError DbTags
resolve_tags_from_db none = ok []
resolve_tags_from_db (some t) = resolve_all (split b',' t) []

-- The tags of a record, from its rows.
unfoldable pub tags_from : List TagRow → Result ResolveError DbTags
tags_from rows = resolve_tags_from_db (group_concat rows)

-- A record as it is read: its row and its tags.
abbrev pub Read : Type 0
Read = Item × DbTags

abbrev pub read_item : Item → Result ResolveError DbTags → Result ResolveError Read
read_item i (ok tags) = ok (i, tags)
read_item i (err e) = err e

-- The tags of an item, where they can be resolved.
abbrev pub with_tags : List TagRow → Item → Result ResolveError Read
with_tags rows i = read_item i (tags_from (keep (λ t. i.id === t.item_id) rows))
