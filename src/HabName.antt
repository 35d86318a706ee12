-- ===== src/HabName.antt =====
-- src/core/utils/habName.ts: the name under which the cloud agent keeps an identifier, which packs
-- a format version, the theme, the group and the display name into one string.
pub mod Pieces
pub mod Format
pub mod Upgrade
mod Tests
use veridian_wallet.Base.{
  ℕ, suc, ◌+◌, Bool, true, false, not, ◌&&◌, ◌||◌, Option, none, some, List, [], ◌∷◌, ◌++◌, ok, err,
  Result, ◌>>=◌, ◌>>◌, throw_if, take, drop, if◌then◌else◌,
}
use veridian_wallet.Base.Text.{
  Text, codes, text_eq, starts_with, is_empty, split, index_of, trim, is_space,
}

pub record GroupPart : Type 0 where
  pub group_initiator : Bool
  pub group_id : Text
  pub proposed_username : Text

pub record HabNameParts : Type 0 where
  pub version : Option Text
  pub display_name : Text
  pub group_metadata : Option GroupPart
  pub theme : Text

-- The messages of the errors that `parseHabName` throws.
pub data NameError : Type 0 where
  new_part_count new_initiator new_group_id : NameError
  old_part_count old_missing old_initiator old_group_id old_group_format : NameError

abbrev pub colon : ℕ
colon = b':'

abbrev pub hyphen : ℕ
hyphen = b'-'

abbrev pub v1_2_0_2 : Text
v1_2_0_2 = codes "1.2.0.2"

abbrev pub new_prefix : Text
new_prefix = codes "1.2.0.2:"

-- `DELETED_IDENTIFIER_THEME`.
abbrev pub deleted_theme : Text
deleted_theme = codes "XX"

-- `groupInitiatorStr !== "1" && groupInitiatorStr !== "0"`.
abbrev pub is_bad_flag : Text → Bool
is_bad_flag s = not (text_eq s (codes "1")) && not (text_eq s (codes "0"))

-- `!groupId || groupId.trim() === ""`.
pub is_blank : Text → Bool
unfolding trim is_space
is_blank s = is_empty s || is_empty (trim s)

abbrev pub group_part : Text → Text → Text → GroupPart
group_part flag gid user = record {
  group_initiator = text_eq flag (codes "1");
  group_id = gid;
  proposed_username = user;
}

-- The branch of `parseHabName` for names that start with "1.2.0.2:".
pub parse_new : List Text → Result NameError HabNameParts
parse_new (version ∷ theme ∷ name ∷ []) =
    ok
      (record { version = some version; display_name = name; group_metadata = none; theme = theme })
parse_new (version ∷ theme ∷ flag ∷ gid ∷ user ∷ name ∷ []) = do
  throw_if (is_bad_flag flag) NameError.new_initiator
  throw_if (is_blank gid) NameError.new_group_id
  ok (record {
    version = some version;
    display_name = name;
    group_metadata = some (group_part flag gid user);
    theme = theme;
  })
parse_new _ = err NameError.new_part_count

abbrev pub old_parts : Text → Text → GroupPart → HabNameParts
old_parts theme name g = record {
  version = none;
  display_name = name;
  group_metadata = some g;
  theme = theme;
}

-- The part between the colons of an old three-part name, from the place of its first hyphen.
pub parse_group_at : Option ℕ → Text → Text → Text → Result NameError HabNameParts
parse_group_at none theme group name =
    if starts_with (deleted_theme ++ hyphen ∷ []) theme
    then throw_if (is_blank group) NameError.old_group_id
      >> ok (
          old_parts theme name
            (record { group_initiator = false; group_id = group; proposed_username = [] }))
    else err NameError.old_group_format
parse_group_at (some i) theme group name = do
  throw_if (is_bad_flag (take i group)) NameError.old_initiator
  throw_if (is_blank (drop (i + 1) group)) NameError.old_group_id
  ok (old_parts theme name (group_part (take i group) (drop (i + 1) group) []))

-- The branch for names in the old format.
pub parse_old : List Text → Result NameError HabNameParts
parse_old (theme ∷ name ∷ []) = do
  throw_if (is_empty theme || is_empty name) NameError.old_missing
  ok (record { version = none; display_name = name; group_metadata = none; theme = theme })
parse_old (theme ∷ group ∷ name ∷ []) = do
  throw_if (is_empty theme || is_empty name) NameError.old_missing
  parse_group_at (index_of hyphen group) theme group name
parse_old _ = err NameError.old_part_count

pub parse_hab_name : Text → Result NameError HabNameParts
parse_hab_name name =
    if starts_with new_prefix name
    then parse_new (split colon name)
    else parse_old (split colon name)

abbrev pub initiator_flag : Bool → Text
initiator_flag true = codes "1"
initiator_flag false = codes "0"

-- The text of the template after the theme and its colon.
abbrev pub format_tail : Option GroupPart → Text → Text
format_tail none name = name
format_tail (some g) name =
    initiator_flag g.group_initiator
    ++ (colon ∷ (g.group_id ++ (colon ∷ (g.proposed_username ++ (colon ∷ name)))))

pub format_to_v1_2_0_2 : HabNameParts → Text
format_to_v1_2_0_2 p =
    v1_2_0_2 ++ (colon ∷ (p.theme ++ (colon ∷ format_tail p.group_metadata p.display_name)))

pub record DeletedHabNameInput : Type 0 where
  pub display_name : Text
  pub group_metadata : Option GroupPart

pub build_deleted_hab_name : DeletedHabNameInput → Text → Text
unfolding format_to_v1_2_0_2
build_deleted_hab_name input salt = format_to_v1_2_0_2 (record {
  version = none;
  display_name = input.display_name;
  group_metadata = input.group_metadata;
  theme = deleted_theme ++ (hyphen ∷ salt);
})
