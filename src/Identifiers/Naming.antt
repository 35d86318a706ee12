-- ===== src/Identifiers/Naming.antt =====
-- What `createIdentifier` takes, asks for and throws, the name that it makes (`calcKeriaHabName`), and
-- the metadata that `processIdentifiersPendingCreation` reads from a name. The rest of the agent, which
-- is what signify-ts and the storages of identifiers and of pending operations keep, is a parameter
-- with the calls that are made of it.
use veridian_wallet.Base.{
  ℕ, zero, ◌+◌, ◌-◌, ◌*◌, Bool, false, ◌&&◌, Option, none, some, List, [], ◌∷◌, String, Result, any,
  leb, ltb, ◌==◌, if◌then◌else◌,
}
use veridian_wallet.Base.Text.{Text, codes, text_eq, trim_start}
use veridian_wallet.HabName.{GroupPart, HabNameParts, NameError, format_to_v1_2_0_2}
use veridian_wallet.Storage.{StorageError}
use veridian_wallet.SeedPhrase.{GuardError}
use veridian_wallet.Identifiers.Witnesses.{WitnessError, Available}
use veridian_wallet.Identifiers.Search.{Hab}

-- `MiscRecordId.IDENTIFIERS_PENDING_CREATION`.
abbrev pub pending_id : String
pending_id = "identifiers-pending-creation"

-- `UI_THEMES`.
abbrev pub ui_themes : List ℕ
ui_themes =
    0 ∷ 1 ∷ 2 ∷ 3 ∷ 10 ∷ 11 ∷ 12 ∷ 13 ∷ 20 ∷ 21 ∷ 22 ∷ 23 ∷ 30 ∷ 31 ∷ 32 ∷ 33 ∷ 40 ∷ 41 ∷ 42 ∷ 43
    ∷ []

-- `groupMetadata`, whose `groupCreated` is no part of the name.
pub record NewGroup : Type 0 where
  pub part : GroupPart
  pub group_created : Bool

-- A theme is `none` where it is NaN or negative.
pub record Metadata : Type 0 where
  pub theme : Option ℕ
  pub display_name : Text
  pub group_metadata : Option NewGroup

pub data CreateError : Type 0 where
  -- Status 400 with the reason "already incepted".
  already_incepted : CreateError
  create_failed : String → CreateError

pub data SaveError : Type 0 where
  record_already_exists : SaveError
  save_failed : String → SaveError

pub data CreationError : Type 0 where
  agent_not_initialized invalid_theme invalid_queued_display_names_format : CreationError
  cannot_find_existing_identifier_by_search out_of_fuel : CreationError
  no_witnesses : WitnessError → CreationError
  bad_name : NameError → CreationError
  failed : String → CreationError
  storage : StorageError → CreationError
  keria_connection_broken : CreationError
  guarded : GuardError → CreationError

-- What is called of the rest of the agent.
pub record Keria (R : Type 0) : Type 0 where
  pub has_agent : R → Bool
  -- `getKeriaOnlineStatus`, and `markAgentStatus(false)` with the `connect` after it.
  pub is_online : R → Bool
  pub go_offline : R → R
  pub iurls : R → Option (List Text)
  pub role_of : Text → Option (Option Text)
  -- `identifiers().create(name, ...)` and its operation.
  pub create : Text → Available → R → Result CreateError Text × R
  pub list : R → ℕ → ℕ → List Hab
  -- The time of the inception.
  pub get : Text → R → Result String ℕ × R
  pub add_end_role : Text → R → Result String (Unit {0}) × R
  -- `createIdentifierMetadataRecord` and the event after it.
  pub save_metadata : Text → Metadata → ℕ → R → Result SaveError (Unit {0}) × R
  -- `operationPendingStorage.save` for the witness operation of the identifier.
  pub save_operation : Text → R → Result String (Unit {0}) × R

abbrev pub is_ui_theme : Option ℕ → Bool
is_ui_theme none = false
is_ui_theme (some t) = any (λ u. u == t) ui_themes

-- `String(theme)`; a theme that was accepted has two digits at most.
abbrev pub tens : ℕ → ℕ
tens t = if ltb t 20 then 1 else if ltb t 30 then 2 else if ltb t 40 then 3 else 4

abbrev pub theme_text : Option ℕ → Text
theme_text none = codes "NaN"
theme_text (some t) =
    if ltb t 10 then (48 + t) ∷ [] else (48 + tens t) ∷ (48 + (t - 10 * tens t)) ∷ []

abbrev pub is_decimal : ℕ → Bool
is_decimal c = leb 48 c && leb c 57

-- The digits that a text starts with, after those that make up the number so far.
unfoldable pub read_digits : Option ℕ → Text → Option ℕ
read_digits n [] = n
read_digits none (c ∷ s) =
    let rest = read_digits (some (c - 48)) s in if is_decimal c then rest else none
read_digits (some n) (c ∷ s) =
    let rest = read_digits (some (10 * n + (c - 48))) s in if is_decimal c then rest else some n

-- The negation, where it is not negative.
abbrev pub minus : Option ℕ → Option ℕ
minus (some zero) = some zero
minus _ = none

abbrev pub read_signed : Text → Option ℕ
read_signed [] = none
read_signed (c ∷ s) =
    if c == b'-'
    then minus (read_digits none s)
    else if c == b'+'
    then read_digits none s
    else read_digits none (c ∷ s)

-- `parseInt(s, 10)`.
unfoldable pub parse_int : Text → Option ℕ
parse_int s = read_signed (trim_start s)

abbrev pub part_of : Option NewGroup → Option GroupPart
part_of none = none
part_of (some g) = some g.part

abbrev pub parts_of : Metadata → HabNameParts
parts_of m = record {
  version = none;
  display_name = m.display_name;
  group_metadata = part_of m.group_metadata;
  theme = theme_text m.theme;
}

-- `calcKeriaHabName`, not for the deleted variant.
abbrev pub calc_keria_hab_name : Metadata → Text
calc_keria_hab_name m = format_to_v1_2_0_2 (parts_of m)

abbrev pub not_created : Option GroupPart → Option NewGroup
not_created none = none
not_created (some g) = some (record { part = g; group_created = false })

abbrev pub metadata_of : HabNameParts → Metadata
metadata_of p = record {
  theme = parse_int p.theme;
  display_name = p.display_name;
  group_metadata = not_created p.group_metadata;
}

-- `queued.indexOf(name) !== -1`, and `queued.splice(index, 1)`.
abbrev pub has_name : Text → List Text → Bool
has_name name ns = any (λ n. text_eq n name) ns

abbrev pub remove_name : Text → List Text → List Text
remove_name name [] = []
remove_name name (n ∷ ns) = if text_eq n name then ns else n ∷ remove_name name ns
