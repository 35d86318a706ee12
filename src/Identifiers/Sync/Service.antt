-- ===== src/Identifiers/Sync/Service.antt =====
-- What the synchronisation makes of the identifiers at KERIA, whose answers are a parameter.
use veridian_wallet.Base.{
  ℕ, ◌+◌, ◌*◌, Bool, true, false, not, Option, none, some, List, [], ◌∷◌, keep, ◌&&◌, String,
  Result, ok, err, any, ◌===◌, if◌then◌else◌,
}
use veridian_wallet.Base.Text.{Text, starts_with}
use veridian_wallet.Base.States.{Action, ◌>>=◌, ◌>>◌, pure, throw}
use veridian_wallet.Storage.{StorageError, already_exists, does_not_exist}
use veridian_wallet.Store.Types.{CreationStatus}
use veridian_wallet.HabName.{GroupPart, HabNameParts, NameError, parse_hab_name, deleted_theme}
use veridian_wallet.Records
use veridian_wallet.Records.Paging.{fetch_from}
use veridian_wallet.Identifiers.Naming.{NewGroup, parse_int, not_created}
use veridian_wallet.Identifiers.Sync.Storing.{
  IdentifierMetadataRecord, identifier_class, OperationPendingRecord, operation_class,
  OperationType, witness, group,
}

-- The member of a group, `group.mhab`.
pub record MemberHab : Type 0 where
  pub prefix : String
  pub name : Text

pub record HabState : Type 0 where
  pub prefix : String
  pub name : Text
  pub group : Option MemberHab

-- An operation: its name, and how it ended, if it has (`true` with an error).
pub record Operation : Type 0 where
  pub name : String
  pub ended : Option Bool

-- `icp_dt`, as the date that is made of it, and `salty?.sxlt`.
pub record Detail : Type 0 where
  pub icp_dt : String
  pub sxlt : Option String

pub data SyncError : Type 0 where
  keria : String → SyncError
  storage : StorageError → SyncError
  bad_name : NameError → SyncError
  mhab_name_missing_group_metadata identifier_metadata_record_missing out_of_fuel : SyncError

pub record Directory : Type 0 where
  -- `identifiers().list(start, end)`.
  pub list : ℕ → ℕ → Result SyncError (List HabState)
  -- `operations().get` for `witness.${prefix}` and `group.${prefix}`.
  pub witness_operation : String → Result String Operation
  pub group_operation : String → Result String Operation
  -- `identifiers().get(prefix)`.
  pub get : String → Result String Detail

pub record LocalRecords : Type 0 where
  pub identifiers : List IdentifierMetadataRecord
  pub operations : List OperationPendingRecord

abbrev pub Method : Type 0 → Type 0
Method A = Action LocalRecords SyncError A

abbrev pub asked : {A : Type 0} → Result String A → Method A
asked (ok a) = pure a
asked (err e) = throw (keria e)

abbrev pub read_name : Text → Result NameError HabNameParts → Method HabNameParts
read_name name (ok p) = pure p
read_name name (err e) = throw (bad_name e)

abbrev pub status_of : Option Bool → CreationStatus
status_of none = CreationStatus.pending
status_of (some true) = CreationStatus.failed
status_of (some false) = CreationStatus.complete

abbrev pub is_deleted_theme : Text → Bool
is_deleted_theme theme = starts_with deleted_theme theme

abbrev pub synced_theme : Text → Option ℕ
synced_theme theme = if is_deleted_theme theme then some 0 else parse_int theme

abbrev pub individual_record :
    HabState → HabNameParts → Operation → Detail → IdentifierMetadataRecord
individual_record h p op d = record {
  id = h.prefix;
  created_at = d.icp_dt;
  display_name = p.display_name;
  theme = synced_theme p.theme;
  creation_status = status_of op.ended;
  is_deleted = is_deleted_theme p.theme;
  pending_deletion = false;
  pending_update = false;
  group_member_pre = none;
  group_metadata = not_created p.group_metadata;
  group_username = none;
  sxlt = d.sxlt;
}

abbrev pub group_record :
    HabState → MemberHab → GroupPart → HabNameParts → Operation → Detail → IdentifierMetadataRecord
group_record h m g p op d = record {
  id = h.prefix;
  created_at = d.icp_dt;
  display_name = p.display_name;
  theme = synced_theme p.theme;
  creation_status = status_of op.ended;
  is_deleted = is_deleted_theme p.theme;
  pending_deletion = false;
  pending_update = false;
  group_member_pre = some m.prefix;
  group_metadata = none;
  group_username = some g.proposed_username;
  sxlt = none;
}

abbrev pub in_identifiers :
    LocalRecords
    → Result StorageError (Unit {0}) × List IdentifierMetadataRecord
    → Result SyncError (Unit {0}) × LocalRecords
in_identifiers s (ok u, rs) = (ok u, record s { identifiers = rs })
in_identifiers s (err e, rs) = (err (storage e), record s { identifiers = rs })

abbrev pub create_identifier_metadata_record : IdentifierMetadataRecord → Method (Unit {0})
create_identifier_metadata_record r s =
    in_identifiers s (Records.save identifier_class r s.identifiers)

abbrev pub created_group : GroupPart → Option NewGroup
created_group g = some (record { part = g; group_created = true })

-- `updateIdentifierMetadata` of the group metadata.
abbrev pub mark_found_member : GroupPart → Option IdentifierMetadataRecord → Method (Unit {0})
mark_found_member g none s = (err identifier_metadata_record_missing, s)
mark_found_member g (some r) s =
    in_identifiers s (
      Records.update identifier_class (record r { group_metadata = created_group g }) s.identifiers)

abbrev pub mark_created : String → GroupPart → Method (Unit {0})
mark_created id g s = mark_found_member g (Records.find_by_id identifier_class id s.identifiers) s

-- `OperationPendingStorage.save`: that the record is there already is no error.
abbrev pub operation_or_there :
    LocalRecords
    → Result StorageError (Unit {0}) × List OperationPendingRecord
    → Result SyncError (Unit {0}) × LocalRecords
operation_or_there s (ok u, rs) = (ok u, record s { operations = rs })
operation_or_there s (err (already_exists k), rs) = (ok tt, s)
operation_or_there s (err (does_not_exist k), rs) = (err (storage (does_not_exist k)), s)

abbrev pub save_pending_operation : OperationPendingRecord → Method (Unit {0})
save_pending_operation r s = operation_or_there s (Records.save operation_class r s.operations)

abbrev pub save_if_pending : OperationType → String → Option Bool → Method (Unit {0})
save_if_pending t name none = save_pending_operation (record { id = name; record_type = t })
save_if_pending t name (some b) = pure tt

abbrev pub expected_group : Option GroupPart → Method GroupPart
expected_group none = throw mhab_name_missing_group_metadata
expected_group (some g) = pure g

abbrev pub is_known : List IdentifierMetadataRecord → HabState → Bool
is_known rs h = any (λ r. r.id === h.prefix) rs

abbrev pub is_individual : Option MemberHab → Bool
is_individual none = true
is_individual (some m) = false

unfoldable pub without_group : List IdentifierMetadataRecord → List HabState → List HabState
without_group rs hs = keep (λ h. not (is_known rs h) && is_individual h.group) hs

unfoldable pub with_group : List IdentifierMetadataRecord → List HabState → List HabState
with_group rs hs = keep (λ h. not (is_known rs h) && not (is_individual h.group)) hs

module _ (directory : Directory) where
  abbrev pub identifiers_page : ℕ → Result SyncError (List HabState)
  identifiers_page iteration = directory.list (iteration * (24 + 1)) (24 + iteration * (24 + 1))

  unfoldable pub sync_individual : HabState → Method (Unit {0})
  sync_individual h = do
    op ← asked (directory.witness_operation h.prefix)
    save_if_pending witness op.name op.ended
    parsed ← read_name h.name (parse_hab_name h.name)
    detail ← asked (directory.get h.prefix)
    create_identifier_metadata_record (individual_record h parsed op detail)

  unfoldable pub sync_member : HabState → MemberHab → Method (Unit {0})
  sync_member h m = do
    detail ← asked (directory.get h.prefix)
    parsed ← read_name h.name (parse_hab_name h.name)
    op ← asked (directory.group_operation h.prefix)
    save_if_pending group op.name op.ended
    mhab_parsed ← read_name m.name (parse_hab_name m.name)
    g ← expected_group mhab_parsed.group_metadata
    mark_created m.prefix g
    create_identifier_metadata_record (group_record h m g parsed op detail)

  abbrev pub sync_group : HabState → Option MemberHab → Method (Unit {0})
  sync_group h none = pure tt
  sync_group h (some m) = sync_member h m

  unfoldable pub sync_individuals : List HabState → Method (Unit {0})
  sync_individuals [] = pure tt
  sync_individuals (h ∷ hs) = do sync_individual h; sync_individuals hs

  unfoldable pub sync_groups : List HabState → Method (Unit {0})
  sync_groups [] = pure tt
  sync_groups (h ∷ hs) = do sync_group h h.group; sync_groups hs

  abbrev pub sync_listed : List IdentifierMetadataRecord → List HabState → Method (Unit {0})
  sync_listed rs hs = do sync_individuals (without_group rs hs); sync_groups (with_group rs hs)

  abbrev pub sync_fetched_identifiers :
      Option (Result SyncError (List HabState)) → Method (Unit {0})
  sync_fetched_identifiers none s = (err out_of_fuel, s)
  sync_fetched_identifiers (some (err e)) s = (err e, s)
  sync_fetched_identifiers (some (ok hs)) s = sync_listed s.identifiers hs s

  -- `fuel` bounds the rounds of the loop over the pages.
  unfoldable pub sync_keria_identifiers : ℕ → Method (Unit {0})
  sync_keria_identifiers fuel = sync_fetched_identifiers (fetch_from identifiers_page fuel 0)
