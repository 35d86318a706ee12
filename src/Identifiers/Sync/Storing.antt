-- ===== src/Identifiers/Sync/Storing.antt =====
-- `IdentifierMetadataRecord` and `OperationPendingRecord` with their storages.
use veridian_wallet.Base.{ℕ, Bool, true, false, Option, none, some, List, [], ◌∷◌, String}
use veridian_wallet.Base.Text.{Text, string_of}
use veridian_wallet.Storage.{TagValue, text, flag, undefined, Tags}
use veridian_wallet.Storage.Query.{done, tag, not_of}
use veridian_wallet.Store.Types.{CreationStatus}
use veridian_wallet.Records
use veridian_wallet.Records.{Class}
use veridian_wallet.Identifiers.Naming.{NewGroup}

-- A theme is `none` where it is NaN or negative. `_tags` is empty.
pub record IdentifierMetadataRecord : Type 0 where
  pub id : String
  pub created_at : String
  pub display_name : Text
  pub theme : Option ℕ
  pub creation_status : CreationStatus
  pub is_deleted : Bool
  pub pending_deletion : Bool
  pub pending_update : Bool
  pub group_member_pre : Option String
  pub group_metadata : Option NewGroup
  pub group_username : Option Text
  pub sxlt : Option String

abbrev pub group_id_tag : Option NewGroup → TagValue
group_id_tag none = undefined
group_id_tag (some g) = text (string_of g.part.group_id)

abbrev pub group_created_tag : Option NewGroup → TagValue
group_created_tag none = undefined
group_created_tag (some g) = flag g.group_created

abbrev pub status_text : CreationStatus → String
status_text CreationStatus.pending = "PENDING"
status_text CreationStatus.complete = "COMPLETE"
status_text CreationStatus.failed = "FAILED"

abbrev pub identifier_tags : IdentifierMetadataRecord → Tags
identifier_tags r =
    ("groupId", group_id_tag r.group_metadata)
    ∷ ("isDeleted", flag r.is_deleted)
    ∷ ("creationStatus", text (status_text r.creation_status))
    ∷ ("groupCreated", group_created_tag r.group_metadata)
    ∷ ("pendingDeletion", flag r.pending_deletion)
    ∷ ("pendingUpdate", flag r.pending_update)
    ∷ []

abbrev pub identifier_class : Class IdentifierMetadataRecord
identifier_class = record { id_of = λ r. r.id; get_tags = identifier_tags }

pub data OperationType : Type 0 where
  witness group oobi receive_credential offer_credential present_credential : OperationType

pub record OperationPendingRecord : Type 0 where
  pub id : String
  pub record_type : OperationType

abbrev pub operation_type_text : OperationType → String
operation_type_text witness = "witness"
operation_type_text group = "group"
operation_type_text oobi = "oobi"
operation_type_text receive_credential = "exchange.receivecredential"
operation_type_text offer_credential = "exchange.offercredential"
operation_type_text present_credential = "exchange.presentcredential"

abbrev pub operation_class : Class OperationPendingRecord
operation_class = record {
  id_of = λ r. r.id;
  get_tags = λ r. ("recordType", text (operation_type_text r.record_type)) ∷ [];
}

unfoldable pub get_identifier_records :
    List IdentifierMetadataRecord → List IdentifierMetadataRecord
get_identifier_records =
    Records.find_all_by_query identifier_class
      (tag "isDeleted" (flag false) (tag "pendingDeletion" (flag false) done))

unfoldable pub get_user_facing_identifier_records :
    List IdentifierMetadataRecord → List IdentifierMetadataRecord
get_user_facing_identifier_records = Records.find_all_by_query identifier_class (
    tag "isDeleted" (flag false)
      (tag "pendingDeletion" (flag false) (not_of (tag "groupCreated" (flag true) done) done)))
