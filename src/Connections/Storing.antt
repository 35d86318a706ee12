-- ===== src/Connections/Storing.antt =====
-- `ContactRecord` and `ConnectionPairRecord` with their storages.
use veridian_wallet.Base.{Bool, true, Option, none, some, List, [], ◌∷◌, String, Result, ok, err}
use veridian_wallet.Storage.{TagValue, text, flag, undefined, Tags, StorageError, does_not_exist}
use veridian_wallet.Storage.Query.{done, tag}
use veridian_wallet.Store.Types.{CreationStatus}
use veridian_wallet.Records
use veridian_wallet.Records.{Class}

-- `_tags` of both is empty: no one sets it.
pub record ContactRecord : Type 0 where
  pub id : String
  pub created_at : String
  pub alias : String
  pub oobi : String
  pub group_id : Option String

pub record ConnectionPairRecord : Type 0 where
  pub id : String
  pub created_at : String
  pub contact_id : String
  pub identifier : String
  pub alias : String
  pub creation_status : CreationStatus
  pub pending_deletion : Bool

abbrev pub text_or_undefined : Option String → TagValue
text_or_undefined none = undefined
text_or_undefined (some s) = text s

abbrev pub creation_status_text : CreationStatus → String
creation_status_text CreationStatus.pending = "PENDING"
creation_status_text CreationStatus.complete = "COMPLETE"
creation_status_text CreationStatus.failed = "FAILED"

abbrev pub contact_tags : ContactRecord → Tags
contact_tags r = ("groupId", text_or_undefined r.group_id) ∷ []

abbrev pub pair_tags : ConnectionPairRecord → Tags
pair_tags r =
    ("contactId", text r.contact_id)
    ∷ ("identifier", text r.identifier)
    ∷ ("pendingDeletion", flag r.pending_deletion)
    ∷ ("creationStatus", text (creation_status_text r.creation_status))
    ∷ []

abbrev pub contact_class : Class ContactRecord
contact_class = record { id_of = λ r. r.id; get_tags = contact_tags }

abbrev pub pair_class : Class ConnectionPairRecord
pair_class = record { id_of = λ r. r.id; get_tags = pair_tags }

-- `${a}${b}`.
abbrev pub concat : String → String → String
concat String.[] b = b
concat (String.◌∷◌ c a) b = String.◌∷◌ c (concat a b)

-- `${identifier}:${contactId}`.
unfoldable pub pair_id : String → String → String
pair_id identifier contact_id = concat identifier (concat ":" contact_id)

abbrev pub if_exists :
    Result StorageError (Unit {0}) × List ContactRecord
    → Result StorageError (Unit {0}) × List ContactRecord
if_exists (ok u, rs) = (ok u, rs)
if_exists (err (does_not_exist k), rs) = (ok tt, rs)
if_exists (err e, rs) = (err e, rs)

-- `ContactStorage.deleteByIdIfExists`.
unfoldable pub delete_by_id_if_exists : String → Records.Records contact_class (Unit {0})
delete_by_id_if_exists id rs = if_exists (Records.delete_by_id contact_class id rs)

-- `findByContactId` and `findByIdentifier` of `ConnectionPairStorage`.
unfoldable pub find_by_contact_id : String → List ConnectionPairRecord → List ConnectionPairRecord
find_by_contact_id contact_id =
    Records.find_all_by_query pair_class (tag "contactId" (text contact_id) done)

unfoldable pub find_by_identifier : String → List ConnectionPairRecord → List ConnectionPairRecord
find_by_identifier identifier =
    Records.find_all_by_query pair_class (tag "identifier" (text identifier) done)

unfoldable pub get_connections_pending_deletion :
    List ConnectionPairRecord → List ConnectionPairRecord
get_connections_pending_deletion =
    Records.find_all_by_query pair_class (tag "pendingDeletion" (flag true) done)
