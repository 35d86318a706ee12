-- ===== src/Credentials/Storing.antt =====
-- `CredentialMetadataRecord` and `CredentialStorage`.
use veridian_wallet.Base.{Bool, true, false, Option, none, some, List, [], ◌∷◌, String}
use veridian_wallet.Base.States.{pure}
use veridian_wallet.Storage.{text, flag, Tags}
use veridian_wallet.Storage.Query.{Query, done, tag, or_of, Queries, end, next}
use veridian_wallet.Store.Types.{CredentialStatus, IdentifierType}
use veridian_wallet.Records
use veridian_wallet.Records.{Class}

-- `_tags` is empty: no one sets it.
pub record CredentialMetadataRecord : Type 0 where
  pub id : String
  pub is_archived : Bool
  pub created_at : String
  pub issuance_date : String
  pub credential_type : String
  pub status : CredentialStatus
  pub connection_id : String
  pub schema : String
  pub identifier_id : String
  pub identifier_type : IdentifierType
  pub pending_deletion : Bool

abbrev pub get_tags : CredentialMetadataRecord → Tags
get_tags r =
    ("isArchived", flag r.is_archived)
    ∷ ("pendingDeletion", flag r.pending_deletion)
    ∷ ("connectionId", text r.connection_id)
    ∷ ("id", text r.id)
    ∷ []

abbrev pub credential_class : Class CredentialMetadataRecord
credential_class = record { id_of = λ r. r.id; get_tags = get_tags }

abbrev pub Stored : Type 0
Stored = List CredentialMetadataRecord

-- `...(isArchived !== undefined ? { isArchived } : {})`.
abbrev pub with_flag : String → Option Bool → Query → Query
with_flag k none q = q
with_flag k (some b) q = tag k (flag b) q

abbrev pub with_text : String → Option String → Query → Query
with_text k none q = q
with_text k (some s) q = tag k (text s) q

unfoldable pub get_all_credential_metadata : Option Bool → Option String → Stored → Stored
get_all_credential_metadata is_archived identifier_id = Records.find_all_by_query credential_class (
    with_flag "isArchived" is_archived
      (with_text "identifierId" identifier_id (tag "pendingDeletion" (flag false) done)))

abbrev pub get_credential_metadata : String → Stored → Option CredentialMetadataRecord
get_credential_metadata id rs = Records.find_by_id credential_class id rs

abbrev pub save_credential_metadata_record :
    CredentialMetadataRecord → Records.Records credential_class (Unit {0})
save_credential_metadata_record r = Records.save credential_class r

abbrev pub delete_credential_metadata : String → Records.Records credential_class (Unit {0})
delete_credential_metadata id = Records.delete_by_id credential_class id

-- The properties that an update gives.
pub record CredentialUpdate : Type 0 where
  pub is_archived : Option Bool
  pub status : Option CredentialStatus
  pub credential_type : Option String
  pub pending_deletion : Option Bool

abbrev pub no_update : CredentialUpdate
no_update = record {
  is_archived = none;
  status = none;
  credential_type = none;
  pending_deletion = none;
}

abbrev pub given : {A : Type 0} → Option A → A → A
given none a = a
given (some b) a = b

abbrev pub updated : CredentialUpdate → CredentialMetadataRecord → CredentialMetadataRecord
updated u r = record r {
  is_archived = given u.is_archived r.is_archived;
  status = given u.status r.status;
  credential_type = given u.credential_type r.credential_type;
  pending_deletion = given u.pending_deletion r.pending_deletion;
}

abbrev pub update_found :
    CredentialUpdate → Option CredentialMetadataRecord → Records.Records credential_class (Unit {0})
update_found u none = pure tt
update_found u (some r) = Records.update credential_class (updated u r)

unfoldable pub update_credential_metadata :
    String → CredentialUpdate → Records.Records credential_class (Unit {0})
update_credential_metadata id u rs = update_found u (get_credential_metadata id rs) rs

abbrev pub one_of_ids : List String → Queries
one_of_ids [] = end
one_of_ids (id ∷ ids) = next (tag "id" (text id) done) (one_of_ids ids)

-- `{ $or: ids.map((id) => ({ id })), ...query }`, for a query without `$or`.
unfoldable pub get_credential_metadatas_by_id : List String → Query → Stored → Stored
get_credential_metadatas_by_id [] q rs = []
get_credential_metadatas_by_id (id ∷ ids) q rs =
    Records.find_all_by_query credential_class (or_of (one_of_ids (id ∷ ids)) q) rs

unfoldable pub get_credentials_pending_deletion : Stored → Stored
get_credentials_pending_deletion =
    Records.find_all_by_query credential_class (tag "pendingDeletion" (flag true) done)
