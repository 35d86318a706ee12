-- ===== src/Credentials/Service.antt =====
-- `CredentialService`, less the synchronisation. What signify-ts keeps is a parameter, with the calls
-- that are made of it.
use veridian_wallet.Base.{
  ℕ, zero, suc, Bool, true, false, Option, none, some, List, [], ◌∷◌, map, String, Result, ok, err,
  if◌then◌else◌,
}
use veridian_wallet.Base.States.{Action, ◌>>=◌, ◌>>◌, pure, throw}
use veridian_wallet.Storage.{StorageError}
use veridian_wallet.Store.Types.{CredentialStatus, CredentialShortDetails}
use veridian_wallet.Credentials.Storing.{
  CredentialMetadataRecord, Stored, CredentialUpdate, no_update, get_all_credential_metadata,
  get_credential_metadata, delete_credential_metadata, update_credential_metadata,
  get_credentials_pending_deletion,
}

-- How a call for one credential ends: well, with status 404, or with another error.
pub data Reply : Type 0 where
  found not_found : Reply
  failed : String → Reply

pub data CredentialError : Type 0 where
  credential_missing_metadata : CredentialError
  credential_not_archived : String → CredentialError
  credential_not_ready_on_keria : CredentialError
  keria : String → CredentialError
  storage : StorageError → CredentialError
  out_of_fuel : CredentialError

-- The events that are emitted.
pub data CredentialEvent : Type 0 where
  credential_removed : String → CredentialEvent
  acdc_state_changed : CredentialStatus → CredentialShortDetails → CredentialEvent

pub record Client (K : Type 0) : Type 0 where
  -- `credentials().delete(id)` and `credentials().get(id)`.
  pub delete : String → K → Reply × K
  pub get : String → K → Reply × K

-- `getCredentialShortDetails`.
abbrev pub get_credential_short_details : CredentialMetadataRecord → CredentialShortDetails
get_credential_short_details r = record {
  id = r.id;
  is_archived = none;
  issuance_date = r.issuance_date;
  credential_type = r.credential_type;
  status = r.status;
  connection_id = r.connection_id;
  schema = r.schema;
  identifier_id = r.identifier_id;
  identifier_type = r.identifier_type;
  pending_deletion = none;
}

-- The credentials on record, what KERIA keeps, and the events, the last one first.
pub record Wallet (K : Type 0) : Type 0 where
  pub stored : Stored
  pub cloud : K
  pub events : List CredentialEvent

abbrev pub Method : Type 0 → Type 0 → Type 0
Method K A = Action (Wallet K) CredentialError A

abbrev pub in_stored :
    {K A : Type 0} → Wallet K → Result StorageError A × Stored → Result CredentialError A × Wallet K
in_stored w (ok a, rs) = (ok a, record w { stored = rs })
in_stored w (err e, rs) = (err (storage e), record w { stored = rs })

abbrev pub update_in_wallet : {K : Type 0} → String → CredentialUpdate → Method K (Unit {0})
update_in_wallet id u w = in_stored w (update_credential_metadata id u w.stored)

abbrev pub emit : {K : Type 0} → CredentialEvent → Method K (Unit {0})
emit e w = (ok tt, record w { events = e ∷ w.events })

abbrev pub expected :
    {K : Type 0} → Option CredentialMetadataRecord → Method K CredentialMetadataRecord
expected none = throw credential_missing_metadata
expected (some r) = pure r

unfoldable pub get_metadata_by_id : {K : Type 0} → String → Method K CredentialMetadataRecord
get_metadata_by_id id w = expected (get_credential_metadata id w.stored) w

unfoldable pub get_credentials : Bool → Stored → List CredentialShortDetails
get_credentials archived rs =
    map get_credential_short_details (get_all_credential_metadata (some archived) none rs)

unfoldable pub archive_credential : {K : Type 0} → String → Method K (Unit {0})
archive_credential id = update_in_wallet id (record no_update { is_archived = some true })

abbrev pub valid_archived_credential : {K : Type 0} → CredentialMetadataRecord → Method K (Unit {0})
valid_archived_credential r =
    if r.is_archived then pure tt else throw (credential_not_archived r.id)

unfoldable pub restore_credential : {K : Type 0} → String → Method K (Unit {0})
restore_credential id = do
  metadata ← get_metadata_by_id id
  valid_archived_credential metadata
  update_in_wallet id (record no_update { is_archived = some false })

unfoldable pub mark_credential_pending_deletion : {K : Type 0} → String → Method K (Unit {0})
mark_credential_pending_deletion id = do
  metadata ← get_metadata_by_id id
  valid_archived_credential metadata
  update_in_wallet id (record no_update { pending_deletion = some true })
  emit (credential_removed id)

module _ {K : Type 0} (client : Client K) where
  abbrev pub after_delete :
      String → Wallet K → Reply × K → Result CredentialError (Unit {0}) × Wallet K
  after_delete id w (failed e, k) = (err (keria e), record w { cloud = k })
  after_delete id w (_, k) =
      in_stored (record w { cloud = k }) (delete_credential_metadata id w.stored)

  unfoldable pub delete_credential : String → Method K (Unit {0})
  delete_credential id w = after_delete id w (client.delete id w.cloud)

  unfoldable pub delete_each : List CredentialMetadataRecord → Method K (Unit {0})
  delete_each [] = pure tt
  delete_each (r ∷ rs) = do delete_credential r.id; delete_each rs

  unfoldable pub delete_all_credentials_for_identifier : String → Method K (Unit {0})
  delete_all_credentials_for_identifier identifier_id w =
      delete_each (get_all_credential_metadata none (some identifier_id) w.stored) w

  unfoldable pub remove_credentials_pending_deletion : Method K (Unit {0})
  remove_credentials_pending_deletion w = delete_each (get_credentials_pending_deletion w.stored) w

  -- An attempt with `left` attempts after it.
  abbrev pub after_attempt : ℕ → Reply → Method K (Unit {0}) → Method K (Unit {0})
  after_attempt left found again = pure tt
  after_attempt zero not_found again = throw credential_not_ready_on_keria
  after_attempt (suc n) not_found again = again
  after_attempt left (failed e) again = throw (keria e)

  unfoldable pub attempts : ℕ → String → Method K (Unit {0})
  attempts zero id w =
      let (reply, k) = client.get id w.cloud in
      after_attempt zero reply (pure tt) (record w { cloud = k })
  attempts (suc n) id w =
      let (reply, k) = client.get id w.cloud in
      after_attempt (suc n) reply (attempts n id) (record w { cloud = k })

  -- CREDENTIAL_FETCH_MAX_RETRIES is 3.
  abbrev pub ensure_credential_available : String → Method K (Unit {0})
  ensure_credential_available id = attempts 2 id

  abbrev pub ensured : CredentialStatus → String → Method K (Unit {0})
  ensured CredentialStatus.confirmed id = ensure_credential_available id
  ensured CredentialStatus.pending id = pure tt
  ensured CredentialStatus.revoked id = pure tt

  -- `updateCredentialMetadata(metadata.id, metadata)`: every property is given.
  abbrev pub whole : CredentialMetadataRecord → CredentialUpdate
  whole r = record {
    is_archived = some r.is_archived;
    status = some r.status;
    credential_type = some r.credential_type;
    pending_deletion = some r.pending_deletion;
  }

  abbrev pub mark_found : CredentialStatus → CredentialMetadataRecord → Method K (Unit {0})
  mark_found status r = do
    ensured status r.id
    update_in_wallet r.id (whole (record r { status = status }))
    emit (acdc_state_changed status (get_credential_short_details (record r { status = status })))

  unfoldable pub mark_acdc : String → CredentialStatus → Method K (Unit {0})
  mark_acdc id status = do metadata ← get_metadata_by_id id; mark_found status metadata
