-- ===== src/Credentials/Syncing.antt =====
-- `syncKeriaCredentials`. What KERIA answers is a parameter.
use veridian_wallet.Base.{
  ℕ, Bool, false, not, Option, none, some, List, [], ◌∷◌, String, Result, ok, err, any, keep, ◌===◌,
  if◌then◌else◌,
}
use veridian_wallet.Base.States.{◌>>◌, pure}
use veridian_wallet.Store.Types.{CredentialStatus, IdentifierType}
use veridian_wallet.Records.Paging.{fetch_from}
use veridian_wallet.Credentials.Storing.{
  CredentialMetadataRecord, Stored, get_all_credential_metadata, save_credential_metadata_record,
}
use veridian_wallet.Credentials.Service.{CredentialError, keria, out_of_fuel, Method, in_stored}

-- What is read of a credential at KERIA: `sad.d`, `sad.i`, `sad.ri`, `sad.a.i`, `sad.a.dt`, and the
-- title and the identifier of its schema.
pub record CloudCredential : Type 0 where
  pub said : String
  pub issuer : String
  pub registry : String
  pub holder : String
  pub dt : String
  pub title : String
  pub schema_id : String

pub record Listing : Type 0 where
  -- `credentials().list` for a number of pages to skip.
  pub page : ℕ → Result CredentialError (List CloudCredential)
  -- Whether `identifiers().get` gives a group.
  pub is_group : String → Result String Bool
  -- Whether `credentials().state(ri, d)` is `Ilks.iss`.
  pub is_issued : String → String → Result String Bool
  -- `new Date(dt)` as text.
  pub date : String → String

abbrev pub is_local : List String → CloudCredential → Bool
is_local ids c = any (λ id. id === c.holder) ids

abbrev pub is_on_record : Stored → CloudCredential → Bool
is_on_record rs c = any (λ r. c.said === r.id) rs

unfoldable pub unsynced : List String → Stored → List CloudCredential → List CloudCredential
unsynced ids rs cs =
    keep (λ c. not (is_on_record (get_all_credential_metadata none none rs) c))
      (keep (is_local ids) cs)

module _ (listing : Listing) where
  abbrev pub credential_metadata_of : CloudCredential → Bool → Bool → CredentialMetadataRecord
  credential_metadata_of c group issued = record {
    id = c.said;
    is_archived = false;
    created_at = listing.date c.dt;
    issuance_date = listing.date c.dt;
    credential_type = c.title;
    status = if issued then CredentialStatus.confirmed else CredentialStatus.revoked;
    connection_id = c.issuer;
    schema = c.schema_id;
    identifier_id = c.holder;
    identifier_type = if group then IdentifierType.group else IdentifierType.individual;
    pending_deletion = false;
  }

  abbrev pub create_with :
      {K : Type 0} → CloudCredential → Result String Bool → Result String Bool → Method K (Unit {0})
  create_with c (err e) issued w = (err (keria e), w)
  create_with c (ok group) (err e) w = (err (keria e), w)
  create_with c (ok group) (ok issued) w =
      in_stored w (save_credential_metadata_record (credential_metadata_of c group issued) w.stored)

  unfoldable pub create_each : {K : Type 0} → List CloudCredential → Method K (Unit {0})
  create_each [] = pure tt
  create_each (c ∷ cs) = do
    create_with c (listing.is_group c.holder) (listing.is_issued c.registry c.said)
    create_each cs

  abbrev pub sync_fetched :
      {K : Type 0}
      → List String
      → Option (Result CredentialError (List CloudCredential))
      → Method K (Unit {0})
  sync_fetched ids none w = (err out_of_fuel, w)
  sync_fetched ids (some (err e)) w = (err e, w)
  sync_fetched ids (some (ok cs)) w = create_each (unsynced ids w.stored cs) w

  -- `ids` are the identifiers on record; `fuel` bounds the rounds of the loop over the pages.
  unfoldable pub sync_keria_credentials : {K : Type 0} → ℕ → List String → Method K (Unit {0})
  sync_keria_credentials fuel [] = pure tt
  sync_keria_credentials fuel (id ∷ ids) = sync_fetched (id ∷ ids) (fetch_from listing.page fuel 0)
