-- ===== src/Credentials/Tests.antt =====
-- The credentials on concrete wallets.
use veridian_wallet.Base.{
  ◌≡◌, refl, Bool, true, false, not, List, [], ◌∷◌, keep, String, ok, err, take, drop, arith, ◌*◌,
  any, ◌===◌,
}
use veridian_wallet.Base.States.{◌>>◌}
use veridian_wallet.Store.Types.{CredentialStatus, IdentifierType}
use veridian_wallet.Records.{has}
use veridian_wallet.Credentials.{
  CredentialMetadataRecord, credential_class, Client, Reply, found, not_found, Wallet,
  CredentialError, CloudCredential, Listing, credential_metadata_of,
  delete_all_credentials_for_identifier, remove_credentials_pending_deletion,
  mark_credential_pending_deletion, sync_keria_credentials,
}
use veridian_wallet.Credentials.Deletion.{
  Deletes, deleted, absent, is_kept, delete_all_credentials_for_identifier_lem,
  remove_credentials_pending_deletion_lem, remove_credentials_pending_deletion-kept,
}
use veridian_wallet.Credentials.Marking.{mark_credential_pending_deletion-remove}
use veridian_wallet.Credentials.Sync.{sync_keria_credentials_lem}
use veridian_wallet.Credentials.Blocked.{sync_keria_credentials-blocked}

abbrev kept_record : CredentialMetadataRecord
kept_record = record {
  id = "EA1";
  is_archived = true;
  created_at = "2024";
  issuance_date = "2024";
  credential_type = "Ticket";
  status = CredentialStatus.confirmed;
  connection_id = "EIssuer";
  schema = "ESchema";
  identifier_id = "EMe";
  identifier_type = IdentifierType.individual;
  pending_deletion = false;
}

abbrev marked_record : CredentialMetadataRecord
marked_record = record kept_record { id = "EA2"; pending_deletion = true }

-- KERIA as the list of the credentials that it has.
abbrev drop_credential : String → List String → List String
drop_credential id ids = keep (λ i. not (i === id)) ids

abbrev reply : Bool → Reply
reply true = found
reply false = not_found

abbrev keria_client : Client (List String)
keria_client = record {
  delete = λ id ids. (reply (any (λ i. i === id) ids), drop_credential id ids);
  get = λ id ids. (reply (any (λ i. i === id) ids), ids);
}

abbrev wallet : Wallet (List String)
wallet = record {
  stored = marked_record ∷ kept_record ∷ [];
  cloud = "EA1" ∷ "EA2" ∷ [];
  events = [];
}

answers : (id : String) (ids : List String) → Deletes (keria_client.delete id ids)
answers id ids = here (any (λ i. i === id) ids)
  where
    here : (b : Bool) → Deletes (reply b, drop_credential id ids)
    here true = deleted (drop_credential id ids) refl
    here false = absent (drop_credential id ids) refl

delete_all_credentials_for_identifier_lem_example :
    delete_all_credentials_for_identifier keria_client "EMe" wallet ≡ (ok tt, wallet)
delete_all_credentials_for_identifier_lem_example =
    delete_all_credentials_for_identifier_lem keria_client "EMe" wallet

remove_credentials_pending_deletion_lem_example :
    (k : List String) × (remove_credentials_pending_deletion keria_client wallet
      ≡ (ok tt, record wallet { stored = kept_record ∷ []; cloud = k }))
remove_credentials_pending_deletion_lem_example =
    remove_credentials_pending_deletion_lem keria_client wallet answers (refl, (refl, tt))

remove_credentials_pending_deletion-kept_example :
    keep is_kept (remove_credentials_pending_deletion keria_client wallet).1.stored
    ≡ kept_record ∷ []
remove_credentials_pending_deletion-kept_example =
    remove_credentials_pending_deletion-kept keria_client wallet (refl, (refl, tt))

mark_credential_pending_deletion-remove_example :
    (v : Wallet (List String)) × ((mark_credential_pending_deletion "EA1"
          >> remove_credentials_pending_deletion keria_client)
        wallet
      ≡ (ok tt, v))
    × (has credential_class "EA1" v.stored ≡ false)
mark_credential_pending_deletion-remove_example =
    mark_credential_pending_deletion-remove keria_client kept_record wallet refl refl answers
      (refl, (refl, tt))

abbrev cloud_credential : CloudCredential
cloud_credential = record {
  said = "EA3";
  issuer = "EIssuer";
  registry = "EReg";
  holder = "EMe";
  dt = "2024";
  title = "Ticket";
  schema_id = "ESchema";
}

abbrev cloud_marked : CloudCredential
cloud_marked = record cloud_credential { said = "EA2" }

abbrev listing_of : List CloudCredential → Listing
listing_of cs = record {
  page = λ k. ok (take 24 (drop (k * 24) cs));
  is_group = λ i. ok false;
  is_issued = λ r d. ok true;
  date = λ dt. dt;
}

abbrev listing : Listing
listing = listing_of (cloud_credential ∷ [])

sync_keria_credentials_lem_example : sync_keria_credentials listing 5 ("EMe" ∷ []) wallet ≡ (
  ok tt,
  record wallet {
    stored =
        marked_record
        ∷ kept_record
        ∷ credential_metadata_of listing cloud_credential false true
        ∷ [];
  },
)
sync_keria_credentials_lem_example =
    sync_keria_credentials_lem listing (λ i. false) (λ r d. true) (cloud_credential ∷ []) "EMe" [] 5
      wallet (λ i. refl) (λ r d. refl) (λ k. refl) (omega arith) (refl, tt) (refl, tt)

sync_keria_credentials-blocked_example :
    (e : CredentialError) × (v : Wallet (List String)) × (sync_keria_credentials
        (listing_of (cloud_marked ∷ []))
        5
        ("EMe" ∷ [])
        wallet
      ≡ (err e, v))
sync_keria_credentials-blocked_example =
    sync_keria_credentials-blocked (listing_of (cloud_marked ∷ [])) (cloud_marked ∷ []) "EMe" [] 5
      wallet (λ k. refl) (omega arith) (refl, (refl, tt)) refl
