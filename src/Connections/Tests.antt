-- ===== src/Connections/Tests.antt =====
-- The connections on concrete states.
use veridian_wallet.Base.{
  ◌≡◌, refl, Bool, true, false, not, none, some, List, [], ◌∷◌, keep, String, ok, err, ◌===◌,
}
use veridian_wallet.Store.Types.{CreationStatus}
use veridian_wallet.Base.Text.{split, string_of}
use veridian_wallet.Storage.Query.{check_query}
use veridian_wallet.Records
use veridian_wallet.Records.{has}
use veridian_wallet.Connections.{
  ContactRecord, ConnectionPairRecord, contact_class, pair_class, pair_id, ConnectionError,
  record_does_not_exist, Contacts, ConnectionShortDetails, ConnectionMetadata,
  create_connection_metadata, DeleteReply, GetReply, contact_keys, get_not_there, not_there,
  ContactsClient, get_connections, mark_connection_pending_delete,
  delete_connection_by_id_and_identifier, delete_multisig_connection_by_id,
  remove_connections_pending_deletion, CloudContact, sync_keria_contacts, aid_of_key,
}
use veridian_wallet.Connections
use veridian_wallet.Connections.Steps.{IsLinked}
use veridian_wallet.Connections.Synced.{initial, marked, Reached-IsLinked}
use veridian_wallet.Connections.Listed.{
  Describe, is_listed, get_connections-Describe, delete_multisig_connection_by_id-orphan,
}
use veridian_wallet.Connections.Removed.{
  Answers, deletes, gets_contact, remove_connections_pending_deletion_lem,
}

abbrev alice : ContactRecord
alice = record {
  id = "EAlice";
  created_at = "2024";
  alias = "Alice";
  oobi = "http://a";
  group_id = none;
}

abbrev pair_of : String → Bool → ConnectionPairRecord
pair_of identifier pending = record {
  id = pair_id identifier "EAlice";
  created_at = "2024";
  contact_id = "EAlice";
  identifier = identifier;
  alias = "Alice";
  creation_status = CreationStatus.complete;
  pending_deletion = pending;
}

-- KERIA as the list of the contacts that it has.
abbrev client : ContactsClient (List String)
client = record {
  delete = λ id k. (Connections.deleted, keep (λ i. not (i === id)) k);
  get = λ id k. (contact_keys ("EMe:alias" ∷ []), k);
  clear = λ id ks k. (ok tt, k);
}

answers : Answers client
answers = record {
  on_delete = λ id k. deletes (keep (λ i. not (i === id)) k) refl;
  on_get = λ id k. gets_contact ("EMe:alias" ∷ []) k refl;
  on_clear = λ id ks k. (k, refl);
}

abbrev state : Contacts (List String)
state = record {
  contacts = alice ∷ [];
  pairs = pair_of "EMe" true ∷ pair_of "EWork" false ∷ [];
  cloud = "EAlice" ∷ [];
  events = [];
}

state-IsLinked : IsLinked state
state-IsLinked = (refl, (refl, tt))

-- The contact goes with its last pair.
abbrev after_both : Contacts (List String)
after_both =
    (delete_connection_by_id_and_identifier client "EAlice" "EWork"
      (delete_connection_by_id_and_identifier client "EAlice" "EMe" state).1).1

contacts_of_after_both : (after_both.contacts ≡ []) × (after_both.pairs ≡ [])
unfolding delete_connection_by_id_and_identifier Connections.find_by_contact_id
    Connections.delete_by_id_if_exists pair_id Records.delete_by_id check_query
contacts_of_after_both = (refl, refl)

Reached-IsLinked_example : IsLinked (mark_connection_pending_delete "EAlice" "EWork" state).1
Reached-IsLinked_example =
    Reached-IsLinked client state (mark_connection_pending_delete "EAlice" "EWork" state).1
      state-IsLinked (marked state "EAlice" "EWork" initial)

get_connections-Describe_example :
    (ds : List ConnectionShortDetails) × (get_connections (some "EWork") state ≡ ok ds)
    × Describe (alice ∷ []) (keep (is_listed (some "EWork")) state.pairs) ds
get_connections-Describe_example = get_connections-Describe (some "EWork") state state-IsLinked

delete_multisig_connection_by_id-orphan_example :
    ((delete_multisig_connection_by_id client "EAlice" state).0 ≡ ok tt)
    × (get_connections none (delete_multisig_connection_by_id client "EAlice" state).1
        ≡ err record_does_not_exist)
delete_multisig_connection_by_id-orphan_example =
    delete_multisig_connection_by_id-orphan client "EAlice" state [] refl refl refl

remove_connections_pending_deletion_lem_example :
    (t : Contacts (List String)) × (remove_connections_pending_deletion client state
      ≡ (ok (pair_of "EMe" true ∷ []), t))
    × (t.pairs ≡ pair_of "EWork" false ∷ [])
unfolding pair_id
remove_connections_pending_deletion_lem_example =
    remove_connections_pending_deletion_lem client answers state (refl, (refl, tt))
      (refl, (refl, tt))

-- "EMe:createdAt" is a key of a pair, "createdAt" and "EMe:alias" are none.
aid_of_key_tests :
    (aid_of_key "EMe:createdAt" ≡ some "EMe")
    × (aid_of_key "createdAt" ≡ none)
    × (aid_of_key "EMe:alias" ≡ none)
unfolding aid_of_key split string_of
aid_of_key_tests = (refl, refl, refl)
