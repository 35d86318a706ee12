-- ===== src/Connections/Deleting.antt =====
-- The deletions of `ConnectionService`.
use veridian_wallet.Base.{Bool, true, false, List, [], ◌∷◌, keep, String, Result, ok, err}
use veridian_wallet.Base.States.{◌>>=◌, ◌>>◌, pure}
use veridian_wallet.Base.Text.{codes, starts_with}
use veridian_wallet.Records
use veridian_wallet.Connections.Storing.{
  ContactRecord, ConnectionPairRecord, contact_class, pair_class, pair_id, concat,
  delete_by_id_if_exists, find_by_contact_id, find_by_identifier, get_connections_pending_deletion,
}
use veridian_wallet.Connections.Service.{
  ConnectionError, keria, connection_removed, Contacts, Method, in_contacts, in_pairs, expected,
  find_by_group_id,
}

-- How `contacts().delete(id)` ends: well, with status 404, or with another error.
pub data DeleteReply : Type 0 where
  deleted not_there : DeleteReply
  delete_failed : String → DeleteReply

-- How `contacts().get(id)` ends: with the keys of the contact, with status 404, or with another error.
pub data GetReply : Type 0 where
  contact_keys : List String → GetReply
  get_not_there : GetReply
  get_failed : String → GetReply

pub record ContactsClient (K : Type 0) : Type 0 where
  pub delete : String → K → DeleteReply × K
  pub get : String → K → GetReply × K
  -- `contacts().update(id, updates)` where each of the keys is updated to `null`.
  pub clear : String → List String → K → Result String (Unit {0}) × K

abbrev pub is_single : {A : Type 0} → List A → Bool
is_single [] = false
is_single (x ∷ []) = true
is_single (x ∷ y ∷ xs) = false

-- `key.startsWith(`${identifier}:`)`.
abbrev pub is_of_identifier : String → String → Bool
is_of_identifier identifier key = starts_with (codes (concat identifier ":")) (codes key)

abbrev pub delete_pair : {K : Type 0} → String → Method K (Unit {0})
delete_pair id s = in_pairs s (Records.delete_by_id pair_class id s.pairs)

abbrev pub delete_contact : {K : Type 0} → String → Method K (Unit {0})
delete_contact id s = in_contacts s (Records.delete_by_id contact_class id s.contacts)

abbrev pub expected_pair : {K : Type 0} → String → Method K ConnectionPairRecord
expected_pair id s = (expected (Records.find_by_id pair_class id s.pairs), s)

unfoldable pub mark_connection_pending_delete : {K : Type 0} → String → String → Method K (Unit {0})
mark_connection_pending_delete contact_id identifier = do
  pair ← expected_pair (pair_id identifier contact_id)
  (λ s. in_pairs s (Records.update pair_class (record pair { pending_deletion = true }) s.pairs))
  (λ s. (ok tt, record s { events = connection_removed contact_id identifier ∷ s.events }))

abbrev pub without_pairs : {K : Type 0} → String → List ConnectionPairRecord → Method K (Unit {0})
without_pairs id [] = delete_contact id
without_pairs id (p ∷ ps) = pure tt

unfoldable pub delete_stale_local_connection_by_id :
    {K : Type 0} → String → String → Method K (Unit {0})
delete_stale_local_connection_by_id id identifier = do
  delete_pair (pair_id identifier id)
  (λ s. without_pairs id (find_by_contact_id id s.pairs) s)

module _ {K : Type 0} (client : ContactsClient K) where
  abbrev pub then_contacts :
      (Contacts K → Result ConnectionError (Unit {0}) × Contacts K)
      → Contacts K
      → DeleteReply × K
      → Result ConnectionError (Unit {0}) × Contacts K
  then_contacts f s (delete_failed e, k) = (err (keria e), record s { cloud = k })
  then_contacts f s (_, k) = f (record s { cloud = k })

  abbrev pub delete_if_exists : String → Contacts K → Result ConnectionError (Unit {0}) × Contacts K
  delete_if_exists id s = in_contacts s (delete_by_id_if_exists id s.contacts)

  -- When the pair is the last one of the contact.
  abbrev pub delete_whole : String → Method K (Unit {0})
  delete_whole id s = then_contacts (delete_if_exists id) s (client.delete id s.cloud)

  abbrev pub cleared :
      Contacts K → Result String (Unit {0}) × K → Result ConnectionError (Unit {0}) × Contacts K
  cleared s (ok u, k) = (ok u, record s { cloud = k })
  cleared s (err e, k) = (err (keria e), record s { cloud = k })

  abbrev pub clear_keys :
      String → String → Contacts K → GetReply × K → Result ConnectionError (Unit {0}) × Contacts K
  clear_keys id identifier s (contact_keys ks, k) =
      cleared s (client.clear id (keep (is_of_identifier identifier) ks) k)
  clear_keys id identifier s (get_not_there, k) = (ok tt, record s { cloud = k })
  clear_keys id identifier s (get_failed e, k) = (err (keria e), record s { cloud = k })

  -- When the contact has other pairs.
  abbrev pub delete_fields : String → String → Method K (Unit {0})
  delete_fields id identifier s = clear_keys id identifier s (client.get id s.cloud)

  abbrev pub delete_contact_of : Bool → String → String → Method K (Unit {0})
  delete_contact_of true id identifier = delete_whole id
  delete_contact_of false id identifier = delete_fields id identifier

  unfoldable pub delete_connection_by_id_and_identifier : String → String → Method K (Unit {0})
  delete_connection_by_id_and_identifier contact_id identifier = do
    pair ← expected_pair (pair_id identifier contact_id)
    (λ s.
        delete_contact_of (is_single (find_by_contact_id contact_id s.pairs)) contact_id identifier
          s)
    delete_pair pair.id

  unfoldable pub delete_multisig_connection_by_id : String → Method K (Unit {0})
  delete_multisig_connection_by_id id s =
      then_contacts (delete_contact id) s (client.delete id s.cloud)

  unfoldable pub delete_pairs : List ConnectionPairRecord → Method K (Unit {0})
  delete_pairs [] = pure tt
  delete_pairs (p ∷ ps) = do
    delete_connection_by_id_and_identifier p.contact_id p.identifier
    delete_pairs ps

  unfoldable pub delete_contacts : List ContactRecord → Method K (Unit {0})
  delete_contacts [] = pure tt
  delete_contacts (c ∷ cs) = do delete_multisig_connection_by_id c.id; delete_contacts cs

  abbrev pub delete_and_return : List ConnectionPairRecord → Method K (List ConnectionPairRecord)
  delete_and_return ps = do delete_pairs ps; pure ps

  unfoldable pub remove_connections_pending_deletion : Method K (List ConnectionPairRecord)
  remove_connections_pending_deletion s =
      delete_and_return (get_connections_pending_deletion s.pairs) s

  unfoldable pub delete_all_connections_for_identifier : String → Method K (Unit {0})
  delete_all_connections_for_identifier identifier s =
      delete_pairs (find_by_identifier identifier s.pairs) s

  unfoldable pub delete_all_connections_for_group : String → Method K (Unit {0})
  delete_all_connections_for_group group_id s =
      delete_contacts (find_by_group_id group_id s.contacts) s
