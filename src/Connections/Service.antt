-- ===== src/Connections/Service.antt =====
-- What `ConnectionService` reads and makes of the records. What KERIA keeps is a parameter.
use veridian_wallet.Base.{
  Bool, true, false, Option, none, some, List, [], ◌∷◌, map, String, Result, ok, err, ◌===◌,
  if◌then◌else◌,
}
use veridian_wallet.Base.States.{Action, ◌>>◌, pure}
use veridian_wallet.Storage.{text, flag, undefined, StorageError}
use veridian_wallet.Storage.Query.{Query, done, tag, not_of}
use veridian_wallet.Store.Types.{
  CreationStatus, ConnectionStatus, RegularConnectionDetails, MultisigConnectionDetails,
}
use veridian_wallet.Records
use veridian_wallet.Connections.Storing.{
  ContactRecord, ConnectionPairRecord, contact_class, pair_class, pair_id,
}

-- `record_does_not_exist` is the message without an identifier, of `findExpectedById`.
pub data ConnectionError : Type 0 where
  record_does_not_exist : ConnectionError
  storage : StorageError → ConnectionError
  keria : String → ConnectionError

pub data ConnectionEvent : Type 0 where
  connection_removed : String → String → ConnectionEvent

-- The two tables, what KERIA keeps, and the events, the last one first.
pub record Contacts (K : Type 0) : Type 0 where
  pub contacts : List ContactRecord
  pub pairs : List ConnectionPairRecord
  pub cloud : K
  pub events : List ConnectionEvent

abbrev pub Method : Type 0 → Type 0 → Type 0
Method K A = Action (Contacts K) ConnectionError A

abbrev pub in_contacts :
    {K A : Type 0}
    → Contacts K
    → Result StorageError A × List ContactRecord
    → Result ConnectionError A × Contacts K
in_contacts s (ok a, rs) = (ok a, record s { contacts = rs })
in_contacts s (err e, rs) = (err (storage e), record s { contacts = rs })

abbrev pub in_pairs :
    {K A : Type 0}
    → Contacts K
    → Result StorageError A × List ConnectionPairRecord
    → Result ConnectionError A × Contacts K
in_pairs s (ok a, rs) = (ok a, record s { pairs = rs })
in_pairs s (err e, rs) = (err (storage e), record s { pairs = rs })

abbrev pub expected : {R : Type 0} → Option R → Result ConnectionError R
expected none = err record_does_not_exist
expected (some r) = ok r

abbrev pub expected_contact : String → List ContactRecord → Result ConnectionError ContactRecord
expected_contact id rs = expected (Records.find_by_id contact_class id rs)

-- `ContactDetailsRecord`.
pub record ContactDetails : Type 0 where
  pub id : String
  pub alias : String
  pub created_at : String
  pub oobi : String
  pub group_id : Option String
  pub creation_status : Option CreationStatus
  pub identifier : Option String

pub data ConnectionShortDetails : Type 0 where
  regular : RegularConnectionDetails → ConnectionShortDetails
  multisig : MultisigConnectionDetails → ConnectionShortDetails

abbrev pub connection_status : Option CreationStatus → ConnectionStatus
connection_status (some CreationStatus.complete) = ConnectionStatus.confirmed
connection_status (some CreationStatus.failed) = ConnectionStatus.failed
connection_status (some CreationStatus.pending) = ConnectionStatus.pending
connection_status none = ConnectionStatus.pending

-- `identifier || ""`.
abbrev pub identifier_or_empty : Option String → String
identifier_or_empty none = ""
identifier_or_empty (some s) = s

abbrev pub details_in : Option String → ContactDetails → ConnectionShortDetails
details_in (some group_id) r = multisig (record {
  id = r.id;
  label = r.alias;
  created_at_utc = r.created_at;
  status = connection_status r.creation_status;
  logo = none;
  oobi = some r.oobi;
  contact_id = r.id;
  group_id = group_id;
  has_accepted = none;
})
details_in none r = regular (record {
  id = r.id;
  label = r.alias;
  created_at_utc = r.created_at;
  status = connection_status r.creation_status;
  logo = none;
  oobi = some r.oobi;
  contact_id = r.id;
  identifier = identifier_or_empty r.identifier;
})

unfoldable pub get_connection_short_details : ContactDetails → ConnectionShortDetails
get_connection_short_details r = details_in r.group_id r

abbrev pub contact_details : ContactRecord → ContactDetails
contact_details c = record {
  id = c.id;
  alias = c.alias;
  created_at = c.created_at;
  oobi = c.oobi;
  group_id = c.group_id;
  creation_status = none;
  identifier = none;
}

-- `contact.groupId ? contact.alias : connectionPair.alias`: the empty text is falsy.
abbrev pub connection_alias : Option String → ContactRecord → ConnectionPairRecord → String
connection_alias none c p = p.alias
connection_alias (some g) c p = if g === "" then p.alias else c.alias

abbrev pub pair_details : ContactRecord → ConnectionPairRecord → ContactDetails
pair_details c p = record {
  id = p.contact_id;
  alias = connection_alias c.group_id c p;
  created_at = p.created_at;
  oobi = c.oobi;
  group_id = c.group_id;
  creation_status = some p.creation_status;
  identifier = some p.identifier;
}

abbrev pub push_details :
    ConnectionPairRecord
    → Result ConnectionError ContactRecord
    → Result ConnectionError (List ConnectionShortDetails)
    → Result ConnectionError (List ConnectionShortDetails)
push_details p (err e) rest = err e
push_details p (ok c) (err e) = err e
push_details p (ok c) (ok ds) = ok (get_connection_short_details (pair_details c p) ∷ ds)

-- The map of the contacts that were read is left out: they do not change in between.
unfoldable pub details_of_pairs :
    List ContactRecord
    → List ConnectionPairRecord
    → Result ConnectionError (List ConnectionShortDetails)
details_of_pairs contacts [] = ok []
details_of_pairs contacts (p ∷ ps) =
    push_details p (expected_contact p.contact_id contacts) (details_of_pairs contacts ps)

-- `...(identifier ? { identifier } : {})`.
abbrev pub of_identifier : Option String → Query
of_identifier none = done
of_identifier (some i) = if i === "" then done else tag "identifier" (text i) done

unfoldable pub get_connections :
    {K : Type 0} → Option String → Contacts K → Result ConnectionError (List ConnectionShortDetails)
get_connections identifier s = details_of_pairs s.contacts (
    Records.find_all_by_query pair_class
      (tag "pendingDeletion" (flag false) (of_identifier identifier)) s.pairs)

unfoldable pub get_multisig_connections : List ContactRecord → List ConnectionShortDetails
get_multisig_connections rs =
    map (λ c. get_connection_short_details (contact_details c))
      (Records.find_all_by_query contact_class (not_of (tag "groupId" undefined done) done) rs)

unfoldable pub find_by_group_id : String → List ContactRecord → List ContactRecord
find_by_group_id group_id =
    Records.find_all_by_query contact_class (tag "groupId" (text group_id) done)

unfoldable pub get_multisig_linked_contacts :
    String → List ContactRecord → List ConnectionShortDetails
get_multisig_linked_contacts group_id rs =
    map (λ c. get_connection_short_details (contact_details c)) (find_by_group_id group_id rs)

-- What `connectByOobiUrl` gives to `createConnectionMetadata`; the date is `new Date(createdAtUTC)`.
pub record ConnectionMetadata : Type 0 where
  pub alias : String
  pub oobi : String
  pub group_id : Option String
  pub created_at : String
  pub shared_identifier : String
  pub creation_status : CreationStatus

abbrev pub new_contact : String → ConnectionMetadata → ContactRecord
new_contact id m = record {
  id = id;
  created_at = m.created_at;
  alias = m.alias;
  oobi = m.oobi;
  group_id = m.group_id;
}

abbrev pub new_pair : String → ConnectionMetadata → ConnectionPairRecord
new_pair id m = record {
  id = pair_id m.shared_identifier id;
  created_at = m.created_at;
  contact_id = id;
  identifier = m.shared_identifier;
  alias = m.alias;
  creation_status = m.creation_status;
  pending_deletion = false;
}

abbrev pub save_contact : {K : Type 0} → ContactRecord → Method K (Unit {0})
save_contact c s = in_contacts s (Records.save contact_class c s.contacts)

abbrev pub save_pair : {K : Type 0} → ConnectionPairRecord → Method K (Unit {0})
save_pair p s = in_pairs s (Records.save pair_class p s.pairs)

abbrev pub save_absent_contact :
    {K : Type 0} → ContactRecord → Option ContactRecord → Method K (Unit {0})
save_absent_contact c none = save_contact c
save_absent_contact c (some d) = pure tt

-- `if (!metadata.groupId)`.
abbrev pub is_falsy_text : Option String → Bool
is_falsy_text none = true
is_falsy_text (some g) = g === ""

unfoldable pub create_connection_metadata :
    {K : Type 0} → String → ConnectionMetadata → Method K (Unit {0})
create_connection_metadata id m = do
  (λ s. save_absent_contact (new_contact id m) (Records.find_by_id contact_class id s.contacts) s)
  if is_falsy_text m.group_id then save_pair (new_pair id m) else pure tt
