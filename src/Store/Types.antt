-- ===== src/Store/Types.antt =====
-- src/core/agent/agent.types.ts, src/core/agent/services/*.types.ts and
-- src/store/reducers/profileCache/profilesCache.types.ts. An optional property is an `Option`; what
-- the modelled code only carries along is left as text.
use veridian_wallet.Base.{ℕ, Bool, true, Option, none, some, List, String, ◌===◌}
use veridian_wallet.Base.Dict.{Dict}

pub data CreationStatus : Type 0 where
  pending complete failed : CreationStatus

pub data ConnectionStatus : Type 0 where
  pending confirmed failed deleted : ConnectionStatus

pub data CredentialStatus : Type 0 where
  confirmed pending revoked : CredentialStatus

pub data IdentifierType : Type 0 where
  individual group : IdentifierType

pub record GroupMetadata : Type 0 where
  pub group_id : String
  pub group_initiator : Bool
  pub group_created : Bool
  pub proposed_username : String
  pub initiator_name : Option String

pub record IdentifierShortDetails : Type 0 where
  pub id : String
  pub display_name : String
  pub created_at_utc : String
  pub theme : ℕ
  pub creation_status : CreationStatus
  pub group_metadata : Option GroupMetadata
  pub group_member_pre : Option String
  pub group_username : Option String

pub record RegularConnectionDetails : Type 0 where
  pub id : String
  pub label : String
  pub created_at_utc : String
  pub status : ConnectionStatus
  pub logo : Option String
  pub oobi : Option String
  pub contact_id : String
  pub identifier : String

pub record MultisigConnectionDetails : Type 0 where
  pub id : String
  pub label : String
  pub created_at_utc : String
  pub status : ConnectionStatus
  pub logo : Option String
  pub oobi : Option String
  pub contact_id : String
  pub group_id : String
  pub has_accepted : Option Bool

pub record CredentialShortDetails : Type 0 where
  pub id : String
  pub is_archived : Option Bool
  pub issuance_date : String
  pub credential_type : String
  pub status : CredentialStatus
  pub connection_id : String
  pub schema : String
  pub identifier_id : String
  pub identifier_type : IdentifierType
  pub pending_deletion : Option Bool

-- `a` is the body of the notification.
pub record KeriaNotification : Type 0 where
  pub id : String
  pub created_at : String
  pub a : Dict String
  pub connection_id : String
  pub read : Bool
  pub group_replied : Bool
  pub receiving_pre : String
  pub group_initiator_pre : Option String
  pub group_initiator : Option Bool

pub record DAppConnection : Type 0 where
  pub meerkat_id : String
  pub name : Option String
  pub url : Option String
  pub created_at : Option String
  pub icon_b64 : Option String
  pub selected_aid : Option String

pub record MultiSigGroup : Type 0 where
  pub group_id : String
  pub connections : List MultisigConnectionDetails

pub record Profile : Type 0 where
  pub identity : IdentifierShortDetails
  pub connections : List RegularConnectionDetails
  pub multisig_connections : List MultisigConnectionDetails
  pub peer_connections : List DAppConnection
  pub credentials : List CredentialShortDetails
  pub archived_credentials : List CredentialShortDetails
  pub notifications : List KeriaNotification
  pub connected_dapp : Option DAppConnection
  pub pending_dapp_connection : Option DAppConnection

-- What KERIA lists (`Notification`), and a notification that could not be processed.
pub record Notification : Type 0 where
  pub i : String
  pub dt : String
  pub r : Bool
  pub route : String
  pub said : String
  pub m : Option String

pub record NotificationAttempts : Type 0 where
  pub attempts : ℕ
  pub last_attempt : ℕ
  pub notification : Notification

-- JavaScript's `!s` of a string, and `!o` of a string that may be undefined.
abbrev pub is_falsy : Option String → Bool
is_falsy none = true
is_falsy (some s) = s === ""
