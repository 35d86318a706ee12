-- ===== src/Store/ProfilesCache.antt =====
-- src/store/reducers/profileCache: the slice with the profiles of the wallet.
mod State
mod Profiles
mod Contents
mod Connections
pub mod Keyed
pub mod Grouping
pub mod Groups
pub mod Notifications
mod Tests
unfoldable pub use State.*
unfoldable pub use Profiles.*
unfoldable pub use Contents.*
unfoldable pub use Connections.*
use veridian_wallet.Base.{Bool, Option, none, some, List, [], String}
use veridian_wallet.Base.Dict.{Dict}
use veridian_wallet.Store.Types.{
  CreationStatus, IdentifierShortDetails, RegularConnectionDetails, MultisigConnectionDetails,
  CredentialShortDetails, KeriaNotification, DAppConnection, MultiSigGroup, Profile,
}

-- The actions of the slice, one for each reducer.
pub data ProfileAction : Type 0 where
  set_profiles : Dict Profile → ProfileAction
  set_current_profile : String → ProfileAction
  clear_profiles : ProfileAction
  update_current_profile : Option String → ProfileAction
  update_recent_profiles : List String → ProfileAction
  set_scan_group_id : Option String → ProfileAction
  put_profile_identity : IdentifierShortDetails → ProfileAction
  put_group_profile : IdentifierShortDetails → ProfileAction
  put_creation_status : String → CreationStatus → ProfileAction
  drop_profile : String → ProfileAction
  set_group_profile_cache : Option MultiSigGroup → ProfileAction
  put_notifications : List KeriaNotification → ProfileAction
  mark_notification : String → Bool → ProfileAction
  delete_notification : String → ProfileAction
  push_notification : KeriaNotification → ProfileAction
  put_creds : List CredentialShortDetails → ProfileAction
  put_cred : CredentialShortDetails → ProfileAction
  put_archived_creds : List CredentialShortDetails → ProfileAction
  put_connection_of : RegularConnectionDetails → ProfileAction
  put_peer_connections : List DAppConnection → ProfileAction
  put_peer_connections_from_core : List DAppConnection → ProfileAction
  put_connections : List RegularConnectionDetails → ProfileAction
  drop_connection : String → ProfileAction
  put_multisig_connections : List MultisigConnectionDetails → ProfileAction
  put_multisig_connection : MultisigConnectionDetails → ProfileAction
  put_connected_dapp : Option DAppConnection → ProfileAction
  put_pending_dapp_connection : Option DAppConnection → ProfileAction
  set_is_connecting_to_dapp : Bool → ProfileAction
  show_dapp_connection : Bool → ProfileAction
  drop_dapp_connection : ProfileAction
  set_open_connection_id : Option String → ProfileAction
  set_missing_alias_connection : Option MissingAlias → ProfileAction
  set_show_profile_state : Bool → ProfileAction

-- The reducer of the slice; `none` where it throws.
unfoldable pub reduce_profiles : ProfileAction → ProfileCache → Option ProfileCache
reduce_profiles (set_profiles ps) s = some (record s { profiles = ps })
reduce_profiles (set_current_profile k) s = some (record s { default_profile = some k })
reduce_profiles clear_profiles s = some (record s { profiles = [] })
reduce_profiles (update_current_profile k) s = some (record s { default_profile = k })
reduce_profiles (update_recent_profiles ks) s = some (record s { recent_profiles = ks })
reduce_profiles (set_scan_group_id g) s = some (record s { scan_group_id = g })
reduce_profiles (put_profile_identity i) s = some (add_or_update_profile_identity i s)
reduce_profiles (put_group_profile i) s = add_group_profile i s
reduce_profiles (put_creation_status id c) s = some (update_profile_creation_status id c s)
reduce_profiles (drop_profile id) s = some (remove_profile id s)
reduce_profiles (set_group_profile_cache g) s = some (record s { multi_sig_group = g })
reduce_profiles (put_notifications ns) s = some (set_notifications_cache ns s)
reduce_profiles (mark_notification id read) s = some (mark_notification_as_read id read s)
reduce_profiles (delete_notification id) s = some (delete_notification_by_id id s)
reduce_profiles (push_notification n) s = some (add_notification n s)
reduce_profiles (put_creds cs) s = some (set_creds_cache cs s)
reduce_profiles (put_cred c) s = some (update_or_add_creds_cache c s)
reduce_profiles (put_archived_creds cs) s = some (set_creds_archived_cache cs s)
reduce_profiles (put_connection_of c) s = some (update_or_add_connection_cache c s)
reduce_profiles (put_peer_connections cs) s = some (set_peer_connections cs s)
reduce_profiles (put_peer_connections_from_core cs) s =
    some (update_peer_connections_from_core cs s)
reduce_profiles (put_connections cs) s = some (set_connections_cache cs s)
reduce_profiles (drop_connection id) s = some (remove_connection_cache id s)
reduce_profiles (put_multisig_connections cs) s = some (set_multisig_connections_cache cs s)
reduce_profiles (put_multisig_connection c) s = some (update_or_add_multisig_connection_cache c s)
reduce_profiles (put_connected_dapp c) s = some (set_connected_dapp c s)
reduce_profiles (put_pending_dapp_connection c) s = some (set_pending_dapp_connection c s)
reduce_profiles (set_is_connecting_to_dapp b) s = some (record s { is_connecting_to_dapp = some b })
reduce_profiles (show_dapp_connection b) s = some (record s { show_dapp_connect = some b })
reduce_profiles drop_dapp_connection s = some (clear_dapp_connection s)
reduce_profiles (set_open_connection_id k) s = some (record s { open_connection_id = k })
reduce_profiles (set_missing_alias_connection m) s = some (record s { missing_alias_url = m })
reduce_profiles (set_show_profile_state b) s = some (record s { show_profile_state = some b })
