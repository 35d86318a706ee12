-- ===== src/Store/ProfilesCache/State.antt =====
-- The state of the slice: src/store/reducers/profileCache/profilesCache.types.ts, and its initial
-- value. `null` and `undefined` are both `none`.
use veridian_wallet.Base.{Bool, false, Option, none, some, List, [], String}
use veridian_wallet.Base.Dict.{Dict}
use veridian_wallet.Store.Types.{Profile, MultiSigGroup, DAppConnection}

pub record MissingAlias : Type 0 where
  pub url : String
  pub identifier : Option String

pub record ProfileCache : Type 0 where
  pub profiles : Dict Profile
  pub default_profile : Option String
  pub recent_profiles : List String
  pub multi_sig_group : Option MultiSigGroup
  pub scan_group_id : Option String
  pub open_connection_id : Option String
  pub missing_alias_url : Option MissingAlias
  pub connected_dapp : Option DAppConnection
  pub pending_dapp_connection : Option DAppConnection
  pub is_connecting_to_dapp : Option Bool
  pub show_dapp_connect : Option Bool
  pub show_profile_state : Option Bool

abbrev pub initial_profiles : ProfileCache
initial_profiles = record {
  profiles = [];
  default_profile = none;
  recent_profiles = [];
  multi_sig_group = none;
  scan_group_id = none;
  open_connection_id = none;
  missing_alias_url = none;
  connected_dapp = none;
  pending_dapp_connection = none;
  is_connecting_to_dapp = none;
  show_dapp_connect = none;
  show_profile_state = some false;
}
