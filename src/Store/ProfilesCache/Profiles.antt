-- ===== src/Store/ProfilesCache/Profiles.antt =====
-- The reducers of src/store/reducers/profileCache/profilesCache.ts that add, replace and remove
-- profiles.
use veridian_wallet.Base.{
  not, ◌&&◌, Option, none, some, List, [], map, String, ◌===◌, if◌then◌else◌,
}
use veridian_wallet.Base.Dict.{Dict, lookup, insert, erase, modify}
use veridian_wallet.Store.Types.{
  CreationStatus, GroupMetadata, IdentifierShortDetails, MultisigConnectionDetails, MultiSigGroup,
  Profile,
}
use veridian_wallet.Store.ProfilesCache.State.{ProfileCache}

-- JavaScript's `a || b` of two strings.
abbrev pub or_else : String → String → String
or_else a b = if a === "" then b else a

abbrev pub on_profile : String → (Profile → Profile) → ProfileCache → ProfileCache
on_profile k f s = record s { profiles = modify k f s.profiles }

abbrev pub adopt : String → MultisigConnectionDetails → MultisigConnectionDetails
adopt group_id c = record c { contact_id = or_else c.contact_id c.id; group_id = group_id }

abbrev pub connections_of_group : String → Option MultiSigGroup → List MultisigConnectionDetails
connections_of_group group_id none = []
connections_of_group group_id (some g) =
    if not (group_id === "") && g.group_id === group_id
    then map (adopt group_id) g.connections
    else []

abbrev pub cached_connections :
    Option GroupMetadata → Option MultiSigGroup → List MultisigConnectionDetails
cached_connections none g = []
cached_connections (some m) g = connections_of_group m.group_id g

abbrev pub new_profile : IdentifierShortDetails → List MultisigConnectionDetails → Profile
new_profile i cs = record {
  identity = i;
  connections = [];
  multisig_connections = cs;
  peer_connections = [];
  credentials = [];
  archived_credentials = [];
  notifications = [];
  connected_dapp = none;
  pending_dapp_connection = none;
}

abbrev pub set_identity : IdentifierShortDetails → Profile → Profile
set_identity i p = record p { identity = i }

abbrev pub put_identity : Option Profile → IdentifierShortDetails → ProfileCache → ProfileCache
put_identity (some existed) i s = on_profile i.id (set_identity i) s
put_identity none i s = record s {
  profiles =
      insert i.id (new_profile i (cached_connections i.group_metadata s.multi_sig_group))
        s.profiles;
  multi_sig_group = none;
}

unfoldable pub add_or_update_profile_identity : IdentifierShortDetails → ProfileCache → ProfileCache
add_or_update_profile_identity i s = put_identity (lookup i.id s.profiles) i s

-- The default profile follows a member's profile that becomes the group's.
abbrev pub moved_default : String → String → Option String → Option String
moved_default pre id none = none
moved_default pre id (some d) = if pre === d then some id else some d

-- `group.multisigConnections` throws when there is no profile of the member, which is `none`.
abbrev pub replaced :
    Option Profile → Option Profile → IdentifierShortDetails → Dict Profile → Option (Dict Profile)
replaced (some existed) group i rest = some rest
replaced none none i rest = none
replaced none (some g) i rest = some (insert i.id (new_profile i g.multisig_connections) rest)

abbrev pub moved :
    String → IdentifierShortDetails → ProfileCache → Option (Dict Profile) → Option ProfileCache
moved pre i s none = none
moved pre i s (some ps) =
    some (record s { profiles = ps; default_profile = moved_default pre i.id s.default_profile })

-- `addGroupProfile`, by the member's identifier of the payload.
abbrev pub add_group_for :
    Option String → IdentifierShortDetails → ProfileCache → Option ProfileCache
add_group_for none i s = some s
add_group_for (some pre) i s =
    if pre === ""
    then some s
    else let rest = erase pre s.profiles in
      moved pre i s (replaced (lookup i.id rest) (lookup pre s.profiles) i rest)

unfoldable pub add_group_profile : IdentifierShortDetails → ProfileCache → Option ProfileCache
add_group_profile i s = add_group_for i.group_member_pre i s

abbrev pub set_status : CreationStatus → Profile → Profile
set_status c p = record p { identity = record p.identity { creation_status = c } }

unfoldable pub update_profile_creation_status :
    String → CreationStatus → ProfileCache → ProfileCache
update_profile_creation_status id c s = on_profile id (set_status c) s

unfoldable pub remove_profile : String → ProfileCache → ProfileCache
remove_profile id s = record s { profiles = erase id s.profiles }
