-- ===== src/Store/ProfilesCache/Connections.antt =====
-- The reducers of src/store/reducers/profileCache/profilesCache.ts for the connections of a profile.
use veridian_wallet.Base.{
  false, not, ◌||◌, Option, none, some, List, [], ◌∷◌, ◌++◌, map, String, ◌===◌, keep,
  if◌then◌else◌,
}
use veridian_wallet.Base.Dict.{Dict, lookup, insert, modify, modify_all}
use veridian_wallet.Base.Text.{codes, is_empty, trim}
use veridian_wallet.Store.Types.{
  GroupMetadata, RegularConnectionDetails, MultisigConnectionDetails, DAppConnection, Profile,
  is_falsy,
}
use veridian_wallet.Store.ProfilesCache.State.{ProfileCache}
use veridian_wallet.Store.ProfilesCache.Profiles.{or_else, on_profile}
use veridian_wallet.Store.ProfilesCache.Contents.{on_chosen, on_default}

abbrev pub or_default : String → Option String → String
or_default a none = a
or_default a (some b) = or_else a b

abbrev pub mapped_connection : String → RegularConnectionDetails → RegularConnectionDetails
mapped_connection profile_id c = record c {
  identifier = or_else c.identifier profile_id;
  contact_id = or_else c.contact_id c.id;
}

abbrev pub put_connection :
    RegularConnectionDetails → List RegularConnectionDetails → List RegularConnectionDetails
put_connection c cs = keep (λ x. not (x.id === c.id)) cs ++ (c ∷ [])

unfoldable pub update_or_add_connection_cache :
    RegularConnectionDetails → ProfileCache → ProfileCache
update_or_add_connection_cache c s =
    let profile_id = or_default (or_else c.identifier c.contact_id) s.default_profile in
    if profile_id === ""
    then s
    else on_profile profile_id
        (λ p. record p {
          connections = put_connection (mapped_connection profile_id c) p.connections;
        })
        s

abbrev pub first_aid : List DAppConnection → Option String
first_aid [] = none
first_aid (c ∷ cs) = c.selected_aid

unfoldable pub set_peer_connections : List DAppConnection → ProfileCache → ProfileCache
set_peer_connections cs s =
    let key = if is_falsy s.default_profile then first_aid cs else s.default_profile in
    on_chosen key (λ p. record p { peer_connections = cs }) s

-- `updateData[aid]`, with one more connection.
abbrev pub pushed : DAppConnection → Option (List DAppConnection) → List DAppConnection
pushed c none = c ∷ []
pushed c (some cs) = cs ++ (c ∷ [])

abbrev pub group_one :
    Option String → DAppConnection → Dict (List DAppConnection) → Dict (List DAppConnection)
group_one none c acc = acc
group_one (some aid) c acc =
    if (aid === "") || is_empty (trim (codes aid))
    then acc
    else insert aid (pushed c (lookup aid acc)) acc

unfoldable pub group_by_aid :
    List DAppConnection → Dict (List DAppConnection) → Dict (List DAppConnection)
group_by_aid [] acc = acc
group_by_aid (c ∷ cs) acc = group_by_aid cs (group_one c.selected_aid c acc)

unfoldable pub set_peers : Dict (List DAppConnection) → Dict Profile → Dict Profile
set_peers [] ps = ps
set_peers ((k, cs) ∷ d) ps = set_peers d (modify k (λ p. record p { peer_connections = cs }) ps)

unfoldable pub update_peer_connections_from_core : List DAppConnection → ProfileCache → ProfileCache
update_peer_connections_from_core cs s = record s {
  profiles = set_peers (group_by_aid cs []) s.profiles;
}

unfoldable pub set_connections_cache : List RegularConnectionDetails → ProfileCache → ProfileCache
set_connections_cache all s = record s {
  profiles =
      modify_all
        (λ k p. record p {
          connections = map (mapped_connection k) (keep (λ c. c.identifier === k) all);
        })
        s.profiles;
}

unfoldable pub remove_connection_cache : String → ProfileCache → ProfileCache
remove_connection_cache id s =
    on_default (λ p. record p { connections = keep (λ c. not (c.id === id)) p.connections }) s

abbrev pub mapped_multisig : String → MultisigConnectionDetails → MultisigConnectionDetails
mapped_multisig k c = record c { contact_id = or_else c.contact_id k }

abbrev pub multisig_of :
    String → Option GroupMetadata → List MultisigConnectionDetails → List MultisigConnectionDetails
multisig_of k none all = []
multisig_of k (some m) all =
    if m.group_id === ""
    then []
    else map (λ c. record (mapped_multisig k c) { group_id = or_else c.group_id m.group_id })
        (keep (λ c. c.group_id === m.group_id) all)

unfoldable pub set_multisig_connections_cache :
    List MultisigConnectionDetails → ProfileCache → ProfileCache
set_multisig_connections_cache all s = record s {
  profiles =
      modify_all
        (λ k p. record p { multisig_connections = multisig_of k p.identity.group_metadata all })
        s.profiles;
}

abbrev pub put_multisig :
    MultisigConnectionDetails → List MultisigConnectionDetails → List MultisigConnectionDetails
put_multisig c cs = keep (λ x. not (x.id === c.id)) cs ++ (c ∷ [])

abbrev pub add_multisig : Option String → MultisigConnectionDetails → Profile → Profile
add_multisig none c p = p
add_multisig (some k) c p = record p {
  multisig_connections = put_multisig (mapped_multisig k c) p.multisig_connections;
}

unfoldable pub update_or_add_multisig_connection_cache :
    MultisigConnectionDetails → ProfileCache → ProfileCache
update_or_add_multisig_connection_cache c s = on_default (add_multisig s.default_profile c) s

unfoldable pub set_connected_dapp : Option DAppConnection → ProfileCache → ProfileCache
set_connected_dapp c s =
    on_default (λ p. record p { connected_dapp = c }) (record s { connected_dapp = c })

unfoldable pub set_pending_dapp_connection : Option DAppConnection → ProfileCache → ProfileCache
set_pending_dapp_connection c s =
    on_default (λ p. record p { pending_dapp_connection = c })
      (record s { pending_dapp_connection = c })

unfoldable pub clear_dapp_connection : ProfileCache → ProfileCache
clear_dapp_connection s =
    on_default (λ p. record p { connected_dapp = none; pending_dapp_connection = none })
      (record s {
        connected_dapp = none;
        pending_dapp_connection = none;
        is_connecting_to_dapp = some false;
        show_dapp_connect = some false;
      })
