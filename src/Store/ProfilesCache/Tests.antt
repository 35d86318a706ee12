-- ===== src/Store/ProfilesCache/Tests.antt =====
-- The profiles at concrete values.
use veridian_wallet.Base.{◌≡◌, ◌↔◌, refl, false, Option, none, some, String, [], ◌∷◌}
use veridian_wallet.Base.Dict.{lookup, on_some}
use veridian_wallet.Store.Types.{
  CreationStatus, IdentifierShortDetails, KeriaNotification, DAppConnection, Profile,
}
use veridian_wallet.Store.ProfilesCache.{
  ProfileCache, put_group_profile, initial_profiles, new_profile, add_group_profile,
  delete_notification_by_id, reduce_profiles, update_peer_connections_from_core,
}
use veridian_wallet.Store.ProfilesCache.Keyed.{AllKeyed, reduce_profiles-IsKeyed}
use veridian_wallet.Store.ProfilesCache.Grouping.{
  with_peers, gathered, connections_to, lookup-update_peer_connections_from_core,
}
use veridian_wallet.Store.ProfilesCache.Groups.{add_group_profile_throws}
use veridian_wallet.Store.ProfilesCache.Notifications.{
  LessOne, total, delete_notification_by_id-total,
}

abbrev identity : String → Option String → IdentifierShortDetails
identity id pre = record {
  id = id;
  display_name = "name";
  created_at_utc = "2025-01-01";
  theme = 0;
  creation_status = CreationStatus.complete;
  group_metadata = none;
  group_member_pre = pre;
  group_username = none;
}

abbrev notification : String → KeriaNotification
notification id = record {
  id = id;
  created_at = "2025-01-01";
  a = [];
  connection_id = "c";
  read = false;
  group_replied = false;
  receiving_pre = "E1";
  group_initiator_pre = none;
  group_initiator = none;
}

abbrev member : Profile
member = record (new_profile (identity "E1" none) []) { notifications = notification "n" ∷ [] }

abbrev cache : ProfileCache
cache = record initial_profiles {
  profiles = ("E1", member) ∷ ("E2", new_profile (identity "E2" none) []) ∷ [];
  default_profile = some "E2";
}

abbrev group : IdentifierShortDetails
group = identity "G" (some "E1")

abbrev dapp : DAppConnection
dapp = record {
  meerkat_id = "m";
  name = none;
  url = none;
  created_at = none;
  icon_b64 = none;
  selected_aid = some "E2";
}

deletion_test :
    (total "n" cache.profiles ≡ 1) × (total "n" (delete_notification_by_id "n" cache).profiles ≡ 0)
unfolding delete_notification_by_id
deletion_test = (refl, refl)

reduce_profiles-IsKeyed_example : AllKeyed (reduce_profiles (put_group_profile group) cache)
reduce_profiles-IsKeyed_example =
    reduce_profiles-IsKeyed (put_group_profile group) cache tt (refl, (refl, tt))

lookup-update_peer_connections_from_core_example :
    lookup "E2" (update_peer_connections_from_core (dapp ∷ []) cache).profiles
    ≡ on_some
        (with_peers (gathered none (connections_to "E2" (dapp ∷ []))))
        (lookup "E2" cache.profiles)
lookup-update_peer_connections_from_core_example =
    lookup-update_peer_connections_from_core "E2" (dapp ∷ []) cache

add_group_profile_throws_example : (add_group_profile group initial_profiles ≡ none) ↔ (
    (lookup "G" initial_profiles.profiles ≡ none) × (lookup "E1" initial_profiles.profiles ≡ none))
add_group_profile_throws_example =
    add_group_profile_throws "E1" group initial_profiles refl refl refl

delete_notification_by_id-total_example :
    LessOne (total "n" cache.profiles) (total "n" (delete_notification_by_id "n" cache).profiles)
delete_notification_by_id-total_example =
    delete_notification_by_id-total "E2" "n" cache refl refl (refl, (refl, tt))
