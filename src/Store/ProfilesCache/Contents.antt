-- ===== src/Store/ProfilesCache/Contents.antt =====
-- The reducers of src/store/reducers/profileCache/profilesCache.ts for the
-- notifications and the credentials of a profile.
use veridian_wallet.Base.{
  Bool, false, not, ◌&&◌, Option, none, some, List, [], ◌∷◌, ◌++◌, map, String, ◌===◌, keep, any,
  if◌then◌else◌,
}
use veridian_wallet.Base.Dict.{Dict, lookup}
use veridian_wallet.Store.Types.{CredentialShortDetails, KeriaNotification, Profile}
use veridian_wallet.Store.ProfilesCache.State.{ProfileCache}
use veridian_wallet.Store.ProfilesCache.Profiles.{on_profile}

-- A change of the default profile, when one is chosen and there is such a profile.
abbrev pub on_chosen : Option String → (Profile → Profile) → ProfileCache → ProfileCache
on_chosen none f s = s
on_chosen (some k) f s = if k === "" then s else on_profile k f s

abbrev pub on_default : (Profile → Profile) → ProfileCache → ProfileCache
on_default f s = on_chosen s.default_profile f s

unfoldable pub set_notifications_cache : List KeriaNotification → ProfileCache → ProfileCache
set_notifications_cache ns s = on_default (λ p. record p { notifications = ns }) s

abbrev pub mark : String → Bool → KeriaNotification → KeriaNotification
mark id read n = if n.id === id then record n { read = read } else n

unfoldable pub mark_notification_as_read : String → Bool → ProfileCache → ProfileCache
mark_notification_as_read id read s =
    on_default (λ p. record p { notifications = map (mark id read) p.notifications }) s

abbrev pub has_notification : String → List KeriaNotification → Bool
has_notification id ns = any (λ n. n.id === id) ns

-- `findIndex` and `splice`.
abbrev pub remove_first : String → List KeriaNotification → List KeriaNotification
remove_first id [] = []
remove_first id (n ∷ ns) = if n.id === id then ns else n ∷ remove_first id ns

abbrev pub without_notification : String → Profile → Profile
without_notification id p = record p { notifications = remove_first id p.notifications }

-- The first profile but the default one that has the notification loses it.
abbrev pub delete_elsewhere : String → String → Dict Profile → Dict Profile
delete_elsewhere chosen id [] = []
delete_elsewhere chosen id ((k, p) ∷ d) =
    let rest = delete_elsewhere chosen id d in
    if not (k === chosen) && has_notification id p.notifications
    then (k, without_notification id p) ∷ d
    else (k, p) ∷ rest

abbrev pub has_it : String → Option Profile → Bool
has_it id none = false
has_it id (some p) = has_notification id p.notifications

abbrev pub delete_for : Option String → String → ProfileCache → ProfileCache
delete_for none id s = s
delete_for (some chosen) id s =
    if chosen === ""
    then s
    else if has_it id (lookup chosen s.profiles)
    then on_profile chosen (without_notification id) s
    else record s { profiles = delete_elsewhere chosen id s.profiles }

unfoldable pub delete_notification_by_id : String → ProfileCache → ProfileCache
delete_notification_by_id id s = delete_for s.default_profile id s

unfoldable pub add_notification : KeriaNotification → ProfileCache → ProfileCache
add_notification n s =
    on_profile n.receiving_pre (λ p. record p { notifications = n ∷ p.notifications }) s

unfoldable pub set_creds_cache : List CredentialShortDetails → ProfileCache → ProfileCache
set_creds_cache cs s = on_default (λ p. record p { credentials = cs }) s

abbrev pub put_credential :
    CredentialShortDetails → List CredentialShortDetails → List CredentialShortDetails
put_credential c cs = keep (λ x. not (x.id === c.id)) cs ++ (c ∷ [])

unfoldable pub update_or_add_creds_cache : CredentialShortDetails → ProfileCache → ProfileCache
update_or_add_creds_cache c s =
    on_profile c.identifier_id (λ p. record p { credentials = put_credential c p.credentials }) s

unfoldable pub set_creds_archived_cache : List CredentialShortDetails → ProfileCache → ProfileCache
set_creds_archived_cache cs s =
    on_default
      (λ p. record p { archived_credentials = keep (λ c. c.identifier_id === p.identity.id) cs }) s
