-- ===== src/Routes/Next.antt =====
-- src/routes/nextRoute/nextRoute.ts.
use veridian_wallet.Base.{
  ℕ, Bool, true, false, not, ◌&&◌, ◌||◌, Option, none, some, List, [], ◌∷◌, ◌++◌, String, ◌===◌,
  if◌then◌else◌,
}
use veridian_wallet.Store.Types.{
  CreationStatus, IdentifierShortDetails, GroupMetadata, Profile, is_falsy,
}
use veridian_wallet.Store.StateCache.{
  CurrentRoute, Authentication, PendingJoinGroupMetadata, set_authentication, set_current_route,
  set_is_setup_profile, is_set,
}
use veridian_wallet.Routes.Paths.{
  root, onboarding, terms_and_privacy, set_passcode, create_password, ssi_agent,
  verify_recovery_seed_phrase, setup_biometrics, profile_setup, home, credentials, notifications,
  credential_details, notification_details, group_profile_setup, SeedPhraseCache, PageState,
  no_page_state, StoreState, DataProps, RootStore, on_state, set_seed_phrase_cache,
  clear_seed_phrase_cache, Update, update_redux_state,
}

abbrev pub page_state : DataProps → PageState
page_state d = elim d.state [ none ↦ no_page_state | some s ↦ s ]

abbrev pub is_joining : Option PendingJoinGroupMetadata → Bool
is_joining none = false
is_joining (some m) = m.is_pending_join_group

-- `data.store.stateCache.routes[0]?.path === path`.
abbrev pub is_current : List CurrentRoute → String → Bool
is_current [] p = false
is_current (r ∷ rs) p = r.path === p

abbrev pub is_complete : CreationStatus → Bool
is_complete CreationStatus.complete = true
is_complete _ = false

abbrev has_metadata : Option GroupMetadata → Bool
has_metadata none = false
has_metadata (some _) = true

-- `!!(profile.groupMemberPre || profile.groupMetadata)` and not a group that is complete.
unfoldable pub is_unfinished_group : IdentifierShortDetails → Bool
is_unfinished_group p =
    (not (is_falsy p.group_member_pre) || has_metadata p.group_metadata)
    && not (not (is_falsy p.group_member_pre) && is_complete p.creation_status)

-- The page that the authentication flags call for.
unfoldable pub auth_route : Authentication → Option Bool → String
auth_route a setup =
    if a.ssi_agent_is_set
    then (if is_set setup then profile_setup else home)
    else if a.password_is_set || a.password_is_skipped
    then (if a.recovery_wallet_progress then verify_recovery_seed_phrase else ssi_agent)
    else if is_set a.finish_setup_biometrics
    then create_password
    else if a.passcode_is_set
    then setup_biometrics
    else onboarding

-- The assignments to `path` in order, the last one first. `isPendingJoinGroup`, which the source
-- also looks for in the slice itself, is no property of its type.
abbrev pub profile_route : Option Profile → List CurrentRoute → String → String
profile_route none routes path = path
profile_route (some p) routes path =
    if not (is_current routes profile_setup) && is_unfinished_group p.identity
    then group_profile_setup p.identity.id
    else path

unfoldable pub get_next_root_route : DataProps → String
unfolding auth_route
get_next_root_route d =
    let s = d.store.state_cache in
    let path =
      if is_joining s.pending_join_group_metadata
      then profile_setup
      else auth_route s.authentication s.is_setup_profile in
    profile_route d.store.current_profile s.routes path

unfoldable pub get_next_onboarding_route : DataProps → String
unfolding get_next_root_route
get_next_onboarding_route d =
    let next = get_next_root_route d in if next === onboarding then terms_and_privacy else next

abbrev pub has_seed_phrase : Option SeedPhraseCache → Bool
has_seed_phrase none = false
has_seed_phrase (some c) = not (c.seed_phrase === "")

unfoldable pub get_next_set_passcode_route : StoreState → String
get_next_set_passcode_route s =
    let a = s.state_cache.authentication in
    if a.ssi_agent_is_set
    then home
    else if has_seed_phrase s.seed_phrase_cache
    then ssi_agent
    else if is_set a.finish_setup_biometrics
    then create_password
    else setup_biometrics

unfoldable pub get_next_create_ssi_agent_route : DataProps → String
get_next_create_ssi_agent_route d =
    if is_set (page_state d).should_setup_profile then profile_setup else home

unfoldable pub get_next_create_password_route : DataProps → String
get_next_create_password_route d =
    if d.store.state_cache.authentication.recovery_wallet_progress
    then verify_recovery_seed_phrase
    else ssi_agent

abbrev pub or_empty : Option String → String
or_empty none = ""
or_empty (some s) = s

unfoldable pub get_next_profile_setup_route : DataProps → String
get_next_profile_setup_route d =
    let s = page_state d in
    if is_set s.is_group && not (is_falsy s.id) then group_profile_setup (or_empty s.id) else home

abbrev auth_of : DataProps → Authentication
auth_of d = d.store.state_cache.authentication

abbrev pub update_store_after_set_passcode_route : ℕ → Update
update_store_after_set_passcode_route now d = on_state (
    set_authentication (record (auth_of d) {
      logged_in = true;
      time = now;
      passcode_is_set = true;
      first_app_launch = false;
    }))

abbrev pub update_store_after_setup_ssi : Update
update_store_after_setup_ssi d = on_state (
    set_authentication
      (record (auth_of d) { ssi_agent_is_set = true; recovery_wallet_progress = false }))

abbrev pub update_store_recovery_wallet : Update
update_store_recovery_wallet d = on_state (
    set_authentication (record (auth_of d) {
      recovery_wallet_progress = is_set (page_state d).recovery_wallet_progress;
    }))

abbrev pub update_store_set_seed_phrase : Update
update_store_set_seed_phrase d = set_seed_phrase_cache (record {
  seed_phrase = or_empty (page_state d).seed_phrase;
  bran = or_empty (page_state d).bran;
})

abbrev pub update_store_current_route : Update
update_store_current_route d =
    on_state
      (set_current_route (record { path = or_empty (page_state d).next_route; payload = none }))

abbrev pub update_store_after_create_password : Update
update_store_after_create_password d =
    let skipped = is_set (page_state d).skipped in
    on_state (
      set_authentication
        (record (auth_of d) { password_is_set = not skipped; password_is_skipped = skipped }))

abbrev pub update_store_after_setup_profile : Update
update_store_after_setup_profile d =
    on_state (set_is_setup_profile (some (is_set (page_state d).is_setup_profile)))

abbrev pub update_after_setup_biometrics : Update
update_after_setup_biometrics d = on_state (
    set_authentication (record (auth_of d) {
      finish_setup_biometrics = some (is_set (page_state d).finished_setup);
    }))

abbrev pub clear_seed_phrase : Update
clear_seed_phrase d = clear_seed_phrase_cache

-- An entry of the table `nextRoute`.
pub record NextRoute : Type 0 where
  pub next_path : DataProps → String
  pub update_redux : List Update

abbrev pub entry : (DataProps → String) → List Update → Option NextRoute
entry f us = some (record { next_path = f; update_redux = us })

-- The table, with `none` for a path that is no key. `now` is the clock.
unfoldable pub next_route : ℕ → String → Option NextRoute
next_route now p =
    if p === root
    then entry get_next_root_route []
    else if p === onboarding
    then entry get_next_onboarding_route (update_store_recovery_wallet ∷ [])
    else if p === terms_and_privacy
    then entry (λ _. set_passcode) []
    else if p === set_passcode
    then entry (λ d. get_next_set_passcode_route d.store)
        (update_store_after_set_passcode_route now ∷ [])
    else if p === setup_biometrics
    then entry get_next_root_route (update_after_setup_biometrics ∷ [])
    else if p === verify_recovery_seed_phrase
    then entry (λ _. ssi_agent) []
    else if p === ssi_agent
    then entry get_next_create_ssi_agent_route
        (update_store_after_setup_ssi ∷ clear_seed_phrase ∷ [])
    else if p === create_password
    then entry get_next_create_password_route (update_store_after_create_password ∷ [])
    else if p === profile_setup
    then entry get_next_profile_setup_route (update_store_after_setup_profile ∷ [])
    else if p === credential_details
    then entry (λ _. credentials) []
    else if p === notifications
    then entry (λ _. notification_details) []
    else if p === notification_details
    then entry (λ _. notifications) []
    else none

-- `getNextRoute` with `updateReduxState`; for an unknown path the source throws.
abbrev pub follow : ℕ → DataProps → RootStore → Option NextRoute → Option (String × RootStore)
follow started d s none = none
follow started d s (some e) = some (
  e.next_path d,
  update_redux_state started (e.next_path d) d (e.update_redux ++ (update_store_current_route ∷ []))
      s,
)

-- What a page does to move on: `getNextRoute`, then `updateReduxState`.
unfoldable pub move_on : ℕ → ℕ → String → DataProps → RootStore → Option (String × RootStore)
move_on started now p d s = follow started d s (next_route now p)
