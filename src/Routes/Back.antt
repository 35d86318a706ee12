-- ===== src/Routes/Back.antt =====
-- src/routes/backRoute/backRoute.ts.
use veridian_wallet.Base.{
  ℕ, Bool, true, false, ◌||◌, Option, none, some, List, [], ◌∷◌, String, ◌===◌, if◌then◌else◌,
}
use veridian_wallet.Store.StateCache.{CurrentRoute, remove_current_route, set_current_route}
use veridian_wallet.Routes.Paths.{
  root, onboarding, set_passcode, create_password, ssi_agent, verify_recovery_seed_phrase, home,
  credential_details, notification_details, DataProps, RootStore, on_state, Update,
  update_redux_state,
}

unfoldable pub calc_previous_route : List CurrentRoute → Option CurrentRoute
calc_previous_route [] = none
calc_previous_route (r ∷ []) = none
calc_previous_route (r ∷ (q ∷ rs)) = some q

abbrev path_or : String → Option CurrentRoute → String
path_or p none = p
path_or p (some r) = r.path

abbrev pub update_store_set_current_route : Update
unfolding calc_previous_route
update_store_set_current_route d = on_state (
    set_current_route (record {
      path = path_or onboarding (calc_previous_route d.store.state_cache.routes);
      payload = none;
    }))

unfoldable pub get_default_path : DataProps → String
get_default_path d =
    let a = d.store.state_cache.authentication in
    if a.ssi_agent_is_set
    then home
    else if a.password_is_set || a.password_is_skipped
    then ssi_agent
    else onboarding

abbrev is_nil : List CurrentRoute → Bool
is_nil [] = true
is_nil (r ∷ rs) = false

unfoldable pub get_previous_route : DataProps → String
unfolding calc_previous_route get_default_path
get_previous_route d =
    let routes = d.store.state_cache.routes in
    if is_nil routes then root else path_or (get_default_path d) (calc_previous_route routes)

abbrev pub remove_route_update : Update
remove_route_update d = on_state remove_current_route

-- The table `backRoute`, with `none` for a path that is no key.
unfoldable pub back_route : String → Option (List Update)
back_route p =
    if p === root || p === onboarding
    then some []
    else if p === verify_recovery_seed_phrase || p === set_passcode
    then some (remove_route_update ∷ update_store_set_current_route ∷ [])
    else if p === ssi_agent
        || p === create_password
        || p === notification_details
        || p === credential_details
    then some (remove_route_update ∷ [])
    else none

unfoldable pub retreat :
    ℕ → DataProps → RootStore → Option (List Update) → Option (String × RootStore)
retreat started d s none = none
retreat started d s (some us) =
    some (get_previous_route d, update_redux_state started (get_previous_route d) d us s)

-- What a page does to go back: `getBackRoute`, then `updateReduxState`.
unfoldable pub go_back : ℕ → String → DataProps → RootStore → Option (String × RootStore)
go_back started p d s = retreat started d s (back_route p)
