-- ===== src/Routes/Tests.antt =====
-- Moves between pages at concrete values.
use veridian_wallet.Base.{◌≡◌, refl, true, false, not, none, some, [], ◌∷◌, ◌===◌, keep}
use veridian_wallet.Store.StateCache.{StateCache, initial_state, reduce}
use veridian_wallet.Routes.{
  RootStore, DataProps, no_page_state, onboarding, create_password, ssi_agent, dispatch,
  run_updates, update_redux_state, next_route, move_on, back_route, remove_route_update, go_back,
  get_next_create_password_route,
}
use veridian_wallet.Routes.History.{routes_of, route, go_back-move_on}
use veridian_wallet.Routes.Onboarding.{auth_in}

abbrev cache : StateCache
cache = record (initial_state 5) { routes = route create_password ∷ route onboarding ∷ [] }

abbrev page : DataProps
page = record {
  store = record { state_cache = cache; seed_phrase_cache = none; current_profile = none };
  state = some no_page_state;
}

abbrev store : RootStore
store = record { state_cache = cache; seed_phrase_cache = record { seed_phrase = ""; bran = "" } }

abbrev after : RootStore
after = record store {
  state_cache = record cache {
    authentication = record cache.authentication {
      password_is_set = true;
      password_is_skipped = false;
    };
    routes = route ssi_agent ∷ route create_password ∷ route onboarding ∷ [];
  };
}

moved : move_on 5 9 create_password page store ≡ some (ssi_agent, after)
unfolding move_on next_route update_redux_state run_updates dispatch reduce
    get_next_create_password_route
moved = refl

passcode_test : (auth_in after).password_is_set ≡ true
passcode_test = refl

plain : back_route ssi_agent ≡ some (remove_route_update ∷ [])
unfolding back_route
plain = refl

abbrev next_page : DataProps
next_page = record {
  store = record {
    state_cache = after.state_cache;
    seed_phrase_cache = none;
    current_profile = none;
  };
  state = none;
}

go_back-move_on_example :
    (u : RootStore) × (go_back 5 ssi_agent next_page after ≡ some (create_password, u))
    × (routes_of u
        ≡ route create_password ∷ keep (λ x. not (ssi_agent === x.path)) (route onboarding ∷ []))
go_back-move_on_example =
    go_back-move_on 5 9 create_password ssi_agent page next_page store after (route create_password)
      (route onboarding ∷ []) refl refl plain moved refl
