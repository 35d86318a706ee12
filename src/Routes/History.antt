-- ===== src/Routes/History.antt =====
-- The visited routes over the moves between pages.
use veridian_wallet.Base.{
  ℕ, ◌≡◌, refl, sym, ap, ◌∙◌, Bool, true, false, not, Option, none, some, List, [], ◌∷◌, ◌++◌,
  String, ◌===◌, All, if◌then◌else◌, keep, drop, some-injective,
}
use veridian_wallet.Store.StateCache.{CurrentRoute, visit, reduce}
use veridian_wallet.Routes.{
  root, onboarding, terms_and_privacy, set_passcode, create_password, ssi_agent,
  verify_recovery_seed_phrase, setup_biometrics, profile_setup, credentials, notifications,
  credential_details, notification_details, get_next_root_route, get_next_onboarding_route,
  get_next_set_passcode_route, get_next_create_ssi_agent_route, get_next_create_password_route,
  get_next_profile_setup_route, StoreState, RootStore, DataProps, PageState, Update, dispatch,
  run_updates, update_redux_state, NextRoute, next_route, move_on, follow,
  update_store_current_route, back_route, go_back, retreat, entry, update_store_recovery_wallet,
  update_store_after_set_passcode_route, update_after_setup_biometrics,
  update_store_after_setup_ssi, clear_seed_phrase, update_store_after_create_password,
  update_store_after_setup_profile, remove_route_update, get_previous_route, calc_previous_route,
  with_next_route,
}

abbrev pub routes_of : RootStore → List CurrentRoute
routes_of s = s.state_cache.routes

-- An update that leaves the visited routes alone.
pub KeepsRoutes : ℕ → Update → Type 0
KeepsRoutes started f =
    (d : DataProps) (s : RootStore) → routes_of (dispatch started (f d) s) ≡ routes_of s

-- What the updates of an entry satisfy.
pub data OnEntry (P : List Update → Type 0) : Option NextRoute → Type 0 where
  no_entry : OnEntry P none
  on_entry : (f : DataProps → String) (us : List Update) → P us → OnEntry P (entry f us)

pub if_lem :
    (P : List Update → Type 0) (b : Bool) (x y : Option NextRoute)
    → OnEntry P x
    → OnEntry P y
    → OnEntry P (if b then x else y)
if_lem P true x y hx hy = hx
if_lem P false x y hx hy = hy

run_updates-append :
    (started : ℕ) (fs gs : List Update) (d : DataProps) (s : RootStore)
    → run_updates started (fs ++ gs) d s ≡ run_updates started gs d (run_updates started fs d s)
unfolding run_updates
run_updates-append started [] gs d s = refl
run_updates-append started (f ∷ fs) gs d s =
    run_updates-append started fs gs d (dispatch started (f d) s)

run_updates-routes :
    (started : ℕ) (fs : List Update) (d : DataProps) (s : RootStore)
    → All (KeepsRoutes started) fs
    → routes_of (run_updates started fs d s) ≡ routes_of s
unfolding run_updates KeepsRoutes
run_updates-routes started [] d s h = refl
run_updates-routes started (f ∷ fs) d s h =
    run_updates-routes started fs d (dispatch started (f d) s) h.1 ∙ h.0 d s

-- What holds of the updates of every entry holds of the table.
pub next_route-all :
    (P : List Update → Type 0) (now : ℕ) (p : String)
    → P []
    → P (update_store_recovery_wallet ∷ [])
    → P (update_store_after_set_passcode_route now ∷ [])
    → P (update_after_setup_biometrics ∷ [])
    → P (update_store_after_setup_ssi ∷ clear_seed_phrase ∷ [])
    → P (update_store_after_create_password ∷ [])
    → P (update_store_after_setup_profile ∷ [])
    → OnEntry P (next_route now p)
unfolding next_route
next_route-all P now p none_lem h_onboarding h_set_passcode h_setup_biometrics h_ssi_agent
      h_create_password h_profile_setup =
    if_lem P (p === root) _ _ (on_entry get_next_root_route [] none_lem) (
      if_lem P (p === onboarding) _ _
        (on_entry get_next_onboarding_route (update_store_recovery_wallet ∷ []) h_onboarding)
        (if_lem P (p === terms_and_privacy) _ _ (on_entry (λ _. set_passcode) [] none_lem) (
          if_lem P (p === set_passcode) _ _
            (on_entry (λ d. get_next_set_passcode_route d.store)
              (update_store_after_set_passcode_route now ∷ []) h_set_passcode)
            (if_lem P (p === setup_biometrics) _ _
              (on_entry get_next_root_route (update_after_setup_biometrics ∷ []) h_setup_biometrics)
              (if_lem P (p === verify_recovery_seed_phrase) _ _
                (on_entry (λ _. ssi_agent) [] none_lem)
                (if_lem P (p === ssi_agent) _ _
                  (on_entry get_next_create_ssi_agent_route
                    (update_store_after_setup_ssi ∷ clear_seed_phrase ∷ []) h_ssi_agent)
                  (if_lem P (p === create_password) _ _
                    (on_entry get_next_create_password_route
                      (update_store_after_create_password ∷ []) h_create_password)
                    (if_lem P (p === profile_setup) _ _
                      (on_entry get_next_profile_setup_route (update_store_after_setup_profile ∷ [])
                        h_profile_setup)
                      (if_lem P (p === credential_details) _ _
                        (on_entry (λ _. credentials) [] none_lem)
                        (if_lem P (p === notifications) _ _
                          (on_entry (λ _. notification_details) [] none_lem)
                          (if_lem P (p === notification_details) _ _
                            (on_entry (λ _. notifications) [] none_lem) (no_entry))))))))))))

-- No update of the table touches the visited routes.
next_route-KeepsRoutes :
    (started now : ℕ) (p : String) → OnEntry (All (KeepsRoutes started)) (next_route now p)
unfolding KeepsRoutes dispatch reduce
next_route-KeepsRoutes started now p =
    next_route-all (All (KeepsRoutes started)) now p tt ((λ d s. refl), tt) ((λ d s. refl), tt)
      ((λ d s. refl), tt) ((λ d s. refl), ((λ d s. refl), tt)) ((λ d s. refl), tt)
      ((λ d s. refl), tt)

abbrev pub route : String → CurrentRoute
route p = record { path = p; payload = none }

last_routes :
    (started : ℕ) (q : String) (w : StoreState) (g : Option PageState) (s : RootStore)
    → routes_of (
        run_updates started
          (update_store_current_route ∷ [])
          (record { store = w; state = some (with_next_route q g) })
          s)
      ≡ visit (route q) (routes_of s)
unfolding run_updates dispatch reduce
last_routes started q w none s = refl
last_routes started q w (some g) s = refl

-- The updates of an entry, followed by the one that makes the next page current.
updates-routes :
    (started : ℕ) (q : String) (us : List Update) (d : DataProps) (s : RootStore)
    → All (KeepsRoutes started) us
    → routes_of (update_redux_state started q d (us ++ (update_store_current_route ∷ [])) s)
      ≡ visit (route q) (routes_of s)
unfolding update_redux_state
updates-routes started q us d s h =
    let d' : DataProps = record d { state = some (with_next_route q d.state) } in
    ap routes_of (run_updates-append started us (update_store_current_route ∷ []) d' s)
    ∙ (last_routes started q d.store d.state (run_updates started us d' s)
        ∙ ap (visit (route q)) (run_updates-routes started us d' s h))

follow-routes :
    (started : ℕ) (q : String) (d : DataProps) (s t : RootStore) (o : Option NextRoute)
    → OnEntry (All (KeepsRoutes started)) o
    → follow started d s o ≡ some (q, t)
    → routes_of t ≡ visit (route q) (routes_of s)
follow-routes started q d s t _ no_entry h = cc
follow-routes started q d s t _ (on_entry f us k) h =
    let e = some-injective h in
    sym (ap (λ x. routes_of x.1) e)
    ∙ (updates-routes started (f d) us d s k ∙ ap (λ x. visit (route x.0) (routes_of s)) e)

-- Whatever page one moves on from, the next page becomes the current route, and the routes visited
-- before it stay in order behind it, less an earlier visit of that page.
pub move_on-routes :
    (started now : ℕ) (p q : String) (d : DataProps) (s t : RootStore)
    → move_on started now p d s ≡ some (q, t)
    → routes_of t ≡ visit (route q) (routes_of s)
unfolding move_on
move_on-routes started now p q d s t h =
    follow-routes started q d s t (next_route now p) (next_route-KeepsRoutes started now p) h

visit_fresh :
    (q : String) (r : CurrentRoute) (rs : List CurrentRoute)
    → (q === r.path) ≡ false
    → visit (route q) (r ∷ rs) ≡ route q ∷ (r ∷ keep (λ x. not (q === x.path)) rs)
visit_fresh q r rs h = rw h refl

previous :
    (d : DataProps) (x r : CurrentRoute) (rs : List CurrentRoute)
    → d.store.state_cache.routes ≡ x ∷ (r ∷ rs)
    → get_previous_route d ≡ r.path
unfolding get_previous_route calc_previous_route
previous d x r rs h = rw h refl

-- The pages whose way back only removes the current route.
go_back_plain :
    (started : ℕ) (q : String) (d : DataProps) (t : RootStore) (x r : CurrentRoute)
    (rs : List CurrentRoute)
    → back_route q ≡ some (remove_route_update ∷ [])
    → d.store.state_cache.routes ≡ x ∷ (r ∷ rs)
    → go_back started q d t
      ≡ some (
        r.path,
        record t { state_cache = record t.state_cache { routes = drop 1 (routes_of t) } },
      )
unfolding go_back retreat update_redux_state run_updates dispatch reduce
go_back_plain started q d t x r rs b h = rw (b, previous d x r rs h) refl

-- Going back undoes moving on: from a page whose way back only removes the current route, one comes
-- back to the page that one moved on from, and the visited routes are again what they were, less
-- an earlier visit of the page that was left.
pub go_back-move_on :
    (started now : ℕ) (p q : String) (d e : DataProps) (s t : RootStore) (r : CurrentRoute)
    (rs : List CurrentRoute)
    → routes_of s ≡ r ∷ rs
    → (q === r.path) ≡ false
    → back_route q ≡ some (remove_route_update ∷ [])
    → move_on started now p d s ≡ some (q, t)
    → e.store.state_cache ≡ t.state_cache
    → (u : RootStore) × (go_back started q e t ≡ some (r.path, u))
      × (routes_of u ≡ r ∷ keep (λ x. not (q === x.path)) rs)
go_back-move_on started now p q d e s t r rs hs fresh plain moved synced =
    let after : routes_of t ≡ route q ∷ (r ∷ keep (λ x. not (q === x.path)) rs) =
      move_on-routes started now p q d s t moved
      ∙ (ap (visit (route q)) hs ∙ visit_fresh q r rs fresh) in
    (
      record t { state_cache = record t.state_cache { routes = drop 1 (routes_of t) } },
      go_back_plain started q e t (route q) r (keep (λ x. not (q === x.path)) rs) plain
          (ap (λ c. c.routes) synced ∙ after),
      ap (drop 1) after,
    )
