-- ===== src/Routes/Onboarding.antt =====
-- The steps of the onboarding: what a move keeps, and which page the flags call for.
use veridian_wallet.Base.{
  ℕ, ◌↔◌, ◌≡◌, refl, sym, Bool, true, false, ◌||◌, Option, none, some, List, [], ◌∷◌, ◌++◌, String,
  All, if◌then◌else◌, some-injective,
}
use veridian_wallet.Store.StateCache.{Authentication, reduce, is_set}
use mathlib.Core.Path.{subst}
use veridian_wallet.Routes.{
  RootStore, DataProps, Update, dispatch, run_updates, update_redux_state, NextRoute, next_route,
  move_on, follow, update_store_current_route, with_next_route, auth_route, get_next_root_route,
  is_joining, profile_setup, home, verify_recovery_seed_phrase, ssi_agent, create_password,
  onboarding, setup_biometrics,
}
use veridian_wallet.Routes.History.{OnEntry, no_entry, on_entry, next_route-all}

abbrev pub auth_in : RootStore → Authentication
auth_in s = s.state_cache.authentication

-- The passcode and the agent that are set in `a` are set in `b`.
pub record KeepsSetup (a b : Authentication) : Type 0 where
  pub passcode : a.passcode_is_set ≡ true → b.passcode_is_set ≡ true
  pub agent : a.ssi_agent_is_set ≡ true → b.ssi_agent_is_set ≡ true

-- An update that keeps them, when it reads the store as it was.
pub IsForward : ℕ → Update → Type 0
IsForward started f =
    (d : DataProps) (s : RootStore)
    → KeepsSetup d.store.state_cache.authentication (auth_in s)
    → KeepsSetup d.store.state_cache.authentication (auth_in (dispatch started (f d) s))

run_updates-KeepsSetup :
    (started : ℕ) (fs : List Update) (d : DataProps) (s : RootStore)
    → All (IsForward started) fs
    → KeepsSetup d.store.state_cache.authentication (auth_in s)
    → KeepsSetup d.store.state_cache.authentication (auth_in (run_updates started fs d s))
unfolding run_updates IsForward
run_updates-KeepsSetup started [] d s h k = k
run_updates-KeepsSetup started (f ∷ fs) d s h k =
    run_updates-KeepsSetup started fs d (dispatch started (f d) s) h.1 (h.0 d s k)

next_route-IsForward :
    (started now : ℕ) (p : String)
    → OnEntry
        (λ us. All (IsForward started) (us ++ (update_store_current_route ∷ [])))
        (next_route now p)
unfolding IsForward dispatch reduce
next_route-IsForward started now p =
    next_route-all (λ us. All (IsForward started) (us ++ (update_store_current_route ∷ []))) now p
      ((λ d s k. k), tt)
      ((λ d s k. record { passcode = λ e. e; agent = λ e. e }), ((λ d s k. k), tt))
      ((λ d s k. record { passcode = λ e. refl; agent = λ e. e }), ((λ d s k. k), tt))
      ((λ d s k. record { passcode = λ e. e; agent = λ e. e }), ((λ d s k. k), tt))
      (
        (λ d s k. record { passcode = λ e. e; agent = λ e. refl }),
        ((λ d s k. k), ((λ d s k. k), tt)),
      )
      ((λ d s k. record { passcode = λ e. e; agent = λ e. e }), ((λ d s k. k), tt))
      ((λ d s k. k), ((λ d s k. k), tt))

follow-KeepsSetup :
    (started : ℕ) (q : String) (d : DataProps) (s t : RootStore) (o : Option NextRoute)
    → OnEntry (λ us. All (IsForward started) (us ++ (update_store_current_route ∷ []))) o
    → d.store.state_cache.authentication ≡ auth_in s
    → follow started d s o ≡ some (q, t)
    → KeepsSetup (auth_in s) (auth_in t)
unfolding update_redux_state
follow-KeepsSetup started q d s t _ no_entry synced h = cc
follow-KeepsSetup started q d s t _ (on_entry f us k) synced h =
    let d' : DataProps = record d { state = some (with_next_route (f d) d.state) } in
    let fs = us ++ (update_store_current_route ∷ []) in
    let start : KeepsSetup d.store.state_cache.authentication (auth_in s) = record {
      passcode = λ e. rw (sym synced) e;
      agent = λ e. rw (sym synced) e;
    } in
    let kept : KeepsSetup d.store.state_cache.authentication
        (auth_in (run_updates started fs d' s)) =
      run_updates-KeepsSetup started fs d' s k start in
    subst (λ a. KeepsSetup a (auth_in t)) synced
      (subst (λ x. KeepsSetup d.store.state_cache.authentication (auth_in x.1)) (some-injective h)
        kept)

-- Moving on from any page, with the store as it is, takes back neither a passcode that is set nor an
-- agent that is set up.
pub move_on-KeepsSetup :
    (started now : ℕ) (p q : String) (d : DataProps) (s t : RootStore)
    → d.store.state_cache.authentication ≡ auth_in s
    → move_on started now p d s ≡ some (q, t)
    → KeepsSetup (auth_in s) (auth_in t)
unfolding move_on
move_on-KeepsSetup started now p q d s t synced h =
    follow-KeepsSetup started q d s t (next_route now p) (next_route-IsForward started now p) synced
      h

-- The page that the flags call for: a group to join, the agent, a profile in setup, the password, the
-- recovery, the biometrics, the passcode.
start_page : (j g u w r b p : Bool) → String
start_page j g u w r b p =
    if j
    then profile_setup
    else if g
    then (if u then profile_setup else home)
    else if w
    then (if r then verify_recovery_seed_phrase else ssi_agent)
    else if b
    then create_password
    else if p
    then setup_biometrics
    else onboarding

start_page-home :
    (j g u w r b p : Bool)
    → (start_page j g u w r b p ≡ home) ↔ ((j ≡ false) × ((g ≡ true) × (u ≡ false)))
unfolding start_page
start_page-home true g u w r b p = (λ e. cc, λ h. cc)
start_page-home false true true w r b p = (λ e. cc, λ h. cc)
start_page-home false true false w r b p = (λ e. (refl, (refl, refl)), λ h. refl)
start_page-home false false u true true b p = (λ e. cc, λ h. cc)
start_page-home false false u true false b p = (λ e. cc, λ h. cc)
start_page-home false false u false r true p = (λ e. cc, λ h. cc)
start_page-home false false u false r false true = (λ e. cc, λ h. cc)
start_page-home false false u false r false false = (λ e. cc, λ h. cc)

start_page-onboarding :
    (g u w r b p : Bool)
    → (start_page false g u w r b p ≡ onboarding)
      ↔ ((p ≡ false) × ((g ≡ false) × ((w ≡ false) × (b ≡ false))))
unfolding start_page
start_page-onboarding true true w r b p = (λ e. cc, λ h. cc)
start_page-onboarding true false w r b p = (λ e. cc, λ h. cc)
start_page-onboarding false u true true b p = (λ e. cc, λ h. cc)
start_page-onboarding false u true false b p = (λ e. cc, λ h. cc)
start_page-onboarding false u false r true p = (λ e. cc, λ h. cc)
start_page-onboarding false u false r false true = (λ e. cc, λ h. cc)
start_page-onboarding false u false r false false = (λ e. (refl, (refl, (refl, refl))), λ h. refl)

-- Without a profile, the wallet starts on the home page exactly when its agent is set up, no profile
-- is being set up and no group is waiting to be joined.
pub get_next_root_route-home :
    (d : DataProps)
    → d.store.current_profile ≡ none
    → (get_next_root_route d ≡ home) ↔ (
        (is_joining d.store.state_cache.pending_join_group_metadata ≡ false)
        × ((d.store.state_cache.authentication.ssi_agent_is_set ≡ true)
            × (is_set d.store.state_cache.is_setup_profile ≡ false)))
unfolding get_next_root_route auth_route start_page
get_next_root_route-home d none_current =
    let a = d.store.state_cache.authentication in
    rw none_current (
      start_page-home (is_joining d.store.state_cache.pending_join_group_metadata)
        a.ssi_agent_is_set (is_set d.store.state_cache.is_setup_profile)
        (a.password_is_set || a.password_is_skipped) a.recovery_wallet_progress
        (is_set a.finish_setup_biometrics) a.passcode_is_set)

-- Without a profile and without a group that waits to be joined, the wallet starts on the first page
-- of the onboarding exactly when no passcode is set, no agent is set up, the password is neither set
-- nor skipped and the setup of the biometrics is not finished.
pub get_next_root_route-onboarding :
    (d : DataProps)
    → d.store.current_profile ≡ none
    → is_joining d.store.state_cache.pending_join_group_metadata ≡ false
    → (get_next_root_route d ≡ onboarding) ↔ (
        let a = d.store.state_cache.authentication in
        (a.passcode_is_set ≡ false)
        × ((a.ssi_agent_is_set ≡ false)
            × (((a.password_is_set || a.password_is_skipped) ≡ false)
                × (is_set a.finish_setup_biometrics ≡ false))))
unfolding get_next_root_route auth_route start_page
get_next_root_route-onboarding d none_current idle =
    let a = d.store.state_cache.authentication in
    rw (none_current, idle)
      (start_page-onboarding a.ssi_agent_is_set (is_set d.store.state_cache.is_setup_profile)
        (a.password_is_set || a.password_is_skipped) a.recovery_wallet_progress
        (is_set a.finish_setup_biometrics) a.passcode_is_set)
