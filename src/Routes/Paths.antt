-- ===== src/Routes/Paths.antt =====
-- src/routes/paths.ts, src/routes/nextRoute/nextRoute.types.ts, the slice of the seed phrase
-- (src/store/reducers/seedPhraseCache) and `updateReduxState` of src/store/utils.ts.
use veridian_wallet.Base.{ℕ, Bool, Option, none, some, List, [], ◌∷◌, String}
use veridian_wallet.Store.Types.{Profile}
use veridian_wallet.Store.StateCache.{StateCache, StateAction, reduce}

-- `RoutePath` and `TabsRoutePath` are enums of strings.
abbrev pub root : String
root = "/"

abbrev pub onboarding : String
onboarding = "/onboarding"

abbrev pub terms_and_privacy : String
terms_and_privacy = "/termsandprivacy"

abbrev pub set_passcode : String
set_passcode = "/setpasscode"

abbrev pub create_password : String
create_password = "/createpassword"

abbrev pub ssi_agent : String
ssi_agent = "/ssiagent"

abbrev pub verify_recovery_seed_phrase : String
verify_recovery_seed_phrase = "/verifyrecoveryseedphrase"

abbrev pub setup_biometrics : String
setup_biometrics = "/setup-biometrics"

abbrev pub profile_setup : String
profile_setup = "/profile-setup"

abbrev pub home : String
home = "/tabs/home"

abbrev pub credentials : String
credentials = "/tabs/credentials"

abbrev pub notifications : String
notifications = "/tabs/notifications"

abbrev pub credential_details : String
credential_details = "/tabs/credentials/:id"

abbrev pub notification_details : String
notification_details = "/tabs/notifications/:id"

-- `GROUP_PROFILE_SETUP.replace(":id", id)`, for an identifier without the pattern character `$`.
abbrev pub group_profile_setup : String → String
group_profile_setup id = Prim.Native.String.◌++◌ "/group-profile-setup/" id

pub record SeedPhraseCache : Type 0 where
  pub seed_phrase : String
  pub bran : String

-- `PageState`, with the three properties that `nextRoute.ts` reads beyond the declared ones.
pub record PageState : Type 0 where
  pub recovery_wallet_progress : Option Bool
  pub seed_phrase : Option String
  pub bran : Option String
  pub next_route : Option String
  pub skipped : Option Bool
  pub is_setup_profile : Option Bool
  pub finished_setup : Option Bool
  pub should_setup_profile : Option Bool
  pub is_group : Option Bool
  pub id : Option String

abbrev pub no_page_state : PageState
no_page_state = record {
  recovery_wallet_progress = none;
  seed_phrase = none;
  bran = none;
  next_route = none;
  skipped = none;
  is_setup_profile = none;
  finished_setup = none;
  should_setup_profile = none;
  is_group = none;
  id = none;
}

pub record StoreState : Type 0 where
  pub state_cache : StateCache
  pub seed_phrase_cache : Option SeedPhraseCache
  pub current_profile : Option Profile

-- `DataProps`, less `payload`, which is not read.
pub record DataProps : Type 0 where
  pub store : StoreState
  pub state : Option PageState

-- The slices that navigation changes, and the actions on them.
pub record RootStore : Type 0 where
  pub state_cache : StateCache
  pub seed_phrase_cache : SeedPhraseCache

pub data RootAction : Type 0 where
  on_state : StateAction → RootAction
  set_seed_phrase_cache : SeedPhraseCache → RootAction
  clear_seed_phrase_cache : RootAction

unfoldable pub dispatch : ℕ → RootAction → RootStore → RootStore
dispatch started (on_state a) s = record s { state_cache = reduce started a s.state_cache }
dispatch started (set_seed_phrase_cache c) s = record s { seed_phrase_cache = c }
dispatch started clear_seed_phrase_cache s = record s {
  seed_phrase_cache = record { seed_phrase = ""; bran = "" };
}

-- A change of the store that a page makes; it is computed from the data of the page.
abbrev pub Update : Type 0
Update = DataProps → RootAction

abbrev pub with_next_route : String → Option PageState → PageState
with_next_route p (some s) = record s { next_route = some p }
with_next_route p none = record no_page_state { next_route = some p }

unfoldable pub run_updates : ℕ → List Update → DataProps → RootStore → RootStore
run_updates started [] data' s = s
run_updates started (f ∷ fs) data' s = run_updates started fs data' (dispatch started (f data') s)

-- `updateReduxState`: every update reads the same data, whose store does not change.
unfoldable pub update_redux_state : ℕ → String → DataProps → List Update → RootStore → RootStore
update_redux_state started next data' fs s =
    run_updates started fs (record data' { state = some (with_next_route next data'.state) }) s
