-- ===== src/Store/StateCache/State.antt =====
-- The state of the slice: src/store/reducers/stateCache/stateCache.types.ts, and its initial value.
use veridian_wallet.Base.{ℕ, Bool, true, false, Option, none, some, List, [], String}
use veridian_wallet.Auth.{LoginAttempts}
use veridian_wallet.Store.Types.{DAppConnection, MultisigConnectionDetails}

pub data InitializationPhase : Type 0 where
  phase_zero phase_one phase_two : InitializationPhase

pub data GlobalLoadingType : Type 0 where
  no_loading hidebg showbg : GlobalLoadingType

-- `payload` is carried along as text.
pub record CurrentRoute : Type 0 where
  pub path : String
  pub payload : Option String

pub record Authentication : Type 0 where
  pub logged_in : Bool
  pub time : ℕ
  pub passcode_is_set : Bool
  pub seed_phrase_is_set : Bool
  pub password_is_set : Bool
  pub password_is_skipped : Bool
  pub ssi_agent_is_set : Bool
  pub ssi_agent_url : String
  pub recovery_wallet_progress : Bool
  pub login_attempt : LoginAttempts
  pub first_app_launch : Bool
  pub finish_setup_biometrics : Option Bool

-- A request of a connected application to sign a payload (`PeerConnectSigningEventRequest`, less
-- its callback).
pub record IncomingRequest : Type 0 where
  pub identifier : String
  pub payload : String
  pub peer_connection : DAppConnection

pub record QueueProps : Type 0 where
  pub is_paused : Bool
  pub is_processing : Bool
  pub queues : List IncomingRequest

-- `ToastMsgType` is an enum of strings.
pub record ToastStackItem : Type 0 where
  pub id : String
  pub message : String

pub record PendingJoinGroupMetadata : Type 0 where
  pub is_pending_join_group : Bool
  pub group_id : String
  pub group_name : String
  pub initiator_name : Option String
  pub connection : MultisigConnectionDetails

pub record StateCache : Type 0 where
  pub initialization_phase : InitializationPhase
  pub recovery_complete_no_interruption : Bool
  pub is_online : Bool
  pub routes : List CurrentRoute
  pub authentication : Authentication
  pub queue_incoming_request : QueueProps
  pub camera_direction : Option String
  pub show_generic_error : Option Bool
  pub show_no_witness_alert : Option Bool
  pub toast_msgs : List ToastStackItem
  pub force_init_app : Option ℕ
  pub show_loading : GlobalLoadingType
  pub is_setup_profile : Option Bool
  pub pending_join_group_metadata : Option PendingJoinGroupMetadata
  pub show_verify_seed_phrase_alert : Option Bool
  pub is_syncing_data : Option Bool
  pub is_show_seed_phrase_screen : Option Bool
  pub is_in_biometric_process : Option Bool

-- `initialState`; `started` is the time at which the module was loaded.
abbrev pub initial_state : ℕ → StateCache
initial_state started = record {
  initialization_phase = phase_zero;
  recovery_complete_no_interruption = false;
  is_online = false;
  routes = [];
  authentication = record {
    logged_in = false;
    time = 0;
    passcode_is_set = false;
    seed_phrase_is_set = false;
    password_is_set = false;
    password_is_skipped = false;
    ssi_agent_is_set = false;
    ssi_agent_url = "";
    recovery_wallet_progress = false;
    login_attempt = record { attempts = 0; locked_until = started };
    first_app_launch = true;
    finish_setup_biometrics = none;
  };
  queue_incoming_request = record { is_paused = false; is_processing = false; queues = [] };
  camera_direction = none;
  show_generic_error = none;
  show_no_witness_alert = none;
  toast_msgs = [];
  force_init_app = some 0;
  show_loading = no_loading;
  is_setup_profile = none;
  pending_join_group_metadata = none;
  show_verify_seed_phrase_alert = none;
  is_syncing_data = none;
  is_show_seed_phrase_screen = none;
  is_in_biometric_process = none;
}
