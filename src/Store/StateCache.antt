-- ===== src/Store/StateCache.antt =====
-- src/store/reducers/stateCache: the slice with the phase of start-up, the visited routes, the
-- authentication flags, the queue of incoming requests and the toasts.
mod State
pub mod Queue
pub mod Visited
mod Tests
pub use State.*
use veridian_wallet.Base.{
  ℕ, ◌+◌, ◌<◌, Bool, true, false, not, ◌&&◌, Option, none, some, List, [], ◌∷◌, ◌++◌, String, keep,
  drop, length, ltb, ◌===◌, if◌then◌else◌,
}
use veridian_wallet.Auth.{LoginAttempts}

-- The actions of the slice, one for each reducer. A toast's identifier is a random salt, drawn by
-- the reducer.
pub data StateAction : Type 0 where
  set_is_online : Bool → StateAction
  set_initialization_phase : InitializationPhase → StateAction
  set_recovery_complete_no_interruption : StateAction
  set_current_route : CurrentRoute → StateAction
  remove_current_route : StateAction
  remove_route : String → StateAction
  reset_all_routes : StateAction
  set_login_attempt : LoginAttempts → StateAction
  set_first_app_launch_complete : StateAction
  login logout : StateAction
  set_authentication : Authentication → StateAction
  set_toast_msg : String → String → StateAction
  remove_toast_message : String → StateAction
  set_pause_queue_incoming_request : Bool → StateAction
  set_queue_incoming_request : IncomingRequest → StateAction
  dequeue_incoming_request : StateAction
  enqueue_incoming_request : List IncomingRequest → StateAction
  set_camera_direction : Option String → StateAction
  show_generic_error : Option Bool → StateAction
  show_global_loading : GlobalLoadingType → StateAction
  show_no_witness_alert : Option Bool → StateAction
  clear_state_cache : StateAction
  set_is_setup_profile : Option Bool → StateAction
  set_pending_join_group_metadata : Option PendingJoinGroupMetadata → StateAction
  set_seed_phrase_verified : Bool → StateAction
  show_verify_seed_phrase_alert : Bool → StateAction
  set_ssi_agent_is_set : Bool → StateAction
  set_syncing_data : Bool → StateAction
  set_show_seed_phrase_screen : Bool → StateAction
  set_is_in_biometric_process : Bool → StateAction

-- `ToastMsgType.IDENTIFIER_UPDATED`.
abbrev pub identifier_updated : String
identifier_updated = "identifierUpdated"

-- Whether an optional flag is set.
abbrev pub is_set : Option Bool → Bool
is_set none = false
is_set (some b) = b

abbrev pub visit : CurrentRoute → List CurrentRoute → List CurrentRoute
visit r routes = r ∷ keep (λ q. not (r.path === q.path)) routes

abbrev pub push_toast : String → String → StateCache → StateCache
push_toast id message s =
    if is_set s.is_setup_profile && message === identifier_updated
    then s
    else record s { toast_msgs = record { id = id; message = message } ∷ s.toast_msgs }

abbrev pub set_pause : Bool → QueueProps → QueueProps
set_pause paused q = record q { is_paused = paused; is_processing = not paused }

abbrev pub set_queue : IncomingRequest → QueueProps → QueueProps
set_queue r q = record q {
  is_processing = if not q.is_paused && not q.is_processing then true else q.is_processing;
  queues = q.queues ++ (r ∷ []);
}

abbrev pub shifted : List IncomingRequest → QueueProps → QueueProps
shifted rest q = record q {
  is_processing = if q.is_paused then false else ltb 0 (length rest);
  queues = rest;
}

abbrev pub dequeue : QueueProps → QueueProps
dequeue q = if ltb 0 (length q.queues) then shifted (drop 1 q.queues) q else q

abbrev pub enqueue : List IncomingRequest → QueueProps → QueueProps
enqueue rs q = record q {
  is_processing =
      if q.is_paused && not q.is_processing && ltb 0 (length rs) then true else q.is_processing;
  queues = q.queues ++ rs;
}

-- `state.forceInitApp || 0`.
abbrev pub or_zero : Option ℕ → ℕ
or_zero none = 0
or_zero (some n) = n

abbrev pub on_auth : (Authentication → Authentication) → StateCache → StateCache
on_auth f s = record s { authentication = f s.authentication }

abbrev pub on_queue : (QueueProps → QueueProps) → StateCache → StateCache
on_queue f s = record s { queue_incoming_request = f s.queue_incoming_request }

-- The reducer of the slice.
unfoldable pub reduce : ℕ → StateAction → StateCache → StateCache
reduce started (set_is_online b) s = record s { is_online = b }
reduce started (set_initialization_phase p) s = record s { initialization_phase = p }
reduce started set_recovery_complete_no_interruption s = record s {
  recovery_complete_no_interruption = true;
}
reduce started (set_current_route r) s = record s { routes = visit r s.routes }
reduce started remove_current_route s = record s { routes = drop 1 s.routes }
reduce started (remove_route p) s = record s { routes = keep (λ q. not (q.path === p)) s.routes }
reduce started reset_all_routes s = record s { routes = [] }
reduce started (set_login_attempt a) s = on_auth (λ x. record x { login_attempt = a }) s
reduce started set_first_app_launch_complete s =
    on_auth (λ x. record x { first_app_launch = false }) s
reduce started login s = on_auth (λ x. record x { logged_in = true }) s
reduce started logout s = on_auth (λ x. record x { logged_in = false }) s
reduce started (set_authentication a) s = record s { authentication = a }
reduce started (set_toast_msg id message) s = push_toast id message s
reduce started (remove_toast_message k) s = record s {
  toast_msgs = keep (λ t. not (t.id === k)) s.toast_msgs;
}
reduce started (set_pause_queue_incoming_request b) s = on_queue (set_pause b) s
reduce started (set_queue_incoming_request r) s = on_queue (set_queue r) s
reduce started dequeue_incoming_request s = on_queue dequeue s
reduce started (enqueue_incoming_request rs) s = on_queue (enqueue rs) s
reduce started (set_camera_direction d) s = record s { camera_direction = d }
reduce started (StateAction.show_generic_error b) s = record s { show_generic_error = b }
reduce started (show_global_loading l) s = record s { show_loading = l }
reduce started (StateAction.show_no_witness_alert b) s = record s { show_no_witness_alert = b }
reduce started clear_state_cache s = record (initial_state started) {
  force_init_app = some (or_zero s.force_init_app + 1);
}
reduce started (set_is_setup_profile b) s = record s { is_setup_profile = b }
reduce started (set_pending_join_group_metadata m) s = record s { pending_join_group_metadata = m }
reduce started (set_seed_phrase_verified b) s = on_auth (λ x. record x { seed_phrase_is_set = b }) s
reduce started (StateAction.show_verify_seed_phrase_alert b) s = record s {
  show_verify_seed_phrase_alert = some b;
}
reduce started (set_ssi_agent_is_set b) s = on_auth (λ x. record x { ssi_agent_is_set = b }) s
reduce started (set_syncing_data b) s = record s { is_syncing_data = some b }
reduce started (set_show_seed_phrase_screen b) s = record s { is_show_seed_phrase_screen = some b }
reduce started (set_is_in_biometric_process b) s = record s { is_in_biometric_process = some b }

unfoldable pub reduce_all : ℕ → List StateAction → StateCache → StateCache
reduce_all started [] s = s
reduce_all started (a ∷ as') s = reduce_all started as' (reduce started a s)
