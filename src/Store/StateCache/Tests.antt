-- ===== src/Store/StateCache/Tests.antt =====
-- The slice at concrete values.
use veridian_wallet.Base.{◌≡◌, refl, ◌≢◌, false, none, some, List, String, [], ◌∷◌, ◌++◌}
use veridian_wallet.Store.Types.{DAppConnection}
use veridian_wallet.Store.StateCache.{
  CurrentRoute, IncomingRequest, QueueProps, StateCache, StateAction, set_queue_incoming_request,
  dequeue_incoming_request, enqueue_incoming_request, enqueue, reduce, reduce_all, initial_state,
}
use veridian_wallet.Store.StateCache.Queue.{
  queue_of, arrived_all, taken_all, fifo, IsServed, enqueue_only_when_paused,
}

abbrev dapp : DAppConnection
dapp = record {
  meerkat_id = "m";
  name = none;
  url = none;
  created_at = none;
  icon_b64 = none;
  selected_aid = some "E1";
}

abbrev request : String → IncomingRequest
request p = record { identifier = "E1"; payload = p; peer_connection = dapp }

abbrev actions : List StateAction
actions =
    set_queue_incoming_request (request "a")
    ∷ enqueue_incoming_request (request "b" ∷ request "c" ∷ [])
    ∷ dequeue_incoming_request
    ∷ []

queue_test : queue_of (reduce_all 5 actions (initial_state 5)) ≡ request "b" ∷ request "c" ∷ []
unfolding reduce_all reduce
queue_test = refl

fifo_example :
    queue_of (initial_state 5) ++ arrived_all actions
    ≡ taken_all 5 actions (initial_state 5) ++ queue_of (reduce_all 5 actions (initial_state 5))
fifo_example = fifo 5 actions (initial_state 5) (tt, (tt, (tt, tt)))

abbrev idle_queue : QueueProps
idle_queue = record { is_paused = false; is_processing = false; queues = [] }

one_request_nonempty : request "a" ∷ [] ≢ []
one_request_nonempty = λ e. cc

enqueue_only_when_paused_example :
    ((enqueue (request "a" ∷ []) idle_queue).is_processing ≡ false)
    × (¬ IsServed (enqueue (request "a" ∷ []) idle_queue))
enqueue_only_when_paused_example =
    enqueue_only_when_paused (request "a" ∷ []) idle_queue one_request_nonempty refl

abbrev home_route : CurrentRoute
home_route = record { path = "/tabs/home"; payload = none }

abbrev at_home : StateCache
at_home = record (initial_state 5) { routes = home_route ∷ [] }
