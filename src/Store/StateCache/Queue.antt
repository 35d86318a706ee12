-- ===== src/Store/StateCache/Queue.antt =====
-- The queue of incoming requests: its order, and when it is processed.
use veridian_wallet.Base.{
  ℕ, ◌≡◌, refl, sym, ap, ◌≢◌, ◌∙◌, Bool-cases, inl, inr, Bool, true, false, List, String, [], ◌∷◌,
  ◌++◌, take, drop, length, All, length-append, arith, ltb,
}
use mathlib.Core.List.{append-nil, append_assoc}
use veridian_wallet.Store.StateCache.{
  IncomingRequest, QueueProps, StateCache, StateAction, set_pause_queue_incoming_request,
  set_queue_incoming_request, dequeue_incoming_request, set_toast_msg, enqueue_incoming_request,
  clear_state_cache, set_pause, set_queue, push_toast, dequeue, enqueue, reduce, reduce_all,
}

abbrev pub queue_of : StateCache → List IncomingRequest
queue_of s = s.queue_incoming_request.queues

-- The requests that an action brings, and the one that it takes.
abbrev pub arrived : StateAction → List IncomingRequest
arrived (set_queue_incoming_request r) = r ∷ []
arrived (enqueue_incoming_request rs) = rs
arrived _ = []

abbrev pub taken : StateAction → StateCache → List IncomingRequest
taken dequeue_incoming_request s = take 1 (queue_of s)
taken _ s = []

abbrev pub arrived_all : List StateAction → List IncomingRequest
arrived_all [] = []
arrived_all (a ∷ as') = arrived a ++ arrived_all as'

pub taken_all : ℕ → List StateAction → StateCache → List IncomingRequest
taken_all started [] s = []
taken_all started (a ∷ as') s = taken a s ++ taken_all started as' (reduce started a s)

-- Logging out of the wallet empties the queue.
abbrev pub KeepsQueue : StateAction → Type 0
KeepsQueue clear_state_cache = ⊥
KeepsQueue _ = Unit

shift_lem :
    (paused busy : Bool) (l : List IncomingRequest)
    → l
      ≡ take 1 l
        ++ (dequeue (record { is_paused = paused; is_processing = busy; queues = l })).queues
shift_lem paused busy [] = refl
shift_lem paused busy (x ∷ l) = ground arith

push_toast-queue :
    (id message : String) (s : StateCache) → queue_of (push_toast id message s) ≡ queue_of s
push_toast-queue id message s = ground arith

step_fifo :
    (started : ℕ) (a : StateAction) (s : StateCache)
    → KeepsQueue a
    → queue_of s ++ arrived a ≡ taken a s ++ queue_of (reduce started a s)
unfolding reduce
step_fifo started (set_queue_incoming_request r) s k = refl
step_fifo started (enqueue_incoming_request rs) s k = refl
step_fifo started dequeue_incoming_request s k =
    let q = s.queue_incoming_request in
    append-nil _ ∙ shift_lem q.is_paused q.is_processing q.queues
step_fifo started clear_state_cache s k = absurd k
step_fifo started (set_toast_msg id message) s k =
    append-nil _ ∙ sym (push_toast-queue id message s)
step_fifo started _ s k = append-nil _

-- Requests leave the queue in the order in which they came: over any actions that do not clear the
-- state, what was queued and what arrived is, in order, what was taken and what is queued.
pub fifo :
    (started : ℕ) (as' : List StateAction) (s : StateCache)
    → All KeepsQueue as'
    → queue_of s ++ arrived_all as' ≡ taken_all started as' s ++ queue_of (reduce_all started as' s)
unfolding taken_all reduce_all
fifo started [] s k = append-nil _
fifo started (a ∷ as') s (k, ks) =
    let next = reduce started a s in
    sym (append_assoc (queue_of s) (arrived a) (arrived_all as'))
    ∙ (ap (λ l. l ++ arrived_all as') (step_fifo started a s k)
        ∙ (append_assoc (taken a s) (queue_of next) (arrived_all as')
            ∙ (ap (λ l. taken a s ++ l) (fifo started as' next ks)
                ∙ sym (append_assoc (taken a s) (taken_all started as' next) _))))

-- A paused queue is not processed, and one that is neither paused nor processed is empty.
pub record IsServed (q : QueueProps) : Type 0 where
  pub quiet : q.is_paused ≡ true → q.is_processing ≡ false
  pub idle : q.is_paused ≡ false → q.is_processing ≡ false → q.queues ≡ []

-- The action `enqueueIncomingRequest`.
abbrev pub IsEnqueue : StateAction → Type 0
IsEnqueue (enqueue_incoming_request rs) = Unit
IsEnqueue _ = ⊥

nil_of_length : {A : Type 0} (l : List A) → ltb 0 (length l) ≡ false → l ≡ []
nil_of_length [] h = refl
nil_of_length (x ∷ l) h = absurd (ground arith)

set_queue-IsServed : (r : IncomingRequest) (q : QueueProps) → IsServed q → IsServed (set_queue r q)
set_queue-IsServed r q h = record {
  quiet = λ e. ground (arith, h.quiet e);
  idle = λ e f. absurd (ground arith);
}

set_pause-IsServed : (b : Bool) (q : QueueProps) → IsServed (set_pause b q)
set_pause-IsServed true q = record { quiet = λ _. refl; idle = λ e f. cc }
set_pause-IsServed false q = record { quiet = λ e. cc; idle = λ e f. cc }

dequeue-IsServed : (q : QueueProps) → IsServed q → IsServed (dequeue q)
dequeue-IsServed q h = elim (Bool-cases (ltb 0 (length q.queues))) [
  | inl e ↦ rw e (record {
    quiet = λ p. rw p refl;
    idle = λ p f. nil_of_length (drop 1 q.queues) (ground arith);
  })
  | inr e ↦ rw e h
]

push_toast-queue_props :
    (id message : String) (s : StateCache)
    → (push_toast id message s).queue_incoming_request ≡ s.queue_incoming_request
push_toast-queue_props id message s = ground arith

-- Every action but `enqueueIncomingRequest` keeps this: a paused queue is not processed, and a queue
-- that is neither paused nor processed is empty.
pub reduce-IsServed :
    (started : ℕ) (a : StateAction) (s : StateCache)
    → ¬ IsEnqueue a
    → IsServed s.queue_incoming_request
    → IsServed (reduce started a s).queue_incoming_request
unfolding reduce
reduce-IsServed started (set_queue_incoming_request r) s n h =
    set_queue-IsServed r s.queue_incoming_request h
reduce-IsServed started (enqueue_incoming_request rs) s n h = absurd (n tt)
reduce-IsServed started dequeue_incoming_request s n h = dequeue-IsServed s.queue_incoming_request h
reduce-IsServed started (set_pause_queue_incoming_request b) s n h =
    set_pause-IsServed b s.queue_incoming_request
reduce-IsServed started clear_state_cache s n h = record { quiet = λ _. refl; idle = λ _ _. refl }
reduce-IsServed started (set_toast_msg id message) s n h =
    rw (push_toast-queue_props id message s) h
reduce-IsServed started _ s n h = h

enqueue_starts :
    (r : IncomingRequest) (rs : List IncomingRequest) (q : QueueProps)
    → q.is_processing ≡ false
    → (enqueue (r ∷ rs) q).is_processing ≡ q.is_paused
enqueue_starts r rs q idle = ground arith

-- After `enqueueIncomingRequest` has put requests into a queue that is not being processed, the queue
-- is processed exactly if it is paused, so that it is paused and processed, or not empty and neither.
pub enqueue_only_when_paused :
    (rs : List IncomingRequest) (q : QueueProps)
    → rs ≢ []
    → q.is_processing ≡ false
    → ((enqueue rs q).is_processing ≡ q.is_paused) × (¬ IsServed (enqueue rs q))
enqueue_only_when_paused [] q ne idle = absurd (ne refl)
enqueue_only_when_paused (r ∷ rs) q ne idle = (
  enqueue_starts r rs q idle,
  λ s. elim (Bool-cases q.is_paused) [
    | inl p ↦
        let started : true ≡ false = sym p ∙ (sym (enqueue_starts r rs q idle) ∙ s.quiet p) in cc
    | inr p ↦
        let left = s.idle p (enqueue_starts r rs q idle ∙ p) in
        absurd (omega (arith, ap length left, length-append q.queues (r ∷ rs)))
  ],
)
