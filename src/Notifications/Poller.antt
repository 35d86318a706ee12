-- ===== src/Notifications/Poller.antt =====
-- `_pollNotifications` and `pollNotifications`, less the retry of failed notifications. What a
-- notification is processed by (`processNotification`) is a parameter: an action on the rest of the
-- agent that may throw. A round of the loop gets what it meets as an argument: the clock, whether one
-- is logged in and online, and what KERIA answers.
use veridian_wallet.Base.{
  ℕ, ◌+◌, ◌-◌, Bool, not, ◌||◌, Option, none, some, List, [], ◌∷◌, String, Result, ok, err, ltb,
  ◌===◌, if◌then◌else◌,
}
use veridian_wallet.Base.Dict.{Dict, insert}
use veridian_wallet.Base.States.{Action, ◌>>◌, pure}
use veridian_wallet.Storage.{
  StorageError, Content, notification_marker, failed_notifications, StorageService,
}
use veridian_wallet.Storage.Basic.{content_of, new_record, save, create_or_update_basic_record}
use veridian_wallet.Store.Types.{Notification, NotificationAttempts}

-- `MiscRecordId.KERIA_NOTIFICATION_MARKER` and `MiscRecordId.FAILED_NOTIFICATIONS`.
abbrev pub marker_id : String
marker_id = "keria-notification-marker"

abbrev pub failed_id : String
failed_id = "failed-notifications"

pub record Marker : Type 0 where
  pub next_index : ℕ
  pub last_notification_id : String

abbrev pub initial_marker : Marker
initial_marker = record { next_index = 0; last_notification_id = "" }

abbrev pub marker_content : Marker → Content
marker_content m = notification_marker m.next_index m.last_notification_id

-- What is thrown while the list is fetched: an error that `isNetworkError` knows, or any other.
pub data FetchError : Type 0 where
  network : FetchError
  unexpected : String → FetchError

pub data PollError : Type 0 where
  fetching : FetchError → PollError
  storing : StorageError → PollError
  -- The record of the marker holds something else. The source casts it without a test.
  not_marker : PollError

-- What a round of the loop meets. `list a b` is KERIA's answer for the indices from `a` to `b`, and
-- `online_after` is the status when fetching has failed.
pub record Round : Type 0 where
  pub now : ℕ
  pub logged_in : Bool
  pub online : Bool
  pub online_after : Bool
  pub list : ℕ → ℕ → Result FetchError (List Notification)

-- `{ [id]: attempts }` of the record, when there is one.
abbrev pub failed_of : Option Content → Dict NotificationAttempts
failed_of (some (failed_notifications d)) = d
failed_of _ = []

abbrev pub first_attempt : ℕ → Notification → NotificationAttempts
first_attempt now n = record { attempts = 1; last_attempt = now; notification = n }

abbrev pub advance : Marker → Notification → Marker
advance m n = record { next_index = m.next_index + 1; last_notification_id = n.i }

-- The notifications that are new in an answer; `none` where the answer does not start with the last
-- one that was seen.
unfoldable pub new_notes : Marker → List Notification → Option (List Notification)
new_notes m [] = if ltb 0 m.next_index then none else some []
new_notes m (n ∷ ns) =
    if ltb 0 m.next_index
    then if n.i === m.last_notification_id then some ns else none
    else some (n ∷ ns)

module _ (service : StorageService) {R : Type 0}
    (process : Notification → R → Result String (Unit {0}) × R) where
  open service use {find_by_id}

  -- The marker and the time of the last retry are variables of the loop.
  pub record Poll : Type 0 where
    pub query : Marker
    pub last_retry : ℕ
    pub stored : service.State
    pub rest : R

  abbrev pub Polling : Type 0 → Type 0
  Polling A = Action Poll PollError A

  abbrev pub storing_in :
      {A : Type 0} → Poll → Result StorageError A × service.State → Result PollError A × Poll
  storing_in p (ok a, s) = (ok a, record p { stored = s })
  storing_in p (err e, s) = (err (storing e), record p { stored = s })

  -- `createOrUpdateBasicRecord(new BasicRecord({ id, content }))`.
  abbrev pub file_content : ℕ → String → Content → Polling (Unit {0})
  file_content now id c p =
      storing_in p (create_or_update_basic_record service now (new_record now id [] c) p.stored)

  abbrev pub record_failure : ℕ → Notification → Polling (Unit {0})
  record_failure now n p =
      let failed = failed_of (content_of (find_by_id p.stored failed_id)) in
      file_content now failed_id (failed_notifications (insert n.i (first_attempt now n) failed)) p

  abbrev pub catch_failure :
      ℕ → Notification → Poll → Result String (Unit {0}) × R → Result PollError (Unit {0}) × Poll
  catch_failure now n p (ok u, r) = (ok tt, record p { rest = r })
  catch_failure now n p (err e, r) = record_failure now n (record p { rest = r })

  -- The `try` around `processNotification`.
  unfoldable pub handle : ℕ → Notification → Polling (Unit {0})
  handle now n p = catch_failure now n p (process n p.rest)

  unfoldable pub set_marker : ℕ → Marker → Polling (Unit {0})
  set_marker now m p = file_content now marker_id (marker_content m) (record p { query = m })

  abbrev pub mark_seen : ℕ → Notification → Polling (Unit {0})
  mark_seen now n p = set_marker now (advance p.query n) p

  -- The `for` loop over the new notifications.
  unfoldable pub handle_all : ℕ → List Notification → Polling (Unit {0})
  handle_all now [] = pure tt
  handle_all now (n ∷ ns) = do handle now n; mark_seen now n; handle_all now ns

  abbrev pub fetched : Round → Poll → Result FetchError (List Notification)
  fetched r p = let start = p.query.next_index - 1 in r.list start (start + 24)

  -- What a round does with the answer; it returns the notifications that the `for` loop went over.
  -- `retry` is the retry of failed notifications, which starts when enough time has passed.
  abbrev pub on_new :
      ℕ → Polling (Unit {0}) → Option (List Notification) → Polling (List Notification)
  on_new now retry none = set_marker now initial_marker >> pure []
  on_new now retry (some ns) = handle_all now ns >> retry >> pure ns

  abbrev pub on_answer :
      Round
      → Polling (Unit {0})
      → Result FetchError (List Notification)
      → Polling (List Notification)
  on_answer r retry (ok ns) p = on_new r.now retry (new_notes p.query ns) p
  on_answer r retry (err network) p =
      if r.online_after then (ok [], p) else (err (fetching network), p)
  on_answer r retry (err (unexpected e)) p = (err (fetching (unexpected e)), p)

  -- One round of `while (true)`.
  unfoldable pub poll_round_with : Polling (Unit {0}) → Round → Polling (List Notification)
  poll_round_with retry r p =
      if not r.logged_in || not r.online then (ok [], p) else on_answer r retry (fetched r p) p

  abbrev pub with_marker : Option Content → ℕ → Polling (Unit {0})
  with_marker none now p =
      storing_in (record p { query = initial_marker })
        ((save service now marker_id [] (marker_content initial_marker) >> pure tt) p.stored)
  with_marker (some (notification_marker k last)) now p =
      (ok tt, record p { query = record { next_index = k; last_notification_id = last } })
  with_marker (some _) now p = (err not_marker, p)

  -- What comes before the loop, at the start and again after an error: the marker is read, and the
  -- time of the last retry is 0.
  unfoldable pub start : ℕ → Polling (Unit {0})
  start now p =
      with_marker (content_of (find_by_id p.stored marker_id)) now (record p { last_retry = 0 })
