-- ===== src/Notifications/Retry.antt =====
-- `retryFailedNotifications`, and the rounds of the loop with it. One reading of the clock stands for
-- those of a round.
use veridian_wallet.Base.{
  ℕ, zero, suc, ◌+◌, Bool, false, Option, none, some, List, [], ◌∷◌, ◌++◌, String, Result, ok, err,
  leb, ltb, get_elem?, if◌then◌else◌,
}
use veridian_wallet.Base.Dict.{Dict, insert, erase}
use veridian_wallet.Base.States.{◌>>=◌, ◌>>◌, pure}
use veridian_wallet.Storage.{Content, failed_notifications, StorageService}
use veridian_wallet.Storage.Basic.{content_of, new_record, update}
use veridian_wallet.Store.Types.{Notification, NotificationAttempts}
use veridian_wallet.Notifications.Poller.{
  failed_id, failed_of, Round, Poll, Polling, PollError, storing_in, file_content, poll_round_with,
  start,
}

-- `FAILED_NOTIFICATIONS_RETRY_INTERVAL`.
abbrev pub retry_interval : ℕ
retry_interval = 1000

abbrev pub backoff_delays : List ℕ
backoff_delays = 1000 ∷ 2500 ∷ 5000 ∷ 10000 ∷ 30000 ∷ 60000 ∷ 300000 ∷ 900000 ∷ []

-- `backoffDelays[Math.min(attempts - 1, backoffDelays.length - 1)]`, undefined for no attempt.
unfoldable pub backoff_delay : ℕ → Option ℕ
backoff_delay zero = none
backoff_delay (suc k) = get_elem? backoff_delays (if ltb k 7 then k else 7)

-- `now - lastAttempt >= delay`.
abbrev pub has_passed : ℕ → ℕ → Option ℕ → Bool
has_passed now last none = false
has_passed now last (some delay) = leb (last + delay) now

unfoldable pub is_due : ℕ → NotificationAttempts → Bool
unfolding backoff_delay
is_due now a = has_passed now a.last_attempt (backoff_delay a.attempts)

abbrev pub tried_again : ℕ → NotificationAttempts → NotificationAttempts
tried_again now a = record a { attempts = a.attempts + 1; last_attempt = now }

module _ (service : StorageService) {R : Type 0}
    (process : Notification → R → Result String (Unit {0}) × R) where
  open service use {find_by_id}

  abbrev State : Type 0
  State = Poll service process

  -- The `catch`: the object and the record have one more attempt.
  abbrev pub give_back :
      ℕ
      → String
      → NotificationAttempts
      → Dict NotificationAttempts
      → Polling service process (Dict NotificationAttempts)
  give_back now id a failed =
      let failed' = insert id (tried_again now a) failed in
      file_content service process now failed_id (failed_notifications failed') >> pure failed'

  abbrev pub after_update :
      ℕ
      → String
      → NotificationAttempts
      → Dict NotificationAttempts
      → Result PollError (Unit {0}) × State
      → Result PollError (Dict NotificationAttempts) × State
  after_update now id a failed (ok u, p) = (ok failed, p)
  after_update now id a failed (err e, p) = give_back now id a failed p

  abbrev pub after_process :
      ℕ
      → String
      → NotificationAttempts
      → Dict NotificationAttempts
      → State
      → Result String (Unit {0}) × R
      → Result PollError (Dict NotificationAttempts) × State
  after_process now id a failed p (ok u, r) =
      let failed' = erase id failed in
      let p' : State = record p { rest = r } in
      after_update now id a failed' (
        storing_in service process p' (
          update service now (new_record now failed_id [] (failed_notifications failed')) p.stored))
  after_process now id a failed p (err e, r) = give_back now id a failed (record p { rest = r })

  -- One entry: the object `failedNotifications` as it is after it.
  unfoldable pub retry_one :
      ℕ
      → String
      → NotificationAttempts
      → Dict NotificationAttempts
      → Polling service process (Dict NotificationAttempts)
  retry_one now id a failed p =
      if is_due now a
      then after_process now id a failed p (process a.notification p.rest)
      else (ok failed, p)

  -- The loop over the entries, which are those of the object before the loop.
  unfoldable pub retry_entries :
      ℕ
      → Dict NotificationAttempts
      → Dict NotificationAttempts
      → Polling service process (Dict NotificationAttempts)
  retry_entries now [] failed = pure failed
  retry_entries now ((id, a) ∷ es) failed = do
    failed' ← retry_one now id a failed
    retry_entries now es failed'

  abbrev pub retry_content : ℕ → Option Content → Polling service process (Unit {0})
  retry_content now none = pure tt
  retry_content now (some c) =
      retry_entries now (failed_of (some c)) (failed_of (some c)) >> pure tt

  unfoldable pub retry_failed_notifications : ℕ → Polling service process (Unit {0})
  retry_failed_notifications now p =
      retry_content now (content_of (find_by_id p.stored failed_id)) p

  abbrev pub stamp : ℕ → Polling service process (Unit {0})
  stamp now p = (ok tt, record p { last_retry = now })

  -- `now - lastFailedNotificationsRetryTime > FAILED_NOTIFICATIONS_RETRY_INTERVAL`.
  unfoldable pub retry_when_due : ℕ → Polling service process (Unit {0})
  retry_when_due now p =
      if ltb (p.last_retry + retry_interval) now
      then (retry_failed_notifications now >> stamp now) p
      else (ok tt, p)

  unfoldable pub poll_round : Round → Polling service process (List Notification)
  poll_round r = poll_round_with service process (retry_when_due r.now) r

  -- `pollNotifications` waits and starts again when a round has thrown.
  abbrev pub recover : ℕ → Result PollError (List Notification) × State → State × List Notification
  recover now (ok ns, p) = (p, ns)
  recover now (err e, p) = ((start service process now p).1, [])

  unfoldable pub poll : Round → State → State × List Notification
  poll r p = recover r.now (poll_round r p)

  -- Rounds one after the other, with all the notifications that the `for` loops went over.
  unfoldable pub poll_all : List Round → State → State × List Notification
  poll_all [] p = (p, [])
  poll_all (r ∷ rs) p = let (p', ns) = poll r p in let (q, ms) = poll_all rs p' in (q, ns ++ ms)
