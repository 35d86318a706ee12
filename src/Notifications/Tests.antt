-- ===== src/Notifications/Tests.antt =====
-- Polling at concrete values.
use veridian_wallet.Base.{
  ℕ, ◌+◌, ◌-◌, ◌≡◌, refl, true, false, none, some, List, String, [], ◌∷◌, ◌++◌, take, drop, Result,
  ok, err, ◌===◌, if◌then◌else◌, arith,
}
use veridian_wallet.Storage.Ionic
use veridian_wallet.Storage.Sample.{store, filed}
use veridian_wallet.Storage.Basic
use veridian_wallet.Storage.Basic.{content_of}
use veridian_wallet.Store.Types.{Notification}
use veridian_wallet.Notifications.{
  Poll, Round, FetchError, new_notes, handle, set_marker, handle_all, poll_round_with, start,
  retry_failed_notifications, retry_when_due, retry_one, retry_entries, is_due, poll_round, poll,
  poll_all, initial_marker, marker_id, failed_id, backoff_delay,
}
use veridian_wallet.Base.Dict.{Dict, lookup}
use veridian_wallet.Storage.{failed_notifications}
use veridian_wallet.Storage.Basic.{content_at}
use veridian_wallet.Store.Types.{NotificationAttempts}
use veridian_wallet.Notifications.{first_attempt, marker_content, tried_again}
use veridian_wallet.Notifications.Rounds.{
  answers, HasSeen, HandsOver, arrivals, rounds_of, handed_in_order, catch_up,
}
use veridian_wallet.Notifications.Failures.{retry_failed_notifications_lem}

runs : Unit {0}
unfolding Ionic.save Ionic.update Ionic.find_by_id Basic.save Basic.update
    Basic.create_or_update_basic_record new_notes handle set_marker handle_all poll_round_with start
    retry_failed_notifications retry_when_due retry_one retry_entries is_due poll_round poll
    poll_all
runs = tt

abbrev note : String → Notification
note i = record { i = i; dt = ""; r = false; route = "/exn/ipex/grant"; said = "S"; m = none }

-- Processing fails for one notification, and logs the others.
abbrev log : Notification → List String → Result String (Unit {0}) × List String
log n seen = if n.i === "bad" then (err "refused", seen) else (ok tt, n.i ∷ seen)

abbrev keria : List Notification → ℕ → ℕ → Result FetchError (List Notification)
keria ns a b = ok (take (b + 1 - a) (drop a ns))

abbrev begin : Poll store log
begin = record { query = initial_marker; last_retry = 0; stored = []; rest = [] }

abbrev round : ℕ → List Notification → Round
round now ns = record {
  now = now;
  logged_in = true;
  online = true;
  online_after = true;
  list = keria ns;
}

abbrev notes : List Notification
notes = note "a" ∷ note "bad" ∷ note "c" ∷ []

poll_test :
    let (p, handed) =
      poll_all store log (round 10 notes ∷ round 20 (notes ++ (note "d" ∷ [])) ∷ []) begin in
    (p.rest ≡ "d" ∷ "c" ∷ "a" ∷ [])
    × (p.query ≡ record { next_index = 4; last_notification_id = "d" })
    × (handed ≡ notes ++ (note "d" ∷ []))
unfolding runs
poll_test = (refl, refl, refl)

abbrev marked : Poll store log
marked = record begin { stored = filed marker_id (marker_content initial_marker) }

marked-HasSeen : HasSeen store log [] marked
unfolding Ionic.find_by_id
marked-HasSeen = record { query = refl; synced = refl }

abbrev later : List Notification
later = notes ++ (note "d" ∷ [])

abbrev two_rounds : List (List Notification × Round)
two_rounds = ([], round 10 notes) ∷ ((note "d" ∷ [], round 20 later) ∷ [])

handed_in_order_example :
    HandsOver store log []
      (notes ++ arrivals two_rounds)
      (poll_all store log (rounds_of two_rounds) marked)
handed_in_order_example =
    handed_in_order store log two_rounds [] notes marked marked-HasSeen
      (answers (λ a b. refl), (answers (λ a b. refl), tt))

catch_up_example : (poll_all store log (round 10 notes ∷ []) marked).1 ≡ notes
catch_up_example =
    catch_up store log (round 10 notes ∷ []) [] notes marked marked-HasSeen
      (record { ready = refl; answer = λ a b. refl }, tt) (omega arith)

abbrev failing : NotificationAttempts
failing = first_attempt 10 (note "bad")

abbrev failing_state : Poll store log
failing_state = record begin {
  stored = filed failed_id (failed_notifications (("bad", failing) ∷ []));
}

retry_failed_notifications_lem_example :
    (failed' : Dict NotificationAttempts) × (q : Poll store log) × (retry_failed_notifications store
        log 5000 failing_state
      ≡ (ok tt, q))
    × (content_at store q.stored failed_id ≡ some (failed_notifications failed'))
    × (lookup "bad" failed' ≡ some (tried_again 5000 failing))
unfolding Ionic.find_by_id is_due backoff_delay
retry_failed_notifications_lem_example =
    retry_failed_notifications_lem store log 5000 (("bad", failing) ∷ []) failing_state "bad"
      failing (err "refused") refl (refl, tt) refl (λ r. refl)
