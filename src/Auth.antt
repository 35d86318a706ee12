-- ===== src/Auth.antt =====
-- src/core/agent/services/authService.ts and
-- src/ui/components/MaxLoginAttemptAlert/hooks/loginAttemptHook.ts: failed logins lock the wallet
-- for a time that grows, and secrets are kept as salted digests.
pub mod Lockout
pub mod Secret
mod Tests
use veridian_wallet.Base.{
  ℕ, ◌+◌, ◌*◌, ◌-◌, Bool, ◌||◌, Option, none, some, [], String, Result, ok, err, leb, ltb, ◌==◌,
  if◌then◌else◌,
}
use veridian_wallet.Base.States.{Action, ◌>>=◌, ◌>>◌, pure, throw, gets}
use veridian_wallet.Storage.{StorageError, Content, login_attempts, BasicRecord, StorageService}
use veridian_wallet.Storage.Basic.{new_record, create_or_update_basic_record, update}

pub record LoginAttempts : Type 0 where
  pub attempts : ℕ
  pub locked_until : ℕ

pub data AuthError : Type 0 where
  login_attempt_record_not_found : AuthError
  -- The record at the identifier holds something else. The source casts it without a test.
  not_login_attempts : AuthError
  storage : StorageError → AuthError

-- `MiscRecordId.LOGIN_METADATA`.
abbrev pub login_metadata : String
login_metadata = "login-metadata"

-- `AuthService.MIN_LOCK_TIME`, in milliseconds.
abbrev pub min_lock_time : ℕ
min_lock_time = 60 * 1000

-- The `switch` of `incrementLoginAttempts`.
unfoldable pub lock_duration : ℕ → ℕ
lock_duration attempts =
    if attempts == 5
    then min_lock_time
    else if attempts == 6
    then 5 * min_lock_time
    else if attempts == 7
    then 10 * min_lock_time
    else if attempts == 8
    then 15 * min_lock_time
    else if attempts == 9
    then 60 * min_lock_time
    else if attempts == 10
    then 4 * 60 * min_lock_time
    else 8 * 60 * min_lock_time

-- The new attempts record: `now` is `Date.now()`.
abbrev pub incremented : ℕ → LoginAttempts → LoginAttempts
incremented now a =
    let n = a.attempts + 1 in
    record {
      attempts = n;
      locked_until = if leb 5 n then now + lock_duration n else a.locked_until;
    }

-- `{ attempts: 0, lockedUntil: Date.now() }`.
abbrev pub fresh : ℕ → LoginAttempts
fresh now = record { attempts = 0; locked_until = now }

abbrev pub to_content : LoginAttempts → Content
to_content a = login_attempts a.attempts a.locked_until

-- `content as unknown as LoginAttempts`.
abbrev pub from_content : Content → Option LoginAttempts
from_content (login_attempts n t) = some (record { attempts = n; locked_until = t })
from_content _ = none

module _ (service : StorageService) where
  open service use {State, find_by_id}

  abbrev pub Method : Type 0 → Type 0
  Method A = Action State AuthError A

  -- A storage error goes on to the caller.
  abbrev lift_result : {A : Type 0} → Result StorageError A × State → Result AuthError A × State
  lift_result (ok a, s) = (ok a, s)
  lift_result (err e, s) = (err (storage e), s)

  abbrev lift : {A : Type 0} → Action State StorageError A → Method A
  lift m s = lift_result (m s)

  abbrev cast : BasicRecord → Method LoginAttempts
  cast r s = elim (from_content r.content) [
    | none ↦ (err not_login_attempts, s)
    | some a ↦ (ok a, s)
  ]

  -- `await findById(LOGIN_METADATA)` with `if (!attemptInfo) throw`.
  abbrev expect_record : Method BasicRecord
  expect_record s = elim (find_by_id s login_metadata) [
    | none ↦ (err login_attempt_record_not_found, s)
    | some r ↦ (ok r, s)
  ]

  abbrev create_attempts : ℕ → ℕ → Method LoginAttempts
  create_attempts now now' =
      lift (
        create_or_update_basic_record service now
          (new_record now login_metadata [] (to_content (fresh now))))
      >> pure (fresh now')

  -- The clock is read twice, at `now` for the record and at `now'` for the result.
  unfoldable pub get_login_attempts : ℕ → ℕ → Method LoginAttempts
  get_login_attempts now now' s = elim (find_by_id s login_metadata) [
    | none ↦ create_attempts now now' s
    | some r ↦ cast r s
  ]

  unfoldable pub increment_login_attempts : ℕ → Method LoginAttempts
  increment_login_attempts now = do
    r ← expect_record
    a ← cast r
    let a' = incremented now a
    lift (update service now (record r { content = to_content a' }))
    pure a'

  unfoldable pub reset_login_attempts : ℕ → Method (Unit {0})
  reset_login_attempts now = do
    r ← expect_record
    lift (update service now (record r { content = to_content (fresh now) }))

-- `remainAttempt` of `useLoginAttempt`, with `MAX_LOGIN_ATTEMPT` 5. The source's number goes below
-- zero; only whether it is positive is read, and its values from 1 to 5.
abbrev pub remain_attempt : LoginAttempts → ℕ
remain_attempt a = 5 - a.attempts

-- `lockDuration` of the hook at the time `now`, 0 where the source has a negative number.
unfoldable pub hook_lock_duration : ℕ → LoginAttempts → ℕ
hook_lock_duration now a = if ltb 0 (remain_attempt a) then 0 else a.locked_until - now

-- `isLock`: what the effect of the hook sets it to at the time `now`.
unfoldable pub is_lock : ℕ → LoginAttempts → Bool
unfolding hook_lock_duration
is_lock now a = ltb 0 (hook_lock_duration now a)

-- `errorMessage`: the number of attempts that the message names.
unfoldable pub error_message : LoginAttempts → Option ℕ
error_message a =
    let n = remain_attempt a in if n == 3 || n == 2 then some n else if n == 1 then some 1 else none
