-- ===== src/Auth/Lockout.antt =====
-- The lockout after failed logins.
use veridian_wallet.Base.{
  ℕ, ◌+◌, ◌*◌, ◌≤◌, ◌<◌, suc, ◌≡◌, refl, ◌∙◌, ◌↔◌, true, none, some, List, [], ◌∷◌, ok, err, arith,
  length,
}
use veridian_wallet.Storage.{BasicRecord, StorageService, touch}
use veridian_wallet.Storage.Basic.{update}
use veridian_wallet.Auth.{
  LoginAttempts, login_attempt_record_not_found, login_metadata, min_lock_time, lock_duration,
  incremented, to_content, from_content, fresh, increment_login_attempts, reset_login_attempts,
  is_lock,
}

-- From the fifth failed attempt on, each further one locks for at least as long as the one before,
-- between one minute and eight hours.
pub lock_duration_mono :
    (a b : ℕ)
    → 5 ≤ a
    → a ≤ b
    → (lock_duration a ≤ lock_duration b)
      × (min_lock_time ≤ lock_duration a)
      × (lock_duration b ≤ 8 * 60 * min_lock_time)
unfolding lock_duration
lock_duration_mono a b h k = ground arith

-- The wallet is locked at a time exactly when five attempts have failed and the time is before the
-- end of the lock.
pub is_lock_iff :
    (now : ℕ) (a : LoginAttempts)
    → (is_lock now a ≡ true) ↔ ((5 ≤ a.attempts) × (now < a.locked_until))
unfolding is_lock
is_lock_iff now a = (λ h. ground arith, λ h. ground arith)

abbrev pub incremented_all : List ℕ → LoginAttempts → LoginAttempts
incremented_all [] a = a
incremented_all (t ∷ ts) a = incremented_all ts (incremented t a)

incremented_all-attempts :
    (ts : List ℕ) (a : LoginAttempts) → (incremented_all ts a).attempts ≡ a.attempts + length ts
incremented_all-attempts [] a = omega arith
incremented_all-attempts (t ∷ ts) a = omega (arith, incremented_all-attempts ts (incremented t a))

pub last_time : ℕ → List ℕ → ℕ
last_time t [] = t
last_time t (u ∷ us) = last_time u us

incremented_all-locked :
    (t : ℕ) (ts : List ℕ) (a : LoginAttempts)
    → 5 ≤ a.attempts + length (t ∷ ts)
    → (incremented_all (t ∷ ts) a).locked_until
      ≡ last_time t ts + lock_duration (a.attempts + length (t ∷ ts))
unfolding last_time
incremented_all-locked t [] a h = ground arith
incremented_all-locked t (u ∷ us) a h =
    let e : a.attempts + 1 + suc (length us) ≡ a.attempts + suc (suc (length us)) = omega arith in
    let ih = incremented_all-locked u us (incremented t a) (omega arith) in rw e at ih

-- The attempts that are on file.
module _ (service : StorageService) where
  open service use {State, has, find_by_id, put, update_lem, find-put, find-has}

  -- The record of the login attempts, as `getLoginAttempts` creates it: filed under its own
  -- identifier, and holding attempts.
  abbrev pub IsOnFile : State → LoginAttempts → Type 0
  IsOnFile s a =
      (r : BasicRecord) × (find_by_id s login_metadata ≡ some r)
      × (r.id ≡ login_metadata)
      × (r.content ≡ to_content a)

  from-to_content :
      (r : BasicRecord) (a : LoginAttempts)
      → r.content ≡ to_content a
      → from_content r.content ≡ some a
  from-to_content r a h = rw h refl

  update_found :
      (now : ℕ) (r : BasicRecord) (s : State)
      → r.id ≡ login_metadata
      → has s login_metadata ≡ true
      → update service now r s ≡ (ok tt, put s (touch now r))
  unfolding update
  update_found now r s e h = rw (update_lem now r s, e, h) refl

  abbrev refiled : BasicRecord → LoginAttempts → BasicRecord
  refiled r a = record r { content = to_content a }

  increment_lem :
      (now : ℕ) (s : State) (a : LoginAttempts) (r : BasicRecord)
      → find_by_id s login_metadata ≡ some r
      → r.id ≡ login_metadata
      → r.content ≡ to_content a
      → increment_login_attempts service now s
        ≡ (ok (incremented now a), put s (touch now (refiled r (incremented now a))))
  unfolding increment_login_attempts
  increment_lem now s a r found filed holds = ground (
    arith,
    update_found now (refiled r (incremented now a)) s filed (find-has s login_metadata found),
  )

  reset_lem :
      (now : ℕ) (s : State) (r : BasicRecord)
      → find_by_id s login_metadata ≡ some r
      → r.id ≡ login_metadata
      → reset_login_attempts service now s ≡ (ok tt, put s (touch now (refiled r (fresh now))))
  unfolding reset_login_attempts
  reset_lem now s r found filed =
      ground
        (arith, update_found now (refiled r (fresh now)) s filed (find-has s login_metadata found))

  IsOnFile-put :
      (s : State) (r : BasicRecord) (a : LoginAttempts) (now : ℕ)
      → r.id ≡ login_metadata
      → IsOnFile (put s (touch now (refiled r a))) a
  IsOnFile-put s r a now filed = (
    touch now (refiled r a),
    rw (find-put s (touch now (refiled r a)) login_metadata, filed) refl,
    filed,
    refl,
  )

  -- A failed login adds one to the attempts on file and returns what it files: from the fifth on
  -- the wallet is locked from now for the duration of that attempt, before that the lock is as it
  -- was.
  pub increment_login_attempts_lem :
      (now : ℕ) (s : State) (a : LoginAttempts)
      → IsOnFile s a
      → let (r, s') = increment_login_attempts service now s in
        (r ≡ ok (incremented now a)) × IsOnFile s' (incremented now a)
  increment_login_attempts_lem now s a (r, found, filed, holds) =
      rw (increment_lem now s a r found filed holds)
        (refl, IsOnFile-put s r (incremented now a) now filed)

  -- Resetting files no attempts and a lock that ends now.
  pub reset_login_attempts_lem :
      (now : ℕ) (s : State) (a : LoginAttempts)
      → IsOnFile s a
      → let (r, s') = reset_login_attempts service now s in (r ≡ ok tt) × IsOnFile s' (fresh now)
  reset_login_attempts_lem now s a (r, found, filed, holds) =
      rw (reset_lem now s r found filed) (refl, IsOnFile-put s r (fresh now) now filed)

  -- With no record on file both methods throw and leave the store as it was.
  pub no_record :
      (now : ℕ) (s : State)
      → find_by_id s login_metadata ≡ none
      → (increment_login_attempts service now s ≡ (err login_attempt_record_not_found, s))
        × (reset_login_attempts service now s ≡ (err login_attempt_record_not_found, s))
  unfolding increment_login_attempts reset_login_attempts
  no_record now s h = (ground arith, ground arith)

  -- Failed logins at the given times, one after the other.
  pub fail_all : List ℕ → State → State
  fail_all [] s = s
  fail_all (t ∷ ts) s = fail_all ts (increment_login_attempts service t s).1

  fail_all-IsOnFile :
      (ts : List ℕ) (s : State) (a : LoginAttempts)
      → IsOnFile s a
      → IsOnFile (fail_all ts s) (incremented_all ts a)
  unfolding fail_all
  fail_all-IsOnFile [] s a h = h
  fail_all-IsOnFile (t ∷ ts) s a h =
      fail_all-IsOnFile ts (increment_login_attempts service t s).1 (incremented t a)
        (increment_login_attempts_lem t s a h).1

  -- After a reset and then five or more failed logins, at the given times, what is on file counts
  -- them all and locks the wallet from the last one for the duration of that many attempts: at a
  -- time from the last one on, the wallet is locked exactly until that duration is over.
  pub lockout_after_reset :
      (now t at : ℕ) (ts : List ℕ) (s : State) (a : LoginAttempts)
      → IsOnFile s a
      → 5 ≤ length (t ∷ ts)
      → let s' = fail_all (t ∷ ts) (reset_login_attempts service now s).1 in
        (b : LoginAttempts) × IsOnFile s' b
        × (b.attempts ≡ length (t ∷ ts))
        × ((is_lock at b ≡ true) ↔ (at < last_time t ts + lock_duration (length (t ∷ ts))))
  lockout_after_reset now t at ts s a h five =
      let b = incremented_all (t ∷ ts) (fresh now) in
      let n : b.attempts ≡ length (t ∷ ts) =
        incremented_all-attempts (t ∷ ts) (fresh now) ∙ omega arith in
      let e : b.locked_until ≡ last_time t ts + lock_duration (length (t ∷ ts)) =
        let z : 0 + length (t ∷ ts) ≡ length (t ∷ ts) = omega arith in
        rw z at (incremented_all-locked t ts (fresh now) (omega arith)) in
      (
        b,
        fail_all-IsOnFile (t ∷ ts) _ (fresh now) (reset_login_attempts_lem now s a h).1,
        n,
        (
          λ l. let (_, lt) = (is_lock_iff at b).0 l in rw e at lt,
          λ l. (is_lock_iff at b).1 (omega (arith, n), rw e l),
        ),
      )
