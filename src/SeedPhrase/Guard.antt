-- ===== src/SeedPhrase/Guard.antt =====
-- What the guard of the critical operations lets through.
use veridian_wallet.Base.{ℕ, ◌≤◌, ◌<◌, ◌≡◌, refl, true, false, some, ok, err, ltb, arith}
use veridian_wallet.Base.States.{◌>>=◌}
use veridian_wallet.Storage.{verified, StorageService}
use veridian_wallet.SeedPhrase.{
  CriticalActionState, GuardError, seed_phrase_not_verified, seed_phrase_verified_id,
  critical_action_id, action_content, counted, AgentState, Method, file,
  mark_seed_phrase_as_verified, record_critical_action, is_verification_enforced,
  seed_phrase_verified,
}
use veridian_wallet.SeedPhrase.Deadline.{
  pair_eq, file_lem, verified_now, on_file, current_of, current, record_critical_action_lem,
  is_seed_phrase_verified_lem, get_critical_action_state_lem,
}

module _ (service : StorageService) where
  open service use {find_by_id, put, has}

  is_verification_enforced_lem :
      (now : ℕ) (m : AgentState service) (a : CriticalActionState)
      → verified_now service m ≡ false
      → current service now m ≡ some a
      → is_verification_enforced service now now m
        ≡ (ok (ltb a.deadline now), record m { cache = some false })
  unfolding is_verification_enforced
  is_verification_enforced_lem now m a v h =
      rw (is_seed_phrase_verified_lem service m, ◌>>=◌, v)
        (rw (get_critical_action_state_lem service now (record m { cache = some false }) a h, ◌>>=◌)
          refl)

  -- Once the seed phrase was marked as verified, verification is not enforced at any time.
  pub not_enforced_after_mark :
      (t now now' : ℕ) (m : AgentState service)
      → let m' = (mark_seed_phrase_as_verified service t m).1 in
        (is_verification_enforced service now now' m').0 ≡ ok false
  unfolding is_verification_enforced mark_seed_phrase_as_verified
  not_enforced_after_mark t now now' m =
      let marked : AgentState service = record m { cache = some true } in
      let (_, same, _) = file_lem service t seed_phrase_verified_id (verified true) marked "" in
      let m' = (file service t seed_phrase_verified_id (verified true) marked).1 in
      let v : verified_now service m' ≡ true = rw (same, verified_now) refl in
      rw (is_seed_phrase_verified_lem service m', ◌>>=◌, v) refl

  module _ {A : Type 0} (original : Method service A) where
    -- While the seed phrase is not verified and a state is on file, a guarded operation is refused
    -- after the deadline: it is not begun, and the storage is as it was.
    pub refused_after_deadline :
        (now now' : ℕ) (m : AgentState service) (a : CriticalActionState)
        → verified_now service m ≡ false
        → on_file service m critical_action_id ≡ some (action_content a)
        → a.deadline < now
        → seed_phrase_verified service now now' original m
          ≡ (err seed_phrase_not_verified, record m { cache = some false })
    unfolding seed_phrase_verified
    refused_after_deadline now now' m a v h past =
        let e : ltb a.deadline now ≡ true = ground arith in
        rw (is_verification_enforced_lem now m a v (current_of service now m a h), ◌>>=◌, e) refl

    -- While the seed phrase is not verified and a state is on file, a guarded operation is run up to
    -- the deadline: where it returns, with the seed phrase still not verified and a state on file,
    -- what it returns is returned and the action is counted.
    pub runs_before_deadline :
        (now now' : ℕ) (m m2 : AgentState service) (a b : CriticalActionState)
        → verified_now service m ≡ false
        → on_file service m critical_action_id ≡ some (action_content a)
        → now ≤ a.deadline
        → verified_now service m2 ≡ false
        → on_file service m2 critical_action_id ≡ some (action_content b)
        → (x : A) → original (record m { cache = some false }) ≡ (ok x, m2)
        → let (r, m3) = seed_phrase_verified service now now' original m in
          (r ≡ ok x)
          × (on_file service m3 critical_action_id ≡ some (action_content (counted now' b)))
    unfolding seed_phrase_verified
    runs_before_deadline now now' m m2 a b v h early v2 h2 x op =
        let e : ltb a.deadline now ≡ false = ground arith in
        let enforced = is_verification_enforced_lem now m a v (current_of service now m a h) in
        let (done, found, _) =
          record_critical_action_lem service now' now' m2 b v2 (current_of service now' m2 b h2) in
        let ran = pair_eq (record_critical_action service now' now' m2) done in
        rw (enforced, ◌>>=◌, e, op, ran) (refl, found)

    -- While the seed phrase is not verified and a state is on file, a guarded operation that throws
    -- before the deadline throws the same error, and is not counted.
    pub throws_before_deadline :
        (now now' : ℕ) (m m2 : AgentState service) (a : CriticalActionState) (x : GuardError)
        → verified_now service m ≡ false
        → on_file service m critical_action_id ≡ some (action_content a)
        → now ≤ a.deadline
        → original (record m { cache = some false }) ≡ (err x, m2)
        → seed_phrase_verified service now now' original m ≡ (err x, m2)
    unfolding seed_phrase_verified
    throws_before_deadline now now' m m2 a x v h early op =
        let e : ltb a.deadline now ≡ false = ground arith in
        rw (is_verification_enforced_lem now m a v (current_of service now m a h), ◌>>=◌, e, op)
          refl
