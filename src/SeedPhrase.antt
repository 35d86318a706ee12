-- ===== src/SeedPhrase.antt =====
-- src/core/agent/agent.ts (the seed phrase and the critical actions) and the decorator
-- `SeedPhraseVerified` of src/core/agent/services/utils.ts: until the user has verified the seed
-- phrase there is a deadline, after which the guarded operations are refused.
pub mod Deadline
pub mod Guard
mod Tests
use veridian_wallet.Base.{
  ℕ, ◌+◌, ◌*◌, Bool, true, false, Option, none, some, [], String, Result, ok, err, leb, ltb,
  if◌then◌else◌,
}
use veridian_wallet.Base.States.{Action, ◌>>=◌, ◌>>◌, pure, throw}
use veridian_wallet.Storage.{
  StorageError, Content, critical_action, verified, BasicRecord, StorageService,
}
use veridian_wallet.Storage.Basic.{content_of, new_record, create_or_update_basic_record}

-- `CriticalActionState`, with the deadline in milliseconds (the source keeps its ISO text).
pub record CriticalActionState : Type 0 where
  pub action_count : ℕ
  pub deadline : ℕ

pub data GuardError : Type 0 where
  seed_phrase_not_verified : GuardError
  -- The record at the identifier holds something else. The source casts it without a test.
  not_critical_action : GuardError
  storage : StorageError → GuardError
  -- What the guarded operation itself throws.
  thrown : String → GuardError

abbrev pub critical_action_limit : ℕ
critical_action_limit = 5

abbrev pub verification_time_limit_ms : ℕ
verification_time_limit_ms = 14 * 24 * 60 * 60 * 1000

abbrev pub reduced_time_limit_ms : ℕ
reduced_time_limit_ms = 24 * 60 * 60 * 1000

-- `MiscRecordId.SEED_PHRASE_VERIFIED` and `MiscRecordId.CRITICAL_ACTION_STATE`.
abbrev pub seed_phrase_verified_id : String
seed_phrase_verified_id = "seed-phrase-verified"

abbrev pub critical_action_id : String
critical_action_id = "critical-action-state"

abbrev pub action_content : CriticalActionState → Content
action_content a = critical_action a.action_count a.deadline

abbrev pub action_of : Content → Option CriticalActionState
action_of (critical_action n t) = some (record { action_count = n; deadline = t })
action_of _ = none

-- `record?.content.verified === true`.
abbrev pub is_verified : Option Content → Bool
is_verified (some (verified b)) = b
is_verified _ = false

-- The default of `getCriticalActionState`, also what `initCriticalActionState` files.
abbrev pub initial_state : ℕ → CriticalActionState
initial_state now = record { action_count = 0; deadline = now + verification_time_limit_ms }

-- The change that `recordCriticalAction` makes to the state, at the time `now`.
abbrev pub counted : ℕ → CriticalActionState → CriticalActionState
counted now a =
    let n = a.action_count + 1 in
    let reduced = now + reduced_time_limit_ms in
    record {
      action_count = n;
      deadline =
          if leb critical_action_limit n
          then if ltb reduced a.deadline then reduced else a.deadline
          else a.deadline;
    }

module _ (service : StorageService) where
  open service use {find_by_id}

  -- The agent: `seedPhraseVerifiedCache` and the storage.
  pub record AgentState : Type 0 where
    pub cache : Option Bool
    pub stored : service.State

  abbrev pub Method : Type 0 → Type 0
  Method A = Action AgentState GuardError A

  abbrev from_stored :
      {A : Type 0}
      → Option Bool
      → Result StorageError A × service.State
      → Result GuardError A × AgentState
  from_stored c (ok a, s) = (ok a, record { cache = c; stored = s })
  from_stored c (err e, s) = (err (storage e), record { cache = c; stored = s })

  abbrev file : ℕ → String → Content → Method (Unit {0})
  file now id content m =
      from_stored m.cache
        (create_or_update_basic_record service now (new_record now id [] content) m.stored)

  unfoldable pub is_seed_phrase_verified : Method Bool
  is_seed_phrase_verified m = elim m.cache [
    | some b ↦ (ok b, m)
    | none ↦
        let b = is_verified (content_of (find_by_id m.stored seed_phrase_verified_id)) in
        (ok b, record m { cache = some b })
  ]

  unfoldable pub mark_seed_phrase_as_verified : ℕ → Method (Unit {0})
  mark_seed_phrase_as_verified now m =
      file now seed_phrase_verified_id (verified true) (record m { cache = some true })

  abbrev cast : ℕ → Option Content → Method CriticalActionState
  cast now none m = (ok (initial_state now), m)
  cast now (some c) m = elim (action_of c) [
    | none ↦ (err not_critical_action, m)
    | some a ↦ (ok a, m)
  ]

  unfoldable pub get_critical_action_state : ℕ → Method CriticalActionState
  get_critical_action_state now m = cast now (content_of (find_by_id m.stored critical_action_id)) m

  unfoldable pub init_critical_action_state : ℕ → Method (Unit {0})
  init_critical_action_state now = file now critical_action_id (action_content (initial_state now))

  -- The clock is read at `now` for a missing state and at `now'` for the reduced deadline.
  abbrev count_action : ℕ → ℕ → Method (Unit {0})
  count_action now now' = do
    a ← get_critical_action_state now
    file now' critical_action_id (action_content (counted now' a))

  unfoldable pub record_critical_action : ℕ → ℕ → Method (Unit {0})
  record_critical_action now now' = do
    done ← is_seed_phrase_verified
    if done then pure tt else count_action now now'

  abbrev is_past_deadline : ℕ → ℕ → Method Bool
  is_past_deadline now now' = do a ← get_critical_action_state now; pure (ltb a.deadline now')

  unfoldable pub is_verification_enforced : ℕ → ℕ → Method Bool
  is_verification_enforced now now' = do
    done ← is_seed_phrase_verified
    if done then pure false else is_past_deadline now now'

  abbrev run_and_record : {A : Type 0} → ℕ → Method A → Method A
  run_and_record now original = do result ← original; record_critical_action now now; pure result

  -- `SeedPhraseVerified` around a method, with the times at which the clock is read.
  unfoldable pub seed_phrase_verified : {A : Type 0} → ℕ → ℕ → Method A → Method A
  seed_phrase_verified now now' original = do
    enforced ← is_verification_enforced now now
    if enforced then throw seed_phrase_not_verified else run_and_record now' original
