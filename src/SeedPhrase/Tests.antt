-- ===== src/SeedPhrase/Tests.antt =====
-- The guard at concrete values.
use veridian_wallet.Base.{ℕ, ◌+◌, ◌≤◌, ◌≡◌, refl, false, none, some, [], ◌∷◌, ok, err, arith}
use veridian_wallet.Storage.Ionic
use veridian_wallet.Storage.Sample.{store, filed}
use veridian_wallet.Storage.Basic
use veridian_wallet.SeedPhrase.{
  CriticalActionState, seed_phrase_not_verified, thrown, reduced_time_limit_ms, critical_action_id,
  action_content, AgentState, Method, is_seed_phrase_verified, mark_seed_phrase_as_verified,
  get_critical_action_state, init_critical_action_state, record_critical_action,
  is_verification_enforced, seed_phrase_verified,
}
use veridian_wallet.SeedPhrase.Deadline.{on_file, act_all, deadline_after_actions, latest}
use veridian_wallet.SeedPhrase.Guard.{refused_after_deadline}

guarded : Unit {0}
unfolding Ionic.save Ionic.update Ionic.find_by_id Basic.update Basic.create_or_update_basic_record
    is_seed_phrase_verified mark_seed_phrase_as_verified get_critical_action_state
    init_critical_action_state record_critical_action is_verification_enforced seed_phrase_verified
guarded = tt

abbrev state : CriticalActionState
state = record { action_count = 4; deadline = 1000000000 }

abbrev agent : AgentState store
agent = record { cache = none; stored = filed critical_action_id (action_content state) }

abbrev operation : Method store ℕ
operation m = (ok 7, m)

guard_test :
    ((seed_phrase_verified store 50 60 operation agent).0 ≡ ok 7)
    × ((seed_phrase_verified store 1000000001 60 operation agent).0 ≡ err seed_phrase_not_verified)
    × (on_file store (seed_phrase_verified store 50 60 operation agent).1 critical_action_id
        ≡ some (action_content (record { action_count = 5; deadline = 86400060 })))
    × ((is_verification_enforced store 99 99 (mark_seed_phrase_as_verified store 5 agent).1).0
        ≡ ok false)
unfolding guarded
guard_test = (refl, refl, refl, refl)

deadline_after_actions_example :
    (b : CriticalActionState) × (on_file store
        (act_all store (9 ∷ 20 ∷ []) agent)
        critical_action_id
      ≡ some (action_content b))
    × (b.action_count ≡ 6)
    × (b.deadline ≤ 1000000000)
    × (b.deadline ≤ latest 9 (20 ∷ []) + reduced_time_limit_ms)
unfolding guarded
deadline_after_actions_example =
    deadline_after_actions store 9 (20 ∷ []) agent state refl refl (omega arith)

refused_after_deadline_example :
    seed_phrase_verified store 1000000001 1 operation agent
    ≡ (err seed_phrase_not_verified, record agent { cache = some false })
unfolding guarded
refused_after_deadline_example =
    refused_after_deadline store operation 1000000001 1 agent state refl refl (omega arith)

abbrev seen : AgentState store
seen = record agent { cache = some false }

abbrev broken : Method store ℕ
broken m = (err (thrown "broken"), m)
