-- ===== src/Storage/Types.antt =====
-- src/core/storage/storage.types.ts and src/core/agent/records/basicRecord.ts.
use veridian_wallet.Base.{
  ℕ, ◌≡◌, Bool, true, Option, some, List, String, ok, err, if◌then◌else◌, ◌||◌, ◌===◌,
}
use veridian_wallet.Base.Dict.{Dict}
use veridian_wallet.Base.States.{Action}
use veridian_wallet.Base.Text.{Text}
use veridian_wallet.Store.Types.{NotificationAttempts}

-- The values of tags, and of queries for them.
pub data TagValue : Type 0 where
  text : String → TagValue
  flag : Bool → TagValue
  texts : List String → TagValue
  undefined : TagValue

abbrev pub Tags : Type 0
Tags = Dict TagValue

-- `StorageMessage`, with the identifier that the message ends in.
pub data StorageError : Type 0 where
  already_exists does_not_exist : String → StorageError

-- The contents that the modelled services keep in basic records: what `LoginAttempts`,
-- `CriticalActionState`, the seed phrase record, the marker of the polled notifications, the failed
-- notifications and the names queued for creation hold, and any other.
pub data Content : Type 0 where
  login_attempts : ℕ → ℕ → Content
  critical_action : ℕ → ℕ → Content
  verified : Bool → Content
  notification_marker : ℕ → String → Content
  failed_notifications : Dict NotificationAttempts → Content
  queued : List Text → Content
  other : String → Content

-- `class BasicRecord`; times are in milliseconds.
pub record BasicRecord : Type 0 where
  pub id : String
  pub created_at : ℕ
  pub updated_at : Option ℕ
  pub content : Content
  pub tags : Tags

-- `record.updatedAt = new Date()`.
abbrev pub touch : ℕ → BasicRecord → BasicRecord
touch now r = record r { updated_at = some now }

-- The interface `StorageService<BasicRecord>`. `has` says whether any record, of whatever class, is
-- filed under the identifier.
pub record StorageService : Type 1 where
  pub State : Type 0
  pub has : State → String → Bool
  pub save : ℕ → BasicRecord → Action State StorageError BasicRecord
  pub update : ℕ → BasicRecord → Action State StorageError (Unit {0})
  pub find_by_id : State → String → Option BasicRecord
  pub put : State → BasicRecord → State
  pub save_lem :
      (now : ℕ) (r : BasicRecord) (s : State)
      → save now r s ≡ (
          if has s r.id
          then (err (already_exists r.id), s)
          else (ok (touch now r), put s (touch now r)))
  pub update_lem :
      (now : ℕ) (r : BasicRecord) (s : State)
      → update now r s
        ≡ (if has s r.id then (ok tt, put s (touch now r)) else (err (does_not_exist r.id), s))
  pub find-put :
      (s : State) (r : BasicRecord) (k : String)
      → find_by_id (put s r) k ≡ (if r.id === k then some r else find_by_id s k)
  pub has-put :
      (s : State) (r : BasicRecord) (k : String) → has (put s r) k ≡ (r.id === k || has s k)
  pub find-has :
      (s : State) (k : String) {r : BasicRecord} → find_by_id s k ≡ some r → has s k ≡ true
