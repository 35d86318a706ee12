-- ===== src/Auth/Tests.antt =====
-- Logins and secrets at concrete values.
use veridian_wallet.Base.{
  ◌+◌, ◌<◌, ◌≡◌, refl, ◌↔◌, Bool, true, false, none, some, [], ◌∷◌, ok, err, arith,
}
use veridian_wallet.Base.Text.{Text, codes}
use veridian_wallet.Base.Dict.{Dict, lookup, insert, lookup-insert}
use veridian_wallet.Storage.{Content}
use veridian_wallet.Storage.Ionic
use veridian_wallet.Storage.Ionic.{StorageRecord, Session, Json, ionic_storage}
use veridian_wallet.Storage.Sample.{store, filed}
use veridian_wallet.Storage.Basic
use veridian_wallet.Auth.{
  LoginAttempts, login_metadata, lock_duration, get_login_attempts, increment_login_attempts,
  reset_login_attempts, is_lock, error_message, login_attempt_record_not_found,
}
use veridian_wallet.Auth.Lockout.{IsOnFile, fail_all, lockout_after_reset, last_time}
use veridian_wallet.Auth.Secret.{
  Crypto, KeyStore, app_passcode, app_op_password, store_secret, verify_secret, verify-store,
}

logins : Unit {0}
unfolding Ionic.save Ionic.update Ionic.find_by_id Basic.update Basic.create_or_update_basic_record
    get_login_attempts increment_login_attempts reset_login_attempts lock_duration is_lock
logins = tt

abbrev on_file : LoginAttempts → store.State
on_file a = filed login_metadata (Content.login_attempts a.attempts a.locked_until)

abbrev four : LoginAttempts
four = record { attempts = 4; locked_until = 100 }

increment_test :
    ((increment_login_attempts store 1000 (on_file four)).0
      ≡ ok (record { attempts = 5; locked_until = 61000 }))
    × ((get_login_attempts store 7 8 []).0 ≡ ok (record { attempts = 0; locked_until = 8 }))
    × ((increment_login_attempts store 1000 []).0 ≡ err login_attempt_record_not_found)
unfolding logins
increment_test = (refl, refl, refl)

message_test :
    (error_message four ≡ some 1)
    × (error_message (record four { attempts = 2 }) ≡ some 3)
    × (error_message (record four { attempts = 1 }) ≡ none)
    × (error_message (record four { attempts = 6 }) ≡ none)
unfolding error_message
message_test = (refl, refl, refl, refl)

four-IsOnFile : IsOnFile store (on_file four) four
unfolding logins
four-IsOnFile = (_, refl, refl, refl)

lockout_after_reset_example :
    let s' =
      fail_all store
        (10 ∷ 20 ∷ 30 ∷ 40 ∷ 50 ∷ [])
        (reset_login_attempts store 5 (on_file four)).1 in
    (b : LoginAttempts) × IsOnFile store s' b
    × (b.attempts ≡ 5)
    × ((is_lock 60 b ≡ true) ↔ (60 < last_time 10 (20 ∷ 30 ∷ 40 ∷ 50 ∷ []) + lock_duration 5))
lockout_after_reset_example =
    lockout_after_reset store 5 10 60 (20 ∷ 30 ∷ 40 ∷ 50 ∷ []) (on_file four) four four-IsOnFile
      (omega arith)

-- A toy for signify-ts: one salt, whose text has 24 characters, and digests that are what is
-- digested.
abbrev salt_text : Text
salt_text = codes "0AAAAAAAAAAAAAAAAAAAAAAA"

abbrev toy_crypto : Crypto
toy_crypto = record {
  Salt = Unit {0};
  raw = λ _. 7 ∷ [];
  salt_qb64 = λ _. salt_text;
  salt_of = λ _. some tt;
  bytes = λ t. t;
  digest_qb64 = λ x. x;
  dig_qb64_of = λ t. some t;
  length-salt_qb64 = λ _. refl;
  salt_of-salt_qb64 = λ _. refl;
  dig_qb64_of-digest_qb64 = λ _. refl;
}

abbrev key_store : KeyStore
key_store = record {
  State = Dict Text;
  get = λ s k. lookup k s;
  set = λ s k v. insert k v s;
  get-set = λ s k v j. lookup-insert k j v s;
}

verify_test :
    let s = (store_secret toy_crypto key_store tt app_passcode (codes "111222") []).1 in
    ((verify_secret toy_crypto key_store app_passcode (codes "111222") s).0 ≡ ok true)
    × ((verify_secret toy_crypto key_store app_passcode (codes "111223") s).0 ≡ ok false)
unfolding store_secret verify_secret
verify_test = (refl, refl)

verify-store_example :
    let s' = (store_secret toy_crypto key_store tt app_passcode (codes "1") []).1 in
    (b : Bool) × (verify_secret toy_crypto key_store app_passcode (codes "2") s' ≡ (ok b, s'))
    × ((b ≡ true) ↔ (7 ∷ codes "2" ≡ 7 ∷ codes "1"))
    × (lookup "app-operations-password" s' ≡ none)
verify-store_example =
    verify-store toy_crypto key_store tt app_passcode (codes "1") (codes "2") [] app_op_password
      (λ e. cc)
