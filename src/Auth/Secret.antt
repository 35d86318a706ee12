-- ===== src/Auth/Secret.antt =====
-- `storeSecret` and `verifySecret` of src/core/agent/services/authService.ts, with the part of
-- src/core/storage/secureStorage/secureStorage.ts that they use. Salts and digests are those of
-- signify-ts, and the key store is a plugin of the device: both are parameters.
use veridian_wallet.Base.{
  ℕ, ◌≡◌, refl, ap, ◌∙◌, ◌↔◌, ◌≢◌, ◌⊎◌, inl, inr, eq_refl, Bool, true, false, Option, none, some,
  List, [], ◌++◌, String, Result, ok, err, length, take, drop, ◌===◌, if◌then◌else◌,
}
use veridian_wallet.Base.Text.{Text, text_eq, is_empty}
use veridian_wallet.Base.Text.Laws.{text_eq_iff, take-append_of, drop-append_of, is_empty-append}
use veridian_wallet.Base.States.{Action}

-- `KeyStoreKeys.APP_PASSCODE | KeyStoreKeys.APP_OP_PASSWORD`, with their keys.
pub data SecretType : Type 0 where
  app_passcode app_op_password : SecretType

abbrev pub key_of : SecretType → String
key_of app_passcode = "app-login-passcode"
key_of app_op_password = "app-operations-password"

pub data SecretError : Type 0 where
  secret_not_stored : SecretType → SecretError
  bad_encoding : SecretError

-- Salts (`Salter`), digests (`Diger`) and `b`. A `qb64` is the text form; the constructors throw
-- (`none`) on a text that is no salt or digest. The text of a salt has 24 characters.
pub record Crypto : Type 1 where
  pub Salt : Type 0
  pub raw : Salt → List ℕ
  pub salt_qb64 : Salt → Text
  pub salt_of : Text → Option Salt
  pub bytes : Text → List ℕ
  pub digest_qb64 : List ℕ → Text
  pub dig_qb64_of : Text → Option Text
  pub length-salt_qb64 : (s : Salt) → length (salt_qb64 s) ≡ 24
  pub salt_of-salt_qb64 : (s : Salt) → salt_of (salt_qb64 s) ≡ some s
  pub dig_qb64_of-digest_qb64 : (x : List ℕ) → dig_qb64_of (digest_qb64 x) ≡ some (digest_qb64 x)

-- The key store: `SecureStorage.get` gives null for a key that is not there.
pub record KeyStore : Type 1 where
  pub State : Type 0
  pub get : State → String → Option Text
  pub set : State → String → Text → State
  pub get-set :
      (s : State) (k : String) (v : Text) (j : String)
      → get (set s k v) j ≡ (if k === j then some v else get s j)

module _ (crypto : Crypto) (store : KeyStore) where
  open crypto use {
    Salt, raw, salt_qb64, salt_of, bytes, digest_qb64, dig_qb64_of, length-salt_qb64,
    salt_of-salt_qb64, dig_qb64_of-digest_qb64,
  }
  open store use {State, get, set, get-set}

  -- `salt` is the value of `new Salter({})`, which is random.
  unfoldable pub store_secret : Salt → SecretType → Text → Action State SecretError (Unit {0})
  store_secret salt type value s =
      (ok tt, set s (key_of type) (salt_qb64 salt ++ digest_qb64 (raw salt ++ bytes value)))

  abbrev compare_digest : Option Salt → Option Text → Text → Result SecretError Bool
  compare_digest none dig secret = err bad_encoding
  compare_digest (some salt) none secret = err bad_encoding
  compare_digest (some salt) (some dig) secret =
      ok (text_eq (digest_qb64 (raw salt ++ bytes secret)) dig)

  abbrev check_stored : SecretType → Option Text → Text → Result SecretError Bool
  check_stored type none secret = err (secret_not_stored type)
  check_stored type (some qb64) secret =
      if is_empty qb64
      then err (secret_not_stored type)
      else compare_digest (salt_of (take 24 qb64)) (dig_qb64_of (drop 24 qb64)) secret

  unfoldable pub verify_secret : SecretType → Text → Action State SecretError Bool
  verify_secret type secret s = (check_stored type (get s (key_of type)) secret, s)

  check_stored_lem :
      (salt : Salt) (type : SecretType) (value secret : Text)
      → check_stored type (some (salt_qb64 salt ++ digest_qb64 (raw salt ++ bytes value))) secret
        ≡ ok (
            text_eq
              (digest_qb64 (raw salt ++ bytes secret))
              (digest_qb64 (raw salt ++ bytes value)))
  check_stored_lem salt type value secret =
      let d = digest_qb64 (raw salt ++ bytes value) in
      let n = length-salt_qb64 salt in
      rw
        (
          is_empty-append 23 (salt_qb64 salt) d n,
          take-append_of 24 (salt_qb64 salt) d n,
          drop-append_of 24 (salt_qb64 salt) d n,
          salt_of-salt_qb64 salt,
          dig_qb64_of-digest_qb64 (raw salt ++ bytes value),
        )
        refl

  key_of_ne : (t u : SecretType) → t ≢ u → (key_of t === key_of u) ≡ false
  key_of_ne app_passcode app_passcode h = absurd (h refl)
  key_of_ne app_passcode app_op_password h = refl
  key_of_ne app_op_password app_passcode h = refl
  key_of_ne app_op_password app_op_password h = absurd (h refl)

  -- Verifying a secret against one stored under the same type finds a match exactly when the
  -- digests of the two, with the stored salt, are the same, and writes nothing. A secret of another
  -- type is not touched by storing one.
  pub verify-store :
      (salt : Salt) (type : SecretType) (value secret : Text) (s : State) (u : SecretType)
      → type ≢ u
      → let s' = (store_secret salt type value s).1 in
        (b : Bool) × (verify_secret type secret s' ≡ (ok b, s'))
        × ((b ≡ true)
            ↔ (digest_qb64 (raw salt ++ bytes secret) ≡ digest_qb64 (raw salt ++ bytes value)))
        × (get s' (key_of u) ≡ get s (key_of u))
  unfolding verify_secret store_secret
  verify-store salt type value secret s u ne =
      let v = salt_qb64 salt ++ digest_qb64 (raw salt ++ bytes value) in
      (
        text_eq (digest_qb64 (raw salt ++ bytes secret)) (digest_qb64 (raw salt ++ bytes value)),
        rw (get-set s (key_of type) v (key_of type), eq_refl (key_of type))
            (ap (λ r. (r, set s (key_of type) v)) (check_stored_lem salt type value secret)),
        text_eq_iff _ _,
        get-set s (key_of type) v (key_of u) ∙ rw (key_of_ne type u ne) refl,
      )

  -- With nothing stored under the type, or an empty text, verification throws.
  pub verify_not_stored :
      (type : SecretType) (secret : Text) (s : State)
      → (get s (key_of type) ≡ none) ⊎ (get s (key_of type) ≡ some [])
      → verify_secret type secret s ≡ (err (secret_not_stored type), s)
  unfolding verify_secret
  verify_not_stored type secret s (inl h) = rw h refl
  verify_not_stored type secret s (inr h) = rw h refl
