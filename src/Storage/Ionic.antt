-- ===== src/Storage/Ionic.antt =====
-- src/core/storage/ionicStorage/ionicStorage.ts, at the class of basic records. The ionic session
-- and the JSON round trip (src/core/storage/utils.ts over JSON and class-transformer) are
-- parameters.
use veridian_wallet.Base.{
  ℕ, ◌≡◌, refl, Bool-cases, inl, inr, Bool, true, false, ◌&&◌, ◌||◌, Option, none, some, List, map,
  keep, String, ok, err, arith, ◌===◌, if◌then◌else◌,
}
use veridian_wallet.Base.States.{Action}
use veridian_wallet.Storage.Types.{
  Tags, StorageError, already_exists, does_not_exist, BasicRecord, touch, StorageService,
}
use veridian_wallet.Storage.Query.{Query, check_query}

-- `StorageRecord`; its `value` is JSON text.
pub record StorageRecord (Value : Type 0) : Type 0 where
  pub category : String
  pub name : String
  pub value : Value
  pub tags : Tags

-- The `Storage` of @ionic/storage: a map from keys to values. `forEach` visits the entries.
pub record Session (Value : Type 0) : Type 1 where
  pub State : Type 0
  pub get : State → String → Option (StorageRecord Value)
  pub set : State → String → StorageRecord Value → State
  pub remove : State → String → State
  pub entries : State → List (StorageRecord Value)
  pub get-set :
      (s : State) (k : String) (r : StorageRecord Value) (j : String)
      → get (set s k r) j ≡ (if k === j then some r else get s j)
  pub get-remove :
      (s : State) (k j : String) → get (remove s k) j ≡ (if k === j then none else get s j)

-- `JSON.stringify(record)`, and `JSON.parse` with `plainToInstance`. The tags are kept apart.
pub record Json (Value : Type 0) : Type 0 where
  pub encode : BasicRecord → Value
  pub decode : Value → BasicRecord
  pub decode-encode : (r : BasicRecord) → record (decode (encode r)) { tags = r.tags } ≡ r

abbrev pub basic_type : String
basic_type = "BasicRecord"

abbrev pub is_some {ℓ} : {A : Type ℓ} → Option A → Bool
is_some none = false
is_some (some _) = true

module _ {Value : Type 0} (session : Session Value) (json : Json Value) where
  open session use {State, get, set, remove, entries, get-set, get-remove}
  open json use {encode, decode, decode-encode}

  abbrev pub to_storage : BasicRecord → StorageRecord Value
  to_storage r = record { category = basic_type; name = r.id; value = encode r; tags = r.tags }

  abbrev pub deserialize_record : StorageRecord Value → BasicRecord
  deserialize_record r = record (decode r.value) { tags = r.tags }

  abbrev pub put : State → BasicRecord → State
  put s r = set s r.id (to_storage r)

  unfoldable pub save : ℕ → BasicRecord → Action State StorageError BasicRecord
  save now r s =
      if is_some (get s r.id)
      then (err (already_exists r.id), s)
      else (ok (touch now r), put s (touch now r))

  unfoldable pub delete_by_id : String → Action State StorageError (Unit {0})
  delete_by_id k s = if is_some (get s k) then (ok tt, remove s k) else (err (does_not_exist k), s)

  unfoldable pub delete : BasicRecord → Action State StorageError (Unit {0})
  delete r s =
      if is_some (get s r.id) then (ok tt, remove s r.id) else (err (does_not_exist r.id), s)

  unfoldable pub update : ℕ → BasicRecord → Action State StorageError (Unit {0})
  update now r s =
      if is_some (get s r.id) then (ok tt, put s (touch now r)) else (err (does_not_exist r.id), s)

  abbrev pub if_basic : Option (StorageRecord Value) → Option BasicRecord
  if_basic none = none
  if_basic (some r) = if r.category === basic_type then some (deserialize_record r) else none

  unfoldable pub find_by_id : State → String → Option BasicRecord
  find_by_id s k = if_basic (get s k)

  unfoldable pub find_all_by_query : State → Query → List BasicRecord
  find_all_by_query s q =
      map deserialize_record
        (keep (λ r. r.category === basic_type && check_query r.tags q) (entries s))

  unfoldable pub get_all : State → List BasicRecord
  get_all s = map deserialize_record (keep (λ r. r.category === basic_type) (entries s))

  pub find-put :
      (s : State) (r : BasicRecord) (k : String)
      → find_by_id (put s r) k ≡ (if r.id === k then some r else find_by_id s k)
  unfolding find_by_id
  find-put s r k =
      rw (get-set s r.id (to_storage r) k) (elim (Bool-cases (r.id === k)) [
        | inl e ↦ rw (e, decode-encode r) refl
        | inr e ↦ rw e refl
      ])

  pub has-put :
      (s : State) (r : BasicRecord) (k : String)
      → is_some (get (put s r) k) ≡ (r.id === k || is_some (get s k))
  has-put s r k = rw (get-set s r.id (to_storage r) k) (ground arith)

  pub find-has :
      (s : State) (k : String) {r : BasicRecord}
      → find_by_id s k ≡ some r
      → is_some (get s k) ≡ true
  unfolding find_by_id
  find-has s k h = ground arith

  pub save_lem :
      (now : ℕ) (r : BasicRecord) (s : State)
      → save now r s ≡ (
          if is_some (get s r.id)
          then (err (already_exists r.id), s)
          else (ok (touch now r), put s (touch now r)))
  unfolding save
  save_lem now r s = refl

  pub update_lem :
      (now : ℕ) (r : BasicRecord) (s : State)
      → update now r s ≡ (
          if is_some (get s r.id)
          then (ok tt, put s (touch now r))
          else (err (does_not_exist r.id), s))
  unfolding update
  update_lem now r s = refl

  -- The class implements the interface that its clients take.
  abbrev pub ionic_storage : StorageService
  ionic_storage = record {
    State = State;
    has = λ s k. is_some (get s k);
    save = save;
    update = update;
    find_by_id = find_by_id;
    put = put;
    save_lem = save_lem;
    update_lem = update_lem;
    find-put = find-put;
    has-put = has-put;
    find-has = λ s k h. find-has s k h;
  }

  -- Deleting a record that is filed takes it, and only it, out; deleting one that is not filed is an
  -- error, and nothing is taken out.
  pub find-delete_by_id :
      (s : State) (k j : String)
      → let (r, s') = delete_by_id k s in
        (r ≡ (if is_some (get s k) then ok tt else err (does_not_exist k)))
        × (find_by_id s' j ≡ (if is_some (get s k) && (k === j) then none else find_by_id s j))
  unfolding delete_by_id find_by_id
  find-delete_by_id s k j = elim (Bool-cases (is_some (get s k))) [
    | inl h ↦ rw h (refl, rw (get-remove s k j) (ground arith))
    | inr h ↦ rw h (refl, refl)
  ]
