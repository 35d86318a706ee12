-- ===== src/Storage/Basic.antt =====
-- src/core/agent/records/basicStorage.ts, over any storage service.
use veridian_wallet.Base.{
  ℕ, ◌≡◌, refl, Bool-cases, inl, inr, Bool, true, false, Option, none, some, [], String, Result, ok,
  err, arith, eq_iff, eq_refl, ◌===◌, if◌then◌else◌,
}
use veridian_wallet.Base.States.{Action, ◌>>◌, pure}
use veridian_wallet.Storage.Types.{
  Tags, StorageError, already_exists, does_not_exist, Content, BasicRecord, touch, StorageService,
}

-- The message `RECORD_DOES_NOT_EXIST_ERROR_MSG id`.
abbrev pub is_missing : StorageError → String → Bool
is_missing (does_not_exist k) id = k === id
is_missing (already_exists k) id = false

-- `new BasicRecord({ id, tags, content })` at the time `now`, as in `save` of the class.
abbrev pub new_record : ℕ → String → Tags → Content → BasicRecord
new_record now id tags content = record {
  id = id;
  created_at = now;
  updated_at = none;
  content = content;
  tags = tags;
}

-- `record?.content`.
abbrev pub content_of : Option BasicRecord → Option Content
content_of none = none
content_of (some r) = some r.content

pub content_of_if :
    (b : Bool) (o p : Option BasicRecord) (r : BasicRecord) (c : Content)
    → o ≡ (if b then some r else p)
    → r.content ≡ c
    → content_of o ≡ (if b then some c else content_of p)
content_of_if true o p r c h e = rw (h, e) refl
content_of_if false o p r c h e = rw h refl

module _ (service : StorageService) where
  open service use {State, has, find_by_id, put, save_lem, update_lem, find-put, has-put}

  abbrev pub Store : Type 0 → Type 0
  Store A = Action State StorageError A

  unfoldable pub save : ℕ → String → Tags → Content → Store BasicRecord
  save now id tags content = service.save now (new_record now id tags content)

  unfoldable pub update : ℕ → BasicRecord → Store (Unit {0})
  update now r = service.update now r

  -- `throw new Error(RECORD_DOES_NOT_EXIST_ERROR_MSG)`, a message without an identifier.
  unfoldable pub find_expected_by_id : String → Store BasicRecord
  find_expected_by_id id s = elim (find_by_id s id) [
    | none ↦ (err (does_not_exist ""), s)
    | some r ↦ (ok r, s)
  ]

  -- `save` takes the record as an object with `content`, `tags` and `id`; a `BasicRecord` has no
  -- property `tags` (they are in `_tags`), so the saved record has none.
  abbrev on_missing :
      ℕ
      → BasicRecord
      → Result StorageError (Unit {0}) × State
      → Result StorageError (Unit {0}) × State
  unfolding save
  on_missing now r (ok u, s) = (ok u, s)
  on_missing now r (err e, s) =
      if is_missing e r.id then (save now r.id [] r.content >> pure tt) s else (err e, s)

  unfoldable pub create_or_update_basic_record : ℕ → BasicRecord → Store (Unit {0})
  unfolding update save
  create_or_update_basic_record now r s = on_missing now r (update now r s)

  -- What the record is after it was written: on the first write it is built anew.
  abbrev pub written : Bool → ℕ → BasicRecord → BasicRecord
  written true now r = touch now r
  written false now r = touch now (new_record now r.id [] r.content)

  -- Creating or updating never throws, and files exactly the written record.
  pub create_or_update_lem :
      (now : ℕ) (r : BasicRecord) (s : State)
      → create_or_update_basic_record now r s ≡ (ok tt, put s (written (has s r.id) now r))
  unfolding create_or_update_basic_record
  create_or_update_lem now r s = elim (Bool-cases (has s r.id)) [
    | inl e ↦ rw (update_lem now r s, e) refl
    | inr e ↦
        rw (update_lem now r s, e)
          (ground (arith, e, eq_iff r.id r.id, save_lem now (new_record now r.id [] r.content) s))
  ]

  written_lem :
      (b : Bool) (now : ℕ) (r : BasicRecord)
      → ((written b now r).id ≡ r.id)
        × ((written b now r).content ≡ r.content)
        × ((written b now r).updated_at ≡ some now)
        × ((written b now r).tags ≡ (if b then r.tags else []))
  written_lem true now r = (refl, refl, refl, refl)
  written_lem false now r = (refl, refl, refl, refl)

  find-put_written :
      (b : Bool) (now : ℕ) (r : BasicRecord) (s : State) (k : String)
      → find_by_id (put s (written b now r)) k
        ≡ (if r.id === k then some (written b now r) else find_by_id s k)
  find-put_written true now r s k = find-put s (written true now r) k
  find-put_written false now r s k = find-put s (written false now r) k

  -- A record that was created or updated is found under its identifier with its content and the
  -- time of the write, no other record changes, and no error is thrown. Its tags are kept if the
  -- identifier was in use, and are lost if it was not.
  pub find-create_or_update :
      (now : ℕ) (r : BasicRecord) (s : State) (k : String)
      → let (result, s') = create_or_update_basic_record now r s in
        let w = written (has s r.id) now r in
        (result ≡ ok tt)
        × (find_by_id s' k ≡ (if r.id === k then some w else find_by_id s k))
        × (w.content ≡ r.content)
        × (w.updated_at ≡ some now)
        × (w.tags ≡ (if has s r.id then r.tags else []))
  find-create_or_update now r s k =
      let (_, same_content, at, kept) = written_lem (has s r.id) now r in
      rw (create_or_update_lem now r s)
        (refl, find-put_written (has s r.id) now r s k, same_content, at, kept)

  -- `findExpectedById` finds what `findById` finds, and throws exactly where that finds nothing;
  -- the store is left alone.
  pub find_expected_by_id_lem :
      (k : String) (s : State)
      → (find_by_id s k ≡ none → find_expected_by_id k s ≡ (err (does_not_exist ""), s))
        × ((r : BasicRecord) → find_by_id s k ≡ some r → find_expected_by_id k s ≡ (ok r, s))
  unfolding find_expected_by_id
  find_expected_by_id_lem k s =
      (λ h. rw (h, find_expected_by_id) refl, λ r h. rw (h, find_expected_by_id) refl)

  -- The content on file under an identifier.
  abbrev pub content_at : State → String → Option Content
  content_at s k = content_of (find_by_id s k)

  -- After a record was created or updated, its content is on file under its identifier, and nothing
  -- else changed.
  pub content-create_or_update :
      (now : ℕ) (r : BasicRecord) (s : State)
      → (s' : State) × (create_or_update_basic_record now r s ≡ (ok tt, s'))
        × ((k : String) → content_at s' k ≡ (if r.id === k then some r.content else content_at s k))
        × (has s' r.id ≡ true)
  content-create_or_update now r s =
      let w = written (has s r.id) now r in
      let (same_id, same, _, _) = written_lem (has s r.id) now r in
      (
        put s w,
        create_or_update_lem now r s,
        λ k.
            content_of_if (r.id === k) _ _ w r.content (find-put_written (has s r.id) now r s k)
              same,
        rw (has-put s w r.id, same_id, eq_refl r.id) refl,
      )
