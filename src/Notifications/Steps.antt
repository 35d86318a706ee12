-- ===== src/Notifications/Steps.antt =====
-- What the steps of a round do to the marker, in the loop and on file.
use veridian_wallet.Base.{
  ℕ, ◌≡◌, refl, ap, ◌∙◌, inl, inr, Bool-cases, false, Option, none, some, List, [], ◌∷◌, String,
  Result, ok, err, ◌===◌, ltb, ◌+◌,
}
use veridian_wallet.Base.Dict.{Dict, insert, erase}
use veridian_wallet.Base.States.{◌>>=◌, pure, bind_ok}
use veridian_wallet.Storage.{Content, failed_notifications, StorageService, BasicRecord, touch}
use veridian_wallet.Storage.Basic.{
  content_of, content_of_if, content_at, new_record, update, content-create_or_update,
}
use veridian_wallet.Store.Types.{Notification, NotificationAttempts}
use veridian_wallet.Notifications.{
  marker_id, failed_id, Marker, marker_content, Poll, Polling, storing_in, file_content, handle,
  set_marker, advance, handle_all, first_attempt, failed_of, is_due, retry_one, retry_entries,
  retry_failed_notifications, retry_when_due, retry_interval, after_update, after_process,
  give_back, tried_again, retry_content,
}
use veridian_wallet.Notifications.Slices.{marker_after}

module _ (service : StorageService) {R : Type 0}
    (process : Notification → R → Result String (Unit {0}) × R) where
  open service use {find_by_id, has, put, update_lem, find-put}

  abbrev State : Type 0
  State = Poll service process

  -- The marker on file is that of the loop.
  abbrev pub IsSynced : State → Type 0
  IsSynced p = content_at service p.stored marker_id ≡ some (marker_content p.query)

  -- A step that does not throw and leaves both markers alone.
  pub record KeepsMarker {A : Type 0} (m : Polling service process A) (p : State) : Type 0 where
    pub value : A
    pub after : State
    pub ends : m p ≡ (ok value, after)
    pub same_query : after.query ≡ p.query
    pub same_marker :
        content_at service after.stored marker_id ≡ content_at service p.stored marker_id

  pub >>=-KeepsMarker :
      {A B : Type 0} (m : Polling service process A) (f : A → Polling service process B) (p : State)
      → KeepsMarker m p
      → ((a : A) (q : State) → KeepsMarker (f a) q)
      → KeepsMarker (m >>= f) p
  >>=-KeepsMarker m f p h k =
      let next = k h.value h.after in
      record {
        value = next.value;
        after = next.after;
        ends = bind_ok m f p h.ends ∙ next.ends;
        same_query = next.same_query ∙ h.same_query;
        same_marker = next.same_marker ∙ h.same_marker;
      }

  pub pure-KeepsMarker : {A : Type 0} (a : A) (p : State) → KeepsMarker (pure a) p
  pure-KeepsMarker a p = record {
    value = a;
    after = p;
    ends = refl;
    same_query = refl;
    same_marker = refl;
  }

  -- A step that runs like another one, from a state with the same marker.
  KeepsMarker-of :
      {A : Type 0} (m m' : Polling service process A) (p q : State)
      → m p ≡ m' q
      → q.query ≡ p.query
      → content_at service q.stored marker_id ≡ content_at service p.stored marker_id
      → KeepsMarker m' q
      → KeepsMarker m p
  KeepsMarker-of m m' p q runs same stored kept = record {
    value = kept.value;
    after = kept.after;
    ends = runs ∙ kept.ends;
    same_query = kept.same_query ∙ same;
    same_marker = kept.same_marker ∙ stored;
  }

  pub file_content-KeepsMarker :
      (now : ℕ) (id : String) (c : Content) (p : State)
      → (id === marker_id) ≡ false
      → KeepsMarker (file_content service process now id c) p
  file_content-KeepsMarker now id c p other =
      let (s, done, found, _) =
        content-create_or_update service now (new_record now id [] c) p.stored in
      record {
        value = tt;
        after = record p { stored = s };
        ends = ap (storing_in service process p) done;
        same_query = refl;
        same_marker = found marker_id ∙ rw other refl;
      }

  handle-KeepsMarker :
      (now : ℕ) (n : Notification) (p : State) → KeepsMarker (handle service process now n) p
  unfolding handle
  handle-KeepsMarker now n p = caught (process n p.rest) refl
    where
      caught :
          (x : Result String (Unit {0}) × R)
          → process n p.rest ≡ x
          → KeepsMarker (handle service process now n) p
      caught (ok u, r) e = record {
        value = tt;
        after = record p { rest = r };
        ends = rw e refl;
        same_query = refl;
        same_marker = refl;
      }
      caught (err x, r) e =
          let q : State = record p { rest = r } in
          let failed = failed_of (content_of (find_by_id p.stored failed_id)) in
          let c = failed_notifications (insert n.i (first_attempt now n) failed) in
          KeepsMarker-of (handle service process now n)
            (file_content service process now failed_id c) p q (rw e refl) refl refl
            (file_content-KeepsMarker now failed_id c q refl)

  pub set_marker_lem :
      (now : ℕ) (m : Marker) (p : State)
      → (q : State) × (set_marker service process now m p ≡ (ok tt, q)) × (q.query ≡ m) × IsSynced q
  unfolding set_marker
  set_marker_lem now m p =
      let c = marker_content m in
      let (s, done, found, _) =
        content-create_or_update service now (new_record now marker_id [] c) p.stored in
      let p' : State = record p { query = m } in
      (record p' { stored = s }, ap (storing_in service process p') done, refl, found marker_id)

  -- The marker after the `for` loop, which does not throw.
  pub handle_all_lem :
      (now : ℕ) (ns : List Notification) (p : State)
      → IsSynced p
      → (q : State) × (handle_all service process now ns p ≡ (ok tt, q))
        × (q.query ≡ marker_after p.query ns)
        × IsSynced q
  unfolding handle_all
  handle_all_lem now [] p h = (p, refl, refl, h)
  handle_all_lem now (n ∷ ns) p h =
      let one = handle-KeepsMarker now n p in
      let (q, marked, at, synced) = set_marker_lem now (advance one.after.query n) one.after in
      let (q', rest, end, synced') = handle_all_lem now ns q synced in
      (q', rw (one.ends, marked) rest, end ∙ rw (at, one.same_query) refl, synced')

  give_back-KeepsMarker :
      (now : ℕ) (id : String) (a : NotificationAttempts) (failed : Dict NotificationAttempts)
      (p : State)
      → KeepsMarker (give_back service process now id a failed) p
  give_back-KeepsMarker now id a failed p =
      let failed' = insert id (tried_again now a) failed in
      >>=-KeepsMarker (file_content service process now failed_id (failed_notifications failed'))
        (λ _. pure failed') p
        (file_content-KeepsMarker now failed_id (failed_notifications failed') p refl)
        (λ _ q. pure-KeepsMarker failed' q)

  -- The record that a successful retry writes.
  abbrev left : ℕ → Dict NotificationAttempts → BasicRecord
  left now failed = new_record now failed_id [] (failed_notifications failed)

  after_update-KeepsMarker :
      (now : ℕ) (id : String) (a : NotificationAttempts) (failed : Dict NotificationAttempts)
      (p : State)
      → KeepsMarker
          (λ q.
            after_update service process now id a failed
              (storing_in service process q (update service now (left now failed) q.stored)))
          p
  unfolding update
  after_update-KeepsMarker now id a failed p = elim (Bool-cases (has p.stored failed_id)) [
    | inl e ↦
        let w = touch now (left now failed) in
        record {
          value = failed;
          after = record p { stored = put p.stored w };
          ends = rw (update_lem now (left now failed) p.stored, e) refl;
          same_query = refl;
          same_marker = content_of_if false _ _ w w.content (find-put p.stored w marker_id) refl;
        }
    | inr e ↦
        KeepsMarker-of _ (give_back service process now id a failed) p p
          (rw (update_lem now (left now failed) p.stored, e) refl) refl refl
          (give_back-KeepsMarker now id a failed p)
  ]

  after_process-KeepsMarker :
      (now : ℕ) (id : String) (a : NotificationAttempts) (failed : Dict NotificationAttempts)
      (x : Result String (Unit {0}) × R) (p : State)
      → KeepsMarker (λ q. after_process service process now id a failed q x) p
  after_process-KeepsMarker now id a failed (ok u, r) p =
      KeepsMarker-of _ _ p (record p { rest = r }) refl refl refl
        (after_update-KeepsMarker now id a (erase id failed) (record p { rest = r }))
  after_process-KeepsMarker now id a failed (err e, r) p =
      KeepsMarker-of _ _ p (record p { rest = r }) refl refl refl
        (give_back-KeepsMarker now id a failed (record p { rest = r }))

  retry_one-KeepsMarker :
      (now : ℕ) (id : String) (a : NotificationAttempts) (failed : Dict NotificationAttempts)
      (p : State)
      → KeepsMarker (retry_one service process now id a failed) p
  unfolding retry_one
  retry_one-KeepsMarker now id a failed p = elim (Bool-cases (is_due now a)) [
    | inl e ↦
        let x = process a.notification p.rest in
        KeepsMarker-of _ (λ q. after_process service process now id a failed q x) p p (rw e refl)
          refl refl (after_process-KeepsMarker now id a failed x p)
    | inr e ↦ record {
      value = failed;
      after = p;
      ends = rw e refl;
      same_query = refl;
      same_marker = refl;
    }
  ]

  retry_entries-KeepsMarker :
      (now : ℕ) (es failed : Dict NotificationAttempts) (p : State)
      → KeepsMarker (retry_entries service process now es failed) p
  unfolding retry_entries
  retry_entries-KeepsMarker now [] failed p = pure-KeepsMarker failed p
  retry_entries-KeepsMarker now ((id, a) ∷ es) failed p =
      >>=-KeepsMarker (retry_one service process now id a failed)
        (retry_entries service process now es) p (retry_one-KeepsMarker now id a failed p)
        (λ failed' q. retry_entries-KeepsMarker now es failed' q)

  retry_content-KeepsMarker :
      (now : ℕ) (c : Option Content) (p : State)
      → KeepsMarker (retry_content service process now c) p
  retry_content-KeepsMarker now none p = pure-KeepsMarker tt p
  retry_content-KeepsMarker now (some c) p =
      let failed = failed_of (some c) in
      >>=-KeepsMarker (retry_entries service process now failed failed) (λ _. pure tt) p
        (retry_entries-KeepsMarker now failed failed p) (λ _ q. pure-KeepsMarker tt q)

  -- The retry of failed notifications does not throw either.
  pub retry_when_due-KeepsMarker :
      (now : ℕ) (p : State) → KeepsMarker (retry_when_due service process now) p
  unfolding retry_when_due retry_failed_notifications
  retry_when_due-KeepsMarker now p = elim (Bool-cases (ltb (p.last_retry + retry_interval) now)) [
    | inl e ↦
        let kept = retry_content-KeepsMarker now (content_of (find_by_id p.stored failed_id)) p in
        record {
          value = tt;
          after = record kept.after { last_retry = now };
          ends = rw (e, kept.ends) refl;
          same_query = kept.same_query;
          same_marker = kept.same_marker;
        }
    | inr e ↦ record {
      value = tt;
      after = p;
      ends = rw e refl;
      same_query = refl;
      same_marker = refl;
    }
  ]
