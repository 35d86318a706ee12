-- ===== src/Notifications/Failures.antt =====
-- The record of failed notifications over a pass of retries.
use veridian_wallet.Base.{
  ℕ, ◌≡◌, refl, sym, ap, ◌∙◌, inl, inr, Bool-cases, true, false, Option, none, some, [], ◌∷◌,
  String, Result, ok, err, ◌===◌, if◌then◌else◌, arith, eq_iff, eq_refl, some-injective,
}
use mathlib.Core.Path.{subst}
use veridian_wallet.Base.Dict.{
  IsFunctional, Dict, lookup, insert, erase, lookup-insert, lookup-erase,
}
use veridian_wallet.Storage.{failed_notifications, StorageService, BasicRecord, touch}
use veridian_wallet.Storage.Basic.{
  content_of, content_at, new_record, update, content-create_or_update,
}
use veridian_wallet.Store.Types.{Notification, NotificationAttempts}
use veridian_wallet.Notifications.{
  failed_id, Poll, Polling, is_due, retry_one, retry_entries, retry_failed_notifications,
  after_process, give_back, tried_again,
}

-- What becomes of an entry, given what processing it comes to: it stays, goes, or has one more
-- attempt.
abbrev pub fate : ℕ → NotificationAttempts → Result String (Unit {0}) → Option NotificationAttempts
fate now a x =
    if is_due now a then (elim x [ ok u ↦ none | err e ↦ some (tried_again now a) ]) else some a

other_key :
    (id j : String) (a : NotificationAttempts) (es : Dict NotificationAttempts)
    → lookup id es ≡ none
    → lookup j es ≡ some a
    → (id === j) ≡ false
other_key id j a es h e = elim (Bool-cases (id === j)) [
  | inl f ↦
      let same : id ≡ j = ground (arith, eq_iff id j) in
      let gone : lookup j es ≡ none = subst (λ x. lookup x es ≡ none) same h in cc
  | inr f ↦ f
]

module _ (service : StorageService) {R : Type 0}
    (process : Notification → R → Result String (Unit {0}) × R) where
  open service use {find_by_id, has, put, update_lem, find-put, has-put, find-has}

  abbrev State : Type 0
  State = Poll service process

  -- The object of the loop is what is on file.
  pub record Tracks (failed : Dict NotificationAttempts) (p : State) : Type 0 where
    pub filed : has p.stored failed_id ≡ true
    pub content : content_at service p.stored failed_id ≡ some (failed_notifications failed)

  -- What a step of the pass comes to.
  record Settles (m : Polling service process (Dict NotificationAttempts)) (p : State)
      (failed : Dict NotificationAttempts) : Type 0 where
    after : State
    ends : m p ≡ (ok failed, after)
    tracks : Tracks failed after

  give_back-Settles :
      (now : ℕ) (id : String) (a : NotificationAttempts) (failed : Dict NotificationAttempts)
      (p : State)
      → Settles (give_back service process now id a failed) p (insert id (tried_again now a) failed)
  give_back-Settles now id a failed p =
      let failed' = insert id (tried_again now a) failed in
      let (s, done, found, filed) =
        content-create_or_update service now
          (new_record now failed_id [] (failed_notifications failed')) p.stored in
      record {
        after = record p { stored = s };
        ends = rw done refl;
        tracks = record { filed = filed; content = found failed_id };
      }

  abbrev settled :
      ℕ
      → String
      → NotificationAttempts
      → Dict NotificationAttempts
      → Result String (Unit {0})
      → Dict NotificationAttempts
  settled now id a failed (ok u) = erase id failed
  settled now id a failed (err e) = insert id (tried_again now a) failed

  after_process-Settles :
      (now : ℕ) (id : String) (a : NotificationAttempts) (failed : Dict NotificationAttempts)
      (x : Result String (Unit {0}) × R) (p : State)
      → Tracks failed p
      → Settles
          (λ q. after_process service process now id a failed q x)
          p
          (settled now id a failed x.0)
  unfolding update
  after_process-Settles now id a failed (ok u, r) p t =
      let failed' = erase id failed in
      let b = new_record now failed_id [] (failed_notifications failed') in
      let w = touch now b in
      record {
        after = record p { rest = r; stored = put p.stored w };
        ends = rw (update_lem now b p.stored, t.filed) refl;
        tracks = record {
          filed = has-put p.stored w failed_id;
          content = ap content_of (find-put p.stored w failed_id);
        };
      }
  after_process-Settles now id a failed (err e, r) p t =
      let back = give_back-Settles now id a failed (record p { rest = r }) in
      record { after = back.after; ends = back.ends; tracks = back.tracks }

  abbrev with_fate :
      ℕ
      → String
      → NotificationAttempts
      → Dict NotificationAttempts
      → Result String (Unit {0})
      → Dict NotificationAttempts
  with_fate now id a failed x = if is_due now a then settled now id a failed x else failed

  retry_one-Settles :
      (now : ℕ) (id : String) (a : NotificationAttempts) (failed : Dict NotificationAttempts)
      (p : State)
      → Tracks failed p
      → Settles
          (retry_one service process now id a failed)
          p
          (with_fate now id a failed (process a.notification p.rest).0)
  unfolding retry_one
  retry_one-Settles now id a failed p t = elim (Bool-cases (is_due now a)) [
    | inl e ↦
        let x = process a.notification p.rest in
        let s = after_process-Settles now id a failed x p t in
        rw e (record { after = s.after; ends = rw e s.ends; tracks = s.tracks })
    | inr e ↦ rw e (record { after = p; ends = rw e refl; tracks = t })
  ]

  lookup-settled :
      (now : ℕ) (id k : String) (a : NotificationAttempts) (failed : Dict NotificationAttempts)
      (x : Result String (Unit {0}))
      → lookup k (settled now id a failed x) ≡ (
          if id === k
          then elim x [ ok u ↦ none | err e ↦ some (tried_again now a) ]
          else lookup k failed)
  lookup-settled now id k a failed (ok u) = lookup-erase id k failed
  lookup-settled now id k a failed (err e) = lookup-insert id k (tried_again now a) failed

  lookup-with_fate :
      (now : ℕ) (id k : String) (a : NotificationAttempts) (failed : Dict NotificationAttempts)
      (x : Result String (Unit {0}))
      → lookup id failed ≡ some a
      → lookup k (with_fate now id a failed x)
        ≡ (if id === k then fate now a x else lookup k failed)
  lookup-with_fate now id k a failed x h = elim (Bool-cases (is_due now a)) [
    | inl e ↦ rw e (lookup-settled now id k a failed x)
    | inr e ↦ elim (Bool-cases (id === k)) [
      | inl f ↦
          let same : id ≡ k = ground (arith, eq_iff id k) in
          rw (e, f) (subst (λ j. lookup j failed ≡ some a) same h)
      | inr f ↦ rw (e, f) refl
    ]
  ]

  -- A notification whose processing comes to `x` whatever state it meets.
  abbrev pub ComesTo : NotificationAttempts → Result String (Unit {0}) → Type 0
  ComesTo a x = (r : R) → (process a.notification r).0 ≡ x

  fate_of :
      (now : ℕ) (a b : NotificationAttempts) (x : Result String (Unit {0})) (r : R)
      → b ≡ a
      → ComesTo a x
      → fate now b (process b.notification r).0 ≡ fate now a x
  fate_of now a b x r e c =
      subst (λ d. fate now d (process d.notification r).0 ≡ fate now a x) (sym e)
        (ap (fate now a) (c r))

  -- The pass over entries that are all still in the object.
  retry_entries-Settles :
      (now : ℕ) (es failed : Dict NotificationAttempts) (p : State) (k : String)
      (a : NotificationAttempts) (x : Result String (Unit {0}))
      → ComesTo a x
      → IsFunctional es
      → ((j : String) (b : NotificationAttempts) → lookup j es ≡ some b → lookup j failed ≡ some b)
      → Tracks failed p
      → (failed' : Dict NotificationAttempts) × Settles
          (retry_entries service process now es failed)
          p
          failed'
        × (lookup k es ≡ some a → lookup k failed' ≡ fate now a x)
        × (lookup k es ≡ none → lookup k failed' ≡ lookup k failed)
  unfolding retry_entries
  retry_entries-Settles now [] failed p k a x c u sub t =
      (failed, record { after = p; ends = refl; tracks = t }, λ h. cc, λ h. refl)
  retry_entries-Settles now ((id, b) ∷ es) failed p k a x c u sub t =
      let y = (process b.notification p.rest).0 in
      let one = retry_one-Settles now id b failed p t in
      let here = sub id b (rw (eq_refl id) refl) in
      let moved : (j : String)
          → lookup j (with_fate now id b failed y)
            ≡ (if id === j then fate now b y else lookup j failed) =
        λ j. lookup-with_fate now id j b failed y here in
      let (failed', s, found, missing) =
        retry_entries-Settles now es (with_fate now id b failed y) one.after k a x c u.1
          (λ j d e.
            let apart = other_key id j d es u.0 e in moved j ∙ rw apart (sub j d (rw apart e)))
          one.tracks in
      (
        failed',
        record { after = s.after; ends = rw one.ends s.ends; tracks = s.tracks },
        λ h. elim (Bool-cases (id === k)) [
          | inl e ↦
              let same : id ≡ k = ground (arith, eq_iff id k) in
              let b_is : b ≡ a =
                some-injective (subst (λ v. (if v then some b else lookup k es) ≡ some a) e h) in
              missing (subst (λ j. lookup j es ≡ none) same u.0)
              ∙ (moved k ∙ rw e (fate_of now a b x p.rest b_is c))
          | inr e ↦ found (subst (λ v. (if v then some b else lookup k es) ≡ some a) e h)
        ],
        λ h. elim (Bool-cases (id === k)) [
          | inl e ↦
              let no : some b ≡ none =
                subst (λ v. (if v then some b else lookup k es) ≡ none) e h in
              cc
          | inr e ↦
              missing (subst (λ v. (if v then some b else lookup k es) ≡ none) e h)
              ∙ (moved k ∙ rw e refl)
        ],
      )

  filed_of :
      (p : State) (failed : Dict NotificationAttempts)
      → content_at service p.stored failed_id ≡ some (failed_notifications failed)
      → has p.stored failed_id ≡ true
  filed_of p failed h = present (find_by_id p.stored failed_id) refl
    where
      present :
          (o : Option BasicRecord)
          → find_by_id p.stored failed_id ≡ o
          → has p.stored failed_id ≡ true
      present none e = absurd (ground (arith, h, e))
      present (some b) e = find-has p.stored failed_id e

  -- A pass of retries, when the failed notifications are on file: one whose processing comes to `x`
  -- whatever state it meets is dropped if it was due and is processed, has one more attempt if it was
  -- due and fails again, and stays as it is if it was not due.
  pub retry_failed_notifications_lem :
      (now : ℕ) (failed : Dict NotificationAttempts) (p : State) (k : String)
      (a : NotificationAttempts) (x : Result String (Unit {0}))
      → content_at service p.stored failed_id ≡ some (failed_notifications failed)
      → IsFunctional failed
      → lookup k failed ≡ some a
      → ComesTo a x
      → (failed' : Dict NotificationAttempts) × (q : State) × (retry_failed_notifications service
            process now p
          ≡ (ok tt, q))
        × (content_at service q.stored failed_id ≡ some (failed_notifications failed'))
        × (lookup k failed' ≡ fate now a x)
  unfolding retry_failed_notifications
  retry_failed_notifications_lem now failed p k a x h u l c =
      let t : Tracks failed p = record { filed = filed_of p failed h; content = h } in
      let (failed', s, found, _) =
        retry_entries-Settles now failed failed p k a x c u (λ j b e. e) t in
      (failed', s.after, rw (h, s.ends) refl, s.tracks.content, found l)
