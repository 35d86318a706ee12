-- ===== src/Notifications/Rounds.antt =====
-- Rounds of the polling loop against the list of notifications that KERIA keeps.
use veridian_wallet.Base.{
  take-drop, length-drop, ℕ, ◌+◌, ◌-◌, ◌*◌, ◌≤◌, ◌≡◌, refl, sym, ap, ◌∙◌, inl, inr, Bool-cases,
  true, false, not, ◌||◌, some, List, [], ◌∷◌, ◌++◌, String, Result, ok, err, All, take, drop,
  length, arith,
}
use mathlib.Core.Path.{subst}
use mathlib.Core.List.{append-nil, append_assoc}
use veridian_wallet.Storage.{StorageService}
use veridian_wallet.Store.Types.{Notification}
use veridian_wallet.Notifications.{
  initial_marker, FetchError, network, unexpected, Round, Poll, new_notes, fetched, on_new,
  poll_round_with, start, retry_when_due, poll_round, poll, poll_all,
}
use veridian_wallet.Notifications.Slices.{
  marker_after, marker_after-append, slice, batch_size, new_notes-slice,
}
use veridian_wallet.Notifications.Steps
use veridian_wallet.Notifications.Steps.{IsSynced}

-- How a round goes when KERIA keeps the notifications `ns`: the loop waits, fetching fails, or it gets
-- what it asks for.
pub data Reply (ns : List Notification) (r : Round) : Type 0 where
  waits : (not r.logged_in || not r.online) ≡ true → Reply ns r
  fails : (e : FetchError) → ((a b : ℕ) → r.list a b ≡ err e) → Reply ns r
  answers : ((a b : ℕ) → r.list a b ≡ ok (slice ns a b)) → Reply ns r

-- Rounds between which notifications arrive at KERIA, after those that it keeps already.
abbrev pub Honest : List Notification → List (List Notification × Round) → Type 0
Honest ns [] = Unit
Honest ns ((more, r) ∷ rs) = Reply (ns ++ more) r × Honest (ns ++ more) rs

abbrev pub arrivals : List (List Notification × Round) → List Notification
arrivals [] = []
arrivals ((more, r) ∷ rs) = more ++ arrivals rs

abbrev pub rounds_of : List (List Notification × Round) → List Round
rounds_of [] = []
rounds_of ((more, r) ∷ rs) = r ∷ rounds_of rs

-- A round in which the loop runs and KERIA answers.
pub record IsServed (ns : List Notification) (r : Round) : Type 0 where
  pub ready : (not r.logged_in || not r.online) ≡ false
  pub answer : (a b : ℕ) → r.list a b ≡ ok (slice ns a b)

module _ (service : StorageService) {R : Type 0}
    (process : Notification → R → Result String (Unit {0}) × R) where
  open service use {find_by_id}

  abbrev State : Type 0
  State = Poll service process

  -- The loop has gone over `seen`, and the marker says so, in the loop and on file.
  pub record HasSeen (seen : List Notification) (p : State) : Type 0 where
    pub query : p.query ≡ marker_after initial_marker seen
    pub synced : IsSynced service process p

  -- Starting again reads the marker that the loop had.
  start-HasSeen :
      (now : ℕ) (seen : List Notification) (p : State)
      → HasSeen seen p
      → HasSeen seen (start service process now p).1
  unfolding start
  start-HasSeen now seen p h = rw h.synced (record { query = h.query; synced = h.synced })

  on_new_lem :
      (now : ℕ) (seen ns : List Notification) (p : State)
      → HasSeen seen p
      → (q : State) × (on_new service process now (retry_when_due service process now) (some ns) p
          ≡ (ok ns, q))
        × HasSeen (seen ++ ns) q
  on_new_lem now seen ns p h =
      let (q, handled, at, synced) = Steps.handle_all_lem service process now ns p h.synced in
      let kept = Steps.retry_when_due-KeepsMarker service process now q in
      (
        kept.after,
        rw (handled, kept.ends) refl,
        record {
          query =
              kept.same_query
              ∙ (at ∙ rw h.query (sym (marker_after-append initial_marker seen ns)));
          synced = kept.same_marker ∙ (synced ∙ rw kept.same_query refl);
        },
      )

  -- Of all the notifications that had not been seen, the first ones were handed over, in their order,
  -- and the marker accounts for them.
  pub record HandsOver (seen all : List Notification) (x : State × List Notification) : Type 0 where
    pub left : List Notification
    pub parts : all ≡ x.1 ++ left
    pub sees : HasSeen (seen ++ x.1) x.0

  HandsOver-none :
      (seen rest : List Notification) (r : Round) (p q : State)
      → poll service process r p ≡ (q, [])
      → HasSeen seen q
      → HandsOver seen rest (poll service process r p)
  HandsOver-none seen rest r p q e h = rw e (record {
    left = rest;
    parts = refl;
    sees = subst (λ l. HasSeen l q) (sym (append-nil seen)) h;
  })

  fails-HandsOver :
      (seen rest : List Notification) (r : Round) (p : State) (e : FetchError)
      → HasSeen seen p
      → (not r.logged_in || not r.online) ≡ false
      → fetched service process r p ≡ err e
      → HandsOver seen rest (poll service process r p)
  unfolding poll poll_round poll_round_with
  fails-HandsOver seen rest r p network h ready failed = elim (Bool-cases r.online_after) [
    | inl a ↦ HandsOver-none seen rest r p p (rw (ready, failed, a) refl) h
    | inr a ↦
        HandsOver-none seen rest r p (start service process r.now p).1 (rw (ready, failed, a) refl)
          (start-HasSeen r.now seen p h)
  ]
  fails-HandsOver seen rest r p (unexpected e) h ready failed =
      HandsOver-none seen rest r p (start service process r.now p).1 (rw (ready, failed) refl)
        (start-HasSeen r.now seen p h)

  batch_size_ge : (seen : List Notification) → 24 ≤ batch_size seen
  batch_size_ge [] = omega arith
  batch_size_ge (n ∷ ns) = omega arith

  -- A round in which KERIA answers hands over the next batch.
  answers-batch :
      (seen rest : List Notification) (r : Round) (p : State)
      → HasSeen seen p
      → (not r.logged_in || not r.online) ≡ false
      → ((a b : ℕ) → r.list a b ≡ ok (slice (seen ++ rest) a b))
      → (q : State) × (poll service process r p ≡ (q, take (batch_size seen) rest))
        × HasSeen (seen ++ take (batch_size seen) rest) q
  unfolding poll poll_round poll_round_with
  answers-batch seen rest r p h ready k =
      let batch = take (batch_size seen) rest in
      let at = p.query.next_index - 1 in
      let new : new_notes p.query (slice (seen ++ rest) at (at + 24)) ≡ some batch =
        rw h.query (new_notes-slice seen rest) in
      let (q, done, sees) = on_new_lem r.now seen batch p h in
      (q, rw (ready, k at (at + 24), new, done) refl, sees)

  poll-HandsOver :
      (seen rest : List Notification) (r : Round) (p : State)
      → HasSeen seen p
      → Reply (seen ++ rest) r
      → HandsOver seen rest (poll service process r p)
  unfolding poll poll_round poll_round_with
  poll-HandsOver seen rest r p h (waits w) = HandsOver-none seen rest r p p (rw w refl) h
  poll-HandsOver seen rest r p h (fails e k) = elim (Bool-cases (not r.logged_in || not r.online)) [
    | inl w ↦ HandsOver-none seen rest r p p (rw w refl) h
    | inr w ↦ fails-HandsOver seen rest r p e h w (k _ _)
  ]
  poll-HandsOver seen rest r p h (answers k) = elim (Bool-cases (not r.logged_in || not r.online)) [
    | inl w ↦ HandsOver-none seen rest r p p (rw w refl) h
    | inr w ↦
        let (q, ends, sees) = answers-batch seen rest r p h w k in
        rw ends (record {
          left = drop (batch_size seen) rest;
          parts = take-drop (batch_size seen) rest;
          sees = sees;
        })
  ]

  HandsOver-append :
      (r : Round) (rs : List Round) (seen all later : List Notification) (p : State)
      → (one : HandsOver seen all (poll service process r p))
      → let (q, ns) = poll service process r p in
        HandsOver (seen ++ ns) (one.left ++ later) (poll_all service process rs q)
        → HandsOver seen (all ++ later) (poll_all service process (r ∷ rs) p)
  unfolding poll_all
  HandsOver-append r rs seen all later p one next =
      let (q, ns) = poll service process r p in
      let (q', ms) = poll_all service process rs q in
      record {
        left = next.left;
        parts =
            ap (λ l. l ++ later) one.parts
            ∙ (append_assoc ns one.left later
                ∙ (ap (λ l. ns ++ l) next.parts ∙ sym (append_assoc ns ms next.left)));
        sees = subst (λ l. HasSeen l q') (append_assoc seen ns ms) next.sees;
      }

  -- From a state whose marker accounts for the notifications seen so far, and over any rounds, whether
  -- they wait, fail, throw or are answered, with notifications arriving in between, the loop goes over
  -- the notifications that it had not seen in the order in which KERIA keeps them, none left out and
  -- none twice, and the marker accounts for them afterwards.
  pub handed_in_order :
      (rs : List (List Notification × Round)) (seen rest : List Notification) (p : State)
      → HasSeen seen p
      → Honest (seen ++ rest) rs
      → HandsOver seen (rest ++ arrivals rs) (poll_all service process (rounds_of rs) p)
  unfolding poll_all
  handed_in_order [] seen rest p h e = record {
    left = rest;
    parts = append-nil rest;
    sees = subst (λ l. HasSeen l p) (sym (append-nil seen)) h;
  }
  handed_in_order ((more, r) ∷ rs) seen rest p h (reply, later) =
      let same = append_assoc seen rest more in
      let one = poll-HandsOver seen (rest ++ more) r p h (subst (λ l. Reply l r) same reply) in
      let (q, ns) = poll service process r p in
      let regroup : (seen ++ rest) ++ more ≡ (seen ++ ns) ++ one.left =
        same ∙ (ap (λ l. seen ++ l) one.parts ∙ sym (append_assoc seen ns one.left)) in
      let next =
        handed_in_order rs (seen ++ ns) one.left q one.sees
          (subst (λ l. Honest l rs) regroup later) in
      subst (λ l. HandsOver seen l (poll_all service process (r ∷ rounds_of rs) p))
        (append_assoc rest more (arrivals rs))
        (HandsOver-append r (rounds_of rs) seen (rest ++ more) (arrivals rs) p one next)

  -- From a state whose marker accounts for the notifications seen so far, when KERIA answers every round and keeps the same notifications, the loop has
  -- gone over all that were left once there were enough rounds for them at 24 in a round.
  pub catch_up :
      (rs : List Round) (seen rest : List Notification) (p : State)
      → HasSeen seen p
      → All (IsServed (seen ++ rest)) rs
      → length rest ≤ 24 * length rs
      → (poll_all service process rs p).1 ≡ rest
  unfolding poll_all
  catch_up [] seen [] p h s enough = refl
  catch_up [] seen (n ∷ rest) p h s enough = absurd (omega arith)
  catch_up (r ∷ rs) seen rest p h (one, later) enough =
      let b = batch_size seen in
      let (q, ends, sees) = answers-batch seen rest r p h one.ready one.answer in
      let regroup : seen ++ rest ≡ (seen ++ take b rest) ++ drop b rest =
        ap (λ l. seen ++ l) (take-drop b rest)
        ∙ sym (append_assoc seen (take b rest) (drop b rest)) in
      let others =
        catch_up rs (seen ++ take b rest) (drop b rest) q sees
          (subst (λ l. All (IsServed l) rs) regroup later)
          (omega (arith, length-drop b rest, batch_size_ge seen)) in
      rw (ends, others) (sym (take-drop b rest))
