-- ===== src/Migrations/Once.antt =====
-- The migrations of the database, each of which is one transaction with the version.
use veridian_wallet.Base.{
  ◌≡◌, refl, sym, ap, ◌∙◌, some, List, [], ◌∷◌, ◌++◌, append_nil, append_assoc, map, Result, ok,
  err,
}
use mathlib.Core.Path.{subst}
use veridian_wallet.Base.Text.{Text}
use veridian_wallet.Base.States.{Action, continue, pure}
use veridian_wallet.Migrations.{
  MigrationError, invalid_version_format, Statement, statement, insert_version, LocalMigration,
  version, Database, get_current_version_database, execute_local_migration, version_or_base,
  thrown_in, with_version, run_local_migration, execute_local_migrations, migrate_db, execute_each,
  pending_migrations,
}
use veridian_wallet.Migrations.Position.{AreOrdered, Cuts, pending_migrations-Cuts}
use veridian_wallet.Migrations.Restarts.{
  Started, InOrder, none_yet, done, stopped, Progress, start_app-Progress, Started-Progress,
}

module _ {M S X : Type 0} (execute : M → Action S X (Unit {0})) where
  execute_each-append :
      (xs : List M) (m : M) (s t : S)
      → execute_each execute xs s ≡ (ok tt, t)
      → execute_each execute (xs ++ (m ∷ [])) s ≡ execute m t
  unfolding execute_each
  execute_each-append [] m s t h = pure_after (execute m s) ∙ ap (execute m) (ap (λ p. p.1) h)
    where
      pure_after : (r : Result X (Unit {0}) × S) → continue (λ u. pure tt) r ≡ r
      pure_after (ok u, v) = refl
      pure_after (err e, v) = refl
  execute_each-append (x ∷ xs) m s t h =
      after (execute x s) (λ v e. execute_each-append xs m v t e) h
    where
      after :
          (r : Result X (Unit {0}) × S)
          → ((v : S)
              → execute_each execute xs v ≡ (ok tt, t)
              → execute_each execute (xs ++ (m ∷ [])) v ≡ execute m t)
          → continue (λ u. execute_each execute xs) r ≡ (ok tt, t)
          → continue (λ u. execute_each execute (xs ++ (m ∷ []))) r ≡ execute m t
      after (ok u, v) rest e = rest v e
      after (err y, v) rest e = absurd (cc)

  -- Where an error changes nothing, the migrations that ended well have run once each.
  once :
      (stays : (m : M) (t u : S) (e : X) → execute m t ≡ (err e, u) → u ≡ t) (all : List M) (s : S)
      (left : List M) (t : S)
      → InOrder execute all s left t
      → (ran : List M) × (ran ++ left ≡ all) × (execute_each execute ran s ≡ (ok tt, t))
  unfolding execute_each
  once stays all s left t none_yet = ([], refl, refl)
  once stays all s left t (done m rest v u h e) =
      let (ran, whole, r) = once stays all s (m ∷ rest) v h in
      (ran ++ (m ∷ []), append_assoc ran (m ∷ []) rest ∙ whole, execute_each-append ran m s v r ∙ e)
  once stays all s left t (stopped m rest v u x h e) =
      let (ran, whole, r) = once stays all s (m ∷ rest) v h in
      (ran, whole, r ∙ ap (λ w. (ok tt, w)) (sym (stays m v u x e)))

module _ {D Q E : Type 0} (database : Database D Q E)
    (atomic : (sts : List (Statement Q)) (d d' : D) (e : E)
      → database.execute_transaction sts d ≡ (err e, d')
      → d' ≡ d)
    (writes : (sts : List (Statement Q)) (v : Text) (d d' : D)
      → database.execute_transaction (sts ++ (insert_version v ∷ [])) d ≡ (ok tt, d')
      → database.version_kv d' ≡ ok (some v)) where
  abbrev run : LocalMigration D Q E → Action D (MigrationError E) (Unit {0})
  run m = run_local_migration database m

  abbrev stored : D → Text
  stored d = get_current_version_database database d

  with_version-err :
      (v : Text) (q : Result E (List Q)) (d u : D) (x : MigrationError E)
      → with_version database v q d ≡ (err x, u)
      → u ≡ d
  with_version-err v (err e) d u x h = sym (ap (λ p. p.1) h)
  with_version-err v (ok qs) d u x h = after (database.execute_transaction sts d) refl h
    where
      sts : List (Statement Q)
      sts = map statement qs ++ (insert_version v ∷ [])

      after :
          (r : Result E (Unit {0}) × D)
          → database.execute_transaction sts d ≡ r
          → thrown_in database r ≡ (err x, u)
          → u ≡ d
      after (ok w, c) e k = absurd (cc)
      after (err y, c) e k = sym (ap (λ p. p.1) k) ∙ atomic sts d c y e

  with_version-ok :
      (v : Text) (q : Result E (List Q)) (d u : D)
      → with_version database v q d ≡ (ok tt, u)
      → database.version_kv u ≡ ok (some v)
  with_version-ok v (err e) d u h = absurd (cc)
  with_version-ok v (ok qs) d u h = after (database.execute_transaction sts d) refl h
    where
      sts : List (Statement Q)
      sts = map statement qs ++ (insert_version v ∷ [])

      after :
          (r : Result E (Unit {0}) × D)
          → database.execute_transaction sts d ≡ r
          → thrown_in database r ≡ (ok tt, u)
          → database.version_kv u ≡ ok (some v)
      after (ok w, c) e k =
          subst (λ z. database.version_kv z ≡ ok (some v)) (ap (λ p. p.1) k)
            (writes (map statement qs) v d c e)
      after (err y, c) e k = absurd (cc)

  run-stays :
      (m : LocalMigration D Q E) (d u : D) (x : MigrationError E) → run m d ≡ (err x, u) → u ≡ d
  unfolding run_local_migration
  run-stays m d u x h = with_version-err (version m) (execute_local_migration m d) d u x h

  run-moves : (m : LocalMigration D Q E) (d u : D) → run m d ≡ (ok tt, u) → stored u ≡ version m
  unfolding run_local_migration
  run-moves m d u h =
      ap version_or_base (with_version-ok (version m) (execute_local_migration m d) d u h)

  abbrev Reached : List (LocalMigration D Q E) → List (LocalMigration D Q E) → D → D → Type 0
  Reached ms all s t = Progress version run stored invalid_version_format ms all s t

  migrate_db-Progress :
      (past left : List (LocalMigration D Q E)) (s t : D)
      → AreOrdered version (past ++ left)
      → Cuts version (stored s) past left
      → Started (migrate_db database (past ++ left)) s t
      → Reached (past ++ left) left s t
  unfolding migrate_db execute_local_migrations
  migrate_db-Progress past left s t ordered cuts started =
      Started-Progress version run stored invalid_version_format run-moves
        (λ m c u x h. ap stored (run-stays m c u x h)) (past ++ left) ordered left s t
        (record { past = past; left = left; whole = refl; cuts = cuts; in_order = none_yet })
        started

  pending-Reached :
      (ms all : List (LocalMigration D Q E)) (s t : D)
      → AreOrdered version ms
      → (p : Reached ms all s t) → pending_migrations version (stored t) ms ≡ some p.left
  pending-Reached ms all s t ordered p =
      subst (λ l. pending_migrations version (stored t) l ≡ some p.left) p.whole
        (pending_migrations-Cuts version (stored t) p.past p.left
          (subst (AreOrdered version) (sym p.whole) ordered) p.cuts)

  -- When transactions are atomic and store the version that they write, the versions of the migrations
  -- are valid and in order, and the version that is stored cuts them into those up to it and those
  -- behind it, then after any number of
  -- starts of the app, each of which may have stopped at an error, the database is what the first of
  -- those behind give, each run once and in order, and the others are the ones that are pending.
  pub migrate_db-once :
      (past left : List (LocalMigration D Q E)) (s t : D)
      → AreOrdered version (past ++ left)
      → Cuts version (get_current_version_database database s) past left
      → Started (migrate_db database (past ++ left)) s t
      → (ran rest : List (LocalMigration D Q E)) × (ran ++ rest ≡ left)
        × (execute_each (run_local_migration database) ran s ≡ (ok tt, t))
        × (pending_migrations version (get_current_version_database database t) (past ++ left)
            ≡ some rest)
  migrate_db-once past left s t ordered cuts started =
      let p = migrate_db-Progress past left s t ordered cuts started in
      let (ran, whole, r) = once run run-stays left s p.left t p.in_order in
      (ran, p.left, whole, r, pending-Reached (past ++ left) left s t ordered p)

  -- When transactions are atomic and store the version that they write, the versions of the migrations
  -- are valid and in order, and the version that is stored cuts them into those up to it and those
  -- behind it, a start that ends
  -- without an error, whatever starts there were in front of it, leaves the database that one run of
  -- all those behind in order gives, and the next start changes nothing.
  pub migrate_db_complete :
      (past left : List (LocalMigration D Q E)) (s t u : D)
      → AreOrdered version (past ++ left)
      → Cuts version (get_current_version_database database s) past left
      → Started (migrate_db database (past ++ left)) s t
      → migrate_db database (past ++ left) t ≡ (ok tt, u)
      → (execute_each (run_local_migration database) left s ≡ (ok tt, u))
        × (migrate_db database (past ++ left) u ≡ (ok tt, u))
  unfolding migrate_db execute_local_migrations execute_each
  migrate_db_complete past left s t u ordered cuts started ends =
      let ms = past ++ left in
      let p = migrate_db-Progress past left s t ordered cuts started in
      let (q, nothing_left) =
        start_app-Progress version run stored invalid_version_format run-moves
          (λ m c w x h. ap stored (run-stays m c w x h)) ms ordered left s t p in
      let empty : q.left ≡ [] = nothing_left (ap (λ x. x.0) ends) in
      let here : (migrate_db database ms t).1 ≡ u = ap (λ x. x.1) ends in
      let (ran, whole, r) =
        once run run-stays left s q.left (migrate_db database ms t).1 q.in_order in
      let every : ran ≡ left = sym (append_nil ran) ∙ (ap (λ l. ran ++ l) (sym empty) ∙ whole) in
      let pending : pending_migrations version (stored u) ms ≡ some [] =
        ap (λ w. pending_migrations version (stored w) ms) (sym here)
        ∙ (pending-Reached ms left s (migrate_db database ms t).1 ordered q ∙ ap some empty) in
      (
        ap (λ l. execute_each run l s) (sym every) ∙ (r ∙ ap (λ w. (ok tt, w)) here),
        rw pending refl,
      )
