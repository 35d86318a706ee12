-- ===== src/Migrations/Ordered.antt =====
-- The migrations of what KERIA keeps, which are no transactions.
use veridian_wallet.Base.{◌≡◌, refl, sym, ap, Bool, true, false, some, List, ◌++◌, Result, ok, err}
use mathlib.Core.Path.{subst}
use veridian_wallet.Base.Text.{Text}
use veridian_wallet.Base.States.{Action, continue}
use veridian_wallet.Migrations.{
  MigrationError, invalid_version_format, version_or_base, CloudMigration, CloudDatabase, Connected,
  get_cloud_version, in_cloud, in_local, set_cloud_version, when_configured, run_cloud_migration,
  execute_cloud_migrations, execute_cloud_migrations_on_connection, pending_migrations,
}
use veridian_wallet.Migrations.Position.{AreOrdered, Cuts, pending_migrations-Cuts}
use veridian_wallet.Migrations.Restarts.{
  Started, never, again, InOrder, none_yet, Progress, start_app-Progress,
}

module _ {K D E : Type 0} (database : CloudDatabase D E)
    (writes : (v : Text) (d d' : D)
      → database.set_cloud_version_kv v d ≡ (ok tt, d')
      → database.cloud_version_kv d' ≡ ok (some v))
    (keeps : (v : Text) (d d' : D) (e : E)
      → database.set_cloud_version_kv v d ≡ (err e, d')
      → database.cloud_version_kv d' ≡ database.cloud_version_kv d) where
  abbrev stored : Connected K D → Text
  stored s = get_cloud_version database s.local

  abbrev run : CloudMigration K E → Action (Connected K D) (MigrationError E) (Unit {0})
  run m = run_cloud_migration database m

  abbrev version_of : CloudMigration K E → Text
  version_of m = m.version

  set-ok :
      (v : Text) (s u : Connected K D) → set_cloud_version database v s ≡ (ok tt, u) → stored u ≡ v
  set-ok v s u h = after (database.set_cloud_version_kv v s.local) refl h
    where
      after :
          (r : Result E (Unit {0}) × D)
          → database.set_cloud_version_kv v s.local ≡ r
          → in_local database s r ≡ (ok tt, u)
          → stored u ≡ v
      after (ok w, d) e k =
          subst (λ z. stored z ≡ v) (ap (λ p. p.1) k) (ap version_or_base (writes v s.local d e))
      after (err x, d) e k = absurd (cc)

  set-err :
      (v : Text) (s u : Connected K D) (x : MigrationError E)
      → set_cloud_version database v s ≡ (err x, u)
      → stored u ≡ stored s
  set-err v s u x h = after (database.set_cloud_version_kv v s.local) refl h
    where
      after :
          (r : Result E (Unit {0}) × D)
          → database.set_cloud_version_kv v s.local ≡ r
          → in_local database s r ≡ (err x, u)
          → stored u ≡ stored s
      after (ok w, d) e k = absurd (cc)
      after (err y, d) e k =
          subst (λ z. stored z ≡ stored s) (ap (λ p. p.1) k)
            (ap version_or_base (keeps v s.local d y e))

  run-ok :
      (m : CloudMigration K E) (s u : Connected K D) → run m s ≡ (ok tt, u) → stored u ≡ m.version
  unfolding run_cloud_migration
  run-ok m s u h = after (m.cloud_migration_statements s.cloud) h
    where
      after :
          (r : Result E (Unit {0}) × K)
          → continue (λ w. set_cloud_version database m.version) (in_cloud database s r)
            ≡ (ok tt, u)
          → stored u ≡ m.version
      after (ok w, k) h = set-ok m.version (record s { cloud = k }) u h
      after (err x, k) h = absurd (cc)

  run-err :
      (m : CloudMigration K E) (s u : Connected K D) (x : MigrationError E)
      → run m s ≡ (err x, u)
      → stored u ≡ stored s
  unfolding run_cloud_migration
  run-err m s u x h = after (m.cloud_migration_statements s.cloud) h
    where
      after :
          (r : Result E (Unit {0}) × K)
          → continue (λ w. set_cloud_version database m.version) (in_cloud database s r)
            ≡ (err x, u)
          → stored u ≡ stored s
      after (ok w, k) h = set-err m.version (record s { cloud = k }) u x h
      after (err y, k) h = ap stored (sym (ap (λ p. p.1) h))

  abbrev Reached : (ms all : List (CloudMigration K E)) (s t : Connected K D) → Type 0
  Reached ms all s t = Progress version_of run stored invalid_version_format ms all s t

  connection-Reached :
      (ms all : List (CloudMigration K E)) (s t : Connected K D)
      → AreOrdered version_of ms
      → Reached ms all s t
      → Reached ms all s (execute_cloud_migrations_on_connection database ms t).1
  unfolding execute_cloud_migrations_on_connection execute_cloud_migrations
  connection-Reached ms all s t ordered p = after (database.is_keria_configured t.local)
    where
      after : (r : Result E Bool) → Reached ms all s (when_configured database ms r t).1
      after (err e) = p
      after (ok false) = p
      after (ok true) =
          (start_app-Progress version_of run stored invalid_version_format run-ok run-err ms ordered
            all s t p).0

  Started-Reached :
      (ms all : List (CloudMigration K E)) (s t : Connected K D)
      → AreOrdered version_of ms
      → Reached ms all s s
      → Started (execute_cloud_migrations_on_connection database ms) s t
      → Reached ms all s t
  Started-Reached ms all s t ordered p never = p
  Started-Reached ms all s t ordered p (again {t = u} h) =
      connection-Reached ms all s u ordered (Started-Reached ms all s u ordered p h)

  -- When storing the version either stores it or leaves the one there was, the versions of the
  -- migrations are valid and in order, and the version that is stored cuts them into those up to it
  -- and those behind it, then after any number of connections, each of which may have stopped at an
  -- error, those behind have been run in order: none before the one in front of it had ended well, and
  -- none again once it had. Those that have not ended well are the ones that are pending.
  pub execute_cloud_migrations_on_connection-InOrder :
      (past left : List (CloudMigration K E)) (s t : Connected K D)
      → AreOrdered (λ m. m.version) (past ++ left)
      → Cuts (λ m. m.version) (get_cloud_version database s.local) past left
      → Started (execute_cloud_migrations_on_connection database (past ++ left)) s t
      → (rest : List (CloudMigration K E)) × InOrder (run_cloud_migration database) left s rest t
        × (pending_migrations (λ m. m.version) (get_cloud_version database t.local) (past ++ left)
            ≡ some rest)
  execute_cloud_migrations_on_connection-InOrder past left s t ordered cuts started =
      let ms = past ++ left in
      let p0 : Reached ms left s s = record {
        past = past;
        left = left;
        whole = refl;
        cuts = cuts;
        in_order = none_yet;
      } in
      let p = Started-Reached ms left s t ordered p0 started in
      (
        p.left,
        p.in_order,
        subst (λ l. pending_migrations version_of (stored t) l ≡ some p.left) p.whole
            (pending_migrations-Cuts version_of (stored t) p.past p.left
              (subst (AreOrdered version_of) (sym p.whole) ordered) p.cuts),
      )
