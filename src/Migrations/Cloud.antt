-- ===== src/Migrations/Cloud.antt =====
-- `CloudMigrationManager`, and the part of `SqliteSession` that starts it.
use veridian_wallet.Base.{Bool, true, false, Option, List, Result, ok, err}
use veridian_wallet.Base.Text.{Text}
use veridian_wallet.Base.States.{Action, ◌>>◌, pure, throw}
use veridian_wallet.Migrations.Pending.{pending_migrations, execute_found}
use veridian_wallet.Migrations.Local.{
  MigrationError, invalid_version_format, thrown, version_or_base,
}

pub record CloudMigration (K E : Type 0) : Type 0 where
  pub version : Text
  pub cloud_migration_statements : K → Result E (Unit {0}) × K

-- The database `D`, for which `getKv` and `setKv` are called with CLOUD_VERSION_KEY, and whether the
-- record of the connect URL has a URL.
pub record CloudDatabase (D E : Type 0) : Type 0 where
  pub cloud_version_kv : D → Result E (Option Text)
  pub set_cloud_version_kv : Text → D → Result E (Unit {0}) × D
  pub is_keria_configured : D → Result E Bool

pub record Connected (K D : Type 0) : Type 0 where
  pub cloud : K
  pub local : D

abbrev pub Connection : Type 0 → Type 0 → Type 0 → Type 0
Connection K D E = Action (Connected K D) (MigrationError E) (Unit {0})

abbrev pub get_cloud_version : {D E : Type 0} → CloudDatabase D E → D → Text
get_cloud_version database d = version_or_base (database.cloud_version_kv d)

module _ {K D E : Type 0} (database : CloudDatabase D E) where
  abbrev pub in_cloud :
      Connected K D → Result E (Unit {0}) × K → Result (MigrationError E) (Unit {0}) × Connected K D
  in_cloud s (ok u, k) = (ok u, record s { cloud = k })
  in_cloud s (err e, k) = (err (thrown e), record s { cloud = k })

  abbrev pub in_local :
      Connected K D → Result E (Unit {0}) × D → Result (MigrationError E) (Unit {0}) × Connected K D
  in_local s (ok u, d) = (ok u, record s { local = d })
  in_local s (err e, d) = (err (thrown e), record s { local = d })

  abbrev pub set_cloud_version : Text → Connection K D E
  set_cloud_version v s = in_local s (database.set_cloud_version_kv v s.local)

  abbrev pub run_statements : CloudMigration K E → Connection K D E
  run_statements m s = in_cloud s (m.cloud_migration_statements s.cloud)

  unfoldable pub run_cloud_migration : CloudMigration K E → Connection K D E
  run_cloud_migration m = do run_statements m; set_cloud_version m.version

  unfoldable pub execute_cloud_migrations : List (CloudMigration K E) → Connection K D E
  execute_cloud_migrations ms s =
      execute_found run_cloud_migration invalid_version_format
        (pending_migrations (λ m. m.version) (get_cloud_version database s.local) ms) s

  abbrev pub when_configured : List (CloudMigration K E) → Result E Bool → Connection K D E
  when_configured ms (err e) = throw (thrown e)
  when_configured ms (ok false) = pure tt
  when_configured ms (ok true) = execute_cloud_migrations ms

  -- While the agent is online.
  unfoldable pub execute_cloud_migrations_on_connection :
      List (CloudMigration K E) → Connection K D E
  execute_cloud_migrations_on_connection ms s =
      when_configured ms (database.is_keria_configured s.local) s
