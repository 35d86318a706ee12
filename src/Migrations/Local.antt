-- ===== src/Migrations/Local.antt =====
-- `LocalMigrationManager`, and the part of `SqliteSession` that starts it. What the SQLite plugin keeps
-- is a parameter, with the calls that are made of it.
use veridian_wallet.Base.{Option, none, some, List, [], ◌∷◌, ◌++◌, map, Result, ok, err}
use veridian_wallet.Base.Text.{Text, codes}
use veridian_wallet.Base.States.{Action}
use veridian_wallet.Migrations.Pending.{pending_migrations, execute_found}

-- "Invalid version format", or what the database or a migration throws.
pub data MigrationError (E : Type 0) : Type 0 where
  invalid_version_format : MigrationError E
  thrown : E → MigrationError E

-- A statement of a migration, or the one that stores the version under VERSION_DATABASE_KEY.
pub data Statement (Q : Type 0) : Type 0 where
  statement : Q → Statement Q
  insert_version : Text → Statement Q

pub data LocalMigration (D Q E : Type 0) : Type 0 where
  sql_migration : Text → List Q → LocalMigration D Q E
  ts_migration : Text → (D → Result E (List Q)) → LocalMigration D Q E

abbrev pub version : {D Q E : Type 0} → LocalMigration D Q E → Text
version (sql_migration v sql) = v
version (ts_migration v migration_statements) = v

pub record Database (D Q E : Type 0) : Type 0 where
  pub execute_transaction : List (Statement Q) → D → Result E (Unit {0}) × D
  -- `getKv` for VERSION_DATABASE_KEY.
  pub version_kv : D → Result E (Option Text)

-- BASE_VERSION.
abbrev pub base_version : Text
base_version = codes "0.0.0"

abbrev pub version_or_base : {E : Type 0} → Result E (Option Text) → Text
version_or_base (err e) = base_version
version_or_base (ok none) = base_version
version_or_base (ok (some v)) = v

unfoldable pub execute_local_migration :
    {D Q E : Type 0} → LocalMigration D Q E → D → Result E (List Q)
execute_local_migration (sql_migration v sql) d = ok sql
execute_local_migration (ts_migration v migration_statements) d = migration_statements d

module _ {D Q E : Type 0} (database : Database D Q E) where
  abbrev pub thrown_in : Result E (Unit {0}) × D → Result (MigrationError E) (Unit {0}) × D
  thrown_in (ok u, d) = (ok u, d)
  thrown_in (err e, d) = (err (thrown e), d)

  abbrev pub with_version : Text → Result E (List Q) → Action D (MigrationError E) (Unit {0})
  with_version v (err e) d = (err (thrown e), d)
  with_version v (ok qs) d =
      thrown_in (database.execute_transaction (map statement qs ++ (insert_version v ∷ [])) d)

  -- One round of the loop: the statements and the version in one transaction.
  unfoldable pub run_local_migration : LocalMigration D Q E → Action D (MigrationError E) (Unit {0})
  run_local_migration m d = with_version (version m) (execute_local_migration m d) d

  unfoldable pub execute_local_migrations :
      Text → List (LocalMigration D Q E) → Action D (MigrationError E) (Unit {0})
  execute_local_migrations current ms =
      execute_found run_local_migration invalid_version_format
        (pending_migrations version current ms)

  abbrev pub get_current_version_database : D → Text
  get_current_version_database d = version_or_base (database.version_kv d)

  unfoldable pub migrate_db : List (LocalMigration D Q E) → Action D (MigrationError E) (Unit {0})
  migrate_db ms d = execute_local_migrations (get_current_version_database d) ms d
