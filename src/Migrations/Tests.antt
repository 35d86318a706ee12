-- ===== src/Migrations/Tests.antt =====
-- The migrations on concrete databases.
use veridian_wallet.Base.{
  ◌≡◌, refl, sym, ap, Bool, true, false, Option, none, some, List, [], ◌∷◌, ◌++◌, ◌∙◌, String,
  Result, ok, err,
}
use veridian_wallet.Base.Text.{Text, codes}
use veridian_wallet.Storage.Version.{version_compare, compare_parts, text_gt, is_valid_part}
use veridian_wallet.Base.Text.{split}
use veridian_wallet.Migrations.{
  MigrationError, thrown, insert, ordered_migrations, later_migrations, execute_local_migration,
  execute_local_migrations, Statement, statement, insert_version, LocalMigration, sql_migration,
  ts_migration, version, Database, migrate_db, run_local_migration, execute_each,
  pending_migrations, get_current_version_database, CloudMigration, CloudDatabase, Connected,
  get_cloud_version, run_cloud_migration, execute_cloud_migrations_on_connection,
}
use veridian_wallet.Migrations.Position.{AreOrdered, Cuts, before, at}
use veridian_wallet.Migrations.Restarts.{never, again, InOrder}
use veridian_wallet.Migrations.Once.{migrate_db-once, migrate_db_complete}
use veridian_wallet.Migrations.Ordered.{execute_cloud_migrations_on_connection-InOrder}

-- A database with its version and the statements that were run, of which `false` is one that throws.
pub record Log : Type 0 where
  kv : Option Text
  ran : List Bool

abbrev log_statement : Statement Bool → Option Log → Option Log
log_statement q none = none
log_statement (statement true) (some d) = some (record d { ran = true ∷ d.ran })
log_statement (statement false) (some d) = none
log_statement (insert_version v) (some d) = some (record d { kv = some v })

abbrev log_each : List (Statement Bool) → Option Log → Option Log
log_each [] o = o
log_each (q ∷ qs) o = log_each qs (log_statement q o)

abbrev commit : Log → Option Log → Result String (Unit {0}) × Log
commit d none = (err "no such table", d)
commit d (some d') = (ok tt, d')

abbrev database : Database Log Bool String
database = record {
  execute_transaction = λ qs d. commit d (log_each qs (some d));
  version_kv = λ d. ok d.kv;
}

atomic :
    (sts : List (Statement Bool)) (d d' : Log) (e : String)
    → database.execute_transaction sts d ≡ (err e, d')
    → d' ≡ d
atomic sts d d' e h = here (log_each sts (some d)) h
  where
    here : (o : Option Log) → commit d o ≡ (err e, d') → d' ≡ d
    here none h = sym (ap (λ p. p.1) h)
    here (some c) h = absurd (cc)

log_each-last :
    (sts : List (Statement Bool)) (v : Text) (o : Option Log)
    → log_each (sts ++ (insert_version v ∷ [])) o
      ≡ log_statement (insert_version v) (log_each sts o)
log_each-last [] v o = refl
log_each-last (q ∷ sts) v o = log_each-last sts v (log_statement q o)

writes :
    (sts : List (Statement Bool)) (v : Text) (d d' : Log)
    → database.execute_transaction (sts ++ (insert_version v ∷ [])) d ≡ (ok tt, d')
    → database.version_kv d' ≡ ok (some v)
writes sts v d d' h =
    here (log_each sts (some d)) (sym (ap (commit d) (log_each-last sts v (some d))) ∙ h)
  where
    here :
        (o : Option Log)
        → commit d (log_statement (insert_version v) o) ≡ (ok tt, d')
        → database.version_kv d' ≡ ok (some v)
    here none h = absurd (cc)
    here (some c) h = sym (ap (λ p. database.version_kv p.1) h)

abbrev Local : Type 0
Local = LocalMigration Log Bool String

-- The second of those that are pending fails on a database on which one statement was run.
abbrev unless_one : List Bool → Result String (List Bool)
unless_one (b ∷ []) = err "connection lost"
unless_one bs = ok (true ∷ [])

abbrev run_before : List Local
run_before = sql_migration (codes "0.0.1") (true ∷ []) ∷ sql_migration (codes "1.2.0.0") [] ∷ []

abbrev to_run : List Local
to_run =
    ts_migration (codes "1.2.0.1") (λ d. ok (true ∷ []))
    ∷ ts_migration (codes "1.2.0.2") (λ d. unless_one d.ran)
    ∷ ts_migration (codes "1.2.0.3") (λ d. ok [])
    ∷ []

abbrev installed : Log
installed = record { kv = some (codes "1.2.0.0"); ran = [] }

to_run-AreOrdered : AreOrdered version (run_before ++ to_run)
unfolding version_compare compare_parts text_gt is_valid_part split
to_run-AreOrdered = (
  refl,
  (refl, (refl, (refl, (refl, tt)))),
  (
    refl,
    (refl, (refl, (refl, tt))),
    (refl, (refl, (refl, tt)), (refl, (refl, tt), (refl, tt, tt))),
  ),
)

to_run-Cuts : Cuts version (codes "1.2.0.0") run_before to_run
unfolding version_compare compare_parts text_gt is_valid_part split
to_run-Cuts = record { past = (before refl, (at refl, tt)); later = (refl, (refl, (refl, tt))) }

abbrev start_local : Log → Result (MigrationError String) (Unit {0}) × Log
start_local d = migrate_db database (run_before ++ to_run) d

migrate_db-once_example :
    (ran rest : List Local) × (ran ++ rest ≡ to_run)
    × (execute_each (run_local_migration database) ran installed
        ≡ (ok tt, (start_local installed).1))
    × (pending_migrations version
          (get_current_version_database database (start_local installed).1)
          (run_before ++ to_run)
        ≡ some rest)
migrate_db-once_example =
    migrate_db-once database atomic writes run_before to_run installed (start_local installed).1
      to_run-AreOrdered to_run-Cuts (again never)

-- The start fails at the second of the pending migrations, and the version says so.
interrupted :
    start_local installed
    ≡ (err (thrown "connection lost"), record { kv = some (codes "1.2.0.1"); ran = true ∷ [] })
unfolding migrate_db execute_local_migrations execute_local_migration run_local_migration
    execute_each pending_migrations ordered_migrations insert later_migrations version_compare
    compare_parts text_gt is_valid_part split
interrupted = refl

abbrev used : Log
used = record installed { ran = true ∷ true ∷ [] }

abbrev migrated : Log
migrated = record { kv = some (codes "1.2.0.3"); ran = true ∷ true ∷ true ∷ true ∷ [] }

migrated_at_once : start_local used ≡ (ok tt, migrated)
unfolding migrate_db execute_local_migrations execute_local_migration run_local_migration
    execute_each pending_migrations ordered_migrations insert later_migrations version_compare
    compare_parts text_gt is_valid_part split
migrated_at_once = refl

migrate_db_complete_example :
    (execute_each (run_local_migration database) to_run used ≡ (ok tt, migrated))
    × (start_local migrated ≡ (ok tt, migrated))
migrate_db_complete_example =
    migrate_db_complete database atomic writes run_before to_run used used migrated
      to_run-AreOrdered to_run-Cuts never migrated_at_once

-- KERIA as the list of the contacts that were moved.
abbrev Cloud : Type 0
Cloud = CloudMigration (List Bool) String

abbrev cloud_database : CloudDatabase Text String
cloud_database = record {
  cloud_version_kv = λ d. ok (some d);
  set_cloud_version_kv = λ v d. (ok tt, v);
  is_keria_configured = λ d. ok true;
}

abbrev to_run_on_cloud : List Cloud
to_run_on_cloud =
    record { version = codes "1.2.0.1"; cloud_migration_statements = λ k. (ok tt, true ∷ k) }
    ∷ record {
      version = codes "1.2.0.2";
      cloud_migration_statements = λ k. (err "offline", true ∷ k);
    }
    ∷ []

abbrev connected : Connected (List Bool) Text
connected = record { cloud = []; local = codes "0.0.0" }

abbrev on_connection :
    Connected (List Bool) Text
    → Result (MigrationError String) (Unit {0}) × Connected (List Bool) Text
on_connection s = execute_cloud_migrations_on_connection cloud_database to_run_on_cloud s

cloud-AreOrdered : AreOrdered (λ m. m.version) to_run_on_cloud
unfolding version_compare compare_parts text_gt is_valid_part split
cloud-AreOrdered = (refl, (refl, tt), (refl, tt, tt))

cloud-Cuts : Cuts (λ m. m.version) (codes "0.0.0") [] to_run_on_cloud
unfolding version_compare compare_parts text_gt is_valid_part split
cloud-Cuts = record { past = tt; later = (refl, (refl, tt)) }

execute_cloud_migrations_on_connection-InOrder_example :
    (rest : List Cloud) × InOrder
      (run_cloud_migration cloud_database)
      to_run_on_cloud
      connected
      rest
      (on_connection (on_connection connected).1).1
    × (pending_migrations
          (λ m. m.version)
          (get_cloud_version cloud_database (on_connection (on_connection connected).1).1.local)
          to_run_on_cloud
        ≡ some rest)
execute_cloud_migrations_on_connection-InOrder_example =
    execute_cloud_migrations_on_connection-InOrder cloud_database
      (λ v d d' h. sym (ap (λ p. ok (some p.1)) h)) (λ v d d' e h. absurd (cc)) [] to_run_on_cloud
      connected (on_connection (on_connection connected).1).1 cloud-AreOrdered cloud-Cuts
      (again (again never))
