-- ===== src/Lib.antt =====
-- The logic of the Veridian wallet (src, without the user interface and the services beside it).
--
-- The wallet keeps its records in a storage service and its view of them in a Redux store; pages are
-- reached over a table of routes that reads and changes the store. The parts modelled here:
--
-- - Base: numbers, lists, texts (lists of code units), dictionaries in the order of insertion,
--   results that may throw (Results), and actions that change a state and may throw (States).
-- - HabName: the names under which identifiers are kept (src/core/utils/habName.ts).
--   `parse_hab_name` is parseHabName, `format_to_v1_2_0_2` formatToV1_2_0_2 and
--   `build_deleted_hab_name` buildDeletedHabName.
-- - Storage: `StorageService` is the interface of src/core/storage/storage.types.ts with the behaviour
--   that clients rely on. Storage.Ionic (src/core/storage/ionicStorage/ionicStorage.ts) implements it
--   over a session of key and value, Storage.Query is checkRecordIsValidWithQuery, Storage.Basic
--   (src/core/agent/records/basicStorage.ts) is its client for basic records, and Storage.Version is
--   versionCompare of src/core/storage/sqliteStorage/utils.ts. Storage.Sqlite
--   (src/core/storage/sqliteStorage/sqliteStorage.ts) has the two tables, what the statements make of
--   them, and the conditions of queries, as lists of the pieces that their text is put together from,
--   read with the precedence of SQL. Storage.Sqlite.Resolve is resolveTagsFromDb of utils.ts beside
--   it, on the text that `group_concat` makes of the rows of a record, taken in the order of insertion.
-- - Auth: failed logins and the lock of the wallet, and stored secrets
--   (src/core/agent/services/authService.ts and
--   src/ui/components/MaxLoginAttemptAlert/hooks/loginAttemptHook.ts). It files its record through
--   Storage.Basic.
-- - SeedPhrase: the deadline for verifying the seed phrase and the decorator that guards the critical
--   operations (src/core/agent/agent.ts, src/core/agent/services/utils.ts), also over Storage.Basic.
-- - Store: the slices stateCache and profilesCache of src/store/reducers with all their reducers, one
--   constructor of an action type for each.
-- - Routes: the tables of src/routes and updateReduxState of src/store/utils.ts, over the store.
-- - Notifications: the loop that polls the notifications of KERIA and the retry of those that could
--   not be processed (src/core/agent/services/keriaNotificationService.ts, `poll_round` is a round of
--   _pollNotifications, `retry_failed_notifications` is retryFailedNotifications), over Storage.Basic.
-- - Identifiers (src/core/agent/services/identifierService.ts): the choice of witnesses
--   (getAvailableWitnesses), the search by name (searchByName), and the creation of identifiers with
--   the queue of names for a second run (createIdentifier, clearQueuedIdentifier and
--   processIdentifiersPendingCreation), over HabName and Storage.Basic, and over SeedPhrase where
--   createIdentifier is called with its decorators (`decorated_create_identifier`); and the synchronisation of a
--   device with KERIA (Identifiers.Sync, `sync_keria_identifiers` is syncKeriaIdentifiers, with
--   src/core/agent/records/identifierStorage.ts), over HabName and Records.
-- - Records: the storage service for the records of one class, as a list of them, and the loops that
--   read the lists of KERIA page by page.
-- - Credentials (src/core/agent/services/credentialService.ts with its storage and record under
--   src/core/agent/records): archiving, marking and deletion, the change of the status, and
--   `sync_keria_credentials`, which is syncKeriaCredentials, over Records.
-- - Migrations (src/core/storage/sqliteStorage/sqliteSession.ts, migrations/localMigrationManager.ts and
--   cloudMigrations/cloudMigrationManager.ts beside it): `migrate_db` is migrateDb and
--   `execute_cloud_migrations_on_connection` executeCloudMigrationsOnConnection, over Storage.Version. A
--   start of the app or a connection is one such step.
-- - Connections (src/core/agent/services/connectionService.ts with the storages and records of contacts
--   and of connection pairs under src/core/agent/records): creation, the lists, marking, every deletion
--   and `sync_keria_contacts`, which is syncKeriaContacts, over Records.
--
-- Times are milliseconds in the native natural numbers, and every reading of the clock is an
-- argument. Numbers in the modelled code are counters and times far below 2 ^ 53, so no bound is
-- written out. All loops are recursion on a list, but for the search by name, also where a creation
-- calls it, and the reading of the lists of identifiers and credentials, which have fuel for their
-- rounds: one round more than the list at KERIA has pages is enough for the search, and one more
-- than it has entries for the reading. An optional property is an `Option`, which does not tell
-- `null` from `undefined`; a missing key gives `none`. A thrown error is the result `err`, or
-- `none` where the code throws a TypeError.
--
-- Parameters, with what the code relies on: the session of Ionic Storage (reading after writing and
-- removing), JSON (decoding what was encoded), the salts and digests of signify-ts, the secure key
-- store, the operation that the decorator guards, what a polled notification is processed by, the
-- answers of KERIA, the parser of URLs, for creations the storages of identifiers and of pending
-- operations, and for migrations the database and the statements of each migration.
--
-- Not modelled: the rest of the services that talk to KERIA (updates and deletion of identifiers,
-- multisig groups, invitations and notes of connections, the IPEX exchange of credentials, the
-- processing of notifications), the decorators of these services but those of createIdentifier, the
-- statements of the single migrations, opening the session of the SQLite storage and what it makes of
-- the records that it reads (deserializeRecord), the thunks and selectors of the slices, the React
-- components and the native plugins.
pub mod Base
pub mod HabName
pub mod Storage
pub mod Auth
pub mod SeedPhrase
pub mod Store
pub mod Routes
pub mod Notifications
pub mod Identifiers
pub mod Records
pub mod Credentials
pub mod Migrations
pub mod Connections
