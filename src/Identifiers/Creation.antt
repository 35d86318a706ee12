-- ===== src/Identifiers/Creation.antt =====
-- `createIdentifier`, behind its decorators and with them, and `processIdentifiersPendingCreation`.
use veridian_wallet.Base.{
  ℕ, Bool, true, false, not, Option, none, some, List, [], ◌∷◌, ◌++◌, String, Result, ok, err,
  if◌then◌else◌,
}
use veridian_wallet.Base.Text.{Text}
use veridian_wallet.Base.States.{Action, ◌>>=◌, ◌>>◌, pure, throw}
use veridian_wallet.HabName.{HabNameParts, NameError, parse_hab_name}
use veridian_wallet.Storage.{StorageError, queued, BasicRecord, StorageService}
use veridian_wallet.Storage.Basic.{new_record, update, create_or_update_basic_record}
use veridian_wallet.SeedPhrase.{
  GuardError, seed_phrase_not_verified, AgentState, record_critical_action,
  is_verification_enforced,
}
use veridian_wallet.Identifiers.Witnesses.{WitnessError, Available, get_available_witnesses}
use veridian_wallet.Identifiers.Search.{Hab, search_by_name}
use veridian_wallet.Identifiers.Naming.{
  pending_id, Metadata, CreateError, already_incepted, create_failed, SaveError,
  record_already_exists, save_failed, CreationError, agent_not_initialized, invalid_theme,
  invalid_queued_display_names_format, cannot_find_existing_identifier_by_search, out_of_fuel,
  no_witnesses, bad_name, failed, storage, keria_connection_broken, guarded, Keria, is_ui_theme,
  calc_keria_hab_name, metadata_of, has_name, remove_name,
}
use veridian_wallet.Identifiers.Network.{is_network_error}

module _ (service : StorageService) {R : Type 0} (keria : Keria R) (fuel : ℕ) where
  open service use {find_by_id}

  pub record Creating : Type 0 where
    -- `seedPhraseVerifiedCache`.
    pub cache : Option Bool
    pub stored : service.State
    pub rest : R

  abbrev pub Method : Type 0 → Type 0
  Method A = Action Creating CreationError A

  abbrev pub on_found : Option (Option Hab) → R → Result CreationError Text × R
  on_found none r = (err out_of_fuel, r)
  on_found (some none) r = (err cannot_find_existing_identifier_by_search, r)
  on_found (some (some h)) r = (ok h.prefix, r)

  abbrev pub on_create : Text → Result CreateError Text × R → Result CreationError Text × R
  on_create name (ok prefix, r) = (ok prefix, r)
  on_create name (err already_incepted, r) = on_found (search_by_name (keria.list r) fuel name) r
  on_create name (err (create_failed e), r) = (err (failed e), r)

  abbrev pub or_failed : {A : Type 0} → Result String A × R → Result CreationError A × R
  or_failed (ok a, r) = (ok a, r)
  or_failed (err e, r) = (err (failed e), r)

  -- The `catch` that lets a record pass that is there already.
  abbrev pub or_there : Result SaveError (Unit {0}) × R → Result CreationError (Unit {0}) × R
  or_there (ok u, r) = (ok tt, r)
  or_there (err record_already_exists, r) = (ok tt, r)
  or_there (err (save_failed e), r) = (err (failed e), r)

  -- From the inception to the pending operation.
  unfoldable pub register : Text → Metadata → Available → Action R CreationError (Text × ℕ)
  register name m a = do
    identifier ← (λ r. on_create name (keria.create name a r))
    created ← (λ r. or_failed (keria.get identifier r))
    (λ r. or_failed (keria.add_end_role identifier r))
    (λ r. or_there (keria.save_metadata identifier m created r))
    (λ r. or_failed (keria.save_operation identifier r))
    pure (identifier, created)

  abbrev pub in_rest :
      {A : Type 0} → Creating → Result CreationError A × R → Result CreationError A × Creating
  in_rest s (r, rest) = (r, record s { rest = rest })

  abbrev pub in_store :
      {A : Type 0}
      → Creating
      → Result StorageError A × service.State
      → Result CreationError A × Creating
  in_store s (ok a, stored) = (ok a, record s { stored = stored })
  in_store s (err e, stored) = (err (storage e), record s { stored = stored })

  abbrev pub names_of : Option BasicRecord → Result CreationError (List Text)
  names_of none = ok []
  names_of (some b) = elim b.content [
    | queued ns ↦ ok ns
    | _ ↦ err invalid_queued_display_names_format
  ]

  abbrev pub push_to : ℕ → Text → Result CreationError (List Text) → Method (Unit {0})
  push_to now name (err e) s = (err e, s)
  push_to now name (ok ns) s = in_store s (
      create_or_update_basic_record service now
        (new_record now pending_id [] (queued (ns ++ (name ∷ [])))) s.stored)

  -- The block under `if (!backgroundTask)`.
  unfoldable pub push_name : ℕ → Text → Method (Unit {0})
  push_name now name s = push_to now name (names_of (find_by_id s.stored pending_id)) s

  abbrev pub clear_in :
      ℕ → Text → BasicRecord → Result CreationError (List Text) → Method (Unit {0})
  clear_in now name b (err e) s = (err e, s)
  clear_in now name b (ok ns) s =
      if has_name name ns
      then in_store s
          (update service now (record b { content = queued (remove_name name ns) }) s.stored)
      else (ok tt, s)

  abbrev pub clear_record : ℕ → Text → Option BasicRecord → Method (Unit {0})
  clear_record now name none s = (ok tt, s)
  clear_record now name (some b) s = clear_in now name b (names_of (some b)) s

  unfoldable pub clear_queued_identifier : ℕ → Text → Method (Unit {0})
  clear_queued_identifier now name s = clear_record now name (find_by_id s.stored pending_id) s

  abbrev pub register_and_clear : ℕ → Text → Metadata → Available → Method (Text × ℕ)
  register_and_clear now name m a = do
    result ← (λ s. in_rest s (register name m a s.rest))
    clear_queued_identifier now name
    pure result

  abbrev pub with_witnesses :
      ℕ → Metadata → Bool → Result WitnessError Available → Method (Text × ℕ)
  with_witnesses now m background (err e) = throw (no_witnesses e)
  with_witnesses now m background (ok a) =
      if not (is_ui_theme m.theme)
      then throw invalid_theme
      else if background
      then register_and_clear now (calc_keria_hab_name m) m a
      else push_name now (calc_keria_hab_name m)
        >> register_and_clear now (calc_keria_hab_name m) m a

  -- The body of `createIdentifier`, which the decorators are put around.
  unfoldable pub create_identifier : ℕ → Metadata → Bool → Method (Text × ℕ)
  create_identifier now m background s =
      if not (keria.has_agent s.rest)
      then (err agent_not_initialized, s)
      else with_witnesses now m background
          (get_available_witnesses keria.role_of (keria.iurls s.rest)) s

  -- The errors that come from signify-ts have the texts that are looked at.
  abbrev pub is_broken : CreationError → Bool
  is_broken (failed e) = is_network_error e
  is_broken _ = false

  abbrev pub after_call :
      {A : Type 0} → Result CreationError A × Creating → Result CreationError A × Creating
  after_call (ok a, s) = (ok a, s)
  after_call (err e, s) =
      if is_broken e
      then (err keria_connection_broken, record s { rest = keria.go_offline s.rest })
      else (err e, s)

  -- `OnlineOnly` around a method.
  unfoldable pub online_only : {A : Type 0} → Method A → Method A
  online_only original s =
      if keria.is_online s.rest then after_call (original s) else (err keria_connection_broken, s)

  abbrev pub agent_of : Creating → AgentState service
  agent_of s = record { cache = s.cache; stored = s.stored }

  abbrev pub in_agent :
      {A : Type 0}
      → Creating
      → Result GuardError A × AgentState service
      → Result CreationError A × Creating
  in_agent s (ok a, m) = (ok a, record s { cache = m.cache; stored = m.stored })
  in_agent s (err e, m) = (err (guarded e), record s { cache = m.cache; stored = m.stored })

  -- What `SeedPhraseVerified` does where it lets the method through.
  abbrev pub run_and_count : {A : Type 0} → ℕ → Method A → Method A
  run_and_count now original = do
    result ← original
    (λ s. in_agent s (record_critical_action service now now (agent_of s)))
    pure result

  abbrev pub refused_if : {A : Type 0} → Bool → Method A → Method A
  refused_if true original = throw (guarded seed_phrase_not_verified)
  refused_if false original = original

  -- `createIdentifier` as it is called, with its two decorators.
  unfoldable pub decorated_create_identifier : ℕ → Metadata → Bool → Method (Text × ℕ)
  decorated_create_identifier now m background = do
    enforced ← (λ s. in_agent s (is_verification_enforced service now now (agent_of s)))
    refused_if enforced (run_and_count now (online_only (create_identifier now m background)))

  abbrev pub create_parsed : ℕ → Result NameError HabNameParts → Method (Unit {0})
  create_parsed now (err e) = throw (bad_name e)
  create_parsed now (ok p) = decorated_create_identifier now (metadata_of p) true >> pure tt

  -- The loop over the names that were queued when it began.
  unfoldable pub create_queued : ℕ → List Text → Method (Unit {0})
  create_queued now [] = pure tt
  create_queued now (n ∷ ns) = create_parsed now (parse_hab_name n) >> create_queued now ns

  abbrev pub process_names : ℕ → Result CreationError (List Text) → Method (Unit {0})
  process_names now (err e) = throw e
  process_names now (ok ns) = create_queued now ns

  unfoldable pub process_identifiers_pending_creation : ℕ → Method (Unit {0})
  process_identifiers_pending_creation now s =
      process_names now (names_of (find_by_id s.stored pending_id)) s
