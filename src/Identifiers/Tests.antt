-- ===== src/Identifiers/Tests.antt =====
-- Witnesses and searches at concrete values.
use veridian_wallet.Base.{
  ◌≡◌, refl, Option, some, List, [], ◌∷◌, ◌++◌, String, map, find, ok, err, arith, true, false,
  none,
}
use veridian_wallet.Base.Text.{Text, codes, split}
use veridian_wallet.Identifiers.{
  Keria, Metadata, guarded, keria_connection_broken, is_network_error, online_only,
  decorated_create_identifier, Creating, create_failed, record_already_exists, failed, pending_id,
  calc_keria_hab_name, parse_int, read_digits, names_of, register, push_name,
  clear_queued_identifier, create_identifier, create_queued, process_identifiers_pending_creation,
  Witness, Available, Hab, insufficient_witnesses_available, no_oobi_path, split_text, eid_of,
  unique, choose, witnesses_in, get_available_witnesses, search_from, search_by_name,
}
use veridian_wallet.Identifiers.Immunity.{
  IsChoice, IsConfigured, number_found, get_available_witnesses-IsChoice,
}
use veridian_wallet.Identifiers.Pages.{listing, named, search_by_name_lem}
use veridian_wallet.Identifiers.Queue.{IsQueued, left, create_identifier-IsQueued}
use veridian_wallet.Storage.{queued, critical_action}
use veridian_wallet.SeedPhrase.{
  seed_phrase_not_verified, critical_action_id, is_seed_phrase_verified, get_critical_action_state,
  record_critical_action, is_verification_enforced,
}
use veridian_wallet.Storage.Ionic
use veridian_wallet.Storage.Basic
use veridian_wallet.Storage.Sample.{memory, plain_json, store, filed}
use veridian_wallet.Base.Text.{trim_start, is_space}

runs : Unit {0}
unfolding decorated_create_identifier online_only is_network_error is_seed_phrase_verified
    get_critical_action_state record_critical_action is_verification_enforced Ionic.save
    Ionic.update Ionic.find_by_id Basic.update Basic.create_or_update_basic_record trim_start
    is_space read_digits parse_int register push_name clear_queued_identifier create_identifier
    create_queued process_identifiers_pending_creation split split_text eid_of unique choose
    witnesses_in get_available_witnesses search_from
runs = tt

-- Every URL has the role of a witness.
abbrev role_of : Text → Option (Option Text)
role_of u = some (some (codes "witness"))

abbrev url : String → Text
url eid = codes "http://w/oobi/" ++ (codes eid ++ codes "/controller?role=witness")

abbrev urls : List String → List Text
urls es = map url es

abbrev found : String → Witness
found eid = record { eid = codes eid; oobi = url eid }

abbrev six : List String
six = "A" ∷ "B" ∷ "C" ∷ "D" ∷ "E" ∷ "F" ∷ []

abbrev chosen : Available
chosen = record { toad = 4; witnesses = map found six }

available_test : get_available_witnesses role_of (some (urls ("A" ∷ six))) ≡ ok chosen
unfolding runs
available_test = refl

insufficient_test :
    get_available_witnesses role_of (some (urls ("A" ∷ "A" ∷ "B" ∷ "C" ∷ "D" ∷ "E" ∷ [])))
    ≡ err insufficient_witnesses_available
unfolding runs
insufficient_test = refl

no_path_test : get_available_witnesses role_of (some (codes "http://w/" ∷ [])) ≡ err no_oobi_path
unfolding runs
no_path_test = refl

get_available_witnesses-IsChoice_example :
    IsChoice
      (IsConfigured role_of (urls ("A" ∷ six)))
      (number_found (witnesses_in role_of (urls ("A" ∷ six))))
      chosen
get_available_witnesses-IsChoice_example =
    get_available_witnesses-IsChoice role_of (urls ("A" ∷ six)) chosen available_test

abbrev hab : String → Hab
hab n = record { name = codes n; prefix = codes "E" }

abbrev habs : List Hab
habs = hab "one" ∷ hab "two" ∷ []

search_by_name_lem_example :
    search_by_name (listing habs) 2 (codes "two") ≡ some (find (named (codes "two")) habs)
search_by_name_lem_example = search_by_name_lem habs (codes "two") 2 (omega arith)

-- KERIA with six witnesses, where the name that is in the list is taken.
abbrev keria : Keria (List Hab)
keria = record {
  has_agent = λ r. true;
  is_online = λ r. true;
  go_offline = λ r. r;
  iurls = λ r. some (urls six);
  role_of = role_of;
  create = λ name a r. (ok (codes "E"), (record { name = name; prefix = codes "E" }) ∷ r);
  list = λ r. listing r;
  get = λ p r. (ok 5, r);
  add_end_role = λ p r. (ok tt, r);
  save_metadata = λ p m t r. (err record_already_exists, r);
  save_operation = λ p r. (ok tt, r);
}

-- KERIA that cannot be reached for the inception.
abbrev failing : Keria (List Hab)
failing = record keria { create = λ name a r. (err (create_failed "timeout"), r) }

abbrev new : Metadata
new = record { theme = some 21; display_name = codes "Me"; group_metadata = none }

parse_int_test :
    (parse_int (codes " -0x") ≡ some 0)
    × (parse_int (codes "+12 3") ≡ some 12)
    × (parse_int (codes "x1") ≡ none)
unfolding runs
parse_int_test = (refl, refl, refl)

abbrev queue : List Text → Creating store keria 2
queue ns = record { cache = some true; stored = filed pending_id (queued ns); rest = [] }

abbrev failing_queue : List Text → Creating store failing 2
failing_queue ns = record { cache = some true; stored = filed pending_id (queued ns); rest = [] }

abbrev old : Text
old = codes "1.2.0.2:0:Old"

-- The names on file when a creation in the foreground has failed.
failed_creation_test :
    let (r, s') = create_identifier store failing 2 9 new false (failing_queue (old ∷ [])) in
    (r ≡ err (failed "timeout"))
    × (names_of store failing 2 (Ionic.find_by_id memory plain_json s'.stored pending_id)
        ≡ ok (old ∷ calc_keria_hab_name new ∷ []))
unfolding runs
failed_creation_test = (refl, refl)

available_six : get_available_witnesses role_of (some (urls six)) ≡ ok chosen
unfolding runs
available_six = refl

create_identifier-IsQueued_example :
    let (r, s') = create_identifier store failing 2 9 new false (failing_queue (old ∷ [])) in
    IsQueued store s'.stored
      (left store failing 2 (calc_keria_hab_name new) r (old ∷ calc_keria_hab_name new ∷ []))
unfolding Ionic.find_by_id
create_identifier-IsQueued_example =
    create_identifier-IsQueued store failing 2 9 new chosen (failing_queue (old ∷ [])) (old ∷ [])
      refl available_six refl refl

-- After the deadline, and while the agent is offline, a creation is refused.
abbrev late : Creating store keria 2
late = record { cache = none; stored = filed critical_action_id (critical_action 0 8); rest = [] }

abbrev offline : Keria (List Hab)
offline = record keria { is_online = λ r. false }

refused_test :
    ((decorated_create_identifier store keria 2 9 new true late).0
      ≡ err (guarded seed_phrase_not_verified))
    × ((decorated_create_identifier store offline 2 9 new true
          (record { cache = some true; stored = filed pending_id (queued []); rest = [] })).0
        ≡ err keria_connection_broken)
    × (is_network_error "HTTP POST /identifiers - 504 Gateway Timeout" ≡ true)
unfolding runs
refused_test = (refl, refl, refl)
