-- ===== src/Storage/Sample.antt =====
-- A storage service that runs: a session kept as a dictionary, for the tests of its clients.
use veridian_wallet.Base.{map, refl, none, [], ◌∷◌, String}
use veridian_wallet.Base.Dict.{Dict, lookup, insert, erase, lookup-insert, lookup-erase}
use veridian_wallet.Storage.Types.{BasicRecord, Content, StorageService}
use veridian_wallet.Storage.Ionic.{StorageRecord, Session, Json, ionic_storage, to_storage}

-- A session as a dictionary, and records as their own JSON text.
abbrev pub memory : Session BasicRecord
memory = record {
  State = Dict (StorageRecord BasicRecord);
  get = λ s k. lookup k s;
  set = λ s k r. insert k r s;
  remove = λ s k. erase k s;
  entries = λ s. map (λ e. e.1) s;
  get-set = λ s k r j. lookup-insert k j r s;
  get-remove = λ s k j. lookup-erase k j s;
}

abbrev pub plain_json : Json BasicRecord
plain_json = record { encode = λ r. r; decode = λ r. r; decode-encode = λ r. refl }

abbrev pub store : StorageService
store = ionic_storage memory plain_json

-- A record as it lies in the store, and the store that holds only it.
abbrev pub basic : String → Content → BasicRecord
basic id content = record {
  id = id;
  created_at = 5;
  updated_at = none;
  content = content;
  tags = [];
}

abbrev pub filed : String → Content → Dict (StorageRecord BasicRecord)
filed id content = (id, to_storage memory plain_json (basic id content)) ∷ []
