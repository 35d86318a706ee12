-- ===== src/Identifiers/Sync/Tests.antt =====
-- The synchronisation of a new device.
use veridian_wallet.Base.{◌+◌, ◌-◌, ◌≡◌, refl, none, some, [], ◌∷◌, ok, err, take, drop, arith}
use veridian_wallet.Base.Text.{codes}
use veridian_wallet.Identifiers.{Metadata, calc_keria_hab_name}
use veridian_wallet.Identifiers.Rerun.{IsAcceptable}
use veridian_wallet.Identifiers.Sync.{
  HabState, Operation, Detail, Directory, LocalRecords, sync_keria_identifiers,
}
use veridian_wallet.Identifiers.Sync.Laws.{recovered, sync_keria_identifiers_lem}

abbrev me : Metadata
me = record { theme = some 21; display_name = codes "Me"; group_metadata = none }

me-IsAcceptable : IsAcceptable me
me-IsAcceptable = record { theme = refl; formattable = ground arith }

abbrev hab : HabState
hab = record { prefix = "EMe"; name = calc_keria_hab_name me; group = none }

abbrev witnessed : Operation
witnessed = record { name = "witness.EMe"; ended = none }

abbrev inception : Detail
inception = record { icp_dt = "2024"; sxlt = some "salt" }

abbrev directory : Directory
directory = record {
  list = λ a b. ok (take (b + 1 - a) (drop a (hab ∷ [])));
  witness_operation = λ p. ok witnessed;
  group_operation = λ p. err "none";
  get = λ p. ok inception;
}

abbrev new_device : LocalRecords
new_device = record { identifiers = []; operations = [] }

sync_keria_identifiers_lem_example :
    (t : LocalRecords) × (sync_keria_identifiers directory 3 new_device ≡ (ok tt, t))
    × (t.identifiers ≡ recovered me witnessed inception hab ∷ [])
sync_keria_identifiers_lem_example =
    sync_keria_identifiers_lem directory (λ h. me) (λ p. witnessed) (λ p. inception) (hab ∷ []) 3
      new_device (λ p. refl) (λ p. refl) (λ a b. refl) (omega arith) (refl, tt)
      (record { individual = refl; name = refl; acceptable = me-IsAcceptable }, tt)
