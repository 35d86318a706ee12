-- ===== src/Storage/Tests.antt =====
-- Storage at concrete values.
use veridian_wallet.Base.{◌≡◌, refl, true, none, some, [], ◌∷◌, ok, ◌===◌, if◌then◌else◌}
use veridian_wallet.Storage.Types.{TagValue, text, BasicRecord, other}
use veridian_wallet.Storage.Query
use veridian_wallet.Storage.Query.{check_query}
use veridian_wallet.Storage.Ionic
use veridian_wallet.Storage.Ionic.{
  StorageRecord, Session, Json, ionic_storage, delete_by_id, find-delete_by_id, is_some,
}
use veridian_wallet.Storage.Sample.{store}
use veridian_wallet.Storage.Basic.{written, create_or_update_basic_record, find-create_or_update}
use veridian_wallet.Base.{◌<◌, ◌+◌, ◌*◌, arith}
use veridian_wallet.Base.Text.{codes, split}
use veridian_wallet.Storage.Version.{
  earlier, later, version_compare, compare_parts, text_gt, is_valid_part,
}
use veridian_wallet.Storage.Version.Order.{two_digits_before_one}

abbrev profile : BasicRecord
profile = record {
  id = "default-profile";
  created_at = 5;
  updated_at = none;
  content = other "p1";
  tags = ("owner", text "ann") ∷ [];
}

storage : Unit {0}
unfolding Ionic.save Ionic.update Ionic.find_by_id create_or_update_basic_record delete_by_id
    check_query
storage = tt

-- The first write through `createOrUpdateBasicRecord` drops the tags; the second keeps them.
tags_of_first_write :
    let s = (create_or_update_basic_record store 7 profile []).1 in
    let s' = (create_or_update_basic_record store 8 profile s).1 in
    (store.find_by_id s "default-profile"
      ≡ some (record profile { created_at = 7; updated_at = some 7; tags = [] }))
    × (store.find_by_id s' "default-profile" ≡ some (record profile { updated_at = some 8 }))
unfolding storage
tags_of_first_write = (refl, refl)

query_test :
    (check_query profile.tags (
        Query.or_of
          (Query.next
            (Query.tag "owner" (text "bob") Query.done)
            (Query.next (Query.tag "owner" (text "ann") Query.done) Query.end))
          (Query.not_of (Query.tag "x" (text "y") Query.done) Query.done))
      ≡ true)
    × (check_query profile.tags (Query.tag "missing" TagValue.undefined Query.done) ≡ true)
unfolding storage
query_test = (refl, refl)

find-create_or_update_example :
    let (result, s') = create_or_update_basic_record store 7 profile [] in
    let w = written store (store.has [] "default-profile") 7 profile in
    (result ≡ ok tt)
    × (store.find_by_id s' "default-profile" ≡ (
        if profile.id === "default-profile" then some w else store.find_by_id [] "default-profile"))
    × (w.content ≡ profile.content)
    × (w.updated_at ≡ some 7)
    × (w.tags ≡ (if store.has [] profile.id then profile.tags else []))
find-create_or_update_example = find-create_or_update store 7 profile [] "default-profile"

version_test :
    (version_compare (codes "1.10.0") (codes "1.9.0") ≡ some earlier)
    × (version_compare (codes "1.2.0") (codes "1.1.9") ≡ some later)
    × (version_compare (codes "1.x") (codes "1") ≡ none)
unfolding version_compare compare_parts text_gt is_valid_part split
version_test = (refl, refl, refl)

two_digits_before_one_example :
    (compare_parts (((48 + 1) ∷ (48 + 0) ∷ []) ∷ []) (((48 + 9) ∷ []) ∷ []) ≡ earlier)
    × (9 < 10 * 1 + 0)
two_digits_before_one_example =
    two_digits_before_one 1 9 0 [] [] (omega arith) (omega arith) (omega arith)
