-- ===== src/Records/Storing.antt =====
-- `StorageService<T>` for the records of one class.
use veridian_wallet.Base.{
  Bool, not, Option, List, [], ◌∷◌, ◌++◌, map, String, ok, err, any, find, keep, ◌===◌,
  if◌then◌else◌,
}
use veridian_wallet.Base.States.{Action}
use veridian_wallet.Storage.{StorageError, already_exists, does_not_exist, Tags}
use veridian_wallet.Storage.Query.{Query, check_query}

-- What the storage service asks of a record: `id` and `getTags()`.
pub record Class (R : Type 0) : Type 0 where
  pub id_of : R → String
  pub get_tags : R → Tags

module _ {R : Type 0} (class : Class R) where
  open class use {id_of, get_tags}

  abbrev pub Records : Type 0 → Type 0
  Records A = Action (List R) StorageError A

  abbrev pub is_under : String → R → Bool
  is_under k r = id_of r === k

  abbrev pub has : String → List R → Bool
  has k rs = any (is_under k) rs

  abbrev pub find_by_id : String → List R → Option R
  find_by_id k rs = find (is_under k) rs

  abbrev pub put_over : R → R → R
  put_over r s = if is_under (id_of r) s then r else s

  abbrev pub replace : R → List R → List R
  replace r rs = map (put_over r) rs

  abbrev pub remove : String → List R → List R
  remove k rs = keep (λ r. not (is_under k r)) rs

  unfoldable pub save : R → Records (Unit {0})
  save r rs =
      if has (id_of r) rs then (err (already_exists (id_of r)), rs) else (ok tt, rs ++ (r ∷ []))

  unfoldable pub update : R → Records (Unit {0})
  update r rs =
      if has (id_of r) rs then (ok tt, replace r rs) else (err (does_not_exist (id_of r)), rs)

  unfoldable pub delete_by_id : String → Records (Unit {0})
  delete_by_id k rs = if has k rs then (ok tt, remove k rs) else (err (does_not_exist k), rs)

  abbrev pub find_all_by_query : Query → List R → List R
  find_all_by_query q rs = keep (λ r. check_query (get_tags r) q) rs
