-- ===== src/Storage/Query.antt =====
-- `checkRecordIsValidWithQuery` of src/core/storage/ionicStorage/ionicStorage.ts.
use veridian_wallet.Base.{
  Bool, true, false, not, ◌&&◌, ◌||◌, Option, none, some, List, [], ◌∷◌, String, ◌===◌, any,
}
use veridian_wallet.Base.Dict.{lookup}
use veridian_wallet.Storage.Types.{TagValue, text, flag, texts, undefined, Tags}

-- A query is an object; its entries are tested in turn. The key "$and" takes a list of queries, and
-- so does "$or"; "$not" takes a query, and any other key a tag's value.
mutual
  pub data Query : Type 0 where
    done : Query
    tag : String → TagValue → Query → Query
    and_of : Queries → Query → Query
    or_of : Queries → Query → Query
    not_of : Query → Query → Query

  pub data Queries : Type 0 where
    end : Queries
    next : Query → Queries → Queries

abbrev pub flag_eq : Bool → Bool → Bool
flag_eq true b = b
flag_eq false b = not b

-- `tags[queryKey] === queryVal`: two lists are two objects, so they are never the same.
abbrev pub same_tag : Option TagValue → TagValue → Bool
same_tag none undefined = true
same_tag none _ = false
same_tag (some undefined) undefined = true
same_tag (some (text s)) (text t) = s === t
same_tag (some (flag a)) (flag b) = flag_eq a b
same_tag (some _) _ = false

-- Each of the listed texts is in the tag's list.
abbrev pub includes_all : List String → Option TagValue → Bool
includes_all [] t = true
includes_all (x ∷ xs) (some (texts ys)) = any (λ y. y === x) ys && includes_all xs (some (texts ys))
includes_all (x ∷ xs) _ = false

abbrev pub tag_matches : Option TagValue → TagValue → Bool
tag_matches t (texts (x ∷ xs)) = includes_all (x ∷ xs) t
tag_matches t v = same_tag t v

unfoldable mutual
  pub check_query : Tags → Query → Bool
  check_query tags done = true
  check_query tags (tag k v rest) = tag_matches (lookup k tags) v && check_query tags rest
  check_query tags (and_of qs rest) = every_query tags qs && check_query tags rest
  check_query tags (or_of qs rest) = some_query tags qs && check_query tags rest
  check_query tags (not_of q rest) = not (check_query tags q) && check_query tags rest

  pub every_query : Tags → Queries → Bool
  every_query tags end = true
  every_query tags (next q qs) = check_query tags q && every_query tags qs

  pub some_query : Tags → Queries → Bool
  some_query tags end = false
  some_query tags (next q qs) = check_query tags q || some_query tags qs
