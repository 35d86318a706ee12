-- ===== src/Migrations/Pending.antt =====
-- What the two managers of migrations share: `sort`, `filter` and the loop.
use veridian_wallet.Base.{Option, none, some, List, [], ◌∷◌}
use veridian_wallet.Base.Text.{Text}
use veridian_wallet.Base.States.{Action, ◌>>◌, pure, throw}
use veridian_wallet.Storage.Version.{Comparison, later, earlier, same, version_compare}

module _ {M : Type 0} (version : M → Text) where
  abbrev pub put_first : M → Option (List M) → Option (List M)
  put_first m none = none
  put_first m (some ms) = some (m ∷ ms)

  abbrev pub place : M → M → List M → Option Comparison → Option (List M) → Option (List M)
  place m n ns none rest = none
  place m n ns (some later) rest = put_first n rest
  place m n ns (some same) rest = some (m ∷ n ∷ ns)
  place m n ns (some earlier) rest = some (m ∷ n ∷ ns)

  unfoldable pub insert : M → List M → Option (List M)
  insert m [] = some (m ∷ [])
  insert m (n ∷ ns) = place m n ns (version_compare (version m) (version n)) (insert m ns)

  abbrev pub insert_into : M → Option (List M) → Option (List M)
  insert_into m none = none
  insert_into m (some ms) = insert m ms

  -- `sort((a, b) => versionCompare(a.version, b.version))`, which is stable; `none` where it throws.
  unfoldable pub ordered_migrations : List M → Option (List M)
  ordered_migrations [] = some []
  ordered_migrations (m ∷ ms) = insert_into m (ordered_migrations ms)

  abbrev pub kept_later : M → Option Comparison → Option (List M) → Option (List M)
  kept_later m none rest = none
  kept_later m (some later) rest = put_first m rest
  kept_later m (some same) rest = rest
  kept_later m (some earlier) rest = rest

  unfoldable pub later_migrations : Text → List M → Option (List M)
  later_migrations current [] = some []
  later_migrations current (m ∷ ms) =
      kept_later m (version_compare (version m) current) (later_migrations current ms)

  abbrev pub later_of : Text → Option (List M) → Option (List M)
  later_of current none = none
  later_of current (some ms) = later_migrations current ms

  unfoldable pub pending_migrations : Text → List M → Option (List M)
  pending_migrations current ms = later_of current (ordered_migrations ms)

module _ {M S X : Type 0} (execute : M → Action S X (Unit {0})) where
  unfoldable pub execute_each : List M → Action S X (Unit {0})
  execute_each [] = pure tt
  execute_each (m ∷ ms) = do execute m; execute_each ms

  abbrev pub execute_found : X → Option (List M) → Action S X (Unit {0})
  execute_found invalid none = throw invalid
  execute_found invalid (some ms) = execute_each ms
