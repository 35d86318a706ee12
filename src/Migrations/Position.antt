-- ===== src/Migrations/Position.antt =====
-- Where a version stands in the list of the migrations.
use veridian_wallet.Base.{◌≡◌, refl, ap, ◌∙◌, some, List, [], ◌∷◌, ◌++◌, All}
use veridian_wallet.Base.Text.{Text}
use veridian_wallet.Storage.Version.{later, earlier, same, version_compare}
use veridian_wallet.Storage.Version.Order.{opposite_of, version_compare-flip}
use veridian_wallet.Migrations.{insert, ordered_migrations, later_migrations, pending_migrations}

abbrev pub IsLaterThan : Text → Text → Type 0
IsLaterThan v w = version_compare w v ≡ some later

-- `w` is a version that is not later than `v`.
pub data IsPast (v w : Text) : Type 0 where
  before : version_compare w v ≡ some earlier → IsPast v w
  at : version_compare w v ≡ some same → IsPast v w

module _ {M : Type 0} (version : M → Text) where
  -- The versions are valid, and each is later than those in front of it.
  abbrev pub AreOrdered : List M → Type 0
  AreOrdered [] = Unit
  AreOrdered (m ∷ ms) =
      (version_compare (version m) (version m) ≡ some same)
      × All (λ n. IsLaterThan (version m) (version n)) ms
      × AreOrdered ms

  -- The migrations up to a version, and those after it.
  pub record Cuts (v : Text) (done left : List M) : Type 0 where
    pub past : All (λ m. IsPast v (version m)) done
    pub later : All (λ m. IsLaterThan v (version m)) left

  insert-front :
      (m : M) (ms : List M)
      → All (λ n. IsLaterThan (version m) (version n)) ms
      → insert version m ms ≡ some (m ∷ ms)
  unfolding insert
  insert-front m [] h = refl
  insert-front m (n ∷ ns) (here, h) = rw (version_compare-flip (version n) (version m), here) refl

  ordered_migrations_lem : (ms : List M) → AreOrdered ms → ordered_migrations version ms ≡ some ms
  unfolding ordered_migrations
  ordered_migrations_lem [] h = refl
  ordered_migrations_lem (m ∷ ms) (valid, front, h) =
      rw (ordered_migrations_lem ms h) (insert-front m ms front)

  all_later :
      (v : Text) (ms : List M)
      → All (λ m. IsLaterThan v (version m)) ms
      → later_migrations version v ms ≡ some ms
  unfolding later_migrations
  all_later v [] h = refl
  all_later v (m ∷ ms) (here, h) = rw (here, all_later v ms h) refl

  later_migrations-Cuts :
      (v : Text) (done left : List M)
      → All (λ m. IsPast v (version m)) done
      → All (λ m. IsLaterThan v (version m)) left
      → later_migrations version v (done ++ left) ≡ some left
  unfolding later_migrations
  later_migrations-Cuts v [] left h k = all_later v left k
  later_migrations-Cuts v (m ∷ done) left (before e, h) k =
      rw e (later_migrations-Cuts v done left h k)
  later_migrations-Cuts v (m ∷ done) left (at e, h) k = rw e (later_migrations-Cuts v done left h k)

  -- What is pending is what stands behind the cut.
  pub pending_migrations-Cuts :
      (v : Text) (done left : List M)
      → AreOrdered (done ++ left)
      → Cuts v done left
      → pending_migrations version v (done ++ left) ≡ some left
  unfolding pending_migrations
  pending_migrations-Cuts v done left h cuts =
      rw (ordered_migrations_lem (done ++ left) h)
        (later_migrations-Cuts v done left cuts.past cuts.later)

  All-middle :
      (P : M → Type 0) (done : List M) (m : M) (left : List M) → All P (done ++ (m ∷ left)) → P m
  All-middle P [] m left h = h.0
  All-middle P (n ∷ done) m left h = All-middle P done m left h.1

  behind :
      (done : List M) (m : M) (left : List M)
      → AreOrdered (done ++ (m ∷ left))
      → All (λ n. IsLaterThan (version m) (version n)) left
  behind [] m left (valid, front, h) = front
  behind (n ∷ done) m left (valid, front, h) = behind done m left h

  in_front :
      (done : List M) (m : M) (left : List M)
      → AreOrdered (done ++ (m ∷ left))
      → All (λ n. IsPast (version m) (version n)) (done ++ (m ∷ []))
  in_front [] m left (valid, front, h) = (at valid, tt)
  in_front (n ∷ done) m left (valid, front, h) =
      let m_later = All-middle (λ k. IsLaterThan (version n) (version k)) done m left front in
      (
        before (version_compare-flip (version m) (version n) ∙ ap opposite_of m_later),
        in_front done m left h,
      )

  -- After a migration, the cut stands behind it.
  pub Cuts-next :
      (done : List M) (m : M) (left : List M)
      → AreOrdered (done ++ (m ∷ left))
      → Cuts (version m) (done ++ (m ∷ [])) left
  Cuts-next done m left h = record { past = in_front done m left h; later = behind done m left h }
