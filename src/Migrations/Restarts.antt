-- ===== src/Migrations/Restarts.antt =====
-- The migrations over any number of starts of the app, each of which may stop at an error.
use veridian_wallet.Base.{
  ◌≡◌, refl, sym, ◌∙◌, some, List, [], ◌∷◌, ◌++◌, append_assoc, Result, ok, err,
}
use mathlib.Core.Path.{subst}
use veridian_wallet.Base.Text.{Text}
use veridian_wallet.Base.States.{Action, continue}
use veridian_wallet.Migrations.{pending_migrations, execute_each, execute_found}
use veridian_wallet.Migrations.Position.{AreOrdered, Cuts, pending_migrations-Cuts, Cuts-next}

-- The states that any number of starts leads to, with or without an error.
pub data Started {S X : Type 0} (run : Action S X (Unit {0})) (s : S) : S → Type 0 where
  never : Started run s s
  again : {t : S} → Started run s t → Started run s (run t).1

-- How the migrations `all` come to the state `t` with `left` of them to go: one by one in order, the
-- next one only once the one in front of it has ended well.
pub data InOrder {M S X : Type 0} (execute : M → Action S X (Unit {0})) (all : List M) (s : S)
    : List M → S → Type 0 where
  none_yet : InOrder execute all s all s
  done :
      (m : M) (left : List M) (t u : S)
      → InOrder execute all s (m ∷ left) t
      → execute m t ≡ (ok tt, u)
      → InOrder execute all s left u
  stopped :
      (m : M) (left : List M) (t u : S) (e : X)
      → InOrder execute all s (m ∷ left) t
      → execute m t ≡ (err e, u)
      → InOrder execute all s (m ∷ left) u

module _ {M S X : Type 0} (version : M → Text) (execute : M → Action S X (Unit {0}))
    (version_of : S → Text) (invalid : X) where
  -- One start of the app: the pending migrations of the version that is stored.
  abbrev pub start_app : List M → Action S X (Unit {0})
  start_app ms s = execute_found execute invalid (pending_migrations version (version_of s) ms) s

  pub record Progress (ms all : List M) (s t : S) : Type 0 where
    pub past : List M
    pub left : List M
    pub whole : past ++ left ≡ ms
    pub cuts : Cuts version (version_of t) past left
    pub in_order : InOrder execute all s left t

  module _ (moves : (m : M) (t u : S) → execute m t ≡ (ok tt, u) → version_of u ≡ version m)
      (stays : (m : M) (t u : S) (e : X) → execute m t ≡ (err e, u) → version_of u ≡ version_of t)
      (ms : List M) (ordered : AreOrdered version ms) (all : List M) (s : S) where
    -- A run over what is left, and that nothing is left when it ends well.
    execute_each-Progress :
        (past left : List M) (t : S)
        → past ++ left ≡ ms
        → Cuts version (version_of t) past left
        → InOrder execute all s left t
        → (p : Progress ms all s (execute_each execute left t).1) × ((execute_each execute left t).0
              ≡ ok tt
            → p.left ≡ [])
    unfolding execute_each
    execute_each-Progress past [] t whole cuts in_order = (
      record { past = past; left = []; whole = whole; cuts = cuts; in_order = in_order },
      λ h. refl,
    )
    execute_each-Progress past (m ∷ left) t whole cuts in_order = after (execute m t) refl (λ u e.
        let h = subst (AreOrdered version) (sym whole) ordered in
        execute_each-Progress (past ++ (m ∷ [])) left u (append_assoc past (m ∷ []) left ∙ whole)
          (subst (λ v. Cuts version v (past ++ (m ∷ [])) left) (sym (moves m t u e))
            (Cuts-next version past m left h))
          (done m left t u in_order e))
      where
        after :
            (x : Result X (Unit {0}) × S)
            → execute m t ≡ x
            → ((u : S)
                → execute m t ≡ (ok tt, u)
                → (p : Progress ms all s (execute_each execute left u).1) × ((execute_each execute
                        left u).0
                      ≡ ok tt
                    → p.left ≡ []))
            → (p : Progress ms all s (continue (λ v. execute_each execute left) x).1) × ((continue
                    (λ v. execute_each execute left)
                    x).0
                  ≡ ok tt
                → p.left ≡ [])
        after (ok v, u) e rest = rest u e
        after (err x, u) e rest = (
          record {
            past = past;
            left = m ∷ left;
            whole = whole;
            cuts = subst (λ v. Cuts version v past (m ∷ left)) (sym (stays m t u x e)) cuts;
            in_order = stopped m left t u x in_order e;
          },
          λ h. absurd (cc),
        )

    pub start_app-Progress :
        (t : S)
        → (p : Progress ms all s t)
        → (q : Progress ms all s (start_app ms t).1) × ((start_app ms t).0 ≡ ok tt → q.left ≡ [])
    start_app-Progress t p =
        let h = subst (AreOrdered version) (sym p.whole) ordered in
        let e : pending_migrations version (version_of t) ms ≡ some p.left =
          subst (λ l. pending_migrations version (version_of t) l ≡ some p.left) p.whole
            (pending_migrations-Cuts version (version_of t) p.past p.left h p.cuts) in
        rw e (execute_each-Progress p.past p.left t p.whole p.cuts p.in_order)

    pub Started-Progress :
        (t : S) → Progress ms all s s → Started (start_app ms) s t → Progress ms all s t
    Started-Progress t p never = p
    Started-Progress t p (again {t = u} h) = (start_app-Progress u (Started-Progress u p h)).0
