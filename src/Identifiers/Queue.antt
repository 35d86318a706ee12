-- ===== src/Identifiers/Queue.antt =====
-- The names that are queued for creation, over a creation and over the loop that runs them again.
use veridian_wallet.Base.{
  ℕ, ◌≡◌, refl, ◌∙◌, Bool, true, false, some, List, [], ◌∷◌, ◌++◌, Result, ok, err, arith,
}
use veridian_wallet.Base.Text.{Text}
use veridian_wallet.Base.Text.Laws.{text_eq_iff}
use veridian_wallet.Base.States.{◌>>=◌, ◌>>◌, pure}
use veridian_wallet.Storage.{queued, BasicRecord, touch, StorageService}
use veridian_wallet.Storage.Basic.{new_record, update, create_or_update_lem, written}
use veridian_wallet.Identifiers.{
  Available, get_available_witnesses, pending_id, Metadata, Keria, CreationError, Creating, Method,
  is_ui_theme, calc_keria_hab_name, has_name, remove_name, register, in_rest, names_of, push_name,
  clear_queued_identifier, register_and_clear, create_identifier,
}

module _ (service : StorageService) where
  open service use {State, find_by_id, has, put, update_lem, find-put, find-has}

  -- The names that are queued, on file.
  pub record IsQueued (s : State) (ns : List Text) : Type 0 where
    pub filed : BasicRecord
    pub found : find_by_id s pending_id ≡ some filed
    pub key : filed.id ≡ pending_id
    pub content : filed.content ≡ queued ns

  IsQueued-put :
      (s : State) (b : BasicRecord) (ns : List Text)
      → b.id ≡ pending_id
      → b.content ≡ queued ns
      → IsQueued (put s b) ns
  IsQueued-put s b ns key content = record {
    filed = b;
    found = find-put s b pending_id ∙ rw key refl;
    key = key;
    content = content;
  }

  IsQueued-written :
      (b : Bool) (now : ℕ) (s : State) (ns : List Text)
      → IsQueued (put s (written service b now (new_record now pending_id [] (queued ns)))) ns
  IsQueued-written true now s ns = IsQueued-put s _ ns refl refl
  IsQueued-written false now s ns = IsQueued-put s _ ns refl refl

  module _ {R : Type 0} (keria : Keria R) (fuel : ℕ) where
    abbrev pub Agent : Type 0
    Agent = Creating service keria fuel

    pub names_of-IsQueued :
        (s : State) (ns : List Text)
        → IsQueued s ns
        → names_of service keria fuel (find_by_id s pending_id) ≡ ok ns
    names_of-IsQueued s ns q = rw (q.found, q.content) refl

    -- A step that returns, leaves the rest of the agent alone and changes the names.
    pub record Requeues (m : Method service keria fuel (Unit {0})) (s : Agent) (ns : List Text)
        : Type 0 where
      pub after : Agent
      pub ends : m s ≡ (ok tt, after)
      pub same : after.rest ≡ s.rest
      pub same_cache : after.cache ≡ s.cache
      pub names : IsQueued after.stored ns

    push_name-Requeues :
        (now : ℕ) (name : Text) (s : Agent) (ns : List Text)
        → names_of service keria fuel (find_by_id s.stored pending_id) ≡ ok ns
        → Requeues (push_name service keria fuel now name) s (ns ++ (name ∷ []))
    unfolding push_name
    push_name-Requeues now name s ns h =
        let b = new_record now pending_id [] (queued (ns ++ (name ∷ []))) in
        record {
          after = record s { stored = put s.stored (written service (has s.stored b.id) now b) };
          ends = rw (h, create_or_update_lem service now b s.stored) refl;
          same = refl;
          same_cache = refl;
          names = IsQueued-written (has s.stored b.id) now s.stored (ns ++ (name ∷ []));
        }

    pub clear_queued_identifier-Requeues :
        (now : ℕ) (name : Text) (s : Agent) (ns : List Text)
        → IsQueued s.stored ns
        → has_name name ns ≡ true
        → Requeues (clear_queued_identifier service keria fuel now name) s (remove_name name ns)
    unfolding clear_queued_identifier update
    clear_queued_identifier-Requeues now name s ns q there =
        let b : BasicRecord = record q.filed { content = queued (remove_name name ns) } in
        let filed : has s.stored b.id ≡ true = rw q.key (find-has s.stored pending_id q.found) in
        record {
          after = record s { stored = put s.stored (touch now b) };
          ends = rw (q.found, q.content, there, update_lem now b s.stored, filed) refl;
          same = refl;
          same_cache = refl;
          names = IsQueued-put s.stored (touch now b) (remove_name name ns) q.key refl;
        }

    -- The names that are left, given how the creation ended.
    abbrev pub left : {A : Type 0} → Text → Result CreationError A → List Text → List Text
    left name (ok a) ns = remove_name name ns
    left name (err e) ns = ns

    register_and_clear-IsQueued :
        (now : ℕ) (name : Text) (m : Metadata) (a : Available) (s : Agent) (ns : List Text)
        → IsQueued s.stored ns
        → has_name name ns ≡ true
        → let (r, s') = register_and_clear service keria fuel now name m a s in
          IsQueued s'.stored (left name r ns)
    register_and_clear-IsQueued now name m a s ns q there =
        go (register service keria fuel name m a s.rest)
      where
        go :
            (x : Result CreationError (Text × ℕ) × R)
            → let (r, s') =
                ((λ t. in_rest service keria fuel s x) >>= λ result.
                clear_queued_identifier service keria fuel now name >> pure result)
                  s in
              IsQueued s'.stored (left name r ns)
        go (err e, r) = q
        go (ok v, r) =
            let c = clear_queued_identifier-Requeues now name (record s { rest = r }) ns q there in
            rw c.ends c.names

    has_name-append : (name : Text) (ns : List Text) → has_name name (ns ++ (name ∷ [])) ≡ true
    has_name-append name [] = ground (arith, text_eq_iff name name)
    has_name-append name (n ∷ ns) = ground (arith, has_name-append name ns)

    -- A creation in the foreground that gets as far as the name: if it throws anywhere, the name
    -- stays on file behind the names that were queued before, so that it is run again; if it returns,
    -- the name is taken out.
    pub create_identifier-IsQueued :
        (now : ℕ) (m : Metadata) (a : Available) (s : Agent) (ns : List Text)
        → keria.has_agent s.rest ≡ true
        → get_available_witnesses keria.role_of (keria.iurls s.rest) ≡ ok a
        → is_ui_theme m.theme ≡ true
        → names_of service keria fuel (find_by_id s.stored pending_id) ≡ ok ns
        → let (r, s') = create_identifier service keria fuel now m false s in
          let name = calc_keria_hab_name m in IsQueued s'.stored (left name r (ns ++ (name ∷ [])))
    unfolding create_identifier
    create_identifier-IsQueued now m a s ns agent witnesses theme names =
        let name = calc_keria_hab_name m in
        let p = push_name-Requeues now name s ns names in
        rw (agent, witnesses, theme, p.ends)
          (register_and_clear-IsQueued now name m a p.after (ns ++ (name ∷ [])) p.names
            (has_name-append name ns))
