-- ===== src/SeedPhrase/Deadline.antt =====
-- The deadline for verifying the seed phrase, over critical actions.
use veridian_wallet.Base.{
  ℕ, ◌+◌, ◌≤◌, suc, ◌≡◌, refl, Bool, false, Option, none, some, List, [], ◌∷◌, String, ok,
  if◌then◌else◌, arith, ◌===◌, length,
}
use veridian_wallet.Base.States.{◌>>=◌}
use veridian_wallet.Storage.{Content, StorageService}
use veridian_wallet.Storage.Basic.{
  content_of, content_of_if, new_record, create_or_update_lem, find-create_or_update,
}
use veridian_wallet.SeedPhrase.{
  CriticalActionState, critical_action_limit, reduced_time_limit_ms, seed_phrase_verified_id,
  critical_action_id, action_content, action_of, is_verified, initial_state, counted, AgentState,
  file, is_seed_phrase_verified, get_critical_action_state, count_action, record_critical_action,
}

-- Counting an action never moves the deadline back, and from the fifth action on the deadline is at
-- most a day away; it is moved to no earlier time than that.
pub counted_deadline :
    (now : ℕ) (a : CriticalActionState)
    → ((counted now a).deadline ≤ a.deadline)
      × (critical_action_limit ≤ (counted now a).action_count
          → (counted now a).deadline ≤ now + reduced_time_limit_ms)
      × (a.deadline ≤ now + reduced_time_limit_ms → (counted now a).deadline ≡ a.deadline)
counted_deadline now a = (ground arith, λ h. ground arith, λ h. ground arith)

abbrev pub counted_all : List ℕ → CriticalActionState → CriticalActionState
counted_all [] a = a
counted_all (t ∷ ts) a = counted_all ts (counted t a)

counted_all_deadline :
    (ts : List ℕ) (a : CriticalActionState)
    → ((counted_all ts a).deadline ≤ a.deadline)
      × ((counted_all ts a).action_count ≡ a.action_count + length ts)
counted_all_deadline [] a = omega arith
counted_all_deadline (t ∷ ts) a =
    let (le, count) = counted_all_deadline ts (counted t a) in
    let (le', _, _) = counted_deadline t a in (omega arith, omega arith)

pub latest : ℕ → List ℕ → ℕ
latest t [] = t
latest t (u ∷ us) = latest u us

counted_all-latest :
    (t : ℕ) (ts : List ℕ) (a : CriticalActionState)
    → 5 ≤ (counted_all (t ∷ ts) a).action_count
    → (counted_all (t ∷ ts) a).deadline ≤ latest t ts + reduced_time_limit_ms
unfolding latest
counted_all-latest t [] a h = ground arith
counted_all-latest t (u ∷ us) a h = counted_all-latest u us (counted t a) h

pub pair_eq : {A B : Type 0} {a : A} (p : A × B) → p.0 ≡ a → p ≡ (a, p.1)
pair_eq p h = λ i. (h i, p.1)

module _ (service : StorageService) where
  open service use {find_by_id, put, has}

  -- The content on file under an identifier.
  abbrev pub on_file : AgentState service → String → Option Content
  on_file m k = content_of (find_by_id m.stored k)

  -- Whether the agent takes the seed phrase for verified.
  abbrev pub verified_now : AgentState service → Bool
  verified_now m = elim m.cache [
    | some b ↦ b
    | none ↦ is_verified (on_file m seed_phrase_verified_id)
  ]

  pub file_lem :
      (now : ℕ) (id : String) (c : Content) (m : AgentState service) (k : String)
      → let (r, m') = file service now id c m in
        (r ≡ ok tt)
        × (m'.cache ≡ m.cache)
        × (on_file m' k ≡ (if id === k then some c else on_file m k))
  file_lem now id c m k =
      let w = new_record now id [] c in
      let e = create_or_update_lem service now w m.stored in
      let (_, found, same, _, _) = find-create_or_update service now w m.stored k in
      rw e (refl, refl, content_of_if (id === k) _ _ _ c (rw e at found) same)

  pub is_seed_phrase_verified_lem :
      (m : AgentState service)
      → is_seed_phrase_verified service m
        ≡ (ok (verified_now m), record m { cache = some (verified_now m) })
  unfolding is_seed_phrase_verified
  is_seed_phrase_verified_lem m = cached m.cache refl
    where
      cached :
          (c : Option Bool)
          → m.cache ≡ c
          → is_seed_phrase_verified service m
            ≡ (ok (verified_now m), record m { cache = some (verified_now m) })
      cached none h = rw (h, is_seed_phrase_verified) refl
      cached (some b) h = rw (h, is_seed_phrase_verified) (λ i. (ok b, record m { cache = h i }))

  -- Counting an action: what is on file moves on, or starts from the initial state.
  abbrev pub current : ℕ → AgentState service → Option CriticalActionState
  current now m = elim (on_file m critical_action_id) [
    | none ↦ some (initial_state now)
    | some c ↦ action_of c
  ]

  pub current_of :
      (now : ℕ) (m : AgentState service) (a : CriticalActionState)
      → on_file m critical_action_id ≡ some (action_content a)
      → current now m ≡ some a
  current_of now m a h = rw (h, current) refl

  pub get_critical_action_state_lem :
      (now : ℕ) (m : AgentState service) (a : CriticalActionState)
      → current now m ≡ some a
      → get_critical_action_state service now m ≡ (ok a, m)
  unfolding get_critical_action_state
  get_critical_action_state_lem now m a h = found (on_file m critical_action_id) refl
    where
      found :
          (c : Option Content)
          → on_file m critical_action_id ≡ c
          → get_critical_action_state service now m ≡ (ok a, m)
      found none e = rw (e, get_critical_action_state) (ground (arith, h, e))
      found (some c) e = rw (e, get_critical_action_state) (ground (arith, h, e))

  count_action_lem :
      (now now' : ℕ) (m : AgentState service) (a : CriticalActionState)
      → current now m ≡ some a
      → let (r, m') = count_action service now now' m in
        (r ≡ ok tt)
        × (m'.cache ≡ m.cache)
        × (on_file m' critical_action_id ≡ some (action_content (counted now' a)))
  count_action_lem now now' m a h =
      rw (get_critical_action_state_lem now m a h, ◌>>=◌)
        (file_lem now' critical_action_id (action_content (counted now' a)) m critical_action_id)

  -- A counted action is on file afterwards, and the agent's view of the seed phrase is the same.
  pub record_critical_action_lem :
      (now now' : ℕ) (m : AgentState service) (a : CriticalActionState)
      → verified_now m ≡ false
      → current now m ≡ some a
      → let (r, m') = record_critical_action service now now' m in
        (r ≡ ok tt)
        × (on_file m' critical_action_id ≡ some (action_content (counted now' a)))
        × (verified_now m' ≡ false)
  unfolding record_critical_action
  record_critical_action_lem now now' m a unverified h =
      let m1 : AgentState service = record m { cache = some false } in
      let (done, same, found) = count_action_lem now now' m1 a h in
      rw (is_seed_phrase_verified_lem m, ◌>>=◌, unverified)
        (done, found, rw (same, verified_now) refl)

  -- Critical actions at the given times, one after the other.
  pub act_all : List ℕ → AgentState service → AgentState service
  act_all [] m = m
  act_all (t ∷ ts) m = act_all ts (record_critical_action service t t m).1

  act_all-on_file :
      (ts : List ℕ) (m : AgentState service) (a : CriticalActionState)
      → verified_now m ≡ false
      → on_file m critical_action_id ≡ some (action_content a)
      → (on_file (act_all ts m) critical_action_id ≡ some (action_content (counted_all ts a)))
        × (verified_now (act_all ts m) ≡ false)
  unfolding act_all
  act_all-on_file [] m a v h = (h, v)
  act_all-on_file (t ∷ ts) m a v h =
      let (_, h', v') = record_critical_action_lem t t m a v (current_of t m a h) in
      act_all-on_file ts (record_critical_action service t t m).1 (counted t a) v' h'

  -- While the seed phrase is not verified and a state is on file, critical actions are all counted
  -- and never postpone the deadline, and when five or more are counted then, the deadline is at most
  -- a day after the last of them.
  pub deadline_after_actions :
      (t : ℕ) (ts : List ℕ) (m : AgentState service) (a : CriticalActionState)
      → verified_now m ≡ false
      → on_file m critical_action_id ≡ some (action_content a)
      → 5 ≤ a.action_count + suc (length ts)
      → (b : CriticalActionState) × (on_file (act_all (t ∷ ts) m) critical_action_id
          ≡ some (action_content b))
        × (b.action_count ≡ a.action_count + suc (length ts))
        × (b.deadline ≤ a.deadline)
        × (b.deadline ≤ latest t ts + reduced_time_limit_ms)
  deadline_after_actions t ts m a v h five =
      let (found, _) = act_all-on_file (t ∷ ts) m a v h in
      let (le, count) = counted_all_deadline (t ∷ ts) a in
      (
        counted_all (t ∷ ts) a,
        found,
        count,
        le,
        counted_all-latest t ts a (omega (arith, count, five)),
      )
