-- ===== src/Identifiers/Immunity.antt =====
-- The chosen witnesses and their threshold of acceptable duplicity (`toad`).
use veridian_wallet.Base.{
  ℕ, ◌+◌, ◌*◌, ◌≤◌, ◌<◌, ◌≡◌, refl, ◌⊎◌, inl, inr, Bool-cases, true, Option, none, some, List, [],
  ◌∷◌, All, All-take, take, length, any, Result, ok, err, ◌>>=◌, leb, arith, if◌then◌else◌,
}
use mathlib.Core.Path.{subst}
use veridian_wallet.Base.Text.{Text, text_eq}
use veridian_wallet.Base.Text.Laws.{text_eq_iff}
use veridian_wallet.Identifiers.{
  Witness, Available, WitnessError, eid_of, is_witness, unique, choose, witnesses_in, with_role,
  push_witness, get_available_witnesses,
}
use veridian_wallet.Identifiers.Distinct.{
  AreDistinct, length-take, AreDistinct-take, unique-AreDistinct, All-unique,
}

-- `faults` is the greatest number below a third of the witnesses. With up to so many of them faulty,
-- any two sets of `toad` witnesses share one that is not faulty, and the others suffice for a set of
-- `toad`; no lower threshold has such sets.
pub record IsImmune (a : Available) : Type 0 where
  pub faults : ℕ
  pub minority : 3 * faults < length a.witnesses
  pub most : length a.witnesses ≤ 3 * (faults + 1)
  pub agreement : length a.witnesses + faults < 2 * a.toad
  pub least : 2 * a.toad ≤ length a.witnesses + faults + 2
  pub availability : a.toad + faults ≤ length a.witnesses

-- `n` is the greatest of the numbers 6, 7, 9, 10 and 12 that is not above `m`.
abbrev pub IsLargest : ℕ → ℕ → Type 0
IsLargest m n =
    ((n ≡ 12) × (12 ≤ m))
    ⊎ ((n ≡ 10) × (10 ≤ m) × (m < 12))
    ⊎ ((n ≡ 9) × (m ≡ 9))
    ⊎ ((n ≡ 7) × (7 ≤ m) × (m < 9))
    ⊎ ((n ≡ 6) × (m ≡ 6))

-- What a choice out of `m` witnesses keeps.
pub record IsChoice (P : Witness → Type 0) (m : ℕ) (a : Available) : Type 0 where
  pub size : IsLargest m (length a.witnesses)
  pub immune : IsImmune a
  pub distinct : AreDistinct a.witnesses
  pub all : All P a.witnesses

take-IsChoice :
    (P : Witness → Type 0) (ws : List Witness) (n toad f : ℕ)
    → IsLargest (length ws) n
    → n ≤ length ws
    → 3 * f < n
    → n ≤ 3 * (f + 1)
    → n + f < 2 * toad
    → 2 * toad ≤ n + f + 2
    → toad + f ≤ n
    → AreDistinct ws
    → All P ws
    → IsChoice P (length ws) (record { toad = toad; witnesses = take n ws })
take-IsChoice P ws n toad f largest enough minority most agreement least availability d h =
    let size = length-take n ws enough in
    record {
      size = rw size largest;
      immune = record {
        faults = f;
        minority = rw size minority;
        most = rw size most;
        agreement = rw size agreement;
        least = rw size least;
        availability = rw size availability;
      };
      distinct = AreDistinct-take n ws d;
      all = All-take P n ws h;
    }

abbrev Chosen : (Witness → Type 0) → ℕ → Result WitnessError Available → Type 0
Chosen P m (ok a) = IsChoice P m a
Chosen P m (err e) = Unit

if-Chosen :
    (P : Witness → Type 0) (l n : ℕ) (x y : Result WitnessError Available)
    → (l ≤ n → Chosen P n x)
    → (n < l → Chosen P n y)
    → Chosen P n (if leb l n then x else y)
if-Chosen P l n x y f k = elim (Bool-cases (leb l n)) [
  | inl e ↦ rw e (f (ground arith))
  | inr e ↦ rw e (k (ground arith))
]

choose-Chosen :
    (P : Witness → Type 0) (ws : List Witness)
    → AreDistinct ws
    → All P ws
    → Chosen P (length ws) (choose ws)
unfolding choose
choose-Chosen P ws d k =
    if-Chosen P 12 (length ws) _ _
      (λ h.
        take-IsChoice P ws 12 8 3 (inl (refl, h)) h (omega arith) (omega arith) (omega arith)
          (omega arith) (omega arith) d k)
      (λ u.
        if-Chosen P 10 (length ws) _ _
          (λ h.
            take-IsChoice P ws 10 7 3 (inr (inl (refl, h, u))) h (omega arith) (omega arith)
              (omega arith) (omega arith) (omega arith) d k)
          (λ u.
            if-Chosen P 9 (length ws) _ _
              (λ h.
                take-IsChoice P ws 9 6 2 (inr (inr (inl (refl, omega arith)))) h (omega arith)
                  (omega arith) (omega arith) (omega arith) (omega arith) d k)
              (λ u.
                if-Chosen P 7 (length ws) _ _
                  (λ h.
                    take-IsChoice P ws 7 5 2 (inr (inr (inr (inl (refl, h, u))))) h (omega arith)
                      (omega arith) (omega arith) (omega arith) (omega arith) d k)
                  (λ u.
                    if-Chosen P 6 (length ws) _ _
                      (λ h.
                        take-IsChoice P ws 6 4 1 (inr (inr (inr (inr (refl, omega arith))))) h
                          (omega arith) (omega arith) (omega arith) (omega arith) (omega arith) d k)
                      (λ _. tt)))))

-- The number of different witnesses that are found.
abbrev pub number_found : Result WitnessError (List Witness) → ℕ
number_found (ok ws) = length (unique [] ws)
number_found (err e) = 0

module _ (role_of : Text → Option (Option Text)) where
  -- A witness of the configuration: its URL is there, with the role of a witness and its identifier.
  pub record IsConfigured (oobis : List Text) (w : Witness) : Type 0 where
    pub listed : any (λ u. text_eq u w.oobi) oobis ≡ true
    pub role : Option Text
    pub has_role : role_of w.oobi ≡ some role
    pub witness : is_witness role ≡ true
    pub identifier : eid_of w.oobi ≡ ok w.eid

  All-weaken :
      (P Q : Witness → Type 0) (ws : List Witness)
      → ((w : Witness) → P w → Q w)
      → All P ws
      → All Q ws
  All-weaken P Q [] f h = tt
  All-weaken P Q (w ∷ ws) f (p, h) = (f w p, All-weaken P Q ws f h)

  IsConfigured-weaken :
      (u : Text) (oobis : List Text) (w : Witness)
      → IsConfigured oobis w
      → IsConfigured (u ∷ oobis) w
  IsConfigured-weaken u oobis w c = record {
    listed = ground (arith, c.listed);
    role = c.role;
    has_role = c.has_role;
    witness = c.witness;
    identifier = c.identifier;
  }

  unfoldable AllOk : List Text → Result WitnessError (List Witness) → Type 0
  AllOk oobis (ok ws) = All (IsConfigured oobis) ws
  AllOk oobis (err e) = Unit

  push_witness-AllOk :
      (u : Text) (oobis : List Text) (role : Option Text) (eid : Result WitnessError Text)
      (rest : Result WitnessError (List Witness))
      → role_of u ≡ some role
      → is_witness role ≡ true
      → eid_of u ≡ eid
      → AllOk oobis rest
      → AllOk (u ∷ oobis) (push_witness u eid rest)
  unfolding AllOk
  push_witness-AllOk u oobis role (err e) rest r w h k = tt
  push_witness-AllOk u oobis role (ok eid) (err e) r w h k = tt
  push_witness-AllOk u oobis role (ok eid) (ok ws) r w h k = (
    record {
      listed = ground (arith, text_eq_iff u u);
      role = role;
      has_role = r;
      witness = w;
      identifier = h;
    },
    All-weaken (IsConfigured oobis) (IsConfigured (u ∷ oobis)) ws (IsConfigured-weaken u oobis) k,
  )

  with_role-AllOk :
      (u : Text) (oobis : List Text) (r : Option (Option Text))
      (rest : Result WitnessError (List Witness))
      → role_of u ≡ r
      → AllOk oobis rest
      → AllOk (u ∷ oobis) (with_role u r rest)
  unfolding AllOk
  with_role-AllOk u oobis none rest h k = tt
  with_role-AllOk u oobis (some role) rest h k = elim (Bool-cases (is_witness role)) [
    | inl e ↦ rw e (push_witness-AllOk u oobis role (eid_of u) rest h e refl k)
    | inr e ↦ rw e (weaken rest k)
  ]
    where
      weaken :
          (rest : Result WitnessError (List Witness)) → AllOk oobis rest → AllOk (u ∷ oobis) rest
      weaken (ok ws) k =
          All-weaken (IsConfigured oobis) (IsConfigured (u ∷ oobis)) ws
            (IsConfigured-weaken u oobis) k
      weaken (err e) k = tt

  witnesses_in-AllOk : (oobis : List Text) → AllOk oobis (witnesses_in role_of oobis)
  unfolding AllOk witnesses_in
  witnesses_in-AllOk [] = tt
  witnesses_in-AllOk (u ∷ oobis) =
      with_role-AllOk u oobis (role_of u) (witnesses_in role_of oobis) refl
        (witnesses_in-AllOk oobis)

  Chosen-ok :
      (P : Witness → Type 0) (m : ℕ) (r : Result WitnessError Available) (a : Available)
      → r ≡ ok a
      → Chosen P m r
      → IsChoice P m a
  Chosen-ok P m r a h c = subst (Chosen P m) h c

  -- Where witnesses are chosen, their number is the greatest of 6, 7, 9, 10 and 12 that is not above
  -- the number of different witnesses that the configuration has; they are witnesses of the
  -- configuration, none twice, and the threshold is the least one that keeps what they receipt
  -- consistent with the greatest number of them faulty that is below a third, and it keeps it available
  -- as well.
  pub get_available_witnesses-IsChoice :
      (oobis : List Text) (a : Available)
      → get_available_witnesses role_of (some oobis) ≡ ok a
      → IsChoice (IsConfigured oobis) (number_found (witnesses_in role_of oobis)) a
  unfolding get_available_witnesses AllOk
  get_available_witnesses-IsChoice oobis a h =
      go (witnesses_in role_of oobis) (witnesses_in-AllOk oobis) h
    where
      go :
          (r : Result WitnessError (List Witness))
          → AllOk oobis r
          → (r >>= λ ws. choose (unique [] ws)) ≡ ok a
          → IsChoice (IsConfigured oobis) (number_found r) a
      go (err e) k h = absurd (cc)
      go (ok ws) k h =
          Chosen-ok (IsConfigured oobis) (length (unique [] ws)) (choose (unique [] ws)) a h (
            choose-Chosen (IsConfigured oobis) (unique [] ws) (unique-AreDistinct [] ws tt)
              (All-unique (IsConfigured oobis) [] ws tt k))
