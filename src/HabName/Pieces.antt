-- ===== src/HabName/Pieces.antt =====
-- Splitting a name at its colons, and putting the pieces together again.
use veridian_wallet.Base.{
  ℕ, ◌≡◌, refl, ap, ◌∙◌, ◌≢◌, Bool-cases, inl, inr, List, [], ◌∷◌, ◌++◌, All, arith, ◌==◌,
}
use veridian_wallet.Base.Text.{Text, push_head, split}

-- The code unit `c` does not stand in the text.
abbrev pub Lacks : ℕ → Text → Type 0
Lacks c s = All (λ d. d ≢ c) s

split_of_Lacks : (c : ℕ) (s : Text) → Lacks c s → split c s ≡ s ∷ []
unfolding split
split_of_Lacks c [] h = refl
split_of_Lacks c (d ∷ s) (p, h) = rw (split_of_Lacks c s h) (ground arith)

-- A piece with no separator, followed by one, is split off whole.
pub split-append :
    (c : ℕ) (s rest : Text) → Lacks c s → split c (s ++ (c ∷ rest)) ≡ s ∷ split c rest
unfolding split
split-append c [] rest h = ground arith
split-append c (d ∷ s) rest (p, h) = rw (split-append c s rest h) (ground arith)

pub split_last : (c : ℕ) (s : Text) → Lacks c s → split c s ≡ s ∷ []
split_last c s h = split_of_Lacks c s h

push_head-Lacks :
    (c d : ℕ) (ps : List Text) → d ≢ c → All (Lacks c) ps → All (Lacks c) (push_head d ps)
push_head-Lacks c d [] p h = ((p, tt), tt)
push_head-Lacks c d (q ∷ ps) p h = ((p, h.0), h.1)

-- No piece holds the separator.
pub split-Lacks : (c : ℕ) (s : Text) → All (Lacks c) (split c s)
unfolding split
split-Lacks c [] = (tt, tt)
split-Lacks c (d ∷ s) = elim (Bool-cases (d == c)) [
  | inl e ↦ rw e (tt, split-Lacks c s)
  | inr e ↦ rw e (push_head-Lacks c d (split c s) (ground arith) (split-Lacks c s))
]

-- `ps.join(c)`.
unfoldable pub join : ℕ → List Text → Text
join c [] = []
join c (p ∷ []) = p
join c (p ∷ (q ∷ ps)) = p ++ (c ∷ join c (q ∷ ps))

join-push_head :
    (c d : ℕ) (p : Text) (ps : List Text) → join c (push_head d (p ∷ ps)) ≡ d ∷ join c (p ∷ ps)
unfolding join
join-push_head c d p [] = refl
join-push_head c d p (q ∷ ps) = refl

abbrev IsCons : List Text → Type 0
IsCons ps = (p : Text) × (qs : List Text) × (ps ≡ p ∷ qs)

push_head-IsCons : (c : ℕ) (ps : List Text) → IsCons (push_head c ps)
push_head-IsCons c [] = (c ∷ [], [], refl)
push_head-IsCons c (p ∷ ps) = (c ∷ p, ps, refl)

split-IsCons : (c : ℕ) (s : Text) → IsCons (split c s)
unfolding split
split-IsCons c [] = ([], [], refl)
split-IsCons c (d ∷ s) = elim (Bool-cases (d == c)) [
  | inl e ↦ rw e ([], split c s, refl)
  | inr e ↦ rw e (push_head-IsCons d (split c s))
]

-- Joining the pieces gives the text back.
pub join-split : (c : ℕ) (s : Text) → join c (split c s) ≡ s
unfolding split join
join-split c [] = refl
join-split c (d ∷ s) =
    let (p, ps, e) = split-IsCons c s in
    let back : join c (p ∷ ps) ≡ s = rw e at (join-split c s) in
    elim (Bool-cases (d == c)) [
      | inl h ↦ rw (h, e) (ground (arith, back))
      | inr h ↦ rw (h, e) (join-push_head c d p ps ∙ ap (λ t. d ∷ t) back)
    ]
