-- ===== src/Identifiers/Distinct.antt =====
-- Lists of witnesses without repetition.
use veridian_wallet.Base.{
  ℕ, zero, suc, ◌≤◌, ◌≡◌, refl, ◌∙◌, inl, inr, Bool-cases, false, ◌||◌, List, [], ◌∷◌, ◌++◌, All,
  All-append, take, length, arith,
}
use veridian_wallet.Base.Text.{Text, text_eq}
use veridian_wallet.Base.Text.Laws.{text_eq_iff}
use veridian_wallet.Identifiers.{Witness, has_eid, set_new, unique}

-- No witness stands twice.
abbrev pub AreDistinct : List Witness → Type 0
AreDistinct [] = Unit
AreDistinct (w ∷ ws) = (has_eid w.eid ws ≡ false) × AreDistinct ws

pub length-take : (n : ℕ) (ws : List Witness) → n ≤ length ws → length (take n ws) ≡ n
length-take zero ws h = refl
length-take (suc n) [] h = absurd (omega arith)
length-take (suc n) (w ∷ ws) h = omega (arith, length-take n ws (omega arith))

has_eid-take :
    (e : Text) (n : ℕ) (ws : List Witness) → has_eid e ws ≡ false → has_eid e (take n ws) ≡ false
has_eid-take e zero ws h = refl
has_eid-take e (suc n) [] h = refl
has_eid-take e (suc n) (w ∷ ws) h = ground (arith, has_eid-take e n ws)

pub AreDistinct-take : (n : ℕ) (ws : List Witness) → AreDistinct ws → AreDistinct (take n ws)
AreDistinct-take zero ws d = tt
AreDistinct-take (suc n) [] d = tt
AreDistinct-take (suc n) (w ∷ ws) (new, d) = (has_eid-take w.eid n ws new, AreDistinct-take n ws d)

has_eid-append :
    (e : Text) (ws : List Witness) (w : Witness)
    → has_eid e (ws ++ (w ∷ [])) ≡ (has_eid e ws || text_eq w.eid e)
has_eid-append e [] w = ground arith
has_eid-append e (v ∷ ws) w = ground (arith, has_eid-append e ws w)

text_eq_sym : (s t : Text) → text_eq s t ≡ false → text_eq t s ≡ false
text_eq_sym s t h = ground (arith, text_eq_iff s t, text_eq_iff t s)

AreDistinct-append :
    (ws : List Witness) (w : Witness)
    → has_eid w.eid ws ≡ false
    → AreDistinct ws
    → AreDistinct (ws ++ (w ∷ []))
AreDistinct-append [] w h d = (refl, tt)
AreDistinct-append (v ∷ ws) w h (new, d) = (
  has_eid-append v.eid ws w ∙ rw (new, text_eq_sym v.eid w.eid (ground arith)) refl,
  AreDistinct-append ws w (ground arith) d,
)

set_new-AreDistinct :
    (w : Witness) (seen : List Witness) → AreDistinct seen → AreDistinct (set_new w seen)
set_new-AreDistinct w seen d = elim (Bool-cases (has_eid w.eid seen)) [
  | inl e ↦ rw e d
  | inr e ↦ rw e (AreDistinct-append seen w e d)
]

pub unique-AreDistinct : (seen ws : List Witness) → AreDistinct seen → AreDistinct (unique seen ws)
unfolding unique
unique-AreDistinct seen [] d = d
unique-AreDistinct seen (w ∷ ws) d =
    unique-AreDistinct (set_new w seen) ws (set_new-AreDistinct w seen d)

module _ (P : Witness → Type 0) where
  All-set_new : (w : Witness) (seen : List Witness) → P w → All P seen → All P (set_new w seen)
  All-set_new w seen p h = elim (Bool-cases (has_eid w.eid seen)) [
    | inl e ↦ rw e h
    | inr e ↦ rw e (All-append P seen (w ∷ []) h (p, tt))
  ]

  pub All-unique : (seen ws : List Witness) → All P seen → All P ws → All P (unique seen ws)
  unfolding unique
  All-unique seen [] h k = h
  All-unique seen (w ∷ ws) h (p, k) = All-unique (set_new w seen) ws (All-set_new w seen p h) k
