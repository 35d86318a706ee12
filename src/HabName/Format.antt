-- ===== src/HabName/Format.antt =====
-- Formatting a name and parsing it again, in both directions.
use veridian_wallet.Base.{
  ◌≡◌, refl, ap, ◌∙◌, ◌↔◌, Bool-cases, inl, inr, Bool, true, false, Option, none, some, List, [],
  ◌∷◌, ◌++◌, All, arith, length, drop, ok, ok-injective, throw_if-ok,
}
use veridian_wallet.Base.Text.{Text, codes, text_eq, starts_with, split, trim}
use veridian_wallet.Base.Text.Laws.{
  text_eq_iff, starts_with-append, IsBlank, trim-eq-nil_iff, is_empty_iff,
}
use veridian_wallet.HabName.{
  GroupPart, HabNameParts, NameError, colon, v1_2_0_2, new_prefix, is_bad_flag, is_blank, parse_new,
  parse_hab_name, initiator_flag, format_tail, format_to_v1_2_0_2,
}
use veridian_wallet.HabName.Pieces.{Lacks, split-append, split_last, join, join-split, split-Lacks}

-- A group that survives the format: no colon inside, and an identifier that is not all white space.
abbrev pub IsFormattableGroup : Option GroupPart → Type 0
IsFormattableGroup none = Unit
IsFormattableGroup (some g) =
    Lacks colon g.group_id × Lacks colon g.proposed_username × (¬ IsBlank g.group_id)

abbrev pub IsFormattable : HabNameParts → Type 0
IsFormattable p =
    Lacks colon p.theme × Lacks colon p.display_name × IsFormattableGroup p.group_metadata

pub is_blank_iff : (s : Text) → (is_blank s ≡ true) ↔ IsBlank s
unfolding is_blank
is_blank_iff [] = (λ _. tt, λ _. refl)
is_blank_iff (c ∷ s) =
    let (to, from) = trim-eq-nil_iff (c ∷ s) in
    let (out, in') = is_empty_iff (trim (c ∷ s)) in (λ h. to (out h), λ h. in' (from h))

pub is_blank_of_not : (s : Text) → ¬ IsBlank s → is_blank s ≡ false
is_blank_of_not s h = elim (Bool-cases (is_blank s)) [
  | inl e ↦ absurd (h ((is_blank_iff s).0 e))
  | inr e ↦ e
]

pub not-IsBlank : (s : Text) → is_blank s ≡ false → ¬ IsBlank s
not-IsBlank s e h = let t = (is_blank_iff s).1 h in cc

pub flag_lem :
    (b : Bool)
    → (is_bad_flag (initiator_flag b) ≡ false) × (text_eq (initiator_flag b) (codes "1") ≡ b)
flag_lem true = (refl, refl)
flag_lem false = (refl, refl)

flag-Lacks : (b : Bool) → Lacks colon (initiator_flag b)
flag-Lacks true = ground arith
flag-Lacks false = ground arith

parse-format_tail :
    (theme name : Text) (g : Option GroupPart)
    → Lacks colon name
    → IsFormattableGroup g
    → parse_new (v1_2_0_2 ∷ theme ∷ split colon (format_tail g name))
      ≡ ok (record {
        version = some v1_2_0_2;
        display_name = name;
        group_metadata = g;
        theme = theme;
      })
unfolding parse_new
parse-format_tail theme name none l h = rw (split_last colon name l) refl
parse-format_tail theme name (some g) l h = rw (
  split-append colon (initiator_flag g.group_initiator) _ (flag-Lacks g.group_initiator),
  split-append colon g.group_id _ h.0,
  split-append colon g.proposed_username _ h.1,
  split_last colon name l,
  (flag_lem g.group_initiator).0,
  (flag_lem g.group_initiator).1,
  is_blank_of_not g.group_id h.2,
)

-- A name that was formatted from parts without colons, with a group identifier that is not blank,
-- parses back to those parts, at version 1.2.0.2.
pub parse-format :
    (p : HabNameParts)
    → IsFormattable p
    → parse_hab_name (format_to_v1_2_0_2 p) ≡ ok (record p { version = some v1_2_0_2 })
unfolding parse_hab_name format_to_v1_2_0_2
parse-format p h =
    rw
      (
        split-append colon v1_2_0_2
            (p.theme ++ (colon ∷ format_tail p.group_metadata p.display_name)) (ground arith),
        split-append colon p.theme (format_tail p.group_metadata p.display_name) h.0,
      )
      (parse-format_tail p.theme p.display_name p.group_metadata h.1 h.2)

flag_back : (s : Text) → is_bad_flag s ≡ false → initiator_flag (text_eq s (codes "1")) ≡ s
flag_back s h = ground (arith, text_eq_iff s (codes "1"), text_eq_iff s (codes "0"))

-- What the parser of the new format has accepted: the parts can be formatted again, and formatting
-- them joins the pieces.
abbrev IsParsed : List Text → HabNameParts → Type 0
IsParsed ps p =
    (p.version ≡ some v1_2_0_2) × (format_to_v1_2_0_2 p ≡ join colon ps) × IsFormattable p

parse_new-IsParsed :
    (rest : List Text) {p : HabNameParts}
    → All (Lacks colon) rest
    → parse_new (v1_2_0_2 ∷ rest) ≡ ok p
    → IsParsed (v1_2_0_2 ∷ rest) p
unfolding parse_new format_to_v1_2_0_2 join
parse_new-IsParsed [] l h = cc
parse_new-IsParsed (a ∷ []) l h = cc
parse_new-IsParsed (theme ∷ name ∷ []) l h = rw (← ok-injective h) (refl, refl, (l.0, l.1.0, tt))
parse_new-IsParsed (a ∷ b ∷ c ∷ []) l h = cc
parse_new-IsParsed (a ∷ b ∷ c ∷ d ∷ []) l h = cc
parse_new-IsParsed (theme ∷ flag ∷ gid ∷ user ∷ name ∷ []) l h =
    let (good, h') = throw_if-ok (is_bad_flag flag) NameError.new_initiator _ h in
    let (filled, e) = throw_if-ok (is_blank gid) NameError.new_group_id _ h' in
    rw (← ok-injective e) (
      refl,
      rw (flag_back flag good) refl,
      (l.0, l.1.1.1.1.0, (l.1.1.0, l.1.1.1.0, not-IsBlank gid filled)),
    )
parse_new-IsParsed (a ∷ b ∷ c ∷ d ∷ e ∷ f ∷ g) l h = cc

pub split-new_prefix :
    (s : Text)
    → starts_with new_prefix s ≡ true
    → split colon s ≡ v1_2_0_2 ∷ split colon (drop (length new_prefix) s)
split-new_prefix s h =
    ap (split colon) (starts_with-append new_prefix s h)
    ∙ split-append colon v1_2_0_2 (drop (length new_prefix) s) (ground arith)

accepted_new :
    (s : Text) {p : HabNameParts}
    → starts_with new_prefix s ≡ true
    → parse_hab_name s ≡ ok p
    → IsParsed (split colon s) p
unfolding parse_hab_name
accepted_new s h e =
    let shape = split-new_prefix s h in
    let pieces : All (Lacks colon) (v1_2_0_2 ∷ split colon (drop (length new_prefix) s)) =
      rw shape at (split-Lacks colon s) in
    rw shape (parse_new-IsParsed _ pieces.1 (rw (h, shape) at e))

-- A name in the new format that parses is exactly the text that its parts are formatted to.
pub format-parse :
    (s : Text) (p : HabNameParts)
    → starts_with new_prefix s ≡ true
    → parse_hab_name s ≡ ok p
    → format_to_v1_2_0_2 p ≡ s
format-parse s p h e = (accepted_new s h e).1 ∙ join-split colon s

pub accepted_new-IsFormattable :
    (s : Text) {p : HabNameParts}
    → starts_with new_prefix s ≡ true
    → parse_hab_name s ≡ ok p
    → (p.version ≡ some v1_2_0_2) × IsFormattable p
accepted_new-IsFormattable s h e = let a = accepted_new s h e in (a.0, a.2)
