-- ===== src/HabName/Upgrade.antt =====
-- Names in the old format, and their migration to format 1.2.0.2
-- (src/core/storage/sqliteStorage/cloudMigrations/v1.2.0.2-group-scoped-username-clould.ts).
use veridian_wallet.Base.{
  ℕ, ◌+◌, ◌≡◌, refl, sym, ap, ◌∙◌, ◌≢◌, Bool-cases, inl, inr, Bool, true, false, Option, none, some,
  List, [], ◌∷◌, ◌++◌, All, All-drop, arith, take, drop, ok, err, ok-injective, throw_if-ok, ◌||◌,
}
use veridian_wallet.Base.Text.{Text, starts_with, is_empty, split, index_of}
use veridian_wallet.Base.Text.Laws.{IsBlank, index_of-append, take-append, drop-append}
use veridian_wallet.HabName.{
  HabNameParts, NameError, colon, hyphen, v1_2_0_2, new_prefix, deleted_theme, is_bad_flag,
  is_blank, parse_old, parse_new, parse_group_at, old_parts, parse_hab_name, initiator_flag,
  format_to_v1_2_0_2,
}
use veridian_wallet.HabName.Pieces.{Lacks, split-append, split_last, split-Lacks}
use veridian_wallet.HabName.Format.{
  IsFormattable, not-IsBlank, is_blank_of_not, parse-format, accepted_new-IsFormattable,
  split-new_prefix, flag_lem,
}

parse_group_at-IsFormattable :
    (at : Option ℕ) (theme group name : Text) {p : HabNameParts}
    → Lacks colon theme
    → Lacks colon group
    → Lacks colon name
    → parse_group_at at theme group name ≡ ok p
    → IsFormattable p
unfolding parse_group_at
parse_group_at-IsFormattable none theme group name lt lg ln h =
    elim (Bool-cases (starts_with (deleted_theme ++ hyphen ∷ []) theme)) [
      | inl d ↦
          let (filled, r) = throw_if-ok (is_blank group) NameError.old_group_id _ (rw d at h) in
          rw (← ok-injective r) (lt, ln, (lg, tt, not-IsBlank group filled))
      | inr d ↦ let bad = rw d at h in absurd (cc bad)
    ]
parse_group_at-IsFormattable (some i) theme group name lt lg ln h =
    let (good, h') = throw_if-ok (is_bad_flag (take i group)) NameError.old_initiator _ h in
    let (filled, r) = throw_if-ok (is_blank (drop (i + 1) group)) NameError.old_group_id _ h' in
    rw (← ok-injective r)
      (lt, ln, (All-drop _ (i + 1) group lg, tt, not-IsBlank (drop (i + 1) group) filled))

parse_old-IsFormattable :
    (ps : List Text) {p : HabNameParts}
    → All (Lacks colon) ps
    → parse_old ps ≡ ok p
    → IsFormattable p
unfolding parse_old
parse_old-IsFormattable [] l h = cc
parse_old-IsFormattable (a ∷ []) l h = cc
parse_old-IsFormattable (theme ∷ name ∷ []) l h =
    let (_, r) = throw_if-ok (is_empty theme || is_empty name) NameError.old_missing _ h in
    rw (← ok-injective r) (l.0, l.1.0, tt)
parse_old-IsFormattable (theme ∷ group ∷ name ∷ []) l h =
    let (_, r) = throw_if-ok (is_empty theme || is_empty name) NameError.old_missing _ h in
    parse_group_at-IsFormattable _ theme group name l.0 l.1.0 l.1.1.0 r
parse_old-IsFormattable (a ∷ b ∷ c ∷ d ∷ e) l h = cc

accepted-IsFormattable : (s : Text) {p : HabNameParts} → parse_hab_name s ≡ ok p → IsFormattable p
unfolding parse_hab_name
accepted-IsFormattable s h = elim (Bool-cases (starts_with new_prefix s)) [
  | inl e ↦ (accepted_new-IsFormattable s e h).1
  | inr e ↦ parse_old-IsFormattable (split colon s) (split-Lacks colon s) (rw e at h)
]

-- Every name that parses, in either format, can be rewritten in format 1.2.0.2, and the rewritten
-- name parses to the same theme, display name and group, now at version 1.2.0.2.
pub parse-format-parse :
    (s : Text) (p : HabNameParts)
    → parse_hab_name s ≡ ok p
    → parse_hab_name (format_to_v1_2_0_2 p) ≡ ok (record p { version = some v1_2_0_2 })
parse-format-parse s p h = parse-format p (accepted-IsFormattable s h)

abbrev first_piece : List Text → Text
first_piece [] = []
first_piece (p ∷ ps) = p

theme-eq-version :
    (theme rest : Text)
    → Lacks colon theme
    → starts_with new_prefix (theme ++ (colon ∷ rest)) ≡ true
    → theme ≡ v1_2_0_2
theme-eq-version theme rest l h =
    ap first_piece
      (sym (split-append colon theme rest l) ∙ split-new_prefix (theme ++ (colon ∷ rest)) h)

is_old_name :
    (theme rest : Text)
    → Lacks colon theme
    → theme ≢ v1_2_0_2
    → starts_with new_prefix (theme ++ (colon ∷ rest)) ≡ false
is_old_name theme rest l ne = elim (Bool-cases (starts_with new_prefix (theme ++ (colon ∷ rest)))) [
  | inl e ↦ absurd (ne (theme-eq-version theme rest l e))
  | inr e ↦ e
]

is_empty-false : (s : Text) → s ≢ [] → is_empty s ≡ false
is_empty-false [] h = absurd (h refl)
is_empty-false (c ∷ s) h = refl

-- An old group name is "theme:flag-groupId:displayName", where the group identifier may itself hold
-- hyphens.
abbrev pub old_group_name : Text → Bool → Text → Text → Text
old_group_name theme flag gid name =
    theme ++ (colon ∷ ((initiator_flag flag ++ (hyphen ∷ gid)) ++ (colon ∷ name)))

flag-Lacks-hyphen : (b : Bool) → Lacks hyphen (initiator_flag b)
flag-Lacks-hyphen true = ground arith
flag-Lacks-hyphen false = ground arith

flag_group-Lacks :
    (b : Bool) (gid : Text) → Lacks colon gid → Lacks colon (initiator_flag b ++ (hyphen ∷ gid))
flag_group-Lacks true gid h = ground arith
flag_group-Lacks false gid h = ground arith

parse_group_at_flag :
    (theme name gid : Text) (b : Bool)
    → ¬ IsBlank gid
    → let group = initiator_flag b ++ (hyphen ∷ gid) in
      parse_group_at (index_of hyphen group) theme group name
      ≡ ok (
          old_parts theme name
            (record { group_initiator = b; group_id = gid; proposed_username = [] }))
unfolding parse_group_at
parse_group_at_flag theme name gid b h = rw (
  index_of-append hyphen (initiator_flag b) gid (flag-Lacks-hyphen b),
  take-append (initiator_flag b) (hyphen ∷ gid),
  drop-append (initiator_flag b) hyphen gid,
  (flag_lem b).0,
  (flag_lem b).1,
  is_blank_of_not gid h,
)

-- A well-formed group name of the old format parses to its parts, with an empty user name.
pub parse-old_group_name :
    (theme gid name : Text) (flag : Bool)
    → Lacks colon theme
    → theme ≢ v1_2_0_2
    → theme ≢ []
    → Lacks colon gid
    → ¬ IsBlank gid
    → Lacks colon name
    → name ≢ []
    → parse_hab_name (old_group_name theme flag gid name)
      ≡ ok (
          old_parts theme name
            (record { group_initiator = flag; group_id = gid; proposed_username = [] }))
unfolding parse_hab_name parse_old
parse-old_group_name theme gid name flag lt nv ne lg full ln nn =
    rw
      (
        is_old_name theme _ lt nv,
        split-append colon theme _ lt,
        split-append colon (initiator_flag flag ++ (hyphen ∷ gid)) name
            (flag_group-Lacks flag gid lg),
        split_last colon name ln,
        is_empty-false theme ne,
        is_empty-false name nn,
      )
      (parse_group_at_flag theme name gid flag full)

-- The format has no escape: where the display name of parts without a group holds exactly one colon,
-- the formatted name is refused.
pub parse-format_colon :
    (p : HabNameParts) (a b : Text)
    → p.group_metadata ≡ none
    → Lacks colon p.theme
    → p.display_name ≡ a ++ (colon ∷ b)
    → Lacks colon a
    → Lacks colon b
    → parse_hab_name (format_to_v1_2_0_2 p) ≡ err NameError.new_part_count
unfolding parse_hab_name format_to_v1_2_0_2 parse_new
parse-format_colon p a b g lt e la lb = rw (
  g,
  split-append colon v1_2_0_2 (p.theme ++ (colon ∷ p.display_name)) (ground arith),
  split-append colon p.theme p.display_name lt,
  e,
  split-append colon a b la,
  split_last colon b lb,
)
