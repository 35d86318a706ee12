-- ===== src/Storage/Sqlite/Unknown.antt =====
-- The types of the pieces of a text of rows, and the first one that is unknown.
use veridian_wallet.Base.{
  ◌≡◌, refl, inl, inr, Bool, Bool-cases, true, false, ◌||◌, Option, none, some, List, [], ◌∷◌,
  Result, ok, err, if◌then◌else◌,
}
use veridian_wallet.Base.Text.{Text, codes, text_eq, split}
use veridian_wallet.Storage.Sqlite.{
  DbTags, text_tag, flag_tag, ResolveError, resolve_tag, resolve_all, unexpected_tag_type,
  assign_tag, tag_key, is_one, resolve_parse,
}

abbrev pub first_of : List Text → Text
first_of [] = []
first_of (p ∷ ps) = p

abbrev pub is_array : Text → Bool
is_array ty = text_eq ty (codes "array")

abbrev pub is_scalar : Text → Bool
is_scalar ty = text_eq ty (codes "string") || text_eq ty (codes "boolean")

-- The first type of a piece that is none of the three, where no array stands before it.
abbrev pub unknown_type : List Text → Option Text
unknown_type [] = none
unknown_type (t ∷ ts) =
    let rest = unknown_type ts in
    let ty = first_of (split b'|' t) in
    if is_array ty then none else if is_scalar ty then rest else some ty

pub or_left : (a b : Bool) → (a || b) ≡ false → a ≡ false
or_left true b h = h
or_left false b h = refl

resolve_tag-scalar :
    (ty : Text) (k v : Option Text) (tags : DbTags)
    → is_array ty ≡ false
    → is_scalar ty ≡ true
    → (after : DbTags) × (resolve_tag ty k v tags ≡ ok after)
resolve_tag-scalar ty k v tags a h = elim (Bool-cases (text_eq ty (codes "string"))) [
  | inl e ↦ (assign_tag (tag_key k) (text_tag v) tags, rw (a, e) refl)
  | inr e ↦
      let b : text_eq ty (codes "boolean") ≡ true = rw e at h in
      (assign_tag (tag_key k) (flag_tag (is_one v)) tags, rw (a, e, b) refl)
]

resolve_tag-unknown :
    (ty : Text) (k v : Option Text) (tags : DbTags)
    → is_array ty ≡ false
    → is_scalar ty ≡ false
    → resolve_tag ty k v tags ≡ err (unexpected_tag_type ty)
resolve_tag-unknown ty k v tags a h =
    let e : text_eq ty (codes "string") ≡ false =
      or_left (text_eq ty (codes "string")) (text_eq ty (codes "boolean")) h in
    let b : text_eq ty (codes "boolean") ≡ false = rw e at h in rw (a, e, b) refl

resolve_parse-scalar :
    (ps : List Text) (tags : DbTags)
    → is_array (first_of ps) ≡ false
    → is_scalar (first_of ps) ≡ true
    → (after : DbTags) × (resolve_parse ps tags ≡ ok after)
resolve_parse-scalar [] tags a h = resolve_tag-scalar [] none none tags a h
resolve_parse-scalar (ty ∷ []) tags a h = resolve_tag-scalar ty none none tags a h
resolve_parse-scalar (ty ∷ k ∷ []) tags a h = resolve_tag-scalar ty (some k) none tags a h
resolve_parse-scalar (ty ∷ k ∷ v ∷ _) tags a h = resolve_tag-scalar ty (some k) (some v) tags a h

resolve_parse-unknown :
    (ps : List Text) (tags : DbTags)
    → is_array (first_of ps) ≡ false
    → is_scalar (first_of ps) ≡ false
    → resolve_parse ps tags ≡ err (unexpected_tag_type (first_of ps))
resolve_parse-unknown [] tags a h = resolve_tag-unknown [] none none tags a h
resolve_parse-unknown (ty ∷ []) tags a h = resolve_tag-unknown ty none none tags a h
resolve_parse-unknown (ty ∷ k ∷ []) tags a h = resolve_tag-unknown ty (some k) none tags a h
resolve_parse-unknown (ty ∷ k ∷ v ∷ _) tags a h = resolve_tag-unknown ty (some k) (some v) tags a h

abbrev thrown : Text → Result ResolveError DbTags
thrown ty = err (unexpected_tag_type ty)

pub resolve_all-unknown :
    (ts : List Text) (tags : DbTags) (ty : Text)
    → unknown_type ts ≡ some ty
    → resolve_all ts tags ≡ err (unexpected_tag_type ty)
unfolding resolve_all
resolve_all-unknown [] tags ty h = absurd (cc)
resolve_all-unknown (t ∷ ts) tags ty h = elim (Bool-cases (is_array (first_of (split b'|' t)))) [
  | inl a ↦ absurd (no_type (rw a at h))
  | inr a ↦ elim (Bool-cases (is_scalar (first_of (split b'|' t)))) [
    | inl b ↦
        let (after, e) = resolve_parse-scalar (split b'|' t) tags a b in
        rw e (resolve_all-unknown ts after ty (rw (a, b) at h))
    | inr b ↦ rw (resolve_parse-unknown (split b'|' t) tags a b) (same (rw (a, b) at h))
  ]
]
  where
    no_type : {u : Text} → none ≡ some u → ⊥
    no_type h = cc

    same : {u w : Text} → some u ≡ some w → thrown u ≡ thrown w
    same h = cc
