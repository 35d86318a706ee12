-- ===== src/Storage/Sqlite/Clean.antt =====
-- Rows whose names and texts have neither a comma nor a bar: their text splits into them again.
use veridian_wallet.Base.{
  ℕ, ◌≡◌, refl, ◌∙◌, ap, Bool, true, not, ◌&&◌, some, List, [], ◌∷◌, ◌++◌, append_nil, map, Result,
  ok, err, ◌>>=◌, arith, ◌==◌,
}
use veridian_wallet.Base.Text.{Text, codes, split}
use veridian_wallet.HabName.Pieces.{Lacks, split-append, split_last}
use veridian_wallet.Storage.Sqlite.{
  TagRow, TagDataType, string, array, boolean, type_text, tag_text, comma_texts, group_concat,
  DbTags, ResolveError, resolve_tag, resolve_all, resolve_tags_from_db, tags_from,
}

abbrev pub lacks : Text → Bool
lacks [] = true
lacks (c ∷ s) = not (c == b',') && not (c == b'|') && lacks s

-- Neither a comma nor a bar in the name or the text of a row.
abbrev pub are_clean : List TagRow → Bool
are_clean [] = true
are_clean (t ∷ ts) = lacks (codes t.name) && lacks (codes t.value) && are_clean ts

lacks-comma : (s : Text) → lacks s ≡ true → Lacks b',' s
lacks-comma [] h = tt
lacks-comma (c ∷ s) h = (ground arith, lacks-comma s (ground arith))

lacks-bar : (s : Text) → lacks s ≡ true → Lacks b'|' s
lacks-bar [] h = tt
lacks-bar (c ∷ s) h = (ground arith, lacks-bar s (ground arith))

Lacks-append : (c : ℕ) (s t : Text) → Lacks c s → Lacks c t → Lacks c (s ++ t)
Lacks-append c [] t h k = k
Lacks-append c (d ∷ s) t (here, h) k = (here, Lacks-append c s t h k)

lacks-type_text : (ty : TagDataType) → lacks (type_text ty) ≡ true
lacks-type_text string = refl
lacks-type_text array = refl
lacks-type_text boolean = refl

tag_text-Lacks :
    (t : TagRow)
    → lacks (codes t.name) ≡ true
    → lacks (codes t.value) ≡ true
    → Lacks b',' (tag_text t)
tag_text-Lacks t h k =
    Lacks-append b',' (type_text t.type_of) _
      (lacks-comma (type_text t.type_of) (lacks-type_text t.type_of))
      (
        ground arith,
        Lacks-append b',' (codes t.name) _ (lacks-comma (codes t.name) h)
            (ground arith, lacks-comma (codes t.value) k),
      )

split-tag_text :
    (t : TagRow)
    → lacks (codes t.name) ≡ true
    → lacks (codes t.value) ≡ true
    → split b'|' (tag_text t) ≡ type_text t.type_of ∷ codes t.name ∷ codes t.value ∷ []
split-tag_text t h k =
    rw
      (
        split-append b'|' (type_text t.type_of) (codes t.name ++ (b'|' ∷ codes t.value))
            (lacks-bar (type_text t.type_of) (lacks-type_text t.type_of)),
        split-append b'|' (codes t.name) (codes t.value) (lacks-bar (codes t.name) h),
        split_last b'|' (codes t.value) (lacks-bar (codes t.value) k),
      )
      refl

split-comma_texts :
    (t : TagRow) (ts : List TagRow)
    → are_clean (t ∷ ts) ≡ true
    → split b',' (tag_text t ++ comma_texts ts) ≡ tag_text t ∷ map tag_text ts
split-comma_texts t [] h =
    rw (append_nil (tag_text t))
      (split_last b',' (tag_text t) (tag_text-Lacks t (ground arith) (ground arith)))
split-comma_texts t (u ∷ us) h =
    split-append b',' (tag_text t) (tag_text u ++ comma_texts us)
      (tag_text-Lacks t (ground arith) (ground arith))
    ∙ ap (λ l. tag_text t ∷ l) (split-comma_texts u us (ground arith))

-- The rows, one after the other, without their text.
abbrev pub resolve_rows : List TagRow → DbTags → Result ResolveError DbTags
resolve_rows [] tags = ok tags
resolve_rows (t ∷ ts) tags =
    resolve_tag (type_text t.type_of) (some (codes t.name)) (some (codes t.value)) tags
    >>= resolve_rows ts

bind-ext :
    {E A B : Type 0} (x : Result E A) (f g : A → Result E B)
    → ((a : A) → f a ≡ g a)
    → (x >>= f) ≡ (x >>= g)
bind-ext (ok a) f g h = h a
bind-ext (err e) f g h = refl

resolve_all-tag_text :
    (ts : List TagRow) (tags : DbTags)
    → are_clean ts ≡ true
    → resolve_all (map tag_text ts) tags ≡ resolve_rows ts tags
unfolding resolve_all
resolve_all-tag_text [] tags h = refl
resolve_all-tag_text (t ∷ ts) tags h =
    let name : lacks (codes t.name) ≡ true = ground arith in
    let value : lacks (codes t.value) ≡ true = ground arith in
    rw (split-tag_text t name value) (
      bind-ext (resolve_tag (type_text t.type_of) (some (codes t.name)) (some (codes t.value)) tags)
        _ _ (λ a. resolve_all-tag_text ts a (ground arith)))

pub tags_from-clean :
    (rows : List TagRow) → are_clean rows ≡ true → tags_from rows ≡ resolve_rows rows []
unfolding tags_from resolve_tags_from_db group_concat
tags_from-clean [] h = refl
tags_from-clean (t ∷ ts) h = rw (split-comma_texts t ts h) (resolve_all-tag_text (t ∷ ts) [] h)
