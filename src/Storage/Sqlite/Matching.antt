-- ===== src/Storage/Sqlite/Matching.antt =====
-- The rows of a record's tags against the record's tags: what a condition on a tag finds.
use veridian_wallet.Base.{
  ◌≡◌, refl, sym, ap, ◌∙◌, inl, inr, Bool, Bool-cases, true, false, not, ◌&&◌, ◌||◌, Option, none,
  some, List, [], ◌∷◌, ◌++◌, String, any, keep, arith, eq_iff, ◌===◌,
}
use veridian_wallet.Base.Dict.{lookup, IsFunctional}
use veridian_wallet.Storage.Types.{TagValue, text, flag, texts, undefined, Tags}
use veridian_wallet.Storage.Query.{tag_matches}
use veridian_wallet.Storage.Sqlite.{
  TagRow, Item, flag_text, rows_of, array_rows, get_tags_insert_sql, exists_row,
}

-- The rows of the item are those that its tags are inserted as.
abbrev pub IsTagged : List TagRow → Item → Tags → Type 0
IsTagged table i tags = keep (λ t. i.id === t.item_id) table ≡ get_tags_insert_sql i.id tags

-- A text for a tag that a test on the texts in the rows of a tag finds.
abbrev pub some_text : (String → Bool) → Option TagValue → Bool
some_text p none = false
some_text p (some (text s)) = p s
some_text p (some (flag b)) = p (flag_text b)
some_text p (some (texts vs)) = any p vs
some_text p (some undefined) = false

abbrev named : String → (String → Bool) → TagRow → Bool
named k p t = t.name === k && p t.value

any-append :
    {A : Type 0} → (p : A → Bool) (xs ys : List A) → any p (xs ++ ys) ≡ (any p xs || any p ys)
any-append p [] ys = refl
any-append p (x ∷ xs) ys = ground (arith, any-append p xs ys)

exists_row-keep :
    (table : List TagRow) (i : Item) (k : String) (p : String → Bool)
    → exists_row table i k p ≡ any (named k p) (keep (λ t. i.id === t.item_id) table)
exists_row-keep [] i k p = refl
exists_row-keep (t ∷ table) i k p = elim (Bool-cases (i.id === t.item_id)) [
  | inl e ↦ rw (e, exists_row-keep table i k p) refl
  | inr e ↦ rw (e, exists_row-keep table i k p) refl
]

any-array_rows :
    (id j k : String) (p : String → Bool) (vs : List String)
    → any (named k p) (array_rows id j vs) ≡ (j === k && any p vs)
any-array_rows id j k p [] = ground arith
any-array_rows id j k p (v ∷ vs) = ground (arith, any-array_rows id j k p vs)

any-rows_of :
    (id j k : String) (p : String → Bool) (v : TagValue)
    → any (named k p) (rows_of id j v) ≡ (j === k && some_text p (some v))
unfolding rows_of
any-rows_of id j k p (text s) = ground arith
any-rows_of id j k p (flag b) = ground arith
any-rows_of id j k p (texts vs) = any-array_rows id j k p vs
any-rows_of id j k p undefined = ground arith

any-get_tags_insert_sql :
    (id k : String) (p : String → Bool) (tags : Tags)
    → IsFunctional tags
    → any (named k p) (get_tags_insert_sql id tags) ≡ some_text p (lookup k tags)
unfolding get_tags_insert_sql
any-get_tags_insert_sql id k p [] h = refl
any-get_tags_insert_sql id k p ((j, v) ∷ tags) (new, h) =
    any-append (named k p) (rows_of id j v) (get_tags_insert_sql id tags)
    ∙ rw (any-rows_of id j k p v, any-get_tags_insert_sql id k p tags h)
        (elim (Bool-cases (j === k)) [
          | inl e ↦
              let same : j ≡ k = ground (arith, eq_iff j k) in
              let gone : lookup k tags ≡ none = rw (sym same) new in rw (e, gone) (ground arith)
          | inr e ↦ rw e refl
        ])

pub exists_row_lem :
    (table : List TagRow) (i : Item) (tags : Tags) (k : String) (p : String → Bool)
    → IsFunctional tags
    → IsTagged table i tags
    → exists_row table i k p ≡ some_text p (lookup k tags)
exists_row_lem table i tags k p h tagged =
    exists_row-keep table i k p
    ∙ (ap (any (named k p)) tagged ∙ any-get_tags_insert_sql i.id k p tags h)

-- Values that the rows tell apart as the tags do. A row has the text of a Boolean, a list has a row
-- for each text, and the class takes a list of texts in a query as a choice among them.
abbrev pub is_told : Option TagValue → TagValue → Bool
is_told none v = true
is_told (some undefined) v = true
is_told (some (text s)) (text t) = true
is_told (some (text s)) undefined = true
is_told (some (flag b)) (flag c) = true
is_told (some (flag b)) undefined = true
is_told (some (texts (x ∷ xs))) undefined = true
is_told (some (texts xs)) (texts (x ∷ [])) = true
is_told _ (texts []) = true
is_told _ _ = false

text-told :
    (t : Option TagValue) (s : String)
    → is_told t (text s) ≡ true
    → some_text (λ x. x === s) t ≡ tag_matches t (text s)
text-told none s h = refl
text-told (some undefined) s h = refl
text-told (some (text x)) s h = refl
text-told (some (flag b)) s h = absurd (ground arith)
text-told (some (texts [])) s h = absurd (ground arith)
text-told (some (texts (x ∷ xs))) s h = absurd (ground arith)

flag-told :
    (t : Option TagValue) (b : Bool)
    → is_told t (flag b) ≡ true
    → some_text (λ x. x === flag_text b) t ≡ tag_matches t (flag b)
flag-told none b h = refl
flag-told (some undefined) b h = refl
flag-told (some (text x)) b h = absurd (ground arith)
flag-told (some (flag true)) true h = refl
flag-told (some (flag true)) false h = refl
flag-told (some (flag false)) true h = refl
flag-told (some (flag false)) false h = refl
flag-told (some (texts [])) b h = absurd (ground arith)
flag-told (some (texts (x ∷ xs))) b h = absurd (ground arith)

undefined-told :
    (t : Option TagValue)
    → is_told t undefined ≡ true
    → not (some_text (λ x. true) t) ≡ tag_matches t undefined
undefined-told none h = refl
undefined-told (some undefined) h = refl
undefined-told (some (text x)) h = refl
undefined-told (some (flag b)) h = refl
undefined-told (some (texts [])) h = absurd (ground arith)
undefined-told (some (texts (x ∷ xs))) h = refl

any-ext :
    (p q : String → Bool) (xs : List String) → ((x : String) → p x ≡ q x) → any p xs ≡ any q xs
any-ext p q [] h = refl
any-ext p q (x ∷ xs) h = rw (h x, any-ext p q xs h) refl

any-false : (xs : List String) → any (λ x. false) xs ≡ false
any-false [] = refl
any-false (x ∷ xs) = any-false xs

abbrev one_of : List String → String → Bool
one_of vs x = any (λ v. x === v) vs

texts-told :
    (t : Option TagValue) (vs : List String)
    → is_told t (texts vs) ≡ true
    → some_text (one_of vs) t ≡ tag_matches t (texts vs)
texts-told none [] h = refl
texts-told none (v ∷ vs) h = refl
texts-told (some undefined) [] h = refl
texts-told (some undefined) (v ∷ vs) h = refl
texts-told (some (text x)) [] h = refl
texts-told (some (text x)) (v ∷ []) h = absurd (ground arith)
texts-told (some (text x)) (v ∷ w ∷ vs) h = absurd (ground arith)
texts-told (some (flag b)) [] h = refl
texts-told (some (flag b)) (v ∷ []) h = absurd (ground arith)
texts-told (some (flag b)) (v ∷ w ∷ vs) h = absurd (ground arith)
texts-told (some (texts xs)) [] h = any-false xs
texts-told (some (texts xs)) (v ∷ []) h =
    rw (any-ext (one_of (v ∷ [])) (λ x. x === v) xs (λ x. ground arith)) (ground arith)
texts-told (some (texts [])) (v ∷ w ∷ vs) h = absurd (ground arith)
texts-told (some (texts (x ∷ xs))) (v ∷ w ∷ vs) h = absurd (ground arith)

-- The test of a condition on a tag.
abbrev pub tag_test : TagValue → Option TagValue → Bool
tag_test (text s) t = some_text (λ x. x === s) t
tag_test (flag b) t = some_text (λ x. x === flag_text b) t
tag_test (texts vs) t = some_text (λ x. any (λ v. x === v) vs) t
tag_test undefined t = not (some_text (λ x. true) t)

-- On values that the rows tell apart, the condition on a tag is the test that Ionic storage makes.
pub tag_test-tag_matches :
    (t : Option TagValue) (v : TagValue) → is_told t v ≡ true → tag_test v t ≡ tag_matches t v
tag_test-tag_matches t (text s) h = text-told t s h
tag_test-tag_matches t (flag b) h = flag-told t b h
tag_test-tag_matches t (texts vs) h = texts-told t vs h
tag_test-tag_matches t undefined h = undefined-told t h
