-- ===== src/Connections/Listed.antt =====
-- The list of the connections.
use veridian_wallet.Base.{
  ◌≡◌, refl, sym, inl, inr, Bool, Bool-cases, true, false, not, ◌&&◌, ◌||◌, Option, none, some,
  List, [], ◌∷◌, String, All-keep, keep, keep-ext, any, arith, ◌===◌, ok, err,
}
use mathlib.Core.Path.{subst}
use veridian_wallet.Storage.{flag}
use veridian_wallet.Storage.Query.{tag, flag_eq, check_query}
use veridian_wallet.Records
use veridian_wallet.Records.{has, find_by_id, remove}
use veridian_wallet.Records.Laws.{has-find, same_string}
use veridian_wallet.Connections.{
  ContactRecord, ConnectionPairRecord, contact_class, pair_tags, record_does_not_exist, Contacts,
  ConnectionShortDetails, pair_details, get_connection_short_details, details_of_pairs,
  of_identifier, get_connections, ContactsClient, deleted, delete_multisig_connection_by_id,
}
use veridian_wallet.Connections.Links.{AreLinked, IsLinkedTo, is_of_contact}
use veridian_wallet.Connections.Steps.{IsLinked}

-- Not marked for deletion, and of the identifier when there is one.
abbrev pub is_listed : Option String → ConnectionPairRecord → Bool
is_listed none p = not p.pending_deletion
is_listed (some i) p = not p.pending_deletion && (i === "" || p.identifier === i)

-- Each of the pairs, in order, as what is listed of it and of its contact.
abbrev pub Describe :
    List ContactRecord → List ConnectionPairRecord → List ConnectionShortDetails → Type 0
Describe cs [] [] = Unit
Describe cs [] (d ∷ ds) = ⊥
Describe cs (p ∷ ps) [] = ⊥
Describe cs (p ∷ ps) (d ∷ ds) =
    ((c : ContactRecord) × (find_by_id contact_class p.contact_id cs ≡ some c)
      × (d ≡ get_connection_short_details (pair_details c p)))
    × Describe cs ps ds

is_listed_lem :
    (identifier : Option String) (p : ConnectionPairRecord)
    → check_query (pair_tags p) (tag "pendingDeletion" (flag false) (of_identifier identifier))
      ≡ is_listed identifier p
unfolding check_query
is_listed_lem none p = flag_test p.pending_deletion
  where
    flag_test : (b : Bool) → (flag_eq b false && true) ≡ not b
    flag_test true = refl
    flag_test false = refl
is_listed_lem (some i) p = elim (Bool-cases (i === "")) [
  | inl e ↦ rw e (flag_and_true p.pending_deletion)
  | inr e ↦ rw e (flag_and p.pending_deletion (p.identifier === i))
]
  where
    flag_and_true : (b : Bool) → (flag_eq b false && true) ≡ (not b && true)
    flag_and_true true = refl
    flag_and_true false = refl

    flag_and : (b c : Bool) → (flag_eq b false && (c && true)) ≡ (not b && c)
    flag_and true c = refl
    flag_and false true = refl
    flag_and false false = refl

details_of_pairs-Describe :
    (cs : List ContactRecord) (ps : List ConnectionPairRecord)
    → AreLinked cs ps
    → (ds : List ConnectionShortDetails) × (details_of_pairs cs ps ≡ ok ds) × Describe cs ps ds
unfolding details_of_pairs
details_of_pairs-Describe cs [] h = ([], refl, tt)
details_of_pairs-Describe cs (p ∷ ps) (here, h) =
    let (ds, e, described) = details_of_pairs-Describe cs ps h in
    let (c, found) = has-find contact_class p.contact_id cs here in
    let d = get_connection_short_details (pair_details c p) in
    (d ∷ ds, rw (found, e) refl, ((c, found, refl), described))

module _ {K : Type 0} where
  -- When the contact of each pair is on record, the list of the connections, of all identifiers or of
  -- one, is returned: it has one entry for each pair that is not marked for deletion, in their order,
  -- which is made of the pair and of its contact.
  pub get_connections-Describe :
      (identifier : Option String) (s : Contacts K)
      → IsLinked s
      → (ds : List ConnectionShortDetails) × (get_connections identifier s ≡ ok ds)
        × Describe s.contacts (keep (is_listed identifier) s.pairs) ds
  unfolding get_connections
  get_connections-Describe identifier s h =
      rw (keep-ext _ (is_listed identifier) s.pairs (is_listed_lem identifier)) (
        details_of_pairs-Describe s.contacts (keep (is_listed identifier) s.pairs)
          (All-keep (IsLinkedTo s.contacts) (is_listed identifier) s.pairs h))

-- A pair that is listed, of a contact that is not on record.
abbrev pub is_orphan : List ContactRecord → ConnectionPairRecord → Bool
is_orphan cs p = not (has contact_class p.contact_id cs)

find-absent :
    (k : String) (cs : List ContactRecord)
    → has contact_class k cs ≡ false
    → find_by_id contact_class k cs ≡ none
find-absent k [] h = refl
find-absent k (c ∷ cs) h =
    let apart : (c.id === k) ≡ false = ground arith in rw apart (find-absent k cs (ground arith))

details_of_pairs-orphan :
    (cs : List ContactRecord) (ps : List ConnectionPairRecord)
    → any (is_orphan cs) ps ≡ true
    → details_of_pairs cs ps ≡ err record_does_not_exist
unfolding details_of_pairs
details_of_pairs-orphan cs [] h = absurd (cc)
details_of_pairs-orphan cs (p ∷ ps) h = elim (Bool-cases (has contact_class p.contact_id cs)) [
  | inl e ↦
      let (c, found) = has-find contact_class p.contact_id cs e in
      rw (found, details_of_pairs-orphan cs ps (ground arith)) refl
  | inr e ↦ rw (find-absent p.contact_id cs e) refl
]

orphans :
    (id : String) (cs : List ContactRecord) (test : ConnectionPairRecord → Bool)
    (ps : List ConnectionPairRecord)
    → has contact_class id cs ≡ false
    → any (λ p. is_of_contact id p && test p) ps ≡ true
    → any (is_orphan cs) (keep test ps) ≡ true
orphans id cs test [] gone h = absurd (cc)
orphans id cs test (p ∷ ps) gone h = elim (Bool-cases (is_of_contact id p && test p)) [
  | inl e ↦
      let same : is_of_contact id p ≡ true = ground arith in
      let kept : test p ≡ true = ground arith in
      let lost : has contact_class p.contact_id cs ≡ false =
        subst (λ k. has contact_class k cs ≡ false) (sym (same_string p.contact_id id same)) gone in
      rw (kept, lost) refl
  | inr e ↦
      let rest = orphans id cs test ps gone (ground arith) in
      elim (Bool-cases (test p)) [
        | inl f ↦ rw (f, rest) (or_true (is_orphan cs p))
        | inr f ↦ rw f rest
      ]
]
  where
    or_true : (b : Bool) → (b || true) ≡ true
    or_true true = refl
    or_true false = refl

has-removed :
    (id : String) (cs : List ContactRecord)
    → has contact_class id (remove contact_class id cs) ≡ false
has-removed id [] = refl
has-removed id (c ∷ cs) = elim (Bool-cases (c.id === id)) [
  | inl e ↦ rw e (has-removed id cs)
  | inr e ↦ rw (e, e) (has-removed id cs)
]

module _ {K : Type 0} where
  -- When a contact is deleted as one of a group, which KERIA does, although a pair that is not marked
  -- for deletion is of it, the deletion returns without an error, and listing the connections throws
  -- afterwards that a record does not exist.
  pub delete_multisig_connection_by_id-orphan :
      (client : ContactsClient K) (id : String) (s : Contacts K) (k : K)
      → client.delete id s.cloud ≡ (deleted, k)
      → has contact_class id s.contacts ≡ true
      → any (λ p. is_of_contact id p && is_listed none p) s.pairs ≡ true
      → (delete_multisig_connection_by_id client id s).0 ≡ ok tt
        × (get_connections none (delete_multisig_connection_by_id client id s).1
            ≡ err record_does_not_exist)
  unfolding delete_multisig_connection_by_id get_connections Records.delete_by_id
  delete_multisig_connection_by_id-orphan client id s k gone there pair =
      let left = remove contact_class id s.contacts in
      rw (gone, there, keep-ext _ (is_listed none) s.pairs (is_listed_lem none))
        (
          refl,
          details_of_pairs-orphan left (keep (is_listed none) s.pairs)
              (orphans id left (is_listed none) s.pairs (has-removed id s.contacts) pair),
        )
