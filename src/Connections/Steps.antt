-- ===== src/Connections/Steps.antt =====
-- The operations keep the contact of each connection pair on record.
use veridian_wallet.Base.{
  ◌≡◌, refl, sym, ap, ◌∙◌, inl, inr, Bool, Bool-cases, true, false, not, Option, none, some, List,
  String, All, All-keep, keep, Result, ok, err, if◌then◌else◌,
}
use mathlib.Core.Path.{subst}
use veridian_wallet.Base.States.{continue, ◌>>◌}
use veridian_wallet.Storage.{does_not_exist}
use veridian_wallet.Records
use veridian_wallet.Records.{has, find_by_id, remove, is_under}
use veridian_wallet.Records.Laws.{find-has, remove_absent}
use veridian_wallet.Connections.{
  ContactRecord, ConnectionPairRecord, contact_class, pair_class, pair_id, find_by_contact_id,
  delete_by_id_if_exists, is_single, expected, Contacts, in_contacts, in_pairs, DeleteReply,
  deleted, not_there, delete_failed, GetReply, contact_keys, get_not_there, get_failed,
  ContactsClient, delete_pair, delete_contact, delete_whole, then_contacts, delete_if_exists,
  cleared, clear_keys, is_of_identifier, delete_fields, delete_contact_of,
  delete_connection_by_id_and_identifier,
}
use veridian_wallet.Connections.Links.{
  AreLinked, IsLinkedTo, is_of_contact, IsOfOther, find_by_contact_id_lem, single-others,
  AreLinked-remove,
}

pub delete_by_id_if_exists_lem :
    (c : String) (cs : List ContactRecord)
    → delete_by_id_if_exists c cs ≡ (ok tt, remove contact_class c cs)
unfolding delete_by_id_if_exists Records.delete_by_id
delete_by_id_if_exists_lem c cs = elim (Bool-cases (has contact_class c cs)) [
  | inl e ↦ rw e refl
  | inr e ↦ rw (e, remove_absent contact_class c cs e) refl
]

module _ {K : Type 0} where
  pub delete_pair-ok :
      (k : String) (s : Contacts K)
      → has pair_class k s.pairs ≡ true
      → delete_pair k s ≡ (ok tt, record s { pairs = remove pair_class k s.pairs })
  unfolding Records.delete_by_id
  delete_pair-ok k s there = rw there refl

  abbrev pub IsLinked : Contacts K → Type 0
  IsLinked s = AreLinked s.contacts s.pairs

  pub delete_pair-IsLinked :
      (k : String) (s : Contacts K) → IsLinked s → IsLinked (delete_pair k s).1
  unfolding Records.delete_by_id
  delete_pair-IsLinked k s h = here (has pair_class k s.pairs)
    where
      here :
          (b : Bool)
          → IsLinked
              (in_pairs s (
                if b
                then (ok tt, remove pair_class k s.pairs)
                else (err (does_not_exist k), s.pairs))).1
      here true = All-keep (IsLinkedTo s.contacts) (λ r. not (is_under pair_class k r)) s.pairs h
      here false = h

  pub delete_contact-IsLinked :
      (c : String) (s : Contacts K)
      → All (IsOfOther c) s.pairs
      → IsLinked s
      → IsLinked (delete_contact c s).1
  unfolding Records.delete_by_id
  delete_contact-IsLinked c s others h = here (has contact_class c s.contacts)
    where
      here :
          (b : Bool)
          → IsLinked
              (in_contacts s (
                if b
                then (ok tt, remove contact_class c s.contacts)
                else (err (does_not_exist c), s.contacts))).1
      here true = AreLinked-remove c s.contacts s.pairs h others
      here false = h

  module _ (client : ContactsClient K) where
    -- With the last pair of a contact goes the contact, and the pairs of others stay linked.
    last-IsLinked :
        (c k : String) (s : Contacts K)
        → has pair_class k s.pairs ≡ true
        → All (IsOfOther c) (remove pair_class k s.pairs)
        → IsLinked s
        → IsLinked (continue (λ u. delete_pair k) (delete_whole client c s)).1
    last-IsLinked c k s there others h = after (client.delete c s.cloud)
      where
        left : List ConnectionPairRecord
        left = remove pair_class k s.pairs

        gone :
            (x : K)
            → IsLinked
                (continue
                  (λ u. delete_pair k)
                  (delete_if_exists client c (record s { cloud = x }))).1
        gone x =
            rw
              (
                delete_by_id_if_exists_lem c s.contacts,
                delete_pair-ok k
                    (record s { contacts = remove contact_class c s.contacts; cloud = x }) there,
              )
              (AreLinked-remove c s.contacts left
                (All-keep (IsLinkedTo s.contacts) (λ r. not (is_under pair_class k r)) s.pairs h)
                others)

        after :
            (x : DeleteReply × K)
            → IsLinked
                (continue
                  (λ u. delete_pair k)
                  (then_contacts client (delete_if_exists client c) s x)).1
        after (delete_failed e, x) = h
        after (deleted, x) = gone x
        after (not_there, x) = gone x

    other-IsLinked :
        (c i k : String) (s : Contacts K)
        → IsLinked s
        → IsLinked (continue (λ u. delete_pair k) (delete_fields client c i s)).1
    other-IsLinked c i k s h = after (client.get c s.cloud)
      where
        cleared_then :
            (x : Result String (Unit {0}) × K)
            → IsLinked (continue (λ u. delete_pair k) (cleared client s x)).1
        cleared_then (ok u, y) = delete_pair-IsLinked k (record s { cloud = y }) h
        cleared_then (err e, y) = h

        after :
            (x : GetReply × K)
            → IsLinked (continue (λ u. delete_pair k) (clear_keys client c i s x)).1
        after (contact_keys ks, y) = cleared_then (client.clear c (keep (is_of_identifier i) ks) y)
        after (get_not_there, y) = delete_pair-IsLinked k (record s { cloud = y }) h
        after (get_failed e, y) = h

    delete_found-IsLinked :
        (c i : String) (p : ConnectionPairRecord) (s : Contacts K) (b : Bool)
        → b ≡ is_single (find_by_contact_id c s.pairs)
        → find_by_id pair_class (pair_id i c) s.pairs ≡ some p
        → is_of_contact c p ≡ true
        → IsLinked s
        → IsLinked (continue (λ u. delete_pair p.id) (delete_contact_of client b c i s)).1
    delete_found-IsLinked c i p s false e found same h = other-IsLinked c i p.id s h
    delete_found-IsLinked c i p s true e found same h =
        let (there, id) = find-has pair_class (pair_id i c) s.pairs p found in
        let single : is_single (keep (is_of_contact c) s.pairs) ≡ true =
          ap is_single (sym (find_by_contact_id_lem c s.pairs)) ∙ sym e in
        let found_there = subst (λ k. find_by_id pair_class k s.pairs ≡ some p) (sym id) found in
        last-IsLinked c p.id s (subst (λ k. has pair_class k s.pairs ≡ true) (sym id) there)
          (single-others p.id c p s.pairs found_there same single) h

    pub delete_connection_by_id_and_identifier-IsLinked :
        (c i : String) (s : Contacts K)
        → ((p : ConnectionPairRecord)
            → find_by_id pair_class (pair_id i c) s.pairs ≡ some p
            → is_of_contact c p ≡ true)
        → IsLinked s
        → IsLinked (delete_connection_by_id_and_identifier client c i s).1
    unfolding delete_connection_by_id_and_identifier
    delete_connection_by_id_and_identifier-IsLinked c i s own h =
        here (find_by_id pair_class (pair_id i c) s.pairs) refl
      where
        here :
            (o : Option ConnectionPairRecord)
            → find_by_id pair_class (pair_id i c) s.pairs ≡ o
            → IsLinked
                (continue
                  (λ p.
                    (λ t. delete_contact_of client (is_single (find_by_contact_id c t.pairs)) c i t)
                    >> delete_pair p.id)
                  (expected o, s)).1
        here none e = h
        here (some p) e =
            delete_found-IsLinked c i p s (is_single (find_by_contact_id c s.pairs)) refl e
              (own p e) h
