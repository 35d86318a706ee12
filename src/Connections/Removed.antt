-- ===== src/Connections/Removed.antt =====
-- The removal of the connections that are marked for deletion.
use veridian_wallet.Base.{
  ◌≡◌, refl, sym, ap, ◌∙◌, Bool, true, false, not, ◌&&◌, some, List, [], ◌∷◌, String, All, All-keep,
  keep, keep-ext, Result, ok,
}
use mathlib.Core.Path.{subst}
use veridian_wallet.Storage.Query.{flag_eq, check_query}
use veridian_wallet.Records.{has, find_by_id, remove}
use veridian_wallet.Records.Laws.{AreDistinct, has-find, find-has}
use veridian_wallet.Records.Removal.{without, ArePresent, without-keep}
use veridian_wallet.Connections.{
  ConnectionPairRecord, contact_class, pair_class, pair_id, find_by_contact_id,
  get_connections_pending_deletion, is_single, ConnectionError, Contacts, DeleteReply, deleted,
  not_there, GetReply, contact_keys, get_not_there, ContactsClient, is_of_identifier,
  delete_contact_of, delete_connection_by_id_and_identifier, delete_pairs,
  remove_connections_pending_deletion,
}
use veridian_wallet.Connections.Steps.{delete_by_id_if_exists_lem, delete_pair-ok}

-- KERIA deletes the contact, or has none under the identifier.
pub data Deletes {K : Type 0} (x : DeleteReply × K) : Type 0 where
  deletes : (k : K) → x ≡ (deleted, k) → Deletes x
  deletes_none : (k : K) → x ≡ (not_there, k) → Deletes x

-- KERIA gives the contact, or has none under the identifier.
pub data Gets {K : Type 0} (x : GetReply × K) : Type 0 where
  gets_contact : (ks : List String) (k : K) → x ≡ (contact_keys ks, k) → Gets x
  gets_none : (k : K) → x ≡ (get_not_there, k) → Gets x

-- KERIA answers every request.
pub record Answers {K : Type 0} (client : ContactsClient K) : Type 0 where
  pub on_delete : (id : String) (k : K) → Deletes (client.delete id k)
  pub on_get : (id : String) (k : K) → Gets (client.get id k)
  pub on_clear :
      (id : String) (ks : List String) (k : K) → (l : K) × (client.clear id ks k ≡ (ok tt, l))

-- The identifier of a pair is made of the two that it pairs.
abbrev pub IsKeyed : ConnectionPairRecord → Type 0
IsKeyed p = p.id ≡ pair_id p.identifier p.contact_id

abbrev pub is_pending : ConnectionPairRecord → Bool
is_pending p = p.pending_deletion

abbrev pub is_kept : ConnectionPairRecord → Bool
is_kept p = not p.pending_deletion

get_connections_pending_deletion_lem :
    (ps : List ConnectionPairRecord) → get_connections_pending_deletion ps ≡ keep is_pending ps
unfolding get_connections_pending_deletion check_query
get_connections_pending_deletion_lem ps =
    keep-ext _ is_pending ps (λ p. flag_test p.pending_deletion)
  where
    flag_test : (b : Bool) → (flag_eq b true && true) ≡ b
    flag_test true = refl
    flag_test false = refl

module _ {K : Type 0} (client : ContactsClient K) (answers : Answers client) where
  -- It ends without an error, and with these pairs.
  abbrev EndsWith :
      List ConnectionPairRecord → Result ConnectionError (Unit {0}) × Contacts K → Type 0
  EndsWith ps x = (t : Contacts K) × (x ≡ (ok tt, t)) × (t.pairs ≡ ps)

  contact-EndsWith :
      (b : Bool) (c i : String) (s : Contacts K)
      → EndsWith s.pairs (delete_contact_of client b c i s)
  contact-EndsWith true c i s = here (answers.on_delete c s.cloud)
    where
      gone : K → Contacts K
      gone k = record s { contacts = remove contact_class c s.contacts; cloud = k }

      here :
          Deletes (client.delete c s.cloud) → EndsWith s.pairs (delete_contact_of client true c i s)
      here (deletes k e) = (gone k, rw (e, delete_by_id_if_exists_lem c s.contacts) refl, refl)
      here (deletes_none k e) = (gone k, rw (e, delete_by_id_if_exists_lem c s.contacts) refl, refl)
  contact-EndsWith false c i s = here (answers.on_get c s.cloud)
    where
      here : Gets (client.get c s.cloud) → EndsWith s.pairs (delete_contact_of client false c i s)
      here (gets_contact ks k e) =
          let (l, f) = answers.on_clear c (keep (is_of_identifier i) ks) k in
          (record s { cloud = l }, rw (e, f) refl, refl)
      here (gets_none k e) = (record s { cloud = k }, rw e refl, refl)

  delete_connection-EndsWith :
      (p : ConnectionPairRecord) (s : Contacts K)
      → IsKeyed p
      → has pair_class p.id s.pairs ≡ true
      → EndsWith
          (remove pair_class p.id s.pairs)
          (delete_connection_by_id_and_identifier client p.contact_id p.identifier s)
  unfolding delete_connection_by_id_and_identifier
  delete_connection-EndsWith p s keyed there =
      let (q, found) = has-find pair_class p.id s.pairs there in
      let same = (find-has pair_class p.id s.pairs q found).1 in
      let found_key = subst (λ k. find_by_id pair_class k s.pairs ≡ some q) keyed found in
      let (t, e, pairs) =
        contact-EndsWith (is_single (find_by_contact_id p.contact_id s.pairs)) p.contact_id
          p.identifier s in
      let there_still : has pair_class q.id t.pairs ≡ true =
        subst (λ ps. has pair_class q.id ps ≡ true) (sym pairs)
          (subst (λ k. has pair_class k s.pairs ≡ true) (sym same) there) in
      (
        record t { pairs = remove pair_class q.id t.pairs },
        rw (found_key, e, delete_pair-ok q.id t there_still) refl,
        ap (λ k. remove pair_class k t.pairs) same ∙ ap (remove pair_class p.id) pairs,
      )

  delete_pairs-EndsWith :
      (ps : List ConnectionPairRecord) (s : Contacts K)
      → All IsKeyed ps
      → ArePresent pair_class ps s.pairs
      → EndsWith (without pair_class ps s.pairs) (delete_pairs client ps s)
  unfolding delete_pairs
  delete_pairs-EndsWith [] s keyed h = (s, refl, refl)
  delete_pairs-EndsWith (p ∷ ps) s (key, keyed) (here, h) =
      let (t, e, pairs) = delete_connection-EndsWith p s key here in
      let (u, f, last) =
        delete_pairs-EndsWith ps t keyed (subst (ArePresent pair_class ps) (sym pairs) h) in
      (u, rw (e, f) refl, last ∙ ap (without pair_class ps) pairs)

  -- When KERIA answers every request, the identifiers of the pairs are made of what they pair, and
  -- none stands twice, the pass over the pairs that are marked for deletion returns them without an
  -- error, and leaves the pairs on record that are not marked.
  pub remove_connections_pending_deletion_lem :
      (s : Contacts K)
      → All IsKeyed s.pairs
      → AreDistinct pair_class s.pairs
      → (t : Contacts K) × (remove_connections_pending_deletion client s
          ≡ (ok (keep is_pending s.pairs), t))
        × (t.pairs ≡ keep is_kept s.pairs)
  unfolding remove_connections_pending_deletion
  remove_connections_pending_deletion_lem s keyed distinct =
      let (left, present) = without-keep pair_class is_pending s.pairs distinct in
      let (t, e, pairs) =
        delete_pairs-EndsWith (keep is_pending s.pairs) s
          (All-keep IsKeyed is_pending s.pairs keyed) present in
      (t, rw (get_connections_pending_deletion_lem s.pairs, e) refl, pairs ∙ left)
