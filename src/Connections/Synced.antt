-- ===== src/Connections/Synced.antt =====
-- The contacts that are read from KERIA, and any sequence of the operations.
use veridian_wallet.Base.{
  ◌≡◌, refl, true, Option, none, some, List, [], ◌∷◌, ◌++◌, String, All-append, Result, ok,
}
use veridian_wallet.Base.Dict.{Dict}
use veridian_wallet.Records.{has, find_by_id}
use veridian_wallet.Records.Laws.{has-absent, save-ok}
use veridian_wallet.Connections.{
  ConnectionPairRecord, contact_class, pair_class, pair_id, ConnectionError, Contacts,
  ConnectionMetadata, create_connection_metadata, ContactsClient, mark_connection_pending_delete,
  delete_stale_local_connection_by_id, delete_connection_by_id_and_identifier, CloudContact,
  synced_contact, synced_pair, sync_keria_contacts, sync_contact, sync_fields, sync_pair,
  save_absent_pair, sync_field, aid_of_key,
}
use veridian_wallet.Connections.Links.{IsLinkedTo, is_of_contact}
use veridian_wallet.Connections.Steps.{IsLinked, delete_connection_by_id_and_identifier-IsLinked}
use veridian_wallet.Connections.Reached.{
  save_absent_contact-IsLinked, create_connection_metadata-IsLinked,
  mark_connection_pending_delete-IsLinked, delete_stale_local_connection_by_id-IsLinked,
}

module _ {K : Type 0} where
  -- It ends without an error in a linked state.
  abbrev pub EndsLinked : Result ConnectionError (Unit {0}) × Contacts K → Type 0
  EndsLinked x = (t : Contacts K) × (x ≡ (ok tt, t)) × IsLinked t

  abbrev HasContact : String → Result ConnectionError (Unit {0}) × Contacts K → Type 0
  HasContact c x =
      (t : Contacts K) × (x ≡ (ok tt, t)) × IsLinked t × (has contact_class c t.contacts ≡ true)

  sync_pair-HasContact :
      (p : ConnectionPairRecord) (s : Contacts K)
      → IsLinked s
      → has contact_class p.contact_id s.contacts ≡ true
      → HasContact p.contact_id (sync_pair p s)
  sync_pair-HasContact p s h there = here (find_by_id pair_class p.id s.pairs) refl
    where
      here :
          (o : Option ConnectionPairRecord)
          → find_by_id pair_class p.id s.pairs ≡ o
          → HasContact p.contact_id (save_absent_pair p o s)
      here none e = (
        record s { pairs = s.pairs ++ (p ∷ []) },
        rw (save-ok pair_class p s.pairs (has-absent pair_class p.id s.pairs e)) refl,
        All-append (IsLinkedTo s.contacts) s.pairs (p ∷ []) h (there, tt),
        there,
      )
      here (some q) e = (s, refl, h, there)

  module _ (now : String) (date : String → String) where
    sync_fields-HasContact :
        (c : CloudContact) (fields : Dict String) (s : Contacts K)
        → IsLinked s
        → has contact_class c.id s.contacts ≡ true
        → HasContact c.id (sync_fields now date c fields s)
    unfolding sync_fields
    sync_fields-HasContact c [] s h there = (s, refl, h, there)
    sync_fields-HasContact c ((key, value) ∷ fields) s h there =
        let (t, e, linked, still) = here (aid_of_key key) in
        rw e (sync_fields-HasContact c fields t linked still)
      where
        here : (o : Option String) → HasContact c.id (sync_field now date c value o s)
        here none = (s, refl, h, there)
        here (some aid) = sync_pair-HasContact (synced_pair now date c aid value) s h there

    sync_contact-IsLinked :
        (c : CloudContact) (s : Contacts K) → IsLinked s → EndsLinked (sync_contact now date c s)
    unfolding sync_contact
    sync_contact-IsLinked c s h =
        let (t, e, linked, there) = save_absent_contact-IsLinked (synced_contact now date c) s h in
        let (u, f, linked_u, still) = sync_fields-HasContact c c.fields t linked there in
        (u, rw (e, f) refl, linked_u)

    pub sync_keria_contacts-IsLinked :
        (cs : List CloudContact) (s : Contacts K)
        → IsLinked s
        → EndsLinked (sync_keria_contacts now date cs s)
    unfolding sync_keria_contacts
    sync_keria_contacts-IsLinked [] s h = (s, refl, h)
    sync_keria_contacts-IsLinked (c ∷ cs) s h =
        let (t, e, linked) = sync_contact-IsLinked c s h in
        rw e (sync_keria_contacts-IsLinked cs t linked)

  -- The states that any number of the operations leads to, with or without an error; what is deleted
  -- under an identifier and a contact is a pair of that contact.
  pub data Reached (client : ContactsClient K) (s : Contacts K) : Contacts K → Type 0 where
    initial : Reached client s s
    created :
        (t : Contacts K) (id : String) (m : ConnectionMetadata)
        → Reached client s t
        → Reached client s (create_connection_metadata id m t).1
    marked :
        (t : Contacts K) (c i : String)
        → Reached client s t
        → Reached client s (mark_connection_pending_delete c i t).1
    stale_deleted :
        (t : Contacts K) (c i : String)
        → Reached client s t
        → Reached client s (delete_stale_local_connection_by_id c i t).1
    deleted :
        (t : Contacts K) (c i : String)
        → ((p : ConnectionPairRecord)
            → find_by_id pair_class (pair_id i c) t.pairs ≡ some p
            → is_of_contact c p ≡ true)
        → Reached client s t
        → Reached client s (delete_connection_by_id_and_identifier client c i t).1
    synced :
        (t : Contacts K) (now : String) (date : String → String) (cs : List CloudContact)
        → Reached client s t
        → Reached client s (sync_keria_contacts now date cs t).1

  -- When the contact of each pair is on record, it is so after any number of connections that are
  -- made, marked, deleted (each under the contact of its pair), deleted as stale and read from KERIA,
  -- whatever KERIA answers and where an operation stops at an error.
  pub Reached-IsLinked :
      (client : ContactsClient K) (s t : Contacts K) → IsLinked s → Reached client s t → IsLinked t
  Reached-IsLinked client s t h initial = h
  Reached-IsLinked client s t h (created u id m r) =
      create_connection_metadata-IsLinked id m u (Reached-IsLinked client s u h r)
  Reached-IsLinked client s t h (marked u c i r) =
      mark_connection_pending_delete-IsLinked c i u (Reached-IsLinked client s u h r)
  Reached-IsLinked client s t h (stale_deleted u c i r) =
      delete_stale_local_connection_by_id-IsLinked c i u (Reached-IsLinked client s u h r)
  Reached-IsLinked client s t h (deleted u c i own r) =
      delete_connection_by_id_and_identifier-IsLinked client c i u own
        (Reached-IsLinked client s u h r)
  Reached-IsLinked client s t h (synced u now date cs r) =
      let (v, e, linked) =
        sync_keria_contacts-IsLinked now date cs u (Reached-IsLinked client s u h r) in
      rw e linked
