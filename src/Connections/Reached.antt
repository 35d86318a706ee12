-- ===== src/Connections/Reached.antt =====
-- The states that the operations on connections lead to.
use veridian_wallet.Base.{
  ◌≡◌, refl, sym, ◌∙◌, inl, inr, Bool, Bool-cases, true, false, Option, none, some, List, [], ◌∷◌,
  ◌++◌, String, All-append, keep, Result, ok, err, eq_refl, ◌||◌, ◌===◌, if◌then◌else◌,
}
use mathlib.Core.Path.{subst}
use veridian_wallet.Base.States.{continue, ◌>>◌, pure}
use veridian_wallet.Storage.{already_exists}
use veridian_wallet.Records
use veridian_wallet.Records.{has, find_by_id, remove, replace, is_under}
use veridian_wallet.Records.Laws.{find-has, has-absent, has-put, save-ok, update-ok}
use veridian_wallet.Connections.{
  ContactRecord, ConnectionPairRecord, contact_class, pair_class, pair_id, find_by_contact_id,
  ConnectionError, connection_removed, expected, Contacts, in_pairs, ConnectionMetadata,
  new_contact, new_pair, is_falsy_text, create_connection_metadata, save_absent_contact, save_pair,
  delete_pair, without_pairs, mark_connection_pending_delete, delete_stale_local_connection_by_id,
}
use veridian_wallet.Connections.Links.{
  AreLinked, IsLinkedTo, is_of_contact, keep-empty, found-All, find_by_contact_id_lem,
  AreLinked-put,
}
use veridian_wallet.Connections.Steps.{IsLinked, delete_pair-IsLinked, delete_contact-IsLinked}

AreLinked-replace :
    (p : ConnectionPairRecord) (cs : List ContactRecord) (ps : List ConnectionPairRecord)
    → IsLinkedTo cs p
    → AreLinked cs ps
    → AreLinked cs (replace pair_class p ps)
AreLinked-replace p cs [] here h = tt
AreLinked-replace p cs (q ∷ ps) here (first, h) = elim (Bool-cases (q.id === p.id)) [
  | inl e ↦ rw e (here, AreLinked-replace p cs ps here h)
  | inr e ↦ rw e (first, AreLinked-replace p cs ps here h)
]

or_true : (b : Bool) → (b || true) ≡ true
or_true true = refl
or_true false = refl

module _ {K : Type 0} where
  -- Saving a contact that is not there keeps the links, and leaves the contact on record.
  pub save_absent_contact-IsLinked :
      (c : ContactRecord) (s : Contacts K)
      → IsLinked s
      → (t : Contacts K) × (save_absent_contact c (find_by_id contact_class c.id s.contacts) s
          ≡ (ok tt, t))
        × IsLinked t
        × (has contact_class c.id t.contacts ≡ true)
  save_absent_contact-IsLinked c s h = here (find_by_id contact_class c.id s.contacts) refl
    where
      here :
          (o : Option ContactRecord)
          → find_by_id contact_class c.id s.contacts ≡ o
          → (t : Contacts K) × (save_absent_contact c o s ≡ (ok tt, t))
            × IsLinked t
            × (has contact_class c.id t.contacts ≡ true)
      here none e =
          let t = record s { contacts = s.contacts ++ (c ∷ []) } in
          (
            t,
            rw (save-ok contact_class c s.contacts (has-absent contact_class c.id s.contacts e))
                refl,
            AreLinked-put c s.contacts s.pairs h,
            has-put contact_class c.id s.contacts c
                ∙ rw (eq_refl c.id) (or_true (has contact_class c.id s.contacts)),
          )
      here (some d) e = (s, refl, h, (find-has contact_class c.id s.contacts d e).0)

  pub save_pair-IsLinked :
      (p : ConnectionPairRecord) (s : Contacts K)
      → has contact_class p.contact_id s.contacts ≡ true
      → IsLinked s
      → IsLinked (save_pair p s).1
  unfolding Records.save
  save_pair-IsLinked p s there h = here (has pair_class p.id s.pairs)
    where
      here :
          (b : Bool)
          → IsLinked
              (in_pairs s (
                if b then (err (already_exists p.id), s.pairs) else (ok tt, s.pairs ++ (p ∷ [])))).1
      here true = h
      here false = All-append (IsLinkedTo s.contacts) s.pairs (p ∷ []) h (there, tt)

  pub create_connection_metadata-IsLinked :
      (id : String) (m : ConnectionMetadata) (s : Contacts K)
      → IsLinked s
      → IsLinked (create_connection_metadata id m s).1
  unfolding create_connection_metadata
  create_connection_metadata-IsLinked id m s h =
      let (t, e, linked, there) = save_absent_contact-IsLinked (new_contact id m) s h in
      rw e (then_pair t linked there (is_falsy_text m.group_id))
    where
      then_pair :
          (t : Contacts K)
          → IsLinked t
          → has contact_class id t.contacts ≡ true
          → (b : Bool) → IsLinked ((if b then save_pair (new_pair id m) else pure tt) t).1
      then_pair t linked there true = save_pair-IsLinked (new_pair id m) t there linked
      then_pair t linked there false = linked

  pub mark_connection_pending_delete-IsLinked :
      (c i : String) (s : Contacts K)
      → IsLinked s
      → IsLinked (mark_connection_pending_delete c i s).1
  unfolding mark_connection_pending_delete
  mark_connection_pending_delete-IsLinked c i s h =
      here (find_by_id pair_class (pair_id i c) s.pairs) refl
    where
      marked : ConnectionPairRecord → ConnectionPairRecord
      marked p = record p { pending_deletion = true }

      here :
          (o : Option ConnectionPairRecord)
          → find_by_id pair_class (pair_id i c) s.pairs ≡ o
          → IsLinked
              (continue
                (λ p.
                  (λ t.
                    in_pairs t
                      (Records.update pair_class (record p { pending_deletion = true }) t.pairs))
                  >> (λ t. (ok tt, record t { events = connection_removed c i ∷ t.events })))
                (expected o, s)).1
      here none e = h
      here (some p) e =
          let (there, id) = find-has pair_class (pair_id i c) s.pairs p e in
          let there_again = subst (λ k. has pair_class k s.pairs ≡ true) (sym id) there in
          let linked = found-All (IsLinkedTo s.contacts) (pair_id i c) p s.pairs h e in
          rw (update-ok pair_class (marked p) s.pairs there_again)
            (AreLinked-replace (marked p) s.contacts s.pairs linked h)

  pub delete_stale_local_connection_by_id-IsLinked :
      (c i : String) (s : Contacts K)
      → IsLinked s
      → IsLinked (delete_stale_local_connection_by_id c i s).1
  unfolding delete_stale_local_connection_by_id
  delete_stale_local_connection_by_id-IsLinked c i s h =
      after (delete_pair (pair_id i c) s) (delete_pair-IsLinked (pair_id i c) s h)
    where
      no_pairs :
          (t : Contacts K) (l : List ConnectionPairRecord)
          → keep (is_of_contact c) t.pairs ≡ l
          → IsLinked t
          → IsLinked (without_pairs c l t).1
      no_pairs t [] e linked = delete_contact-IsLinked c t (keep-empty c t.pairs e) linked
      no_pairs t (p ∷ ps) e linked = linked

      after :
          (x : Result ConnectionError (Unit {0}) × Contacts K)
          → IsLinked x.1
          → IsLinked (continue (λ u t. without_pairs c (find_by_contact_id c t.pairs) t) x).1
      after (err e, t) linked = linked
      after (ok u, t) linked =
          no_pairs t (find_by_contact_id c t.pairs) (sym (find_by_contact_id_lem c t.pairs)) linked
