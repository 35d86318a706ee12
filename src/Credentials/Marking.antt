-- ===== src/Credentials/Marking.antt =====
-- A credential that is marked for deletion, from the archive to its removal.
use veridian_wallet.Base.{
  ◌≡◌, refl, sym, ap, ◌∙◌, inl, inr, Bool, Bool-cases, true, false, some, [], ◌∷◌, String, keep, ok,
  ◌===◌, if◌then◌else◌,
}
use veridian_wallet.Base.States.{◌>>◌, pure, throw}
use veridian_wallet.Records.{has, find_by_id, replace}
use veridian_wallet.Records.Laws.{find-has, has-replace, update-ok, AreDistinct, same_string}
use veridian_wallet.Credentials.{
  CredentialMetadataRecord, Stored, credential_class, CredentialUpdate, Client, Wallet,
  credential_removed, credential_not_archived, valid_archived_credential, get_metadata_by_id,
  update_credential_metadata, updated, no_update, mark_credential_pending_deletion,
  remove_credentials_pending_deletion,
}
use veridian_wallet.Credentials.Deletion.{Deletes, is_kept, remove_credentials_pending_deletion_lem}

abbrev pub marked : CredentialMetadataRecord → CredentialMetadataRecord
marked r = record r { pending_deletion = true }

abbrev put_marked : CredentialMetadataRecord → Stored → Stored
put_marked r rs = replace credential_class (marked r) rs

AreDistinct-replace :
    (r : CredentialMetadataRecord) (rs : Stored)
    → AreDistinct credential_class rs
    → AreDistinct credential_class (replace credential_class r rs)
AreDistinct-replace r [] d = tt
AreDistinct-replace r (s ∷ rs) (new, d) = elim (Bool-cases (s.id === r.id)) [
  | inl e ↦
      let apart : has credential_class r.id (replace credential_class r rs) ≡ false =
        has-replace credential_class r.id rs r
        ∙ (ap (λ k. has credential_class k rs) (sym (same_string s.id r.id e)) ∙ new) in
      rw e (apart, AreDistinct-replace r rs d)
  | inr e ↦ rw e (has-replace credential_class s.id rs r ∙ new, AreDistinct-replace r rs d)
]

-- With a test in place of the flag, since the records are rebuilt.
put-keep :
    (test : CredentialMetadataRecord → Bool) (r : CredentialMetadataRecord) (rs : Stored)
    → test r ≡ false
    → has credential_class r.id (keep test (replace credential_class r rs)) ≡ false
put-keep test r [] h = refl
put-keep test r (s ∷ rs) h = elim (Bool-cases (s.id === r.id)) [
  | inl e ↦ rw (e, h) (put-keep test r rs h)
  | inr e ↦ elim (Bool-cases (test s)) [
    | inl f ↦ rw (e, f, e) (put-keep test r rs h)
    | inr f ↦ rw (e, f) (put-keep test r rs h)
  ]
]

update_credential_metadata_lem :
    (r : CredentialMetadataRecord) (u : CredentialUpdate) (rs : Stored)
    → find_by_id credential_class r.id rs ≡ some r
    → update_credential_metadata r.id u rs ≡ (ok tt, replace credential_class (updated u r) rs)
unfolding update_credential_metadata
update_credential_metadata_lem r u rs found =
    let there = find-has credential_class r.id rs r found in
    rw found (update-ok credential_class (updated u r) rs there.0)

module _ {K : Type 0} where
  mark_credential_pending_deletion_lem :
      (r : CredentialMetadataRecord) (w : Wallet K)
      → find_by_id credential_class r.id w.stored ≡ some r
      → r.is_archived ≡ true
      → mark_credential_pending_deletion r.id w ≡ (
        ok tt,
        record w { stored = put_marked r w.stored; events = credential_removed r.id ∷ w.events },
      )
  unfolding mark_credential_pending_deletion get_metadata_by_id
  mark_credential_pending_deletion_lem r w found archived =
      let u = record no_update { pending_deletion = some true } in
      let valid : valid_archived_credential r ≡ pure {S = Wallet K} tt =
        ap (λ b. if b then pure tt else throw (credential_not_archived r.id)) archived in
      rw (found, valid, update_credential_metadata_lem r u w.stored found) refl

  -- An archived credential that is marked for deletion is off the record after the next pass, when
  -- KERIA deletes what it is asked to or has it no more, and neither step returns an error.
  pub mark_credential_pending_deletion-remove :
      (client : Client K) (r : CredentialMetadataRecord) (w : Wallet K)
      → find_by_id credential_class r.id w.stored ≡ some r
      → r.is_archived ≡ true
      → ((id : String) (k : K) → Deletes (client.delete id k))
      → AreDistinct credential_class w.stored
      → (v : Wallet K) × ((mark_credential_pending_deletion r.id
              >> remove_credentials_pending_deletion client)
            w
          ≡ (ok tt, v))
        × (has credential_class r.id v.stored ≡ false)
  mark_credential_pending_deletion-remove client r w found archived answers d =
      let x = record w {
        stored = put_marked r w.stored;
        events = credential_removed r.id ∷ w.events;
      } in
      let (k, e) =
        remove_credentials_pending_deletion_lem client x answers
          (AreDistinct-replace (marked r) w.stored d) in
      (
        record x { stored = keep is_kept x.stored; cloud = k },
        rw (mark_credential_pending_deletion_lem r w found archived) e,
        put-keep is_kept (marked r) w.stored refl,
      )
