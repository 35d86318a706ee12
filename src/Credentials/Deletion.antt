-- ===== src/Credentials/Deletion.antt =====
-- The deletion of credentials that are marked for it, and of those of an identifier.
use veridian_wallet.Base.{
  ◌≡◌, refl, ap, ◌∙◌, Bool, true, false, not, ◌&&◌, [], ◌∷◌, String, keep, keep-none, keep-ext,
  Result, ok, err, if◌then◌else◌,
}
use veridian_wallet.Base.States.{continue}
use veridian_wallet.Storage.Query.{flag_eq, check_query}
use veridian_wallet.Storage.{does_not_exist}
use veridian_wallet.Records
use veridian_wallet.Records.{has, remove, is_under}
use veridian_wallet.Records.Laws.{AreDistinct}
use veridian_wallet.Records.Removal.{
  without, ArePresent, without-keep, AreHarmless, keep-remove, AreHarmless-remove, keep-AreHarmless,
}
use veridian_wallet.Credentials.{
  CredentialMetadataRecord, Stored, credential_class, get_all_credential_metadata,
  get_credentials_pending_deletion, Client, Reply, found, not_found, failed, Wallet,
  CredentialError, in_stored, after_delete, delete_credential, delete_each,
  delete_all_credentials_for_identifier, remove_credentials_pending_deletion,
}

-- Whatever is on record, deleting the credentials of an identifier returns without an error and
-- deletes none: they are looked up by a tag that no credential has.
pub delete_all_credentials_for_identifier_lem :
    {K : Type 0} (client : Client K) (identifier_id : String) (w : Wallet K)
    → delete_all_credentials_for_identifier client identifier_id w ≡ (ok tt, w)
unfolding delete_all_credentials_for_identifier get_all_credential_metadata delete_each check_query
delete_all_credentials_for_identifier_lem client identifier_id w =
    rw (keep-none (λ r. false) w.stored (λ r. refl)) refl

abbrev pub is_pending : CredentialMetadataRecord → Bool
is_pending r = r.pending_deletion

abbrev pub is_kept : CredentialMetadataRecord → Bool
is_kept r = not r.pending_deletion

flag_test : (b : Bool) → (flag_eq b true && true) ≡ b
flag_test true = refl
flag_test false = refl

get_credentials_pending_deletion_lem :
    (rs : Stored) → get_credentials_pending_deletion rs ≡ keep is_pending rs
unfolding get_credentials_pending_deletion check_query
get_credentials_pending_deletion_lem rs =
    keep-ext _ is_pending rs (λ r. flag_test r.pending_deletion)

abbrev gone : String → Stored → Stored
gone id rs = remove credential_class id rs

abbrev left_by : Stored → Stored → Stored
left_by ps rs = without credential_class ps rs

-- KERIA deletes the credential, or has none under the identifier.
pub data Deletes {K : Type 0} (x : Reply × K) : Type 0 where
  deleted : (k : K) → x ≡ (found, k) → Deletes x
  absent : (k : K) → x ≡ (not_found, k) → Deletes x

module _ {K : Type 0} (client : Client K) where
  delete_credential_lem :
      (id : String) (w : Wallet K)
      → Deletes (client.delete id w.cloud)
      → has credential_class id w.stored ≡ true
      → (k : K) × (delete_credential client id w
          ≡ (ok tt, record w { stored = gone id w.stored; cloud = k }))
  unfolding delete_credential Records.delete_by_id
  delete_credential_lem id w (deleted k e) there = (k, rw (e, there) refl)
  delete_credential_lem id w (absent k e) there = (k, rw (e, there) refl)

  delete_each_lem :
      (ps : Stored) (w : Wallet K)
      → ((id : String) (k : K) → Deletes (client.delete id k))
      → ArePresent credential_class ps w.stored
      → (k : K) × (delete_each client ps w
          ≡ (ok tt, record w { stored = left_by ps w.stored; cloud = k }))
  unfolding delete_each
  delete_each_lem [] w answers h = (w.cloud, refl)
  delete_each_lem (p ∷ ps) w answers (here, h) =
      let (k, e) = delete_credential_lem p.id w (answers p.id w.cloud) here in
      let (last, rest) =
        delete_each_lem ps (record w { stored = gone p.id w.stored; cloud = k }) answers h in
      (last, rw (e, rest) refl)

  -- When KERIA deletes what it is asked to or has it no more, the pass over the credentials that are
  -- marked for deletion returns without an error, and leaves the credentials on record that are not
  -- marked.
  pub remove_credentials_pending_deletion_lem :
      (w : Wallet K)
      → ((id : String) (k : K) → Deletes (client.delete id k))
      → AreDistinct credential_class w.stored
      → (k : K) × (remove_credentials_pending_deletion client w
          ≡ (ok tt, record w { stored = keep is_kept w.stored; cloud = k }))
  unfolding remove_credentials_pending_deletion
  remove_credentials_pending_deletion_lem w answers d =
      let (left, present) = without-keep credential_class is_pending w.stored d in
      let (k, e) = delete_each_lem (keep is_pending w.stored) w answers present in
      (
        k,
        rw (get_credentials_pending_deletion_lem w.stored)
            (e ∙ ap (λ rs. (ok tt, record w { stored = rs; cloud = k })) left),
      )

  -- Whatever KERIA answers, only what is under the identifier of `p` goes.
  delete_credential-kept :
      (p : CredentialMetadataRecord) (ps : Stored) (w : Wallet K)
      → AreHarmless credential_class is_pending w.stored (p ∷ ps)
      → (keep is_kept (delete_credential client p.id w).1.stored ≡ keep is_kept w.stored)
        × AreHarmless credential_class is_pending (delete_credential client p.id w).1.stored ps
  unfolding delete_credential Records.delete_by_id
  delete_credential-kept p ps w (here, h) = after (client.delete p.id w.cloud)
    where
      removed :
          (k : K) (b : Bool)
          → (keep is_kept
                (in_stored
                  (record w { cloud = k })
                  (if b
                    then (ok tt, gone p.id w.stored)
                    else (err (does_not_exist p.id), w.stored))).1.stored
              ≡ keep is_kept w.stored)
            × AreHarmless credential_class is_pending
                (in_stored
                  (record w { cloud = k })
                  (if b
                    then (ok tt, gone p.id w.stored)
                    else (err (does_not_exist p.id), w.stored))).1.stored
                ps
      removed k true = (
        keep-remove credential_class is_pending p w.stored here,
        AreHarmless-remove credential_class is_pending p.id w.stored ps h,
      )
      removed k false = (refl, h)

      after :
          (x : Reply × K)
          → (keep is_kept (after_delete client p.id w x).1.stored ≡ keep is_kept w.stored)
            × AreHarmless credential_class is_pending (after_delete client p.id w x).1.stored ps
      after (failed e, k) = (refl, h)
      after (found, k) = removed k (has credential_class p.id w.stored)
      after (not_found, k) = removed k (has credential_class p.id w.stored)

  delete_each-kept :
      (ps : Stored) (w : Wallet K)
      → AreHarmless credential_class is_pending w.stored ps
      → keep is_kept (delete_each client ps w).1.stored ≡ keep is_kept w.stored
  unfolding delete_each
  delete_each-kept [] w h = refl
  delete_each-kept (p ∷ ps) w h =
      let (kept, harmless) = delete_credential-kept p ps w h in
      next (delete_credential client p.id w) (λ v g. delete_each-kept ps v g) harmless ∙ kept
    where
      next :
          (x : Result CredentialError (Unit {0}) × Wallet K)
          → ((v : Wallet K)
              → AreHarmless credential_class is_pending v.stored ps
              → keep is_kept (delete_each client ps v).1.stored ≡ keep is_kept v.stored)
          → AreHarmless credential_class is_pending x.1.stored ps
          → keep is_kept (continue (λ u. delete_each client ps) x).1.stored
            ≡ keep is_kept x.1.stored
      next (ok u, v) again g = again v g
      next (err e, v) again g = refl

  -- Whatever KERIA answers, and also when the pass stops at an error, the credentials that are not
  -- marked for deletion are on record after it as they were before, in their order.
  pub remove_credentials_pending_deletion-kept :
      (w : Wallet K)
      → AreDistinct credential_class w.stored
      → keep is_kept (remove_credentials_pending_deletion client w).1.stored ≡ keep is_kept w.stored
  unfolding remove_credentials_pending_deletion
  remove_credentials_pending_deletion-kept w d =
      rw (get_credentials_pending_deletion_lem w.stored) (
        delete_each-kept (keep is_pending w.stored) w
          (keep-AreHarmless credential_class is_pending w.stored d))
