-- ===== src/Credentials/Blocked.antt =====
-- The synchronisation while a credential of the wallet is marked for deletion and still at KERIA.
use veridian_wallet.Base.{
  ℕ, ◌*◌, ◌<◌, ◌≡◌, refl, sym, inl, inr, Bool, Bool-cases, true, false, not, not-not, ◌&&◌, ◌||◌,
  none, List, [], ◌∷◌, ◌++◌, String, keep, any, take, drop, length, Result, ok, err, arith, eq_iff,
  ◌===◌,
}
use mathlib.Core.Path.{subst}
use veridian_wallet.Base.States.{continue}
use veridian_wallet.Storage.{already_exists}
use veridian_wallet.Records.{has}
use veridian_wallet.Records.Laws.{AreDistinct, has-put, save-ok, save-err, same_string}
use veridian_wallet.Records.Paging.{fetch_from_lem}
use veridian_wallet.Credentials.{
  CredentialMetadataRecord, Stored, credential_class, get_all_credential_metadata, CredentialError,
  keria, storage, credential_metadata_of, Wallet, CloudCredential, Listing, is_local, is_on_record,
  create_with, create_each, unsynced, sync_keria_credentials,
}
use veridian_wallet.Credentials.Deletion.{is_kept}
use veridian_wallet.Credentials.Sync.{is_pending_under, get_all_credential_metadata_lem}

-- Held by an identifier on record, and marked for deletion there.
abbrev pub is_blocked : List String → Stored → CloudCredential → Bool
is_blocked ids rs c = is_local ids c && is_pending_under rs c

abbrev is_stored : Stored → CloudCredential → Bool
is_stored rs c = has credential_class c.said rs

absent-pending :
    (gone : CredentialMetadataRecord → Bool) (c : CloudCredential) (rs : Stored)
    → is_stored rs c ≡ false
    → any (λ r. r.id === c.said && gone r) rs ≡ false
absent-pending gone c [] h = refl
absent-pending gone c (r ∷ rs) h =
    let apart : (r.id === c.said) ≡ false = ground arith in
    rw apart (absent-pending gone c rs (ground arith))

absent-on_record :
    (test : CredentialMetadataRecord → Bool) (c : CloudCredential) (rs : Stored)
    → is_stored rs c ≡ false
    → is_on_record (keep test rs) c ≡ false
absent-on_record test c [] h = refl
absent-on_record test c (r ∷ rs) h =
    let apart : (c.said === r.id) ≡ false =
      ground (arith, eq_iff c.said r.id, eq_iff r.id c.said) in
    let rest = absent-on_record test c rs (ground arith) in
    elim (Bool-cases (test r)) [ inl e ↦ rw (e, apart) rest | inr e ↦ rw e rest ]

-- One that is marked is on record, and not among the credentials that are listed.
pending-on_record :
    (test gone : CredentialMetadataRecord → Bool) (c : CloudCredential) (rs : Stored)
    → ((r : CredentialMetadataRecord) → gone r ≡ not (test r))
    → AreDistinct credential_class rs
    → any (λ r. r.id === c.said && gone r) rs ≡ true
    → (is_stored rs c ≡ true) × (is_on_record (keep test rs) c ≡ false)
pending-on_record test gone c [] opposite d h = absurd (ground arith)
pending-on_record test gone c (r ∷ rs) opposite (new, d) h = elim (Bool-cases (r.id === c.said)) [
  | inl e ↦
      let away : is_stored rs c ≡ false =
        subst (λ k. has credential_class k rs ≡ false) (same_string r.id c.said e) new in
      let alone = absent-pending gone c rs away in
      let here : test r ≡ false = ground (arith, opposite r) in
      rw (e, here) (refl, absent-on_record test c rs away)
  | inr e ↦
      let there : any (λ s. s.id === c.said && gone s) rs ≡ true = ground arith in
      let (stored, unlisted) = pending-on_record test gone c rs opposite d there in
      let apart : (c.said === r.id) ≡ false =
        ground (arith, eq_iff c.said r.id, eq_iff r.id c.said) in
      (
        rw (e, stored) refl,
        elim (Bool-cases (test r)) [ inl f ↦ rw (f, apart) unlisted | inr f ↦ rw f unlisted ],
      )
]

or_true : (b : Bool) → (b || true) ≡ true
or_true true = refl
or_true false = refl

blocked-unsynced :
    (ids : List String) (rs : Stored) (cs : List CloudCredential)
    → AreDistinct credential_class rs
    → any (is_blocked ids rs) cs ≡ true
    → any (is_stored rs) (unsynced ids rs cs) ≡ true
unfolding unsynced
blocked-unsynced ids rs [] d h = absurd (ground arith)
blocked-unsynced ids rs (c ∷ cs) d h = elim (Bool-cases (is_blocked ids rs c)) [
  | inl b ↦
      let local : is_local ids c ≡ true = ground arith in
      let pending : is_pending_under rs c ≡ true = ground arith in
      let (stored, unlisted) =
        pending-on_record is_kept (λ r. r.pending_deletion) c rs
          (λ r. sym (not-not r.pending_deletion)) d pending in
      let unsynced_c : is_on_record (get_all_credential_metadata none none rs) c ≡ false =
        rw (get_all_credential_metadata_lem rs) unlisted in
      rw (local, unsynced_c, stored) refl
  | inr b ↦
      let rest = blocked-unsynced ids rs cs d (ground arith) in
      elim (Bool-cases (is_local ids c)) [
        | inl f ↦ elim (Bool-cases (is_on_record (get_all_credential_metadata none none rs) c)) [
          | inl g ↦ rw (f, g) rest
          | inr g ↦ rw (f, g, rest) (or_true (is_stored rs c))
        ]
        | inr f ↦ rw f rest
      ]
]

any_stored-put :
    (r : CredentialMetadataRecord) (rs : Stored) (cs : List CloudCredential)
    → any (is_stored rs) cs ≡ true
    → any (is_stored (rs ++ (r ∷ []))) cs ≡ true
any_stored-put r rs [] h = absurd (ground arith)
any_stored-put r rs (c ∷ cs) h =
    ground (arith, has-put credential_class c.said rs r, any_stored-put r rs cs)

-- It ends with an error.
abbrev Fails : {K : Type 0} → Result CredentialError (Unit {0}) × Wallet K → Type 0
Fails {K} x = (e : CredentialError) × (v : Wallet K) × (x ≡ (err e, v))

module _ {K : Type 0} (listing : Listing) where
  Fails-continue :
      (f : Unit {0} → Wallet K → Result CredentialError (Unit {0}) × Wallet K)
      (x : Result CredentialError (Unit {0}) × Wallet K)
      → Fails x
      → Fails (continue f x)
  Fails-continue f x (e, v, h) = (e, v, rw h refl)

  create_with-stored :
      (c : CloudCredential) (g i : Result String Bool) (w : Wallet K)
      → is_stored w.stored c ≡ true
      → Fails (create_with listing c g i w)
  create_with-stored c (err e) i w h = (keria e, w, refl)
  create_with-stored c (ok group) (err e) w h = (keria e, w, refl)
  create_with-stored c (ok group) (ok issued) w h =
      let r = credential_metadata_of listing c group issued in
      (storage (already_exists c.said), w, rw (save-err credential_class r w.stored h) refl)

  -- With a credential that is on record among them, not all can be created.
  create_each-stored :
      (cs : List CloudCredential) (w : Wallet K)
      → any (is_stored w.stored) cs ≡ true
      → Fails (create_each listing cs w)
  unfolding create_each
  create_each-stored [] w h = absurd (ground arith)
  create_each-stored (c ∷ cs) w h =
      head_of (listing.is_group c.holder) (listing.is_issued c.registry c.said)
        (is_stored w.stored c) refl
        (λ r e.
          create_each-stored cs (record w { stored = w.stored ++ (r ∷ []) })
            (any_stored-put r w.stored cs e))
    where
      head_of :
          (g i : Result String Bool) (b : Bool)
          → is_stored w.stored c ≡ b
          → ((r : CredentialMetadataRecord)
              → any (is_stored w.stored) cs ≡ true
              → Fails (create_each listing cs (record w { stored = w.stored ++ (r ∷ []) })))
          → Fails (continue (λ u. create_each listing cs) (create_with listing c g i w))
      head_of g i true e rest =
          Fails-continue (λ u. create_each listing cs) (create_with listing c g i w)
            (create_with-stored c g i w e)
      head_of (err x) i false e rest = (keria x, w, refl)
      head_of (ok group) (err x) false e rest = (keria x, w, refl)
      head_of (ok group) (ok issued) false e rest =
          let r = credential_metadata_of listing c group issued in
          rw (save-ok credential_class r w.stored e) (rest r (ground arith))

-- As long as a credential at KERIA that an identifier of the wallet holds is marked for deletion on
-- record, the synchronisation ends with an error, whatever KERIA answers about the credentials.
pub sync_keria_credentials-blocked :
    {K : Type 0} (listing : Listing) (cs : List CloudCredential) (id : String) (ids : List String)
    (fuel : ℕ) (w : Wallet K)
    → ((k : ℕ) → listing.page k ≡ ok (take 24 (drop (k * 24) cs)))
    → length cs < fuel
    → AreDistinct credential_class w.stored
    → any (is_blocked (id ∷ ids) w.stored) cs ≡ true
    → (e : CredentialError) × (v : Wallet K) × (sync_keria_credentials listing fuel (id ∷ ids) w
        ≡ (err e, v))
unfolding sync_keria_credentials
sync_keria_credentials-blocked listing cs id ids fuel w pages enough d blocked =
    rw (fetch_from_lem listing.page cs 23 fuel pages enough) (
      create_each-stored listing (unsynced (id ∷ ids) w.stored cs) w
        (blocked-unsynced (id ∷ ids) w.stored cs d blocked))
