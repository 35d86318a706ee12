-- ===== src/Credentials/Sync.antt =====
-- What the synchronisation puts on record.
use veridian_wallet.Base.{
  ℕ, ◌*◌, ◌<◌, ◌≡◌, refl, sym, ap, ◌∙◌, inl, inr, Bool, Bool-cases, true, false, not, not-not, ◌&&◌,
  none, List, [], ◌∷◌, ◌++◌, map, String, All, All-of_keep, keep, keep-ext, append_nil,
  append_assoc, any, take, drop, length, ok, arith, eq_iff, ◌===◌,
}
use veridian_wallet.Storage.Query.{flag_eq, check_query}
use veridian_wallet.Records
use veridian_wallet.Records.{has}
use veridian_wallet.Records.Adding.{HaveDistinct, HaveDistinct-keep, IsAbsent, still-IsAbsent}
use veridian_wallet.Records.Paging.{fetch_from_lem}
use veridian_wallet.Credentials.Deletion.{is_kept}
use veridian_wallet.Credentials.{
  CredentialMetadataRecord, Stored, credential_class, get_all_credential_metadata, Wallet,
  CloudCredential, Listing, is_local, is_on_record, credential_metadata_of, create_each, unsynced,
  sync_keria_credentials,
}

abbrev pub said_of : CloudCredential → String
said_of c = c.said

-- Of the identifiers on record, and without a record.
abbrev pub is_new : List String → Stored → CloudCredential → Bool
is_new ids rs c = is_local ids c && not (has credential_class c.said rs)

-- A record that is marked for deletion.
abbrev pub is_pending_under : Stored → CloudCredential → Bool
is_pending_under rs c = any (λ r. r.id === c.said && r.pending_deletion) rs

not_pending : (b : Bool) → (flag_eq b false && true) ≡ not b
not_pending true = refl
not_pending false = refl

-- The list of all credentials leaves out those that are marked for deletion.
pub get_all_credential_metadata_lem :
    (rs : Stored) → get_all_credential_metadata none none rs ≡ keep is_kept rs
unfolding get_all_credential_metadata check_query
get_all_credential_metadata_lem rs = keep-ext _ is_kept rs (λ r. not_pending r.pending_deletion)

is_on_record-keep :
    (test gone : CredentialMetadataRecord → Bool) (c : CloudCredential) (rs : Stored)
    → ((r : CredentialMetadataRecord) → gone r ≡ not (test r))
    → any (λ r. r.id === c.said && gone r) rs ≡ false
    → is_on_record (keep test rs) c ≡ has credential_class c.said rs
is_on_record-keep test gone c [] opposite h = refl
is_on_record-keep test gone c (r ∷ rs) opposite h =
    let rest = is_on_record-keep test gone c rs opposite (ground arith) in
    let same : (c.said === r.id) ≡ (r.id === c.said) =
      ground (arith, eq_iff c.said r.id, eq_iff r.id c.said) in
    elim (Bool-cases (test r)) [
      | inl e ↦ rw (e, same, rest) refl
      | inr e ↦
          let apart : (r.id === c.said) ≡ false = ground (arith, opposite r) in rw (e, apart) rest
    ]

module _ (listing : Listing) (group : String → Bool) (issued : String → String → Bool)
    (groups : (i : String) → listing.is_group i ≡ ok (group i))
    (states : (r d : String) → listing.is_issued r d ≡ ok (issued r d)) where
  -- The record that is made of a credential, from what KERIA answers.
  abbrev pub record_of : CloudCredential → CredentialMetadataRecord
  record_of c = credential_metadata_of listing c (group c.holder) (issued c.registry c.said)

  create_each_lem :
      {K : Type 0} (cs : List CloudCredential) (w : Wallet K)
      → HaveDistinct said_of cs
      → All (IsAbsent said_of credential_class w.stored) cs
      → create_each listing cs w ≡ (ok tt, record w { stored = w.stored ++ map record_of cs })
  unfolding create_each Records.save
  create_each_lem [] w d h = rw (append_nil w.stored) refl
  create_each_lem (c ∷ cs) w (new, d) (absent, h) =
      let v = record w { stored = w.stored ++ (record_of c ∷ []) } in
      rw (groups c.holder, states c.registry c.said, absent)
        (create_each_lem cs v d
            (still-IsAbsent said_of credential_class (record_of c) c w.stored cs refl new h)
          ∙ ap (λ rs. (ok tt, record w { stored = rs }))
              (append_assoc w.stored (record_of c ∷ []) (map record_of cs)))

-- Of the identifiers of the wallet, the credentials that are not on record.
unsynced_lem :
    (ids : List String) (rs : Stored) (cs : List CloudCredential)
    → All (λ c. is_pending_under rs c ≡ false) cs
    → unsynced ids rs cs ≡ keep (is_new ids rs) cs
unfolding unsynced
unsynced_lem ids rs [] h = refl
unsynced_lem ids rs (c ∷ cs) (here, h) =
    let e : is_on_record (get_all_credential_metadata none none rs) c
        ≡ has credential_class c.said rs =
      rw (get_all_credential_metadata_lem rs) (
        is_on_record-keep is_kept (λ r. r.pending_deletion) c rs
          (λ r. sym (not-not r.pending_deletion)) here) in
    let rest = unsynced_lem ids rs cs h in
    elim (Bool-cases (is_local ids c)) [ inl f ↦ rw (f, e, rest) refl | inr f ↦ rw (f, rest) refl ]

IsAbsent-of_new :
    (ids : List String) (rs : Stored) (cs : List CloudCredential)
    → All (IsAbsent said_of credential_class rs) (keep (is_new ids rs) cs)
IsAbsent-of_new ids rs cs =
    All-of_keep (IsAbsent said_of credential_class rs) (is_new ids rs) cs (λ c e. ground arith)

-- When KERIA answers every request, gives its list of credentials in pages of 24 and has no SAID
-- twice, and none of them is marked for deletion on record, the synchronisation of a wallet with an
-- identifier returns without an error, with more fuel than there are credentials: it puts a record for
-- each credential at KERIA that an identifier on record holds and that has none, behind those there
-- were, which stay as they are.
pub sync_keria_credentials_lem :
    {K : Type 0} (listing : Listing) (group : String → Bool) (issued : String → String → Bool)
    (cs : List CloudCredential) (id : String) (ids : List String) (fuel : ℕ) (w : Wallet K)
    → ((i : String) → listing.is_group i ≡ ok (group i))
    → ((r d : String) → listing.is_issued r d ≡ ok (issued r d))
    → ((k : ℕ) → listing.page k ≡ ok (take 24 (drop (k * 24) cs)))
    → length cs < fuel
    → HaveDistinct said_of cs
    → All (λ c. is_pending_under w.stored c ≡ false) cs
    → sync_keria_credentials listing fuel (id ∷ ids) w ≡ (
      ok tt,
      record w {
        stored =
            w.stored
            ++ map
                (λ c. credential_metadata_of listing c (group c.holder) (issued c.registry c.said))
                (keep (is_new (id ∷ ids) w.stored) cs);
      },
    )
unfolding sync_keria_credentials
sync_keria_credentials_lem listing group issued cs id ids fuel w groups states pages enough distinct
      none_pending =
    let test = is_new (id ∷ ids) w.stored in
    rw
      (
        fetch_from_lem listing.page cs 23 fuel pages enough,
        unsynced_lem (id ∷ ids) w.stored cs none_pending,
      )
      (create_each_lem listing group issued groups states (keep test cs) w
        (HaveDistinct-keep said_of test cs distinct) (IsAbsent-of_new (id ∷ ids) w.stored cs))
