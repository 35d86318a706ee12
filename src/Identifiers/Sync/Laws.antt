-- ===== src/Identifiers/Sync/Laws.antt =====
-- The identifiers that a new device finds at KERIA.
use veridian_wallet.Base.{
  ℕ, ◌+◌, ◌-◌, ◌*◌, ◌<◌, ◌≡◌, refl, ap, ◌∙◌, inl, inr, Bool, Bool-cases, true, false, not, Option,
  none, some, List, [], ◌∷◌, ◌++◌, map, String, All, All-keep, All-of_keep, keep, append_nil,
  append_assoc, take, drop, length, ok, err, arith, if◌then◌else◌,
}
use veridian_wallet.Storage.{already_exists}
use veridian_wallet.HabName.{HabNameParts, v1_2_0_2, parse_hab_name}
use veridian_wallet.HabName.Format.{parse-format}
use veridian_wallet.Records
use veridian_wallet.Records.{has}
use veridian_wallet.Records.Laws.{save-ok}
use veridian_wallet.Records.Adding.{HaveDistinct, HaveDistinct-keep, IsAbsent, still-IsAbsent}
use veridian_wallet.Records.Paging.{fetch_from_lem}
use veridian_wallet.Identifiers.{
  Metadata, part_of, parts_of, not_created, calc_keria_hab_name, theme_text, ui_themes, is_ui_theme,
}
use veridian_wallet.Identifiers.Rerun.{IsAcceptable, any-All, parse_int-theme_text}
use veridian_wallet.Identifiers.Sync.{
  IdentifierMetadataRecord, identifier_class, OperationPendingRecord, operation_class,
  OperationType, witness, HabState, Operation, Detail, Directory, LocalRecords, status_of,
  is_deleted_theme, individual_record, save_pending_operation, operation_or_there, save_if_pending,
  is_known, without_group, with_group, identifiers_page, sync_individual, sync_individuals,
  sync_groups, sync_keria_identifiers,
}

-- An identifier without a group, under the name that the wallet makes of its metadata.
pub record IsNamedAfter (m : Metadata) (h : HabState) : Type 0 where
  pub individual : h.group ≡ none
  pub name : h.name ≡ calc_keria_hab_name m
  pub acceptable : IsAcceptable m

is_deleted_theme_lem :
    (t : Option ℕ) → is_ui_theme t ≡ true → is_deleted_theme (theme_text t) ≡ false
is_deleted_theme_lem none h = absurd (ground arith)
is_deleted_theme_lem (some t) h =
    any-All (λ t. is_deleted_theme (theme_text (some t)) ≡ false) t ui_themes none_deleted h
  where
    constant : (ts : List ℕ) → All (λ t. false ≡ false) ts
    constant [] = tt
    constant (t ∷ ts) = (refl, constant ts)

    none_deleted : All (λ t. is_deleted_theme (theme_text (some t)) ≡ false) ui_themes
    none_deleted = constant ui_themes

abbrev pub prefix_of : HabState → String
prefix_of h = h.prefix

abbrev pub is_unsynced : List IdentifierMetadataRecord → HabState → Bool
is_unsynced rs h = not (is_known rs h)

-- What is put on record of an identifier: what it was named after, and what KERIA answers.
abbrev pub recovered : Metadata → Operation → Detail → HabState → IdentifierMetadataRecord
recovered m op d h = record {
  id = h.prefix;
  created_at = d.icp_dt;
  display_name = m.display_name;
  theme = m.theme;
  creation_status = status_of op.ended;
  is_deleted = false;
  pending_deletion = false;
  pending_update = false;
  group_member_pre = none;
  group_metadata = not_created (part_of m.group_metadata);
  group_username = none;
  sxlt = d.sxlt;
}

save_pending_operation-ok :
    (r : OperationPendingRecord) (s : LocalRecords)
    → (rs : List OperationPendingRecord) × (save_pending_operation r s
        ≡ (ok tt, record s { operations = rs }))
unfolding Records.save
save_pending_operation-ok r s = here (has operation_class r.id s.operations)
  where
    here :
        (b : Bool)
        → (rs : List OperationPendingRecord) × (operation_or_there s (
              if b
              then (err (already_exists r.id), s.operations)
              else (ok tt, s.operations ++ (r ∷ [])))
            ≡ (ok tt, record s { operations = rs }))
    here true = (s.operations, refl)
    here false = (s.operations ++ (r ∷ []), refl)

save_if_pending-ok :
    (t : OperationType) (name : String) (ended : Option Bool) (s : LocalRecords)
    → (rs : List OperationPendingRecord) × (save_if_pending t name ended s
        ≡ (ok tt, record s { operations = rs }))
save_if_pending-ok t name none s =
    save_pending_operation-ok (record { id = name; record_type = t }) s
save_if_pending-ok t name (some b) s = (s.operations, refl)

module _ (directory : Directory) (named_after : HabState → Metadata)
    (operation : String → Operation) (detail : String → Detail)
    (operations : (p : String) → directory.witness_operation p ≡ ok (operation p))
    (details : (p : String) → directory.get p ≡ ok (detail p)) where
  abbrev record_of : HabState → IdentifierMetadataRecord
  record_of h = recovered (named_after h) (operation h.prefix) (detail h.prefix) h

  sync_individual-ok :
      (h : HabState) (s : LocalRecords)
      → IsNamedAfter (named_after h) h
      → has identifier_class h.prefix s.identifiers ≡ false
      → (rs : List OperationPendingRecord) × (sync_individual directory h s ≡ (
        ok tt,
        record s { identifiers = s.identifiers ++ (record_of h ∷ []); operations = rs },
      ))
  unfolding sync_individual
  sync_individual-ok h s named absent =
      let m = named_after h in
      let op = operation h.prefix in
      let (rs, saved) = save_if_pending-ok witness op.name op.ended s in
      let p : HabNameParts = record (parts_of m) { version = some v1_2_0_2 } in
      let parsed : parse_hab_name h.name ≡ ok p =
        ap parse_hab_name named.name ∙ parse-format (parts_of m) named.acceptable.formattable in
      let same : individual_record h p op (detail h.prefix) ≡ record_of h =
        rw
          (
            is_deleted_theme_lem m.theme named.acceptable.theme,
            parse_int-theme_text m.theme named.acceptable.theme,
          )
          refl in
      (
        rs,
        rw
            (
              operations h.prefix,
              saved,
              parsed,
              details h.prefix,
              same,
              save-ok identifier_class (record_of h) s.identifiers absent,
            )
            refl,
      )

  sync_individuals-ok :
      (hs : List HabState) (s : LocalRecords)
      → All (λ h. IsNamedAfter (named_after h) h) hs
      → HaveDistinct prefix_of hs
      → All (IsAbsent prefix_of identifier_class s.identifiers) hs
      → (rs : List OperationPendingRecord) × (sync_individuals directory hs s
          ≡ (ok tt, record s { identifiers = s.identifiers ++ map record_of hs; operations = rs }))
  unfolding sync_individuals
  sync_individuals-ok [] s named d absent = (s.operations, rw (append_nil s.identifiers) refl)
  sync_individuals-ok (h ∷ hs) s (name, named) (new, d) (here, absent) =
      let (rs, e) = sync_individual-ok h s name here in
      let t : LocalRecords = record {
        identifiers = s.identifiers ++ (record_of h ∷ []);
        operations = rs;
      } in
      let (last, f) = sync_individuals-ok hs t named d (
        still-IsAbsent prefix_of identifier_class (record_of h) h s.identifiers hs refl new
          absent) in
      (
        last,
        rw e (
            f
            ∙ ap (λ l. (ok tt, record s { identifiers = l; operations = last }))
                (append_assoc s.identifiers (record_of h ∷ []) (map record_of hs))),
      )

without_group-individual :
    (m : HabState → Metadata) (rs : List IdentifierMetadataRecord) (hs : List HabState)
    → All (λ h. IsNamedAfter (m h) h) hs
    → (without_group rs hs ≡ keep (is_unsynced rs) hs) × (with_group rs hs ≡ [])
unfolding without_group with_group
without_group-individual m rs [] h = (refl, refl)
without_group-individual m rs (h ∷ hs) (named, rest) =
    let (e, f) = without_group-individual m rs hs rest in
    elim (Bool-cases (is_known rs h)) [
      | inl g ↦ rw (g, e, f) (refl, refl)
      | inr g ↦ rw (g, named.individual, e, f) (refl, refl)
    ]

unsynced-IsAbsent :
    (rs : List IdentifierMetadataRecord) (hs : List HabState)
    → All (IsAbsent prefix_of identifier_class rs) (keep (is_unsynced rs) hs)
unsynced-IsAbsent rs hs =
    All-of_keep (IsAbsent prefix_of identifier_class rs) (is_unsynced rs) hs (λ h e. ground arith)

pages :
    (directory : Directory) (hs : List HabState)
    → ((a b : ℕ) → directory.list a b ≡ ok (take (b + 1 - a) (drop a hs)))
    → (k : ℕ) → identifiers_page directory k ≡ ok (take 25 (drop (k * 25) hs))
pages directory hs lists k =
    let size : 24 + k * 25 + 1 - k * 25 ≡ 25 = omega arith in
    lists (k * 25) (24 + k * 25) ∙ ap (λ n. ok (take n (drop (k * 25) hs))) size

-- When KERIA answers every request, gives its list of identifiers in pages from one index to another,
-- and has no prefix twice, and each identifier is without a group and under the name that the wallet
-- makes of some metadata with an accepted theme and parts without colons, the synchronisation returns
-- without an error, with more fuel than there are identifiers: behind the records there were it puts
-- one for each identifier that had none, with the display name, the theme and the group metadata that
-- the name was made of, as not yet created for a group.
pub sync_keria_identifiers_lem :
    (directory : Directory) (named_after : HabState → Metadata) (operation : String → Operation)
    (detail : String → Detail) (hs : List HabState) (fuel : ℕ) (s : LocalRecords)
    → ((p : String) → directory.witness_operation p ≡ ok (operation p))
    → ((p : String) → directory.get p ≡ ok (detail p))
    → ((a b : ℕ) → directory.list a b ≡ ok (take (b + 1 - a) (drop a hs)))
    → length hs < fuel
    → HaveDistinct prefix_of hs
    → All (λ h. IsNamedAfter (named_after h) h) hs
    → (t : LocalRecords) × (sync_keria_identifiers directory fuel s ≡ (ok tt, t))
      × (t.identifiers
          ≡ s.identifiers
            ++ map
                (λ h. recovered (named_after h) (operation h.prefix) (detail h.prefix) h)
                (keep (is_unsynced s.identifiers) hs))
unfolding sync_keria_identifiers sync_groups
sync_keria_identifiers_lem directory named_after operation detail hs fuel s operations details lists
      enough distinct named =
    let new = keep (is_unsynced s.identifiers) hs in
    let (individuals, groups) = without_group-individual named_after s.identifiers hs named in
    let (rs, e) =
      sync_individuals-ok directory named_after operation detail operations details new s
        (All-keep (λ h. IsNamedAfter (named_after h) h) (is_unsynced s.identifiers) hs named)
        (HaveDistinct-keep prefix_of (is_unsynced s.identifiers) hs distinct)
        (unsynced-IsAbsent s.identifiers hs) in
    (
      record { identifiers = s.identifiers ++ map _ new; operations = rs },
      rw
          (
            fetch_from_lem (identifiers_page directory) hs 24 fuel (pages directory hs lists)
                enough,
            individuals,
            groups,
            e,
          )
          refl,
      refl,
    )
