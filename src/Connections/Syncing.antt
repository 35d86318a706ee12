-- ===== src/Connections/Syncing.antt =====
-- `syncKeriaContacts`. The list of the contacts at KERIA is given.
use veridian_wallet.Base.{false, Option, none, some, List, [], ◌∷◌, String, if◌then◌else◌}
use veridian_wallet.Base.States.{◌>>◌, pure}
use veridian_wallet.Base.Text.{Text, codes, text_eq, split, string_of}
use veridian_wallet.Base.Dict.{Dict, lookup}
use veridian_wallet.Store.Types.{CreationStatus}
use veridian_wallet.Records
use veridian_wallet.Connections.Storing.{
  ContactRecord, ConnectionPairRecord, contact_class, pair_class, pair_id, concat,
}
use veridian_wallet.Connections.Service.{Method, is_falsy_text, save_absent_contact, save_pair}

-- A contact at KERIA; `fields` are its other properties that are texts, in the order of their keys.
pub record CloudContact : Type 0 where
  pub id : String
  pub alias : String
  pub oobi : String
  pub group_creation_id : Option String
  pub created_at : String
  pub fields : Dict String

-- `keyParts.length === 2 && keyParts[1] === "createdAt"`, with `keyParts[0]`.
abbrev pub created_at_of : List Text → Option String
created_at_of [] = none
created_at_of (a ∷ []) = none
created_at_of (a ∷ b ∷ []) = if text_eq b (codes "createdAt") then some (string_of a) else none
created_at_of (a ∷ b ∷ c ∷ ps) = none

unfoldable pub aid_of_key : String → Option String
aid_of_key key = created_at_of (split 58 (codes key))

abbrev pub save_absent_pair :
    {K : Type 0} → ConnectionPairRecord → Option ConnectionPairRecord → Method K (Unit {0})
save_absent_pair p none = save_pair p
save_absent_pair p (some q) = pure tt

abbrev pub sync_pair : {K : Type 0} → ConnectionPairRecord → Method K (Unit {0})
sync_pair p s = save_absent_pair p (Records.find_by_id pair_class p.id s.pairs) s

-- `now` is `new Date()`, and `date` what `new Date(…)` makes of a text.
module _ (now : String) (date : String → String) where
  abbrev pub synced_contact : CloudContact → ContactRecord
  synced_contact c = record {
    id = c.id;
    created_at = if is_falsy_text c.group_creation_id then now else date c.created_at;
    alias = c.alias;
    oobi = c.oobi;
    group_id = c.group_creation_id;
  }

  abbrev pub or_alias : Option String → String → String
  or_alias none alias = alias
  or_alias (some a) alias = a

  -- KeriaContactKeyElement.CONNECTION_ALIAS is "alias".
  abbrev pub synced_pair : CloudContact → String → String → ConnectionPairRecord
  synced_pair c aid value = record {
    id = pair_id aid c.id;
    created_at = date value;
    contact_id = c.id;
    identifier = aid;
    alias = or_alias (lookup (concat aid ":alias") c.fields) c.alias;
    creation_status = CreationStatus.complete;
    pending_deletion = false;
  }

  abbrev pub sync_field : {K : Type 0} → CloudContact → String → Option String → Method K (Unit {0})
  sync_field c value none = pure tt
  sync_field c value (some aid) = sync_pair (synced_pair c aid value)

  unfoldable pub sync_fields : {K : Type 0} → CloudContact → Dict String → Method K (Unit {0})
  sync_fields c [] = pure tt
  sync_fields c ((key, value) ∷ fields) = do
    sync_field c value (aid_of_key key)
    sync_fields c fields

  unfoldable pub sync_contact : {K : Type 0} → CloudContact → Method K (Unit {0})
  sync_contact c = do
    (λ s.
        save_absent_contact (synced_contact c) (Records.find_by_id contact_class c.id s.contacts) s)
    sync_fields c c.fields

  unfoldable pub sync_keria_contacts : {K : Type 0} → List CloudContact → Method K (Unit {0})
  sync_keria_contacts [] = pure tt
  sync_keria_contacts (c ∷ cs) = do sync_contact c; sync_keria_contacts cs
