-- ===== src/Store/ProfilesCache/Keyed.antt =====
-- The keys of the profiles, and the identifiers of their identities.
use veridian_wallet.Base.{
  ◌≡◌, refl, sym, ap, ◌∙◌, Bool-cases, inl, inr, false, not, ◌&&◌, Option, none, some, List, [],
  ◌∷◌, String, ◌===◌, if◌then◌else◌, arith, eq_iff,
}
use veridian_wallet.Base.Dict.{Dict, lookup, insert, erase, modify, modify_all}
use veridian_wallet.Store.Types.{
  IdentifierShortDetails, Profile, RegularConnectionDetails, DAppConnection, is_falsy,
}
use veridian_wallet.Store.ProfilesCache.{
  ProfileCache, ProfileAction, set_profiles, put_profile_identity, put_group_profile,
  put_creation_status, drop_profile, put_notifications, mark_notification, delete_notification,
  push_notification, put_creds, put_cred, put_archived_creds, put_connection_of,
  put_peer_connections, put_peer_connections_from_core, put_connections, drop_connection,
  put_multisig_connections, put_multisig_connection, put_connected_dapp,
  put_pending_dapp_connection, drop_dapp_connection, clear_profiles, reduce_profiles, new_profile,
  cached_connections, set_identity, put_identity, add_or_update_profile_identity, replaced, moved,
  add_group_for, add_group_profile, update_profile_creation_status, remove_profile, on_chosen,
  set_notifications_cache, mark_notification_as_read, has_notification, without_notification,
  delete_elsewhere, has_it, delete_for, delete_notification_by_id, add_notification,
  set_creds_cache, update_or_add_creds_cache, set_creds_archived_cache, or_default, or_else,
  update_or_add_connection_cache, set_peer_connections, group_by_aid, set_peers, first_aid,
  update_peer_connections_from_core, set_connections_cache, remove_connection_cache,
  set_multisig_connections_cache, add_multisig, update_or_add_multisig_connection_cache,
  set_connected_dapp, set_pending_dapp_connection, clear_dapp_connection,
}

-- Every profile stands under the identifier of its identity.
abbrev pub IsKeyed : Dict Profile → Type 0
IsKeyed [] = Unit
IsKeyed ((k, p) ∷ d) = (k ≡ p.identity.id) × IsKeyed d

modify-IsKeyed :
    (k : String) (f : Profile → Profile) (d : Dict Profile)
    → ((p : Profile) → k ≡ p.identity.id → k ≡ (f p).identity.id)
    → IsKeyed d
    → IsKeyed (modify k f d)
modify-IsKeyed k f [] h keyed = tt
modify-IsKeyed k f ((j, p) ∷ d) h keyed = elim (Bool-cases (j === k)) [
  | inl e ↦
      let same : j ≡ k = ground (arith, eq_iff j k) in
      rw e (same ∙ h p (sym same ∙ keyed.0), keyed.1)
  | inr e ↦ rw e (keyed.0, modify-IsKeyed k f d h keyed.1)
]

modify_all-IsKeyed :
    (f : String → Profile → Profile) (d : Dict Profile)
    → ((k : String) (p : Profile) → (f k p).identity ≡ p.identity)
    → IsKeyed d
    → IsKeyed (modify_all f d)
modify_all-IsKeyed f [] h keyed = tt
modify_all-IsKeyed f ((j, p) ∷ d) h keyed =
    (keyed.0 ∙ sym (ap (λ i. i.id) (h j p)), modify_all-IsKeyed f d h keyed.1)

insert-IsKeyed : (p : Profile) (d : Dict Profile) → IsKeyed d → IsKeyed (insert p.identity.id p d)
insert-IsKeyed p [] keyed = (refl, tt)
insert-IsKeyed p ((j, q) ∷ d) keyed = elim (Bool-cases (j === p.identity.id)) [
  | inl e ↦ rw e (refl, keyed.1)
  | inr e ↦ rw e (keyed.0, insert-IsKeyed p d keyed.1)
]

erase-IsKeyed : (k : String) (d : Dict Profile) → IsKeyed d → IsKeyed (erase k d)
erase-IsKeyed k [] keyed = tt
erase-IsKeyed k ((j, q) ∷ d) keyed = elim (Bool-cases (j === k)) [
  | inl e ↦ rw e (erase-IsKeyed k d keyed.1)
  | inr e ↦ rw e (keyed.0, erase-IsKeyed k d keyed.1)
]

-- A change of the default profile that keeps its identity.
on_chosen-IsKeyed :
    (c : Option String) (f : Profile → Profile) (s : ProfileCache)
    → ((p : Profile) → (f p).identity ≡ p.identity)
    → IsKeyed s.profiles
    → IsKeyed (on_chosen c f s).profiles
on_chosen-IsKeyed none f s h keyed = keyed
on_chosen-IsKeyed (some k) f s h keyed = elim (Bool-cases (k === "")) [
  | inl e ↦ rw e keyed
  | inr e ↦ rw e (modify-IsKeyed k f s.profiles (λ p q. q ∙ sym (ap (λ i. i.id) (h p))) keyed)
]

delete_elsewhere-IsKeyed :
    (chosen id : String) (d : Dict Profile) → IsKeyed d → IsKeyed (delete_elsewhere chosen id d)
delete_elsewhere-IsKeyed chosen id [] keyed = tt
delete_elsewhere-IsKeyed chosen id ((k, p) ∷ d) keyed =
    elim (Bool-cases (not (k === chosen) && has_notification id p.notifications)) [
      | inl e ↦ rw e keyed
      | inr e ↦ rw e (keyed.0, delete_elsewhere-IsKeyed chosen id d keyed.1)
    ]

delete_for-IsKeyed :
    (c : Option String) (id : String) (s : ProfileCache)
    → IsKeyed s.profiles
    → IsKeyed (delete_for c id s).profiles
delete_for-IsKeyed none id s keyed = keyed
delete_for-IsKeyed (some k) id s keyed = elim (Bool-cases (k === "")) [
  | inl e ↦ rw e keyed
  | inr e ↦ elim (Bool-cases (has_it id (lookup k s.profiles))) [
    | inl f ↦ rw (e, f) (modify-IsKeyed k (without_notification id) s.profiles (λ p q. q) keyed)
    | inr f ↦ rw (e, f) (delete_elsewhere-IsKeyed k id s.profiles keyed)
  ]
]

set_peers-IsKeyed :
    (g : Dict (List DAppConnection)) (d : Dict Profile) → IsKeyed d → IsKeyed (set_peers g d)
unfolding set_peers
set_peers-IsKeyed [] d keyed = keyed
set_peers-IsKeyed ((k, cs) ∷ g) d keyed =
    set_peers-IsKeyed g _
      (modify-IsKeyed k (λ p. record p { peer_connections = cs }) d (λ p q. q) keyed)

put_identity-IsKeyed :
    (o : Option Profile) (i : IdentifierShortDetails) (s : ProfileCache)
    → IsKeyed s.profiles
    → IsKeyed (put_identity o i s).profiles
put_identity-IsKeyed none i s keyed =
    insert-IsKeyed (new_profile i (cached_connections i.group_metadata s.multi_sig_group))
      s.profiles keyed
put_identity-IsKeyed (some q) i s keyed =
    modify-IsKeyed i.id (set_identity i) s.profiles (λ p q. refl) keyed

add_connection-IsKeyed :
    (c : RegularConnectionDetails) (s : ProfileCache)
    → IsKeyed s.profiles
    → IsKeyed (update_or_add_connection_cache c s).profiles
unfolding update_or_add_connection_cache
add_connection-IsKeyed c s keyed =
    let k = or_default (or_else c.identifier c.contact_id) s.default_profile in
    elim (Bool-cases (k === "")) [
      | inl e ↦ rw e keyed
      | inr e ↦ rw e (modify-IsKeyed k _ s.profiles (λ p q. q) keyed)
    ]

-- What holds of the profiles when the reducer does not throw.
abbrev pub AllKeyed : Option ProfileCache → Type 0
AllKeyed none = Unit
AllKeyed (some s) = IsKeyed s.profiles

replaced-IsKeyed :
    (pre : String) (i : IdentifierShortDetails) (s : ProfileCache) (o g : Option Profile)
    (rest : Dict Profile)
    → IsKeyed rest
    → AllKeyed (moved pre i s (replaced o g i rest))
replaced-IsKeyed pre i s (some q) g rest keyed = keyed
replaced-IsKeyed pre i s none none rest keyed = tt
replaced-IsKeyed pre i s none (some q) rest keyed =
    insert-IsKeyed (new_profile i q.multisig_connections) rest keyed

add_group-IsKeyed :
    (m : Option String) (i : IdentifierShortDetails) (s : ProfileCache)
    → IsKeyed s.profiles
    → AllKeyed (add_group_for m i s)
add_group-IsKeyed none i s keyed = keyed
add_group-IsKeyed (some pre) i s keyed = elim (Bool-cases (pre === "")) [
  | inl e ↦ rw e keyed
  | inr e ↦ rw e (
      replaced-IsKeyed pre i s (lookup i.id (erase pre s.profiles)) (lookup pre s.profiles)
        (erase pre s.profiles) (erase-IsKeyed pre s.profiles keyed))
]

-- What an action brings along.
abbrev pub BringsKeyed : ProfileAction → Type 0
BringsKeyed (set_profiles ps) = IsKeyed ps
BringsKeyed _ = Unit

-- Every action of the slice keeps every profile under the identifier of its identity, unless it
-- throws; for `setProfiles`, when the new profiles are so.
pub reduce_profiles-IsKeyed :
    (a : ProfileAction) (s : ProfileCache)
    → BringsKeyed a
    → IsKeyed s.profiles
    → AllKeyed (reduce_profiles a s)
unfolding reduce_profiles add_or_update_profile_identity add_group_profile
    update_profile_creation_status remove_profile set_notifications_cache mark_notification_as_read
    delete_notification_by_id add_notification set_creds_cache update_or_add_creds_cache
    set_creds_archived_cache set_peer_connections update_peer_connections_from_core
    set_connections_cache remove_connection_cache set_multisig_connections_cache
    update_or_add_multisig_connection_cache set_connected_dapp set_pending_dapp_connection
    clear_dapp_connection
reduce_profiles-IsKeyed (set_profiles ps) s b keyed = b
reduce_profiles-IsKeyed clear_profiles s b keyed = tt
reduce_profiles-IsKeyed (put_profile_identity i) s b keyed =
    put_identity-IsKeyed (lookup i.id s.profiles) i s keyed
reduce_profiles-IsKeyed (put_group_profile i) s b keyed =
    add_group-IsKeyed i.group_member_pre i s keyed
reduce_profiles-IsKeyed (put_creation_status id c) s b keyed =
    modify-IsKeyed id _ s.profiles (λ p q. q) keyed
reduce_profiles-IsKeyed (drop_profile id) s b keyed = erase-IsKeyed id s.profiles keyed
reduce_profiles-IsKeyed (put_notifications ns) s b keyed =
    on_chosen-IsKeyed s.default_profile _ s (λ p. refl) keyed
reduce_profiles-IsKeyed (mark_notification id read) s b keyed =
    on_chosen-IsKeyed s.default_profile _ s (λ p. refl) keyed
reduce_profiles-IsKeyed (delete_notification id) s b keyed =
    delete_for-IsKeyed s.default_profile id s keyed
reduce_profiles-IsKeyed (push_notification n) s b keyed =
    modify-IsKeyed n.receiving_pre _ s.profiles (λ p q. q) keyed
reduce_profiles-IsKeyed (put_creds cs) s b keyed =
    on_chosen-IsKeyed s.default_profile _ s (λ p. refl) keyed
reduce_profiles-IsKeyed (put_cred c) s b keyed =
    modify-IsKeyed c.identifier_id _ s.profiles (λ p q. q) keyed
reduce_profiles-IsKeyed (put_archived_creds cs) s b keyed =
    on_chosen-IsKeyed s.default_profile _ s (λ p. refl) keyed
reduce_profiles-IsKeyed (put_connection_of c) s b keyed = add_connection-IsKeyed c s keyed
reduce_profiles-IsKeyed (put_peer_connections cs) s b keyed =
    on_chosen-IsKeyed (if is_falsy s.default_profile then first_aid cs else s.default_profile) _ s
      (λ p. refl) keyed
reduce_profiles-IsKeyed (put_peer_connections_from_core cs) s b keyed =
    set_peers-IsKeyed (group_by_aid cs []) s.profiles keyed
reduce_profiles-IsKeyed (put_connections cs) s b keyed =
    modify_all-IsKeyed _ s.profiles (λ k p. refl) keyed
reduce_profiles-IsKeyed (drop_connection id) s b keyed =
    on_chosen-IsKeyed s.default_profile _ s (λ p. refl) keyed
reduce_profiles-IsKeyed (put_multisig_connections cs) s b keyed =
    modify_all-IsKeyed _ s.profiles (λ k p. refl) keyed
reduce_profiles-IsKeyed (put_multisig_connection c) s b keyed =
    on_chosen-IsKeyed s.default_profile (add_multisig s.default_profile c) s (λ p. ground arith)
      keyed
reduce_profiles-IsKeyed (put_connected_dapp c) s b keyed =
    on_chosen-IsKeyed s.default_profile _ (record s { connected_dapp = c }) (λ p. refl) keyed
reduce_profiles-IsKeyed (put_pending_dapp_connection c) s b keyed =
    on_chosen-IsKeyed s.default_profile _ (record s { pending_dapp_connection = c }) (λ p. refl)
      keyed
reduce_profiles-IsKeyed drop_dapp_connection s b keyed =
    on_chosen-IsKeyed s.default_profile _
      (record s {
        connected_dapp = none;
        pending_dapp_connection = none;
        is_connecting_to_dapp = some false;
        show_dapp_connect = some false;
      })
      (λ p. refl) keyed
reduce_profiles-IsKeyed _ s b keyed = keyed
