-- ===== src/Store/ProfilesCache/Groups.antt =====
-- A member's profile that becomes the profile of its group.
use veridian_wallet.Base.{
  ◌≡◌, refl, sym, ◌↔◌, false, Option, none, some, String, ◌===◌, if◌then◌else◌,
}
use mathlib.Core.Path.{subst}
use veridian_wallet.Base.Dict.{Dict, lookup, insert, erase, lookup-insert, lookup-erase}
use veridian_wallet.Store.Types.{IdentifierShortDetails, Profile}
use veridian_wallet.Store.ProfilesCache.{
  ProfileCache, new_profile, moved_default, replaced, moved, add_group_for, add_group_profile,
}

-- What the caches before and after have to do with each other, when the profile `g` of the member
-- `pre` becomes that of the group `i`.
pub record IsMoved (pre : String) (i : IdentifierShortDetails) (g : Profile) (s t : ProfileCache)
    : Type 0 where
  pub found :
      (k : String)
      → lookup k t.profiles ≡ (
          if i.id === k
          then some (new_profile i g.multisig_connections)
          else if pre === k
          then none
          else lookup k s.profiles)
  pub chosen : t.default_profile ≡ moved_default pre i.id s.default_profile

-- When the member has a profile and the group has none yet, the member's profile is gone and the group
-- has a new one with the member's group connections; every other profile stays, and the group's is the
-- chosen one if the member's was.
pub add_group_profile_lem :
    (pre : String) (i : IdentifierShortDetails) (g : Profile) (s : ProfileCache)
    → i.group_member_pre ≡ some pre
    → (pre === "") ≡ false
    → (pre === i.id) ≡ false
    → lookup pre s.profiles ≡ some g
    → lookup i.id s.profiles ≡ none
    → (t : ProfileCache) × (add_group_profile i s ≡ some t) × IsMoved pre i g s t
unfolding add_group_profile
add_group_profile_lem pre i g s hm hne hd hg hn =
    let rest = erase pre s.profiles in
    let p = new_profile i g.multisig_connections in
    let other : lookup i.id rest ≡ none = rw (lookup-erase pre i.id s.profiles, hd) hn in
    (
      record s {
        profiles = insert i.id p rest;
        default_profile = moved_default pre i.id s.default_profile;
      },
      rw (hm, hne, other, hg) refl,
      record {
        found = λ k. rw (lookup-insert i.id k p rest, lookup-erase pre k s.profiles) refl;
        chosen = refl;
      },
    )

replaced_throws :
    (pre : String) (o g : Option Profile) (i : IdentifierShortDetails) (s : ProfileCache)
    (rest : Dict Profile)
    → (moved pre i s (replaced o g i rest) ≡ none) ↔ ((o ≡ none) × (g ≡ none))
replaced_throws pre (some q) g i s rest = (λ e. cc, λ h. cc)
replaced_throws pre none (some p) i s rest = (λ e. cc, λ h. cc)
replaced_throws pre none none i s rest = (λ e. (refl, refl), λ h. refl)

add_group_for_throws :
    (pre : String) (i : IdentifierShortDetails) (s : ProfileCache)
    → (pre === "") ≡ false
    → (pre === i.id) ≡ false
    → (add_group_for (some pre) i s ≡ none)
      ↔ ((lookup i.id s.profiles ≡ none) × (lookup pre s.profiles ≡ none))
add_group_for_throws pre i s hne hd =
    let rest = erase pre s.profiles in
    let other : lookup i.id rest ≡ lookup i.id s.profiles =
      rw (lookup-erase pre i.id s.profiles, hd) refl in
    rw (hne, sym other) (replaced_throws pre (lookup i.id rest) (lookup pre s.profiles) i s rest)

-- For a member other than the group, `addGroupProfile` throws exactly when neither of them has a
-- profile.
pub add_group_profile_throws :
    (pre : String) (i : IdentifierShortDetails) (s : ProfileCache)
    → i.group_member_pre ≡ some pre
    → (pre === "") ≡ false
    → (pre === i.id) ≡ false
    → (add_group_profile i s ≡ none)
      ↔ ((lookup i.id s.profiles ≡ none) × (lookup pre s.profiles ≡ none))
unfolding add_group_profile
add_group_profile_throws pre i s hm hne hd =
    subst
      (λ m.
        (add_group_for m i s ≡ none)
        ↔ ((lookup i.id s.profiles ≡ none) × (lookup pre s.profiles ≡ none)))
      (sym hm) (add_group_for_throws pre i s hne hd)
