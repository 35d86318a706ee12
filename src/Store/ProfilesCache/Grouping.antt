-- ===== src/Store/ProfilesCache/Grouping.antt =====
-- The connections with applications that arrive from the core, and the profiles that they name.
use veridian_wallet.Base.{
  ◌≡◌, refl, sym, ap, ◌∙◌, Bool, Bool-cases, inl, inr, true, false, not, ◌&&◌, ◌||◌, Option, none,
  some, List, [], ◌∷◌, ◌++◌, String, ◌===◌, if◌then◌else◌, arith, eq_iff, eq_refl,
}
use veridian_wallet.Base.Dict.{Dict, lookup, insert, modify, on_some, lookup-insert, lookup-modify}
use mathlib.Core.List.{append-nil, append_assoc}
use mathlib.Core.Path.{subst}
use veridian_wallet.Base.Text.{codes, is_empty, trim}
use veridian_wallet.Store.Types.{Profile, DAppConnection}
use veridian_wallet.Store.ProfilesCache.{
  ProfileCache, pushed, group_one, group_by_aid, set_peers, update_peer_connections_from_core,
}

abbrev pub is_blank_aid : String → Bool
is_blank_aid aid = (aid === "") || is_empty (trim (codes aid))

abbrev pub names : String → Option String → Bool
names k none = false
names k (some aid) = not (is_blank_aid aid) && (aid === k)

-- The connections that name the profile `k`, in the order in which they arrive.
abbrev pub connections_to : String → List DAppConnection → List DAppConnection
connections_to k [] = []
connections_to k (c ∷ cs) =
    let rest = connections_to k cs in if names k c.selected_aid then c ∷ rest else rest

abbrev pub gathered :
    Option (List DAppConnection) → List DAppConnection → Option (List DAppConnection)
gathered none [] = none
gathered none (c ∷ cs) = some (c ∷ cs)
gathered (some bs) cs = some (bs ++ cs)

gathered-pushed :
    (c : DAppConnection) (o : Option (List DAppConnection)) (cs : List DAppConnection)
    → gathered (some (pushed c o)) cs ≡ gathered o (c ∷ cs)
gathered-pushed c none cs = refl
gathered-pushed c (some bs) cs = ap some (append_assoc bs (c ∷ []) cs)

group_one-named :
    (k aid : String) (c : DAppConnection) (acc : Dict (List DAppConnection))
    → names k (some aid) ≡ true
    → lookup k (group_one (some aid) c acc) ≡ some (pushed c (lookup k acc))
group_one-named k aid c acc h =
    let blank : is_blank_aid aid ≡ false = ground arith in
    let same : aid ≡ k = ground (arith, eq_iff aid k) in
    rw (blank, same, lookup-insert k k (pushed c (lookup k acc)) acc, eq_refl k) refl

group_one-other :
    (k aid : String) (c : DAppConnection) (acc : Dict (List DAppConnection))
    → names k (some aid) ≡ false
    → lookup k (group_one (some aid) c acc) ≡ lookup k acc
group_one-other k aid c acc h = elim (Bool-cases (is_blank_aid aid)) [
  | inl e ↦ rw e refl
  | inr e ↦
      let other : (aid === k) ≡ false = ground arith in
      rw (e, lookup-insert aid k (pushed c (lookup aid acc)) acc, other) refl
]

gathered-nil : (o : Option (List DAppConnection)) → gathered o [] ≡ o
gathered-nil none = refl
gathered-nil (some bs) = ap some (append-nil bs)

gathered-group_one :
    (k : String) (o : Option String) (c : DAppConnection) (acc : Dict (List DAppConnection))
    (rest : List DAppConnection)
    → gathered (lookup k (group_one o c acc)) rest
      ≡ gathered (lookup k acc) (if names k o then c ∷ rest else rest)
gathered-group_one k none c acc rest = refl
gathered-group_one k (some aid) c acc rest = elim (Bool-cases (names k (some aid))) [
  | inl e ↦ rw (group_one-named k aid c acc e, e) (gathered-pushed c (lookup k acc) rest)
  | inr e ↦ rw (group_one-other k aid c acc e, e) refl
]

-- Under each identifier stand the connections that name it.
lookup-group_by_aid :
    (k : String) (cs : List DAppConnection) (acc : Dict (List DAppConnection))
    → lookup k (group_by_aid cs acc) ≡ gathered (lookup k acc) (connections_to k cs)
unfolding group_by_aid
lookup-group_by_aid k [] acc = sym (gathered-nil (lookup k acc))
lookup-group_by_aid k (c ∷ cs) acc =
    lookup-group_by_aid k cs (group_one c.selected_aid c acc)
    ∙ gathered-group_one k c.selected_aid c acc (connections_to k cs)

abbrev pub IsFunctional : Dict (List DAppConnection) → Type 0
IsFunctional [] = Unit
IsFunctional ((k, v) ∷ d) = (lookup k d ≡ none) × IsFunctional d

insert-IsFunctional :
    (k : String) (v : List DAppConnection) (d : Dict (List DAppConnection))
    → IsFunctional d
    → IsFunctional (insert k v d)
insert-IsFunctional k v [] h = (refl, tt)
insert-IsFunctional k v ((j, w) ∷ d) h = elim (Bool-cases (j === k)) [
  | inl e ↦
      let same : j ≡ k = ground (arith, eq_iff j k) in
      rw e (subst (λ x. lookup x d ≡ none) same h.0, h.1)
  | inr e ↦ rw e (
    lookup-insert k j v d ∙ (ground (arith, eq_iff j k, eq_iff k j, h.0)),
    insert-IsFunctional k v d h.1,
  )
]

group_one-IsFunctional :
    (o : Option String) (c : DAppConnection) (acc : Dict (List DAppConnection))
    → IsFunctional acc
    → IsFunctional (group_one o c acc)
group_one-IsFunctional none c acc h = h
group_one-IsFunctional (some aid) c acc h = elim (Bool-cases (is_blank_aid aid)) [
  | inl e ↦ rw e h
  | inr e ↦ rw e (insert-IsFunctional aid (pushed c (lookup aid acc)) acc h)
]

group_by_aid-IsFunctional :
    (cs : List DAppConnection) (acc : Dict (List DAppConnection))
    → IsFunctional acc
    → IsFunctional (group_by_aid cs acc)
unfolding group_by_aid
group_by_aid-IsFunctional [] acc h = h
group_by_aid-IsFunctional (c ∷ cs) acc h =
    group_by_aid-IsFunctional cs (group_one c.selected_aid c acc)
      (group_one-IsFunctional c.selected_aid c acc h)

abbrev pub with_peers : Option (List DAppConnection) → Profile → Profile
with_peers none p = p
with_peers (some cs) p = record p { peer_connections = cs }

on_some-with_peers :
    (o : Option Profile) (cs : List DAppConnection)
    → on_some (with_peers none) (on_some (λ p. record p { peer_connections = cs }) o)
      ≡ on_some (with_peers (some cs)) o
on_some-with_peers none cs = refl
on_some-with_peers (some p) cs = refl

on_some-same : (o : Option Profile) → o ≡ on_some (with_peers none) o
on_some-same none = refl
on_some-same (some p) = refl

set_peers_step :
    (k j : String) (cs : List DAppConnection) (g : Dict (List DAppConnection)) (o : Option Profile)
    → lookup j g ≡ none
    → on_some
        (with_peers (lookup k g))
        (if j === k then on_some (λ p. record p { peer_connections = cs }) o else o)
      ≡ on_some (with_peers (if j === k then some cs else lookup k g)) o
set_peers_step k j cs g o h = elim (Bool-cases (j === k)) [
  | inl e ↦
      let same : j ≡ k = ground (arith, eq_iff j k) in
      let fresh : lookup k g ≡ none = subst (λ x. lookup x g ≡ none) same h in
      rw (e, fresh) (on_some-with_peers o cs)
  | inr e ↦ rw e refl
]

lookup-set_peers :
    (k : String) (g : Dict (List DAppConnection)) (ps : Dict Profile)
    → IsFunctional g
    → lookup k (set_peers g ps) ≡ on_some (with_peers (lookup k g)) (lookup k ps)
unfolding set_peers
lookup-set_peers k [] ps h = on_some-same (lookup k ps)
lookup-set_peers k ((j, cs) ∷ g) ps h =
    let f = λ (p : Profile). record p { peer_connections = cs } in
    lookup-set_peers k g (modify j f ps) h.1
    ∙ (ap (on_some (with_peers (lookup k g))) (lookup-modify j k f ps)
        ∙ set_peers_step k j cs g (lookup k ps) h.0)

-- After connections have arrived from the core, a profile that some of them name has these as its
-- connections, in their order, and every other profile is unchanged; a connection that names no
-- profile, or a blank one, is left out, and no profile is added.
pub lookup-update_peer_connections_from_core :
    (k : String) (cs : List DAppConnection) (s : ProfileCache)
    → lookup k (update_peer_connections_from_core cs s).profiles
      ≡ on_some (with_peers (gathered none (connections_to k cs))) (lookup k s.profiles)
unfolding update_peer_connections_from_core
lookup-update_peer_connections_from_core k cs s =
    lookup-set_peers k (group_by_aid cs []) s.profiles (group_by_aid-IsFunctional cs [] tt)
    ∙ ap (λ o. on_some (with_peers o) (lookup k s.profiles)) (lookup-group_by_aid k cs [])
