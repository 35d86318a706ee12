-- ===== src/Identifiers/Rerun.antt =====
-- The names that are queued for creation, when they are run again.
use veridian_wallet.Base.{
  ℕ, ◌≡◌, refl, inl, inr, Bool-cases, true, Option, none, some, List, [], ◌∷◌, All, any, Result, ok,
  err, arith, ==_iff, ◌==◌,
}
use mathlib.Core.Path.{subst}
use veridian_wallet.Base.Text.{Text, trim_start, is_space}
use veridian_wallet.HabName.Format.{IsFormattable}
use veridian_wallet.Storage.{StorageService}
use veridian_wallet.SeedPhrase.Deadline.{verified_now}
use veridian_wallet.Identifiers.{
  Hab, search_by_name, CreateError, already_incepted, SaveError, record_already_exists, Available,
  get_available_witnesses, ui_themes, Metadata, Keria, is_ui_theme, theme_text, parse_int,
  read_digits, parts_of, create_identifier, Method, agent_of,
}
use veridian_wallet.Identifiers.Queue.{IsQueued, Agent}

-- What was created by the wallet: an accepted theme, and parts without colons.
pub record IsAcceptable (m : Metadata) : Type 0 where
  pub theme : is_ui_theme m.theme ≡ true
  pub formattable : IsFormattable (parts_of m)

abbrev IsReadBack : ℕ → Type 0
IsReadBack t = parse_int (theme_text (some t)) ≡ some t

-- What all numbers of a list are, one that is among them is.
pub any-All : (P : ℕ → Type 0) (t : ℕ) (ts : List ℕ) → All P ts → any (λ u. u == t) ts ≡ true → P t
any-All P t [] h k = absurd (ground arith)
any-All P t (u ∷ ts) (here, h) k = elim (Bool-cases (u == t)) [
  | inl e ↦ subst P ((==_iff u t).0 e) here
  | inr e ↦ any-All P t ts h (ground arith)
]

ui_themes_lem : All IsReadBack ui_themes
unfolding parse_int read_digits trim_start is_space
ui_themes_lem = (
  refl,
  (
    refl,
    (
      refl,
      (
        refl,
        (
          refl,
          (
            refl,
            (
              refl,
              (
                refl,
                (
                  refl,
                  (
                    refl,
                    (
                      refl,
                      (refl, (refl, (refl, (refl, (refl, (refl, (refl, (refl, (refl, tt))))))))),
                    ),
                  ),
                ),
              ),
            ),
          ),
        ),
      ),
    ),
  ),
)

pub parse_int-theme_text : (t : Option ℕ) → is_ui_theme t ≡ true → parse_int (theme_text t) ≡ t
parse_int-theme_text none h = absurd (ground arith)
parse_int-theme_text (some t) h = any-All IsReadBack t ui_themes ui_themes_lem h

module _ (service : StorageService) {R : Type 0} (keria : Keria R) (fuel : ℕ) where
  open service use {find_by_id}

  -- An inception that goes through, or one whose name is taken and found by the search.
  pub data Incepts (name : Text) (x : Result CreateError Text × R) : Type 0 where
    created : (prefix : Text) (r : R) → x ≡ (ok prefix, r) → Incepts name x
    taken :
        (h : Hab) (r : R)
        → x ≡ (err already_incepted, r)
        → search_by_name (keria.list r) fuel name ≡ some (some h)
        → Incepts name x

  -- A record that is saved, or is there already.
  pub data IsThere (x : Result SaveError (Unit {0}) × R) : Type 0 where
    saved : (r : R) → x ≡ (ok tt, r) → IsThere x
    there : (r : R) → x ≡ (err record_already_exists, r) → IsThere x

  -- The agent is online, and KERIA has enough witnesses and does what it is asked to, and records are saved, whatever
  -- happened before; names may be taken and records may be there.
  pub record IsServing : Type 0 where
    pub has_agent : (r : R) → keria.has_agent r ≡ true
    pub is_online : (r : R) → keria.is_online r ≡ true
    pub available : Available
    pub witnesses : (r : R) → get_available_witnesses keria.role_of (keria.iurls r) ≡ ok available
    pub incepts : (name : Text) (r : R) → Incepts name (keria.create name available r)
    pub gets : (prefix : Text) (r : R) → (t : ℕ) × (r' : R) × (keria.get prefix r ≡ (ok t, r'))
    pub adds : (prefix : Text) (r : R) → (r' : R) × (keria.add_end_role prefix r ≡ (ok tt, r'))
    pub saves :
        (prefix : Text) (m : Metadata) (t : ℕ) (r : R) → IsThere (keria.save_metadata prefix m t r)
    pub pends : (prefix : Text) (r : R) → (r' : R) × (keria.save_operation prefix r ≡ (ok tt, r'))

  -- While the agent takes the seed phrase for verified, the decorator lets a method through and
  -- counts nothing; what is kept is that it is so taken.
  abbrev pub IsVerified : Agent service keria fuel → Type 0
  IsVerified s = verified_now service (agent_of service keria fuel s) ≡ true

  -- A creation that returns and takes its name out.
  record Creates (now : ℕ) (m : Metadata) (s : Agent service keria fuel) (ns : List Text)
      : Type 0 where
    pub value : Text × ℕ
    pub after : Agent service keria fuel
    pub ends : create_identifier service keria fuel now m true s ≡ (ok value, after)
    pub same_cache : after.cache ≡ s.cache
    pub names : IsQueued service after.stored ns

  -- A step that returns, after which the seed phrase is still taken for verified.
  record Drops (m : Method service keria fuel (Unit {0})) (s : Agent service keria fuel)
      (ns : List Text) : Type 0 where
    pub after : Agent service keria fuel
    pub ends : m s ≡ (ok tt, after)
    pub verified : IsVerified after
    pub names : IsQueued service after.stored ns
