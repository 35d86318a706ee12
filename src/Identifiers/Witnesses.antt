-- ===== src/Identifiers/Witnesses.antt =====
-- `getAvailableWitnesses`. The configuration of the agent is an argument, and the parser of URLs a
-- parameter: the role that the query string of a URL names, or an error.
use veridian_wallet.Base.{
  ℕ, zero, suc, ◌-◌, Bool, false, Option, none, some, List, [], ◌∷◌, ◌++◌, take, length, any,
  Result, ok, err, ◌>>=◌, leb, if◌then◌else◌,
}
use veridian_wallet.Base.Text.{Text, codes, text_eq, starts_with, split, push_head}

pub data WitnessError : Type 0 where
  misconfigured_agent_configuration insufficient_witnesses_available : WitnessError
  -- What `new URL` throws, and the TypeError of `split("/oobi/")[1].split`.
  invalid_url no_oobi_path : WitnessError

pub record Witness : Type 0 where
  pub eid : Text
  pub oobi : Text

pub record Available : Type 0 where
  pub toad : ℕ
  pub witnesses : List Witness

-- `s.split(sep)` for a separator of at least one code unit; `skip` code units are of a separator.
unfoldable pub split_text : Text → ℕ → Text → List Text
split_text sep skip [] = [] ∷ []
split_text sep (suc skip) (c ∷ s) = split_text sep skip s
split_text sep zero (c ∷ s) =
    let here = split_text sep (length sep - 1) s in
    let later = split_text sep zero s in
    if starts_with sep (c ∷ s) then [] ∷ here else push_head c later

abbrev pub second : List Text → Option Text
second (p ∷ q ∷ ps) = some q
second _ = none

abbrev pub first : List Text → Text
first [] = []
first (p ∷ ps) = p

abbrev pub eid_in : Option Text → Result WitnessError Text
eid_in none = err no_oobi_path
eid_in (some s) = ok (first (split b'/' s))

-- `oobi.split("/oobi/")[1].split("/")[0]`.
unfoldable pub eid_of : Text → Result WitnessError Text
eid_of oobi = eid_in (second (split_text (codes "/oobi/") 0 oobi))

abbrev pub is_witness : Option Text → Bool
is_witness none = false
is_witness (some role) = text_eq role (codes "witness")

-- `Map.set` where the key is not there, for one list of the values.
abbrev pub has_eid : Text → List Witness → Bool
has_eid e ws = any (λ w. text_eq w.eid e) ws

abbrev pub set_new : Witness → List Witness → List Witness
set_new w seen = if has_eid w.eid seen then seen else seen ++ (w ∷ [])

unfoldable pub unique : List Witness → List Witness → List Witness
unique seen [] = seen
unique seen (w ∷ ws) = unique (set_new w seen) ws

unfoldable pub choose : List Witness → Result WitnessError Available
choose ws =
    let n = length ws in
    if leb 12 n
    then ok (record { toad = 8; witnesses = take 12 ws })
    else if leb 10 n
    then ok (record { toad = 7; witnesses = take 10 ws })
    else if leb 9 n
    then ok (record { toad = 6; witnesses = take 9 ws })
    else if leb 7 n
    then ok (record { toad = 5; witnesses = take 7 ws })
    else if leb 6 n
    then ok (record { toad = 4; witnesses = take 6 ws })
    else err insufficient_witnesses_available

abbrev pub push_witness :
    Text
    → Result WitnessError Text
    → Result WitnessError (List Witness)
    → Result WitnessError (List Witness)
push_witness oobi (err e) rest = err e
push_witness oobi (ok eid) (err e) = err e
push_witness oobi (ok eid) (ok ws) = ok ((record { eid = eid; oobi = oobi }) ∷ ws)

-- A round of the loop, with what is thrown and found after it.
abbrev pub with_role :
    Text
    → Option (Option Text)
    → Result WitnessError (List Witness)
    → Result WitnessError (List Witness)
with_role oobi none rest = err invalid_url
with_role oobi (some role) rest =
    if is_witness role then push_witness oobi (eid_of oobi) rest else rest

module _ (role_of : Text → Option (Option Text)) where
  -- The loop over `config.iurls`.
  unfoldable pub witnesses_in : List Text → Result WitnessError (List Witness)
  witnesses_in [] = ok []
  witnesses_in (oobi ∷ oobis) = with_role oobi (role_of oobi) (witnesses_in oobis)

  abbrev pub of_urls : Option (List Text) → Result WitnessError Available
  of_urls none = err misconfigured_agent_configuration
  of_urls (some oobis) = do ws ← witnesses_in oobis; choose (unique [] ws)

  unfoldable pub get_available_witnesses : Option (List Text) → Result WitnessError Available
  get_available_witnesses iurls = of_urls iurls
