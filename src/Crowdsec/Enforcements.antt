-- ===== src/Crowdsec/Enforcements.antt =====
-- plugins/crowdsec/services/policies.py: which CrowdSec decisions an ASN ban owns, and how the
-- enforcements are brought in line with the decisions after a sync.
pub mod Ownership
use open_sec_dash.Prelude.{
  ℕ, String, Bool, true, false, not, ◌&&◌, Option, none, some, List, [], ◌∷◌, ◌==◌, nat_eq, is_some,
  select, if◌then◌else◌,
}
use open_sec_dash.Prelude.Text.{Text, codes, text_eq}
use open_sec_dash.Prelude.Sums.{find}
use open_sec_dash.Crowdsec.Asn.{policy_scenario}

pub record CrowdSecDecision : Type 0 where
  pub decision_id : Text
  pub ip : Text
  pub decision_type : Text
  pub origin : Option Text
  pub scenario : Option Text
  pub until : Option ℕ

pub record Enforcement : Type 0 where
  pub id : ℕ
  pub asn_ban_id : ℕ
  pub ip : Text
  pub decision_id : Option Text
  pub decision_until : Option ℕ
  pub scenario : Option Text
  pub release_pending : Bool
  pub release_error : Option String

-- The id and the ASN of a row of crowdsec_asn_bans.
pub record Ban : Type 0 where
  pub id : ℕ
  pub asn : Text

-- `a == b` of two columns, the second not null
abbrev pub is_text : Option Text → Text → Bool
is_text none b = false
is_text (some a) b = a == b

-- The dictionary of the ban decisions by their id: a later row replaces an earlier one.
unfoldable pub decision_by_id : Text → List CrowdSecDecision → Option CrowdSecDecision
decision_by_id id [] = none
decision_by_id id (d ∷ decisions) =
    let later = decision_by_id id decisions in
    if is_some later
    then later
    else if d.decision_type == codes "ban" && d.decision_id == id
    then some d
    else none

abbrev scenario_of : Option Ban → Option Text
scenario_of none = none
scenario_of (some ban) = policy_scenario ban.asn

-- `policy_scenario(enforcement.asn_ban.asn)`; `none` where it raises.
abbrev pub expected_scenario : List Ban → Enforcement → Option Text
expected_scenario bans enforcement = scenario_of (find (λ b. b.id) enforcement.asn_ban_id bans)

-- The enforcement is this program's: its address, its origin and the scenario of its ban.
abbrev pub owns : Enforcement → Text → CrowdSecDecision → Bool
owns enforcement scenario decision =
    decision.ip == enforcement.ip
    && is_text decision.origin (codes "opensecdash")
    && is_text decision.scenario scenario

abbrev released : Option String → Enforcement → Enforcement
released error enforcement = record enforcement {
  decision_id = none;
  decision_until = none;
  scenario = none;
  release_pending = false;
  release_error = error;
}

unfoldable pub reconciled : Text → Enforcement → Option CrowdSecDecision → Enforcement
reconciled scenario enforcement none = released none enforcement
reconciled scenario enforcement (some decision) =
    if not (owns enforcement scenario decision)
    then released (some "Stored decision no longer matches ASN policy ownership") enforcement
    else record enforcement { decision_until = decision.until; scenario = decision.scenario }

with_scenario : List CrowdSecDecision → Enforcement → Text → Option Text → Option Enforcement
with_scenario decisions enforcement id none = none
with_scenario decisions enforcement id (some scenario) =
    some (reconciled scenario enforcement (decision_by_id id decisions))

-- Enforcements without a decision are not selected.
reconcile_one : List Ban → List CrowdSecDecision → Enforcement → Option Text → Option Enforcement
unfolding with_scenario
reconcile_one bans decisions enforcement none = some enforcement
reconcile_one bans decisions enforcement (some id) =
    with_scenario decisions enforcement id (expected_scenario bans enforcement)

abbrev pub both {ℓ} : {A : Type ℓ} → Option A → Option (List A) → Option (List A)
both none rest = none
both (some a) none = none
both (some a) (some rest) = some (a ∷ rest)

-- `none` where the scenario of a ban cannot be formed.
unfoldable pub reconcile_enforcements_after_sync :
    List Ban → List CrowdSecDecision → List Enforcement → Option (List Enforcement)
unfolding reconcile_one
reconcile_enforcements_after_sync bans decisions [] = some []
reconcile_enforcements_after_sync bans decisions (enforcement ∷ enforcements) =
    both (reconcile_one bans decisions enforcement enforcement.decision_id)
      (reconcile_enforcements_after_sync bans decisions enforcements)
