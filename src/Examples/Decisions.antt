-- ===== src/Examples/Decisions.antt =====
-- A sync after which one decision is owned, one is gone and one belongs to somebody else.
use open_sec_dash.Prelude.{ℕ, ◌≡◌, refl, String, false, none, some, List, [], ◌∷◌}
use open_sec_dash.Prelude.Text.{codes, strip, upper}
use open_sec_dash.Crowdsec.Asn.{
  normalize_asn, read_number, without_as, decimal, digits_after, policy_scenario,
}
use open_sec_dash.Crowdsec.Enforcements.{
  CrowdSecDecision, Enforcement, Ban, reconcile_enforcements_after_sync,
}
use open_sec_dash.Crowdsec.Enforcements.Ownership.{AllOwn, reconcile-AllOwn}

abbrev bans : List Ban
bans = record { id = 1; asn = codes "AS64500" } ∷ []

decision : String → String → CrowdSecDecision
decision id origin = record {
  decision_id = codes id;
  ip = codes "198.51.100.1";
  decision_type = codes "ban";
  origin = some (codes origin);
  scenario = some (codes "opensecdash/manual-permanent-asn-ban/AS64500");
  until = some 9;
}

enforcement : ℕ → String → Enforcement
enforcement id decision_id = record {
  id = id;
  asn_ban_id = 1;
  ip = codes "198.51.100.1";
  decision_id = some (codes decision_id);
  decision_until = none;
  scenario = none;
  release_pending = false;
  release_error = none;
}

abbrev decisions : List CrowdSecDecision
decisions = decision "7" "opensecdash" ∷ decision "8" "cscli" ∷ []

abbrev enforcements : List Enforcement
enforcements = enforcement 1 "7" ∷ enforcement 2 "8" ∷ enforcement 3 "9" ∷ []

reconcile-AllOwn_example :
    (rows : List Enforcement) × (reconcile_enforcements_after_sync bans decisions enforcements
      ≡ some rows)
    × AllOwn bans decisions rows
unfolding enforcement policy_scenario normalize_asn read_number without_as upper decimal
    digits_after strip
reconcile-AllOwn_example = reconcile-AllOwn bans decisions enforcements refl
