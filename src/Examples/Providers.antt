-- ===== src/Examples/Providers.antt =====
-- An ASN ban whose events start to name another provider.
use open_sec_dash.Prelude.{ℕ, ◌≡◌, refl, String, false, none, some, List, [], ◌∷◌, length}
use open_sec_dash.Prelude.Text.{Text, codes, strip, text_eq}
use open_sec_dash.Crowdsec.ProviderReview.{
  AsnBan, Event, organization, clear_provider_candidate, record_policy_match, compare_provider,
  new_candidate, observe_candidate, observed_again, confirm_candidate, confirmed,
  acknowledge_provider_change,
}
use open_sec_dash.Crowdsec.ProviderReview.Runs.{
  Step, matched, acknowledged, AreEvident, seen, review, review-AreEvident,
}

abbrev same : Text → Text
same name = name

abbrev ban : AsnBan
ban = record {
  id = 1;
  asn = codes "AS64500";
  provider_name = some (codes "Old");
  previous_provider_name = none;
  provider_review_required = false;
  provider_name_changed_at = none;
  provider_reviewed_at = none;
  provider_candidate_name = none;
  provider_candidate_first_ip = none;
  provider_candidate_last_event_id = none;
  provider_candidate_observations = 0;
  provider_candidate_distinct_ip_seen = false;
  last_matched_at = none;
}

event : ℕ → String → Event
event id ip = record {
  id = id;
  ip = some (codes ip);
  asn_organization = some (codes " New ");
  event_time = id;
}

abbrev steps : List Step
steps =
    matched 1 (event 1 "198.51.100.1")
    ∷ matched 2 (event 2 "198.51.100.2")
    ∷ acknowledged 3 9
    ∷ matched 4 (event 4 "198.51.100.1")
    ∷ matched 5 (event 5 "198.51.100.1")
    ∷ []

review-AreEvident_example :
    AreEvident same (seen [] steps) (review same (clear_provider_candidate ban) steps).1
review-AreEvident_example = review-AreEvident same ban steps

-- The third event raises the change, and the fourth raises no other.
one_change : length (review same (clear_provider_candidate ban) steps).1 ≡ 1
unfolding event review record_policy_match organization compare_provider new_candidate strip
    observe_candidate observed_again confirm_candidate confirmed clear_provider_candidate
    acknowledge_provider_change
one_change = refl
