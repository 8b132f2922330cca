-- ===== src/Crowdsec/ProviderReview.antt =====
-- plugins/crowdsec/services/policies.py: how an ASN ban notices that its provider has changed.
--
-- `compare_as` is `_provider_comparison_value`, which normalizes a name with Python's Unicode
-- tables and regular expressions. `now` is `utc_now()`. The event that the source stores when a
-- change is confirmed is the second component of the result.
pub mod Evidence
pub mod Runs
use open_sec_dash.Prelude.{
  ℕ, ◌+◌, Bool, true, false, not, ◌&&◌, ◌||◌, String, Option, none, some, List, [], ◌∷◌, ◌==◌,
  nat_eq, ltb, take, if◌then◌else◌,
}
use open_sec_dash.Prelude.Text.{Text, text_eq, strip}

abbrev pub provider_change_min_observations : ℕ
provider_change_min_observations = 3

-- The columns of an ASN ban that the review works on.
pub record AsnBan : Type 0 where
  pub id : ℕ
  pub asn : Text
  pub provider_name : Option Text
  pub previous_provider_name : Option Text
  pub provider_review_required : Bool
  pub provider_name_changed_at : Option ℕ
  pub provider_reviewed_at : Option ℕ
  pub provider_candidate_name : Option Text
  pub provider_candidate_first_ip : Option Text
  pub provider_candidate_last_event_id : Option ℕ
  pub provider_candidate_observations : ℕ
  pub provider_candidate_distinct_ip_seen : Bool
  pub last_matched_at : Option ℕ

pub record Event : Type 0 where
  pub id : ℕ
  pub ip : Option Text
  pub asn_organization : Option Text
  pub event_time : ℕ

-- security.asn_ban.provider_changed
pub record ProviderChanged : Type 0 where
  pub asn : Text
  pub asn_ban_id : ℕ
  pub previous_provider_name : Option Text
  pub provider_name : Option Text
  pub provider_name_changed_at : ℕ

-- `str(value or "")`
abbrev pub text_or_empty : Option Text → Text
text_or_empty none = []
text_or_empty (some s) = s

abbrev pub is_blank : Text → Bool
is_blank [] = true
is_blank (c ∷ s) = false

unfoldable pub organization : Event → Text
organization event = take 255 (strip (text_or_empty event.asn_organization))

abbrev pub same_ip : Option Text → Option Text → Bool
same_ip none none = true
same_ip none (some b) = false
same_ip (some a) none = false
same_ip (some a) (some b) = a == b

abbrev pub is_event : Option ℕ → ℕ → Bool
is_event none id = false
is_event (some last) id = last == id

unfoldable pub clear_provider_candidate : AsnBan → AsnBan
clear_provider_candidate policy = record policy {
  provider_candidate_name = none;
  provider_candidate_first_ip = none;
  provider_candidate_last_event_id = none;
  provider_candidate_observations = 0;
  provider_candidate_distinct_ip_seen = false;
}

unfoldable pub new_candidate : AsnBan → Event → Text → AsnBan
new_candidate policy event name = record policy {
  provider_candidate_name = some name;
  provider_candidate_first_ip = event.ip;
  provider_candidate_last_event_id = some event.id;
  provider_candidate_observations = 1;
  provider_candidate_distinct_ip_seen = false;
}

unfoldable pub observed_again : AsnBan → Event → AsnBan
observed_again policy event = record policy {
  provider_candidate_last_event_id = some event.id;
  provider_candidate_observations = policy.provider_candidate_observations + 1;
  provider_candidate_distinct_ip_seen =
      if same_ip policy.provider_candidate_first_ip event.ip
      then policy.provider_candidate_distinct_ip_seen
      else true;
}

unfoldable pub confirmed : ℕ → AsnBan → AsnBan
unfolding clear_provider_candidate
confirmed now policy = clear_provider_candidate (record policy {
  previous_provider_name = policy.provider_name;
  provider_name = policy.provider_candidate_name;
  provider_name_changed_at = some now;
  provider_review_required = true;
})

abbrev pub changed_event : ℕ → AsnBan → ProviderChanged
changed_event now policy = record {
  asn = policy.asn;
  asn_ban_id = policy.id;
  previous_provider_name = policy.provider_name;
  provider_name = policy.provider_candidate_name;
  provider_name_changed_at = now;
}

abbrev pub Recorded : Type 0
Recorded = AsnBan × Option ProviderChanged

-- The candidate is named again.
unfoldable pub confirm_candidate : ℕ → AsnBan → Recorded
confirm_candidate now policy =
    if ltb policy.provider_candidate_observations provider_change_min_observations
      || not policy.provider_candidate_distinct_ip_seen
    then (policy, none)
    else (confirmed now policy, some (changed_event now policy))

unfoldable pub observe_candidate : ℕ → AsnBan → Event → Recorded
observe_candidate now policy event =
    if is_event policy.provider_candidate_last_event_id event.id
    then (policy, none)
    else confirm_candidate now (observed_again policy event)

module _ (compare_as : Text → Text) where
  -- The stored text is there and compares equal to the name.
  abbrev pub is_same_provider : Option Text → Text → Bool
  is_same_provider stored name =
      not (is_blank (text_or_empty stored)) && compare_as (text_or_empty stored) == compare_as name

  unfoldable pub compare_provider : ℕ → AsnBan → Event → Text → Recorded
  compare_provider now policy event name =
      if is_same_provider policy.provider_name name
      then (clear_provider_candidate policy, none)
      else if policy.provider_review_required
      then (policy, none)
      else if not (is_same_provider policy.provider_candidate_name name)
      then (new_candidate policy event name, none)
      else observe_candidate now policy event

  unfoldable pub record_policy_match : ℕ → AsnBan → Event → Recorded
  record_policy_match now policy event =
      let matched = record policy { last_matched_at = some event.event_time } in
      if is_blank (organization event)
      then (matched, none)
      else if is_blank (text_or_empty policy.provider_name)
      then (record matched { provider_name = some (organization event) }, none)
      else compare_provider now matched event (organization event)

-- `expected` is the time that the request acknowledges; `none` is the ValueError.
unfoldable pub acknowledge_provider_change : ℕ → AsnBan → ℕ → Option AsnBan
acknowledge_provider_change now policy expected =
    if not (is_event policy.provider_name_changed_at expected)
    then none
    else some (record policy { provider_review_required = false; provider_reviewed_at = some now })
