-- ===== src/Crowdsec/ProviderReview/Runs.antt =====
-- The life of an ASN ban's provider name: matched events and acknowledgements, in any order.
use open_sec_dash.Prelude.{ℕ, ◌≡◌, refl, Option, none, some, List, [], ◌∷◌, Bool-cases, inl, inr}
use open_sec_dash.Prelude.Text.{Text}
use open_sec_dash.Crowdsec.ProviderReview.{
  AsnBan, Event, ProviderChanged, is_event, record_policy_match, clear_provider_candidate,
  acknowledge_provider_change,
}
use open_sec_dash.Crowdsec.ProviderReview.Evidence.{
  IsEvident, IsBacked, IsEvident-later, cleared-IsBacked, record_policy_match-IsSound,
}

-- At a time, an event matches the ban, or a request acknowledges a change.
pub data Step : Type 0 where
  matched : ℕ → Event → Step
  acknowledged : ℕ → ℕ → Step

-- The events of the steps, the newest first, before those that came earlier.
abbrev pub seen : List Event → List Step → List Event
seen history [] = history
seen history (matched now event ∷ steps) = seen (event ∷ history) steps
seen history (acknowledged now expected ∷ steps) = seen history steps

abbrev or_same : AsnBan → Option AsnBan → AsnBan
or_same policy none = policy
or_same policy (some policy') = policy'

abbrev and_raised :
    Option ProviderChanged → AsnBan × List ProviderChanged → AsnBan × List ProviderChanged
and_raised none (policy, changes) = (policy, changes)
and_raised (some change) (policy, changes) = (policy, change ∷ changes)

pub AreEvident : (Text → Text) → List Event → List ProviderChanged → Type 0
AreEvident compare_as history [] = Unit
AreEvident compare_as history (change ∷ changes) =
    IsEvident compare_as history change × AreEvident compare_as history changes

module _ (compare_as : Text → Text) where
  unfoldable pub review : AsnBan → List Step → AsnBan × List ProviderChanged
  review policy [] = (policy, [])
  review policy (matched now event ∷ steps) =
      let (policy', raised) = record_policy_match compare_as now policy event in
      and_raised raised (review policy' steps)
  review policy (acknowledged now expected ∷ steps) =
      review (or_same policy (acknowledge_provider_change now policy expected)) steps

  acknowledge-IsBacked :
      (history : List Event) (policy : AsnBan) (now expected : ℕ)
      → IsBacked compare_as history policy
      → IsBacked compare_as history
          (or_same policy (acknowledge_provider_change now policy expected))
  unfolding acknowledge_provider_change
  acknowledge-IsBacked history policy now expected h =
      elim (Bool-cases (is_event policy.provider_name_changed_at expected)) [
        | inl e ↦ rw e (record {
          counted = h.counted;
          first_seen = h.first_seen;
          distinct_seen = h.distinct_seen;
        })
        | inr e ↦ rw e h
      ]

  IsEvident-seen :
      (history : List Event) (steps : List Step) (change : ProviderChanged)
      → IsEvident compare_as history change
      → IsEvident compare_as (seen history steps) change
  IsEvident-seen history [] change h = h
  IsEvident-seen history (matched now event ∷ steps) change h =
      IsEvident-seen (event ∷ history) steps change
        (IsEvident-later compare_as event history change h)
  IsEvident-seen history (acknowledged now expected ∷ steps) change h =
      IsEvident-seen history steps change h

  and_raised-AreEvident :
      (history : List Event) (raised : Option ProviderChanged)
      (rest : AsnBan × List ProviderChanged)
      → ((change : ProviderChanged) → raised ≡ some change → IsEvident compare_as history change)
      → AreEvident compare_as history rest.1
      → AreEvident compare_as history (and_raised raised rest).1
  unfolding AreEvident
  and_raised-AreEvident history none rest h all = all
  and_raised-AreEvident history (some change) rest h all = (h change refl, all)

  backed-AreEvident :
      (history : List Event) (policy : AsnBan) (steps : List Step)
      → IsBacked compare_as history policy
      → AreEvident compare_as (seen history steps) (review policy steps).1
  unfolding review AreEvident
  backed-AreEvident history policy [] h = tt
  backed-AreEvident history policy (matched now event ∷ steps) h =
      let sound = record_policy_match-IsSound compare_as history policy event now h in
      and_raised-AreEvident (seen (event ∷ history) steps) _ _
        (λ change e. IsEvident-seen (event ∷ history) steps change (sound.evident change e))
        (backed-AreEvident (event ∷ history) _ steps sound.backed)
  backed-AreEvident history policy (acknowledged now expected ∷ steps) h =
      backed-AreEvident history _ steps (acknowledge-IsBacked history policy now expected h)

  -- However an ASN ban without a candidate is matched and acknowledged from then on, each change
  -- of provider that it raises rests on the matched events: at least three of them name a provider
  -- that compares equal to the new name, at two different addresses at least.
  pub review-AreEvident :
      (policy : AsnBan) (steps : List Step)
      → AreEvident compare_as (seen [] steps) (review (clear_provider_candidate policy) steps).1
  review-AreEvident policy steps =
      backed-AreEvident [] (clear_provider_candidate policy) steps
        (cleared-IsBacked compare_as [] policy)
