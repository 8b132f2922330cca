-- ===== src/Crowdsec/ProviderReview/Evidence.antt =====
-- A change of provider is only raised on the evidence of several events.
use open_sec_dash.Prelude.{
  ℕ, ◌≤◌, ◌<◌, ◌≡◌, refl, Bool, true, false, not, ◌&&◌, ◌||◌, Option, none, some, List, ◌∷◌, nat_eq,
  ltb, if◌then◌else◌, arith, Bool-cases, inl, inr, beq_refl, subst,
}
use open_sec_dash.Prelude.Text.{Text, text_eq}
use open_sec_dash.Prelude.Sums.{sum_by, count}
use open_sec_dash.Crowdsec.ProviderReview.{
  AsnBan, Event, ProviderChanged, Recorded, provider_change_min_observations, text_or_empty,
  is_blank, organization, same_ip, is_event, is_same_provider, clear_provider_candidate,
  new_candidate, observed_again, confirmed, changed_event, confirm_candidate, observe_candidate,
  compare_provider, record_policy_match,
}

same_ip_refl : (ip : Option Text) → same_ip ip ip ≡ true
same_ip_refl none = refl
same_ip_refl (some a) = beq_refl a

module _ (compare_as : Text → Text) where
  -- The event gives its address a provider that compares equal to the name.
  abbrev pub names : Option Text → Event → Bool
  names name event = is_same_provider compare_as name (organization event)

  abbrev pub names_at : Option Text → Option Text → Event → Bool
  names_at name ip event = names name event && same_ip ip event.ip

  abbrev pub names_elsewhere : Option Text → Option Text → Event → Bool
  names_elsewhere name ip event = names name event && not (same_ip ip event.ip)

  -- What the events have to show for a change: three that name the provider, at two addresses.
  pub record IsEvident (history : List Event) (change : ProviderChanged) : Type 0 where
    pub enough : 3 ≤ count (names change.provider_name) history
    pub address : Option Text
    pub at_address : 0 < count (names_at change.provider_name address) history
    pub elsewhere : 0 < count (names_elsewhere change.provider_name address) history

  -- The candidate's columns claim no more than the events show.
  pub record IsBacked (history : List Event) (policy : AsnBan) : Type 0 where
    pub counted :
        policy.provider_candidate_observations
        ≤ count (names policy.provider_candidate_name) history
    pub first_seen :
        is_blank (text_or_empty policy.provider_candidate_name) ≡ false
        → 0
          < count
              (names_at policy.provider_candidate_name policy.provider_candidate_first_ip)
              history
    pub distinct_seen :
        policy.provider_candidate_distinct_ip_seen ≡ true
        → 0
          < count
              (names_elsewhere policy.provider_candidate_name policy.provider_candidate_first_ip)
              history

  pub IsBacked-later :
      (event : Event) (history : List Event) (policy : AsnBan)
      → IsBacked history policy
      → IsBacked (event ∷ history) policy
  unfolding sum_by
  IsBacked-later event history policy h = record {
    counted = omega (arith, h.counted);
    first_seen = λ e. omega (arith, h.first_seen e);
    distinct_seen = λ e. omega (arith, h.distinct_seen e);
  }

  pub IsEvident-later :
      (event : Event) (history : List Event) (change : ProviderChanged)
      → IsEvident history change
      → IsEvident (event ∷ history) change
  unfolding sum_by
  IsEvident-later event history change h = record {
    enough = omega (arith, h.enough);
    address = h.address;
    at_address = omega (arith, h.at_address);
    elsewhere = omega (arith, h.elsewhere);
  }

  pub cleared-IsBacked :
      (history : List Event) (policy : AsnBan) → IsBacked history (clear_provider_candidate policy)
  unfolding clear_provider_candidate
  cleared-IsBacked history policy = record {
    counted = omega arith;
    first_seen = λ e. absurd (ground arith);
    distinct_seen = λ e. absurd (ground arith);
  }

  confirmed-IsBacked :
      (history : List Event) (policy : AsnBan) (now : ℕ) → IsBacked history (confirmed now policy)
  unfolding confirmed
  confirmed-IsBacked history policy now = cleared-IsBacked history (record policy {
    previous_provider_name = policy.provider_name;
    provider_name = policy.provider_candidate_name;
    provider_name_changed_at = some now;
    provider_review_required = true;
  })

  new_candidate-IsBacked :
      (history : List Event) (policy : AsnBan) (event : Event)
      → is_blank (organization event) ≡ false
      → IsBacked (event ∷ history) (new_candidate policy event (organization event))
  unfolding new_candidate sum_by
  new_candidate-IsBacked history policy event named = record {
    counted = rw (named, beq_refl (compare_as (organization event))) (omega arith);
    first_seen = λ e.
        rw (named, beq_refl (compare_as (organization event)), same_ip_refl event.ip) (omega arith);
    distinct_seen = λ e. absurd (ground arith);
  }

  observed_again-IsBacked :
      (history : List Event) (policy : AsnBan) (event : Event)
      → names policy.provider_candidate_name event ≡ true
      → IsBacked history policy
      → IsBacked (event ∷ history) (observed_again policy event)
  unfolding observed_again sum_by
  observed_again-IsBacked history policy event named h = record {
    counted = rw named (omega (arith, h.counted));
    first_seen = λ e. omega (arith, h.first_seen e);
    distinct_seen = λ e. elim (Bool-cases (same_ip policy.provider_candidate_first_ip event.ip)) [
      | inl s ↦
          let d : policy.provider_candidate_distinct_ip_seen ≡ true = ground arith in
          omega (arith, h.distinct_seen d)
      | inr s ↦ rw (named, s) (omega arith)
    ];
  }

  -- A step keeps the columns backed, and what it raises is evident.
  pub record IsSound (history : List Event) (recorded : Recorded) : Type 0 where
    pub backed : IsBacked history recorded.0
    pub evident : (change : ProviderChanged) → recorded.1 ≡ some change → IsEvident history change

  silent-IsSound :
      (history : List Event) (policy : AsnBan)
      → IsBacked history policy
      → IsSound history (policy, none)
  silent-IsSound history policy h = record {
    backed = h;
    evident = λ change e. absurd (ground arith);
  }

  if-IsSound :
      (history : List Event) (b : Bool) (x y : Recorded)
      → IsSound history x
      → IsSound history y
      → IsSound history (if b then x else y)
  if-IsSound history true x y hx hy = hx
  if-IsSound history false x y hx hy = hy

  changed-IsEvident :
      (history : List Event) (policy : AsnBan) (now : ℕ)
      → IsBacked history policy
      → (ltb policy.provider_candidate_observations provider_change_min_observations
          || not policy.provider_candidate_distinct_ip_seen)
        ≡ false
      → is_blank (text_or_empty policy.provider_candidate_name) ≡ false
      → IsEvident history (changed_event now policy)
  changed-IsEvident history policy now h enough named =
      let d : policy.provider_candidate_distinct_ip_seen ≡ true = ground arith in
      record {
        enough = ground (arith, h.counted);
        address = policy.provider_candidate_first_ip;
        at_address = h.first_seen named;
        elsewhere = h.distinct_seen d;
      }

  confirm_candidate-IsSound :
      (history : List Event) (policy : AsnBan) (now : ℕ)
      → IsBacked history policy
      → is_blank (text_or_empty policy.provider_candidate_name) ≡ false
      → IsSound history (confirm_candidate now policy)
  unfolding confirm_candidate
  confirm_candidate-IsSound history policy now h named =
      let few =
        ltb policy.provider_candidate_observations provider_change_min_observations
        || not policy.provider_candidate_distinct_ip_seen in
      elim (Bool-cases few) [
        | inl e ↦ rw e (silent-IsSound history policy h)
        | inr e ↦ rw e (record {
          backed = confirmed-IsBacked history policy now;
          evident = λ change c.
              let same : changed_event now policy ≡ change = ground arith in
              subst (λ r. IsEvident history r) same
                (changed-IsEvident history policy now h e named);
        })
      ]

  observe_candidate-IsSound :
      (history : List Event) (policy : AsnBan) (event : Event) (now : ℕ)
      → names policy.provider_candidate_name event ≡ true
      → IsBacked history policy
      → IsSound (event ∷ history) (observe_candidate now policy event)
  unfolding observe_candidate observed_again
  observe_candidate-IsSound history policy event now named h =
      elim (Bool-cases (is_event policy.provider_candidate_last_event_id event.id)) [
        | inl e ↦
            rw e (silent-IsSound (event ∷ history) policy (IsBacked-later event history policy h))
        | inr e ↦ rw e (
            confirm_candidate-IsSound (event ∷ history) (observed_again policy event) now
              (observed_again-IsBacked history policy event named h) (ground arith))
      ]

  compare_provider-IsSound :
      (history : List Event) (policy : AsnBan) (event : Event) (now : ℕ)
      → is_blank (organization event) ≡ false
      → IsBacked history policy
      → IsSound
          (event ∷ history)
          (compare_provider compare_as now policy event (organization event))
  unfolding compare_provider
  compare_provider-IsSound history policy event now named h =
      let later = silent-IsSound (event ∷ history) policy (IsBacked-later event history policy h) in
      let same = is_same_provider compare_as policy.provider_name (organization event) in
      elim (Bool-cases same) [
        | inl e ↦
            rw e (silent-IsSound (event ∷ history) _ (cleared-IsBacked (event ∷ history) policy))
        | inr e ↦ rw e (
            if-IsSound (event ∷ history) policy.provider_review_required _ _ later
              (elim (Bool-cases (names policy.provider_candidate_name event)) [
                | inl c ↦ rw c (observe_candidate-IsSound history policy event now c h)
                | inr c ↦ rw c (
                    silent-IsSound (event ∷ history) _
                      (new_candidate-IsBacked history policy event named))
              ]))
      ]

  -- The candidate's columns are all that being backed is about.
  same_candidate-IsBacked :
      (history : List Event) (policy : AsnBan) (provider : Option Text) (matched : Option ℕ)
      → IsBacked history policy
      → IsBacked history (record policy { provider_name = provider; last_matched_at = matched })
  same_candidate-IsBacked history policy provider matched h = record {
    counted = h.counted;
    first_seen = h.first_seen;
    distinct_seen = h.distinct_seen;
  }

  pub record_policy_match-IsSound :
      (history : List Event) (policy : AsnBan) (event : Event) (now : ℕ)
      → IsBacked history policy
      → IsSound (event ∷ history) (record_policy_match compare_as now policy event)
  unfolding record_policy_match
  record_policy_match-IsSound history policy event now h =
      let seen = some event.event_time in
      let later = IsBacked-later event history policy h in
      elim (Bool-cases (is_blank (organization event))) [
        | inl b ↦ rw b (
            silent-IsSound (event ∷ history) (record policy { last_matched_at = seen })
              (same_candidate-IsBacked (event ∷ history) policy policy.provider_name seen later))
        | inr b ↦ rw b (elim (Bool-cases (is_blank (text_or_empty policy.provider_name))) [
          | inl e ↦ rw e (
              silent-IsSound (event ∷ history)
                (record policy {
                  provider_name = some (organization event);
                  last_matched_at = seen;
                })
                (same_candidate-IsBacked (event ∷ history) policy (some (organization event)) seen
                  later))
          | inr e ↦ rw e (
              compare_provider-IsSound history (record policy { last_matched_at = seen }) event now
                b (same_candidate-IsBacked history policy policy.provider_name seen h))
        ])
      ]
