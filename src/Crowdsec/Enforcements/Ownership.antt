-- ===== src/Crowdsec/Enforcements/Ownership.antt =====
-- After a sync, an enforcement refers to nothing but a decision that its ban owns.
use open_sec_dash.Prelude.{
  ◌≡◌, refl, String, Bool, true, ◌&&◌, Option, none, some, List, [], ◌∷◌, arith, ◌==◌, nat_eq,
  is_some, if◌then◌else◌, Bool-cases, Option-cases, inl, inr, eq_of_beq, subst,
}
use open_sec_dash.Prelude.Text.{Text, codes, text_eq}
use open_sec_dash.Crowdsec.Enforcements.{
  CrowdSecDecision, Enforcement, Ban, decision_by_id, expected_scenario, owns, released, reconciled,
  with_scenario, reconcile_one, reconcile_enforcements_after_sync,
}

-- The decision that an enforcement names is a stored ban with its id, for its address, from this
-- program and under its ban's scenario; the enforcement repeats its scenario and its end.
pub record IsOwned (bans : List Ban) (decisions : List CrowdSecDecision) (enforcement : Enforcement)
    (id : Text) : Type 0 where
  pub scenario : Text
  pub decision : CrowdSecDecision
  pub expected : expected_scenario bans enforcement ≡ some scenario
  pub stored : decision_by_id id decisions ≡ some decision
  pub is_ban : decision.decision_type ≡ codes "ban"
  pub has_id : decision.decision_id ≡ id
  pub owned : owns enforcement scenario decision ≡ true
  pub same_scenario : enforcement.scenario ≡ decision.scenario
  pub same_until : enforcement.decision_until ≡ decision.until

pub OwnsDecision : List Ban → List CrowdSecDecision → Enforcement → Type 0
OwnsDecision bans decisions enforcement =
    (id : Text) → enforcement.decision_id ≡ some id → IsOwned bans decisions enforcement id

pub AllOwn : List Ban → List CrowdSecDecision → List Enforcement → Type 0
AllOwn bans decisions [] = Unit
AllOwn bans decisions (e ∷ rows) = OwnsDecision bans decisions e × AllOwn bans decisions rows

-- Every enforcement belongs to a stored ban, and the ban's ASN has a normal form.
abbrev pub all_formed : List Ban → List Enforcement → Bool
all_formed bans [] = true
all_formed bans (e ∷ rows) = is_some (expected_scenario bans e) && all_formed bans rows

matches : Text → CrowdSecDecision → Bool
matches id d = d.decision_type == codes "ban" && d.decision_id == id

chosen-matches :
    (id : Text) (d decision : CrowdSecDecision) (later : Option CrowdSecDecision)
    → ((x : CrowdSecDecision) → later ≡ some x → matches id x ≡ true)
    → (if is_some later then later else if matches id d then some d else none) ≡ some decision
    → matches id decision ≡ true
chosen-matches id d decision (some x) h e = h decision e
chosen-matches id d decision none h e = elim (Bool-cases (matches id d)) [
  | inl m ↦ let same : d ≡ decision = ground arith in subst (λ x. matches id x ≡ true) same m
  | inr m ↦ absurd (ground arith)
]

decision_by_id-matches :
    (id : Text) (decisions : List CrowdSecDecision) (decision : CrowdSecDecision)
    → decision_by_id id decisions ≡ some decision
    → matches id decision ≡ true
unfolding decision_by_id matches
decision_by_id-matches id [] decision h = absurd (ground arith)
decision_by_id-matches id (d ∷ decisions) decision h =
    chosen-matches id d decision (decision_by_id id decisions)
      (λ x e. decision_by_id-matches id decisions x e) h

released-OwnsDecision :
    (bans : List Ban) (decisions : List CrowdSecDecision) (enforcement : Enforcement)
    (error : Option String)
    → OwnsDecision bans decisions (released error enforcement)
unfolding OwnsDecision
released-OwnsDecision bans decisions enforcement error id e = absurd (ground arith)

module _ (bans : List Ban) (decisions : List CrowdSecDecision) (enforcement : Enforcement) where
  kept-OwnsDecision :
      (id scenario : Text) (decision : CrowdSecDecision)
      → enforcement.decision_id ≡ some id
      → expected_scenario bans enforcement ≡ some scenario
      → decision_by_id id decisions ≡ some decision
      → owns enforcement scenario decision ≡ true
      → OwnsDecision bans decisions
          (record enforcement { decision_until = decision.until; scenario = decision.scenario })
  unfolding OwnsDecision matches
  kept-OwnsDecision id scenario decision named expected stored o id' e =
      let m = decision_by_id-matches id decisions decision stored in
      let same : id ≡ id' = ground arith in
      let owned : IsOwned bans decisions
          (record enforcement { decision_until = decision.until; scenario = decision.scenario })
          id =
        record {
          scenario = scenario;
          decision = decision;
          expected = expected;
          stored = stored;
          is_ban = eq_of_beq decision.decision_type (codes "ban") (ground arith);
          has_id = eq_of_beq decision.decision_id id (ground arith);
          owned = o;
          same_scenario = refl;
          same_until = refl;
        } in
      subst
        (λ x.
          IsOwned bans decisions
            (record enforcement { decision_until = decision.until; scenario = decision.scenario })
            x)
        same owned

  reconciled-OwnsDecision :
      (id scenario : Text) (found : Option CrowdSecDecision)
      → enforcement.decision_id ≡ some id
      → expected_scenario bans enforcement ≡ some scenario
      → decision_by_id id decisions ≡ found
      → OwnsDecision bans decisions (reconciled scenario enforcement found)
  unfolding reconciled
  reconciled-OwnsDecision id scenario none named expected stored =
      released-OwnsDecision bans decisions enforcement none
  reconciled-OwnsDecision id scenario (some decision) named expected stored =
      elim (Bool-cases (owns enforcement scenario decision)) [
        | inl o ↦ rw o (kept-OwnsDecision id scenario decision named expected stored o)
        | inr o ↦ rw o (released-OwnsDecision bans decisions enforcement _)
      ]

  one-OwnsDecision :
      (id : Option Text)
      → enforcement.decision_id ≡ id
      → is_some (expected_scenario bans enforcement) ≡ true
      → (row : Enforcement) × (reconcile_one bans decisions enforcement id ≡ some row)
        × OwnsDecision bans decisions row
  unfolding reconcile_one with_scenario OwnsDecision
  one-OwnsDecision none named formed = (enforcement, refl, λ id e. absurd (ground arith))
  one-OwnsDecision (some id) named formed =
      elim (Option-cases (expected_scenario bans enforcement)) [
        | inl e ↦ absurd (ground arith)
        | inr (scenario, e) ↦ (
          reconciled scenario enforcement (decision_by_id id decisions),
          rw e refl,
          reconciled-OwnsDecision id scenario _ named e refl,
        )
      ]

-- Where every enforcement belongs to a stored ban whose ASN has a normal form, the reconciliation
-- succeeds, and an enforcement that still names a decision then owns it: the decision is a stored
-- ban with that id, for the enforcement's address, from this program and under the ban's scenario.
pub reconcile-AllOwn :
    (bans : List Ban) (decisions : List CrowdSecDecision) (enforcements : List Enforcement)
    → all_formed bans enforcements ≡ true
    → (rows : List Enforcement) × (reconcile_enforcements_after_sync bans decisions enforcements
        ≡ some rows)
      × AllOwn bans decisions rows
unfolding reconcile_enforcements_after_sync AllOwn
reconcile-AllOwn bans decisions [] formed = ([], refl, tt)
reconcile-AllOwn bans decisions (enforcement ∷ enforcements) formed =
    let (row, e, own) =
      one-OwnsDecision bans decisions enforcement enforcement.decision_id refl (ground arith) in
    let (rows, es, all) = reconcile-AllOwn bans decisions enforcements (ground arith) in
    (row ∷ rows, rw (e, es) refl, (own, all))
