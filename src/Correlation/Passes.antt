-- ===== src/Correlation/Passes.antt =====
-- backend/app/services/insight_correlation.py: passes of rules over bans, on their own.
use open_sec_dash.Prelude.{
  ℕ, zero, suc, ◌+◌, ◌≡◌, refl, ap, ◌∙◌, sym, Option, none, some, List, [], ◌∷◌, ◌++◌, take,
}
use open_sec_dash.Correlation.{
  InsightRule, Event, max_chain_rules, run_rules, run_anchors, after_rule,
}
use open_sec_dash.Correlation.Pages.{drop}
use open_sec_dash.Correlation.Cycles.{after_pass}

module _ {World : Type 0} (evaluate_chain : World → InsightRule → Event → Option World) where
  -- The whole window with each batch of twenty rules in turn, with no bound on the bans
  unfoldable pub pass_batches : ℕ → List InsightRule → List Event → World → World
  pass_batches zero rules bans world = world
  pass_batches (suc n) rules bans world =
      pass_batches n (drop max_chain_rules rules) bans
        (after_pass evaluate_chain (take max_chain_rules rules) bans world)

  after_rule_world :
      (rules : List InsightRule) (ban : Event)
      → ((world : World) (m n : ℕ)
          → (run_rules evaluate_chain rules ban (world, m)).0
            ≡ (run_rules evaluate_chain rules ban (world, n)).0)
      → (world : World) (m n : ℕ) (result : Option World)
      → (run_rules evaluate_chain rules ban (after_rule evaluate_chain world m result)).0
        ≡ (run_rules evaluate_chain rules ban (after_rule evaluate_chain world n result)).0
  unfolding after_rule
  after_rule_world rules ban ih world m n none = ih world (m + 1) (n + 1)
  after_rule_world rules ban ih world m n (some world') = ih world' m n

  run_rules_world :
      (rules : List InsightRule) (ban : Event) (world : World) (m n : ℕ)
      → (run_rules evaluate_chain rules ban (world, m)).0
        ≡ (run_rules evaluate_chain rules ban (world, n)).0
  unfolding run_rules
  run_rules_world [] ban world m n = refl
  run_rules_world (rule ∷ rules) ban world m n =
      after_rule_world rules ban (λ w i j. run_rules_world rules ban w i j) world m n
        (evaluate_chain world rule ban)

  -- The count of errors does not matter to what a pass leaves.
  run_anchors_world :
      (rules : List InsightRule) (bans : List Event) (world : World) (m n : ℕ)
      → (run_anchors evaluate_chain rules bans (world, m)).0
        ≡ (run_anchors evaluate_chain rules bans (world, n)).0
  unfolding run_anchors
  run_anchors_world rules [] world m n = refl
  run_anchors_world rules (ban ∷ bans) world m n =
      let s = run_rules evaluate_chain rules ban (world, m) in
      let t = run_rules evaluate_chain rules ban (world, n) in
      run_anchors_world rules bans s.0 s.1 t.1
      ∙ ap (λ w. (run_anchors evaluate_chain rules bans (w, t.1)).0)
          (run_rules_world rules ban world m n)

  run_anchors-append :
      (rules : List InsightRule) (xs ys : List Event) (state : World × ℕ)
      → run_anchors evaluate_chain rules (xs ++ ys) state
        ≡ run_anchors evaluate_chain rules ys (run_anchors evaluate_chain rules xs state)
  unfolding run_anchors
  run_anchors-append rules [] ys state = refl
  run_anchors-append rules (x ∷ xs) ys state =
      run_anchors-append rules xs ys (run_rules evaluate_chain rules x state)

  pub run_anchors_none :
      (bans : List Event) (state : World × ℕ) → run_anchors evaluate_chain [] bans state ≡ state
  unfolding run_anchors run_rules
  run_anchors_none [] state = refl
  run_anchors_none (b ∷ bans) state = run_anchors_none bans state

  pub pass_batches_none :
      (n : ℕ) (bans : List Event) (world : World) → pass_batches n [] bans world ≡ world
  unfolding pass_batches drop
  pass_batches_none zero bans world = refl
  pass_batches_none (suc n) bans world =
      ap (λ (t : World × ℕ). pass_batches n [] bans t.0) (run_anchors_none bans (world, 0))
      ∙ pass_batches_none n bans world

  -- A pass over a page and a pass over the rest are one pass.
  pub after_pass-append :
      (rules : List InsightRule) (xs ys : List Event) (world : World)
      → after_pass evaluate_chain rules ys (after_pass evaluate_chain rules xs world)
        ≡ after_pass evaluate_chain rules (xs ++ ys) world
  after_pass-append rules xs ys world =
      let s = run_anchors evaluate_chain rules xs (world, 0) in
      run_anchors_world rules ys s.0 0 s.1
      ∙ ap (λ (t : World × ℕ). t.0) (sym (run_anchors-append rules xs ys (world, 0)))
