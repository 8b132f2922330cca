-- ===== src/Correlation/Ticks.antt =====
-- backend/app/services/insight_correlation.py: the ticks of one cycle, together.
use open_sec_dash.Prelude.{
  ℕ, suc, ◌+◌, ◌*◌, ◌≤◌, ◌<◌, ◌≡◌, refl, ap, ◌∙◌, sym, subst, Bool, true, false, ◌&&◌, ◌||◌, Option,
  none, some, List, [], ◌∷◌, select, take, length, is_empty, ltb, if◌then◌else◌, arith, Bool-cases,
  inl, inr,
}
use open_sec_dash.Prelude.Text.{Text, text_ltb}
use open_sec_dash.Correlation.{
  InsightRule, Event, Cycle, Store, max_ban_anchors, max_chain_rules, rule_ids, chain_rules,
  rules_after, anchors_after, is_candidate, run_level2_tick, load_cycle,
}
use open_sec_dash.Correlation.Pages.{
  after, drop, take-drop, length-drop, take_short, drop_smaller, after-page, IsIncreasing-select,
}
use open_sec_dash.Correlation.Cycles.{
  AreRules, AreEvents, Fits, page, later, anchors, is_drained, next_batch, next_page, after_pass,
  passed, outcome, tick_lem, rule_key, event_key, text_ltb-StrictOrder, ltb-StrictOrder,
  last_event_id-last_key,
}
use open_sec_dash.Correlation.Passes.{pass_batches, after_pass-append, run_anchors_none}

no_rules : (rules : List InsightRule) → is_empty (rule_ids rules) ≡ true → rules ≡ []
no_rules [] h = refl
no_rules (r ∷ rules) h = absurd (ground arith)

or_right : (a b : Bool) → a ≡ false → (a || b) ≡ true → b ≡ true
or_right true b e h = absurd (ground arith)
or_right false b e h = h

or_false : (a b : Bool) → (a || b) ≡ false → b ≡ false
or_false true b h = absurd (ground arith)
or_false false b h = h

not_below : (a b : ℕ) → ltb a b ≡ false → b ≤ a
not_below a b h = ground arith

fewer_batches : (a b e f : ℕ) → a < b → a * suc e + e < b * suc e + f
fewer_batches a b e f h = grind arith

fewer_bans : (a e f : ℕ) → e < f → a + e < a + f
fewer_bans a e f h = omega arith

below : (a b : ℕ) → ltb a b ≡ true → a < b
below a b h = ground arith

module _ {World : Type 0} (evaluate_chain : World → InsightRule → Event → Option World) where
  unfoldable pub run_ticks :
      List ℕ → List Text → List InsightRule → List Event → Store World → Option (Store World)
  run_ticks [] available active_rules events store = none
  run_ticks (now ∷ nows) available active_rules events store =
      let (store', report) =
        run_level2_tick evaluate_chain now available active_rules events store in
      let rest = run_ticks nows available active_rules events store' in
      if report.completed then some store' else rest

  module _ (available : List Text) (active_rules : List InsightRule) (events : List Event)
      (rules_inc : AreRules (chain_rules available active_rules))
      (events_inc : AreEvents events) where
    abbrev pub chain : List InsightRule
    chain = chain_rules available active_rules

    abbrev pub done : Cycle → Bool
    done cycle = is_drained cycle chain events && is_empty (later cycle chain)

    abbrev pub left : Cycle → List Event
    left cycle = anchors_after cycle.created_from cycle.created_to cycle.last_id events

    pub run_ticks_step :
        (now : ℕ) (nows : List ℕ) (cycle : Cycle) (store : Store World)
        → Fits cycle chain
        → load_cycle now store.completed_cutoff store.cycle ≡ cycle
        → run_ticks (now ∷ nows) available active_rules events store ≡ (
            if done cycle
            then some (outcome evaluate_chain cycle chain events store)
            else run_ticks nows available active_rules events
                (outcome evaluate_chain cycle chain events store))
    unfolding run_ticks run_level2_tick
    run_ticks_step now nows cycle store fits loaded =
        let (left_store, completed) =
          tick_lem evaluate_chain cycle chain events store rules_inc fits in
        rw (loaded, left_store, completed) refl

    none_passed :
        (xs ys : List Event) (world : World)
        → after_pass evaluate_chain [] xs world ≡ after_pass evaluate_chain [] ys world
    none_passed xs ys world =
        ap (λ (t : World × ℕ). t.0)
          (run_anchors_none evaluate_chain xs (world, 0)
            ∙ sym (run_anchors_none evaluate_chain ys (world, 0)))

    -- A tick that drains its window has passed over all of it.
    pub drained_world :
        (cycle : Cycle) (world : World)
        → is_drained cycle chain events ≡ true
        → passed evaluate_chain cycle chain events world
          ≡ after_pass evaluate_chain (page cycle chain) (left cycle) world
    drained_world cycle world h = elim (Bool-cases (is_empty (rule_ids (page cycle chain)))) [
      | inl e ↦
          let none_left : page cycle chain ≡ [] = no_rules (page cycle chain) e in
          subst
            (λ rules.
              after_pass evaluate_chain rules (anchors cycle events) world
              ≡ after_pass evaluate_chain rules (left cycle) world)
            (sym none_left) (none_passed (anchors cycle events) (left cycle) world)
      | inr e ↦
          let short : length (anchors cycle events) < max_ban_anchors =
            below _ _ (or_right _ _ e h) in
          ap (λ bans. after_pass evaluate_chain (page cycle chain) bans world)
            (take_short max_ban_anchors (left cycle) short)
    ]

    -- Rules that are left, and bans that are left of the window: what a tick makes fewer
    abbrev pub measure : Cycle → ℕ
    measure cycle =
        length (later cycle chain)
          * suc (length (anchors_after cycle.created_from cycle.created_to 0 events))
        + length (left cycle)

    abbrev pub finish : ℕ → Cycle → World → Store World
    finish n cycle world = record {
      world =
          pass_batches evaluate_chain n (later cycle chain)
            (anchors_after cycle.created_from cycle.created_to 0 events)
            (after_pass evaluate_chain (page cycle chain) (left cycle) world);
      cycle = none;
      completed_cutoff = some cycle.created_to;
    }

    pub rules_after-next_batch :
        (cycle : Cycle)
        → rules_after (next_batch cycle chain).last_rule_id chain ≡ later cycle chain
    unfolding rules_after
    rules_after-next_batch cycle =
        after-page rule_key text_ltb text_ltb-StrictOrder cycle.last_rule_id max_chain_rules chain
          rules_inc

    anchors_after-next_page :
        (cycle : Cycle) → left (next_page cycle chain events) ≡ drop max_ban_anchors (left cycle)
    unfolding anchors_after
    anchors_after-next_page cycle =
        let bans = select (is_candidate cycle.created_from cycle.created_to) events in
        ap (λ c. after event_key ltb c bans)
          (last_event_id-last_key cycle.last_id (anchors cycle events))
        ∙ after-page event_key ltb ltb-StrictOrder cycle.last_id max_ban_anchors bans (
            IsIncreasing-select event_key ltb (is_candidate cycle.created_from cycle.created_to)
              events events_inc)

    -- What is left to do for a cycle, once a tick has gone on to the next batch
    pub finish-next_batch :
        (n : ℕ) (cycle : Cycle) (world : World)
        → is_drained cycle chain events ≡ true
        → finish n (next_batch cycle chain) (passed evaluate_chain cycle chain events world)
          ≡ finish (suc n) cycle world
    unfolding pass_batches
    finish-next_batch n cycle world drained =
        let bans = anchors_after cycle.created_from cycle.created_to 0 events in
        let whole : List InsightRule → World → Store World = λ rules w. record {
          world =
              pass_batches evaluate_chain n (drop max_chain_rules rules) bans
                (after_pass evaluate_chain (take max_chain_rules rules) bans w);
          cycle = none;
          completed_cutoff = some cycle.created_to;
        } in
        ap (λ rules. whole rules (passed evaluate_chain cycle chain events world))
          (rules_after-next_batch cycle)
        ∙ ap (whole (later cycle chain)) (drained_world cycle world drained)

    pub finish-next_page :
        (n : ℕ) (cycle : Cycle) (world : World)
        → finish n (next_page cycle chain events) (passed evaluate_chain cycle chain events world)
          ≡ finish n cycle world
    finish-next_page n cycle world =
        let rules = page cycle chain in
        let now = passed evaluate_chain cycle chain events world in
        let bans = anchors_after cycle.created_from cycle.created_to 0 events in
        let same : after_pass evaluate_chain rules (left (next_page cycle chain events)) now
            ≡ after_pass evaluate_chain rules (left cycle) world =
          ap (λ bans. after_pass evaluate_chain rules bans now) (anchors_after-next_page cycle)
          ∙ after_pass-append evaluate_chain rules (anchors cycle events)
              (drop max_ban_anchors (left cycle)) world
          ∙ ap (λ bans. after_pass evaluate_chain rules bans world)
              (take-drop max_ban_anchors (left cycle)) in
        ap
          (λ (w : World). record {
            world = pass_batches evaluate_chain n (later cycle chain) bans w;
            cycle = none;
            completed_cutoff = some cycle.created_to;
          })
          same

    pub measure-next_batch :
        (cycle : Cycle)
        → is_empty (later cycle chain) ≡ false
        → measure (next_batch cycle chain) < measure cycle
    measure-next_batch cycle more =
        fewer_batches _ (length (later cycle chain)) _ (length (left cycle)) (
          omega (
            arith,
            drop_smaller 19 (later cycle chain) more,
            ap (λ rules. length (drop max_chain_rules rules)) (rules_after-next_batch cycle),
          ))

    pub measure-next_page :
        (cycle : Cycle)
        → is_drained cycle chain events ≡ false
        → measure (next_page cycle chain events) < measure cycle
    measure-next_page cycle more =
        let full : max_ban_anchors ≤ length (anchors cycle events) =
          not_below (length (anchors cycle events)) max_ban_anchors
            (or_false (is_empty (rule_ids (page cycle chain))) _ more) in
        let fewer : length (left (next_page cycle chain events)) < length (left cycle) = omega (
          arith,
          full,
          ap length (anchors_after-next_page cycle),
          length-drop max_ban_anchors (left cycle),
        ) in
        fewer_bans
          (length (later cycle chain)
            * suc (length (anchors_after cycle.created_from cycle.created_to 0 events)))
          _ _ fewer
