-- ===== src/Correlation/Completion.antt =====
-- backend/app/services/insight_correlation.py: a cycle comes to its end, and does what one unbounded
-- pass would do.
use open_sec_dash.Prelude.{
  ℕ, zero, suc, ◌+◌, ◌*◌, ◌≤◌, ◌≡◌, refl, ap, ◌∙◌, sym, subst, Bool, true, false, ◌&&◌, Option,
  none, some, List, [], ◌∷◌, length, is_empty, if◌then◌else◌, arith, Bool-cases, inl, inr,
}
use open_sec_dash.Prelude.Text.{Text}
use open_sec_dash.Correlation.{
  InsightRule, Event, Cycle, Store, max_chain_rules, rule_ids, chain_rules, rules_after,
  anchors_after, batch_of, load_cycle, new_cycle,
}
use open_sec_dash.Correlation.Pages.{drop, drop_smaller, length-drop}
use open_sec_dash.Correlation.Cycles.{
  AreRules, AreEvents, Fits, page, later, is_drained, next_batch, next_page, after_pass, passed,
}
use open_sec_dash.Correlation.Validity.{
  HasWindow, new_cycle-HasWindow, is_valid-next_batch, is_valid-next_page, load_cycle-stored,
}
use open_sec_dash.Correlation.Passes.{pass_batches, pass_batches_none}
use open_sec_dash.Correlation.Ticks.{
  run_ticks, run_ticks_step, finish, measure, drained_world, rules_after-next_batch,
  finish-next_batch, finish-next_page, measure-next_batch, measure-next_page,
}

empty-eq : (rules : List InsightRule) → is_empty rules ≡ true → rules ≡ []
empty-eq [] h = refl
empty-eq (r ∷ rules) h = absurd (ground arith)

length_pos : (rules : List InsightRule) → is_empty rules ≡ false → 1 ≤ length rules
length_pos [] h = absurd (ground arith)
length_pos (r ∷ rules) h = omega arith

length-rules_after : (rules : List InsightRule) → length (rules_after [] rules) ≤ length rules
unfolding rules_after
length-rules_after [] = omega arith
length-rules_after (r ∷ rules) = ground (arith, length-rules_after rules)

Fits-next_batch : (cycle : Cycle) (rules : List InsightRule) → Fits (next_batch cycle rules) rules
unfolding batch_of
Fits-next_batch cycle rules = refl

same_branches : {A : Type 0} (b : Bool) (x : A) → (if b then x else x) ≡ x
same_branches true x = refl
same_branches false x = refl

Fits-next_page :
    (cycle : Cycle) (rules : List InsightRule) (events : List Event)
    → Fits (next_page cycle rules events) rules
unfolding batch_of
Fits-next_page cycle rules events =
    same_branches (is_empty (rule_ids (page cycle rules))) (rule_ids (page cycle rules))

module _ {World : Type 0} (evaluate_chain : World → InsightRule → Event → Option World)
    (available : List Text) (active_rules : List InsightRule) (events : List Event)
    (rules_inc : AreRules (chain_rules available active_rules))
    (events_inc : AreEvents events) where
  abbrev rules : List InsightRule
  rules = chain_rules available active_rules

  abbrev bans : Cycle → List Event
  bans cycle = anchors_after cycle.created_from cycle.created_to 0 events

  abbrev ended : Cycle → World → Store World
  ended cycle world = record {
    world = world;
    cycle = none;
    completed_cutoff = some cycle.created_to;
  }

  abbrev whole : ℕ → Cycle → World → Store World
  whole n cycle world =
      finish evaluate_chain available active_rules events rules_inc events_inc n cycle world

  abbrev stored : Cycle → Store World → World → Store World
  stored cycle store world = record {
    world = world;
    cycle = some cycle;
    completed_cutoff = store.completed_cutoff;
  }

  finish_done :
      (n : ℕ) (cycle : Cycle) (world : World)
      → is_drained cycle rules events ≡ true
      → is_empty (later cycle rules) ≡ true
      → ended cycle (passed evaluate_chain cycle rules events world) ≡ whole n cycle world
  finish_done n cycle world drained last =
      let after =
        after_pass evaluate_chain (page cycle rules)
          (anchors_after cycle.created_from cycle.created_to cycle.last_id events) world in
      let same : after ≡ pass_batches evaluate_chain n (later cycle rules) (bans cycle) after =
        subst (λ rs. after ≡ pass_batches evaluate_chain n rs (bans cycle) after)
          (sym (empty-eq (later cycle rules) last))
          (sym (pass_batches_none evaluate_chain n (bans cycle) after)) in
      ap (ended cycle) (
        drained_world evaluate_chain available active_rules events rules_inc events_inc cycle world
          drained
        ∙ same)

  -- A tick by its two tests
  abbrev by_tests : List ℕ → Cycle → Store World → Bool → Bool → Option (Store World)
  by_tests nows cycle store drained last =
      let world = passed evaluate_chain cycle rules events store.world in
      let store' =
        if drained && last
        then ended cycle world
        else stored (if drained then next_batch cycle rules else next_page cycle rules events) store
            world in
      if drained && last
      then some store'
      else run_ticks evaluate_chain nows available active_rules events store'

  step :
      (now : ℕ) (nows : List ℕ) (cycle : Cycle) (store : Store World)
      → Fits cycle rules
      → load_cycle now store.completed_cutoff store.cycle ≡ cycle
      → run_ticks evaluate_chain (now ∷ nows) available active_rules events store
        ≡ by_tests nows cycle store (is_drained cycle rules events) (is_empty (later cycle rules))
  step now nows cycle store fits loaded =
      run_ticks_step evaluate_chain available active_rules events rules_inc events_inc now nows
        cycle store fits loaded

  abbrev work : Cycle → ℕ
  work cycle = measure evaluate_chain available active_rules events rules_inc events_inc cycle

  window-next_batch : (cycle : Cycle) → HasWindow cycle → HasWindow (next_batch cycle rules)
  window-next_batch cycle h = record { ends = h.ends; begins = h.begins }

  window-next_page : (cycle : Cycle) → HasWindow cycle → HasWindow (next_page cycle rules events)
  window-next_page cycle h = record { ends = h.ends; begins = h.begins }

  -- The claim for a list of times of ticks to come
  abbrev Completes : List ℕ → Type 0
  Completes nows =
      (now n : ℕ) (cycle : Cycle) (store : Store World)
      → HasWindow cycle
      → Fits cycle rules
      → load_cycle now store.completed_cutoff store.cycle ≡ cycle
      → length (later cycle rules) ≤ n
      → work cycle ≤ length nows
      → run_ticks evaluate_chain (now ∷ nows) available active_rules events store
        ≡ some (whole n cycle store.world)

  batch_completes :
      (now : ℕ) (nows : List ℕ)
      → Completes nows
      → (n : ℕ) (cycle : Cycle) (store : Store World) → HasWindow cycle
      → is_drained cycle rules events ≡ true
      → is_empty (later cycle rules) ≡ false
      → length (later cycle rules) ≤ n
      → work cycle ≤ suc (length nows)
      → run_ticks evaluate_chain (now ∷ nows) available active_rules events (
          stored
            (next_batch cycle rules)
            store
            (passed evaluate_chain cycle rules events store.world))
        ≡ some (whole n cycle store.world)
  batch_completes now nows ih zero cycle store window drained more enough fuel =
      absurd (omega (arith, length_pos (later cycle rules) more))
  batch_completes now nows ih (suc n) cycle store window drained more enough fuel =
      let world = passed evaluate_chain cycle rules events store.world in
      let next = next_batch cycle rules in
      let fewer =
        measure-next_batch evaluate_chain available active_rules events rules_inc events_inc cycle
          more in
      let rest : length (later next rules) ≤ n = omega (
        arith,
        drop_smaller 19 (later cycle rules) more,
        ap (λ rs. length (drop max_chain_rules rs))
            (rules_after-next_batch evaluate_chain available active_rules events rules_inc
              events_inc cycle),
      ) in
      ih now n next (stored next store world) (window-next_batch cycle window)
        (Fits-next_batch cycle rules)
        (load_cycle-stored now store.completed_cutoff next (is_valid-next_batch cycle rules window))
        rest (omega (arith, fewer))
      ∙ ap some (
          finish-next_batch evaluate_chain available active_rules events rules_inc events_inc n
            cycle store.world drained)

  page_completes :
      (now : ℕ) (nows : List ℕ)
      → Completes nows
      → (n : ℕ) (cycle : Cycle) (store : Store World) → HasWindow cycle
      → is_drained cycle rules events ≡ false
      → length (later cycle rules) ≤ n
      → work cycle ≤ suc (length nows)
      → run_ticks evaluate_chain (now ∷ nows) available active_rules events (
          stored
            (next_page cycle rules events)
            store
            (passed evaluate_chain cycle rules events store.world))
        ≡ some (whole n cycle store.world)
  page_completes now nows ih n cycle store window more enough fuel =
      let world = passed evaluate_chain cycle rules events store.world in
      let next = next_page cycle rules events in
      let fewer =
        measure-next_page evaluate_chain available active_rules events rules_inc events_inc cycle
          more in
      ih now n next (stored next store world) (window-next_page cycle window)
        (Fits-next_page cycle rules events)
        (load_cycle-stored now store.completed_cutoff next
          (is_valid-next_page cycle rules events window rules_inc more))
        enough (omega (arith, fewer))
      ∙ ap some (
          finish-next_page evaluate_chain available active_rules events rules_inc events_inc n cycle
            store.world)

  -- A first tick, by its two tests: the ticks after it are left to `more`.
  by_tests_completes :
      (nows : List ℕ) (n : ℕ) (cycle : Cycle) (store : Store World)
      → (is_drained cycle rules events ≡ true
          → is_empty (later cycle rules) ≡ false
          → by_tests nows cycle store true false ≡ some (whole n cycle store.world))
      → (is_drained cycle rules events ≡ false
          → (last : Bool) → by_tests nows cycle store false last ≡ some (whole n cycle store.world))
      → by_tests nows cycle store (is_drained cycle rules events) (is_empty (later cycle rules))
        ≡ some (whole n cycle store.world)
  by_tests_completes nows n cycle store batch page' =
      elim (Bool-cases (is_drained cycle rules events)) [
        | inl d ↦
            ap (λ b. by_tests nows cycle store b (is_empty (later cycle rules))) d
            ∙ elim (Bool-cases (is_empty (later cycle rules))) [
              | inl e ↦
                  ap (by_tests nows cycle store true) e
                  ∙ ap some (finish_done n cycle store.world d e)
              | inr e ↦ ap (by_tests nows cycle store true) e ∙ batch d e
            ]
        | inr d ↦
            ap (λ b. by_tests nows cycle store b (is_empty (later cycle rules))) d
            ∙ page' d (is_empty (later cycle rules))
      ]

  complete : (nows : List ℕ) → Completes nows
  complete [] now n cycle store window fits loaded enough fuel =
      step now [] cycle store fits loaded
      ∙ by_tests_completes [] n cycle store
          (λ d e. absurd (
            omega (
              arith,
              measure-next_batch evaluate_chain available active_rules events rules_inc events_inc
                  cycle e,
            )))
          (λ d last. absurd (
            omega (
              arith,
              measure-next_page evaluate_chain available active_rules events rules_inc events_inc
                  cycle d,
            )))
  complete (now' ∷ nows) now n cycle store window fits loaded enough fuel =
      step now (now' ∷ nows) cycle store fits loaded
      ∙ by_tests_completes (now' ∷ nows) n cycle store
          (λ d e. batch_completes now' nows (complete nows) n cycle store window d e enough fuel)
          (λ d last. page_completes now' nows (complete nows) n cycle store window d enough fuel)

  -- Where rules and events stay the same and are in the order of their ids, a cycle that a tick begins
  -- comes to its end after as many ticks as its bans, times the rules of later batches and one, allow
  -- at most. It leaves the database as one pass over the whole window does that takes the rules in
  -- batches of twenty and has no bound on the bans: no ban is skipped, and none is taken twice.
  pub run_ticks-pass_batches :
      (now : ℕ) (nows : List ℕ) (store : Store World)
      → store.cycle ≡ none
      → length (later (new_cycle now store.completed_cutoff) rules)
            * suc (length (bans (new_cycle now store.completed_cutoff)))
          + length (bans (new_cycle now store.completed_cutoff))
        ≤ length nows
      → run_ticks evaluate_chain (now ∷ nows) available active_rules events store
        ≡ some (
            ended (new_cycle now store.completed_cutoff) (
              pass_batches evaluate_chain
                (suc (length rules))
                (rules_after [] rules)
                (bans (new_cycle now store.completed_cutoff))
                store.world))
  unfolding pass_batches load_cycle batch_of new_cycle
  run_ticks-pass_batches now nows store fresh fuel =
      let cycle = new_cycle now store.completed_cutoff in
      let loaded : load_cycle now store.completed_cutoff store.cycle ≡ cycle = rw fresh refl in
      let enough : length (later cycle rules) ≤ length rules =
        omega
          (arith, length-drop max_chain_rules (rules_after [] rules), length-rules_after rules) in
      complete nows now (length rules) cycle store (new_cycle-HasWindow now store.completed_cutoff)
        refl loaded enough fuel
