-- ===== src/Correlation/Cycles.antt =====
-- backend/app/services/insight_correlation.py, `run_level2_tick`: one tick in terms of pages of rules
-- and bans.
use open_sec_dash.Prelude.{
  ℕ, ◌≡◌, refl, Bool, true, false, not, ◌&&◌, ◌||◌, Option, none, some, List, [], ◌∷◌, nat_eq,
  contains, select, take, length, is_empty, ltb, if◌then◌else◌, arith,
}
use open_sec_dash.Prelude.Text.{Text, text_eq, text_ltb}
use open_sec_dash.Correlation.{
  InsightRule, Event, Cycle, Store, max_ban_anchors, max_chain_rules, rule_ids, last_text,
  last_event_id, rules_after, anchors_after, batch_of, run_anchors, tick,
}
use open_sec_dash.Correlation.Pages.{
  StrictOrder, drop, last_key, IsIncreasing, select-AllAfter, IsIncreasing-select, after-last_key,
  any-select, select-contains-take,
}

ltb_trans : (a b c : ℕ) → ltb a b ≡ true → ltb b c ≡ true → ltb a c ≡ true
ltb_trans a b c p q = ground arith

pub ltb-StrictOrder : StrictOrder ltb
ltb-StrictOrder = record { irreflexive = λ a. ground arith; transitive = ltb_trans }

text_ltb_irreflexive : (s : Text) → text_ltb s s ≡ false
unfolding text_ltb
text_ltb_irreflexive [] = refl
text_ltb_irreflexive (c ∷ s) = ground (arith, text_ltb_irreflexive s)

text_ltb_trans : (s t u : Text) → text_ltb s t ≡ true → text_ltb t u ≡ true → text_ltb s u ≡ true
unfolding text_ltb
text_ltb_trans s t [] p q = absurd (ground arith)
text_ltb_trans s [] (e ∷ u) p q = absurd (ground arith)
text_ltb_trans [] (d ∷ t) (e ∷ u) p q = refl
text_ltb_trans (c ∷ s) (d ∷ t) (e ∷ u) p q = ground (arith, text_ltb_trans s t u)

pub text_ltb-StrictOrder : StrictOrder text_ltb
text_ltb-StrictOrder = record { irreflexive = text_ltb_irreflexive; transitive = text_ltb_trans }

abbrev pub rule_key : InsightRule → Text
rule_key r = r.id

abbrev pub event_key : Event → ℕ
event_key e = e.id

-- Rules and events in the order of their ids
abbrev pub AreRules : List InsightRule → Type 0
AreRules = IsIncreasing rule_key text_ltb

abbrev pub AreEvents : List Event → Type 0
AreEvents = IsIncreasing event_key ltb

last_text-rule_ids :
    (d : Text) (rules : List InsightRule)
    → last_text d (rule_ids rules) ≡ last_key rule_key text_ltb d rules
unfolding last_text last_key
last_text-rule_ids d [] = refl
last_text-rule_ids d (r ∷ rules) = last_text-rule_ids r.id rules

pub last_event_id-last_key :
    (d : ℕ) (events : List Event) → last_event_id d events ≡ last_key event_key ltb d events
unfolding last_event_id last_key
last_event_id-last_key d [] = refl
last_event_id-last_key d (e ∷ events) = last_event_id-last_key e.id events

-- The rules of the tick's batch, and those of later batches
abbrev pub page : Cycle → List InsightRule → List InsightRule
page cycle chain = take max_chain_rules (rules_after cycle.last_rule_id chain)

abbrev pub later : Cycle → List InsightRule → List InsightRule
later cycle chain = drop max_chain_rules (rules_after cycle.last_rule_id chain)

abbrev pub anchors : Cycle → List Event → List Event
anchors cycle events =
    take max_ban_anchors (anchors_after cycle.created_from cycle.created_to cycle.last_id events)

-- The cycle's batch, if it has one, is the next page of rules.
abbrev pub Fits : Cycle → List InsightRule → Type 0
Fits cycle chain =
    batch_of cycle (rules_after cycle.last_rule_id chain) ≡ rule_ids (page cycle chain)

batch_end-page :
    (cycle : Cycle) (chain : List InsightRule)
    → last_text cycle.last_rule_id (rule_ids (page cycle chain))
      ≡ last_key rule_key text_ltb cycle.last_rule_id (page cycle chain)
batch_end-page cycle chain = last_text-rule_ids cycle.last_rule_id (page cycle chain)

pub rules_after-IsIncreasing :
    (c : Text) (chain : List InsightRule) → AreRules chain → AreRules (rules_after c chain)
unfolding rules_after
rules_after-IsIncreasing c chain inc = IsIncreasing-select rule_key text_ltb _ chain inc

rules-page :
    (cycle : Cycle) (chain : List InsightRule)
    → AreRules chain
    → select
        (λ r. contains r.id (rule_ids (page cycle chain)))
        (rules_after cycle.last_rule_id chain)
      ≡ page cycle chain
rules-page cycle chain inc =
    select-contains-take rule_key text_ltb text_ltb-StrictOrder max_chain_rules
      (rules_after cycle.last_rule_id chain) (rules_after-IsIncreasing cycle.last_rule_id chain inc)

pub later-page :
    (cycle : Cycle) (chain : List InsightRule)
    → AreRules chain
    → select
        (λ r. text_ltb (last_key rule_key text_ltb cycle.last_rule_id (page cycle chain)) r.id)
        (rules_after cycle.last_rule_id chain)
      ≡ later cycle chain
unfolding rules_after
later-page cycle chain inc =
    after-last_key rule_key text_ltb text_ltb-StrictOrder cycle.last_rule_id max_chain_rules
      (rules_after cycle.last_rule_id chain)
      (select-AllAfter rule_key text_ltb cycle.last_rule_id chain)
      (rules_after-IsIncreasing cycle.last_rule_id chain inc)

not-not : (b : Bool) → not (not b) ≡ b
not-not true = refl
not-not false = refl

-- The tests of a tick
abbrev pub is_drained : Cycle → List InsightRule → List Event → Bool
is_drained cycle chain events =
    is_empty (rule_ids (page cycle chain)) || ltb (length (anchors cycle events)) max_ban_anchors

abbrev pub next_batch : Cycle → List InsightRule → Cycle
next_batch cycle chain = record cycle {
  last_rule_id = last_key rule_key text_ltb cycle.last_rule_id (page cycle chain);
  last_id = 0;
  batch_rule_ids = [];
}

abbrev pub next_page : Cycle → List InsightRule → List Event → Cycle
next_page cycle chain events = record cycle {
  last_id = last_event_id cycle.last_id (anchors cycle events);
  batch_rule_ids = rule_ids (page cycle chain);
}

module _ {World : Type 0} (evaluate_chain : World → InsightRule → Event → Option World) where
  abbrev pub after_pass : List InsightRule → List Event → World → World
  after_pass rules events world = (run_anchors evaluate_chain rules events (world, 0)).0

  abbrev pub passed : Cycle → List InsightRule → List Event → World → World
  passed cycle chain events world = after_pass (page cycle chain) (anchors cycle events) world

  abbrev pub outcome : Cycle → List InsightRule → List Event → Store World → Store World
  outcome cycle chain events store =
      let world = passed cycle chain events store.world in
      let done = is_drained cycle chain events in
      if done && is_empty (later cycle chain)
      then record { world = world; cycle = none; completed_cutoff = some cycle.created_to }
      else record {
        world = world;
        cycle = some (if done then next_batch cycle chain else next_page cycle chain events);
        completed_cutoff = store.completed_cutoff;
      }

  pub tick_lem :
      (cycle : Cycle) (chain : List InsightRule) (events : List Event) (store : Store World)
      → AreRules chain
      → Fits cycle chain
      → ((tick evaluate_chain cycle chain events store).0 ≡ outcome cycle chain events store)
        × ((tick evaluate_chain cycle chain events store).1.completed
            ≡ (is_drained cycle chain events && is_empty (later cycle chain)))
  unfolding tick
  tick_lem cycle chain events store inc fits =
      rw
        (
          fits,
          rules-page cycle chain inc,
          batch_end-page cycle chain,
          any-select
              (λ r.
                text_ltb (last_key rule_key text_ltb cycle.last_rule_id (page cycle chain)) r.id)
              (rules_after cycle.last_rule_id chain),
          later-page cycle chain inc,
          not-not (is_empty (later cycle chain)),
        )
        (refl, refl)
