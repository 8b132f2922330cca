-- ===== src/Correlation.antt =====
-- backend/app/services/insight_correlation.py: the cycle that looks for a chain behind each ban, in
-- ticks of bounded work.
--
-- Rules and events are those that a tick finds in the database. `evaluate_chain`, which searches the
-- retained events and records an insight, is a function on the rest of the database; `none` is an
-- exception, whose savepoint is rolled back. A stored cycle is kept as the fields of its JSON object,
-- a time as a number of seconds since 1970.
pub mod Pages
pub mod Cycles
pub mod Validity
pub mod Passes
pub mod Ticks
pub mod Completion
use open_sec_dash.Prelude.{
  ℕ, ◌+◌, ◌-◌, String, Bool, true, false, not, ◌&&◌, ◌||◌, Option, none, some, List, [], ◌∷◌, ◌++◌,
  map, ◌==◌, nat_eq, string_eq, contains, any, select, take, length, ltb, leb, max, if◌then◌else◌,
  is_empty,
}
use open_sec_dash.Prelude.Text.{Text, text_eq, text_ltb}

abbrev pub max_ban_anchors : ℕ
max_ban_anchors = 100

abbrev pub max_chain_rules : ℕ
max_chain_rules = 20

-- RECHECK_MINUTES, in seconds
abbrev pub recheck : ℕ
recheck = 900

pub record InsightRule : Type 0 where
  pub id : Text
  pub kind : String

pub record Event : Type 0 where
  pub id : ℕ
  pub event_type : String
  pub ip : Option Text
  pub created_at : ℕ

pub record Cycle : Type 0 where
  pub started_at : ℕ
  pub created_from : ℕ
  pub created_to : ℕ
  pub last_id : ℕ
  pub last_rule_id : Text
  pub batch_rule_ids : List Text

-- batch_ids == sorted(set(batch_ids))
unfoldable pub is_increasing : List Text → Bool
is_increasing [] = true
is_increasing (a ∷ []) = true
is_increasing (a ∷ b ∷ ids) = text_ltb a b && is_increasing (b ∷ ids)

-- The checks of `_cycle` on a stored cycle
unfoldable pub is_valid : Cycle → Bool
is_valid cycle =
    leb (length cycle.batch_rule_ids) max_chain_rules
    && not (any (λ id. not (text_ltb cycle.last_rule_id id)) cycle.batch_rule_ids)
    && is_increasing cycle.batch_rule_ids
    && not (ltb 0 cycle.last_id && is_empty cycle.batch_rule_ids)
    && cycle.started_at == cycle.created_to
    && not (ltb (cycle.started_at - recheck) cycle.created_from)

abbrev pub or_now : ℕ → Option ℕ → ℕ
or_now now none = now
or_now now (some cutoff) = cutoff

unfoldable pub new_cycle : ℕ → Option ℕ → Cycle
new_cycle now completed_cutoff =
    let previous = or_now now completed_cutoff in
    let upper = max now previous in
    record {
      started_at = upper;
      created_from = previous - recheck;
      created_to = upper;
      last_id = 0;
      last_rule_id = [];
      batch_rule_ids = [];
    }

-- `_cycle`
unfoldable pub load_cycle : ℕ → Option ℕ → Option Cycle → Cycle
load_cycle now completed_cutoff none = new_cycle now completed_cutoff
load_cycle now completed_cutoff (some cycle) =
    if is_valid cycle then cycle else new_cycle now completed_cutoff

abbrev has_ip : Option Text → Bool
has_ip none = false
has_ip (some ip) = not (ip == [])

abbrev pub is_candidate : ℕ → ℕ → Event → Bool
is_candidate created_from created_to event =
    event.event_type == "security.ban"
    && has_ip event.ip
    && leb created_from event.created_at
    && leb event.created_at created_to

-- The bans after the cursor
unfoldable pub anchors_after : ℕ → ℕ → ℕ → List Event → List Event
anchors_after created_from created_to last_id events =
    select (λ e. ltb last_id e.id) (select (is_candidate created_from created_to) events)

unfoldable pub rules_after : Text → List InsightRule → List InsightRule
rules_after last_rule_id rules = select (λ r. text_ltb last_rule_id r.id) rules

-- Active chain rules that are available
unfoldable pub chain_rules : List Text → List InsightRule → List InsightRule
chain_rules available rules =
    select (λ r. r.kind == "scan_ban_chain" && contains r.id available) rules

abbrev pub rule_ids : List InsightRule → List Text
rule_ids = map (λ r. r.id)

unfoldable pub last_text : Text → List Text → Text
last_text d [] = d
last_text d (id ∷ ids) = last_text id ids

unfoldable pub last_event_id : ℕ → List Event → ℕ
last_event_id d [] = d
last_event_id d (e ∷ events) = last_event_id e.id events

-- The batch of the stored cycle, or the next one
unfoldable pub batch_of : Cycle → List InsightRule → List Text
batch_of cycle remaining_rules =
    if is_empty cycle.batch_rule_ids
    then rule_ids (take max_chain_rules remaining_rules)
    else cycle.batch_rule_ids

-- What a tick leaves: the rest of the database, the stored cycle and the completed cutoff
pub record Store (World : Type 0) : Type 0 where
  pub world : World
  pub cycle : Option Cycle
  pub completed_cutoff : Option ℕ

pub record Report : Type 0 where
  pub processed : ℕ
  pub errors : ℕ
  pub completed : Bool

module _ {World : Type 0} (evaluate_chain : World → InsightRule → Event → Option World) where
  after_rule : World → ℕ → Option World → World × ℕ
  after_rule world errors none = (world, errors + 1)
  after_rule world errors (some world') = (world', errors)

  unfoldable pub run_rules : List InsightRule → Event → World × ℕ → World × ℕ
  unfolding after_rule
  run_rules [] ban state = state
  run_rules (rule ∷ rules) ban (world, errors) =
      run_rules rules ban (after_rule world errors (evaluate_chain world rule ban))

  unfoldable pub run_anchors : List InsightRule → List Event → World × ℕ → World × ℕ
  run_anchors rules [] state = state
  run_anchors rules (ban ∷ anchors) state = run_anchors rules anchors (run_rules rules ban state)

  unfoldable pub tick : Cycle → List InsightRule → List Event → Store World → Store World × Report
  tick cycle chain events store =
      let remaining_rules = rules_after cycle.last_rule_id chain in
      let batch = batch_of cycle remaining_rules in
      let rules = select (λ r. contains r.id batch) remaining_rules in
      let batch_end = last_text cycle.last_rule_id batch in
      let anchors =
        take max_ban_anchors
          (anchors_after cycle.created_from cycle.created_to cycle.last_id events) in
      let (world, errors) = run_anchors rules anchors (store.world, 0) in
      let rules_completed = is_empty batch || ltb (length anchors) max_ban_anchors in
      let completed = rules_completed && not (any (λ r. text_ltb batch_end r.id) remaining_rules) in
      let next =
        if rules_completed
        then record cycle { last_rule_id = batch_end; last_id = 0; batch_rule_ids = [] }
        else record cycle {
          last_id = last_event_id cycle.last_id anchors;
          batch_rule_ids = batch;
        } in
      (
        if completed
            then record { world = world; cycle = none; completed_cutoff = some cycle.created_to }
            else record {
              world = world;
              cycle = some next;
              completed_cutoff = store.completed_cutoff;
            },
        record { processed = length anchors; errors = errors; completed = completed },
      )

  unfoldable pub run_level2_tick :
      ℕ → List Text → List InsightRule → List Event → Store World → Store World × Report
  run_level2_tick now available active_rules events store =
      tick (load_cycle now store.completed_cutoff store.cycle) (chain_rules available active_rules)
        events store
