-- ===== src/Correlation/Validity.antt =====
-- backend/app/services/insight_correlation.py: the cycle that a tick stores is one that `_cycle`
-- accepts.
use open_sec_dash.Prelude.{
  ℕ, ◌-◌, ◌≤◌, ◌≡◌, refl, Bool, true, false, not, ◌&&◌, ◌||◌, Option, some, List, [], ◌∷◌, nat_eq,
  beq_refl, any, length, is_empty, leb, arith,
}
use open_sec_dash.Prelude.Text.{Text, text_eq, text_ltb}
use open_sec_dash.Correlation.{
  InsightRule, Event, Cycle, is_increasing, is_valid, recheck, max_chain_rules, rule_ids,
  rules_after, new_cycle, load_cycle,
}
use open_sec_dash.Correlation.Pages.{
  AllAfter, IsIncreasing, select-AllAfter, AllAfter-take, IsIncreasing-take, length-take,
}
use open_sec_dash.Correlation.Cycles.{
  AreRules, rule_key, page, is_drained, next_batch, next_page, rules_after-IsIncreasing,
}

-- The window ends when the cycle started, and begins a quarter of an hour before that or earlier.
pub record HasWindow (cycle : Cycle) : Type 0 where
  pub ends : cycle.started_at ≡ cycle.created_to
  pub begins : cycle.created_from ≤ cycle.started_at - recheck

pub new_cycle-HasWindow : (now : ℕ) (cutoff : Option ℕ) → HasWindow (new_cycle now cutoff)
unfolding new_cycle
new_cycle-HasWindow now cutoff = record { ends = refl; begins = omega arith }

length-rule_ids : (rules : List InsightRule) → length (rule_ids rules) ≡ length rules
length-rule_ids [] = refl
length-rule_ids (r ∷ rules) = omega (arith, length-rule_ids rules)

any-rule_ids :
    (c : Text) (rules : List InsightRule)
    → AllAfter rule_key text_ltb c rules
    → any (λ id. not (text_ltb c id)) (rule_ids rules) ≡ false
unfolding AllAfter
any-rule_ids c [] h = refl
any-rule_ids c (r ∷ rules) h = rw h.0 (any-rule_ids c rules h.1)

is_increasing-rule_ids :
    (rules : List InsightRule) → AreRules rules → is_increasing (rule_ids rules) ≡ true
unfolding IsIncreasing AllAfter is_increasing
is_increasing-rule_ids [] h = refl
is_increasing-rule_ids (r ∷ []) h = refl
is_increasing-rule_ids (r ∷ s ∷ rules) h = rw h.0.0 (is_increasing-rule_ids (s ∷ rules) h.1)

or_left : (a b : Bool) → (a || b) ≡ false → a ≡ false
or_left true b h = h
or_left false b h = refl

not_and_false : (b : Bool) → not (b && false) ≡ true
not_and_false true = refl
not_and_false false = refl

leb-true : (a b : ℕ) → a ≤ b → leb a b ≡ true
leb-true a b h = ground arith

conjunction :
    (a b c d e f : Bool)
    → a ≡ true
    → b ≡ true
    → c ≡ true
    → d ≡ true
    → e ≡ true
    → f ≡ true
    → (a && b && c && d && e && f) ≡ true
conjunction a b c d e f ha hb hc hd he hf = rw (ha, hb, hc, hd, he, hf) refl

pub is_valid-next_batch :
    (cycle : Cycle) (chain : List InsightRule)
    → HasWindow cycle
    → is_valid (next_batch cycle chain) ≡ true
unfolding is_valid is_increasing
is_valid-next_batch cycle chain h = ground (arith, h.ends, h.begins)

pub is_valid-next_page :
    (cycle : Cycle) (chain : List InsightRule) (events : List Event)
    → HasWindow cycle
    → AreRules chain
    → is_drained cycle chain events ≡ false
    → is_valid (next_page cycle chain events) ≡ true
unfolding is_valid
is_valid-next_page cycle chain events h inc more =
    let rest = rules_after cycle.last_rule_id chain in
    let after : AllAfter rule_key text_ltb cycle.last_rule_id rest =
      unfold rules_after in select-AllAfter rule_key text_ltb cycle.last_rule_id chain in
    let few : length (rule_ids (page cycle chain)) ≤ max_chain_rules =
      omega (arith, length-rule_ids (page cycle chain), length-take max_chain_rules rest) in
    let later =
      any-rule_ids cycle.last_rule_id (page cycle chain)
        (AllAfter-take rule_key text_ltb cycle.last_rule_id max_chain_rules rest after) in
    let sorted = is_increasing-rule_ids (page cycle chain) (
      IsIncreasing-take rule_key text_ltb max_chain_rules rest
        (rules_after-IsIncreasing cycle.last_rule_id chain inc)) in
    let some_rules : is_empty (rule_ids (page cycle chain)) ≡ false = or_left _ _ more in
    conjunction _ _ _ _ _ _ (leb-true _ _ few) (rw later refl) sorted
      (rw some_rules (not_and_false _)) (rw h.ends (beq_refl cycle.created_to))
      (ground (arith, h.begins))

-- A tick goes on with the cycle that the tick before it stored.
pub load_cycle-stored :
    (now : ℕ) (cutoff : Option ℕ) (cycle : Cycle)
    → is_valid cycle ≡ true
    → load_cycle now cutoff (some cycle) ≡ cycle
unfolding load_cycle
load_cycle-stored now cutoff cycle h = rw h refl
