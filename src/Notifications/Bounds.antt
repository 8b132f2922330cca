-- ===== src/Notifications/Bounds.antt =====
-- How far the queue can grow, whatever arrives.
use open_sec_dash.Prelude.{
  ℕ, suc, ◌+◌, ◌≤◌, ◌≡◌, refl, String, Bool, true, false, not, ◌&&◌, Option, some, List, [], ◌∷◌,
  arith, if◌then◌else◌, nat_eq, string_eq, length, ◌==◌, Bool-cases, inl, inr,
}
use text.Mathlib.TextEquality.{eq_iff}
use native.Mathlib.Decide.{dec_lt}
use open_sec_dash.Prelude.Text.{text_eq}
use open_sec_dash.Prelude.Sums.{flag, sum_by, count, sum_by-append}
use open_sec_dash.Notifications.{
  Notification, NotificationRule, Payload, Event, Session, enqueue, enqueue_event,
  rule_matches_event, rule_matches_insight, rule_matches_update, queue_event, queue_all,
  handle_event, handle_insight, handle_asset_update, is_recent, repeats, pending_notification_limit,
}
use open_sec_dash.Notifications.Queue.{
  is_consistent, is_own, Grows, Grows-refl, Grows-trans, enqueue-recent, enqueue_event-recent,
  enqueue_event-repeats, enqueue-repeats_other, recent-later, repeats-later,
}
use open_sec_dash.Notifications.Arrivals.{
  Update, Arrival, event, insight, update_run, event_payload, other_payload, flushed, commit,
  queue_updates, arrive, all_consistent, own_count, has_room, IsBounded, Timed, arrive_all,
  in_order, all_room, end_time,
}

if-Grows :
    (p : Notification → Bool) (threshold m : ℕ) (b : Bool) (db x y : Session)
    → (b ≡ true → Grows p threshold m db x)
    → Grows p threshold m db y
    → Grows p threshold m db (if b then x else y)
if-Grows p threshold m true db x y hx hy = hx refl
if-Grows p threshold m false db x y hx hy = hy

-- The loop over the rules, for rows of any kind of which a step adds as many as `w` allows its rule.
module _ (p : Notification → Bool) (threshold : ℕ) (w : NotificationRule → ℕ)
    (rule : NotificationRule) where
  queue_event-Grows :
      (now : ℕ) (e : Event) (payload : Payload)
      → ((other : NotificationRule) (db : Session)
          → is_consistent rule other ≡ true
          → Grows p threshold (w other) db (enqueue_event now other payload db))
      → (rules : List NotificationRule) (db : Session) → all_consistent rule rules ≡ true
      → Grows p threshold (sum_by w rules) db (queue_event now e payload rules db)
  unfolding queue_event sum_by
  queue_event-Grows now e payload step [] db consistent = Grows-refl p threshold 0 db
  queue_event-Grows now e payload step (other ∷ rules) db consistent =
      Grows-trans p threshold (w other) (sum_by w rules) db _ _
        (if-Grows p threshold (w other) (rule_matches_event e other) db
          (enqueue_event now other payload db) db (λ h. step other db (ground arith))
          (Grows-refl p threshold (w other) db))
        (queue_event-Grows now e payload step rules _ (ground arith))

  queue_all-Grows :
      (now : ℕ) (matches : NotificationRule → Bool) (payload : Payload)
      → ((other : NotificationRule) (db : Session)
          → is_consistent rule other ≡ true
          → matches other ≡ true
          → Grows p threshold (w other) db (enqueue now other payload db))
      → (rules : List NotificationRule) (db : Session) → all_consistent rule rules ≡ true
      → Grows p threshold (sum_by w rules) db (queue_all now matches payload rules db)
  unfolding queue_all sum_by
  queue_all-Grows now matches payload step [] db consistent = Grows-refl p threshold 0 db
  queue_all-Grows now matches payload step (other ∷ rules) db consistent =
      Grows-trans p threshold (w other) (sum_by w rules) db _ _
        (if-Grows p threshold (w other) (matches other) db (enqueue now other payload db) db
          (λ h. step other db (ground arith) h) (Grows-refl p threshold (w other) db))
        (queue_all-Grows now matches payload step rules _ (ground arith))

  refresh-Grows :
      (now : ℕ) (enabled : Bool) (rules : List NotificationRule)
      → all_consistent rule rules ≡ true
      → ((asset_id : Option ℕ) (fields : List (String × String)) (other : NotificationRule)
            (db : Session)
          → is_consistent rule other ≡ true
          → rule_matches_update asset_id other ≡ true
          → Grows p threshold (w other) db (enqueue now other (other_payload fields) db))
      → (updates : List Update) (db : Session)
      → Grows p threshold
          (sum_by (λ u. sum_by w rules) updates)
          db
          (queue_updates now enabled rules updates db)
  unfolding queue_updates handle_asset_update sum_by
  refresh-Grows now enabled rules consistent step [] db = Grows-refl p threshold 0 db
  refresh-Grows now enabled rules consistent step ((asset_id, fields) ∷ updates) db =
      let m = sum_by w rules in
      Grows-trans p threshold m (sum_by (λ u. m) updates) db _ _
        (if-Grows p threshold m (not enabled) db db
          (queue_all now (rule_matches_update asset_id) (other_payload fields) rules db)
          (λ h. Grows-refl p threshold m db)
          (queue_all-Grows now (rule_matches_update asset_id) (other_payload fields)
            (step asset_id fields) rules db consistent))
        (refresh-Grows now enabled rules consistent step updates _)

-- What a commit leaves of rows that had room for all that was added.
commit-le :
    (p : Notification → Bool) (threshold m k : ℕ) (rows : List Notification) (db : Session)
    → m ≤ suc k
    → Grows p threshold m (flushed rows) db
    → count p rows ≤ threshold + k
    → count p (commit db) ≤ threshold + k
unfolding sum_by
commit-le p threshold m k rows db le g h =
    let all = sum_by-append (λ n. flag (p n)) db.rows db.added in
    elim (dec_lt (count p rows) threshold) [
      | yes room ↦ omega (arith, g.rows, g.grown, all)
      | no crowded ↦ omega (arith, g.rows, g.full (omega arith), all)
    ]

sum_by-zero {ℓ} : {A : Type ℓ} (m : ℕ) (xs : List A) → m ≡ 0 → sum_by (λ x. m) xs ≡ 0
unfolding sum_by
sum_by-zero m [] h = refl
sum_by-zero m (x ∷ xs) h = omega (arith, sum_by-zero m xs h)

sum_by-le-length {ℓ} : {A : Type ℓ} (m : ℕ) (xs : List A) → m ≤ 1 → sum_by (λ x. m) xs ≤ length xs
unfolding sum_by
sum_by-le-length m [] h = omega arith
sum_by-le-length m (x ∷ xs) h = omega (arith, sum_by-le-length m xs h)

sum_by-le-own :
    (rule : NotificationRule) (b : Bool) (rules : List NotificationRule)
    → sum_by (λ other. flag (is_own rule other && b)) rules ≤ own_count rule rules
unfolding sum_by
sum_by-le-own rule b [] = omega arith
sum_by-le-own rule b (other ∷ rules) = ground (arith, sum_by-le-own rule b rules)

sum_by-own_false :
    (rule : NotificationRule) (b : Bool) (rules : List NotificationRule)
    → b ≡ false
    → sum_by (λ other. flag (is_own rule other && b)) rules ≡ 0
unfolding sum_by
sum_by-own_false rule b [] h = refl
sum_by-own_false rule b (other ∷ rules) h = ground (arith, sum_by-own_false rule b rules h)

module _ (now : ℕ) (rule : NotificationRule) (rules : List NotificationRule)
    (one : rule.min_count ≡ 1) (unique : own_count rule rules ≤ 1)
    (consistent : all_consistent rule rules ≡ true) where
  abbrev weight : NotificationRule → ℕ
  weight other = flag (is_own rule other)

  -- Only a rule that reports updates gets rows from a run.
  abbrev run_weight : NotificationRule → ℕ
  run_weight other = flag (is_own rule other && rule.source == "asset")

  abbrev no_weight : NotificationRule → ℕ
  no_weight other = 0

  run_step :
      (asset_id : Option ℕ) (fields : List (String × String)) (other : NotificationRule)
      (db : Session)
      → is_consistent rule other ≡ true
      → rule_matches_update asset_id other ≡ true
      → Grows
          (is_recent now rule)
          pending_notification_limit
          (run_weight other)
          db
          (enqueue now other (other_payload fields) db)
  unfolding rule_matches_update
  run_step asset_id fields other db same matches =
      let alike : flag (is_own rule other) ≡ run_weight other = ground (
        arith,
        eq_iff other.source rule.source,
        eq_iff other.source "asset",
        eq_iff rule.source "asset",
      ) in
      rw (← alike) (enqueue-recent now rule other (other_payload fields) db one same)

  runs-le :
      (k : ℕ) (updates : List Update)
      → has_room k rule (update_run updates) ≡ true
      → sum_by (λ u. sum_by run_weight rules) updates ≤ suc k
  runs-le k updates room = elim (Bool-cases (rule.source == "asset")) [
    | inl asset ↦
        let short : length updates ≤ suc k = ground arith in
        omega (
          arith,
          sum_by-le-length (sum_by run_weight rules) updates
              (omega (arith, sum_by-le-own rule (rule.source == "asset") rules)),
          short,
        )
    | inr other ↦ omega (
      arith,
      sum_by-zero (sum_by run_weight rules) updates
          (sum_by-own_false rule (rule.source == "asset") rules other),
    )
  ]

  module _ (k : ℕ) (enabled : Bool) (rows : List Notification) (h : IsBounded now rule k rows) where
    bounded :
        (m n : ℕ) (db : Session)
        → m ≤ suc k
        → n ≤ 1
        → Grows (is_recent now rule) pending_notification_limit m (flushed rows) db
        → ((event_id : ℕ) → Grows (repeats now rule (some event_id)) 1 n (flushed rows) db)
        → IsBounded now rule k (commit db)
    bounded m n db le le' recent repeated = record {
      limited =
          commit-le (is_recent now rule) pending_notification_limit m k rows db le recent h.limited;
      single = λ event_id. omega (
        arith,
        commit-le (repeats now rule (some event_id)) 1 n 0 rows db le' (repeated event_id)
            (omega (arith, h.single event_id)),
      );
    }

    arrive-IsBounded :
        (arrival : Arrival)
        → has_room k rule arrival ≡ true
        → IsBounded now rule k (arrive now enabled rules arrival rows)
    unfolding arrive handle_event handle_insight
    arrive-IsBounded (event e id fields) room =
        let payload = event_payload id fields in
        bounded (sum_by weight rules) (sum_by weight rules) _ (omega arith) unique
          (if-Grows _ _ _ _ (flushed rows) (flushed rows) _ (λ _. Grows-refl _ _ _ _)
            (queue_event-Grows (is_recent now rule) pending_notification_limit weight rule now e
              payload (λ other db same. enqueue_event-recent now rule other payload db one same)
              rules (flushed rows) consistent))
          λ event_id.
            if-Grows _ _ _ _ (flushed rows) (flushed rows) _ (λ _. Grows-refl _ _ _ _)
              (queue_event-Grows (repeats now rule (some event_id)) 1 weight rule now e payload
                (λ other db same. enqueue_event-repeats now rule other event_id payload db) rules
                (flushed rows) consistent)
    arrive-IsBounded (insight i fields) room =
        let payload = other_payload fields in
        let none_added = sum_by-zero 0 rules refl in
        bounded (sum_by weight rules) (sum_by no_weight rules) _ (omega arith)
          (omega (arith, none_added))
          (if-Grows _ _ _ _ (flushed rows) (flushed rows) _ (λ _. Grows-refl _ _ _ _)
            (queue_all-Grows (is_recent now rule) pending_notification_limit weight rule now
              (rule_matches_insight i) payload
              (λ other db same _. enqueue-recent now rule other payload db one same) rules
              (flushed rows) consistent))
          λ event_id.
            if-Grows _ _ _ _ (flushed rows) (flushed rows) _ (λ _. Grows-refl _ _ _ _)
              (queue_all-Grows (repeats now rule (some event_id)) 1 no_weight rule now
                (rule_matches_insight i) payload
                (λ other db same _. enqueue-repeats_other now rule other event_id payload db refl)
                rules (flushed rows) consistent)
    arrive-IsBounded (update_run updates) room =
        let none_added = sum_by-zero (sum_by no_weight rules) updates (sum_by-zero 0 rules refl) in
        bounded (sum_by (λ u. sum_by run_weight rules) updates)
          (sum_by (λ u. sum_by no_weight rules) updates) _ (runs-le k updates room)
          (omega (arith, none_added))
          (refresh-Grows (is_recent now rule) pending_notification_limit run_weight rule now enabled
            rules consistent run_step updates (flushed rows))
          λ event_id.
            refresh-Grows (repeats now rule (some event_id)) 1 no_weight rule now enabled rules
              consistent
              (λ asset_id fields other db same _.
                enqueue-repeats_other now rule other event_id (other_payload fields) db refl)
              updates (flushed rows)

module _ (rule : NotificationRule) (rules : List NotificationRule) (k : ℕ)
    (one : rule.min_count ≡ 1) (unique : own_count rule rules ≤ 1)
    (consistent : all_consistent rule rules ≡ true) where
  IsBounded-arrive_all :
      (now : ℕ) (arrivals : List Timed) (rows : List Notification)
      → in_order now arrivals ≡ true
      → all_room k rule arrivals ≡ true
      → IsBounded now rule k rows
      → IsBounded (end_time now arrivals) rule k (arrive_all rules arrivals rows)
  unfolding arrive_all
  IsBounded-arrive_all now [] rows order room h = h
  IsBounded-arrive_all now (t ∷ arrivals) rows order room h =
      let le : now ≤ t.time = ground arith in
      IsBounded-arrive_all t.time arrivals _ (ground arith) (ground arith) (
        arrive-IsBounded t.time rule rules one unique consistent k t.enabled rows
          (record {
            limited = omega (arith, h.limited, recent-later now t.time rule rows le);
            single = λ id. omega (arith, h.single id, repeats-later now t.time rule id rows le);
          })
          t.arrival (ground arith))

  -- From an empty queue, whatever arrives in the order of time: a rule that reports every match, and
  -- whose id no other rule has, never has more than 25 pending notifications in its window, and
  -- never two notifications of the last fifteen minutes for the same event. Only a rule that reports
  -- updates can go beyond 25, by the new updates of one run after its first: by `k` at most, where
  -- no run finds more than `k + 1`.
  pub arrive_all-IsBounded :
      (now : ℕ) (arrivals : List Timed)
      → in_order now arrivals ≡ true
      → all_room k rule arrivals ≡ true
      → IsBounded (end_time now arrivals) rule k (arrive_all rules arrivals [])
  unfolding sum_by
  arrive_all-IsBounded now arrivals order room =
      IsBounded-arrive_all now arrivals [] order room
        (record { limited = omega arith; single = λ id. omega arith })
