-- ===== src/Notifications/Queue.antt =====
-- How the queue grows: pending notifications of a rule in its window, and rows for one event.
use open_sec_dash.Prelude.{
  ℕ, ◌+◌, ◌∙◌, ◌≤◌, ◌≡◌, refl, Bool, true, not, ◌&&◌, ◌||◌, Option, none, some, List, [], ◌∷◌,
  arith, ◌==◌, nat_eq, string_eq, Bool-cases, Option-cases, inl, inr, eq_of_beq,
}
use open_sec_dash.Prelude.Text.{text_eq}
use open_sec_dash.Prelude.Sums.{flag, sum_by, count, sum_by-append, sum_by_congr, sum_by_mono}
use open_sec_dash.Notifications.{
  Notification, NotificationRule, Payload, is_pending, is_recent, queued, enqueue, repeats,
  same_event, refreshed, refresh_newest, enqueue_event, Session, pending_notification_limit,
}

-- Refreshing a row changes no count that does not tell the row from its refreshed self.
refresh_newest-count :
    (now : ℕ) (rule : NotificationRule) (payload : Payload) (p : Notification → Bool)
    → ((n : Notification)
        → repeats now rule payload.event_id n ≡ true
        → p (refreshed payload n) ≡ p n)
    → (rows rows' : List Notification) → refresh_newest now rule payload rows ≡ some rows'
    → count p rows' ≡ count p rows
unfolding refresh_newest sum_by
refresh_newest-count now rule payload p same [] rows' h = absurd (ground arith)
refresh_newest-count now rule payload p same (n ∷ rows) rows' h =
    elim (Option-cases (refresh_newest now rule payload rows)) [
      | inl e ↦ elim (Bool-cases (repeats now rule payload.event_id n)) [
        | inl r ↦
            let made : refreshed payload n ∷ rows ≡ rows' = ground arith in
            rw (← made) (ground (arith, same n r))
        | inr r ↦ absurd (ground arith)
      ]
      | inr (rest, e) ↦
          let made : n ∷ rest ≡ rows' = ground arith in
          rw (← made) (omega (arith, refresh_newest-count now rule payload p same rows rest e))
    ]

-- Where no row is refreshed, none repeats the event.
count-refresh_newest :
    (now : ℕ) (rule : NotificationRule) (payload : Payload) (rows : List Notification)
    → refresh_newest now rule payload rows ≡ none
    → count (repeats now rule payload.event_id) rows ≡ 0
unfolding refresh_newest sum_by
count-refresh_newest now rule payload [] h = refl
count-refresh_newest now rule payload (n ∷ rows) h =
    elim (Option-cases (refresh_newest now rule payload rows)) [
      | inl e ↦ ground (arith, count-refresh_newest now rule payload rows)
      | inr (rest, e) ↦ absurd (ground arith)
    ]

-- A rule with the same id is the same rule, as far as its limits and its source go.
abbrev pub is_consistent : NotificationRule → NotificationRule → Bool
is_consistent rule other =
    not (other.rule_id == rule.rule_id)
    || (other.min_count == rule.min_count
        && other.window_minutes == rule.window_minutes
        && other.source == rule.source)

abbrev pub is_own : NotificationRule → NotificationRule → Bool
is_own rule other = other.rule_id == rule.rule_id

-- What a step does to the rows of one kind: it adds at most `m` of them, and none where the rows that
-- were there are as many as the threshold.
pub record Grows (p : Notification → Bool) (threshold m : ℕ) (db db' : Session) : Type 0 where
  pub rows : count p db'.rows ≡ count p db.rows
  pub grown : count p db'.added ≤ count p db.added + m
  pub full : threshold ≤ count p db.rows → count p db'.added ≡ count p db.added

pub Grows-refl :
    (p : Notification → Bool) (threshold m : ℕ) (db : Session) → Grows p threshold m db db
Grows-refl p threshold m db = record { rows = refl; grown = omega arith; full = λ h. refl }

pub Grows-trans :
    (p : Notification → Bool) (threshold m n : ℕ) (a b c : Session)
    → Grows p threshold m a b
    → Grows p threshold n b c
    → Grows p threshold (m + n) a c
Grows-trans p threshold m n a b c f g = record {
  rows = g.rows ∙ f.rows;
  grown = omega (arith, f.grown, g.grown);
  full = λ h. omega (arith, f.full h, g.full (omega (arith, f.rows)));
}

same_recent :
    (now : ℕ) (rule other : NotificationRule)
    → other.rule_id ≡ rule.rule_id
    → other.window_minutes ≡ rule.window_minutes
    → (rows : List Notification)
    → count (is_recent now other) rows ≡ count (is_recent now rule) rows
same_recent now rule other same window rows = sum_by_congr _ _ rows λ n. rw (same, window) refl

pub enqueue-recent :
    (now : ℕ) (rule other : NotificationRule) (payload : Payload) (db : Session)
    → rule.min_count ≡ 1
    → is_consistent rule other ≡ true
    → Grows
        (is_recent now rule)
        pending_notification_limit
        (flag (is_own rule other))
        db
        (enqueue now other payload db)
unfolding enqueue sum_by
enqueue-recent now rule other payload db one consistent =
    let appended =
      sum_by-append (λ n. flag (is_recent now rule n)) db.added (queued now other payload ∷ []) in
    elim (Bool-cases (is_own rule other)) [
      | inl same ↦
          let window = eq_of_beq other.window_minutes rule.window_minutes (ground arith) in
          let alike =
            same_recent now rule other (eq_of_beq other.rule_id rule.rule_id same) window db.rows in
          record {
            rows = ground arith;
            grown = ground (arith, appended);
            full = λ h. ground (arith, alike);
          }
      | inr d ↦ record {
        rows = ground arith;
        grown = ground (arith, appended);
        full = λ h. ground (arith, appended);
      }
    ]

refreshed_recent :
    (now : ℕ) (rule : NotificationRule) (payload : Payload) (n : Notification)
    → is_recent now rule (refreshed payload n) ≡ is_recent now rule n
refreshed_recent now rule payload n = ground arith

pub enqueue_event-recent :
    (now : ℕ) (rule other : NotificationRule) (payload : Payload) (db : Session)
    → rule.min_count ≡ 1
    → is_consistent rule other ≡ true
    → Grows
        (is_recent now rule)
        pending_notification_limit
        (flag (is_own rule other))
        db
        (enqueue_event now other payload db)
unfolding enqueue_event
enqueue_event-recent now rule other payload db one consistent =
    elim (Option-cases (refresh_newest now other payload db.rows)) [
      | inl e ↦ rw (e, enqueue_event) (enqueue-recent now rule other payload db one consistent)
      | inr (rows', e) ↦
          rw (e, enqueue_event)
            (record {
              rows =
                  refresh_newest-count now other payload (is_recent now rule)
                    (λ n r. refreshed_recent now rule payload n) db.rows rows' e;
              grown = omega arith;
              full = λ h. refl;
            })
    ]

same_event_eq : (a b : Option ℕ) → same_event a b ≡ true → a ≡ b
same_event_eq none none h = refl
same_event_eq none (some b) h = absurd (ground arith)
same_event_eq (some a) none h = absurd (ground arith)
same_event_eq (some a) (some b) h = ground arith

repeats-refreshed :
    (now : ℕ) (rule other : NotificationRule) (event_id : ℕ) (payload : Payload) (n : Notification)
    → repeats now other payload.event_id n ≡ true
    → repeats now rule (some event_id) (refreshed payload n) ≡ repeats now rule (some event_id) n
repeats-refreshed now rule other event_id payload n r =
    let e : n.payload.event_id ≡ payload.event_id = same_event_eq _ _ (ground arith) in
    elim (Bool-cases (is_pending n.status)) [ inl p ↦ rw (p, e) refl | inr p ↦ rw p refl ]

same_repeats :
    (now : ℕ) (rule other : NotificationRule) (event_id : ℕ) (id : Option ℕ)
    → other.rule_id ≡ rule.rule_id
    → id ≡ some event_id
    → (rows : List Notification)
    → count (repeats now other id) rows ≡ count (repeats now rule (some event_id)) rows
same_repeats now rule other event_id id same e rows = sum_by_congr _ _ rows λ n. rw (same, e) refl

-- A new row repeats an event only where no row did.
enqueue-repeats :
    (now : ℕ) (rule other : NotificationRule) (event_id : ℕ) (payload : Payload) (db : Session)
    → count (repeats now other payload.event_id) db.rows ≡ 0
    → Grows
        (repeats now rule (some event_id))
        1
        (flag (is_own rule other))
        db
        (enqueue now other payload db)
unfolding enqueue sum_by
enqueue-repeats now rule other event_id payload db missing =
    let weight : Notification → ℕ = λ n. flag (repeats now rule (some event_id) n) in
    let appended = sum_by-append weight db.added (queued now other payload ∷ []) in
    elim (Bool-cases (is_own rule other && same_event payload.event_id (some event_id))) [
      | inl both ↦
          let alike =
            same_repeats now rule other event_id payload.event_id
              (eq_of_beq other.rule_id rule.rule_id (ground arith))
              (same_event_eq payload.event_id (some event_id) (ground arith)) db.rows in
          record {
            rows = ground arith;
            grown = ground (arith, appended);
            full = λ h. absurd (omega (arith, alike));
          }
      | inr apart ↦ record {
        rows = ground arith;
        grown = ground (arith, appended);
        full = λ h. ground (arith, appended);
      }
    ]

pub enqueue_event-repeats :
    (now : ℕ) (rule other : NotificationRule) (event_id : ℕ) (payload : Payload) (db : Session)
    → Grows
        (repeats now rule (some event_id))
        1
        (flag (is_own rule other))
        db
        (enqueue_event now other payload db)
unfolding enqueue_event
enqueue_event-repeats now rule other event_id payload db =
    elim (Option-cases (refresh_newest now other payload db.rows)) [
      | inl e ↦
          rw (e, enqueue_event)
            (enqueue-repeats now rule other event_id payload db
              (count-refresh_newest now other payload db.rows e))
      | inr (rows', e) ↦
          rw (e, enqueue_event)
            (record {
              rows =
                  refresh_newest-count now other payload (repeats now rule (some event_id))
                    (λ n r. repeats-refreshed now rule other event_id payload n r) db.rows rows' e;
              grown = omega arith;
              full = λ h. refl;
            })
    ]

-- A notification without an event stands for none.
pub enqueue-repeats_other :
    (now : ℕ) (rule other : NotificationRule) (event_id : ℕ) (payload : Payload) (db : Session)
    → payload.event_id ≡ none
    → Grows (repeats now rule (some event_id)) 1 0 db (enqueue now other payload db)
unfolding enqueue sum_by
enqueue-repeats_other now rule other event_id payload db e =
    let weight : Notification → ℕ = λ n. flag (repeats now rule (some event_id) n) in
    let appended = sum_by-append weight db.added (queued now other payload ∷ []) in
    record {
      rows = ground arith;
      grown = ground (arith, appended);
      full = λ h. ground (arith, appended);
    }

-- Time only takes rows out of a window.
pub recent-later :
    (now later : ℕ) (rule : NotificationRule) (rows : List Notification)
    → now ≤ later
    → count (is_recent later rule) rows ≤ count (is_recent now rule) rows
recent-later now later rule rows le =
    sum_by_mono (λ n. flag (is_recent later rule n)) (λ n. flag (is_recent now rule n)) rows
      (λ n. ground arith)

pub repeats-later :
    (now later : ℕ) (rule : NotificationRule) (event_id : ℕ) (rows : List Notification)
    → now ≤ later
    → count (repeats later rule (some event_id)) rows
      ≤ count (repeats now rule (some event_id)) rows
repeats-later now later rule event_id rows le =
    sum_by_mono (λ n. flag (repeats later rule (some event_id) n))
      (λ n. flag (repeats now rule (some event_id) n)) rows (λ n. ground arith)
