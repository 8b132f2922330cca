-- ===== src/Notifications/Arrivals.antt =====
-- Events, insights and runs of the update check (backend/app/services/asset_updates.py) as they arrive,
-- in any order.
use open_sec_dash.Prelude.{
  ℕ, suc, ◌+◌, ◌≤◌, String, Bool, true, not, ◌&&◌, ◌||◌, Option, none, some, List, [], ◌∷◌, ◌++◌,
  leb, nat_eq, string_eq, length, ◌==◌,
}
use open_sec_dash.Prelude.Text.{text_eq}
use open_sec_dash.Prelude.Sums.{count}
use open_sec_dash.Notifications.{
  Notification, NotificationRule, Payload, Event, Insight, Session, handle_event, handle_insight,
  handle_asset_update, is_recent, repeats, pending_notification_limit,
}
use open_sec_dash.Notifications.Queue.{is_consistent, is_own}

-- The asset with a new update, and the fields of its payload
abbrev pub Update : Type 0
Update = Option ℕ × List (String × String)

-- What arrives, with the fields of its payload; an event has an id. A run is the new updates that one
-- call of `refresh_asset_updates` finds.
pub data Arrival : Type 0 where
  event : Event → ℕ → List (String × String) → Arrival
  insight : Insight → List (String × String) → Arrival
  update_run : List Update → Arrival

abbrev pub event_payload : ℕ → List (String × String) → Payload
event_payload id fields = record { event_id = some id; fields = fields }

abbrev pub other_payload : List (String × String) → Payload
other_payload fields = record { event_id = none; fields = fields }

-- The session after `store_event` or `record_insight` has flushed the row that it handles, or where a
-- run begins: nothing is waiting.
abbrev pub flushed : List Notification → Session
flushed rows = record { rows = rows; added = [] }

-- What a later query finds.
abbrev pub commit : Session → List Notification
commit db = db.rows ++ db.added

-- The loop of `refresh_asset_updates` over the assets, as far as it queues: there is no flush before the
-- commit at its end, and all of it is at one time here.
unfoldable pub queue_updates : ℕ → Bool → List NotificationRule → List Update → Session → Session
queue_updates now enabled rules [] db = db
queue_updates now enabled rules ((asset_id, fields) ∷ updates) db =
    queue_updates now enabled rules updates
      (handle_asset_update now enabled rules asset_id (other_payload fields) db)

unfoldable pub arrive :
    ℕ → Bool → List NotificationRule → Arrival → List Notification → List Notification
arrive now enabled rules (event e id fields) rows =
    commit (handle_event now enabled rules e (event_payload id fields) (flushed rows))
arrive now enabled rules (insight i fields) rows =
    commit (handle_insight now enabled rules i (other_payload fields) (flushed rows))
arrive now enabled rules (update_run updates) rows =
    commit (queue_updates now enabled rules updates (flushed rows))

abbrev pub all_consistent : NotificationRule → List NotificationRule → Bool
all_consistent rule [] = true
all_consistent rule (other ∷ rules) = is_consistent rule other && all_consistent rule rules

-- How many of the rules have the id of the rule
abbrev pub own_count : NotificationRule → List NotificationRule → ℕ
own_count rule = count (is_own rule)

-- A run is short enough for the rule: it has at most `k` updates beyond one, if the rule reports updates.
abbrev pub has_room : ℕ → NotificationRule → Arrival → Bool
has_room k rule (event e id fields) = true
has_room k rule (insight i fields) = true
has_room k rule (update_run updates) = not (rule.source == "asset") || leb (length updates) (suc k)

-- At most 25 pending notifications in the window, and `k` more; one notification for an event.
pub record IsBounded (now : ℕ) (rule : NotificationRule) (k : ℕ) (rows : List Notification)
    : Type 0 where
  pub limited : count (is_recent now rule) rows ≤ pending_notification_limit + k
  pub single : (event_id : ℕ) → count (repeats now rule (some event_id)) rows ≤ 1

-- Arrivals with their times; notifications may be switched on and off between them.
pub record Timed : Type 0 where
  pub time : ℕ
  pub enabled : Bool
  pub arrival : Arrival

unfoldable pub arrive_all :
    List NotificationRule → List Timed → List Notification → List Notification
arrive_all rules [] rows = rows
arrive_all rules (t ∷ arrivals) rows =
    arrive_all rules arrivals (arrive t.time t.enabled rules t.arrival rows)

abbrev pub in_order : ℕ → List Timed → Bool
in_order now [] = true
in_order now (t ∷ arrivals) = leb now t.time && in_order t.time arrivals

abbrev pub all_room : ℕ → NotificationRule → List Timed → Bool
all_room k rule [] = true
all_room k rule (t ∷ arrivals) = has_room k rule t.arrival && all_room k rule arrivals

abbrev pub end_time : ℕ → List Timed → ℕ
end_time now [] = now
end_time now (t ∷ arrivals) = end_time t.time arrivals
