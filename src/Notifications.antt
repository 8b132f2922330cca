-- ===== src/Notifications.antt =====
-- backend/app/services/notifications.py: which events, insights and updates are queued, and what a
-- dispatch does to the queue.
--
-- Times are numbers of seconds. The queue is the table of notifications in the order of their ids.
-- A row's `created_at` is the time of the call that adds it; the source takes it at the flush. A payload keeps the id of its event beside its other fields. The cache of the rules is left out:
-- a function is given the rules that `_active_rules` returns. Writing the mail is a parameter.
pub mod Matching
pub mod Queue
pub mod Arrivals
pub mod Bounds
pub mod Delivery
pub mod Dispatch
use open_sec_dash.Prelude.{
  ℕ, ◌+◌, ◌*◌, String, Bool, true, false, not, ◌&&◌, ◌||◌, Option, none, some, List, [], ◌∷◌, ◌++◌,
  map, ◌==◌, nat_eq, string_eq, ltb, leb, length, any, select, first, contains, is_some,
  if◌then◌else◌,
}
use open_sec_dash.Prelude.Text.{Text, text_eq, codes, starts_with}
use open_sec_dash.Prelude.Sums.{count}

abbrev pub pending_notification_limit : ℕ
pending_notification_limit = 25

-- timedelta(minutes=15)
abbrev pub backlog_protection_window : ℕ
backlog_protection_window = 15 * 60

pub data Status : Type 0 where
  pending sent failed skipped : Status

abbrev pub is_pending : Status → Bool
is_pending pending = true
is_pending sent = false
is_pending failed = false
is_pending skipped = false

abbrev pub is_sent : Status → Bool
is_sent pending = false
is_sent sent = true
is_sent failed = false
is_sent skipped = false

pub record Payload : Type 0 where
  pub event_id : Option ℕ
  pub fields : List (String × String)

pub record Notification : Type 0 where
  pub rule_id : Text
  pub channel : Text
  pub status : Status
  pub payload : Payload
  pub created_at : ℕ
  pub sent_at : Option ℕ
  pub error : Option Text

pub record NotificationRule : Type 0 where
  pub rule_id : Text
  pub source : String
  pub match_types : List Text
  pub min_severity : String
  pub countries : List Text
  pub asset_id : Option ℕ
  pub channel : Text
  pub min_count : ℕ
  pub window_minutes : ℕ
  pub cooldown_minutes : ℕ
  pub enabled : Bool

-- The text before a final `*`.
unfoldable pub star_prefix : Text → Option Text
star_prefix [] = none
star_prefix (c ∷ []) = if c == b'*' then some [] else none
star_prefix (c ∷ d ∷ s) = elim (star_prefix (d ∷ s)) [ none ↦ none | some p ↦ some (c ∷ p) ]

abbrev pub has_prefix : Option Text → Text → Bool
has_prefix none value = false
has_prefix (some p) value = starts_with p value

unfoldable pub type_matches : List Text → Text → Bool
type_matches [] value = false
type_matches (m ∷ match_types) value =
    m == codes "*"
    || m == value
    || has_prefix (star_prefix m) value
    || type_matches match_types value

-- dict.get(value, 0)
abbrev pub rank : List (String × ℕ) → String → ℕ
rank [] value = 0
rank ((name, n) ∷ order) value = if name == value then n else rank order value

abbrev pub event_severity_order : List (String × ℕ)
event_severity_order = ("info", 0) ∷ ("warning", 1) ∷ ("error", 2) ∷ ("critical", 3) ∷ []

abbrev pub insight_level_order : List (String × ℕ)
insight_level_order = ("low", 0) ∷ ("medium", 1) ∷ ("high", 2) ∷ ("critical", 3) ∷ []

unfoldable pub has_minimum_severity : String → String → List (String × ℕ) → Bool
has_minimum_severity value minimum order = leb (rank order minimum) (rank order value)

abbrev pub is_of : Text → Notification → Bool
is_of rule_id n = n.rule_id == rule_id && is_pending n.status

-- A pending notification of the rule in its window.
abbrev pub is_recent : ℕ → NotificationRule → Notification → Bool
is_recent now rule n = is_of rule.rule_id n && leb now (n.created_at + rule.window_minutes * 60)

abbrev pub queued : ℕ → NotificationRule → Payload → Notification
queued now rule payload = record {
  rule_id = rule.rule_id;
  channel = rule.channel;
  status = pending;
  payload = payload;
  created_at = now;
  sent_at = none;
  error = none;
}

-- A session that does not flush by itself (backend/app/database/session.py, `autoflush=False`): the
-- rows that a query finds, and those that were added since the last flush.
pub record Session : Type 0 where
  pub rows : List Notification
  pub added : List Notification

unfoldable pub enqueue : ℕ → NotificationRule → Payload → Session → Session
enqueue now rule payload db =
    if rule.min_count == 1 && leb pending_notification_limit (count (is_recent now rule) db.rows)
    then db
    else record db { added = db.added ++ queued now rule payload ∷ [] }

abbrev pub same_event : Option ℕ → Option ℕ → Bool
same_event none none = true
same_event none (some b) = false
same_event (some a) none = false
same_event (some a) (some b) = a == b

-- A row that stands for the event already, young enough to be looked at.
abbrev pub repeats : ℕ → NotificationRule → Option ℕ → Notification → Bool
repeats now rule event_id n =
    n.rule_id == rule.rule_id
    && leb now (n.created_at + backlog_protection_window)
    && same_event n.payload.event_id event_id

-- A notification that is not dispatched yet takes the newer payload.
abbrev pub refreshed : Payload → Notification → Notification
refreshed payload n = if is_pending n.status then record n { payload = payload } else n

abbrev or_here {ℓ} : {A : Type ℓ} → Option (List A) → A → Option (List A) → Option (List A)
or_here (some rest) x here = some (x ∷ rest)
or_here none x here = here

-- The newest row that repeats the event is refreshed; `none` where there is no such row.
unfoldable pub refresh_newest :
    ℕ → NotificationRule → Payload → List Notification → Option (List Notification)
refresh_newest now rule payload [] = none
refresh_newest now rule payload (n ∷ rows) =
    or_here (refresh_newest now rule payload rows) n
      (if repeats now rule payload.event_id n then some (refreshed payload n ∷ rows) else none)

unfoldable pub enqueue_event : ℕ → NotificationRule → Payload → Session → Session
enqueue_event now rule payload db = elim (refresh_newest now rule payload db.rows) [
  | none ↦ enqueue now rule payload db
  | some rows ↦ record db { rows = rows }
]

pub record Event : Type 0 where
  pub event_time : Option ℕ
  pub event_type : Text
  pub severity : String
  pub country : Option Text
  pub asset_id : Option ℕ

-- `value < now - BACKLOG_PROTECTION_WINDOW` or missing
abbrev pub is_backlog : ℕ → Option ℕ → Bool
is_backlog now none = true
is_backlog now (some time) = ltb (time + backlog_protection_window) now

abbrev pub in_countries : List Text → Option Text → Bool
in_countries [] country = true
in_countries (c ∷ countries) none = false
in_countries (c ∷ countries) (some country) = contains country (c ∷ countries)

abbrev pub is_asset : Option ℕ → Option ℕ → Bool
is_asset none asset_id = true
is_asset (some a) none = false
is_asset (some a) (some b) = a == b

unfoldable pub rule_matches_event : Event → NotificationRule → Bool
rule_matches_event event rule =
    rule.source == "event"
    && type_matches rule.match_types event.event_type
    && has_minimum_severity event.severity rule.min_severity event_severity_order
    && in_countries rule.countries event.country
    && is_asset rule.asset_id event.asset_id

unfoldable pub queue_event : ℕ → Event → Payload → List NotificationRule → Session → Session
queue_event now event payload [] db = db
queue_event now event payload (rule ∷ rules) db =
    queue_event now event payload rules
      (if rule_matches_event event rule then enqueue_event now rule payload db else db)

unfoldable pub handle_event : ℕ → Bool → List NotificationRule → Event → Payload → Session → Session
handle_event now notifications_enabled rules event payload db =
    if not notifications_enabled || is_backlog now event.event_time
    then db
    else queue_event now event payload rules db

pub record Insight : Type 0 where
  pub notification_time : Option ℕ
  pub type : Text
  pub level : String
  pub asset_id : Option ℕ

unfoldable pub rule_matches_insight : Insight → NotificationRule → Bool
rule_matches_insight insight rule =
    rule.source == "insight"
    && type_matches rule.match_types insight.type
    && has_minimum_severity insight.level rule.min_severity insight_level_order
    && is_asset rule.asset_id insight.asset_id

unfoldable pub rule_matches_update : Option ℕ → NotificationRule → Bool
rule_matches_update asset_id rule =
    rule.source == "asset"
    && type_matches rule.match_types (codes "asset.update_available")
    && is_asset rule.asset_id asset_id

unfoldable pub queue_all :
    ℕ → (NotificationRule → Bool) → Payload → List NotificationRule → Session → Session
queue_all now matches payload [] db = db
queue_all now matches payload (rule ∷ rules) db =
    queue_all now matches payload rules (if matches rule then enqueue now rule payload db else db)

unfoldable pub handle_insight :
    ℕ → Bool → List NotificationRule → Insight → Payload → Session → Session
handle_insight now notifications_enabled rules insight payload db =
    if not notifications_enabled || is_backlog now insight.notification_time
    then db
    else queue_all now (rule_matches_insight insight) payload rules db

unfoldable pub handle_asset_update :
    ℕ → Bool → List NotificationRule → Option ℕ → Payload → Session → Session
handle_asset_update now notifications_enabled rules asset_id payload db =
    if not notifications_enabled
    then db
    else queue_all now (rule_matches_update asset_id) payload rules db
