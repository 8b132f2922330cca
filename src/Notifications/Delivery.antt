-- ===== src/Notifications/Delivery.antt =====
-- backend/app/services/notifications.py: the dispatch of pending notifications.
--
-- `Delivery` holds what the dispatch asks of other parts: the available insight types, which
-- channels are configured, and what sending a batch raises. The order by `created_at` is that of
-- the ids.
use open_sec_dash.Prelude.{
  ℕ, ◌+◌, ◌*◌, Bool, true, false, not, ◌&&◌, ◌||◌, Option, none, some, List, [], ◌∷◌, ◌==◌, nat_eq,
  string_eq, ltb, leb, length, any, select, first, contains, if◌then◌else◌,
}
use open_sec_dash.Prelude.Text.{Text, text_eq, codes}
use open_sec_dash.Notifications.{
  Notification, NotificationRule, sent, failed, skipped, is_sent, is_of,
}

pub record Delivery : Type 0 where
  pub available_types : List Text
  pub is_configured : Text → Bool
  -- the text of the exception, cut to 2000 characters, where a batch cannot be sent
  pub send : NotificationRule → List Notification → Option Text

unfoldable pub strip_prefix : Text → Text → Option Text
strip_prefix [] value = some value
strip_prefix (c ∷ p) [] = none
strip_prefix (c ∷ p) (d ∷ value) = let rest = strip_prefix p value in if c == d then rest else none

abbrev one_type : List Text → Text → Bool
one_type [] type = false
one_type (t ∷ []) type = t == type
one_type (t ∷ u ∷ ts) type = false

managed : NotificationRule → Option Text → Option Text
managed rule none = none
managed rule (some type) =
    if not (rule.source == "insight") || not (one_type rule.match_types type)
    then none
    else some type

unfoldable pub managed_insight_type : NotificationRule → Option Text
unfolding managed
managed_insight_type rule = managed rule (strip_prefix (codes "insight.") rule.rule_id)

abbrev pub is_unavailable : List Text → Option Text → Bool
is_unavailable types none = false
is_unavailable types (some type) = not (contains type types)

-- The pending rows of a rule that meet a test are replaced.
unfoldable pub mark :
    Text
    → (Notification → Bool)
    → (Notification → Notification)
    → List Notification
    → List Notification
mark rule_id p f [] = []
mark rule_id p f (n ∷ rows) = (if is_of rule_id n && p n then f n else n) ∷ mark rule_id p f rows

abbrev pub everyone : Notification → Bool
everyone n = true

abbrev pub as_skipped : Notification → Notification
as_skipped n = record n { status = skipped }

abbrev pub as_failed : Text → Notification → Notification
as_failed error n = record n { status = failed; error = some error }

abbrev pub as_sent : ℕ → Notification → Notification
as_sent now n = record n { status = sent; sent_at = some now }

abbrev pub in_window : ℕ → ℕ → Notification → Bool
in_window now minutes n = leb now (n.created_at + minutes * 60)

abbrev sent_since : ℕ → ℕ → Option ℕ → Bool
sent_since now minutes none = false
sent_since now minutes (some time) = leb now (time + minutes * 60)

-- A notification of the rule that was sent in its cooldown.
abbrev pub cools_down : ℕ → NotificationRule → Notification → Bool
cools_down now rule n =
    n.rule_id == rule.rule_id && is_sent n.status && sent_since now rule.cooldown_minutes n.sent_at

abbrev pub Dispatched : Type 0
Dispatched = List Notification × ℕ

unfoldable pub deliver : ℕ → NotificationRule → List Notification → Option Text → Dispatched
deliver now rule rows (some error) = (mark rule.rule_id everyone (as_failed error) rows, 0)
deliver now rule rows none =
    (mark rule.rule_id everyone (as_sent now) rows, length (select (is_of rule.rule_id) rows))

abbrev pub is_empty {ℓ} : {A : Type ℓ} → List A → Bool
is_empty [] = true
is_empty (x ∷ xs) = false

unfoldable pub dispatch_configured :
    Delivery → ℕ → NotificationRule → List Notification → Dispatched
dispatch_configured d now rule rows =
    let waiting = select (is_of rule.rule_id) rows in
    let recent = select (in_window now rule.window_minutes) waiting in
    if ltb 1 rule.min_count && ltb (length recent) rule.min_count
    then (mark rule.rule_id (λ n. not (in_window now rule.window_minutes n)) as_skipped rows, 0)
    else if any (cools_down now rule) rows
    then (rows, 0)
    else if is_empty waiting
    then (rows, 0)
    else deliver now rule rows (d.send rule waiting)

unfoldable pub dispatch_rule :
    Delivery → ℕ → List Notification → Option NotificationRule → Dispatched
dispatch_rule d now rows none = (rows, 0)
dispatch_rule d now rows (some rule) =
    if not rule.enabled || is_unavailable d.available_types (managed_insight_type rule)
    then (mark rule.rule_id everyone as_skipped rows, 0)
    else if not (d.is_configured rule.channel)
    then (rows, 0)
    else dispatch_configured d now rule rows

unfoldable pub dispatch_all :
    Delivery → ℕ → List NotificationRule → List Text → List Notification → Dispatched
dispatch_all d now rules [] rows = (rows, 0)
dispatch_all d now rules (id ∷ ids) rows =
    let (rows', n) = dispatch_rule d now rows (first (λ r. r.rule_id == id) rules) in
    let (rows'', m) = dispatch_all d now rules ids rows' in (rows'', n + m)

-- The distinct ids of the rules that have pending notifications.
unfoldable pub pending_rule_ids : List Notification → List Text
pending_rule_ids [] = []
pending_rule_ids (n ∷ rows) =
    let ids = pending_rule_ids rows in
    if is_of n.rule_id n && not (contains n.rule_id ids) then n.rule_id ∷ ids else ids

unfoldable pub dispatch_pending_notifications :
    Delivery → Bool → ℕ → List NotificationRule → List Notification → Dispatched
dispatch_pending_notifications d notifications_enabled now rules rows =
    if not notifications_enabled
    then (rows, 0)
    else dispatch_all d now rules (pending_rule_ids rows) rows
