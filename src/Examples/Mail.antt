-- ===== src/Examples/Mail.antt =====
-- A rule for bans, an event that comes twice, and the dispatch of what is queued.
use open_sec_dash.Prelude.{◌≤◌, arith, ◌≡◌, refl, true, none, some, List, [], ◌∷◌}
use open_sec_dash.Prelude.Text.{codes}
use open_sec_dash.Notifications.{NotificationRule, Event, type_matches}
use open_sec_dash.Prelude.Sums.{sum_by}
use open_sec_dash.Notifications.Matching.{SomeMatches, type_matches_iff}
use open_sec_dash.Notifications.Arrivals.{event, own_count, Timed, arrive_all, end_time, IsBounded}
use open_sec_dash.Notifications.Bounds.{arrive_all-IsBounded}
use open_sec_dash.Notifications.Delivery.{Delivery, dispatch_pending_notifications}
use open_sec_dash.Notifications.Dispatch.{IsReported, dispatch_pending_notifications-IsReported}

abbrev bans : NotificationRule
bans = record {
  rule_id = codes "core.crowdsec_ban";
  source = "event";
  match_types = codes "security.*" ∷ [];
  min_severity = "warning";
  countries = [];
  asset_id = none;
  channel = codes "email";
  min_count = 1;
  window_minutes = 10;
  cooldown_minutes = 1;
  enabled = true;
}

abbrev ban : Event
ban = record {
  event_time = some 1000;
  event_type = codes "security.ban";
  severity = "error";
  country = none;
  asset_id = none;
}

abbrev twice : List Timed
twice =
    record { time = 1000; enabled = true; arrival = event ban 7 [] }
    ∷ record { time = 1001; enabled = true; arrival = event ban 7 (("asn", "AS64500") ∷ []) }
    ∷ []

bans_unique : own_count bans (bans ∷ []) ≤ 1
unfolding sum_by
bans_unique = omega arith

arrive_all-IsBounded_example : IsBounded (end_time 0 twice) bans 0 (arrive_all (bans ∷ []) twice [])
arrive_all-IsBounded_example =
    arrive_all-IsBounded bans (bans ∷ []) 0 refl bans_unique refl 0 twice refl refl

abbrev mail : Delivery
mail = record { available_types = []; is_configured = λ channel. true; send = λ rule batch. none }

dispatch_pending_notifications-IsReported_example :
    IsReported
      (arrive_all (bans ∷ []) twice [])
      (dispatch_pending_notifications mail true 1002 (bans ∷ []) (arrive_all (bans ∷ []) twice []))
dispatch_pending_notifications-IsReported_example =
    dispatch_pending_notifications-IsReported mail 1002 true (bans ∷ [])
      (arrive_all (bans ∷ []) twice [])

type_matches_iff_example :
    (type_matches (codes "security.*" ∷ []) (codes "security.ban") ≡ true
      → SomeMatches (codes "security.*" ∷ []) (codes "security.ban"))
    × (SomeMatches (codes "security.*" ∷ []) (codes "security.ban")
        → type_matches (codes "security.*" ∷ []) (codes "security.ban") ≡ true)
type_matches_iff_example = type_matches_iff (codes "security.*" ∷ []) (codes "security.ban")
