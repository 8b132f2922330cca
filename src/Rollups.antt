-- ===== src/Rollups.antt =====
-- backend/app/services/events.py and backend/app/services/rollups.py: the counters that each stored
-- event adds to, and their compaction by month.
--
-- Days and months are texts as the tables hold them. The calendar is an argument, as are the
-- grouping hooks of plugins and the test for local addresses. `data_json` holds texts. The number of
-- compacted months, which is only logged, is left out.
pub mod Counting
pub mod Months
pub mod Compaction
pub mod Ledger
use open_sec_dash.Prelude.{
  ℕ, ◌+◌, ◌-◌, ◌*◌, ◌≡◌, String, Bool, true, false, not, ◌&&◌, ◌||◌, Option, none, some, List, [],
  ◌∷◌, ◌++◌, map, ◌==◌, nat_eq, string_eq, contains, select, take, length, is_empty, ltb, leb,
  if◌then◌else◌,
}
use open_sec_dash.Prelude.Text.{Text, text_eq, codes, lower, is_space, starts_with, text_ltb}

-- `strftime` of a time in seconds: "%Y-%m", "%d" and "%H".
pub record Calendar : Type 0 where
  pub month : ℕ → Text
  pub day : ℕ → Text
  pub hour : ℕ → Text
  pub month_digits : (t : ℕ) → length (month t) ≡ 7

pub record Event : Type 0 where
  pub id : ℕ
  pub event_type : Text
  pub event_time : ℕ
  pub ip : Text
  pub country : Text
  pub data_json : List (String × Text)
  pub retention_class : String

-- A row of `AggregationDaily`, whose period is a date, or of `AggregationMonthly`, whose period is
-- a month.
pub record Aggregation : Type 0 where
  pub period : Text
  pub metric : String
  pub key : Text
  pub value : ℕ

pub record Tables : Type 0 where
  pub events : List Event
  pub daily : List Aggregation
  pub monthly : List Aggregation

abbrev pub daily_rollup_window_days : ℕ
daily_rollup_window_days = 30

abbrev pub seconds_per_day : ℕ
seconds_per_day = 86400

-- `\d*\)$` at the start of a text
digits_then_close : Text → Bool
digits_then_close [] = false
digits_then_close (c ∷ s) =
    (leb b'0' c && leb c b'9' && digits_then_close s)
    || (c == b')' && (is_empty s || s == codes "\n"))

-- `\(action #\d+\)$` at the start of a text, in small letters
action_reference : Text → Text → Bool
unfolding digits_then_close
action_reference [] [] = false
action_reference [] (d ∷ s) = leb b'0' d && leb d b'9' && digits_then_close s
action_reference (c ∷ p) [] = false
action_reference (c ∷ p) (d ∷ s) = c == d && action_reference p s

-- `\s+\(action #\d+\)$` at the start of a text; the flag says that a space was read.
reference_here : Bool → Text → Bool
unfolding is_space action_reference
reference_here spaced [] = false
reference_here spaced (c ∷ s) =
    let further = reference_here true s in
    (is_space c && further) || (spaced && action_reference (codes "(action #") (lower (c ∷ s)))

-- The newline that `$` leaves where one ends the text.
final_newline : Text → Text
final_newline [] = []
final_newline (c ∷ []) = if c == 10 then codes "\n" else []
final_newline (c ∷ d ∷ s) = final_newline (d ∷ s)

-- _ACTION_REFERENCE_RE.sub("", value)
pub without_reference : Text → Text
unfolding reference_here final_newline
without_reference [] = []
without_reference (c ∷ s) =
    let rest = without_reference s in
    if reference_here false (c ∷ s) then final_newline (c ∷ s) else c ∷ rest

-- A hook that raises gives `none`.
abbrev pub Grouper : Type 0
Grouper = String → Text → Option Text

pub grouped : Option Text → Text → Text
grouped none value = value
grouped (some group) value = if is_empty group then value else group

pub group_by_hooks : List Grouper → String → Text → Text
unfolding grouped
group_by_hooks [] metric value = value
group_by_hooks (hook ∷ hooks) metric value =
    group_by_hooks hooks metric (grouped (hook metric value) value)

pub normalize_rollup_key : List Grouper → String → Text → Text
normalize_rollup_key hooks metric key =
    group_by_hooks hooks metric (if metric == "scenario" then without_reference key else key)

-- (event.data_json or {}).get(name), where an absent value is the empty text
pub get_data : String → List (String × Text) → Text
get_data name [] = []
get_data name ((n, value) ∷ fields) = if n == name then value else get_data name fields

-- `a or b`
abbrev pub text_or_other : Text → Text → Text
text_or_other a b = if is_empty a then b else a

pub scenario_of_event : Event → Text
scenario_of_event event = text_or_other (get_data "scenario_group" event.data_json) (
    text_or_other (get_data "scenario" event.data_json)
      (get_data "crowdsec_scenario" event.data_json))

-- The list with the pairs where the test holds, else the empty list
abbrev pub only_if : Bool → List (String × Text) → List (String × Text)
only_if test pairs = if test then pairs else []

module _ (calendar : Calendar) (hooks : List Grouper) (is_local_ip_value : Text → Bool) where
  pub rollup_metrics_for_event : Event → List (String × Text)
  rollup_metrics_for_event event =
      let event_type = text_or_other event.event_type (codes "unknown") in
      let scenario = scenario_of_event event in
      ("summary", codes "total_events")
      ∷ ("event_type", event_type)
      ∷ (only_if (starts_with (codes "access.") event_type && not (is_empty event.ip)) (
            (
              "summary",
              if is_local_ip_value event.ip
                  then codes "access_internal_events"
                  else codes "access_external_events",
            )
            ∷ ("hour_access", calendar.hour event.event_time)
            ∷ [])
          ++ (only_if (starts_with (codes "security.") event_type) (
                ("summary", codes "security_events")
                ∷ ("hour_security", calendar.hour event.event_time)
                ∷ [])
              ++ (only_if (starts_with (codes "security.ban") event_type)
                    (("summary", codes "bans") ∷ [])
                  ++ (only_if (event_type == codes "security.geoblock")
                        (("summary", codes "geoblocks") ∷ [])
                      ++ (only_if (not (is_empty event.country)) (("country", event.country) ∷ [])
                          ++ only_if (not (is_empty scenario)) (
                              ("scenario", normalize_rollup_key hooks "scenario" scenario)
                              ∷ []))))))

abbrev pub is_row : Text → String → Text → Aggregation → Bool
is_row period metric key row = row.period == period && row.metric == metric && row.key == key

-- The first row with the key grows, or a row is added.
pub add_count : Text → String → Text → ℕ → List Aggregation → List Aggregation
add_count period metric key n [] =
    record { period = period; metric = metric; key = key; value = n } ∷ []
add_count period metric key n (row ∷ rows) =
    if is_row period metric key row
    then record row { value = row.value + n } ∷ rows
    else row ∷ add_count period metric key n rows

-- event_time.strftime("%Y-%m-%d")
abbrev pub date_of : Calendar → ℕ → Text
date_of calendar t = calendar.month t ++ (b'-' ∷ calendar.day t)

pub count_metrics : Text → List (String × Text) → List Aggregation → List Aggregation
count_metrics day [] daily = daily
count_metrics day ((metric, key) ∷ metrics) daily =
    count_metrics day metrics (add_count day metric key 1 daily)

-- AggregationDaily.date.like(f"{month}-%")
abbrev pub is_in_month : Text → Text → Bool
is_in_month month date = starts_with (month ++ codes "-") date

-- The rows of one month, grouped by metric and key and summed, or such sums added to a table
pub merge_rows : Text → List Aggregation → List Aggregation → List Aggregation
merge_rows month [] table = table
merge_rows month (row ∷ rows) table =
    merge_rows month rows (add_count month row.metric row.key row.value table)

pub compact_month : Text → Tables → Tables
compact_month month db = record db {
  monthly =
      merge_rows month (merge_rows month (select (λ row. is_in_month month row.period) db.daily) [])
        db.monthly;
  daily = select (λ row. not (is_in_month month row.period)) db.daily;
}

pub compact_months : List Text → Tables → Tables
compact_months [] db = db
compact_months (month ∷ months) db = compact_months months (compact_month month db)

pub distinct : List Text → List Text
distinct [] = []
distinct (x ∷ xs) = let rest = distinct xs in if contains x xs then rest else x ∷ rest

-- func.substr(AggregationDaily.date, 1, 7)
abbrev pub month_of : Aggregation → Text
month_of row = take 7 row.period

-- Subtraction of days stops at the time 0.
pub oldest_retained_month : Calendar → ℕ → Text
oldest_retained_month calendar now =
    calendar.month (now - (daily_rollup_window_days - 1) * seconds_per_day)

pub completed_months : Text → List Aggregation → List Text
completed_months oldest daily =
    select (λ month. not (is_empty month) && text_ltb month oldest) (distinct (map month_of daily))

pub compact_completed_daily_rollups : Calendar → ℕ → Tables → Tables
compact_completed_daily_rollups calendar now db =
    compact_months (completed_months (oldest_retained_month calendar now) db.daily) db

is_expired : ℕ → Event → Bool
is_expired cutoff event = ltb event.event_time cutoff && event.retention_class == "raw"

pub cleanup_events_by_retention : Calendar → ℕ → ℕ → Tables → Tables × ℕ
unfolding is_expired
cleanup_events_by_retention calendar retention_days now db =
    if retention_days == 0
    then (db, 0)
    else (let compacted = compact_completed_daily_rollups calendar now db in
        let cutoff = now - retention_days * seconds_per_day in
        (
          record compacted { events = select (λ e. not (is_expired cutoff e)) compacted.events },
          length (select (is_expired cutoff) compacted.events),
        ))

module _ (calendar : Calendar) (hooks : List Grouper) (is_local_ip_value : Text → Bool) where
  pub update_rollups : Event → Tables → Tables
  update_rollups event db = record db {
    daily =
        count_metrics (date_of calendar event.event_time)
          (rollup_metrics_for_event calendar hooks is_local_ip_value event) db.daily;
  }
