-- ===== src/Examples/Incidents.antt =====
-- Counting events by month, search texts, and an insight that is recorded twice.
use open_sec_dash.Prelude.{
  ℕ, ◌+◌, ◌≡◌, refl, false, not, List, [], ◌∷◌, select, length, ltb, if◌then◌else◌, Bool-cases, inl,
  inr, some, none,
}
use open_sec_dash.Prelude.Text.{Text, codes, strip, starts_with, text_ltb}
use open_sec_dash.Rollups.{
  Calendar, Event, Aggregation, Tables, month_of, oldest_retained_month,
  compact_completed_daily_rollups,
}
use open_sec_dash.Rollups.Months.{AllDated, IsDated, count_of}
use open_sec_dash.Rollups.Compaction.{daily-compact_completed_daily_rollups}
use open_sec_dash.Rollups.Ledger.{
  Step, stored, compacted, cleaned, run_steps, arrivals, count_of-run_steps,
}
use open_sec_dash.Insights.{
  Finding, recorded, insert_id, sorted_set, finding_error, find_key, find_existing, inserted,
  record_insight,
}
use open_sec_dash.Insights.Repetition.{record_insight-record_insight}
use open_sec_dash.Search.{
  is_unreadable, term, ok, validate_search_expression, tokenize_search_expression, read_tokens,
  validate_tokens, check_tokens, build_search_expression,
}
use open_sec_dash.Search.Digits.{all_digits, int_fails}
use open_sec_dash.Search.Tokens.{IsBounded}
use open_sec_dash.Search.Validation.{
  IsBuilt, validate_search_expression-IsBounded, build-validate_search_expression,
  build_search_expression-plain,
}

-- January has the first 31 days of time, and all that follows is February.
month_name : ℕ → Text
month_name t = if ltb t 2678400 then codes "2026-01" else codes "2026-02"

month_name_digits : (t : ℕ) → length (month_name t) ≡ 7
unfolding month_name
month_name_digits t = elim (Bool-cases (ltb t 2678400)) [
  | inl early ↦ rw early refl
  | inr late ↦ rw late refl
]

abbrev winter : Calendar
winter = record {
  month = month_name;
  day = λ t. codes "01";
  hour = λ t. codes "12";
  month_digits = month_name_digits;
}

abbrev scan : Event
scan = record {
  id = 1;
  event_type = codes "security.scan";
  event_time = 1000;
  ip = codes "8.8.8.8";
  country = codes "DE";
  data_json = [];
  retention_class = "raw";
}

-- The month is compacted between two events, and the events are deleted in the end.
abbrev season : List Step
season = stored scan ∷ compacted 9000000 ∷ stored (record scan { id = 2 }) ∷ cleaned 30 9000000 ∷ []

abbrev no_rows : Tables
no_rows = record { events = []; daily = []; monthly = [] }

no_rows-AllDated : AllDated no_rows.daily
unfolding AllDated
no_rows-AllDated = tt

count_of-run_steps_example :
    count_of "country"
      (codes "DE")
      (codes "2026-01")
      (run_steps winter [] (λ ip. false) season no_rows)
    ≡ count_of "country" (codes "DE") (codes "2026-01") no_rows
      + arrivals winter [] (λ ip. false) "country" (codes "DE") (codes "2026-01") season
count_of-run_steps_example =
    count_of-run_steps winter [] (λ ip. false) "country" (codes "DE") (codes "2026-01") refl season
      no_rows no_rows-AllDated

abbrev january : Aggregation
january = record { period = codes "2026-01-07"; metric = "country"; key = codes "DE"; value = 3 }

abbrev two_months : Tables
two_months = record {
  events = [];
  daily = january ∷ record january { period = codes "2026-02-01" } ∷ [];
  monthly = [];
}

two_months-AllDated : AllDated two_months.daily
unfolding AllDated IsDated starts_with
two_months-AllDated = ((refl, refl), ((refl, refl), tt))

daily-compact_completed_daily_rollups_example :
    (compact_completed_daily_rollups winter 9000000 two_months).daily
    ≡ select
        (λ row. not (text_ltb (month_of row) (oldest_retained_month winter 9000000)))
        two_months.daily
daily-compact_completed_daily_rollups_example =
    daily-compact_completed_daily_rollups winter 9000000 two_months two_months-AllDated

abbrev query : Text
query = codes " ssh && (DE || 404)"

abbrev query_tokens : List Text
query_tokens =
    codes "ssh" ∷ codes "&&" ∷ codes "(" ∷ codes "DE" ∷ codes "||" ∷ codes "404" ∷ codes ")" ∷ []

query_valid : validate_search_expression query ≡ ok query_tokens
unfolding validate_search_expression tokenize_search_expression read_tokens validate_tokens
    check_tokens strip starts_with
query_valid = refl

build-validate_search_expression_example : IsBuilt query_tokens
build-validate_search_expression_example =
    build-validate_search_expression query query_tokens query_valid refl

validate_search_expression-IsBounded_example : IsBounded (validate_search_expression query)
validate_search_expression-IsBounded_example = validate_search_expression-IsBounded query

build_search_expression-plain_example :
    build_search_expression (codes "ssh" ∷ codes "DE" ∷ [])
    ≡ ok (term (codes "ssh"), codes "DE" ∷ [])
unfolding is_unreadable all_digits int_fails
build_search_expression-plain_example =
    build_search_expression-plain (codes "ssh") (codes "DE" ∷ []) refl refl

abbrev rise : Finding
rise = record {
  type = "geo.geoblocks_increased";
  title = codes "Observed GeoBlocks increased";
  description = codes "from 60 to 130";
  level = "medium";
  occurred_at = 5000;
  correlation_key = some (codes "country:FR");
  dedupe_key = some (codes "geo:FR:2026-01-31");
  related_event_ids = 9 ∷ 4 ∷ 9 ∷ [];
  kind = "trend";
  sample_count = some 2;
  ip = none;
  asset_id = none;
}

abbrev rise_row : Finding
rise_row = record rise { related_event_ids = 4 ∷ 9 ∷ [] }

-- Another writer stores an insight without a key meanwhile.
abbrev other_row : Finding
other_row = record rise { dedupe_key = none; kind = "direct" }

rise_recorded :
    record_insight rise (other_row ∷ []) [] ≡ recorded (other_row ∷ rise_row ∷ []) rise_row
unfolding record_insight finding_error find_existing find_key sorted_set insert_id inserted
rise_recorded = refl

record_insight-record_insight_example :
    (again : Finding) × (find_existing rise (other_row ∷ rise_row ∷ []) ≡ some again)
    × (record_insight rise [] (other_row ∷ rise_row ∷ [])
        ≡ recorded (other_row ∷ rise_row ∷ []) again)
record_insight-record_insight_example =
    record_insight-record_insight rise (other_row ∷ []) [] (other_row ∷ rise_row ∷ []) rise_row refl
      rise_recorded
