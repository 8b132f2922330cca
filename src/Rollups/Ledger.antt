-- ===== src/Rollups/Ledger.antt =====
-- The counters over a whole life of the program: events arrive, months are compacted and old events
-- are deleted, in any order.
use open_sec_dash.Prelude.{
  ℕ, ◌+◌, ◌≡◌, refl, String, Bool, List, [], ◌∷◌, ◌++◌, ◌==◌, length, inl, inr, Bool-cases,
  if◌then◌else◌, arith, nat_eq, string_eq,
}
use open_sec_dash.Prelude.Sums.{sum_by, count}
use open_sec_dash.Prelude.Text.{Text, text_eq}
use open_sec_dash.Rollups.{
  Calendar, Tables, Event, Grouper, date_of, is_in_month, rollup_metrics_for_event, update_rollups,
  compact_completed_daily_rollups, cleanup_events_by_retention,
}
use open_sec_dash.Rollups.Counting.{is_metric, total-count_metrics}
use open_sec_dash.Rollups.Months.{AllDated, count_of, count_metrics-AllDated, is_in_month-date_of}
use open_sec_dash.Rollups.Compaction.{
  count_of-compact_completed_daily_rollups, compact_completed_daily_rollups-AllDated,
}

pub data Step : Type 0 where
  stored : Event → Step
  compacted : ℕ → Step
  cleaned : ℕ → ℕ → Step

module _ (calendar : Calendar) (hooks : List Grouper) (is_local_ip_value : Text → Bool) where
  -- The part of `store_event` that keeps a new event and counts it
  pub keep_event : Event → Tables → Tables
  keep_event event db =
      update_rollups calendar hooks is_local_ip_value event
        (record db { events = db.events ++ event ∷ [] })

  pub after_step : Step → Tables → Tables
  after_step (stored event) db = keep_event event db
  after_step (compacted now) db = compact_completed_daily_rollups calendar now db
  after_step (cleaned retention_days now) db =
      (cleanup_events_by_retention calendar retention_days now db).0

  pub run_steps : List Step → Tables → Tables
  run_steps [] db = db
  run_steps (step ∷ steps) db = run_steps steps (after_step step db)

  module _ (metric : String) (key month : Text) where
    -- How often an event of the month has the metric
    pub counts : Event → ℕ
    counts event =
        if month == calendar.month event.event_time
        then count (is_metric metric key)
            (rollup_metrics_for_event calendar hooks is_local_ip_value event)
        else 0

    pub gained : Step → ℕ
    gained (stored event) = counts event
    gained (compacted now) = 0
    gained (cleaned retention_days now) = 0

    pub arrivals : List Step → ℕ
    arrivals = sum_by gained

    count_of-keep_event :
        (event : Event) (db : Tables)
        → length month ≡ 7
        → count_of metric key month (keep_event event db)
          ≡ count_of metric key month db + counts event
    unfolding keep_event update_rollups count_of counts sum_by
    count_of-keep_event event db l =
        let t = event.event_time in
        let metrics = rollup_metrics_for_event calendar hooks is_local_ip_value event in
        let same = is_in_month-date_of calendar month t l in
        let counted =
          total-count_metrics metric key (is_in_month month) (date_of calendar t) metrics
            db.daily in
        elim (Bool-cases (month == calendar.month t)) [
          | inl here ↦ rw here (omega (arith, (rw (same, here) at counted)))
          | inr away ↦ rw away (omega (arith, (rw (same, away) at counted), none_counted metrics))
        ]
      where
        none_counted : (ms : List (String × Text)) → sum_by (λ m. 0) ms ≡ 0
        none_counted [] = refl
        none_counted (m ∷ ms) = omega (arith, none_counted ms)

  cleanup-AllDated :
      (retention_days now : ℕ) (db : Tables)
      → AllDated db.daily
      → AllDated (cleanup_events_by_retention calendar retention_days now db).0.daily
  unfolding cleanup_events_by_retention
  cleanup-AllDated retention_days now db h = elim (Bool-cases (retention_days == 0)) [
    | inl never ↦ rw (never, cleanup_events_by_retention) h
    | inr days ↦
        rw (days, cleanup_events_by_retention)
          (compact_completed_daily_rollups-AllDated calendar now db h)
  ]

  after_step-AllDated :
      (step : Step) (db : Tables) → AllDated db.daily → AllDated (after_step step db).daily
  unfolding after_step keep_event update_rollups
  after_step-AllDated (stored event) db h =
      count_metrics-AllDated calendar event.event_time _ db.daily h
  after_step-AllDated (compacted now) db h =
      compact_completed_daily_rollups-AllDated calendar now db h
  after_step-AllDated (cleaned retention_days now) db h = cleanup-AllDated retention_days now db h

  module _ (metric : String) (key month : Text) (digits : length month ≡ 7) where
    count_of-cleanup :
        (retention_days now : ℕ) (db : Tables)
        → AllDated db.daily
        → count_of metric key month (cleanup_events_by_retention calendar retention_days now db).0
          ≡ count_of metric key month db
    unfolding cleanup_events_by_retention count_of
    count_of-cleanup retention_days now db h =
        let same =
          count_of-compact_completed_daily_rollups metric key month calendar now db digits h in
        elim (Bool-cases (retention_days == 0)) [
          | inl never ↦ rw never refl
          | inr days ↦ rw days same
        ]

    count_of-after_step :
        (step : Step) (db : Tables)
        → AllDated db.daily
        → count_of metric key month (after_step step db)
          ≡ count_of metric key month db + gained metric key month step
    unfolding after_step gained
    count_of-after_step (stored event) db h = count_of-keep_event metric key month event db digits
    count_of-after_step (compacted now) db h =
        omega (
          arith,
          count_of-compact_completed_daily_rollups metric key month calendar now db digits h,
        )
    count_of-after_step (cleaned retention_days now) db h =
        omega (arith, count_of-cleanup retention_days now db h)

    -- From daily rows with proper dates, whatever the order in which events are stored, months
    -- are compacted and old events are deleted: the daily and monthly rows of a month together
    -- count a metric as often as the events stored for that month have it, beyond what they
    -- counted before. Nothing is lost or counted twice.
    pub count_of-run_steps :
        (steps : List Step) (db : Tables)
        → AllDated db.daily
        → count_of metric key month (run_steps steps db)
          ≡ count_of metric key month db + arrivals metric key month steps
    unfolding run_steps arrivals sum_by
    count_of-run_steps [] db h = omega arith
    count_of-run_steps (step ∷ steps) db h = omega (
      arith,
      count_of-run_steps steps (after_step step db) (after_step-AllDated step db h),
      count_of-after_step step db h,
    )
