-- ===== src/Rollups/Counting.antt =====
-- What the rows of a table of counters add up to, and how counting and merging change it.
use open_sec_dash.Prelude.{
  ℕ, ◌+◌, ◌≡◌, String, Bool, ◌&&◌, List, [], ◌∷◌, ◌==◌, nat_eq, string_eq, if◌then◌else◌, arith,
}
use open_sec_dash.Prelude.Sums.{sum_by, flag}
use open_sec_dash.Prelude.Text.{Text, text_eq, text_beq_iff}
use open_sec_dash.Rollups.{Aggregation, add_count, count_metrics, merge_rows}
use text.Mathlib.TextEquality.{eq_iff}

module _ (metric : String) (key : Text) where
  -- What a row adds, where its period counts
  abbrev pub share : Bool → Aggregation → ℕ
  share counts row = if counts && row.metric == metric && row.key == key then row.value else 0

  -- What the rows whose period passes the test add up to
  unfoldable pub total : (Text → Bool) → List Aggregation → ℕ
  total q = sum_by (λ row. share (q row.period) row)

  -- How often a list of metrics names this one
  abbrev pub is_metric : String × Text → Bool
  is_metric m = m.0 == metric && m.1 == key

  pub total-add_count :
      (q : Text → Bool) (p : Text) (m : String) (k : Text) (n : ℕ) (rows : List Aggregation)
      → total q (add_count p m k n rows)
        ≡ total q rows + (if q p && m == metric && k == key then n else 0)
  unfolding total add_count sum_by
  total-add_count q p m k n [] = ground arith
  total-add_count q p m k n (row ∷ rows) = ground (
    arith,
    text_beq_iff row.period p,
    eq_iff row.metric m,
    text_beq_iff row.key k,
    total-add_count q p m k n rows,
  )

  pub total-count_metrics :
      (q : Text → Bool) (day : Text) (metrics : List (String × Text)) (rows : List Aggregation)
      → total q (count_metrics day metrics rows)
        ≡ total q rows + sum_by (λ m. flag (q day && is_metric m)) metrics
  unfolding count_metrics sum_by
  total-count_metrics q day [] rows = omega arith
  total-count_metrics q day ((m, k) ∷ metrics) rows = ground (
    arith,
    total-count_metrics q day metrics (add_count day m k 1 rows),
    total-add_count q day m k 1 rows,
  )

  pub total-merge_rows :
      (q : Text → Bool) (month : Text) (rows table : List Aggregation)
      → total q (merge_rows month rows table) ≡ total q table + sum_by (share (q month)) rows
  unfolding merge_rows sum_by
  total-merge_rows q month [] table = omega arith
  total-merge_rows q month (row ∷ rows) table = ground (
    arith,
    total-merge_rows q month rows (add_count month row.metric row.key row.value table),
    total-add_count q month row.metric row.key row.value table,
  )

  -- Grouping the rows of a month first does not change what they add.
  pub total-merge_rows-merge_rows :
      (q : Text → Bool) (month : Text) (rows table : List Aggregation)
      → total q (merge_rows month (merge_rows month rows []) table)
        ≡ total q table + sum_by (share (q month)) rows
  unfolding total sum_by
  total-merge_rows-merge_rows q month rows table = omega (
    arith,
    total-merge_rows q month (merge_rows month rows []) table,
    total-merge_rows (λ p. q month) month rows [],
  )
