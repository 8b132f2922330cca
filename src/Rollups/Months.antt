-- ===== src/Rollups/Months.antt =====
-- One row is in one month only, and what the compaction of a month keeps.
use open_sec_dash.Prelude.{
  ℕ, suc, zero, ◌+◌, ◌≡◌, refl, String, Bool, true, not, List, [], ◌∷◌, ◌++◌, ◌==◌, nat_eq,
  string_eq, select, take, length, eq_of_beq, inl, inr, Bool-cases, if◌then◌else◌, arith,
}
use open_sec_dash.Prelude.Sums.{sum_by}
use open_sec_dash.Prelude.Text.{Text, text_eq, text_beq_iff, codes, starts_with}
use open_sec_dash.Rollups.{
  Calendar, Aggregation, Tables, is_row, add_count, count_metrics, date_of, is_in_month, month_of,
  compact_month,
}
use open_sec_dash.Rollups.Counting.{share, total, total-merge_rows-merge_rows}

pub starts_with_unique :
    (a b date : Text)
    → length a ≡ length b
    → starts_with (a ++ codes "-") date ≡ true
    → starts_with (b ++ codes "-") date ≡ true
    → a ≡ b
unfolding starts_with
starts_with_unique [] [] date l p q = refl
starts_with_unique [] (d ∷ b) date l p q = absurd (omega arith)
starts_with_unique (c ∷ a) [] date l p q = absurd (omega arith)
starts_with_unique (c ∷ a) (d ∷ b) [] l p q = cc
starts_with_unique (c ∷ a) (d ∷ b) (e ∷ date) l p q = ground (arith, starts_with_unique a b date)

-- A date "YYYY-MM-DD": its month has seven characters, and a dash follows it.
unfoldable pub IsDated : Aggregation → Type 0
IsDated row = (length (month_of row) ≡ 7) × (is_in_month (month_of row) row.period ≡ true)

unfoldable pub AllDated : List Aggregation → Type 0
AllDated [] = Unit
AllDated (row ∷ rows) = IsDated row × AllDated rows

take-append : (n : ℕ) (s t : Text) → length s ≡ n → take n (s ++ t) ≡ s
take-append zero [] t h = refl
take-append zero (c ∷ s) t h = absurd (omega arith)
take-append (suc n) [] t h = absurd (omega arith)
take-append (suc n) (c ∷ s) t h = ground (arith, take-append n s t)

starts_with-dash : (s t : Text) → starts_with (s ++ codes "-") (s ++ (b'-' ∷ t)) ≡ true
unfolding starts_with
starts_with-dash [] t = refl
starts_with-dash (c ∷ s) t = ground (arith, starts_with-dash s t)

pub date_of-IsDated :
    (calendar : Calendar) (t : ℕ) (row : Aggregation)
    → row.period ≡ date_of calendar t
    → IsDated row
unfolding IsDated
date_of-IsDated calendar t row e =
    let m = calendar.month t in
    let month : take 7 (m ++ (b'-' ∷ calendar.day t)) ≡ m =
      take-append 7 m (b'-' ∷ calendar.day t) (calendar.month_digits t) in
    rw e (rw month (calendar.month_digits t, starts_with-dash m (calendar.day t)))

pub is_in_month-date_of :
    (calendar : Calendar) (m : Text) (t : ℕ)
    → length m ≡ 7
    → is_in_month m (date_of calendar t) ≡ (m == calendar.month t)
is_in_month-date_of calendar m t l = elim (Bool-cases (m == calendar.month t)) [
  | inl same ↦
      let e : m ≡ calendar.month t = eq_of_beq m (calendar.month t) same in
      rw (same, e) (starts_with-dash (calendar.month t) (calendar.day t))
  | inr apart ↦ elim (Bool-cases (is_in_month m (date_of calendar t))) [
    | inl here ↦
        let e : m ≡ calendar.month t =
          starts_with_unique m (calendar.month t) (date_of calendar t)
            (omega (arith, calendar.month_digits t)) here
            (starts_with-dash (calendar.month t) (calendar.day t)) in
        absurd (ground (arith, text_beq_iff m (calendar.month t)))
    | inr away ↦ rw (apart, away) refl
  ]
]

add_count-AllDated :
    (calendar : Calendar) (t : ℕ) (metric : String) (key : Text) (n : ℕ) (rows : List Aggregation)
    → AllDated rows
    → AllDated (add_count (date_of calendar t) metric key n rows)
unfolding add_count AllDated
add_count-AllDated calendar t metric key n [] h = (date_of-IsDated calendar t _ refl, tt)
add_count-AllDated calendar t metric key n (row ∷ rows) (h, hs) =
    elim (Bool-cases (is_row (date_of calendar t) metric key row)) [
      | inl same ↦ rw same (unfold IsDated in h, hs)
      | inr other ↦ rw other (h, add_count-AllDated calendar t metric key n rows hs)
    ]

pub count_metrics-AllDated :
    (calendar : Calendar) (t : ℕ) (metrics : List (String × Text)) (rows : List Aggregation)
    → AllDated rows
    → AllDated (count_metrics (date_of calendar t) metrics rows)
unfolding count_metrics
count_metrics-AllDated calendar t [] rows h = h
count_metrics-AllDated calendar t ((m, k) ∷ metrics) rows h =
    count_metrics-AllDated calendar t metrics _ (add_count-AllDated calendar t m k 1 rows h)

pub select-AllDated :
    (p : Aggregation → Bool) (rows : List Aggregation) → AllDated rows → AllDated (select p rows)
unfolding AllDated
select-AllDated p [] h = tt
select-AllDated p (row ∷ rows) (h, hs) = elim (Bool-cases (p row)) [
  | inl kept ↦ rw kept (h, select-AllDated p rows hs)
  | inr gone ↦ rw gone (select-AllDated p rows hs)
]

module _ (metric : String) (key : Text) where
  -- The share of a month's row in any month's total
  moved :
      (m month : Text) (row : Aggregation)
      → length m ≡ length month
      → (if is_in_month month row.period then share metric key (m == month) row else 0)
          + (if not (is_in_month month row.period)
              then share metric key (is_in_month m row.period) row
              else 0)
        ≡ share metric key (is_in_month m row.period) row
  moved m month row l = elim (Bool-cases (is_in_month month row.period)) [
    | inl here ↦ elim (Bool-cases (is_in_month m row.period)) [
      | inl also ↦
          let same : m ≡ month = starts_with_unique m month row.period l also here in
          rw (here, also) (ground (arith, text_beq_iff m month))
      | inr other ↦ elim (Bool-cases (m == month)) [
        | inl same ↦ cc (eq_of_beq m month same)
        | inr apart ↦ rw (here, other, apart) (omega arith)
      ]
    ]
    | inr away ↦ rw away (omega arith)
  ]

  moved_all :
      (m month : Text) (rows : List Aggregation)
      → length m ≡ length month
      → sum_by (share metric key (m == month)) (select (λ row. is_in_month month row.period) rows)
          + total metric key
              (is_in_month m)
              (select (λ row. not (is_in_month month row.period)) rows)
        ≡ total metric key (is_in_month m) rows
  unfolding total sum_by
  moved_all m month [] l = omega arith
  moved_all m month (row ∷ rows) l =
      let one = moved m month row l in
      let rest = moved_all m month rows l in
      elim (Bool-cases (is_in_month month row.period)) [
        | inl here ↦ rw here (omega (arith, (rw here at one), rest))
        | inr away ↦ rw away (omega (arith, (rw away at one), rest))
      ]

  -- What is counted for a month, in both tables
  unfoldable pub count_of : Text → Tables → ℕ
  count_of m db =
      total metric key (λ p. m == p) db.monthly + total metric key (is_in_month m) db.daily

  pub count_of-compact_month :
      (m month : Text) (db : Tables)
      → length m ≡ length month
      → count_of m (compact_month month db) ≡ count_of m db
  unfolding count_of compact_month
  count_of-compact_month m month db l = omega (
    arith,
    moved_all m month db.daily l,
    total-merge_rows-merge_rows metric key (λ p. m == p) month
        (select (λ row. is_in_month month row.period) db.daily) db.monthly,
  )
