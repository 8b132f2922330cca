-- ===== src/Rollups/Compaction.antt =====
-- A whole compaction: which daily rows it takes, and that it keeps every count.
use open_sec_dash.Prelude.{
  ℕ, ◌≡◌, refl, String, Bool, true, false, not, ◌&&◌, ◌||◌, List, [], ◌∷◌, map, ◌==◌, select, any,
  contains, length, is_empty, eq_of_beq, beq_refl, inl, inr, ◌∙◌, ap, Bool-cases, arith,
}
use open_sec_dash.Prelude.Text.{Text, text_eq, text_beq_iff, text_ltb}
use open_sec_dash.Rollups.{
  Calendar, Aggregation, Tables, is_in_month, month_of, compact_month, compact_months,
  completed_months, distinct, oldest_retained_month, compact_completed_daily_rollups,
}
use open_sec_dash.Rollups.Months.{
  IsDated, AllDated, select-AllDated, starts_with_unique, count_of, count_of-compact_month,
}

-- Texts of seven characters, as months are
AllMonths : List Text → Type 0
AllMonths [] = Unit
AllMonths (m ∷ ms) = (length m ≡ 7) × AllMonths ms

map-AllMonths : (rows : List Aggregation) → AllDated rows → AllMonths (map month_of rows)
unfolding AllDated AllMonths IsDated
map-AllMonths [] h = tt
map-AllMonths (row ∷ rows) (h, hs) = (h.0, map-AllMonths rows hs)

select-AllMonths : (p : Text → Bool) (ms : List Text) → AllMonths ms → AllMonths (select p ms)
unfolding AllMonths
select-AllMonths p [] h = tt
select-AllMonths p (m ∷ ms) (h, hs) = elim (Bool-cases (p m)) [
  | inl kept ↦ rw kept (h, select-AllMonths p ms hs)
  | inr gone ↦ rw gone (select-AllMonths p ms hs)
]

distinct-AllMonths : (ms : List Text) → AllMonths ms → AllMonths (distinct ms)
unfolding AllMonths distinct
distinct-AllMonths [] h = tt
distinct-AllMonths (m ∷ ms) (h, hs) = elim (Bool-cases (contains m ms)) [
  | inl again ↦ rw again (distinct-AllMonths ms hs)
  | inr new ↦ rw new (h, distinct-AllMonths ms hs)
]

completed_months-AllMonths :
    (oldest : Text) (rows : List Aggregation)
    → AllDated rows
    → AllMonths (completed_months oldest rows)
unfolding completed_months
completed_months-AllMonths oldest rows h =
    select-AllMonths _ _ (distinct-AllMonths _ (map-AllMonths rows h))

count_of-compact_months :
    (metric : String) (key m : Text) (months : List Text) (db : Tables)
    → length m ≡ 7
    → AllMonths months
    → count_of metric key m (compact_months months db) ≡ count_of metric key m db
unfolding compact_months AllMonths
count_of-compact_months metric key m [] db l h = refl
count_of-compact_months metric key m (month ∷ months) db l (h, hs) = omega (
  arith,
  count_of-compact_months metric key m months (compact_month month db) l hs,
  count_of-compact_month metric key m month db (omega arith),
)

-- No count is lost or doubled.
pub count_of-compact_completed_daily_rollups :
    (metric : String) (key m : Text) (calendar : Calendar) (now : ℕ) (db : Tables)
    → length m ≡ 7
    → AllDated db.daily
    → count_of metric key m (compact_completed_daily_rollups calendar now db)
      ≡ count_of metric key m db
unfolding compact_completed_daily_rollups
count_of-compact_completed_daily_rollups metric key m calendar now db l h =
    count_of-compact_months metric key m _ db l (completed_months-AllMonths _ db.daily h)

select-select {ℓ} :
    {A : Type ℓ} (p q : A → Bool) (xs : List A)
    → select p (select q xs) ≡ select (λ x. q x && p x) xs
select-select p q [] = refl
select-select p q (x ∷ xs) = ground (arith, select-select p q xs)

-- Whether a date is in one of the months
abbrev is_in_any : List Text → Text → Bool
is_in_any months date = any (λ month. is_in_month month date) months

keep_or : (b c : Bool) → (not b && not c) ≡ not (b || c)
keep_or true c = refl
keep_or false c = refl

select_congr {ℓ} :
    {A : Type ℓ} (p q : A → Bool) (xs : List A) → ((x : A) → p x ≡ q x) → select p xs ≡ select q xs
select_congr p q [] e = refl
select_congr p q (x ∷ xs) e = rw (e x, select_congr p q xs e) refl

daily-compact_months :
    (months : List Text) (db : Tables)
    → (compact_months months db).daily ≡ select (λ row. not (is_in_any months row.period)) db.daily
unfolding compact_months compact_month
daily-compact_months [] db = keep_all db.daily
  where
    keep_all : (rows : List Aggregation) → rows ≡ select (λ row. not (is_in_any [] row.period)) rows
    keep_all [] = refl
    keep_all (row ∷ rows) = ap (λ rest. row ∷ rest) (keep_all rows)
daily-compact_months (month ∷ months) db =
    daily-compact_months months (compact_month month db)
    ∙ select-select _ _ db.daily
    ∙ select_congr _ _ db.daily (λ row. keep_or _ _)

in_month-eq :
    (row : Aggregation) (m : Text)
    → IsDated row
    → length m ≡ 7
    → is_in_month m row.period ≡ (month_of row == m)
unfolding IsDated
in_month-eq row m d l = elim (Bool-cases (month_of row == m)) [
  | inl same ↦ let e : month_of row ≡ m = eq_of_beq (month_of row) m same in rw same (rw e at d.1)
  | inr apart ↦ elim (Bool-cases (is_in_month m row.period)) [
    | inl here ↦
        let e : month_of row ≡ m =
          starts_with_unique (month_of row) m row.period (omega (arith, d.0)) d.1 here in
        absurd (ground (arith, text_beq_iff (month_of row) m))
    | inr away ↦ rw (apart, away) refl
  ]
]

in_some-contains :
    (row : Aggregation) (ms : List Text)
    → IsDated row
    → AllMonths ms
    → is_in_any ms row.period ≡ contains (month_of row) ms
unfolding AllMonths
in_some-contains row [] d h = refl
in_some-contains row (m ∷ ms) d (h, hs) =
    rw (in_month-eq row m d h, in_some-contains row ms d hs) refl

contains-select :
    (t : Text) (p : Text → Bool) (ms : List Text)
    → contains t (select p ms) ≡ (contains t ms && p t)
contains-select t p [] = refl
contains-select t p (m ∷ ms) = ground (arith, text_beq_iff t m, contains-select t p ms)

contains-distinct : (t : Text) (ms : List Text) → contains t (distinct ms) ≡ contains t ms
unfolding distinct
contains-distinct t [] = refl
contains-distinct t (m ∷ ms) = ground (arith, text_beq_iff t m, contains-distinct t ms)

-- Whether a completed month is that of a row, where the months are those of the table
is_completed :
    (oldest t : Text) (ms : List Text)
    → length t ≡ 7
    → contains t ms ≡ true
    → contains t (select (λ month. not (is_empty month) && text_ltb month oldest) (distinct ms))
      ≡ text_ltb t oldest
is_completed oldest [] ms l h = absurd (omega arith)
is_completed oldest (c ∷ t) ms l h =
    contains-select (c ∷ t) _ (distinct ms) ∙ (rw (contains-distinct (c ∷ t) ms, h) refl)

AllIn : List Text → List Aggregation → Type 0
AllIn ms [] = Unit
AllIn ms (row ∷ rows) = (contains (month_of row) ms ≡ true) × AllIn ms rows

AllIn-more :
    (m : Text) (ms : List Text) (rows : List Aggregation) → AllIn ms rows → AllIn (m ∷ ms) rows
unfolding AllIn
AllIn-more m ms [] h = tt
AllIn-more m ms (row ∷ rows) (h, hs) = (ground arith, AllIn-more m ms rows hs)

map-AllIn : (rows : List Aggregation) → AllIn (map month_of rows) rows
unfolding AllIn
map-AllIn [] = tt
map-AllIn (row ∷ rows) = (
  rw (beq_refl (month_of row)) refl,
  AllIn-more (month_of row) (map month_of rows) rows (map-AllIn rows),
)

select-completed :
    (oldest : Text) (ms : List Text) (rows : List Aggregation)
    → AllMonths ms
    → AllDated rows
    → AllIn ms rows
    → select
        (λ row. not (
          is_in_any
            (select (λ month. not (is_empty month) && text_ltb month oldest) (distinct ms))
            row.period))
        rows
      ≡ select (λ row. not (text_ltb (month_of row) oldest)) rows
unfolding AllDated AllIn
select-completed oldest ms [] a d i = refl
select-completed oldest ms (row ∷ rows) a (d, ds) (i, is) =
    let months =
      select-AllMonths (λ month. not (is_empty month) && text_ltb month oldest) (distinct ms)
        (distinct-AllMonths ms a) in
    let digits : length (month_of row) ≡ 7 = unfold IsDated in d.0 in
    rw (
      in_some-contains row _ d months ∙ is_completed oldest (month_of row) ms digits i,
      select-completed oldest ms rows a ds is,
    )

-- Where every daily row has a proper date, the rows that a compaction leaves are those of the
-- months that are not before the oldest month of the daily window.
pub daily-compact_completed_daily_rollups :
    (calendar : Calendar) (now : ℕ) (db : Tables)
    → AllDated db.daily
    → (compact_completed_daily_rollups calendar now db).daily
      ≡ select (λ row. not (text_ltb (month_of row) (oldest_retained_month calendar now))) db.daily
unfolding compact_completed_daily_rollups completed_months
daily-compact_completed_daily_rollups calendar now db h =
    daily-compact_months _ db
    ∙ select-completed (oldest_retained_month calendar now) (map month_of db.daily) db.daily
        (map-AllMonths db.daily h) h (map-AllIn db.daily)

pub compact_completed_daily_rollups-AllDated :
    (calendar : Calendar) (now : ℕ) (db : Tables)
    → AllDated db.daily
    → AllDated (compact_completed_daily_rollups calendar now db).daily
compact_completed_daily_rollups-AllDated calendar now db h =
    rw (daily-compact_completed_daily_rollups calendar now db h) (select-AllDated _ db.daily h)
