-- ===== src/Insights.antt =====
-- backend/app/services/insights.py, `record_insight`: the insights that are stored once.
--
-- The evidence is the snapshot that `validate_evidence` returned, as far as it is read here. Event ids
-- are natural numbers, the confidence is left out. The rows that other writers insert between the
-- queries and the flush are an argument; a unique index covers the key `dedupe_key`. The
-- notification of a new insight is left out.
pub mod Repetition
use open_sec_dash.Prelude.{
  ℕ, suc, ◌+◌, ◌≡◌, refl, String, Bool, true, false, not, ◌&&◌, ◌||◌, Option, none, some, List, [],
  ◌∷◌, ◌++◌, ◌==◌, nat_eq, string_eq, Comparable, first, any, length, is_some, ltb, if◌then◌else◌,
}
use open_sec_dash.Prelude.Text.{Text, text_eq, text_beq}

abbrev pub max_sample_ids : ℕ
max_sample_ids = 20

pub record Finding : Type 0 where
  pub type : String
  pub title : Text
  pub description : Text
  pub level : String
  pub occurred_at : ℕ
  pub correlation_key : Option Text
  pub dedupe_key : Option Text
  pub related_event_ids : List ℕ
  pub kind : String
  pub sample_count : Option ℕ
  pub ip : Option Text
  pub asset_id : Option ℕ

pub data InsightError : Type 0 where
  invalid_event_id too_many_events wrong_sample_count long_correlation_key long_dedupe_key :
      InsightError

pub data InsightResult : Type 0 where
  refused : InsightError → InsightResult
  recorded : List Finding → Finding → InsightResult

unfoldable pub insert_id : ℕ → List ℕ → List ℕ
insert_id a [] = a ∷ []
insert_id a (b ∷ bs) = if ltb a b then a ∷ b ∷ bs else if a == b then b ∷ bs else b ∷ insert_id a bs

-- sorted(set(ids))
unfoldable pub sorted_set : List ℕ → List ℕ
sorted_set [] = []
sorted_set (a ∷ as') = insert_id a (sorted_set as')

abbrev pub is_longer : ℕ → Option Text → Bool
is_longer n none = false
is_longer n (some key) = ltb n (length key)

abbrev pub is_count : Option ℕ → ℕ → Bool
is_count none n = false
is_count (some m) n = m == n

-- What the checks raise, if they raise
unfoldable pub finding_error : Finding → Option InsightError
finding_error f =
    if any (λ id. id == 0) f.related_event_ids
    then some invalid_event_id
    else if ltb max_sample_ids (length f.related_event_ids)
    then some too_many_events
    else if not (is_count f.sample_count (length (sorted_set f.related_event_ids)))
    then some wrong_sample_count
    else if is_longer 160 f.correlation_key
    then some long_correlation_key
    else if is_longer 255 f.dedupe_key
    then some long_dedupe_key
    else none

-- list ==
abbrev pub same_ids : List ℕ → List ℕ → Bool
same_ids = text_beq

abbrev pub is_same_finding : Finding → Finding → Bool
is_same_finding f row =
    row.type == f.type && same_ids row.related_event_ids (sorted_set f.related_event_ids)

-- Insight.dedupe_key == key, which no row without a key satisfies
abbrev pub has_key : Text → Finding → Bool
has_key key row = elim row.dedupe_key [ none ↦ false | some k ↦ k == key ]

unfoldable pub find_key : Option Text → List Finding → Option Finding
find_key none rows = none
find_key (some key) rows = first (has_key key) rows

abbrev pub row_or : Option Finding → Option Finding → Option Finding
row_or (some row) other = some row
row_or none other = other

-- The two queries before the insert
unfoldable pub find_existing : Finding → List Finding → Option Finding
find_existing f rows =
    row_or (if f.kind == "trend" then none else first (is_same_finding f) rows)
      (find_key f.dedupe_key rows)

-- The insert, unless a row conflicts on the key: that row is looked up again.
unfoldable pub inserted : Option Finding → Finding → List Finding → InsightResult
inserted none row rows = recorded (rows ++ row ∷ []) row
inserted (some existing) row rows = recorded rows existing

flush : Finding → List Finding → InsightResult
flush f rows =
    inserted (find_key f.dedupe_key rows)
      (record f { related_event_ids = sorted_set f.related_event_ids }) rows

store_finding : Finding → List Finding → Option Finding → List Finding → InsightResult
unfolding flush
store_finding f rivals (some existing) rows = recorded rows existing
store_finding f rivals none rows = flush f (rows ++ rivals)

refuse_on : Option InsightError → InsightResult → InsightResult
refuse_on none result = result
refuse_on (some error) result = refused error

unfoldable pub record_insight : Finding → List Finding → List Finding → InsightResult
unfolding store_finding refuse_on
record_insight f rivals rows =
    refuse_on (finding_error f) (store_finding f rivals (find_existing f rows) rows)
