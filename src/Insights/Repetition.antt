-- ===== src/Insights/Repetition.antt =====
-- A finding that is recorded again is found.
use open_sec_dash.Prelude.{
  ◌≡◌, refl, Bool, true, false, not, ◌||◌, Option, none, some, List, [], ◌∷◌, ◌++◌, ◌==◌, string_eq,
  first, is_some, Bool-cases, Option-cases, beq_refl, inl, inr, if◌then◌else◌, arith,
}
use open_sec_dash.Prelude.Text.{Text, text_eq, text_beq_iff}
use open_sec_dash.Insights.{
  Finding, InsightError, InsightResult, refused, recorded, inserted, sorted_set, finding_error,
  is_same_finding, has_key, find_key, find_existing, flush, store_finding, refuse_on,
  record_insight,
}

-- A query finds a row where it matches the last one.
first-append :
    (p : Finding → Bool) (rows : List Finding) (row : Finding)
    → p row ≡ true
    → is_some (first p (rows ++ row ∷ [])) ≡ true
first-append p [] row h = rw h refl
first-append p (r ∷ rows) row h = ground (arith, first-append p rows row h)

-- Whether a repetition can be told: a trend is known by its key only.
abbrev pub is_repeatable : Finding → Bool
is_repeatable f = not (f.kind == "trend") || is_some f.dedupe_key

as_row : Finding → Finding
as_row f = record f { related_event_ids = sorted_set f.related_event_ids }

is_same-as_row : (f : Finding) → is_same_finding f (as_row f) ≡ true
unfolding as_row
is_same-as_row f =
    rw
      (
        beq_refl f.type,
        (text_beq_iff (sorted_set f.related_event_ids) (sorted_set f.related_event_ids)).1 refl,
      )
      refl

find_key-as_row :
    (f : Finding) (key : Option Text) (rows : List Finding)
    → f.dedupe_key ≡ key
    → is_some key ≡ true
    → is_some (find_key key (rows ++ as_row f ∷ [])) ≡ true
unfolding find_key as_row
find_key-as_row f none rows e h = h
find_key-as_row f (some key) rows e h =
    first-append (has_key key) rows (as_row f) (rw e (beq_refl key))

find_existing-key :
    (f : Finding) (rows : List Finding)
    → is_some (find_key f.dedupe_key rows) ≡ true
    → is_some (find_existing f rows) ≡ true
unfolding find_existing
find_existing-key f rows h =
    elim (Option-cases (if f.kind == "trend" then none else first (is_same_finding f) rows)) [
      | inl missing ↦ rw missing h
      | inr (row, found) ↦ rw found refl
    ]

find_existing-events :
    (f : Finding) (rows : List Finding)
    → (f.kind == "trend") ≡ false
    → is_some (first (is_same_finding f) rows) ≡ true
    → is_some (find_existing f rows) ≡ true
unfolding find_existing
find_existing-events f rows other h = elim (Option-cases (first (is_same_finding f) rows)) [
  | inl missing ↦ absurd (ground (arith, (rw missing at h)))
  | inr (row, found) ↦ rw (other, found) refl
]

find_existing-as_row :
    (f : Finding) (rows : List Finding)
    → is_repeatable f ≡ true
    → is_some (find_existing f (rows ++ as_row f ∷ [])) ≡ true
find_existing-as_row f rows h = elim (Bool-cases (f.kind == "trend")) [
  | inl trend ↦
      find_existing-key f (rows ++ as_row f ∷ [])
        (find_key-as_row f f.dedupe_key rows refl (rw trend at h))
  | inr other ↦
      find_existing-events f (rows ++ as_row f ∷ []) other
        (first-append (is_same_finding f) rows (as_row f) (is_same-as_row f))
]

-- What a recording leaves
Leaves : (List Finding → Type 0) → InsightResult → Type 0
Leaves P (refused e) = Unit
Leaves P (recorded rows f) = P rows

flush-Leaves :
    (f : Finding) (rows : List Finding)
    → is_repeatable f ≡ true
    → Leaves (λ after. is_some (find_existing f after) ≡ true) (flush f rows)
unfolding flush inserted Leaves
flush-Leaves f rows h = elim (Option-cases (find_key f.dedupe_key rows)) [
  | inl missing ↦ rw missing (unfold as_row in find_existing-as_row f rows h)
  | inr (row, found) ↦ rw found (find_existing-key f rows (rw found refl))
]

store_finding-Leaves :
    (f : Finding) (rivals rows : List Finding)
    → is_repeatable f ≡ true
    → Leaves
        (λ after. is_some (find_existing f after) ≡ true)
        (store_finding f rivals (find_existing f rows) rows)
unfolding store_finding Leaves
store_finding-Leaves f rivals rows h = elim (Option-cases (find_existing f rows)) [
  | inl missing ↦ rw missing (unfold Leaves in flush-Leaves f (rows ++ rivals) h)
  | inr (row, found) ↦ rw found (rw found refl)
]

refuse_on-Leaves :
    (P : List Finding → Type 0) (o : Option InsightError) (result : InsightResult)
    (after : List Finding) (row : Finding)
    → Leaves P result
    → refuse_on o result ≡ recorded after row
    → (o ≡ none) × P after
unfolding refuse_on Leaves
refuse_on-Leaves P none (refused e) after row l h = absurd (ground (arith, h))
refuse_on-Leaves P none (recorded rows r) after row l h =
    let same : rows ≡ after = ground (arith, h) in (refl, rw (← same) l)
refuse_on-Leaves P (some e) result after row l h = absurd (ground (arith, h))

-- When a finding has been recorded that has a key or is no trend, recording it again stores nothing and
-- returns a stored row, whatever other writers inserted during the first recording.
pub record_insight-record_insight :
    (f : Finding) (rivals rows after : List Finding) (row : Finding)
    → is_repeatable f ≡ true
    → record_insight f rivals rows ≡ recorded after row
    → (again : Finding) × (find_existing f after ≡ some again)
      × (record_insight f [] after ≡ recorded after again)
unfolding record_insight
record_insight-record_insight f rivals rows after row h e =
    let (fine, present) =
      refuse_on-Leaves (λ rs. is_some (find_existing f rs) ≡ true) (finding_error f)
        (store_finding f rivals (find_existing f rows) rows) after row
        (store_finding-Leaves f rivals rows h) e in
    elim (Option-cases (find_existing f after)) [
      | inl missing ↦ absurd (ground (arith, (rw missing at present)))
      | inr (again, found) ↦ (again, found, rw (fine, found) refl)
    ]
