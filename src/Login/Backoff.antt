-- ===== src/Login/Backoff.antt =====
-- The ordered dictionary of backoff entries: what a key maps to after each operation.
use open_sec_dash.Prelude.{
  ℕ, ◌+◌, ◌≤◌, ◌<◌, ◌≡◌, refl, String, false, none, some, [], ◌∷◌, ◌++◌, ◌==◌, string_eq, length,
  if◌then◌else◌, arith, inl, inr, beq_refl, Option-cases, length-append,
}
use text.Mathlib.TextEquality.{eq_iff}
use open_sec_dash.Login.{
  Attempt, Backoff, get_attempt, pop_attempt, put_last, drop_expired, drop_excess,
  login_backoff_ttl, max_login_backoff_entries,
}

get-append :
    (key k : String) (attempt : Attempt) (entries : Backoff)
    → get_attempt k entries ≡ none
    → get_attempt k (entries ++ (key, attempt) ∷ []) ≡ (if key == k then some attempt else none)
unfolding get_attempt
get-append key k attempt [] h = refl
get-append key k attempt ((j, a) ∷ entries) h = ground (arith, get-append key k attempt entries)

get-append_some :
    (k : String) (last : Backoff) (attempt : Attempt) (entries : Backoff)
    → get_attempt k entries ≡ some attempt
    → get_attempt k (entries ++ last) ≡ some attempt
unfolding get_attempt
get-append_some k last attempt [] h = absurd (ground arith)
get-append_some k last attempt ((j, a) ∷ entries) h =
    ground (arith, get-append_some k last attempt entries)

get-pop :
    (key k : String) (entries : Backoff)
    → get_attempt k (pop_attempt key entries) ≡ (if key == k then none else get_attempt k entries)
unfolding get_attempt pop_attempt
get-pop key k [] = ground arith
get-pop key k ((j, a) ∷ entries) =
    ground (arith, eq_iff key k, eq_iff j k, eq_iff j key, get-pop key k entries)

-- A dictionary with a new last entry, in `if` form.
pub get-put_last :
    (key k : String) (attempt : Attempt) (entries : Backoff)
    → get_attempt k (put_last key attempt entries)
      ≡ (if key == k then some attempt else get_attempt k entries)
unfolding put_last
get-put_last key k attempt entries = elim (Option-cases (get_attempt k (pop_attempt key entries))) [
  | inl missing ↦
      ground (arith, get-append key k attempt (pop_attempt key entries), get-pop key k entries)
  | inr (a, e) ↦ ground (
    arith,
    get-append_some k ((key, attempt) ∷ []) a (pop_attempt key entries),
    get-pop key k entries,
  )
]

-- An entry that is not out of date is not dropped.
pub get-drop_expired :
    (now : ℕ) (key : String) (attempt : Attempt) (entries : Backoff)
    → get_attempt key entries ≡ some attempt
    → now < attempt.last_seen + login_backoff_ttl
    → get_attempt key (drop_expired now entries) ≡ some attempt
unfolding get_attempt drop_expired
get-drop_expired now key attempt [] h fresh = absurd (ground arith)
get-drop_expired now key attempt ((k, a) ∷ entries) h fresh =
    ground (arith, get-drop_expired now key attempt entries)

-- How many entries there are from the key's own to the end.
unfoldable pub tail_length : String → Backoff → ℕ
tail_length key [] = 0
tail_length key ((k, a) ∷ entries) =
    if k == key then length ((k, a) ∷ entries) else tail_length key entries

-- An entry that is recent enough is not dropped for its age.
pub get-drop_excess :
    (key : String) (entries : Backoff)
    → tail_length key entries ≤ max_login_backoff_entries
    → get_attempt key (drop_excess entries) ≡ get_attempt key entries
unfolding get_attempt drop_excess tail_length
get-drop_excess key [] h = refl
get-drop_excess key ((k, a) ∷ entries) h = ground (arith, get-drop_excess key entries)

pub length-drop_excess :
    (entries : Backoff) → length (drop_excess entries) ≤ max_login_backoff_entries
unfolding drop_excess
length-drop_excess [] = omega arith
length-drop_excess (entry ∷ entries) = ground (arith, length-drop_excess entries)

length-pop : (key : String) (entries : Backoff) → length (pop_attempt key entries) ≤ length entries
unfolding pop_attempt
length-pop key [] = omega arith
length-pop key ((k, a) ∷ entries) = ground (arith, length-pop key entries)

tail_length-pop :
    (key k : String) (entries : Backoff)
    → (key == k) ≡ false
    → tail_length k (pop_attempt key entries) ≤ tail_length k entries
unfolding tail_length pop_attempt
tail_length-pop key k [] h = omega arith
tail_length-pop key k ((j, a) ∷ entries) h = ground (
  arith,
  eq_iff key k,
  eq_iff j k,
  eq_iff j key,
  tail_length-pop key k entries,
  length-pop key entries,
)

tail_length-append :
    (k key : String) (attempt : Attempt) (entries : Backoff)
    → tail_length k (entries ++ (key, attempt) ∷ []) ≤ tail_length k entries + 1
unfolding tail_length
tail_length-append k key attempt [] = ground arith
tail_length-append k key attempt ((j, a) ∷ entries) =
    ground
      (arith, tail_length-append k key attempt entries, length-append entries ((key, attempt) ∷ []))

-- Another key's entry moves an entry back by one place at most.
pub tail_length-put_last :
    (key k : String) (attempt : Attempt) (entries : Backoff)
    → (key == k) ≡ false
    → tail_length k (put_last key attempt entries) ≤ tail_length k entries + 1
unfolding put_last
tail_length-put_last key k attempt entries h = omega (
  arith,
  tail_length-append k key attempt (pop_attempt key entries),
  tail_length-pop key k entries h,
)

tail_length_missing :
    (key : String) (entries : Backoff)
    → get_attempt key entries ≡ none
    → tail_length key entries ≡ 0
unfolding tail_length get_attempt
tail_length_missing key [] h = refl
tail_length_missing key ((k, a) ∷ entries) h = ground (arith, tail_length_missing key entries)

pub tail_length-put_last_self :
    (key : String) (attempt : Attempt) (entries : Backoff)
    → tail_length key (put_last key attempt entries) ≤ 1
unfolding put_last
tail_length-put_last_self key attempt entries = omega (
  arith,
  tail_length-append key key attempt (pop_attempt key entries),
  tail_length_missing key (pop_attempt key entries)
      (rw (get-pop key key entries, beq_refl key) refl),
)
