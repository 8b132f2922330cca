-- ===== src/Search/Validation.antt =====
-- A search text from its check to its condition.
use open_sec_dash.Prelude.{
  suc, ◌+◌, ◌*◌, ◌≤◌, ◌≡◌, ◌≢◌, refl, ap, true, false, Option, none, some, List, [], ◌∷◌, any,
  is_empty, length, if◌then◌else◌, Bool-cases, Option-cases, inl, inr, arith,
}
use open_sec_dash.Prelude.Text.{Text, text_eq, strip}
use open_sec_dash.Search.{
  is_unreadable, not_an_int, Condition, term, SearchError, Result, ok, err, exhausted, ◌>>=◌,
  is_syntax, check_tokens, unless, max_search_tokens, tokenize_search_expression, validate_tokens,
  validate_search_expression, build_search_expression,
}
use open_sec_dash.Search.Grammar.{Disjunction}
use open_sec_dash.Search.Parsing.{parse_or-plain, build_search_expression-Disjunction}
use open_sec_dash.Search.Errors.{build-unread}
use open_sec_dash.Search.Tokens.{IsBounded, tokenize-IsBounded, check_tokens-ne-exhausted}

validate_tokens-IsBounded :
    (tokens : List Text)
    → length tokens ≤ max_search_tokens
    → any is_empty tokens ≡ false
    → IsBounded (validate_tokens tokens)
unfolding validate_tokens IsBounded
validate_tokens-IsBounded [] few filled = cc
validate_tokens-IsBounded (t ∷ ts) few filled = elim (Bool-cases (any is_syntax (t ∷ ts))) [
  | inl syntax ↦
      rw syntax (checked (check_tokens 0 true (t ∷ ts)) (check_tokens-ne-exhausted 0 true (t ∷ ts)))
  | inr plain ↦ rw plain (few, filled)
]
  where
    checked : (o : Option SearchError) → o ≢ some exhausted → IsBounded (unless o (t ∷ ts))
    checked none h = (few, filled)
    checked (some e) h = λ same. h (ap some same)

-- The check of a search text ends, whatever the text. Where it accepts, it returns at most 32
-- tokens, none of them empty.
pub validate_search_expression-IsBounded :
    (text : Text) → IsBounded (validate_search_expression text)
unfolding validate_search_expression
validate_search_expression-IsBounded text = elim (Bool-cases (is_empty (strip text))) [
  | inl blank ↦ rw blank (unfold IsBounded in (omega arith, refl))
  | inr some_text ↦
      rw some_text
        (then_checked (tokenize_search_expression (strip text)) (tokenize-IsBounded (strip text)))
]
  where
    then_checked : (r : Result (List Text)) → IsBounded r → IsBounded (r >>= validate_tokens)
    then_checked (ok tokens) h =
        let (few, filled) : (length tokens ≤ max_search_tokens) × (any is_empty tokens ≡ false) =
          unfold IsBounded in h in
        validate_tokens-IsBounded tokens few filled
    then_checked (err e) h = h

validate_tokens-eq-ok :
    (kept tokens : List Text)
    → validate_tokens kept ≡ ok tokens
    → any is_syntax tokens ≡ true
    → check_tokens 0 true tokens ≡ none
unfolding validate_tokens
validate_tokens-eq-ok [] tokens h syntax = absurd (ground (arith, h))
validate_tokens-eq-ok (t ∷ ts) tokens h syntax = elim (Bool-cases (any is_syntax (t ∷ ts))) [
  | inl y ↦ elim (Option-cases (check_tokens 0 true (t ∷ ts))) [
    | inl fine ↦ let e : t ∷ ts ≡ tokens = ground (arith, h, y, fine) in rw (← e) fine
    | inr (x, bad) ↦ absurd (ground (arith, h, y, bad))
  ]
  | inr n ↦ absurd (ground (arith, h, n, syntax))
]

validate-eq-ok :
    (text : Text) (tokens : List Text)
    → validate_search_expression text ≡ ok tokens
    → any is_syntax tokens ≡ true
    → check_tokens 0 true tokens ≡ none
unfolding validate_search_expression
validate-eq-ok text tokens h syntax = elim (Bool-cases (is_empty (strip text))) [
  | inl blank ↦ absurd (ground (arith, h, blank, syntax))
  | inr some_text ↦ from_tokens (tokenize_search_expression (strip text)) (rw some_text at h)
]
  where
    from_tokens :
        (r : Result (List Text))
        → (r >>= validate_tokens) ≡ ok tokens
        → check_tokens 0 true tokens ≡ none
    from_tokens (ok kept) e = validate_tokens-eq-ok kept tokens e syntax
    from_tokens (err x) e = cc

-- What becomes of tokens that the check accepts
pub data IsBuilt (tokens : List Text) : Type 0 where
  built :
      (e : Condition)
      → any is_unreadable tokens ≡ false
      → build_search_expression tokens ≡ ok (e, [])
      → Disjunction e tokens
      → IsBuilt tokens
  failed :
      any is_unreadable tokens ≡ true
      → ((e : Condition) → build_search_expression tokens ≢ ok (e, []))
      → IsBuilt tokens

-- Where the check accepts a search text with operators or parentheses: if no token consists of
-- digits that `int` does not read (as a superscript two), all its tokens are built into one
-- condition, with no error and none left over, and the condition is the reading of the tokens by
-- the grammar, in which "&&" binds tighter than "||"; if some token does, no condition is built
-- from all of them.
pub build-validate_search_expression :
    (text : Text) (tokens : List Text)
    → validate_search_expression text ≡ ok tokens
    → any is_syntax tokens ≡ true
    → IsBuilt tokens
unfolding IsBounded
build-validate_search_expression text tokens h syntax =
    let bounded : IsBounded (ok tokens) = rw h at (validate_search_expression-IsBounded text) in
    elim (Bool-cases (any is_unreadable tokens)) [
      | inl bad ↦ failed bad (λ e returns. ground (arith, bad, build-unread tokens e returns))
      | inr fine ↦
          let (e, returns, derived) =
            build_search_expression-Disjunction tokens (validate-eq-ok text tokens h syntax)
              bounded.1 fine in
          built e fine returns derived
    ]

-- From tokens without operators and parentheses, as quoted terms side by side, the first not being empty,
-- only the first is built into the condition, and the others are left over; where the first consists
-- of digits that `int` does not read, building raises its ValueError.
pub build_search_expression-plain :
    (t : Text) (tokens : List Text)
    → is_empty t ≡ false
    → any is_syntax (t ∷ tokens) ≡ false
    → build_search_expression (t ∷ tokens)
      ≡ (if is_unreadable t then err not_an_int else ok (term t, tokens))
unfolding build_search_expression
build_search_expression-plain t [] filled plain =
    let fuel : 3 * suc 0 + 3 ≡ suc (suc (suc 3)) = omega arith in
    rw fuel (parse_or-plain 3 t [] (ground arith) filled refl refl)
build_search_expression-plain t (u ∷ us) filled plain =
    let n = length us in
    let fuel : 3 * suc (suc n) + 3 ≡ suc (suc (suc (3 * n + 6))) = omega arith in
    rw fuel
      (parse_or-plain (3 * n + 6) t (u ∷ us) (ground arith) filled (ground arith) (ground arith))
