-- ===== src/Search/Tokens.antt =====
-- The tokens of a text: reading them ends, and what the check accepts is built as a whole.
use open_sec_dash.Prelude.{
  ℕ, zero, suc, ◌-◌, ◌≤◌, ◌≡◌, ◌≢◌, refl, ap, Bool, true, false, not, ◌||◌, Option, none, some,
  List, [], ◌∷◌, ◌==◌, any, is_empty, select, length, ltb, Bool-cases, inl, inr, if◌then◌else◌,
  arith, nat_eq,
}
use open_sec_dash.Prelude.Text.{Text, text_eq, is_space}
use open_sec_dash.Search.{
  Result, ok, err, unterminated_quote, empty_term, too_many_tokens, exhausted, ◌>>=◌, read_quoted,
  read_word, next_token, with_token, read_tokens, tokenize_search_expression, check_tokens,
  is_at_operator, is_parenthesis, is_quote, after_two, max_search_length, max_search_tokens,
}

-- What is left is no longer than what was there.
Shortens : ℕ → Option (Text × Text) → Type 0
Shortens n none = Unit
Shortens n (some (word, rest)) = length rest ≤ n

read_quoted-Shortens : (quote : ℕ) (s : Text) → Shortens (length s) (read_quoted quote s)
unfolding read_quoted Shortens
read_quoted-Shortens quote [] = tt
read_quoted-Shortens quote (c ∷ s) = elim (Bool-cases (c == quote)) [
  | inl closed ↦ rw closed (omega arith)
  | inr more ↦ rw more (longer (read_quoted quote s) (read_quoted-Shortens quote s))
]
  where
    longer :
        (o : Option (Text × Text))
        → Shortens (length s) o
        → Shortens
            (suc (length s))
            (elim o [ none ↦ none | some (word, rest) ↦ some (c ∷ word, rest) ])
    longer none h = tt
    longer (some (word, rest)) h = omega (arith, h)

length-read_word : (s : Text) → length (read_word s).1 ≤ length s
unfolding read_word
length-read_word [] = omega arith
length-read_word (c ∷ s) =
    elim (Bool-cases (is_space c || is_parenthesis c || is_at_operator (c ∷ s))) [
      | inl stop ↦ rw stop (omega arith)
      | inr more ↦ rw more (omega (arith, length-read_word s))
    ]

-- One round of the loop ends, and it reads at least one character.
Advances : ℕ → Result (Option Text × Text) → Type 0
Advances n (ok (token, rest)) = length rest ≤ n
Advances n (err e) = e ≢ exhausted

two_shorter : (c : ℕ) (s : Text) → length (after_two (c ∷ s)) ≤ length s
two_shorter c [] = omega arith
two_shorter c (d ∷ s) = omega arith

quoted-Advances :
    (n : ℕ) (o : Option (Text × Text))
    → Shortens n o
    → Advances n (elim o [
      | none ↦ err unterminated_quote
      | some (t, rest) ↦ if is_empty t then err empty_term else ok (some t, rest)
    ])
unfolding Shortens Advances
quoted-Advances n none h = cc
quoted-Advances n (some ([], rest)) h = cc
quoted-Advances n (some (c ∷ t, rest)) h = h

next_token-Advances : (c : ℕ) (s : Text) → Advances (length s) (next_token c s)
unfolding next_token Advances
next_token-Advances c s = elim (Bool-cases (is_space c)) [
  | inl space ↦ rw space (omega arith)
  | inr a ↦ elim (Bool-cases (is_at_operator (c ∷ s))) [
    | inl operator ↦ rw (a, operator) (two_shorter c s)
    | inr b ↦ elim (Bool-cases (is_parenthesis c)) [
      | inl parenthesis ↦ rw (a, b, parenthesis) (omega arith)
      | inr d ↦ elim (Bool-cases (is_quote c)) [
        | inl quote ↦ rw (a, b, d, quote) (quoted-Advances _ _ (read_quoted-Shortens c s))
        | inr e ↦ rw (a, b, d, e) (length-read_word s)
      ]
    ]
  ]
]

with-ne-exhausted :
    (r : Result (List Text)) (token : Option Text)
    → r ≢ err exhausted
    → (r >>= λ tokens. ok (with_token token tokens)) ≢ err exhausted
with-ne-exhausted (ok tokens) token h = cc
with-ne-exhausted (err e) token h = h

round-ne-exhausted :
    (n : ℕ) (next : Text → Result (List Text)) (r : Result (Option Text × Text))
    → Advances n r
    → ((rest : Text) → length rest ≤ n → next rest ≢ err exhausted)
    → (r >>= λ (token, rest). next rest >>= λ tokens. ok (with_token token tokens)) ≢ err exhausted
unfolding Advances
round-ne-exhausted n next (ok (token, rest)) a k = with-ne-exhausted (next rest) token (k rest a)
round-ne-exhausted n next (err e) a k = λ h. a (ground (arith, h))

-- With fuel for each character the loop does not run out.
read_tokens-ne-exhausted :
    (fuel : ℕ) (s : Text) → length s ≤ fuel → read_tokens fuel s ≢ err exhausted
unfolding read_tokens
read_tokens-ne-exhausted fuel [] h = cc
read_tokens-ne-exhausted zero (c ∷ s) h = absurd (omega arith)
read_tokens-ne-exhausted (suc fuel) (c ∷ s) h =
    round-ne-exhausted (length s) (read_tokens fuel) (next_token c s) (next_token-Advances c s)
      (λ rest shorter. read_tokens-ne-exhausted fuel rest (omega arith))

-- The tokens are counted and cleared of empty ones.
unfoldable pub IsBounded : Result (List Text) → Type 0
IsBounded (ok tokens) = (length tokens ≤ max_search_tokens) × (any is_empty tokens ≡ false)
IsBounded (err e) = e ≢ exhausted

none_empty :
    (tokens : List Text) → any is_empty (select (λ token. not (is_empty token)) tokens) ≡ false
none_empty [] = refl
none_empty ([] ∷ tokens) = none_empty tokens
none_empty ((c ∷ t) ∷ tokens) = none_empty tokens

kept-IsBounded :
    (r : Result (List Text))
    → r ≢ err exhausted
    → IsBounded (
        r >>= λ tokens.
        let kept = select (λ token. not (is_empty token)) tokens in
        if ltb max_search_tokens (length kept) then err too_many_tokens else ok kept)
unfolding IsBounded
kept-IsBounded (ok tokens) h =
    let kept = select (λ token. not (is_empty token)) tokens in
    elim (Bool-cases (ltb max_search_tokens (length kept))) [
      | inl more ↦ rw more (cc)
      | inr few ↦ rw few (ground (arith, few), none_empty tokens)
    ]
kept-IsBounded (err e) h = λ same. h (ap err same)

pub tokenize-IsBounded : (text : Text) → IsBounded (tokenize_search_expression text)
unfolding tokenize_search_expression IsBounded
tokenize-IsBounded text = elim (Bool-cases (ltb max_search_length (length text))) [
  | inl long ↦ rw long (cc)
  | inr short ↦ rw short (
      kept-IsBounded (read_tokens (length text) text)
        (read_tokens-ne-exhausted (length text) text (omega arith)))
]

pub check_tokens-ne-exhausted :
    (depth : ℕ) (expects_term : Bool) (tokens : List Text)
    → check_tokens depth expects_term tokens ≢ some exhausted
unfolding check_tokens
check_tokens-ne-exhausted depth expects_term [] = ground arith
check_tokens-ne-exhausted depth expects_term (token ∷ tokens) = ground (
  arith,
  check_tokens-ne-exhausted (suc depth) true tokens,
  check_tokens-ne-exhausted (depth - 1) false tokens,
  check_tokens-ne-exhausted depth true tokens,
  check_tokens-ne-exhausted depth false tokens,
)
