-- ===== src/Search.antt =====
-- backend/app/services/events.py: `tokenize_search_expression`, `validate_search_expression` and
-- `build_search_expression`, the search language of the event list.
--
-- What is left of a text stands for an index into it. The condition on one term is a leaf.
pub mod Digits
pub mod Tokens
pub mod Grammar
pub mod Parsing
pub mod Errors
pub mod Validation
use open_sec_dash.Prelude.{
  ℕ, zero, suc, ◌+◌, ◌-◌, ◌*◌, ◌≡◌, refl, Bool, true, false, not, ◌&&◌, ◌||◌, Option, none, some,
  List, [], ◌∷◌, ◌++◌, ◌==◌, nat_eq, contains, any, select, length, is_empty, ltb, if◌then◌else◌,
}
use open_sec_dash.Search.Digits.{all_digits, int_fails}
use open_sec_dash.Prelude.Text.{Text, text_eq, codes, strip, is_space, starts_with}

abbrev pub max_search_length : ℕ
max_search_length = 256

abbrev pub max_search_tokens : ℕ
max_search_tokens = 32

abbrev pub max_search_depth : ℕ
max_search_depth = 4

-- The texts of the ValueErrors; `not_an_int` is raised by
-- `int`; `exhausted` is a loop of the model without fuel.
pub data SearchError : Type 0 where
  too_long unterminated_quote empty_term too_many_tokens too_deep invalid not_an_int exhausted :
      SearchError

pub data Result {ℓ} (A : Type ℓ) : Type ℓ where
  ok : A → Result A
  err : SearchError → Result A

infixl 5 ◌>>=◌
abbrev pub ◌>>=◌ {ℓ κ} : {A : Type ℓ} {B : Type κ} → Result A → (A → Result B) → Result B
ok a >>= f = f a
err e >>= f = err e

-- text.startswith("&&", i) or text.startswith("||", i)
abbrev pub is_at_operator : Text → Bool
is_at_operator s = starts_with (codes "&&") s || starts_with (codes "||") s

abbrev pub is_parenthesis : ℕ → Bool
is_parenthesis c = c == b'(' || c == b')'

abbrev pub is_quote : ℕ → Bool
is_quote c = c == 34 || c == 39

-- The text up to a quote, and the rest after it
pub read_quoted : ℕ → Text → Option (Text × Text)
read_quoted quote [] = none
read_quoted quote (c ∷ s) =
    if c == quote
    then some ([], s)
    else elim (read_quoted quote s) [ none ↦ none | some (term, rest) ↦ some (c ∷ term, rest) ]

-- The text up to a space, a parenthesis or an operator, and the rest from there
pub read_word : Text → Text × Text
read_word [] = ([], [])
read_word (c ∷ s) =
    let (word, rest) = read_word s in
    if is_space c || is_parenthesis c || is_at_operator (c ∷ s)
    then ([], c ∷ s)
    else (c ∷ word, rest)

abbrev pub after_two : Text → Text
after_two [] = []
after_two (c ∷ []) = []
after_two (c ∷ d ∷ s) = s

abbrev pub first_two : Text → Text
first_two [] = []
first_two (c ∷ []) = c ∷ []
first_two (c ∷ d ∷ s) = c ∷ d ∷ []

-- One round of the loop: the token that is read, if one is, and the rest
pub next_token : ℕ → Text → Result (Option Text × Text)
unfolding read_quoted read_word is_space
next_token c s =
    if is_space c
    then ok (none, s)
    else if is_at_operator (c ∷ s)
    then ok (some (first_two (c ∷ s)), after_two (c ∷ s))
    else if is_parenthesis c
    then ok (some (c ∷ []), s)
    else if is_quote c
    then (elim (read_quoted c s) [
      | none ↦ err unterminated_quote
      | some (term, rest) ↦ if is_empty term then err empty_term else ok (some term, rest)
    ])
    else ok (some (read_word (c ∷ s)).0, (read_word (c ∷ s)).1)

abbrev pub with_token : Option Text → List Text → List Text
with_token none tokens = tokens
with_token (some token) tokens = token ∷ tokens

unfoldable pub read_tokens : ℕ → Text → Result (List Text)
unfolding next_token
read_tokens fuel [] = ok []
read_tokens zero (c ∷ s) = err exhausted
read_tokens (suc fuel) (c ∷ s) = next_token c s >>= λ (token, rest).
    read_tokens fuel rest >>= λ tokens. ok (with_token token tokens)

unfoldable pub tokenize_search_expression : Text → Result (List Text)
tokenize_search_expression text =
    if ltb max_search_length (length text)
    then err too_long
    else (read_tokens (length text) text >>= λ tokens.
        let kept = select (λ token. not (is_empty token)) tokens in
        if ltb max_search_tokens (length kept) then err too_many_tokens else ok kept)

abbrev pub is_operator : Text → Bool
is_operator token = token == codes "&&" || token == codes "||"

-- token in {"&&", "||", "(", ")"}
abbrev pub is_syntax : Text → Bool
is_syntax token = is_operator token || token == codes "(" || token == codes ")"

-- The loop over the tokens: what it raises, if it raises
unfoldable pub check_tokens : ℕ → Bool → List Text → Option SearchError
check_tokens depth expects_term [] = if expects_term || not (depth == 0) then some invalid else none
check_tokens depth expects_term (token ∷ tokens) =
    let opened = check_tokens (suc depth) true tokens in
    let closed = check_tokens (depth - 1) false tokens in
    let operator = check_tokens depth true tokens in
    let term = check_tokens depth false tokens in
    if token == codes "("
    then (if not expects_term
        then some invalid
        else if ltb max_search_depth (suc depth)
        then some too_deep
        else opened)
    else if token == codes ")"
    then (if expects_term || depth == 0 then some invalid else closed)
    else if is_operator token
    then (if expects_term then some invalid else operator)
    else if not expects_term
    then some invalid
    else term

abbrev pub unless : Option SearchError → List Text → Result (List Text)
unless none tokens = ok tokens
unless (some e) tokens = err e

unfoldable pub validate_tokens : List Text → Result (List Text)
validate_tokens tokens =
    if is_empty tokens
    then err empty_term
    else if not (any is_syntax tokens)
    then ok tokens
    else unless (check_tokens 0 true tokens) tokens

unfoldable pub validate_search_expression : Text → Result (List Text)
validate_search_expression text =
    let stripped = strip text in
    if is_empty stripped then ok [] else tokenize_search_expression stripped >>= validate_tokens

pub data Condition : Type 0 where
  term : Text → Condition
  both : Condition → Condition → Condition
  either : Condition → Condition → Condition

-- A part of the tokens as a condition, and the tokens from the new position on
abbrev pub Parse : Type 0
Parse = Result (Condition × List Text)

-- The closing parenthesis is passed where it stands there.
abbrev pub pass_closing : List Text → List Text
pass_closing [] = []
pass_closing (token ∷ tokens) = if token == codes ")" then tokens else token ∷ tokens

-- `term.isdigit() and 100 <= int(term)` raises ValueError where `int` does not read all digits. A text
-- of digits is no IP address, so the test before this one does not return.
unfoldable pub is_unreadable : Text → Bool
is_unreadable token = all_digits token && int_fails token

abbrev pub search_term_condition : Text → Result Condition
search_term_condition token =
    if is_empty token
    then err empty_term
    else if is_unreadable token
    then err not_an_int
    else ok (term token)

mutual
  pub parse_or : ℕ → List Text → Parse
  parse_or zero tokens = err exhausted
  parse_or (suc fuel) tokens = parse_and fuel tokens >>= λ (left, rest). or_loop fuel left rest

  pub or_loop : ℕ → Condition → List Text → Parse
  or_loop zero left tokens = err exhausted
  or_loop (suc fuel) left [] = ok (left, [])
  or_loop (suc fuel) left (token ∷ tokens) = elim (token == codes "||") [
    | true ↦ parse_and fuel tokens >>= λ (right, rest). or_loop fuel (either left right) rest
    | false ↦ ok (left, token ∷ tokens)
  ]

  pub parse_and : ℕ → List Text → Parse
  parse_and zero tokens = err exhausted
  parse_and (suc fuel) tokens = parse_factor fuel tokens >>= λ (left, rest). and_loop fuel left rest

  pub and_loop : ℕ → Condition → List Text → Parse
  and_loop zero left tokens = err exhausted
  and_loop (suc fuel) left [] = ok (left, [])
  and_loop (suc fuel) left (token ∷ tokens) = elim (token == codes "&&") [
    | true ↦ parse_factor fuel tokens >>= λ (right, rest). and_loop fuel (both left right) rest
    | false ↦ ok (left, token ∷ tokens)
  ]

  pub parse_factor : ℕ → List Text → Parse
  parse_factor zero tokens = err exhausted
  parse_factor (suc fuel) [] = err invalid
  parse_factor (suc fuel) (token ∷ tokens) = elim (token == codes "(") [
    | true ↦ parse_or fuel tokens >>= λ (inner, rest). ok (inner, pass_closing rest)
    | false ↦
        if token == codes ")"
        then err invalid
        else (search_term_condition token >>= λ leaf. ok (leaf, tokens))
  ]

-- Three calls for each token are enough.
abbrev pub enough_fuel : List Text → ℕ
enough_fuel tokens = 3 * length tokens + 3

pub build_search_expression : List Text → Parse
build_search_expression tokens = parse_or (enough_fuel tokens) tokens

two_words :
    validate_search_expression (codes " ssh && (\"a b\"||x)")
    ≡ ok (
        codes "ssh"
        ∷ codes "&&"
        ∷ codes "("
        ∷ codes "a b"
        ∷ codes "||"
        ∷ codes "x"
        ∷ codes ")"
        ∷ [])
unfolding validate_search_expression tokenize_search_expression read_tokens validate_tokens
    check_tokens strip starts_with
two_words = refl

built :
    build_search_expression (codes "a" ∷ codes "||" ∷ codes "b" ∷ codes "&&" ∷ codes "c" ∷ [])
    ≡ ok (either (term (codes "a")) (both (term (codes "b")) (term (codes "c"))), [])
unfolding build_search_expression parse_or is_unreadable all_digits int_fails
built = refl

-- The check accepts a superscript two, and building it raises.
superscript : Text
superscript = codes "² && a"

superscript_raises :
    (validate_search_expression superscript >>= build_search_expression) ≡ err not_an_int
unfolding superscript validate_search_expression tokenize_search_expression read_tokens
    validate_tokens check_tokens strip starts_with build_search_expression parse_or is_unreadable
    all_digits int_fails
superscript_raises = refl
