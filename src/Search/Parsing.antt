-- ===== src/Search/Parsing.antt =====
-- The three loops read what the check accepts to its end, as the grammar says.
use open_sec_dash.Prelude.{
  ℕ, zero, suc, ◌+◌, ◌*◌, ◌≤◌, ◌≡◌, refl, sym, ap, ◌∙◌, Bool, true, false, List, [], ◌∷◌, ◌++◌,
  ◌==◌, if◌then◌else◌, Bool-cases, inl, inr, any, is_empty, length, length-append, arith, none,
}
use mathlib.Core.List.{append_assoc, append-nil}
use open_sec_dash.Prelude.Text.{Text, text_eq, codes}
use open_sec_dash.Search.{
  is_unreadable, not_an_int, err, Condition, term, both, either, ok, ◌>>=◌, Parse, is_syntax,
  parse_or, or_loop, parse_and, and_loop, parse_factor, enough_fuel, build_search_expression,
  check_tokens,
}
use open_sec_dash.Search.Grammar.{
  Factor, word, group, Conjunction, one_factor, joined, Disjunction, one_conjunction, one_of,
  IsAccepted, finished, closing, conjunction, disjunction, opening, leaf, IsAccepted-Following,
  IsAccepted-Starting,
}

-- Whether the first token is this one
abbrev starts_as : Text → List Text → Bool
starts_as t [] = false
starts_as t (u ∷ us) = u == t

abbrev Grammar : Type 1
Grammar = Condition → List Text → Type 0

abbrev Stop : Type 1
Stop = List Text → Type 0

abbrev anywhere : Stop
anywhere rest = Unit {0}

abbrev not_at_and : Stop
not_at_and rest = starts_as (codes "&&") rest ≡ false

abbrev not_at_operator : Stop
not_at_operator rest = not_at_and rest × (starts_as (codes "||") rest ≡ false)

-- A part that was read after the tokens `prior` of the same phrase: it returns with at least `k` tokens
-- used, the phrase is one of the grammar, and the rest is accepted.
record Parsed (P : Grammar) (Q : Stop) (d k : ℕ) (result : Parse) (prior tokens : List Text)
    : Type 0 where
  condition : Condition
  used : List Text
  rest : List Text
  returns : result ≡ ok (condition, rest)
  split : tokens ≡ used ++ rest
  derived : P condition (prior ++ used)
  accepted : IsAccepted d false rest
  shorter : length rest + k ≤ length tokens
  stopped : Q rest

-- A part and what follows it, after the tokens `prefix` that are passed
sequence :
    {P R : Grammar} {Q S : Stop} {d : ℕ} {first : Parse} (next : Condition → List Text → Parse)
    (prior prefix tokens : List Text) (p : Parsed P Q d 1 first [] tokens)
    → Parsed R S d 0 (next p.condition p.rest) (prior ++ (prefix ++ p.used)) p.rest
    → Parsed R S d 1 (first >>= λ (e, rest). next e rest) prior (prefix ++ tokens)
sequence {R} next prior prefix tokens p q = record {
  condition = q.condition;
  used = (prefix ++ p.used) ++ q.used;
  rest = q.rest;
  returns = rw p.returns q.returns;
  split = ap (λ t. prefix ++ t) (p.split ∙ ap (λ t. p.used ++ t) q.split) ∙ simp append_assoc;
  derived = rw (← append_assoc prior (prefix ++ p.used) q.used) q.derived;
  accepted = q.accepted;
  shorter = omega (arith, q.shorter, p.shorter, length-append prefix tokens);
  stopped = q.stopped;
}

weaken :
    {P : Grammar} {Q : Stop} {d : ℕ} {result : Parse} {prior tokens : List Text}
    → Parsed P Q d 1 result prior tokens
    → Parsed P Q d 0 result prior tokens
weaken p = record {
  condition = p.condition;
  used = p.used;
  rest = p.rest;
  returns = p.returns;
  split = p.split;
  derived = p.derived;
  accepted = p.accepted;
  shorter = omega (arith, p.shorter);
  stopped = p.stopped;
}

-- A loop that reads nothing more
stay :
    {P : Grammar} {Q : Stop} {d : ℕ} {result : Parse} (e : Condition) (prior tokens : List Text)
    → result ≡ ok (e, tokens)
    → P e prior
    → IsAccepted d false tokens
    → Q tokens
    → Parsed P Q d 0 result prior tokens
stay {P} e prior tokens returns derived accepted stopped = record {
  condition = e;
  used = [];
  rest = tokens;
  returns = returns;
  split = refl;
  derived = rw (append-nil prior) derived;
  accepted = accepted;
  shorter = omega arith;
  stopped = stopped;
}

parse_factor-group :
    (f d : ℕ) (rest : List Text)
    (p : Parsed Disjunction not_at_operator (suc d) 1 (parse_or f rest) [] rest)
    → Parsed Factor anywhere d 1 (parse_factor (suc f) (codes "(" ∷ rest)) [] (codes "(" ∷ rest)
unfolding parse_or
parse_factor-group f d rest p = elim (IsAccepted-Following (suc d) p.rest p.accepted) [
  | finished e _ ↦ absurd (ground arith)
  | closing k after e at_close accepted ↦
      let same : d ≡ k = ground arith in
      record {
        condition = p.condition;
        used = codes "(" ∷ (p.used ++ codes ")" ∷ []);
        rest = after;
        returns = rw (p.returns, at_close) refl;
        split =
            ap (λ t. codes "(" ∷ t)
              (p.split ∙ rw at_close (sym (append_assoc p.used (codes ")" ∷ []) after)));
        derived = group p.derived;
        accepted = rw same accepted;
        shorter = omega (arith, p.shorter, ap length at_close);
        stopped = tt;
      }
  | conjunction after e _ ↦ absurd (ground (arith, p.stopped))
  | disjunction after e _ ↦ absurd (ground (arith, p.stopped))
]

parse_factor-word :
    (f d : ℕ) (t : Text) (rest : List Text)
    → is_syntax t ≡ false
    → is_empty t ≡ false
    → is_unreadable t ≡ false
    → IsAccepted d false rest
    → Parsed Factor anywhere d 1 (parse_factor (suc f) (t ∷ rest)) [] (t ∷ rest)
unfolding parse_or
parse_factor-word f d t rest plain filled readable accepted = record {
  condition = term t;
  used = t ∷ [];
  rest = rest;
  returns = ground arith;
  split = refl;
  derived = word t plain;
  accepted = accepted;
  shorter = omega arith;
  stopped = tt;
}

and_loop_stops :
    (f : ℕ) (e : Condition) (tokens : List Text)
    → not_at_and tokens
    → and_loop (suc f) e tokens ≡ ok (e, tokens)
unfolding parse_or
and_loop_stops f e [] h = refl
and_loop_stops f e (t ∷ ts) h = rw (h, and_loop) refl

or_loop_stops :
    (f : ℕ) (e : Condition) (tokens : List Text)
    → starts_as (codes "||") tokens ≡ false
    → or_loop (suc f) e tokens ≡ ok (e, tokens)
unfolding parse_or
or_loop_stops f e [] h = refl
or_loop_stops f e (t ∷ ts) h = rw (h, or_loop) refl

-- A word that no operator follows ends the expression.
pub parse_or-plain :
    (f : ℕ) (t : Text) (tokens : List Text)
    → is_syntax t ≡ false
    → is_empty t ≡ false
    → starts_as (codes "&&") tokens ≡ false
    → starts_as (codes "||") tokens ≡ false
    → parse_or (suc (suc (suc f))) (t ∷ tokens)
      ≡ (if is_unreadable t then err not_an_int else ok (term t, tokens))
unfolding parse_or
parse_or-plain f t tokens plain filled a b = elim (Bool-cases (is_unreadable t)) [
  | inl bad ↦
      let one : parse_factor (suc f) (t ∷ tokens) ≡ err not_an_int = ground arith in rw (one, bad)
  | inr fine ↦
      let one : parse_factor (suc f) (t ∷ tokens) ≡ ok (term t, tokens) = ground arith in
      rw (one, fine, and_loop_stops f (term t) tokens a, or_loop_stops (suc f) (term t) tokens b)
]

mutual
  unfolding parse_or

  parse_factor-Parsed :
      (f d : ℕ) (tokens : List Text)
      → 3 * length tokens + 1 ≤ f
      → IsAccepted d true tokens
      → Parsed Factor anywhere d 1 (parse_factor f tokens) [] tokens
  parse_factor-Parsed zero d tokens h a = absurd (omega arith)
  parse_factor-Parsed (suc f) d tokens h a = elim (IsAccepted-Starting d tokens a) [
    | opening rest e inner ↦ rw e (
        parse_factor-group f d rest
          (parse_or-Parsed f (suc d) rest (omega (arith, ap length e)) inner))
    | leaf t rest e plain filled readable accepted ↦
        rw e (parse_factor-word f d t rest plain filled readable accepted)
  ]

  parse_and-Parsed :
      (f d : ℕ) (tokens : List Text)
      → 3 * length tokens + 2 ≤ f
      → IsAccepted d true tokens
      → Parsed Conjunction not_at_and d 1 (parse_and f tokens) [] tokens
  parse_and-Parsed zero d tokens h a = absurd (omega arith)
  parse_and-Parsed (suc f) d tokens h a =
      let p : Parsed Factor anywhere d 1 (parse_factor f tokens) [] tokens =
        parse_factor-Parsed f d tokens (omega arith) a in
      sequence (and_loop f) [] [] tokens p (
        and_loop-Parsed f d p.condition p.used p.rest (omega (arith, p.shorter))
          (one_factor p.derived) p.accepted)

  and_loop-Parsed :
      (f d : ℕ) (e : Condition) (before tokens : List Text)
      → 3 * length tokens + 1 ≤ f
      → Conjunction e before
      → IsAccepted d false tokens
      → Parsed Conjunction not_at_and d 0 (and_loop f e tokens) before tokens
  and_loop-Parsed zero d e before tokens h c a = absurd (omega arith)
  and_loop-Parsed (suc f) d e before tokens h c a = elim (IsAccepted-Following d tokens a) [
    | finished _ at ↦
        let stop : not_at_and tokens = rw at refl in
        stay e before tokens (and_loop_stops f e tokens stop) c a stop
    | closing k rest _ at _ ↦
        let stop : not_at_and tokens = rw at refl in
        stay e before tokens (and_loop_stops f e tokens stop) c a stop
    | disjunction rest at _ ↦
        let stop : not_at_and tokens = rw at refl in
        stay e before tokens (and_loop_stops f e tokens stop) c a stop
    | conjunction rest at more ↦
        let p : Parsed Factor anywhere d 1 (parse_factor f rest) [] rest =
          parse_factor-Parsed f d rest (omega (arith, ap length at)) more in
        rw at (
          weaken (
            sequence (λ b. and_loop f (both e b)) before (codes "&&" ∷ []) rest p
              (and_loop-Parsed f d (both e p.condition) (before ++ (codes "&&" ∷ p.used)) p.rest
                (omega (arith, p.shorter, ap length at)) (joined c p.derived) p.accepted)))
  ]

  parse_or-Parsed :
      (f d : ℕ) (tokens : List Text)
      → 3 * length tokens + 3 ≤ f
      → IsAccepted d true tokens
      → Parsed Disjunction not_at_operator d 1 (parse_or f tokens) [] tokens
  parse_or-Parsed zero d tokens h a = absurd (omega arith)
  parse_or-Parsed (suc f) d tokens h a =
      let p : Parsed Conjunction not_at_and d 1 (parse_and f tokens) [] tokens =
        parse_and-Parsed f d tokens (omega arith) a in
      sequence (or_loop f) [] [] tokens p (
        or_loop-Parsed f d p.condition p.used p.rest (omega (arith, p.shorter))
          (one_conjunction p.derived) p.accepted p.stopped)

  or_loop-Parsed :
      (f d : ℕ) (e : Condition) (before tokens : List Text)
      → 3 * length tokens + 1 ≤ f
      → Disjunction e before
      → IsAccepted d false tokens
      → not_at_and tokens
      → Parsed Disjunction not_at_operator d 0 (or_loop f e tokens) before tokens
  or_loop-Parsed zero d e before tokens h c a stop = absurd (omega arith)
  or_loop-Parsed (suc f) d e before tokens h c a stop = elim (IsAccepted-Following d tokens a) [
    | finished _ at ↦
        let end : starts_as (codes "||") tokens ≡ false = rw at refl in
        stay e before tokens (or_loop_stops f e tokens end) c a (stop, end)
    | closing k rest _ at _ ↦
        let end : starts_as (codes "||") tokens ≡ false = rw at refl in
        stay e before tokens (or_loop_stops f e tokens end) c a (stop, end)
    | conjunction rest at _ ↦ absurd (ground (arith, at, stop))
    | disjunction rest at more ↦
        let p : Parsed Conjunction not_at_and d 1 (parse_and f rest) [] rest =
          parse_and-Parsed f d rest (omega (arith, ap length at)) more in
        rw at (
          weaken (
            sequence (λ b. or_loop f (either e b)) before (codes "||" ∷ []) rest p
              (or_loop-Parsed f d (either e p.condition) (before ++ (codes "||" ∷ p.used)) p.rest
                (omega (arith, p.shorter, ap length at)) (one_of c p.derived) p.accepted
                p.stopped)))
  ]

-- Tokens that the check accepts, none of them empty or unreadable, are built into a condition with no token left over,
-- and the condition is that of the grammar, in which "&&" binds tighter than "||".
pub build_search_expression-Disjunction :
    (tokens : List Text)
    → check_tokens 0 true tokens ≡ none
    → any is_empty tokens ≡ false
    → any is_unreadable tokens ≡ false
    → (e : Condition) × (build_search_expression tokens ≡ ok (e, [])) × Disjunction e tokens
unfolding build_search_expression
build_search_expression-Disjunction tokens checked filled readable =
    let p : Parsed Disjunction not_at_operator 0 1 (parse_or (enough_fuel tokens) tokens) []
        tokens =
      parse_or-Parsed (enough_fuel tokens) 0 tokens (omega arith)
        (record { checked = checked; filled = filled; readable = readable }) in
    elim (IsAccepted-Following 0 p.rest p.accepted) [
      | finished _ at ↦
          let all : tokens ≡ p.used = p.split ∙ rw at (append-nil p.used) in
          (p.condition, p.returns ∙ rw at refl, rw all p.derived)
      | closing k rest e _ _ ↦ absurd (ground arith)
      | conjunction rest at _ ↦ absurd (ground (arith, p.stopped))
      | disjunction rest at _ ↦ absurd (ground (arith, p.stopped))
    ]
