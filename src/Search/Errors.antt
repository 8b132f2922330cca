-- ===== src/Search/Errors.antt =====
-- A term that `int` does not read makes the building of a search fail wherever it stands.
use open_sec_dash.Prelude.{
  ℕ, zero, suc, ◌≡◌, ◌∙◌, refl, sym, ap, true, false, List, [], ◌∷◌, ◌==◌, any, Bool-cases, inl,
  inr, eq_of_beq, arith, Bool,
}
use open_sec_dash.Prelude.Text.{Text, text_eq, codes}
use open_sec_dash.Search.{
  Condition, both, either, ok, err, ◌>>=◌, Parse, is_unreadable, parse_or, or_loop, parse_and,
  and_loop, parse_factor, pass_closing, build_search_expression, enough_fuel,
}
use open_sec_dash.Search.Digits.{all_digits, int_fails}

abbrev unread : List Text → Bool
unread tokens = any is_unreadable tokens

-- A part that was built, and the tokens from the new position on
bind-eq-ok :
    (m : Parse) (next : Condition → List Text → Parse) (c : Condition) (rest : List Text)
    → (m >>= λ (e, after). next e after) ≡ ok (c, rest)
    → (e : Condition) × (after : List Text) × (m ≡ ok (e, after)) × (next e after ≡ ok (c, rest))
bind-eq-ok (ok (e, after)) next c rest h = (e, after, refl, h)
bind-eq-ok (err x) next c rest h = absurd (ground arith)

opening_readable : is_unreadable (codes "(") ≡ false
unfolding is_unreadable all_digits int_fails
opening_readable = refl

closing_readable : is_unreadable (codes ")") ≡ false
unfolding is_unreadable all_digits int_fails
closing_readable = refl

and_readable : is_unreadable (codes "&&") ≡ false
unfolding is_unreadable all_digits int_fails
and_readable = refl

or_readable : is_unreadable (codes "||") ≡ false
unfolding is_unreadable all_digits int_fails
or_readable = refl

-- A token that is one of these is readable.
readable : (t u : Text) → (t == u) ≡ true → is_unreadable u ≡ false → is_unreadable t ≡ false
readable t u same h = rw (eq_of_beq t u same) h

unread-pass_closing : (tokens : List Text) → unread (pass_closing tokens) ≡ unread tokens
unread-pass_closing [] = refl
unread-pass_closing (t ∷ tokens) = elim (Bool-cases (t == codes ")")) [
  | inl e ↦ rw (e, readable t (codes ")") e closing_readable) refl
  | inr e ↦ rw e refl
]

mutual
  unfolding parse_or

  parse_factor-unread :
      (f : ℕ) (tokens rest : List Text) (c : Condition)
      → parse_factor f tokens ≡ ok (c, rest)
      → unread tokens ≡ unread rest
  parse_factor-unread zero tokens rest c h = absurd (ground arith)
  parse_factor-unread (suc f) [] rest c h = absurd (ground arith)
  parse_factor-unread (suc f) (t ∷ tokens) rest c h = elim (Bool-cases (t == codes "(")) [
    | inl e ↦
        let (inner, after, built, same) =
          bind-eq-ok (parse_or f tokens) (λ e after. ok (e, pass_closing after)) c rest
            (rw (e, parse_factor) at h) in
        let end : pass_closing after ≡ rest = ground arith in
        rw (readable t (codes "(") e opening_readable) (
          parse_or-unread f tokens after inner built
          ∙ sym (unread-pass_closing after)
          ∙ ap unread end)
    | inr e ↦ ground (arith, e)
  ]

  parse_and-unread :
      (f : ℕ) (tokens rest : List Text) (c : Condition)
      → parse_and f tokens ≡ ok (c, rest)
      → unread tokens ≡ unread rest
  parse_and-unread zero tokens rest c h = absurd (ground arith)
  parse_and-unread (suc f) tokens rest c h =
      let (left, after, built, more) = bind-eq-ok (parse_factor f tokens) (and_loop f) c rest h in
      parse_factor-unread f tokens after left built ∙ and_loop-unread f left after rest c more

  and_loop-unread :
      (f : ℕ) (left : Condition) (tokens rest : List Text) (c : Condition)
      → and_loop f left tokens ≡ ok (c, rest)
      → unread tokens ≡ unread rest
  and_loop-unread zero left tokens rest c h = absurd (ground arith)
  and_loop-unread (suc f) left [] rest c h = ground arith
  and_loop-unread (suc f) left (t ∷ tokens) rest c h = elim (Bool-cases (t == codes "&&")) [
    | inl e ↦
        let (right, after, built, more) =
          bind-eq-ok (parse_factor f tokens) (λ b. and_loop f (both left b)) c rest
            (rw (e, and_loop) at h) in
        rw (readable t (codes "&&") e and_readable) (
          parse_factor-unread f tokens after right built
          ∙ and_loop-unread f (both left right) after rest c more)
    | inr e ↦ let end : t ∷ tokens ≡ rest = ground arith in ap unread end
  ]

  parse_or-unread :
      (f : ℕ) (tokens rest : List Text) (c : Condition)
      → parse_or f tokens ≡ ok (c, rest)
      → unread tokens ≡ unread rest
  parse_or-unread zero tokens rest c h = absurd (ground arith)
  parse_or-unread (suc f) tokens rest c h =
      let (left, after, built, more) = bind-eq-ok (parse_and f tokens) (or_loop f) c rest h in
      parse_and-unread f tokens after left built ∙ or_loop-unread f left after rest c more

  or_loop-unread :
      (f : ℕ) (left : Condition) (tokens rest : List Text) (c : Condition)
      → or_loop f left tokens ≡ ok (c, rest)
      → unread tokens ≡ unread rest
  or_loop-unread zero left tokens rest c h = absurd (ground arith)
  or_loop-unread (suc f) left [] rest c h = ground arith
  or_loop-unread (suc f) left (t ∷ tokens) rest c h = elim (Bool-cases (t == codes "||")) [
    | inl e ↦
        let (right, after, built, more) =
          bind-eq-ok (parse_and f tokens) (λ b. or_loop f (either left b)) c rest
            (rw (e, or_loop) at h) in
        rw (readable t (codes "||") e or_readable) (
          parse_and-unread f tokens after right built
          ∙ or_loop-unread f (either left right) after rest c more)
    | inr e ↦ let end : t ∷ tokens ≡ rest = ground arith in ap unread end
  ]

-- What is built from all tokens has read all of them.
pub build-unread :
    (tokens : List Text) (c : Condition)
    → build_search_expression tokens ≡ ok (c, [])
    → any is_unreadable tokens ≡ false
unfolding build_search_expression
build-unread tokens c h = parse_or-unread (enough_fuel tokens) tokens [] c h
