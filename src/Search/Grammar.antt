-- ===== src/Search/Grammar.antt =====
-- The grammar of search expressions, independent of the loops that read it, and what the check of the
-- tokens says about what follows a part.
use open_sec_dash.Prelude.{
  ℕ, zero, suc, ◌≡◌, refl, Bool, true, false, none, List, [], ◌∷◌, ◌++◌, ◌==◌, nat_eq, any,
  is_empty, eq_of_beq, Bool-cases, inl, inr, arith,
}
use open_sec_dash.Prelude.Text.{Text, text_eq, codes}
use open_sec_dash.Search.{Condition, term, both, either, is_syntax, is_unreadable, check_tokens}

-- "&&" binds tighter than "||", and both group to the left.
mutual
  pub data Factor : Condition → List Text → Type 0 where
    word : (t : Text) → is_syntax t ≡ false → Factor (term t) (t ∷ [])
    group :
        {e : Condition} {inner : List Text}
        → Disjunction e inner
        → Factor e (codes "(" ∷ (inner ++ codes ")" ∷ []))

  pub data Conjunction : Condition → List Text → Type 0 where
    one_factor : {e : Condition} {tokens : List Text} → Factor e tokens → Conjunction e tokens
    joined :
        {a b : Condition} {before after : List Text}
        → Conjunction a before
        → Factor b after
        → Conjunction (both a b) (before ++ (codes "&&" ∷ after))

  pub data Disjunction : Condition → List Text → Type 0 where
    one_conjunction :
        {e : Condition} {tokens : List Text} → Conjunction e tokens → Disjunction e tokens
    one_of :
        {a b : Condition} {before after : List Text}
        → Disjunction a before
        → Conjunction b after
        → Disjunction (either a b) (before ++ (codes "||" ∷ after))

-- Tokens that the check accepts from a depth on, none of them empty or digits that `int` does not read
pub record IsAccepted (depth : ℕ) (expects_term : Bool) (tokens : List Text) : Type 0 where
  pub checked : check_tokens depth expects_term tokens ≡ none
  pub filled : any is_empty tokens ≡ false
  pub readable : any is_unreadable tokens ≡ false

-- What can follow a complete term
pub data Following (d : ℕ) (tokens : List Text) : Type 0 where
  finished : d ≡ 0 → tokens ≡ [] → Following d tokens
  closing :
      (k : ℕ) (rest : List Text)
      → d ≡ suc k
      → tokens ≡ codes ")" ∷ rest
      → IsAccepted k false rest
      → Following d tokens
  conjunction :
      (rest : List Text) → tokens ≡ codes "&&" ∷ rest → IsAccepted d true rest → Following d tokens
  disjunction :
      (rest : List Text) → tokens ≡ codes "||" ∷ rest → IsAccepted d true rest → Following d tokens

-- What can stand where a term is expected
pub data Starting (d : ℕ) (tokens : List Text) : Type 0 where
  opening :
      (rest : List Text)
      → tokens ≡ codes "(" ∷ rest
      → IsAccepted (suc d) true rest
      → Starting d tokens
  leaf :
      (t : Text) (rest : List Text)
      → tokens ≡ t ∷ rest
      → is_syntax t ≡ false
      → is_empty t ≡ false
      → is_unreadable t ≡ false
      → IsAccepted d false rest
      → Starting d tokens

after_closing :
    (d : ℕ) (tokens : List Text)
    → IsAccepted d false (codes ")" ∷ tokens)
    → Following d (codes ")" ∷ tokens)
unfolding check_tokens
after_closing zero tokens a = absurd (ground (arith, a.checked))
after_closing (suc k) tokens a = closing k tokens refl refl (record {
  checked = ground (arith, a.checked);
  filled = a.filled;
  readable = ground (arith, a.readable);
})

pub IsAccepted-Following :
    (d : ℕ) (tokens : List Text) → IsAccepted d false tokens → Following d tokens
unfolding check_tokens
IsAccepted-Following d [] a = finished (ground (arith, a.checked)) refl
IsAccepted-Following d (t ∷ tokens) a = elim (Bool-cases (t == codes ")")) [
  | inl close ↦
      let e : t ≡ codes ")" = eq_of_beq t (codes ")") close in
      rw e (after_closing d tokens (rw e at a))
  | inr c ↦ elim (Bool-cases (t == codes "&&")) [
    | inl conj ↦
        let e : t ≡ codes "&&" = eq_of_beq t (codes "&&") conj in
        let a' : IsAccepted d false (codes "&&" ∷ tokens) = rw e at a in
        conjunction tokens (rw e) (record {
          checked = a'.checked;
          filled = a'.filled;
          readable = ground (arith, a'.readable);
        })
    | inr b ↦ elim (Bool-cases (t == codes "||")) [
      | inl disj ↦
          let e : t ≡ codes "||" = eq_of_beq t (codes "||") disj in
          let a' : IsAccepted d false (codes "||" ∷ tokens) = rw e at a in
          disjunction tokens (rw e) (record {
            checked = a'.checked;
            filled = a'.filled;
            readable = ground (arith, a'.readable);
          })
      | inr o ↦ absurd (ground (arith, a.checked))
    ]
  ]
]

pub IsAccepted-Starting :
    (d : ℕ) (tokens : List Text) → IsAccepted d true tokens → Starting d tokens
unfolding check_tokens
IsAccepted-Starting d [] a = absurd (ground (arith, a.checked))
IsAccepted-Starting d (t ∷ tokens) a = elim (Bool-cases (t == codes "(")) [
  | inl open_parenthesis ↦
      let e : t ≡ codes "(" = eq_of_beq t (codes "(") open_parenthesis in
      let a' : IsAccepted d true (codes "(" ∷ tokens) = rw e at a in
      opening tokens (rw e) (record {
        checked = ground (arith, a'.checked);
        filled = a'.filled;
        readable = ground (arith, a'.readable);
      })
  | inr o ↦
      leaf t tokens refl (ground (arith, a.checked)) (ground (arith, a.filled))
        (ground (arith, a.readable))
        (record {
          checked = ground (arith, a.checked);
          filled = ground (arith, a.filled);
          readable = ground (arith, a.readable);
        })
]
