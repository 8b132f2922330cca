-- ===== src/Notifications/Matching.antt =====
-- What a rule's patterns match.
use open_sec_dash.Prelude.{
  ◌≡◌, refl, true, ◌||◌, Option, none, some, List, [], ◌∷◌, ◌++◌, ◌⊎◌, inl, inr, ◌↔◌, arith, ◌==◌,
  nat_eq, Bool-cases, Option-cases, beq_refl, eq_of_beq,
}
use open_sec_dash.Prelude.Text.{Text, text_eq, codes, starts_with}
use open_sec_dash.Notifications.{star_prefix, has_prefix, type_matches}

-- A pattern is a type itself, or a text and a final `*` that stands for any rest.
pub Matches : Text → Text → Type 0
Matches pattern value =
    (pattern ≡ value) ⊎ ((p s : Text) × (pattern ≡ p ++ codes "*") × (value ≡ p ++ s))

pub SomeMatches : List Text → Text → Type 0
SomeMatches [] value = ⊥
SomeMatches (pattern ∷ patterns) value = Matches pattern value ⊎ SomeMatches patterns value

star_prefix-eq : (m p : Text) → star_prefix m ≡ some p → m ≡ p ++ codes "*"
unfolding star_prefix
star_prefix-eq [] p h = absurd (ground arith)
star_prefix-eq (c ∷ []) p h = ground arith
star_prefix-eq (c ∷ d ∷ s) p h = elim (Option-cases (star_prefix (d ∷ s))) [
  | inl e ↦ absurd (ground arith)
  | inr (q, e) ↦ ground (arith, star_prefix-eq (d ∷ s) q e)
]

star_prefix-append : (p : Text) → star_prefix (p ++ codes "*") ≡ some p
unfolding star_prefix
star_prefix-append [] = refl
star_prefix-append (c ∷ []) = refl
star_prefix-append (c ∷ d ∷ p) = rw (star_prefix-append (d ∷ p)) refl

starts_with-append : (p s : Text) → starts_with p (p ++ s) ≡ true
unfolding starts_with
starts_with-append [] s = refl
starts_with-append (c ∷ p) s = ground (arith, starts_with-append p s)

starts_with-split : (p value : Text) → starts_with p value ≡ true → (s : Text) × (value ≡ p ++ s)
unfolding starts_with
starts_with-split [] value h = (value, refl)
starts_with-split (c ∷ p) [] h = absurd (ground arith)
starts_with-split (c ∷ p) (d ∷ value) h =
    let (s, e) = starts_with-split p value (ground arith) in (s, ground arith)

prefix-Matches :
    (m value : Text) (o : Option Text)
    → star_prefix m ≡ o
    → has_prefix o value ≡ true
    → Matches m value
unfolding Matches
prefix-Matches m value none e h = absurd (ground arith)
prefix-Matches m value (some p) e h =
    let (s, split) = starts_with-split p value h in inr (p, s, star_prefix-eq m p e, split)

type_matches_sound :
    (patterns : List Text) (value : Text)
    → type_matches patterns value ≡ true
    → SomeMatches patterns value
unfolding type_matches SomeMatches Matches
type_matches_sound [] value h = cc
type_matches_sound (m ∷ patterns) value h = elim (Bool-cases (m == codes "*")) [
  | inl star ↦ inl (inr ([], value, eq_of_beq m (codes "*") star, refl))
  | inr s ↦ elim (Bool-cases (m == value)) [
    | inl same ↦ inl (inl (eq_of_beq m value same))
    | inr d ↦ elim (Bool-cases (has_prefix (star_prefix m) value)) [
      | inl pre ↦ inl (prefix-Matches m value (star_prefix m) refl pre)
      | inr n ↦ inr (type_matches_sound patterns value (ground arith))
    ]
  ]
]

star-Matches :
    (m value : Text) → Matches m value → (m == value || has_prefix (star_prefix m) value) ≡ true
unfolding Matches
star-Matches m value (inl same) = rw (same, beq_refl value) refl
star-Matches m value (inr (p, s, em, ev)) =
    let pre : has_prefix (star_prefix m) value ≡ true =
      rw (em, ev, star_prefix-append p) (starts_with-append p s) in
    ground arith

type_matches_complete :
    (patterns : List Text) (value : Text)
    → SomeMatches patterns value
    → type_matches patterns value ≡ true
unfolding type_matches SomeMatches
type_matches_complete [] value h = absurd h
type_matches_complete (m ∷ patterns) value (inl h) = ground (arith, star-Matches m value h)
type_matches_complete (m ∷ patterns) value (inr h) =
    ground (arith, type_matches_complete patterns value h)

-- Exactly the types that a pattern names, or that continue the text before its final `*`, match.
pub type_matches_iff :
    (patterns : List Text) (value : Text)
    → (type_matches patterns value ≡ true) ↔ SomeMatches patterns value
type_matches_iff patterns value =
    (type_matches_sound patterns value, type_matches_complete patterns value)
