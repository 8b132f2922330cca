-- ===== src/Correlation/Pages.antt =====
-- Reading a table page by page: a page is the first rows after a cursor, and the next cursor is the
-- key of its last row. Where the keys increase, no row is skipped and none is read twice.
use open_sec_dash.Prelude.{
  ℕ, zero, suc, ◌≡◌, refl, ap, ◌∙◌, sym, subst, Bool, true, false, not, List, [], ◌∷◌, ◌++◌, map,
  ◌==◌, Comparable, eq_of_beq, beq_refl, contains, any, select, take, arith, Bool-cases, inl, inr,
  is_empty, length, ◌+◌, ◌≤◌, ◌<◌,
}

-- A test that orders keys strictly
pub record StrictOrder {ℓ} {K : Type ℓ} (lt : K → K → Bool) : Type ℓ where
  pub irreflexive : (a : K) → lt a a ≡ false
  pub transitive : (a b c : K) → lt a b ≡ true → lt b c ≡ true → lt a c ≡ true

module _ {ℓ} {A : Type ℓ} where
  unfoldable pub drop : ℕ → List A → List A
  drop zero xs = xs
  drop (suc n) [] = []
  drop (suc n) (x ∷ xs) = drop n xs

  pub take-drop : (n : ℕ) (xs : List A) → take n xs ++ drop n xs ≡ xs
  unfolding drop
  take-drop zero xs = refl
  take-drop (suc n) [] = refl
  take-drop (suc n) (x ∷ xs) = ap (λ r. x ∷ r) (take-drop n xs)

  pub length-take : (n : ℕ) (xs : List A) → length (take n xs) ≤ n
  length-take zero xs = omega arith
  length-take (suc n) [] = omega arith
  length-take (suc n) (x ∷ xs) = omega (arith, length-take n xs)

  pub length-drop : (n : ℕ) (xs : List A) → length (take n xs) + length (drop n xs) ≡ length xs
  unfolding drop
  length-drop zero xs = omega arith
  length-drop (suc n) [] = refl
  length-drop (suc n) (x ∷ xs) = omega (arith, length-drop n xs)

  -- A page that is not full is the last one.
  pub take_short : (n : ℕ) (xs : List A) → length (take n xs) < n → take n xs ≡ xs
  take_short zero xs h = absurd (omega arith)
  take_short (suc n) [] h = refl
  take_short (suc n) (x ∷ xs) h = ap (λ r. x ∷ r) (take_short n xs (omega arith))

  pub drop_smaller :
      (n : ℕ) (xs : List A) → is_empty xs ≡ false → length (drop (suc n) xs) < length xs
  unfolding drop
  drop_smaller n [] h = absurd (ground arith)
  drop_smaller n (x ∷ xs) h = omega (arith, length-drop n xs)

module _ {ℓ κ} {A : Type ℓ} {K : Type κ} (key : A → K) (lt : K → K → Bool) where
  abbrev pub after : K → List A → List A
  after c = select (λ x. lt c (key x))

  unfoldable pub last_key : K → List A → K
  last_key c [] = c
  last_key c (x ∷ xs) = last_key (key x) xs

  unfoldable pub AllAfter : K → List A → Type 0
  AllAfter c [] = Unit {0}
  AllAfter c (x ∷ xs) = (lt c (key x) ≡ true) × AllAfter c xs

  unfoldable pub IsIncreasing : List A → Type 0
  IsIncreasing [] = Unit {0}
  IsIncreasing (x ∷ xs) = AllAfter (key x) xs × IsIncreasing xs

  AllAfter-select : (c : K) (p : A → Bool) (xs : List A) → AllAfter c xs → AllAfter c (select p xs)
  unfolding AllAfter
  AllAfter-select c p [] h = tt
  AllAfter-select c p (x ∷ xs) h = elim (Bool-cases (p x)) [
    | inl e ↦ rw e (h.0, AllAfter-select c p xs h.1)
    | inr e ↦ rw e (AllAfter-select c p xs h.1)
  ]

  pub AllAfter-take : (c : K) (n : ℕ) (xs : List A) → AllAfter c xs → AllAfter c (take n xs)
  unfolding AllAfter
  AllAfter-take c zero xs h = tt
  AllAfter-take c (suc n) [] h = tt
  AllAfter-take c (suc n) (x ∷ xs) h = (h.0, AllAfter-take c n xs h.1)

  pub IsIncreasing-take : (n : ℕ) (xs : List A) → IsIncreasing xs → IsIncreasing (take n xs)
  unfolding IsIncreasing
  IsIncreasing-take zero xs h = tt
  IsIncreasing-take (suc n) [] h = tt
  IsIncreasing-take (suc n) (x ∷ xs) h =
      (AllAfter-take (key x) n xs h.0, IsIncreasing-take n xs h.1)

  pub IsIncreasing-select :
      (p : A → Bool) (xs : List A) → IsIncreasing xs → IsIncreasing (select p xs)
  unfolding IsIncreasing
  IsIncreasing-select p [] h = tt
  IsIncreasing-select p (x ∷ xs) h = elim (Bool-cases (p x)) [
    | inl e ↦ rw e (AllAfter-select (key x) p xs h.0, IsIncreasing-select p xs h.1)
    | inr e ↦ rw e (IsIncreasing-select p xs h.1)
  ]

  pub select-AllAfter : (c : K) (xs : List A) → AllAfter c (after c xs)
  unfolding AllAfter
  select-AllAfter c [] = tt
  select-AllAfter c (x ∷ xs) = elim (Bool-cases (lt c (key x))) [
    | inl e ↦ rw e (e, select-AllAfter c xs)
    | inr e ↦ rw e (select-AllAfter c xs)
  ]

  after-eq_self : (c : K) (xs : List A) → AllAfter c xs → after c xs ≡ xs
  unfolding AllAfter
  after-eq_self c [] h = refl
  after-eq_self c (x ∷ xs) h = rw h.0 (ap (λ r. x ∷ r) (after-eq_self c xs h.1))

  module _ (order : StrictOrder lt) where
    AllAfter-trans : (c d : K) (xs : List A) → lt c d ≡ true → AllAfter d xs → AllAfter c xs
    unfolding AllAfter
    AllAfter-trans c d [] h all = tt
    AllAfter-trans c d (x ∷ xs) h all =
        (order.transitive c d (key x) h all.0, AllAfter-trans c d xs h all.1)

    -- The cursor after a page is not before the cursor that the page began at.
    pub last_key-take :
        (c : K) (n : ℕ) (x : A) (xs : List A)
        → AllAfter c (x ∷ xs)
        → IsIncreasing (x ∷ xs)
        → lt c (last_key c (take (suc n) (x ∷ xs))) ≡ true
    unfolding AllAfter IsIncreasing last_key
    last_key-take c zero x xs h inc = h.0
    last_key-take c (suc n) x [] h inc = h.0
    last_key-take c (suc n) x (y ∷ xs) h inc =
        order.transitive c (key x) _ h.0 (last_key-take (key x) n y xs inc.0 inc.1)

    last_key_not_before :
        (n : ℕ) (x : A) (xs : List A)
        → IsIncreasing (x ∷ xs)
        → lt (last_key (key x) (take n xs)) (key x) ≡ false
    unfolding last_key IsIncreasing
    last_key_not_before zero x xs inc = order.irreflexive (key x)
    last_key_not_before (suc n) x [] inc = order.irreflexive (key x)
    last_key_not_before (suc n) x (y ∷ xs) inc =
        let up = last_key-take (key x) n y xs inc.0 inc.1 in
        elim (Bool-cases (lt (last_key (key y) (take n xs)) (key x))) [
          | inl e ↦
              let loop = order.transitive (key x) _ (key x) up e in
              absurd (ground (arith, order.irreflexive (key x)))
          | inr e ↦ e
        ]

    -- What follows the last row of a page is what the page left.
    pub after-last_key :
        (c : K) (n : ℕ) (xs : List A)
        → AllAfter c xs
        → IsIncreasing xs
        → after (last_key c (take n xs)) xs ≡ drop n xs
    unfolding drop last_key IsIncreasing
    after-last_key c zero xs h inc = after-eq_self c xs h
    after-last_key c (suc n) [] h inc = refl
    after-last_key c (suc n) (x ∷ xs) h inc =
        rw (last_key_not_before n x xs inc) (after-last_key (key x) n xs inc.0 inc.1)

    -- Rows after a later cursor
    pub after-after : (c d : K) (xs : List A) → lt c d ≡ true → after d (after c xs) ≡ after d xs
    after-after c d [] h = refl
    after-after c d (x ∷ xs) h = elim (Bool-cases (lt d (key x))) [
      | inl e ↦ rw (order.transitive c d (key x) h e, e) (ap (λ r. x ∷ r) (after-after c d xs h))
      | inr e ↦ elim (Bool-cases (lt c (key x))) [
        | inl f ↦ rw (f, e) (after-after c d xs h)
        | inr f ↦ rw (f, e) (after-after c d xs h)
      ]
    ]

    next_page_rows :
        (c : K) (n : ℕ) (xs ys : List A)
        → after c xs ≡ ys
        → AllAfter c ys
        → IsIncreasing ys
        → after (last_key c (take n ys)) xs ≡ drop n ys
    unfolding drop last_key
    next_page_rows c zero xs ys e h inc = e
    next_page_rows c (suc n) xs [] e h inc = e
    next_page_rows c (suc n) xs (y ∷ ys) e h inc =
        let c' = last_key c (take (suc n) (y ∷ ys)) in
        sym (after-after c c' xs (last_key-take c n y ys h inc))
        ∙ ap (after c') e
        ∙ after-last_key c (suc n) (y ∷ ys) h inc

    -- The rows after the last row of a page, in the whole table
    pub after-page :
        (c : K) (n : ℕ) (xs : List A)
        → IsIncreasing xs
        → after (last_key c (take n (after c xs))) xs ≡ drop n (after c xs)
    after-page c n xs inc =
        next_page_rows c n xs (after c xs) refl (select-AllAfter c xs)
          (IsIncreasing-select _ xs inc)

module _ {ℓ} {A : Type ℓ} where
  pub any-select : (p : A → Bool) (xs : List A) → any p xs ≡ not (is_empty (select p xs))
  any-select p [] = refl
  any-select p (x ∷ xs) = elim (Bool-cases (p x)) [
    | inl e ↦ rw e refl
    | inr e ↦ rw e (any-select p xs)
  ]

-- The rows whose key is among the keys of the first rows are those rows.
module _ {ℓ κ} {A : Type ℓ} {K : Type κ} ⦃same : Comparable K⦄ (key : A → K) (lt : K → K → Bool)
    (order : StrictOrder lt) where
  -- A key before all rows of a list is none of theirs.
  select-contains_cons :
      (k : K) (ks : List K) (xs : List A)
      → AllAfter key lt k xs
      → select (λ x. contains (key x) (k ∷ ks)) xs ≡ select (λ x. contains (key x) ks) xs
  unfolding AllAfter
  select-contains_cons k ks [] h = refl
  select-contains_cons k ks (x ∷ xs) h =
      let rest = select-contains_cons k ks xs h.1 in
      let other : (key x == k) ≡ false = elim (Bool-cases (key x == k)) [
        | inl e ↦
            let equal = eq_of_beq (key x) k e in
            absurd (ground (arith, order.irreflexive k, subst (λ a. lt k a ≡ true) equal h.0))
        | inr e ↦ e
      ] in
      elim (Bool-cases (contains (key x) ks)) [
        | inl e ↦ rw (other, e) (ap (λ r. x ∷ r) rest)
        | inr e ↦ rw (other, e) rest
      ]

  select_none : (xs : List A) → select (λ x. contains (key x) []) xs ≡ []
  select_none [] = refl
  select_none (x ∷ xs) = select_none xs

  pub select-contains-take :
      (n : ℕ) (xs : List A)
      → IsIncreasing key lt xs
      → select (λ x. contains (key x) (map key (take n xs))) xs ≡ take n xs
  unfolding IsIncreasing
  select-contains-take zero xs inc = select_none xs
  select-contains-take (suc n) [] inc = refl
  select-contains-take (suc n) (x ∷ xs) inc = rw (beq_refl (key x)) (
      ap (λ r. x ∷ r)
        (select-contains_cons (key x) (map key (take n xs)) xs inc.0
          ∙ select-contains-take n xs inc.1))
