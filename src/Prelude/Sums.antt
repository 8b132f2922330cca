-- ===== src/Prelude/Sums.antt =====
-- Sums and counts over the rows of a table, and how they change when the rows with one key are
-- updated or deleted.
use open_sec_dash.Prelude.Tests.{if◌then◌else◌}
use open_sec_dash.Prelude.Equality.{◌==◌, nat_eq}
use open_sec_dash.Prelude.Lists.{select, first}
use Prim.Native.Nat.{ℕ, ◌+◌, ◌≤◌}
use mathlib.Core.Path.{◌≡◌, refl}
use mathlib.Core.Bool.{Bool, true, false, not}
use mathlib.Core.Option.{Option, none, some}
use mathlib.Core.List.{List, [], ◌∷◌, ◌++◌, map}
use native.Mathlib.Omega.{arith}

-- Python's `int(b)`
abbrev pub flag : Bool → ℕ
flag true = 1
flag false = 0

module _ {ℓ} {A : Type ℓ} where
  unfoldable pub sum_by : (A → ℕ) → List A → ℕ
  sum_by g [] = 0
  sum_by g (x ∷ xs) = g x + sum_by g xs

  -- query.filter(p).count()
  abbrev pub count : (A → Bool) → List A → ℕ
  count p = sum_by (λ x. flag (p x))

  pub sum_by-append : (g : A → ℕ) (xs ys : List A) → sum_by g (xs ++ ys) ≡ sum_by g xs + sum_by g ys
  unfolding sum_by
  sum_by-append g [] ys = omega arith
  sum_by-append g (x ∷ xs) ys = omega (arith, sum_by-append g xs ys)

  -- Weights that agree on every row have one sum.
  pub sum_by_congr : (g h : A → ℕ) (xs : List A) → ((x : A) → g x ≡ h x) → sum_by g xs ≡ sum_by h xs
  unfolding sum_by
  sum_by_congr g h [] e = refl
  sum_by_congr g h (x ∷ xs) e = omega (arith, e x, sum_by_congr g h xs e)

  pub sum_by_mono : (g h : A → ℕ) (xs : List A) → ((x : A) → g x ≤ h x) → sum_by g xs ≤ sum_by h xs
  unfolding sum_by
  sum_by_mono g h [] e = omega arith
  sum_by_mono g h (x ∷ xs) e = omega (arith, e x, sum_by_mono g h xs e)

  pub sum_by-map :
      (g : A → ℕ) (f : A → A) (xs : List A) → sum_by g (map f xs) ≡ sum_by (λ x. g (f x)) xs
  unfolding sum_by
  sum_by-map g f [] = refl
  sum_by-map g f (x ∷ xs) = omega (arith, sum_by-map g f xs)

  pub sum_by-select :
      (g : A → ℕ) (p : A → Bool) (xs : List A)
      → sum_by g (select p xs) ≡ sum_by (λ x. if p x then g x else 0) xs
  unfolding sum_by
  sum_by-select g p [] = refl
  sum_by-select g p (x ∷ xs) = ground (arith, sum_by-select g p xs)

-- A table whose rows carry a key, as the id of a row or the id that it refers to.
module _ {ℓ} {A : Type ℓ} (key : A → ℕ) (k : ℕ) where
  -- UPDATE … WHERE key = k
  abbrev pub update : (A → A) → List A → List A
  update f = map (λ x. if key x == k then f x else x)

  -- DELETE … WHERE key = k
  abbrev pub delete : List A → List A
  delete = select (λ x. not (key x == k))

  -- The rows with the key, and the others.
  abbrev pub only : (A → ℕ) → A → ℕ
  only g x = if key x == k then g x else 0

  abbrev pub others : (A → ℕ) → A → ℕ
  others g x = if key x == k then 0 else g x

  abbrev pub find : List A → Option A
  find = first (λ x. key x == k)

  pub sum_by_split :
      (g : A → ℕ) (xs : List A) → sum_by g xs ≡ sum_by (only g) xs + sum_by (others g) xs
  unfolding sum_by
  sum_by_split g [] = refl
  sum_by_split g (x ∷ xs) = ground (arith, sum_by_split g xs)

  sum_by_none : (g : A → ℕ) (xs : List A) → count (λ x. key x == k) xs ≡ 0 → sum_by (only g) xs ≡ 0
  unfolding sum_by
  sum_by_none g [] h = refl
  sum_by_none g (x ∷ xs) h = ground (arith, sum_by_none g xs)

  -- Where the key is unique, the row that a query finds is the only one that counts.
  pub sum_by-only :
      (g : A → ℕ) (x : A) (xs : List A)
      → count (λ y. key y == k) xs ≤ 1
      → find xs ≡ some x
      → sum_by (only g) xs ≡ g x
  unfolding sum_by
  sum_by-only g x [] u h = absurd (ground arith)
  sum_by-only g x (y ∷ xs) u h = ground (arith, sum_by-only g x xs, sum_by_none g xs)

  pub sum_by_missing : (g : A → ℕ) (xs : List A) → find xs ≡ none → sum_by (only g) xs ≡ 0
  unfolding sum_by
  sum_by_missing g [] h = refl
  sum_by_missing g (y ∷ xs) h = ground (arith, sum_by_missing g xs)

  pub key-find : (x : A) (xs : List A) → find xs ≡ some x → key x ≡ k
  key-find x [] h = absurd (ground arith)
  key-find x (y ∷ xs) h = ground (arith, key-find x xs)

  pub sum_by-delete : (g : A → ℕ) (xs : List A) → sum_by g (delete xs) ≡ sum_by (others g) xs
  unfolding sum_by
  sum_by-delete g [] = refl
  sum_by-delete g (x ∷ xs) = ground (arith, sum_by-delete g xs)

  -- An update that keeps the key changes what the rows with the key count, and nothing else.
  pub sum_by-update :
      (g : A → ℕ) (f : A → A) (xs : List A)
      → sum_by g (update f xs) ≡ sum_by (only (λ x. g (f x))) xs + sum_by (others g) xs
  unfolding sum_by
  sum_by-update g f [] = refl
  sum_by-update g f (x ∷ xs) = ground (arith, sum_by-update g f xs)

pub ruleset sum_laws = (
  sum_by-append, sum_by-map, sum_by-select, sum_by_split, sum_by-only, sum_by-delete, sum_by-update,
)
