-- ===== src/Prelude/Equality.antt =====
-- Python's `==` on the values that the program compares: numbers, the source's literals and texts.
use Prim.Native.Nat.{ℕ, compare, Ordering}
use Prim.Native.String.{String}
use mathlib.Core.Path.{◌≡◌, refl}
use mathlib.Core.Logic.{◌↔◌}
use mathlib.Core.Bool.{Bool, true, false}
use native.Mathlib.Omega.{arith}
use text.Mathlib.Text as Strings
use text.Mathlib.TextEquality.{eq_iff}

abbrev pub nat_beq : ℕ → ℕ → Bool
nat_beq m n = elim (compare m n) [ Ordering.eq ↦ true | _ ↦ false ]

pub nat_beq_iff : (m n : ℕ) → (nat_beq m n ≡ true) ↔ (m ≡ n)
nat_beq_iff m n = ground arith

-- The test is exact: `__eq__` of these types holds of equal values and of no others.
pub record Comparable {ℓ} (T : Type ℓ) : Type ℓ where
  pub equals : T → T → Bool
  pub equals_iff : (s t : T) → (equals s t ≡ true) ↔ (s ≡ t)

abbrev pub ◌==◌ {ℓ} : {T : Type ℓ} ⦃c : Comparable T⦄ → T → T → Bool
◌==◌ ⦃c⦄ s t = c.equals s t

infix 50 ◌==◌
pub eq_of_beq {ℓ} : {T : Type ℓ} ⦃c : Comparable T⦄ (s t : T) → (s == t) ≡ true → s ≡ t
eq_of_beq ⦃c⦄ s t same = (c.equals_iff s t).0 same

pub beq_refl {ℓ} : {T : Type ℓ} ⦃c : Comparable T⦄ (t : T) → (t == t) ≡ true
beq_refl ⦃c⦄ t = (c.equals_iff t t).1 refl

instance abbrev pub string_eq : Comparable String
string_eq = record { equals = Strings.◌==◌; equals_iff = eq_iff }

instance abbrev pub nat_eq : Comparable ℕ
nat_eq = record { equals = nat_beq; equals_iff = nat_beq_iff }
