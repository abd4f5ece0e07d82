-- ===== src/Float.antt =====
-- Go's float64, which is not built into the logic: a type with the operations that the program
-- uses, and the laws of IEEE 754 that its decisions rest on.
use smart_retry_orchestrator.Common.{
  ℕ, ◌+◌, ◌*◌, ◌^◌, ◌<◌, ◌≡◌, refl, Bool, String, arith, ltb, leb, ◌==◌, ◌/◌,
}

pub record Float64 (F : Type 0) : Type 0 where
  -- float64(n)
  pub of_int : ℕ → F
  -- the literal whose value is the quotient of two numbers: `lit 30 100` is 0.30
  pub lit : ℕ → ℕ → F
  pub add : F → F → F
  pub mul : F → F → F
  pub div : F → F → F
  pub lt : F → F → Bool
  pub le : F → F → Bool
  pub eq : F → F → Bool
  -- int(x) of a value that is not negative
  pub trunc : F → ℕ
  -- the text that fmt prints for `%.nf`
  pub fixed : ℕ → F → String

-- Below this bound two different quotients of numbers are never rounded to one float64.
abbrev pub small : ℕ
small = 2 ^ 25

-- Division and literals are rounded correctly and rounding is monotone; so the quotient of two
-- converted numbers is the literal of that value, and quotients of small numbers compare as the
-- rational numbers do.
pub record IsIeee (F : Type 0) ⦃fl : Float64 F⦄ : Type 0 where
  pub div-of_int :
      (a b : ℕ) → a < small → 0 < b → b < small → fl.div (fl.of_int a) (fl.of_int b) ≡ fl.lit a b
  pub lt-lit :
      (a b c d : ℕ)
      → a < small
      → 0 < b
      → b < small
      → c < small
      → 0 < d
      → d < small
      → fl.lt (fl.lit a b) (fl.lit c d) ≡ ltb (a * d) (c * b)
  pub le-lit :
      (a b c d : ℕ)
      → a < small
      → 0 < b
      → b < small
      → c < small
      → 0 < d
      → d < small
      → fl.le (fl.lit a b) (fl.lit c d) ≡ leb (a * d) (c * b)
  pub eq-lit :
      (a b c d : ℕ)
      → a < small
      → 0 < b
      → b < small
      → c < small
      → 0 < d
      → d < small
      → fl.eq (fl.lit a b) (fl.lit c d) ≡ (a * d == c * b)

-- The laws can be met: quotients with no rounding.
pub record Ratio : Type 0 where
  pub num : ℕ
  pub den : ℕ

abbrev pub ratio : ℕ → ℕ → Ratio
ratio a b = record { num = a; den = b }

instance abbrev pub ratio_float : Float64 Ratio
ratio_float = record {
  of_int = λ n. ratio n 1;
  lit = ratio;
  add = λ x y. ratio (x.num * y.den + y.num * x.den) (x.den * y.den);
  mul = λ x y. ratio (x.num * y.num) (x.den * y.den);
  div = λ x y. ratio (x.num * y.den) (x.den * y.num);
  lt = λ x y. ltb (x.num * y.den) (y.num * x.den);
  le = λ x y. leb (x.num * y.den) (y.num * x.den);
  eq = λ x y. x.num * y.den == y.num * x.den;
  trunc = λ x. x.num / x.den;
  fixed = λ n x. "";
}

pub Ratio-IsIeee : IsIeee Ratio
Ratio-IsIeee = record {
  div-of_int = λ a b _ _ _. ground arith;
  lt-lit = λ a b c d _ _ _ _ _ _. refl;
  le-lit = λ a b c d _ _ _ _ _ _. refl;
  eq-lit = λ a b c d _ _ _ _ _ _. refl;
}
