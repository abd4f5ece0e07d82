-- ===== src/Datagen/Permuted.antt =====
-- The shuffle of GenerateEvents (datagen/generator.go) rearranges: it reads no element out of range,
-- and every test holds of as many elements after it as before.
use smart_retry_orchestrator.Common.{
  Bool, List, length, ℕ, get_elem?, keep, true, ◌∷◌, ◌≡◌, if◌then◌else◌, ◌<◌, ap, some, arith, set,
  suc, [], refl, ◌+◌, zero,
}
use smart_retry_orchestrator.Datagen.Shuffle.{swap}
use mathlib.Core.Option.{some-injective}

abbrev one_if : Bool → ℕ
one_if b = if b then 1 else 0

module _ {A : Type 0} where
  -- the lists hold the same elements, in any order
  abbrev pub IsRearranged : List A → List A → Type 0
  IsRearranged ys xs = (p : A → Bool) → length (keep p ys) ≡ length (keep p xs)

  pub length-keep_all : (xs : List A) → length (keep (λ _. true) xs) ≡ length xs
  length-keep_all [] = refl
  length-keep_all (x ∷ xs) = ap suc (length-keep_all xs)

  pub length-IsRearranged : (ys xs : List A) → IsRearranged ys xs → length ys ≡ length xs
  length-IsRearranged ys xs same =
      omega (arith, same (λ _. true), length-keep_all ys, length-keep_all xs)

  pub get_elem?-lt : (xs : List A) (i : ℕ) → i < length xs → (x : A) × (get_elem? xs i ≡ some x)
  get_elem?-lt [] i lt = absurd (omega arith)
  get_elem?-lt (x ∷ xs) zero lt = (x, refl)
  get_elem?-lt (x ∷ xs) (suc i) lt = get_elem?-lt xs i (omega arith)

  -- A write of what stands at `j` leaves it there.
  get_elem?-set :
      (xs : List A) (i j : ℕ) (y : A) → get_elem? xs j ≡ some y → get_elem? (set xs i y) j ≡ some y
  get_elem?-set [] i j y e = e
  get_elem?-set (x ∷ xs) zero zero y e = refl
  get_elem?-set (x ∷ xs) zero (suc j) y e = e
  get_elem?-set (x ∷ xs) (suc i) zero y e = e
  get_elem?-set (x ∷ xs) (suc i) (suc j) y e = get_elem?-set xs i j y e

  keep-cons :
      (p : A → Bool) (x : A) (xs : List A)
      → length (keep p (x ∷ xs)) ≡ one_if (p x) + length (keep p xs)
  keep-cons p x xs = ground arith

  -- What is written counts in place of what stood there.
  keep-set :
      (p : A → Bool) (xs : List A) (i : ℕ) (x y : A)
      → get_elem? xs i ≡ some x
      → one_if (p x) + length (keep p (set xs i y)) ≡ one_if (p y) + length (keep p xs)
  keep-set p [] i x y e = cc
  keep-set p (z ∷ xs) zero x y e =
      rw (some-injective _ _ e) (omega (arith, keep-cons p x xs, keep-cons p y xs))
  keep-set p (z ∷ xs) (suc i) x y e =
      omega (arith, keep-cons p z xs, keep-cons p z (set xs i y), keep-set p xs i x y e)

  pub swap-IsRearranged :
      (xs : List A) (i j : ℕ)
      → i < length xs
      → j < length xs
      → (ys : List A) × (swap xs i j ≡ some ys) × IsRearranged ys xs
  unfolding swap
  swap-IsRearranged xs i j li lj =
      let (x, ex) = get_elem?-lt xs i li in
      let (y, ey) = get_elem?-lt xs j lj in
      (
        set (set xs i y) j x,
        rw (ex, swap, ey) refl,
        λ p. omega (
          arith,
          keep-set p xs i x y ex,
          keep-set p (set xs i y) j y x (get_elem?-set xs i j y ey),
        ),
      )
