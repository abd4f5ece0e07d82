-- ===== src/Datagen/Random.antt =====
-- rand.New(rand.NewSource(seed)) of datagen/generator.go: the numbers of one source in turn.
-- `intn k n` is what the k-th call gives if it is Intn(n) or Int63n(n), and `float64 k` if it is
-- Float64().
use smart_retry_orchestrator.Common.{none, ℕ, List, some, Option, get_elem?, suc, length, ◌<◌}

pub record Rng (F : Type 0) : Type 0 where
  pub intn : ℕ → ℕ → ℕ
  pub float64 : ℕ → F

-- What math/rand documents of Intn and Int63n: a number from 0 up to n, n not included.
pub record IsRng {F : Type 0} (rng : Rng F) : Type 0 where
  pub intn_lt : (k n : ℕ) → 0 < n → rng.intn k n < n

-- A computation over the calls made so far; `none` is a panic.
abbrev pub Draw : Type 0 → Type 0
Draw A = ℕ → Option (A × ℕ)

module _ {A : Type 0} where
  unfoldable pub pure : A → Draw A
  pure a k = some (a, k)

module _ {A B : Type 0} where
  infixl 10 ◌>>=◌
  unfoldable pub ◌>>=◌ : Draw A → (A → Draw B) → Draw B
  ◌>>=◌ m f k = elim (m k) [ none ↦ none | some (a, k') ↦ f a k' ]

module _ {F : Type 0} (rng : Rng F) where
  unfoldable pub intn : ℕ → Draw ℕ
  intn n k = some (rng.intn k n, suc k)

  unfoldable pub float64 : Draw F
  float64 k = some (rng.float64 k, suc k)

  -- xs[rng.Intn(len(xs))], which panics out of range
  unfoldable pub choose_from : {A : Type 0} → List A → Draw A
  choose_from xs k = elim (get_elem? xs (rng.intn k (length xs))) [
    | none ↦ none
    | some x ↦ some (x, suc k)
  ]
