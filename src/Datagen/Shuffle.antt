-- ===== src/Datagen/Shuffle.antt =====
-- The shuffle at the end of GenerateEvents (datagen/generator.go).
use smart_retry_orchestrator.Datagen.Random.{pure, ◌>>=◌, Draw, Rng, intn}
use smart_retry_orchestrator.Common.{
  ℕ, List, Option, length, suc, get_elem?, none, some, set, ◌+◌, ◌-◌, zero,
}
use mathlib.Core.Option

module _ {A : Type 0} where
  -- events[i], events[j] = events[j], events[i]
  unfoldable pub swap : List A → (i j : ℕ) → Option (List A)
  swap xs i j = elim (get_elem? xs i) [
    | none ↦ none
    | some x ↦ elim (get_elem? xs j) [ none ↦ none | some y ↦ some (set (set xs i y) j x) ]
  ]

  -- a swap that may panic
  unfoldable pub swapped : List A → (i j : ℕ) → Draw (List A)
  unfolding swap
  swapped xs i j k = Option.map (λ ys. (ys, k)) (swap xs i j)

module _ {F : Type 0} (rng : Rng F) {A : Type 0} where
  -- for i := len(events) - 1; i > 0; i--
  unfoldable pub shuffle_loop : ℕ → List A → Draw (List A)
  shuffle_loop zero xs = pure xs
  shuffle_loop (suc i) xs = do
    j ← intn rng (suc i + 1)
    ys ← swapped xs (suc i) j
    shuffle_loop i ys

  unfoldable pub shuffle : List A → Draw (List A)
  unfolding shuffle_loop
  shuffle xs = shuffle_loop (length xs - 1) xs
