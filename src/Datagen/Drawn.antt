-- ===== src/Datagen/Drawn.antt =====
-- Draws from the random source of datagen/generator.go that never panic, whatever its numbers are.
-- The draw gives a result, with the property, wherever it starts.
use smart_retry_orchestrator.Common.{
  List, ℕ, All, get_elem?, ◌<◌, ◌≡◌, length, suc, some, ◌∷◌, refl, ◌≤◌, ◌-◌, [], arith, zero, ◌+◌,
  ◌∙◌,
}
use smart_retry_orchestrator.Datagen.Random.{Draw, Rng, IsRng, choose_from, intn}
use smart_retry_orchestrator.Datagen.Random.{pure, ◌>>=◌}
use smart_retry_orchestrator.Datagen.Shuffle.{shuffle, shuffle_loop, swapped}
use smart_retry_orchestrator.Datagen.Permuted.{
  IsRearranged, get_elem?-lt, length-IsRearranged, swap-IsRearranged,
}
use mathlib.Core.Path.{subst}
use mathlib.Core.Option.{some-injective}

pub record Yields {A : Type 0} (m : Draw A) (P : A → Type 0) : Type 0 where
  pub at : (k : ℕ) → (a : A) × (k' : ℕ) × (m k ≡ some (a, k')) × P a

module _ {A : Type 0} where
  pub Yields-pure : (a : A) (P : A → Type 0) → P a → Yields (pure a) P
  unfolding pure
  Yields-pure a P h = record { at = λ k. (a, k, refl, h) }

  pub Yields-mono :
      (m : Draw A) (P Q : A → Type 0) → ((a : A) → P a → Q a) → Yields m P → Yields m Q
  Yields-mono m P Q h y = record { at = λ k. let (a, k', e, p) = y.at k in (a, k', e, h a p) }

  All-get_elem? :
      (P : A → Type 0) (xs : List A) (i : ℕ) (x : A) → All P xs → get_elem? xs i ≡ some x → P x
  All-get_elem? P [] i x all e = cc
  All-get_elem? P (y ∷ xs) zero x (first, rest) e = subst P (some-injective _ _ e) first
  All-get_elem? P (y ∷ xs) (suc i) x (first, rest) e = All-get_elem? P xs i x rest e

module _ {A B : Type 0} where
  pub Yields-bind :
      (m : Draw A) (f : A → Draw B) (P : A → Type 0) (Q : B → Type 0)
      → Yields m P
      → ((a : A) → P a → Yields (f a) Q)
      → Yields (m >>= f) Q
  unfolding ◌>>=◌
  Yields-bind m f P Q y h = record {
    at = λ k.
        let (a, k', e, p) = y.at k in
        let (b, k'', e', q) = (h a p).at k' in (b, k'', rw (e, ◌>>=◌) e', q);
  }

module _ {F : Type 0} (rng : Rng F) (is_rng : IsRng rng) where
  pub Yields-intn : (n : ℕ) → 0 < n → Yields (intn rng n) (λ i. i < n)
  unfolding intn
  Yields-intn n lt = record { at = λ k. (rng.intn k n, suc k, refl, is_rng.intn_lt k n lt) }

  pub Yields-choose_from :
      {A : Type 0} (P : A → Type 0) (xs : List A)
      → 0 < length xs
      → All P xs
      → Yields (choose_from rng xs) P
  unfolding choose_from
  Yields-choose_from P xs lt all = record {
    at = λ k.
        let (x, e) = get_elem?-lt xs (rng.intn k (length xs)) (is_rng.intn_lt k (length xs) lt) in
        (x, suc k, rw (e, choose_from) refl, All-get_elem? P xs _ x all e);
  }

  Yields-swapped :
      {A : Type 0} (xs : List A) (i j : ℕ)
      → i < length xs
      → j < length xs
      → Yields (swapped xs i j) (λ ys. IsRearranged ys xs)
  unfolding swapped
  Yields-swapped xs i j li lj =
      let (ys, e, same) = swap-IsRearranged xs i j li lj in
      record { at = λ k. (ys, k, rw (e, swapped) refl, same) }

  Yields-shuffle_loop :
      {A : Type 0} (i : ℕ) (xs : List A)
      → i ≤ length xs - 1
      → Yields (shuffle_loop rng i xs) (λ ys. IsRearranged ys xs)
  unfolding shuffle_loop
  Yields-shuffle_loop zero xs le = Yields-pure xs _ λ p. refl
  Yields-shuffle_loop (suc i) xs le =
      Yields-bind (intn rng (suc i + 1)) _ _ _ (Yields-intn (suc i + 1) (omega arith)) λ j lt.
        Yields-bind (swapped xs (suc i) j) _ _ _
          (Yields-swapped xs (suc i) j (omega arith) (omega arith))
          λ ys same.
            Yields-mono (shuffle_loop rng i ys) _ _ (λ zs e p. e p ∙ same p)
              (Yields-shuffle_loop i ys (omega (arith, length-IsRearranged ys xs same)))

  pub Yields-shuffle :
      {A : Type 0} (xs : List A) → Yields (shuffle rng xs) (λ ys. IsRearranged ys xs)
  unfolding shuffle
  Yields-shuffle xs = Yields-shuffle_loop (length xs - 1) xs (omega arith)
