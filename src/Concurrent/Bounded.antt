-- ===== src/Concurrent/Bounded.antt =====
-- A request (internal/api/handler.go) that makes a bounded number of calls ends, whatever other requests
-- do in between.
use smart_retry_orchestrator.Float.{Float64}
use smart_retry_orchestrator.Orchestrator.State.{System, Action, Env}
use smart_retry_orchestrator.Concurrent.Calls.{
  Calls, LightCall, Call, Rest, more, done, call, return, then_, step, widen, and_then, calls_if,
}
use smart_retry_orchestrator.Common.{
  ℕ, ◌≤◌, ◌+◌, ◌≡◌, List, [], ◌∷◌, length, arith, refl, Bool, true, false, ◌-◌,
}

module _ {F : Type 0} where
  -- At most so many steps, whatever the answers.
  abbrev pub Takes :
      {Kind : (A : Type 0) → Action F A → Type 1} {A : Type 0} {m : Action F A}
      → ℕ
      → Calls Kind A m
      → Type 0
  Takes n (call k) = 1 ≤ n
  Takes n (return a) = 1 ≤ n
  Takes n (then_ {A} c k) =
      (first : ℕ) × (rest : ℕ) × (first + rest ≤ n) × Takes first c × ((a : A) → Takes rest (k a))

module _ {F : Type 0} {Kind : (A : Type 0) → Action F A → Type 1} where
  pub Takes-le :
      {A : Type 0} {m : Action F A} (n k : ℕ) (c : Calls Kind A m) → n ≤ k → Takes n c → Takes k c
  Takes-le n k (call x) le h = omega (arith, le, h)
  Takes-le n k (return a) le h = omega (arith, le, h)
  Takes-le n k (then_ c f) le (first, rest, sum, h, g) = (first, rest, omega (arith, le, sum), h, g)

  Takes-positive : {A : Type 0} {m : Action F A} (n : ℕ) (c : Calls Kind A m) → Takes n c → 1 ≤ n
  Takes-positive n (call k) h = h
  Takes-positive n (return a) h = h
  Takes-positive n (then_ c k) (first, rest, sum, h, g) =
      omega (arith, sum, Takes-positive first c h)

  pub Takes-calls_if :
      {A : Type 0} {m n : Action F A} (k : ℕ) (b : Bool) (c : Calls Kind A m) (d : Calls Kind A n)
      → Takes k c
      → Takes k d
      → Takes k (calls_if b c d)
  unfolding calls_if
  Takes-calls_if k true c d h g = h
  Takes-calls_if k false c d h g = g

module _ {F : Type 0} ⦃fl : Float64 F⦄ ⦃env : Env F⦄ where
  pub Takes-widen :
      {A : Type 0} {m : Action F A} (n : ℕ) (c : Calls LightCall A m)
      → Takes n c
      → Takes n (widen c)
  unfolding widen
  Takes-widen n (call k) h = h
  Takes-widen n (return a) h = h
  Takes-widen n (then_ c k) (first, rest, sum, h, g) =
      (first, rest, sum, Takes-widen first c h, λ a. Takes-widen rest (k a) (g a))

  -- A request that makes its calls one after the other; `states` are the states that it finds, as the
  -- other requests have left them.
  unfoldable pub drive : {A : Type 0} → Rest F A → List (System F) → Rest F A
  unfolding step
  drive r [] = r
  drive (done a) (s ∷ states) = done a
  drive (more c) (s ∷ states) = drive (step c s).0 states

  abbrev pub TakesRest : {A : Type 0} → ℕ → Rest F A → Type 0
  TakesRest n (done a) = Unit
  TakesRest n (more c) = Takes n c

  TakesRest-le : {A : Type 0} (n k : ℕ) (r : Rest F A) → n ≤ k → TakesRest n r → TakesRest k r
  TakesRest-le n k (done a) le h = tt
  TakesRest-le n k (more c) le h = Takes-le n k c le h

  TakesRest-and_then :
      {A B : Type 0} (first rest : ℕ) (f : A → Action F B) (r : Rest F A)
      (k : (a : A) → Calls Call B (f a))
      → TakesRest first r
      → ((a : A) → Takes rest (k a))
      → TakesRest (first + rest) (and_then f r k)
  TakesRest-and_then first rest f (done a) k h g =
      Takes-le rest (first + rest) (k a) (omega arith) (g a)
  TakesRest-and_then first rest f (more c) k h g = (first, rest, omega arith, h, g)

  -- A step leaves one step less.
  step-TakesRest :
      {A : Type 0} {m : Action F A} (n : ℕ) (c : Calls Call A m) (s : System F)
      → Takes n c
      → TakesRest (n - 1) (step c s).0
  unfolding step
  step-TakesRest n (call k) s h = tt
  step-TakesRest n (return a) s h = tt
  step-TakesRest n (then_ {f} c k) s (first, rest, sum, h, g) =
      TakesRest-le (first - 1 + rest) (n - 1) (and_then f (step c s).0 k)
        (omega (arith, sum, Takes-positive first c h))
        (TakesRest-and_then (first - 1) rest f (step c s).0 k (step-TakesRest first c s h) g)

  pub drive_ends :
      {A : Type 0} (n : ℕ) (r : Rest F A) (states : List (System F))
      → TakesRest n r
      → n ≤ length states
      → (a : A) × (drive r states ≡ done a)
  unfolding drive
  drive_ends n (done a) [] h le = (a, refl)
  drive_ends n (done a) (s ∷ states) h le = (a, refl)
  drive_ends n (more c) [] h le = absurd (omega (arith, le, Takes-positive n c h))
  drive_ends n (more c) (s ∷ states) h le =
      drive_ends (n - 1) (step c s).0 states (step-TakesRest n c s h)
        (omega (arith, le, Takes-positive n c h))
