-- ===== src/Concurrent/Kept.antt =====
-- ProcessFailure (internal/orchestrator/orchestrator.go) for what follows it, and the generator of
-- cmd/server/main.go, while other requests are served.
use smart_retry_orchestrator.Float.{Float64}
use smart_retry_orchestrator.Orchestrator.State.{Action, Env}
use smart_retry_orchestrator.Concurrent.Calls.{
  Calls, Call, call, return, then_, light, saving, updating, fetching, emptying,
}
use smart_retry_orchestrator.Concurrent.Keeping.{KeepsLight-mono, Keeps}
use smart_retry_orchestrator.Concurrent.Told.{IsTold, Keeps-process_failure}
use smart_retry_orchestrator.Domain.Errors.{Result, ok, is_duplicate, err}
use smart_retry_orchestrator.Domain.Models.{FailureEvent, Time, ProcessFailureResult}
use smart_retry_orchestrator.Classifier.{Classifier}
use smart_retry_orchestrator.Common.{List, ℕ, ◌∷◌, [], ◌≡◌, refl}
use smart_retry_orchestrator.Concurrent.Orchestrated.{process_failure_calls}
use smart_retry_orchestrator.Concurrent.Handled.{
  generator_calls, process_events_calls, reset_calls, time_calls,
}
use smart_retry_orchestrator.Server.{count_if_ok}
use smart_retry_orchestrator.Service.Answers.{IsDuplicateIfError}

module _ {F : Type 0} ⦃fl : Float64 F⦄ ⦃env : Env F⦄ where
  pub Keeps-mono :
      {A : Type 0} {m : Action F A} (c : Calls Call A m) (P Q : A → Type 0)
      → Keeps c P
      → ((a : A) → P a → Q a)
      → Keeps c Q
  Keeps-mono (call (light A m k)) P Q h f = KeepsLight-mono k P Q h f
  Keeps-mono (call (saving tx)) P Q h f = (h.0, f _ h.1, f _ h.2)
  Keeps-mono (call (updating tx)) P Q h f = (h.0, f _ h.1, f _ h.2)
  Keeps-mono (call (fetching id)) P Q h f = λ r fetched. f r (h r fetched)
  Keeps-mono (call emptying) P Q h f = f tt h
  Keeps-mono (return a) P Q h f = f a h
  Keeps-mono (then_ c k) P Q h f =
      Keeps-mono c (λ a. Keeps (k a) P) (λ a. Keeps (k a) Q) h λ a. λ g. Keeps-mono (k a) P Q g f

  -- Whatever the request returns.
  abbrev pub IsHarmless : {A : Type 0} {m : Action F A} → Calls Call A m → Type 0
  IsHarmless c = Keeps c (λ _. Unit {0})

module _ {F : Type 0} ⦃fl : Float64 F⦄ ⦃env : Env F⦄ ⦃cl : Classifier F⦄ where
  IsTold-IsDuplicateIfError :
      (event : FailureEvent F) (r : Result (ProcessFailureResult F))
      → IsTold event r
      → IsDuplicateIfError r
  unfolding is_duplicate
  IsTold-IsDuplicateIfError event (err e) told = rw told refl
  IsTold-IsDuplicateIfError event (ok res) told = tt

  -- What holds after ProcessFailure, whatever it answers, where an error is the duplicate error.
  pub process_failure-then :
      (event : FailureEvent F) (Holds : Result (ProcessFailureResult F) → Type 0)
      → ((r : Result (ProcessFailureResult F)) → IsDuplicateIfError r → Holds r)
      → Keeps (process_failure_calls event) Holds
  process_failure-then event Holds h =
      Keeps-mono (process_failure_calls event) (IsTold event) Holds (Keeps-process_failure event)
        λ r told. h r (IsTold-IsDuplicateIfError event r told)

  IsHarmless-process_events :
      (events : List (FailureEvent F)) (n : ℕ) → IsHarmless (process_events_calls events n)
  unfolding process_events_calls
  IsHarmless-process_events [] n = tt
  IsHarmless-process_events (event ∷ rest) n =
      process_failure-then event _ λ result _. IsHarmless-process_events rest (count_if_ok result n)

  -- The generator returns no error.
  pub Keeps-generator :
      (generate_events : Time → List (FailureEvent F))
      → Keeps (generator_calls generate_events) (λ r. (n : ℕ) × (r ≡ ok n))
  unfolding generator_calls reset_calls time_calls
  Keeps-generator generate_events = λ _ now.
      Keeps-mono (process_events_calls (generate_events now) 0) _ _
        (IsHarmless-process_events (generate_events now) 0) λ n _. (n, refl)
