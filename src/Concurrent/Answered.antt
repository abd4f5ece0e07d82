-- ===== src/Concurrent/Answered.antt =====
-- ProcessFailure (internal/orchestrator/orchestrator.go) from its call to its answer, while other
-- requests are served.
use smart_retry_orchestrator.Float.{Float64}
use smart_retry_orchestrator.Orchestrator.State.{System, Env}
use smart_retry_orchestrator.Concurrent.Calls.{Rest, more, done, step}
use smart_retry_orchestrator.Concurrent.Lasting.{IsConsistent}
use smart_retry_orchestrator.Concurrent.Keeping.{KeepsOn, step-KeepsOn}
use smart_retry_orchestrator.Concurrent.Bounded.{drive, drive_ends}
use smart_retry_orchestrator.Concurrent.Told.{IsTold, Keeps-process_failure}
use smart_retry_orchestrator.Classifier.{Classifier}
use smart_retry_orchestrator.Common.{List, All, ◌∷◌, [], ◌≤◌, length, ◌≡◌}
use smart_retry_orchestrator.Domain.Models.{FailureEvent, ProcessFailureResult}
use smart_retry_orchestrator.Domain.Errors.{Result}
use smart_retry_orchestrator.Concurrent.Orchestrated.{process_failure_calls}
use smart_retry_orchestrator.Concurrent.Rounds.{process_failure-Takes}
use mathlib.Core.Path.{subst}

module _ {F : Type 0} ⦃fl : Float64 F⦄ ⦃env : Env F⦄ where
  drive-KeepsOn :
      {A : Type 0} (r : Rest F A) (states : List (System F)) (Holds : A → Type 0)
      → All IsConsistent states
      → KeepsOn r Holds
      → KeepsOn (drive r states) Holds
  unfolding drive
  drive-KeepsOn r [] Holds all h = h
  drive-KeepsOn (done a) (s ∷ states) Holds all h = h
  drive-KeepsOn (more c) (s ∷ states) Holds (o, all) h =
      drive-KeepsOn (step c s).0 states Holds all (step-KeepsOn c s Holds o h).1

  -- However other requests leave the state before each of its steps, as long as they leave it
  -- consistent: ProcessFailure returns after at most 81 steps of its own. It answers with the duplicate
  -- error; or, for a hard decline, as hard declines are answered; or, for a soft decline, with the end
  -- of a chain of at most three attempts, numbered from 1, which its count and cost sum up: RECOVERED
  -- if the last one succeeded, after the others failed, or EXHAUSTED if all failed.
  pub process_failure_ends :
      ⦃cl : Classifier F⦄
      → (event : FailureEvent F) (states : List (System F)) → All IsConsistent states
      → 81 ≤ length states
      → (answer : Result (ProcessFailureResult F)) × (drive
            (more (process_failure_calls event))
            states
          ≡ done answer)
        × IsTold event answer
  process_failure_ends event states all enough =
      let c = process_failure_calls event in
      let (answer, ends) = drive_ends 81 (more c) states (process_failure-Takes event) enough in
      let told = drive-KeepsOn (more c) states (IsTold event) all (Keeps-process_failure event) in
      (answer, ends, subst (λ r. KeepsOn r (IsTold event)) ends told)
