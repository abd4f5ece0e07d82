-- ===== src/Concurrent/Rounds.antt =====
-- How many calls ProcessFailure (internal/orchestrator/orchestrator.go) makes, whatever other requests
-- do in between.
use smart_retry_orchestrator.Float.{Float64}
use smart_retry_orchestrator.Orchestrator.State.{Action, Env}
use smart_retry_orchestrator.Concurrent.Calls.{Calls, Call}
use smart_retry_orchestrator.Common.{
  ℕ, ◌≤◌, ◌+◌, String, Option, arith, ◌*◌, some, none, Bool, suc, true, false, zero,
}
use smart_retry_orchestrator.Concurrent.Orchestrated.{
  retry_loop_calls, after_plan_calls, after_attempt_calls, process_soft_calls, or_wrap_calls,
  plan_calls, process_hard_calls, recover_calls, attempt_calls, exhaust_calls,
  process_failure_calls,
}
use smart_retry_orchestrator.Domain.Enums.{retrying}
use smart_retry_orchestrator.Domain.Models.{
  FailureEvent, Transaction, ClassificationResult, RetryAttempt,
}
use smart_retry_orchestrator.Orchestrator.Retry.{new_transaction, retry_loop}
use smart_retry_orchestrator.Classifier.{Classifier}
use smart_retry_orchestrator.Domain.Errors.{Result, err, ok}
use smart_retry_orchestrator.Orchestrator.Process.{is_hard}
use smart_retry_orchestrator.Concurrent.Bounded.{Takes, Takes-le, Takes-calls_if, Takes-widen}
use smart_retry_orchestrator.Orchestrator.Reasoning.{max_retries}
use smart_retry_orchestrator.Concurrent.Planned.{plan-Takes, attempt-Takes}

module _ {F : Type 0} ⦃fl : Float64 F⦄ ⦃env : Env F⦄ where
  exhaust-Takes : (tx : Transaction F) → Takes 3 (exhaust_calls tx)
  unfolding exhaust_calls
  exhaust-Takes tx =
      (1, 2, omega arith, omega arith, λ _. (1, 1, omega arith, omega arith, λ _. omega arith))

  recover-Takes : (tx : Transaction F) → Takes 3 (recover_calls tx)
  unfolding recover_calls
  recover-Takes tx =
      (1, 2, omega arith, omega arith, λ _. (1, 1, omega arith, omega arith, λ _. omega arith))

  after_attempt-Takes :
      (next : Transaction F → Action F (Transaction F)) (n : ℕ) (success : Bool)
      (tx : Transaction F) (k : (t : Transaction F) → Calls Call (Transaction F) (next t))
      → 3 ≤ n
      → ((t : Transaction F) → Takes n (k t))
      → Takes n (after_attempt_calls next success tx k)
  unfolding after_attempt_calls
  after_attempt-Takes next n true tx k le h = Takes-le 3 n (recover_calls tx) le (recover-Takes tx)
  after_attempt-Takes next n false tx k le h = h tx

  after_plan-Takes :
      (next : Transaction F → Action F (Transaction F)) (n : ℕ) (tx : Transaction F)
      (event : FailureEvent F) (planned : Option (RetryAttempt F))
      (k : (t : Transaction F) → Calls Call (Transaction F) (next t))
      → 3 ≤ n
      → ((t : Transaction F) → Takes n (k t))
      → Takes (8 + n) (after_plan_calls next tx event planned k)
  unfolding after_plan_calls
  after_plan-Takes next n tx event none k le h =
      Takes-le 3 (8 + n) (exhaust_calls tx) (omega (arith, le)) (exhaust-Takes tx)
  after_plan-Takes next n tx event (some planned) k le h = (
    8,
    n,
    omega arith,
    Takes-widen 8 (attempt_calls tx event planned) (attempt-Takes tx event planned),
    λ r. after_attempt-Takes next n r.0 r.1 k le h,
  )

  -- Twenty-five steps for each round that is left, and three for the end.
  retry_loop-Takes :
      (rounds : ℕ) (tx : Transaction F) (event : FailureEvent F) (c : ClassificationResult)
      → Takes (25 * rounds + 3) (retry_loop_calls rounds tx event c)
  unfolding retry_loop_calls
  retry_loop-Takes zero tx event c = exhaust-Takes tx
  retry_loop-Takes (suc rounds) tx event c =
      let n = 25 * rounds + 3 in
      (
        17,
        8 + n,
        omega arith,
        Takes-widen 17 (plan_calls tx event c) (plan-Takes tx event c),
        λ planned.
            after_plan-Takes (λ t. retry_loop rounds t event c) n tx event planned
              (λ t. retry_loop_calls rounds t event c) (omega arith)
              λ t. retry_loop-Takes rounds t event c,
      )

  or_wrap-Takes :
      {A : Type 0} {next : Action F (Result A)} (n : ℕ) (text : String) (r : Result (Unit {0}))
      (k : Calls Call (Result A) next)
      → 1 ≤ n
      → Takes n k
      → Takes n (or_wrap_calls text r k)
  unfolding or_wrap_calls
  or_wrap-Takes n text (err e) k le h = le
  or_wrap-Takes n text (ok _) k le h = h

  process_hard-Takes :
      (event : FailureEvent F) (c : ClassificationResult) → Takes 2 (process_hard_calls event c)
  unfolding process_hard_calls
  process_hard-Takes event c = (
    1,
    1,
    omega arith,
    omega arith,
    λ saved. or_wrap-Takes 1 _ saved _ (omega arith) (omega arith),
  )

  process_soft-Takes :
      (event : FailureEvent F) (c : ClassificationResult) → Takes 80 (process_soft_calls event c)
  unfolding process_soft_calls new_transaction
  process_soft-Takes event c =
      let loop = retry_loop-Takes max_retries (new_transaction retrying event c) event c in
      (
        1,
        79,
        omega arith,
        omega arith,
        λ saved.
            or_wrap-Takes 79 _ saved _ (omega arith) (78, 1, omega arith, loop, λ _. omega arith),
      )

  pub process_failure-Takes :
      ⦃cl : Classifier F⦄ → (event : FailureEvent F) → Takes 81 (process_failure_calls event)
  unfolding process_failure_calls
  process_failure-Takes ⦃cl⦄ event =
      let c = cl.classify event in
      let hard =
        Takes-le 2 80 (process_hard_calls event c) (omega arith) (process_hard-Takes event c) in
      (
        1,
        80,
        omega arith,
        omega arith,
        λ _.
            Takes-calls_if 80 (is_hard c.decline_type) (process_hard_calls event c)
              (process_soft_calls event c) hard (process_soft-Takes event c),
      )
