-- ===== src/Concurrent/Planned.antt =====
-- How many calls planRetryAttempt and an attempt (internal/orchestrator/orchestrator.go) make.
use smart_retry_orchestrator.Float.{Float64}
use smart_retry_orchestrator.Orchestrator.State.{Env}
use smart_retry_orchestrator.Common.{
  ℕ, ◌+◌, List, [], String, Option, arith, ◌*◌, length, ◌∷◌, str_eq, some, none,
}
use smart_retry_orchestrator.Concurrent.Orchestrated.{
  collect_candidates_calls, via_alternative_calls, select_calls, route_to_calls, plan_calls,
  attempt_calls, plan_route_calls,
}
use smart_retry_orchestrator.Domain.Enums.{
  ProcessorName, FailureReasonCode, all_processors, RetryStrategy, is_down, do_not_retry, immediate,
  delayed, alternative_processor,
}
use smart_retry_orchestrator.Domain.Models.{
  FailureEvent, ProcessorHealthSnapshot, Transaction, ClassificationResult, RetryAttempt,
}
use smart_retry_orchestrator.Concurrent.Bounded.{Takes, Takes-le, Takes-calls_if}

module _ (F : Type 0) ⦃fl : Float64 F⦄ ⦃env : Env F⦄ where
  -- Three calls for each processor that is looked at.
  collect_candidates-Takes :
      (exclude : ProcessorName) (code : FailureReasonCode) (ps : List ProcessorName)
      → Takes {F = F} (1 + 3 * length ps) (collect_candidates_calls exclude code ps)
  unfolding collect_candidates_calls
  collect_candidates-Takes exclude code [] = omega arith
  collect_candidates-Takes exclude code (p ∷ rest) =
      let later = collect_candidates_calls {F = F} exclude code rest in
      let n = 3 * length rest in
      let h : Takes (1 + n) later = collect_candidates-Takes exclude code rest in
      Takes-calls_if (1 + 3 * length (p ∷ rest)) (str_eq p exclude) later _
        (Takes-le (1 + n) _ later (omega arith) h)
        (
          1,
          3 + n,
          omega arith,
          omega arith,
          λ _. (
            1,
            2 + n,
            omega arith,
            omega arith,
            λ _. (1 + n, 1, omega arith, h, λ _. omega arith),
          ),
        )

module _ {F : Type 0} ⦃fl : Float64 F⦄ ⦃env : Env F⦄ where
  route_to-Takes :
      (delay : F) (event : FailureEvent F)
      (text : ProcessorName → ProcessorHealthSnapshot F → F → String) (alt : Option ProcessorName)
      → Takes 3 (route_to_calls delay event text alt)
  unfolding route_to_calls
  route_to-Takes delay event text none = omega arith
  route_to-Takes delay event text (some target) =
      (1, 2, omega arith, omega arith, λ _. (1, 1, omega arith, omega arith, λ _. omega arith))

  via_alternative-Takes :
      (delay : F) (event : FailureEvent F)
      (text : ProcessorName → ProcessorHealthSnapshot F → F → String)
      → Takes 14 (via_alternative_calls delay event text)
  unfolding via_alternative_calls select_calls
  via_alternative-Takes delay event text =
      let collected =
        collect_candidates-Takes F event.processor event.failure_code all_processors in
      (
        11,
        3,
        omega arith,
        (10, 1, omega arith, collected, λ _. omega arith),
        route_to-Takes delay event text,
      )

  plan_route-Takes :
      (n : ℕ) (strategy : RetryStrategy) (event : FailureEvent F)
      (original : ProcessorHealthSnapshot F)
      → Takes 14 (plan_route_calls n strategy event original)
  unfolding plan_route_calls
  plan_route-Takes n do_not_retry event original = omega arith
  plan_route-Takes n immediate event original =
      Takes-calls_if 14 (is_down original.state) _ _ (via_alternative-Takes _ event _) (omega arith)
  plan_route-Takes n delayed event original =
      Takes-calls_if 14 (is_down original.state) _ _ (via_alternative-Takes _ event _) (omega arith)
  plan_route-Takes n alternative_processor event original = via_alternative-Takes _ event _

  pub plan-Takes :
      (tx : Transaction F) (event : FailureEvent F) (c : ClassificationResult)
      → Takes 17 (plan_calls tx event c)
  unfolding plan_calls
  plan-Takes tx event c = (
    1,
    16,
    omega arith,
    omega arith,
    λ now. (
      1,
      15,
      omega arith,
      omega arith,
      λ original. (
        14,
        1,
        omega arith,
        plan_route-Takes (tx.retry_count + 1) c.strategy event original,
        λ _. omega arith,
      ),
    ),
  )

  pub attempt-Takes :
      (tx : Transaction F) (event : FailureEvent F) (planned : RetryAttempt F)
      → Takes 8 (attempt_calls tx event planned)
  unfolding attempt_calls
  attempt-Takes tx event planned = (
    3,
    5,
    omega arith,
    omega arith,
    λ success. (
      1,
      4,
      omega arith,
      omega arith,
      λ now. (
        1,
        3,
        omega arith,
        omega arith,
        λ _. (
          1,
          2,
          omega arith,
          omega arith,
          λ _. (1, 1, omega arith, omega arith, λ _. omega arith),
        ),
      ),
    ),
  )
