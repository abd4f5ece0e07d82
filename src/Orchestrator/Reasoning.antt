-- ===== src/Orchestrator/Reasoning.antt =====
-- The texts that internal/orchestrator/orchestrator.go builds by fmt.Sprintf for planRetryAttempt
-- and buildChainReasoning.
pub mod Narrative
use smart_retry_orchestrator.Float.{Float64}
use smart_retry_orchestrator.Common.{ℕ, String, ◌∷◌, []}
use smart_retry_orchestrator.Domain.Models.{FailureEvent, ProcessorHealthSnapshot, processor_cost}
use smart_retry_orchestrator.Domain.Enums.{ProcessorName, state_text}
use smart_retry_orchestrator.Common.Text.{concat, decimal}

abbrev pub max_retries : ℕ
max_retries = 3

module _ {F : Type 0} ⦃fl : Float64 F⦄ where
  abbrev percent : F → F
  percent rate = fl.mul rate (fl.lit 100 1)

  unfoldable pub immediate_rerouted_reasoning :
      FailureEvent F
      → ProcessorHealthSnapshot F
      → ProcessorName
      → ProcessorHealthSnapshot F
      → F
      → String
  immediate_rerouted_reasoning event original target alt rate = concat (
      "Immediate retry rerouted: original processor "
      ∷ event.processor
      ∷ " is DOWN (failure rate: "
      ∷ fl.fixed 0 (percent original.failure_rate)
      ∷ "%, "
      ∷ decimal original.failures
      ∷ " failures in "
      ∷ decimal original.total_events
      ∷ " events). Selected "
      ∷ target
      ∷ " as alternative (state: "
      ∷ (state_text alt.state)
      ∷ ", failure rate: "
      ∷ fl.fixed 0 (percent alt.failure_rate)
      ∷ "%, cost: $"
      ∷ fl.fixed 2 (processor_cost target)
      ∷ "). Adaptive success rate for "
      ∷ event.failure_code
      ∷ " on "
      ∷ target
      ∷ ": "
      ∷ fl.fixed 0 (percent rate)
      ∷ "%."
      ∷ [])

  unfoldable pub immediate_same_reasoning : FailureEvent F → ProcessorHealthSnapshot F → ℕ → String
  immediate_same_reasoning event original attempt_num = concat (
      "Immediate retry on same processor "
      ∷ event.processor
      ∷ " — transient failure likely resolved. Processor state: "
      ∷ (state_text original.state)
      ∷ " (failure rate: "
      ∷ fl.fixed 0 (percent original.failure_rate)
      ∷ "%, "
      ∷ decimal original.total_events
      ∷ " events in window, cost: $"
      ∷ fl.fixed 2 (processor_cost event.processor)
      ∷ "). Attempt "
      ∷ decimal attempt_num
      ∷ " of "
      ∷ decimal max_retries
      ∷ "."
      ∷ [])

  unfoldable pub delayed_rerouted_reasoning :
      F
      → FailureEvent F
      → ProcessorHealthSnapshot F
      → ProcessorName
      → ProcessorHealthSnapshot F
      → String
  delayed_rerouted_reasoning delay event original target alt = concat (
      "Delayed retry ("
      ∷ fl.fixed 0 delay
      ∷ "s wait) rerouted: original processor "
      ∷ event.processor
      ∷ " is DOWN (failure rate: "
      ∷ fl.fixed 0 (percent original.failure_rate)
      ∷ "%). After delay, routing to "
      ∷ target
      ∷ " (state: "
      ∷ (state_text alt.state)
      ∷ ", failure rate: "
      ∷ fl.fixed 0 (percent alt.failure_rate)
      ∷ "%, cost: $"
      ∷ fl.fixed 2 (processor_cost target)
      ∷ "). Delay allows rate-limit window to reset before attempting on healthier processor."
      ∷ [])

  unfoldable pub delayed_same_reasoning :
      F → FailureEvent F → ProcessorHealthSnapshot F → ℕ → String
  delayed_same_reasoning delay event original attempt_num = concat (
      "Delayed retry ("
      ∷ fl.fixed 0 delay
      ∷ "s wait) on same processor "
      ∷ event.processor
      ∷ " — rate limit likely caused the decline. Processor state: "
      ∷ (state_text original.state)
      ∷ " (failure rate: "
      ∷ fl.fixed 0 (percent original.failure_rate)
      ∷ "%, cost: $"
      ∷ fl.fixed 2 (processor_cost event.processor)
      ∷ "). The "
      ∷ fl.fixed 0 delay
      ∷ "-second delay allows the processor's rate-limit window to reset. Attempt "
      ∷ decimal attempt_num
      ∷ " of "
      ∷ decimal max_retries
      ∷ "."
      ∷ [])

  unfoldable pub alternative_reasoning :
      FailureEvent F
      → ProcessorHealthSnapshot F
      → ProcessorName
      → ProcessorHealthSnapshot F
      → F
      → String
  alternative_reasoning event original target alt rate = concat (
      "Alternative processor retry: original "
      ∷ event.processor
      ∷ " declined with "
      ∷ event.failure_code
      ∷ " (state: "
      ∷ (state_text original.state)
      ∷ ", failure rate: "
      ∷ fl.fixed 0 (percent original.failure_rate)
      ∷ "%). Routing to "
      ∷ target
      ∷ " (state: "
      ∷ (state_text alt.state)
      ∷ ", failure rate: "
      ∷ fl.fixed 0 (percent alt.failure_rate)
      ∷ "%, cost: $"
      ∷ fl.fixed 2 (processor_cost target)
      ∷ ") — a different acquiring path may bypass the issuer-side block. Adaptive success rate for "
      ∷ event.failure_code
      ∷ " on "
      ∷ target
      ∷ ": "
      ∷ fl.fixed 0 (percent rate)
      ∷ "%."
      ∷ [])
