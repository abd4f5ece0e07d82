-- ===== src/Orchestrator/Plan.antt =====
-- planRetryAttempt of internal/orchestrator/orchestrator.go.
pub mod Total
use mathlib.Core.Option
use smart_retry_orchestrator.Common.{none, some}
use smart_retry_orchestrator.Domain.Enums.{
  ProcessorName, RetryStrategy, is_down, do_not_retry, immediate, delayed, alternative_processor,
}
use smart_retry_orchestrator.Float.{Float64}
use smart_retry_orchestrator.Orchestrator.State.{
  Env, pure, gets, Action, ◌>>=◌, health_of, time_now,
}
use smart_retry_orchestrator.Common.{String, ℕ, Option, some, false, ◌+◌, if◌then◌else◌, none}
use smart_retry_orchestrator.Domain.Models.{
  Time, FailureEvent, Transaction, ProcessorHealthSnapshot, RetryAttempt, ClassificationResult,
  processor_cost,
}
use smart_retry_orchestrator.Orchestrator.Select.{select_best_alternative}
use smart_retry_orchestrator.Orchestrator.Adaptive.{get_adaptive_rate}
use smart_retry_orchestrator.Orchestrator.Reasoning.{
  immediate_rerouted_reasoning, immediate_same_reasoning, delayed_rerouted_reasoning,
  delayed_same_reasoning, alternative_reasoning,
}

-- What the switch over the strategy sets.
pub record Route (F : Type 0) : Type 0 where
  pub target_processor : ProcessorName
  pub delay_seconds : F
  pub reasoning : String

module _ {F : Type 0} ⦃fl : Float64 F⦄ where
  abbrev pub delayed_retry_seconds : F
  delayed_retry_seconds = fl.lit 30 1

  unfoldable pub attempt_of : Time → ℕ → RetryStrategy → Route F → RetryAttempt F
  attempt_of now attempt_num strategy route = record {
    attempt_number = attempt_num;
    processor = route.target_processor;
    strategy = strategy;
    success = false;
    cost = processor_cost route.target_processor;
    delay_seconds = route.delay_seconds;
    reasoning = route.reasoning;
    timestamp = now;
  }

  abbrev pub route : ProcessorName → F → String → Route F
  route p d r = record { target_processor = p; delay_seconds = d; reasoning = r }

  module _ ⦃env : Env F⦄ where
    -- the alternative that was selected, its health and its adaptive rate
    unfoldable pub route_to :
        F
        → FailureEvent F
        → (ProcessorName → ProcessorHealthSnapshot F → F → String)
        → Option ProcessorName
        → Action F (Option (Route F))
    unfolding pure gets
    route_to delay event text none = pure none
    route_to delay event text (some target) = do
      alt_health ← health_of target
      rate ← gets (λ s. get_adaptive_rate event.failure_code target s.adaptive_data)
      pure (some (route target delay (text target alt_health rate)))

    unfoldable pub via_alternative :
        F
        → FailureEvent F
        → (ProcessorName → ProcessorHealthSnapshot F → F → String)
        → Action F (Option (Route F))
    unfolding route_to
    via_alternative delay event text = do
      alt ← select_best_alternative event.processor event.failure_code
      route_to delay event text alt

    -- the switch; a strategy that has no case leaves the zero values
    unfoldable pub plan_route :
        ℕ → RetryStrategy → FailureEvent F → ProcessorHealthSnapshot F → Action F (Option (Route F))
    unfolding pure via_alternative
    plan_route n do_not_retry event original = pure (some (route "" (fl.lit 0 1) ""))
    plan_route n immediate event original =
        if is_down original.state
        then via_alternative (fl.lit 0 1) event (immediate_rerouted_reasoning event original)
        else pure
            (some (route event.processor (fl.lit 0 1) (immediate_same_reasoning event original n)))
    plan_route n delayed event original =
        if is_down original.state
        then via_alternative delayed_retry_seconds event (λ target alt rate.
          delayed_rerouted_reasoning delayed_retry_seconds event original target alt)
        else pure (
            some (
              route event.processor delayed_retry_seconds
                (delayed_same_reasoning delayed_retry_seconds event original n)))
    plan_route n alternative_processor event original =
        via_alternative (fl.lit 0 1) event (alternative_reasoning event original)

    unfoldable pub plan_retry_attempt :
        Transaction F → FailureEvent F → ClassificationResult → Action F (Option (RetryAttempt F))
    unfolding pure plan_route attempt_of
    plan_retry_attempt tx event classification = do
      now ← time_now
      original_health ← health_of event.processor
      planned ← plan_route (tx.retry_count + 1) classification.strategy event original_health
      pure (Option.map (attempt_of now (tx.retry_count + 1) classification.strategy) planned)
