-- ===== src/Orchestrator/Retry.antt =====
-- executeRetryChain and simulateOutcome of internal/orchestrator/orchestrator.go. Each reading of the clock, draw, record, log and update
-- stands in its place.
pub mod Chain
pub mod Last
pub mod Loop
use smart_retry_orchestrator.Float.{Float64}
use smart_retry_orchestrator.Orchestrator.State.{
  Env, pure, Action, ◌>>=◌, time_now, ◌>>◌, update, record_health, health_of, log_decision,
  draw_float64,
}
use smart_retry_orchestrator.Domain.Models.{
  Transaction, Time, FailureEvent, RetryAttempt, RetryDecision, ClassificationResult,
}
use smart_retry_orchestrator.Domain.Enums.{
  FailureReasonCode, ProcessorName, exhausted, ProcessorState, TransactionStatus, recovered,
  healthy, degraded, down, processor_a, processor_b, processor_c,
}
use smart_retry_orchestrator.Common.{
  some, ◌++◌, ℕ, Bool, suc, [], none, ◌∷◌, ◌-◌, true, zero, false, ◌+◌, Option,
}
use smart_retry_orchestrator.Common.Dict.{lookup, Dict, get_or}
use smart_retry_orchestrator.Orchestrator.Reasoning.{max_retries}
use smart_retry_orchestrator.Orchestrator.Plan.{plan_retry_attempt}
use smart_retry_orchestrator.Orchestrator.Adaptive.{record_adaptive}

module _ {F : Type 0} ⦃fl : Float64 F⦄ where
  abbrev base_success_rates : Dict F
  base_success_rates =
      (processor_a, fl.lit 85 100)
      ∷ (processor_b, fl.lit 70 100)
      ∷ (processor_c, fl.lit 65 100)
      ∷ []

  -- processorBaseSuccessRate[p], or 0.75
  unfoldable pub base_success_rate : ProcessorName → F
  unfolding lookup
  base_success_rate p = get_or (fl.lit 75 100) (lookup p base_success_rates)

  unfoldable pub success_prob : F → ProcessorState → F
  success_prob base healthy = base
  success_prob base degraded = fl.mul base (fl.lit 50 100)
  success_prob base down = fl.mul base (fl.lit 15 100)

  -- the transaction after an attempt, before its outcome is looked at
  unfoldable pub add_attempt : Time → Transaction F → RetryAttempt F → Transaction F
  add_attempt now tx attempt = record tx {
    retry_attempts = tx.retry_attempts ++ attempt ∷ [];
    retry_count = tx.retry_count + 1;
    total_cost = fl.add tx.total_cost attempt.cost;
    updated_at = now;
  }

module _ {F : Type 0} where
  unfoldable pub mark_exhausted : Time → Transaction F → Transaction F
  mark_exhausted now tx = record tx { status = exhausted; updated_at = now }

  unfoldable pub mark_recovered : Time → Transaction F → Transaction F
  mark_recovered now tx = record tx {
    status = recovered;
    recovered_at = some now;
    updated_at = now;
  }

  unfoldable pub decision_of : Transaction F → FailureEvent F → RetryAttempt F → RetryDecision F
  decision_of tx event attempt = record {
    transaction_id = tx.id;
    attempt_number = attempt.attempt_number;
    source_processor = event.processor;
    target_processor = attempt.processor;
    strategy = attempt.strategy;
    reasoning = attempt.reasoning;
    delay_seconds = attempt.delay_seconds;
    timestamp = attempt.timestamp;
  }

  -- the transaction that ProcessFailure creates
  unfoldable pub new_transaction :
      ⦃fl : Float64 F⦄ → TransactionStatus → FailureEvent F → ClassificationResult → Transaction F
  new_transaction ⦃fl⦄ status event classification = record {
    id = event.transaction_id;
    original_event = event;
    classification = classification;
    status = status;
    retry_count = 0;
    max_retries = max_retries;
    retry_attempts = [];
    total_cost = fl.lit 0 1;
    created_at = event.timestamp;
    updated_at = event.timestamp;
    recovered_at = none;
  }

  -- recordAdaptive
  unfoldable pub record_retry : FailureReasonCode → ProcessorName → Bool → Action F (Unit {0})
  record_retry code processor success s =
      (tt, record s { adaptive_data = record_adaptive code processor success s.adaptive_data })

  module _ ⦃env : Env F⦄ where
    -- the two ends of executeRetryChain; the error of UpdateTransaction is dropped
    unfoldable pub exhaust : Transaction F → Action F (Transaction F)
    unfolding pure
    exhaust tx = do now ← time_now; update (mark_exhausted now tx); pure (mark_exhausted now tx)

    unfoldable pub recover : Transaction F → Action F (Transaction F)
    unfolding pure
    recover tx = do now ← time_now; update (mark_recovered now tx); pure (mark_recovered now tx)

module _ {F : Type 0} ⦃fl : Float64 F⦄ ⦃env : Env F⦄ where
  unfoldable pub simulate_outcome : ProcessorName → Action F Bool
  unfolding pure
  simulate_outcome processor = do
    h ← health_of processor
    x ← draw_float64
    pure (fl.lt x (success_prob (base_success_rate processor) h.state))

  -- one attempt, from the simulation to the decision log: its success, and the transaction
  unfoldable pub attempt_retry :
      Transaction F → FailureEvent F → RetryAttempt F → Action F (Bool × Transaction F)
  unfolding pure
  attempt_retry tx event planned = do
    success ← simulate_outcome planned.processor
    now ← time_now
    let attempt : RetryAttempt F = record planned { success = success }
    record_health attempt.processor success attempt.timestamp
    record_retry event.failure_code attempt.processor success
    log_decision (decision_of tx event attempt)
    pure (success, add_attempt now tx attempt)

  unfoldable pub after_attempt :
      (Transaction F → Action F (Transaction F)) → Bool → Transaction F → Action F (Transaction F)
  after_attempt next true tx = recover tx
  after_attempt next false tx = next tx

  -- the rest of a round: `next` is the next round
  unfoldable pub after_plan :
      (Transaction F → Action F (Transaction F))
      → Transaction F
      → FailureEvent F
      → Option (RetryAttempt F)
      → Action F (Transaction F)
  unfolding after_attempt
  after_plan next tx event none = exhaust tx
  after_plan next tx event (some planned) = do
    (success, tx') ← attempt_retry tx event planned
    after_attempt next success tx'

  -- the loop, with the rounds left until RetryCount is maxRetries
  unfoldable pub retry_loop :
      ℕ → Transaction F → FailureEvent F → ClassificationResult → Action F (Transaction F)
  unfolding after_plan
  retry_loop zero tx event classification = exhaust tx
  retry_loop (suc rounds) tx event classification = do
    planned ← plan_retry_attempt tx event classification
    after_plan (λ tx'. retry_loop rounds tx' event classification) tx event planned

  unfoldable pub execute_retry_chain :
      Transaction F → FailureEvent F → ClassificationResult → Action F (Transaction F)
  unfolding retry_loop
  execute_retry_chain tx = retry_loop (max_retries - tx.retry_count) tx
