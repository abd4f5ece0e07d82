-- ===== src/Orchestrator/Process.antt =====
-- ProcessFailure and RecordRetryOutcome of internal/orchestrator/orchestrator.go.
pub mod Saving
pub mod Outcomes
pub mod Reports
use smart_retry_orchestrator.Domain.Enums.{
  TransactionStatus, DeclineType, ProcessorName, hard_decline, retrying, exhausted, soft_decline,
  hard_declined,
}
use smart_retry_orchestrator.Float.{Float64}
use smart_retry_orchestrator.Common.{Bool, true, String, false, [], if◌then◌else◌, ◌&&◌}
use smart_retry_orchestrator.Orchestrator.State.{
  Env, gets, pure, Action, ◌>>=◌, save, ◌>>◌, time_now, record_health, update,
}
use smart_retry_orchestrator.Classifier.{Classifier}
use smart_retry_orchestrator.Domain.Models.{
  Time, FailureEvent, ProcessFailureResult, ClassificationResult, Transaction,
}
use smart_retry_orchestrator.Domain.Errors.{Result, err, ok, wrapped}
use smart_retry_orchestrator.Store.{get_transaction}
use smart_retry_orchestrator.Orchestrator.Retry.{
  record_retry, new_transaction, execute_retry_chain, mark_recovered,
}
use smart_retry_orchestrator.Orchestrator.Reasoning.Narrative.{build_chain_reasoning}

abbrev pub is_hard : DeclineType → Bool
is_hard hard_decline = true
is_hard soft_decline = false

-- a transaction that an external success report may recover
abbrev pub is_recoverable : TransactionStatus → Bool
is_recoverable retrying = true
is_recoverable exhausted = true
is_recoverable _ = false

module _ {F : Type 0} ⦃fl : Float64 F⦄ ⦃env : Env F⦄ where
  -- fmt.Errorf("…: %w", err) on an error of SaveTransaction, and else what follows
  unfoldable pub or_wrap :
      {A : Type 0} → String → Result (Unit {0}) → Action F (Result A) → Action F (Result A)
  unfolding pure
  or_wrap text (err e) next = pure (err (wrapped text e))
  or_wrap text (ok _) next = next

  unfoldable pub hard_result : FailureEvent F → ClassificationResult → ProcessFailureResult F
  hard_result event classification = record {
    transaction_id = event.transaction_id;
    classification = classification;
    should_retry = false;
    retry_attempts = [];
    final_status = hard_declined;
    total_cost = fl.lit 0 1;
    reasoning = classification.reasoning;
  }

  unfoldable pub soft_result :
      FailureEvent F → ClassificationResult → Transaction F → ProcessFailureResult F
  soft_result event classification tx = record {
    transaction_id = event.transaction_id;
    classification = classification;
    should_retry = true;
    retry_attempts = tx.retry_attempts;
    final_status = tx.status;
    total_cost = tx.total_cost;
    reasoning = build_chain_reasoning tx;
  }

  unfoldable pub process_hard :
      FailureEvent F → ClassificationResult → Action F (Result (ProcessFailureResult F))
  unfolding or_wrap hard_result pure
  process_hard event classification = do
    saved ← save (new_transaction hard_declined event classification)
    or_wrap "saving hard-declined transaction" saved (pure (ok (hard_result event classification)))

  unfoldable pub process_soft :
      FailureEvent F → ClassificationResult → Action F (Result (ProcessFailureResult F))
  unfolding or_wrap soft_result pure
  process_soft event classification = do
    saved ← save (new_transaction retrying event classification)
    or_wrap "saving transaction" saved (do
      tx ← execute_retry_chain (new_transaction retrying event classification) event classification
      pure (ok (soft_result event classification tx)))

  unfoldable pub process_failure :
      ⦃cl : Classifier F⦄ → FailureEvent F → Action F (Result (ProcessFailureResult F))
  unfolding process_hard process_soft
  process_failure ⦃cl⦄ event = do
    record_health event.processor false event.timestamp
    let classification = cl.classify event
    if is_hard classification.decline_type
        then process_hard event classification
        else process_soft event classification

  -- the transaction that RecordRetryOutcome writes back
  unfoldable pub with_outcome : Time → Bool → Transaction F → Transaction F
  with_outcome now success tx =
      if success && is_recoverable tx.status then mark_recovered now tx else tx

  unfoldable pub report_on :
      ProcessorName → Bool → Result (Transaction F) → Action F (Result (Unit {0}))
  unfolding pure with_outcome
  report_on processor success (err e) = pure (err e)
  report_on processor success (ok tx) = do
    now ← time_now
    record_health processor success now
    record_retry tx.original_event.failure_code processor success
    update (with_outcome now success tx)

  unfoldable pub record_retry_outcome : String → ProcessorName → Bool → Action F (Result (Unit {0}))
  unfolding report_on gets
  record_retry_outcome id processor success = do
    found ← gets (λ s. get_transaction s.store id)
    report_on processor success found
