-- ===== src/Examples/Retries.antt =====
-- The orchestrator on concrete inputs.
use smart_retry_orchestrator.Float.{ratio_float}
use smart_retry_orchestrator.Examples.Samples.{ticking, two_stored}
use smart_retry_orchestrator.Classifier.Policy.{default_classifier}
use smart_retry_orchestrator.Classifier.{classify}
use smart_retry_orchestrator.Common.{◌*◌, true, ◌≡◌, false, [], ◌++◌, ◌∷◌, ◌+◌, refl}
use smart_retry_orchestrator.Domain.Models.{FailureEvent, minute, Transaction, second}
use smart_retry_orchestrator.Orchestrator.Process.{
  record_retry_outcome, process_failure, hard_result, soft_result,
}
use smart_retry_orchestrator.Orchestrator.Quiet.{IsQuiet, IsQuiet-plan_retry_attempt}
use smart_retry_orchestrator.Examples.Samples.{
  timeout_event, fraud_event, one_system, sample, event, one_store, one_store-Represents, tracker,
}
use smart_retry_orchestrator.Domain.Enums.{
  processor_a, exhausted, processor_b, code_processor_timeout, retrying, hard_declined,
}
use smart_retry_orchestrator.Float.{Ratio}
use smart_retry_orchestrator.Orchestrator.Plan.{plan_retry_attempt}
use smart_retry_orchestrator.Orchestrator.Retry.{new_transaction, mark_recovered}
use smart_retry_orchestrator.Domain.Errors.{ok, err, wrapped, duplicate_id}
use smart_retry_orchestrator.Orchestrator.Process.Reports.{record_retry_outcome_effect}
use smart_retry_orchestrator.Orchestrator.State.{record_health}
use smart_retry_orchestrator.Store.Refinement.{Represents}
use smart_retry_orchestrator.Orchestrator.Retry.Chain.{IsClosed, IsSameCase}
use smart_retry_orchestrator.Orchestrator.Process.Outcomes.{
  process_failure_duplicate, process_failure_hard, process_failure_soft, IsHardAnswer, IsSoftAnswer,
  IsHardStored,
}
use smart_retry_orchestrator.Store.Contents.{replace}
use smart_retry_orchestrator.Orchestrator.Adaptive.{record_adaptive}
use smart_retry_orchestrator.Health.{record_outcome}

process_failure_soft_example :
    let (result, s') = process_failure timeout_event one_system in
    (tx : Transaction Ratio) × (result ≡ ok (soft_result timeout_event (classify timeout_event) tx))
    × Represents s'.store (two_stored ++ tx ∷ [])
    × IsClosed tx
    × IsSameCase (new_transaction retrying timeout_event (classify timeout_event)) tx
    × IsSoftAnswer
        (classify timeout_event)
        tx
        (soft_result timeout_event (classify timeout_event) tx)
unfolding classify
process_failure_soft_example =
    process_failure_soft timeout_event one_system two_stored one_store-Represents refl refl

process_failure_hard_example :
    let (result, s') = process_failure fraud_event one_system in
    let tx = new_transaction hard_declined fraud_event (classify fraud_event) in
    (result ≡ ok (hard_result fraud_event (classify fraud_event)))
    × Represents s'.store (two_stored ++ tx ∷ [])
    × (s'.store.decisions ≡ [])
    × (s'.adaptive_data ≡ [])
    × (s'.draws ≡ 0)
    × IsHardAnswer fraud_event
        (classify fraud_event)
        (hard_result fraud_event (classify fraud_event))
    × IsHardStored fraud_event (classify fraud_event) tx
unfolding classify
process_failure_hard_example =
    process_failure_hard fraud_event one_system two_stored one_store-Represents refl refl

abbrev again : FailureEvent Ratio
again = event "txn-7" code_processor_timeout processor_a

process_failure_duplicate_example :
    (process_failure again one_system ≡ (
      err (wrapped "saving transaction" duplicate_id),
      (record_health processor_a false (1000 * minute) one_system).1,
    ))
    × ((process_failure again one_system).1.store ≡ one_store)
    × ((process_failure again one_system).1.adaptive_data ≡ [])
    × ((process_failure again one_system).1.draws ≡ 0)
unfolding classify
process_failure_duplicate_example =
    process_failure_duplicate again one_system two_stored one_store-Represents refl

record_retry_outcome_effect_example :
    let now = 1000 * minute in
    let tx = sample "txn-7" exhausted in
    let (result, s') = record_retry_outcome "txn-7" processor_b true one_system in
    (result ≡ ok tt)
    × Represents s'.store (replace (mark_recovered now tx) two_stored)
    × (s'.adaptive_data ≡ record_adaptive code_processor_timeout processor_b true [])
    × (s'.health_tracker ≡ record_outcome (1000 * minute + second) tracker processor_b true now)
record_retry_outcome_effect_example =
    record_retry_outcome_effect "txn-7" processor_b true one_system two_stored
      (sample "txn-7" exhausted) one_store-Represents refl

IsQuiet-plan_retry_attempt_example :
    IsQuiet {F = Ratio}
      (plan_retry_attempt (sample "txn-7" retrying) timeout_event (classify timeout_event))
IsQuiet-plan_retry_attempt_example =
    IsQuiet-plan_retry_attempt (sample "txn-7" retrying) timeout_event (classify timeout_event)
