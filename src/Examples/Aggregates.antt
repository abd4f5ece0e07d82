-- ===== src/Examples/Aggregates.antt =====
-- The metrics of a concrete store.
use smart_retry_orchestrator.Float.{ratio_float, Ratio, ratio}
use smart_retry_orchestrator.Examples.Samples.{sample}
use smart_retry_orchestrator.Domain.Models.{RecoveryMetrics, Transaction, minute, RetryAttempt}
use smart_retry_orchestrator.Domain.Enums.{
  ProcessorName, recovered, processor_a, immediate, processor_c,
}
use smart_retry_orchestrator.Store.{MemoryStore}
use smart_retry_orchestrator.Common.{◌*◌, Bool, false, ◌∷◌, [], true, refl, ◌≡◌, some, keep}
use smart_retry_orchestrator.Common.Dict.{lookup}
use smart_retry_orchestrator.Metrics.{get_recovery_metrics}
use smart_retry_orchestrator.Store.Refinement.{Represents}
use smart_retry_orchestrator.Metrics.Counts.{
  IsRecovery, created_between, get_recovery_metrics-IsRecovery,
}

abbrev attempt : ProcessorName → Bool → RetryAttempt Ratio
attempt p success = record {
  attempt_number = 1;
  processor = p;
  strategy = immediate;
  success = success;
  cost = ratio 1 4;
  delay_seconds = ratio 0 1;
  reasoning = "";
  timestamp = 1000 * minute;
}

abbrev tried : Transaction Ratio
tried = record (sample "txn-9" recovered) {
  retry_count = 2;
  retry_attempts = attempt processor_a false ∷ attempt processor_c true ∷ [];
}

abbrev tried_store : MemoryStore Ratio
tried_store = record {
  transactions = ("txn-9", tried) ∷ [];
  decisions = [];
  tx_order = "txn-9" ∷ [];
}

tried_store-Represents : Represents tried_store (tried ∷ [])
unfolding lookup
tried_store-Represents = record { order = refl; found = λ id. refl; distinct = (refl, tt) }

get_recovery_metrics-IsRecovery_example :
    (m : RecoveryMetrics Ratio) × (get_recovery_metrics (999 * minute) (1001 * minute) tried_store
      ≡ some m)
    × IsRecovery m (keep (created_between (999 * minute) (1001 * minute)) (tried ∷ []))
get_recovery_metrics-IsRecovery_example =
    get_recovery_metrics-IsRecovery (999 * minute) (1001 * minute) tried_store (tried ∷ [])
      tried_store-Represents
