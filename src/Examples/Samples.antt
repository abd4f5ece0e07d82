-- ===== src/Examples/Samples.antt =====
-- Inputs for the tests: events, transactions and systems over exact quotients (internal/domain).
use smart_retry_orchestrator.Float.{ratio_float}
use smart_retry_orchestrator.Orchestrator.State.{System, Env}
use smart_retry_orchestrator.Domain.Models.{FailureEvent, Transaction, minute, second}
use smart_retry_orchestrator.Store.{MemoryStore}
use smart_retry_orchestrator.Common.{
  String, List, [], refl, ◌*◌, ◌∷◌, none, ◌+◌, if◌then◌else◌, ◌%◌, ◌==◌,
}
use smart_retry_orchestrator.Common.Dict.{lookup}
use smart_retry_orchestrator.Health.{RollingHealthTracker, default_window}
use smart_retry_orchestrator.Float.{Ratio, ratio}
use smart_retry_orchestrator.Domain.Enums.{
  TransactionStatus, FailureReasonCode, code_fraud_suspected, code_processor_timeout, exhausted,
  ProcessorName, processor_b, processor_a, soft_decline, immediate, recovered,
}
use smart_retry_orchestrator.Store.Refinement.{Represents}

-- The clock ticks once a second, and the random source alternates low and high draws.
instance abbrev pub ticking : Env Ratio
ticking = record {
  now = λ n. 1000 * minute + n * second;
  float64 = λ n. if n % 2 == 0 then ratio 99 100 else ratio 1 100;
}

abbrev pub event : String → FailureReasonCode → ProcessorName → FailureEvent Ratio
event id code processor = record {
  transaction_id = id;
  amount = ratio 100 1;
  currency = "USD";
  failure_code = code;
  processor = processor;
  card_type = "";
  bin = "";
  country = "";
  timestamp = 1000 * minute;
  metadata = [];
}

abbrev pub timeout_event : FailureEvent Ratio
timeout_event = event "txn-1" code_processor_timeout processor_a

abbrev pub fraud_event : FailureEvent Ratio
fraud_event = event "txn-2" code_fraud_suspected processor_b

abbrev pub sample : String → TransactionStatus → Transaction Ratio
sample id status = record {
  id = id;
  original_event = event id code_processor_timeout processor_a;
  classification = record {
    decline_type = soft_decline;
    strategy = immediate;
    failure_code = code_processor_timeout;
    reasoning = "";
  };
  status = status;
  retry_count = 0;
  max_retries = 3;
  retry_attempts = [];
  total_cost = ratio 0 1;
  created_at = 1000 * minute;
  updated_at = 1000 * minute;
  recovered_at = none;
}

abbrev pub two_stored : List (Transaction Ratio)
two_stored = sample "txn-7" exhausted ∷ sample "txn-8" recovered ∷ []

abbrev pub one_store : MemoryStore Ratio
one_store = record {
  transactions = ("txn-7", sample "txn-7" exhausted) ∷ ("txn-8", sample "txn-8" recovered) ∷ [];
  decisions = [];
  tx_order = "txn-7" ∷ "txn-8" ∷ [];
}

pub one_store-Represents : Represents one_store two_stored
unfolding lookup
one_store-Represents = record { order = refl; found = λ id. refl; distinct = (refl, (refl, tt)) }

abbrev pub tracker : RollingHealthTracker
tracker = record { windows = []; window = default_window }

abbrev pub one_system : System Ratio
one_system = record {
  health_tracker = tracker;
  store = one_store;
  adaptive_data = [];
  clock_reads = 0;
  draws = 0;
}
