-- ===== src/Metrics.antt =====
-- internal/metrics/calculator.go: the two aggregations over the stored transactions.
pub mod Counts
pub mod Attempts
pub mod Entries
use mathlib.Core.Option
use smart_retry_orchestrator.Float.{Float64}
use smart_retry_orchestrator.Common.{
  String, List, ◌∷◌, [], ℕ, none, some, ◌+◌, if◌then◌else◌, length, ltb, Option,
}
use smart_retry_orchestrator.Domain.Models.{
  ProcessorMetrics, RetryAttempt, Time, Transaction, RecoveryMetrics, ProcessorHealthSnapshot,
}
use smart_retry_orchestrator.Common.Dict.{Dict, lookup, insert, get_or}
use smart_retry_orchestrator.Domain.Enums.{
  hard_decline, recovered, exhausted, ProcessorName, soft_decline, processor_c, processor_b,
  processor_a,
}
use smart_retry_orchestrator.Health.{RollingHealthTracker, get_health}
use smart_retry_orchestrator.Store.{MemoryStore, get_all_transactions_in_range}

-- m.FailureCodeBreakdown[code]++
unfoldable pub count_code : String → Dict ℕ → Dict ℕ
count_code code breakdown = insert code (get_or 0 (lookup code breakdown) + 1) breakdown

module _ {F : Type 0} ⦃fl : Float64 F⦄ where
  -- the switch over the decline type
  unfoldable pub count_decline : Transaction F → RecoveryMetrics F → RecoveryMetrics F
  count_decline tx m = elim tx.classification.decline_type [
    | hard_decline ↦ record m { hard_declines = m.hard_declines + 1 }
    | soft_decline ↦ record m {
      soft_declines = m.soft_declines + 1;
      total_revenue_at_risk = fl.add m.total_revenue_at_risk tx.original_event.amount;
    }
  ]

  -- the switch over the status
  unfoldable pub count_status : Transaction F → RecoveryMetrics F → RecoveryMetrics F
  count_status tx m = elim tx.status [
    | recovered ↦ record m {
      recovered = m.recovered + 1;
      revenue_recovered = fl.add m.revenue_recovered tx.original_event.amount;
    }
    | exhausted ↦ record m { exhausted = m.exhausted + 1 }
    | _ ↦ m
  ]

  -- the loop over the attempts, which sums the delays
  unfoldable pub add_latency : List (RetryAttempt F) → F → F
  add_latency [] latency = latency
  add_latency (a ∷ rest) latency = add_latency rest (fl.add latency a.delay_seconds)

  -- one round of the loop over the transactions
  unfoldable pub count_transaction : RecoveryMetrics F → Transaction F → RecoveryMetrics F
  unfolding count_code count_decline count_status add_latency
  count_transaction m tx =
      let m = record m {
        total_transactions = m.total_transactions + 1;
        failure_code_breakdown = count_code tx.original_event.failure_code m.failure_code_breakdown;
      } in
      let m = count_status tx (count_decline tx m) in
      record m {
        total_retry_cost = fl.add m.total_retry_cost tx.total_cost;
        total_retries_attempted = m.total_retries_attempted + length tx.retry_attempts;
        average_retry_latency = add_latency tx.retry_attempts m.average_retry_latency;
      }

  unfoldable pub count_transactions : RecoveryMetrics F → List (Transaction F) → RecoveryMetrics F
  unfolding count_transaction
  count_transactions m [] = m
  count_transactions m (tx ∷ rest) = count_transactions (count_transaction m tx) rest

  unfoldable pub empty_metrics : (start end : Time) → RecoveryMetrics F
  empty_metrics start end = record {
    total_transactions = 0;
    hard_declines = 0;
    soft_declines = 0;
    recovered = 0;
    exhausted = 0;
    recovery_rate = fl.lit 0 1;
    total_retries_attempted = 0;
    total_revenue_at_risk = fl.lit 0 1;
    revenue_recovered = fl.lit 0 1;
    total_retry_cost = fl.lit 0 1;
    average_retry_latency = fl.lit 0 1;
    failure_code_breakdown = [];
    start = start;
    end = end;
  }

  -- the two quotients after the loop
  unfoldable pub averages : RecoveryMetrics F → RecoveryMetrics F
  averages m =
      let rate = fl.div (fl.of_int m.recovered) (fl.of_int m.soft_declines) in
      let latency = fl.div m.average_retry_latency (fl.of_int m.total_retries_attempted) in
      let m = if ltb 0 m.soft_declines then record m { recovery_rate = rate } else m in
      if ltb 0 m.total_retries_attempted then record m { average_retry_latency = latency } else m

  -- `none` is the panic of the store's listing; the store returns no error here.
  unfoldable pub get_recovery_metrics :
      (start end : Time) → MemoryStore F → Option (RecoveryMetrics F)
  unfolding averages count_transactions empty_metrics
  get_recovery_metrics start end s =
      Option.map (λ txns. averages (count_transactions (empty_metrics start end) txns))
        (get_all_transactions_in_range s start end)

  -- one attempt on its processor's entry
  unfoldable pub count_attempt : RetryAttempt F → ProcessorMetrics F → ProcessorMetrics F
  count_attempt a pm =
      let pm = record pm {
        total_attempts = pm.total_attempts + 1;
        total_cost = fl.add pm.total_cost a.cost;
      } in
      if a.success
      then record pm { successes = pm.successes + 1 }
      else record pm { failures = pm.failures + 1 }

  -- an attempt on a processor with no entry is passed over
  unfoldable pub add_to_entry :
      Dict (ProcessorMetrics F) → RetryAttempt F → Dict (ProcessorMetrics F)
  unfolding count_attempt
  add_to_entry result a = elim (lookup a.processor result) [
    | none ↦ result
    | some pm ↦ insert a.processor (count_attempt a pm) result
  ]

  -- the inner loop, and the two together
  unfoldable pub add_attempts :
      Dict (ProcessorMetrics F) → List (RetryAttempt F) → Dict (ProcessorMetrics F)
  unfolding add_to_entry
  add_attempts result [] = result
  add_attempts result (a ∷ rest) = add_attempts (add_to_entry result a) rest

  unfoldable pub add_transactions :
      Dict (ProcessorMetrics F) → List (Transaction F) → Dict (ProcessorMetrics F)
  unfolding add_attempts
  add_transactions result [] = result
  add_transactions result (tx ∷ rest) =
      add_transactions (add_attempts result tx.retry_attempts) rest

  unfoldable pub with_rate : ProcessorMetrics F → ProcessorMetrics F
  with_rate pm =
      let rate = fl.div (fl.of_int pm.successes) (fl.of_int pm.total_attempts) in
      if ltb 0 pm.total_attempts then record pm { success_rate = rate } else pm

  -- The entry that the first loop makes for a processor, with what GetHealth returned for it.
  unfoldable pub empty_entry : ProcessorHealthSnapshot F → ProcessorName → ProcessorMetrics F
  empty_entry health p = record {
    processor = p;
    total_attempts = 0;
    successes = 0;
    failures = 0;
    success_rate = fl.lit 0 1;
    total_cost = fl.lit 0 1;
    current_health = health;
  }

  -- the first loop, over AllProcessors
  unfoldable pub empty_entries : (a b c : ProcessorHealthSnapshot F) → Dict (ProcessorMetrics F)
  unfolding empty_entry
  empty_entries a b c = insert processor_c (empty_entry c processor_c) (
      insert processor_b (empty_entry b processor_b)
        (insert processor_a (empty_entry a processor_a) []))

  -- the last loop, which visits every entry
  unfoldable pub with_rates : Dict (ProcessorMetrics F) → Dict (ProcessorMetrics F)
  unfolding with_rate
  with_rates [] = []
  with_rates ((p, pm) ∷ rest) = (p, with_rate pm) ∷ with_rates rest

  -- the loops, once the transactions and the three snapshots have been read
  unfoldable pub metrics_over :
      (a b c : ProcessorHealthSnapshot F) → List (Transaction F) → Dict (ProcessorMetrics F)
  unfolding add_transactions empty_entries with_rates
  metrics_over a b c txns = with_rates (add_transactions (empty_entries a b c) txns)
