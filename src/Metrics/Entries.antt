-- ===== src/Metrics/Entries.antt =====
-- GetProcessorMetrics (internal/metrics/calculator.go) against the stored attempts.
use smart_retry_orchestrator.Float.{Float64}
use smart_retry_orchestrator.Domain.Models.{
  RetryAttempt, ProcessorMetrics, ProcessorHealthSnapshot, Transaction, Time,
}
use smart_retry_orchestrator.Metrics.{
  add_transactions, with_rates, empty_entry, with_rate, empty_entries, metrics_over,
}
use smart_retry_orchestrator.Domain.Enums.{ProcessorName, processor_a, processor_b, processor_c}
use smart_retry_orchestrator.Common.{
  List, arith, ◌∷◌, [], ◌≡◌, if◌then◌else◌, ◌+◌, length, keep, refl, ◌∙◌, ◌==◌, some,
}
use smart_retry_orchestrator.Common.Dict.{Dict, lookup, insert}
use smart_retry_orchestrator.Health.{RollingHealthTracker, get_health}
use smart_retry_orchestrator.Metrics.Counts.{attempts_of}
use smart_retry_orchestrator.Metrics.Attempts.{
  is_on, is_success, is_failure, sum_costs, count_attempts, count_attempts-IsCounted,
  lookup-with_rates, add_transactions-eq, lookup-add_attempts,
}

module _ {F : Type 0} ⦃fl : Float64 F⦄ where
  -- The entry of a processor, whose health was read as given, after some attempts.
  pub record IsEntry (pm : ProcessorMetrics F) (p : ProcessorName)
      (health : ProcessorHealthSnapshot F) (attempts : List (RetryAttempt F)) : Type 0 where
    pub processor : pm.processor ≡ p
    pub total : pm.total_attempts ≡ length (keep (is_on p) attempts)
    pub successes : pm.successes ≡ length (keep is_success (keep (is_on p) attempts))
    pub failures : pm.failures ≡ length (keep is_failure (keep (is_on p) attempts))
    pub split : pm.successes + pm.failures ≡ pm.total_attempts
    pub cost : pm.total_cost ≡ sum_costs (fl.lit 0 1) (keep (is_on p) attempts)
    pub health_read : pm.current_health ≡ health
    pub rate : pm.success_rate ≡ (
        if pm.total_attempts == 0
        then fl.lit 0 1
        else fl.div (fl.of_int pm.successes) (fl.of_int pm.total_attempts))

  length-keep_outcomes :
      (attempts : List (RetryAttempt F))
      → length (keep is_success attempts) + length (keep is_failure attempts) ≡ length attempts
  length-keep_outcomes [] = omega arith
  length-keep_outcomes (a ∷ rest) = ground (arith, length-keep_outcomes rest)

  with_rate_lem :
      (pm : ProcessorMetrics F)
      → ((with_rate pm).processor ≡ pm.processor)
        × ((with_rate pm).total_attempts ≡ pm.total_attempts)
        × ((with_rate pm).successes ≡ pm.successes)
        × ((with_rate pm).failures ≡ pm.failures)
        × ((with_rate pm).total_cost ≡ pm.total_cost)
        × ((with_rate pm).current_health ≡ pm.current_health)
        × ((with_rate pm).success_rate ≡ (
            if pm.total_attempts == 0
            then pm.success_rate
            else fl.div (fl.of_int pm.successes) (fl.of_int pm.total_attempts)))
  unfolding with_rate
  with_rate_lem pm = ground arith

  IsEntry-of :
      (now : Time) (h : RollingHealthTracker) (p : ProcessorName) (attempts : List (RetryAttempt F))
      → IsEntry
          (with_rate
            (count_attempts (keep (is_on p) attempts) (empty_entry (get_health now h p) p)))
          p
          (get_health now h p)
          attempts
  unfolding empty_entry
  IsEntry-of now h p attempts =
      let mine = keep (is_on p) attempts in
      let known = count_attempts-IsCounted mine (empty_entry (get_health now h p) p) in
      let (processor, total, successes, failures, cost, health, rate) =
        with_rate_lem (count_attempts mine (empty_entry (get_health now h p) p)) in
      record {
        processor = processor ∙ known.processor;
        total = omega (arith, total, known.total);
        successes = omega (arith, successes, known.successes);
        failures = omega (arith, failures, known.failures);
        split = omega (
          arith,
          total,
          successes,
          failures,
          known.total,
          known.successes,
          known.failures,
          length-keep_outcomes mine,
        );
        cost = cost ∙ known.cost;
        health_read = health ∙ known.health;
        rate = ground (arith, rate, known.rate, total, successes);
      }

  abbrev pub IsReported :
      Dict (ProcessorMetrics F)
      → Time
      → RollingHealthTracker
      → ProcessorName
      → List (RetryAttempt F)
      → Type 0
  IsReported d now h p attempts =
      (pm : ProcessorMetrics F) × (lookup p d ≡ some pm)
      × IsEntry pm p (get_health now h p) attempts

  IsReported-of :
      (p : ProcessorName) (now : Time) (h : RollingHealthTracker)
      (entries : Dict (ProcessorMetrics F)) (txns : List (Transaction F))
      → lookup p entries ≡ some (empty_entry (get_health now h p) p)
      → IsReported (with_rates (add_transactions entries txns)) now h p (attempts_of txns)
  IsReported-of p now h entries txns e =
      let attempts = attempts_of txns in
      (
        with_rate (count_attempts (keep (is_on p) attempts) (empty_entry (get_health now h p) p)),
        rw (lookup-with_rates, add_transactions-eq, lookup-add_attempts p attempts entries, e) refl,
        IsEntry-of now h p attempts,
      )

  -- An entry for each of the three processors.
  pub metrics_over-IsReported :
      (now now' now'' : Time) (h : RollingHealthTracker) (txns : List (Transaction F))
      → let d =
          metrics_over
            (get_health now h processor_a)
            (get_health now' h processor_b)
            (get_health now'' h processor_c)
            txns in
        IsReported d now h processor_a (attempts_of txns)
        × IsReported d now' h processor_b (attempts_of txns)
        × IsReported d now'' h processor_c (attempts_of txns)
  unfolding metrics_over empty_entries lookup insert
  metrics_over-IsReported now now' now'' h txns =
      let entries =
        empty_entries (get_health now h processor_a) (get_health now' h processor_b)
          (get_health now'' h processor_c) in
      (
        IsReported-of processor_a now h entries txns refl,
        IsReported-of processor_b now' h entries txns refl,
        IsReported-of processor_c now'' h entries txns refl,
      )
