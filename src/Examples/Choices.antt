-- ===== src/Examples/Choices.antt =====
-- The choice of a processor on a concrete system.
use smart_retry_orchestrator.Float.{ratio_float, Ratio}
use smart_retry_orchestrator.Examples.Samples.{ticking, sample, timeout_event}
use smart_retry_orchestrator.Domain.Enums.{
  ProcessorName, processor_a, code_processor_timeout, processor_c, all_processors, retrying,
}
use smart_retry_orchestrator.Common.Dict.{lookup}
use smart_retry_orchestrator.Orchestrator.Select.{select_best_alternative, less, collect_candidates}
use smart_retry_orchestrator.Examples.Samples.{one_system}
use smart_retry_orchestrator.Orchestrator.Select.Small.{IsModerate}
use smart_retry_orchestrator.Health.{get_health}
use smart_retry_orchestrator.Orchestrator.Adaptive.{get_adaptive_rate}
use smart_retry_orchestrator.Common.{arith, ◌≡◌, some, ◌⊎◌, All, refl, false}
use smart_retry_orchestrator.Domain.Models.{processor_cost, RetryAttempt}
use smart_retry_orchestrator.Orchestrator.Select.Promise.{IsBest, select_best_alternative_lem}
use smart_retry_orchestrator.Float.{Ratio-IsIeee}
use smart_retry_orchestrator.Orchestrator.Select.Choice.{IsCovered}
use smart_retry_orchestrator.Orchestrator.State.{health_of}
use smart_retry_orchestrator.Orchestrator.Select.Sorting.{sort_slice}
use smart_retry_orchestrator.Orchestrator.Plan.{plan_retry_attempt}
use smart_retry_orchestrator.Classifier.{classify}
use smart_retry_orchestrator.Orchestrator.Plan.Total.{plan_retry_attempt_total}

pub one_system-IsModerate : IsModerate one_system
unfolding lookup
one_system-IsModerate = record {
  windows = λ p. omega arith;
  records = λ code p. (omega arith, omega arith);
}

cheapest_first :
    (select_best_alternative processor_a code_processor_timeout one_system).0 ≡ some processor_c
unfolding select_best_alternative collect_candidates health_of get_health get_adaptive_rate
    sort_slice less processor_cost lookup
cheapest_first = refl

select_best_alternative_lem_example :
    ((p : ProcessorName) × ((select_best_alternative processor_a code_processor_timeout
          one_system).0
        ≡ some p)
      × IsBest Ratio-IsIeee processor_a code_processor_timeout one_system p)
    ⊎ ((select_best_alternative processor_a code_processor_timeout one_system).0 ≡ some processor_c)
      × All (IsCovered processor_a code_processor_timeout one_system 0 3 (λ c. ⊥)) all_processors
select_best_alternative_lem_example =
    select_best_alternative_lem Ratio-IsIeee processor_a code_processor_timeout one_system
      one_system-IsModerate

plan_retry_attempt_total_example :
    (a : RetryAttempt Ratio) × ((plan_retry_attempt
        (sample "txn-1" retrying)
        timeout_event
        (classify timeout_event)
        one_system).0
      ≡ some a)
    × (a.attempt_number ≡ 1)
    × (a.strategy ≡ (classify timeout_event).strategy)
    × (a.success ≡ false)
    × (a.cost ≡ processor_cost a.processor)
plan_retry_attempt_total_example =
    plan_retry_attempt_total Ratio-IsIeee one_system (sample "txn-1" retrying) timeout_event
      (classify timeout_event) one_system-IsModerate
