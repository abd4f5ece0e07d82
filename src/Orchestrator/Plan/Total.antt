-- ===== src/Orchestrator/Plan/Total.antt =====
-- planRetryAttempt of internal/orchestrator/orchestrator.go always plans an attempt.
use smart_retry_orchestrator.Float.{Float64, IsIeee}
use smart_retry_orchestrator.Orchestrator.State.{Env, System, Action, health_of, time_now}
use smart_retry_orchestrator.Common.{
  Option, ℕ, String, ◌≡◌, Bool-cases, some, inl, inr, refl, ◌+◌, false,
}
use smart_retry_orchestrator.Orchestrator.Plan.{
  via_alternative, plan_route, plan_retry_attempt, attempt_of, route_to, delayed_retry_seconds,
}
use smart_retry_orchestrator.Domain.Enums.{
  ProcessorName, FailureReasonCode, RetryStrategy, is_down, do_not_retry, alternative_processor,
  immediate, delayed,
}
use smart_retry_orchestrator.Domain.Models.{
  Transaction, FailureEvent, ClassificationResult, ProcessorHealthSnapshot, RetryAttempt,
  processor_cost,
}
use smart_retry_orchestrator.Orchestrator.Select.Small.{IsModerate}
use smart_retry_orchestrator.Orchestrator.Select.{select_best_alternative}
use smart_retry_orchestrator.Orchestrator.Select.Promise.{select_best_alternative_lem}
use smart_retry_orchestrator.Health.{get_health}
use smart_retry_orchestrator.Orchestrator.Reasoning.{
  alternative_reasoning, immediate_rerouted_reasoning, delayed_rerouted_reasoning,
}

module _ {F : Type 0} ⦃fl : Float64 F⦄ ⦃env : Env F⦄ (ieee : IsIeee F) where
  abbrev Returns : {A : Type 0} → Action F (Option A) → System F → Type 0
  Returns {A} m s = (a : A) × (m s).0 ≡ some a

  select-Returns :
      (s : System F) (exclude : ProcessorName) (code : FailureReasonCode)
      → IsModerate s
      → Returns (select_best_alternative exclude code) s
  select-Returns s exclude code moderate =
      elim (select_best_alternative_lem ieee exclude code s moderate) [
        | inl (p, e, best) ↦ (p, e)
        | inr (e, down) ↦ (_, e)
      ]

  route_to-Returns :
      (delay : F) (event : FailureEvent F)
      (text : ProcessorName → ProcessorHealthSnapshot F → F → String) (o : Option ProcessorName)
      (p : ProcessorName)
      → o ≡ some p
      → (s : System F) → Returns (route_to delay event text o) s
  unfolding route_to
  route_to-Returns delay event text o p e s = rw e (_, refl)

  via_alternative-Returns :
      (s : System F) (delay : F) (event : FailureEvent F)
      (text : ProcessorName → ProcessorHealthSnapshot F → F → String)
      → IsModerate s
      → Returns (via_alternative delay event text) s
  unfolding via_alternative
  via_alternative-Returns s delay event text moderate =
      let (p, e) = select-Returns s event.processor event.failure_code moderate in
      route_to-Returns delay event text _ p e
        (select_best_alternative event.processor event.failure_code s).1

  plan_route-Returns :
      (s : System F) (n : ℕ) (strategy : RetryStrategy) (event : FailureEvent F)
      (h : ProcessorHealthSnapshot F)
      → IsModerate s
      → Returns (plan_route n strategy event h) s
  unfolding plan_route
  plan_route-Returns s n do_not_retry event h moderate = (_, refl)
  plan_route-Returns s n alternative_processor event h moderate =
      via_alternative-Returns s _ event (alternative_reasoning event h) moderate
  plan_route-Returns s n immediate event h moderate = elim (Bool-cases (is_down h.state)) [
    | inl e ↦
        rw e (via_alternative-Returns s _ event (immediate_rerouted_reasoning event h) moderate)
    | inr e ↦ rw e (_, refl)
  ]
  plan_route-Returns s n delayed event h moderate = elim (Bool-cases (is_down h.state)) [
    | inl e ↦ rw e (
        via_alternative-Returns s _ event
          (λ target alt rate. delayed_rerouted_reasoning delayed_retry_seconds event h target alt)
          moderate)
    | inr e ↦ rw e (_, refl)
  ]

  -- While all counters are below 2^25, a plan is always made, for every strategy: an attempt with the
  -- next number and the strategy of the classification, which has not succeeded yet and costs what
  -- its processor costs.
  pub plan_retry_attempt_total :
      (s : System F) (tx : Transaction F) (event : FailureEvent F) (c : ClassificationResult)
      → IsModerate s
      → (a : RetryAttempt F) × ((plan_retry_attempt tx event c s).0 ≡ some a)
        × (a.attempt_number ≡ tx.retry_count + 1)
        × (a.strategy ≡ c.strategy)
        × (a.success ≡ false)
        × (a.cost ≡ processor_cost a.processor)
  unfolding plan_retry_attempt attempt_of health_of time_now processor_cost
  plan_retry_attempt_total s tx event c moderate =
      let after = record s { clock_reads = s.clock_reads + 1 + 1 } in
      let same : IsModerate after = record {
        windows = moderate.windows;
        records = moderate.records;
      } in
      let h = get_health (env.now (s.clock_reads + 1)) s.health_tracker event.processor in
      let (r, e) = plan_route-Returns after (tx.retry_count + 1) c.strategy event h same in
      rw (e, plan_retry_attempt) (_, refl, refl, refl, refl, refl)
