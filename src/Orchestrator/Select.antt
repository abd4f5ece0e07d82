-- ===== src/Orchestrator/Select.antt =====
-- selectBestAlternative of internal/orchestrator/orchestrator.go.
pub mod Sorting
pub mod Best
pub mod Small
pub mod Choice
pub mod Promise
use smart_retry_orchestrator.Domain.Enums.{
  ProcessorName, FailureReasonCode, all_processors, is_down,
}
use smart_retry_orchestrator.Float.{Float64}
use smart_retry_orchestrator.Common.{
  Bool, Option, List, ◌∷◌, none, not, str_eq, ◌&&◌, if◌then◌else◌, some, [],
}
use smart_retry_orchestrator.Domain.Models.{ProcessorHealthSnapshot, processor_cost}
use smart_retry_orchestrator.Orchestrator.State.{
  Env, pure, AdaptiveData, gets, Action, ◌>>=◌, health_of,
}
use smart_retry_orchestrator.Orchestrator.Adaptive.{get_adaptive_rate}
use smart_retry_orchestrator.Orchestrator.Select.Sorting.{sort_slice}

pub record Candidate (F : Type 0) : Type 0 where
  pub name : ProcessorName
  pub cost : F
  pub failure_rate : F
  pub adaptive_rate : F

module _ {F : Type 0} ⦃fl : Float64 F⦄ where
  -- the order that sort.Slice is given
  unfoldable pub less : Candidate F → Candidate F → Bool
  less c d =
      if not (fl.eq c.adaptive_rate d.adaptive_rate)
      then fl.lt d.adaptive_rate c.adaptive_rate
      else if not (fl.eq c.cost d.cost)
      then fl.lt c.cost d.cost
      else fl.lt c.failure_rate d.failure_rate

  -- the loop of the fallback: the cheapest processor so far, and its cost
  cheapest_loop :
      ProcessorName → Option ProcessorName → F → List ProcessorName → Option ProcessorName
  cheapest_loop exclude best best_cost [] = best
  cheapest_loop exclude best best_cost (p ∷ rest) =
      let cost = processor_cost p in
      let better = not (str_eq p exclude) && fl.lt cost best_cost in
      cheapest_loop exclude (if better then some p else best) (if better then cost else best_cost)
        rest

-- The fallback, which costs nothing of the clock.
unfoldable pub cheapest : (F : Type 0) ⦃fl : Float64 F⦄ → ProcessorName → Option ProcessorName
unfolding cheapest_loop
cheapest F ⦃fl⦄ exclude = cheapest_loop exclude none (fl.lit 999 1) all_processors

module _ {F : Type 0} ⦃fl : Float64 F⦄ where
  -- what is done with the candidates
  unfoldable pub choose : ProcessorName → List (Candidate F) → Option ProcessorName
  unfolding cheapest
  choose exclude candidates = elim (sort_slice less candidates) [
    | [] ↦ cheapest F exclude
    | c ∷ _ ↦ some c.name
  ]

  unfoldable pub candidate :
      FailureReasonCode → ProcessorName → ProcessorHealthSnapshot F → AdaptiveData → Candidate F
  candidate code p h adaptive = record {
    name = p;
    cost = processor_cost p;
    failure_rate = h.failure_rate;
    adaptive_rate = get_adaptive_rate code p adaptive;
  }

  module _ ⦃env : Env F⦄ where
    -- the loop over AllProcessors; each processor that is looked at costs a reading of the clock
    unfoldable pub collect_candidates :
        ProcessorName → FailureReasonCode → List ProcessorName → Action F (List (Candidate F))
    unfolding pure gets candidate
    collect_candidates exclude code [] = pure []
    collect_candidates exclude code (p ∷ rest) =
        let later = collect_candidates exclude code rest in
        if str_eq p exclude then later else do
          h ← health_of p
          c ← gets (λ s. candidate code p h s.adaptive_data)
          candidates ← later
          pure (if is_down h.state then candidates else c ∷ candidates)

    unfoldable pub select_best_alternative :
        ProcessorName → FailureReasonCode → Action F (Option ProcessorName)
    unfolding pure choose
    select_best_alternative exclude code = do
      candidates ← collect_candidates exclude code all_processors
      pure (choose exclude candidates)
