-- ===== src/Orchestrator/Quiet.antt =====
-- Actions of internal/orchestrator/orchestrator.go that only read: they move the clock and change
-- nothing else.
use mathlib.Core.Option
use smart_retry_orchestrator.Orchestrator.State.{
  gets, pure, System, Action, Env, time_now, health_of, ◌>>=◌,
}
use smart_retry_orchestrator.Float.{Float64}
use smart_retry_orchestrator.Common.{
  Bool, ◌∙◌, ◌≡◌, if◌then◌else◌, true, ℕ, refl, List, false, ◌∷◌, str_eq, String, Option, some, ◌+◌,
  none, [],
}
use smart_retry_orchestrator.Orchestrator.Select.{
  select_best_alternative, collect_candidates, candidate, choose,
}
use smart_retry_orchestrator.Orchestrator.Plan.{
  plan_retry_attempt, plan_route, route_to, via_alternative, attempt_of,
}
use smart_retry_orchestrator.Domain.Enums.{
  ProcessorName, FailureReasonCode, RetryStrategy, all_processors, is_down, do_not_retry,
  alternative_processor,
}
use smart_retry_orchestrator.Domain.Models.{
  FailureEvent, Transaction, ProcessorHealthSnapshot, ClassificationResult,
}

-- `t` is `s` but for the clock.
pub record IsUnchanged {F : Type 0} (s t : System F) : Type 0 where
  pub health : t.health_tracker ≡ s.health_tracker
  pub store : t.store ≡ s.store
  pub adaptive : t.adaptive_data ≡ s.adaptive_data
  pub draws : t.draws ≡ s.draws

pub record IsQuiet {F A : Type 0} (m : Action F A) : Type 0 where
  pub at : (s : System F) → IsUnchanged s (m s).1

module _ {F : Type 0} where
  IsUnchanged-trans : {s t u : System F} → IsUnchanged s t → IsUnchanged t u → IsUnchanged s u
  IsUnchanged-trans p q = record {
    health = q.health ∙ p.health;
    store = q.store ∙ p.store;
    adaptive = q.adaptive ∙ p.adaptive;
    draws = q.draws ∙ p.draws;
  }

module _ {F A : Type 0} where
  pub IsQuiet-pure : (a : A) → IsQuiet {F = F} (pure a)
  unfolding pure
  IsQuiet-pure a = record {
    at = λ s. record { health = refl; store = refl; adaptive = refl; draws = refl };
  }

  pub IsQuiet-gets : (f : System F → A) → IsQuiet (gets f)
  unfolding gets
  IsQuiet-gets f = record {
    at = λ s. record { health = refl; store = refl; adaptive = refl; draws = refl };
  }

  pub IsQuiet-if :
      (b : Bool) (m n : Action F A) → IsQuiet m → IsQuiet n → IsQuiet (if b then m else n)
  IsQuiet-if true m n p q = p
  IsQuiet-if false m n p q = q

module _ {F A B : Type 0} where
  pub IsQuiet-bind :
      (m : Action F A) (f : A → Action F B)
      → IsQuiet m
      → ((a : A) → IsQuiet (f a))
      → IsQuiet (m >>= f)
  IsQuiet-bind m f p q = record {
    at = λ s. let (a, t) = m s in IsUnchanged-trans (p.at s) ((q a).at t);
  }

module _ {F : Type 0} ⦃fl : Float64 F⦄ ⦃env : Env F⦄ where
  IsQuiet-time_now : IsQuiet {F = F} time_now
  unfolding time_now
  IsQuiet-time_now = record {
    at = λ s. record { health = refl; store = refl; adaptive = refl; draws = refl };
  }

  pub IsQuiet-health_of : (p : ProcessorName) → IsQuiet {F = F} (health_of p)
  unfolding health_of
  IsQuiet-health_of p = record {
    at = λ s. record { health = refl; store = refl; adaptive = refl; draws = refl };
  }

  pub IsQuiet-collect_candidates :
      (exclude : ProcessorName) (code : FailureReasonCode) (ps : List ProcessorName)
      → IsQuiet {F = F} (collect_candidates exclude code ps)
  unfolding collect_candidates
  IsQuiet-collect_candidates exclude code [] = IsQuiet-pure []
  IsQuiet-collect_candidates exclude code (p ∷ rest) =
      IsQuiet-if (str_eq p exclude) _ _ (IsQuiet-collect_candidates exclude code rest) (
        IsQuiet-bind (health_of p) _ (IsQuiet-health_of p) λ h.
          IsQuiet-bind (gets (λ s. candidate code p h s.adaptive_data)) _ (IsQuiet-gets _) λ c.
            IsQuiet-bind (collect_candidates exclude code rest) _
              (IsQuiet-collect_candidates exclude code rest)
              λ cs. IsQuiet-pure (if is_down h.state then cs else c ∷ cs))

  pub IsQuiet-select :
      (exclude : ProcessorName) (code : FailureReasonCode)
      → IsQuiet {F = F} (select_best_alternative exclude code)
  unfolding select_best_alternative
  IsQuiet-select exclude code =
      IsQuiet-bind (collect_candidates exclude code all_processors) _
        (IsQuiet-collect_candidates exclude code all_processors)
        λ cs. IsQuiet-pure (choose exclude cs)

  IsQuiet-route_to :
      (delay : F) (event : FailureEvent F)
      (text : ProcessorName → ProcessorHealthSnapshot F → F → String) (o : Option ProcessorName)
      → IsQuiet {F = F} (route_to delay event text o)
  unfolding route_to health_of
  IsQuiet-route_to delay event text none = IsQuiet-pure none
  IsQuiet-route_to delay event text (some p) = record {
    at = λ s. record { health = refl; store = refl; adaptive = refl; draws = refl };
  }

  IsQuiet-via_alternative :
      (delay : F) (event : FailureEvent F)
      (text : ProcessorName → ProcessorHealthSnapshot F → F → String)
      → IsQuiet {F = F} (via_alternative delay event text)
  unfolding via_alternative
  IsQuiet-via_alternative delay event text =
      IsQuiet-bind (select_best_alternative event.processor event.failure_code) _
        (IsQuiet-select event.processor event.failure_code) λ o. IsQuiet-route_to delay event text o

  IsQuiet-plan_route :
      (n : ℕ) (strategy : RetryStrategy) (event : FailureEvent F) (h : ProcessorHealthSnapshot F)
      → IsQuiet {F = F} (plan_route n strategy event h)
  unfolding plan_route
  IsQuiet-plan_route n do_not_retry event h = IsQuiet-pure _
  IsQuiet-plan_route n alternative_processor event h = search IsQuiet-via_alternative
  IsQuiet-plan_route n _ event h = search (IsQuiet-if, IsQuiet-pure, IsQuiet-via_alternative)

  -- Planning an attempt changes neither the tracker, nor the store, nor the adaptive data, nor the
  -- random source.
  pub IsQuiet-plan_retry_attempt :
      (tx : Transaction F) (event : FailureEvent F) (c : ClassificationResult)
      → IsQuiet {F = F} (plan_retry_attempt tx event c)
  unfolding plan_retry_attempt
  IsQuiet-plan_retry_attempt tx event c = IsQuiet-bind time_now _ IsQuiet-time_now λ now.
      IsQuiet-bind (health_of event.processor) _ (IsQuiet-health_of event.processor) λ h.
        IsQuiet-bind (plan_route (tx.retry_count + 1) c.strategy event h) _
          (IsQuiet-plan_route (tx.retry_count + 1) c.strategy event h)
          λ r. IsQuiet-pure (Option.map (attempt_of now (tx.retry_count + 1) c.strategy) r)
