-- ===== src/Service/Reach.antt =====
-- The service over any sequence of requests: cmd/server/main.go starts it, and each request goes to
-- its endpoint of internal/api/handler.go.
use smart_retry_orchestrator.Float.{Float64}
use smart_retry_orchestrator.Orchestrator.State.{Env, System, time_now}
use smart_retry_orchestrator.Classifier.{Classifier}
use smart_retry_orchestrator.Api.Web.{Web, Handler, Request}
use smart_retry_orchestrator.Server.{
  process_events, generator, new_handler, initial_system, count_if_ok,
}
use smart_retry_orchestrator.Common.{String, List, Bool, ℕ, ◌∷◌, []}
use smart_retry_orchestrator.Domain.Models.{Time, FailureEvent}
use smart_retry_orchestrator.Api.Routes.{Endpoint, serve}
use smart_retry_orchestrator.Service.Orderly.{
  IsKeeping, IsOrderly, IsKeeping-pure, IsKeeping-bind, IsOrderly-initial_system,
  IsKeeping-reset_stores, IsKeeping-process_failure, IsKeeping-time_now,
}
use smart_retry_orchestrator.Service.Endpoints.{IsKeeping-serve}
use smart_retry_orchestrator.Api.Handlers.{reset_stores}
use smart_retry_orchestrator.Orchestrator.Process.{process_failure}
use smart_retry_orchestrator.Domain.Errors.{ok}

module _ {F : Type 0} ⦃fl : Float64 F⦄ ⦃env : Env F⦄ ⦃cl : Classifier F⦄ where
  IsKeeping-process_events :
      (events : List (FailureEvent F)) (n : ℕ) → IsKeeping (process_events events n)
  unfolding process_events
  IsKeeping-process_events [] n = IsKeeping-pure n
  IsKeeping-process_events (event ∷ rest) n =
      IsKeeping-bind (process_failure event) _ (IsKeeping-process_failure event)
        λ result. IsKeeping-process_events rest (count_if_ok result n)

  IsKeeping-generator :
      (generate_events : Time → List (FailureEvent F)) → IsKeeping (generator generate_events)
  unfolding generator
  IsKeeping-generator generate_events = IsKeeping-bind reset_stores _ IsKeeping-reset_stores λ _.
      IsKeeping-bind time_now _ IsKeeping-time_now λ now.
        IsKeeping-bind (process_events (generate_events now) 0) _
          (IsKeeping-process_events (generate_events now) 0) λ n. IsKeeping-pure (ok n)

  module _ (web : Web F) (h : Handler F) (html : String) where
    -- The states that the service is in between requests, which come one after the other.
    pub data Reach : System F → Type 0 where
      started : Reach initial_system
      served :
          {s : System F} → Reach s → (e : Endpoint) (r : Request) → Reach (serve web h html e r s).1

    Reach-keeping : {s : System F} → IsKeeping h.generator → Reach s → IsOrderly s
    Reach-keeping g started = IsOrderly-initial_system
    Reach-keeping g (served {s} reach e r) =
        (IsKeeping-serve web h html g e r).at s (Reach-keeping g reach)

  -- Whatever requests come, in whatever order and with whatever bodies: the store stays consistent;
  -- each hard decline in it is HARD_DECLINED and was never retried; each soft decline in it is
  -- RECOVERED or EXHAUSTED after at most three attempts, numbered from 1, which its count and its
  -- cost sum up and which have all failed if it is EXHAUSTED; and no adaptive record counts more
  -- successes than outcomes.
  pub Reach-IsOrderly :
      (web : Web F) (generate_events : Time → List (FailureEvent F)) (docs_found : Bool)
      (root html : String) {s : System F}
      → Reach web (new_handler generate_events docs_found root) html s
      → IsOrderly s
  unfolding new_handler
  Reach-IsOrderly web generate_events docs_found root html reach =
      Reach-keeping web (new_handler generate_events docs_found root) html
        (IsKeeping-generator generate_events) reach
