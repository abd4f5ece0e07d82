-- ===== src/Service/Resets.antt =====
-- POST /test/reset: resetData of internal/api/handler.go.
use smart_retry_orchestrator.Float.{Float64}
use smart_retry_orchestrator.Api.Handlers.{reset_data, reset_stores}
use smart_retry_orchestrator.Orchestrator.State.{System}
use smart_retry_orchestrator.Store.{get_decision_logs, new_memory_store}
use smart_retry_orchestrator.Health.{get_health, blank}
use smart_retry_orchestrator.Store.Refinement.{Represents, new_memory_store-Represents}
use smart_retry_orchestrator.Common.Dict.{lookup}
use smart_retry_orchestrator.Api.Web.{Request}
use smart_retry_orchestrator.Common.{[], String, ◌≡◌, ◌∷◌, refl}
use smart_retry_orchestrator.Api.Responses.{ResponseWriter, respond_json, status_ok, texts_content}
use smart_retry_orchestrator.Domain.Models.{Time}
use smart_retry_orchestrator.Domain.Enums.{ProcessorName, healthy, FailureReasonCode}
use smart_retry_orchestrator.Orchestrator.Adaptive.{get_adaptive_rate}
use smart_retry_orchestrator.Store
use smart_retry_orchestrator.Health

module _ {F : Type 0} ⦃fl : Float64 F⦄ where
  -- What a client can see after the reset: no transaction, no decision, no health event; and each
  -- adaptive rate as it was before.
  pub record IsReset (s t : System F) : Type 0 where
    pub no_transactions : Represents t.store []
    pub no_decisions : (id : String) → get_decision_logs t.store id ≡ []
    pub no_events :
        (now : Time) (p : ProcessorName)
        → (get_health {F = F} now t.health_tracker p).total_events ≡ 0
    pub all_healthy :
        (now : Time) (p : ProcessorName)
        → (get_health {F = F} now t.health_tracker p).state ≡ healthy
    pub rates_kept :
        (code : FailureReasonCode) (p : ProcessorName)
        → get_adaptive_rate {F = F} code p t.adaptive_data
          ≡ get_adaptive_rate code p s.adaptive_data

  -- A reset answers 200 whatever the state is. It removes all transactions and decisions, and every
  -- processor is healthy with no event; but what was learned of the success rates is kept.
  pub reset_data_lem :
      (r : Request) (w : ResponseWriter F) (s : System F)
      → ((reset_data r w s).0
          ≡ respond_json status_ok
              (texts_content
                (("status", "reset") ∷ ("message", "All data cleared successfully") ∷ []))
              w)
        × IsReset s (reset_data r w s).1
  unfolding reset_data reset_stores Store.reset Health.reset get_decision_logs get_health blank
      lookup new_memory_store
  reset_data_lem r w s = (
    refl,
    record {
      no_transactions = new_memory_store-Represents;
      no_decisions = λ id. refl;
      no_events = λ now p. refl;
      all_healthy = λ now p. refl;
      rates_kept = λ code p. refl;
    },
  )
