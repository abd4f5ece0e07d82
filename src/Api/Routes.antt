-- ===== src/Api/Routes.antt =====
-- RegisterRoutes of internal/api/handler.go. The router of chi is not part of the repository: which
-- path leads to which route is its matter, and a request arrives with the endpoint it was given to.
use smart_retry_orchestrator.Float.{Float64}
use smart_retry_orchestrator.Orchestrator.State.{Env, Action}
use smart_retry_orchestrator.Classifier.{Classifier}
use smart_retry_orchestrator.Api.Web.{Web, Handler, HandlerFunc, Request}
use smart_retry_orchestrator.Common.{String, [], none, Bool}
use smart_retry_orchestrator.Api.Responses.{ResponseWriter, Content}
use smart_retry_orchestrator.Api.Handlers.{
  health_check, serve_open_api, serve_swagger_ui, submit_failure, report_retry_outcome,
  generate_test_data, reset_data,
}
use smart_retry_orchestrator.Api.Middleware.{
  with_request_id, with_json_content_type, with_request_logger,
}
use smart_retry_orchestrator.Api.Batch.{submit_batch}
use smart_retry_orchestrator.Api.Queries.{
  list_transactions_handler, get_transaction_handler, get_retry_history, get_processor_health,
  get_recovery_metrics_handler, get_processor_metrics_handler, get_adaptive_strategy,
}

pub data Endpoint : Type 0 where
  get_service_health get_docs_openapi get_docs : Endpoint
  post_failures post_failures_batch post_retry_outcome : Endpoint
  get_transactions get_transaction_by_id get_transaction_retries : Endpoint
  get_processors_health : Endpoint
  get_metrics_recovery get_metrics_processors : Endpoint
  get_strategy : Endpoint
  post_test_generate post_test_reset : Endpoint

module _ {F : Type 0} where
  -- the writer that net/http gives to the first middleware
  unfoldable pub new_writer : (Content F → Bool) → ResponseWriter F
  new_writer encodes = record { header = []; status = none; content = []; encodes = encodes }

module _ {F : Type 0} ⦃fl : Float64 F⦄ ⦃env : Env F⦄ ⦃cl : Classifier F⦄ (web : Web F)
    (h : Handler F) (html : String) where
  unfoldable pub endpoint : Endpoint → HandlerFunc F
  endpoint get_service_health = health_check
  endpoint get_docs_openapi = serve_open_api web h
  endpoint get_docs = serve_swagger_ui html
  endpoint post_failures = submit_failure web
  endpoint post_failures_batch = submit_batch web
  endpoint post_retry_outcome = report_retry_outcome web
  endpoint get_transactions = list_transactions_handler web
  endpoint get_transaction_by_id = get_transaction_handler
  endpoint get_transaction_retries = get_retry_history
  endpoint get_processors_health = get_processor_health
  endpoint get_metrics_recovery = get_recovery_metrics_handler web
  endpoint get_metrics_processors = get_processor_metrics_handler web
  endpoint get_strategy = get_adaptive_strategy
  endpoint post_test_generate = generate_test_data h
  endpoint post_test_reset = reset_data

  -- the middleware in the order of r.Use, the first outermost
  unfoldable pub serve : Endpoint → Request → Action F (ResponseWriter F)
  unfolding endpoint new_writer with_request_id with_json_content_type with_request_logger
  serve e r =
      with_request_id (with_json_content_type (with_request_logger (endpoint e))) r
        (new_writer (web.encodes r))
