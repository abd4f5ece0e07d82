-- ===== src/Concurrent/Handled.antt =====
-- The calls of the handlers of internal/api/handler.go, of their middleware, and of the generator of
-- cmd/server/main.go. GetAllHealth reads the clock under its lock; here it reads it before.
use smart_retry_orchestrator.Float.{Float64}
use smart_retry_orchestrator.Service.Endpoints.{headed}
use smart_retry_orchestrator.Orchestrator.State.{time_now, gets, Env, Action}
use smart_retry_orchestrator.Concurrent.Calls.{
  Calls, Call, call, light, store_read, clock, then_, emptying, return, tracker_reset,
  adaptive_read, tracker_read,
}
use smart_retry_orchestrator.Store.{
  MemoryStore, list_transactions, get_decision_logs, get_transaction, get_all_transactions_in_range,
}
use smart_retry_orchestrator.Classifier.{Classifier}
use smart_retry_orchestrator.Api.Web.{Web, Handler, Request}
use smart_retry_orchestrator.Server.{generator, process_events, count_if_ok}
use smart_retry_orchestrator.Health.{RollingHealthTracker, get_all_health}
use smart_retry_orchestrator.Domain.Models.{Time, FailureEvent, Transaction, ProcessorMetrics}
use smart_retry_orchestrator.Api.Handlers.{
  reset_stores, unless_invalid, accept_failure, report_decoded, submit_decoded, health_check,
  serve_open_api, serve_swagger_ui, submit_failure, report_retry_outcome, generate_test_data,
  reset_data, invalid_request, invalid_json, answer_result, answer_outcome, answer_generated,
}
use smart_retry_orchestrator.Api.Queries.{
  parse_time_range, answer_history, processors_in, recovery_in, TimeRange, range_from,
  list_transactions_handler, get_transaction_handler, get_retry_history, get_processor_health,
  get_recovery_metrics_handler, get_processor_metrics_handler, get_adaptive_strategy, invalid_time,
  answer_missing, filter_of, time_range, answer_listing, answer_transaction, answer_recovery,
  answer_processors, metrics_of,
}
use smart_retry_orchestrator.Api.Requests.{
  to_event, FailureRequest, RetryOutcomeRequest, BatchFailureRequest, event_at, validate_failure,
  validate_outcome, validate_batch,
}
use smart_retry_orchestrator.Api.Routes.{
  serve, endpoint, Endpoint, get_service_health, get_docs_openapi, get_docs, post_failures,
  post_failures_batch, post_retry_outcome, get_transactions, get_transaction_by_id,
  get_transaction_retries, get_processors_health, get_metrics_recovery, get_metrics_processors,
  get_strategy, post_test_generate, post_test_reset,
}
use smart_retry_orchestrator.Common.{List, Option, String, ℕ, ◌∷◌, some, [], length}
use smart_retry_orchestrator.Api.Batch.{
  submit_item, submit_items, submit_batch_decoded, submit_batch, add_error, add_result,
  empty_response,
}
use smart_retry_orchestrator.Domain.Errors.{Result, ok, err}
use smart_retry_orchestrator.Api.Responses.{
  ResponseWriter, BatchResponse, respond_error, status_bad_request, respond_json, status_ok,
  status_created, batch_content, history_content, snapshots_content, texts_content, weights_content,
}
use smart_retry_orchestrator.Concurrent.Orchestrated.{
  process_failure_calls, record_retry_outcome_calls,
}
use smart_retry_orchestrator.Common.{none}
use smart_retry_orchestrator.Metrics.{get_recovery_metrics, metrics_over}
use smart_retry_orchestrator.Orchestrator.Adaptive.{get_adaptive_weights}
use smart_retry_orchestrator.Common.Dict.{Dict}
use smart_retry_orchestrator.Domain.Enums.{processor_a, processor_b, processor_c}

module _ {F : Type 0} where
  unfoldable pub time_calls : ⦃fl : Float64 F⦄ ⦃env : Env F⦄ → Calls {F = F} Call Time time_now
  time_calls = call (light _ _ clock)

  unfoldable pub store_calls :
      ⦃fl : Float64 F⦄ ⦃env : Env F⦄
      → (A : Type 0) (f : MemoryStore F → RollingHealthTracker → A)
      → Calls {F = F} Call A (gets (λ s. f s.store s.health_tracker))
  store_calls A f = call (light _ _ (store_read A f))

  unfoldable pub metrics_calls :
      ⦃fl : Float64 F⦄ ⦃env : Env F⦄ (found : Option (List (Transaction F)))
      → Calls {F = F} Call (Option (Dict (ProcessorMetrics F))) (metrics_of found)
  unfolding metrics_of
  metrics_calls none = return none
  metrics_calls (some txns) = then_ (call (light _ _ (tracker_read processor_a))) λ a.
      then_ (call (light _ _ (tracker_read processor_b))) λ b.
        then_ (call (light _ _ (tracker_read processor_c)))
          λ c. return (some (metrics_over a b c txns))

  unfoldable pub reset_calls :
      ⦃fl : Float64 F⦄ ⦃env : Env F⦄ → Calls {F = F} Call (Unit {0}) reset_stores
  unfolding reset_stores
  reset_calls = then_ (call emptying) λ _. call (light _ _ tracker_reset)

module _ {F : Type 0} ⦃fl : Float64 F⦄ ⦃env : Env F⦄ ⦃cl : Classifier F⦄ (web : Web F) where
  unfoldable pub to_event_calls :
      (parse_time : String → Option Time) (req : FailureRequest F)
      → Calls {F = F} Call (FailureEvent F) (to_event parse_time req)
  unfolding to_event
  to_event_calls parse_time req = then_ time_calls λ now. return (event_at parse_time now req)

  unfoldable pub accept_failure_calls :
      (req : FailureRequest F) (w : ResponseWriter F)
      → Calls {F = F} Call (ResponseWriter F) (accept_failure web req w)
  unfolding accept_failure
  accept_failure_calls req w =
      then_ (to_event_calls web.parse_time req)
        λ event. then_ (process_failure_calls event) λ result. return (answer_result result w)

  unfoldable pub unless_invalid_calls :
      (errs : List String) {next : Action F (ResponseWriter F)} (w : ResponseWriter F)
      → Calls Call (ResponseWriter F) next
      → Calls Call (ResponseWriter F) (unless_invalid web errs next w)
  unfolding unless_invalid
  unless_invalid_calls [] w k = k
  unless_invalid_calls (e ∷ errs) w k = return (invalid_request (e ∷ errs) w)

  unfoldable pub submit_calls :
      (req : Option (FailureRequest F)) (w : ResponseWriter F)
      → Calls {F = F} Call (ResponseWriter F) (submit_decoded web req w)
  unfolding submit_decoded
  submit_calls none w = return (invalid_json w)
  submit_calls (some req) w =
      unless_invalid_calls (validate_failure req) w (accept_failure_calls req w)

  unfoldable pub submit_item_calls :
      (errs : List String) (req : FailureRequest F) (resp : BatchResponse)
      → Calls {F = F} Call BatchResponse (submit_item web errs req resp)
  unfolding submit_item
  submit_item_calls (e ∷ errs) req resp = return (add_error req.transaction_id e resp)
  submit_item_calls [] req resp = then_ (to_event_calls web.parse_time req) λ event.
      then_ (process_failure_calls event)
        λ result. return (add_result req.transaction_id result resp)

  unfoldable pub submit_items_calls :
      (reqs : List (FailureRequest F)) (resp : BatchResponse)
      → Calls {F = F} Call BatchResponse (submit_items web reqs resp)
  unfolding submit_items
  submit_items_calls [] resp = return resp
  submit_items_calls (req ∷ rest) resp =
      then_ (submit_item_calls (validate_failure req) req resp) (submit_items_calls rest)

  unfoldable pub submit_batch_calls :
      (req : Option (BatchFailureRequest F)) (w : ResponseWriter F)
      → Calls {F = F} Call (ResponseWriter F) (submit_batch_decoded web req w)
  unfolding submit_batch_decoded
  submit_batch_calls none w = return (invalid_json w)
  submit_batch_calls (some req) w = unless_invalid_calls (validate_batch req) w (
      then_ (submit_items_calls req.events (empty_response (length req.events)))
        λ resp. return (respond_json status_created (batch_content resp) w))

  unfoldable pub report_calls :
      (id : String) (req : Option RetryOutcomeRequest) (w : ResponseWriter F)
      → Calls {F = F} Call (ResponseWriter F) (report_decoded web id req w)
  unfolding report_decoded
  report_calls id none w = return (invalid_json w)
  report_calls id (some req) w = unless_invalid_calls (validate_outcome req) w (
      then_ (record_retry_outcome_calls id req.processor req.success)
        λ result. return (answer_outcome result w))

  unfoldable pub recovery_calls :
      (range : TimeRange) (w : ResponseWriter F)
      → Calls {F = F} Call (ResponseWriter F) (recovery_in web range w)
  unfolding recovery_in
  recovery_calls (invalid_time message) w =
      return (respond_error status_bad_request "INVALID_PARAMS" (message ∷ []) w)
  recovery_calls (time_range start end) w =
      then_ (store_calls _ (λ store _. get_recovery_metrics start end store))
        λ m. return (answer_recovery web m w)

  unfoldable pub processors_calls :
      (range : TimeRange) (w : ResponseWriter F)
      → Calls {F = F} Call (ResponseWriter F) (processors_in web range w)
  unfolding processors_in
  processors_calls (invalid_time message) w =
      return (respond_error status_bad_request "INVALID_PARAMS" (message ∷ []) w)
  processors_calls (time_range start end) w =
      then_ (store_calls _ (λ store _. get_all_transactions_in_range store start end))
        λ found. then_ (metrics_calls found) λ m. return (answer_processors web m w)

  unfoldable pub range_calls : (r : Request) → Calls {F = F} Call TimeRange (parse_time_range web r)
  unfolding parse_time_range
  range_calls r = then_ time_calls λ now. return (range_from web.parse_time r now)

  unfoldable pub history_calls :
      (id : String) (found : Result (Transaction F)) (w : ResponseWriter F)
      → Calls {F = F} Call (ResponseWriter F) (answer_history id found w)
  unfolding answer_history
  history_calls id (err e) w = return (answer_missing e w)
  history_calls id (ok tx) w =
      then_ (store_calls _ (λ store _. get_decision_logs store id)) λ decisions.
        return
          (respond_json status_ok (history_content id tx.retry_count tx.retry_attempts decisions) w)

  unfoldable pub endpoint_calls :
      (h : Handler F) (html : String)
      → Calls Call (Result ℕ) h.generator
      → (e : Endpoint) (r : Request) (w : ResponseWriter F)
      → Calls {F = F} Call (ResponseWriter F) (endpoint web h html e r w)
  unfolding endpoint health_check serve_open_api serve_swagger_ui submit_failure submit_batch
      report_retry_outcome list_transactions_handler get_transaction_handler get_retry_history
      get_processor_health get_recovery_metrics_handler get_processor_metrics_handler
      get_adaptive_strategy generate_test_data reset_data
  endpoint_calls h html g get_service_health r w = return _
  endpoint_calls h html g get_docs_openapi r w = return _
  endpoint_calls h html g get_docs r w = return _
  endpoint_calls h html g post_failures r w = submit_calls (web.decode_failure r.body) w
  endpoint_calls h html g post_failures_batch r w = submit_batch_calls (web.decode_batch r.body) w
  endpoint_calls h html g post_retry_outcome r w =
      report_calls r.transaction_id (web.decode_outcome r.body) w
  endpoint_calls h html g get_transactions r w =
      then_ (store_calls _ (λ store _. list_transactions store (filter_of web r)))
        λ txns. return (answer_listing web txns w)
  endpoint_calls h html g get_transaction_by_id r w =
      then_ (store_calls _ (λ store _. get_transaction store r.transaction_id))
        λ found. return (answer_transaction found w)
  endpoint_calls h html g get_transaction_retries r w =
      then_ (store_calls _ (λ store _. get_transaction store r.transaction_id))
        λ found. history_calls r.transaction_id found w
  endpoint_calls h html g get_processors_health r w = then_ time_calls λ now.
      then_ time_calls λ now'. then_ time_calls λ now''.
        then_ (store_calls _ (λ _. get_all_health now now' now''))
          λ snapshots. return (respond_json status_ok (snapshots_content snapshots) w)
  endpoint_calls h html g get_metrics_recovery r w =
      then_ (range_calls r) λ range. recovery_calls range w
  endpoint_calls h html g get_metrics_processors r w =
      then_ (range_calls r) λ range. processors_calls range w
  endpoint_calls h html g get_strategy r w =
      then_ (call (light _ _ (adaptive_read _ (get_adaptive_weights {F = F})))) λ weights. return (
        respond_json status_ok
          (weights_content weights
            "Per-error-code, per-processor success rates learned from retry outcomes")
          w)
  endpoint_calls h html g post_test_generate r w =
      then_ g λ count. return (answer_generated count w)
  endpoint_calls h html g post_test_reset r w = then_ reset_calls λ _. return (
      respond_json status_ok
        (texts_content (("status", "reset") ∷ ("message", "All data cleared successfully") ∷ [])) w)

  unfoldable pub serve_calls :
      (h : Handler F) (html : String)
      → Calls Call (Result ℕ) h.generator
      → (e : Endpoint) (r : Request) → Calls {F = F} Call (ResponseWriter F) (serve web h html e r)
  unfolding serve
  serve_calls h html g e r = then_ time_calls λ start.
      then_ (endpoint_calls h html g e r (headed web r)) λ w. then_ time_calls λ end. return w

module _ {F : Type 0} ⦃fl : Float64 F⦄ ⦃env : Env F⦄ ⦃cl : Classifier F⦄ where
  unfoldable pub process_events_calls :
      (events : List (FailureEvent F)) (processed : ℕ)
      → Calls {F = F} Call ℕ (process_events events processed)
  unfolding process_events
  process_events_calls [] processed = return processed
  process_events_calls (event ∷ rest) processed =
      then_ (process_failure_calls event)
        λ result. process_events_calls rest (count_if_ok result processed)

  unfoldable pub generator_calls :
      (generate_events : Time → List (FailureEvent F))
      → Calls {F = F} Call (Result ℕ) (generator generate_events)
  unfolding generator
  generator_calls generate_events = then_ reset_calls λ _.
      then_ time_calls λ now.
        then_ (process_events_calls (generate_events now) 0) λ processed. return (ok processed)
