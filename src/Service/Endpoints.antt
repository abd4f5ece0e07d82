-- ===== src/Service/Endpoints.antt =====
-- Every endpoint of internal/api/handler.go keeps the service orderly.
use smart_retry_orchestrator.Service.Orderly.{
  IsKeeping-bind, IsKeeping-pure, IsKeeping-gets, IsKeeping-if, IsKeeping-time_now,
  IsKeeping-process_failure, IsKeeping-record_retry_outcome, IsKeeping-reset_stores, IsKeeping,
  IsKeeping-IsQuiet,
}
use smart_retry_orchestrator.Float.{Float64}
use smart_retry_orchestrator.Orchestrator.State.{Env, Action, time_now, health_of}
use smart_retry_orchestrator.Classifier.{Classifier}
use smart_retry_orchestrator.Api.Web.{Web, Handler, Request}
use smart_retry_orchestrator.Api.Handlers.{
  unless_invalid, submit_decoded, report_decoded, accept_failure, health_check, serve_open_api,
  serve_swagger_ui, submit_failure, report_retry_outcome, generate_test_data, reset_data,
  answer_generated,
}
use smart_retry_orchestrator.Api.Queries.{
  recovery_in, processors_in, answer_history, TimeRange, invalid_time, time_range,
  list_transactions_handler, get_transaction_handler, get_retry_history, get_processor_health,
  get_recovery_metrics_handler, parse_time_range, get_processor_metrics_handler,
  get_adaptive_strategy, metrics_of,
}
use smart_retry_orchestrator.Api.Routes.{
  serve, endpoint, Endpoint, get_service_health, get_docs_openapi, new_writer, get_docs,
  post_failures, post_failures_batch, post_retry_outcome, get_transactions, get_transaction_by_id,
  get_transaction_retries, get_processors_health, get_metrics_recovery, get_metrics_processors,
  get_strategy, post_test_generate, post_test_reset,
}
use smart_retry_orchestrator.Api.Batch.{
  submit_item, submit_batch_decoded, submit_items, empty_response, submit_batch,
}
use smart_retry_orchestrator.Api.Responses.{
  ResponseWriter, BatchResponse, respond_json, set_header, status_created, batch_content,
}
use smart_retry_orchestrator.Common.{
  String, List, Option, ◌∷◌, some, [], none, length, if◌then◌else◌, str_eq,
}
use smart_retry_orchestrator.Api.Requests.{
  to_event, BatchFailureRequest, FailureRequest, RetryOutcomeRequest, validate_outcome,
  validate_batch, validate_failure,
}
use smart_retry_orchestrator.Domain.Errors.{Result, err, ok}
use smart_retry_orchestrator.Domain.Models.{Transaction}
use smart_retry_orchestrator.Domain.Enums.{ProcessorName}
use smart_retry_orchestrator.Orchestrator.Quiet.{IsQuiet-health_of}

pub ruleset keeping = (
  IsKeeping-bind, IsKeeping-pure, IsKeeping-gets, IsKeeping-if, IsKeeping-time_now,
  IsKeeping-process_failure, IsKeeping-record_retry_outcome, IsKeeping-reset_stores,
)

module _ {F : Type 0} where
  -- the writer that reaches the handler
  abbrev pub headed : Web F → Request → ResponseWriter F
  headed web r = set_header "Content-Type" "application/json" (
      set_header "X-Request-ID" (if str_eq r.header_id "" then r.fresh_id else r.header_id)
        (new_writer (web.encodes r)))

module _ {F : Type 0} ⦃fl : Float64 F⦄ ⦃env : Env F⦄ ⦃cl : Classifier F⦄ (web : Web F) where
  IsKeeping-unless_invalid :
      (errs : List String) (next : Action F (ResponseWriter F)) (w : ResponseWriter F)
      → IsKeeping next
      → IsKeeping (unless_invalid web errs next w)
  unfolding unless_invalid
  IsKeeping-unless_invalid [] next w h = h
  IsKeeping-unless_invalid (e ∷ errs) next w h = search keeping

  IsKeeping-accept_failure :
      (req : FailureRequest F) (w : ResponseWriter F) → IsKeeping (accept_failure web req w)
  unfolding accept_failure to_event
  IsKeeping-accept_failure req w = search keeping

  IsKeeping-submit_failure :
      (req : Option (FailureRequest F)) (w : ResponseWriter F)
      → IsKeeping (submit_decoded web req w)
  unfolding submit_decoded
  IsKeeping-submit_failure none w = search keeping
  IsKeeping-submit_failure (some req) w =
      IsKeeping-unless_invalid (validate_failure req) _ w (IsKeeping-accept_failure req w)

  pub IsKeeping-submit_item :
      (errs : List String) (req : FailureRequest F) (resp : BatchResponse)
      → IsKeeping (submit_item web errs req resp)
  unfolding submit_item to_event
  IsKeeping-submit_item [] req resp = search keeping
  IsKeeping-submit_item (e ∷ errs) req resp = search keeping

  pub IsKeeping-submit_items :
      (reqs : List (FailureRequest F)) (resp : BatchResponse)
      → IsKeeping (submit_items web reqs resp)
  unfolding submit_items
  IsKeeping-submit_items [] resp = search keeping
  IsKeeping-submit_items (req ∷ rest) resp =
      IsKeeping-bind (submit_item web (validate_failure req) req resp) _
        (IsKeeping-submit_item (validate_failure req) req resp)
        λ resp'. IsKeeping-submit_items rest resp'

  IsKeeping-submit_batch :
      (req : Option (BatchFailureRequest F)) (w : ResponseWriter F)
      → IsKeeping (submit_batch_decoded web req w)
  unfolding submit_batch_decoded
  IsKeeping-submit_batch none w = search keeping
  IsKeeping-submit_batch (some req) w = IsKeeping-unless_invalid (validate_batch req) _ w (
      IsKeeping-bind (submit_items web req.events (empty_response (length req.events))) _
        (IsKeeping-submit_items req.events (empty_response (length req.events)))
        λ resp. IsKeeping-pure (respond_json status_created (batch_content resp) w))

  IsKeeping-report :
      (id : String) (req : Option RetryOutcomeRequest) (w : ResponseWriter F)
      → IsKeeping (report_decoded web id req w)
  unfolding report_decoded
  IsKeeping-report id none w = search keeping
  IsKeeping-report id (some req) w =
      IsKeeping-unless_invalid (validate_outcome req) _ w (search keeping)

  IsKeeping-recovery_in :
      (range : TimeRange) (w : ResponseWriter F) → IsKeeping (recovery_in web range w)
  unfolding recovery_in
  IsKeeping-recovery_in (invalid_time message) w = search keeping
  IsKeeping-recovery_in (time_range start end) w = search keeping

  IsKeeping-health_of : (p : ProcessorName) → IsKeeping (health_of {F = F} p)
  IsKeeping-health_of p = IsKeeping-IsQuiet (health_of p) (IsQuiet-health_of p)

  pub IsKeeping-metrics_of : (found : Option (List (Transaction F))) → IsKeeping (metrics_of found)
  unfolding metrics_of
  IsKeeping-metrics_of none = search keeping
  IsKeeping-metrics_of (some txns) = search (keeping, IsKeeping-health_of)

  IsKeeping-processors_in :
      (range : TimeRange) (w : ResponseWriter F) → IsKeeping (processors_in web range w)
  unfolding processors_in
  IsKeeping-processors_in (invalid_time message) w = search keeping
  IsKeeping-processors_in (time_range start end) w = search (keeping, IsKeeping-metrics_of)

  IsKeeping-answer_history :
      (id : String) (r : Result (Transaction F)) (w : ResponseWriter F)
      → IsKeeping (answer_history id r w)
  unfolding answer_history
  IsKeeping-answer_history id (err e) w = search keeping
  IsKeeping-answer_history id (ok tx) w = search keeping

  IsKeeping-endpoint :
      (h : Handler F) (html : String)
      → IsKeeping h.generator
      → (e : Endpoint) (r : Request) (w : ResponseWriter F) → IsKeeping (endpoint web h html e r w)
  unfolding endpoint
  IsKeeping-endpoint h html g get_service_health r w = unfold health_check in search keeping
  IsKeeping-endpoint h html g get_docs_openapi r w = unfold serve_open_api in search keeping
  IsKeeping-endpoint h html g get_docs r w = unfold serve_swagger_ui in search keeping
  IsKeeping-endpoint h html g post_failures r w =
      unfold submit_failure in IsKeeping-submit_failure (web.decode_failure r.body) w
  IsKeeping-endpoint h html g post_failures_batch r w =
      unfold submit_batch in IsKeeping-submit_batch (web.decode_batch r.body) w
  IsKeeping-endpoint h html g post_retry_outcome r w =
      unfold report_retry_outcome in IsKeeping-report r.transaction_id (web.decode_outcome r.body) w
  IsKeeping-endpoint h html g get_transactions r w =
      unfold list_transactions_handler in search keeping
  IsKeeping-endpoint h html g get_transaction_by_id r w =
      unfold get_transaction_handler in search keeping
  IsKeeping-endpoint h html g get_transaction_retries r w =
      unfold get_retry_history in search (keeping, IsKeeping-answer_history)
  IsKeeping-endpoint h html g get_processors_health r w =
      unfold get_processor_health in search keeping
  IsKeeping-endpoint h html g get_metrics_recovery r w =
      unfold get_recovery_metrics_handler parse_time_range in
      search (keeping, IsKeeping-recovery_in)
  IsKeeping-endpoint h html g get_metrics_processors r w =
      unfold get_processor_metrics_handler parse_time_range in
      search (keeping, IsKeeping-processors_in)
  IsKeeping-endpoint h html g get_strategy r w = unfold get_adaptive_strategy in search keeping
  IsKeeping-endpoint h html g post_test_generate r w =
      unfold generate_test_data in
      IsKeeping-bind h.generator _ g λ count. IsKeeping-pure (answer_generated count w)
  IsKeeping-endpoint h html g post_test_reset r w = unfold reset_data in search keeping

  -- A request leaves an orderly service orderly.
  pub IsKeeping-serve :
      (h : Handler F) (html : String)
      → IsKeeping h.generator
      → (e : Endpoint) (r : Request) → IsKeeping (serve web h html e r)
  unfolding serve
  IsKeeping-serve h html g e r = IsKeeping-bind time_now _ IsKeeping-time_now λ start.
      IsKeeping-bind _ _ (IsKeeping-endpoint h html g e r (headed web r))
        λ w. IsKeeping-bind time_now _ IsKeeping-time_now λ end. IsKeeping-pure w
