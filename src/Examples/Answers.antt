-- ===== src/Examples/Answers.antt =====
-- The answers of the handlers of internal/api/handler.go on concrete requests.
use smart_retry_orchestrator.Examples.Requests.{web, request, request_of, writer}
use smart_retry_orchestrator.Examples.Samples.{
  ticking, one_system, two_stored, one_store-Represents,
}
use smart_retry_orchestrator.Classifier.Policy.{default_classifier}
use smart_retry_orchestrator.Float.{ratio_float, Ratio}
use smart_retry_orchestrator.Api.Requests.{validate_failure, append_if}
use smart_retry_orchestrator.Common.{String, ◌≡◌, refl, ◌∷◌, [], false, some}
use smart_retry_orchestrator.Api.Queries.{
  get_transaction_handler, get_recovery_metrics_handler, get_processor_metrics_handler,
}
use smart_retry_orchestrator.Service.Reports.{Reported, report_retry_outcome_answers}
use smart_retry_orchestrator.Common.Text.{concat}
use smart_retry_orchestrator.Api.Web.{Request}
use smart_retry_orchestrator.Api.Handlers.{report_retry_outcome, submit_failure}
use smart_retry_orchestrator.Api.Validity.{IsAcceptable, validate_failure_iff}
use smart_retry_orchestrator.Api.Responses.{
  respond_error, respond_json, status_ok, status_not_found, write_header, raw_content,
}
use smart_retry_orchestrator.Service.Lookups.{IsReadBack, submit_then_get}
use smart_retry_orchestrator.Service.Submit.{event_of}
use smart_retry_orchestrator.Service.Ranges.{RangeAnswer, get_recovery_metrics_answers}
use smart_retry_orchestrator.Service.Processors.{ProcessorsAnswer, get_processor_metrics_answers}
use smart_retry_orchestrator.Api.Routes.{new_writer}

abbrev request_for : String → Request
request_for id = record request { transaction_id = id }

request_of-IsAcceptable : IsAcceptable (request_of "txn-1")
unfolding validate_failure append_if concat
request_of-IsAcceptable = (validate_failure_iff (request_of "txn-1")).0 refl

submit_then_get_example :
    ((get_transaction_handler (request_for "txn-1") writer one_system).0
      ≡ respond_error status_not_found "NOT_FOUND" ("transaction not found" ∷ []) writer)
    × let (posted, t) = submit_failure web request writer one_system in
      IsReadBack web
        (request_of "txn-1")
        (event_of web (request_of "txn-1") one_system)
        writer
        writer
        posted
        (get_transaction_handler (request_for "txn-1") writer t).0
submit_then_get_example =
    submit_then_get web (request_of "txn-1") request (request_for "txn-1") writer writer one_system
      two_stored one_store-Represents refl request_of-IsAcceptable refl refl

report_retry_outcome_answers_example :
    Reported web one_system two_stored "txn-7"
      (web.decode_outcome request.body)
      writer
      (report_retry_outcome web (request_for "txn-7") writer one_system)
report_retry_outcome_answers_example =
    report_retry_outcome_answers web (request_for "txn-7") writer one_system two_stored
      one_store-Represents

-- The range is the last day before the clock's time.
get_recovery_metrics_answers_example :
    RangeAnswer web request writer one_system two_stored
      (get_recovery_metrics_handler web request writer one_system).0
get_recovery_metrics_answers_example =
    get_recovery_metrics_answers web request writer one_system two_stored one_store-Represents

get_processor_metrics_answers_example :
    ProcessorsAnswer web request writer one_system two_stored
      (get_processor_metrics_handler web request writer one_system).0
get_processor_metrics_answers_example =
    get_processor_metrics_answers web request writer one_system two_stored one_store-Represents

-- A value that Encode fails for leaves the status, and no body.
unencoded :
    respond_json status_ok (raw_content "") (new_writer {F = Ratio} (λ content. false))
    ≡ record { header = []; status = some 200; content = []; encodes = λ content. false }
unfolding respond_json write_header new_writer
unencoded = refl
