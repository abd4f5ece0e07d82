-- ===== src/Api/Handlers.antt =====
-- The handlers of internal/api/handler.go that read or write one thing. A handler gets the response
-- writer and returns what it has made of it. `none` from the store or from the metrics is a panic,
-- after which nothing is written.
use smart_retry_orchestrator.Store
use smart_retry_orchestrator.Health
use smart_retry_orchestrator.Float.{Float64}
use smart_retry_orchestrator.Orchestrator.State.{pure, Env, Action, ◌>>◌, ◌>>=◌}
use smart_retry_orchestrator.Api.Responses.{
  set_header, respond_json, respond_error, ResponseWriter, write_header, write, status_bad_request,
  raw_content, status_ok, status_not_found, texts_content, health_content,
  status_internal_server_error, status_created, generated_content, status_conflict, result_content,
}
use smart_retry_orchestrator.Common.{
  ◌∷◌, Option, String, List, [], ℕ, some, none, if◌then◌else◌, str_eq,
}
use smart_retry_orchestrator.Api.Web.{Handler, Web, HandlerFunc}
use smart_retry_orchestrator.Domain.Errors.{is_duplicate, is_not_found, error_text, Result, err, ok}
use smart_retry_orchestrator.Classifier.{Classifier}
use smart_retry_orchestrator.Api.Requests.{
  validate_failure, to_event, validate_outcome, RetryOutcomeRequest, FailureRequest,
}
use smart_retry_orchestrator.Domain.Models.{ProcessFailureResult}
use smart_retry_orchestrator.Orchestrator.Process.{record_retry_outcome, process_failure}

module _ {F : Type 0} ⦃fl : Float64 F⦄ where
  unfoldable pub health_check : HandlerFunc F
  unfolding respond_json pure
  health_check r w =
      pure (respond_json status_ok (health_content (record { status = "ok"; version = "1.0.0" })) w)

  -- `html` is the page of the source
  unfoldable pub serve_swagger_ui : (html : String) → HandlerFunc F
  unfolding set_header write_header write pure
  serve_swagger_ui html r w =
      pure (
        write (raw_content html) (write_header status_ok (set_header "Content-Type" "text/html" w)))

  -- what is done with the file that os.ReadFile has read
  unfoldable pub serve_file : Option String → ResponseWriter F → ResponseWriter F
  unfolding respond_error set_header write_header write
  serve_file none w =
      respond_error status_not_found "NOT_FOUND" ("OpenAPI spec file not found" ∷ []) w
  serve_file (some bytes) w =
      write (raw_content bytes)
        (write_header status_ok (set_header "Content-Type" "application/yaml" w))

  unfoldable pub serve_open_api : Web F → Handler F → HandlerFunc F
  unfolding serve_file respond_error pure
  serve_open_api web h r w = pure (
      if str_eq h.openapi_path ""
      then respond_error status_not_found "NOT_FOUND" ("OpenAPI spec path not configured" ∷ []) w
      else serve_file (web.read_file h.openapi_path) w)

  unfoldable pub invalid_json : ResponseWriter F → ResponseWriter F
  unfolding respond_error
  invalid_json = respond_error status_bad_request "INVALID_JSON" ("invalid JSON body" ∷ [])

  unfoldable pub invalid_request : List String → ResponseWriter F → ResponseWriter F
  unfolding respond_error
  invalid_request errs = respond_error status_bad_request "VALIDATION_ERROR" errs

  -- the answers to what ProcessFailure and RecordRetryOutcome return
  unfoldable pub answer_result :
      Result (ProcessFailureResult F) → ResponseWriter F → ResponseWriter F
  unfolding respond_error respond_json is_duplicate error_text
  answer_result (err e) w =
      if is_duplicate e
      then respond_error status_conflict "DUPLICATE_TRANSACTION"
          ("transaction ID already exists" ∷ []) w
      else respond_error status_internal_server_error "PROCESSING_ERROR" (error_text e ∷ []) w
  answer_result (ok result) w = respond_json status_created (result_content result) w

  unfoldable pub answer_outcome : Result (Unit {0}) → ResponseWriter F → ResponseWriter F
  unfolding respond_error respond_json is_not_found error_text
  answer_outcome (err e) w =
      if is_not_found e
      then respond_error status_not_found "NOT_FOUND" ("transaction not found" ∷ []) w
      else respond_error status_internal_server_error "PROCESSING_ERROR" (error_text e ∷ []) w
  answer_outcome (ok _) w = respond_json status_ok (texts_content (("status", "recorded") ∷ [])) w

  module _ ⦃env : Env F⦄ ⦃cl : Classifier F⦄ (web : Web F) where
    -- SubmitFailure once the request has been found valid
    unfoldable pub accept_failure :
        FailureRequest F → ResponseWriter F → Action F (ResponseWriter F)
    unfolding answer_result to_event pure
    accept_failure req w = do
      event ← to_event web.parse_time req
      result ← process_failure event
      pure (answer_result result w)

    -- the guard on what Validate returns
    unfoldable pub unless_invalid :
        List String → Action F (ResponseWriter F) → ResponseWriter F → Action F (ResponseWriter F)
    unfolding invalid_request pure
    unless_invalid [] next w = next
    unless_invalid (e ∷ errs) next w = pure (invalid_request (e ∷ errs) w)

    unfoldable pub submit_decoded :
        Option (FailureRequest F) → ResponseWriter F → Action F (ResponseWriter F)
    unfolding unless_invalid accept_failure invalid_json validate_failure pure
    submit_decoded none w = pure (invalid_json w)
    submit_decoded (some req) w = unless_invalid (validate_failure req) (accept_failure req w) w

    unfoldable pub submit_failure : HandlerFunc F
    unfolding submit_decoded
    submit_failure r w = submit_decoded (web.decode_failure r.body) w

    unfoldable pub report_decoded :
        String → Option RetryOutcomeRequest → ResponseWriter F → Action F (ResponseWriter F)
    unfolding unless_invalid answer_outcome invalid_json validate_outcome pure
    report_decoded id none w = pure (invalid_json w)
    report_decoded id (some req) w =
        unless_invalid (validate_outcome req)
          (do
            result ← record_retry_outcome id req.processor req.success
            pure (answer_outcome result w))
          w

    unfoldable pub report_retry_outcome : HandlerFunc F
    unfolding report_decoded
    report_retry_outcome r w = report_decoded r.transaction_id (web.decode_outcome r.body) w

  -- what is answered with the count of the generator
  unfoldable pub answer_generated : Result ℕ → ResponseWriter F → ResponseWriter F
  unfolding respond_error respond_json error_text
  answer_generated (err e) w =
      respond_error status_internal_server_error "GENERATOR_ERROR" (error_text e ∷ []) w
  answer_generated (ok count) w =
      respond_json status_created
        (generated_content "generated" count "Test events generated and processed successfully") w

  unfoldable pub generate_test_data : Handler F → HandlerFunc F
  unfolding answer_generated pure
  generate_test_data h r w = do count ← h.generator; pure (answer_generated count w)

  -- h.store.Reset(), which returns no error
  unfoldable pub reset_store : Action F (Unit {0})
  reset_store s = (tt, record s { store = Store.reset s.store })

  -- h.healthTracker.Reset()
  unfoldable pub reset_health : Action F (Unit {0})
  reset_health s = (tt, record s { health_tracker = Health.reset s.health_tracker })

  unfoldable pub reset_stores : Action F (Unit {0})
  unfolding reset_store reset_health
  reset_stores = do reset_store; reset_health

  unfoldable pub reset_data : HandlerFunc F
  unfolding reset_stores respond_json pure
  reset_data r w = do
    reset_stores
    pure (
        respond_json status_ok
          (texts_content (("status", "reset") ∷ ("message", "All data cleared successfully") ∷ []))
          w)
