-- ===== src/Concurrent/Replies.antt =====
-- Every endpoint of internal/api/handler.go answers once, with a status that it allows, while other
-- requests are served.
use smart_retry_orchestrator.Float.{Float64}
use smart_retry_orchestrator.Orchestrator.State.{Action, Env, System}
use smart_retry_orchestrator.Concurrent.Calls.{Calls, Call}
use smart_retry_orchestrator.Concurrent.Keeping.{Keeps}
use smart_retry_orchestrator.Concurrent.Told.{Keeps-record_retry_outcome}
use smart_retry_orchestrator.Domain.Errors.{Result, ok, err}
use smart_retry_orchestrator.Domain.Models.{Transaction}
use smart_retry_orchestrator.Classifier.{Classifier}
use smart_retry_orchestrator.Common.{
  List, String, ℕ, Option, ◌∷◌, [], some, none, length, ◌≡◌, true, refl, str_eq,
}
use smart_retry_orchestrator.Concurrent.Orchestrated.{record_retry_outcome_calls}
use smart_retry_orchestrator.Concurrent.Handled.{
  report_calls, submit_batch_calls, processors_calls, history_calls, recovery_calls, endpoint_calls,
  reset_calls, submit_item_calls, unless_invalid_calls, submit_calls, serve_calls,
  submit_items_calls, accept_failure_calls, to_event_calls, time_calls, store_calls, range_calls,
  metrics_calls,
}
use smart_retry_orchestrator.Api.Web.{Web, Handler, Request}
use smart_retry_orchestrator.Api.Requests.{
  BatchFailureRequest, RetryOutcomeRequest, FailureRequest, event_at, validate_batch,
  validate_outcome, validate_failure,
}
use smart_retry_orchestrator.Api.Routes.{
  Endpoint, get_service_health, get_docs_openapi, get_docs, post_failures, post_failures_batch,
  post_retry_outcome, get_transactions, get_transaction_by_id, get_transaction_retries,
  get_processors_health, get_metrics_recovery, get_metrics_processors, get_strategy,
  post_test_generate, post_test_reset, new_writer,
}
use smart_retry_orchestrator.Api.Responses.{
  ResponseWriter, BatchResponse, batch_content, processors_content, recovery_content, set_header,
}
use smart_retry_orchestrator.Api.Queries.{
  TimeRange, invalid_time, range_from, time_range, answer_recovery, answer_processors,
  answer_listing, filter_of, answer_transaction,
}
use smart_retry_orchestrator.Service.Endpoints.{headed}
use smart_retry_orchestrator.Api.Batch.{empty_response}
use smart_retry_orchestrator.Concurrent.Kept.{IsHarmless, Keeps-mono, process_failure-then}
use smart_retry_orchestrator.Api.Handlers.{invalid_json, invalid_request}
use smart_retry_orchestrator.Service.Answers.{
  IsFresh, IsAnswered, IsAnswered-answer_result, IsAnswered-respond_json, IsAnswered-answer_missing,
  IsAnswered-answer_outcome, IsAnswered-serve_file, IsAnswered-answer_transaction,
  IsAnswered-answer_generated, expected, is_among, IsAnswered-if, IsAnswered-respond_error,
  headed-IsFresh, IsAnswered-raw,
}
use smart_retry_orchestrator.Concurrent.Lasting.{IsConsistent, IsFetched, IsFetched-get_transaction}
use smart_retry_orchestrator.Metrics.Counts.{get_recovery_metrics-IsRecovery}
use smart_retry_orchestrator.Store.{
  get_transaction, list_transactions, get_all_transactions_in_range,
}
use smart_retry_orchestrator.Store.Listing.{
  list_transactions-Represents, get_all_transactions_in_range-Represents,
}

module _ {F : Type 0} ⦃fl : Float64 F⦄ ⦃env : Env F⦄ ⦃cl : Classifier F⦄ (web : Web F) where
  -- The request returns with one answer, which has one of the statuses.
  abbrev pub Replies :
      {m : Action F (ResponseWriter F)}
      → List ℕ
      → ResponseWriter F
      → Calls Call (ResponseWriter F) m
      → Type 0
  Replies codes w c = Keeps c (IsAnswered codes w.encodes)

  Replies-accept_failure :
      (req : FailureRequest F) (w : ResponseWriter F)
      → IsFresh w
      → Replies (expected post_failures) w (accept_failure_calls web req w)
  unfolding accept_failure_calls to_event_calls time_calls
  Replies-accept_failure req w f = λ now.
      process_failure-then (event_at web.parse_time now req) _
        λ r h. IsAnswered-answer_result r w h f

  Replies-invalid_json :
      (codes : List ℕ) (w : ResponseWriter F)
      → is_among 400 codes ≡ true
      → IsFresh w
      → IsAnswered codes w.encodes (invalid_json w)
  unfolding invalid_json
  Replies-invalid_json codes w among f = IsAnswered-respond_error codes 400 _ _ w among f

  Replies-unless_invalid :
      (codes : List ℕ) (errs : List String) {next : Action F (ResponseWriter F)}
      (w : ResponseWriter F) (k : Calls Call (ResponseWriter F) next)
      → is_among 400 codes ≡ true
      → IsFresh w
      → Replies codes w k
      → Replies codes w (unless_invalid_calls web errs w k)
  unfolding unless_invalid_calls invalid_request
  Replies-unless_invalid codes [] w k among f h = h
  Replies-unless_invalid codes (e ∷ errs) w k among f h =
      IsAnswered-respond_error codes 400 _ _ w among f

  Replies-submit :
      (req : Option (FailureRequest F)) (w : ResponseWriter F)
      → IsFresh w
      → Replies (expected post_failures) w (submit_calls web req w)
  unfolding submit_calls
  Replies-submit none w f = Replies-invalid_json _ w refl f
  Replies-submit (some req) w f =
      Replies-unless_invalid _ (validate_failure req) w (accept_failure_calls web req w) refl f
        (Replies-accept_failure req w f)

  IsHarmless-submit_item :
      (errs : List String) (req : FailureRequest F) (resp : BatchResponse)
      → IsHarmless (submit_item_calls web errs req resp)
  unfolding submit_item_calls to_event_calls time_calls
  IsHarmless-submit_item (e ∷ errs) req resp = tt
  IsHarmless-submit_item [] req resp =
      λ now. process_failure-then (event_at web.parse_time now req) _ λ r _. tt

  IsHarmless-submit_items :
      (reqs : List (FailureRequest F)) (resp : BatchResponse)
      → IsHarmless (submit_items_calls web reqs resp)
  unfolding submit_items_calls
  IsHarmless-submit_items [] resp = tt
  IsHarmless-submit_items (req ∷ rest) resp =
      Keeps-mono (submit_item_calls web (validate_failure req) req resp) _ _
        (IsHarmless-submit_item (validate_failure req) req resp)
        λ resp' _. IsHarmless-submit_items rest resp'

  Replies-submit_batch :
      (req : Option (BatchFailureRequest F)) (w : ResponseWriter F)
      → IsFresh w
      → Replies (expected post_failures_batch) w (submit_batch_calls web req w)
  unfolding submit_batch_calls
  Replies-submit_batch none w f = Replies-invalid_json _ w refl f
  Replies-submit_batch (some req) w f =
      let start = empty_response (length req.events) in
      Replies-unless_invalid _ (validate_batch req) w _ refl f (
        Keeps-mono (submit_items_calls web req.events start) _ _
          (IsHarmless-submit_items req.events start)
          λ resp _. IsAnswered-respond_json _ 201 (batch_content resp) w refl f)

  Replies-report :
      (id : String) (req : Option RetryOutcomeRequest) (w : ResponseWriter F)
      → IsFresh w
      → Replies (expected post_retry_outcome) w (report_calls web id req w)
  unfolding report_calls
  Replies-report id none w f = Replies-invalid_json _ w refl f
  Replies-report id (some req) w f = Replies-unless_invalid _ (validate_outcome req) w _ refl f (
      Keeps-mono (record_retry_outcome_calls id req.processor req.success) _ _
        (Keeps-record_retry_outcome F id req.processor req.success)
        λ r h. IsAnswered-answer_outcome r w h f)

  Replies-list :
      (r : Request) (w : ResponseWriter F) (s : System F)
      → IsFresh w
      → IsConsistent s
      → IsAnswered
          (expected get_transactions)
          w.encodes
          (answer_listing web (list_transactions s.store (filter_of web r)) w)
  unfolding answer_listing
  Replies-list r w s f o =
      rw
        (
          list_transactions-Represents s.store o.transactions (filter_of web r) o.stored,
          answer_listing,
        )
        (IsAnswered-respond_json (expected get_transactions) 200 _ w refl f)

  Replies-recovery :
      (range : TimeRange) (w : ResponseWriter F)
      → IsFresh w
      → Replies (expected get_metrics_recovery) w (recovery_calls web range w)
  unfolding recovery_calls store_calls answer_recovery
  Replies-recovery (invalid_time message) w f = IsAnswered-respond_error _ 400 _ _ w refl f
  Replies-recovery (time_range start end) w f = λ s o.
      let (m, e, _) = get_recovery_metrics-IsRecovery start end s.store o.transactions o.stored in
      rw (e, answer_recovery)
        (IsAnswered-respond_json (expected get_metrics_recovery) 200 (recovery_content m) w refl f)

  Replies-metrics :
      (found : Option (List (Transaction F))) (txns : List (Transaction F)) (w : ResponseWriter F)
      → IsFresh w
      → found ≡ some txns
      → Keeps
          (metrics_calls found)
          (λ m. IsAnswered (expected get_metrics_processors) w.encodes (answer_processors web m w))
  unfolding metrics_calls answer_processors
  Replies-metrics none txns w f e = cc
  Replies-metrics (some found) txns w f e =
      λ a b c. IsAnswered-respond_json _ 200 (processors_content _) w refl f

  Replies-processors :
      (range : TimeRange) (w : ResponseWriter F)
      → IsFresh w
      → Replies (expected get_metrics_processors) w (processors_calls web range w)
  unfolding processors_calls store_calls answer_processors
  Replies-processors (invalid_time message) w f = IsAnswered-respond_error _ 400 _ _ w refl f
  Replies-processors (time_range start end) w f = λ s o.
      Replies-metrics (get_all_transactions_in_range s.store start end) _ w f
        (get_all_transactions_in_range-Represents s.store o.transactions start end o.stored)

  Replies-history :
      (id : String) (found : Result (Transaction F)) (w : ResponseWriter F)
      → IsFetched found
      → IsFresh w
      → Replies (expected get_transaction_retries) w (history_calls web id found w)
  unfolding history_calls store_calls
  Replies-history id (err e) w h f = IsAnswered-answer_missing e w h f
  Replies-history id (ok tx) w h f = λ s o. IsAnswered-respond_json _ 200 _ w refl f

  Replies-transaction :
      (found : Result (Transaction F)) (w : ResponseWriter F)
      → IsFetched found
      → IsFresh w
      → IsAnswered (expected get_transaction_by_id) w.encodes (answer_transaction found w)
  Replies-transaction (err e) w h f = IsAnswered-answer_transaction (err e) w h f
  Replies-transaction (ok tx) w h f = IsAnswered-answer_transaction (ok tx) w tt f

  Replies-endpoint :
      (h : Handler F) (html : String) (g : Calls Call (Result ℕ) h.generator)
      → Keeps g (λ r. (n : ℕ) × (r ≡ ok n))
      → (e : Endpoint) (r : Request) (w : ResponseWriter F) → IsFresh w
      → Replies (expected e) w (endpoint_calls web h html g e r w)
  unfolding endpoint_calls store_calls time_calls range_calls reset_calls
  Replies-endpoint h html g k get_service_health r w f = IsAnswered-respond_json _ 200 _ w refl f
  Replies-endpoint h html g k get_docs_openapi r w f =
      IsAnswered-if _ _ (str_eq h.openapi_path "") _ _ (IsAnswered-respond_error _ 404 _ _ w refl f)
        (IsAnswered-serve_file (web.read_file h.openapi_path) w f)
  Replies-endpoint h html g k get_docs r w f = IsAnswered-raw _ 200 html _ w refl f
  Replies-endpoint h html g k post_failures r w f = Replies-submit (web.decode_failure r.body) w f
  Replies-endpoint h html g k post_failures_batch r w f =
      Replies-submit_batch (web.decode_batch r.body) w f
  Replies-endpoint h html g k post_retry_outcome r w f =
      Replies-report r.transaction_id (web.decode_outcome r.body) w f
  Replies-endpoint h html g k get_transactions r w f = λ s o. Replies-list r w s f o
  Replies-endpoint h html g k get_transaction_by_id r w f = λ s o.
      Replies-transaction (get_transaction s.store r.transaction_id) w
        (IsFetched-get_transaction r.transaction_id s o) f
  Replies-endpoint h html g k get_transaction_retries r w f = λ s o.
      Replies-history r.transaction_id (get_transaction s.store r.transaction_id) w
        (IsFetched-get_transaction r.transaction_id s o) f
  Replies-endpoint h html g k get_processors_health r w f =
      λ now now' now'' s o. IsAnswered-respond_json _ 200 _ w refl f
  Replies-endpoint h html g k get_metrics_recovery r w f =
      λ now. Replies-recovery (range_from web.parse_time r now) w f
  Replies-endpoint h html g k get_metrics_processors r w f =
      λ now. Replies-processors (range_from web.parse_time r now) w f
  Replies-endpoint h html g k get_strategy r w f =
      λ weights. IsAnswered-respond_json _ 200 _ w refl f
  Replies-endpoint h html g k post_test_generate r w f =
      Keeps-mono g _ _ k λ count h. IsAnswered-answer_generated count w h f
  Replies-endpoint h html g k post_test_reset r w f = λ _. IsAnswered-respond_json _ 200 _ w refl f

  pub Replies-serve :
      (h : Handler F) (html : String) (g : Calls Call (Result ℕ) h.generator)
      → Keeps g (λ r. (n : ℕ) × (r ≡ ok n))
      → (e : Endpoint) (r : Request)
      → Keeps (serve_calls web h html g e r) (IsAnswered (expected e) (web.encodes r))
  unfolding serve_calls time_calls set_header new_writer
  Replies-serve h html g k e r = λ _.
      Keeps-mono (endpoint_calls web h html g e r (headed web r)) _ _
        (Replies-endpoint h html g k e r (headed web r) (headed-IsFresh web r)) λ w a _. a
