-- ===== src/Examples/Concurrency.antt =====
-- Requests that are served at the same time (internal/api/handler.go), on concrete requests.
use smart_retry_orchestrator.Examples.Samples.{ticking, timeout_event, sample, one_system}
use smart_retry_orchestrator.Examples.Requests.{request, web}
use smart_retry_orchestrator.Examples.Services.{no_events}
use smart_retry_orchestrator.Float.{ratio_float, Ratio}
use smart_retry_orchestrator.Classifier.Policy.{default_classifier}
use smart_retry_orchestrator.Concurrent.Calls.{Calls, Call, Rest, more, done, step, clock}
use smart_retry_orchestrator.Concurrent.Running.{
  Running, Running-IsConsistent, moved, arrived, listening, request_calls, IsAnsweredIfDone,
  Running-IsAnswered, InFlight,
}
use smart_retry_orchestrator.Concurrent.Lasting.{IsConsistent, IsConsistent-initial_system}
use smart_retry_orchestrator.Concurrent.Bounded.{drive}
use smart_retry_orchestrator.Concurrent.Told.{IsTold}
use smart_retry_orchestrator.Concurrent.Answered.{process_failure_ends}
use smart_retry_orchestrator.Concurrent.Orchestrated.{process_failure_calls}
use smart_retry_orchestrator.Server.{initial_system, new_handler}
use smart_retry_orchestrator.Orchestrator.State.{System, save, time_now, pure}
use smart_retry_orchestrator.Api.Responses.{ResponseWriter}
use smart_retry_orchestrator.Api.Routes.{serve, post_failures, post_test_reset, Endpoint, endpoint}
use smart_retry_orchestrator.Common.{ℕ, List, true, [], All, suc, zero, ◌∷◌, ◌≡◌, arith, refl}
use smart_retry_orchestrator.Domain.Errors.{Result, err, duplicate_id, wrapped}
use smart_retry_orchestrator.Domain.Models.{ProcessFailureResult}
use smart_retry_orchestrator.Domain.Enums.{retrying}
use smart_retry_orchestrator.Store.{save_transaction}
use smart_retry_orchestrator.Common.Dict.{lookup}
use smart_retry_orchestrator.Concurrent.Accepted.{accepted_once, light_call, save_call, no_calls}
use smart_retry_orchestrator.Api.Web.{Request}
use smart_retry_orchestrator.Concurrent.Handled.{
  serve_calls, endpoint_calls, reset_calls, time_calls,
}
use smart_retry_orchestrator.Api.Handlers.{reset_data, reset_stores, reset_store, reset_health}
use smart_retry_orchestrator.Api.Middleware.{
  with_request_id, with_json_content_type, with_request_logger,
}

-- A failure is submitted while a reset is served.
abbrev failing :
    Calls Call
      (ResponseWriter Ratio)
      (serve web (new_handler no_events true "") "" post_failures request)
failing = request_calls web no_events true "" "" post_failures request

abbrev resetting :
    Calls Call
      (ResponseWriter Ratio)
      (serve web (new_handler no_events true "") "" post_test_reset request)
resetting = request_calls web no_events true "" "" post_test_reset request

abbrev at_first : Rest Ratio (ResponseWriter Ratio) × System Ratio
at_first = step failing initial_system

abbrev at_second : Rest Ratio (ResponseWriter Ratio) × System Ratio
at_second = step resetting at_first.1

both-Running :
    Running web no_events true "" ""
      ((post_failures, request, at_first.0) ∷ (post_test_reset, request, at_second.0) ∷ [])
      at_second.1
both-Running =
    moved ((post_failures, request, at_first.0) ∷ []) [] post_test_reset request resetting (
      moved [] ((post_test_reset, request, more resetting) ∷ []) post_failures request failing
        (arrived (arrived listening post_test_reset request) post_failures request))

Running-IsConsistent_example : IsConsistent at_second.1
Running-IsConsistent_example = Running-IsConsistent web no_events true "" "" both-Running

-- The first of the requests makes so many steps, and no other does.
abbrev alone :
    ℕ
    → Rest Ratio (ResponseWriter Ratio) × System Ratio
    → Rest Ratio (ResponseWriter Ratio) × System Ratio
alone zero q = q
alone (suc n) (done w, s) = (done w, s)
alone (suc n) (more c, s) = alone n (step c s)

alone-Running :
    (n : ℕ) (e : Endpoint) (r : Request) (q : Rest Ratio (ResponseWriter Ratio) × System Ratio)
    (after : List (InFlight Ratio))
    → Running web no_events true "" "" ((e, r, q.0) ∷ after) q.1
    → Running web no_events true "" "" ((e, r, (alone n q).0) ∷ after) (alone n q).1
alone-Running zero e r q after run = run
alone-Running (suc n) e r (done w, s) after run = run
alone-Running (suc n) e r (more c, s) after run =
    alone-Running n e r (step c s) after (moved [] after e r c run)

-- The reset has returned while the failure is being served.
abbrev reset_reply : ResponseWriter Ratio
reset_reply = (serve web (new_handler no_events true "") "" post_test_reset request at_first.1).0

reset-Running :
    Running web no_events true "" ""
      ((post_test_reset, request, (alone 6 (more resetting, at_first.1)).0)
        ∷ (post_failures, request, at_first.0)
        ∷ [])
      (alone 6 (more resetting, at_first.1)).1
reset-Running =
    alone-Running 6 post_test_reset request (more resetting, at_first.1)
      ((post_failures, request, at_first.0) ∷ [])
      (moved ((post_test_reset, request, more resetting) ∷ []) [] post_failures request failing
        (arrived (arrived listening post_failures request) post_test_reset request))

Running-IsAnswered_example :
    All
      (IsAnsweredIfDone web)
      ((post_test_reset, request, done reset_reply) ∷ (post_failures, request, at_first.0) ∷ [])
unfolding step request_calls serve_calls endpoint_calls reset_calls time_calls serve endpoint
    reset_data reset_stores reset_store reset_health time_now pure with_request_id
    with_json_content_type with_request_logger
Running-IsAnswered_example = Running-IsAnswered web no_events true "" "" reset-Running

abbrev copies : ℕ → List (System Ratio)
copies zero = []
copies (suc n) = initial_system ∷ copies n

copies-IsConsistent : (n : ℕ) → All IsConsistent (copies n)
copies-IsConsistent zero = tt
copies-IsConsistent (suc n) = (IsConsistent-initial_system, copies-IsConsistent n)

-- A store that is emptied before each step of the request.
process_failure_ends_example :
    (answer : Result (ProcessFailureResult Ratio)) × (drive
        (more (process_failure_calls timeout_event))
        (copies 81)
      ≡ done answer)
    × IsTold timeout_event answer
process_failure_ends_example =
    process_failure_ends timeout_event (copies 81) (copies-IsConsistent 81) (omega arith)

-- Another failure is submitted between the two.
abbrev after_both : System Ratio
after_both =
    (save (sample "txn-10" retrying) (time_now (save (sample "txn-1" retrying) one_system).1).1).1

accepted_once_example :
    drive (more (process_failure_calls timeout_event)) (one_system ∷ after_both ∷ copies 9)
    ≡ done (err (wrapped "saving transaction" duplicate_id))
unfolding save save_transaction lookup time_now smart_retry_orchestrator.Classifier.classify
accepted_once_example =
    accepted_once (sample "txn-1" retrying) timeout_event one_system one_system after_both
      initial_system (copies 8) refl refl
      (light_call clock (save_call (sample "txn-10" retrying) no_calls))
