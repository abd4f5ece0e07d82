-- ===== src/Api/Batch.antt =====
-- submitBatch of internal/api/handler.go.
use smart_retry_orchestrator.Float.{Float64}
use smart_retry_orchestrator.Common.{
  ℕ, String, [], ◌+◌, ◌++◌, false, List, ◌∷◌, Option, some, length, none,
}
use smart_retry_orchestrator.Domain.Errors.{error_text, Result, err, ok}
use smart_retry_orchestrator.Orchestrator.State.{Env, pure, Action, ◌>>=◌}
use smart_retry_orchestrator.Domain.Enums.{
  TransactionStatus, status_text, DeclineType, hard_decline, recovered, exhausted, soft_decline,
  retrying,
}
use smart_retry_orchestrator.Api.Responses.{
  BatchResponse, BatchSummary, respond_json, ResponseWriter, status_created, batch_content,
}
use smart_retry_orchestrator.Domain.Models.{ProcessFailureResult}
use smart_retry_orchestrator.Classifier.{Classifier}
use smart_retry_orchestrator.Api.Web.{Web, HandlerFunc}
use smart_retry_orchestrator.Api.Handlers.{unless_invalid, invalid_json}
use smart_retry_orchestrator.Api.Requests.{
  to_event, validate_failure, validate_batch, FailureRequest, BatchFailureRequest,
}
use smart_retry_orchestrator.Orchestrator.Process.{process_failure}

-- the answer to the decoded batch before the loop
unfoldable pub empty_response : ℕ → BatchResponse
empty_response total = record {
  total = total;
  processed = 0;
  errors = 0;
  results = [];
  summary = record {
    hard_declines = 0;
    soft_declines = 0;
    recovered = 0;
    exhausted = 0;
    retrying = 0;
  };
}

-- resp.Errors++ and the item of an error
unfoldable pub add_error : String → String → BatchResponse → BatchResponse
add_error id message resp = record resp {
  errors = resp.errors + 1;
  results =
      resp.results
      ++ record { transaction_id = id; status = "error"; should_retry = false; error = message }
        ∷ [];
}

-- the two switches over the result
unfoldable pub count_type : DeclineType → BatchSummary → BatchSummary
count_type hard_decline s = record s { hard_declines = s.hard_declines + 1 }
count_type soft_decline s = record s { soft_declines = s.soft_declines + 1 }

unfoldable pub count_final : TransactionStatus → BatchSummary → BatchSummary
count_final recovered s = record s { recovered = s.recovered + 1 }
count_final exhausted s = record s { exhausted = s.exhausted + 1 }
count_final retrying s = record s { retrying = s.retrying + 1 }
count_final _ s = s

module _ {F : Type 0} where
  unfoldable pub add_processed : ProcessFailureResult F → BatchResponse → BatchResponse
  unfolding count_type count_final status_text
  add_processed result resp = record resp {
    processed = resp.processed + 1;
    results =
        resp.results
        ++ record {
          transaction_id = result.transaction_id;
          status = status_text result.final_status;
          should_retry = result.should_retry;
          error = "";
        }
          ∷ [];
    summary =
        count_final result.final_status
          (count_type result.classification.decline_type resp.summary);
  }

  -- what ProcessFailure returned for an item
  unfoldable pub add_result :
      String → Result (ProcessFailureResult F) → BatchResponse → BatchResponse
  unfolding add_error add_processed error_text
  add_result id (err e) resp = add_error id (error_text e) resp
  add_result id (ok result) resp = add_processed result resp

  module _ ⦃fl : Float64 F⦄ ⦃env : Env F⦄ ⦃cl : Classifier F⦄ (web : Web F) where
    -- one round: what Validate returned, and the request
    unfoldable pub submit_item :
        List String → FailureRequest F → BatchResponse → Action F BatchResponse
    unfolding add_error add_result to_event pure
    submit_item (e ∷ errs) req resp = pure (add_error req.transaction_id e resp)
    submit_item [] req resp = do
      event ← to_event web.parse_time req
      result ← process_failure event
      pure (add_result req.transaction_id result resp)

    unfoldable pub submit_items : List (FailureRequest F) → BatchResponse → Action F BatchResponse
    unfolding submit_item validate_failure pure
    submit_items [] resp = pure resp
    submit_items (req ∷ rest) resp = do
      resp' ← submit_item (validate_failure req) req resp
      submit_items rest resp'

    unfoldable pub submit_batch_decoded :
        Option (BatchFailureRequest F) → ResponseWriter F → Action F (ResponseWriter F)
    unfolding unless_invalid submit_items empty_response invalid_json validate_batch respond_json
        pure
    submit_batch_decoded none w = pure (invalid_json w)
    submit_batch_decoded (some req) w =
        unless_invalid web (validate_batch req)
          (do
            resp ← submit_items req.events (empty_response (length req.events))
            pure (respond_json status_created (batch_content resp) w))
          w

    unfoldable pub submit_batch : HandlerFunc F
    unfolding submit_batch_decoded
    submit_batch r w = submit_batch_decoded (web.decode_batch r.body) w
