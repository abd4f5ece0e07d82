-- ===== src/Api/Responses.antt =====
-- internal/api/response.go: the bodies of responses, and how they are written.
use smart_retry_orchestrator.Domain.Models.{
  ProcessFailureResult, Transaction, RetryAttempt, RetryDecision, ProcessorHealthSnapshot,
  RecoveryMetrics, ProcessorMetrics, AdaptiveWeight,
}
use smart_retry_orchestrator.Common.{
  ℕ, String, ◌++◌, List, Option, Bool, none, some, ◌∷◌, [], if◌then◌else◌,
}
use smart_retry_orchestrator.Common.Dict.{Dict, insert}

pub record ErrorResponse : Type 0 where
  pub code : String
  pub messages : List String

pub record BatchItemResult : Type 0 where
  pub transaction_id : String
  pub status : String
  pub should_retry : Bool
  pub error : String

pub record BatchSummary : Type 0 where
  pub hard_declines : ℕ
  pub soft_declines : ℕ
  pub recovered : ℕ
  pub exhausted : ℕ
  pub retrying : ℕ

pub record BatchResponse : Type 0 where
  pub total : ℕ
  pub processed : ℕ
  pub errors : ℕ
  pub results : List BatchItemResult
  pub summary : BatchSummary

pub record HealthResponse : Type 0 where
  pub status : String
  pub version : String

-- What is written after the header: a value that json.NewEncoder encodes, or bytes as they are.
pub data Content (F : Type 0) : Type 0 where
  error_content : ErrorResponse → Content F
  health_content : HealthResponse → Content F
  result_content : ProcessFailureResult F → Content F
  batch_content : BatchResponse → Content F
  texts_content : Dict String → Content F
  transactions_content : List (Transaction F) → Content F
  transaction_content : Transaction F → Content F
  history_content :
      (transaction_id : String) (retry_count : ℕ) (attempts : List (RetryAttempt F))
      (decisions : List (RetryDecision F))
      → Content F
  snapshots_content : Dict (ProcessorHealthSnapshot F) → Content F
  recovery_content : RecoveryMetrics F → Content F
  processors_content : Dict (ProcessorMetrics F) → Content F
  weights_content : List (AdaptiveWeight F) → String → Content F
  generated_content : (status : String) (count : ℕ) (message : String) → Content F
  raw_content : String → Content F

-- http.ResponseWriter: the header, the status once it is written, and what was written after it; and
-- whether json.NewEncoder(w).Encode succeeds for a value. It is a parameter, since Encode is not code
-- of the repository: it fails for a float64 that is +Inf or NaN and for a time that it refuses, and
-- then it has written nothing.
pub record ResponseWriter (F : Type 0) : Type 0 where
  pub header : Dict String
  pub status : Option ℕ
  pub content : List (Content F)
  pub encodes : Content F → Bool

abbrev pub status_ok : ℕ
status_ok = 200

abbrev pub status_created : ℕ
status_created = 201

abbrev pub status_bad_request : ℕ
status_bad_request = 400

abbrev pub status_not_found : ℕ
status_not_found = 404

abbrev pub status_conflict : ℕ
status_conflict = 409

abbrev pub status_internal_server_error : ℕ
status_internal_server_error = 500

module _ {F : Type 0} where
  -- w.Header().Set(key, value)
  unfoldable pub set_header : String → String → ResponseWriter F → ResponseWriter F
  set_header key value w = record w { header = insert key value w.header }

  -- w.WriteHeader(code): only the first call counts
  unfoldable pub write_header : ℕ → ResponseWriter F → ResponseWriter F
  write_header code w = elim w.status [ none ↦ record w { status = some code } | some _ ↦ w ]

  -- what w.Write, or Encode when it succeeds, adds
  unfoldable pub write : Content F → ResponseWriter F → ResponseWriter F
  write c w = record w { content = w.content ++ c ∷ [] }

  -- The error that Encode may return is dropped: the status has been written, and no body follows.
  unfoldable pub respond_json : ℕ → Content F → ResponseWriter F → ResponseWriter F
  unfolding write_header write
  respond_json code c w = let w' = write_header code w in if w.encodes c then write c w' else w'

  unfoldable pub respond_error : ℕ → String → List String → ResponseWriter F → ResponseWriter F
  unfolding respond_json
  respond_error code err_code messages =
      respond_json code (error_content (record { code = err_code; messages = messages }))
