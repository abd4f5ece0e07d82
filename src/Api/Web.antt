-- ===== src/Api/Web.antt =====
-- What the handlers (internal/api/handler.go) take from net/http, chi and the standard library.
use smart_retry_orchestrator.Common.Dict.{lookup, Dict, get_or}
use smart_retry_orchestrator.Api.Responses.{ResponseWriter, Content}
use smart_retry_orchestrator.Orchestrator.State.{Action}
use smart_retry_orchestrator.Common.{String, ℕ, Option, Bool}
use smart_retry_orchestrator.Domain.Errors.{Result}
use smart_retry_orchestrator.Api.Requests.{FailureRequest, BatchFailureRequest, RetryOutcomeRequest}
use smart_retry_orchestrator.Domain.Models.{Time}

-- A value of Go's `int`.
pub data ℤ : Type 0 where
  pos : ℕ → ℤ
  negsuc : ℕ → ℤ

-- A request that has been routed: what chi.URLParam gives for "transactionID", the query, the body,
-- the header X-Request-ID, and the id that uuid.New gives if it is asked.
pub record Request : Type 0 where
  pub transaction_id : String
  pub query : Dict String
  pub body : String
  pub header_id : String
  pub fresh_id : String

-- The decoders of the three bodies, time.Parse with RFC3339, strconv.Atoi and os.ReadFile; `none` is
-- an error. uuid.New for a request is part of the request. `encodes` is whether
-- json.NewEncoder(w).Encode succeeds for a value that answers the request: it fails for a float64 that
-- is +Inf or NaN, and then writes nothing.
pub record Web (F : Type 0) : Type 0 where
  pub decode_failure : String → Option (FailureRequest F)
  pub decode_batch : String → Option (BatchFailureRequest F)
  pub decode_outcome : String → Option RetryOutcomeRequest
  pub parse_time : String → Option Time
  pub atoi : String → Option ℤ
  pub read_file : String → Option String
  pub encodes : Request → Content F → Bool

-- r.URL.Query().Get(key), which is empty for a key that is absent
unfoldable pub query_get : Request → String → String
unfolding lookup
query_get r key = get_or "" (lookup key r.query)

-- The fields of Handler that are not parts of the system.
pub record Handler (F : Type 0) : Type 0 where
  pub generator : Action F (Result ℕ)
  pub openapi_path : String

-- http.HandlerFunc
abbrev pub HandlerFunc : Type 0 → Type 0
HandlerFunc F = Request → ResponseWriter F → Action F (ResponseWriter F)
