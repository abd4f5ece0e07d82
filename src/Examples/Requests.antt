-- ===== src/Examples/Requests.antt =====
-- Requests for the tests (internal/api).
use smart_retry_orchestrator.Classifier.Policy.{default_classifier}
use smart_retry_orchestrator.Api.Web.{Request, Web, pos}
use smart_retry_orchestrator.Api.Requests.{BatchFailureRequest, FailureRequest}
use smart_retry_orchestrator.Common.{String, [], true, some, if◌then◌else◌, ◌∷◌, str_eq, none}
use smart_retry_orchestrator.Examples.Samples.{ticking}
use smart_retry_orchestrator.Float.{Ratio, ratio, ratio_float}
use smart_retry_orchestrator.Domain.Enums.{code_processor_timeout, processor_a, processor_b}
use smart_retry_orchestrator.Api.Responses.{ResponseWriter}
use smart_retry_orchestrator.Api.Routes.{new_writer}

abbrev pub request_of : String → FailureRequest Ratio
request_of id = record {
  transaction_id = id;
  amount = ratio 100 1;
  currency = "USD";
  failure_code = code_processor_timeout;
  processor = processor_a;
  card_type = "";
  bin = "";
  country = "";
  timestamp = "";
}

-- A request without a currency.
abbrev pub incomplete : FailureRequest Ratio
incomplete = record (request_of "txn-3") { currency = "" }

abbrev pub batch : BatchFailureRequest Ratio
batch = record {
  events = request_of "txn-1" ∷ request_of "txn-1" ∷ incomplete ∷ request_of "txn-7" ∷ [];
}

-- The body "one" is one request, every body is the batch and a report, and "1" is the only number.
abbrev pub web : Web Ratio
web = record {
  decode_failure = λ body. if str_eq body "one" then some (request_of "txn-1") else none;
  decode_batch = λ body. some batch;
  decode_outcome = λ body. some (record { processor = processor_b; success = true });
  parse_time = λ text. none;
  atoi = λ text. if str_eq text "1" then some (pos 1) else none;
  read_file = λ path. none;
  encodes = λ r content. true;
}

abbrev pub request : Request
request = record {
  transaction_id = "";
  query = ("limit", "1") ∷ [];
  body = "one";
  header_id = "";
  fresh_id = "1f0c";
}

-- A writer for which every value can be encoded.
abbrev pub writer : ResponseWriter Ratio
writer = new_writer (λ content. true)
