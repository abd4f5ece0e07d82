-- ===== src/Server.antt =====
-- cmd/server/main.go: the parts put together, and the generator of test data.
use smart_retry_orchestrator.Orchestrator.State.{
  new_system, Env, pure, System, Action, ◌>>◌, ◌>>=◌, time_now,
}
use smart_retry_orchestrator.Float.{Float64}
use smart_retry_orchestrator.Classifier.{Classifier}
use smart_retry_orchestrator.Health.{new_health_tracker}
use smart_retry_orchestrator.Store.{new_memory_store}
use smart_retry_orchestrator.Common.Text.{concat}
use smart_retry_orchestrator.Common.{
  List, ℕ, Bool, ◌∷◌, String, ◌+◌, if◌then◌else◌, [], str_eq, ◌*◌,
}
use smart_retry_orchestrator.Domain.Models.{Time, FailureEvent, second}
use smart_retry_orchestrator.Domain.Errors.{Result, err, ok}
use smart_retry_orchestrator.Api.Web.{Handler}
use smart_retry_orchestrator.Api.Handlers.{reset_stores}
use smart_retry_orchestrator.Orchestrator.Process.{process_failure}

-- the loop over the events: an error is logged, and the event is not counted
unfoldable pub count_if_ok : {A : Type 0} → Result A → ℕ → ℕ
count_if_ok (err e) processed = processed
count_if_ok (ok a) processed = processed + 1

module _ {F : Type 0} ⦃fl : Float64 F⦄ ⦃env : Env F⦄ ⦃cl : Classifier F⦄ where
  unfoldable pub process_events : List (FailureEvent F) → ℕ → Action F ℕ
  unfolding count_if_ok pure
  process_events [] processed = pure processed
  process_events (event ∷ rest) processed = do
    result ← process_failure event
    process_events rest (count_if_ok result processed)

  -- the closure `generator`; `generate_events` gets what time.Now returns to it
  unfoldable pub generator : (generate_events : Time → List (FailureEvent F)) → Action F (Result ℕ)
  unfolding process_events pure
  generator generate_events = do
    reset_stores
    now ← time_now
    processed ← process_events (generate_events now) 0
    pure (ok processed)

  -- the handler that main makes; `docs_found` is os.Stat of docs/openapi.yaml, and `root` the folder
  -- of the sources, which filepath.Join puts before it otherwise
  unfoldable pub new_handler :
      (generate_events : Time → List (FailureEvent F)) (docs_found : Bool) (root : String)
      → Handler F
  unfolding generator concat
  new_handler generate_events docs_found root = record {
    generator = generator generate_events;
    openapi_path =
        if docs_found then "docs/openapi.yaml" else concat (root ∷ "/docs/openapi.yaml" ∷ []);
  }

-- the state that main starts with
unfoldable pub initial_system : {F : Type 0} → System F
unfolding new_system new_health_tracker new_memory_store
initial_system = new_system new_health_tracker new_memory_store

-- the fields that main gives to http.Server, less the handler
pub record HttpServer : Type 0 where
  pub addr : String
  pub read_timeout : ℕ
  pub write_timeout : ℕ
  pub idle_timeout : ℕ

-- `port` is what os.Getenv gives for PORT, empty if it is not set
unfoldable pub port_or_default : (port : String) → String
port_or_default port = if str_eq port "" then "8080" else port

unfoldable pub new_http_server : (port : String) → HttpServer
unfolding port_or_default concat
new_http_server port = record {
  addr = concat (":" ∷ port_or_default port ∷ []);
  read_timeout = 15 * second;
  write_timeout = 30 * second;
  idle_timeout = 60 * second;
}
