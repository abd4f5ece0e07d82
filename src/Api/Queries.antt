-- ===== src/Api/Queries.antt =====
-- The handlers of internal/api/handler.go that only read. As in Handlers, `none` from the store or the
-- metrics is a panic, after which nothing is written.
use smart_retry_orchestrator.Api.Web.{Web, query_get, Request, ℤ, pos, negsuc, HandlerFunc}
use smart_retry_orchestrator.Common.{
  ℕ, Option, String, some, none, if◌then◌else◌, str_eq, ltb, ◌==◌, ◌*◌, ◌-◌, List, ◌∷◌, [],
}
use smart_retry_orchestrator.Domain.Models.{
  TransactionFilter, Time, minute, RecoveryMetrics, Transaction, ProcessorMetrics,
}
use smart_retry_orchestrator.Float.{Float64}
use smart_retry_orchestrator.Api.Responses.{
  respond_json, respond_error, ResponseWriter, status_ok, status_bad_request, recovery_content,
  transactions_content, weights_content, snapshots_content, processors_content, transaction_content,
  status_not_found, status_internal_server_error, history_content,
}
use smart_retry_orchestrator.Orchestrator.State.{
  Env, gets, pure, Action, ◌>>=◌, time_now, health_of,
}
use smart_retry_orchestrator.Store.{
  list_transactions, get_transaction, get_decision_logs, get_all_transactions_in_range,
}
use smart_retry_orchestrator.Domain.Errors.{is_not_found, Result, error_text, err, ok, Error}
use smart_retry_orchestrator.Common.Dict.{Dict}
use smart_retry_orchestrator.Orchestrator.Adaptive.{get_adaptive_weights}
use smart_retry_orchestrator.Health.{get_all_health}
use smart_retry_orchestrator.Metrics.{get_recovery_metrics, metrics_over}
use smart_retry_orchestrator.Domain.Enums.{processor_a, processor_b, processor_c}

-- the limit and the offset of ListTransactions; a value that is no number counts as absent
unfoldable pub positive_or : ℕ → Option ℤ → ℕ
positive_or default none = default
positive_or default (some (pos n)) = if ltb 0 n then n else default
positive_or default (some (negsuc n)) = default

unfoldable pub natural_or : ℕ → Option ℤ → ℕ
natural_or default none = default
natural_or default (some (pos n)) = n
natural_or default (some (negsuc n)) = default

module _ {F : Type 0} (web : Web F) where
  unfoldable pub filter_of : Request → TransactionFilter
  unfolding query_get positive_or natural_or
  filter_of r =
      let given = λ (key : String).
        let value = query_get r key in if str_eq value "" then none else some value in
      let limit =
        if str_eq (query_get r "limit") ""
        then 0
        else positive_or 0 (web.atoi (query_get r "limit")) in
      record {
        status = given "status";
        processor = given "processor";
        limit = if limit == 0 then 50 else limit;
        offset =
            if str_eq (query_get r "offset") ""
            then 0
            else natural_or 0 (web.atoi (query_get r "offset"));
      }

-- `time.Now()` less twenty-four hours
abbrev pub day : ℕ
day = 24 * 60 * minute

-- What parseTimeRange returns.
pub data TimeRange : Type 0 where
  invalid_time : String → TimeRange
  time_range : (start end : Time) → TimeRange

-- One of the two parameters: the default if it is absent, the parsed value, or an error.
unfoldable pub parse_bound :
    (String → Option Time) → String → Time → (message : String) → (Time → TimeRange) → TimeRange
parse_bound parse_time text default message next =
    if str_eq text ""
    then next default
    else elim (parse_time text) [ none ↦ invalid_time message | some parsed ↦ next parsed ]

unfoldable pub range_from : (String → Option Time) → Request → Time → TimeRange
unfolding parse_bound query_get
range_from parse_time r now =
    parse_bound parse_time (query_get r "start") (now - day)
      "invalid start time format, use RFC3339"
      λ start.
        parse_bound parse_time (query_get r "end") now "invalid end time format, use RFC3339"
          λ end. time_range start end

module _ {F : Type 0} ⦃fl : Float64 F⦄ ⦃env : Env F⦄ where
  -- GetProcessorMetrics: the range is read first, and then the health of each processor
  unfoldable pub metrics_of :
      Option (List (Transaction F)) → Action F (Option (Dict (ProcessorMetrics F)))
  unfolding metrics_over pure
  metrics_of none = pure none
  metrics_of (some txns) = do
    a ← health_of processor_a
    b ← health_of processor_b
    c ← health_of processor_c
    pure (some (metrics_over a b c txns))

module _ {F : Type 0} ⦃fl : Float64 F⦄ ⦃env : Env F⦄ (web : Web F) where
  unfoldable pub parse_time_range : Request → Action F TimeRange
  unfolding range_from pure
  parse_time_range r = do now ← time_now; pure (range_from web.parse_time r now)

  -- a listing, or the panic of the store
  unfoldable pub answer_listing :
      Option (List (Transaction F)) → ResponseWriter F → ResponseWriter F
  unfolding respond_json
  answer_listing none w = w
  answer_listing (some txns) w = respond_json status_ok (transactions_content txns) w

  unfoldable pub list_transactions_handler : HandlerFunc F
  unfolding answer_listing filter_of gets pure
  list_transactions_handler r w = do
    txns ← gets (λ s. list_transactions s.store (filter_of web r))
    pure (answer_listing txns w)

  unfoldable pub answer_recovery : Option (RecoveryMetrics F) → ResponseWriter F → ResponseWriter F
  unfolding respond_json
  answer_recovery none w = w
  answer_recovery (some m) w = respond_json status_ok (recovery_content m) w

  unfoldable pub recovery_in : TimeRange → ResponseWriter F → Action F (ResponseWriter F)
  unfolding respond_error answer_recovery gets pure
  recovery_in (invalid_time message) w =
      pure (respond_error status_bad_request "INVALID_PARAMS" (message ∷ []) w)
  recovery_in (time_range start end) w = do
    m ← gets (λ s. get_recovery_metrics start end s.store)
    pure (answer_recovery m w)

  unfoldable pub get_recovery_metrics_handler : HandlerFunc F
  unfolding parse_time_range recovery_in
  get_recovery_metrics_handler r w = do range ← parse_time_range r; recovery_in range w

  unfoldable pub answer_processors :
      Option (Dict (ProcessorMetrics F)) → ResponseWriter F → ResponseWriter F
  unfolding respond_json
  answer_processors none w = w
  answer_processors (some m) w = respond_json status_ok (processors_content m) w

  unfoldable pub processors_in : TimeRange → ResponseWriter F → Action F (ResponseWriter F)
  unfolding respond_error answer_processors metrics_of gets pure
  processors_in (invalid_time message) w =
      pure (respond_error status_bad_request "INVALID_PARAMS" (message ∷ []) w)
  processors_in (time_range start end) w = do
    found ← gets (λ s. get_all_transactions_in_range s.store start end)
    m ← metrics_of found
    pure (answer_processors m w)

  unfoldable pub get_processor_metrics_handler : HandlerFunc F
  unfolding parse_time_range processors_in
  get_processor_metrics_handler r w = do range ← parse_time_range r; processors_in range w

module _ {F : Type 0} ⦃fl : Float64 F⦄ where
  -- the answers to an error of GetTransaction
  unfoldable pub answer_missing : Error → ResponseWriter F → ResponseWriter F
  unfolding respond_error is_not_found error_text
  answer_missing e w =
      if is_not_found e
      then respond_error status_not_found "NOT_FOUND" ("transaction not found" ∷ []) w
      else respond_error status_internal_server_error "STORE_ERROR" (error_text e ∷ []) w

  unfoldable pub answer_transaction : Result (Transaction F) → ResponseWriter F → ResponseWriter F
  unfolding answer_missing respond_json
  answer_transaction (err e) w = answer_missing e w
  answer_transaction (ok tx) w = respond_json status_ok (transaction_content tx) w

  unfoldable pub get_transaction_handler : HandlerFunc F
  unfolding answer_transaction gets pure
  get_transaction_handler r w = do
    found ← gets (λ s. get_transaction s.store r.transaction_id)
    pure (answer_transaction found w)

  unfoldable pub answer_history :
      String → Result (Transaction F) → ResponseWriter F → Action F (ResponseWriter F)
  unfolding answer_missing respond_json gets pure
  answer_history id (err e) w = pure (answer_missing e w)
  answer_history id (ok tx) w = do
    decisions ← gets (λ s. get_decision_logs s.store id)
    pure (respond_json status_ok (history_content id tx.retry_count tx.retry_attempts decisions) w)

  unfoldable pub get_retry_history : HandlerFunc F
  unfolding answer_history gets
  get_retry_history r w = do
    found ← gets (λ s. get_transaction s.store r.transaction_id)
    answer_history r.transaction_id found w

  unfoldable pub get_processor_health : ⦃env : Env F⦄ → HandlerFunc F
  unfolding gets respond_json pure
  get_processor_health r w = do
    now ← time_now
    now' ← time_now
    now'' ← time_now
    snapshots ← gets (λ s. get_all_health now now' now'' s.health_tracker)
    pure (respond_json status_ok (snapshots_content snapshots) w)

  unfoldable pub get_adaptive_strategy : HandlerFunc F
  unfolding gets respond_json pure
  get_adaptive_strategy r w = do
    weights ← gets (λ s. get_adaptive_weights s.adaptive_data)
    pure (
        respond_json status_ok
          (weights_content weights
            "Per-error-code, per-processor success rates learned from retry outcomes")
          w)
