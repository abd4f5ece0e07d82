-- ===== src/Service/Processors.antt =====
-- GET /metrics/processors (internal/api/handler.go, internal/metrics/calculator.go): the range of time
-- and the metrics of the processors.
use smart_retry_orchestrator.Service.Ranges.{range_from-eq, bound}
use smart_retry_orchestrator.Metrics.Entries.{IsReported, metrics_over-IsReported}
use smart_retry_orchestrator.Float.{Float64}
use smart_retry_orchestrator.Orchestrator.State.{System, Env, time_now, gets, health_of}
use smart_retry_orchestrator.Api.Queries.{
  get_processor_metrics_handler, day, parse_time_range, processors_in, answer_processors,
  metrics_of,
}
use smart_retry_orchestrator.Api.Web.{Web, Request}
use smart_retry_orchestrator.Api.Responses.{
  ResponseWriter, respond_error, status_bad_request, respond_json, status_ok, processors_content,
}
use smart_retry_orchestrator.Common.{
  List, Option, String, ◌-◌, ◌≡◌, inl, none, some, inr, keep, ◌⊎◌, ◌∷◌, [], ◌+◌, refl,
}
use smart_retry_orchestrator.Domain.Models.{Transaction, Time, ProcessorMetrics}
use smart_retry_orchestrator.Store.Refinement.{Represents}
use smart_retry_orchestrator.Metrics.Counts.{created_between, attempts_of}
use smart_retry_orchestrator.Store.Listing.{get_all_transactions_in_range-Represents}
use smart_retry_orchestrator.Common.Dict.{Dict}
use smart_retry_orchestrator.Domain.Enums.{processor_a, processor_b, processor_c}
use smart_retry_orchestrator.Metrics.{metrics_over}
use smart_retry_orchestrator.Health.{get_health}

module _ {F : Type 0} ⦃fl : Float64 F⦄ ⦃env : Env F⦄ (web : Web F) where
  -- The two answers; the clock is read for the range, and then for each processor.
  pub data ProcessorsAnswer (r : Request) (w : ResponseWriter F) (s : System F)
      (ts : List (Transaction F)) (got : ResponseWriter F) : Type 0 where
    bad_range :
        (message : String)
        → (bound web r "start" ((time_now s).0 - day) ≡ none)
          ⊎ (bound web r "end" (time_now s).0 ≡ none)
        → got ≡ respond_error status_bad_request "INVALID_PARAMS" (message ∷ []) w
        → ProcessorsAnswer r w s ts got
    good_range :
        (start end : Time) (d : Dict (ProcessorMetrics F))
        → bound web r "start" ((time_now s).0 - day) ≡ some start
        → bound web r "end" (time_now s).0 ≡ some end
        → (let attempts = attempts_of (keep (created_between start end) ts) in
            IsReported d (env.now (s.clock_reads + 1)) s.health_tracker processor_a attempts
            × IsReported d (env.now (s.clock_reads + 1 + 1)) s.health_tracker processor_b attempts
            × IsReported d
                (env.now (s.clock_reads + 1 + 1 + 1))
                s.health_tracker
                processor_c
                attempts)
        → got ≡ respond_json status_ok (processors_content d) w
        → ProcessorsAnswer r w s ts got

  processors_in-ProcessorsAnswer :
      (r : Request) (w : ResponseWriter F) (s : System F) (ts : List (Transaction F))
      (from to : Option Time)
      → Represents s.store ts
      → bound web r "start" ((time_now s).0 - day) ≡ from
      → bound web r "end" (time_now s).0 ≡ to
      → ProcessorsAnswer r w s ts (get_processor_metrics_handler web r w s).0
  unfolding get_processor_metrics_handler parse_time_range processors_in answer_processors time_now
      gets metrics_of health_of
  processors_in-ProcessorsAnswer r w s ts none to rep e f =
      bad_range "invalid start time format, use RFC3339" (inl e)
        (rw (range_from-eq web r _ none to e f) refl)
  processors_in-ProcessorsAnswer r w s ts (some start) none rep e f =
      bad_range "invalid end time format, use RFC3339" (inr f)
        (rw (range_from-eq web r _ (some start) none e f) refl)
  processors_in-ProcessorsAnswer r w s ts (some start) (some end) rep e f =
      let txns = keep (created_between start end) ts in
      let known = get_all_transactions_in_range-Represents s.store ts start end rep in
      let n = s.clock_reads in
      let tracker = s.health_tracker in
      let d =
        metrics_over (get_health (env.now (n + 1)) tracker processor_a)
          (get_health (env.now (n + 1 + 1)) tracker processor_b)
          (get_health (env.now (n + 1 + 1 + 1)) tracker processor_c) txns in
      good_range start end d e f
        (metrics_over-IsReported (env.now (n + 1)) (env.now (n + 1 + 1)) (env.now (n + 1 + 1 + 1))
          s.health_tracker txns)
        (rw (range_from-eq web r _ (some start) (some end) e f, known) refl)

  -- GET /metrics/processors answers 400 exactly if the start or the end is given and is no time, and
  -- otherwise 200, and gives Encode an entry for each of the three processors: its health, and over all attempts on
  -- it of the stored transactions that were created in the range, both ends included, their number, the
  -- successes and the failures, which add up to that number, the sum of the costs in order, and the
  -- success rate, zero without attempts. The entries are the body if Encode succeeds for them, and
  -- there is no body if it fails. There is no 500.
  pub get_processor_metrics_answers :
      (r : Request) (w : ResponseWriter F) (s : System F) (ts : List (Transaction F))
      → Represents s.store ts
      → ProcessorsAnswer r w s ts (get_processor_metrics_handler web r w s).0
  get_processor_metrics_answers r w s ts rep =
      processors_in-ProcessorsAnswer r w s ts _ _ rep refl refl
