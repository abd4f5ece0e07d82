-- ===== src/Service/Ranges.antt =====
-- GET /metrics/recovery: parseTimeRange and getRecoveryMetrics of internal/api/handler.go over the
-- metrics and the store.
use smart_retry_orchestrator.Float.{Float64}
use smart_retry_orchestrator.Orchestrator.State.{Env, System, time_now, gets}
use smart_retry_orchestrator.Api.Web.{Web, Request, query_get}
use smart_retry_orchestrator.Api.Queries.{
  get_recovery_metrics_handler, range_from, parse_time_range, parse_bound, recovery_in,
  answer_recovery, day, invalid_time, time_range, TimeRange,
}
use smart_retry_orchestrator.Common.{
  String, List, Option, ◌-◌, if◌then◌else◌, ◌≡◌, str_eq, none, inl, some, inr, ◌⊎◌, ◌∷◌, [], keep,
  Bool-cases, refl, ◌∙◌, ◌++◌,
}
use smart_retry_orchestrator.Api.Responses.{
  ResponseWriter, respond_error, status_bad_request, respond_json, status_ok, recovery_content,
}
use smart_retry_orchestrator.Domain.Models.{Time, Transaction, RecoveryMetrics}
use smart_retry_orchestrator.Store.Refinement.{Represents}
use smart_retry_orchestrator.Metrics.Counts.{
  get_recovery_metrics-IsRecovery, IsRecovery, created_between,
}
use smart_retry_orchestrator.Service.Answers.{content-respond_json}

module _ {F : Type 0} ⦃fl : Float64 F⦄ ⦃env : Env F⦄ (web : Web F) where
  -- The time that a query gives under the key: the default if the key is absent or empty, and `none`
  -- if its text is no time.
  abbrev pub bound : Request → String → Time → Option Time
  bound r key default =
      if str_eq (query_get r key) "" then some default else web.parse_time (query_get r key)

  parse_bound-eq :
      (r : Request) (key : String) (default : Time) (message : String) (next : Time → TimeRange)
      → parse_bound web.parse_time (query_get r key) default message next
        ≡ elim (bound r key default) [ none ↦ invalid_time message | some t ↦ next t ]
  unfolding parse_bound
  parse_bound-eq r key default message next = elim (Bool-cases (str_eq (query_get r key) "")) [
    | inl e ↦ rw (e, parse_bound) refl
    | inr e ↦ rw (e, parse_bound) refl
  ]

  -- What parseTimeRange makes of the two times.
  abbrev pub range_of : (from to : Option Time) → TimeRange
  range_of none to = invalid_time "invalid start time format, use RFC3339"
  range_of (some start) none = invalid_time "invalid end time format, use RFC3339"
  range_of (some start) (some end) = time_range start end

  -- parseTimeRange once the start is known
  abbrev end_from : Request → Time → Time → TimeRange
  end_from r now start =
      parse_bound web.parse_time (query_get r "end") now "invalid end time format, use RFC3339"
        (time_range start)

  end_from-eq :
      (r : Request) (now start : Time) (to : Option Time)
      → bound r "end" now ≡ to
      → end_from r now start ≡ range_of (some start) to
  end_from-eq r now start to f =
      parse_bound-eq r "end" now "invalid end time format, use RFC3339" (time_range start)
      ∙ ended to (bound r "end" now) f
    where
      ended :
          (to read : Option Time)
          → read ≡ to
          → elim read [
            | none ↦ invalid_time "invalid end time format, use RFC3339"
            | some end ↦ time_range start end
          ]
            ≡ range_of (some start) to
      ended none read f = rw f refl
      ended (some end) read f = rw f refl

  range_eq :
      (r : Request) (now default : Time) (from to : Option Time)
      → bound r "start" default ≡ from
      → bound r "end" now ≡ to
      → parse_bound web.parse_time
          (query_get r "start")
          default
          "invalid start time format, use RFC3339"
          (end_from r now)
        ≡ range_of from to
  range_eq r now default none to e f =
      rw
        (
          parse_bound-eq r "start" default "invalid start time format, use RFC3339"
              (end_from r now),
          e,
        )
        refl
  range_eq r now default (some start) to e f =
      rw
        (
          parse_bound-eq r "start" default "invalid start time format, use RFC3339"
              (end_from r now),
          e,
        )
        (end_from-eq r now start to f)

  pub range_from-eq :
      (r : Request) (now : Time) (from to : Option Time)
      → bound r "start" (now - day) ≡ from
      → bound r "end" now ≡ to
      → range_from web.parse_time r now ≡ range_of from to
  unfolding range_from
  range_from-eq r now from to e f = range_eq r now (now - day) from to e f

  -- The two answers.
  pub data RangeAnswer (r : Request) (w : ResponseWriter F) (s : System F)
      (ts : List (Transaction F)) (got : ResponseWriter F) : Type 0 where
    bad_range :
        (message : String)
        → (bound r "start" ((time_now s).0 - day) ≡ none) ⊎ (bound r "end" (time_now s).0 ≡ none)
        → got ≡ respond_error status_bad_request "INVALID_PARAMS" (message ∷ []) w
        → RangeAnswer r w s ts got
    good_range :
        (start end : Time) (m : RecoveryMetrics F)
        → bound r "start" ((time_now s).0 - day) ≡ some start
        → bound r "end" (time_now s).0 ≡ some end
        → IsRecovery m (keep (created_between start end) ts)
        → got ≡ respond_json status_ok (recovery_content m) w
        → got.content ≡ (
            if w.encodes (recovery_content m)
            then w.content ++ recovery_content m ∷ []
            else w.content)
        → RangeAnswer r w s ts got

  recovery_in-RangeAnswer :
      (r : Request) (w : ResponseWriter F) (s : System F) (ts : List (Transaction F))
      (from to : Option Time)
      → Represents s.store ts
      → bound r "start" ((time_now s).0 - day) ≡ from
      → bound r "end" (time_now s).0 ≡ to
      → RangeAnswer r w s ts (get_recovery_metrics_handler web r w s).0
  unfolding get_recovery_metrics_handler parse_time_range recovery_in answer_recovery time_now gets
  recovery_in-RangeAnswer r w s ts none to rep e f =
      bad_range "invalid start time format, use RFC3339" (inl e)
        (rw (range_from-eq r _ none to e f) refl)
  recovery_in-RangeAnswer r w s ts (some start) none rep e f =
      bad_range "invalid end time format, use RFC3339" (inr f)
        (rw (range_from-eq r _ (some start) none e f) refl)
  recovery_in-RangeAnswer r w s ts (some start) (some end) rep e f =
      let (m, known, recovery) = get_recovery_metrics-IsRecovery start end s.store ts rep in
      good_range start end m e f recovery
        (rw (range_from-eq r _ (some start) (some end) e f, known) refl)
        (rw (range_from-eq r _ (some start) (some end) e f, known)
          (content-respond_json status_ok (recovery_content m) w))

  -- GET /metrics/recovery answers 400 exactly if the start or the end is given and is no time, and
  -- otherwise 200, and gives Encode the metrics of the stored transactions that were created in the
  -- range, both ends included: they are the body if Encode succeeds for them, and there is no body if
  -- it fails. A start that is not given is 24 hours before the clock's time, and an end that is not
  -- given is the clock's time. There is no 500.
  pub get_recovery_metrics_answers :
      (r : Request) (w : ResponseWriter F) (s : System F) (ts : List (Transaction F))
      → Represents s.store ts
      → RangeAnswer r w s ts (get_recovery_metrics_handler web r w s).0
  get_recovery_metrics_answers r w s ts rep = recovery_in-RangeAnswer r w s ts _ _ rep refl refl
