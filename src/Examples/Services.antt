-- ===== src/Examples/Services.antt =====
-- The service on concrete requests (internal/api/handler.go, cmd/server/main.go, datagen/generator.go).
use native.Mathlib.Nat.{mod-lt}
use smart_retry_orchestrator.Classifier.Policy.{default_classifier}
use smart_retry_orchestrator.Datagen.Random.{IsRng, Rng}
use smart_retry_orchestrator.Api.Responses.{
  BatchResponse, respond_json, status_ok, status_created, batch_content, texts_content,
}
use smart_retry_orchestrator.Service.Reach.{Reach, Reach-IsOrderly, served, started}
use smart_retry_orchestrator.Api.Requests.{validate_failure}
use smart_retry_orchestrator.Service.Submit.{Answered, submit_failure_answers}
use smart_retry_orchestrator.Common.{
  String, List, [], true, ◌≡◌, some, ◌↔◌, ◌%◌, ◌∷◌, arith, ◌*◌, ◌+◌, refl, inr, inl,
}
use smart_retry_orchestrator.Domain.Models.{
  Time, RecoveryMetrics, Transaction, FailureEvent, minute,
}
use smart_retry_orchestrator.Service.Orderly.{IsOrderly, IsOrderly-initial_system}
use smart_retry_orchestrator.Api.Handlers.{reset_data, submit_failure}
use smart_retry_orchestrator.Orchestrator.State.{System, time_now}
use smart_retry_orchestrator.Api.Routes.{serve, post_failures}
use smart_retry_orchestrator.Examples.Samples.{
  one_system, two_stored, one_store-Represents, ticking, one_store, sample,
}
use smart_retry_orchestrator.Server.{new_handler, initial_system, generator, new_http_server}
use smart_retry_orchestrator.Float.{Ratio, ratio, ratio_float, Ratio-IsIeee}
use smart_retry_orchestrator.Api.Batch.{submit_batch}
use smart_retry_orchestrator.Domain.Enums.{TransactionStatus, exhausted, recovered}
use smart_retry_orchestrator.Service.Loading.{IsLoaded, test_data, generator_lem}
use smart_retry_orchestrator.Service.Batches.{IsAccount, submit_batch_accounts}
use smart_retry_orchestrator.Datagen.Generator.{generate_events}
use smart_retry_orchestrator.Metrics.{get_recovery_metrics}
use smart_retry_orchestrator.Service.Resets.{IsReset, reset_data_lem}
use smart_retry_orchestrator.Api.Validity.{IsAcceptable, validate_failure_iff}
use smart_retry_orchestrator.Datagen.Made.{IsTestData}
use smart_retry_orchestrator.Service.Totals.{get_recovery_metrics_totals}
use smart_retry_orchestrator.Datagen.Generated.{generate_events_lem}
use smart_retry_orchestrator.Orchestrator.Retry.Chain.{IsBalanced}
use smart_retry_orchestrator.Common.Dict.{lookup}
use smart_retry_orchestrator.Examples.Requests.{request, request_of, web, batch, writer}

abbrev pub no_events : Time → List (FailureEvent Ratio)
no_events now = []

abbrev pub first_state : System Ratio
first_state = (serve web (new_handler no_events true "") "" post_failures request initial_system).1

pub first_state-Reach : Reach web (new_handler no_events true "") "" first_state
first_state-Reach = served started post_failures request

-- The state that a first request has left.
Reach-IsOrderly_example : IsOrderly first_state
Reach-IsOrderly_example = Reach-IsOrderly web no_events true "" "" first_state-Reach

submit_failure_answers_example :
    Answered web one_system two_stored
      (some (request_of "txn-1"))
      writer
      (submit_failure web request writer one_system)
submit_failure_answers_example =
    submit_failure_answers web request writer one_system two_stored one_store-Represents

-- The second and the third request fail, for their id and their currency.
submit_batch_accounts_example :
    (resp : BatchResponse) × ((submit_batch web request writer initial_system).0
      ≡ respond_json status_created (batch_content resp) writer)
    × IsAccount web batch.events resp initial_system
        (submit_batch web request writer initial_system).1
submit_batch_accounts_example =
    submit_batch_accounts web request writer initial_system batch refl (omega arith)
      IsOrderly-initial_system

sample-IsBalanced : (id : String) (status : TransactionStatus) → IsBalanced (sample id status)
sample-IsBalanced id status = record { count = refl; numbered = tt; cost = refl }

one_system-IsOrderly : IsOrderly one_system
unfolding lookup
one_system-IsOrderly = record {
  transactions = two_stored;
  stored = one_store-Represents;
  sound = (
    inr (record {
      soft = refl;
      balanced = sample-IsBalanced "txn-7" exhausted;
      bounded = omega arith;
      ended = inr (refl, tt);
    }),
    (
      inr (record {
        soft = refl;
        balanced = sample-IsBalanced "txn-8" recovered;
        bounded = omega arith;
        ended = inl refl;
      }),
      tt,
    ),
  );
  counted = λ code p. omega arith;
}

get_recovery_metrics_totals_example :
    (m : RecoveryMetrics Ratio) × (get_recovery_metrics 0 (2000 * minute) one_store ≡ some m)
    × (m.total_transactions ≡ m.hard_declines + m.soft_declines)
    × (m.soft_declines ≡ m.recovered + m.exhausted)
    × (ratio_float.le m.recovery_rate (ratio 1 1) ≡ true)
get_recovery_metrics_totals_example =
    get_recovery_metrics_totals Ratio-IsIeee one_system 0 (2000 * minute) one_system-IsOrderly
      (omega arith)

validate_failure_iff_example :
    (validate_failure (request_of "txn-1") ≡ []) ↔ IsAcceptable (request_of "txn-1")
validate_failure_iff_example = validate_failure_iff (request_of "txn-1")

-- Every number that is drawn is the call's modulo the bound.
abbrev counting : Rng Ratio
counting = record { intn = λ k n. k % n; float64 = λ k. ratio (k % 10) 10 }

counting-IsRng : IsRng counting
counting-IsRng = record { intn_lt = λ k n lt. mod-lt k lt }

generate_events_lem_example :
    (events : List (FailureEvent Ratio)) × (generate_events counting (1000 * minute) ≡ some events)
    × IsTestData (1000 * minute) events
generate_events_lem_example =
    generate_events_lem counting counting-IsRng (1000 * minute) (omega arith)

generator_lem_example :
    (txs : List (Transaction Ratio)) × IsLoaded
      (test_data counting (time_now one_system).0)
      (generator (test_data counting) one_system)
      txs
unfolding time_now
generator_lem_example = generator_lem counting one_system counting-IsRng (omega arith)

reset_data_lem_example :
    ((reset_data request writer one_system).0
      ≡ respond_json status_ok
          (texts_content (("status", "reset") ∷ ("message", "All data cleared successfully") ∷ []))
          writer)
    × IsReset one_system (reset_data request writer one_system).1
reset_data_lem_example = reset_data_lem request writer one_system

-- Without PORT the server listens on 8080.
default_addr : (new_http_server "").addr ≡ ":8080"
unfolding new_http_server
default_addr = refl

given_addr : (new_http_server "9000").addr ≡ ":9000"
unfolding new_http_server
given_addr = refl
