-- ===== src/Concurrent/Orchestrated.antt =====
-- The calls of internal/orchestrator/orchestrator.go: those that ProcessFailure and RecordRetryOutcome
-- make, in their order.
use smart_retry_orchestrator.Float.{Float64}
use smart_retry_orchestrator.Orchestrator.State.{Env, Action}
use smart_retry_orchestrator.Orchestrator.Select.{
  select_best_alternative, collect_candidates, Candidate, choose, candidate,
}
use smart_retry_orchestrator.Orchestrator.Plan.{
  via_alternative, plan_route, route_to, plan_retry_attempt, Route, attempt_of, route,
  delayed_retry_seconds,
}
use smart_retry_orchestrator.Orchestrator.Retry.{
  attempt_retry, decision_of, add_attempt, after_plan, recover, retry_loop, after_attempt, exhaust,
  mark_exhausted, mark_recovered, execute_retry_chain, new_transaction,
}
use smart_retry_orchestrator.Common.{
  ℕ, List, String, Option, Bool, ◌∷◌, some, str_eq, if◌then◌else◌, ◌+◌, [], none, true, suc, zero,
  false, ◌-◌,
}
use smart_retry_orchestrator.Domain.Models.{
  FailureEvent, Transaction, RetryAttempt, ClassificationResult, ProcessorHealthSnapshot,
  ProcessFailureResult,
}
use smart_retry_orchestrator.Domain.Enums.{
  ProcessorName, FailureReasonCode, RetryStrategy, all_processors, is_down, do_not_retry, immediate,
  delayed, alternative_processor, retrying, hard_declined,
}
use smart_retry_orchestrator.Concurrent.Calls.{
  Calls, LightCall, then_, return, call, clock, tracker_read, calls_if, simulate, adaptive_read,
  tracker_write, adaptive_write, log_write, Call, widen, light, updating, fetching, saving,
}
use smart_retry_orchestrator.Orchestrator.Adaptive.{get_adaptive_rate}
use smart_retry_orchestrator.Orchestrator.Process.{
  record_retry_outcome, process_soft, or_wrap, process_hard, report_on, process_failure, is_hard,
  with_outcome, hard_result, soft_result,
}
use smart_retry_orchestrator.Orchestrator.Reasoning.{
  immediate_rerouted_reasoning, immediate_same_reasoning, delayed_rerouted_reasoning,
  delayed_same_reasoning, alternative_reasoning, max_retries,
}
use smart_retry_orchestrator.Classifier.{Classifier}
use smart_retry_orchestrator.Domain.Errors.{Result, err, wrapped, ok}
use mathlib.Core.Option

module _ {F : Type 0} ⦃fl : Float64 F⦄ ⦃env : Env F⦄ where
  unfoldable pub collect_candidates_calls :
      (exclude : ProcessorName) (code : FailureReasonCode) (ps : List ProcessorName)
      → Calls LightCall (List (Candidate F)) (collect_candidates exclude code ps)
  unfolding collect_candidates
  collect_candidates_calls exclude code [] = return []
  collect_candidates_calls exclude code (p ∷ rest) =
      let later = collect_candidates_calls exclude code rest in
      calls_if (str_eq p exclude) later (
        then_ (call (tracker_read p)) λ h. then_ (call (adaptive_read _ (candidate code p h))) λ c.
          then_ later λ candidates. return (if is_down h.state then candidates else c ∷ candidates))

  unfoldable pub select_calls :
      (exclude : ProcessorName) (code : FailureReasonCode)
      → Calls {F = F} LightCall (Option ProcessorName) (select_best_alternative exclude code)
  unfolding select_best_alternative
  select_calls exclude code =
      then_ (collect_candidates_calls exclude code all_processors)
        λ candidates. return (choose exclude candidates)

  unfoldable pub route_to_calls :
      (delay : F) (event : FailureEvent F)
      (text : ProcessorName → ProcessorHealthSnapshot F → F → String) (alt : Option ProcessorName)
      → Calls LightCall (Option (Route F)) (route_to delay event text alt)
  unfolding route_to
  route_to_calls delay event text none = return none
  route_to_calls delay event text (some target) = then_ (call (tracker_read target)) λ h.
      then_ (call (adaptive_read _ (get_adaptive_rate event.failure_code target)))
        λ (rate : F). return (some (route target delay (text target h rate)))

  unfoldable pub via_alternative_calls :
      (delay : F) (event : FailureEvent F)
      (text : ProcessorName → ProcessorHealthSnapshot F → F → String)
      → Calls LightCall (Option (Route F)) (via_alternative delay event text)
  unfolding via_alternative
  via_alternative_calls delay event text =
      then_ (select_calls event.processor event.failure_code) (route_to_calls delay event text)

  unfoldable pub plan_route_calls :
      (n : ℕ) (strategy : RetryStrategy) (event : FailureEvent F)
      (original : ProcessorHealthSnapshot F)
      → Calls LightCall (Option (Route F)) (plan_route n strategy event original)
  unfolding plan_route
  plan_route_calls n do_not_retry event original = return (some (route "" (fl.lit 0 1) ""))
  plan_route_calls n immediate event original =
      calls_if (is_down original.state)
        (via_alternative_calls (fl.lit 0 1) event (immediate_rerouted_reasoning event original))
        (return
          (some (route event.processor (fl.lit 0 1) (immediate_same_reasoning event original n))))
  plan_route_calls n delayed event original =
      calls_if (is_down original.state)
        (via_alternative_calls delayed_retry_seconds event (λ target alt rate.
          delayed_rerouted_reasoning delayed_retry_seconds event original target alt))
        (return (
          some (
            route event.processor delayed_retry_seconds
              (delayed_same_reasoning delayed_retry_seconds event original n))))
  plan_route_calls n alternative_processor event original =
      via_alternative_calls (fl.lit 0 1) event (alternative_reasoning event original)

  unfoldable pub plan_calls :
      (tx : Transaction F) (event : FailureEvent F) (c : ClassificationResult)
      → Calls LightCall (Option (RetryAttempt F)) (plan_retry_attempt tx event c)
  unfolding plan_retry_attempt
  plan_calls tx event c = then_ (call clock) λ now.
      then_ (call (tracker_read event.processor)) λ original.
        then_ (plan_route_calls (tx.retry_count + 1) c.strategy event original)
          λ planned. return (Option.map (attempt_of now (tx.retry_count + 1) c.strategy) planned)

  unfoldable pub attempt_calls :
      (tx : Transaction F) (event : FailureEvent F) (planned : RetryAttempt F)
      → Calls LightCall (Bool × Transaction F) (attempt_retry tx event planned)
  unfolding attempt_retry
  attempt_calls tx event planned = then_ (call (simulate planned.processor)) λ success.
      let attempt : RetryAttempt F = record planned { success = success } in
      then_ (call clock) λ now.
        then_ (call (tracker_write attempt.processor success attempt.timestamp)) λ _.
          then_ (call (adaptive_write event.failure_code attempt.processor success)) λ _.
            then_ (call (log_write (decision_of tx event attempt)))
              λ _. return (success, add_attempt now tx attempt)

  unfoldable pub exhaust_calls : (tx : Transaction F) → Calls Call (Transaction F) (exhaust tx)
  unfolding exhaust
  exhaust_calls tx =
      then_ (call (light _ _ clock))
        λ now. then_ (call (updating (mark_exhausted now tx))) λ _. return (mark_exhausted now tx)

  unfoldable pub recover_calls : (tx : Transaction F) → Calls Call (Transaction F) (recover tx)
  unfolding recover
  recover_calls tx =
      then_ (call (light _ _ clock))
        λ now. then_ (call (updating (mark_recovered now tx))) λ _. return (mark_recovered now tx)

  unfoldable pub after_attempt_calls :
      (next : Transaction F → Action F (Transaction F)) (success : Bool) (tx : Transaction F)
      → ((t : Transaction F) → Calls Call (Transaction F) (next t))
      → Calls Call (Transaction F) (after_attempt next success tx)
  unfolding after_attempt
  after_attempt_calls next true tx k = recover_calls tx
  after_attempt_calls next false tx k = k tx

  unfoldable pub after_plan_calls :
      (next : Transaction F → Action F (Transaction F)) (tx : Transaction F)
      (event : FailureEvent F) (planned : Option (RetryAttempt F))
      → ((t : Transaction F) → Calls Call (Transaction F) (next t))
      → Calls Call (Transaction F) (after_plan next tx event planned)
  unfolding after_plan
  after_plan_calls next tx event none k = exhaust_calls tx
  after_plan_calls next tx event (some planned) k =
      then_ (widen (attempt_calls tx event planned)) λ r. after_attempt_calls next r.0 r.1 k

  unfoldable pub retry_loop_calls :
      (rounds : ℕ) (tx : Transaction F) (event : FailureEvent F) (c : ClassificationResult)
      → Calls Call (Transaction F) (retry_loop rounds tx event c)
  unfolding retry_loop
  retry_loop_calls zero tx event c = exhaust_calls tx
  retry_loop_calls (suc rounds) tx event c = then_ (widen (plan_calls tx event c)) λ planned.
      after_plan_calls (λ t. retry_loop rounds t event c) tx event planned
        λ t. retry_loop_calls rounds t event c

  unfoldable pub or_wrap_calls :
      {A : Type 0} {next : Action F (Result A)} (text : String) (r : Result (Unit {0}))
      → Calls Call (Result A) next
      → Calls Call (Result A) (or_wrap text r next)
  unfolding or_wrap
  or_wrap_calls text (err e) k = return (err (wrapped text e))
  or_wrap_calls text (ok _) k = k

  unfoldable pub process_hard_calls :
      (event : FailureEvent F) (c : ClassificationResult)
      → Calls Call (Result (ProcessFailureResult F)) (process_hard event c)
  unfolding process_hard
  process_hard_calls event c =
      then_ (call (saving (new_transaction hard_declined event c))) λ saved.
        or_wrap_calls "saving hard-declined transaction" saved (return (ok (hard_result event c)))

  unfoldable pub process_soft_calls :
      (event : FailureEvent F) (c : ClassificationResult)
      → Calls Call (Result (ProcessFailureResult F)) (process_soft event c)
  unfolding process_soft execute_retry_chain
  process_soft_calls event c =
      let tx = new_transaction retrying event c in
      then_ (call (saving tx)) λ saved. or_wrap_calls "saving transaction" saved (
        then_ (retry_loop_calls (max_retries - tx.retry_count) tx event c)
          λ t. return (ok (soft_result event c t)))

  unfoldable pub process_failure_calls :
      ⦃cl : Classifier F⦄
      → (event : FailureEvent F)
      → Calls Call (Result (ProcessFailureResult F)) (process_failure event)
  unfolding process_failure
  process_failure_calls ⦃cl⦄ event =
      let c = cl.classify event in
      then_ (call (light _ _ (tracker_write event.processor false event.timestamp))) λ _.
        calls_if (is_hard c.decline_type) (process_hard_calls event c) (process_soft_calls event c)

  unfoldable pub report_on_calls :
      (p : ProcessorName) (success : Bool) (r : Result (Transaction F))
      → Calls Call (Result (Unit {0})) (report_on p success r)
  unfolding report_on
  report_on_calls p success (err e) = return (err e)
  report_on_calls p success (ok tx) = then_ (call (light _ _ clock)) λ now.
      then_ (call (light _ _ (tracker_write p success now))) λ _.
        then_ (call (light _ _ (adaptive_write tx.original_event.failure_code p success)))
          λ _. call (updating (with_outcome now success tx))

  unfoldable pub record_retry_outcome_calls :
      (id : String) (p : ProcessorName) (success : Bool)
      → Calls {F = F} Call (Result (Unit {0})) (record_retry_outcome id p success)
  unfolding record_retry_outcome
  record_retry_outcome_calls id p success =
      then_ (call (fetching id)) λ found. report_on_calls p success found
