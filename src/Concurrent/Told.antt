-- ===== src/Concurrent/Told.antt =====
-- What ProcessFailure and RecordRetryOutcome (internal/orchestrator/orchestrator.go) write and answer
-- while other requests are served.
use smart_retry_orchestrator.Float.{Float64}
use smart_retry_orchestrator.Orchestrator.State.{Env}
use smart_retry_orchestrator.Concurrent.Lasting.{IsLasting, IsFetched, with_outcome-IsLasting}
use smart_retry_orchestrator.Concurrent.Keeping.{Keeps}
use smart_retry_orchestrator.Concurrent.Retried.{IsEnd, Keeps-calls_if, Keeps-retry_loop}
use smart_retry_orchestrator.Domain.Errors.{Result, ok, err, wrapped, duplicate_id}
use smart_retry_orchestrator.Domain.Models.{
  FailureEvent, ProcessFailureResult, ClassificationResult, Transaction,
}
use smart_retry_orchestrator.Classifier.{Classifier}
use smart_retry_orchestrator.Common.{false, ◌≡◌, String, Bool, inl, refl, inr, arith, true, ◌⊎◌}
use smart_retry_orchestrator.Domain.Enums.{
  DeclineType, ProcessorName, hard_decline, soft_decline, retrying,
}
use smart_retry_orchestrator.Concurrent.Orchestrated.{
  process_hard_calls, report_on_calls, record_retry_outcome_calls, process_soft_calls,
  process_failure_calls, or_wrap_calls,
}
use smart_retry_orchestrator.Orchestrator.Retry.{new_transaction}
use smart_retry_orchestrator.Orchestrator.Process.Outcomes.{saving_text}
use smart_retry_orchestrator.Orchestrator.Process.{is_hard, hard_result, soft_result}
use smart_retry_orchestrator.Orchestrator.Reasoning.{max_retries}
use smart_retry_orchestrator.Orchestrator.Retry.Loop.{IsOpen-new_transaction}
use smart_retry_orchestrator.Service.Answers.{IsMissingIfError}

is_hard-false : (d : DeclineType) → is_hard d ≡ false → d ≡ soft_decline
is_hard-false hard_decline e = cc
is_hard-false soft_decline e = refl

is_hard-true : (d : DeclineType) → is_hard d ≡ true → d ≡ hard_decline
is_hard-true hard_decline e = refl
is_hard-true soft_decline e = cc

module _ {F : Type 0} ⦃fl : Float64 F⦄ ⦃env : Env F⦄ ⦃cl : Classifier F⦄ where
  -- The answer to a failure: the duplicate error; the answer to a hard decline; or the answer to a soft
  -- decline, with the transaction that the chain has ended with.
  abbrev pub IsTold : FailureEvent F → Result (ProcessFailureResult F) → Type 0
  IsTold event (err e) = e ≡ wrapped (saving_text (cl.classify event).decline_type) duplicate_id
  IsTold event (ok res) =
      let c = cl.classify event in
      ((c.decline_type ≡ hard_decline) × (res ≡ hard_result event c))
      ⊎ (c.decline_type ≡ soft_decline)
        × (t : Transaction F) × IsEnd (new_transaction retrying event c) t
        × (res ≡ soft_result event c t)

  Keeps-process_hard :
      (event : FailureEvent F)
      → (cl.classify event).decline_type ≡ hard_decline
      → Keeps (process_hard_calls event (cl.classify event)) (IsTold event)
  unfolding process_hard_calls or_wrap_calls new_transaction
  Keeps-process_hard event hard = (
    inl (record { hard = hard; status = refl; untried = refl }),
    inl (hard, refl),
    rw (hard, saving_text) refl,
  )

  new_transaction-IsLasting :
      (event : FailureEvent F) (c : ClassificationResult)
      → c.decline_type ≡ soft_decline
      → IsLasting (new_transaction retrying event c)
  unfolding new_transaction
  new_transaction-IsLasting event c soft = inr (record {
    soft = soft;
    balanced = record { count = refl; numbered = tt; cost = refl };
    bounded = omega arith;
    stage = inr (inr (refl, refl));
  })

  Keeps-process_soft :
      (event : FailureEvent F)
      → (cl.classify event).decline_type ≡ soft_decline
      → Keeps (process_soft_calls event (cl.classify event)) (IsTold event)
  unfolding process_soft_calls or_wrap_calls new_transaction
  Keeps-process_soft event soft =
      let c = cl.classify event in
      (
        new_transaction-IsLasting event c soft,
        Keeps-retry_loop max_retries (new_transaction retrying event c) event c _ soft
            (IsOpen-new_transaction event c) λ t end. inr (soft, t, end, refl),
        rw (soft, saving_text) refl,
      )

  pub Keeps-process_failure :
      (event : FailureEvent F) → Keeps (process_failure_calls event) (IsTold event)
  unfolding process_failure_calls
  Keeps-process_failure event = λ _.
      let c = cl.classify event in
      Keeps-calls_if (is_hard c.decline_type) (process_hard_calls event c)
        (process_soft_calls event c) (IsTold event)
        (λ e. Keeps-process_hard event (is_hard-true c.decline_type e))
        (λ e. Keeps-process_soft event (is_hard-false c.decline_type e))

module _ {F : Type 0} ⦃fl : Float64 F⦄ ⦃env : Env F⦄ where
  Keeps-report_on :
      (p : ProcessorName) (success : Bool) (found : Result (Transaction F))
      → IsFetched found
      → Keeps (report_on_calls p success found) IsMissingIfError
  unfolding report_on_calls
  Keeps-report_on p success (err e) h = h
  Keeps-report_on p success (ok tx) h =
      λ now _ _. (with_outcome-IsLasting now success tx h, tt, refl)

pub Keeps-record_retry_outcome :
    (F : Type 0) ⦃fl : Float64 F⦄ ⦃env : Env F⦄ (id : String) (p : ProcessorName) (success : Bool)
    → Keeps {F = F} (record_retry_outcome_calls id p success) IsMissingIfError
unfolding record_retry_outcome_calls
Keeps-record_retry_outcome F id p success = λ found h. Keeps-report_on p success found h
