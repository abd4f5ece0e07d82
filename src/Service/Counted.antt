-- ===== src/Service/Counted.antt =====
-- The adaptive data of internal/orchestrator/orchestrator.go never count more successes than outcomes.
use smart_retry_orchestrator.Orchestrator.State.{
  AdaptiveData, pure, Action, System, ◌>>=◌, update, save, log_decision, Env, time_now,
  record_health, health_of, draw_float64, gets,
}
use smart_retry_orchestrator.Orchestrator.Adaptive.{
  record_of, record_adaptive, record_of-record_adaptive,
}
use smart_retry_orchestrator.Common.{
  ◌≡◌, Bool, arith, ◌≤◌, sym, refl, if◌then◌else◌, true, false, String, ℕ, Option, suc, some, none,
  zero, ◌-◌,
}
use smart_retry_orchestrator.Domain.Enums.{
  FailureReasonCode, ProcessorName, retrying, hard_declined,
}
use smart_retry_orchestrator.Orchestrator.Quiet.{IsQuiet, IsQuiet-gets, IsQuiet-plan_retry_attempt}
use mathlib.Core.Path.{subst}
use smart_retry_orchestrator.Domain.Models.{
  Time, Transaction, FailureEvent, RetryAttempt, ClassificationResult,
}
use smart_retry_orchestrator.Float.{Float64}
use smart_retry_orchestrator.Orchestrator.Retry.{
  recover, exhaust, record_retry, simulate_outcome, after_plan, retry_loop, after_attempt,
  attempt_retry, execute_retry_chain, new_transaction,
}
use smart_retry_orchestrator.Orchestrator.Process.{
  report_on, process_soft, process_failure, process_hard, record_retry_outcome, or_wrap,
  with_outcome, soft_result, hard_result, is_hard,
}
use smart_retry_orchestrator.Store.{get_transaction}
use smart_retry_orchestrator.Classifier.{Classifier}
use smart_retry_orchestrator.Orchestrator.Reasoning.{max_retries}
use smart_retry_orchestrator.Domain.Errors.{Result, err, ok}
use smart_retry_orchestrator.Orchestrator.Plan.{plan_retry_attempt}

abbrev pub IsCounted : AdaptiveData → Type 0
IsCounted adaptive =
    (code : FailureReasonCode) (p : ProcessorName)
    → (record_of code p adaptive).successes ≤ (record_of code p adaptive).total

pub record_adaptive-IsCounted :
    (c : FailureReasonCode) (p : ProcessorName) (b : Bool) (adaptive : AdaptiveData)
    → IsCounted adaptive
    → IsCounted (record_adaptive c p b adaptive)
record_adaptive-IsCounted c p b adaptive h code q =
    ground (arith, record_of-record_adaptive c code p q b adaptive, h code q)

-- Actions that keep this.
pub record IsCounting {F A : Type 0} (m : Action F A) : Type 0 where
  pub at : (s : System F) → IsCounted s.adaptive_data → IsCounted (m s).1.adaptive_data

module _ {F A : Type 0} where
  IsCounting-unchanged :
      (m : Action F A) → ((s : System F) → (m s).1.adaptive_data ≡ s.adaptive_data) → IsCounting m
  IsCounting-unchanged m e = record { at = λ s h. subst IsCounted (sym (e s)) h }

  pub IsCounting-IsQuiet : (m : Action F A) → IsQuiet m → IsCounting m
  IsCounting-IsQuiet m q = IsCounting-unchanged m λ s. (q.at s).adaptive

  pub IsCounting-pure : (a : A) → IsCounting {F = F} (pure a)
  unfolding pure
  IsCounting-pure a = record { at = λ s h. h }

module _ {F A B : Type 0} where
  pub IsCounting-bind :
      (m : Action F A) (f : A → Action F B)
      → IsCounting m
      → ((a : A) → IsCounting (f a))
      → IsCounting (m >>= f)
  IsCounting-bind m f p q = record { at = λ s h. (q (m s).0).at (m s).1 (p.at s h) }

module _ {F : Type 0} where
  IsCounting-if :
      {A : Type 0} (b : Bool) (m n : Action F A)
      → IsCounting m
      → IsCounting n
      → IsCounting (if b then m else n)
  IsCounting-if true m n p q = p
  IsCounting-if false m n p q = q

  IsCounting-record_retry :
      (c : FailureReasonCode) (p : ProcessorName) (b : Bool)
      → IsCounting {F = F} (record_retry c p b)
  unfolding record_retry
  IsCounting-record_retry c p b = record {
    at = λ s. record_adaptive-IsCounted c p b s.adaptive_data;
  }

  IsCounting-update : (tx : Transaction F) → IsCounting (update tx)
  unfolding update
  IsCounting-update tx = IsCounting-unchanged _ λ s. refl

  IsCounting-save : (tx : Transaction F) → IsCounting (save tx)
  unfolding save
  IsCounting-save tx = IsCounting-unchanged _ λ s. refl

module _ {F : Type 0} ⦃env : Env F⦄ where
  IsCounting-time_now : IsCounting {F = F} time_now
  unfolding time_now
  IsCounting-time_now = IsCounting-unchanged _ λ s. refl

  IsCounting-record_health :
      (p : ProcessorName) (b : Bool) (ts : Time) → IsCounting {F = F} (record_health p b ts)
  unfolding record_health
  IsCounting-record_health p b ts = IsCounting-unchanged _ λ s. refl

  IsCounting-exhaust : (tx : Transaction F) → IsCounting (exhaust tx)
  unfolding exhaust time_now update pure
  IsCounting-exhaust tx = IsCounting-unchanged _ λ s. refl

  IsCounting-recover : (tx : Transaction F) → IsCounting (recover tx)
  unfolding recover time_now update pure
  IsCounting-recover tx = IsCounting-unchanged _ λ s. refl

module _ {F : Type 0} ⦃fl : Float64 F⦄ ⦃env : Env F⦄ where
  IsCounting-attempt_retry :
      (tx : Transaction F) (event : FailureEvent F) (a : RetryAttempt F)
      → IsCounting (attempt_retry tx event a)
  unfolding attempt_retry simulate_outcome health_of draw_float64 record_health record_retry
      log_decision
  IsCounting-attempt_retry tx event a = record {
    at = λ s.
        record_adaptive-IsCounted event.failure_code a.processor (simulate_outcome a.processor s).0
          s.adaptive_data;
  }

  IsCounting-after_attempt :
      (next : Transaction F → Action F (Transaction F)) (b : Bool) (tx : Transaction F)
      → ((t : Transaction F) → IsCounting (next t))
      → IsCounting (after_attempt next b tx)
  unfolding after_attempt
  IsCounting-after_attempt next true tx h = IsCounting-recover tx
  IsCounting-after_attempt next false tx h = h tx

  IsCounting-after_plan :
      (next : Transaction F → Action F (Transaction F)) (tx : Transaction F)
      (event : FailureEvent F) (planned : Option (RetryAttempt F))
      → ((t : Transaction F) → IsCounting (next t))
      → IsCounting (after_plan next tx event planned)
  unfolding after_plan
  IsCounting-after_plan next tx event none h = IsCounting-exhaust tx
  IsCounting-after_plan next tx event (some a) h =
      IsCounting-bind (attempt_retry tx event a) _ (IsCounting-attempt_retry tx event a)
        λ r. IsCounting-after_attempt next r.0 r.1 h

  IsCounting-retry_loop :
      (rounds : ℕ) (tx : Transaction F) (event : FailureEvent F) (c : ClassificationResult)
      → IsCounting (retry_loop rounds tx event c)
  unfolding retry_loop
  IsCounting-retry_loop zero tx event c = IsCounting-exhaust tx
  IsCounting-retry_loop (suc rounds) tx event c =
      IsCounting-bind (plan_retry_attempt tx event c) _
        (IsCounting-IsQuiet _ (IsQuiet-plan_retry_attempt tx event c))
        λ planned.
          IsCounting-after_plan (λ t. retry_loop rounds t event c) tx event planned
            λ t. IsCounting-retry_loop rounds t event c

  IsCounting-or_wrap :
      {A : Type 0} (text : String) (r : Result (Unit {0})) (next : Action F (Result A))
      → IsCounting next
      → IsCounting (or_wrap text r next)
  unfolding or_wrap
  IsCounting-or_wrap text (err e) next h = IsCounting-pure _
  IsCounting-or_wrap text (ok u) next h = h

  IsCounting-process_hard :
      (event : FailureEvent F) (c : ClassificationResult) → IsCounting (process_hard event c)
  unfolding process_hard
  IsCounting-process_hard event c =
      IsCounting-bind (save (new_transaction hard_declined event c)) _
        (IsCounting-save (new_transaction hard_declined event c))
        λ saved.
          IsCounting-or_wrap "saving hard-declined transaction" saved _
            (IsCounting-pure (ok (hard_result event c)))

  IsCounting-process_soft :
      (event : FailureEvent F) (c : ClassificationResult) → IsCounting (process_soft event c)
  unfolding process_soft execute_retry_chain
  IsCounting-process_soft event c =
      let tx = new_transaction retrying event c in
      IsCounting-bind (save tx) _ (IsCounting-save tx) λ saved.
        IsCounting-or_wrap "saving transaction" saved _ (
          IsCounting-bind (execute_retry_chain tx event c) _
            (IsCounting-retry_loop (max_retries - tx.retry_count) tx event c)
            λ t. IsCounting-pure (ok (soft_result event c t)))

  pub IsCounting-process_failure :
      ⦃cl : Classifier F⦄ → (event : FailureEvent F) → IsCounting (process_failure event)
  unfolding process_failure
  IsCounting-process_failure ⦃cl⦄ event =
      IsCounting-bind (record_health event.processor false event.timestamp) _
        (IsCounting-record_health event.processor false event.timestamp)
        λ _.
          IsCounting-if (is_hard (cl.classify event).decline_type) _ _
            (IsCounting-process_hard event (cl.classify event))
            (IsCounting-process_soft event (cl.classify event))

  IsCounting-report_on :
      (p : ProcessorName) (b : Bool) (r : Result (Transaction F)) → IsCounting (report_on p b r)
  unfolding report_on
  IsCounting-report_on p b (err e) = IsCounting-pure _
  IsCounting-report_on p b (ok tx) = IsCounting-bind time_now _ IsCounting-time_now λ now.
      IsCounting-bind (record_health p b now) _ (IsCounting-record_health p b now) λ _.
        IsCounting-bind (record_retry tx.original_event.failure_code p b) _
          (IsCounting-record_retry tx.original_event.failure_code p b)
          λ _. IsCounting-update (with_outcome now b tx)

  pub IsCounting-record_retry_outcome :
      (id : String) (p : ProcessorName) (b : Bool)
      → IsCounting {F = F} (record_retry_outcome id p b)
  unfolding record_retry_outcome
  IsCounting-record_retry_outcome id p b =
      IsCounting-bind (gets (λ s. get_transaction s.store id)) _
        (IsCounting-IsQuiet _ (IsQuiet-gets _)) λ found. IsCounting-report_on p b found
