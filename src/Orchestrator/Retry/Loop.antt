-- ===== src/Orchestrator/Retry/Loop.antt =====
-- The rounds of executeRetryChain (internal/orchestrator/orchestrator.go) put together.
use smart_retry_orchestrator.Float.{Float64}
use smart_retry_orchestrator.Orchestrator.State.{
  Env, record_health, Action, health_of, draw_float64, log_decision, System, time_now,
}
use smart_retry_orchestrator.Orchestrator.Retry.{
  add_attempt, after_plan, retry_loop, simulate_outcome, attempt_retry, after_attempt, record_retry,
  new_transaction, execute_retry_chain,
}
use smart_retry_orchestrator.Domain.Models.{
  Transaction, Time, RetryAttempt, FailureEvent, ClassificationResult,
}
use smart_retry_orchestrator.Common.{
  ℕ, List, Bool, Option, ◌≡◌, some, refl, suc, ◌+◌, false, arith, none, All-append, true, ◌∷◌, [],
  zero, ap, ◌∙◌,
}
use smart_retry_orchestrator.Domain.Enums.{ProcessorName, retrying}
use smart_retry_orchestrator.Store.Refinement.{Represents, save_decision_log-Represents}
use smart_retry_orchestrator.Orchestrator.Retry.Chain.{
  IsOpen, IsSameCase, IsSettled, IsBalanced-add_attempt, recover-IsSettled, exhaust-IsSettled,
  IsSameCase-trans, EndsWell-append, plan_retry_attempt_fields, IsFailure,
}
use smart_retry_orchestrator.Store.Contents.{find}
use smart_retry_orchestrator.Orchestrator.Plan.{plan_retry_attempt}
use smart_retry_orchestrator.Orchestrator.Quiet.{IsQuiet-plan_retry_attempt}
use smart_retry_orchestrator.Orchestrator.Reasoning.{max_retries}

module _ {F : Type 0} ⦃fl : Float64 F⦄ ⦃env : Env F⦄ where
  store-simulate_outcome :
      (p : ProcessorName) (s : System F) → (simulate_outcome p s).1.store ≡ s.store
  unfolding simulate_outcome health_of draw_float64
  store-simulate_outcome p s = refl

  -- An attempt changes nothing of the stored transactions.
  attempt_retry-Represents :
      (tx : Transaction F) (event : FailureEvent F) (a : RetryAttempt F) (s : System F)
      (ts : List (Transaction F))
      → Represents s.store ts
      → Represents (attempt_retry tx event a s).1.store ts
  unfolding attempt_retry record_health record_retry log_decision
  attempt_retry-Represents tx event a s ts r =
      let t = (simulate_outcome a.processor s).1 in
      save_decision_log-Represents t.store ts _ (rw (store-simulate_outcome a.processor s) r)

  -- The transaction has one attempt more, whose success is the answer.
  attempt_retry_result :
      (tx : Transaction F) (event : FailureEvent F) (a : RetryAttempt F) (s : System F)
      → (b : Bool) × (now : Time) × ((attempt_retry tx event a s).0
          ≡ (b, add_attempt now tx (record a { success = b })))
  unfolding attempt_retry record_health record_retry log_decision time_now
  attempt_retry_result tx event a s =
      let (b, t) = simulate_outcome a.processor s in (b, env.now t.clock_reads, refl)

  pub IsSameCase-add_attempt :
      (now : Time) (tx : Transaction F) (a : RetryAttempt F) → IsSameCase tx (add_attempt now tx a)
  unfolding add_attempt
  IsSameCase-add_attempt now tx a = record {
    id = refl;
    original_event = refl;
    classification = refl;
    created_at = refl;
    limit = refl;
  }

  IsSettled-trans :
      (tx tx' : Transaction F) (ts : List (Transaction F)) (r : Transaction F × System F)
      → IsSameCase tx tx'
      → IsSettled tx' ts r
      → IsSettled tx ts r
  IsSettled-trans tx tx' ts r p h = record {
    closed = h.closed;
    same = IsSameCase-trans tx tx' r.0 p h.same;
    stored = h.stored;
  }

  pub IsOpen-add_attempt :
      (rounds : ℕ) (now : Time) (tx : Transaction F) (a : RetryAttempt F)
      → IsOpen (suc rounds) tx
      → a.attempt_number ≡ tx.retry_count + 1
      → a.success ≡ false
      → IsOpen rounds (add_attempt now tx a)
  unfolding add_attempt
  IsOpen-add_attempt rounds now tx a o e f = record {
    balanced = IsBalanced-add_attempt now tx a o.balanced e;
    rounds_left = omega (arith, o.rounds_left);
    failures = All-append IsFailure tx.retry_attempts (a ∷ []) o.failures (f, tt);
  }

  after_attempt-IsSettled :
      (next : Transaction F → Action F (Transaction F)) (rounds : ℕ) (now : Time) (b : Bool)
      (tx : Transaction F) (a : RetryAttempt F) (s : System F) (ts : List (Transaction F))
      {old : Transaction F}
      → a.attempt_number ≡ tx.retry_count + 1
      → IsOpen (suc rounds) tx
      → Represents s.store ts
      → find tx.id ts ≡ some old
      → ((tx' : Transaction F) (s' : System F)
          → IsOpen rounds tx'
          → tx'.id ≡ tx.id
          → Represents s'.store ts
          → IsSettled tx' ts (next tx' s'))
      → IsSettled tx ts (after_attempt next b (add_attempt now tx (record a { success = b })) s)
  unfolding after_attempt add_attempt
  after_attempt-IsSettled next rounds now true tx a s ts n o r e h =
      let done : RetryAttempt F = record a { success = true } in
      let tx' = add_attempt now tx done in
      IsSettled-trans tx tx' ts _ (IsSameCase-add_attempt now tx done) (
        recover-IsSettled tx' ts s (IsBalanced-add_attempt now tx done o.balanced n)
          (omega (arith, o.rounds_left)) (EndsWell-append tx.retry_attempts done o.failures refl) r
          e)
  after_attempt-IsSettled next rounds now false tx a s ts n o r e h =
      let done : RetryAttempt F = record a { success = false } in
      let tx' = add_attempt now tx done in
      IsSettled-trans tx tx' ts _ (IsSameCase-add_attempt now tx done)
        (h tx' s (IsOpen-add_attempt rounds now tx done o n refl) refl r)

  -- One round, whatever the next rounds do with an open transaction.
  after_plan-IsSettled :
      (next : Transaction F → Action F (Transaction F)) (rounds : ℕ) (tx : Transaction F)
      (event : FailureEvent F) (planned : Option (RetryAttempt F)) (s : System F)
      (ts : List (Transaction F)) {old : Transaction F}
      → ((a : RetryAttempt F) → planned ≡ some a → a.attempt_number ≡ tx.retry_count + 1)
      → IsOpen (suc rounds) tx
      → Represents s.store ts
      → find tx.id ts ≡ some old
      → ((tx' : Transaction F) (s' : System F)
          → IsOpen rounds tx'
          → tx'.id ≡ tx.id
          → Represents s'.store ts
          → IsSettled tx' ts (next tx' s'))
      → IsSettled tx ts (after_plan next tx event planned s)
  unfolding after_plan
  after_plan-IsSettled next rounds tx event none s ts n o r e h =
      exhaust-IsSettled (suc rounds) tx ts s o r e
  after_plan-IsSettled next rounds tx event (some a) s ts n o r e h =
      let (b, now, result) = attempt_retry_result tx event a s in
      let s' = (attempt_retry tx event a s).1 in
      let r' = attempt_retry-Represents tx event a s ts r in
      rw (result, after_plan)
        (after_attempt-IsSettled next rounds now b tx a s' ts (n a refl) o r' e h)

  retry_loop-IsSettled :
      (rounds : ℕ) (tx : Transaction F) (event : FailureEvent F) (c : ClassificationResult)
      (s : System F) (ts : List (Transaction F)) {old : Transaction F}
      → IsOpen rounds tx
      → Represents s.store ts
      → find tx.id ts ≡ some old
      → IsSettled tx ts (retry_loop rounds tx event c s)
  unfolding retry_loop
  retry_loop-IsSettled zero tx event c s ts o r e = exhaust-IsSettled zero tx ts s o r e
  retry_loop-IsSettled (suc rounds) tx event c s ts o r e =
      let (planned, s') = plan_retry_attempt tx event c s in
      after_plan-IsSettled (λ tx'. retry_loop rounds tx' event c) rounds tx event planned s' ts
        (λ a h. (plan_retry_attempt_fields tx event c s h).0) o
        (rw ((IsQuiet-plan_retry_attempt tx event c).at s).store r) e
        (λ tx' t o' id r'.
          retry_loop-IsSettled rounds tx' event c t ts o' r' (ap (λ i. find i ts) id ∙ e))

  pub IsOpen-new_transaction :
      (event : FailureEvent F) (c : ClassificationResult)
      → IsOpen max_retries (new_transaction retrying event c)
  unfolding new_transaction
  IsOpen-new_transaction event c = record {
    balanced = record { count = refl; numbered = tt; cost = refl };
    rounds_left = refl;
    failures = tt;
  }

  -- The chain of a new soft decline that is stored at the end of the list: the transaction ends
  -- RECOVERED, all its attempts failed but the last, or EXHAUSTED, all failed; it has at most three
  -- attempts, numbered from 1, its count is their number and its cost their sum; its id, event,
  -- classification and creation are kept; and it stands in the store in the place of the first
  -- version.
  pub execute_retry_chain-IsSettled :
      (event : FailureEvent F) (c : ClassificationResult) (s : System F) (ts : List (Transaction F))
      {old : Transaction F}
      → Represents s.store ts
      → find event.transaction_id ts ≡ some old
      → let tx = new_transaction retrying event c in
        IsSettled tx ts (execute_retry_chain tx event c s)
  unfolding execute_retry_chain new_transaction
  execute_retry_chain-IsSettled event c s ts r e =
      retry_loop-IsSettled max_retries (new_transaction retrying event c) event c s ts
        (IsOpen-new_transaction event c) r e
