-- ===== src/Orchestrator/Retry/Last.antt =====
-- The last store call of executeRetryChain (internal/orchestrator/orchestrator.go).
use smart_retry_orchestrator.Float.{Float64}
use smart_retry_orchestrator.Orchestrator.State.{Env, Action, time_now, System, update, pure}
use smart_retry_orchestrator.Orchestrator.Retry.{
  exhaust, recover, retry_loop, after_plan, execute_retry_chain, after_attempt, attempt_retry,
}
use smart_retry_orchestrator.Domain.Models.{
  Transaction, FailureEvent, ClassificationResult, RetryAttempt,
}
use smart_retry_orchestrator.Common.{Bool, ℕ, true, Option, suc, false, some, zero, none, ◌≡◌, refl}
use smart_retry_orchestrator.Orchestrator.Plan.{plan_retry_attempt}
use smart_retry_orchestrator.Store.{MemoryStore, update_transaction}

module _ {F : Type 0} ⦃fl : Float64 F⦄ ⦃env : Env F⦄ where
  -- The action ends with UpdateTransaction for the transaction that it returns.
  abbrev pub WritesLast : Action F (Transaction F) → System F → Type 0
  WritesLast m s = (store : MemoryStore F) × ((m s).1.store ≡ (update_transaction store (m s).0).1)

  WritesLast-exhaust : (tx : Transaction F) (s : System F) → WritesLast (exhaust tx) s
  unfolding exhaust time_now update pure
  WritesLast-exhaust tx s = (s.store, refl)

  WritesLast-recover : (tx : Transaction F) (s : System F) → WritesLast (recover tx) s
  unfolding recover time_now update pure
  WritesLast-recover tx s = (s.store, refl)

  WritesLast-after_attempt :
      (next : Transaction F → Action F (Transaction F)) (success : Bool) (tx : Transaction F)
      (s : System F)
      → ((t : Transaction F) (u : System F) → WritesLast (next t) u)
      → WritesLast (after_attempt next success tx) s
  unfolding after_attempt
  WritesLast-after_attempt next true tx s h = WritesLast-recover tx s
  WritesLast-after_attempt next false tx s h = h tx s

  WritesLast-after_plan :
      (next : Transaction F → Action F (Transaction F)) (tx : Transaction F)
      (event : FailureEvent F) (planned : Option (RetryAttempt F)) (s : System F)
      → ((t : Transaction F) (u : System F) → WritesLast (next t) u)
      → WritesLast (after_plan next tx event planned) s
  unfolding after_plan
  WritesLast-after_plan next tx event none s h = WritesLast-exhaust tx s
  WritesLast-after_plan next tx event (some planned) s h =
      let ((success, tx'), t) = attempt_retry tx event planned s in
      WritesLast-after_attempt next success tx' t h

  WritesLast-retry_loop :
      (rounds : ℕ) (tx : Transaction F) (event : FailureEvent F) (c : ClassificationResult)
      (s : System F)
      → WritesLast (retry_loop rounds tx event c) s
  unfolding retry_loop
  WritesLast-retry_loop zero tx event c s = WritesLast-exhaust tx s
  WritesLast-retry_loop (suc rounds) tx event c s =
      let (planned, t) = plan_retry_attempt tx event c s in
      WritesLast-after_plan (λ tx'. retry_loop rounds tx' event c) tx event planned t
        λ tx' u. WritesLast-retry_loop rounds tx' event c u

  -- The chain ends with UpdateTransaction for the transaction that it returns.
  pub WritesLast-execute_retry_chain :
      (tx : Transaction F) (event : FailureEvent F) (c : ClassificationResult) (s : System F)
      → WritesLast (execute_retry_chain tx event c) s
  unfolding execute_retry_chain
  WritesLast-execute_retry_chain tx event c s = WritesLast-retry_loop _ tx event c s
