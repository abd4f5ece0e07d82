-- ===== src/Concurrent/Calls.antt =====
-- The calls that an action consists of. The mutexes of internal/health/tracker.go,
-- internal/store/memory.go and internal/orchestrator/orchestrator.go make each of them one step.
use smart_retry_orchestrator.Float.{Float64}
use smart_retry_orchestrator.Orchestrator.State.{
  Env, Action, pure, ◌>>=◌, time_now, save, update, health_of, gets, record_health, AdaptiveData,
  log_decision, System,
}
use smart_retry_orchestrator.Domain.Models.{
  Time, Transaction, ProcessorHealthSnapshot, RetryDecision,
}
use smart_retry_orchestrator.Domain.Errors.{Result}
use smart_retry_orchestrator.Domain.Enums.{ProcessorName, FailureReasonCode}
use smart_retry_orchestrator.Common.{Bool, String, if◌then◌else◌, true, false}
use smart_retry_orchestrator.Store.{get_transaction, MemoryStore}
use smart_retry_orchestrator.Api.Handlers.{reset_health, reset_store}
use smart_retry_orchestrator.Orchestrator.Retry.{record_retry, simulate_outcome}
use smart_retry_orchestrator.Health.{RollingHealthTracker}

module _ {F : Type 0} where
  -- The action is made of the calls, in their order; what follows a call may depend on its answer.
  pub data Calls (Kind : (A : Type 0) → Action F A → Type 1)
      : (A : Type 0) → Action F A → Type 1 where
    call : {A : Type 0} {m : Action F A} → Kind A m → Calls Kind A m
    return : {A : Type 0} (a : A) → Calls Kind A (pure a)
    then_ :
        {A B : Type 0} {m : Action F A} {f : A → Action F B}
        → Calls Kind A m
        → ((a : A) → Calls Kind B (f a))
        → Calls Kind B (m >>= f)

module _ {F : Type 0} ⦃fl : Float64 F⦄ ⦃env : Env F⦄ where
  -- A call that writes no transaction. simulateOutcome holds the mutex of the random source from before
  -- it reads the health until it has drawn, so that no other draw comes between the two.
  pub data LightCall : (A : Type 0) → Action F A → Type 1 where
    clock : LightCall Time time_now
    simulate : (p : ProcessorName) → LightCall Bool (simulate_outcome p)
    tracker_read : (p : ProcessorName) → LightCall (ProcessorHealthSnapshot F) (health_of p)
    tracker_write :
        (p : ProcessorName) (success : Bool) (ts : Time)
        → LightCall (Unit {0}) (record_health p success ts)
    tracker_reset : LightCall (Unit {0}) reset_health
    adaptive_read :
        (A : Type 0) (f : AdaptiveData → A) → LightCall A (gets (λ s. f s.adaptive_data))
    adaptive_write :
        (code : FailureReasonCode) (p : ProcessorName) (success : Bool)
        → LightCall (Unit {0}) (record_retry code p success)
    log_write : (d : RetryDecision F) → LightCall (Unit {0}) (log_decision d)
    store_read :
        (A : Type 0) (f : MemoryStore F → RollingHealthTracker → A)
        → LightCall A (gets (λ s. f s.store s.health_tracker))

  -- Any call. `fetching` is GetTransaction for a transaction that is written back later.
  pub data Call : (A : Type 0) → Action F A → Type 1 where
    light : (A : Type 0) (m : Action F A) → LightCall A m → Call A m
    saving : (tx : Transaction F) → Call (Result (Unit {0})) (save tx)
    updating : (tx : Transaction F) → Call (Result (Unit {0})) (update tx)
    fetching :
        (id : String) → Call (Result (Transaction F)) (gets (λ s. get_transaction s.store id))
    emptying : Call (Unit {0}) reset_store

  unfoldable pub widen : {A : Type 0} {m : Action F A} → Calls LightCall A m → Calls Call A m
  widen (call k) = call (light _ _ k)
  widen (return a) = return a
  widen (then_ c k) = then_ (widen c) (λ a. widen (k a))

module _ {F : Type 0} where
  unfoldable pub calls_if :
      {Kind : (A : Type 0) → Action F A → Type 1} {A : Type 0} {m n : Action F A} (b : Bool)
      → Calls Kind A m
      → Calls Kind A n
      → Calls Kind A (if b then m else n)
  calls_if true c d = c
  calls_if false c d = d

-- What is left of a request: its answer, or the calls that it has yet to make.
module _ (F : Type 0) ⦃fl : Float64 F⦄ ⦃env : Env F⦄ where
  pub data Rest (A : Type 0) : Type 1 where
    done : A → Rest A
    more : {m : Action F A} → Calls Call A m → Rest A

module _ {F : Type 0} ⦃fl : Float64 F⦄ ⦃env : Env F⦄ where
  abbrev pub and_then :
      {A B : Type 0} (f : A → Action F B) → Rest F A → ((a : A) → Calls Call B (f a)) → Rest F B
  and_then f (done a) k = more (k a)
  and_then f (more c) k = more (then_ {f = f} c k)

  -- One call, or one step that has no effect.
  unfoldable pub step :
      {A : Type 0} {m : Action F A} → Calls Call A m → System F → Rest F A × System F
  step (call {m} k) s = (done (m s).0, (m s).1)
  step (return a) s = (done a, s)
  step (then_ {f} c k) s = let (r, t) = step c s in (and_then f r k, t)
