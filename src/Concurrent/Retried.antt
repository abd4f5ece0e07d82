-- ===== src/Concurrent/Retried.antt =====
-- ProcessFailure and RecordRetryOutcome (internal/orchestrator/orchestrator.go) while other requests
-- are served.
use mathlib.Core.Option
use smart_retry_orchestrator.Float.{Float64}
use smart_retry_orchestrator.Orchestrator.State.{Action, Env}
use smart_retry_orchestrator.Concurrent.Calls.{
  Calls, Call, call, return, then_, LightCall, widen, calls_if,
}
use smart_retry_orchestrator.Concurrent.Lasting.{IsLasting, IsTried}
use smart_retry_orchestrator.Concurrent.Keeping.{KeepsLight-all, Keeps}
use smart_retry_orchestrator.Orchestrator.Retry.{
  mark_recovered, mark_exhausted, add_attempt, retry_loop,
}
use smart_retry_orchestrator.Concurrent.Orchestrated.{
  attempt_calls, exhaust_calls, after_attempt_calls, plan_calls, recover_calls, retry_loop_calls,
  after_plan_calls, plan_route_calls,
}
use smart_retry_orchestrator.Domain.Models.{
  Transaction, FailureEvent, Time, ClassificationResult, RetryAttempt,
}
use smart_retry_orchestrator.Orchestrator.Plan.{attempt_of, Route}
use smart_retry_orchestrator.Common.{
  Bool, ℕ, Option, none, ◌≡◌, true, arith, false, suc, inr, inl, refl, ap, ◌∙◌, ◌+◌, ◌≤◌, zero,
  some,
}
use smart_retry_orchestrator.Orchestrator.Retry.Chain.{
  IsClosed, IsSameCase, IsBalanced, IsOpen, IsSameCase-trans, IsBalanced-add_attempt,
  EndsWell-append, EndsWell,
}
use smart_retry_orchestrator.Domain.Enums.{RetryStrategy, soft_decline}
use smart_retry_orchestrator.Orchestrator.Reasoning.{max_retries}
use smart_retry_orchestrator.Orchestrator.Retry.Loop.{IsSameCase-add_attempt, IsOpen-add_attempt}

module _ {F : Type 0} ⦃fl : Float64 F⦄ ⦃env : Env F⦄ where
  -- Calls that write no transaction keep whatever holds of each answer.
  pub Keeps-widen :
      {A : Type 0} {m : Action F A} (c : Calls LightCall A m) (Holds : A → Type 0)
      → ((a : A) → Holds a)
      → Keeps (widen c) Holds
  unfolding widen
  Keeps-widen (call k) Holds h = KeepsLight-all k Holds h
  Keeps-widen (return a) Holds h = h a
  Keeps-widen (then_ c k) Holds h = Keeps-widen c _ λ a. Keeps-widen (k a) Holds h

  pub Keeps-calls_if :
      {A : Type 0} (b : Bool) {m n : Action F A} (c : Calls Call A m) (d : Calls Call A n)
      (Holds : A → Type 0)
      → (b ≡ true → Keeps c Holds)
      → (b ≡ false → Keeps d Holds)
      → Keeps (calls_if b c d) Holds
  unfolding calls_if
  Keeps-calls_if true c d Holds h k = h refl
  Keeps-calls_if false c d Holds h k = k refl

  IsTried-IsClosed :
      (tx : Transaction F)
      → tx.classification.decline_type ≡ soft_decline
      → IsClosed tx
      → IsTried tx
  IsTried-IsClosed tx soft closed = record {
    soft = soft;
    balanced = closed.balanced;
    bounded = closed.bounded;
    stage = elim closed.ended [ inl (e, well) ↦ inl e | inr e ↦ inr (inl e) ];
  }

  -- What the chain ends with, whatever happened to the stored copies.
  abbrev pub IsEnd : Transaction F → Transaction F → Type 0
  IsEnd tx t = IsClosed t × IsSameCase tx t

  exhausted-IsClosed :
      (rounds : ℕ) (now : Time) (tx : Transaction F)
      → IsOpen rounds tx
      → IsEnd tx (mark_exhausted now tx)
  unfolding mark_exhausted
  exhausted-IsClosed rounds now tx o = (
    record {
      balanced = record {
        count = o.balanced.count;
        numbered = o.balanced.numbered;
        cost = o.balanced.cost;
      };
      bounded = omega (arith, o.rounds_left);
      ended = inr (refl, o.failures);
    },
    record {
      id = refl;
      original_event = refl;
      classification = refl;
      created_at = refl;
      limit = refl;
    },
  )

  recovered-IsClosed :
      (now : Time) (tx : Transaction F)
      → IsBalanced tx
      → tx.retry_count ≤ max_retries
      → EndsWell tx.retry_attempts
      → IsEnd tx (mark_recovered now tx)
  unfolding mark_recovered
  recovered-IsClosed now tx b le w = (
    record {
      balanced = record { count = b.count; numbered = b.numbered; cost = b.cost };
      bounded = le;
      ended = inl (refl, w);
    },
    record {
      id = refl;
      original_event = refl;
      classification = refl;
      created_at = refl;
      limit = refl;
    },
  )

  IsLasting-IsEnd :
      (tx t : Transaction F)
      → tx.classification.decline_type ≡ soft_decline
      → IsEnd tx t
      → IsLasting t
  IsLasting-IsEnd tx t soft (closed, same) = inr (
      IsTried-IsClosed t
        (ap (λ (k : ClassificationResult). k.decline_type) same.classification ∙ soft) closed)

  IsEnd-trans : (a b c : Transaction F) → IsSameCase a b → IsEnd b c → IsEnd a c
  IsEnd-trans a b c p (closed, same) = (closed, IsSameCase-trans a b c p same)

  Keeps-exhaust :
      (rounds : ℕ) (tx : Transaction F) (Holds : Transaction F → Type 0)
      → tx.classification.decline_type ≡ soft_decline
      → IsOpen rounds tx
      → ((t : Transaction F) → IsEnd tx t → Holds t)
      → Keeps (exhaust_calls tx) Holds
  unfolding exhaust_calls
  Keeps-exhaust rounds tx Holds soft o h = λ now.
      let e = exhausted-IsClosed rounds now tx o in
      (
        IsLasting-IsEnd tx (mark_exhausted now tx) soft e,
        h (mark_exhausted now tx) e,
        h (mark_exhausted now tx) e,
      )

  Keeps-recover :
      (tx : Transaction F) (Holds : Transaction F → Type 0)
      → tx.classification.decline_type ≡ soft_decline
      → IsBalanced tx
      → tx.retry_count ≤ max_retries
      → EndsWell tx.retry_attempts
      → ((t : Transaction F) → IsEnd tx t → Holds t)
      → Keeps (recover_calls tx) Holds
  unfolding recover_calls
  Keeps-recover tx Holds soft b le w h = λ now.
      let e = recovered-IsClosed now tx b le w in
      (
        IsLasting-IsEnd tx (mark_recovered now tx) soft e,
        h (mark_recovered now tx) e,
        h (mark_recovered now tx) e,
      )

  Keeps-attempt :
      (tx : Transaction F) (event : FailureEvent F) (planned : RetryAttempt F)
      (Holds : Bool × Transaction F → Type 0)
      → ((b : Bool) (now : Time) → Holds (b, add_attempt now tx (record planned { success = b })))
      → Keeps (widen (attempt_calls tx event planned)) Holds
  unfolding attempt_calls widen
  Keeps-attempt tx event planned Holds h = λ success now _ _ _. h success now

  -- A planned attempt has the number after the last.
  Holds-attempt_of :
      (tx : Transaction F) (strategy : RetryStrategy) (now : Time) (planned : Option (Route F))
      (Holds : Option (RetryAttempt F) → Type 0)
      → Holds none
      → ((a : RetryAttempt F) → a.attempt_number ≡ tx.retry_count + 1 → Holds (some a))
      → Holds (Option.map (attempt_of now (tx.retry_count + 1) strategy) planned)
  unfolding attempt_of
  Holds-attempt_of tx strategy now none Holds h k = h
  Holds-attempt_of tx strategy now (some r) Holds h k = k _ refl

  Keeps-plan :
      (tx : Transaction F) (event : FailureEvent F) (c : ClassificationResult)
      (Holds : Option (RetryAttempt F) → Type 0)
      → Holds none
      → ((a : RetryAttempt F) → a.attempt_number ≡ tx.retry_count + 1 → Holds (some a))
      → Keeps (widen (plan_calls tx event c)) Holds
  unfolding plan_calls widen
  Keeps-plan tx event c Holds h k = λ now original.
      Keeps-widen (plan_route_calls (tx.retry_count + 1) c.strategy event original) _
        λ planned. Holds-attempt_of tx c.strategy now planned Holds h k

  Keeps-after_attempt :
      (next : Transaction F → Action F (Transaction F)) (rounds : ℕ) (now : Time) (b : Bool)
      (tx : Transaction F) (a : RetryAttempt F)
      (k : (t : Transaction F) → Calls Call (Transaction F) (next t))
      (Holds : Transaction F → Type 0)
      → tx.classification.decline_type ≡ soft_decline
      → a.attempt_number ≡ tx.retry_count + 1
      → IsOpen (suc rounds) tx
      → ((t : Transaction F) → IsEnd tx t → Holds t)
      → ((t : Transaction F) → IsSameCase tx t → IsOpen rounds t → Keeps (k t) Holds)
      → Keeps (after_attempt_calls next b (add_attempt now tx (record a { success = b })) k) Holds
  unfolding after_attempt_calls add_attempt
  Keeps-after_attempt next rounds now true tx a k Holds soft n o h rest =
      let good : RetryAttempt F = record a { success = true } in
      let tx' = add_attempt now tx good in
      Keeps-recover tx' Holds soft (IsBalanced-add_attempt now tx good o.balanced n)
        (omega (arith, o.rounds_left)) (EndsWell-append tx.retry_attempts good o.failures refl)
        λ t e. h t (IsEnd-trans tx tx' t (IsSameCase-add_attempt now tx good) e)
  Keeps-after_attempt next rounds now false tx a k Holds soft n o h rest =
      let bad : RetryAttempt F = record a { success = false } in
      rest (add_attempt now tx bad) (IsSameCase-add_attempt now tx bad)
        (IsOpen-add_attempt rounds now tx bad o n refl)

  pub Keeps-retry_loop :
      (rounds : ℕ) (tx : Transaction F) (event : FailureEvent F) (c : ClassificationResult)
      (Holds : Transaction F → Type 0)
      → tx.classification.decline_type ≡ soft_decline
      → IsOpen rounds tx
      → ((t : Transaction F) → IsEnd tx t → Holds t)
      → Keeps (retry_loop_calls rounds tx event c) Holds
  unfolding retry_loop_calls after_plan_calls
  Keeps-retry_loop zero tx event c Holds soft o h = Keeps-exhaust zero tx Holds soft o h
  Keeps-retry_loop (suc rounds) tx event c Holds soft o h =
      Keeps-plan tx event c _ (Keeps-exhaust (suc rounds) tx Holds soft o h) λ a n.
        Keeps-attempt tx event a _ λ b now.
          Keeps-after_attempt (λ t. retry_loop rounds t event c) rounds now b tx a
            (λ t. retry_loop_calls rounds t event c) Holds soft n o h
            λ t same o'.
              Keeps-retry_loop rounds t event c Holds
                (ap (λ (k : ClassificationResult). k.decline_type) same.classification ∙ soft) o'
                λ u e. h u (IsEnd-trans tx t u same e)
