-- ===== src/Orchestrator/Retry/Chain.antt =====
-- The retry chain of internal/orchestrator/orchestrator.go: what it leaves in the transaction and in
-- the store.
use smart_retry_orchestrator.Common.{
  ℕ, List, ◌∷◌, All, [], ◌+◌, ◌≡◌, ◌≤◌, ◌∙◌, ◌++◌, length, true, false, refl, arith, length-append,
  ◌⊎◌, some, inr, inl, ap,
}
use smart_retry_orchestrator.Domain.Models.{
  Transaction, RetryAttempt, Time, FailureEvent, ClassificationResult, processor_cost,
}
use smart_retry_orchestrator.Float.{Float64}
use smart_retry_orchestrator.Orchestrator.State.{Env, System, update, time_now}
use smart_retry_orchestrator.Orchestrator.Retry.{
  add_attempt, exhaust, recover, mark_recovered, mark_exhausted,
}
use smart_retry_orchestrator.Orchestrator.Plan.{plan_retry_attempt, attempt_of}
use smart_retry_orchestrator.Orchestrator.Reasoning.{max_retries}
use smart_retry_orchestrator.Domain.Enums.{recovered, exhausted}
use smart_retry_orchestrator.Store.Refinement.{
  Represents, update_transaction-Represents, updated_found,
}
use smart_retry_orchestrator.Store.Contents.{replace, find}
use mathlib.Core.Path.{subst}
use smart_retry_orchestrator.Domain.Errors.{Result}

module _ {F : Type 0} where
  -- The attempts are numbered in order.
  abbrev pub IsNumbered : ℕ → List (RetryAttempt F) → Type 0
  IsNumbered n [] = Unit
  IsNumbered n (a ∷ rest) = (a.attempt_number ≡ n) × IsNumbered (n + 1) rest

  abbrev pub IsFailure : RetryAttempt F → Type 0
  IsFailure a = a.success ≡ false

  -- All attempts failed but the last, which succeeded.
  abbrev pub EndsWell : List (RetryAttempt F) → Type 0
  EndsWell [] = ⊥
  EndsWell (a ∷ []) = a.success ≡ true
  EndsWell (a ∷ b ∷ rest) = IsFailure a × EndsWell (b ∷ rest)

  IsNumbered-append :
      (n : ℕ) (xs : List (RetryAttempt F)) (a : RetryAttempt F)
      → IsNumbered n xs
      → a.attempt_number ≡ n + length xs
      → IsNumbered n (xs ++ a ∷ [])
  IsNumbered-append n [] a h e = (omega arith, tt)
  IsNumbered-append n (b ∷ xs) a (e', h) e = (e', IsNumbered-append (n + 1) xs a h (omega arith))

  pub EndsWell-append :
      (xs : List (RetryAttempt F)) (a : RetryAttempt F)
      → All IsFailure xs
      → a.success ≡ true
      → EndsWell (xs ++ a ∷ [])
  EndsWell-append [] a h e = e
  EndsWell-append (b ∷ []) a h e = (h.0, e)
  EndsWell-append (b ∷ c ∷ xs) a h e = (h.0, EndsWell-append (c ∷ xs) a h.1 e)

  -- What no step of the chain changes.
  pub record IsSameCase (tx tx' : Transaction F) : Type 0 where
    pub id : tx'.id ≡ tx.id
    pub original_event : tx'.original_event ≡ tx.original_event
    pub classification : tx'.classification ≡ tx.classification
    pub created_at : tx'.created_at ≡ tx.created_at
    pub limit : tx'.max_retries ≡ tx.max_retries

  pub IsSameCase-refl : (tx : Transaction F) → IsSameCase tx tx
  IsSameCase-refl tx = record {
    id = refl;
    original_event = refl;
    classification = refl;
    created_at = refl;
    limit = refl;
  }

  pub IsSameCase-trans : (a b c : Transaction F) → IsSameCase a b → IsSameCase b c → IsSameCase a c
  IsSameCase-trans a b c p q = record {
    id = q.id ∙ p.id;
    original_event = q.original_event ∙ p.original_event;
    classification = q.classification ∙ p.classification;
    created_at = q.created_at ∙ p.created_at;
    limit = q.limit ∙ p.limit;
  }

module _ {F : Type 0} ⦃fl : Float64 F⦄ where
  -- The cost of the attempts, added up in their order.
  abbrev pub cost_of : F → List (RetryAttempt F) → F
  cost_of sum [] = sum
  cost_of sum (a ∷ rest) = cost_of (fl.add sum a.cost) rest

  cost_of-append :
      (sum : F) (xs : List (RetryAttempt F)) (a : RetryAttempt F)
      → cost_of sum (xs ++ a ∷ []) ≡ fl.add (cost_of sum xs) a.cost
  cost_of-append sum [] a = refl
  cost_of-append sum (b ∷ xs) a = cost_of-append (fl.add sum b.cost) xs a

  -- The books of a transaction: its count, the numbers of its attempts, and its cost.
  pub record IsBalanced (tx : Transaction F) : Type 0 where
    pub count : tx.retry_count ≡ length tx.retry_attempts
    pub numbered : IsNumbered 1 tx.retry_attempts
    pub cost : tx.total_cost ≡ cost_of (fl.lit 0 1) tx.retry_attempts

  -- A transaction within the chain.
  pub record IsOpen (rounds : ℕ) (tx : Transaction F) : Type 0 where
    pub balanced : IsBalanced tx
    pub rounds_left : tx.retry_count + rounds ≡ max_retries
    pub failures : All IsFailure tx.retry_attempts

  -- A transaction after the chain.
  pub record IsClosed (tx : Transaction F) : Type 0 where
    pub balanced : IsBalanced tx
    pub bounded : tx.retry_count ≤ max_retries
    pub ended :
        ((tx.status ≡ recovered) × EndsWell tx.retry_attempts)
        ⊎ ((tx.status ≡ exhausted) × All IsFailure tx.retry_attempts)

  pub IsBalanced-add_attempt :
      (now : Time) (tx : Transaction F) (a : RetryAttempt F)
      → IsBalanced tx
      → a.attempt_number ≡ tx.retry_count + 1
      → IsBalanced (add_attempt now tx a)
  unfolding add_attempt
  IsBalanced-add_attempt now tx a b e = record {
    count = omega (arith, b.count, length-append tx.retry_attempts (a ∷ []));
    numbered = IsNumbered-append 1 tx.retry_attempts a b.numbered (omega (arith, b.count));
    cost = rw (cost_of-append (fl.lit 0 1) tx.retry_attempts a, ← b.cost) refl;
  }

  module _ ⦃env : Env F⦄ where
    -- What planRetryAttempt fills in.
    pub plan_retry_attempt_fields :
        (tx : Transaction F) (event : FailureEvent F) (c : ClassificationResult) (s : System F)
        {a : RetryAttempt F}
        → (plan_retry_attempt tx event c s).0 ≡ some a
        → (a.attempt_number ≡ tx.retry_count + 1)
          × (a.strategy ≡ c.strategy)
          × (a.cost ≡ processor_cost a.processor)
    unfolding plan_retry_attempt attempt_of
    plan_retry_attempt_fields tx event c s h = ground arith

    -- What a part of the chain leaves, if it started from `tx` and a store that stands for `ts`.
    pub record IsSettled (tx : Transaction F) (ts : List (Transaction F))
        (r : Transaction F × System F) : Type 0 where
      pub closed : IsClosed r.0
      pub same : IsSameCase tx r.0
      pub stored : Represents r.1.store (replace r.0 ts)

    update-stored :
        (tx : Transaction F) (ts : List (Transaction F)) (s : System F) {old : Transaction F}
        → Represents s.store ts
        → find tx.id ts ≡ some old
        → Represents (update tx s).1.store (replace tx ts)
    unfolding update
    update-stored tx ts s r e =
        subst (Represents (update tx s).1.store)
          (ap (λ (q : Result (Unit {0}) × List (Transaction F)). q.1) (updated_found tx ts e))
          (update_transaction-Represents s.store ts tx r).1

    pub exhaust-IsSettled :
        (rounds : ℕ) (tx : Transaction F) (ts : List (Transaction F)) (s : System F)
        {old : Transaction F}
        → IsOpen rounds tx
        → Represents s.store ts
        → find tx.id ts ≡ some old
        → IsSettled tx ts (exhaust tx s)
    unfolding exhaust mark_exhausted time_now
    exhaust-IsSettled rounds tx ts s o r e =
        let now : Time = env.now s.clock_reads in
        record {
          closed = record {
            balanced = record {
              count = o.balanced.count;
              numbered = o.balanced.numbered;
              cost = o.balanced.cost;
            };
            bounded = omega (arith, o.rounds_left);
            ended = inr (refl, o.failures);
          };
          same = record {
            id = refl;
            original_event = refl;
            classification = refl;
            created_at = refl;
            limit = refl;
          };
          stored =
              update-stored (mark_exhausted now tx) ts
                (record s { clock_reads = s.clock_reads + 1 }) r e;
        }

    pub recover-IsSettled :
        (tx : Transaction F) (ts : List (Transaction F)) (s : System F) {old : Transaction F}
        → IsBalanced tx
        → tx.retry_count ≤ max_retries
        → EndsWell tx.retry_attempts
        → Represents s.store ts
        → find tx.id ts ≡ some old
        → IsSettled tx ts (recover tx s)
    unfolding recover mark_recovered time_now
    recover-IsSettled tx ts s b le w r e =
        let now : Time = env.now s.clock_reads in
        record {
          closed = record {
            balanced = record { count = b.count; numbered = b.numbered; cost = b.cost };
            bounded = le;
            ended = inl (refl, w);
          };
          same = record {
            id = refl;
            original_event = refl;
            classification = refl;
            created_at = refl;
            limit = refl;
          };
          stored =
              update-stored (mark_recovered now tx) ts
                (record s { clock_reads = s.clock_reads + 1 }) r e;
        }
