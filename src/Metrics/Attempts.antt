-- ===== src/Metrics/Attempts.antt =====
-- The loops of GetProcessorMetrics (internal/metrics/calculator.go) over the attempts.
use mathlib.Core.Option
use smart_retry_orchestrator.Float.{Float64}
use smart_retry_orchestrator.Domain.Models.{RetryAttempt, ProcessorMetrics, Transaction}
use smart_retry_orchestrator.Metrics.{
  count_attempt, add_to_entry, add_attempts, add_transactions, with_rates, with_rate,
}
use smart_retry_orchestrator.Domain.Enums.{ProcessorName}
use smart_retry_orchestrator.Common.{
  List, arith, Bool, ◌∷◌, str_eq, [], not, ◌≡◌, if◌then◌else◌, ◌+◌, length, keep, refl,
  Option-cases, Bool-cases, inl, inr, sym, eq_iff, ◌++◌,
}
use smart_retry_orchestrator.Common.Dict.{Dict, lookup, lookup-insert_self, lookup-insert}
use smart_retry_orchestrator.Metrics.Counts.{attempts_of}

module _ {F : Type 0} ⦃fl : Float64 F⦄ where
  abbrev pub is_on : ProcessorName → RetryAttempt F → Bool
  is_on p a = str_eq a.processor p

  abbrev pub is_success : RetryAttempt F → Bool
  is_success a = a.success

  abbrev pub is_failure : RetryAttempt F → Bool
  is_failure a = not a.success

  abbrev pub sum_costs : F → List (RetryAttempt F) → F
  sum_costs cost [] = cost
  sum_costs cost (a ∷ rest) = sum_costs (fl.add cost a.cost) rest

  -- The attempts on one processor, added to its entry.
  pub count_attempts : List (RetryAttempt F) → ProcessorMetrics F → ProcessorMetrics F
  count_attempts [] pm = pm
  count_attempts (a ∷ rest) pm = count_attempts rest (count_attempt a pm)

  -- An entry has counted some attempts since another.
  pub record IsCounted (pm pm' : ProcessorMetrics F) (attempts : List (RetryAttempt F))
      : Type 0 where
    pub processor : pm'.processor ≡ pm.processor
    pub total : pm'.total_attempts ≡ pm.total_attempts + length attempts
    pub successes : pm'.successes ≡ pm.successes + length (keep is_success attempts)
    pub failures : pm'.failures ≡ pm.failures + length (keep is_failure attempts)
    pub cost : pm'.total_cost ≡ sum_costs pm.total_cost attempts
    pub rate : pm'.success_rate ≡ pm.success_rate
    pub health : pm'.current_health ≡ pm.current_health

  pub count_attempts-IsCounted :
      (attempts : List (RetryAttempt F)) (pm : ProcessorMetrics F)
      → IsCounted pm (count_attempts attempts pm) attempts
  unfolding count_attempts count_attempt
  count_attempts-IsCounted [] pm = record {
    processor = refl;
    total = omega arith;
    successes = omega arith;
    failures = omega arith;
    cost = refl;
    rate = refl;
    health = refl;
  }
  count_attempts-IsCounted (a ∷ rest) pm =
      let others = count_attempts-IsCounted rest (count_attempt a pm) in
      record {
        processor = ground (arith, others.processor);
        total = ground (arith, others.total);
        successes = ground (arith, others.successes);
        failures = ground (arith, others.failures);
        cost = ground (arith, others.cost);
        rate = ground (arith, others.rate);
        health = ground (arith, others.health);
      }

  add_to_own_entry :
      (result : Dict (ProcessorMetrics F)) (a : RetryAttempt F)
      → lookup a.processor (add_to_entry result a)
        ≡ Option.map (count_attempt a) (lookup a.processor result)
  unfolding add_to_entry
  add_to_own_entry result a = elim (Option-cases (lookup a.processor result)) [
    | inl e ↦ rw (e, add_to_entry, e) refl
    | inr (pm, e) ↦
        rw (e, add_to_entry, lookup-insert_self a.processor (count_attempt a pm) result) refl
  ]

  lookup-add_to_entry :
      (p : ProcessorName) (result : Dict (ProcessorMetrics F)) (a : RetryAttempt F)
      → lookup p (add_to_entry result a)
        ≡ (if is_on p a then Option.map (count_attempt a) (lookup p result) else lookup p result)
  unfolding add_to_entry
  lookup-add_to_entry p result a = elim (Bool-cases (is_on p a)) [
    | inl same ↦ rw (same, sym ((eq_iff a.processor p).0 same)) (add_to_own_entry result a)
    | inr other ↦ elim (Option-cases (lookup a.processor result)) [
      | inl e ↦ rw (e, other, add_to_entry) refl
      | inr (pm, e) ↦
          rw (e, add_to_entry, lookup-insert a.processor p (count_attempt a pm) result)
            (rw other refl)
    ]
  ]

  -- The loops over the attempts find the entry of each processor and leave the others.
  pub lookup-add_attempts :
      (p : ProcessorName) (attempts : List (RetryAttempt F)) (result : Dict (ProcessorMetrics F))
      → lookup p (add_attempts result attempts)
        ≡ Option.map (count_attempts (keep (is_on p) attempts)) (lookup p result)
  unfolding add_attempts count_attempts
  lookup-add_attempts p [] result = elim (Option-cases (lookup p result)) [
    | inl e ↦ rw e refl
    | inr (pm, e) ↦ rw e refl
  ]
  lookup-add_attempts p (a ∷ rest) result =
      rw (lookup-add_attempts p rest, lookup-add_to_entry p result a)
        (elim (Bool-cases (is_on p a)) [
          | inl e ↦ rw e (elim (Option-cases (lookup p result)) [
            | inl f ↦ rw f refl
            | inr (pm, f) ↦ rw f refl
          ])
          | inr e ↦ rw e refl
        ])

  add_attempts-append :
      (xs ys : List (RetryAttempt F)) (result : Dict (ProcessorMetrics F))
      → add_attempts result (xs ++ ys) ≡ add_attempts (add_attempts result xs) ys
  unfolding add_attempts
  add_attempts-append [] ys result = refl
  add_attempts-append (x ∷ xs) ys result = add_attempts-append xs ys (add_to_entry result x)

  pub add_transactions-eq :
      (txns : List (Transaction F)) (result : Dict (ProcessorMetrics F))
      → add_transactions result txns ≡ add_attempts result (attempts_of txns)
  unfolding add_transactions add_attempts
  add_transactions-eq [] result = refl
  add_transactions-eq (tx ∷ rest) result =
      rw add_attempts-append (add_transactions-eq rest (add_attempts result tx.retry_attempts))

  pub lookup-with_rates :
      (p : ProcessorName) (d : Dict (ProcessorMetrics F))
      → lookup p (with_rates d) ≡ Option.map with_rate (lookup p d)
  unfolding with_rates lookup
  lookup-with_rates p [] = refl
  lookup-with_rates p ((q, pm) ∷ rest) = elim (Bool-cases (str_eq q p)) [
    | inl e ↦ rw e refl
    | inr e ↦ rw e (lookup-with_rates p rest)
  ]
