-- ===== src/Service/Failures.antt =====
-- ProcessFailure (internal/orchestrator/orchestrator.go) in one statement for its callers.
use smart_retry_orchestrator.Float.{Float64}
use smart_retry_orchestrator.Orchestrator.State.{Env, System}
use smart_retry_orchestrator.Classifier.{Classifier}
use smart_retry_orchestrator.Orchestrator.Retry.{new_transaction}
use smart_retry_orchestrator.Domain.Models.{
  FailureEvent, Transaction, ProcessFailureResult, ClassificationResult,
}
use smart_retry_orchestrator.Orchestrator.Process.{hard_result, soft_result, process_failure}
use smart_retry_orchestrator.Common.{
  List, ◌⊎◌, Option-cases, ◌≡◌, inl, none, some, inr, ◌++◌, ap, ◌∷◌, [], refl, ◌∙◌,
}
use smart_retry_orchestrator.Store.Refinement.{Represents}
use smart_retry_orchestrator.Domain.Errors.{Result, ok, err, wrapped, duplicate_id}
use smart_retry_orchestrator.Domain.Enums.{DeclineType, hard_declined, hard_decline, soft_decline}
use smart_retry_orchestrator.Store.Contents.{find}
use smart_retry_orchestrator.Orchestrator.Process.Outcomes.{
  process_failure_hard, saving_text, process_failure_duplicate, process_failure_soft,
}
use smart_retry_orchestrator.Service.Sound.{IsRetried-IsClosed, IsSound}

module _ {F : Type 0} ⦃fl : Float64 F⦄ ⦃env : Env F⦄ ⦃cl : Classifier F⦄ where
  -- The failure was taken: the result agrees with the transaction that is now the last in the store.
  pub record IsTaken (event : FailureEvent F) (ts : List (Transaction F))
      (r : Result (ProcessFailureResult F) × System F) (tx : Transaction F)
      (res : ProcessFailureResult F) : Type 0 where
    pub new : find event.transaction_id ts ≡ none
    pub result : r.0 ≡ ok res
    pub stored : Represents r.1.store (ts ++ tx ∷ [])
    pub sound : IsSound tx
    pub id : tx.id ≡ event.transaction_id
    pub named : res.transaction_id ≡ event.transaction_id
    pub event_kept : tx.original_event ≡ event
    pub classified : tx.classification ≡ cl.classify event
    pub classification : res.classification ≡ cl.classify event
    pub status : res.final_status ≡ tx.status

  -- The id is stored already; the store stays as it is.
  pub record IsRefused (event : FailureEvent F) (s : System F) (ts : List (Transaction F))
      (r : Result (ProcessFailureResult F) × System F) : Type 0 where
    pub old : Transaction F
    pub known : find event.transaction_id ts ≡ some old
    pub result : r.0 ≡ err (wrapped (saving_text (cl.classify event).decline_type) duplicate_id)
    pub kept : r.1.store ≡ s.store

  abbrev pub Processed : FailureEvent F → System F → List (Transaction F) → Type 0
  Processed event s ts =
      IsRefused event s ts (process_failure event s)
      ⊎ (tx : Transaction F) × (res : ProcessFailureResult F) × IsTaken event ts
          (process_failure event s) tx res

  taken :
      (event : FailureEvent F) (s : System F) (ts : List (Transaction F)) (d : DeclineType)
      → (cl.classify event).decline_type ≡ d
      → Represents s.store ts
      → find event.transaction_id ts ≡ none
      → (tx : Transaction F) × (res : ProcessFailureResult F) × IsTaken event ts
          (process_failure event s)
          tx
          res
  unfolding new_transaction hard_result soft_result
  taken event s ts hard_decline e r new =
      let c = cl.classify event in
      let (result, stored, _, _, _, _, _) = process_failure_hard event s ts r new e in
      (
        new_transaction hard_declined event c,
        hard_result event c,
        record {
          new = new;
          result = result;
          stored = stored;
          sound = inl (record { hard = e; status = refl; untried = refl });
          id = refl;
          named = refl;
          event_kept = refl;
          classified = refl;
          classification = refl;
          status = refl;
        },
      )
  taken event s ts soft_decline e r new =
      let c = cl.classify event in
      let (tx, result, stored, closed, same, _) = process_failure_soft event s ts r new e in
      (
        tx,
        soft_result event c tx,
        record {
          new = new;
          result = result;
          stored = stored;
          sound = inr (
              IsRetried-IsClosed tx
                (ap (λ (k : ClassificationResult). k.decline_type) same.classification ∙ e) closed);
          id = same.id;
          named = refl;
          event_kept = same.original_event;
          classified = same.classification;
          classification = refl;
          status = refl;
        },
      )

  -- ProcessFailure either refuses an id that is stored, or takes the failure.
  pub process_failure_cases :
      (event : FailureEvent F) (s : System F) (ts : List (Transaction F))
      → Represents s.store ts
      → Processed event s ts
  process_failure_cases event s ts r = elim (Option-cases (find event.transaction_id ts)) [
    | inl new ↦ inr (taken event s ts (cl.classify event).decline_type refl r new)
    | inr (old, known) ↦
        let (run, kept, _, _) = process_failure_duplicate event s ts r known in
        inl (record { old = old; known = known; result = ap (λ x. x.0) run; kept = kept })
  ]
