-- ===== src/Orchestrator/Process/Saving.antt =====
-- The two paths of ProcessFailure (internal/orchestrator/orchestrator.go), by the answer of
-- SaveTransaction.
use smart_retry_orchestrator.Domain.Models.{
  Transaction, FailureEvent, ClassificationResult, ProcessFailureResult,
}
use smart_retry_orchestrator.Domain.Enums.{
  DeclineType, soft_decline, hard_decline, hard_declined, retrying, TransactionStatus,
}
use smart_retry_orchestrator.Orchestrator.State.{save, Env, record_health, System, Action}
use smart_retry_orchestrator.Float.{Float64}
use smart_retry_orchestrator.Common.{
  List, ◌≡◌, false, refl, if◌then◌else◌, ap, ◌++◌, none, some, ◌∷◌, ◌∙◌, [],
}
use smart_retry_orchestrator.Classifier.{Classifier}
use smart_retry_orchestrator.Store.{save_transaction}
use smart_retry_orchestrator.Orchestrator.Process.{
  process_hard, process_soft, process_failure, is_hard, hard_result, soft_result, or_wrap,
}
use smart_retry_orchestrator.Orchestrator.Retry.{new_transaction, execute_retry_chain}
use smart_retry_orchestrator.Store.Refinement.{Represents, saved, save_transaction-Represents}
use smart_retry_orchestrator.Domain.Errors.{ok, err, Result, duplicate_id, wrapped}
use smart_retry_orchestrator.Store.Contents.{find}
use mathlib.Core.Path.{subst}

if_hard :
    {A : Type 0} (d : DeclineType) (x y : A) → d ≡ hard_decline → (if is_hard d then x else y) ≡ x
if_hard hard_decline x y e = refl
if_hard soft_decline x y e = cc

if_soft :
    {A : Type 0} (d : DeclineType) (x y : A) → d ≡ soft_decline → (if is_hard d then x else y) ≡ y
if_soft hard_decline x y e = cc
if_soft soft_decline x y e = refl

module _ {F : Type 0} where
  -- What SaveTransaction does to the system when the id is new.
  pub record IsSaved (tx : Transaction F) (ts : List (Transaction F)) (s : System F) : Type 0 where
    pub result : (save tx s).0 ≡ ok tt
    pub stored : Represents (save tx s).1.store (ts ++ tx ∷ [])
    pub decisions : (save tx s).1.store.decisions ≡ s.store.decisions

  saved_new :
      (tx : Transaction F) (ts : List (Transaction F)) (s : System F)
      → Represents s.store ts
      → find tx.id ts ≡ none
      → (saved ts tx ≡ (ok tt, ts ++ tx ∷ []))
  saved_new tx ts s r e = rw (e, saved) refl

  pub save-IsSaved :
      (tx : Transaction F) (ts : List (Transaction F)) (s : System F)
      → Represents s.store ts
      → find tx.id ts ≡ none
      → IsSaved tx ts s
  unfolding save
  save-IsSaved tx ts s r e =
      let both = save_transaction-Represents s.store ts tx r in
      record {
        result =
            both.0
            ∙ ap (λ (p : Result (Unit {0}) × List (Transaction F)). p.0) (saved_new tx ts s r e);
        stored =
            subst
              (λ (p : Result (Unit {0}) × List (Transaction F)). Represents (save tx s).1.store p.1)
              (saved_new tx ts s r e) both.1;
        decisions = unfold save_transaction in rw (r.found tx.id, e, save_transaction) refl;
      }

  pub save_taken :
      (tx : Transaction F) (ts : List (Transaction F)) (s : System F) {old : Transaction F}
      → Represents s.store ts
      → find tx.id ts ≡ some old
      → save tx s ≡ (err duplicate_id, s)
  unfolding save save_transaction
  save_taken tx ts s r e = rw (r.found tx.id, e, save_transaction) refl

module _ {F : Type 0} ⦃fl : Float64 F⦄ ⦃env : Env F⦄ ⦃cl : Classifier F⦄ where
  -- the system after the failure has been recorded in the health tracker
  abbrev pub recorded : FailureEvent F → System F → System F
  recorded event s = (record_health event.processor false event.timestamp s).1

  pub store-recorded : (event : FailureEvent F) (s : System F) → (recorded event s).store ≡ s.store
  unfolding record_health
  store-recorded event s = refl

  pub draws-recorded : (event : FailureEvent F) (s : System F) → (recorded event s).draws ≡ s.draws
  unfolding record_health
  draws-recorded event s = refl

  pub adaptive-recorded :
      (event : FailureEvent F) (s : System F) → (recorded event s).adaptive_data ≡ s.adaptive_data
  unfolding record_health
  adaptive-recorded event s = refl

  pub process_failure-hard :
      (event : FailureEvent F) (s : System F)
      → (cl.classify event).decline_type ≡ hard_decline
      → process_failure event s ≡ process_hard event (cl.classify event) (recorded event s)
  unfolding process_failure
  process_failure-hard event s hard =
      ap (λ (m : Action F (Result (ProcessFailureResult F))). m (recorded event s))
        (if_hard (cl.classify event).decline_type _ _ hard)

  pub process_failure-soft :
      (event : FailureEvent F) (s : System F)
      → (cl.classify event).decline_type ≡ soft_decline
      → process_failure event s ≡ process_soft event (cl.classify event) (recorded event s)
  unfolding process_failure
  process_failure-soft event s soft =
      ap (λ (m : Action F (Result (ProcessFailureResult F))). m (recorded event s))
        (if_soft (cl.classify event).decline_type _ _ soft)

  pub id-new_transaction :
      (status : TransactionStatus) (event : FailureEvent F) (c : ClassificationResult)
      → (new_transaction status event c).id ≡ event.transaction_id
  unfolding new_transaction
  id-new_transaction status event c = refl

  pub process_hard_new :
      (event : FailureEvent F) (c : ClassificationResult) (t : System F)
      → (save (new_transaction hard_declined event c) t).0 ≡ ok tt
      → process_hard event c t
        ≡ (ok (hard_result event c), (save (new_transaction hard_declined event c) t).1)
  unfolding process_hard
  process_hard_new event c t e = rw (e, or_wrap) refl

  pub unchanged-save :
      (tx : Transaction F) (t : System F)
      → ((save tx t).1.adaptive_data ≡ t.adaptive_data) × ((save tx t).1.draws ≡ t.draws)
  unfolding save
  unchanged-save tx t = (refl, refl)

  pub process_hard_taken :
      (event : FailureEvent F) (c : ClassificationResult) (t : System F)
      → save (new_transaction hard_declined event c) t ≡ (err duplicate_id, t)
      → process_hard event c t ≡ (err (wrapped "saving hard-declined transaction" duplicate_id), t)
  unfolding process_hard
  process_hard_taken event c t e = rw (e, or_wrap) refl

  pub process_soft_taken :
      (event : FailureEvent F) (c : ClassificationResult) (t : System F)
      → save (new_transaction retrying event c) t ≡ (err duplicate_id, t)
      → process_soft event c t ≡ (err (wrapped "saving transaction" duplicate_id), t)
  unfolding process_soft
  process_soft_taken event c t e = rw (e, or_wrap) refl

  -- the chain, from the state after the save
  abbrev pub chain : FailureEvent F → ClassificationResult → System F → Transaction F × System F
  chain event c t =
      let tx = new_transaction retrying event c in execute_retry_chain tx event c (save tx t).1

  pub process_soft_new :
      (event : FailureEvent F) (c : ClassificationResult) (t : System F)
      → (save (new_transaction retrying event c) t).0 ≡ ok tt
      → process_soft event c t ≡ (ok (soft_result event c (chain event c t).0), (chain event c t).1)
  unfolding process_soft
  process_soft_new event c t e = rw (e, or_wrap) refl
