-- ===== src/Orchestrator/Process/Outcomes.antt =====
-- What ProcessFailure (internal/orchestrator/orchestrator.go) returns and stores, on each path.
use smart_retry_orchestrator.Float.{Float64}
use smart_retry_orchestrator.Orchestrator.State.{Env, System, record_health, save}
use smart_retry_orchestrator.Classifier.{Classifier}
use smart_retry_orchestrator.Domain.Models.{
  FailureEvent, Transaction, ClassificationResult, ProcessFailureResult,
}
use smart_retry_orchestrator.Domain.Enums.{
  DeclineType, hard_decline, soft_decline, hard_declined, retrying,
}
use smart_retry_orchestrator.Common.{
  List, String, ◌≡◌, none, some, false, ◌++◌, refl, ◌∷◌, ◌∙◌, [], ap, sym, true,
}
use smart_retry_orchestrator.Store.Refinement.{Represents}
use smart_retry_orchestrator.Store.Contents.{find, find_last, replace_last}
use smart_retry_orchestrator.Orchestrator.Process.{process_failure, soft_result, hard_result}
use smart_retry_orchestrator.Domain.Errors.{err, ok, wrapped, duplicate_id}
use smart_retry_orchestrator.Orchestrator.Retry.{new_transaction}
use smart_retry_orchestrator.Orchestrator.Process.Saving.{
  recorded, store-recorded, process_failure-hard, adaptive-recorded, draws-recorded,
  process_hard_taken, save-IsSaved, save_taken, id-new_transaction, process_failure-soft,
  process_hard_new, process_soft_taken, unchanged-save, chain, process_soft_new,
}
use smart_retry_orchestrator.Store.{MemoryStore}
use smart_retry_orchestrator.Orchestrator.Retry.Chain.{IsClosed, IsSameCase}
use smart_retry_orchestrator.Orchestrator.Retry.Loop.{execute_retry_chain-IsSettled}
use mathlib.Core.Path.{subst}
use smart_retry_orchestrator.Orchestrator.Reasoning.Narrative.{build_chain_reasoning}

-- the text of the wrapped error
abbrev pub saving_text : DeclineType → String
saving_text hard_decline = "saving hard-declined transaction"
saving_text soft_decline = "saving transaction"

module _ {F : Type 0} ⦃fl : Float64 F⦄ where
  -- What is returned for a hard decline: no attempt, no cost, and that it is not to be retried.
  pub record IsHardAnswer (event : FailureEvent F) (c : ClassificationResult)
      (result : ProcessFailureResult F) : Type 0 where
    pub transaction_id : result.transaction_id ≡ event.transaction_id
    pub classification : result.classification ≡ c
    pub should_retry : result.should_retry ≡ false
    pub retry_attempts : result.retry_attempts ≡ []
    pub final_status : result.final_status ≡ hard_declined
    pub total_cost : result.total_cost ≡ fl.lit 0 1
    pub reasoning : result.reasoning ≡ c.reasoning

  -- What is stored for a hard decline: the event as it came, never retried, at no cost.
  pub record IsHardStored (event : FailureEvent F) (c : ClassificationResult) (tx : Transaction F)
      : Type 0 where
    pub id : tx.id ≡ event.transaction_id
    pub original_event : tx.original_event ≡ event
    pub classification : tx.classification ≡ c
    pub status : tx.status ≡ hard_declined
    pub retry_count : tx.retry_count ≡ 0
    pub retry_attempts : tx.retry_attempts ≡ []
    pub total_cost : tx.total_cost ≡ fl.lit 0 1
    pub max_retries : tx.max_retries ≡ 3
    pub recovered_at : tx.recovered_at ≡ none
    pub created_at : tx.created_at ≡ event.timestamp

  -- What is returned for a soft decline: the attempts, the status and the cost of the transaction.
  pub record IsSoftAnswer (c : ClassificationResult) (tx : Transaction F)
      (result : ProcessFailureResult F) : Type 0 where
    pub transaction_id : result.transaction_id ≡ tx.id
    pub classification : result.classification ≡ c
    pub should_retry : result.should_retry ≡ true
    pub retry_attempts : result.retry_attempts ≡ tx.retry_attempts
    pub final_status : result.final_status ≡ tx.status
    pub total_cost : result.total_cost ≡ tx.total_cost
    pub reasoning : result.reasoning ≡ build_chain_reasoning tx

  IsHardAnswer-hard_result :
      ⦃env : Env F⦄
      → (event : FailureEvent F) (c : ClassificationResult)
      → IsHardAnswer event c (hard_result event c)
  unfolding hard_result
  IsHardAnswer-hard_result event c = record {
    transaction_id = refl;
    classification = refl;
    should_retry = refl;
    retry_attempts = refl;
    final_status = refl;
    total_cost = refl;
    reasoning = refl;
  }

  IsHardStored-new_transaction :
      (event : FailureEvent F) (c : ClassificationResult)
      → IsHardStored event c (new_transaction hard_declined event c)
  unfolding new_transaction
  IsHardStored-new_transaction event c = record {
    id = refl;
    original_event = refl;
    classification = refl;
    status = refl;
    retry_count = refl;
    retry_attempts = refl;
    total_cost = refl;
    max_retries = refl;
    recovered_at = refl;
    created_at = refl;
  }

  IsSoftAnswer-soft_result :
      ⦃env : Env F⦄
      → (event : FailureEvent F) (c : ClassificationResult) (tx : Transaction F)
      → tx.id ≡ event.transaction_id
      → IsSoftAnswer c tx (soft_result event c tx)
  unfolding soft_result
  IsSoftAnswer-soft_result event c tx same = record {
    transaction_id = sym same;
    classification = refl;
    should_retry = refl;
    retry_attempts = refl;
    final_status = refl;
    total_cost = refl;
    reasoning = refl;
  }

module _ {F : Type 0} ⦃fl : Float64 F⦄ ⦃env : Env F⦄ ⦃cl : Classifier F⦄ where
  -- A hard decline with a new id is stored as HARD_DECLINED at the end and returned as such, with the
  -- classification and its reasoning; nothing is retried: the answer says that it is not to be, both
  -- have no attempt and no cost, and adaptive data, decision logs and random source stay as they were.
  pub process_failure_hard :
      (event : FailureEvent F) (s : System F) (ts : List (Transaction F))
      → Represents s.store ts
      → find event.transaction_id ts ≡ none
      → (cl.classify event).decline_type ≡ hard_decline
      → let (result, s') = process_failure event s in
        let tx = new_transaction hard_declined event (cl.classify event) in
        (result ≡ ok (hard_result event (cl.classify event)))
        × Represents s'.store (ts ++ tx ∷ [])
        × (s'.store.decisions ≡ s.store.decisions)
        × (s'.adaptive_data ≡ s.adaptive_data)
        × (s'.draws ≡ s.draws)
        × IsHardAnswer event (cl.classify event) (hard_result event (cl.classify event))
        × IsHardStored event (cl.classify event) tx
  process_failure_hard event s ts r new hard =
      let c = cl.classify event in
      let t = recorded event s in
      let tx = new_transaction hard_declined event c in
      let kept =
        save-IsSaved tx ts t (rw (store-recorded event s) r)
          (ap (λ i. find i ts) (id-new_transaction hard_declined event c) ∙ new) in
      let run = process_failure-hard event s hard ∙ process_hard_new event c t kept.result in
      rw run (
        refl,
        kept.stored,
        kept.decisions ∙ ap (λ (m : MemoryStore F). m.decisions) (store-recorded event s),
        (unchanged-save tx t).0 ∙ adaptive-recorded event s,
        (unchanged-save tx t).1 ∙ draws-recorded event s,
        IsHardAnswer-hard_result event c,
        IsHardStored-new_transaction event c,
      )

  -- A soft decline with a new id is stored at the end, with what the chain left of it, and returned as
  -- one to be retried, with its attempts, status and cost and the reasoning about them: it ends RECOVERED, with all attempts failed but the last, or
  -- EXHAUSTED, with all failed; it has at most three attempts, numbered from 1, and its count and
  -- cost are theirs. No soft decline is left in RETRYING.
  pub process_failure_soft :
      (event : FailureEvent F) (s : System F) (ts : List (Transaction F))
      → Represents s.store ts
      → find event.transaction_id ts ≡ none
      → (cl.classify event).decline_type ≡ soft_decline
      → let (result, s') = process_failure event s in
        (tx : Transaction F) × (result ≡ ok (soft_result event (cl.classify event) tx))
        × Represents s'.store (ts ++ tx ∷ [])
        × IsClosed tx
        × IsSameCase (new_transaction retrying event (cl.classify event)) tx
        × IsSoftAnswer (cl.classify event) tx (soft_result event (cl.classify event) tx)
  process_failure_soft event s ts r new soft =
      let c = cl.classify event in
      let t = recorded event s in
      let tx = new_transaction retrying event c in
      let same_id = ap (λ i. find i ts) (id-new_transaction retrying event c) in
      let kept = save-IsSaved tx ts t (rw (store-recorded event s) r) (same_id ∙ new) in
      let end = execute_retry_chain-IsSettled event c (save tx t).1 (ts ++ tx ∷ []) kept.stored (
        ap (λ i. find i (ts ++ tx ∷ [])) (sym (id-new_transaction retrying event c))
        ∙ find_last tx ts (same_id ∙ new)) in
      let tx' = (chain event c t).0 in
      let run = process_failure-soft event s soft ∙ process_soft_new event c t kept.result in
      rw run (
        tx',
        refl,
        subst (Represents (chain event c t).1.store)
            (replace_last tx' tx ts (ap (λ i. find i ts) end.same.id ∙ same_id ∙ new) end.same.id)
            end.stored,
        end.closed,
        end.same,
        IsSoftAnswer-soft_result event c tx' (end.same.id ∙ id-new_transaction retrying event c),
      )

  taken_by :
      (event : FailureEvent F) (s : System F) (ts : List (Transaction F)) {old : Transaction F}
      (d : DeclineType)
      → (cl.classify event).decline_type ≡ d
      → Represents s.store ts
      → find event.transaction_id ts ≡ some old
      → process_failure event s ≡ (err (wrapped (saving_text d) duplicate_id), recorded event s)
  taken_by event s ts hard_decline e r taken =
      let c = cl.classify event in
      process_failure-hard event s e
      ∙ process_hard_taken event c (recorded event s) (
          save_taken (new_transaction hard_declined event c) ts (recorded event s)
            (rw (store-recorded event s) r)
            (ap (λ i. find i ts) (id-new_transaction hard_declined event c) ∙ taken))
  taken_by event s ts soft_decline e r taken =
      let c = cl.classify event in
      process_failure-soft event s e
      ∙ process_soft_taken event c (recorded event s) (
          save_taken (new_transaction retrying event c) ts (recorded event s)
            (rw (store-recorded event s) r)
            (ap (λ i. find i ts) (id-new_transaction retrying event c) ∙ taken))

  -- A failure with an id that is stored already is refused with the duplicate error, wrapped. Store,
  -- adaptive data and random source stay as they were and nothing is retried; but the state that is
  -- left is the one after the health tracker has counted the failure.
  pub process_failure_duplicate :
      (event : FailureEvent F) (s : System F) (ts : List (Transaction F)) {old : Transaction F}
      → Represents s.store ts
      → find event.transaction_id ts ≡ some old
      → (process_failure event s ≡ (
        err (wrapped (saving_text (cl.classify event).decline_type) duplicate_id),
        (record_health event.processor false event.timestamp s).1,
      ))
        × ((process_failure event s).1.store ≡ s.store)
        × ((process_failure event s).1.adaptive_data ≡ s.adaptive_data)
        × ((process_failure event s).1.draws ≡ s.draws)
  process_failure_duplicate event s ts r taken =
      let run = taken_by event s ts (cl.classify event).decline_type refl r taken in
      (
        run,
        rw run (store-recorded event s),
        rw run (adaptive-recorded event s),
        rw run (draws-recorded event s),
      )
