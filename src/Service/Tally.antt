-- ===== src/Service/Tally.antt =====
-- The summary that submitBatch (internal/api/handler.go) keeps while it goes through a batch.
use smart_retry_orchestrator.Common.{
  ℕ, List, length, String, map, ◌+◌, ◌≡◌, ◌∷◌, arith, [], refl, ◌++◌, inl, length-append, inr,
}
use smart_retry_orchestrator.Api.Batch.{count_final, count_type, add_processed, add_error}
use smart_retry_orchestrator.Float.{Float64}
use smart_retry_orchestrator.Orchestrator.State.{System}
use smart_retry_orchestrator.Api.Responses.{BatchSummary, BatchItemResult, BatchResponse}
use smart_retry_orchestrator.Api.Requests.{FailureRequest}
use smart_retry_orchestrator.Domain.Models.{Transaction, ProcessFailureResult}
use smart_retry_orchestrator.Domain.Enums.{
  exhausted, hard_declined, recovered, hard_decline, soft_decline,
}
use smart_retry_orchestrator.Service.Sound.{IsSound}
use mathlib.Core.List.{map-append}

-- The summary of some processed failures.
pub record IsSummary (n : ℕ) (sum : BatchSummary) : Type 0 where
  pub typed : sum.hard_declines + sum.soft_declines ≡ n
  pub finished : sum.soft_declines ≡ sum.recovered + sum.exhausted
  pub idle : sum.retrying ≡ 0

count_hard :
    (n : ℕ) (sum : BatchSummary)
    → IsSummary n sum
    → IsSummary (n + 1) (count_final hard_declined (count_type hard_decline sum))
unfolding count_final count_type
count_hard n sum h = ground arith

count_recovered :
    (n : ℕ) (sum : BatchSummary)
    → IsSummary n sum
    → IsSummary (n + 1) (count_final recovered (count_type soft_decline sum))
unfolding count_final count_type
count_recovered n sum h = ground arith

count_exhausted :
    (n : ℕ) (sum : BatchSummary)
    → IsSummary n sum
    → IsSummary (n + 1) (count_final exhausted (count_type soft_decline sum))
unfolding count_final count_type
count_exhausted n sum h = ground arith

abbrev pub item_ids : List BatchItemResult → List String
item_ids = map (λ i. i.transaction_id)

length-item_ids : (is : List BatchItemResult) → length (item_ids is) ≡ length is
length-item_ids [] = refl
length-item_ids (i ∷ is) = omega (arith, length-item_ids is)

module _ {F : Type 0} ⦃fl : Float64 F⦄ where
  IsSound-IsSummary :
      (n : ℕ) (sum : BatchSummary) (tx : Transaction F)
      → IsSound tx
      → IsSummary n sum
      → IsSummary (n + 1) (count_final tx.status (count_type tx.classification.decline_type sum))
  IsSound-IsSummary n sum tx (inl d) h = rw (d.hard, d.status) (count_hard n sum h)
  IsSound-IsSummary n sum tx (inr r) h = elim r.ended [
    | inl e ↦ rw (r.soft, e) (count_recovered n sum h)
    | inr e ↦ rw (r.soft, e.0) (count_exhausted n sum h)
  ]

  abbrev pub request_ids : List (FailureRequest F) → List String
  request_ids = map (λ q. q.transaction_id)

  -- The response after some requests, with `before` transactions stored before the first.
  pub record IsTally (before : ℕ) (done : List (FailureRequest F)) (resp : BatchResponse)
      (s : System F) : Type 0 where
    pub all_counted : resp.processed + resp.errors ≡ length done
    pub in_order : item_ids resp.results ≡ request_ids done
    pub summary : IsSummary resp.processed resp.summary
    pub grown : length s.store.tx_order ≡ before + resp.processed

  pub IsTally-error :
      (before : ℕ) (done : List (FailureRequest F)) (resp : BatchResponse) (s t : System F)
      (q : FailureRequest F) (message : String)
      → t.store ≡ s.store
      → IsTally before done resp s
      → IsTally before (done ++ q ∷ []) (add_error q.transaction_id message resp) t
  unfolding add_error
  IsTally-error before done resp s t q message e h = record {
    all_counted = omega (arith, h.all_counted, length-append done (q ∷ []));
    in_order = simp (map-append, h.in_order);
    summary = h.summary;
    grown = rw e h.grown;
  }

  pub IsTally-processed :
      (before : ℕ) (done : List (FailureRequest F)) (resp : BatchResponse) (s t : System F)
      (q : FailureRequest F) (tx : Transaction F) (res : ProcessFailureResult F)
      → IsSound tx
      → res.transaction_id ≡ q.transaction_id
      → res.classification.decline_type ≡ tx.classification.decline_type
      → res.final_status ≡ tx.status
      → length t.store.tx_order ≡ length s.store.tx_order + 1
      → IsTally before done resp s
      → IsTally before (done ++ q ∷ []) (add_processed res resp) t
  unfolding add_processed
  IsTally-processed before done resp s t q tx res sound named typed ended more h = record {
    all_counted = omega (arith, h.all_counted, length-append done (q ∷ []));
    in_order = simp (map-append, h.in_order, named);
    summary = rw (typed, ended) (IsSound-IsSummary resp.processed resp.summary tx sound h.summary);
    grown = omega (arith, more, h.grown);
  }
