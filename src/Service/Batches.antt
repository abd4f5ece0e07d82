-- ===== src/Service/Batches.antt =====
-- POST /failures/batch: submitBatch of internal/api/handler.go over the orchestrator.
use smart_retry_orchestrator.Common.{
  ℕ, List, length, String, ◌+◌, ◌≡◌, ◌∷◌, arith, [], refl, ◌++◌, inl, length-append, inr, ap, ◌∙◌,
  sym, some, ◌<◌, ◌==◌, false,
}
use smart_retry_orchestrator.Api.Batch.{
  add_error, submit_item, empty_response, submit_items, add_result, submit_batch,
  submit_batch_decoded,
}
use smart_retry_orchestrator.Float.{Float64}
use smart_retry_orchestrator.Orchestrator.State.{Env, System, time_now}
use smart_retry_orchestrator.Api.Responses.{
  BatchResponse, ResponseWriter, respond_json, status_created, batch_content,
}
use smart_retry_orchestrator.Api.Requests.{
  FailureRequest, to_event, validate_failure, validate_batch, BatchFailureRequest,
}
use smart_retry_orchestrator.Classifier.{Classifier}
use smart_retry_orchestrator.Domain.Models.{Transaction, ProcessFailureResult, ClassificationResult}
use smart_retry_orchestrator.Api.Web.{Web, Request}
use smart_retry_orchestrator.Service.Orderly.{IsOrderly}
use mathlib.Core.List.{append-nil, append_assoc}
use smart_retry_orchestrator.Service.Failures.{Processed, process_failure_cases}
use smart_retry_orchestrator.Service.Submit.{event_of}
use smart_retry_orchestrator.Store.{MemoryStore}
use smart_retry_orchestrator.Service.Endpoints.{IsKeeping-submit_item}
use smart_retry_orchestrator.Orchestrator.Process.{process_failure}
use smart_retry_orchestrator.Domain.Errors.{error_text, wrapped, duplicate_id, Result, err, ok}
use smart_retry_orchestrator.Store.Refinement.{Represents}
use smart_retry_orchestrator.Service.Totals.{length-ids}
use smart_retry_orchestrator.Orchestrator.Process.Outcomes.{saving_text}
use smart_retry_orchestrator.Api.Handlers.{unless_invalid}
use smart_retry_orchestrator.Service.Tally.{
  IsSummary, IsTally, IsTally-error, IsTally-processed, item_ids, request_ids,
}

module _ {F : Type 0} ⦃fl : Float64 F⦄ ⦃env : Env F⦄ ⦃cl : Classifier F⦄ (web : Web F) where
  one_more :
      (m n : MemoryStore F) (ts : List (Transaction F)) (tx : Transaction F)
      → Represents m ts
      → Represents n (ts ++ tx ∷ [])
      → length n.tx_order ≡ length m.tx_order + 1
  one_more m n ts tx p q =
      rw (p.order, q.order)
        (omega (arith, length-ids ts, length-ids (ts ++ tx ∷ []), length-append ts (tx ∷ [])))

  IsTally-submit_valid :
      (before : ℕ) (done : List (FailureRequest F)) (resp : BatchResponse) (s : System F)
      (q : FailureRequest F) (o : IsOrderly s)
      → IsTally before done resp s
      → Processed (event_of web q s) (time_now s).1 o.transactions
      → let (resp', t) = submit_item web [] q resp s in IsTally before (done ++ q ∷ []) resp' t
  unfolding submit_item to_event time_now
  IsTally-submit_valid before done resp s q o h (inl refused) = rw refused.result (
      IsTally-error before done resp s (process_failure (event_of web q s) (time_now s).1).1 q
        (error_text
          (wrapped (saving_text (cl.classify (event_of web q s)).decline_type) duplicate_id))
        refused.kept h)
  IsTally-submit_valid before done resp s q o h (inr (tx, res, taken)) = rw taken.result (
      IsTally-processed before done resp s (process_failure (event_of web q s) (time_now s).1).1 q
        tx res taken.sound taken.named
        (ap (λ (c : ClassificationResult). c.decline_type)
          (taken.classification ∙ sym taken.classified))
        taken.status (one_more _ _ o.transactions tx o.stored taken.stored) h)

  submit_item-IsTally :
      (before : ℕ) (done : List (FailureRequest F)) (errs : List String) (resp : BatchResponse)
      (s : System F) (q : FailureRequest F)
      → IsOrderly s
      → IsTally before done resp s
      → let (resp', t) = submit_item web errs q resp s in IsTally before (done ++ q ∷ []) resp' t
  unfolding submit_item time_now
  submit_item-IsTally before done [] resp s q o h =
      IsTally-submit_valid before done resp s q o h
        (process_failure_cases (event_of web q s) (time_now s).1 o.transactions o.stored)
  submit_item-IsTally before done (e ∷ errs) resp s q o h =
      IsTally-error before done resp s s q e refl h

  submit_items-IsTally :
      (before : ℕ) (done reqs : List (FailureRequest F)) (resp : BatchResponse) (s : System F)
      → IsOrderly s
      → IsTally before done resp s
      → let (resp', t) = submit_items web reqs resp s in IsTally before (done ++ reqs) resp' t
  unfolding submit_items
  submit_items-IsTally before done [] resp s o h = rw append-nil h
  submit_items-IsTally before done (q ∷ rest) resp s o h =
      let item = submit_item web (validate_failure q) q resp in
      let t = (item s).1 in
      let o' = (IsKeeping-submit_item web (validate_failure q) q resp).at s o in
      rw (← append_assoc done (q ∷ []) rest) (
        submit_items-IsTally before (done ++ q ∷ []) rest (item s).0 t o'
          (submit_item-IsTally before done (validate_failure q) resp s q o h))

  total-add_result :
      (id : String) (r : Result (ProcessFailureResult F)) (resp : BatchResponse)
      → (add_result id r resp).total ≡ resp.total
  unfolding add_result
  total-add_result id (err e) resp = refl
  total-add_result id (ok res) resp = refl

  total-submit_item :
      (errs : List String) (q : FailureRequest F) (resp : BatchResponse) (s : System F)
      → (submit_item web errs q resp s).0.total ≡ resp.total
  unfolding submit_item add_error
  total-submit_item [] q resp s = total-add_result q.transaction_id _ resp
  total-submit_item (e ∷ errs) q resp s = refl

  total-submit_items :
      (reqs : List (FailureRequest F)) (resp : BatchResponse) (s : System F)
      → (submit_items web reqs resp s).0.total ≡ resp.total
  unfolding submit_items
  total-submit_items [] resp s = refl
  total-submit_items (q ∷ rest) resp s =
      let item = submit_item web (validate_failure q) q resp in
      total-submit_items rest (item s).0 (item s).1
      ∙ total-submit_item (validate_failure q) q resp s

  -- What the response says of the requests and of the store before and after.
  pub record IsAccount (reqs : List (FailureRequest F)) (resp : BatchResponse) (s t : System F)
      : Type 0 where
    pub total : resp.total ≡ length reqs
    pub split : resp.processed + resp.errors ≡ resp.total
    pub in_order : item_ids resp.results ≡ request_ids reqs
    pub summary : IsSummary resp.processed resp.summary
    pub grown : length t.store.tx_order ≡ length s.store.tx_order + resp.processed

  submit_items-IsAccount :
      (reqs : List (FailureRequest F)) (s : System F)
      → IsOrderly s
      → let (resp, t) = submit_items web reqs (empty_response (length reqs)) s in
        IsAccount reqs resp s t
  unfolding empty_response
  submit_items-IsAccount reqs s o =
      let start = empty_response (length reqs) in
      let h = submit_items-IsTally (length s.store.tx_order) [] reqs start s o (record {
        all_counted = refl;
        in_order = refl;
        summary = record { typed = refl; finished = refl; idle = refl };
        grown = omega arith;
      }) in
      let total = total-submit_items reqs start s in
      record {
        total = total;
        split = omega (arith, total, h.all_counted);
        in_order = h.in_order;
        summary = h.summary;
        grown = h.grown;
      }

  -- A decoded batch that is not empty is answered with 201, whatever its requests are and whichever
  -- ids repeat or are stored. The response that Encode is given has one result for each request, in their order and with
  -- their ids; each is counted as processed or as an error; each that was processed is a hard or a
  -- soft decline, each soft decline among them is recovered or exhausted, and none is retrying; and
  -- the store has exactly as many transactions more as were processed.
  pub submit_batch_accounts :
      (r : Request) (w : ResponseWriter F) (s : System F) (req : BatchFailureRequest F)
      → web.decode_batch r.body ≡ some req
      → 0 < length req.events
      → IsOrderly s
      → (resp : BatchResponse) × ((submit_batch web r w s).0
          ≡ respond_json status_created (batch_content resp) w)
        × IsAccount req.events resp s (submit_batch web r w s).1
  unfolding submit_batch validate_batch
  submit_batch_accounts r w s req e some_events o =
      let run = submit_items web req.events (empty_response (length req.events)) in
      let full : (length req.events == 0) ≡ false = ground arith in
      rw (e, submit_batch_decoded, full, unless_invalid)
        ((run s).0, refl, submit_items-IsAccount req.events s o)
