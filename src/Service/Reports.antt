-- ===== src/Service/Reports.antt =====
-- POST /retries/{transactionID}/outcome: reportRetryOutcome of internal/api/handler.go over the
-- orchestrator.
use smart_retry_orchestrator.Float.{Float64}
use smart_retry_orchestrator.Orchestrator.State.{Env, System}
use smart_retry_orchestrator.Classifier.{Classifier}
use smart_retry_orchestrator.Api.Web.{Web, Request}
use smart_retry_orchestrator.Api.Handlers.{
  answer_outcome, report_decoded, report_retry_outcome, invalid_json, invalid_request,
  unless_invalid,
}
use smart_retry_orchestrator.Common.{
  List, String, Option, ◌≡◌, none, some, Bool-cases, str_eq, inl, eq_iff, inr, ◌≢◌, ◌∷◌, [],
  if◌then◌else◌, Option-cases, ◌&&◌, ap, ◌+◌, refl, arith, true, false,
}
use smart_retry_orchestrator.Api.Requests.{RetryOutcomeRequest, validate_outcome, append_if}
use smart_retry_orchestrator.Api.Responses.{
  ResponseWriter, respond_error, status_not_found, respond_json, status_ok, texts_content,
}
use smart_retry_orchestrator.Domain.Models.{Transaction}
use smart_retry_orchestrator.Store.Refinement.{Represents}
use smart_retry_orchestrator.Store.Contents.{replace, find}
use smart_retry_orchestrator.Orchestrator.Process.{record_retry_outcome, is_recoverable}
use smart_retry_orchestrator.Orchestrator.Process.Reports.{
  record_retry_outcome_missing, record_retry_outcome_effect,
}
use smart_retry_orchestrator.Orchestrator.Retry.{mark_recovered}
use smart_retry_orchestrator.Orchestrator.Adaptive.{record_adaptive}
use smart_retry_orchestrator.Health.{record_outcome}

validate_outcome-unnamed :
    (q : RetryOutcomeRequest)
    → str_eq q.processor "" ≡ true
    → validate_outcome q ≡ "processor is required" ∷ []
unfolding validate_outcome append_if
validate_outcome-unnamed q e = rw e refl

validate_outcome-named :
    (q : RetryOutcomeRequest) → str_eq q.processor "" ≡ false → validate_outcome q ≡ []
unfolding validate_outcome append_if
validate_outcome-named q e = rw e refl

module _ {F : Type 0} ⦃fl : Float64 F⦄ ⦃env : Env F⦄ ⦃cl : Classifier F⦄ (web : Web F) where
  -- What a report on the stored transaction changes: the store has `tx` recovered, if the report is
  -- of a success and `tx` can recover, and is as before otherwise; the adaptive data and the health
  -- tracker have one outcome more.
  pub record IsReported (q : RetryOutcomeRequest) (tx : Transaction F) (ts : List (Transaction F))
      (s t : System F) : Type 0 where
    pub stored : Represents t.store (
        replace
          (if q.success && is_recoverable tx.status
            then mark_recovered (env.now s.clock_reads) tx
            else tx)
          ts)
    pub adaptive :
        t.adaptive_data
        ≡ record_adaptive tx.original_event.failure_code q.processor q.success s.adaptive_data
    pub health :
        t.health_tracker
        ≡ record_outcome
            (env.now (s.clock_reads + 1))
            s.health_tracker
            q.processor
            q.success
            (env.now s.clock_reads)

  pub data Reported (s : System F) (ts : List (Transaction F)) (id : String)
      (req : Option RetryOutcomeRequest) (w : ResponseWriter F) (r : ResponseWriter F × System F)
      : Type 0 where
    report_undecodable : req ≡ none → r ≡ (invalid_json w, s) → Reported s ts id req w r
    report_unnamed :
        (q : RetryOutcomeRequest)
        → req ≡ some q
        → q.processor ≡ ""
        → r ≡ (invalid_request ("processor is required" ∷ []) w, s)
        → Reported s ts id req w r
    report_unknown :
        (q : RetryOutcomeRequest)
        → req ≡ some q
        → q.processor ≢ ""
        → find id ts ≡ none
        → r ≡ (respond_error status_not_found "NOT_FOUND" ("transaction not found" ∷ []) w, s)
        → Reported s ts id req w r
    report_recorded :
        (q : RetryOutcomeRequest) (tx : Transaction F)
        → req ≡ some q
        → q.processor ≢ ""
        → find id ts ≡ some tx
        → r.0 ≡ respond_json status_ok (texts_content (("status", "recorded") ∷ [])) w
        → IsReported q tx ts s r.1
        → Reported s ts id req w r

  report_named :
      (q : RetryOutcomeRequest) (id : String) (w : ResponseWriter F) (s : System F)
      (ts : List (Transaction F))
      → Represents s.store ts
      → q.processor ≢ ""
      → let (result, t) = record_retry_outcome id q.processor q.success s in
        Reported s ts id (some q) w (answer_outcome result w, t)
  unfolding answer_outcome
  report_named q id w s ts rep named = elim (Option-cases (find id ts)) [
    | inl new ↦
        let same = record_retry_outcome_missing id q.processor q.success s ts rep new in
        report_unknown q refl named new (ap (λ x. (answer_outcome x.0 w, x.1)) same)
    | inr (tx, known) ↦
        let (result, stored, adaptive, health) =
          record_retry_outcome_effect id q.processor q.success s ts tx rep known in
        report_recorded q tx refl named known (ap (λ x. answer_outcome x w) result)
          (record { stored = stored; adaptive = adaptive; health = health })
  ]

  Reported-decoded :
      (req : Option RetryOutcomeRequest) (id : String) (w : ResponseWriter F) (s : System F)
      (ts : List (Transaction F))
      → Represents s.store ts
      → Reported s ts id req w (report_decoded web id req w s)
  unfolding report_decoded
  Reported-decoded none id w s ts rep = report_undecodable refl refl
  Reported-decoded (some q) id w s ts rep = elim (Bool-cases (str_eq q.processor "")) [
    | inl e ↦
        report_unnamed q refl ((eq_iff q.processor "").0 e)
          (rw (validate_outcome-unnamed q e, unless_invalid) refl)
    | inr e ↦
        rw (validate_outcome-named q e, unless_invalid)
          (report_named q id w s ts rep λ h. ground (arith, eq_iff q.processor "", h))
  ]

  -- POST /retries/{id}/outcome has one of four answers: 400 for a body that is no JSON and 400 for an
  -- empty processor, and 404 if the id is not stored, all three with nothing changed; and 200 if it
  -- is stored, whatever the processor is called and whatever became of the transaction, with one outcome more in the health tracker and in the
  -- adaptive data, and with the transaction recovered if the report is of a success and it was
  -- RETRYING or EXHAUSTED. There is no 500.
  pub report_retry_outcome_answers :
      (r : Request) (w : ResponseWriter F) (s : System F) (ts : List (Transaction F))
      → Represents s.store ts
      → Reported s ts r.transaction_id
          (web.decode_outcome r.body)
          w
          (report_retry_outcome web r w s)
  unfolding report_retry_outcome
  report_retry_outcome_answers r w s ts rep =
      Reported-decoded (web.decode_outcome r.body) r.transaction_id w s ts rep
