-- ===== src/Orchestrator/Process/Reports.antt =====
-- RecordRetryOutcome of internal/orchestrator/orchestrator.go: reports from outside.
use smart_retry_orchestrator.Float.{Float64}
use smart_retry_orchestrator.Orchestrator.State.{Env, record_health, System, time_now, update}
use smart_retry_orchestrator.Orchestrator.Process.{
  record_retry_outcome, report_on, with_outcome, is_recoverable,
}
use smart_retry_orchestrator.Domain.Enums.{ProcessorName}
use smart_retry_orchestrator.Common.{
  String, List, Bool, ◌≡◌, some, arith, none, refl, ◌+◌, ap, ◌∙◌, ◌&&◌, if◌then◌else◌,
}
use smart_retry_orchestrator.Orchestrator.Retry.{mark_recovered, record_retry}
use smart_retry_orchestrator.Store.{get_transaction, update_transaction}
use smart_retry_orchestrator.Domain.Models.{Time, Transaction}
use smart_retry_orchestrator.Domain.Errors.{Result, ok, err, not_found}
use smart_retry_orchestrator.Store.Refinement.{
  Represents, update_transaction-Represents, updated_found,
}
use smart_retry_orchestrator.Store.Contents.{find, replace, found_id}
use smart_retry_orchestrator.Orchestrator.Adaptive.{record_adaptive}
use smart_retry_orchestrator.Health.{record_outcome}
use mathlib.Core.Path.{subst}

module _ {F : Type 0} ⦃fl : Float64 F⦄ ⦃env : Env F⦄ where
  -- A report about an id that is not stored returns the not-found error and changes nothing at all.
  pub record_retry_outcome_missing :
      (id : String) (p : ProcessorName) (b : Bool) (s : System F) (ts : List (Transaction F))
      → Represents s.store ts
      → find id ts ≡ none
      → record_retry_outcome id p b s ≡ (err not_found, s)
  unfolding record_retry_outcome get_transaction
  record_retry_outcome_missing id p b s ts r e =
      rw (r.found id, e, get_transaction, record_retry_outcome) refl

  pub id-with_outcome :
      (now : Time) (b : Bool) (tx : Transaction F) → (with_outcome now b tx).id ≡ tx.id
  unfolding with_outcome mark_recovered
  id-with_outcome now b tx = ground arith

  record_retry_outcome-found :
      (id : String) (p : ProcessorName) (b : Bool) (s : System F) (ts : List (Transaction F))
      {tx : Transaction F}
      → Represents s.store ts
      → find id ts ≡ some tx
      → record_retry_outcome id p b s ≡ report_on p b (ok tx) s
  unfolding record_retry_outcome get_transaction
  record_retry_outcome-found id p b s ts r e =
      rw (r.found id, e, get_transaction, record_retry_outcome) refl

  report_on_effect :
      (p : ProcessorName) (b : Bool) (tx : Transaction F) (s : System F) (ts : List (Transaction F))
      {old : Transaction F}
      → Represents s.store ts
      → find tx.id ts ≡ some old
      → let now = env.now s.clock_reads in
        let (result, s') = report_on p b (ok tx) s in
        (result ≡ ok tt)
        × Represents s'.store (replace (with_outcome now b tx) ts)
        × (s'.adaptive_data ≡ record_adaptive tx.original_event.failure_code p b s.adaptive_data)
        × (s'.health_tracker
            ≡ record_outcome (env.now (s.clock_reads + 1)) s.health_tracker p b now)
  unfolding report_on record_health record_retry time_now update
  report_on_effect p b tx s ts r e =
      let now = env.now s.clock_reads in
      let tx' = with_outcome now b tx in
      let e' : find tx'.id ts ≡ some _ = ap (λ i. find i ts) (id-with_outcome now b tx) ∙ e in
      let both = update_transaction-Represents s.store ts tx' r in
      (
        both.0
            ∙ ap (λ (q : Result (Unit {0}) × List (Transaction F)). q.0) (updated_found tx' ts e'),
        subst
            (λ (q : Result (Unit {0}) × List (Transaction F)).
              Represents (update_transaction s.store tx').1 q.1)
            (updated_found tx' ts e') both.1,
        refl,
        refl,
      )

  -- A report about a stored transaction always succeeds: the tracker records the outcome at the
  -- present, the adaptive data count it for the transaction's failure code, and in the store only
  -- this transaction changes. It becomes RECOVERED if a success is reported and it is RETRYING or
  -- EXHAUSTED, and stays as it is otherwise: no hard decline is ever recovered.
  pub record_retry_outcome_effect :
      (id : String) (p : ProcessorName) (b : Bool) (s : System F) (ts : List (Transaction F))
      (tx : Transaction F)
      → Represents s.store ts
      → find id ts ≡ some tx
      → let now = env.now s.clock_reads in
        let (result, s') = record_retry_outcome id p b s in
        let recovers = b && is_recoverable tx.status in
        (result ≡ ok tt)
        × Represents s'.store (replace (if recovers then mark_recovered now tx else tx) ts)
        × (s'.adaptive_data ≡ record_adaptive tx.original_event.failure_code p b s.adaptive_data)
        × (s'.health_tracker
            ≡ record_outcome (env.now (s.clock_reads + 1)) s.health_tracker p b now)
  unfolding with_outcome
  record_retry_outcome_effect id p b s ts tx r e =
      rw (record_retry_outcome-found id p b s ts r e)
        (report_on_effect p b tx s ts r (ap (λ i. find i ts) (found_id id ts tx e) ∙ e))
